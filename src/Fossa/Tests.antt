-- ===== src/Fossa/Tests.antt =====
-- Runs of the client against a service that holds a list of users.
use maintainer_d.Base.{
  ℕ, zero, suc, Text, text, after_prefix, after_prefix-append, ◌==◌, ◌++◌, true, ◌≡◌, ◌≢◌, ◌↔◌,
  refl, ap, ◌∙◌, Option, none, some, List, [], ◌∷◌, arith,
}
use maintainer_d.Base.Decimal.{itoa, parse_digits, parse_digits-itoa}
use maintainer_d.Fossa.{ok, User}
use maintainer_d.Fossa.Answers.{
  Http, users_endpoint, user_id_in, normalize_email, page_size, decoded, decode_body,
}
use maintainer_d.Fossa.Client.{fetch_users, fetch_page, has_pending_invitation}
use maintainer_d.Fossa.Client.Pages.{Serves, fetch_users-IsAll, take, rest_from}
use maintainer_d.Fossa.Client.Lookup.{IsFirst, user_id_in_iff}

abbrev ann : User
ann = record {
  id = 5;
  email = text "Ann@x.io ";
  git_hub_email = none;
  bitbucket_email = some (text "ann@home.io");
}

abbrev repeat : ℕ → List User
repeat zero = []
repeat (suc n) = ann ∷ repeat n

abbrev page_in : List User → Option ℕ → Option (List User)
page_in users none = none
page_in users (some page) = some (take page_size (rest_from page users))

abbrev users_path : Text
users_path = text "/users?count=100&page="

abbrev number : Option Text → Option ℕ
number none = none
number (some digits) = parse_digits 0 digits

-- The body of an answer is the path of its request, which the decoder reads.
abbrev service : List User → Http ℕ
service users = record {
  send = λ verb path payload w. (some (record { status = 200; body = path }), w);
  decode_users = λ body. page_in users (number (after_prefix body users_path));
  decode_teams = λ body. none;
  decode_team = λ body. none;
  decode_members = λ body. none;
  decode_error = λ body. none;
}

number-itoa : (page : ℕ) → number (after_prefix (users_path ++ itoa page) users_path) ≡ some page
number-itoa page = ap number (after_prefix-append users_path (itoa page)) ∙ parse_digits-itoa page

service-Serves : (users : List User) → Serves (service users) users
unfolding fetch_page decoded users_endpoint
service-Serves users page w =
    ap (λ o. decode_body (text "FetchUsers") (page_in users o)) (number-itoa page)

fetch_users-IsAll_example : (fetch_users (service (repeat 101)) 2 0).0 ≡ some (ok (repeat 101))
fetch_users-IsAll_example =
    fetch_users-IsAll (service (repeat 101)) (repeat 101) 2 0 (service-Serves (repeat 101))
      (omega arith)

user_id_in_iff_example : (user_id_in (text " ANN@home.io") (ok (repeat 2)) ≡ ok 5) ↔ (
    (normalize_email (text " ANN@home.io") ≢ [])
    × IsFirst (normalize_email (text " ANN@home.io")) 5 (repeat 2))
user_id_in_iff_example = user_id_in_iff (text " ANN@home.io") (repeat 2) 5

finds_ann : user_id_in (text " ANN@home.io") (ok (repeat 2)) ≡ ok 5
unfolding user_id_in ◌==◌
finds_ann = refl

-- An email that ends another one counts as invited with it.
abbrev invited : Http ℕ
invited = record (service []) {
  send = λ verb path payload w.
      (some (record { status = 200; body = text "[{email: JoAnn@x.io}]" }), w);
}

finds_part : (has_pending_invitation invited (text "ann@x.io") 0).0 ≡ ok true
unfolding has_pending_invitation ◌==◌
finds_part = refl
