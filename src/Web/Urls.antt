-- ===== src/Web/Urls.antt =====
-- The functions of cmd/web-bff/main.go that read URLs of GitHub. url.Parse is an argument: the host
-- and the path of a URL, or none if it is no URL.
use maintainer_d.Base.{
  ℕ, Text, text, ◌==◌, trim, trim_space, split_on, eqb, Bool, ◌||◌, not, Option, none, some, List,
  [], ◌∷◌, if◌then◌else◌,
}
use maintainer_d.Base.Decimal.{parse_int}
use maintainer_d.Web.{Checked, refuse, pass, bad_request}
use maintainer_d.Web.Params.{positive}

abbrev pub ParseUrl : Type 0
ParseUrl = Text → Option (Text × Text)

unfoldable pub url_parts : Text → List Text
unfolding split_on trim
url_parts path = split_on b'/' (trim (eqb b'/') path)

unfoldable pub is_github : Text → Bool
unfolding ◌==◌
is_github host = host == text "github.com" || host == text "www.github.com"

-- The owner, the repository and the number of an issue.
unfoldable pub issue_of : List Text → Option (Text × Text × Text)
unfolding ◌==◌
issue_of (owner ∷ repo ∷ kind ∷ number ∷ _) =
    if kind == text "issues" then some (owner, repo, number) else none
issue_of _ = none

unfoldable pub numbered : Text → Text → Option ℕ → Checked (Text × Text × ℕ)
numbered owner repo none = refuse bad_request (text "invalid issue number")
numbered owner repo (some n) = pass (owner, repo, n)

unfoldable pub after_issue : Option (Text × Text × Text) → Checked (Text × Text × ℕ)
unfolding numbered positive parse_int
after_issue none =
    refuse bad_request (text "issue url must be in form https://github.com/org/repo/issues/123")
after_issue (some (owner, repo, number)) = numbered owner repo (positive (parse_int number))

unfoldable pub after_issue_url : Option (Text × Text) → Checked (Text × Text × ℕ)
unfolding after_issue issue_of url_parts is_github
after_issue_url none = refuse bad_request (text "invalid issue url")
after_issue_url (some (host, path)) =
    if not (is_github host)
    then refuse bad_request (text "issue url must be github.com")
    else after_issue (issue_of (url_parts path))

unfoldable pub parse_git_hub_issue_url : ParseUrl → Text → Checked (Text × Text × ℕ)
unfolding after_issue_url
parse_git_hub_issue_url parse raw = after_issue_url (parse raw)

unfoldable pub number_of : Option (Text × Text × Text) → Option ℕ
unfolding positive parse_int
number_of none = none
number_of (some (owner, repo, number)) = positive (parse_int number)

unfoldable pub number_in : Option (Text × Text) → Option ℕ
unfolding number_of issue_of url_parts
number_in none = none
number_in (some (host, path)) = number_of (issue_of (url_parts path))

unfoldable pub issue_number_from_url : ParseUrl → Option Text → Option ℕ
unfolding number_in trim_space ◌==◌
issue_number_from_url parse none = none
issue_number_from_url parse (some raw) =
    if trim_space raw == [] then none else number_in (parse (trim_space raw))

unfoldable pub org_of : List Text → Checked Text
org_of (org ∷ repo ∷ _) = pass org
org_of _ = refuse bad_request (text "maintainer url must include org and repo")

unfoldable pub after_org_url : Option (Text × Text) → Checked Text
unfolding org_of url_parts is_github ◌==◌
after_org_url none = refuse bad_request (text "invalid github url")
after_org_url (some (host, path)) =
    if not (is_github host || host == text "raw.githubusercontent.com")
    then refuse bad_request
        (text "maintainer url must be on github.com or raw.githubusercontent.com")
    else org_of (url_parts path)

unfoldable pub parse_git_hub_org_from_url : ParseUrl → Text → Checked Text
unfolding after_org_url
parse_git_hub_org_from_url parse raw = after_org_url (parse raw)
