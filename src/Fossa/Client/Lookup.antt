-- ===== src/Fossa/Client/Lookup.antt =====
-- The look-up of a user by email, and the kinds of errors, in plugins/fossa/client.go.
use mathlib.Core.Option.{some-injective}
use maintainer_d.Base.{
  or-true, if-Splits, ℕ, Text, ◌==◌, eq_iff, true, ◌≡◌, ◌≢◌, refl, sym, ap, subst, ◌↔◌, ◌⊎◌, inl,
  inr, Option, none, some, List, [], ◌∷◌, arith, Bool-cases,
}
use maintainer_d.Fossa.{Result, ok, err, User}
use maintainer_d.Fossa.Answers.{
  matches_email, user_id_in, or_not_found, not_found, normalize_email, user_matches, first_match,
}

-- The user has the email, up to case and spaces around it, as any of the three.
abbrev pub HasEmail : Text → User → Type 0
HasEmail target u =
    (normalize_email u.email ≡ target)
    ⊎ ((e : Text) × ((u.git_hub_email ≡ some e) ⊎ (u.bitbucket_email ≡ some e))
        × (normalize_email e ≡ target))

-- `id` is that of the first user with the email.
pub data IsFirst (target : Text) (id : ℕ) : List User → Type 0 where
  here : (u : User) (us : List User) → HasEmail target u → u.id ≡ id → IsFirst target id (u ∷ us)
  there :
      (u : User) (us : List User)
      → (HasEmail target u → ⊥)
      → IsFirst target id us
      → IsFirst target id (u ∷ us)

matches-Has :
    (target : Text) (o : Option Text)
    → matches_email target o ≡ true
    → (e : Text) × (o ≡ some e) × (normalize_email e ≡ target)
matches-Has target none h = absurd (ground arith)
matches-Has target (some e) h = (e, refl, (eq_iff _ _).0 h)

Has-matches :
    (target e : Text) (o : Option Text)
    → o ≡ some e
    → normalize_email e ≡ target
    → matches_email target o ≡ true
Has-matches target e o same eq =
    subst (λ p. matches_email target p ≡ true) (sym same) ((eq_iff _ _).1 eq)

user_matches-HasEmail :
    (target : Text) (u : User) → user_matches target u ≡ true → HasEmail target u
unfolding user_matches
user_matches-HasEmail target u h = elim (or-true _ _ h) [
  | inr bucket ↦
      let (e, same, eq) = matches-Has target u.bitbucket_email bucket in inr (e, inr same, eq)
  | inl first ↦ elim (or-true _ _ first) [
    | inl own ↦ inl ((eq_iff _ _).0 own)
    | inr hub ↦ let (e, same, eq) = matches-Has target u.git_hub_email hub in inr (e, inl same, eq)
  ]
]

HasEmail-user_matches :
    (target : Text) (u : User) → HasEmail target u → user_matches target u ≡ true
unfolding user_matches
HasEmail-user_matches target u (inl own) =
    ground (arith, (eq_iff (normalize_email u.email) target).1 own)
HasEmail-user_matches target u (inr (e, inl same, eq)) =
    ground (arith, Has-matches target e u.git_hub_email same eq)
HasEmail-user_matches target u (inr (e, inr same, eq)) =
    ground (arith, Has-matches target e u.bitbucket_email same eq)

first_match-IsFirst :
    (target : Text) (us : List User) (id : ℕ)
    → first_match target us ≡ some id
    → IsFirst target id us
unfolding first_match
first_match-IsFirst target [] id h = absurd (ground arith)
first_match-IsFirst target (u ∷ us) id h = elim (Bool-cases (user_matches target u)) [
  | inl match ↦ here u us (user_matches-HasEmail target u match) (some-injective _ _ (ground arith))
  | inr other ↦
      there u us (λ has. ground (arith, HasEmail-user_matches target u has))
        (first_match-IsFirst target us id (ground arith))
]

IsFirst-first_match :
    (target : Text) (us : List User) (id : ℕ)
    → IsFirst target id us
    → first_match target us ≡ some id
unfolding first_match
IsFirst-first_match target [] id first = elim first [ ]
IsFirst-first_match target (u ∷ us) id (here _ _ has same) =
    ground (arith, HasEmail-user_matches target u has, same)
IsFirst-first_match target (u ∷ us) id (there _ _ lacks first) =
    elim (Bool-cases (user_matches target u)) [
      | inl match ↦ absurd (lacks (user_matches-HasEmail target u match))
      | inr other ↦ ground (arith, IsFirst-first_match target us id first)
    ]

id_in : Result ℕ → Option ℕ
id_in (ok id) = some id
id_in (err e) = none

or_not_found-some :
    (email : Text) (o : Option ℕ) (id : ℕ) → or_not_found email o ≡ ok id → o ≡ some id
unfolding id_in
or_not_found-some email none id h = absurd (ground arith)
or_not_found-some email (some i) id h = ap id_in h

-- Among the users that were fetched, the id that is found for an email is that of the first user
-- with that email, up to case and the spaces around it, as the own one or that of either account;
-- none is found exactly if there is no such user or the email is blank.
pub user_id_in_iff :
    (email : Text) (users : List User) (id : ℕ)
    → (user_id_in email (ok users) ≡ ok id)
      ↔ ((normalize_email email ≢ []) × IsFirst (normalize_email email) id users)
unfolding user_id_in
user_id_in_iff email users id = (forth, back)
  where
    forth :
        user_id_in email (ok users) ≡ ok id
        → (normalize_email email ≢ []) × IsFirst (normalize_email email) id users
    forth =
        if-Splits
          (λ r. r ≡ ok id → (normalize_email email ≢ []) × IsFirst (normalize_email email) id users)
          (normalize_email email == []) (err (not_found email))
          (or_not_found email (first_match (normalize_email email) users))
          (λ blank e. absurd (ground arith))
          (λ full e. (
            λ empty. ground (arith, (eq_iff (normalize_email email) []).1 empty),
            first_match-IsFirst (normalize_email email) users id
                (or_not_found-some email (first_match (normalize_email email) users) id e),
          ))

    back :
        (normalize_email email ≢ []) × IsFirst (normalize_email email) id users
        → user_id_in email (ok users) ≡ ok id
    back (ne, first) =
        if-Splits (λ r. r ≡ ok id) (normalize_email email == []) (err (not_found email))
          (or_not_found email (first_match (normalize_email email) users))
          (λ blank. absurd (ne ((eq_iff _ _).0 blank)))
          (λ full.
            ap (or_not_found email) (IsFirst-first_match (normalize_email email) users id first))
