-- ===== src/Fossa/Client/Pages.antt =====
-- The loop of FetchUsers in plugins/fossa/client.go.
use mathlib.Core.List.{append_assoc}
use maintainer_d.Base.{
  ℕ, zero, suc, ◌-◌, ◌*◌, ◌≤◌, ◌<◌, ltb, length, ◌≡◌, refl, sym, ap, ◌∙◌, subst, Option, some, List,
  [], ◌∷◌, ◌++◌, arith, if◌then◌else◌, if-Splits, ltb→lt, ltb→ge,
}
use maintainer_d.Fossa.{Result, ok, err, User}
use maintainer_d.Fossa.Answers.{Http, page_size}
use maintainer_d.Fossa.Client.{fetch_page, after_page, fetch_from, fetch_users}

module _ {A : Type 0} where
  abbrev pub take : ℕ → List A → List A
  take zero xs = []
  take (suc n) [] = []
  take (suc n) (x ∷ xs) = x ∷ take n xs

  abbrev pub drop : ℕ → List A → List A
  drop zero xs = xs
  drop (suc n) [] = []
  drop (suc n) (x ∷ xs) = drop n xs

  take-drop : (n : ℕ) (xs : List A) → take n xs ++ drop n xs ≡ xs
  take-drop zero xs = refl
  take-drop (suc n) [] = refl
  take-drop (suc n) (x ∷ xs) = ap (λ ys. x ∷ ys) (take-drop n xs)

  length-drop : (n : ℕ) (xs : List A) → length (drop n xs) ≡ length xs - n
  length-drop zero xs = omega arith
  length-drop (suc n) [] = omega arith
  length-drop (suc n) (x ∷ xs) = omega (arith, length-drop n xs)

  -- A short page is all that is left.
  take_short : (n : ℕ) (xs : List A) → length (take n xs) < n → (take n xs ≡ xs) × (length xs < n)
  take_short zero xs h = absurd (omega arith)
  take_short (suc n) [] h = (refl, omega arith)
  take_short (suc n) (x ∷ xs) h =
      let (same, short) = take_short n xs (omega arith) in (ap (λ ys. x ∷ ys) same, omega arith)

  take_full : (n : ℕ) (xs : List A) → n ≤ length (take n xs) → n ≤ length xs
  take_full zero xs h = omega arith
  take_full (suc n) [] h = absurd (omega arith)
  take_full (suc n) (x ∷ xs) h = omega (arith, take_full n xs)

  -- The rows from page `p` on.
  abbrev pub rest_from : ℕ → List A → List A
  rest_from zero xs = xs
  rest_from (suc p) xs = rest_from p (drop page_size xs)

  rest_from-suc : (p : ℕ) (xs : List A) → rest_from (suc p) xs ≡ drop page_size (rest_from p xs)
  rest_from-suc zero xs = refl
  rest_from-suc (suc p) xs = rest_from-suc p (drop page_size xs)

abbrev users_in : Result (List User) → List User
users_in (ok us) = us
users_in (err e) = []

module _ {W : Type 0} (http : Http W) where
  -- The service answers each request for a page with that page of the users.
  abbrev pub Serves : List User → Type 0
  Serves users =
      (page : ℕ) (w : W) → (fetch_page http page w).0 ≡ ok (take page_size (rest_from page users))

  IsAll : List User → Option (Result (List User)) × W → Type 0
  IsAll users r = r.0 ≡ some (ok users)

  after_page-IsAll :
      (next : List User → W → Option (Result (List User)) × W) (all users left : List User)
      (r : Result (List User) × W)
      → r.0 ≡ ok (take page_size left)
      → all ++ left ≡ users
      → ((w : W) → page_size ≤ length left → IsAll users (next (all ++ take page_size left) w))
      → IsAll users (after_page http next all r)
  unfolding after_page IsAll
  after_page-IsAll next all users left (err e, w) page whole go = absurd (ground arith)
  after_page-IsAll next all users left (ok page_users, w) page whole go =
      subst
        (λ us.
          IsAll users
            (if ltb (length us) page_size then (some (ok (all ++ us)), w) else next (all ++ us) w))
        (sym (ap users_in page))
        (if-Splits (IsAll users) (ltb (length (take page_size left)) page_size)
          (some (ok (all ++ take page_size left)), w) (next (all ++ take page_size left) w)
          (λ short.
            ap (λ us. some (ok us))
              (ap (λ us. all ++ us) (take_short page_size left (ltb→lt _ _ short)).0 ∙ whole))
          (λ long. go w (take_full page_size left (ltb→ge _ _ long))))

  fetch_from-IsAll :
      (users : List User)
      → Serves users
      → (fuel page : ℕ) (all left : List User) (w : W) → left ≡ rest_from page users
      → all ++ left ≡ users
      → length left < fuel * page_size
      → IsAll users (fetch_from http fuel page all w)
  unfolding fetch_from
  fetch_from-IsAll users serves zero page all left w there whole enough = absurd (omega arith)
  fetch_from-IsAll users serves (suc fuel) page all left w there whole enough =
      after_page-IsAll (λ more w'. fetch_from http fuel (suc page) more w') all users left
        (fetch_page http page w) (serves page w ∙ ap (λ us. ok (take page_size us)) (sym there))
        whole
        (λ w' full.
          fetch_from-IsAll users serves fuel (suc page) (all ++ take page_size left)
            (drop page_size left) w' (ap (drop page_size) there ∙ sym (rest_from-suc page users))
            (append_assoc all (take page_size left) (drop page_size left)
              ∙ ap (λ us. all ++ us) (take-drop page_size left)
              ∙ whole)
            (omega (arith, length-drop page_size left)))

  -- If the service answers each request for a page with that page of a list of users, the loop of
  -- fetch_users ends, and it returns that list, complete and in order: as many rounds are enough as
  -- the list has full pages, and one more.
  pub fetch_users-IsAll :
      (users : List User) (fuel : ℕ) (w : W)
      → Serves users
      → length users < fuel * page_size
      → (fetch_users http fuel w).0 ≡ some (ok users)
  unfolding fetch_users IsAll
  fetch_users-IsAll users fuel w serves enough =
      fetch_from-IsAll users serves fuel 0 [] users w refl refl enough
