-- ===== src/Web/Company/Groups.antt =====
-- groupCompanyDuplicates of cmd/web-bff/main.go.
use maintainer_d.Base.{
  ℕ, Text, ◌==◌, to_lower, trim_space, ltb, eqb, length, Bool, true, false, ◌||◌, ◌&&◌, List, [],
  ◌∷◌, ◌++◌, if◌then◌else◌,
}
use maintainer_d.Base.Dict.{Dict}

pub record CompanyDetail : Type 0 where
  pub id : ℕ
  pub name : Text
  pub maintainer_count : ℕ

pub record Group : Type 0 where
  pub canonical : Text
  pub variants : List CompanyDetail

-- Go's order on strings.
unfoldable pub text_less : Text → Text → Bool
text_less s [] = false
text_less [] (b ∷ t) = true
text_less (a ∷ s) (b ∷ t) = ltb a b || (eqb a b && text_less s t)

unfoldable pub name_key : CompanyDetail → Text
unfolding to_lower trim_space
name_key c = to_lower (trim_space c.name)

-- `buckets[key] = append(buckets[key], c)`
unfoldable pub add_to : Text → CompanyDetail → Dict (List CompanyDetail) → Dict (List CompanyDetail)
unfolding ◌==◌
add_to k c [] = (k, c ∷ []) ∷ []
add_to k c ((j, cs) ∷ m) =
    let rest = add_to k c m in if j == k then (j, cs ++ c ∷ []) ∷ m else (j, cs) ∷ rest

unfoldable pub bucket : Dict (List CompanyDetail) → List CompanyDetail → Dict (List CompanyDetail)
unfolding add_to name_key
bucket m [] = m
bucket m (c ∷ cs) = bucket (add_to (name_key c) c m) cs

unfoldable pub large_groups : Dict (List CompanyDetail) → List Group
large_groups [] = []
large_groups ((k, cs) ∷ m) =
    let rest = large_groups m in
    if ltb (length cs) 2 then rest else record { canonical = k; variants = cs } ∷ rest

-- sort.Slice by the canonical name, which no two groups share.
unfoldable pub insert_group : Group → List Group → List Group
unfolding text_less
insert_group g [] = g ∷ []
insert_group g (h ∷ hs) =
    let rest = insert_group g hs in
    if text_less h.canonical g.canonical then h ∷ rest else g ∷ h ∷ hs

unfoldable pub sort_groups : List Group → List Group
unfolding insert_group
sort_groups [] = []
sort_groups (g ∷ gs) = insert_group g (sort_groups gs)

unfoldable pub group_company_duplicates : List CompanyDetail → List Group
unfolding sort_groups large_groups bucket
group_company_duplicates cs = sort_groups (large_groups (bucket [] cs))
