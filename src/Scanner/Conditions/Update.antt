-- ===== src/Scanner/Conditions/Update.antt =====
-- What `setCondition` of the scanner's controller does to the list of conditions.
use maintainer_d.Base.{
  Text, ◌==◌, eq_iff, eq_refl, ◌≡◌, ◌≢◌, refl, sym, subst, Bool, ◌&&◌, ◌||◌, not, Option, none,
  some, List, [], ◌∷◌, All, if◌then◌else◌, arith, Bool-cases, inl, inr,
}
use maintainer_d.Scanner.Conditions.{same_status, Condition, set_condition}

-- The first condition of a type, as a reader of the status looks it up.
unfoldable pub find_condition : Text → List Condition → Option Condition
find_condition t [] = none
find_condition t (c ∷ cs) = if c.type == t then some c else find_condition t cs

-- `+listType=map`, `+listMapKey=type` in codescannerfossa_types.go: no two have one type.
abbrev pub IsDistinct : List Condition → Type 0
IsDistinct [] = Unit
IsDistinct (c ∷ cs) = All (λ (d : Condition). d.type ≢ c.type) cs × IsDistinct cs

abbrev pub agrees : Condition → Condition → Bool
agrees c new = same_status c.status new.status && c.reason == new.reason

-- What the type's condition becomes: the one that was there, if it agrees on status and reason.
abbrev pub updated : Condition → Option Condition → Condition
updated new none = new
updated new (some old) = if agrees old new then old else new

find-set_condition :
    (new : Condition) (t : Text) (cs : List Condition)
    → find_condition t (set_condition new cs) ≡ (
        if new.type == t
        then some (updated new (find_condition new.type cs))
        else find_condition t cs)
unfolding find_condition set_condition
find-set_condition new t [] = refl
find-set_condition new t (c ∷ cs) =
    ground (
      arith,
      find-set_condition new t cs,
      eq_iff c.type new.type,
      eq_iff c.type t,
      eq_iff new.type t,
    )

All-set_condition :
    (new : Condition) (t : Text) (cs : List Condition)
    → new.type ≢ t
    → All (λ (d : Condition). d.type ≢ t) cs
    → All (λ (d : Condition). d.type ≢ t) (set_condition new cs)
unfolding set_condition
All-set_condition new t [] other h = (other, tt)
All-set_condition new t (c ∷ cs) other (h, hs) = ground (arith, All-set_condition new t cs other hs)

set_condition-IsDistinct :
    (new : Condition) (cs : List Condition) → IsDistinct cs → IsDistinct (set_condition new cs)
unfolding set_condition
set_condition-IsDistinct new [] h = (tt, tt)
set_condition-IsDistinct new (c ∷ cs) (h, hs) = elim (Bool-cases (c.type == new.type)) [
  | inl same ↦
      let e : c.type ≡ new.type = (eq_iff c.type new.type).0 same in
      let all_other : All (λ (d : Condition). d.type ≢ new.type) cs =
        subst (λ t. All (λ (d : Condition). d.type ≢ t) cs) e h in
      elim (Bool-cases (not (same_status c.status new.status) || not (c.reason == new.reason))) [
        | inl changed ↦ rw (same, changed) (all_other, hs)
        | inr kept ↦ rw (same, kept) (h, hs)
      ]
  | inr other ↦
      let differs : new.type ≢ c.type = λ e. ground (arith, other, eq_refl c.type, sym e) in
      rw other (All-set_condition new c.type cs differs h, set_condition-IsDistinct new cs hs)
]

-- From a list without two conditions of one type, `set_condition` makes another such list; in it a
-- look-up of the new condition's type finds the old condition if that agrees on status and reason,
-- and else the new one; a look-up of any other type finds what it found before.
pub set_condition-agrees :
    (new : Condition) (cs : List Condition)
    → IsDistinct cs
    → IsDistinct (set_condition new cs)
      × (find_condition new.type (set_condition new cs)
          ≡ some (updated new (find_condition new.type cs)))
      × ((t : Text) → new.type ≢ t → find_condition t (set_condition new cs) ≡ find_condition t cs)
set_condition-agrees new cs h = (
  set_condition-IsDistinct new cs h,
  ground (arith, find-set_condition new new.type cs, eq_refl new.type),
  λ t other. ground (arith, find-set_condition new t cs, eq_iff new.type t),
)
