-- ===== src/Sync/Specs/Laws.antt =====
-- What the comparisons of specifications decide.
use maintainer_d.Base.{
  ℕ, suc, ◌≤◌, Text, ◌==◌, eq_iff, eq_refl, ◌≡◌, refl, sym, Bool, true, false, Option, none, some,
  List, [], ◌∷◌, all, length, arith, eqb_iff, and-true, Bool-cases, inl, inr, if◌then◌else◌,
}
use maintainer_d.Sync.Specs.{
  MaintainerSpec, StaffMemberSpec, ProjectSpec, ProjectMembershipSpec, time_ptr_equal, ref_equal,
  has, project_spec_equal, maintainer_spec_equal, staff_spec_equal, membership_spec_equal,
}

ref_equal_refl : (r : Option Text) → ref_equal r r ≡ true
unfolding ref_equal
ref_equal_refl none = refl
ref_equal_refl (some a) = eq_refl a

time_ptr_equal_refl : (t : Option ℕ) → time_ptr_equal t t ≡ true
unfolding time_ptr_equal
time_ptr_equal_refl none = refl
time_ptr_equal_refl (some a) = (eqb_iff a a).1 refl

ref_equal_iff : (r s : Option Text) → ref_equal r s ≡ true → r ≡ s
unfolding ref_equal
ref_equal_iff none none h = refl
ref_equal_iff none (some b) h = ground (arith, h)
ref_equal_iff (some a) none h = ground (arith, h)
ref_equal_iff (some a) (some b) h = ground (arith, (eq_iff a b).0 h)

-- Each member of a list is in a longer one that has its members.
abbrev Within : List Text → List Text → Type 0
Within xs ys = (x : Text) → has x xs ≡ true → has x ys ≡ true

-- No name twice.
abbrev pub IsDistinctNames : List Text → Type 0
IsDistinctNames [] = Unit
IsDistinctNames (x ∷ xs) = (has x xs ≡ false) × IsDistinctNames xs

all-Within : (xs ys : List Text) → all (λ (r : Text). has r ys) xs ≡ true → Within xs ys
unfolding has
all-Within [] ys h x member = ground (arith, member)
all-Within (z ∷ xs) ys h x member = ground (arith, eq_iff z x, all-Within xs ys _ x)

remove_one : Text → List Text → List Text
remove_one x [] = []
remove_one x (y ∷ ys) = let rest = remove_one x ys in if y == x then ys else y ∷ rest

length-remove_one :
    (x : Text) (ys : List Text) → has x ys ≡ true → length ys ≡ suc (length (remove_one x ys))
unfolding remove_one has
length-remove_one x [] h = ground (arith, h)
length-remove_one x (y ∷ ys) h = elim (Bool-cases (y == x)) [
  | inl same ↦ rw same refl
  | inr other ↦ rw other (omega (arith, length-remove_one x ys (ground (arith, h, other))))
]

has-remove_one :
    (x z : Text) (ys : List Text)
    → (z == x) ≡ false
    → has x ys ≡ true
    → has x (remove_one z ys) ≡ true
unfolding remove_one has
has-remove_one x z [] other h = h
has-remove_one x z (y ∷ ys) other h =
    ground (arith, has-remove_one x z ys other, eq_iff y z, eq_iff z x, eq_iff y x)

has_tail : (x z : Text) (xs : List Text) → has x xs ≡ true → has x (z ∷ xs) ≡ true
unfolding has
has_tail x z xs h = ground (arith, h)

has_head : (x : Text) (xs : List Text) → has x (x ∷ xs) ≡ true
unfolding has
has_head x xs = ground (arith, eq_refl x)

-- The pigeonhole principle for names.
distinct_bounded : (xs ys : List Text) → IsDistinctNames xs → Within xs ys → length xs ≤ length ys
distinct_bounded [] ys h within = omega arith
distinct_bounded (z ∷ xs) ys (new, distinct) within =
    let taken = length-remove_one z ys (within z (has_head z xs)) in
    let rest = distinct_bounded xs (remove_one z ys) distinct (λ x member.
      has-remove_one x z ys (ground (arith, new, member, eq_iff z x))
        (within x (has_tail x z xs member))) in
    omega (arith, taken, rest)

Within-back :
    (xs ys : List Text) → IsDistinctNames xs → Within xs ys → length ys ≡ length xs → Within ys xs
unfolding has
Within-back xs ys distinct within same x member = elim (Bool-cases (has x xs)) [
  | inl there ↦ there
  | inr missing ↦
      let more =
        distinct_bounded (x ∷ xs) ys (missing, distinct)
          (λ y h. ground (arith, eq_iff x y, within y, member)) in
      absurd (omega (arith, more, same))
]

all-has_refl : (xs ys : List Text) → Within xs ys → all (λ (r : Text). has r ys) xs ≡ true
all-has_refl [] ys h = refl
all-has_refl (z ∷ xs) ys h =
    ground
      (arith, h z (has_head z xs), all-has_refl xs ys (λ x member. h x (has_tail x z xs member)))

pub maintainer_spec_equal_refl : (a : MaintainerSpec) → maintainer_spec_equal a a ≡ true
unfolding maintainer_spec_equal
maintainer_spec_equal_refl a =
    rw
      (
        eq_refl a.display_name,
        eq_refl a.primary_email,
        eq_refl a.git_hub_account,
        eq_refl a.git_hub_email,
        eq_refl a.lifecycle,
        time_ptr_equal_refl a.registered_at,
      )
      (ref_equal_refl a.company_ref)

pub staff_spec_equal_refl : (a : StaffMemberSpec) → staff_spec_equal a a ≡ true
unfolding staff_spec_equal
staff_spec_equal_refl a =
    rw
      (
        eq_refl a.display_name,
        eq_refl a.primary_email,
        eq_refl a.git_hub_account,
        eq_refl a.git_hub_email,
        time_ptr_equal_refl a.registered_at,
      )
      (ref_equal_refl a.foundation_ref)

pub membership_spec_equal_refl : (a : ProjectMembershipSpec) → membership_spec_equal a a ≡ true
unfolding membership_spec_equal
membership_spec_equal_refl a = rw (eq_refl a.project_ref) (eq_refl a.maintainer_ref)

pub project_spec_equal_refl : (a : ProjectSpec) → project_spec_equal a a ≡ true
unfolding project_spec_equal
project_spec_equal_refl a =
    rw
      (
        eq_refl a.display_name,
        eq_refl a.maturity,
        eq_refl a.mailing_list,
        eq_refl a.onboarding_issue,
        ref_equal_refl a.parent_project_ref,
        ref_equal_refl a.maintainer_lead_ref,
        (eqb_iff (length a.maintainer_refs) (length a.maintainer_refs)).1 refl,
      )
      (all-has_refl a.maintainer_refs a.maintainer_refs (λ x h. h))

same_answer : (a b : Bool) → (a ≡ true → b ≡ true) → (b ≡ true → a ≡ true) → a ≡ b
same_answer true b f g = sym (f refl)
same_answer false true f g = g refl
same_answer false false f g = refl

-- Two project specifications agree: the same texts and references, and the same set of maintainers.
abbrev pub Agrees : ProjectSpec → ProjectSpec → Type 0
Agrees a b =
    (a.display_name ≡ b.display_name)
    × (a.maturity ≡ b.maturity)
    × (a.mailing_list ≡ b.mailing_list)
    × (a.onboarding_issue ≡ b.onboarding_issue)
    × (a.parent_project_ref ≡ b.parent_project_ref)
    × (a.maintainer_lead_ref ≡ b.maintainer_lead_ref)
    × ((x : Text) → has x a.maintainer_refs ≡ has x b.maintainer_refs)

-- If the specification from the register names no maintainer twice, one that `project_spec_equal`
-- finds equal to it agrees with it: in the texts and references, and in the set of maintainers.
pub project_spec_equal-Agrees :
    (a b : ProjectSpec)
    → IsDistinctNames b.maintainer_refs
    → project_spec_equal a b ≡ true
    → Agrees a b
unfolding project_spec_equal
project_spec_equal-Agrees a b distinct h =
    let (firsts, names) = and-true _ _ h in
    let (firsts2, sizes) = and-true _ _ firsts in
    let (firsts3, lead) = and-true _ _ firsts2 in
    let (texts, parent) = and-true _ _ firsts3 in
    let (texts2, issue) = and-true _ _ texts in
    let (texts3, mail) = and-true _ _ texts2 in
    let (name, maturity) = and-true _ _ texts3 in
    let within = all-Within b.maintainer_refs a.maintainer_refs names in
    let back =
      Within-back b.maintainer_refs a.maintainer_refs distinct within ((eqb_iff _ _).0 sizes) in
    (
      (eq_iff _ _).0 name,
      (eq_iff _ _).0 maturity,
      (eq_iff _ _).0 mail,
      (eq_iff _ _).0 issue,
      ref_equal_iff _ _ parent,
      ref_equal_iff _ _ lead,
      λ x. same_answer _ _ (back x) (within x),
    )
