-- ===== src/Sync/Specs.antt =====
-- The specifications that cmd/sync/main.go writes, and its comparisons of them: of
-- apis/maintainers/v1alpha1/types.go the fields that it sets. A reference is the name in it.
pub mod Laws
use maintainer_d.Base.{
  ℕ, Text, ◌==◌, Bool, true, false, ◌&&◌, Option, none, some, List, any, all, length, eqb,
}

pub record MaintainerSpec : Type 0 where
  pub display_name : Text
  pub primary_email : Text
  pub git_hub_account : Text
  pub git_hub_email : Text
  pub lifecycle : Text
  pub company_ref : Option Text
  pub registered_at : Option ℕ

pub record StaffMemberSpec : Type 0 where
  pub display_name : Text
  pub primary_email : Text
  pub git_hub_account : Text
  pub git_hub_email : Text
  pub foundation_ref : Option Text
  pub registered_at : Option ℕ

pub record ProjectSpec : Type 0 where
  pub display_name : Text
  pub maturity : Text
  pub parent_project_ref : Option Text
  pub maintainer_lead_ref : Option Text
  pub onboarding_issue : Text
  pub mailing_list : Text
  pub maintainer_refs : List Text

pub record ProjectMembershipSpec : Type 0 where
  pub project_ref : Text
  pub maintainer_ref : Text

unfoldable pub time_ptr_equal : Option ℕ → Option ℕ → Bool
time_ptr_equal none none = true
time_ptr_equal (some a) (some b) = eqb a b
time_ptr_equal _ _ = false

-- `(a == nil) == (b == nil)`, and the same names where both are there.
unfoldable pub ref_equal : Option Text → Option Text → Bool
unfolding ◌==◌
ref_equal none none = true
ref_equal (some a) (some b) = a == b
ref_equal _ _ = false

-- Membership in the set `ma` of names.
unfoldable pub has : Text → List Text → Bool
unfolding ◌==◌
has x xs = any (λ (y : Text). y == x) xs

unfoldable pub project_spec_equal : ProjectSpec → ProjectSpec → Bool
unfolding ref_equal has ◌==◌
project_spec_equal a b =
    (a.display_name == b.display_name
      && a.maturity == b.maturity
      && a.mailing_list == b.mailing_list
      && a.onboarding_issue == b.onboarding_issue)
    && ref_equal a.parent_project_ref b.parent_project_ref
    && ref_equal a.maintainer_lead_ref b.maintainer_lead_ref
    && eqb (length a.maintainer_refs) (length b.maintainer_refs)
    && all (λ (r : Text). has r a.maintainer_refs) b.maintainer_refs

unfoldable pub maintainer_spec_equal : MaintainerSpec → MaintainerSpec → Bool
unfolding ref_equal time_ptr_equal ◌==◌
maintainer_spec_equal a b =
    (a.display_name == b.display_name
      && a.primary_email == b.primary_email
      && a.git_hub_account == b.git_hub_account
      && a.git_hub_email == b.git_hub_email
      && a.lifecycle == b.lifecycle
      && time_ptr_equal a.registered_at b.registered_at)
    && ref_equal a.company_ref b.company_ref

unfoldable pub staff_spec_equal : StaffMemberSpec → StaffMemberSpec → Bool
unfolding ref_equal time_ptr_equal ◌==◌
staff_spec_equal a b =
    (a.display_name == b.display_name
      && a.primary_email == b.primary_email
      && a.git_hub_account == b.git_hub_account
      && a.git_hub_email == b.git_hub_email
      && time_ptr_equal a.registered_at b.registered_at)
    && ref_equal a.foundation_ref b.foundation_ref

-- The test of `syncMemberships`.
unfoldable pub membership_spec_equal : ProjectMembershipSpec → ProjectMembershipSpec → Bool
unfolding ◌==◌
membership_spec_equal a b = a.project_ref == b.project_ref && a.maintainer_ref == b.maintainer_ref
