-- ===== src/Scanner/Membership/Keeps.antt =====
-- The emails and the pending invitations under the membership stage.
use maintainer_d.Base.{
  ℕ, Text, to_lower, ◌≡◌, refl, ap₂, inl, inr, Bool, true, false, ◌||◌, Option, List, [], ◌∷◌, map,
  ltb, Bool-cases, arith,
}
use maintainer_d.Fossa.{FossaClient, Result, ok, err, Error}
use maintainer_d.Scanner.Types.{FossaUserInvitation, is_accepted, is_already_member, is_pending}
use maintainer_d.Scanner.Invite.Entries.{waiting}
use maintainer_d.Scanner.Membership.{
  team_member_set_has, after_add, join_one, join_all, after_members, ensure_team_membership,
}
use maintainer_d.Scanner.Kube.{Kube}
use maintainer_d.Scanner.Stages.{joined}

-- The emails are the same, and something waits in the one exactly if it does in the other.
abbrev Same : List FossaUserInvitation → List FossaUserInvitation → Type 0
Same invs invs' =
    (map FossaUserInvitation.email invs' ≡ map FossaUserInvitation.email invs)
    × (waiting invs' ≡ waiting invs)

abbrev SameOne : FossaUserInvitation → FossaUserInvitation → Type 0
SameOne inv inv' = (inv'.email ≡ inv.email) × (is_pending inv'.status ≡ is_pending inv.status)

abbrev eligible : FossaUserInvitation → Bool
eligible inv = is_accepted inv.status || is_already_member inv.status

eligible_waits : (inv : FossaUserInvitation) → eligible inv ≡ true → is_pending inv.status ≡ false
eligible_waits inv h = ground arith

after_add-SameOne :
    (inv : FossaUserInvitation) (now : ℕ) (answer : Option Error)
    → eligible inv ≡ true
    → SameOne inv (after_add inv now answer)
unfolding after_add
after_add-SameOne inv now answer h = ground (arith, eligible_waits inv h)

module _ {W : Type 0} (fossa : FossaClient W) (clock : W → ℕ) where
  join_one-SameOne :
      (team : ℕ) (team_emails : List Text) (inv : FossaUserInvitation) (w : W)
      → SameOne inv (join_one fossa clock team team_emails inv w).0
  unfolding join_one
  join_one-SameOne team team_emails inv w = elim (Bool-cases (eligible inv)) [
    | inr other ↦ rw other (refl, refl)
    | inl mine ↦ elim (Bool-cases (team_member_set_has team_emails (to_lower inv.email))) [
      | inl member ↦ ground (arith, eligible_waits inv mine)
      | inr outside ↦ rw (mine, outside) (after_add-SameOne inv _ _ mine)
    ]
  ]

  join_all-Same :
      (team : ℕ) (team_emails : List Text) (invs : List FossaUserInvitation) (w : W)
      → Same invs (join_all fossa clock team team_emails invs w).0
  unfolding join_all
  join_all-Same team team_emails [] w = (refl, refl)
  join_all-Same team team_emails (inv ∷ invs) w =
      let (inv', w') = join_one fossa clock team team_emails inv w in
      let (email, waits) = join_one-SameOne team team_emails inv w in
      let (emails, wait) = join_all-Same team team_emails invs w' in
      (ap₂ ◌∷◌ email emails, ap₂ ◌||◌ waits wait)

  after_members-Same :
      (team : ℕ) (invs : List FossaUserInvitation) (answer : Result (List Text)) (w : W)
      → Same invs (after_members fossa clock team invs answer w).0.0
  unfolding after_members
  after_members-Same team invs (err e) w = (refl, refl)
  after_members-Same team invs (ok team_emails) w = join_all-Same team team_emails invs w

  pub joined-Same :
      (kube : Kube W) (team : ℕ) (invs : List FossaUserInvitation) (w : W)
      → Same invs (joined kube clock fossa team invs w).0
  unfolding joined ensure_team_membership
  joined-Same kube team invs w = elim (Bool-cases (ltb 0 team)) [
    | inl there ↦ rw there (after_members-Same team invs _ _)
    | inr missing ↦ rw missing (refl, refl)
  ]
