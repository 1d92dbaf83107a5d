-- ===== src/Scanner/Invite/Entries.antt =====
-- What `ensureUserInvitations` reports: one entry for each email, and whether anything waits.
use maintainer_d.Base.{
  ℕ, Text, text, to_lower, ◌≡◌, refl, ap₂, ◌⊎◌, inl, inr, Bool, true, false, ◌||◌, Option, none,
  List, [], ◌∷◌, any, All, map, arith, Bool-cases,
}
use maintainer_d.Base.Dict.{Dict, get}
use maintainer_d.Fossa.{FossaClient, Result, wrap, ok, err, User, Error}
use maintainer_d.Scanner.Types.{FossaUserInvitation, pending, accepted, failed, is_pending}
use maintainer_d.Scanner.Invite.{
  user_emails_has, existing_map, after_send, after_check, invite_one, invite_all, after_users,
  ensure_user_invitations,
}

-- The entry of one email: its status is one of three, it waits exactly if it is pending, and it has
-- the times that go with its status.
pub record IsEntry (email : Text) (inv : FossaUserInvitation) (waits : Bool) : Type 0 where
  pub same_email : inv.email ≡ email
  pub waits_iff : waits ≡ is_pending inv.status
  pub status : (inv.status ≡ pending) ⊎ ((inv.status ≡ accepted) ⊎ (inv.status ≡ failed))
  pub not_added : inv.added_to_team_at ≡ none

after_send-IsEntry :
    (email : Text) (now : ℕ) (answer : Option Error)
    → IsEntry email (after_send email now answer).0 (after_send email now answer).1
unfolding after_send
after_send-IsEntry email now answer = ground arith

-- Something is pending.
abbrev pub waiting : List FossaUserInvitation → Bool
waiting = any (λ (inv : FossaUserInvitation). is_pending inv.status)

-- One entry for each email, in order, and the flag of the whole list.
abbrev pub IsReport : List Text → List FossaUserInvitation × Bool → Type 0
IsReport emails (invs, waits) =
    (map FossaUserInvitation.email invs ≡ emails)
    × All
        (λ (inv : FossaUserInvitation).
          ((inv.status ≡ pending) ⊎ ((inv.status ≡ accepted) ⊎ (inv.status ≡ failed)))
          × (inv.added_to_team_at ≡ none))
        invs
    × (waits ≡ waiting invs)

IsReport-cons :
    (email : Text) (emails : List Text) (inv : FossaUserInvitation) (w : Bool)
    (invs : List FossaUserInvitation) (ws : Bool)
    → IsEntry email inv w
    → IsReport emails (invs, ws)
    → IsReport (email ∷ emails) (inv ∷ invs, w || ws)
IsReport-cons email emails inv w invs ws e (same, entries, flag) =
    (ap₂ ◌∷◌ e.same_email same, ((e.status, e.not_added), entries), ap₂ ◌||◌ e.waits_iff flag)

abbrev pub Reports :
    Result (List User) → List Text → Result (List FossaUserInvitation × Bool) → Type 0
Reports (ok users) emails (ok r) = IsReport emails r
Reports (err e) emails (err e') = e' ≡ wrap (text "failed to fetch FOSSA users: ") e
Reports _ emails _ = ⊥

module _ {W : Type 0} (fossa : FossaClient W) (clock : W → ℕ) where
  after_check-IsEntry :
      (existing : Option FossaUserInvitation) (email : Text) (now : ℕ) (checked : Result Bool)
      (w : W)
      → IsEntry email
          (after_check fossa clock existing email now checked w).0.0
          (after_check fossa clock existing email now checked w).0.1
  unfolding after_check
  after_check-IsEntry existing email now (err e) w = ground arith
  after_check-IsEntry existing email now (ok true) w = ground arith
  after_check-IsEntry existing email now (ok false) w = after_send-IsEntry email now _

  invite_one-IsEntry :
      (existing : Dict FossaUserInvitation) (users : List User) (email : Text) (w : W)
      → IsEntry email
          (invite_one fossa clock existing users email w).0.0
          (invite_one fossa clock existing users email w).0.1
  unfolding invite_one
  invite_one-IsEntry existing users email w =
      elim (Bool-cases (user_emails_has users (to_lower email))) [
        | inl member ↦ rw member (ground arith)
        | inr other ↦
            let (checked, w') = fossa.has_pending_invitation email w in
            rw other
              (after_check-IsEntry (get (to_lower email) existing) email (clock w) checked w')
      ]

  invite_all-IsReport :
      (existing : Dict FossaUserInvitation) (users : List User) (emails : List Text) (w : W)
      → IsReport emails (invite_all fossa clock existing users emails w).0
  unfolding invite_all
  invite_all-IsReport existing users [] w = (refl, tt, refl)
  invite_all-IsReport existing users (email ∷ emails) w =
      let ((inv, waits), w') = invite_one fossa clock existing users email w in
      let ((invs, wait), w'') = invite_all fossa clock existing users emails w' in
      IsReport-cons email emails inv waits invs wait (invite_one-IsEntry existing users email w)
        (invite_all-IsReport existing users emails w')

  after_users-Reports :
      (emails : List Text) (existing : List FossaUserInvitation) (answer : Result (List User))
      (w : W)
      → Reports answer emails (after_users fossa clock emails existing answer w).0
  unfolding after_users
  after_users-Reports emails existing (err e) w = refl
  after_users-Reports emails existing (ok users) w =
      invite_all-IsReport (existing_map [] existing) users emails w

  -- `ensure_user_invitations` fails exactly if the users cannot be fetched, with that error
  -- wrapped. Otherwise
  -- it reports one invitation for each email, in the order of the emails; each is pending, accepted
  -- or failed and not yet on the team; and the flag that it returns tells whether one is pending.
  pub ensure_user_invitations-Reports :
      (emails : List Text) (existing : List FossaUserInvitation) (w : W)
      → Reports
          (fossa.fetch_users w).0
          emails
          (ensure_user_invitations fossa clock emails existing w).0
  unfolding ensure_user_invitations
  ensure_user_invitations-Reports emails existing w =
      after_users-Reports emails existing (fossa.fetch_users w).0 (fossa.fetch_users w).1
