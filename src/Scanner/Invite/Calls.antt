-- ===== src/Scanner/Invite/Calls.antt =====
-- Which calls `ensureUserInvitations` makes: the protocol that it keeps with FOSSA.
use mathlib.Core.List.{append_assoc, append-nil}
use maintainer_d.Base.{
  ℕ, Text, to_lower, ◌≡◌, refl, sym, ap, ◌∙◌, Bool, true, false, Option, List, [], ◌∷◌, ◌++◌,
  Bool-cases, inl, inr,
}
use maintainer_d.Base.Dict.{Dict, get}
use maintainer_d.Fossa.{FossaClient, Result, ok, err, User, Error}
use maintainer_d.Fossa.Trace.{Call, checked, invited, Traced, traced}
use maintainer_d.Scanner.Types.{FossaUserInvitation}
use maintainer_d.Scanner.Invite.{
  user_emails_has, existing_map, after_check, invite_one, invite_all, after_users,
  ensure_user_invitations,
}

-- The calls for one email: none for a member of the organization; else a check; and an invitation
-- only if the check has found that none is pending.
pub data Protocol (users : List User) (email : Text) : List Call → Type 0 where
  is_member : user_emails_has users (to_lower email) ≡ true → Protocol users email []
  cannot_check :
      (e : Error)
      → user_emails_has users (to_lower email) ≡ false
      → Protocol users email (checked email (err e) ∷ [])
  waits :
      user_emails_has users (to_lower email) ≡ false
      → Protocol users email (checked email (ok true) ∷ [])
  invites :
      user_emails_has users (to_lower email) ≡ false
      → Protocol users email (checked email (ok false) ∷ invited email ∷ [])

-- The calls for a list of emails, one block after the other.
pub data Protocols (users : List User) : List Text → List Call → Type 0 where
  done : Protocols users [] []
  step :
      {email : Text} {emails : List Text} {calls more all : List Call}
      → Protocol users email calls
      → Protocols users emails more
      → all ≡ calls ++ more
      → Protocols users (email ∷ emails) all

module _ {W : Type 0} (fossa : FossaClient W) (clock : Traced W → ℕ) where
  -- The calls that a step adds to those made before.
  abbrev pub Adds : {A : Type 0} → (List Call → Type 0) → Traced W → A × Traced W → Type 0
  Adds P t r = (calls : List Call) × P calls × (r.1.calls ≡ t.calls ++ calls)

  after_check-Protocol :
      (users : List User) (existing : Option FossaUserInvitation) (email : Text) (now : ℕ)
      (answer : Result Bool) (before : List Call) (t : Traced W)
      → user_emails_has users (to_lower email) ≡ false
      → t.calls ≡ before ++ checked email answer ∷ []
      → (calls : List Call) × Protocol users email calls
        × ((after_check (traced fossa) clock existing email now answer t).1.calls ≡ before ++ calls)
  unfolding after_check
  after_check-Protocol users existing email now (err e) before t other h =
      (_, cannot_check e other, h)
  after_check-Protocol users existing email now (ok true) before t other h = (_, waits other, h)
  after_check-Protocol users existing email now (ok false) before t other h =
      (_, invites other, ap (λ cs. cs ++ invited email ∷ []) h ∙ append_assoc before _ _)

  invite_one-Protocol :
      (existing : Dict FossaUserInvitation) (users : List User) (email : Text) (t : Traced W)
      → Adds (Protocol users email) t (invite_one (traced fossa) clock existing users email t)
  unfolding invite_one
  invite_one-Protocol existing users email t =
      elim (Bool-cases (user_emails_has users (to_lower email))) [
        | inl member ↦ rw member ([], is_member member, sym (append-nil t.calls))
        | inr other ↦
            let (answer, t') = (traced fossa).has_pending_invitation email t in
            rw other (
              after_check-Protocol users (get (to_lower email) existing) email (clock t) answer
                t.calls t' other refl)
      ]

  invite_all-Protocols :
      (existing : Dict FossaUserInvitation) (users : List User) (emails : List Text) (t : Traced W)
      → Adds (Protocols users emails) t (invite_all (traced fossa) clock existing users emails t)
  unfolding invite_all
  invite_all-Protocols existing users [] t = ([], done, sym (append-nil t.calls))
  invite_all-Protocols existing users (email ∷ emails) t =
      let (r, t') = invite_one (traced fossa) clock existing users email t in
      let (calls, one, e) = invite_one-Protocol existing users email t in
      let (more, rest, f) = invite_all-Protocols existing users emails t' in
      (
        calls ++ more,
        step one rest refl,
        f ∙ ap (λ cs. cs ++ more) e ∙ append_assoc t.calls calls more,
      )

  -- If the users of the organization can be fetched, the calls of `ensure_user_invitations` are, for
  -- each email in order, a block of its protocol: a member is neither looked up nor invited, and an
  -- invitation goes out only directly after a look-up that found none pending.
  pub ensure_user_invitations-Protocols :
      (emails : List Text) (existing : List FossaUserInvitation) (t : Traced W) (users : List User)
      → (fossa.fetch_users t.world).0 ≡ ok users
      → Adds
          (Protocols users emails)
          t
          (ensure_user_invitations (traced fossa) clock emails existing t)
  unfolding ensure_user_invitations after_users
  ensure_user_invitations-Protocols emails existing t users fetched =
      let t' : Traced W = ((traced fossa).fetch_users t).1 in
      let (calls, p, e) = invite_all-Protocols (existing_map [] existing) users emails t' in
      rw fetched (calls, p, e ∙ ap (λ cs. cs ++ calls) (append-nil t.calls))
