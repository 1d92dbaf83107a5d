-- ===== src/Scanner/Membership/Calls.antt =====
-- What `ensureTeamMembership` makes of each invitation, with the calls that it makes for it.
use mathlib.Core.List.{append_assoc, append-nil}
use maintainer_d.Base.{
  ℕ, Text, to_lower, ◌≡◌, ◌≢◌, refl, sym, ap, ◌∙◌, subst, inl, inr, Bool, true, false, ◌||◌, Option,
  none, some, List, [], ◌∷◌, ◌++◌, Bool-cases, arith,
}
use maintainer_d.Fossa.{FossaClient, ok, Error, ErrorKind, user_already_member}
use maintainer_d.Fossa.Trace.{Call, added, Traced, traced}
use maintainer_d.Scanner.Types.{
  FossaUserInvitation, add_failed, is_accepted, is_already_member, is_added_to_team,
  user_is_team_member, user_added_to_team,
}
use maintainer_d.Scanner.Membership.{
  team_member_set_has, on_team, after_add, join_one, join_all, after_members,
  ensure_team_membership,
}

-- The invitations that the loop works on.
abbrev eligible : FossaUserInvitation → Bool
eligible inv = is_accepted inv.status || is_already_member inv.status

-- One invitation, the calls for it, and what becomes of it.
pub data Joins (team : ℕ) (team_emails : List Text) (inv : FossaUserInvitation)
    : List Call → FossaUserInvitation → Type 0 where
  idle : eligible inv ≡ false → Joins team team_emails inv [] inv
  is_member :
      (now : ℕ)
      → eligible inv ≡ true
      → team_member_set_has team_emails (to_lower inv.email) ≡ true
      → Joins team team_emails inv [] (on_team inv user_is_team_member now)
  joins :
      (now : ℕ)
      → eligible inv ≡ true
      → team_member_set_has team_emails (to_lower inv.email) ≡ false
      → Joins team team_emails inv
          (added team inv.email none ∷ [])
          (on_team inv user_added_to_team now)
  was_member :
      (now : ℕ) (e : Error)
      → eligible inv ≡ true
      → team_member_set_has team_emails (to_lower inv.email) ≡ false
      → e.kind ≡ user_already_member
      → Joins team team_emails inv
          (added team inv.email (some e) ∷ [])
          (on_team inv user_is_team_member now)
  cannot_join :
      (e : Error)
      → eligible inv ≡ true
      → team_member_set_has team_emails (to_lower inv.email) ≡ false
      → e.kind ≢ user_already_member
      → Joins team team_emails inv
          (added team inv.email (some e) ∷ [])
          (record inv { message = add_failed e.message })

pub data JoinsAll (team : ℕ) (team_emails : List Text)
    : List FossaUserInvitation → List Call → List FossaUserInvitation → Type 0 where
  done : JoinsAll team team_emails [] [] []
  step :
      {inv inv' : FossaUserInvitation} {invs invs' : List FossaUserInvitation}
      {calls more all : List Call}
      → Joins team team_emails inv calls inv'
      → JoinsAll team team_emails invs more invs'
      → all ≡ calls ++ more
      → JoinsAll team team_emails (inv ∷ invs) all (inv' ∷ invs')

eligible_not_added :
    (inv : FossaUserInvitation) → eligible inv ≡ true → is_added_to_team inv.status ≡ false
eligible_not_added inv h = ground arith

module _ {W : Type 0} (fossa : FossaClient W) (clock : Traced W → ℕ) (team : ℕ) where
  after_add-Joins :
      (team_emails : List Text) (inv : FossaUserInvitation) (now : ℕ) (answer : Option Error)
      → eligible inv ≡ true
      → team_member_set_has team_emails (to_lower inv.email) ≡ false
      → Joins team team_emails inv (added team inv.email answer ∷ []) (after_add inv now answer)
  unfolding after_add
  after_add-Joins team_emails inv now none e f = joins now e f
  after_add-Joins team_emails inv now (some x) e f = by_kind x.kind refl
    where
      by_kind :
          (k : ErrorKind)
          → x.kind ≡ k
          → Joins team team_emails inv
              (added team inv.email (some x) ∷ [])
              (after_add inv now (some x))
      by_kind user_already_member h =
          subst (Joins team team_emails inv _) (ground arith) (was_member now x e f h)
      by_kind ErrorKind.other h =
          subst (Joins team team_emails inv _) (ground arith) (cannot_join x e f (ground arith))
      by_kind ErrorKind.invite_already_exists h =
          subst (Joins team team_emails inv _) (ground arith) (cannot_join x e f (ground arith))

  join_one-Joins :
      (team_emails : List Text) (inv : FossaUserInvitation) (t : Traced W)
      → (calls : List Call) × Joins team team_emails inv calls
          (join_one (traced fossa) clock team team_emails inv t).0
        × ((join_one (traced fossa) clock team team_emails inv t).1.calls ≡ t.calls ++ calls)
  unfolding join_one
  join_one-Joins team_emails inv t = elim (Bool-cases (eligible inv)) [
    | inr other ↦ rw other ([], idle other, sym (append-nil t.calls))
    | inl mine ↦ elim (Bool-cases (team_member_set_has team_emails (to_lower inv.email))) [
      | inl member ↦
          rw (mine, member, eligible_not_added inv mine)
            ([], is_member (clock t) mine member, sym (append-nil t.calls))
      | inr outside ↦
          let (answer, t') = (traced fossa).add_user_to_team_by_email team inv.email 0 t in
          rw (mine, outside)
            (
              added team inv.email answer ∷ [],
              after_add-Joins team_emails inv (clock t') answer mine outside,
              refl,
            )
    ]
  ]

  join_all-JoinsAll :
      (team_emails : List Text) (invs : List FossaUserInvitation) (t : Traced W)
      → (calls : List Call) × JoinsAll team team_emails invs calls
          (join_all (traced fossa) clock team team_emails invs t).0
        × ((join_all (traced fossa) clock team team_emails invs t).1.calls ≡ t.calls ++ calls)
  unfolding join_all
  join_all-JoinsAll team_emails [] t = ([], done, sym (append-nil t.calls))
  join_all-JoinsAll team_emails (inv ∷ invs) t =
      let (inv', t') = join_one (traced fossa) clock team team_emails inv t in
      let (calls, one, e) = join_one-Joins team_emails inv t in
      let (more, rest, f) = join_all-JoinsAll team_emails invs t' in
      (
        calls ++ more,
        step one rest refl,
        f ∙ ap (λ cs. cs ++ more) e ∙ append_assoc t.calls calls more,
      )

  -- If the members of the team can be fetched, `ensure_team_membership` returns no error and deals
  -- with the invitations in order, each in one of five ways: one that is not accepted stays as it
  -- is; one whose email the team has, up to case, is marked as added with no call; for any other one
  -- call is made, after which it is marked as added if the call succeeds or says that the user is a
  -- member already, and else keeps its status and takes the error as its message.
  pub ensure_team_membership-JoinsAll :
      (invs : List FossaUserInvitation) (t : Traced W) (team_emails : List Text)
      → (fossa.fetch_team_user_emails team t.world).0 ≡ ok team_emails
      → (calls : List Call) × JoinsAll team team_emails invs calls
          (ensure_team_membership (traced fossa) clock team invs t).0.0
        × ((ensure_team_membership (traced fossa) clock team invs t).0.1 ≡ none)
        × ((ensure_team_membership (traced fossa) clock team invs t).1.calls ≡ t.calls ++ calls)
  unfolding ensure_team_membership after_members
  ensure_team_membership-JoinsAll invs t team_emails fetched =
      let t' : Traced W = ((traced fossa).fetch_team_user_emails team t).1 in
      let (calls, p, e) = join_all-JoinsAll team_emails invs t' in
      rw fetched (calls, p, refl, e ∙ ap (λ cs. cs ++ calls) (append-nil t.calls))
