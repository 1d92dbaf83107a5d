-- ===== src/Scanner/Conditions/Laws.antt =====
-- What the conditions of the scanner's controller say of the invitations, and what `setCondition`
-- does to a list of conditions.
use maintainer_d.Base.{
  ℕ, ◌+◌, ◌≤◌, ◌<◌, ◌≡◌, ◌≢◌, ◌↔◌, ap, zero, suc, ◌⊎◌, refl, Bool, true, false, List, [], ◌∷◌, All,
  length, any, if◌then◌else◌, arith,
}
use maintainer_d.Scanner.Types.{
  FossaUserInvitation, InvitationStatus, pending, accepted, added_to_team, already_member, failed,
  expired, is_accepted, is_pending,
}
use maintainer_d.Scanner.Conditions.{
  reason_failed, verdict_of, condition_true, Counts, no_counts, count_one, count_all,
  invitations_verdict,
}

abbrev pub IsOnTeam : FossaUserInvitation → Type 0
IsOnTeam inv = (inv.status ≡ added_to_team) ⊎ (inv.status ≡ already_member)

abbrev is_failed : InvitationStatus → Bool
is_failed failed = true
is_failed _ = false

abbrev is_on_team : InvitationStatus → Bool
is_on_team added_to_team = true
is_on_team already_member = true
is_on_team _ = false

abbrev tally : (InvitationStatus → Bool) → List FossaUserInvitation → ℕ
tally p [] = 0
tally p (inv ∷ invs) = (if p inv.status then 1 else 0) + tally p invs

-- What the counters hold, each as a tally of one kind of status.
record IsCount (c c' : Counts) (invs : List FossaUserInvitation) : Type 0 where
  on_team :
      c'.added_to_team + c'.already_member
      ≡ c.added_to_team + c.already_member + tally is_on_team invs
  accepted : c'.accepted ≡ c.accepted + tally is_accepted invs
  pending : c'.pending ≡ c.pending + tally is_pending invs
  failed : c'.failed ≡ c.failed + tally is_failed invs

count_one-IsCount :
    (s : InvitationStatus) (c c' : Counts) (inv : FossaUserInvitation)
    (invs : List FossaUserInvitation)
    → inv.status ≡ s
    → IsCount (count_one s c) c' invs
    → IsCount c c' (inv ∷ invs)
count_one-IsCount pending c c' inv invs e h = rw e (omega arith)
count_one-IsCount accepted c c' inv invs e h = rw e (omega arith)
count_one-IsCount added_to_team c c' inv invs e h = rw e (omega arith)
count_one-IsCount already_member c c' inv invs e h = rw e (omega arith)
count_one-IsCount failed c c' inv invs e h = rw e (omega arith)
count_one-IsCount expired c c' inv invs e h = rw e (omega arith)

count_all-IsCount :
    (c : Counts) (invs : List FossaUserInvitation) → IsCount c (count_all c invs) invs
unfolding count_all
count_all-IsCount c [] = omega arith
count_all-IsCount c (inv ∷ invs) =
    count_one-IsCount inv.status c _ inv invs refl (count_all-IsCount (count_one inv.status c) invs)

tally-le :
    (p : InvitationStatus → Bool) (invs : List FossaUserInvitation) → tally p invs ≤ length invs
tally-le p [] = omega arith
tally-le p (inv ∷ invs) = ground (arith, tally-le p invs)

abbrev AllHave : (InvitationStatus → Bool) → List FossaUserInvitation → Type 0
AllHave p invs = All (λ (inv : FossaUserInvitation). p inv.status ≡ true) invs

tally_full :
    (p : InvitationStatus → Bool) (invs : List FossaUserInvitation)
    → (tally p invs ≡ length invs) ↔ AllHave p invs
tally_full p [] = (λ h. tt, λ h. refl)
tally_full p (inv ∷ invs) = ground (arith, tally_full p invs, tally-le p invs)

tally_zero :
    (p : InvitationStatus → Bool) (invs : List FossaUserInvitation)
    → (tally p invs ≡ 0) ↔ (any (λ (inv : FossaUserInvitation). p inv.status) invs ≡ false)
tally_zero p [] = ground arith
tally_zero p (inv ∷ invs) = ground (arith, tally_zero p invs)

on_team_iff :
    (s : InvitationStatus) → (is_on_team s ≡ true) ↔ ((s ≡ added_to_team) ⊎ (s ≡ already_member))
on_team_iff s = ground arith

AllHave-IsOnTeam : (invs : List FossaUserInvitation) → AllHave is_on_team invs ↔ All IsOnTeam invs
AllHave-IsOnTeam [] = (λ h. h, λ h. h)
AllHave-IsOnTeam (inv ∷ invs) =
    let (to, from) = AllHave-IsOnTeam invs in
    (λ h. ((on_team_iff inv.status).0 h.0, to h.1), λ h. ((on_team_iff inv.status).1 h.0, from h.1))

-- No invitation has the status.
abbrev pub None : InvitationStatus → List FossaUserInvitation → Type 0
None s invs = All (λ (inv : FossaUserInvitation). inv.status ≢ s) invs

tally-None :
    (p : InvitationStatus → Bool) (s : InvitationStatus)
    → ((x : InvitationStatus) → (p x ≡ true) ↔ (x ≡ s))
    → (invs : List FossaUserInvitation) → (tally p invs ≡ 0) ↔ None s invs
tally-None p s only [] = (λ h. tt, λ h. refl)
tally-None p s only (inv ∷ invs) = ground (arith, only inv.status, tally-None p s only invs)

tally-None_on_team :
    (invs : List FossaUserInvitation)
    → (tally is_on_team invs ≡ 0) ↔ (None added_to_team invs × None already_member invs)
tally-None_on_team [] = (λ h. (tt, tt), λ h. refl)
tally-None_on_team (inv ∷ invs) = ground (arith, on_team_iff inv.status, tally-None_on_team invs)

verdict_of_iff :
    (c : Counts) (n : ℕ)
    → (((verdict_of c n).status ≡ condition_true)
        ↔ ((c.added_to_team + c.already_member ≡ n) × (0 < n)))
      × (((verdict_of c n).reason ≡ reason_failed) ↔ (
          (0 < c.failed)
          × (c.added_to_team + c.already_member ≡ 0)
          × (c.accepted ≡ 0)
          × (c.pending ≡ 0)))
verdict_of_iff c n = ground arith

tally-pos : {P : Type 0} (n : ℕ) {m : ℕ} → ¬ P → (n ≡ 0 → P) → m ≡ 0 + n → 0 < m
tally-pos zero refute zero_case e = absurd (refute (zero_case refl))
tally-pos (suc n) refute zero_case e = omega arith

length-pos : (invs : List FossaUserInvitation) → invs ≢ [] → 0 < length invs
length-pos [] h = absurd (h refl)
length-pos (inv ∷ invs) h = omega arith

verdict_true_iff :
    (invs : List FossaUserInvitation)
    → ((invitations_verdict invs).status ≡ condition_true) ↔ ((invs ≢ []) × All IsOnTeam invs)
unfolding invitations_verdict
verdict_true_iff invs =
    let c = count_all-IsCount no_counts invs in
    let (forth, back) = (verdict_of_iff (count_all no_counts invs) (length invs)).0 in
    let (full, unfull) = tally_full is_on_team invs in
    let (to, from) = AllHave-IsOnTeam invs in
    (
      λ h.
          let (counted, some_one) = forth h in
          (λ e. absurd (omega (arith, ap length e)), to (full (omega (arith, c.on_team)))),
      λ h. back (omega (arith, c.on_team, unfull (from h.1)), length-pos invs h.0),
    )

verdict_failed_iff :
    (invs : List FossaUserInvitation)
    → ((invitations_verdict invs).reason ≡ reason_failed) ↔ (
        ¬ (None failed invs)
        × None added_to_team invs
        × None already_member invs
        × None accepted invs
        × None pending invs)
unfolding invitations_verdict
verdict_failed_iff invs =
    let c = count_all-IsCount no_counts invs in
    let (forth, back) = (verdict_of_iff (count_all no_counts invs) (length invs)).1 in
    let (on, off) = tally-None_on_team invs in
    let (failures, no_failures) = tally-None is_failed failed (λ x. ground arith) invs in
    let (accepts, no_accepts) = tally-None is_accepted accepted (λ x. ground arith) invs in
    let (waits, no_waits) = tally-None is_pending pending (λ x. ground arith) invs in
    (
      λ h.
          let (f, o, a, p) = forth h in
          let (added, member) = on (omega (arith, c.on_team)) in
          (
            λ none_failed. absurd (omega (arith, c.failed, no_failures none_failed)),
            added,
            member,
            accepts (omega (arith, c.accepted)),
            waits (omega (arith, c.pending)),
          ),
      λ h. back (
        tally-pos _ h.0 failures c.failed,
        omega (arith, c.on_team, off (h.1, h.2)),
        omega (arith, c.accepted, no_accepts h.3),
        omega (arith, c.pending, no_waits h.4),
      ),
    )

-- The condition is true exactly if there is an invitation and each is on the team: added to it, or a
-- member already. Its reason is that all invitations failed exactly if one failed and none is on the
-- team, accepted or pending.
pub invitations_verdict_iff :
    (invs : List FossaUserInvitation)
    → (((invitations_verdict invs).status ≡ condition_true) ↔ ((invs ≢ []) × All IsOnTeam invs))
      × (((invitations_verdict invs).reason ≡ reason_failed) ↔ (
          ¬ (None failed invs)
          × None added_to_team invs
          × None already_member invs
          × None accepted invs
          × None pending invs))
invitations_verdict_iff invs = (verdict_true_iff invs, verdict_failed_iff invs)
