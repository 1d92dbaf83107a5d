-- ===== src/Workspaces/Staff/Granted.antt =====
-- Who a staff binding is for, and the workspaces that need one, of staffmember_controller.go and of
-- ListManagedWorkspaces in kdp-workspaces/internal/kcp/workspace.go: as membership in the lists that
-- the servers answer with.
use mathlib.Core.List.{Memᴰ}
use mathlib.Core.List.Memᴰ
use maintainer_d.Base.{
  Text, text, ◌==◌, eq_refl, Bool, true, false, ◌&&◌, Bool-cases, ◌≡◌, refl, sym, inl, inr, Option,
  none, some, List, [], ◌∷◌, ◌++◌, All,
}
use maintainer_d.Base.Dict
use maintainer_d.Workspaces.{WorkspaceInfo, Workspace, Subject, StaffResource}
use maintainer_d.Workspaces.Kcp.{managed_only, operator_name, phase_ready, value_or_empty}
use maintainer_d.Workspaces.Staff.{subjects_of, with_email}

-- The OIDC user of a non-empty email of one of the staff.
abbrev pub IsUserOf : List StaffResource → Subject → Type 0
IsUserOf staff s =
    (m : StaffResource) × (email : Text) × Memᴰ m staff
    × (m.spec ≡ some (some email))
    × ((email == []) ≡ false)
    × (s.kind ≡ text "User")
    × (s.name ≡ text "oidc:" ++ email)

-- The subjects are the users of all the staff with an email, and no others.
abbrev pub AreUsersOf : List StaffResource → List Subject → Type 0
AreUsersOf staff subjects =
    ((m : StaffResource) (email : Text)
      → Memᴰ m staff
      → m.spec ≡ some (some email)
      → (email == []) ≡ false
      → Memᴰ (record { kind = text "User"; name = text "oidc:" ++ email }) subjects)
    × ((s : Subject) → Memᴰ s subjects → IsUserOf staff s)

-- The operator manages the workspace, and it is ready.
abbrev pub IsManaged : Workspace → Type 0
IsManaged ws =
    (Dict.get (text "managed-by") ws.annotations ≡ some operator_name) × (ws.phase ≡ phase_ready)

abbrev user : Text → Subject
user email = record { kind = text "User"; name = text "oidc:" ++ email }

more_staff :
    (m : StaffResource) (staff : List StaffResource) (s : Subject)
    → IsUserOf staff s
    → IsUserOf (m ∷ staff) s
more_staff m staff s (n, email, there, spec, filled, kind, name) =
    (n, email, Memᴰ.tail there, spec, filled, kind, name)

with_email-has :
    (o : Option (Option Text)) (rest : List Subject) (s : Subject)
    → Memᴰ s rest
    → Memᴰ s (with_email o rest)
with_email-has (some (some email)) rest s there = elim (Bool-cases (email == [])) [
  | inl h ↦ rw h there
  | inr h ↦ rw h (Memᴰ.tail there)
]
with_email-has (some none) rest s there = there
with_email-has none rest s there = there

subjects_of-has :
    (staff : List StaffResource) (m : StaffResource) (email : Text)
    → Memᴰ m staff
    → m.spec ≡ some (some email)
    → (email == []) ≡ false
    → Memᴰ (user email) (subjects_of staff)
unfolding subjects_of
subjects_of-has [] m email there spec filled = absurd (Memᴰ.not-nil there)
subjects_of-has (n ∷ staff) m email (Memᴰ.head e) spec filled =
    rw (sym e) (rw spec (rw filled (Memᴰ.head refl)))
subjects_of-has (n ∷ staff) m email (Memᴰ.tail there) spec filled =
    with_email-has n.spec (subjects_of staff) (user email)
      (subjects_of-has staff m email there spec filled)

with_email-only :
    (m : StaffResource) (staff : List StaffResource) (o : Option (Option Text))
    (rest : List Subject) (s : Subject)
    → m.spec ≡ o
    → (Memᴰ s rest → IsUserOf staff s)
    → Memᴰ s (with_email o rest)
    → IsUserOf (m ∷ staff) s
with_email-only m staff (some (some email)) rest s spec old there =
    elim (Bool-cases (email == [])) [
      | inl h ↦ more_staff m staff s (old (rw h at there))
      | inr h ↦ elim (Memᴰ.cases_cons (rw h at there)) [
        | inl e ↦ (m, email, Memᴰ.head refl, spec, h, rw e refl, rw e refl)
        | inr more ↦ more_staff m staff s (old more)
      ]
    ]
with_email-only m staff (some none) rest s spec old there = more_staff m staff s (old there)
with_email-only m staff none rest s spec old there = more_staff m staff s (old there)

subjects_of-only :
    (staff : List StaffResource) (s : Subject) → Memᴰ s (subjects_of staff) → IsUserOf staff s
unfolding subjects_of
subjects_of-only [] s there = absurd (Memᴰ.not-nil there)
subjects_of-only (m ∷ staff) s there =
    with_email-only m staff m.spec (subjects_of staff) s refl (subjects_of-only staff s) there

pub subjects_of-AreUsersOf : (staff : List StaffResource) → AreUsersOf staff (subjects_of staff)
subjects_of-AreUsersOf staff = (subjects_of-has staff, subjects_of-only staff)

-- The condition of the loop of ListManagedWorkspaces.
abbrev is_kept : Workspace → Bool
is_kept ws =
    value_or_empty (text "managed-by") ws.annotations == operator_name && ws.phase == phase_ready

IsManaged-is_kept : (ws : Workspace) → IsManaged ws → is_kept ws ≡ true
IsManaged-is_kept ws (ours, ready) =
    rw (ours, ready, eq_refl operator_name, eq_refl phase_ready) refl

managed_only-keeps :
    (P : WorkspaceInfo → Type 0) (ws : Workspace) (wss : List Workspace)
    → IsManaged ws
    → All P (managed_only (ws ∷ wss))
    → P (record { name = ws.name; url = ws.url; phase = ws.phase; ready = true })
unfolding managed_only
managed_only-keeps P ws wss managed all = (rw (IsManaged-is_kept ws managed) at all).0

managed_only-rest :
    (P : WorkspaceInfo → Type 0) (ws : Workspace) (wss : List Workspace)
    → All P (managed_only (ws ∷ wss))
    → All P (managed_only wss)
unfolding managed_only
managed_only-rest P ws wss all = elim (Bool-cases (is_kept ws)) [
  | inl h ↦ (rw h at all).1
  | inr h ↦ rw h at all
]

-- What holds of the managed workspaces that are told holds of each one listed.
pub managed_only-All :
    (P : WorkspaceInfo → Type 0) (wss : List Workspace)
    → All P (managed_only wss)
    → (ws : Workspace) → Memᴰ ws wss
    → IsManaged ws
    → P (record { name = ws.name; url = ws.url; phase = ws.phase; ready = true })
managed_only-All P [] all ws there ours = absurd (Memᴰ.not-nil there)
managed_only-All P (w ∷ wss) all ws (Memᴰ.head e) ours =
    rw e (managed_only-keeps P w wss (rw e at ours) all)
managed_only-All P (w ∷ wss) all ws (Memᴰ.tail there) ours =
    managed_only-All P wss (managed_only-rest P w wss all) ws there ours
