-- ===== src/Onboarding/Team/Calls.antt =====
-- Which calls `addProjectMaintainersToFossaTeam` makes, maintainer by maintainer.
use mathlib.Core.List.{append_assoc, append-nil}
use maintainer_d.Base.{
  ℕ, Text, ◌≡◌, refl, sym, ap, ◌∙◌, Bool, true, false, Option, none, some, List, [], ◌∷◌, ◌++◌,
  Bool-cases, inl, inr,
}
use maintainer_d.Model.{Maintainer, Project}
use maintainer_d.Fossa.{FossaClient, Result, ok, Error}
use maintainer_d.Fossa.Trace.{Call, checked, added, Traced, traced}
use maintainer_d.Onboarding.Team.{
  Store, filter_eligible_maintainers, contains_email, is_pending_answer, after_admin, after_pending,
  add_one, add_maintainers, after_emails, after_eligible, after_maintainers,
  add_project_maintainers_to_fossa_team,
}

-- The store over a traced world: its calls are no calls of FOSSA.
abbrev pub beside : {W : Type 0} → Store W → Store (Traced W)
beside s = record {
  get_maintainers_by_project =
      λ id t. (let (a, w) = s.get_maintainers_by_project id t.world in (a, record t { world = w }));
  is_staff_git_hub_account = λ login t.
      (let (a, w) = s.is_staff_git_hub_account login t.world in (a, record t { world = w }));
  log_audit_event = λ project m handle name t. record t {
    world = s.log_audit_event project m handle name t.world;
  };
}

-- The calls for one maintainer, from the emails known to be on the team to those known after it.
pub data Admits (team : ℕ) (existing : List Text) (m : Maintainer)
    : List Call → List Text → Type 0 where
  waits :
      (a : Result Bool)
      → is_pending_answer a ≡ true
      → Admits team existing m (checked m.email a ∷ []) existing
  is_member :
      (a : Result Bool)
      → is_pending_answer a ≡ false
      → contains_email existing m.email ≡ true
      → Admits team existing m (checked m.email a ∷ []) existing
  admits :
      (a : Result Bool)
      → is_pending_answer a ≡ false
      → contains_email existing m.email ≡ false
      → Admits team existing m
          (checked m.email a ∷ added team m.email none ∷ [])
          (existing ++ m.email ∷ [])
  cannot_admit :
      (a : Result Bool) (e : Error)
      → is_pending_answer a ≡ false
      → contains_email existing m.email ≡ false
      → Admits team existing m (checked m.email a ∷ added team m.email (some e) ∷ []) existing

pub data AdmitsAll (team : ℕ) : List Text → List Maintainer → List Call → Type 0 where
  done : {existing : List Text} → AdmitsAll team existing [] []
  step :
      {existing existing' : List Text} {m : Maintainer} {ms : List Maintainer}
      {calls more all : List Call}
      → Admits team existing m calls existing'
      → AdmitsAll team existing' ms more
      → all ≡ calls ++ more
      → AdmitsAll team existing (m ∷ ms) all

module _ {W : Type 0} (fossa : FossaClient W) (store : Store W) (project : Project) (team : ℕ) where
  after_admin-Admits :
      (existing : List Text) (m : Maintainer) (a : Result Bool) (answer : Option Error)
      (t : Traced W)
      → is_pending_answer a ≡ false
      → contains_email existing m.email ≡ false
      → Admits team existing m
          (checked m.email a ∷ added team m.email answer ∷ [])
          (after_admin (traced fossa) (beside store) project team existing m answer t).0.1
        × ((after_admin (traced fossa) (beside store) project team existing m answer t).1.calls
            ≡ t.calls)
  unfolding after_admin
  after_admin-Admits existing m a none t p c = (admits a p c, refl)
  after_admin-Admits existing m a (some e) t p c = (cannot_admit a e p c, refl)

  after_pending-Admits :
      (existing : List Text) (m : Maintainer) (a : Result Bool) (before : List Call) (t : Traced W)
      → t.calls ≡ before ++ checked m.email a ∷ []
      → (calls : List Call) × Admits team existing m calls
          (after_pending (traced fossa) (beside store) project team existing m a t).0.1
        × ((after_pending (traced fossa) (beside store) project team existing m a t).1.calls
            ≡ before ++ calls)
  unfolding after_pending
  after_pending-Admits existing m a before t e = elim (Bool-cases (is_pending_answer a)) [
    | inl pending ↦ rw pending (_, waits a pending, e)
    | inr none_pending ↦ elim (Bool-cases (contains_email existing m.email)) [
      | inl member ↦ rw (none_pending, member) (_, is_member a none_pending member, e)
      | inr outside ↦
          let (answer, t') = (traced fossa).add_user_to_team_by_email team m.email 3 t in
          let (one, same) = after_admin-Admits existing m a answer t' none_pending outside in
          rw (none_pending, outside)
            (
              _,
              one,
              same ∙ ap (λ cs. cs ++ added team m.email answer ∷ []) e ∙ append_assoc before _ _,
            )
    ]
  ]

  add_maintainers-AdmitsAll :
      (existing : List Text) (ms : List Maintainer) (t : Traced W)
      → (calls : List Call) × AdmitsAll team existing ms calls
        × ((add_maintainers (traced fossa) (beside store) project team existing ms t).1.calls
            ≡ t.calls ++ calls)
  unfolding add_maintainers add_one
  add_maintainers-AdmitsAll existing [] t = ([], done, sym (append-nil t.calls))
  add_maintainers-AdmitsAll existing (m ∷ ms) t =
      let (a, t') = (traced fossa).has_pending_invitation m.email t in
      let ((action, existing'), t'') =
        after_pending (traced fossa) (beside store) project team existing m a t' in
      let (calls, one, e) = after_pending-Admits existing m a t.calls t' refl in
      let (more, rest, f) = add_maintainers-AdmitsAll existing' ms t'' in
      (
        calls ++ more,
        step one rest refl,
        f ∙ ap (λ cs. cs ++ more) e ∙ append_assoc t.calls calls more,
      )

  after_eligible-AdmitsAll :
      (ms : List Maintainer) (t : Traced W) (existing : List Text)
      → (fossa.fetch_team_user_emails team t.world).0 ≡ ok existing
      → (calls : List Call) × AdmitsAll team existing ms calls
        × ((after_eligible (traced fossa) (beside store) project team ms t).0.1 ≡ none)
        × ((after_eligible (traced fossa) (beside store) project team ms t).1.calls
            ≡ t.calls ++ calls)
  unfolding after_eligible after_emails
  after_eligible-AdmitsAll [] t existing h = ([], done, refl, sym (append-nil t.calls))
  after_eligible-AdmitsAll (m ∷ ms) t existing h =
      let t' : Traced W = ((traced fossa).fetch_team_user_emails team t).1 in
      let (calls, p, e) = add_maintainers-AdmitsAll existing (m ∷ ms) t' in
      rw h (calls, p, refl, e ∙ ap (λ cs. cs ++ calls) (append-nil t.calls))

  -- If the maintainers of the project and the emails of the team can be fetched,
  -- `add_project_maintainers_to_fossa_team` returns no error, and its calls are, for the eligible
  -- maintainers in order, one block each: a look-up of a pending invitation, and after it an
  -- addition to the team exactly if that does not report one pending, also where it fails, and the
  -- email is not on the team, to which each successful addition counts.
  pub add_project_maintainers-AdmitsAll :
      (t : Traced W) (ms : List Maintainer) (existing : List Text)
      → (store.get_maintainers_by_project project.id t.world).0 ≡ ok ms
      → (fossa.fetch_team_user_emails team
          (store.get_maintainers_by_project project.id t.world).1).0
        ≡ ok existing
      → (calls : List Call) × AdmitsAll team existing (filter_eligible_maintainers ms).0 calls
        × ((add_project_maintainers_to_fossa_team (traced fossa) (beside store) project team t).0.1
            ≡ none)
        × ((add_project_maintainers_to_fossa_team
              (traced fossa)
              (beside store)
              project
              team
              t).1.calls
            ≡ t.calls ++ calls)
  unfolding add_project_maintainers_to_fossa_team after_maintainers
  add_project_maintainers-AdmitsAll t ms existing f g =
      let t' : Traced W = ((beside store).get_maintainers_by_project project.id t).1 in
      rw f (after_eligible-AdmitsAll (filter_eligible_maintainers ms).0 t' existing g)
