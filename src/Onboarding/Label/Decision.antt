-- ===== src/Onboarding/Label/Decision.antt =====
-- When `handleLabelCommand` adds a label.
use mathlib.Core.Option.{some-injective}
use maintainer_d.Base.{
  ℕ, Text, text, eq_iff, to_lower, ◌≡◌, ◌↔◌, refl, sym, ap, subst, ◌∙◌, ◌⊎◌, inl, inr, Bool, true,
  false, Option, none, some, List, [], ◌∷◌, arith, Bool-cases,
}
use maintainer_d.Base.Dict.{Dict, get}
use maintainer_d.Model.{Project}
use maintainer_d.Onboarding.Team.{Store}
use maintainer_d.Onboarding.Label.{
  allowed, fields, get_project_name_from_project_title, is_registered, is_true, is_label,
  is_authorized, after_authorized, after_project, after_title, after_fields, decide_label,
}

is_label_iff :
    (name : Text) → (is_label name ≡ true) ↔ ((name ≡ text "fossa") ⊎ (name ≡ text "snyk"))
unfolding is_label
is_label_iff name = ground (arith, eq_iff name (text "fossa"), eq_iff name (text "snyk"))

abbrev second : List Text → Text
second (_ ∷ b ∷ _) = b
second _ = []

module _ {W : Type 0} (store : Store W) (projects : Dict Project) (actor : Text) where
  -- The store knows the actor as a maintainer of the project or, asked after that, as staff.
  abbrev pub IsAuthorized : ℕ → W → Type 0
  IsAuthorized id w =
      (is_registered actor (store.get_maintainers_by_project id w).0 ≡ true)
      ⊎ (is_true (store.is_staff_git_hub_account actor (store.get_maintainers_by_project id w).1).0
          ≡ true)

  -- The command has two words, the second is one of the two labels, the title names a project that
  -- is known, and the actor is authorized for it.
  abbrev pub IsGranted : Text → Text → Text → W → Type 0
  IsGranted label body title w =
      (command : Text) × (word : Text) × (name : Text) × (project : Project) × (fields body
        ≡ command ∷ word ∷ [])
      × (label ≡ to_lower word)
      × ((label ≡ text "fossa") ⊎ (label ≡ text "snyk"))
      × (get_project_name_from_project_title title ≡ some name)
      × (get name projects ≡ some project)
      × IsAuthorized project.id w

  is_authorized_iff :
      (id : ℕ) (w : W) → ((is_authorized store projects actor id w).0 ≡ true) ↔ IsAuthorized id w
  unfolding is_authorized
  is_authorized_iff id w =
      elim (Bool-cases (is_registered actor (store.get_maintainers_by_project id w).0)) [
        | inl known ↦ rw known (λ h. inl refl, λ h. refl)
        | inr unknown ↦ rw unknown (λ h. inr h, λ h. ground (arith, h))
      ]

  after_authorized_iff :
      (label l : Text) (r : Bool × W)
      → ((after_authorized store projects actor l r).0 ≡ allowed label)
        ↔ ((label ≡ l) × (r.0 ≡ true))
  unfolding after_authorized
  after_authorized_iff label l (true, w) = ground arith
  after_authorized_iff label l (false, w) = ground arith

  -- What is asked of a title and an actor.
  abbrev IsTitled : Text → Text → Option Text → W → Type 0
  IsTitled label l title w =
      (label ≡ l)
      × (name : Text) × (project : Project) × (title ≡ some name)
      × (get name projects ≡ some project)
      × IsAuthorized project.id w

  after_project_iff :
      (label l name : Text) (found : Option Project) (w : W)
      → ((after_project store projects actor l name found w).0 ≡ allowed label)
        ↔ ((label ≡ l) × (project : Project) × (found ≡ some project) × IsAuthorized project.id w)
  unfolding after_project
  after_project_iff label l name none w =
      (λ h. ground (arith, h), λ (_, project, e, _). ground (arith, e))
  after_project_iff label l name (some project) w =
      let r = is_authorized store projects actor project.id w in
      let (to, from) = after_authorized_iff label l r in
      let (known, knew) = is_authorized_iff project.id w in
      (
        λ h. let (e, granted) = to h in (e, project, refl, known granted),
        λ (e, other, same, auth). from (
          e,
          knew (subst (λ (p : Project). IsAuthorized p.id w) (sym (some-injective _ _ same)) auth),
        ),
      )

  after_title_iff :
      (label l : Text) (title : Option Text) (w : W)
      → ((after_title store projects actor l title w).0 ≡ allowed label) ↔ IsTitled label l title w
  unfolding after_title
  after_title_iff label l none w =
      (λ h. ground (arith, h), λ (_, name, project, e, _, _). ground (arith, e))
  after_title_iff label l (some name) w =
      let (to, from) = after_project_iff label l name (get name projects) w in
      (
        λ h. let (e, project, f, auth) = to h in (e, name, project, refl, f, auth),
        λ (e, other, project, same, f, auth).
            from (e, project, ap (λ n. get n projects) (some-injective _ _ same) ∙ f, auth),
      )

  after_fields_iff :
      (label : Text) (words : List Text) (title : Text) (w : W)
      → ((after_fields store projects actor words title w).0 ≡ allowed label) ↔ (
          (command : Text) × (word : Text) × (words ≡ command ∷ word ∷ [])
          × (is_label (to_lower word) ≡ true)
          × IsTitled label (to_lower word) (get_project_name_from_project_title title) w)
  unfolding after_fields
  after_fields_iff label [] title w = (λ h. ground (arith, h), λ (_, _, e, _, _). ground (arith, e))
  after_fields_iff label (a ∷ []) title w =
      (λ h. ground (arith, h), λ (_, _, e, _, _). ground (arith, e))
  after_fields_iff label (a ∷ b ∷ c ∷ rest) title w =
      (λ h. ground (arith, h), λ (_, _, e, _, _). ground (arith, e))
  after_fields_iff label (command ∷ word ∷ []) title w =
      let (to, from) =
        after_title_iff label (to_lower word) (get_project_name_from_project_title title) w in
      elim (Bool-cases (is_label (to_lower word))) [
        | inl fine ↦ rw fine (
          λ h. (command, word, refl, fine, to h),
          λ (_, v, e, _, titled). from (
              subst (λ u. IsTitled label (to_lower u) (get_project_name_from_project_title title) w)
                (sym (ap second e)) titled),
        )
        | inr unknown ↦ rw unknown (
          λ h. ground (arith, h),
          λ (_, v, e, fine, _).
              ground (
                arith,
                unknown,
                subst (λ u. is_label (to_lower u) ≡ true) (sym (ap second e)) fine,
              ),
        )
      ]

  -- `decide_label` allows a label exactly if the comment has two words, the second is the label up to
  -- case and is fossa or snyk, the title names a project that is known, and the store knows the actor
  -- as a maintainer of that project or, asked after that, as a member of the staff, whatever the
  -- project; an error of a query counts as no.
  pub decide_label_iff :
      (body title : Text) (w : W) (label : Text)
      → ((decide_label store projects actor body title w).0 ≡ allowed label)
        ↔ IsGranted label body title w
  unfolding decide_label
  decide_label_iff body title w label =
      let (to, from) = after_fields_iff label (fields body) title w in
      (
        λ h.
            let (command, word, e, fine, (same, name, project, f, g, auth)) = to h in
            (
              command,
              word,
              name,
              project,
              e,
              same,
              subst (λ l. (l ≡ text "fossa") ⊎ (l ≡ text "snyk")) (sym same)
                  ((is_label_iff (to_lower word)).0 fine),
              f,
              g,
              auth,
            ),
        λ (command, word, name, project, e, same, fine, f, g, auth). from (
          command,
          word,
          e,
          (is_label_iff (to_lower word)).1
              (subst (λ l. (l ≡ text "fossa") ⊎ (l ≡ text "snyk")) same fine),
          (same, name, project, f, g, auth),
        ),
      )
