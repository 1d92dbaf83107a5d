-- ===== src/Workspaces/Events/Filter.antt =====
-- Which updates the event filter of staffmember_controller.go passes on.
use maintainer_d.Base.{
  ℕ, Text, ◌==◌, eq_iff, eq_refl, true, false, ◌≡◌, ◌∙◌, sym, ◌↔◌, inl, inr, Bool-cases, refl,
  Option, none, some, [], ◌∷◌, length, All, text_or, arith, if◌then◌else◌, if-Splits,
}
use maintainer_d.Base.Dict
use maintainer_d.Base.Dict.{Dict}
use maintainer_d.Workspaces.{StaffResource}
use maintainer_d.Workspaces.Staff.{
  with_sync, annotation_staff_last_synced, annotation_staff_sync_status,
  annotation_staff_workspace_count,
}
use maintainer_d.Workspaces.Events.{
  Meta, is_sync_annotation, filtered, some_differ, passes_update, generation_changed,
}
use maintainer_d.Workspaces.Events.Maps.{
  IsMap, AgreesOn, AgreesOn-refl, AgreesOn-eq, AgreesOn-length, AgreesOn-get,
}

get-filtered :
    (k : Text) (m : Dict Text)
    → Dict.get k (filtered m) ≡ (if is_sync_annotation k then none else Dict.get k m)
unfolding filtered Dict.get
get-filtered k [] = ground arith
get-filtered k ((j, v) ∷ m) = ground (arith, get-filtered k m, eq_iff j k)

filtered-IsMap : (m : Dict Text) → IsMap m → IsMap (filtered m)
unfolding filtered
filtered-IsMap [] h = tt
filtered-IsMap ((k, v) ∷ m) (new, rest) =
    if-Splits IsMap (is_sync_annotation k) (filtered m) ((k, v) ∷ filtered m)
      (λ _. filtered-IsMap m rest)
      (λ other. (ground (arith, get-filtered k m), filtered-IsMap m rest))

filtered-put :
    (k v : Text) (m : Dict Text)
    → is_sync_annotation k ≡ true
    → filtered (Dict.put k v m) ≡ filtered m
unfolding filtered Dict.put
filtered-put k v [] own = ground arith
filtered-put k v ((j, w) ∷ m) own = ground (arith, filtered-put k v m own, eq_iff j k)

some_differ-AgreesOn : (old new : Dict Text) → AgreesOn new old → some_differ old new ≡ false
unfolding some_differ
some_differ-AgreesOn [] new h = refl
some_differ-AgreesOn ((k, v) ∷ old) new (here, rest) =
    ground (arith, some_differ-AgreesOn old new rest, eq_refl v)

-- The values are not empty.
abbrev pub IsFilled : Dict Text → Type 0
IsFilled m = All (λ (k, v). (v == []) ≡ false) m

text_or-filled :
    (v : Text) (o : Option Text) → (v == []) ≡ false → (text_or [] o == v) ≡ true → o ≡ some v
text_or-filled v none filled same = ground (arith, eq_iff [] v, eq_refl [])
text_or-filled v (some s) filled same = ground (arith, eq_iff s v)

filtered-IsFilled : (m : Dict Text) → IsFilled m → IsFilled (filtered m)
unfolding filtered
filtered-IsFilled [] h = tt
filtered-IsFilled ((k, v) ∷ m) (here, rest) =
    if-Splits IsFilled (is_sync_annotation k) (filtered m) ((k, v) ∷ filtered m)
      (λ _. filtered-IsFilled m rest) (λ _. (here, filtered-IsFilled m rest))

some_differ-false :
    (old new : Dict Text) → IsFilled old → some_differ old new ≡ false → AgreesOn new old
unfolding some_differ
some_differ-false [] new h e = tt
some_differ-false ((k, v) ∷ old) new (here, rest) e = (
  text_or-filled v (Dict.get k new) here (ground arith),
  some_differ-false old new rest (ground arith),
)

-- Two objects have the same generation, or the filter cannot tell.
abbrev pub SameGeneration : Option ℕ → Option ℕ → Type 0
SameGeneration (some old) (some new) = old ≡ new
SameGeneration _ _ = Unit

generation_changed_iff :
    (old new : Option ℕ) → (generation_changed old new ≡ false) ↔ SameGeneration old new
generation_changed_iff none new = (λ _. tt, λ _. refl)
generation_changed_iff (some old) none = (λ _. tt, λ _. refl)
generation_changed_iff (some old) (some new) = ground arith

pub SameAnnotations : Dict Text → Dict Text → Type 0
SameAnnotations old new =
    (k : Text) → is_sync_annotation k ≡ false → Dict.get k old ≡ Dict.get k new

get_filtered-eq :
    (old new : Dict Text)
    → SameAnnotations old new
    → (k : Text) → Dict.get k (filtered old) ≡ Dict.get k (filtered new)
unfolding SameAnnotations
get_filtered-eq old new h k = elim (Bool-cases (is_sync_annotation k)) [
  | inl own ↦ ground (arith, get-filtered k old, get-filtered k new)
  | inr not_own ↦ ground (arith, get-filtered k old, get-filtered k new, h k not_own)
]

filtered_agree :
    (old new : Dict Text)
    → IsMap old
    → SameAnnotations old new
    → AgreesOn (filtered new) (filtered old)
filtered_agree old new u h =
    AgreesOn-get (filtered old) (filtered new) (filtered-IsMap old u)
      λ k v e. sym (get_filtered-eq old new h k) ∙ e

annotations_iff :
    (old new : Dict Text)
    → IsMap old
    → IsMap new
    → IsFilled old
    → ((length (filtered old) ≡ length (filtered new))
        × (some_differ (filtered old) (filtered new) ≡ false))
      ↔ SameAnnotations old new
unfolding SameAnnotations
annotations_iff old new u v f = (forth, back)
  where
    forth :
        (length (filtered old) ≡ length (filtered new))
          × (some_differ (filtered old) (filtered new) ≡ false)
        → SameAnnotations old new
    forth (same_length, none_differs) k other =
        let agree =
          AgreesOn-eq (filtered old) (filtered new) (filtered-IsMap old u) (filtered-IsMap new v)
            (some_differ-false (filtered old) (filtered new) (filtered-IsFilled old f) none_differs)
            same_length k in
        ground (arith, agree, get-filtered k old, get-filtered k new, other)

    back :
        SameAnnotations old new
        → (length (filtered old) ≡ length (filtered new))
          × (some_differ (filtered old) (filtered new) ≡ false)
    back same =
        let ab = filtered_agree old new u same in
        let ba = filtered_agree new old v (λ k other. sym (same k other)) in
        (
          omega (
            arith,
            AgreesOn-length (filtered old) (filtered new) (filtered-IsMap old u)
                (filtered-IsMap new v) ab,
            AgreesOn-length (filtered new) (filtered old) (filtered-IsMap new v)
                (filtered-IsMap old u) ba,
          ),
          some_differ-AgreesOn (filtered old) (filtered new) ab,
        )

-- Of objects whose annotations have no empty values, exactly those updates are passed on that change
-- an annotation which is not the operator's own, add or remove one, or change the generation: an
-- update is held back if and only if the two have the same generation, where both show one, and the
-- same value or none for each key but those of the operator.
pub passes_update_iff :
    (old new : Meta)
    → IsMap old.annotations
    → IsMap new.annotations
    → IsFilled old.annotations
    → (passes_update old new ≡ false) ↔ (
        SameGeneration old.generation new.generation
        × SameAnnotations old.annotations new.annotations)
unfolding passes_update
passes_update_iff old new u v f =
    let annotations = annotations_iff old.annotations new.annotations u v f in
    let generations = generation_changed_iff old.generation new.generation in
    (
      (λ e. (generations.0 (ground arith), annotations.0 (ground arith, ground arith))),
      (λ (g, a). ground (arith, generations.1 g, annotations.1 a)),
    )

filtered-with_sync :
    (staff : StaffResource) (time status count : Text)
    → filtered (with_sync time status count staff).annotations ≡ filtered staff.annotations
unfolding with_sync is_sync_annotation
filtered-with_sync staff time status count =
    let one = Dict.put annotation_staff_last_synced time staff.annotations in
    let two = Dict.put annotation_staff_sync_status status one in
    filtered-put annotation_staff_workspace_count count two refl
    ∙ (filtered-put annotation_staff_sync_status status one refl
        ∙ filtered-put annotation_staff_last_synced time staff.annotations refl)

generation_unchanged : (g : Option ℕ) → generation_changed g g ≡ false
generation_unchanged none = refl
generation_unchanged (some g) = ground arith

-- The operator's own write of a staff member's annotations is held back.
pub with_sync-IsIgnored :
    (staff : StaffResource) (time status count : Text) (generation : Option ℕ)
    → IsMap staff.annotations
    → passes_update
        (record { annotations = staff.annotations; generation = generation })
        (record {
          annotations = (with_sync time status count staff).annotations;
          generation = generation;
        })
      ≡ false
unfolding passes_update
with_sync-IsIgnored staff time status count generation u =
    let own = filtered staff.annotations in
    rw (filtered-with_sync staff time status count) (
      ground (
        arith,
        some_differ-AgreesOn own own (AgreesOn-refl own (filtered-IsMap staff.annotations u)),
        generation_unchanged generation,
      ))
