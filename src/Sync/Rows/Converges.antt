-- ===== src/Sync/Rows/Converges.antt =====
-- What a run of the loop leaves in the cluster, and what the run after it does.
use maintainer_d.Base.{
  Text, text, ◌==◌, eq_refl, ◌≡◌, refl, sym, ap, ◌∙◌, subst, inl, inr, Bool, true, false, Option,
  none, some, List, [], ◌∷◌, All, if◌then◌else◌, arith, Bool-cases,
}
use maintainer_d.Sync.Rows.{
  Got, got, absent, broken, Objects, wrapped, after_got, sync_row, or_stop, sync_rows,
}

-- What the API of the cluster promises of one kind of resource: `held` is what it stores. A look-up
-- changes nothing and answers what is stored or that nothing is, unless it fails; a creation or an
-- update that succeeds stores the specification under its name and nothing else.
pub record IsLawful {W S : Type 0} (c : Objects W S) : Type 1 where
  pub held : W → Text → Option S
  pub get_absent : (name : Text) (w : W) → (c.get name w).0 ≡ absent → held w name ≡ none
  pub get_got : (name : Text) (w : W) (s : S) → (c.get name w).0 ≡ got s → held w name ≡ some s
  pub get_keeps : (name : Text) (w : W) (k : Text) → held (c.get name w).1 k ≡ held w k
  pub create_holds :
      (name : Text) (s : S) (w : W)
      → (c.create name s w).0 ≡ none
      → (k : Text) → held (c.create name s w).1 k ≡ (if name == k then some s else held w k)
  pub update_holds :
      (name : Text) (s : S) (w : W)
      → (c.update name s w).0 ≡ none
      → (k : Text) → held (c.update name s w).1 k ≡ (if name == k then some s else held w k)

abbrev NotIn : {S : Type 0} → Text → List (Text × S) → Type 0
NotIn name rows = All (λ r. (r.0 == name) ≡ false) rows

-- No two rows have one name.
abbrev pub HasDistinctNames : {S : Type 0} → List (Text × S) → Type 0
HasDistinctNames [] = Unit
HasDistinctNames ((name, spec) ∷ rows) = NotIn name rows × HasDistinctNames rows

module _ {W S : Type 0} (c : Objects W S) (kind : Text) (equal : S → S → Bool) where
  -- The look-ups of the loop and nothing else, up to the first that fails.
  unfoldable pub look_up : Got S × W → Option Text × W
  look_up (broken e, w) = (some e, w)
  look_up (_, w) = (none, w)

  unfoldable pub look_up_rows : List (Text × S) → W → Option Text × W
  unfolding look_up
  look_up_rows [] w = (none, w)
  look_up_rows ((name, spec) ∷ rows) w =
      or_stop c kind equal (λ (w' : W). look_up_rows rows w') (look_up (c.get name w))

  wrapped_lem :
      (verb name : Text) (r : Option Text × W)
      → (wrapped c kind equal verb name r).0 ≡ none
      → (r.0 ≡ none) × ((wrapped c kind equal verb name r).1 ≡ r.1)
  wrapped_lem verb name (none, w) h = (refl, refl)
  wrapped_lem verb name (some e, w) h = ground (arith, h)

  or_stop_lem :
      (next : W → Option Text × W) (r : Option Text × W)
      → (or_stop c kind equal next r).0 ≡ none
      → (r.0 ≡ none) × (or_stop c kind equal next r ≡ next r.1)
  or_stop_lem next (none, w) h = (refl, refl)
  or_stop_lem next (some e, w) h = ground (arith, h)

  module _ (equal_refl : (s : S) → equal s s ≡ true) (law : IsLawful c) where
    -- The cluster holds the row: something that compares as equal to its specification.
    abbrev pub Holds : W → Text × S → Type 0
    Holds w (name, spec) = (s : S) × (law.held w name ≡ some s) × (equal s spec ≡ true)

    -- The row is held, and all else is held as before.
    abbrev Stores : Text → S → W → W → Type 0
    Stores name spec w w' =
        Holds w' (name, spec) × ((k : Text) → (name == k) ≡ false → law.held w' k ≡ law.held w k)

    stored :
        (name : Text) (spec : S) (w w1 w' : W)
        → ((k : Text) → law.held w1 k ≡ law.held w k)
        → ((k : Text) → law.held w' k ≡ (if name == k then some spec else law.held w1 k))
        → Stores name spec w w'
    stored name spec w w1 w' same h = (
      (spec, ground (arith, h name, eq_refl name), equal_refl spec),
      λ k other. ground (arith, h k, same k, other),
    )

    looked_up :
        (name : Text) (w : W) (a : Got S) (w1 : W)
        → c.get name w ≡ (a, w1)
        → (k : Text) → law.held w1 k ≡ law.held w k
    looked_up name w a w1 g k =
        subst (λ (v : W). law.held v k ≡ law.held w k) (ap (λ q. q.1) g) (law.get_keeps name w k)

    after_got-Stores :
        (name : Text) (spec : S) (w : W) (r : Got S × W)
        → c.get name w ≡ r
        → (after_got c kind equal name spec r).0 ≡ none
        → Stores name spec w (after_got c kind equal name spec r).1
    unfolding after_got
    after_got-Stores name spec w (broken e, w1) g h = ground (arith, h)
    after_got-Stores name spec w (absent, w1) g h =
        let (made, same) = wrapped_lem (text "create ") name (c.create name spec w1) h in
        subst (Stores name spec w) (sym same)
          (stored name spec w w1 _ (looked_up name w _ w1 g) (law.create_holds name spec w1 made))
    after_got-Stores name spec w (got old, w1) g h = elim (Bool-cases (equal old spec)) [
      | inl equals ↦ rw equals (
        (old, looked_up name w _ w1 g name ∙ law.get_got name w old (ap (λ q. q.0) g), equals),
        λ k other. looked_up name w _ w1 g k,
      )
      | inr differs ↦
          let h' : (wrapped c kind equal (text "update ") name (c.update name spec w1)).0 ≡ none =
            subst
              (λ (b : Bool).
                (if b
                  then (none, w1)
                  else wrapped c kind equal (text "update ") name (c.update name spec w1)).0
                ≡ none)
              differs h in
          let (made, same) = wrapped_lem (text "update ") name (c.update name spec w1) h' in
          rw differs (
            subst (Stores name spec w) (sym same) (
              stored name spec w w1 _ (looked_up name w _ w1 g)
                (law.update_holds name spec w1 made)))
    ]

    sync_row-Stores :
        (name : Text) (spec : S) (w : W)
        → (sync_row c kind equal name spec w).0 ≡ none
        → Stores name spec w (sync_row c kind equal name spec w).1
    unfolding sync_row
    sync_row-Stores name spec w h = after_got-Stores name spec w (c.get name w) refl h

    sync_rows_keeps :
        (rows : List (Text × S)) (w : W) (k : Text)
        → (sync_rows c kind equal rows w).0 ≡ none
        → All (λ (r : Text × S). (r.0 == k) ≡ false) rows
        → law.held (sync_rows c kind equal rows w).1 k ≡ law.held w k
    unfolding sync_rows
    sync_rows_keeps [] w k h others = refl
    sync_rows_keeps ((name, spec) ∷ rows) w k h (other, others) =
        let r = sync_row c kind equal name spec w in
        let (fine, e) = or_stop_lem (sync_rows c kind equal rows) r h in
        let rest = sync_rows_keeps rows r.1 k (sym (ap (λ q. q.0) e) ∙ h) others in
        ap (λ q. law.held q.1 k) e ∙ rest ∙ (sync_row-Stores name spec w fine).1 k other

    sync_rows-Holds :
        (rows : List (Text × S)) (w : W)
        → HasDistinctNames rows
        → (sync_rows c kind equal rows w).0 ≡ none
        → All (Holds (sync_rows c kind equal rows w).1) rows
    unfolding sync_rows
    sync_rows-Holds [] w distinct h = tt
    sync_rows-Holds ((name, spec) ∷ rows) w (apart, distinct) h =
        let r = sync_row c kind equal name spec w in
        let (fine, e) = or_stop_lem (sync_rows c kind equal rows) r h in
        let fine' = sym (ap (λ q. q.0) e) ∙ h in
        let ((s, held, equals), others) = sync_row-Stores name spec w fine in
        let kept = sync_rows_keeps rows r.1 name fine' apart in
        subst (λ (w' : W). All (Holds w') ((name, spec) ∷ rows)) (sym (ap (λ q. q.1) e))
          ((s, kept ∙ held, equals), sync_rows-Holds rows r.1 distinct fine')

    -- On a cluster that holds a row, its round is the look-up alone.
    after_got_held :
        (name : Text) (spec : S) (w : W) (r : Got S × W)
        → c.get name w ≡ r
        → Holds w (name, spec)
        → after_got c kind equal name spec r ≡ look_up r
    unfolding after_got look_up
    after_got_held name spec w (broken e, w1) g h = refl
    after_got_held name spec w (absent, w1) g (s, held, equals) =
        ground (arith, law.get_absent name w (ap (λ q. q.0) g), held)
    after_got_held name spec w (got old, w1) g (s, held, equals) =
        let same : old ≡ s = ground (arith, law.get_got name w old (ap (λ q. q.0) g), held) in
        rw (same, equals) refl

    or_stop_same :
        (f g : W → Option Text × W) (r : Got S × W)
        → f r.1 ≡ g r.1
        → or_stop c kind equal f (look_up r) ≡ or_stop c kind equal g (look_up r)
    unfolding look_up
    or_stop_same f g (broken e, w) h = refl
    or_stop_same f g (absent, w) h = h
    or_stop_same f g (got s, w) h = h

    sync_rows_settled :
        (rows : List (Text × S)) (w w0 : W)
        → ((k : Text) → law.held w k ≡ law.held w0 k)
        → All (Holds w0) rows
        → sync_rows c kind equal rows w ≡ look_up_rows rows w
    unfolding sync_rows look_up_rows sync_row
    sync_rows_settled [] w w0 same h = refl
    sync_rows_settled ((name, spec) ∷ rows) w w0 same ((s, held, equals), hs) =
        ap (or_stop c kind equal (sync_rows c kind equal rows))
          (after_got_held name spec w (c.get name w) refl (s, same name ∙ held, equals))
        ∙ or_stop_same (sync_rows c kind equal rows) (look_up_rows rows) (c.get name w)
            (sync_rows_settled rows (c.get name w).1 w0 (λ k. law.get_keeps name w k ∙ same k) hs)

  -- If a first run over rows with distinct names succeeds, the cluster holds each row, and whatever
  -- is under another name is as before; a second run with the same rows does nothing but look them
  -- up.
  pub sync_rows-converges :
      (equal_refl : (s : S) → equal s s ≡ true) (law : IsLawful c) (rows : List (Text × S)) (w : W)
      → HasDistinctNames rows
      → (sync_rows c kind equal rows w).0 ≡ none
      → All (Holds equal_refl law (sync_rows c kind equal rows w).1) rows
        × ((k : Text)
            → All (λ (r : Text × S). (r.0 == k) ≡ false) rows
            → law.held (sync_rows c kind equal rows w).1 k ≡ law.held w k)
        × (sync_rows c kind equal rows (sync_rows c kind equal rows w).1
            ≡ look_up_rows rows (sync_rows c kind equal rows w).1)
  sync_rows-converges equal_refl law rows w distinct h =
      let held = sync_rows-Holds equal_refl law rows w distinct h in
      let w' = (sync_rows c kind equal rows w).1 in
      (
        held,
        λ k others. sync_rows_keeps equal_refl law rows w k h others,
        sync_rows_settled equal_refl law rows w' w' (λ k. refl) held,
      )
