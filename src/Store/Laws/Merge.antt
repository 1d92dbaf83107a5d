-- ===== src/Store/Laws/Merge.antt =====
-- `MergeCompanies` of db/store_impl.go.
use maintainer_d.Base.{
  ℕ, Bool, true, false, eqb, ◌≡◌, ◌≢◌, refl, sym, text, ap, ◌∙◌, subst, Option, none, some, List,
  [], ◌∷◌, map, All, arith, if◌then◌else◌,
}
use maintainer_d.Model.{Maintainer, Company}
use maintainer_d.Store.{DbError, invalid, Answer, found, failed, Gorm}
use maintainer_d.Store.Companies.{
  merge_companies, merge_body, after_target, after_source, after_move,
}
use maintainer_d.Store.Tables.{
  Tables, move, move_id, move_all, without, drop_company, has_company, Outcome, on_success,
}
use maintainer_d.Store.Laws.{Queries, Writes}

-- `after` is `before` with the company `from` merged into `to`.
pub record IsMerge (from to : ℕ) (before after : Tables) : Type 0 where
  pub moved : after.maintainers ≡ map (move from to) before.maintainers
  pub dropped : after.companies ≡ without from before.companies
  pub projects : after.projects ≡ before.projects
  pub events : after.events ≡ before.events
  pub target : has_company to after.companies ≡ true
  pub gone : has_company from after.companies ≡ false
  pub nobody_left : All (λ m. m.company_id ≢ some from) after.maintainers

abbrev pub MergeOutcome : Option DbError → ℕ → ℕ → Tables → Tables → Type 0
MergeOutcome (some e) from to before after = after ≡ before
MergeOutcome none from to before after = IsMerge from to before after

move_id-ne : (from to : ℕ) (o : Option ℕ) → from ≢ to → move_id from to o ≢ some from
move_id-ne from to none ne = λ e. ground arith
move_id-ne from to (some id) ne = λ e. ground arith

nobody-move :
    (from to : ℕ) (ms : List Maintainer)
    → from ≢ to
    → All (λ m. m.company_id ≢ some from) (map (move from to) ms)
nobody-move from to [] ne = tt
nobody-move from to (m ∷ ms) ne = (move_id-ne from to m.company_id ne, nobody-move from to ms ne)

gone-without : (id : ℕ) (cs : List Company) → has_company id (without id cs) ≡ false
gone-without id [] = refl
gone-without id (c ∷ cs) = ground (arith, gone-without id cs)

kept-without :
    (id other : ℕ) (cs : List Company)
    → id ≢ other
    → has_company other (without id cs) ≡ has_company other cs
kept-without id other [] ne = refl
kept-without id other (c ∷ cs) ne = ground (arith, kept-without id other cs ne)

module _ {W : Type 0} (db : Gorm W) (rows saved : W → Tables) (writes : Writes db rows saved) where
  after_move-Outcome :
      (from : ℕ) (t : Tables) (r : Answer ℕ × W)
      → (after_move db from r).0 ≡ none
      → Outcome r.0 t (λ n. t) (rows r.1)
      → rows (after_move db from r).1 ≡ drop_company from t
  unfolding after_move
  after_move-Outcome from t (failed e, w) h same = absurd (ground arith)
  after_move-Outcome from t (found n, w) h same =
      on_success (db.delete_company from w).0 (rows w) (drop_company from (rows w))
        (rows (db.delete_company from w).1) h (writes.delete from w)
      ∙ ap (drop_company from) same

  moves-Outcome :
      (from : ℕ) (t t' : Tables) (r : Answer ℕ × W)
      → (after_move db from r).0 ≡ none
      → Outcome r.0 t (λ n. t') (rows r.1)
      → rows (after_move db from r).1 ≡ drop_company from t'
  unfolding after_move
  moves-Outcome from t t' (failed e, w) h same = absurd (ground arith)
  moves-Outcome from t t' (found n, w) h same = after_move-Outcome from t' (found n, w) h same

  after_source-moves :
      (from to : ℕ) (c : Answer Company) (w : W)
      → (after_source db from to c w).0 ≡ none
      → rows (after_source db from to c w).1 ≡ drop_company from (move_all from to (rows w))
  unfolding after_source
  after_source-moves from to (failed e) w h = absurd (ground arith)
  after_source-moves from to (found c) w h =
      moves-Outcome from (rows w) (move_all from to (rows w))
        (db.update_maintainer_company from to w) h (writes.move from to w)

  after_target-moves :
      (from to : ℕ) (c : Answer Company) (w : W)
      → (after_target db from to c w).0 ≡ none
      → ((found_target : Company) × (c ≡ found found_target))
        × (rows (after_target db from to c w).1 ≡ drop_company from (move_all from to (rows w)))
  unfolding after_target
  after_target-moves from to (failed e) w h = absurd (ground arith)
  after_target-moves from to (found c) w h =
      ((c, refl), after_source-moves from to (db.first_company from w) w h)

  merge_body-moves :
      (from to : ℕ) (w : W)
      → Queries db rows saved
      → (merge_body db from to w).0 ≡ none
      → (has_company to (rows w).companies ≡ true)
        × (rows (merge_body db from to w).1 ≡ drop_company from (move_all from to (rows w)))
  unfolding merge_body
  merge_body-moves from to w queries h =
      let ((c, e), same) = after_target-moves from to (db.first_company to w) w h in
      (queries.company to w c e, same)

  merged-IsMerge :
      (from to : ℕ) (before after : Tables)
      → from ≢ to
      → has_company to before.companies ≡ true
      → after ≡ drop_company from (move_all from to before)
      → IsMerge from to before after
  merged-IsMerge from to before after ne target same =
      subst (IsMerge from to before) (sym same) record {
        moved = refl;
        dropped = refl;
        projects = refl;
        events = refl;
        target = kept-without from to before.companies ne ∙ target;
        gone = gone-without from before.companies;
        nobody_left = nobody-move from to before.maintainers ne;
      }

  transaction-Merges :
      (from to : ℕ) (w : W) (o : Option DbError)
      → Queries db rows saved
      → from ≢ to
      → (db.transaction (merge_body db from to) w).0 ≡ o
      → MergeOutcome o from to (rows w) (rows (db.transaction (merge_body db from to) w).1)
  transaction-Merges from to w (some e) queries ne h =
      writes.transaction (merge_body db from to) w e h
  transaction-Merges from to w none queries ne h =
      let (w', same, success, result) = writes.commits (merge_body db from to) w h in
      let (target, moved) = merge_body-moves from to w' queries success in
      merged-IsMerge from to (rows w) (rows (db.transaction (merge_body db from to) w).1) ne
        (subst (λ (t : Tables). has_company to t.companies ≡ true) same target)
        (result ∙ moved ∙ ap (λ t. drop_company from (move_all from to t)) same)

  if-Merges :
      (b : Bool) (from to : ℕ) (e : DbError) (w : W) (r : Option DbError × W)
      → (b ≡ false → MergeOutcome r.0 from to (rows w) (rows r.1))
      → MergeOutcome
          (if b then (some e, w) else r).0
          from
          to
          (rows w)
          (rows (if b then (some e, w) else r).1)
  if-Merges true from to e w r h = refl
  if-Merges false from to e w r h = h refl

  -- `merge_companies` either fails and leaves the tables as they were, or it merges: the
  -- maintainers of `from` are at `to`, the others are as they were, nobody is left at `from`, the
  -- row of `from` is gone, and that of `to` is there. This is so whatever step of it fails, for a
  -- database that obeys the laws.
  pub merge_companies-Merges :
      (from to : ℕ) (w : W)
      → Queries db rows saved
      → MergeOutcome
          (merge_companies db from to w).0
          from
          to
          (rows w)
          (rows (merge_companies db from to w).1)
  unfolding merge_companies
  merge_companies-Merges from to w queries =
      if-Merges (eqb from to) from to (invalid (text "fromID and toID must differ")) w
        (db.transaction (merge_body db from to) w)
        (λ e.
          transaction-Merges from to w (db.transaction (merge_body db from to) w).0 queries
            (λ same. ground arith) refl)
