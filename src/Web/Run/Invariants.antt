-- ===== src/Web/Run/Invariants.antt =====
-- Two invariants of the tables under the handlers of cmd/web-bff/main.go.
use maintainer_d.Base.{
  ℕ, Text, false, eqb, ◌≡◌, refl, sym, subst, Option, List, [], ◌∷◌, All, arith, if-Has,
}
use maintainer_d.Model.{Company}
use maintainer_d.Auth.Stores.{Session}
use maintainer_d.Store.{Gorm}
use maintainer_d.Store.Tables.{Tables, without, has_name}
use maintainer_d.Store.Laws.{Queries, Writes, Transactions}
use maintainer_d.Store.Laws.Keeps.{
  IsComplete, Complete, IsEdit-Complete, set_statuses-Complete, move-Complete,
}
use maintainer_d.Store.Laws.Upserts.{upsert_maintainer-Complete}
use maintainer_d.Store.Laws.Creates.{NamesDiffer, NamesDiffer-append, named}
use maintainer_d.Web.Create.{Outside}
use maintainer_d.Web.Serve.{
  Request, maintainer_request, status_request, from_ref_request, companies_request, merge_request,
  project_patch_request, project_create_request, State, run,
}
use maintainer_d.Web.Run.{IsStable, UpsertKeeps}
use maintainer_d.Web.Run.Serves.{IfUpsert, run-HoldsIn}

Complete-IsStable : IsStable Complete
Complete-IsStable = record {
  event = λ e t h. h;
  edit = λ id name email github status company t t' edit h.
      IsEdit-Complete id name email github status company t t' edit h;
  statuses = set_statuses-Complete;
  merge = λ from to t t' merged h.
      subst (All IsComplete) (sym merged.moved) (move-Complete from to t.maintainers h);
  company = λ name c t new h. h;
  refs = λ id ref t h. h;
  maturities = λ id maturity t h. h;
  project = λ t t' same others h. subst (All IsComplete) (sym same) h;
}

has_name-without :
    (name : Text) (id : ℕ) (cs : List Company)
    → has_name name cs ≡ false
    → has_name name (without id cs) ≡ false
has_name-without name id [] h = refl
has_name-without name id (c ∷ cs) h = ground (arith, has_name-without name id cs)

NamesDiffer-without : (id : ℕ) (cs : List Company) → NamesDiffer cs → NamesDiffer (without id cs)
NamesDiffer-without id [] h = tt
NamesDiffer-without id (c ∷ cs) (new, h) =
    if-Has NamesDiffer (eqb c.id id) (without id cs) (c ∷ without id cs)
      (NamesDiffer-without id cs h) (has_name-without c.name id cs new, NamesDiffer-without id cs h)

abbrev pub CompaniesDiffer : Tables → Type 0
CompaniesDiffer t = NamesDiffer t.companies

CompaniesDiffer-IsStable : IsStable CompaniesDiffer
CompaniesDiffer-IsStable = record {
  event = λ e t h. h;
  edit = λ id name email github status company t t' (valid, exists, same) h.
      subst CompaniesDiffer (sym same) h;
  statuses = λ ids s t valid h. h;
  merge = λ from to t t' merged h.
      subst NamesDiffer (sym merged.dropped) (NamesDiffer-without from t.companies h);
  company = λ name c t new h. NamesDiffer-append t.companies (named name c) h new;
  refs = λ id ref t h. h;
  maturities = λ id maturity t h. h;
  project = λ t t' others same h. subst NamesDiffer (sym same) h;
}

-- A request that does not run UpsertMaintainer.
abbrev pub IsPlain : Request → Type 0
IsPlain (from_ref_request method body) = ⊥
IsPlain _ = Unit

every-IfUpsert :
    {Q : Type 0} (rs : List (Option Session × Request))
    → Q
    → All (λ (r : Option Session × Request). IfUpsert Q r.1) rs
every-IfUpsert [] q = tt
every-IfUpsert ((session, maintainer_request method path body) ∷ rs) q = (tt, every-IfUpsert rs q)
every-IfUpsert ((session, status_request method body) ∷ rs) q = (tt, every-IfUpsert rs q)
every-IfUpsert ((session, from_ref_request method body) ∷ rs) q = (q, every-IfUpsert rs q)
every-IfUpsert ((session, companies_request method d body) ∷ rs) q = (tt, every-IfUpsert rs q)
every-IfUpsert ((session, merge_request method body) ∷ rs) q = (tt, every-IfUpsert rs q)
every-IfUpsert ((session, project_patch_request path body) ∷ rs) q = (tt, every-IfUpsert rs q)
every-IfUpsert ((session, project_create_request method body) ∷ rs) q = (tt, every-IfUpsert rs q)

plain-IfUpsert : (Q : Type 0) (r : Request) → IsPlain r → IfUpsert Q r
plain-IfUpsert Q (maintainer_request method path body) plain = tt
plain-IfUpsert Q (status_request method body) plain = tt
plain-IfUpsert Q (from_ref_request method body) plain = absurd plain
plain-IfUpsert Q (companies_request method d body) plain = tt
plain-IfUpsert Q (merge_request method body) plain = tt
plain-IfUpsert Q (project_patch_request path body) plain = tt
plain-IfUpsert Q (project_create_request method body) plain = tt

plain-All :
    (Q : Type 0) (rs : List (Option Session × Request))
    → All (λ (r : Option Session × Request). IsPlain r.1) rs
    → All (λ (r : Option Session × Request). IfUpsert Q r.1) rs
plain-All Q [] plain = tt
plain-All Q ((session, r) ∷ rs) (p, ps) = (plain-IfUpsert Q r p, plain-All Q rs ps)

-- Whatever requests the server is sent, by whomever, for a database that obeys the laws: if every
-- maintainer's row has a valid status, an email and an account that are not empty, where a missing
-- one is its placeholder, then so it is after the requests.
pub run-Complete :
    {W : Type 0} (db : Gorm W) (rows saved : W → Tables) (writes : Writes db rows saved)
    (queries : Queries db rows saved) (transactions : Transactions db rows saved)
    (outside : Outside) (rs : List (Option Session × Request)) (s : State W)
    → Complete (rows s.0)
    → Complete (rows (run db outside rs s).0)
run-Complete db rows saved writes queries transactions outside rs s h =
    run-HoldsIn db rows saved writes queries Complete Complete-IsStable outside rs s
      (every-IfUpsert rs
        (λ args w h. upsert_maintainer-Complete db rows saved writes queries transactions args w h))
      h

-- If no two companies have the same name up to case, then so it is after any requests but those
-- that add a maintainer from a reference, for a database that obeys the laws.
pub run-CompaniesDiffer :
    {W : Type 0} (db : Gorm W) (rows saved : W → Tables) (writes : Writes db rows saved)
    (queries : Queries db rows saved) (outside : Outside) (rs : List (Option Session × Request))
    (s : State W)
    → All (λ (r : Option Session × Request). IsPlain r.1) rs
    → CompaniesDiffer (rows s.0)
    → CompaniesDiffer (rows (run db outside rs s).0)
run-CompaniesDiffer db rows saved writes queries outside rs s plain h =
    run-HoldsIn db rows saved writes queries CompaniesDiffer CompaniesDiffer-IsStable outside rs s
      (plain-All (UpsertKeeps db rows CompaniesDiffer) rs plain) h
