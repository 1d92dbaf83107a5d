-- ===== src/Scanner/Reconcile/Shows.antt =====
-- What the conditions of a resource show, and how the stages of `Reconcile` set them.
use maintainer_d.Base.{
  ℕ, Text, ◌==◌, eq_iff, ◌≡◌, refl, ◌∙◌, true, false, Option, none, some, List, arith,
}
use maintainer_d.Scanner.Conditions.{Status, Note, Condition}
use maintainer_d.Scanner.Conditions.Update.{
  find_condition, IsDistinct, agrees, updated, set_condition-agrees,
}
use maintainer_d.Scanner.Kube.{CodeScannerFossa}
use maintainer_d.Scanner.Resource.{with_condition}

-- The condition of the type has the status and the reason.
abbrev pub Shows : Text → Status → Text → List Condition → Type 0
Shows type status reason cs =
    (c : Condition) × (find_condition type cs ≡ some c) × (c.status ≡ status) × (c.reason ≡ reason)

agrees_same :
    (old new : Condition)
    → agrees old new ≡ true
    → (old.status ≡ new.status) × (old.reason ≡ new.reason)
agrees_same old new h = ground (arith, eq_iff old.reason new.reason)

updated-Shows :
    (new : Condition) (old : Option Condition)
    → ((updated new old).status ≡ new.status) × ((updated new old).reason ≡ new.reason)
updated-Shows new none = (refl, refl)
updated-Shows new (some old) = ground (arith, agrees_same old new)

-- What setting one condition does: it shows, and what other types show stays.
pub with_condition-IsDistinct :
    (type : Text) (status : Status) (reason : Text) (message : Note) (now : ℕ)
    (cr : CodeScannerFossa)
    → IsDistinct cr.status.conditions
    → IsDistinct (with_condition type status reason message now cr).status.conditions
unfolding with_condition
with_condition-IsDistinct type status reason message now cr h = (set_condition-agrees _ _ h).0

pub with_condition-Shows :
    (type : Text) (status : Status) (reason : Text) (message : Note) (now : ℕ)
    (cr : CodeScannerFossa)
    → IsDistinct cr.status.conditions
    → Shows type status reason (with_condition type status reason message now cr).status.conditions
unfolding with_condition
with_condition-Shows type status reason message now cr h =
    let (same_status, same_reason) = updated-Shows _ _ in
    (_, (set_condition-agrees _ _ h).1, same_status, same_reason)

pub with_condition-keeps :
    (type : Text) (status : Status) (reason : Text) (message : Note) (now : ℕ)
    (cr : CodeScannerFossa) (t : Text) {s : Status} {r : Text}
    → (type == t) ≡ false
    → IsDistinct cr.status.conditions
    → Shows t s r cr.status.conditions
    → Shows t s r (with_condition type status reason message now cr).status.conditions
unfolding with_condition
with_condition-keeps type status reason message now cr t other h (c, e, same, reasons) = (
  c,
  (set_condition-agrees _ _ h).2 t (λ f. ground (arith, other, (eq_iff type t).1 f)) ∙ e,
  same,
  reasons,
)
