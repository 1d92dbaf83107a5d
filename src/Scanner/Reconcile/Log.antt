-- ===== src/Scanner/Reconcile/Log.antt =====
-- A cluster that records the statuses that it accepts.
use maintainer_d.Base.{Text, Option, none, some, List, [], ◌∷◌, ◌++◌}
use maintainer_d.Scanner.Kube.{CodeScannerFossaStatus, Kube}

-- The world with the statuses that the cluster has accepted, the newest last.
pub record Logged (W : Type 0) : Type 0 where
  pub world : W
  pub statuses : List CodeScannerFossaStatus

abbrev lift : {W A : Type 0} → (W → A × W) → Logged W → A × Logged W
lift m l = let (a, w) = m l.world in (a, record { world = w; statuses = l.statuses })

abbrev pub accept :
    {W : Type 0}
    → CodeScannerFossaStatus
    → List CodeScannerFossaStatus
    → Option Text × W
    → Option Text × Logged W
accept s statuses (some e, w) = (some e, record { world = w; statuses = statuses })
accept s statuses (none, w) = (none, record { world = w; statuses = statuses ++ s ∷ [] })

abbrev pub logged : {W : Type 0} → Kube W → Kube (Logged W)
logged k = record {
  get_cr = lift k.get_cr;
  get_secret = λ namespace name. lift (k.get_secret namespace name);
  get_config_map = λ namespace name. lift (k.get_config_map namespace name);
  create_config_map = λ config_map. lift (k.create_config_map config_map);
  update_config_map = λ config_map. lift (k.update_config_map config_map);
  set_controller_reference = k.set_controller_reference;
  patch = λ cr. lift (k.patch cr);
  update_status = λ cr l. accept cr.status l.statuses (k.update_status cr l.world);
  record_event = λ e l. record { world = k.record_event e l.world; statuses = l.statuses };
}
