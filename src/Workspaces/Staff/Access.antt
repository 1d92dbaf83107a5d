-- ===== src/Workspaces/Staff/Access.antt =====
-- What a reconciliation of the staff leaves in the workspaces: the bindings at the kcp server.
use maintainer_d.Base.{
  Text, text, ◌==◌, eq_refl, Bool-cases, ◌≡◌, ◌⊎◌, refl, inl, inr, Option, none, some, List, [],
  if◌then◌else◌, if-Splits,
}
use maintainer_d.Scanner.Kube.{Found, found, not_found, failed}
use maintainer_d.Workspaces.{Config, WorkspaceInfo, Subject, Binding, KcpServer, Cluster}
use maintainer_d.Workspaces.Rbac.{
  BindOutcome, bound, refused, panicked, host_of, staff_binding, updated_binding, update_existing,
  bound_or, after_binding, bind_at, after_rest_config, create_or_update_staff_binding,
  staff_access_binding_name,
}
use maintainer_d.Base.Dict.{Dict}

module _ {W : Type 0} (kcp : KcpServer W) (bindings : W → Text → Option Binding) where
  -- A write that succeeds stores the binding, one that fails nothing.
  abbrev pub Stored : Option Text → Text → Binding → W → W → Type 0
  Stored none host b before after =
      (h : Text) → bindings after h ≡ (if host == h then some b else bindings before h)
  Stored (some e) host b before after = (h : Text) → bindings after h ≡ bindings before h

  pub record BindingLaws : Type 0 where
    pub reads :
        (host name : Text) (w : W) (h : Text)
        → bindings (kcp.get_binding host name w).1 h ≡ bindings w h
    pub creates :
        (host : Text) (b : Binding) (w : W)
        → Stored (kcp.create_binding host b w).0 host b w (kcp.create_binding host b w).1
    pub updates :
        (host : Text) (b : Binding) (w : W)
        → Stored (kcp.update_binding host b w).0 host b w (kcp.update_binding host b w).1

  -- The binding at the host is for exactly these subjects.
  abbrev pub Grants : List Subject → W → Text → Type 0
  Grants subjects w host = (b : Binding) × (bindings w host ≡ some b) × (b.subjects ≡ subjects)

  abbrev pub KeepsGrants : List Subject → W → W → Type 0
  KeepsGrants subjects before after =
      (h : Text) → Grants subjects before h → Grants subjects after h

  -- What a step leaves of the subjects' bindings, and at the host if it succeeds.
  abbrev pub BindsAt : List Subject → Text → BindOutcome → W → W → Type 0
  BindsAt subjects host bound before after =
      KeepsGrants subjects before after × Grants subjects after host
  BindsAt subjects host _ before after = KeepsGrants subjects before after

  keeps_read :
      (subjects : List Subject) (before after : W)
      → ((h : Text) → bindings after h ≡ bindings before h)
      → KeepsGrants subjects before after
  keeps_read subjects before after same h (b, at, e) = (b, rw (same h) at, e)

  Stored-BindsAt :
      (verb name host : Text) (b : Binding) (before after : W) (error : Option Text)
      → Stored error host b before after
      → BindsAt b.subjects host (bound_or verb name error) before after
  Stored-BindsAt verb name host b before after none stored = (
    (λ h (old, at, e). elim (Bool-cases (host == h)) [
      | inl here ↦ (b, rw (stored h) (rw here), refl)
      | inr other ↦ (old, rw (stored h) (rw other at), e)
    ]),
    (b, rw (stored host) (rw (eq_refl host)), refl),
  )
  Stored-BindsAt verb name host b before after (some e) same =
      keeps_read b.subjects before after same

  module _ (cluster : Cluster W) (laws : BindingLaws) where
    update_existing-Binds :
        (host name : Text) (b : Binding) (annotations : Option (Dict Text))
        (subjects : List Subject) (w : W)
        → BindsAt subjects host
            (update_existing kcp cluster host name b annotations subjects w).0
            w
            (update_existing kcp cluster host name b annotations subjects w).1
    unfolding update_existing updated_binding
    update_existing-Binds host name b none subjects w = λ h grants. grants
    update_existing-Binds host name b (some annotations) subjects w =
        let new = updated_binding cluster b annotations subjects w in
        Stored-BindsAt (text "update") name host new w (kcp.update_binding host new w).1
          (kcp.update_binding host new w).0 (laws.updates host new w)

    after_binding-Binds :
        (host name source : Text) (subjects : List Subject) (answer : Found Binding) (w0 w : W)
        → let step =
            after_binding kcp cluster host name subjects
              (staff_binding cluster subjects source w0)
              answer
              w in
          BindsAt subjects host step.0 w step.1
    unfolding after_binding staff_binding
    after_binding-Binds host name source subjects (found b) w0 w =
        update_existing-Binds host name b b.annotations subjects w
    after_binding-Binds host name source subjects not_found w0 w =
        let new = staff_binding cluster subjects source w0 in
        Stored-BindsAt (text "create") name host new w (kcp.create_binding host new w).1
          (kcp.create_binding host new w).0 (laws.creates host new w)
    after_binding-Binds host name source subjects (failed e) w0 w = λ h grants. grants

    -- A step after a read.
    BindsAt-read :
        (subjects : List Subject) (host : Text) (outcome : BindOutcome) (w w1 w2 : W)
        → KeepsGrants subjects w w1
        → BindsAt subjects host outcome w1 w2
        → BindsAt subjects host outcome w w2
    BindsAt-read subjects host bound w w1 w2 k (k', at) = ((λ h g. k' h (k h g)), at)
    BindsAt-read subjects host (refused e) w w1 w2 k k' = λ h g. k' h (k h g)
    BindsAt-read subjects host panicked w w1 w2 k k' = λ h g. k' h (k h g)

    bind_at-Binds :
        (host name source : Text) (subjects : List Subject) (error : Option Text) (w : W)
        → BindsAt subjects host
            (bind_at kcp cluster host name subjects source error w).0
            w
            (bind_at kcp cluster host name subjects source error w).1
    unfolding bind_at
    bind_at-Binds host name source subjects (some e) w = λ h grants. grants
    bind_at-Binds host name source subjects none w =
        let answer = kcp.get_binding host staff_access_binding_name w in
        let step =
          after_binding kcp cluster host name subjects (staff_binding cluster subjects source w)
            answer.0 answer.1 in
        BindsAt-read subjects host step.0 w answer.1 step.1
          (keeps_read subjects w answer.1 (laws.reads host staff_access_binding_name w))
          (after_binding-Binds host name source subjects answer.0 w answer.1)

  -- The API of the workspace has the binding for these subjects.
  abbrev pub HasAccess : Config → List Subject → W → WorkspaceInfo → Type 0
  HasAccess config subjects w ws =
      (base : Text) × (kcp.rest_config config.kubeconfig_data ≡ inl base)
      × Grants subjects w (host_of kcp config ws.name base)

  -- What a step leaves at the workspaces, and at the one that it is for if it succeeds.
  abbrev pub Binds : Config → List Subject → WorkspaceInfo → BindOutcome → W → W → Type 0
  Binds config subjects ws bound before after =
      KeepsGrants subjects before after × HasAccess config subjects after ws
  Binds config subjects ws _ before after = KeepsGrants subjects before after

  module _ (cluster : Cluster W) (laws : BindingLaws) where
    bind_at-Access :
        (config : Config) (subjects : List Subject) (ws : WorkspaceInfo) (base : Text)
        (outcome : BindOutcome) (before after : W)
        → kcp.rest_config config.kubeconfig_data ≡ inl base
        → BindsAt subjects (host_of kcp config ws.name base) outcome before after
        → Binds config subjects ws outcome before after
    bind_at-Access config subjects ws base bound before after e (keeps, at) = (keeps, (base, e, at))
    bind_at-Access config subjects ws base (refused r) before after e keeps = keeps
    bind_at-Access config subjects ws base panicked before after e keeps = keeps

    after_rest_config-Binds :
        (config : Config) (ws : WorkspaceInfo) (subjects : List Subject) (source : Text)
        (answer : Text ⊎ Text) (w : W)
        → kcp.rest_config config.kubeconfig_data ≡ answer
        → let step = after_rest_config kcp cluster config ws.name subjects source answer w in
          Binds config subjects ws step.0 w step.1
    unfolding after_rest_config
    after_rest_config-Binds config ws subjects source (inr e) w h = λ h grants. grants
    after_rest_config-Binds config ws subjects source (inl base) w h =
        let host = host_of kcp config ws.name base in
        let step =
          bind_at kcp cluster host ws.name subjects source (kcp.kubernetes_client host) w in
        bind_at-Access config subjects ws base step.0 w step.1 h
          (bind_at-Binds cluster laws host ws.name source subjects (kcp.kubernetes_client host) w)

    pub staff_binding-Binds :
        (config : Config) (ws : WorkspaceInfo) (subjects : List Subject) (source : Text) (w : W)
        → let step = create_or_update_staff_binding kcp cluster config ws.name subjects source w in
          Binds config subjects ws step.0 w step.1
    unfolding create_or_update_staff_binding
    staff_binding-Binds config ws subjects source w =
        if-Splits (λ step. Binds config subjects ws step.0 w step.1) (ws.name == [])
          (refused (text "workspace name cannot be empty"), w)
          (after_rest_config kcp cluster config ws.name subjects source
            (kcp.rest_config config.kubeconfig_data) w)
          (λ _ h grants. grants)
          (λ _.
            after_rest_config-Binds config ws subjects source
              (kcp.rest_config config.kubeconfig_data) w refl)
