-- ===== src/Web/SelfEdit.antt =====
-- What maintainers can change of the register through handleMaintainer of cmd/web-bff/main.go.
use maintainer_d.Base.{
  ℕ, Text, text, eqb, eqb_iff, not, ◌≡◌, refl, sym, ap, ◌∙◌, subst, ◌⊎◌, inl, inr, Option, none,
  some, List, if-Has, if-Splits, arith,
}
use maintainer_d.Model.{Maintainer, Company, Project, status_is_valid}
use maintainer_d.Auth.Directory.{Role, maintainer}
use maintainer_d.Auth.Stores.{Session}
use maintainer_d.Store.{Answer, found, failed, Details, Gorm, AuditLog}
use maintainer_d.Store.Maintainers.{update_maintainer_details}
use maintainer_d.Store.Tables.{Tables, set_details, add_event, OutcomeOf-Has}
use maintainer_d.Store.Laws.{Queries, Writes}
use maintainer_d.Store.Laws.Edits.{EditOutcome, trimmed_details, update_maintainer_details-Edits}
use maintainer_d.Web.{
  Method, get, post, patch, put, options, other_method, Reply, refused, bad_request, UpdateRequest,
}
use maintainer_d.Web.Params.{parse_id_param}
use maintainer_d.Web.Actor.{get_maintainer_by_login, log_event}
use maintainer_d.Web.Maintainer.{
  handle_maintainer, with_id, with_session, with_role, after_requester, by_method, update_by,
  after_owner, with_body, after_before, apply_update, after_update, effective,
}

-- The tables without the audit events.
abbrev pub register : Tables → List Maintainer × List Company × List Project
register t = (t.maintainers, t.companies, t.projects)

-- The details of a maintainer's own edit: the status is that before, the name and the account are
-- those before but trimmed, with the placeholder for an account that is empty.
abbrev pub own_details : Maintainer → UpdateRequest → Details
own_details before req =
    trimmed_details before.name req.email before.git_hub_account before.maintainer_status
      req.company_id

module _ {W : Type 0} (db : Gorm W) (rows saved : W → Tables) (writes : Writes db rows saved)
    (queries : Queries db rows saved) where
  log_event-register :
      (e : AuditLog) (w : W) → register (rows (log_event db e w)) ≡ register (rows w)
  unfolding log_event
  log_event-register e w =
      OutcomeOf-Has (λ t. register t ≡ register (rows w)) (db.insert_event e w).0 (rows w)
        (add_event e (rows w)) (rows (db.insert_event e w).1) (writes.event e w) refl refl

  -- The register is as it was, or the row with the number has the details.
  abbrev Edited : ℕ → Details → W → W → Type 0
  Edited id d w w' =
      (register (rows w') ≡ register (rows w))
      ⊎ (register (rows w') ≡ register (set_details id d (rows w)))

  EditOutcome-Edited :
      (a : Answer Maintainer) (id : ℕ) (d : Details) (w w' : W)
      → EditOutcome a id d (rows w) (rows w')
      → Edited id d w w'
  EditOutcome-Edited (failed e) id d w w' (inl same) = inl (ap register same)
  EditOutcome-Edited (failed e) id d w w' (inr (valid, exists, same)) = inr (ap register same)
  EditOutcome-Edited (found m) id d w w' ((valid, exists, same), own, row) = inr (ap register same)

  Edited-log :
      (id : ℕ) (d : Details) (w w' w'' : W)
      → register (rows w'') ≡ register (rows w')
      → Edited id d w w'
      → Edited id d w w''
  Edited-log id d w w' w'' same (inl h) = inl (same ∙ h)
  Edited-log id d w w' w'' same (inr h) = inr (same ∙ h)

  module _ (id : ℕ) (session : Session) where
    after_update-register :
        (before : Maintainer) (r : Answer Maintainer × W)
        → register (rows (after_update db id session before r).1) ≡ register (rows r.1)
    unfolding after_update
    after_update-register before (failed e, w) = refl
    after_update-register before (found after, w) = log_event-register _ w

    apply_update-Edited :
        (before : Maintainer) (req : UpdateRequest) (w : W)
        → Edited id
            (trimmed_details req.name req.email req.git_hub req.status req.company_id)
            w
            (apply_update db id session before req w).1
    unfolding apply_update
    apply_update-Edited before req w =
        let d = trimmed_details req.name req.email req.git_hub req.status req.company_id in
        let r =
          update_maintainer_details db id req.name req.email req.git_hub req.status req.company_id
            w in
        if-Has (λ (answer : Reply _ × W). Edited id d w answer.1) (not (status_is_valid req.status))
          (refused bad_request (text "invalid status"), w) (after_update db id session before r)
          (inl refl)
          (Edited-log id d w r.1 (after_update db id session before r).1
            (after_update-register before r)
            (EditOutcome-Edited r.0 id d w r.1 (
              update_maintainer_details-Edits db rows saved writes id req.name req.email req.git_hub
                req.status req.company_id w queries)))

    -- An edit of the own row: whose it is, what it was, and what it is.
    abbrev OwnEdit : Option UpdateRequest → W → W → Type 0
    OwnEdit body w w' =
        (m : Maintainer) × (before : Maintainer) × (req : UpdateRequest) × (body ≡ some req)
        × (get_maintainer_by_login db session.login w ≡ found m)
        × (m.id ≡ id)
        × (db.first_maintainer id w ≡ found before)
        × (register (rows w') ≡ register (set_details id (own_details before req) (rows w)))

    abbrev OnlyOwn : Option UpdateRequest → W → W → Type 0
    OnlyOwn body w w' = (register (rows w') ≡ register (rows w)) ⊎ OwnEdit body w w'

    module _ (role : session.role ≡ maintainer) where
      own-Edited :
          (before : Maintainer) (req : UpdateRequest) (w : W)
          → Edited id
              (own_details before req)
              w
              (apply_update db id session before (effective session.role before req) w).1
      unfolding effective
      own-Edited before req w =
          subst
            (λ r.
              Edited id (own_details before req) w
                (apply_update db id session before (effective r before req) w).1)
            (sym role) (apply_update-Edited before (effective maintainer before req) w)

      with_owner :
          (m : Maintainer) (a : Answer Maintainer) (req : UpdateRequest) (w : W)
          → get_maintainer_by_login db session.login w ≡ found m
          → m.id ≡ id
          → db.first_maintainer id w ≡ a
          → OnlyOwn (some req) w (after_before db id session req a w).1
      unfolding after_before
      with_owner m (failed e) req w login same row = inl refl
      with_owner m (found before) req w login same row = elim (own-Edited before req w) [
        | inl unchanged ↦ inl unchanged
        | inr edited ↦ inr (m, before, req, refl, login, same, row, edited)
      ]

      with_body-OnlyOwn :
          (m : Maintainer) (body : Option UpdateRequest) (w : W)
          → get_maintainer_by_login db session.login w ≡ found m
          → m.id ≡ id
          → OnlyOwn body w (with_body db id session body w).1
      unfolding with_body
      with_body-OnlyOwn m none w login same = inl refl
      with_body-OnlyOwn m (some req) w login same =
          with_owner m (db.first_maintainer id w) req w login same refl

      after_owner-OnlyOwn :
          (a : Answer Maintainer) (body : Option UpdateRequest) (w : W)
          → get_maintainer_by_login db session.login w ≡ a
          → OnlyOwn body w (after_owner db id session a body w).1
      unfolding after_owner
      after_owner-OnlyOwn (failed e) body w login = inl refl
      after_owner-OnlyOwn (found m) body w login =
          if-Splits (λ (r : Reply _ × W). OnlyOwn body w r.1) (not (eqb m.id id))
            (refused 403 (text "forbidden"), w) (with_body db id session body w) (λ other. inl refl)
            (λ own. with_body-OnlyOwn m body w login ((eqb_iff m.id id).0 (ground arith)))

      update_by-OnlyOwn :
          (body : Option UpdateRequest) (w : W)
          → OnlyOwn body w (update_by db id session maintainer body w).1
      unfolding update_by
      update_by-OnlyOwn body w =
          after_owner-OnlyOwn (get_maintainer_by_login db session.login w) body w refl

      by_role-OnlyOwn :
          (body : Option UpdateRequest) (w : W)
          → OnlyOwn body w (update_by db id session session.role body w).1
      by_role-OnlyOwn body w =
          subst (λ r. OnlyOwn body w (update_by db id session r body w).1) (sym role)
            (update_by-OnlyOwn body w)

      by_method-OnlyOwn :
          (method : Method) (requester : Option Maintainer) (body : Option UpdateRequest) (w : W)
          → OnlyOwn body w (by_method db id session method requester body w).1
      unfolding by_method
      by_method-OnlyOwn get requester body w = inl refl
      by_method-OnlyOwn post requester body w = inl refl
      by_method-OnlyOwn patch requester body w = by_role-OnlyOwn body w
      by_method-OnlyOwn put requester body w = by_role-OnlyOwn body w
      by_method-OnlyOwn options requester body w = inl refl
      by_method-OnlyOwn other_method requester body w = inl refl

      after_requester-OnlyOwn :
          (method : Method) (a : Answer Maintainer) (body : Option UpdateRequest) (w : W)
          → OnlyOwn body w (after_requester db id session method a body w).1
      unfolding after_requester
      after_requester-OnlyOwn method (failed e) body w = inl refl
      after_requester-OnlyOwn method (found m) body w = by_method-OnlyOwn method (some m) body w

      with_role-OnlyOwn :
          (r : Role) (method : Method) (body : Option UpdateRequest) (w : W)
          → OnlyOwn body w (with_role db id session r method body w).1
      unfolding with_role
      with_role-OnlyOwn Role.staff method body w = by_method-OnlyOwn method none body w
      with_role-OnlyOwn Role.maintainer method body w =
          after_requester-OnlyOwn method (get_maintainer_by_login db session.login w) body w

  abbrev pub SelfOutcome : Option ℕ → Session → Option UpdateRequest → W → W → Type 0
  SelfOutcome none session body w w' = register (rows w') ≡ register (rows w)
  SelfOutcome (some id) session body w w' = OnlyOwn id session body w w'

  with_id-SelfOutcome :
      (id : Option ℕ) (session : Session) (method : Method) (body : Option UpdateRequest) (w : W)
      → session.role ≡ maintainer
      → SelfOutcome id session body w (with_id db id (some session) method body w).1
  unfolding with_id with_session
  with_id-SelfOutcome none session method body w role = refl
  with_id-SelfOutcome (some id) session method body w role =
      with_role-OnlyOwn id session role session.role method body w

  options-SelfOutcome :
      (id : Option ℕ) (session : Session) (body : Option UpdateRequest) (w : W)
      → SelfOutcome id session body w w
  options-SelfOutcome none session body w = refl
  options-SelfOutcome (some id) session body w = inl refl

  -- Whatever a maintainer sends to handle_maintainer, for a database that obeys the laws: the
  -- tables but for the audit events stay as they were, or the path names the row that the
  -- maintainer's login finds, and of the tables only that row changes: its email to the trimmed
  -- one of the body, or to EMAIL_MISSING where that is empty, its company to that of the body, its
  -- status not at all, its name at most by trimming, and its account at most by trimming or from
  -- an empty one to GITHUB_MISSING.
  pub handle_maintainer-OnlyOwn :
      (method : Method) (path : Text) (session : Session) (body : Option UpdateRequest) (w : W)
      → session.role ≡ maintainer
      → SelfOutcome
          (parse_id_param path (text "/api/maintainers/"))
          session
          body
          w
          (handle_maintainer db method path (some session) body w).1
  unfolding handle_maintainer
  handle_maintainer-OnlyOwn options path session body w role =
      options-SelfOutcome (parse_id_param path (text "/api/maintainers/")) session body w
  handle_maintainer-OnlyOwn get path session body w role =
      with_id-SelfOutcome _ session get body w role
  handle_maintainer-OnlyOwn post path session body w role =
      with_id-SelfOutcome _ session post body w role
  handle_maintainer-OnlyOwn patch path session body w role =
      with_id-SelfOutcome _ session patch body w role
  handle_maintainer-OnlyOwn put path session body w role =
      with_id-SelfOutcome _ session put body w role
  handle_maintainer-OnlyOwn other_method path session body w role =
      with_id-SelfOutcome _ session other_method body w role
