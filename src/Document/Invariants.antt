-- ===== src/Document/Invariants.antt =====
-- Invariants of a document's revisions and its log: what keeps them under the operations on revisions
-- keeps them under every sequence of calls, those of the document included.
use perfect_match_qms.Prelude.{
  ℕ, Bool, ◌≡◌, sym, ap, ◌∙◌, subst, true, false, Option, none, some, String, List, [], ◌∷◌, map,
  Exists, inl, inr, Bool-cases, if_true, if_false,
}
use perfect_match_qms.Odoo.{
  Env, Result, ok, err, user_error, >>-eq-ok, >>=-eq-ok, ok-injective, Orm, Creation,
}
use perfect_match_qms.Event.{Event}
use perfect_match_qms.Document.Types.{
  RevisionState, Revision, Store, Assignment, assign, assign_document, can_activate, LoggedEvent,
  of_document, of_revision,
}
use perfect_match_qms.Document.Revisions.{
  Action, submit_for_review, approve, reject, Selection, run, write, unlink,
}
use perfect_match_qms.Document.Activation.{activate, write_document}
use perfect_match_qms.Document.Naming.{next_revision_name}
use perfect_match_qms.Document.Workflow.{
  DocumentAction, submit_document, approve_document, reject_document, obsolete_document,
  document_values, document_event, check_document_manager, run_revisions, run_document,
  is_draft_revision, is_in_review, first_ready, activate_document, insert, insert_each,
  new_revision, create_new_revision, create_revision,
}
use perfect_match_qms.Document.Writes.{write_document-exact}
use perfect_match_qms.Document.Steps.{
  Step, revision_acted, revision_activated, revision_written, revision_deleted, revision_created,
  revision_entered, document_acted, document_activated, document_written, Log, logs, Reach, begins,
  continues,
}

module _ (orm : Orm assign) (document_orm : Orm assign_document) (creation : Creation Revision)
    (admits : Revision → Bool) where
  -- What the operations on revisions keep.
  pub record Keeps (I : Log → List Revision → Type 0) : Type 0 where
    pub run_keeps :
        (env : Env) (action : Action) (self : Selection) (s s' : Store)
        (events : List (Event RevisionState)) (log : Log)
        → run orm env action self s ≡ ok (s', events)
        → I log s.revisions
        → I (logs env (map of_revision events) log) s'.revisions
    pub activate_keeps :
        (env : Env) (r : Revision) (s s' : Store) (events : List (Event RevisionState)) (log : Log)
        → Exists (λ q. q ≡ r) s.revisions
        → activate orm document_orm env r s ≡ ok (s', events)
        → I log s.revisions
        → I (logs env (map of_revision events) log) s'.revisions
    pub write_keeps :
        (vals : List Assignment) (self : Selection) (s s' : Store) (log : Log)
        → write orm false vals self s ≡ ok s'
        → I log s.revisions
        → I log s'.revisions
    pub unlink_keeps :
        (self : Selection) (s s' : Store) (log : Log)
        → unlink self s ≡ ok s'
        → I log s.revisions
        → I log s'.revisions
    pub insert_keeps :
        (env : Env) (id : ℕ) (display_name : String) (name : List ℕ) (s : Store) (log : Log)
        → I log s.revisions
        → I log (insert (new_revision env id display_name name s.document) s.revisions)
    pub entry_keeps :
        (new : Revision) (s s' : Store) (log : Log)
        → admits new ≡ true
        → create_revision creation new s ≡ ok s'
        → I log s.revisions
        → I log s'.revisions
    -- An event of the document itself does not matter.
    pub event_keeps :
        (env : Env) (action : DocumentAction) (s : Store) (log : Log) (rs : List Revision)
        → I log rs
        → I ((env, of_document (document_event env action s.document)) ∷ log) rs

  module _ (I : Log → List Revision → Type 0) (keeps : Keeps I) where
    run_revisions-Kept :
        (env : Env) (action : DocumentAction) (s s' : Store) (events : List (Event RevisionState))
        (log : Log)
        → run_revisions orm env action s ≡ ok (s', events)
        → I log s.revisions
        → I (logs env (map of_revision events) log) s'.revisions
    unfolding run_revisions
    run_revisions-Kept env submit_document s s' events log e h =
        keeps.run_keeps env submit_for_review is_draft_revision s s' events log e h
    run_revisions-Kept env approve_document s s' events log e h =
        keeps.run_keeps env approve is_in_review s s' events log e h
    run_revisions-Kept env reject_document s s' events log e h =
        keeps.run_keeps env reject is_in_review s s' events log e h
    run_revisions-Kept env obsolete_document s s' events log e h =
        subst
          (λ (p : Store × List (Event RevisionState)).
            I (logs env (map of_revision p.1) log) p.0.revisions)
          (ok-injective e) h

    run_document-Kept :
        (env : Env) (action : DocumentAction) (s s' : Store) (events : List LoggedEvent) (log : Log)
        → run_document orm document_orm env action s ≡ ok (s', events)
        → I log s.revisions
        → I (logs env events log) s'.revisions
    unfolding run_document
    run_document-Kept env action s s' events log e h =
        let (_, one) = >>-eq-ok (check_document_manager env) _ e in
        let (middle, stored, two) =
          >>=-eq-ok (write_document document_orm true (document_values action) s) _ one in
        let (result, ran, done) = >>=-eq-ok (run_revisions orm env action middle) _ two in
        let (same, _) =
          write_document-exact document_orm true (document_values action) s middle stored in
        let kept =
          run_revisions-Kept env action middle result.0 result.1 log ran
            (subst (I log) (sym same) h) in
        subst (λ (p : Store × List LoggedEvent). I (logs env p.1 log) p.0.revisions)
          (ok-injective done)
          (keeps.event_keeps env action s (logs env (map of_revision result.1) log)
            result.0.revisions kept)

    activate_document-Kept :
        (env : Env) (s s' : Store) (events : List LoggedEvent) (log : Log)
        → activate_document orm document_orm env s ≡ ok (s', events)
        → I log s.revisions
        → I (logs env events log) s'.revisions
    unfolding activate_document
    activate_document-Kept env s s' events log e h =
        let (_, one) = >>-eq-ok (check_document_manager env) _ e in
        let (r, found, two) =
          >>=-eq-ok
            (elim (first_ready s.revisions) as (λ _. Result Revision) [
              | none ↦ err (user_error "A document needs an approved revision before activation.")
              | some r ↦ ok r
            ])
            _ one in
        let (result, ran, done) = >>=-eq-ok (activate orm document_orm env r s) _ two in
        subst (λ (p : Store × List LoggedEvent). I (logs env p.1 log) p.0.revisions)
          (ok-injective done)
          (keeps.activate_keeps env r s result.0 result.1 log (listed s.revisions r found) ran h)
      where
        chosen : Option Revision → Result Revision
        chosen none = err (user_error "A document needs an approved revision before activation.")
        chosen (some r) = ok r

        listed :
            (rs : List Revision) (r : Revision)
            → chosen (first_ready rs) ≡ ok r
            → Exists (λ q. q ≡ r) rs
        listed [] r h = cc
        listed (q ∷ rs) r h = elim (Bool-cases (can_activate q.state)) [
          | inl ready ↦ inl (
              ok-injective (
                sym (ap chosen (if_true (can_activate q.state) (some q) (first_ready rs) ready))
                ∙ h))
          | inr other ↦ inr (
              listed rs r (
                sym (ap chosen (if_false (can_activate q.state) (some q) (first_ready rs) other))
                ∙ h))
        ]

    create-Kept :
        (env : Env) (id : ℕ) (display_name : String) (s s' : Store) (log : Log)
        → create_new_revision creation env id display_name s ≡ ok s'
        → I log s.revisions
        → I log s'.revisions
    unfolding create_new_revision
    create-Kept env id display_name s s' log e h =
        let (_, one) = >>-eq-ok (check_document_manager env) _ e in
        let (name, _, two) =
          >>=-eq-ok (next_revision_name (map (λ (r : Revision). r.revision) s.revisions)) _ one in
        let new = new_revision env id display_name name s.document in
        let (created, stored, done) = >>=-eq-ok (creation.super_create (new ∷ [])) _ two in
        let same : created ≡ new ∷ [] = creation.create_exact (new ∷ []) created stored in
        subst (λ (x : Store). I log x.revisions) (ok-injective done)
          (subst (λ rs. I log (insert_each rs s.revisions)) (sym same)
            (keeps.insert_keeps env id display_name name s log h))

    pub Step-Kept :
        (env : Env) (s s' : Store) (events : List LoggedEvent) (log : Log)
        → Step orm document_orm creation admits env s s' events
        → I log s.revisions
        → I (logs env events log) s'.revisions
    Step-Kept env s s' _ log (revision_acted action self _ _ events e) h =
        keeps.run_keeps env action self s s' events log e h
    Step-Kept env s s' _ log (revision_activated r _ _ events listed e) h =
        keeps.activate_keeps env r s s' events log listed e h
    Step-Kept env s s' _ log (revision_written vals self _ _ e) h =
        keeps.write_keeps vals self s s' log e h
    Step-Kept env s s' _ log (revision_deleted self _ _ e) h = keeps.unlink_keeps self s s' log e h
    Step-Kept env s s' _ log (revision_created id display_name _ _ e) h =
        create-Kept env id display_name s s' log e h
    Step-Kept env s s' _ log (revision_entered new _ _ fits e) h =
        keeps.entry_keeps new s s' log fits e h
    Step-Kept env s s' _ log (document_acted action _ _ events e) h =
        run_document-Kept env action s s' events log e h
    Step-Kept env s s' _ log (document_activated _ _ events e) h =
        activate_document-Kept env s s' events log e h
    Step-Kept env s s' _ log (document_written vals _ _ e) h =
        subst (I log) (sym (write_document-exact document_orm false vals s s' e).0) h

    pub Reach-Kept :
        (start s : Store) (log : Log)
        → Reach orm document_orm creation admits start s log
        → I [] start.revisions
        → I log s.revisions
    Reach-Kept start _ _ begins h = h
    Reach-Kept start _ _ (continues env s s' log events before call) h =
        Step-Kept env s s' events log call (Reach-Kept start s log before h)
