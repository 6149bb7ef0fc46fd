-- ===== src/Document/Sole.antt =====
-- After an activation the revision is the only active one of its document.
use perfect_match_qms.Prelude.{
  not-eq-false, ◌==◌, ◌≡◌, refl, sym, ap, ◌∙◌, subst, true, false, not, some, List, [], ◌∷◌, All,
  All-Unit, arith,
}
use perfect_match_qms.Odoo.{
  Env, ok, raise_if, raise_if-eq-ok, >>-eq-ok, >>=-eq-ok, ok-injective, Orm,
}
use perfect_match_qms.Event.{Event}
use perfect_match_qms.Document.Stages
use perfect_match_qms.Document.Types.{
  Document, RevisionState, superseded, Revision, Store, set_state, assign, assign_document,
  is_active, can_activate,
}
use perfect_match_qms.Document.Revisions.{manager_group, check_manager_permission, write}
use perfect_match_qms.Document.Activation.{
  is_previous, is_this, active_values, current_values, write_document, activate,
}
use perfect_match_qms.Document.Writes.{if_rule, write-All, write_document-exact, manager_of_check}

-- An activation that returns was made by a manager, of an approved or active revision. Afterwards a
-- revision of the document is active exactly when it is the one activated, whatever was active
-- before; the document is active and visible, and the revision is its current one.
pub activate-IsSole :
    (orm : Orm assign) (document_orm : Orm assign_document) (env : Env) (revision : Revision)
    (store new : Store) (events : List (Event RevisionState))
    → activate orm document_orm env revision store ≡ ok (new, events)
    → (env.has_group manager_group ≡ true)
      × (can_activate revision.state ≡ true)
      × All (λ (r : Revision). is_active r.state ≡ (r.id == revision.id)) new.revisions
      × (new.document.current_revision_id ≡ some revision.id)
      × (new.document.state ≡ Stages.active)
      × (new.document.is_shown ≡ true)
unfolding activate
activate-IsSole orm document_orm env revision store new events h =
    let id = revision.id in
    let (manager, one) = >>-eq-ok (check_manager_permission env) _ h in
    let (approved, two) = >>-eq-ok (raise_if (not (can_activate revision.state)) _) _ one in
    let (settled, first, three) =
      >>=-eq-ok (write orm true (set_state superseded ∷ []) (is_previous id) store) _ two in
    let (placed, second, four) =
      >>=-eq-ok (write orm true (active_values env revision) (is_this id) settled) _ three in
    let (final, third, done) =
      >>=-eq-ok (write_document document_orm true (current_values revision) placed) _ four in
    let quiet =
      (write-All orm true (set_state superseded ∷ []) (is_previous id) (λ _. Unit {0})
        (λ s. is_previous id s ≡ false) store settled
        (λ r _.
          if_rule (λ s. is_previous id s ≡ false) (is_previous id r) _ r (λ _. refl)
            (λ other. other))
        (All-Unit store.revisions) first).2 in
    let sole =
      (write-All orm true (active_values env revision) (is_this id) (λ s. is_previous id s ≡ false)
        (λ (s : Revision). is_active s.state ≡ (s.id == id)) settled placed
        (λ r settled_r.
          if_rule (λ (s : Revision). is_active s.state ≡ (s.id == id)) (is_this id r) _ r
            (λ this. sym this) (λ other. ground (arith, settled_r, other)))
        quiet second).2 in
    let (revisions, document) =
      write_document-exact document_orm true (current_values revision) placed final third in
    let same_store : final ≡ new =
      ap (λ (p : Store × List (Event RevisionState)). p.0) (ok-injective done) in
    let written = ap (λ (s : Store). s.document) (sym same_store) ∙ document in
    (
      manager_of_check env manager,
      not-eq-false (can_activate revision.state) (raise_if-eq-ok _ _ approved),
      subst (λ (rs : List Revision). All (λ r. is_active r.state ≡ (r.id == id)) rs)
          (sym revisions ∙ ap (λ (s : Store). s.revisions) same_store) sole,
      ap (λ (d : Document). d.current_revision_id) written,
      ap (λ (d : Document). d.state) written,
      ap (λ (d : Document). d.is_shown) written,
    )
