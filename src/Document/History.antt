-- ===== src/Document/History.antt =====
-- A revision that is approved, active or superseded was approved by a manager, and the log says so.
use perfect_match_qms.Prelude.{
  not-eq-false, Bool, ◌≡◌, refl, sym, subst, true, false, not, List, [], ◌∷◌, All, All-map, All-zip,
  All-Exists, All-Unit, Exists, arith, inl, inr, filtered, map,
}
use perfect_match_qms.Odoo.{
  Env, ok, assign_all, raise_if, raise_if-eq-ok, >>-eq-ok, >>=-eq-ok, ok-injective, Orm, Creation,
}
use perfect_match_qms.Event.{Event}
use perfect_match_qms.Document.Types.{
  RevisionState, superseded, Revision, Store, Assignment, set_state, assign, assign_document,
  can_activate, of_revision,
}
use perfect_match_qms.Document.Revisions.{
  Action, submit_for_review, approve, reject, supersede, manager_group, check_manager_permission,
  Selection, write, values, event_of, takes_part, run,
}
use perfect_match_qms.Document.Activation.{
  is_previous, is_this, active_values, current_values, activate, write_document,
}
use perfect_match_qms.Document.Workflow.{new_revision}
use perfect_match_qms.Document.Writes.{
  if_rule, write-All, write_document-exact, manager_of_check, assign_all-id, assign_all-state,
}
use perfect_match_qms.Document.Single.{insert-All, unlink-All, entry-parts}
use perfect_match_qms.Document.Steps.{Log, logs, Reach}
use perfect_match_qms.Document.Invariants.{Keeps, Reach-Kept}
use perfect_match_qms.Document.Approvals.{
  is_settled, IsApproval, IsApprovedIn, later, event_logged, entry_of_settled, settled_of_supersede,
  settled_of_ready, settled_of_active, event_of-IsApproval, Exists-right,
}

All-Exists-lookup :
    (P : Revision → Type 0) (rs : List Revision) (r : Revision)
    → All P rs
    → Exists (λ q. q ≡ r) rs
    → P r
All-Exists-lookup P [] r h e = elim e [ ]
All-Exists-lookup P (q ∷ rs) r h (inl here) = subst P here h.0
All-Exists-lookup P (q ∷ rs) r h (inr there) = All-Exists-lookup P rs r h.1 there

module _ (orm : Orm assign) (env : Env) where
  acted :
      (action : Action) (self : Selection) (rs : List Revision) (log : Log) (r : Revision)
      → env.has_group manager_group ≡ true
      → Exists (λ q. q ≡ r) rs
      → takes_part action self r ≡ true
      → IsApprovedIn log r
      → IsApprovedIn
          (logs env
            (map of_revision (map (event_of env action) (filtered (takes_part action self) rs)))
            log)
          (assign_all assign (values env action) r)
  unfolding values
  acted submit_for_review self rs log r manager listed taken h = inl refl
  acted reject self rs log r manager listed taken h = inl refl
  acted supersede self rs log r manager listed taken h =
      let settled = settled_of_supersede r.state (ground (arith, taken)) in
      inr (Exists-right (IsApproval r.id) _ log (entry_of_settled log r settled h))
  acted approve self rs log r manager listed taken h = inr (
      event_logged (IsApproval r.id) env (event_of env approve) (takes_part approve self) rs r log
        listed taken (event_of-IsApproval env r manager))

  run-IsApprovedIn :
      (action : Action) (self : Selection) (s s' : Store) (events : List (Event RevisionState))
      (log : Log)
      → run orm env action self s ≡ ok (s', events)
      → All (IsApprovedIn log) s.revisions
      → All (IsApprovedIn (logs env (map of_revision events) log)) s'.revisions
  unfolding run
  run-IsApprovedIn action self s s' events log e h =
      let (checked, rest) = >>-eq-ok (check_manager_permission env) _ e in
      let (new, stored, done) =
        >>=-eq-ok (write orm true (values env action) (takes_part action self) s) _ rest in
      let made = map (event_of env action) (filtered (takes_part action self) s.revisions) in
      let after = logs env (map of_revision made) log in
      let all =
        (write-All orm true (values env action) (takes_part action self)
          (λ r. Exists (λ q. q ≡ r) s.revisions × IsApprovedIn log r) (IsApprovedIn after) s new
          (λ r (listed, approved_r).
            if_rule (IsApprovedIn after) (takes_part action self r) _ r
              (λ taken.
                acted action self s.revisions log r (manager_of_check env checked) listed taken
                  approved_r)
              (λ _. later env (map of_revision made) log r approved_r))
          (All-zip _ _ s.revisions (All-Exists s.revisions) h) stored).2 in
      subst
        (λ (p : Store × List (Event RevisionState)).
          All (IsApprovedIn (logs env (map of_revision p.1) log)) p.0.revisions)
        (ok-injective done) all

  activate-IsApprovedIn :
      (document_orm : Orm assign_document) (r : Revision) (s s' : Store)
      (events : List (Event RevisionState)) (log : Log)
      → Exists (λ q. q ≡ r) s.revisions
      → activate orm document_orm env r s ≡ ok (s', events)
      → All (IsApprovedIn log) s.revisions
      → All (IsApprovedIn (logs env (map of_revision events) log)) s'.revisions
  unfolding activate
  activate-IsApprovedIn document_orm r s s' events log listed e h =
      let (_, one) = >>-eq-ok (check_manager_permission env) _ e in
      let (ready, two) = >>-eq-ok (raise_if (not (can_activate r.state)) _) _ one in
      let settled =
        settled_of_ready r.state (not-eq-false (can_activate r.state) (raise_if-eq-ok _ _ ready)) in
      let own =
        entry_of_settled log r settled
          (All-Exists-lookup (IsApprovedIn log) s.revisions r h listed) in
      let (first, stored, three) =
        >>=-eq-ok (write orm true (set_state superseded ∷ []) (is_previous r.id) s) _ two in
      let (second, stored_again, four) =
        >>=-eq-ok (write orm true (active_values env r) (is_this r.id) first) _ three in
      let (final, third, done) =
        >>=-eq-ok (write_document document_orm true (current_values r) second) _ four in
      let kept =
        (write-All orm true (set_state superseded ∷ []) (is_previous r.id) (IsApprovedIn log)
          (IsApprovedIn log) s first
          (λ q approved_q.
            if_rule (IsApprovedIn log) (is_previous r.id q) _ q
              (λ previous. inr (
                entry_of_settled log q (settled_of_active q.state (ground (arith, previous)))
                  approved_q))
              (λ _. approved_q))
          h stored).2 in
      let placed =
        (write-All orm true (active_values env r) (is_this r.id) (IsApprovedIn log)
          (IsApprovedIn log) first second
          (λ q approved_q.
            if_rule (IsApprovedIn log) (is_this r.id q) _ q
              (λ this. inr (subst (λ id. Exists (IsApproval id) log) (ground (arith, this)) own))
              (λ _. approved_q))
          kept stored_again).2 in
      let (revisions, _) =
        write_document-exact document_orm true (current_values r) second final third in
      subst
        (λ (p : Store × List (Event RevisionState)).
          All (IsApprovedIn (logs env (map of_revision p.1) log)) p.0.revisions)
        (ok-injective done)
        (All-map (λ q. later env _ log q) final.revisions
          (subst (λ rs. All (IsApprovedIn log) rs) (sym revisions) placed))

write-IsApprovedIn :
    (orm : Orm assign) (vals : List Assignment) (self : Selection) (s s' : Store) (log : Log)
    → write orm false vals self s ≡ ok s'
    → All (IsApprovedIn log) s.revisions
    → All (IsApprovedIn log) s'.revisions
write-IsApprovedIn orm vals self s s' log e h =
    let checked =
      (write-All orm false vals self (λ _. Unit {0}) (λ _. Unit {0}) s s' (λ _ _. tt)
        (All-Unit s.revisions) e).0 in
    (write-All orm false vals self (IsApprovedIn log) (IsApprovedIn log) s s'
      (λ r approved_r.
        if_rule (IsApprovedIn log) (self r) _ r
          (λ _. rw (assign_all-state vals r checked, assign_all-id vals r) approved_r)
          (λ _. approved_r))
      h e).2

module _ (orm : Orm assign) (document_orm : Orm assign_document) (creation : Creation Revision)
    (admits : Revision → Bool)
    (unsettled : (r : Revision) → admits r ≡ true → is_settled r.state ≡ false) where
  approvals-Keeps : Keeps orm document_orm creation admits (λ log rs. All (IsApprovedIn log) rs)
  approvals-Keeps = record {
    run_keeps = λ env. run-IsApprovedIn orm env;
    activate_keeps = λ env. activate-IsApprovedIn orm env document_orm;
    write_keeps = write-IsApprovedIn orm;
    unlink_keeps = λ self s s' log. unlink-All (IsApprovedIn log) self s s';
    insert_keeps = λ env id display_name name s log h.
        insert-All (IsApprovedIn log) (new_revision env id display_name name s.document) s.revisions
          (inl refl) h;
    entry_keeps = λ new s s' log fits e h.
        subst (All (IsApprovedIn log)) (sym (entry-parts creation new s s' e).0)
          (insert-All (IsApprovedIn log) new s.revisions (inl (unsettled new fits)) h);
    event_keeps = λ env action s log rs h. All-map (λ r. later env (_ ∷ []) log r) rs h;
  }

  -- From a document without revisions, or with such as are drafts, in review or rejected, and
  -- whatever calls are then made in any order, as long as no revision is created in the states
  -- approved, active and superseded: a revision that is in one of them has an approval event in the
  -- log, of a call by a manager whom the event names.
  pub Reach-IsApprovedIn :
      (start s : Store) (log : Log)
      → Reach orm document_orm creation admits start s log
      → All (λ (r : Revision). is_settled r.state ≡ false) start.revisions
      → All (IsApprovedIn log) s.revisions
  Reach-IsApprovedIn start s log reached h =
      Reach-Kept orm document_orm creation admits (λ log rs. All (IsApprovedIn log) rs)
        approvals-Keeps start s log reached
        (All-map (λ r open_state. inl open_state) start.revisions h)
