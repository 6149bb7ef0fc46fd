-- ===== src/Ncr/Transitions.antt =====
-- What the workflow actions of a nonconformity do on success.
use perfect_match_qms.Prelude.{
  not-eq-false, ◌&&◌, not, ◌∙◌, Forall₂-map, ◌≡◌, ◌≢◌, refl, subst, ap, sym, All-Unit,
  if◌then◌else◌, Bool, true, false, some, List, [], ◌∷◌, arith, any, All, Forall₂,
}
use perfect_match_qms.Odoo.{
  assign_all-same, Env, ok, for_each, >>-eq-ok, raise_if-eq-ok, raise_if, for_each-eq-ok,
  traverse_one, Orm, assign_all, is_set,
}
use perfect_match_qms.Event.{Event}
use perfect_match_qms.Workflow.{save_each, save_each-Forall₂}
use perfect_match_qms.Ncr.Types.{
  State, closed, Nonconformity, Assignment, set_state, assign, sets_state,
}
use perfect_match_qms.Ncr.Workflow.{
  check_write, write, write_one, manager_group, check_manager_permission, Move, event_of,
  transition, Action, open_ncr, start_containment, start_investigation, require_action,
  start_verification, close, cancel, move, check_action, check_first, run,
}

-- What a move makes of a record, and the event that it logs.
pub record Moved (env : Env) (m : Move) (r : Nonconformity) (out : Nonconformity × Event State)
    : Type 0 where
  pub written : out.0 ≡ assign_all assign (set_state m.to ∷ m.extra_values) r
  pub logged : out.1 ≡ event_of env m r out.0

pub write_one-eq-ok :
    (orm : Orm assign) (flag : Bool) (vals : List Assignment) (r r' : Nonconformity)
    → write_one orm flag vals r ≡ ok r'
    → (check_write flag vals ≡ ok tt) × (r' ≡ assign_all assign vals r)
unfolding write_one
write_one-eq-ok orm flag vals r r' h =
    let (checked, stored) = >>-eq-ok (check_write flag vals) (orm.super_write vals r) h in
    (checked, orm.write_exact vals r r' stored)

save_each-Moved :
    (orm : Orm assign) (env : Env) (m : Move) (self : List Nonconformity)
    (outs : List (Nonconformity × Event State))
    → save_each (write_one orm true (set_state m.to ∷ m.extra_values)) (event_of env m) self
      ≡ ok outs
    → Forall₂ (Moved env m) self outs
save_each-Moved orm env m self outs h =
    let vals = set_state m.to ∷ m.extra_values in
    Forall₂-map (λ r out q. record { written = q.0; logged = q.1 }) self outs
      (save_each-Forall₂ (write_one orm true vals) (event_of env m) (λ _. Unit {0})
        (λ r r'. r' ≡ assign_all assign vals r)
        (λ r r' _ saved. (write_one-eq-ok orm true vals r r' saved).1) self outs (All-Unit self) h)

-- Opening is the one action that asks for no manager.
abbrev pub HasAuthority : Env → Action → Type 0
HasAuthority env open_ncr = Unit {0}
HasAuthority env _ = env.has_group manager_group ≡ true

manager_of_check :
    (env : Env) → check_manager_permission env ≡ ok tt → env.has_group manager_group ≡ true
unfolding check_manager_permission
manager_of_check env h = ground arith

authority_of_check :
    (env : Env) (action : Action)
    → (if (move env action).require_manager then check_manager_permission env else ok tt) ≡ ok tt
    → HasAuthority env action
unfolding move
authority_of_check env open_ncr h = tt
authority_of_check env start_containment h = manager_of_check env h
authority_of_check env start_investigation h = manager_of_check env h
authority_of_check env require_action h = manager_of_check env h
authority_of_check env start_verification h = manager_of_check env h
authority_of_check env close h = manager_of_check env h
authority_of_check env cancel h = manager_of_check env h

-- An action that returns was called by a manager, unless it opens the nonconformity; its test held
-- at every record, and each record is as its move writes it, with the event of that change.
pub run-Moved :
    (orm : Orm assign) (env : Env) (action : Action) (self : List Nonconformity)
    (outs : List (Nonconformity × Event State))
    → run orm env action self ≡ ok outs
    → HasAuthority env action
      × All (λ r. check_action action r ≡ ok tt) self
      × Forall₂ (Moved env (move env action)) self outs
unfolding run transition
run-Moved orm env action self outs h =
    let m = move env action in
    let (_, tested) = >>-eq-ok (check_first env action) _ h in
    let (pass, moved) = >>-eq-ok (for_each (check_action action) self) _ tested in
    let (asked, saved) =
      >>-eq-ok (if m.require_manager then check_manager_permission env else ok tt) _ moved in
    (
      authority_of_check env action asked,
      for_each-eq-ok (check_action action) self pass,
      save_each-Moved orm env m self outs saved,
    )

-- One call at a nonconformity: an action, or a `write` outside the workflow.
pub data Step (orm : Orm assign) (env : Env) (r r' : Nonconformity) : Type 0 where
  acted :
      (action : Action) (event : Event State)
      → run orm env action (r ∷ []) ≡ ok ((r', event) ∷ [])
      → Step orm env r r'
  written :
      (vals : List Assignment) → write orm false vals (r ∷ []) ≡ ok (r' ∷ []) → Step orm env r r'

assign-state :
    (v : Assignment) (r : Nonconformity) → sets_state v ≡ false → (assign v r).state ≡ r.state
assign-state v r h = ground arith

write-state :
    (orm : Orm assign) (vals : List Assignment) (r r' : Nonconformity)
    → write orm false vals (r ∷ []) ≡ ok (r' ∷ [])
    → r'.state ≡ r.state
unfolding write
write-state orm vals r r' h =
    let (checked, stored) = >>-eq-ok (check_write false vals) _ h in
    let (s, one, same) = traverse_one (orm.super_write vals) r (r' ∷ []) stored in
    let e = orm.write_exact vals r s one in
    let untouched = raise_if-eq-ok (any sets_state vals && true) _ checked in
    let same_record : r' ≡ s = cc in
    ap (λ x. x.state) (same_record ∙ e)
    ∙ assign_all-same assign (λ x. x.state) sets_state assign-state vals r (ground arith)

-- Closed in order: closure notes are set, containment is complete where it is required, and the
-- user and the time of the closure are on the record.
pub record ClosedWell (env : Env) (r : Nonconformity) : Type 0 where
  pub explained : is_set r.closure_notes ≡ true
  pub contained : (r.containment_required && not r.containment_completed) ≡ false
  pub attributed : (r.closed_by_id ≡ some env.user) × (r.closed_on ≡ some env.now)
  pub authorised : env.has_group manager_group ≡ true

closes :
    (env : Env) (action : Action) (r : Nonconformity)
    → HasAuthority env action
    → check_action action r ≡ ok tt
    → (assign_all assign (set_state (move env action).to ∷ (move env action).extra_values) r).state
      ≡ closed
    → ClosedWell env
        (assign_all assign (set_state (move env action).to ∷ (move env action).extra_values) r)
unfolding move check_action
closes env close r manager test now =
    let (explained, rest) = >>-eq-ok (raise_if (not (is_set r.closure_notes)) _) _ test in
    record {
      explained = not-eq-false (is_set r.closure_notes) (raise_if-eq-ok _ _ explained);
      contained = raise_if-eq-ok _ _ rest;
      attributed = (refl, refl);
      authorised = manager;
    }
closes env open_ncr r manager test now = cc
closes env start_containment r manager test now = cc
closes env start_investigation r manager test now = cc
closes env require_action r manager test now = cc
closes env start_verification r manager test now = cc
closes env cancel r manager test now = cc

-- A call that closes a nonconformity which was not closed was made by a manager. The record then has
-- closure notes, its containment is complete where it is required, and it holds the user and the
-- time of the closure.
pub Step-ClosedWell :
    (orm : Orm assign) (env : Env) (r r' : Nonconformity)
    → r.state ≢ closed
    → Step orm env r r'
    → r'.state ≡ closed
    → ClosedWell env r'
Step-ClosedWell orm env r r' before (written vals e) after =
    elim (before (sym (write-state orm vals r r' e) ∙ after)) [ ]
Step-ClosedWell orm env r r' before (acted action event e) after =
    let (manager, (test, _), (moved, _)) = run-Moved orm env action (r ∷ []) ((r', event) ∷ []) e in
    subst (ClosedWell env) (sym moved.written)
      (closes env action r manager test (ap (λ x. x.state) (sym moved.written) ∙ after))
