-- ===== src/Risk/Transitions.antt =====
-- What the workflow actions of a risk do on success.
use perfect_match_qms.Prelude.{
  ◌⊎◌, inl, inr, not-eq-false, ◌&&◌, ◌∙◌, Forall₂-map, ◌≡◌, ◌≢◌, refl, subst, ap, sym, All-Unit,
  Bool, true, false, some, List, [], ◌∷◌, arith, any, All, Forall₂,
}
use perfect_match_qms.Odoo.{
  assign_all-same, Env, ok, for_each, >>-eq-ok, raise_if-eq-ok, for_each-eq-ok, traverse_one, Orm,
  assign_all, is_set,
}
use perfect_match_qms.Event.{Event}
use perfect_match_qms.Workflow.{save_each, save_each-Forall₂}
use perfect_match_qms.Risk.Types.{State, is_closed, Risk, Assignment, set_state, assign, sets_state}
use perfect_match_qms.Risk.Workflow.{
  check_write, write, write_one, manager_group, check_manager_permission, Move, event_of,
  transition, Action, assess, require_action, start_monitoring, review, close, move, check_action,
  check_first, run,
}

-- What a move makes of a record, and the event that it logs.
pub record Moved (env : Env) (m : Move) (r : Risk) (out : Risk × Event State) : Type 0 where
  pub written : out.0 ≡ assign_all assign (set_state m.to ∷ m.extra_values) r
  pub logged : out.1 ≡ event_of env m r out.0

pub write_one-eq-ok :
    (orm : Orm assign) (flag : Bool) (vals : List Assignment) (r r' : Risk)
    → write_one orm flag vals r ≡ ok r'
    → (check_write flag vals ≡ ok tt) × (r' ≡ assign_all assign vals r)
unfolding write_one
write_one-eq-ok orm flag vals r r' h =
    let (checked, stored) = >>-eq-ok (check_write flag vals) (orm.super_write vals r) h in
    (checked, orm.write_exact vals r r' stored)

save_each-Moved :
    (orm : Orm assign) (env : Env) (m : Move) (self : List Risk) (outs : List (Risk × Event State))
    → save_each (write_one orm true (set_state m.to ∷ m.extra_values)) (event_of env m) self
      ≡ ok outs
    → Forall₂ (Moved env m) self outs
save_each-Moved orm env m self outs h =
    let vals = set_state m.to ∷ m.extra_values in
    Forall₂-map (λ r out q. record { written = q.0; logged = q.1 }) self outs
      (save_each-Forall₂ (write_one orm true vals) (event_of env m) (λ _. Unit {0})
        (λ r r'. r' ≡ assign_all assign vals r)
        (λ r r' _ saved. (write_one-eq-ok orm true vals r r' saved).1) self outs (All-Unit self) h)

manager_of_check :
    (env : Env) → check_manager_permission env ≡ ok tt → env.has_group manager_group ≡ true
unfolding check_manager_permission
manager_of_check env h = ground arith

run-eq-ok :
    (orm : Orm assign) (env : Env) (action : Action) (self : List Risk)
    (outs : List (Risk × Event State))
    → run orm env action self ≡ ok outs
    → (env.has_group manager_group ≡ true)
      × All (λ r. check_action action r ≡ ok tt) self
      × Forall₂ (Moved env (move env action)) self outs
unfolding run transition
run-eq-ok orm env action self outs h =
    let (_, tested) = >>-eq-ok (check_first env action) _ h in
    let (pass, moved) = >>-eq-ok (for_each (check_action action) self) _ tested in
    let (asked, saved) = >>-eq-ok (check_manager_permission env) _ moved in
    (
      manager_of_check env asked,
      for_each-eq-ok (check_action action) self pass,
      save_each-Moved orm env (move env action) self outs saved,
    )

-- One call at a risk: an action, or a `write` outside the workflow.
pub data Step (orm : Orm assign) (env : Env) (r r' : Risk) : Type 0 where
  acted :
      (action : Action) (event : Event State)
      → run orm env action (r ∷ []) ≡ ok ((r', event) ∷ [])
      → Step orm env r r'
  written :
      (vals : List Assignment) → write orm false vals (r ∷ []) ≡ ok (r' ∷ []) → Step orm env r r'

assign-state : (v : Assignment) (r : Risk) → sets_state v ≡ false → (assign v r).state ≡ r.state
assign-state v r h = ground arith

write-state :
    (orm : Orm assign) (vals : List Assignment) (r r' : Risk)
    → write orm false vals (r ∷ []) ≡ ok (r' ∷ [])
    → r'.state ≡ r.state
unfolding write
write-state orm vals r r' h =
    let (checked, stored) = >>-eq-ok (check_write false vals) _ h in
    let (s, one, same) = traverse_one (orm.super_write vals) r (r' ∷ []) stored in
    let e = orm.write_exact vals r s one in
    let untouched = raise_if-eq-ok (any sets_state vals && true) _ checked in
    let same_record : r' ≡ s = cc in
    ap (λ x. x.state) (same_record ∙ e)
    ∙ assign_all-same assign (λ x. x.state) sets_state assign-state vals r (ground arith)

-- A risk that is closed is explained, and holds who closed it and when.
abbrev pub IsExplained : Env → Risk → Type 0
IsExplained env r =
    (is_set r.closure_notes ≡ true)
    × (r.closure_date ≡ some env.today)
    × (r.closed_by_id ≡ some env.user)

closes :
    (env : Env) (action : Action) (r : Risk)
    → check_action action r ≡ ok tt
    → let r' =
        assign_all assign (set_state (move env action).to ∷ (move env action).extra_values) r in
      (is_closed r'.state ≡ false) ⊎ IsExplained env r'
unfolding move check_action
closes env close r test =
    inr (not-eq-false (is_set r.closure_notes) (raise_if-eq-ok _ _ test), refl, refl)
closes env assess r test = inl refl
closes env require_action r test = inl refl
closes env start_monitoring r test = inl refl
closes env review r test = inl refl

-- A call that changes the state of a risk was made by a manager, and leaves the risk open, or closed
-- with its closure notes set and with the day and the user of the closure.
pub Step-IsExplained :
    (orm : Orm assign) (env : Env) (r r' : Risk)
    → Step orm env r r'
    → r'.state ≢ r.state
    → (env.has_group manager_group ≡ true) × ((is_closed r'.state ≡ false) ⊎ IsExplained env r')
Step-IsExplained orm env r r' (written vals e) changed =
    elim (changed (write-state orm vals r r' e)) [ ]
Step-IsExplained orm env r r' (acted action event e) changed =
    let (manager, (test, _), (moved, _)) = run-eq-ok orm env action (r ∷ []) ((r', event) ∷ []) e in
    subst
      (λ x.
        (env.has_group manager_group ≡ true) × ((is_closed x.state ≡ false) ⊎ IsExplained env x))
      (sym moved.written) (manager, closes env action r test)
