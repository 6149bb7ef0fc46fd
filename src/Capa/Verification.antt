-- ===== src/Capa/Verification.antt =====
-- What the workflow of CAPA actions does on success.
use perfect_match_qms.Prelude.{
  ℕ, ◌≡◌, true, Option, List, ◌∷◌, All-Unit, Forall₂, arith, if◌then◌else◌,
}
use perfect_match_qms.Odoo.{Env, ok, >>-eq-ok, Orm, assign_all}
use perfect_match_qms.Event.{Event}
use perfect_match_qms.Workflow.{save_each-Forall₂}
use perfect_match_qms.Capa.Types.{ActionStatus, CapaAction}
use perfect_match_qms.Capa.Actions.{
  set_status, assign, check_write, write_one, manager_group, check_manager_permission, Move,
  event_of, transition, Action, start, complete, verify, cancel, move, run,
}

-- Verifying and cancelling ask for a manager.
abbrev pub MayRun : Env → Action → Type 0
MayRun env verify = env.has_group manager_group ≡ true
MayRun env cancel = env.has_group manager_group ≡ true
MayRun env _ = Unit {0}

-- The values that the move writes, and the event with the status before it.
abbrev pub Follows :
    (company_id organization_id : Option ℕ)
    → Env
    → Move
    → CapaAction
    → CapaAction × Event ActionStatus
    → Type 0
Follows company_id organization_id env m a out =
    (out.0 ≡ assign_all assign (set_status m.to ∷ m.extra_values) a)
    × (out.1 ≡ event_of company_id organization_id env m a out.0)

authority :
    (env : Env) (action : Action)
    → (if (move env action).require_manager then check_manager_permission env else ok tt) ≡ ok tt
    → MayRun env action
unfolding move check_manager_permission
authority env start h = tt
authority env complete h = tt
authority env verify h = ground arith
authority env cancel h = ground arith

-- A workflow call on CAPA actions that returns was made by a manager if it verifies or cancels; each
-- action is then as its move writes it, with one event that names the status before.
pub run-Follows :
    (company_id organization_id : Option ℕ) (orm : Orm assign) (env : Env) (action : Action)
    (self : List CapaAction) (outs : List (CapaAction × Event ActionStatus))
    → run company_id organization_id orm env action self ≡ ok outs
    → MayRun env action
      × Forall₂ (Follows company_id organization_id env (move env action)) self outs
unfolding run transition write_one
run-Follows company_id organization_id orm env action self outs h =
    let m = move env action in
    let vals = set_status m.to ∷ m.extra_values in
    let (asked, saved) =
      >>-eq-ok (if m.require_manager then check_manager_permission env else ok tt) _ h in
    (
      authority env action asked,
      save_each-Forall₂ (write_one orm true vals) (event_of company_id organization_id env m)
          (λ _. Unit {0}) (λ a a'. a' ≡ assign_all assign vals a)
          (λ a a' _ e. orm.write_exact vals a a' (>>-eq-ok (check_write true vals) _ e).1) self outs
          (All-Unit self) saved,
    )
