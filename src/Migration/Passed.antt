-- ===== src/Migration/Passed.antt =====
-- What the tests of each action say of a record that passes them.
use perfect_match_qms.Prelude.{
  ◌≡◌, ◌⊎◌, ◌==◌, arith, true, false, some, if◌then◌else◌, refl, sym, ap, ◌∙◌, ℕ,
}
use perfect_match_qms.Odoo.{Env, ok, exists, is_set}
use perfect_match_qms.Migration.Snapshots.{Codec}
use perfect_match_qms.Migration.Package.{Package, is_approved}
use perfect_match_qms.Migration.Execution.{
  State, draft, preflight_passed, authorized, in_progress, recorded, submitted, returned, closed,
  Execution,
}
use perfect_match_qms.Migration.Actions.{
  is_in, state_key, is_incomplete, run_preflight, authorize, record_start, record_outcome,
  submit_closeout, send_back, close, check_action, same_text, assert_package_integrity,
}

state_of : ℕ → State
state_of n =
    if n == 0
    then draft
    else if n == 1
    then preflight_passed
    else if n == 2
    then authorized
    else if n == 3
    then in_progress
    else if n == 4
    then recorded
    else if n == 5
    then submitted
    else if n == 6
    then returned
    else closed

state_of-state_key : (s : State) → state_of (state_key s) ≡ s
unfolding state_of
state_of-state_key draft = refl
state_of-state_key preflight_passed = refl
state_of-state_key authorized = refl
state_of-state_key in_progress = refl
state_of-state_key recorded = refl
state_of-state_key submitted = refl
state_of-state_key returned = refl
state_of-state_key closed = refl

pub is_in-eq : (s t : State) → is_in s t ≡ true → s ≡ t
is_in-eq s t h = sym (state_of-state_key s) ∙ ap state_of (ground (arith, h)) ∙ state_of-state_key t

module _ (codec : Codec) (env : Env) (origin : Package) (r : Execution) where
  pub run_preflight_passed :
      check_action codec env run_preflight origin r ≡ ok tt
      → ((is_in r.state draft ≡ true) ⊎ (is_in r.state returned ≡ true)) × (is_incomplete r ≡ false)
  unfolding check_action
  run_preflight_passed h = ground arith

  pub authorize_passed :
      check_action codec env authorize origin r ≡ ok tt
      → (is_in r.state preflight_passed ≡ true)
        × (r.reviewer_id ≡ env.user)
        × ((r.operator_id == env.user) ≡ false)
  unfolding check_action
  authorize_passed h = ground arith

  pub record_start_passed :
      check_action codec env record_start origin r ≡ ok tt
      → (is_in r.state authorized ≡ true) × (r.operator_id ≡ env.user)
  unfolding check_action
  record_start_passed h = ground arith

  pub record_outcome_passed :
      check_action codec env record_outcome origin r ≡ ok tt
      → (is_in r.state in_progress ≡ true) × (r.operator_id ≡ env.user) × (exists r.outcome ≡ true)
  unfolding check_action
  record_outcome_passed h = ground arith

  pub submit_closeout_passed :
      check_action codec env submit_closeout origin r ≡ ok tt
      → (is_in r.state recorded ≡ true) × (r.operator_id ≡ env.user)
  unfolding check_action
  submit_closeout_passed h = ground arith

  pub send_back_passed :
      check_action codec env send_back origin r ≡ ok tt
      → (is_in r.state submitted ≡ true)
        × (r.reviewer_id ≡ env.user)
        × (is_set r.return_reason ≡ true)
  unfolding check_action
  send_back_passed h = ground arith

  pub close_passed :
      check_action codec env close origin r ≡ ok tt
      → (is_in r.state submitted ≡ true)
        × (r.reviewer_id ≡ env.user)
        × ((r.operator_id == env.user) ≡ false)
        × (is_set r.closeout_notes ≡ true)
        × (is_approved origin.state ≡ true)
        × (same_text origin.manifest_sha256 (some r.package_manifest_sha256) ≡ true)
  unfolding check_action assert_package_integrity
  close_passed h = ground arith
