-- ===== src/Migration/Tests.antt =====
-- A migration from its readiness review to the closed execution, and the theorems at it.
use perfect_match_qms.Prelude.{
  ℕ, ◌==◌, ◌+◌, ◌*◌, ◌≤◌, ◌≡◌, ◌⊎◌, refl, true, false, none, some, List, [], ◌∷◌, any, inl, inr,
  suc, if◌then◌else◌,
}
use perfect_match_qms.Odoo.{Error, ok, err, assign_all, permissive, permissive_creation}
use perfect_match_qms.Migration.Package.{
  Package, Review, render_manifest, manifest_values, submission,
}
use perfect_match_qms.Migration.Package
use perfect_match_qms.Migration.Package.Writes.{package_assign}
use perfect_match_qms.Migration.Package.Actions.{
  check_package_manager, check_preflight, check_package, package_values, run_package_one,
  run_package, submit, approve, plan_texts,
}
use perfect_match_qms.Migration.Package.Actions
use perfect_match_qms.Migration.Package.Edits.{
  check_package_write, write_package, prepare_from_review,
}
use perfect_match_qms.Migration.Package.Control.{IsPackaged}
use perfect_match_qms.Migration.Package.Reach.{PackageReach, PackageSteps}
use perfect_match_qms.Migration.Package.Sealed.{IsRendered, run_package-IsRendered}
use perfect_match_qms.Migration.Package.Reach
use perfect_match_qms.Migration.Counts.{counts_from, compute_counts}
use perfect_match_qms.Migration.Execution.{
  Execution, report_values, render_control_snapshot, render_report_snapshot, Assignment,
  set_return_reason, assign, is_control, closed, in_progress, draft,
}
use perfect_match_qms.Migration.Actions.{
  check_manager_permission, assert_package_integrity, check_action, values, run_one, mark_one, run,
  is_in, Action, run_preflight, authorize, record_start, record_outcome, submit_closeout, close,
}
use perfect_match_qms.Migration.Edits.{
  is_editable, check_write, write, unlink, prepare_from_package,
}
use perfect_match_qms.Migration.Views.{control_view, report_view}
use perfect_match_qms.Migration.Control.{IsControlled}
use perfect_match_qms.Migration.Reach.{
  Step, acted, written, Steps, here, then_step, prepared, Reach-IsControlled,
}
use perfect_match_qms.Migration.Locks.{write-locks}
use perfect_match_qms.Migration.Permanent.{approval, Steps-approval}
use perfect_match_qms.Migration.Final.{closed-refuses}
use perfect_match_qms.Migration.Progress.{is_return, Trail, begin, onward, back, wrote, Trail-bound}
use perfect_match_qms.Migration.Handover.{handover}
use perfect_match_qms.Migration.Samples.{
  evidence, report, notes, codec, as_manager, review, package_new, planning, package_planned,
  package_ready, package_submitted, package_approved, new, after, filled, checked, allowed, started,
  reported, ended, questioned, sent_back, submitted_again, noted, done,
}

program : Unit {0}
unfolding render_manifest manifest_values check_package_manager check_preflight check_package
    package_values run_package_one run_package check_package_write write_package prepare_from_review
    counts_from compute_counts report_values render_control_snapshot render_report_snapshot
    check_manager_permission assert_package_integrity check_action values run_one mark_one run
    check_write write unlink prepare_from_package
program = tt

-- The keys of a dictionary, one after the other.
package_prepared :
    prepare_from_review permissive_creation (as_manager 1) (some "ISO-MIG-00001") 7 review []
    ≡ ok (package_new, package_new ∷ [])
unfolding program
package_prepared = refl

submitted-PackageSteps : PackageSteps codec package_new package_submitted
unfolding program
submitted-PackageSteps =
    (Package.Reach.then_step package_new package_ready package_submitted
      (Package.Reach.then_step package_new package_planned package_ready
        (Package.Reach.then_step package_new package_new package_planned
          (Package.Reach.here package_new)
          (Package.Reach.written (permissive package_assign) (as_manager 2) planning
            (package_new ∷ []) (package_planned ∷ []) refl (inl (refl, refl))))
        (Package.Reach.acted (as_manager 2) (permissive package_assign) (λ _. review)
          Package.Actions.run_preflight (package_planned ∷ []) (package_ready ∷ []) refl
          (inl (refl, refl))))
      (Package.Reach.acted (as_manager 2) (permissive package_assign) (λ _. review) submit
        (package_ready ∷ []) (package_submitted ∷ []) refl (inl (refl, refl))))

approved-PackageSteps : PackageSteps codec package_new package_approved
unfolding program
approved-PackageSteps =
    Package.Reach.then_step package_new package_submitted package_approved submitted-PackageSteps (
      Package.Reach.acted (as_manager 1) (permissive package_assign) (λ _. review) approve
        (package_submitted ∷ []) (package_approved ∷ []) refl (inl (refl, refl)))

approved-PackageReach : PackageReach codec package_approved
approved-PackageReach =
    Package.Reach.prepared permissive_creation (as_manager 1) (some "ISO-MIG-00001") 7 review
      package_new package_approved [] (package_new ∷ []) refl package_prepared approved-PackageSteps

submitted-PackageReach : PackageReach codec package_submitted
unfolding program
submitted-PackageReach =
    Package.Reach.prepared permissive_creation (as_manager 1) (some "ISO-MIG-00001") 7 review
      package_new package_submitted [] (package_new ∷ []) refl package_prepared
      submitted-PackageSteps

run_package-IsRendered_example :
    IsRendered codec review package_approved × IsPackaged codec package_approved
unfolding program
run_package-IsRendered_example =
    run_package-IsRendered codec (as_manager 1) (permissive package_assign) (λ _. review) approve
      package_submitted package_approved (package_submitted ∷ []) (package_approved ∷ [])
      submitted-PackageReach refl refl (inl (refl, refl))

new_prepared :
    prepare_from_package permissive_creation (as_manager 1) package_approved 3 []
    ≡ ok (new, new ∷ [])
unfolding program
new_prepared = refl

handover_example :
    (package_approved.by submission ≡ some new.operator_id)
    × (new.reviewer_id ≡ package_approved.reviewer_id)
    × ((new.operator_id == new.reviewer_id) ≡ false)
    × (assert_package_integrity codec package_approved new ≡ ok tt)
unfolding program
handover_example =
    handover codec permissive_creation (as_manager 1) package_approved 3 new [] (new ∷ [])
      approved-PackageReach refl new_prepared package_approved (Package.Reach.here package_approved)

done_closed : done.state ≡ closed
unfolding program
done_closed = refl

step :
    (action : Action) (user : ℕ) (r : Execution)
    → run codec (as_manager user) (permissive assign) (λ _. package_approved) action (r ∷ [])
      ≡ ok (after action user r ∷ [])
    → Step codec r (after action user r)
step action user r h =
    acted (as_manager user) (permissive assign) (λ _. package_approved) action (r ∷ [])
      (after action user r ∷ []) h (inl (refl, refl))

edit :
    (vals : List Assignment) (r : Execution)
    → write codec (permissive assign) (as_manager 2) vals (r ∷ [])
      ≡ ok (assign_all assign vals r ∷ [])
    → Step codec r (assign_all assign vals r)
edit vals r h =
    written (permissive assign) (as_manager 2) vals (r ∷ []) (assign_all assign vals r ∷ []) h
      (inl (refl, refl))

allowed-Steps : Steps codec new allowed
unfolding program
allowed-Steps =
    then_step new checked allowed
      (then_step new filled checked (then_step new new filled (here new) (edit evidence new refl))
        (step run_preflight 2 filled refl))
      (step authorize 1 checked refl)

Reach-IsControlled_example : IsControlled codec allowed
Reach-IsControlled_example = Reach-IsControlled codec allowed (
    prepared permissive_creation (as_manager 1) package_approved 3 new allowed [] (new ∷ []) refl
      new_prepared allowed-Steps)

Steps-approval_example :
    (approval reported ≡ approval allowed) × (is_editable reported.state ≡ false)
unfolding program
Steps-approval_example =
    Steps-approval codec allowed reported
      (then_step allowed started reported
        (then_step allowed allowed started (here allowed) (step record_start 2 allowed refl))
        (edit report started refl))
      refl

write-locks_example :
    (is_in checked.state closed ≡ false)
    × ((control_view (assign_all assign evidence new) ≡ control_view new)
        ⊎ ((is_editable new.state ≡ true)
            × ((assign_all assign evidence new).state ≡ draft)
            × ((is_in new.state draft ≡ true)
                ⊎ ((assign_all assign evidence new).control_snapshot ≡ none))))
    × ((report_view (assign_all assign evidence new) ≡ report_view new)
        ⊎ ((is_in new.state in_progress ≡ true) × (new.operator_id ≡ 2)))
unfolding program
write-locks_example =
    write-locks codec (permissive assign) (as_manager 2) evidence (new ∷ []) (filled ∷ []) new
      filled refl (inl (refl, refl))

closed-refuses_example :
    ((e : Error) × (run codec
          (as_manager 2)
          (permissive assign)
          (λ _. package_approved)
          run_preflight
          (new ∷ done ∷ [])
        ≡ err e))
    × ((e : Error) × (write codec (permissive assign) (as_manager 2) notes (new ∷ done ∷ [])
          ≡ err e))
    × ((e : Error) × (unlink (as_manager 2) (λ _. true) (new ∷ done ∷ []) ≡ err e))
unfolding program
closed-refuses_example =
    closed-refuses codec (as_manager 2) (permissive assign) (λ _. package_approved) run_preflight
      notes (new ∷ done ∷ []) (inr (inl refl))

act_more :
    (f k e : ℕ) (action : Action) (user : ℕ) (r : Execution)
    → Trail codec new f k e r
    → is_return action ≡ false
    → run codec (as_manager user) (permissive assign) (λ _. package_approved) action (r ∷ [])
      ≡ ok (after action user r ∷ [])
    → Trail codec new (suc f) k e (after action user r)
act_more f k e action user r trail forward h =
    onward f k e r (after action user r) (as_manager user) (permissive assign)
      (λ _. package_approved) action (r ∷ []) (after action user r ∷ []) trail forward h
      (inl (refl, refl))

edit_more :
    (f k e : ℕ) (vals : List Assignment) (r : Execution)
    → Trail codec new f k e r
    → write codec (permissive assign) (as_manager 2) vals (r ∷ [])
      ≡ ok (assign_all assign vals r ∷ [])
    → Trail codec new f k (if any is_control vals then suc e else e) (assign_all assign vals r)
edit_more f k e vals r trail h =
    wrote f k e r (assign_all assign vals r) (permissive assign) (as_manager 2) vals (r ∷ [])
      (assign_all assign vals r ∷ []) trail h (inl (refl, refl))

recorded_once : Trail codec new 4 0 1 (after record_outcome 2 reported)
unfolding program
recorded_once =
    act_more 3 0 1 record_outcome 2 reported
      (edit_more 3 0 1 report started
        (act_more 2 0 1 record_start 2 allowed
          (act_more 1 0 1 authorize 1 checked
            (act_more 0 0 1 run_preflight 2 filled (edit_more 0 0 0 evidence new begin refl) refl
              refl)
            refl refl)
          refl refl)
        refl)
      refl refl

returned_once : Trail codec new 5 1 1 sent_back
unfolding program
returned_once =
    back 5 0 1 questioned sent_back (as_manager 1) (permissive assign) (λ _. package_approved)
      (questioned ∷ []) (sent_back ∷ [])
      (edit_more 5 0 1 (set_return_reason (some "More detail.") ∷ []) ended
        (act_more 4 0 1 submit_closeout 2 (after record_outcome 2 reported) recorded_once refl refl)
        refl)
      refl (inl (refl, refl))

-- A whole life: an edit of the controls, eight actions and one return.
life : Trail codec new 8 1 1 done
unfolding program
life =
    act_more 7 1 1 close 1 noted
      (edit_more 7 1 1 notes submitted_again
        (act_more 6 1 1 submit_closeout 2 (after record_outcome 2 sent_back)
          (act_more 5 1 1 record_outcome 2 sent_back returned_once refl refl) refl refl)
        refl)
      refl refl

Trail-bound_example : 8 ≤ 6 + 2 * 1 + 1
Trail-bound_example = Trail-bound codec new done 8 1 1 life
