-- ===== src/Migration/Eligible.antt =====
-- An approved readiness review answers for the tests that a package's preflight makes of it.
use perfect_match_qms.Prelude.{
  ◌==◌, ◌≡◌, refl, sym, ap, ◌∙◌, false, not, ◌&&◌, ◌||◌, String, str_eq, some, List, [], ◌∷◌,
  length, any, filtered, arith, or-eq-false, not-eq-false, if_true,
}
use perfect_match_qms.Odoo.{
  Env, user_error, Result, ok, ◌>>◌, raise_if, same, exists, is_set, assign_all,
}
use perfect_match_qms.Migration.Actions.{same_text}
use perfect_match_qms.Migration.Pairs.{past}
use perfect_match_qms.Migration.Package.Actions.{
  is_unverified, maps_to, is_planless, no_digest, check_preflight,
}
use perfect_match_qms.Migration.Snapshots.{Scalar}
use perfect_match_qms.Migration.Package.{draft, returned, TransitionAction, Package, is_at}
use perfect_match_qms.Migration.Readiness.{
  internal_review, submitted, review_in, action_snapshot, GapAssessment, Readiness, as_review,
  is_completed, decision_text, total_count, completed_count, open_action_count, any_action,
  is_unresolved,
}
use perfect_match_qms.Migration.Readiness.Actions.{
  check_approve, approve_review, review_action_values, review_assign, check_review,
}

-- No action is open, so all are completed.
all_completed :
    (actions : List TransitionAction)
    → length (filtered (λ action. not (is_completed action)) actions) ≡ 0
    → any (λ action. not (is_completed action)) actions ≡ false
all_completed [] h = refl
all_completed (a ∷ actions) h = ground (arith, all_completed actions)

-- The completed actions are verified, and all are completed.
all_verified :
    (actions : List TransitionAction)
    → any is_unverified (filtered is_completed actions) ≡ false
    → any (λ action. not (is_completed action)) actions ≡ false
    → any is_unverified actions ≡ false
all_verified [] h k = refl
all_verified (a ∷ actions) h k =
    let (now, later) = or-eq-false (not (is_completed a)) _ k in
    let completed = not-eq-false (is_completed a) now in
    let (first, rest) =
      or-eq-false (is_unverified a) _
        (sym (ap (any is_unverified) (if_true (is_completed a) _ _ completed)) ∙ h) in
    ground (arith, first, all_verified actions rest later)

-- What the preflight asks of the package itself.
unfoldable pub check_own : Package → Result (Unit {0})
check_own p = do
  raise_if (not (is_at p.state draft || is_at p.state returned))
      (user_error "Preflight is allowed only for draft or returned packages.")
  raise_if (str_eq p.source_edition_snapshot p.target_edition_snapshot)
      (user_error "Same-edition readiness cannot run an ISO edition migration preflight.")
  raise_if (is_planless p)
      (user_error "Replace every generated planning placeholder before preflight")
  raise_if (not (is_set p.execution_window))
      (user_error "Document the planned execution window before preflight.")
  raise_if (not p.backup_verified)
      (user_error "Verify the controlled backup before passing preflight.")
  raise_if (str_eq p.backup_sha256 no_digest)
      (user_error "Replace the placeholder backup SHA-256 before preflight.")

module _ (dumps : List (List (String × Scalar)) → String) (env : Env) (a : GapAssessment)
    (r : Readiness) where
  approve_passed :
      check_review dumps env approve_review a r ≡ ok tt
      → r.decision ≡ internal_review
      → (any (λ action. not (is_completed action)) a.actions ≡ false)
        × ((not (any_action a)
              && (any is_unresolved a.line_statuses
                  || not (same a.implementation_project_id (some r.implementation_project_id))))
            ≡ false)
        × (any is_unverified a.actions ≡ false)
        × ((any_action a && not (maps_to a.actions (some r.implementation_project_id))) ≡ false)
  unfolding check_review check_approve open_action_count
  approve_passed h internal =
      let (_, h1) = past (not (review_in r.state submitted)) _ _ h in
      let (_, h2) = past (not (r.reviewer_id == env.user)) _ _ h1 in
      let (_, h3) = past (same r.submitted_by_id (some env.user)) _ _ h2 in
      let (_, h4) =
        past
          (not (total_count a == r.total_action_count_snapshot)
            || not (completed_count a == r.completed_action_count_snapshot)
            || not (open_action_count a == r.open_action_count_snapshot)
            || not (same_text (some (action_snapshot dumps a)) r.action_state_snapshot))
          _ _ h3 in
      let (_, h5) =
        past
          (exists a.implementation_project_id
            && not (same a.implementation_project_id (some r.implementation_project_id)))
          _ _ h4 in
      let (mapped, h6) =
        past (any_action a && not (maps_to a.actions (some r.implementation_project_id))) _ _ h5 in
      let (linked, h7) =
        past
          (not (any_action a)
            && (not (same a.implementation_project_id (some r.implementation_project_id))
                || any is_unresolved a.line_statuses))
          _ _ h6 in
      let (verified, h8) = past (any is_unverified (filtered is_completed a.actions)) _ _ h7 in
      let (done, _) =
        past (str_eq (decision_text r.decision) "internal_review" && not (open_action_count a == 0))
          _ _ h8 in
      let decided = ap (λ d. str_eq (decision_text d) "internal_review") internal in
      let none_open = all_completed a.actions (ground (arith, done, decided)) in
      (none_open, ground (arith, linked), all_verified a.actions verified none_open, mapped)

  -- Once a review is approved with the decision for an internal review, and while its assessment stays
  -- as it is, the preflight of a package never refuses for the review, its transition actions or its
  -- assessment: it comes to the tests of the package itself.
  pub approve-preflight :
      check_review dumps env approve_review a r ≡ ok tt
      → r.decision ≡ internal_review
      → (p : Package)
      → check_preflight
          (as_review
            (assign_all review_assign (review_action_values dumps env approve_review a r) r)
            a)
          p
        ≡ check_own p
  unfolding check_preflight check_own review_action_values
  approve-preflight h internal p =
      let (completed, linked, verified, mapped) = approve_passed h internal in
      let decided =
        ap (λ d. same_text (some (decision_text d)) (some "internal_review")) internal in
      ground (arith, completed, linked, verified, mapped, decided)
