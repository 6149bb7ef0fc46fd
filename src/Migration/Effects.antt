-- ===== src/Migration/Effects.antt =====
-- What the calls on execution records make of each record.
use perfect_match_qms.Prelude.{
  if_true, if_false, not-eq-false, [], ◌∷◌, ◌==◌, ℕ, ◌≡◌, refl, sym, ap, ◌∙◌, Bool, true, false,
  not, ◌&&◌, List, All, All-map, All-zip, All-Unit, Forall₂, any-false, arith, Bool-cases, inl, inr,
  any, if◌then◌else◌,
}
use perfect_match_qms.Odoo.{
  Env, ok, raise_if, raise_if-eq-ok, >>-eq-ok, >>=-eq-ok, ok-injective, traverse, traverse-Forall₂,
  Orm,
}
use perfect_match_qms.Migration.Counts.{recounted, stored_write, stored_write-exact}
use perfect_match_qms.Migration.Pairs.{Forall₂-trans, past}
use perfect_match_qms.Migration.Snapshots.{Codec}
use perfect_match_qms.Migration.Package.{Package}
use perfect_match_qms.Migration.Execution.{
  in_progress, closed, Execution, Assignment, assign, is_workflow, is_control, is_report, is_ledger,
  is_evidence, is_count, is_lines, Line, set_reconciliation_lines, set_ledger_started,
}
use perfect_match_qms.Migration.Actions.{
  manager_group, check_manager_permission, is_in, Action, check_action, values, is_marked, after,
  run_one, mark_one, run,
}
use perfect_match_qms.Migration.Edits.{
  is_editable, is_foreign, reconcile, check_write, reset_values, is_reset, reset_one, write,
}

-- What an action does to a record of its recordset.
pub record Acted (codec : Codec) (env : Env) (packages : ℕ → Package) (action : Action)
    (r r' : Execution) : Type 0 where
  pub passed : check_action codec env action (packages r.package_id) r ≡ ok tt
  pub stored : r' ≡ after codec env action r

pub run-Acted :
    (codec : Codec) (env : Env) (orm : Orm assign) (packages : ℕ → Package) (action : Action)
    (self self' : List Execution)
    → run codec env orm packages action self ≡ ok self'
    → (env.has_group manager_group ≡ true) × Forall₂ (Acted codec env packages action) self self'
unfolding run run_one mark_one check_manager_permission
run-Acted codec env orm packages action self self' h =
    let (manager, all) = >>-eq-ok (check_manager_permission env) _ h in
    let (written, first, second) =
      >>=-eq-ok (traverse (run_one codec env orm packages action) self) _ all in
    (
      ground (arith, manager),
      Forall₂-trans
          {R = λ r w.
            (check_action codec env action (packages r.package_id) r ≡ ok tt)
            × (w ≡ recounted codec (values codec env action r) r)}
          {S = λ w r'.
            r' ≡ (if is_marked action then recounted codec (set_ledger_started true ∷ []) w else w)}
          {T = Acted codec env packages action}
          (λ r w r' (passed, e) k. record {
            passed = passed;
            stored =
                k
                ∙ ap
                    (λ x.
                      if is_marked action
                      then recounted codec (set_ledger_started true ∷ []) x
                      else x)
                    e;
          })
          self written self'
          (traverse-Forall₂ {P = λ _. Unit {0}} (run_one codec env orm packages action)
            (λ r w _ e.
              let (passed, stored) =
                >>-eq-ok (check_action codec env action (packages r.package_id) r) _ e in
              (passed, stored_write-exact orm codec (values codec env action r) r w stored))
            self written (All-Unit self) first)
          (traverse-Forall₂ {P = λ _. Unit {0}} (mark_one codec env orm packages action)
            (λ w r' _ e. marked w r' e) written self' (All-Unit written) second),
    )
  where
    marked :
        (w r' : Execution)
        → mark_one codec env orm packages action w ≡ ok r'
        → r' ≡ (if is_marked action then recounted codec (set_ledger_started true ∷ []) w else w)
    marked w r' e = elim (Bool-cases (is_marked action)) [
      | inl marks ↦
          stored_write-exact orm codec (set_ledger_started true ∷ []) w r'
            (sym (if_true (is_marked action) _ (ok w) marks) ∙ e)
          ∙ sym (if_true (is_marked action) _ w marks)
      | inr plain ↦
          sym (
            ok-injective (
              sym (
                if_false (is_marked action)
                  (stored_write orm codec (set_ledger_started true ∷ []) w) (ok w) plain)
              ∙ e))
          ∙ sym (
              if_false (is_marked action) (recounted codec (set_ledger_started true ∷ []) w) w
                plain)
    ]

-- What `write` makes of a record.
abbrev pub edited : Codec → List Assignment → Execution → Execution
edited codec vals r =
    let w = recounted codec vals r in if is_reset vals w then recounted codec reset_values w else w

pub record Edited (codec : Codec) (env : Env) (vals : List Assignment) (r r' : Execution)
    : Type 0 where
  pub not_closed : is_in r.state closed ≡ false
  pub no_workflow : any is_workflow vals ≡ false
  pub no_ledger : any is_ledger vals ≡ false
  pub no_counts : any is_count vals ≡ false
  pub evidence_own : (any is_evidence vals && is_foreign env r) ≡ false
  pub lines_own : (any is_lines vals && is_foreign env r) ≡ false
  pub controls_open : (any is_control vals && not (is_editable r.state)) ≡ false
  pub stored : r' ≡ edited codec vals r

pub and-any {ℓ} :
    {A : Type ℓ} (b : Bool) (f : A → Bool) (self : List A)
    → (b && any f self) ≡ false
    → All (λ r. (b && f r) ≡ false) self
and-any true f self h = any-false f self h
and-any false f self h = All-map (λ r _. refl) self (All-Unit self)

reset-eq :
    (codec : Codec) (orm : Orm assign) (env : Env) (vals : List Assignment) (w r' : Execution)
    → reset_one codec orm env vals w ≡ ok r'
    → r' ≡ (if is_reset vals w then recounted codec reset_values w else w)
reset-eq codec orm env vals w r' e = elim (Bool-cases (is_reset vals w)) [
  | inl due ↦
      stored_write-exact orm codec reset_values w r'
        (sym (if_true (is_reset vals w) _ (ok w) due) ∙ e)
      ∙ sym (if_true (is_reset vals w) _ w due)
  | inr kept ↦
      sym (
        ok-injective (
          sym (if_false (is_reset vals w) (stored_write orm codec reset_values w) (ok w) kept) ∙ e))
      ∙ sym (if_false (is_reset vals w) (recounted codec reset_values w) w kept)
]

-- What holds of each record once the tests of `write` have passed.
abbrev IsOpen : Env → List Assignment → Execution → Type 0
IsOpen env vals r =
    (is_in r.state closed ≡ false)
    × (((any is_evidence vals && is_foreign env r) ≡ false)
        × (((any is_lines vals && is_foreign env r) ≡ false)
            × ((any is_control vals && not (is_editable r.state)) ≡ false)))

check_write-IsOpen :
    (env : Env) (vals : List Assignment) (self : List Execution)
    → check_write env vals self ≡ ok tt
    → (any is_workflow vals ≡ false)
      × (any is_ledger vals ≡ false)
      × (any is_count vals ≡ false)
      × All (IsOpen env vals) self
unfolding check_write
check_write-IsOpen env vals self h =
    let (ledger, h1) = past (any is_ledger vals) _ _ h in
    let (evidence, h2) = past (any is_evidence vals && any (is_foreign env) self) _ _ h1 in
    let (counts, h3) = past (any is_count vals) _ _ h2 in
    let (lines, h4) = past (any is_lines vals && any (is_foreign env) self) _ _ h3 in
    let (open_all, h5) = past (any (λ (r : Execution). is_in r.state closed) self) _ _ h4 in
    let (plain, h6) = past (any is_workflow vals) _ _ h5 in
    let (_, h7) = >>-eq-ok (check_manager_permission env) _ h6 in
    let (_, last) =
      past (any is_report vals && any (λ (r : Execution). not (is_in r.state in_progress)) self) _ _
        h7 in
    (
      plain,
      ledger,
      counts,
      All-zip _ _ self (any-false _ self open_all) (
          All-zip _ _ self (and-any _ (is_foreign env) self evidence) (
            All-zip _ _ self (and-any _ (is_foreign env) self lines) (
              and-any _ (λ (r : Execution). not (is_editable r.state)) self
                (raise_if-eq-ok _ _ last)))),
    )

pub write-Edited :
    (codec : Codec) (orm : Orm assign) (env : Env) (vals : List Assignment)
    (self self' : List Execution)
    → write codec orm env vals self ≡ ok self'
    → Forall₂ (Edited codec env vals) self self'
unfolding write
write-Edited codec orm env vals self self' h =
    let (checked, rest) = >>-eq-ok (check_write env vals self) _ h in
    let (plain, ledger, counts, guards) = check_write-IsOpen env vals self checked in
    let (written, first, second) = >>=-eq-ok (traverse (stored_write orm codec vals) self) _ rest in
    Forall₂-trans
      {R = λ r w. Edited codec env vals r (edited codec vals r) × (w ≡ recounted codec vals r)}
      {S = λ w r'. r' ≡ (if is_reset vals w then recounted codec reset_values w else w)}
      {T = Edited codec env vals}
      (λ r w r' (h, e) k. record {
        not_closed = h.not_closed;
        no_workflow = h.no_workflow;
        no_ledger = h.no_ledger;
        no_counts = h.no_counts;
        evidence_own = h.evidence_own;
        lines_own = h.lines_own;
        controls_open = h.controls_open;
        stored = k ∙ ap (λ x. if is_reset vals x then recounted codec reset_values x else x) e;
      })
      self written self'
      (traverse-Forall₂ {P = IsOpen env vals} (stored_write orm codec vals)
        (λ r w (shut, (evidence, (lines, controls))) e. (
          record {
            not_closed = shut;
            no_workflow = plain;
            no_ledger = ledger;
            no_counts = counts;
            evidence_own = evidence;
            lines_own = lines;
            controls_open = controls;
            stored = refl;
          },
          stored_write-exact orm codec vals r w e,
        ))
        self written guards first)
      (traverse-Forall₂ {P = λ _. Unit {0}} (reset_one codec orm env vals)
        (λ w r' _ e. reset-eq codec orm env vals w r' e) written self' (All-Unit written) second)

-- What a change of the ledger makes of its execution.
pub record Reconciled (codec : Codec) (env : Env) (creates : Bool) (lines : List Line)
    (r r' : Execution) : Type 0 where
  pub running : is_in r.state in_progress ≡ true
  pub own : (r.operator_id == env.user) ≡ true
  pub stored :
      r'
      ≡ recounted codec
          (set_reconciliation_lines lines
            ∷ (if creates then (set_ledger_started true ∷ []) else []))
          r

pub reconcile-Reconciled :
    (codec : Codec) (env : Env) (creates : Bool) (lines : List Line) (r r' : Execution)
    → reconcile codec env creates lines r ≡ ok r'
    → Reconciled codec env creates lines r r'
unfolding reconcile
reconcile-Reconciled codec env creates lines r r' h =
    let (_, h1) = >>-eq-ok (check_manager_permission env) _ h in
    let (state, h2) = >>-eq-ok (raise_if (not (is_in r.state in_progress)) _) _ h1 in
    let (own, last) = >>-eq-ok (raise_if (not (r.operator_id == env.user)) _) _ h2 in
    record {
      running = not-eq-false _ (raise_if-eq-ok _ _ state);
      own = not-eq-false _ (raise_if-eq-ok _ _ own);
      stored = sym (ok-injective last);
    }
