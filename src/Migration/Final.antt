-- ===== src/Migration/Final.antt =====
-- A closed record refuses every call.
use perfect_match_qms.Prelude.{
  ℕ, ◌≡◌, refl, ap, ◌∙◌, true, false, not, ◌&&◌, ◌||◌, List, [], ◌∷◌, arith, inl, inr, any, Exists,
  Forall₂, or-eq-false, true-false,
}
use perfect_match_qms.Odoo.{Env, Error, Result, ok, err, raise_if, raise_if-eq-ok, >>-eq-ok, Orm}
use perfect_match_qms.Migration.Snapshots.{Codec}
use perfect_match_qms.Migration.Package.{Package}
use perfect_match_qms.Migration.Execution.{
  State, draft, preflight_passed, authorized, in_progress, recorded, submitted, returned, closed,
  Execution, Assignment, assign,
}
use perfect_match_qms.Migration.Actions.{
  check_manager_permission, Action, run_preflight, authorize, record_start, record_outcome,
  submit_closeout, send_back, close, run, is_in, check_action,
}
use perfect_match_qms.Migration.Edits.{write, unlink}
use perfect_match_qms.Migration.Effects.{Acted, run-Acted, Edited, write-Edited}
use perfect_match_qms.Migration.Passed.{
  is_in-eq, run_preflight_passed, authorize_passed, record_start_passed, record_outcome_passed,
  submit_closeout_passed, send_back_passed, close_passed,
}

not_closed : (s t : State) → is_in s t ≡ true → is_in t closed ≡ false → is_in s closed ≡ false
not_closed s t h e = ap (λ s. is_in s closed) (is_in-eq s t h) ∙ e

-- A closed record passes no test.
closed_stuck :
    (codec : Codec) (env : Env) (origin : Package) (action : Action) (r : Execution)
    → check_action codec env action origin r ≡ ok tt
    → is_in r.state closed ≡ false
closed_stuck codec env origin run_preflight r passed =
    elim (run_preflight_passed codec env origin r passed).0 [
      | inl is_draft ↦ not_closed r.state draft is_draft refl
      | inr is_returned ↦ not_closed r.state returned is_returned refl
    ]
closed_stuck codec env origin authorize r passed =
    not_closed r.state preflight_passed (authorize_passed codec env origin r passed).0 refl
closed_stuck codec env origin record_start r passed =
    not_closed r.state authorized (record_start_passed codec env origin r passed).0 refl
closed_stuck codec env origin record_outcome r passed =
    not_closed r.state in_progress (record_outcome_passed codec env origin r passed).0 refl
closed_stuck codec env origin submit_closeout r passed =
    not_closed r.state recorded (submit_closeout_passed codec env origin r passed).0 refl
closed_stuck codec env origin send_back r passed =
    not_closed r.state submitted (send_back_passed codec env origin r passed).0 refl
closed_stuck codec env origin close r passed =
    not_closed r.state submitted (close_passed codec env origin r passed).0 refl

-- What relates each record to its result cannot hold of a list with a record that it excludes.
excluded :
    {R : Execution → Execution → Type 0} {P : Execution → Type 0}
    → ((x y : Execution) → R x y → P x → ⊥)
    → (xs ys : List Execution) → Forall₂ R xs ys
    → Exists P xs
    → ⊥
excluded f [] ys h e = elim e [ ]
excluded f (x ∷ xs) [] h e = elim h [ ]
excluded f (x ∷ xs) (y ∷ ys) h (inl now) = f x y h.0 now
excluded f (x ∷ xs) (y ∷ ys) h (inr later) = excluded f xs ys h.1 later

-- A call that cannot return raises.
raises : {A : Type 0} (x : Result A) → ((v : A) → x ≡ ok v → ⊥) → (e : Error) × (x ≡ err e)
raises (ok v) f = elim (f v refl) [ ]
raises (err e) f = (e, refl)

-- Every action, every write and every deletion raises on records of which one is closed, whoever
-- calls it.
pub closed-refuses :
    (codec : Codec) (env : Env) (orm : Orm assign) (packages : ℕ → Package) (action : Action)
    (vals : List Assignment) (self : List Execution)
    → Exists (λ (r : Execution). is_in r.state closed ≡ true) self
    → ((e : Error) × (run codec env orm packages action self ≡ err e))
      × ((e : Error) × (write codec orm env vals self ≡ err e))
      × ((e : Error) × (unlink env (λ _. true) self ≡ err e))
unfolding unlink
closed-refuses codec env orm packages action vals self final = (
  raises (run codec env orm packages action self) (λ self' h.
      excluded
        (λ r r' (a : Acted codec env packages action r r') e.
          true-false (is_in r.state closed) e
            (closed_stuck codec env (packages r.package_id) action r a.passed))
        self self' (run-Acted codec env orm packages action self self' h).1 final),
  raises (write codec orm env vals self) (λ self' h.
      excluded
        (λ r r' (a : Edited codec env vals r r') e.
          true-false (is_in r.state closed) e a.not_closed)
        self self' (write-Edited codec orm env vals self self' h) final),
  raises (unlink env (λ _. true) self) (λ self' h.
      let (_, one) = >>-eq-ok (check_manager_permission env) _ h in
      let (two, _) =
        >>-eq-ok
          (raise_if
            (any (λ (r : Execution). true && not (is_in r.state draft || is_in r.state returned))
              self)
            _)
          _ one in
      deletable self (raise_if-eq-ok _ _ two) final),
)
  where
    deletable :
        (self : List Execution)
        → any (λ (r : Execution). true && not (is_in r.state draft || is_in r.state returned)) self
          ≡ false
        → Exists (λ (r : Execution). is_in r.state closed ≡ true) self
        → ⊥
    deletable [] h e = elim e [ ]
    deletable (r ∷ self) h (inl shut) =
        let (open_state, _) =
          or-eq-false (not (is_in r.state draft || is_in r.state returned)) _ h in
        ground (arith, open_state, shut)
    deletable (r ∷ self) h (inr later) = deletable self (or-eq-false _ _ h).1 later
