-- ===== src/Capa/Transitions.antt =====
-- What the workflow actions of a CAPA do on success, and when they succeed.
use perfect_match_qms.Prelude.{
  All-Unit, ◌≡◌, refl, subst, true, false, some, List, [], ◌∷◌, arith, any, All, Exists, ◌⊎◌, inl,
  inr, Forall₂,
}
use perfect_match_qms.Odoo.{
  Env, ok, for_each, >>-eq-ok, >>=-eq-ok, ok-injective, for_each-eq-ok, for_each-ok, Error, Result,
  err, ◌>>=◌, traverse, traverse-Forall₂, Orm, assign_all,
}
use perfect_match_qms.Event.{Event}
use perfect_match_qms.Capa.Types.{State, Capa, Assignment, set_state, assign}
use perfect_match_qms.Capa.Write.{sets_method, sets_rca, changes_provenance, check_write, write_one}
use perfect_match_qms.Capa.Workflow.{
  Move, Action, plan_actions, close, manager_group, check_manager_permission, approver, check_first,
  event_of, transition_one, transition, move, check_action, run,
}

-- What a move makes of a record, and the event that it logs: only the state and the extra values
-- are written, and the event names the states before and after and the acting user.
pub record Moved (env : Env) (m : Move) (c : Capa) (out : Capa × Event State) : Type 0 where
  pub written : out.0 ≡ assign_all assign (set_state m.to ∷ m.extra_values) c
  pub from : out.1.previous_state ≡ some c.state
  pub to : out.1.new_state ≡ some m.to
  pub record_id : out.1.res_id ≡ out.0.id
  pub actor : (out.1.user_id ≡ env.user) × (out.1.reviewer_id ≡ some env.user)
  pub approved : out.1.approver_id ≡ approver env m.event_type
  pub described :
      (out.1.event_type ≡ m.event_type)
      × (out.1.decision ≡ some m.decision)
      × (out.1.notes ≡ m.notes)

pub transition_one-Moved :
    (orm : Orm assign) (env : Env) (m : Move) (c : Capa) (out : Capa × Event State)
    → transition_one orm env m c ≡ ok out
    → Moved env m c out
unfolding transition_one write_one
transition_one-Moved orm env m c out h =
    let vals = set_state m.to ∷ m.extra_values in
    let (c', saved, done) = >>=-eq-ok (write_one orm true vals c) _ h in
    let (_, stored) = >>-eq-ok (check_write true vals (c ∷ [])) _ saved in
    subst (Moved env m c) (ok-injective done) (record {
      written = orm.write_exact vals c c' stored;
      from = refl;
      to = refl;
      record_id = refl;
      actor = (refl, refl);
      approved = refl;
      described = (refl, refl, refl);
    })

manager_of_check :
    (env : Env) → check_manager_permission env ≡ ok tt → env.has_group manager_group ≡ true
unfolding check_manager_permission
manager_of_check env h = ground arith

pub transition-Forall₂ :
    (orm : Orm assign) (env : Env) (m : Move) (self : List Capa) (outs : List (Capa × Event State))
    → transition orm env m self ≡ ok outs
    → (env.has_group manager_group ≡ true) × Forall₂ (Moved env m) self outs
unfolding transition
transition-Forall₂ orm env m self outs h =
    let (manager, moved) = >>-eq-ok (check_manager_permission env) _ h in
    (
      manager_of_check env manager,
      traverse-Forall₂ {P = λ _. Unit {0}} (transition_one orm env m)
          (λ c out _. transition_one-Moved orm env m c out) self outs (All-Unit self) moved,
    )

-- An action that returns was called by a manager, its test held at every record of the recordset,
-- and it made of each record exactly what its move says, with one event each.
pub run_lem :
    (orm : Orm assign) (env : Env) (action : Action) (self : List Capa)
    (outs : List (Capa × Event State))
    → run orm env action self ≡ ok outs
    → (env.has_group manager_group ≡ true)
      × All (λ c. check_action action c ≡ ok tt) self
      × Forall₂ (Moved env (move env action)) self outs
unfolding run
run_lem orm env action self outs h =
    let (_, tested) = >>-eq-ok (check_first env action) _ h in
    let (all_pass, done) = >>-eq-ok (for_each (check_action action) self) _ tested in
    let (manager, moved) = transition-Forall₂ orm env (move env action) self outs done in
    (manager, for_each-eq-ok (check_action action) self all_pass, moved)

-- The fields that the workflow writes are not among those that `write` locks.
abbrev pub IsUnlocked : List Assignment → Type 0
IsUnlocked vals =
    (any sets_method vals ≡ false)
    × (any sets_rca vals ≡ false)
    × ((c : Capa) → any (changes_provenance c) vals ≡ false)

pub move-IsUnlocked : (env : Env) (action : Action) → IsUnlocked (move env action).extra_values
unfolding move
move-IsUnlocked env plan_actions = (refl, refl, λ c. refl)
move-IsUnlocked env _ = (refl, refl, λ c. refl)

check_write-ok :
    (vals : List Assignment) (c : Capa) → IsUnlocked vals → check_write true vals (c ∷ []) ≡ ok tt
unfolding check_write
check_write-ok vals c (methods, rcas, sources) = ground (arith, sources c)

check_first-ok :
    (env : Env) (action : Action)
    → env.has_group manager_group ≡ true
    → check_first env action ≡ ok tt
unfolding check_manager_permission
check_first-ok env close h = rw h
check_first-ok env _ h = refl

-- The ORM refuses to write a record as the workflow asks for.
abbrev pub IsRefused : Orm assign → Move → Error → Capa → Type 0
IsRefused orm m e c = orm.super_write (set_state m.to ∷ m.extra_values) c ≡ err e

-- A loop whose body fails for one reason fails for that reason at one of the records.
traverse-cases :
    {A B : Type 0} (step : A → Result B) (P : Error → A → Type 0)
    → ((x : A) → ((y : B) × (step x ≡ ok y)) ⊎ ((e : Error) × (step x ≡ err e) × P e x))
    → (xs : List A)
    → ((ys : List B) × (traverse step xs ≡ ok ys))
      ⊎ ((e : Error) × (traverse step xs ≡ err e) × Exists (P e) xs)
traverse-cases step P rule [] = inl ([], refl)
traverse-cases step P rule (x ∷ xs) = elim (rule x) [
  | inr (e, fails, why) ↦ inr (e, rw fails refl, inl why)
  | inl (y, works) ↦ elim (traverse-cases step P rule xs) [
    | inl (ys, rest) ↦ inl (y ∷ ys, rw (works, rest) refl)
    | inr (e, rest, why) ↦ inr (e, rw (works, rest) refl, inr why)
  ]
]

transition_one-cases :
    (orm : Orm assign) (env : Env) (m : Move) (c : Capa)
    → IsUnlocked m.extra_values
    → ((out : Capa × Event State) × (transition_one orm env m c ≡ ok out))
      ⊎ ((e : Error) × (transition_one orm env m c ≡ err e) × IsRefused orm m e c)
unfolding transition_one write_one
transition_one-cases orm env m c unlocked =
    rw (check_write-ok (set_state m.to ∷ m.extra_values) c unlocked)
      (answered (orm.super_write (set_state m.to ∷ m.extra_values) c) refl)
  where
    moved_to : Capa → Result (Capa × Event State)
    moved_to c' = ok (c', event_of env m c c')

    answered :
        (x : Result Capa)
        → orm.super_write (set_state m.to ∷ m.extra_values) c ≡ x
        → ((out : Capa × Event State) × ((orm.super_write (set_state m.to ∷ m.extra_values) c
                >>= moved_to)
              ≡ ok out))
          ⊎ ((e : Error) × ((orm.super_write (set_state m.to ∷ m.extra_values) c >>= moved_to)
                ≡ err e)
              × IsRefused orm m e c)
    answered (ok c') h = inl ((c', event_of env m c c'), rw h refl)
    answered (err e) h = inr (e, rw h refl, h)

-- For a manager, an action whose test holds at every record returns, or it raises what the ORM raises
-- for the write of one of the records: the locks of `write` never stop a workflow action, whatever the
-- states of the records.
pub run_cases :
    (orm : Orm assign) (env : Env) (action : Action) (self : List Capa)
    → env.has_group manager_group ≡ true
    → All (λ c. check_action action c ≡ ok tt) self
    → ((outs : List (Capa × Event State)) × (run orm env action self ≡ ok outs))
      ⊎ ((e : Error) × (run orm env action self ≡ err e)
          × Exists (IsRefused orm (move env action) e) self)
unfolding run transition check_manager_permission
run_cases orm env action self manager passes = rw (check_first-ok env action manager) (
    rw (for_each-ok (check_action action) self passes) (
      rw manager (
        traverse-cases (transition_one orm env (move env action)) (IsRefused orm (move env action))
          (λ c. transition_one-cases orm env (move env action) c (move-IsUnlocked env action))
          self)))
