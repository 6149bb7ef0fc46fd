-- ===== src/Capa/History.antt =====
-- The life of one CAPA: any sequence of workflow actions and of writes by the form. The event log is
-- kept newest first.
use perfect_match_qms.Prelude.{
  ℕ, String, Option, ◌≡◌, refl, sym, subst, ap, ◌∙◌, false, some, List, [], ◌∷◌, arith, Exists, inl,
  inr, Forall₂,
}
use perfect_match_qms.Odoo.{
  Linked, Creation, Env, ok, >>-eq-ok, >>=-eq-ok, traverse, traverse_one, Orm,
}
use perfect_match_qms.Event.{EventType, Event}
use perfect_match_qms.Capa.Types.{
  State, Why, IsIsNot, Fishbone, CapaAction, Capa, Assignment, assign,
}
use perfect_match_qms.Capa.Structure.{}
use perfect_match_qms.Capa.Initialization.{initialize-state}
use perfect_match_qms.Capa.Checks.{validate_analysis_start}
use perfect_match_qms.Capa.Write.{write}
use perfect_match_qms.Capa.Locks.{write-Kept}
use perfect_match_qms.Capa.Workflow.{
  Action, close, check_manager_permission, move, check_action, run, start_analysis, transition,
  start_move, prepare,
}
use perfect_match_qms.Capa.Transitions.{Moved, run_lem, transition-Forall₂}

-- What an event says of the step that it logs.
pub record Faithful (c c' : Capa) (e : Event State) : Type 0 where
  pub from : e.previous_state ≡ some c.state
  pub to : e.new_state ≡ some c'.state
  pub closing : c'.state ≡ State.closed → c.state ≡ State.effective
  pub accepting :
      c'.state ≡ State.effective
      → (e.event_type ≡ EventType.effectiveness) × (e.approver_id ≡ some e.user_id)

move-Faithful :
    (env : Env) (action : Action) (c : Capa) (out : Capa × Event State)
    → check_action action c ≡ ok tt
    → Moved env (move env action) c out
    → Faithful c out.0 out.1
unfolding move check_action
move-Faithful env close c out passes m =
    let s = ap (λ (d : Capa). d.state) m.written in
    record {
      from = m.from;
      to = m.to ∙ ap some (sym s);
      closing = λ h. ground arith;
      accepting = λ h. ground arith;
    }
move-Faithful env _ c out passes m =
    let s = ap (λ (d : Capa). d.state) m.written in
    record {
      from = m.from;
      to = m.to ∙ ap some (sym s);
      closing = λ h. ground arith;
      accepting = λ h. ground arith;
    }

start-Faithful :
    (env : Env) (c b : Capa) (out : Capa × Event State)
    → b.state ≡ c.state
    → Moved env start_move b out
    → Faithful c out.0 out.1
start-Faithful env c b out same m =
    let s = ap (λ (d : Capa). d.state) m.written in
    record {
      from = m.from ∙ ap some same;
      to = m.to ∙ ap some (sym s);
      closing = λ h. ground arith;
      accepting = λ h. ground arith;
    }

-- The fields of a CAPA that change without a write of its own: its rows, which have models of their
-- own, the links that its relations hold, and the fields that follow from others.
pub record Surroundings : Type 0 where
  pub display_name : String
  pub company_id : Option ℕ
  pub organization_id : Option ℕ
  pub process_id : Option Linked
  pub why_ids : List Why
  pub fishbone_ids : List Fishbone
  pub is_is_not_ids : List IsIsNot
  pub action_ids : List CapaAction
  pub related_control_instance_ids : List Linked
  pub related_document_ids : List Linked

abbrev pub surrounded : Surroundings → Capa → Capa
surrounded x c = record c {
  display_name = x.display_name;
  company_id = x.company_id;
  organization_id = x.organization_id;
  process_id = x.process_id;
  why_ids = x.why_ids;
  fishbone_ids = x.fishbone_ids;
  is_is_not_ids = x.is_is_not_ids;
  action_ids = x.action_ids;
  related_control_instance_ids = x.related_control_instance_ids;
  related_document_ids = x.related_document_ids;
}

-- One record's life, with the log that it has gathered. Its actions, causes and other rows may change
-- in any way between the calls. Writes with the workflow flag are those that the actions make.
pub data History (orm : Orm assign) (whys : Creation Why) (rows : Creation IsIsNot) (c₀ : Capa)
    : Capa → List (Event State) → Type 0 where
  created : History orm whys rows c₀ c₀ []
  acted :
      {c c' : Capa} {log : List (Event State)} {e : Event State} (env : Env) (action : Action)
      → History orm whys rows c₀ c log
      → run orm env action (c ∷ []) ≡ ok ((c', e) ∷ [])
      → History orm whys rows c₀ c' (e ∷ log)
  started :
      {c c' : Capa} {log : List (Event State)} {e : Event State} (env : Env)
      → History orm whys rows c₀ c log
      → start_analysis orm whys rows env (c ∷ []) ≡ ok ((c', e) ∷ [])
      → History orm whys rows c₀ c' (e ∷ log)
  saved :
      {c c' : Capa} {log : List (Event State)} (vals : List Assignment)
      → History orm whys rows c₀ c log
      → write orm false vals (c ∷ []) ≡ ok (c' ∷ [])
      → History orm whys rows c₀ c' log
  surroundings_changed :
      (c : Capa) (log : List (Event State)) (now : Surroundings)
      → History orm whys rows c₀ c log
      → History orm whys rows c₀ (surrounded now c) log

-- The events are linked: each starts in the state in which the one before it ended, the first one in
-- `first`, and the newest one ends in the state given.
abbrev pub IsChain : State → List (Event State) → State → Type 0
IsChain first [] s = s ≡ first
IsChain first (e ∷ log) s =
    (p : State) × (e.previous_state ≡ some p) × (e.new_state ≡ some s) × IsChain first log p

-- The event that accepted the effectiveness of a CAPA, with an approver.
abbrev pub IsAcceptance : Event State → Type 0
IsAcceptance e =
    (e.new_state ≡ some State.effective)
    × (e.event_type ≡ EventType.effectiveness)
    × (e.approver_id ≡ some e.user_id)

record Audited (c₀ c : Capa) (log : List (Event State)) : Type 0 where
  chain : IsChain c₀.state log c.state
  accepted : c.state ≡ State.effective → Exists IsAcceptance log
  finished : c.state ≡ State.closed → Exists IsAcceptance log

logged-Audited :
    (c₀ c c' : Capa) (log : List (Event State)) (e : Event State)
    → Faithful c c' e
    → Audited c₀ c log
    → Audited c₀ c' (e ∷ log)
logged-Audited c₀ c c' log e f a = record {
  chain = (c.state, f.from, f.to, a.chain);
  accepted = λ h. inl (f.to ∙ ap some h, (f.accepting h).0, (f.accepting h).1);
  finished = λ h. inr (a.accepted (f.closing h));
}

saved-Audited :
    (c₀ c c' : Capa) (log : List (Event State))
    → c'.state ≡ c.state
    → Audited c₀ c log
    → Audited c₀ c' log
saved-Audited c₀ c c' log e a = record {
  chain = rw e a.chain;
  accepted = λ h. a.accepted (sym e ∙ h);
  finished = λ h. a.finished (sym e ∙ h);
}

module _ (orm : Orm assign) (whys : Creation Why) (rows : Creation IsIsNot) where
  run-Faithful :
      (env : Env) (action : Action) (c c' : Capa) (e : Event State)
      → run orm env action (c ∷ []) ≡ ok ((c', e) ∷ [])
      → Faithful c c' e
  run-Faithful env action c c' e h =
      let (_, passes, moved) = run_lem orm env action (c ∷ []) ((c', e) ∷ []) h in
      move-Faithful env action c (c', e) passes.0 moved.0

  start_analysis-Faithful :
      (env : Env) (c c' : Capa) (e : Event State)
      → start_analysis orm whys rows env (c ∷ []) ≡ ok ((c', e) ∷ [])
      → Faithful c c' e
  unfolding start_analysis
  start_analysis-Faithful env c c' e h =
      let (_, rest) = >>-eq-ok (check_manager_permission env) _ h in
      let (ready, made, done) =
        >>=-eq-ok (traverse (prepare whys rows) (c ∷ [])) (transition orm env start_move) rest in
      let (b, prepared, one) = traverse_one (prepare whys rows) c ready made in
      let (_, initialized) = >>-eq-ok (validate_analysis_start c) _ prepared in
      let (_, moved) = transition-Forall₂ orm env start_move ready ((c', e) ∷ []) done in
      start-Faithful env c b (c', e) (initialize-state whys rows c b initialized)
        (subst (λ l. Forall₂ (Moved env start_move) l ((c', e) ∷ [])) one moved).0

  saved-state :
      (vals : List Assignment) (c c' : Capa)
      → write orm false vals (c ∷ []) ≡ ok (c' ∷ [])
      → c'.state ≡ c.state
  saved-state vals c c' h = (write-Kept orm false vals (c ∷ []) (c' ∷ []) h).0.1.state_kept refl

  History-Audited :
      (c₀ c : Capa) (log : List (Event State))
      → c₀.state ≡ State.draft
      → History orm whys rows c₀ c log
      → Audited c₀ c log
  History-Audited c₀ c log d created = record {
    chain = refl;
    accepted = λ h. cc;
    finished = λ h. cc;
  }
  History-Audited c₀ c log d (acted env action h done) =
      logged-Audited c₀ _ c _ _ (run-Faithful env action _ c _ done) (History-Audited c₀ _ _ d h)
  History-Audited c₀ c log d (started env h done) =
      logged-Audited c₀ _ c _ _ (start_analysis-Faithful env _ c _ done)
        (History-Audited c₀ _ _ d h)
  History-Audited c₀ c log d (saved vals h done) =
      saved-Audited c₀ _ c _ (saved-state vals _ c done) (History-Audited c₀ _ _ d h)
  History-Audited c₀ _ _ d (surroundings_changed c log now h) =
      saved-Audited c₀ c (surrounded now c) log refl (History-Audited c₀ c log d h)

-- Whatever actions, starts of the analysis, writes without the workflow flag and changes of its actions,
-- causes and other rows there are on a CAPA that began in Draft, in any order, its event log is a chain
-- of states that ends in the state it is in: no transition is missing from the log.
pub History-IsChain :
    (orm : Orm assign) (whys : Creation Why) (rows : Creation IsIsNot) (c₀ c : Capa)
    (log : List (Event State))
    → c₀.state ≡ State.draft
    → History orm whys rows c₀ c log
    → IsChain State.draft log c.state
History-IsChain orm whys rows c₀ c log d h =
    rw d at ((History-Audited orm whys rows c₀ c log d h).chain)

-- A CAPA that began in Draft and is closed after any actions, starts of the analysis, writes without the
-- workflow flag and changes of its actions, causes and other rows, in any order, has in its log an effectiveness decision that moved it to
-- Effective and names the user who decided as its approver.
pub closed-Exists :
    (orm : Orm assign) (whys : Creation Why) (rows : Creation IsIsNot) (c₀ c : Capa)
    (log : List (Event State))
    → c₀.state ≡ State.draft
    → History orm whys rows c₀ c log
    → c.state ≡ State.closed
    → Exists IsAcceptance log
closed-Exists orm whys rows c₀ c log d h = (History-Audited orm whys rows c₀ c log d h).finished
