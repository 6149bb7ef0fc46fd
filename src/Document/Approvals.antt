-- ===== src/Document/Approvals.antt =====
-- What the log says of the approval of a revision.
use perfect_match_qms.Prelude.{
  ℕ, ◌≡◌, ◌⊎◌, refl, sym, ap, ◌∙◌, subst, Bool, true, false, some, List, [], ◌∷◌, ◌++◌, Exists,
  Bool-cases, inl, inr, filtered, map, true-false,
}
use perfect_match_qms.Odoo.{Env}
use perfect_match_qms.Event.{Event}
use perfect_match_qms.Document.Types.{
  RevisionState, draft, under_review, approved, active, superseded, rejected, Revision, is_active,
  can_activate, LoggedEvent, of_revision,
}
use perfect_match_qms.Document.Revisions.{approve, supersede, manager_group, accepts, event_of}
use perfect_match_qms.Document.Steps.{Log, logs}

-- The states that only an approval leads to.
abbrev pub is_settled : RevisionState → Bool
is_settled approved = true
is_settled active = true
is_settled superseded = true
is_settled _ = false

-- An approval of the revision with this id: a manager made the call, at the event's date, and the
-- event names that manager as the approver.
pub record IsApproval (id : ℕ) (entry : Env × LoggedEvent) : Type 0 where
  pub event : Event RevisionState
  pub logged_as : entry.1 ≡ of_revision event
  pub of_this : event.res_id ≡ id
  pub into_approved : event.new_state ≡ some approved
  pub by_manager : entry.0.has_group manager_group ≡ true
  pub approver : event.approver_id ≡ some entry.0.user
  pub dated : event.event_date ≡ entry.0.now

-- The revision is in no settled state, or the log has its approval.
abbrev pub IsApprovedIn : Log → Revision → Type 0
IsApprovedIn log r = (is_settled r.state ≡ false) ⊎ Exists (IsApproval r.id) log

pub Exists-right :
    (P : Env × LoggedEvent → Type 0) (xs ys : Log) → Exists P ys → Exists P (xs ++ ys)
Exists-right P [] ys h = h
Exists-right P (x ∷ xs) ys h = inr (Exists-right P xs ys h)

pub later :
    (env : Env) (events : List LoggedEvent) (log : Log) (r : Revision)
    → IsApprovedIn log r
    → IsApprovedIn (logs env events log) r
later env events log r (inl open_state) = inl open_state
later env events log r (inr approval) = inr (Exists-right (IsApproval r.id) _ log approval)

-- The event of a revision that takes part is in the log.
pub event_logged :
    (P : Env × LoggedEvent → Type 0) (env : Env) (event : Revision → Event RevisionState)
    (f : Revision → Bool) (rs : List Revision) (r : Revision) (log : Log)
    → Exists (λ q. q ≡ r) rs
    → f r ≡ true
    → P (env, of_revision (event r))
    → Exists P (logs env (map of_revision (map event (filtered f rs))) log)
event_logged P env event f [] r log e h p = elim e [ ]
event_logged P env event f (q ∷ rs) r log (inl here) h p =
    let chosen : f q ≡ true = ap f here ∙ h in
    rw chosen (inl (subst (λ x. P (env, of_revision (event x))) (sym here) p))
event_logged P env event f (q ∷ rs) r log (inr there) h p =
    let rest = event_logged P env event f rs r log there h p in
    elim (Bool-cases (f q)) [ inl chosen ↦ rw chosen (inr rest) | inr passed ↦ rw passed rest ]

-- An active or approved revision of the invariant has its approval.
pub entry_of_settled :
    (log : Log) (r : Revision)
    → is_settled r.state ≡ true
    → IsApprovedIn log r
    → Exists (IsApproval r.id) log
entry_of_settled log r settled (inl open_state) = absurd (true-false _ settled open_state)
entry_of_settled log r settled (inr approval) = approval

pub settled_of_supersede : (s : RevisionState) → accepts supersede s ≡ true → is_settled s ≡ true
unfolding accepts
settled_of_supersede draft h = cc
settled_of_supersede under_review h = cc
settled_of_supersede approved h = refl
settled_of_supersede active h = refl
settled_of_supersede superseded h = refl
settled_of_supersede rejected h = cc

pub settled_of_ready : (s : RevisionState) → can_activate s ≡ true → is_settled s ≡ true
settled_of_ready draft h = cc
settled_of_ready under_review h = cc
settled_of_ready approved h = refl
settled_of_ready active h = refl
settled_of_ready superseded h = refl
settled_of_ready rejected h = cc

pub settled_of_active : (s : RevisionState) → is_active s ≡ true → is_settled s ≡ true
settled_of_active draft h = cc
settled_of_active under_review h = cc
settled_of_active approved h = refl
settled_of_active active h = refl
settled_of_active superseded h = refl
settled_of_active rejected h = cc

pub event_of-IsApproval :
    (env : Env) (r : Revision)
    → env.has_group manager_group ≡ true
    → IsApproval r.id (env, of_revision (event_of env approve r))
unfolding event_of
event_of-IsApproval env r manager = record {
  event = event_of env approve r;
  logged_as = refl;
  of_this = refl;
  into_approved = refl;
  by_manager = manager;
  approver = refl;
  dated = refl;
}
