-- ===== src/Capa/Write.antt =====
-- `PmQmsCapa.write` and `PmQmsCapa.unlink`: which fields the state of a CAPA locks.
use perfect_match_qms.Prelude.{
  Bool, true, false, not, ◌&&◌, String, Option, none, some, List, [], ◌∷◌, any, if◌then◌else◌,
  str_eq,
}
use perfect_match_qms.Odoo.{
  access_error, user_error, Result, ◌>>◌, raise_if, for_each, traverse, same, id_of, Orm,
}
use perfect_match_qms.Capa.Types.{
  State, SourceType, ncr, risk, audit_finding, customer_issue, supplier_issue, management_decision,
  other, Capa, Assignment, set_state, set_source_reference, set_root_cause_analysis, set_root_cause,
  set_other_method_name, set_source_type, set_source_ncr_id, set_source_risk_id,
  set_root_cause_method, assign,
}
use perfect_match_qms.Capa.Checks.{is_draft}

abbrev pub source_type_eq : SourceType → SourceType → Bool
source_type_eq ncr ncr = true
source_type_eq risk risk = true
source_type_eq audit_finding audit_finding = true
source_type_eq customer_issue customer_issue = true
source_type_eq supplier_issue supplier_issue = true
source_type_eq management_decision management_decision = true
source_type_eq other other = true
source_type_eq _ _ = false

-- `value or False` for a text.
abbrev pub or_false : Option String → Option String
or_false none = none
or_false (some s) = if str_eq s "" then none else some s

abbrev pub text_eq : Option String → Option String → Bool
text_eq none none = true
text_eq (some s) (some t) = str_eq s t
text_eq _ _ = false

abbrev pub sets_state : Assignment → Bool
sets_state (set_state _) = true
sets_state _ = false

abbrev pub sets_method : Assignment → Bool
sets_method (set_root_cause_method _) = true
sets_method _ = false

-- `rca_fields`
abbrev pub sets_rca : Assignment → Bool
sets_rca (set_root_cause_analysis _) = true
sets_rca (set_root_cause _) = true
sets_rca (set_other_method_name _) = true
sets_rca _ = false

-- The entry names one of `provenance_fields` with a value that differs from the record's.
abbrev pub changes_provenance : Capa → Assignment → Bool
changes_provenance c (set_source_type v) = not (source_type_eq c.source_type v)
changes_provenance c (set_source_reference v) =
    not (text_eq (or_false c.source_reference) (or_false v))
changes_provenance c (set_source_ncr_id v) = not (same (id_of c.source_ncr_id) (id_of v))
changes_provenance c (set_source_risk_id v) = not (same (id_of c.source_risk_id) (id_of v))
changes_provenance c _ = false

-- The states in which the root cause fields are locked.
abbrev pub rca_locked : State → Bool
rca_locked State.implementation = true
rca_locked State.effectiveness_review = true
rca_locked State.effective = true
rca_locked State.ineffective = true
rca_locked State.closed = true
rca_locked _ = false

abbrev pub check_provenance : List Assignment → Capa → Result (Unit {0})
check_provenance vals capa =
    raise_if (not (is_draft capa.state) && any (changes_provenance capa) vals)
      (user_error "CAPA source provenance is locked after Draft.")

-- What `write` tests before it calls `super().write`. `workflow` is the context flag.
unfoldable pub check_write : (workflow : Bool) → List Assignment → List Capa → Result (Unit {0})
check_write workflow vals self = do
  raise_if (any sets_state vals && not workflow)
      (access_error "Use CAPA workflow actions to change CAPA status.")
  for_each (check_provenance vals) self
  raise_if (any sets_method vals && any (λ (c : Capa). not (is_draft c.state)) self)
      (user_error "The root cause method is locked after CAPA analysis starts.")
  raise_if (any sets_rca vals && any (λ (c : Capa). rca_locked c.state) self)
      (user_error "Root cause methodology is locked after implementation starts.")

-- `write`. The attachments that it links afterwards are not part of the model.
unfoldable pub write :
    Orm assign → (workflow : Bool) → List Assignment → List Capa → Result (List Capa)
unfolding check_write
write orm workflow vals self =
    check_write workflow vals self >> traverse (orm.super_write vals) self

-- `write` at a recordset of one.
unfoldable pub write_one : Orm assign → (workflow : Bool) → List Assignment → Capa → Result Capa
unfolding check_write
write_one orm workflow vals capa =
    check_write workflow vals (capa ∷ []) >> orm.super_write vals capa

-- `unlink`, up to the deletion itself.
unfoldable pub check_unlink : List Capa → Result (Unit {0})
check_unlink self =
    raise_if (any (λ (c : Capa). not (is_draft c.state)) self)
      (user_error "Only draft CAPA records can be deleted.")
