-- ===== src/Capa/Locks.antt =====
-- What a successful `write` on CAPAs leaves alone.
use perfect_match_qms.Prelude.{
  not-eq-false, or-eq-false, ◌≡◌, refl, subst, ap, sym, Bool, true, false, not, ◌&&◌, Option, none,
  some, String, List, [], ◌∷◌, arith, any, All, All-zip, Forall₂, eq_iff,
}
use perfect_match_qms.Odoo.{
  assign_all-same, ok, for_each, raise_if, raise_if-eq-ok, >>-eq-ok, for_each-eq-ok,
  traverse-Forall₂, Orm, assign_all, same-eq, id_of,
}
use perfect_match_qms.Capa.Types.{
  SourceType, Capa, Assignment, set_source_type, set_source_reference, set_source_ncr_id,
  set_source_risk_id, assign,
}
use perfect_match_qms.Capa.Checks.{is_draft}
use perfect_match_qms.Capa.Write.{
  source_type_eq, or_false, text_eq, sets_state, sets_method, sets_rca, changes_provenance,
  check_provenance, rca_locked, check_write, write,
}

source_type_eq-eq : (a b : SourceType) → source_type_eq a b ≡ true → a ≡ b
source_type_eq-eq a b h = ground arith

text_eq-eq : (a b : Option String) → text_eq a b ≡ true → a ≡ b
text_eq-eq none none h = refl
text_eq-eq none (some b) h = cc
text_eq-eq (some a) none h = cc
text_eq-eq (some a) (some b) h = ap some ((eq_iff a b).0 h)

-- `d` has the provenance of `c`, as `write` compares it: references by id, an empty text as no text.
pub record SameSource (c d : Capa) : Type 0 where
  pub same_type : d.source_type ≡ c.source_type
  pub same_reference : or_false d.source_reference ≡ or_false c.source_reference
  pub same_ncr : id_of d.source_ncr_id ≡ id_of c.source_ncr_id
  pub same_risk : id_of d.source_risk_id ≡ id_of c.source_risk_id

-- The fields that are locked once the implementation starts.
abbrev pub analysis : Capa → Option String × Option String × Option String
analysis c = (c.root_cause_analysis, c.root_cause, c.other_method_name)

assign-SameSource :
    (v : Assignment) (c d : Capa)
    → changes_provenance c v ≡ false
    → SameSource c d
    → SameSource c (assign v d)
assign-SameSource (set_source_type v) c d h s = record {
  same_type = sym (source_type_eq-eq c.source_type v (not-eq-false _ h));
  same_reference = s.same_reference;
  same_ncr = s.same_ncr;
  same_risk = s.same_risk;
}
assign-SameSource (set_source_reference v) c d h s = record {
  same_type = s.same_type;
  same_reference = sym (text_eq-eq (or_false c.source_reference) (or_false v) (not-eq-false _ h));
  same_ncr = s.same_ncr;
  same_risk = s.same_risk;
}
assign-SameSource (set_source_ncr_id v) c d h s = record {
  same_type = s.same_type;
  same_reference = s.same_reference;
  same_ncr = sym (same-eq (id_of c.source_ncr_id) (id_of v) (not-eq-false _ h));
  same_risk = s.same_risk;
}
assign-SameSource (set_source_risk_id v) c d h s = record {
  same_type = s.same_type;
  same_reference = s.same_reference;
  same_ncr = s.same_ncr;
  same_risk = sym (same-eq (id_of c.source_risk_id) (id_of v) (not-eq-false _ h));
}
assign-SameSource _ c d h s = record {
  same_type = s.same_type;
  same_reference = s.same_reference;
  same_ncr = s.same_ncr;
  same_risk = s.same_risk;
}

assign-analysis :
    (v : Assignment) (c : Capa) → sets_rca v ≡ false → analysis (assign v c) ≡ analysis c
assign-analysis v c h = ground arith

assign-method :
    (v : Assignment) (c : Capa)
    → sets_method v ≡ false
    → (assign v c).root_cause_method ≡ c.root_cause_method
assign-method v c h = ground arith

assign-state : (v : Assignment) (c : Capa) → sets_state v ≡ false → (assign v c).state ≡ c.state
assign-state v c h = ground arith

assign_all-SameSource :
    (vals : List Assignment) (c d : Capa)
    → any (changes_provenance c) vals ≡ false
    → SameSource c d
    → SameSource c (assign_all assign vals d)
assign_all-SameSource [] c d h s = s
assign_all-SameSource (v ∷ vals) c d h s =
    let (now, later) = or-eq-false (changes_provenance c v) _ h in
    assign_all-SameSource vals c (assign v d) later (assign-SameSource v c d now s)

-- What `write` keeps of one record.
pub record Kept (workflow : Bool) (c d : Capa) : Type 0 where
  pub state_kept : workflow ≡ false → d.state ≡ c.state
  pub source_kept : is_draft c.state ≡ false → SameSource c d
  pub method_kept : is_draft c.state ≡ false → d.root_cause_method ≡ c.root_cause_method
  pub analysis_kept : rca_locked c.state ≡ true → analysis d ≡ analysis c

-- Each record is either exempt from a lock, or no entry of the dictionary touches what is locked.
lock :
    (touched : Bool) (locked : Capa → Bool) (self : List Capa)
    → (touched && any locked self) ≡ false
    → All (λ c. locked c ≡ true → touched ≡ false) self
lock touched locked [] h = tt
lock touched locked (c ∷ self) h = ground (arith, lock touched locked self)

assign_all-Kept :
    (workflow : Bool) (vals : List Assignment) (c : Capa)
    → (any sets_state vals && not workflow) ≡ false
    → check_provenance vals c ≡ ok tt
    → (not (is_draft c.state) ≡ true → any sets_method vals ≡ false)
    → (rca_locked c.state ≡ true → any sets_rca vals ≡ false)
    → Kept workflow c (assign_all assign vals c)
assign_all-Kept workflow vals c states sources methods rcas = record {
  state_kept =
      λ w. assign_all-same assign (λ d. d.state) sets_state assign-state vals c (ground arith);
  source_kept = λ e.
      assign_all-SameSource vals c c (ground arith)
        (record { same_type = refl; same_reference = refl; same_ncr = refl; same_risk = refl });
  method_kept = λ e.
      assign_all-same assign (λ d. d.root_cause_method) sets_method assign-method vals c
        (methods (ap not e));
  analysis_kept = λ e. assign_all-same assign analysis sets_rca assign-analysis vals c (rcas e);
}

-- A successful write stores at each record exactly the values given. It changes no state unless the
-- workflow flag is set. After Draft it changes neither the provenance nor the root cause method, and
-- once the implementation has started it changes no field of the root cause analysis.
pub write-Kept :
    (orm : Orm assign) (workflow : Bool) (vals : List Assignment) (self self' : List Capa)
    → write orm workflow vals self ≡ ok self'
    → Forall₂ (λ c d. (d ≡ assign_all assign vals c) × Kept workflow c d) self self'
unfolding write check_write
write-Kept orm workflow vals self self' h =
    let (guards, stored) = >>-eq-ok (check_write workflow vals self) _ h in
    let (states, guards) = >>-eq-ok (raise_if (any sets_state vals && not workflow) _) _ guards in
    let (sources, guards) = >>-eq-ok (for_each (check_provenance vals) self) _ guards in
    let (methods, rcas) =
      >>-eq-ok
        (raise_if (any sets_method vals && any (λ (c : Capa). not (is_draft c.state)) self) _) _
        guards in
    traverse-Forall₂ (orm.super_write vals)
      (λ c d (p, (m, r)) saved.
        let e = orm.write_exact vals c d saved in
        (
          e,
          subst (Kept workflow c) (sym e)
              (assign_all-Kept workflow vals c (raise_if-eq-ok _ _ states) p m r),
        ))
      self self'
      (All-zip _ _ self (for_each-eq-ok (check_provenance vals) self sources) (
        All-zip _ _ self
          (lock (any sets_method vals) (λ (c : Capa). not (is_draft c.state)) self
            (raise_if-eq-ok _ _ methods))
          (lock (any sets_rca vals) (λ (c : Capa). rca_locked c.state) self
            (raise_if-eq-ok _ _ rcas))))
      stored
