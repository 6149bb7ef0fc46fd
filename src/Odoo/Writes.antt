-- ===== src/Odoo/Writes.antt =====
-- The ORM is not part of the repository: a model's `super().write` is a parameter.
use perfect_match_qms.Prelude.{◌≡◌, refl, ◌∙◌, Bool, false, any, or-eq-false, sym, List, [], ◌∷◌}
use perfect_match_qms.Odoo.Results.{Result, ok, ok-injective}

-- What a field assignment does to a record, for each entry of a values dictionary in turn.
abbrev pub assign_all {ℓ κ} : {R : Type ℓ} {V : Type κ} → (V → R → R) → List V → R → R
assign_all assign [] r = r
assign_all assign (v ∷ vs) r = assign_all assign vs (assign v r)

-- `super().write(vals)` at one record. It may raise, for access rules or constraints; where it
-- returns, each field that `vals` names has the value given and no other field has changed.
pub record Orm {R V : Type 0} (assign : V → R → R) : Type 0 where
  pub super_write : List V → R → Result R
  pub write_exact :
      (vals : List V) (r r' : R) → super_write vals r ≡ ok r' → r' ≡ assign_all assign vals r

-- An ORM that never refuses a write.
abbrev pub permissive : {R V : Type 0} (assign : V → R → R) → Orm assign
permissive assign = record {
  super_write = λ vals r. ok (assign_all assign vals r);
  write_exact = λ vals r r' e. sym (ok-injective e);
}

-- `super().create(vals_list)`: where it returns, the records hold the values given.
pub record Creation (R : Type 0) : Type 0 where
  pub super_create : List R → Result (List R)
  pub create_exact : (vals rs : List R) → super_create vals ≡ ok rs → rs ≡ vals

abbrev pub permissive_creation : {R : Type 0} → Creation R
permissive_creation = record {
  super_create = λ vals. ok vals;
  create_exact = λ vals rs e. sym (ok-injective e);
}

-- A property that no entry of the dictionary touches is kept by the whole write.
pub assign_all-same {ℓ κ μ} :
    {R : Type ℓ} {V : Type κ} {A : Type μ} (assign : V → R → R) (field : R → A) (touches : V → Bool)
    → ((v : V) (r : R) → touches v ≡ false → field (assign v r) ≡ field r)
    → (vals : List V) (r : R) → any touches vals ≡ false
    → field (assign_all assign vals r) ≡ field r
assign_all-same assign field touches keep [] r h = refl
assign_all-same assign field touches keep (v ∷ vals) r h =
    let (now, later) = or-eq-false (touches v) _ h in
    assign_all-same assign field touches keep vals (assign v r) later ∙ keep v r now
