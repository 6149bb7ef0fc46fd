-- ===== src/Workflow.antt =====
-- The loop that the `_transition` methods of the workflow models share: each record is written by
-- `write` at that record alone, and an event is logged from the record before and after.
use perfect_match_qms.Prelude.{◌≡◌, refl, subst, List, All, Forall₂}
use perfect_match_qms.Odoo.{
  Result, ok, ◌>>=◌, >>=-eq-ok, ok-injective, traverse, traverse-Forall₂, traverse-ok,
}

module _ {R E : Type 0} (save : R → Result R) (event : (before after : R) → E) where
  unfoldable pub save_and_log : R → Result (R × E)
  save_and_log r = save r >>= λ r'. ok (r', event r r')

  unfoldable pub save_each : List R → Result (List (R × E))
  unfolding save_and_log
  save_each rs = traverse save_and_log rs

  -- Each record is as it was saved, and its event is that of the change.
  pub save_each-Forall₂ :
      (P : R → Type 0) (Q : R → R → Type 0)
      → ((r r' : R) → P r → save r ≡ ok r' → Q r r')
      → (rs : List R) (outs : List (R × E)) → All P rs
      → save_each rs ≡ ok outs
      → Forall₂ (λ r out. Q r out.0 × (out.1 ≡ event r out.0)) rs outs
  unfolding save_each
  save_each-Forall₂ P Q rule rs outs p h =
      traverse-Forall₂ save_and_log (λ r out. step r out) rs outs p h
    where
      step :
          (r : R) (out : R × E)
          → P r
          → save_and_log r ≡ ok out
          → Q r out.0 × (out.1 ≡ event r out.0)
      step r out p e =
          let (r', saved, done) = >>=-eq-ok (save r) (λ r'. ok (r', event r r')) e in
          subst (λ (o : R × E). Q r o.0 × (o.1 ≡ event r o.0)) (ok-injective done)
            (rule r r' p saved, refl)

  pub save_each-ok :
      ((r : R) → (r' : R) × (save r ≡ ok r'))
      → (rs : List R) → (outs : List (R × E)) × (save_each rs ≡ ok outs)
  unfolding save_each
  save_each-ok saves rs =
      traverse-ok save_and_log (λ r. let (r', e) = saves r in ((r', event r r'), rw e)) rs
