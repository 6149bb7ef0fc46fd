-- ===== src/Migration/Pairs.antt =====
-- Records before and after a call on a recordset, which keeps their order.
use perfect_match_qms.Odoo.{Error, Result, ok, raise_if, ◌>>◌, >>-eq-ok, raise_if-eq-ok}
use perfect_match_qms.Prelude.{Bool, false, ◌≡◌, ◌⊎◌, inl, inr, subst, List, [], ◌∷◌, Forall₂}

-- Two calls one after the other.
pub Forall₂-trans {ℓ} :
    {A : Type ℓ} {R S T : A → A → Type 0}
    → ((x y z : A) → R x y → S y z → T x z)
    → (xs ys zs : List A) → Forall₂ R xs ys
    → Forall₂ S ys zs
    → Forall₂ T xs zs
Forall₂-trans f [] [] [] h k = tt
Forall₂-trans f [] [] (z ∷ zs) h k = elim k [ ]
Forall₂-trans f [] (y ∷ ys) zs h k = elim h [ ]
Forall₂-trans f (x ∷ xs) [] zs h k = elim h [ ]
Forall₂-trans f (x ∷ xs) (y ∷ ys) [] h k = elim k [ ]
Forall₂-trans f (x ∷ xs) (y ∷ ys) (z ∷ zs) h k = (f x y z h.0 k.0, Forall₂-trans f xs ys zs h.1 k.1)

-- The first record is in the one list, and the second at the same place of the other.
abbrev pub Paired : {A : Type 0} → A → A → List A → List A → Type 0
Paired r r' (x ∷ xs) (y ∷ ys) = ((x ≡ r) × (y ≡ r')) ⊎ Paired r r' xs ys
Paired r r' _ _ = ⊥

pub Forall₂-Paired :
    {A : Type 0} (R : A → A → Type 0) (r r' : A) (xs ys : List A)
    → Forall₂ R xs ys
    → Paired r r' xs ys
    → R r r'
Forall₂-Paired R r r' [] ys h p = elim p [ ]
Forall₂-Paired R r r' (x ∷ xs) [] h p = elim p [ ]
Forall₂-Paired R r r' (x ∷ xs) (y ∷ ys) h (inl (here, there)) =
    subst (λ a. R a r') here (subst (λ b. R x b) there h.0)
Forall₂-Paired R r r' (x ∷ xs) (y ∷ ys) h (inr later) = Forall₂-Paired R r r' xs ys h.1 later

-- A method that returns has got past its first test.
pub past :
    (b : Bool) (e : Error) (rest : Result (Unit {0}))
    → raise_if b e >> rest ≡ ok tt
    → (b ≡ false) × (rest ≡ ok tt)
past b e rest h =
    let (first, later) = >>-eq-ok (raise_if b e) rest h in (raise_if-eq-ok b e first, later)
