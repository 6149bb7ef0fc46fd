-- ===== src/Prelude/Lists.antt =====
-- Lists: length and Boolean quantifiers that compute, and predicates by recursion.
use Prim.Native.Nat.{ℕ, zero, suc}
use mathlib.Core.Path.{◌≡◌, refl}
use mathlib.Core.Logic.{◌⊎◌, inl, inr}
use mathlib.Core.Bool.{Bool, true, false, ◌&&◌, ◌||◌}
use mathlib.Core.List.{List, [], ◌∷◌}
use native.Mathlib.Omega.{arith}
use perfect_match_qms.Prelude.Tests.{if◌then◌else◌}

module _ {ℓ} {A : Type ℓ} where
  abbrev pub length : List A → ℕ
  length [] = 0
  length (x ∷ xs) = suc (length xs)

  abbrev pub replicate : ℕ → A → List A
  replicate zero x = []
  replicate (suc n) x = x ∷ replicate n x

  -- Python's `any` and `all` over a generator.
  abbrev pub any : (A → Bool) → List A → Bool
  any p [] = false
  any p (x ∷ xs) = p x || any p xs

  abbrev pub all : (A → Bool) → List A → Bool
  all p [] = true
  all p (x ∷ xs) = p x && all p xs

  -- `recordset.filtered`, and a comprehension with a condition.
  abbrev pub filtered : (A → Bool) → List A → List A
  filtered p [] = []
  filtered p (x ∷ xs) = let rest = filtered p xs in if p x then x ∷ rest else rest

  abbrev pub is_empty : List A → Bool
  is_empty [] = true
  is_empty (x ∷ xs) = false

-- The predicate holds of every element.
abbrev pub All {ℓ κ} : {A : Type ℓ} → (A → Type κ) → List A → Type κ
All P [] = Unit
All P (x ∷ xs) = P x × All P xs

-- The lists have one length, and the relation holds at each position.
abbrev pub Forall₂ {ℓ κ} : {A : Type ℓ} {B : Type κ} → (A → B → Type 0) → List A → List B → Type 0
Forall₂ R [] [] = Unit
Forall₂ R (x ∷ xs) (y ∷ ys) = R x y × Forall₂ R xs ys
Forall₂ R _ _ = ⊥

-- The predicate holds of some element.
abbrev pub Exists {ℓ} : {A : Type ℓ} → (A → Type 0) → List A → Type 0
Exists P [] = ⊥
Exists P (x ∷ xs) = P x ⊎ Exists P xs

module _ {ℓ} {A : Type ℓ} where
  pub all→All : (p : A → Bool) (xs : List A) → all p xs ≡ true → All (λ x. p x ≡ true) xs
  all→All p [] h = tt
  all→All p (x ∷ xs) h = ground (arith, all→All p xs)

  pub any→Exists : (p : A → Bool) (xs : List A) → any p xs ≡ true → Exists (λ x. p x ≡ true) xs
  any→Exists p [] h = cc
  any→Exists p (x ∷ xs) h = ground (arith, any→Exists p xs)

  pub any-false : (p : A → Bool) (xs : List A) → any p xs ≡ false → All (λ x. p x ≡ false) xs
  any-false p [] h = tt
  any-false p (x ∷ xs) h = ground (arith, any-false p xs)

  pub All-map {κ μ} :
      {P : A → Type κ} {Q : A → Type μ}
      → ((x : A) → P x → Q x)
      → (xs : List A) → All P xs
      → All Q xs
  All-map f [] h = tt
  All-map f (x ∷ xs) h = (f x h.0, All-map f xs h.1)

  pub All-zip {κ μ} :
      (P : A → Type κ) (Q : A → Type μ) (xs : List A)
      → All P xs
      → All Q xs
      → All (λ x. P x × Q x) xs
  All-zip P Q [] p q = tt
  All-zip P Q (x ∷ xs) p q = ((p.0, q.0), All-zip P Q xs p.1 q.1)

pub All-Unit {ℓ} : {A : Type ℓ} (xs : List A) → All (λ _. Unit {0}) xs
All-Unit [] = tt
All-Unit (x ∷ xs) = (tt, All-Unit xs)

pub Forall₂-map {ℓ κ} :
    {A : Type ℓ} {B : Type κ} {P Q : A → B → Type 0}
    → ((x : A) (y : B) → P x y → Q x y)
    → (xs : List A) (ys : List B) → Forall₂ P xs ys
    → Forall₂ Q xs ys
Forall₂-map f [] [] h = tt
Forall₂-map f [] (y ∷ ys) h = elim h [ ]
Forall₂-map f (x ∷ xs) [] h = elim h [ ]
Forall₂-map f (x ∷ xs) (y ∷ ys) h = (f x y h.0, Forall₂-map f xs ys h.1)

pub Exists-map {ℓ} :
    {A : Type ℓ} {P Q : A → Type 0}
    → ((x : A) → P x → Q x)
    → (xs : List A) → Exists P xs
    → Exists Q xs
Exists-map f [] h = h
Exists-map f (x ∷ xs) (inl here) = inl (f x here)
Exists-map f (x ∷ xs) (inr there) = inr (Exists-map f xs there)

-- Every element is in the list.
pub All-Exists : {A : Type 0} (xs : List A) → All (λ x. Exists (λ y. y ≡ x) xs) xs
All-Exists [] = tt
All-Exists (x ∷ xs) = (inl refl, All-map (λ y h. inr h) xs (All-Exists xs))

-- What holds of all holds of one.
pub All-Exists_both :
    {A : Type 0} (P Q : A → Type 0) (xs : List A)
    → All P xs
    → Exists Q xs
    → Exists (λ x. P x × Q x) xs
All-Exists_both P Q [] h e = e
All-Exists_both P Q (x ∷ xs) h (inl here) = inl (h.0, here)
All-Exists_both P Q (x ∷ xs) h (inr there) = inr (All-Exists_both P Q xs h.1 there)
