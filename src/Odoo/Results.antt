-- ===== src/Odoo/Results.antt =====
-- odoo.exceptions, Python's ValueError and AttributeError, and the loops `for record in self` of a method that may raise.
use perfect_match_qms.Prelude.{
  ◌≡◌, refl, Bool, true, false, String, List, [], ◌∷◌, subst, sym, All, Forall₂,
}

pub data Error : Type 0 where
  access_error user_error validation_error value_error attribute_error : String → Error

-- What a method call comes to: an exception, or a value.
pub data Result {ℓ} (V : Type ℓ) : Type ℓ where
  err : Error → Result V
  ok : V → Result V

module _ {ℓ κ} {V : Type ℓ} {W : Type κ} where
  infixl 6 ◌>>=◌
  -- The rest of a method, after a call that may raise.
  abbrev pub ◌>>=◌ : Result V → (V → Result W) → Result W
  err raised >>= rest = err raised
  ok v >>= rest = rest v

module _ {ℓ} {W : Type ℓ} where
  infixl 6 ◌>>◌
  -- The rest of a method, after a call that only checks.
  abbrev pub ◌>>◌ : Result (Unit {0}) → Result W → Result W
  err raised >> rest = err raised
  ok _ >> rest = rest

-- `if test: raise error`
abbrev pub raise_if : Bool → Error → Result (Unit {0})
raise_if true e = err e
raise_if false e = ok tt

-- `for x in xs: check(x)`
abbrev pub for_each {ℓ} : {A : Type ℓ} → (A → Result (Unit {0})) → List A → Result (Unit {0})
for_each check [] = ok tt
for_each check (x ∷ xs) = check x >> for_each check xs

-- `for x in xs:` with a body that returns what became of `x`.
abbrev pub traverse {ℓ κ} : {A : Type ℓ} {B : Type κ} → (A → Result B) → List A → Result (List B)
traverse step [] = ok []
traverse step (x ∷ xs) = step x >>= λ y. traverse step xs >>= λ ys. ok (y ∷ ys)

pub ok-injective {ℓ} : {A : Type ℓ} {a b : A} → ok a ≡ ok b → a ≡ b
ok-injective e = cc

-- A method that returns has got through its first call, and through the rest.
module _ {ℓ κ} {V : Type ℓ} {W : Type κ} {w : W} where
  pub >>=-eq-ok :
      (first : Result V) (rest : V → Result W)
      → first >>= rest ≡ ok w
      → (v : V) × (first ≡ ok v) × (rest v ≡ ok w)
  >>=-eq-ok (ok v) rest returned = (v, refl, returned)
  >>=-eq-ok (err raised) rest returned = cc

module _ {ℓ} {W : Type ℓ} {w : W} where
  pub >>-eq-ok :
      (first : Result (Unit {0})) (rest : Result W)
      → first >> rest ≡ ok w
      → (first ≡ ok tt) × (rest ≡ ok w)
  >>-eq-ok (ok _) rest returned = (refl, returned)
  >>-eq-ok (err raised) rest returned = cc

pub raise_if-eq-ok : (b : Bool) (e : Error) → raise_if b e ≡ ok tt → b ≡ false
raise_if-eq-ok true e h = cc
raise_if-eq-ok false e h = refl

module _ {ℓ} {A : Type ℓ} where
  pub for_each-eq-ok :
      (check : A → Result (Unit {0})) (xs : List A)
      → for_each check xs ≡ ok tt
      → All (λ x. check x ≡ ok tt) xs
  for_each-eq-ok check [] h = tt
  for_each-eq-ok check (x ∷ xs) h =
      let (now, later) = >>-eq-ok (check x) (for_each check xs) h in
      (now, for_each-eq-ok check xs later)

  -- What each step ensures under its precondition holds position by position.
  pub traverse-Forall₂ {κ μ} :
      {B : Type κ} {P : A → Type μ} {R : A → B → Type 0} (step : A → Result B)
      → ((x : A) (y : B) → P x → step x ≡ ok y → R x y)
      → (xs : List A) (ys : List B) → All P xs
      → traverse step xs ≡ ok ys
      → Forall₂ R xs ys
  traverse-Forall₂ step rule [] [] p h = tt
  traverse-Forall₂ step rule [] (y ∷ ys) p h = cc
  traverse-Forall₂ {R = R} step rule (x ∷ xs) ys p h =
      let (y, now, rest) = >>=-eq-ok (step x) (λ y. traverse step xs >>= λ ys. ok (y ∷ ys)) h in
      let (ys', later, whole) = >>=-eq-ok (traverse step xs) (λ ys. ok (y ∷ ys)) rest in
      subst (Forall₂ R (x ∷ xs)) (ok-injective whole)
        (rule x y p.0 now, traverse-Forall₂ step rule xs ys' p.1 later)

  pub for_each-ok :
      (check : A → Result (Unit {0})) (xs : List A)
      → All (λ x. check x ≡ ok tt) xs
      → for_each check xs ≡ ok tt
  for_each-ok check [] h = refl
  for_each-ok check (x ∷ xs) h = rw h.0 (for_each-ok check xs h.1)

  -- Where every step returns, so does the loop.
  pub traverse-ok {κ} :
      {B : Type κ} (step : A → Result B)
      → ((x : A) → (y : B) × (step x ≡ ok y))
      → (xs : List A) → (ys : List B) × (traverse step xs ≡ ok ys)
  traverse-ok step rule [] = ([], refl)
  traverse-ok step rule (x ∷ xs) =
      let (y, e) = rule x in let (ys, es) = traverse-ok step rule xs in (y ∷ ys, rw (e, es))

  -- The loop over one record.
  pub traverse_one {κ} :
      {B : Type κ} (step : A → Result B) (x : A) (ys : List B)
      → traverse step (x ∷ []) ≡ ok ys
      → (y : B) × (step x ≡ ok y) × (ys ≡ y ∷ [])
  traverse_one step x ys h =
      let (y, done, rest) = >>=-eq-ok (step x) (λ y. traverse step [] >>= λ ys. ok (y ∷ ys)) h in
      (y, done, sym (ok-injective rest))
