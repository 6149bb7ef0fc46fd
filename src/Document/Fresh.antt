-- ===== src/Document/Fresh.antt =====
-- The name that `_next_revision_name` finds is a new one.
use perfect_match_qms.Prelude.{
  ℕ, zero, suc, ◌+◌, ◌-◌, ◌*◌, ◌/◌, ◌%◌, ◌≤◌, ◌<◌, ◌≡◌, ◌≢◌, refl, ap, ◌∙◌, subst, arith, ltb, Bool,
  true, false, not, ◌&&◌, ◌||◌, List, [], ◌∷◌, ◌++◌, all, filtered, length, replicate, is_empty,
  if◌then◌else◌, All, All-map, All-Unit, Forall₂, Bool-cases, inl, inr, true-false, if_true,
  if_false, ◌⊎◌,
}
use perfect_match_qms.Odoo.{
  Result, ok, ◌>>=◌, raise_if, >>=-eq-ok, >>-eq-ok, ok-injective, traverse, traverse-Forall₂,
}
use perfect_match_qms.Document.Naming.{
  is_decimal, is_digit, is_digits, value_from, to_int, digits_on, to_str, zfill, maximum,
  next_revision_name,
}

value_from-++ :
    (n : ℕ) (s : List ℕ) (c : ℕ) → value_from n (s ++ (c ∷ [])) ≡ value_from n s * 10 + (c - 48)
value_from-++ n [] c = refl
value_from-++ n (d ∷ s) c = value_from-++ (n * 10 + (d - 48)) s c

all-++ : (p : ℕ → Bool) (s : List ℕ) (c : ℕ) → all p (s ++ (c ∷ [])) ≡ (all p s && p c)
all-++ p [] c = ground arith
all-++ p (d ∷ s) c = ground (arith, all-++ p s c)

-- The digits of `n` are decimal, there is one at least, and they have its value.
abbrev IsNumeral : ℕ → List ℕ → Type 0
IsNumeral n s = (all is_decimal s ≡ true) × (is_empty s ≡ false) × (value_from 0 s ≡ n)

is_empty-++ : (s : List ℕ) (c : ℕ) → is_empty (s ++ (c ∷ [])) ≡ false
is_empty-++ [] c = refl
is_empty-++ (d ∷ s) c = refl

digits_on-IsNumeral : (fuel n : ℕ) → n < fuel → IsNumeral n (digits_on fuel n)
digits_on-IsNumeral zero n h = absurd (ground (arith, h))
digits_on-IsNumeral (suc fuel) n h = elim (Bool-cases (ltb n 10)) [
  | inl small ↦ rw small (ground arith, refl, omega arith)
  | inr large ↦
      let (decimal, _, value) = digits_on-IsNumeral fuel (n / 10) (ground (arith, h, large)) in
      rw large (
        all-++ is_decimal (digits_on fuel (n / 10)) (48 + n % 10) ∙ ground (arith, decimal),
        is_empty-++ (digits_on fuel (n / 10)) (48 + n % 10),
        value_from-++ 0 (digits_on fuel (n / 10)) (48 + n % 10) ∙ omega (arith, value),
      )
]

zeros-IsNumeral : (k n : ℕ) (s : List ℕ) → IsNumeral n s → IsNumeral n (replicate k 48 ++ s)
zeros-IsNumeral zero n s h = h
zeros-IsNumeral (suc k) n s h =
    let (decimal, _, value) = zeros-IsNumeral k n s h in (decimal, refl, value)

zfill-IsNumeral : (width n : ℕ) → IsNumeral n (zfill width (to_str n))
unfolding zfill to_str
zfill-IsNumeral width n =
    zeros-IsNumeral (width - length (digits_on (suc n) n)) n (digits_on (suc n) n)
      (digits_on-IsNumeral (suc n) n (omega arith))

digits_of_decimal : (s : List ℕ) → all is_decimal s ≡ true → all is_digit s ≡ true
unfolding is_digit
digits_of_decimal [] h = refl
digits_of_decimal (c ∷ s) h = ground (arith, digits_of_decimal s)

-- A number written with leading zeros is read as itself, and consists of digits.
pub to_int-zfill :
    (width n : ℕ)
    → (to_int (zfill width (to_str n)) ≡ ok n) × (is_digits (zfill width (to_str n)) ≡ true)
unfolding to_int
to_int-zfill width n =
    let (decimal, nonempty, value) = zfill-IsNumeral width n in
    (
      rw decimal (ap ok value),
      ground (arith, nonempty, digits_of_decimal (zfill width (to_str n)) decimal),
    )

maximum_upper : (ns : List ℕ) → All (λ n. n ≤ maximum ns) ns
maximum_upper [] = tt
maximum_upper (n ∷ ns) = (ground arith, All-map (λ k h. ground (arith, h)) ns (maximum_upper ns))

-- The number of a name that `int` reads.
to_int-ok : (s : List ℕ) (n : ℕ) → to_int s ≡ ok n → value_from 0 s ≡ n
unfolding to_int
to_int-ok s n h =
    ok-injective (>>-eq-ok (raise_if (not (all is_decimal s)) _) (ok (value_from 0 s)) h).1

-- A name of digits whose value is not the new one, or a name of other characters, is another name.
differs :
    (k n : ℕ) (s : List ℕ) → (is_digits s ≡ false) ⊎ (value_from 0 s ≢ n) → s ≢ zfill k (to_str n)
differs k n s (inl other) e = true-false _ (ap is_digits e ∙ (to_int-zfill k n).1) other
differs k n s (inr value) e = value (ap (value_from 0) e ∙ (zfill-IsNumeral k n).2)

-- What holds of the names of digits, of all names.
others :
    (P : List ℕ → Type 0) (names : List (List ℕ))
    → All P (filtered is_digits names)
    → All (λ s. (is_digits s ≡ false) ⊎ P s) names
others P [] h = tt
others P (s ∷ names) h = elim (Bool-cases (is_digits s)) [
  | inl digits ↦
      let (here, there) =
        subst (All P)
          (if_true (is_digits s) (s ∷ filtered is_digits names) (filtered is_digits names) digits)
          h in
      (inr here, others P names there)
  | inr other ↦
      let there =
        subst (All P)
          (if_false (is_digits s) (s ∷ filtered is_digits names) (filtered is_digits names) other)
          h in
      (inl other, others P names there)
]

-- The values read are at most their maximum; where none is read, there is no name of digits.
values_upper :
    (names : List (List ℕ)) (numeric : List ℕ)
    → Forall₂ (λ s n. value_from 0 s ≡ n) names numeric
    → All (λ s. (value_from 0 s ≤ maximum numeric) × (is_empty numeric ≡ false)) names
values_upper [] [] h = tt
values_upper [] (n ∷ numeric) h = elim h [ ]
values_upper (s ∷ names) [] h = elim h [ ]
values_upper (s ∷ names) (n ∷ numeric) h = (
  (ground (arith, h.0), refl),
  All-map (λ t (upper, _). (ground (arith, upper), refl)) names (values_upper names numeric h.1),
)

-- Whichever number is taken, no name has it.
new_differs :
    (names : List (List ℕ)) (numeric : List ℕ)
    → All
        (λ s.
          (is_digits s ≡ false) ⊎ ((value_from 0 s ≤ maximum numeric) × (is_empty numeric ≡ false)))
        names
    → All
        (λ s. s ≢ (
          if not (is_empty numeric)
          then zfill 2 (to_str (maximum numeric + 1))
          else if is_empty names
          then 48 ∷ 49 ∷ []
          else zfill 2 (to_str (length names + 1))))
        names
new_differs [] numeric h = tt
new_differs (s ∷ names) [] h = All-map (λ t. none_read t (length (s ∷ names) + 1)) (s ∷ names) h
  where
    none_read :
        (t : List ℕ) (n : ℕ)
        → (is_digits t ≡ false) ⊎ ((value_from 0 t ≤ 0) × (true ≡ false))
        → t ≢ zfill 2 (to_str n)
    none_read t n (inl other) = differs 2 n t (inl other)
    none_read t n (inr (_, absent)) = absurd (true-false true refl absent)
new_differs (s ∷ names) (n ∷ numeric) h = All-map (λ t. next t) (s ∷ names) h
  where
    next :
        (t : List ℕ)
        → (is_digits t ≡ false) ⊎ ((value_from 0 t ≤ maximum (n ∷ numeric)) × (false ≡ false))
        → t ≢ zfill 2 (to_str (maximum (n ∷ numeric) + 1))
    next t (inl other) = differs 2 (maximum (n ∷ numeric) + 1) t (inl other)
    next t (inr (upper, _)) =
        differs 2 (maximum (n ∷ numeric) + 1) t (inr (λ e. omega (arith, upper, e)))

returned_differs :
    (names : List (List ℕ)) (new : List ℕ)
    → next_revision_name names ≡ ok new
    → All (λ name. name ≢ new) names
unfolding next_revision_name
returned_differs names new h =
    let (numeric, read, done) = >>=-eq-ok (traverse to_int (filtered is_digits names)) _ h in
    let values =
      traverse-Forall₂ {P = λ _. Unit {0}} to_int (λ s n _ e. to_int-ok s n e)
        (filtered is_digits names) numeric (All-Unit (filtered is_digits names)) read in
    subst (λ chosen. All (λ name. name ≢ chosen) names) (ok-injective done)
      (new_differs names numeric
        (others _ names (values_upper (filtered is_digits names) numeric values)))

-- A name is readable unless `isdigit` accepts it and `int` does not.
abbrev pub is_readable : List ℕ → Bool
is_readable s = not (is_digits s) || all is_decimal s

traverse_readable :
    (names : List (List ℕ))
    → All (λ s. is_readable s ≡ true) names
    → (numeric : List ℕ) × (traverse to_int (filtered is_digits names) ≡ ok numeric)
unfolding to_int
traverse_readable [] h = ([], refl)
traverse_readable (s ∷ names) (here, there) =
    let (numeric, read) = traverse_readable names there in
    elim (Bool-cases (is_digits s)) [
      | inl digits ↦
          let decimal : all is_decimal s ≡ true = ground (arith, here, digits) in
          (value_from 0 s ∷ numeric, rw (digits, decimal, read))
      | inr other ↦ (numeric, rw other read)
    ]

-- Where `int` reads each name that `isdigit` accepts, `_next_revision_name` returns a name, and it is
-- that of no revision of the document.
pub next_revision_name_differs :
    (names : List (List ℕ))
    → All (λ s. is_readable s ≡ true) names
    → (new : List ℕ) × (next_revision_name names ≡ ok new) × All (λ name. name ≢ new) names
unfolding next_revision_name
next_revision_name_differs names h =
    let (numeric, read) = traverse_readable names h in
    let found = ap (λ (r : Result (List ℕ)). r >>= λ ns. ok (named ns)) read in
    (named numeric, found, returned_differs names (named numeric) found)
  where
    named : List ℕ → List ℕ
    named numeric =
        if not (is_empty numeric)
        then zfill 2 (to_str (maximum numeric + 1))
        else if is_empty names
        then 48 ∷ 49 ∷ []
        else zfill 2 (to_str (length names + 1))
