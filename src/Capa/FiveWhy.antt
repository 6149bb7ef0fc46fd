-- ===== src/Capa/FiveWhy.antt =====
-- What `_validate_root_cause_method` demands of the slots of a 5 Why analysis: it keeps the answers in
-- a dictionary, looks for the last answered slot and then for a gap below it.
use perfect_match_qms.Prelude.{
  ℕ, zero, suc, ◌≤◌, ◌<◌, ◌≡◌, refl, sym, ◌∙◌, subst, ◌==◌, leb, Bool, true, false, not, ◌&&◌, ◌||◌,
  none, some, List, [], ◌∷◌, if◌then◌else◌, length, all, arith, ◌↔◌,
}
use native.Mathlib.Decide.{ℕ_discrete}
use perfect_match_qms.Odoo.{ok, >>-eq-ok, raise_if, raise_if-eq-ok, is_filled, exists}
use perfect_match_qms.Capa.Types.{Why}
use perfect_match_qms.Capa.Structure.{contains, sequences, same_set, why_sequences}
use perfect_match_qms.Capa.Checks.{
  Answers, get, insert, answers_from, highest, is_true, has_gap, validate_five_why,
}

get-insert :
    (k j : ℕ) (v : Bool) (m : Answers) → get j (insert k v m) ≡ (if k == j then some v else get j m)
get-insert k j v [] = refl
get-insert k j v (e ∷ m) = ground (arith, get-insert k j v m)

-- The keys of the dictionary are those given and the sequences of the slots.
exists-get :
    (i : ℕ) (slots : List Why) (m : Answers)
    → exists (get i (answers_from m slots)) ≡ (exists (get i m) || contains i (sequences slots))
unfolding answers_from
exists-get i [] m = ground arith
exists-get i (w ∷ slots) m =
    rw (exists-get i slots (insert w.sequence (is_filled w.answer) m))
      (rw (get-insert w.sequence i (is_filled w.answer) m) (ground arith))

-- No key stands twice.
abbrev IsDistinct : Answers → Type 0
IsDistinct [] = Unit
IsDistinct ((k, v) ∷ m) = (get k m ≡ none) × IsDistinct m

insert-IsDistinct : (k : ℕ) (v : Bool) (m : Answers) → IsDistinct m → IsDistinct (insert k v m)
insert-IsDistinct k v [] d = (refl, tt)
insert-IsDistinct k v (e ∷ m) d = ground (arith, insert-IsDistinct k v m d.1, get-insert k e.0 v m)

answers_from-IsDistinct :
    (slots : List Why) (m : Answers) → IsDistinct m → IsDistinct (answers_from m slots)
unfolding answers_from
answers_from-IsDistinct [] m d = d
answers_from-IsDistinct (w ∷ slots) m d =
    answers_from-IsDistinct slots _ (insert-IsDistinct w.sequence (is_filled w.answer) m d)

le-highest : (i : ℕ) (m : Answers) → is_true (get i m) ≡ true → i ≤ highest m
unfolding highest
le-highest i [] h = cc
le-highest i (e ∷ m) h = ground (arith, le-highest i m)

get-highest : (m : Answers) → IsDistinct m → 0 < highest m → get (highest m) m ≡ some true
unfolding highest
get-highest [] d h = absurd (omega arith)
get-highest (e ∷ m) d h = ground (arith, get-highest m d.1)

gap_free : (m : Answers) (n i : ℕ) → has_gap m n ≡ false → 1 ≤ i → i ≤ n → is_true (get i m) ≡ true
unfolding has_gap
gap_free m zero i h lo hi = absurd (omega arith)
gap_free m (suc n) i h lo hi = elim (ℕ_discrete i (suc n)) [
  | yes e ↦ rw e (ground arith)
  | no lower ↦ gap_free m n i (ground arith) lo (omega arith)
]

has_gap-false :
    (m : Answers) (n : ℕ)
    → ((i : ℕ) → 1 ≤ i → i ≤ n → is_true (get i m) ≡ true)
    → has_gap m n ≡ false
unfolding has_gap
has_gap-false m zero h = refl
has_gap-false m (suc n) h =
    rw (h (suc n) (omega arith) (omega arith), has_gap-false m n (λ i lo hi. h i lo (omega arith)))

abbrev pub in_range : ℕ → Bool
in_range i = leb 1 i && leb i 5

contains-subset :
    (i : ℕ) (xs ys : List ℕ)
    → all (λ x. contains x ys) xs ≡ true
    → contains i xs ≡ true
    → contains i ys ≡ true
contains-subset i [] ys h c = cc
contains-subset i (x ∷ xs) ys h c = elim (ℕ_discrete x i) [
  | yes e ↦ subst (λ j. contains j ys ≡ true) e (ground arith)
  | no other ↦ contains-subset i xs ys (ground arith) (ground arith)
]

contains-why_sequences : (i : ℕ) → contains i why_sequences ≡ in_range i
contains-why_sequences i = ground arith

same_set_parts :
    (xs ys : List ℕ)
    → same_set xs ys ≡ true
    → (all (λ x. contains x ys) xs ≡ true) × (all (λ y. contains y xs) ys ≡ true)
same_set_parts xs ys h = ground arith

iff-eq : (a b : Bool) → (a ≡ true → b ≡ true) → (b ≡ true → a ≡ true) → a ≡ b
iff-eq a b f g = ground arith

-- The slots cover 1 to 5, so those are the keys.
covered :
    (slots : List Why) (i : ℕ)
    → same_set (sequences slots) why_sequences ≡ true
    → exists (get i (answers_from [] slots)) ≡ in_range i
covered slots i h =
    let (known, present) = same_set_parts (sequences slots) why_sequences h in
    rw (exists-get i slots []) (
      iff-eq _ _
        (λ c.
          sym (contains-why_sequences i)
          ∙ contains-subset i (sequences slots) why_sequences known c)
        (λ c.
          contains-subset i why_sequences (sequences slots) present (contains-why_sequences i ∙ c)))

-- The answers are those of the slots 1 to `k`, and the slots above `k` are blank.
abbrev pub AnsweredUpTo : ℕ → Answers → Type 0
AnsweredUpTo k m = (i : ℕ) → get i m ≡ (if in_range i then some (leb i k) else none)

answered_up_to :
    (m : Answers)
    → ((i : ℕ) → exists (get i m) ≡ in_range i)
    → is_true (get 1 m) ≡ true
    → has_gap m (highest m) ≡ false
    → (1 ≤ highest m) × (highest m ≤ 5) × AnsweredUpTo (highest m) m
answered_up_to m keys first no_gap =
    let positive = le-highest 1 m first in
    (
      positive,
      ground (arith, keys (highest m), gap_free m (highest m) (highest m) no_gap positive),
      λ i. ground (arith, keys i, le-highest i m, gap_free m (highest m) i no_gap),
    )

no_gap_of : (k : ℕ) (m : Answers) → IsDistinct m → AnsweredUpTo k m → has_gap m (highest m) ≡ false
no_gap_of k m distinct up_to =
    has_gap-false m (highest m)
      λ i lo hi. ground (arith, up_to i, up_to (highest m), get-highest m distinct)

-- The 5 Why check passes exactly when there are five slots, one for each of the sequences 1 to 5, and
-- the answered ones are those from 1 up to some last one.
pub validate_five_why_iff :
    (slots : List Why)
    → (validate_five_why slots ≡ ok tt) ↔ (
        (length slots ≡ 5)
        × (same_set (sequences slots) why_sequences ≡ true)
        × ((k : ℕ) × (1 ≤ k) × (k ≤ 5) × AnsweredUpTo k (answers_from [] slots)))
unfolding validate_five_why
validate_five_why_iff slots = (forwards, backwards)
  where
    m : Answers
    m = answers_from [] slots

    forwards :
        validate_five_why slots ≡ ok tt
        → (length slots ≡ 5)
          × (same_set (sequences slots) why_sequences ≡ true)
          × ((k : ℕ) × (1 ≤ k) × (k ≤ 5) × AnsweredUpTo k m)
    forwards h =
        let (shape, rest) =
          >>-eq-ok
            (raise_if (not (length slots == 5) || not (same_set (sequences slots) why_sequences)) _)
            _ h in
        let (first, gap) = >>-eq-ok (raise_if (not (is_true (get 1 m))) _) _ rest in
        let shape_ok = raise_if-eq-ok _ _ shape in
        let set_ok : same_set (sequences slots) why_sequences ≡ true = ground (arith, shape_ok) in
        let (lo, hi, up_to) =
          answered_up_to m (λ i. covered slots i set_ok) (ground (arith, raise_if-eq-ok _ _ first))
            (raise_if-eq-ok _ _ gap) in
        (ground (arith, shape_ok), set_ok, (highest m, lo, hi, up_to))

    backwards :
        (length slots ≡ 5)
          × (same_set (sequences slots) why_sequences ≡ true)
          × ((k : ℕ) × (1 ≤ k) × (k ≤ 5) × AnsweredUpTo k m)
        → validate_five_why slots ≡ ok tt
    backwards (five, set_ok, (k, lo, hi, up_to)) =
        ground (arith, up_to 1, no_gap_of k m (answers_from-IsDistinct slots [] tt) up_to)
