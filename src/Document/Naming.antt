-- ===== src/Document/Naming.antt =====
-- `_next_revision_name` of models/document.py, over names of Latin-1 characters that are shorter than
-- the 4300 digits at which Python's `int` and `str` raise.
use perfect_match_qms.Prelude.{
  ℕ, zero, suc, ◌+◌, ◌-◌, ◌*◌, ◌/◌, ◌%◌, leb, ltb, ◌==◌, Bool, not, ◌&&◌, ◌||◌, List, [], ◌∷◌, ◌++◌,
  all, filtered, length, replicate, is_empty, if◌then◌else◌,
}
use perfect_match_qms.Odoo.{value_error, Result, ok, ◌>>=◌, raise_if, ◌>>◌, traverse}

-- `str.isdecimal` of one character.
abbrev pub is_decimal : ℕ → Bool
is_decimal c = leb 48 c && leb c 57

-- `str.isdigit` of one character: the superscripts ¹, ² and ³ are digits too.
unfoldable pub is_digit : ℕ → Bool
is_digit c = is_decimal c || c == 178 || c == 179 || c == 185

-- `value.isdigit()`
abbrev pub is_digits : List ℕ → Bool
is_digits s = not (is_empty s) && all is_digit s

abbrev pub value_from : ℕ → List ℕ → ℕ
value_from n [] = n
value_from n (c ∷ s) = value_from (n * 10 + (c - 48)) s

-- `int(value)` of a text of digits: a superscript has no decimal value.
unfoldable pub to_int : List ℕ → Result ℕ
to_int s =
    raise_if (not (all is_decimal s)) (value_error "invalid literal for int() with base 10")
    >> ok (value_from 0 s)

-- `str(n)`, for `n` below `fuel`.
abbrev pub digits_on : (fuel n : ℕ) → List ℕ
digits_on zero n = []
digits_on (suc fuel) n =
    let rest = digits_on fuel (n / 10) in
    if ltb n 10 then (48 + n) ∷ [] else rest ++ ((48 + n % 10) ∷ [])

unfoldable pub to_str : ℕ → List ℕ
to_str n = digits_on (suc n) n

-- `s.zfill(width)` of a text without a sign, and `f"{n:02d}"` of a natural number as `zfill 2`.
unfoldable pub zfill : ℕ → List ℕ → List ℕ
zfill width s = replicate (width - length s) 48 ++ s

abbrev pub maximum : List ℕ → ℕ
maximum [] = 0
maximum (n ∷ ns) = let m = maximum ns in if leb m n then n else m

-- `_next_revision_name`, of the names of the document's revisions.
unfoldable pub next_revision_name : List (List ℕ) → Result (List ℕ)
unfolding is_digit to_int to_str zfill
next_revision_name revisions = do
  numeric ← traverse to_int (filtered is_digits revisions)
  ok (
      if not (is_empty numeric)
      then zfill 2 (to_str (maximum numeric + 1))
      else if is_empty revisions
      then 48 ∷ 49 ∷ []
      else zfill 2 (to_str (length revisions + 1)))
