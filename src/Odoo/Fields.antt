-- ===== src/Odoo/Fields.antt =====
-- Field values: Python's truth of a text or a reference, comparison of references, and blank text.
use Prim.Native.Char.{code}
use perfect_match_qms.Prelude.{
  ℕ, ◌≡◌, refl, ◌==◌, leb, Bool, true, false, not, ◌&&◌, ◌||◌, String, Option, none, some, arith,
  str_eq,
}

-- A `Char` or `Text` field is `False` or a string; `False` and the empty string are both false.
abbrev pub is_set : Option String → Bool
is_set none = false
is_set (some s) = not (str_eq s "")

abbrev pub exists {ℓ} : {A : Type ℓ} → Option A → Bool
exists none = false
exists (some a) = true

-- `!=` on the ids of two references, or of two dates.
abbrev pub same : Option ℕ → Option ℕ → Bool
same none none = true
same (some a) (some b) = a == b
same _ _ = false

-- Python's `str.isspace` for one character.
is_space : ℕ → Bool
is_space c =
    (leb 9 c && leb c 13)
    || (leb 28 c && leb c 32)
    || c == 133
    || c == 160
    || c == 5760
    || (leb 8192 c && leb c 8202)
    || c == 8232
    || c == 8233
    || c == 8239
    || c == 8287
    || c == 12288

-- `bool(text.strip())`: some character is no space.
unfoldable pub has_content : String → Bool
unfolding is_space
has_content String.[] = false
has_content (String.◌∷◌ c s) = not (is_space (code c)) || has_content s

-- `bool((text or "").strip())`
abbrev pub is_filled : Option String → Bool
is_filled none = false
is_filled (some s) = has_content s

-- A record of another model, as far as the alignment checks read it.
pub record Linked : Type 0 where
  pub id : ℕ
  pub company_id : Option ℕ
  pub organization_id : Option ℕ

abbrev pub id_of : Option Linked → Option ℕ
id_of none = none
id_of (some r) = some r.id

pub same-eq : (a b : Option ℕ) → same a b ≡ true → a ≡ b
same-eq none none h = refl
same-eq none (some b) h = cc
same-eq (some a) none h = cc
same-eq (some a) (some b) h = ground arith

pub same_refl : (a : Option ℕ) → same a a ≡ true
same_refl none = refl
same_refl (some a) = ground arith
