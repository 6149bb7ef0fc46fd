-- ===== src/Migration/Snapshots.antt =====
-- What the snapshots take from Python: `json.dumps` with sorted keys, `json.loads` and the hexadecimal
-- SHA-256 of a text's bytes. All are parameters; only that they are functions matters.
use perfect_match_qms.Prelude.{Bool, ℕ, ℤ, pos, String, Option, none, some, List}

-- A value that a snapshot holds. `false_value` is an empty field of Odoo.
pub data Scalar : Type 0 where
  false_value : Scalar
  text : String → Scalar
  integer : ℤ → Scalar
  boolean : Bool → Scalar

pub data Json : Type 0 where
  scalar : Scalar → Json
  objects : List (List (String × Scalar)) → Json

abbrev pub text_of : String → Json
text_of s = scalar (text s)

abbrev pub id_of : ℕ → Json
id_of n = scalar (integer (pos n))

abbrev pub count_of : ℤ → Json
count_of n = scalar (integer n)

-- A `Char` or `Text` field that may be empty, and `field or ""`.
abbrev pub maybe_text : Option String → Json
maybe_text none = scalar false_value
maybe_text (some s) = text_of s

abbrev pub text_or_blank : Option String → Json
text_or_blank none = text_of ""
text_or_blank (some s) = text_of s

pub record Codec : Type 0 where
  pub dumps : List (String × Json) → String
  -- A text that is no JSON object gives none.
  pub loads : String → Option (List (String × Json))
  pub sha256 : String → String
