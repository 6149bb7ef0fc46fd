-- ===== src/Prelude/Texts.antt =====
-- Python's `<` on texts, by code points, and its laws.
use Prim.Native.String.{String}
use Prim.Native.Char.{code}
use mathlib.Core.Path.{◌≡◌, refl}
use mathlib.Core.Bool.{Bool, true, false, ◌&&◌, ◌||◌}
use native.Mathlib.Omega.{arith}
use text.Mathlib.TextEquality.{codes_equal}
use perfect_match_qms.Prelude.Tests.{ltb, ◌==◌}

abbrev pub str_ltb : String → String → Bool
str_ltb String.[] String.[] = false
str_ltb String.[] (String.◌∷◌ d t) = true
str_ltb (String.◌∷◌ c s) String.[] = false
str_ltb (String.◌∷◌ c s) (String.◌∷◌ d t) =
    ltb (code c) (code d) || (code c == code d && str_ltb s t)

pub str_ltb_trans : (r s t : String) → str_ltb r s ≡ true → str_ltb s t ≡ true → str_ltb r t ≡ true
str_ltb_trans String.[] String.[] t h k = cc
str_ltb_trans r (String.◌∷◌ d s) String.[] h k = cc
str_ltb_trans String.[] (String.◌∷◌ d s) (String.◌∷◌ e t) h k = refl
str_ltb_trans (String.◌∷◌ c r) String.[] t h k = cc
str_ltb_trans (String.◌∷◌ c r) (String.◌∷◌ d s) (String.◌∷◌ e t) h k =
    ground (arith, str_ltb_trans r s t)

pub str_ltb_connected : (s t : String) → str_ltb s t ≡ false → str_ltb t s ≡ false → s ≡ t
str_ltb_connected String.[] String.[] h k = refl
str_ltb_connected String.[] (String.◌∷◌ d t) h k = cc
str_ltb_connected (String.◌∷◌ c s) String.[] h k = cc
str_ltb_connected (String.◌∷◌ c s) (String.◌∷◌ d t) h k =
    let rest : s ≡ t = ground (arith, str_ltb_connected s t) in
    let first : c ≡ d = ground (arith, codes_equal c d) in λ i. String.◌∷◌ (first i) (rest i)

pub str_ltb_irrefl : (s : String) → str_ltb s s ≡ false
str_ltb_irrefl String.[] = refl
str_ltb_irrefl (String.◌∷◌ c s) = ground (arith, str_ltb_irrefl s)
