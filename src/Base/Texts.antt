-- ===== src/Base/Texts.antt =====
-- Texts that the program only compares (identifiers, kinds, states) are the native `String`.
use Prim.Native.String.{String}
use mathlib.Core.Path.{◌≡◌, refl}
use mathlib.Core.Bool.{Bool, true}
use mathlib.Core.Logic.{◌↔◌}
use text.Mathlib.Text.{◌==◌ as equal}
use text.Mathlib.TextEquality.{eq_iff}

abbrev pub str_eq : String → String → Bool
str_eq = equal

pub str_eq_iff : (a b : String) → (str_eq a b ≡ true) ↔ (a ≡ b)
str_eq_iff = eq_iff

pub str_eq_refl : (s : String) → str_eq s s ≡ true
str_eq_refl s = (str_eq_iff s s).1 refl
