-- ===== src/Base/Text.antt =====
-- Texts of the source as lists of bytes.
use Prim.Native.Nat.{ℕ, ◌+◌, ◌/◌, ◌%◌}
use Prim.Native.Char.{code}
use Prim.Native.String.{String}
use mathlib.Core.List.{List, [], ◌∷◌}
use proxygo.Base.Tests.{ltb, if◌then◌else◌}

-- The bytes of an ASCII literal.
abbrev pub codes : String → List ℕ
codes String.[] = []
codes (String.◌∷◌ c s) = code c ∷ codes s

-- A lower-case hexadecimal digit, and the two of a byte, as fmt's `%x` writes them.
abbrev pub hex_digit : ℕ → ℕ
hex_digit d = if ltb d 10 then 48 + d else 87 + d

abbrev pub hex_byte : ℕ → List ℕ → List ℕ
hex_byte b rest = hex_digit (b / 16) ∷ hex_digit (b % 16) ∷ rest
