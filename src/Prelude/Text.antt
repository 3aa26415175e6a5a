-- ===== src/Prelude/Text.antt =====
-- Texts of the sources as lists of their characters' codes.
use Prim.Native.Nat.{ℕ}
use Prim.Native.Char.{code}
use Prim.Native.String.{String}
use mathlib.Core.List.{List, [], ◌∷◌}

-- The UTF-16 units of a text without characters beyond 0xffff; its UTF-8 bytes, if it is ASCII.
abbrev pub codes : String → List ℕ
codes String.[] = []
codes (String.◌∷◌ c s) = code c ∷ codes s
