-- ===== src/Base/Text.antt =====
-- C strings as lists of bytes, without their final zero.
use Prim.Native.Nat.{ℕ}
use Prim.Native.Char.{code}
use Prim.Native.String.{String}
use mathlib.Core.Bool.{Bool, true, false, ◌&&◌}
use mathlib.Core.List.{List, [], ◌∷◌}
use v6502c.Base.Tests.{◌==◌, if◌then◌else◌}

abbrev pub Bytes : Type 0
Bytes = List ℕ

-- The bytes of an ASCII literal.
abbrev pub codes : String → Bytes
codes String.[] = []
codes (String.◌∷◌ c s) = code c ∷ codes s

-- `!strcmp(s, t)`
abbrev pub str_eq : Bytes → Bytes → Bool
str_eq [] [] = true
str_eq [] (d ∷ t) = false
str_eq (c ∷ s) [] = false
str_eq (c ∷ s) (d ∷ t) = c == d && str_eq s t

-- The C string at the front of a buffer: what stands before the first zero.
abbrev pub until_zero : Bytes → Bytes
until_zero [] = []
until_zero (c ∷ cs) = if c == 0 then [] else c ∷ until_zero cs

-- `s[0]` and `s[strlen(s) - 1]`. An empty string has its final zero for its first byte.
abbrev pub first_of : Bytes → ℕ
first_of [] = 0
first_of (c ∷ cs) = c

abbrev pub last_of : Bytes → ℕ
last_of [] = 0
last_of (c ∷ []) = c
last_of (c ∷ d ∷ cs) = last_of (d ∷ cs)

-- `s + 1`
abbrev pub behind : Bytes → Bytes
behind [] = []
behind (c ∷ cs) = cs
