-- ===== src/Base/Text.antt =====
-- A Go string is the list of its bytes. `strconv` and the verbs `%d` and `%x` print numbers by
-- dividing off digits; the fuel is the number itself, which is at least its count of digits less one.
use Prim.Native.Char.{code}
use Prim.Native.Nat.{ℕ, zero, suc, ◌+◌, ◌-◌, ◌/◌, ◌%◌}
use Prim.Native.String.{String}
use mathlib.Core.Bool.{Bool, true, false, ◌&&◌}
use mathlib.Core.List.{List, [], ◌∷◌, ◌++◌}
use mathlib.Core.Logic.{◌↔◌}
use mathlib.Core.Path.{◌≡◌, refl}
use native.Mathlib.Omega.{arith}
use arbutus.Base.Tests.{ltb, ◌==◌, if◌then◌else◌}

abbrev pub Bytes : Type 0
Bytes = List ℕ

-- The code points of a literal: its bytes, if it is ASCII.
abbrev pub codes : String → Bytes
codes String.[] = []
codes (String.◌∷◌ c s) = code c ∷ codes s

abbrev pub beq_bytes : Bytes → Bytes → Bool
beq_bytes [] [] = true
beq_bytes (x ∷ xs) (y ∷ ys) = x == y && beq_bytes xs ys
beq_bytes _ _ = false

pub beq_bytes_iff : (a b : Bytes) → (beq_bytes a b ≡ true) ↔ (a ≡ b)
beq_bytes_iff (x ∷ a) (y ∷ b) = ground (arith, beq_bytes_iff a b)
beq_bytes_iff _ _ = ground arith

pub beq_bytes_refl : (a : Bytes) → beq_bytes a a ≡ true
beq_bytes_refl a = (beq_bytes_iff a a).1 refl

-- `strings.Join`.
abbrev pub join : Bytes → List Bytes → Bytes
join sep [] = []
join sep (s ∷ []) = s
join sep (s ∷ t ∷ ss) = s ++ (sep ++ join sep (t ∷ ss))

digit : ℕ → ℕ
digit d = if ltb d 10 then b'0' + d else b'a' + (d - 10)

digits_onto : ℕ → ℕ → ℕ → Bytes → Bytes
digits_onto base zero n out = digit n ∷ out
digits_onto base (suc fuel) n out =
    let rest = digits_onto base fuel (n / base) (digit (n % base) ∷ out) in
    if ltb n base then digit n ∷ out else rest

unfoldable pub format_uint : ℕ → Bytes
unfolding digits_onto digit
format_uint n = digits_onto 10 n n []

unfoldable pub format_hex : ℕ → Bytes
unfolding digits_onto digit
format_hex n = digits_onto 16 n n []
