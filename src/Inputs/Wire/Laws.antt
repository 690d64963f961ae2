-- ===== src/Inputs/Wire/Laws.antt =====
-- `cstring` and the little-endian numbers, against the bytes that the kernel side writes.
use arbutus.Base.{
  ℕ, ◌/◌, ◌%◌, ◌^◌, ◌<◌, ◌≡◌, refl, ◌≢◌, [], ◌∷◌, ◌++◌, none, some, Bytes, All, ◌==◌, arith, length,
  take-length-append, drop-length-append, Bool-cases, if◌then◌else◌, inl, inr,
}
use arbutus.Inputs.Wire.{index_byte, cstring, little_endian, field}

-- No byte is zero.
abbrev pub IsText : Bytes → Type 0
IsText = All (λ x. x ≢ 0)

index_byte-nul : (s rest : Bytes) → IsText s → index_byte (s ++ 0 ∷ rest) 0 ≡ some (length s)
unfolding index_byte
index_byte-nul [] rest h = refl
index_byte-nul (x ∷ s) rest h = ground (arith, index_byte-nul s rest h.1)

index_byte-none : (s : Bytes) → IsText s → index_byte s 0 ≡ none
unfolding index_byte
index_byte-none [] h = refl
index_byte-none (x ∷ s) h = ground (arith, index_byte-none s h.1)

-- A text that fills its array, with no room for the closing zero.
pub cstring_full : (s : Bytes) → IsText s → cstring s ≡ s
unfolding cstring
cstring_full s h = rw (index_byte-none s h, cstring)

-- A text and the zero that closes it, whatever bytes are behind.
pub cstring_closed : (s rest : Bytes) → IsText s → cstring (s ++ 0 ∷ rest) ≡ s
unfolding cstring
cstring_closed s rest h = rw (index_byte-nul s rest h, cstring) (take-length-append s (0 ∷ rest))

cstring-cons : (x : ℕ) (b : Bytes) → cstring (x ∷ b) ≡ (if x == 0 then [] else x ∷ cstring b)
unfolding cstring index_byte
cstring-cons x b = ground (arith)

-- What `cstring` returns holds no zero byte.
pub cstring-IsText : (b : Bytes) → IsText (cstring b)
unfolding cstring index_byte
cstring-IsText [] = tt
cstring-IsText (x ∷ b) = elim (Bool-cases (x == 0)) [
  | inl q ↦ rw (cstring-cons x b, q) tt
  | inr q ↦ rw (cstring-cons x b, q) ((λ e. ground arith), cstring-IsText b)
]

-- A uint32 in memory.
abbrev pub u32 : ℕ → Bytes
u32 n = n % 256 ∷ n / 256 % 256 ∷ n / 65536 % 256 ∷ n / 16777216 % 256 ∷ []

pub little_endian-u32 : (n : ℕ) → n < 2 ^ 32 → little_endian (u32 n) ≡ n
unfolding little_endian
little_endian-u32 n h = omega arith

-- The bytes between a prefix and what follows.
pub field-append :
    (pre part rest : Bytes) (offset size : ℕ)
    → length pre ≡ offset
    → length part ≡ size
    → field offset size (pre ++ (part ++ rest)) ≡ part
unfolding field
field-append pre part rest offset size p q =
    rw (← p, ← q, drop-length-append pre (part ++ rest)) (take-length-append part rest)
