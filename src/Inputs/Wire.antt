-- ===== src/Inputs/Wire.antt =====
-- What the three tracing plugins share: `cstring`, which each declares in the same words, and
-- `binary.Read` of little-endian structs. `binary.Read` fails on a short sample and leaves what
-- follows the struct.
pub mod Laws
use arbutus.Base.{
  ℕ, zero, suc, ◌+◌, ◌-◌, ◌*◌, ◌/◌, ◌%◌, ◌≡◌, refl, List, [], ◌∷◌, ◌++◌, Option, none, some, Bytes,
  take, drop, codes, ◌==◌, if◌then◌else◌,
}
use arbutus.Models.{Any, str}

-- `bytes.IndexByte`
unfoldable pub index_byte : Bytes → ℕ → Option ℕ
index_byte [] c = none
index_byte (x ∷ b) c =
    if x == c then some 0 else elim (index_byte b c) [ none ↦ none | some i ↦ some (suc i) ]

unfoldable pub cstring : Bytes → Bytes
unfolding index_byte
cstring b = elim (index_byte b 0) [ none ↦ b | some n ↦ take n b ]

-- An unsigned number, lowest byte first.
unfoldable pub little_endian : Bytes → ℕ
little_endian [] = 0
little_endian (x ∷ b) = x + 256 * little_endian b

-- The field of this size at this offset.
unfoldable pub field : ℕ → ℕ → Bytes → Bytes
field offset size sample = take size (drop offset sample)

-- `hostname, err := os.Hostname(); if err != nil { hostname = "unknown" }`
unfoldable pub hostname_or_unknown : Option Bytes → Bytes
hostname_or_unknown none = codes "unknown"
hostname_or_unknown (some name) = name

-- The attributes of a log of the plugin `input`.
abbrev pub attributes : Bytes → Bytes → List (Bytes × Any)
attributes input hostname = (codes "input", str input) ∷ (codes "hostname", str hostname) ∷ []
