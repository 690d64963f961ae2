-- ===== src/Inputs/Memleak/Symbols/Closest.antt =====
-- `findSymbol` against what it should find.
use arbutus.Base.{
  ℕ, ◌-◌, ◌≤◌, ◌<◌, ◌≡◌, refl, ap, ◌∙◌, ◌≢◌, ◌⊎◌, inl, inr, ◌&&◌, List, [], ◌∷◌, ◌++◌, arith, All,
  ltb, leb, Bytes, codes, format_hex, Bool-cases,
}
use arbutus.Inputs.Memleak.Symbols.{Kallsym, closest, find_symbol, name_symbol}

-- The symbol is in the table.
abbrev pub Listed : Kallsym → List Kallsym → Type 0
Listed sym [] = ⊥
Listed sym (s ∷ syms) = (s ≡ sym) ⊎ Listed sym syms

-- No symbol of the table lies above `low` and at or below `addr`.
abbrev pub Clear : ℕ → ℕ → List Kallsym → Type 0
Clear low addr = All (λ s. s.addr ≤ addr → s.addr ≤ low)

-- The symbol with the highest address of those at or below `addr`, 0 excluded.
pub record IsClosest (sym : Kallsym) (syms : List Kallsym) (addr : ℕ) : Type 0 where
  pub listed : Listed sym syms
  pub below : sym.addr ≤ addr
  pub positive : 0 < sym.addr
  pub clear : Clear sym.addr addr syms

-- The loop keeps its start, or ends at a symbol of the list that is higher.
abbrev Found : List Kallsym → ℕ → Bytes × ℕ → Bytes × ℕ → Type 0
Found syms addr best r =
    ((r ≡ best) × Clear best.1 addr syms)
    ⊎ ((sym : Kallsym) × (r ≡ (sym.name, sym.addr))
        × Listed sym syms
        × (sym.addr ≤ addr)
        × (best.1 < sym.addr)
        × Clear sym.addr addr syms)

closest-Found :
    (syms : List Kallsym) (addr : ℕ) (best : Bytes × ℕ)
    → Found syms addr best (closest syms addr best)
unfolding closest
closest-Found [] addr best = inl (refl, tt)
closest-Found (s ∷ syms) addr best = elim (Bool-cases (leb s.addr addr && ltb best.1 s.addr)) [
  | inl better ↦ rw better (elim (closest-Found syms addr (s.name, s.addr)) [
    | inl (e, c) ↦ inr (s, e, inl refl, ground arith, ground arith, ((λ _. omega arith), c))
    | inr (t, e, l, b, h, c) ↦ inr (t, e, inr l, b, ground arith, ((λ _. ground arith), c))
  ])
  | inr worse ↦ rw worse (elim (closest-Found syms addr best) [
    | inl (e, c) ↦ inl (e, ((λ le. ground arith), c))
    | inr (t, e, l, b, h, c) ↦ inr (t, e, inr l, b, h, ((λ le. ground arith), c))
  ])
]

name-ne-nil :
    (sym : Kallsym) (syms : List Kallsym)
    → All (λ s. s.name ≢ []) syms
    → Listed sym syms
    → sym.name ≢ []
name-ne-nil sym [] h l = absurd l
name-ne-nil sym (s ∷ syms) (h, hs) (inl e) = rw (← e) h
name-ne-nil sym (s ∷ syms) (h, hs) (inr l) = name-ne-nil sym syms hs l

name_symbol-name :
    (name : Bytes) (low addr : ℕ)
    → name ≢ []
    → name_symbol (name, low) addr ≡ name ++ (codes "+0x" ++ format_hex (addr - low))
unfolding name_symbol
name_symbol-name [] low addr h = absurd (h refl)
name_symbol-name (c ∷ cs) low addr h = refl

-- With no empty name in the table: `findSymbol` prints the symbol with the highest address at or
-- below `addr`, in whatever order the table is, and the offset of `addr` from it; and it prints the
-- bare address just where no symbol but those at address 0 lies at or below `addr`.
pub find_symbol-IsClosest :
    (syms : List Kallsym) (addr : ℕ)
    → All (λ s. s.name ≢ []) syms
    → (Clear 0 addr syms × (find_symbol syms addr ≡ codes "0x" ++ format_hex addr))
      ⊎ ((sym : Kallsym) × IsClosest sym syms addr
          × (find_symbol syms addr ≡ sym.name ++ (codes "+0x" ++ format_hex (addr - sym.addr))))
unfolding find_symbol
find_symbol-IsClosest syms addr named = elim (closest-Found syms addr ([], 0)) [
  | inl (e, c) ↦ inl (c, rw (e, name_symbol))
  | inr (sym, e, l, b, h, c) ↦ inr (
    sym,
    record { listed = l; below = b; positive = h; clear = c },
    ap (λ r. name_symbol r addr) e
        ∙ name_symbol-name sym.name sym.addr addr (name-ne-nil sym syms named l),
  )
]
