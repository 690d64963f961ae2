-- ===== src/Inputs/Memleak/Symbols.antt =====
-- internal/plugins/inputs/memleak/memleak.go: `loadKallsyms`, `findSymbol`, `getStackTrace`. The lines
-- of /proc/kallsyms and the stack traces map are arguments; `fields` is `strings.Fields`, and
-- `parse_hex` is `strconv.ParseUint(s, 16, 64)`.
pub mod Closest
use arbutus.Base.{
  ℕ, suc, ◌-◌, ◌≡◌, Bool, ◌&&◌, List, [], ◌∷◌, ◌++◌, Option, none, some, ltb, leb, ◌==◌,
  if◌then◌else◌, ◌⊎◌, inl, inr, Bytes, codes, format_hex, get_elem?,
}

pub record Kallsym : Type 0 where
  pub addr : ℕ
  pub name : Bytes

module _ (fields : Bytes → List Bytes) (parse_hex : Bytes → Option ℕ) where
  parse_symbol : List Bytes → Option Kallsym
  parse_symbol (a ∷ kind ∷ name ∷ rest) = elim (parse_hex a) [
    | none ↦ none
    | some addr ↦ some (record { addr = addr; name = name })
  ]
  parse_symbol _ = none

  -- A line with fewer than three fields, or a bad address, is skipped.
  unfoldable pub scan_symbols : List Bytes → List Kallsym
  unfolding parse_symbol
  scan_symbols [] = []
  scan_symbols (line ∷ lines) =
      let rest = scan_symbols lines in
      elim (parse_symbol (fields line)) [ none ↦ rest | some sym ↦ sym ∷ rest ]

  -- The lines that the scanner gives before its end or its error, or the error of `os.Open`; the symbols
  -- and the error, of which the caller only logs the latter.
  unfoldable pub load_kallsyms : Bytes ⊎ (List Bytes × Option Bytes) → List Kallsym × Option Bytes
  unfolding scan_symbols
  load_kallsyms (inl e) = ([], some e)
  load_kallsyms (inr (lines, error)) = (scan_symbols lines, error)

-- The loop of `findSymbol`, with the best name and address so far.
unfoldable pub closest : List Kallsym → ℕ → Bytes × ℕ → Bytes × ℕ
closest [] addr best = best
closest (sym ∷ syms) addr best =
    closest syms addr
      (if leb sym.addr addr && ltb best.1 sym.addr then (sym.name, sym.addr) else best)

name_symbol : Bytes × ℕ → ℕ → Bytes
name_symbol ([], best_addr) addr = codes "0x" ++ format_hex addr
name_symbol (c ∷ cs, best_addr) addr = (c ∷ cs) ++ (codes "+0x" ++ format_hex (addr - best_addr))

unfoldable pub find_symbol : List Kallsym → ℕ → Bytes
unfolding closest name_symbol
find_symbol syms addr = name_symbol (closest syms addr ([], 0)) addr

-- The addresses up to the first 0.
symbolize : List Kallsym → List ℕ → List Bytes
symbolize syms [] = []
symbolize syms (a ∷ stack) = if a == 0 then [] else find_symbol syms a ∷ symbolize syms stack

-- The lookup gives the 127 addresses of the stack, or an error.
unfoldable pub get_stack_trace : List Kallsym → Option (List ℕ) → Bytes → List Bytes
unfolding symbolize
get_stack_trace syms none error = (codes "[failed to lookup stack: " ++ (error ++ codes "]")) ∷ []
get_stack_trace syms (some stack) error = symbolize syms stack
