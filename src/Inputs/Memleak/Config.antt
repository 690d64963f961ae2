-- ===== src/Inputs/Memleak/Config.antt =====
-- internal/plugins/inputs/memleak/memleak.go: `parseConfig`, and the intervals that `Run` reads. A key
-- counts only if its value has the dynamic type that the code asserts.
pub mod Decoded
pub mod Fields
use arbutus.Base.{
  ℕ, suc, ◌+◌, ◌-◌, ◌*◌, ◌%◌, ◌^◌, Bool, false, Option, none, some, Bytes, codes, GoMap, bytes_eq,
  lookup,
}
use arbutus.Inputs.Memleak.{Memleak}
use arbutus.Models.{Any, bool, int, int64, str, other, ℤ, pos, negsuc}

abbrev pub Config : Type 0
Config = GoMap Bytes Any

-- `v.(bool)`, `v.(int)`, `v.(string)` on a value that may be missing.
abbrev pub as_bool : Option Any → Option Bool
as_bool (some (bool b)) = some b
as_bool _ = none

abbrev pub as_int : Option Any → Option ℤ
as_int (some (int i)) = some i
as_int _ = none

abbrev pub as_string : Option Any → Option Bytes
as_string (some (str s)) = some s
as_string _ = none

-- `uint64(i)`
unfoldable pub uint64 : ℤ → ℕ
uint64 (pos n) = n % 2 ^ 64
uint64 (negsuc n) = 2 ^ 64 - 1 - n % 2 ^ 64

-- One `if` of `parseConfig`: set a field if the value is there.
abbrev pub assign : {V : Type 0} → Option V → (V → Memleak → Memleak) → Memleak → Memleak
assign none set m = m
assign (some v) set m = set v m

unfoldable pub parse_config : Memleak → Config → Memleak
unfolding uint64
parse_config m config =
    let bool_at = λ (key : Bytes). as_bool (lookup key config) in
    let int_at = λ (key : Bytes). as_int (lookup key config) in
    let string_at = λ (key : Bytes). as_string (lookup key config) in
    let m1 = assign (bool_at (codes "kernel_trace")) (λ b m. record m { kernel_trace = b }) m in
    let m2 = assign (int_at (codes "pid")) (λ i m. record m { pid = i; kernel_trace = false }) m1 in
    let m3 = assign (string_at (codes "object")) (λ s m. record m { object = s }) m2 in
    let m4 = assign (int_at (codes "min_size")) (λ i m. record m { min_size = uint64 i }) m3 in
    let m5 = assign (int_at (codes "max_size")) (λ i m. record m { max_size = uint64 i }) m4 in
    let m6 =
      assign (int_at (codes "sample_rate")) (λ i m. record m { sample_rate = uint64 i }) m5 in
    let m7 = assign (bool_at (codes "trace_all")) (λ b m. record m { trace_all = b }) m6 in
    let m8 = assign (int_at (codes "max_reports")) (λ i m. record m { max_reports = i }) m7 in
    assign (int_at (codes "min_leak_threshold")) (λ i m. record m { min_leak_threshold = uint64 i })
      m8

seconds_or : ℕ → Option ℤ → ℤ
seconds_or default none = pos default
seconds_or default (some d) = d

-- In seconds; `Run` multiplies by `time.Second`.
unfoldable pub quick_interval : Config → ℤ
unfolding seconds_or
quick_interval config = seconds_or 5 (as_int (lookup (codes "interval") config))

unfoldable pub detailed_interval : Config → ℤ
unfolding seconds_or
detailed_interval config = seconds_or 60 (as_int (lookup (codes "detailed_interval") config))
