-- ===== src/Inputs/Memleak/Report.antt =====
-- internal/plugins/inputs/memleak/memleak.go: the second half of `checkForNewLeaks`, which picks the
-- leaks to report, sorts them and writes the logs. `sort.Slice` may order equal elements either way:
-- any sorter will do.
pub mod Quick
pub mod Top
pub mod Alarms
use mathlib.Core.List.{Perm}
use arbutus.Base.{
  ◌≡◌, ℕ, suc, ◌+◌, ◌*◌, ◌≤◌, Bool, true, false, not, ◌&&◌, ◌||◌, List, [], ◌∷◌, ◌++◌, map, Option,
  none, some, ltb, leb, length, take, All, if◌then◌else◌, Bytes, codes, join, format_uint, GoMap,
  lookup, insert,
}
use arbutus.Inputs.Memleak.Leaks.{AllocInfo, StackAllocs, LeakMap, group_allocs}
use arbutus.Inputs.Memleak.Symbols.{Kallsym, get_stack_trace}
use arbutus.Inputs.Memleak.{Memleak, LeakKey, key_eq}
use arbutus.Inputs.Wire.{attributes}
use arbutus.Models.{Log, Time, ℤ, pos, negsuc}

abbrev pub Previous : Type 0
Previous = GoMap LeakKey ℕ

-- The comparison that is handed to `sort.Slice`.
unfoldable pub comes_first : StackAllocs → StackAllocs → Bool
comes_first s t = ltb t.size s.size

-- What `sort.Slice` asks of a comparison, a strict weak ordering; and what it promises for one: no
-- element is less than an earlier one.
pub record IsWeakOrder (less : StackAllocs → StackAllocs → Bool) : Type 0 where
  pub asymmetric : (s t : StackAllocs) → less s t ≡ true → less t s ≡ false
  pub negative : (s t u : StackAllocs) → less s t ≡ false → less t u ≡ false → less s u ≡ false

abbrev pub IsSortedBy : (StackAllocs → StackAllocs → Bool) → List StackAllocs → Type 0
IsSortedBy less [] = Unit
IsSortedBy less (s ∷ ss) = All (λ t. less t s ≡ false) ss × IsSortedBy less ss

-- `sort.Slice`
pub record Sorter : Type 0 where
  pub sort : (StackAllocs → StackAllocs → Bool) → List StackAllocs → List StackAllocs
  pub sort_perm :
      (less : StackAllocs → StackAllocs → Bool) (ss : List StackAllocs) → Perm (sort less ss) ss
  pub sort_sorted :
      (less : StackAllocs → StackAllocs → Bool)
      → IsWeakOrder less
      → (ss : List StackAllocs) → IsSortedBy less (sort less ss)

-- The loop of the detailed report: all from the threshold on are reported, and all sizes are kept.
unfoldable pub pick_detailed : ℕ → LeakMap → Previous → List StackAllocs × Previous
pick_detailed threshold [] previous = ([], previous)
pick_detailed threshold ((key, current) ∷ leaks) previous =
    let (picked, after) = pick_detailed threshold leaks (insert key current.size previous) in
    (if leb threshold current.size then current ∷ picked else picked, after)

abbrev pub large : ℕ
large = 10 * 1024 * 1024

-- `!existed || current.Size > previous`
abbrev pub is_new : Option ℕ → StackAllocs → Bool
is_new none current = true
is_new (some previous) current = ltb previous current.size

abbrev pub alarming : LeakKey → StackAllocs → Previous → Bool
alarming key current previous = ltb large current.size && is_new (lookup key previous) current

-- The loop of the quick check: large leaks that are new or have grown.
unfoldable pub pick_quick : LeakMap → Previous → List StackAllocs × Previous
pick_quick [] previous = ([], previous)
pick_quick ((key, current) ∷ leaks) previous =
    let report = alarming key current previous in
    let (picked, after) =
      pick_quick leaks (if report then insert key current.size previous else previous) in
    (if report then current ∷ picked else picked, after)

-- The level and the first words of a message.
abbrev level_of : Bool → Bytes
level_of true = codes "warning"
level_of false = codes "critical"

abbrev words_of : Bool → Bytes
words_of true = codes "Memory leak in process '"
words_of false = codes "Large memory leak in process '"

message : Bool → StackAllocs → Bytes → Bytes
message detailed s trace =
    words_of detailed
    ++ (s.comm
        ++ (codes "' (PID "
            ++ (format_uint s.pid
                ++ (codes "): "
                    ++ (format_uint s.size
                        ++ (codes " bytes in "
                            ++ (format_uint s.count
                                ++ (codes " allocations\nStack: " ++ trace))))))))

-- What `checkForNewLeaks` reads from outside: the kernel symbols (which it loads
-- only where it traces the kernel), the stack traces map, its error
-- text, the clock at each report, and the host.
pub record Surroundings : Type 0 where
  pub syms : List Kallsym
  pub stack_of : ℤ → Option (List ℕ)
  pub lookup_error : ℤ → Bytes
  pub now : StackAllocs → Time
  pub hostname : Bytes

unfoldable pub leak_log : Surroundings → Bool → StackAllocs → Log
unfolding message
leak_log env detailed s =
    let trace = get_stack_trace env.syms (env.stack_of s.stack_id) (env.lookup_error s.stack_id) in
    record {
      time = env.now s;
      level = level_of detailed;
      message = message detailed s (join (codes " <- ") trace);
      attributes = attributes (codes "memleak") env.hostname;
    }

module _ (sorter : Sorter) where
  -- The sorted leaks that are written: the first ten of a detailed report, all of a quick check.
  abbrev pub reported : Bool → List StackAllocs → List StackAllocs
  reported true picked = take 10 (sorter.sort comes_first picked)
  reported false picked = sorter.sort comes_first picked

  abbrev pub pick : Bool → ℕ → LeakMap → Previous → List StackAllocs × Previous
  pick true threshold leaks previous = pick_detailed threshold leaks previous
  pick false threshold leaks previous = pick_quick leaks previous

  -- The state after it, the logs that it adds, and the error that it returns. The iterator over the
  -- allocations may fail; then nothing is reported or remembered.
  unfoldable pub check_for_new_leaks :
      Surroundings
      → List AllocInfo
      → Option Bytes
      → Bool
      → Memleak
      → Memleak × List Log × Option Bytes
  unfolding leak_log
  check_for_new_leaks env infos (some e) detailed m =
      (m, [], some (codes "iterating allocs: " ++ e))
  check_for_new_leaks env infos none detailed m =
      let (picked, after) =
        pick detailed m.min_leak_threshold (group_allocs infos) m.previous_stacks in
      let with_syms = record env { syms = if m.kernel_trace then env.syms else [] } in
      (
        record m { previous_stacks = after },
        map (leak_log with_syms detailed) (reported detailed picked),
        none,
      )
