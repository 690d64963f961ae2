-- ===== src/Inputs/Memleak/Tests.antt =====
-- Allocations of two processes, with a stack of each that matters.
pub mod Insertion
mod Tracing
use mathlib.Core.List.{Perm}
use arbutus.Base.{
  ℕ, zero, suc, ◌+◌, ◌*◌, ◌-◌, ◌≤◌, ◌<◌, ◌≡◌, ◌≢◌, ◌⊎◌, refl, inl, inr, Bool, true, false, List, [],
  ◌∷◌, ◌++◌, map, Option, none, some, filter, leb, All, arith, Bytes, codes, GoMap, lookup, IsMap,
  Bool-cases, format_hex, if◌then◌else◌,
}
use arbutus.Inputs.Memleak.Config.Decoded.{IsDecoded, KeepsNumbers, parse_config-IsDecoded}
use arbutus.Inputs.Memleak.Config.{parse_config, quick_interval, detailed_interval}
use arbutus.Inputs.Memleak.Leaks.Totals.{of_key, summary, group_allocs-lookup}
use arbutus.Inputs.Memleak.Leaks.{
  AllocInfo, StackAllocs, LeakMap, group_allocs, group_from, group_at,
}
use arbutus.Inputs.Memleak.Loop.Bound.{detailed_ticks, detailed_logs, run_max_reports, run-returned}
use arbutus.Inputs.Memleak.Loop.{Event, detailed_tick, report_tick, Sight, waiting, run}
use arbutus.Inputs.Memleak.Report.Quick.{NoNews, check_again, values_where, pick_quick-values}
use arbutus.Inputs.Memleak.Report.Alarms.{is_alarm, remembered, check_quick-values}
use arbutus.Inputs.Memleak.Report.Top.{IsTop, IsDescending, values, check_detailed-IsTop}
use arbutus.Inputs.Memleak.Report.{
  Surroundings, alarming, check_for_new_leaks, leak_log, pick_quick,
}
use arbutus.Inputs.Memleak.Symbols.Closest.{Clear, IsClosest, find_symbol-IsClosest}
use arbutus.Inputs.Memleak.Symbols.{Kallsym, find_symbol}
use arbutus.Inputs.Memleak.{Memleak, LeakKey, key_eq, beq_key, new_memleak}
use arbutus.Models.{ℤ, pos, negsuc, Any, bool, int64, str}
use Insertion.{insertion}

abbrev alloc : ℕ → ℤ → ℕ → AllocInfo
alloc pid stack_id size = record {
  size = size;
  timestamp_ns = 0;
  stack_id = stack_id;
  pid = pid;
  comm = codes "app" ++ 0 ∷ [];
}

-- One stack has 12 MB in two allocations, one has a megabyte; the third allocation has no stack.
abbrev allocs : List AllocInfo
allocs =
    alloc 7 (pos 1) 6000000
    ∷ alloc 9 (pos 2) 1048576
    ∷ alloc 7 (negsuc 13) 99000000
    ∷ alloc 7 (pos 1) 6000000
    ∷ []

abbrev app_key : LeakKey
app_key = record { pid = 7; stack_id = pos 1 }

abbrev env : Surroundings
env = record {
  syms = record { addr = 4096; name = codes "start" } ∷ [];
  stack_of = λ id. some (4100 ∷ 0 ∷ []);
  lookup_error = λ id. codes "no such key";
  now = λ s. pos 1;
  hostname = codes "host";
}

group_allocs-lookup_example : lookup app_key (group_allocs allocs) ≡ summary (of_key app_key allocs)
group_allocs-lookup_example = group_allocs-lookup app_key allocs

check_detailed-IsTop_example :
    let leaks = filter (λ s. leb 1048576 s.size) (values (group_allocs allocs)) in
    (shown : List StackAllocs) × IsTop 10 leaks shown
    × ((check_for_new_leaks insertion env allocs none true new_memleak).1
        ≡ map (leak_log env true) shown)
check_detailed-IsTop_example = check_detailed-IsTop insertion env allocs new_memleak

-- Between the checks the stack of the second process is freed.
abbrev fewer : List AllocInfo
fewer = alloc 7 (pos 1) 6000000 ∷ alloc 7 (pos 1) 6000000 ∷ []

abbrev app_stack : StackAllocs
app_stack = record { stack_id = pos 1; size = 12000000; count = 2; pid = 7; comm = codes "app" }

abbrev other_stack : StackAllocs
other_stack = record { stack_id = pos 2; size = 1048576; count = 1; pid = 9; comm = codes "app" }

abbrev other_key : LeakKey
other_key = record { pid = 9; stack_id = pos 2 }

grouped : group_allocs allocs ≡ (app_key, app_stack) ∷ (other_key, other_stack) ∷ []
unfolding group_allocs group_from group_at
grouped = refl

grouped_fewer : group_allocs fewer ≡ (app_key, app_stack) ∷ []
unfolding group_allocs group_from group_at
grouped_fewer = refl

no_news : NoNews (group_allocs allocs) (group_allocs fewer)
no_news key current h = elim (Bool-cases (beq_key app_key key)) [
  | inl q ↦ (app_stack, ground (arith, grouped, q), ground (arith, grouped_fewer, q))
  | inr q ↦ absurd (ground (arith, grouped_fewer, q))
]

check_again_example :
    let m' = (check_for_new_leaks insertion env allocs none false new_memleak).0 in
    check_for_new_leaks insertion env fewer none false m' ≡ (m', [], none)
check_again_example = check_again insertion env env allocs fewer new_memleak no_news

check_quick-values_example :
    let leaks = group_allocs allocs in
    let checked = check_for_new_leaks insertion env allocs none false new_memleak in
    ((shown : List StackAllocs) × Perm shown (values_where (λ k c. is_alarm k c []) leaks)
      × IsDescending shown
      × (checked.1 ≡ map (leak_log env false) shown))
    × ((key : LeakKey)
        → lookup key checked.0.previous_stacks ≡ remembered key (lookup key leaks) [])
check_quick-values_example = check_quick-values insertion env allocs new_memleak

abbrev limited : Memleak
limited = record new_memleak { running = true; max_reports = pos 1 }

abbrev sight : Sight
sight = record { env = env; infos = allocs; iter_error = none }

abbrev two_ticks : List Event
two_ticks = detailed_tick sight ∷ report_tick sight ∷ detailed_tick sight ∷ []

run_max_reports_example : detailed_logs two_ticks (run insertion two_ticks (limited, waiting)).2 ≤ 1
run_max_reports_example = run_max_reports insertion limited two_ticks 1 refl refl

run-returned_example : (run insertion two_ticks (limited, waiting)).1 ≢ waiting
run-returned_example = run-returned insertion limited two_ticks 1 refl refl (omega arith)

-- Not in order of their addresses.
abbrev syms : List Kallsym
syms =
    record { addr = 8192; name = codes "later" } ∷ record { addr = 4096; name = codes "start" } ∷ []

syms-named : All (λ s. s.name ≢ []) syms
syms-named = ((λ q. cc), ((λ q. cc), tt))

find_symbol-IsClosest_example :
    (Clear 0 4100 syms × (find_symbol syms 4100 ≡ codes "0x" ++ format_hex 4100))
    ⊎ ((sym : Kallsym) × IsClosest sym syms 4100
        × (find_symbol syms 4100 ≡ sym.name ++ (codes "+0x" ++ format_hex (4100 - sym.addr))))
find_symbol-IsClosest_example = find_symbol-IsClosest syms 4100 syms-named

-- [inputs.memleak] with kernel_trace = false, interval = 1, pid = 99, as the decoder delivers it.
abbrev config : GoMap Bytes Any
config =
    (codes "kernel_trace", bool false)
    ∷ (codes "interval", int64 (pos 1))
    ∷ (codes "pid", int64 (pos 99))
    ∷ []

config-IsDecoded : IsDecoded config
config-IsDecoded key i h = ground arith

parse_config-IsDecoded_example :
    KeepsNumbers new_memleak (parse_config new_memleak config)
    × (quick_interval config ≡ pos 5)
    × (detailed_interval config ≡ pos 60)
parse_config-IsDecoded_example = parse_config-IsDecoded new_memleak config config-IsDecoded
