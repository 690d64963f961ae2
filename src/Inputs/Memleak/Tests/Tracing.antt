-- ===== src/Inputs/Memleak/Tests/Tracing.antt =====
-- A process allocates twice, and frees the first.
use arbutus.Base.{
  ℕ, ◌*◌, ◌+◌, ◌-◌, ◌%◌, ◌^◌, ◌≡◌, refl, false, List, [], ◌∷◌, none, arith, codes, GoMap, lookup,
  nat_eq,
}
use arbutus.Inputs.Memleak.Kernel.Cells.{cell_after}
use arbutus.Inputs.Memleak.Kernel.Outstanding.{
  values, bytes_for, one_for, bytes_in, number_in, run-reported,
}
use arbutus.Inputs.Memleak.Kernel.Statistics.{Change, add, del, bits_in, change_all}
use arbutus.Inputs.Memleak.Kernel.Balance.{change_all-total}
use arbutus.Inputs.Memleak.Kernel.Sums.{Outside, Distinct, sum}
use arbutus.Inputs.Memleak.Kernel.{
  Constants, Moment, Hit, kmalloc, kfree, kmem_cache_alloc, info_of, loaded, run,
}
use arbutus.Inputs.Memleak.Leaks.{AllocInfo, group_allocs}
use arbutus.Inputs.Memleak.{total_size, number_of_allocs, LeakKey, key_eq}
use arbutus.Models.{pos}

abbrev constants : Constants
constants = record {
  min_size = 0;
  max_size = 2 ^ 64 - 1;
  page_size = 4096;
  sample_rate = 1;
  wa_missing_free = false;
  has_kmem_alloc_node = false;
}

abbrev moment : ℕ → Moment
moment now = record {
  pid_tgid = 7 * 2 ^ 32 + 9;
  entered = now;
  exited = now + 1;
  stack_id = pos 1;
  comm = codes "app";
}

abbrev hits : List (Moment × Hit)
hits =
    (moment 10, kmalloc 4096 512)
    ∷ (moment 20, kmem_cache_alloc 8192 100)
    ∷ (moment 30, kfree 4096)
    ∷ []

abbrev left : GoMap ℕ AllocInfo
left = (8192, info_of (moment 20) 100) ∷ []

run-hits : (run constants hits loaded).allocs ≡ left
unfolding run
run-hits = refl

abbrev app : LeakKey
app = record { pid = 7; stack_id = pos 1 }

untouched : (a : ℕ) → Outside a (4096 ∷ 8192 ∷ []) → cell_after constants hits a none ≡ none
untouched a out = ground (arith, out)

distinct : Distinct (4096 ∷ 8192 ∷ [])
distinct = (((λ e. omega (arith, e)), tt), (tt, tt))

run-reported_example :
    (bytes_in (lookup app (group_allocs (values left)))
      ≡ sum (bytes_for app) (λ a. cell_after constants hits a none) (4096 ∷ 8192 ∷ []) % 2 ^ 64)
    × (number_in (lookup app (group_allocs (values left)))
        ≡ sum (one_for app) (λ a. cell_after constants hits a none) (4096 ∷ 8192 ∷ []) % 2 ^ 64)
run-reported_example =
    run-reported constants hits (4096 ∷ 8192 ∷ []) left app (omega arith) (tt, tt)
      (λ a. rw run-hits refl) distinct untouched

-- One allocation of 100 bytes.
bytes_left : sum (bytes_for app) (λ a. cell_after constants hits a none) (4096 ∷ 8192 ∷ []) ≡ 100
bytes_left = refl

-- A stack gets 512 and 100 bytes, and gives the 512 back; another one gets 64.
abbrev changes : List Change
changes = add 1 512 ∷ add 2 64 ∷ add 1 100 ∷ del 1 512 ∷ []

change_all-total_example :
    (total_size (bits_in (lookup 1 (change_all changes []))) ≡ 100)
    × (number_of_allocs (bits_in (lookup 1 (change_all changes []))) ≡ 1)
change_all-total_example =
    change_all-total 1 changes 100 1 (omega arith) ((λ q. refl), tt)
      (omega arith, (omega arith, tt)) (omega arith, tt) refl refl (omega arith) (omega arith)
