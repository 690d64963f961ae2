-- ===== src/Inputs/Memleak/Kernel.antt =====
-- internal/plugins/inputs/memleak/memleak.bpf.c, memleak.h and maps.bpf.h: the programs at the
-- tracepoints of the kernel's allocators, and the maps that they keep. A program runs as one step: two
-- threads of one process that allocate at the same time are not modelled. `trace_all` only prints.
pub mod Steps
pub mod Cells
pub mod Sums
pub mod Outstanding
pub mod Statistics
pub mod Balance
use arbutus.Base.{
  ℕ, ◌+◌, ◌-◌, ◌*◌, ◌/◌, ◌%◌, ◌^◌, Bool, ◌||◌, List, [], ◌∷◌, Option, none, some, length, ltb, ◌==◌,
  Bytes, GoMap, lookup, insert, erase, nat_eq, if◌then◌else◌, not,
}
use arbutus.Inputs.Memleak.Leaks.{AllocInfo}
use arbutus.Models.{ℤ, pos, negsuc}

-- The constants that the plugin sets, and what the kernel has.
pub record Constants : Type 0 where
  pub min_size : ℕ
  pub max_size : ℕ
  pub page_size : ℕ
  pub sample_rate : ℕ
  pub wa_missing_free : Bool
  pub has_kmem_alloc_node : Bool

-- What the helpers give while a program runs: `bpf_ktime_get_ns` in `gen_alloc_enter` and in
-- `gen_alloc_exit2`, and `bpf_get_stackid`, which is negative if there is no stack.
pub record Moment : Type 0 where
  pub pid_tgid : ℕ
  pub entered : ℕ
  pub exited : ℕ
  pub stack_id : ℤ
  pub comm : Bytes

pub record Maps : Type 0 where
  pub sizes : GoMap ℕ ℕ
  pub allocs : GoMap ℕ AllocInfo
  pub combined_allocs : GoMap ℕ ℕ

abbrev pub allocs_max_entries : ℕ
allocs_max_entries = 1000000

abbrev pub process : Moment → ℕ
process t = t.pid_tgid / 2 ^ 32 % 2 ^ 32

-- `bpf_map_update_elem` with `BPF_ANY` on a map of this size: a new key needs room.
abbrev pub update : {V : Type 0} → ℕ → ℕ → V → GoMap ℕ V → GoMap ℕ V
update size k v m = elim (lookup k m) [
  | some _ ↦ insert k v m
  | none ↦ if ltb (length m) size then insert k v m else m
]

-- The stack id as a u64.
unfoldable pub to_u64 : ℤ → ℕ
to_u64 (pos n) = n
to_u64 (negsuc n) = 2 ^ 64 - 1 - n

-- The bits of one allocation: 40 of its size, and a one in the 24 above.
unfoldable pub bits_of : ℕ → ℕ
bits_of size = size % 2 ^ 40 + 2 ^ 40

unfoldable pub lookup_or_try_init : ℕ → GoMap ℕ ℕ → GoMap ℕ ℕ
lookup_or_try_init k m = elim (lookup k m) [ some _ ↦ m | none ↦ update 10240 k 0 m ]

-- The bits of the key, if it is there, become what `f` makes of them.
unfoldable pub adjust : (ℕ → ℕ) → ℕ → GoMap ℕ ℕ → GoMap ℕ ℕ
adjust f k m = elim (lookup k m) [ none ↦ m | some bits ↦ insert k (f bits) m ]

unfoldable pub update_statistics_add : ℕ → ℕ → GoMap ℕ ℕ → GoMap ℕ ℕ
unfolding bits_of lookup_or_try_init adjust
update_statistics_add stack_id size m =
    adjust (λ bits. (bits + bits_of size) % 2 ^ 64) stack_id (lookup_or_try_init stack_id m)

unfoldable pub update_statistics_del : ℕ → ℕ → GoMap ℕ ℕ → GoMap ℕ ℕ
unfolding bits_of adjust
update_statistics_del stack_id size m =
    adjust (λ bits. (bits + 2 ^ 64 - bits_of size) % 2 ^ 64) stack_id m

unfoldable pub gen_alloc_enter : Constants → Moment → ℕ → Maps → Maps
gen_alloc_enter k t size s =
    if ltb size k.min_size || ltb k.max_size size
    then s
    else if ltb 1 k.sample_rate
    then if t.entered % k.sample_rate == 0
      then record s { sizes = update 10240 (process t) size s.sizes }
      else s
    else record s { sizes = update 10240 (process t) size s.sizes }

abbrev pub info_of : Moment → ℕ → AllocInfo
info_of t size = record {
  size = size;
  timestamp_ns = t.exited;
  stack_id = t.stack_id;
  pid = process t;
  comm = t.comm;
}

-- `if (address != 0)`
unfoldable pub record_alloc : Moment → ℕ → ℕ → Maps → Maps
unfolding to_u64 update_statistics_add
record_alloc t address size s = if address == 0 then s else record s {
  allocs = update allocs_max_entries address (info_of t size) s.allocs;
  combined_allocs = update_statistics_add (to_u64 t.stack_id) size s.combined_allocs;
}

unfoldable pub gen_alloc_exit2 : Moment → ℕ → Maps → Maps
unfolding record_alloc
gen_alloc_exit2 t address s = elim (lookup (process t) s.sizes) [
  | none ↦ s
  | some size ↦ record_alloc t address size (record s { sizes = erase (process t) s.sizes })
]

-- The entry is read before it is deleted; the code reads it through its pointer after that.
unfoldable pub gen_free_enter : ℕ → Maps → Maps
unfolding to_u64 update_statistics_del
gen_free_enter address s = elim (lookup address s.allocs) [
  | none ↦ s
  | some info ↦ record s {
    allocs = erase address s.allocs;
    combined_allocs = update_statistics_del (to_u64 info.stack_id) info.size s.combined_allocs;
  }
]

-- A tracepoint that is hit, with the arguments that the program reads.
pub data Hit : Type 0 where
  kmalloc kmalloc_node kmem_cache_alloc kmem_cache_alloc_node : (ptr bytes_alloc : ℕ) → Hit
  kfree kmem_cache_free : (ptr : ℕ) → Hit
  mm_page_alloc : (pfn order : ℕ) → Hit
  mm_page_free : (pfn : ℕ) → Hit
  percpu_alloc_percpu : (ptr bytes_alloc : ℕ) → Hit
  percpu_free_percpu : (ptr : ℕ) → Hit

abbrev pub alloc : Constants → Moment → ℕ → ℕ → Maps → Maps
alloc k t ptr size s = gen_alloc_exit2 t ptr (gen_alloc_enter k t size s)

-- With `wa_missing_free`, what is at the address is freed first.
abbrev pub free_and_alloc : Constants → Moment → ℕ → ℕ → Maps → Maps
free_and_alloc k t ptr size s =
    alloc k t ptr size (if k.wa_missing_free then gen_free_enter ptr s else s)

unfoldable pub memleak : Constants → Moment → Hit → Maps → Maps
unfolding gen_alloc_enter gen_alloc_exit2 gen_free_enter
memleak k t (kmalloc ptr size) s = free_and_alloc k t ptr size s
memleak k t (kmalloc_node ptr size) s =
    if k.has_kmem_alloc_node then free_and_alloc k t ptr size s else s
memleak k t (kfree ptr) s = gen_free_enter ptr s
memleak k t (kmem_cache_alloc ptr size) s = free_and_alloc k t ptr size s
memleak k t (kmem_cache_alloc_node ptr size) s =
    if k.has_kmem_alloc_node then free_and_alloc k t ptr size s else s
memleak k t (kmem_cache_free ptr) s = gen_free_enter ptr s
memleak k t (mm_page_alloc pfn order) s = alloc k t pfn (k.page_size * 2 ^ order % 2 ^ 64) s
memleak k t (mm_page_free pfn) s = gen_free_enter pfn s
memleak k t (percpu_alloc_percpu ptr size) s = alloc k t ptr size s
memleak k t (percpu_free_percpu ptr) s = gen_free_enter ptr s

-- The maps as they are loaded.
abbrev pub loaded : Maps
loaded = record { sizes = []; allocs = []; combined_allocs = [] }

unfoldable pub run : Constants → List (Moment × Hit) → Maps → Maps
unfolding memleak
run k [] s = s
run k ((t, h) ∷ hs) s = run k hs (memleak k t h s)
