-- ===== src/Inputs/Memleak/Kernel/Cells.antt =====
-- The map `allocs` against one cell for each address.
use arbutus.Base.{
  ℕ, suc, ◌*◌, ◌%◌, ◌^◌, ◌≤◌, ◌≡◌, refl, ap, ◌∙◌, List, [], ◌∷◌, Option, none, length, arith,
  lookup, nat_eq, Bool, true, false, if◌then◌else◌,
}
use arbutus.Inputs.Memleak.Kernel.Steps.{
  freed, allocated, IsReady, Keeps, gen_free_enter-Keeps, Keeps-nothing, alloc-Keeps,
}
use arbutus.Inputs.Memleak.Kernel.{
  Constants, Moment, Maps, Hit, kmalloc, kmalloc_node, kmem_cache_alloc, kmem_cache_alloc_node,
  kfree, kmem_cache_free, mm_page_alloc, mm_page_free, percpu_alloc_percpu, percpu_free_percpu,
  allocs_max_entries, gen_free_enter, free_and_alloc, memleak, loaded, run,
}
use arbutus.Inputs.Memleak.Leaks.{AllocInfo}

abbrev pub reallocated : Constants → Moment → ℕ → ℕ → ℕ → Option AllocInfo → Option AllocInfo
reallocated k t address size a cell =
    allocated k t address size a (if k.wa_missing_free then freed address a cell else cell)

-- What a tracepoint that is hit does to the cell of address `a`.
abbrev pub on_hit : Constants → Moment → Hit → ℕ → Option AllocInfo → Option AllocInfo
on_hit k t (kmalloc ptr size) a cell = reallocated k t ptr size a cell
on_hit k t (kmalloc_node ptr size) a cell =
    if k.has_kmem_alloc_node then reallocated k t ptr size a cell else cell
on_hit k t (kfree ptr) a cell = freed ptr a cell
on_hit k t (kmem_cache_alloc ptr size) a cell = reallocated k t ptr size a cell
on_hit k t (kmem_cache_alloc_node ptr size) a cell =
    if k.has_kmem_alloc_node then reallocated k t ptr size a cell else cell
on_hit k t (kmem_cache_free ptr) a cell = freed ptr a cell
on_hit k t (mm_page_alloc pfn order) a cell =
    allocated k t pfn (k.page_size * 2 ^ order % 2 ^ 64) a cell
on_hit k t (mm_page_free pfn) a cell = freed pfn a cell
on_hit k t (percpu_alloc_percpu ptr size) a cell = allocated k t ptr size a cell
on_hit k t (percpu_free_percpu ptr) a cell = freed ptr a cell

abbrev pub cell_after : Constants → List (Moment × Hit) → ℕ → Option AllocInfo → Option AllocInfo
cell_after k [] a cell = cell
cell_after k ((t, h) ∷ hs) a cell = cell_after k hs a (on_hit k t h a cell)

-- A free that comes before, with `wa_missing_free`.
free_first-Keeps :
    (b : Bool) (address room : ℕ) (s : Maps)
    → IsReady room s
    → Keeps room s
        (λ a cell. if b then freed address a cell else cell)
        (if b then gen_free_enter address s else s)
free_first-Keeps true address room s r = gen_free_enter-Keeps room address s r
free_first-Keeps false address room s r = record { ready = r; cells = λ a. refl }

reallocated-Keeps :
    (k : Constants) (t : Moment) (address size room : ℕ) (s : Maps)
    → IsReady (suc room) s
    → Keeps room s (reallocated k t address size) (free_and_alloc k t address size s)
reallocated-Keeps k t address size room s r =
    let before = free_first-Keeps k.wa_missing_free address (suc room) s r in
    let between = if k.wa_missing_free then gen_free_enter address s else s in
    let after = alloc-Keeps k t address size room between before.ready in
    record {
      ready = after.ready;
      cells = λ a. after.cells a ∙ ap (allocated k t address size a) (before.cells a);
    }

-- A free leaves the room as it is, so there is still one entry to spare.
freed-Keeps :
    (address room : ℕ) (s : Maps)
    → IsReady (suc room) s
    → Keeps room s (freed address) (gen_free_enter address s)
freed-Keeps address room s r =
    let kept = gen_free_enter-Keeps (suc room) address s r in
    record {
      ready = (Keeps-nothing room (gen_free_enter address s) kept.ready).ready;
      cells = kept.cells;
    }

-- A program that does nothing unless the kernel has its tracepoint.
guarded-Keeps :
    (b : Bool) (room : ℕ) (s q : Maps) (f : ℕ → Option AllocInfo → Option AllocInfo)
    → IsReady (suc room) s
    → Keeps room s f q
    → Keeps room s (λ a cell. if b then f a cell else cell) (if b then q else s)
guarded-Keeps true room s q f r kept = kept
guarded-Keeps false room s q f r kept = Keeps-nothing room s r

node-Keeps :
    (k : Constants) (t : Moment) (address size room : ℕ) (s : Maps)
    → IsReady (suc room) s
    → Keeps room s
        (λ a cell. if k.has_kmem_alloc_node then reallocated k t address size a cell else cell)
        (if k.has_kmem_alloc_node then free_and_alloc k t address size s else s)
node-Keeps k t address size room s r =
    guarded-Keeps k.has_kmem_alloc_node room s (free_and_alloc k t address size s)
      (reallocated k t address size) r (reallocated-Keeps k t address size room s r)

memleak-Keeps :
    (k : Constants) (t : Moment) (h : Hit) (room : ℕ) (s : Maps)
    → IsReady (suc room) s
    → Keeps room s (on_hit k t h) (memleak k t h s)
unfolding memleak
memleak-Keeps k t (kmalloc ptr size) room s r = reallocated-Keeps k t ptr size room s r
memleak-Keeps k t (kmalloc_node ptr size) room s r = node-Keeps k t ptr size room s r
memleak-Keeps k t (kfree ptr) room s r = freed-Keeps ptr room s r
memleak-Keeps k t (kmem_cache_alloc ptr size) room s r = reallocated-Keeps k t ptr size room s r
memleak-Keeps k t (kmem_cache_alloc_node ptr size) room s r = node-Keeps k t ptr size room s r
memleak-Keeps k t (kmem_cache_free ptr) room s r = freed-Keeps ptr room s r
memleak-Keeps k t (mm_page_alloc pfn order) room s r =
    alloc-Keeps k t pfn (k.page_size * 2 ^ order % 2 ^ 64) room s r
memleak-Keeps k t (mm_page_free pfn) room s r = freed-Keeps pfn room s r
memleak-Keeps k t (percpu_alloc_percpu ptr size) room s r = alloc-Keeps k t ptr size room s r
memleak-Keeps k t (percpu_free_percpu ptr) room s r = freed-Keeps ptr room s r

pub run-IsReady :
    (k : Constants) (hs : List (Moment × Hit)) (s : Maps)
    → IsReady (length hs) s
    → IsReady 0 (run k hs s)
      × ((a : ℕ) → lookup a (run k hs s).allocs ≡ cell_after k hs a (lookup a s.allocs))
unfolding run
run-IsReady k [] s r = (r, λ a. refl)
run-IsReady k ((t, h) ∷ hs) s r =
    let step = memleak-Keeps k t h (length hs) s r in
    let (ready, cells) = run-IsReady k hs (memleak k t h s) step.ready in
    (ready, λ a. cells a ∙ ap (cell_after k hs a) (step.cells a))

-- In a run of the programs with at most a million hits, from maps that are empty, the map `allocs` holds
-- at each address what the hits on this address alone leave there: the last allocation of a size that
-- is traced, with its process and stack, unless a free has come after it.
pub run-cells :
    (k : Constants) (hs : List (Moment × Hit)) (a : ℕ)
    → length hs ≤ allocs_max_entries
    → lookup a (run k hs loaded).allocs ≡ cell_after k hs a none
run-cells k hs a few =
    (run-IsReady k hs loaded
        (record { no_sizes = refl; one_each = tt; fits = omega (arith, few) })).1
      a
