-- ===== src/Inputs/Memleak/Setup.antt =====
-- internal/plugins/inputs/memleak/memleak.go: `Run` up to its loop, with `attachKernelTracepoints` and
-- `attachUprobes`. The eBPF library and the kernel behind it are a parameter; so is the order in which
-- Go walks over the map of constants.
pub mod Laws
pub mod Links
pub mod Refused
pub mod Lasting
mod Tests
use arbutus.Base.{
  ℕ, ◌+◌, ◌-◌, ◌*◌, ◌%◌, ◌^◌, ltb, ◌&&◌, Bool, true, false, if◌then◌else◌, List, [], ◌∷◌, ◌++◌,
  Option, none, some, ◌⊎◌, inl, inr, Bytes, codes, GoMap,
}
use arbutus.Inputs.Memleak.Config.{Config, parse_config, quick_interval, detailed_interval}
use arbutus.Inputs.Memleak.{Memleak}
use arbutus.Models.{ℤ, pos, negsuc}

-- What `constantValues` holds.
pub data Constant : Type 0 where
  uint64 : ℕ → Constant
  bool : Bool → Constant

-- The calls of the library. `S` is the loaded specification, `O` the objects and `K` the kernel; an
-- error is its text. `tracepoint` attaches the program of the event: its group, its name, the objects.
pub record Kernel (K S O : Type 0) : Type 0 where
  pub load_memleak : Bytes ⊎ S
  pub set_variable : Bytes → Constant → S → S × Option Bytes
  pub load_and_assign : S → K → K × (Bytes ⊎ O)
  pub close_objects : O → K → K
  pub tracepoint : Bytes → Bytes → O → K → K × (Bytes ⊎ ℕ)
  pub close_link : ℕ → K → K

abbrev pub constant_values : Memleak → GoMap Bytes Constant
constant_values m =
    (codes "min_size", uint64 m.min_size)
    ∷ (codes "max_size", uint64 m.max_size)
    ∷ (codes "sample_rate", uint64 m.sample_rate)
    ∷ (codes "trace_all", bool m.trace_all)
    ∷ (codes "stack_flags", uint64 0)
    ∷ (codes "wa_missing_free", bool false)
    ∷ (codes "page_size", uint64 4096)
    ∷ []

-- The events of `attachKernelTracepoints`, in its order.
abbrev pub tracepoints : List Bytes
tracepoints =
    codes "kmalloc" ∷ codes "kfree" ∷ codes "kmem_cache_alloc" ∷ codes "kmem_cache_free" ∷ []

-- `fmt.Errorf("…: %w", err)`
abbrev pub wrap : Bytes → Option Bytes → Option Bytes
wrap words none = none
wrap words (some e) = some (words ++ e)

abbrev pub attach_uprobes : Option Bytes
attach_uprobes = some (codes "userspace tracing not yet implemented")

-- The error that `Run` returns, the panic, or the objects with which the loop goes on.
pub data Begun (O : Type 0) : Type 0 where
  failed : Bytes → Begun O
  panicked : Begun O
  looping : O → Begun O

-- `time.Duration(d) * time.Second`, the 64 bits of an int64.
unfoldable pub nanoseconds : ℤ → ℕ
nanoseconds (pos n) = n * 10 ^ 9 % 2 ^ 64
nanoseconds (negsuc n) = (2 ^ 64 - (n + 1) * 10 ^ 9 % 2 ^ 64) % 2 ^ 64

-- `time.NewTicker` takes the interval: it panics on one that is not positive.
unfoldable pub is_positive : ℕ → Bool
is_positive bits = ltb 0 bits && ltb bits (2 ^ 63)

unfoldable pub has_tickers : Config → Bool
unfolding nanoseconds is_positive quick_interval detailed_interval
has_tickers config =
    is_positive (nanoseconds (quick_interval config))
    && is_positive (nanoseconds (detailed_interval config))

module _ {K S O : Type 0} (kernel : Kernel K S O) where
  -- The loop over the constants: the specification after it, or the error.
  set_variables : GoMap Bytes Constant → S → Bytes ⊎ S
  set_variables [] spec = inr spec
  set_variables ((name, value) ∷ constants) spec =
      let (spec1, error) = kernel.set_variable name value spec in
      let rest = set_variables constants spec1 in
      elim error [
        | none ↦ rest
        | some e ↦ inl (codes "setting variable " ++ name ++ codes ": " ++ e)
      ]

  -- `if err != nil { return … }`, then `m.links = append(m.links, tp)` and what follows.
  linked :
      Bytes
      → (K → Memleak → K × Memleak × Option Bytes)
      → Memleak
      → K × (Bytes ⊎ ℕ)
      → K × Memleak × Option Bytes
  linked name rest m (k, inr l) = rest k (record m { links = m.links ++ l ∷ [] })
  linked name rest m (k, inl e) =
      (k, m, some (codes "attaching " ++ name ++ codes " tracepoint: " ++ e))

  -- `link.Tracepoint("kmem", …)` for each of these.
  attach_kernel_tracepoints : List Bytes → O → K → Memleak → K × Memleak × Option Bytes
  unfolding linked
  attach_kernel_tracepoints [] objs k m = (k, m, none)
  attach_kernel_tracepoints (name ∷ names) objs k m =
      linked name (attach_kernel_tracepoints names objs) m
        (kernel.tracepoint (codes "kmem") name objs k)

  attach : Bool → O → K → Memleak → K × Memleak × Option Bytes
  unfolding attach_kernel_tracepoints
  attach true objs k m =
      let (k1, m1, error) = attach_kernel_tracepoints tracepoints objs k m in
      (k1, m1, wrap (codes "attaching kernel tracepoints: ") error)
  attach false objs k m = (k, m, wrap (codes "attaching uprobes: ") attach_uprobes)

  -- An error closes the objects, by the deferred call, and so does a panic of `time.NewTicker`; if
  -- there is neither, `Run` goes on to its loop.
  ready : Config → O → K × Memleak × Option Bytes → K × Memleak × Begun O
  unfolding has_tickers
  ready config objs (k, m, some e) = (kernel.close_objects objs k, m, failed e)
  ready config objs (k, m, none) =
      if has_tickers config
      then (k, record m { running = true; report_count = 0 }, looping objs)
      else (kernel.close_objects objs k, record m { running = true }, panicked)

  with_objects : Config → Memleak → K × (Bytes ⊎ O) → K × Memleak × Begun O
  unfolding attach ready
  with_objects config m (k, inl e) = (k, m, failed (codes "loading eBPF objects: " ++ e))
  with_objects config m (k, inr objs) = ready config objs (attach m.kernel_trace objs k m)

  with_variables : Config → Bytes ⊎ S → K → Memleak → K × Memleak × Begun O
  unfolding with_objects
  with_variables config (inl e) k m = (k, m, failed e)
  with_variables config (inr spec) k m = with_objects config m (kernel.load_and_assign spec k)

  with_spec :
      (GoMap Bytes Constant → GoMap Bytes Constant)
      → Config
      → Bytes ⊎ S
      → K
      → Memleak
      → K × Memleak × Begun O
  unfolding set_variables with_variables
  with_spec order config (inl e) k m = (k, m, failed (codes "loading eBPF spec: " ++ e))
  with_spec order config (inr spec) k m =
      with_variables config (set_variables (order (constant_values m)) spec) k m

  -- `Run` up to its loop: the kernel and the plugin after it, and how it went.
  unfoldable pub start :
      (GoMap Bytes Constant → GoMap Bytes Constant) → Config → K → Memleak → K × Memleak × Begun O
  unfolding with_spec
  start order config k m = with_spec order config kernel.load_memleak k (parse_config m config)
