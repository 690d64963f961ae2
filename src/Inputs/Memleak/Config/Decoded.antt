-- ===== src/Inputs/Memleak/Config/Decoded.antt =====
-- A configuration as the TOML decoder delivers it: it decodes every integer into `map[string]any` as
-- an int64, never as an int.
use arbutus.Base.{◌≡◌, refl, ◌≢◌, Option, none, some, Bytes, codes, bytes_eq, lookup, Bool}
use arbutus.Inputs.Memleak.Config.{
  Config, as_bool, as_int, as_string, assign, parse_config, quick_interval, detailed_interval,
}
use arbutus.Inputs.Memleak.{Memleak}
use arbutus.Models.{Any, bool, int, int64, str, other, ℤ, pos}

-- What the decoder promises: no value is a Go int.
abbrev pub IsDecoded : Config → Type 0
IsDecoded config = (key : Bytes) (i : ℤ) → lookup key config ≢ some (int i)

as_int-none : (v : Option Any) → ((i : ℤ) → v ≢ some (int i)) → as_int v ≡ none
as_int-none none h = refl
as_int-none (some (int i)) h = absurd (h i refl)
as_int-none (some (str s)) h = refl
as_int-none (some (bool b)) h = refl
as_int-none (some (int64 i)) h = refl
as_int-none (some (other n)) h = refl

no_int : (config : Config) → IsDecoded config → (key : Bytes) → as_int (lookup key config) ≡ none
no_int config h key = as_int-none (lookup key config) (h key)

-- The three assignments that are left when no value is an int.
abbrev flags : Option Bool → Option Bytes → Option Bool → Memleak → Memleak
flags kernel object all m =
    assign all (λ b m. record m { trace_all = b })
      (assign object (λ s m. record m { object = s })
        (assign kernel (λ b m. record m { kernel_trace = b }) m))

abbrev pub KeepsNumbers : Memleak → Memleak → Type 0
KeepsNumbers m n =
    n ≡ record m { kernel_trace = n.kernel_trace; object = n.object; trace_all = n.trace_all }

flags-KeepsNumbers :
    (kernel : Option Bool) (object : Option Bytes) (all : Option Bool) (m : Memleak)
    → KeepsNumbers m (flags kernel object all m)
flags-KeepsNumbers none none none m = refl
flags-KeepsNumbers none none (some t) m = refl
flags-KeepsNumbers none (some s) none m = refl
flags-KeepsNumbers none (some s) (some t) m = refl
flags-KeepsNumbers (some k) none none m = refl
flags-KeepsNumbers (some k) none (some t) m = refl
flags-KeepsNumbers (some k) (some s) none m = refl
flags-KeepsNumbers (some k) (some s) (some t) m = refl

parse_config-flags :
    (m : Memleak) (config : Config)
    → IsDecoded config
    → parse_config m config
      ≡ flags
          (as_bool (lookup (codes "kernel_trace") config))
          (as_string (lookup (codes "object") config))
          (as_bool (lookup (codes "trace_all") config))
          m
unfolding parse_config
parse_config-flags m config h = rw (
  no_int config h (codes "min_leak_threshold"),
  no_int config h (codes "max_reports"),
  no_int config h (codes "sample_rate"),
  no_int config h (codes "max_size"),
  no_int config h (codes "min_size"),
  no_int config h (codes "pid"),
)

-- `parseConfig` on a decoded configuration sets no number: of all the fields only `kernelTrace`,
-- `object` and `traceAll` can change, whatever integers the file gives. Nor do the two intervals of
-- `Run` leave their defaults.
pub parse_config-IsDecoded :
    (m : Memleak) (config : Config)
    → IsDecoded config
    → KeepsNumbers m (parse_config m config)
      × (quick_interval config ≡ pos 5)
      × (detailed_interval config ≡ pos 60)
unfolding quick_interval detailed_interval
parse_config-IsDecoded m config h = (
  rw (parse_config-flags m config h) (flags-KeepsNumbers _ _ _ m),
  rw (no_int config h (codes "interval")),
  rw (no_int config h (codes "detailed_interval")),
)
