-- ===== src/Inputs/Memleak/Setup/Refused.antt =====
-- A configuration that asks for userspace tracing.
use arbutus.Base.{
  ◌≡◌, refl, ◌∙◌, false, Option, none, some, ◌⊎◌, inl, inr, Bytes, codes, GoMap, bytes_eq, lookup,
}
use arbutus.Inputs.Memleak.Config.Fields.{assign-keeps}
use arbutus.Inputs.Memleak.Config.{Config, as_bool, as_int, as_string, assign, parse_config}
use arbutus.Inputs.Memleak.Setup.{
  Constant, Kernel, constant_values, set_variables, Begun, failed, attach, ready, with_objects,
  with_variables, with_spec, start,
}
use arbutus.Inputs.Memleak.{Memleak}
use arbutus.Models.{Any, bool, int, ℤ}

-- `kernel_trace` is off, or `pid` is a Go int.
abbrev pub AsksUserspace : Config → Type 0
AsksUserspace config =
    (lookup (codes "kernel_trace") config ≡ some (bool false))
    ⊎ ((i : ℤ) × (lookup (codes "pid") config ≡ some (int i)))

-- The two assignments that reach `kernelTrace`.
traced : Option Any → Option Any → Memleak → Memleak
traced kernel pid m =
    assign (as_int pid) (λ i n. record n { pid = i; kernel_trace = false })
      (assign (as_bool kernel) (λ b n. record n { kernel_trace = b }) m)

traced-kernel :
    (pid : Option Any) (m : Memleak) → (traced (some (bool false)) pid m).kernel_trace ≡ false
unfolding traced
traced-kernel none m = refl
traced-kernel (some (int i)) m = refl
traced-kernel (some _) m = refl

parse_config-traced :
    (m : Memleak) (config : Config)
    → (parse_config m config).kernel_trace
      ≡ (traced (lookup (codes "kernel_trace") config) (lookup (codes "pid") config) m).kernel_trace
unfolding parse_config traced
parse_config-traced m config =
    let f = λ (n : Memleak). n.kernel_trace in
    assign-keeps f (as_int (lookup (codes "min_leak_threshold") config)) _ (λ v n. refl) _
    ∙ assign-keeps f (as_int (lookup (codes "max_reports") config)) _ (λ v n. refl) _
    ∙ assign-keeps f (as_bool (lookup (codes "trace_all") config)) _ (λ v n. refl) _
    ∙ assign-keeps f (as_int (lookup (codes "sample_rate") config)) _ (λ v n. refl) _
    ∙ assign-keeps f (as_int (lookup (codes "max_size") config)) _ (λ v n. refl) _
    ∙ assign-keeps f (as_int (lookup (codes "min_size") config)) _ (λ v n. refl) _
    ∙ assign-keeps f (as_string (lookup (codes "object") config)) _ (λ v n. refl) _

parse_config-AsksUserspace :
    (m : Memleak) (config : Config)
    → AsksUserspace config
    → (parse_config m config).kernel_trace ≡ false
unfolding traced
parse_config-AsksUserspace m config (inl off) =
    parse_config-traced m config ∙ rw off (traced-kernel (lookup (codes "pid") config) m)
parse_config-AsksUserspace m config (inr (i, asked)) = parse_config-traced m config ∙ rw asked refl

module _ {K S O : Type 0} (kernel : Kernel K S O) where
  -- The error of a start that has failed.
  abbrev pub Refused : K × Memleak × Begun O → Type 0
  Refused r = (e : Bytes) × (r.2 ≡ failed e)

  with_objects-Refused :
      (config : Config) (m : Memleak) (got : K × (Bytes ⊎ O))
      → m.kernel_trace ≡ false
      → Refused (with_objects kernel config m got)
  unfolding with_objects attach ready
  with_objects-Refused config m (k, inl e) off = (_, refl)
  with_objects-Refused config m (k, inr objs) off = rw off (_, refl)

  with_variables-Refused :
      (config : Config) (spec : Bytes ⊎ S) (k : K) (m : Memleak)
      → m.kernel_trace ≡ false
      → Refused (with_variables kernel config spec k m)
  unfolding with_variables
  with_variables-Refused config (inl e) k m off = (_, refl)
  with_variables-Refused config (inr spec) k m off =
      with_objects-Refused config m (kernel.load_and_assign spec k) off

  with_spec-Refused :
      (order : GoMap Bytes Constant → GoMap Bytes Constant) (config : Config) (spec : Bytes ⊎ S)
      (k : K) (m : Memleak)
      → m.kernel_trace ≡ false
      → Refused (with_spec kernel order config spec k m)
  unfolding with_spec
  with_spec-Refused order config (inl e) k m off = (_, refl)
  with_spec-Refused order config (inr spec) k m off =
      with_variables-Refused config (set_variables kernel (order (constant_values m)) spec) k m off

  -- With a configuration in which `kernel_trace` is false, or in which `pid` has the Go type int, `Run`
  -- never comes to its loop, whatever the eBPF library answers: it returns an error.
  pub start-Refused :
      (order : GoMap Bytes Constant → GoMap Bytes Constant) (config : Config) (k : K) (m : Memleak)
      → AsksUserspace config
      → Refused (start kernel order config k m)
  unfolding start
  start-Refused order config k m asks =
      with_spec-Refused order config kernel.load_memleak k (parse_config m config)
        (parse_config-AsksUserspace m config asks)
