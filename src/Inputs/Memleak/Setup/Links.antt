-- ===== src/Inputs/Memleak/Setup/Links.antt =====
-- The links that `Run` attaches, and what its start leaves behind.
use arbutus.Base.{
  ℕ, suc, ◌+◌, ◌<◌, ◌≡◌, refl, ◌∙◌, Bool, true, false, List, [], ◌∷◌, ◌++◌, length, ap, Bool-cases,
  Option, none, some, ◌⊎◌, inl, inr, Bytes, codes, GoMap, bytes_eq, lookup, arith,
}
use arbutus.Inputs.Memleak.Config.Fields.{assign-keeps}
use arbutus.Inputs.Memleak.Config.{Config, as_bool, as_int, as_string, parse_config}
use arbutus.Inputs.Memleak.Setup.Laws.{
  count, count-append, length-snoc, Loads, Attaches, Documented,
}
use arbutus.Inputs.Memleak.Setup.{
  Constant, Kernel, Begun, failed, panicked, looping, has_tickers, constant_values, tracepoints,
  wrap, set_variables, linked, attach_kernel_tracepoints, attach, ready, with_objects,
  with_variables, with_spec, start,
}
use arbutus.Inputs.Memleak.{Memleak}

parse_config-links : (m : Memleak) (config : Config) → (parse_config m config).links ≡ m.links
unfolding parse_config
parse_config-links m config =
    let f = λ (n : Memleak). n.links in
    assign-keeps f (as_int (lookup (codes "min_leak_threshold") config)) _ (λ v n. refl) _
    ∙ assign-keeps f (as_int (lookup (codes "max_reports") config)) _ (λ v n. refl) _
    ∙ assign-keeps f (as_bool (lookup (codes "trace_all") config)) _ (λ v n. refl) _
    ∙ assign-keeps f (as_int (lookup (codes "sample_rate") config)) _ (λ v n. refl) _
    ∙ assign-keeps f (as_int (lookup (codes "max_size") config)) _ (λ v n. refl) _
    ∙ assign-keeps f (as_int (lookup (codes "min_size") config)) _ (λ v n. refl) _
    ∙ assign-keeps f (as_string (lookup (codes "object") config)) _ (λ v n. refl) _
    ∙ assign-keeps f (as_int (lookup (codes "pid") config)) _ (λ v n. refl) _
    ∙ assign-keeps f (as_bool (lookup (codes "kernel_trace") config)) _ (λ v n. refl) m

-- How far the attaching of `n` links has come.
abbrev Counted : Option Bytes → ℕ → ℕ → ℕ → Type 0
Counted none n before links = links ≡ before + n
Counted (some e) n before links = links < before + n

Counted-suc :
    (error : Option Bytes) (n before links : ℕ)
    → Counted error n (before + 1) links
    → Counted error (suc n) before links
Counted-suc none n before links h = omega (arith, h)
Counted-suc (some e) n before links h = omega (arith, h)

Counted-wrap :
    (words : Bytes) (n before links : ℕ) (error : Option Bytes)
    → Counted error n before links
    → Counted (wrap words error) n before links
Counted-wrap words n before links none h = h
Counted-wrap words n before links (some e) h = h

module _ {K S O : Type 0} (kernel : Kernel K S O) (laws : Documented kernel) where
  -- Each link is attached as often more as the plugin has it more.
  abbrev pub Counts : K → Memleak → K → Memleak → Type 0
  Counts k m k1 m1 =
      (j : ℕ)
      → count j (laws.attached k1) + count j m.links ≡ count j (laws.attached k) + count j m1.links

  -- How `Run` stands at its loop, or returns or panics before it.
  abbrev pub Started : Config → K → Memleak → K × Memleak × Begun O → Type 0
  Started config k m (k1, m1, failed e) =
      (laws.loaded k1 ≡ laws.loaded k) × Counts k m k1 m1 × (length m1.links < length m.links + 4)
  Started config k m (k1, m1, panicked) =
      (laws.loaded k1 ≡ laws.loaded k)
      × Counts k m k1 m1
      × (length m1.links ≡ length m.links + 4)
      × (has_tickers config ≡ false)
  Started config k m (k1, m1, looping o) =
      (laws.loaded k1 ≡ o ∷ laws.loaded k)
      × Counts k m k1 m1
      × (length m1.links ≡ length m.links + 4)
      × (has_tickers config ≡ true)
      × (m1.running ≡ true)
      × (m1.report_count ≡ 0)

  abbrev Attached : ℕ → K → Memleak → K × Memleak × Option Bytes → Type 0
  Attached n k m (k1, m1, error) =
      (laws.loaded k1 ≡ laws.loaded k)
      × Counts k m k1 m1
      × Counted error n (length m.links) (length m1.links)

  linked-Attached :
      (n : ℕ) (name : Bytes) (rest : K → Memleak → K × Memleak × Option Bytes) (k : K) (m : Memleak)
      → (got : K × (Bytes ⊎ ℕ)) → Attaches laws.loaded laws.attached k got
      → ((k1 : K) (m1 : Memleak) → Attached n k1 m1 (rest k1 m1))
      → Attached (suc n) k m (linked kernel name rest m got)
  unfolding linked
  linked-Attached n name rest k m (k1, inr l) (same, one) follows =
      let m1 = record m { links = m.links ++ l ∷ [] } in
      let (same', counts, counted) = follows k1 m1 in
      (
        same' ∙ same,
        (λ j. omega (arith, counts j, ap (count j) one, count-append j m.links (l ∷ []))),
        Counted-suc (rest k1 m1).2 n (length m.links) (length (rest k1 m1).1.links)
            (rw (← length-snoc m.links l) counted),
      )
  linked-Attached n name rest k m (k1, inl e) (same, one) follows =
      (same, (λ j. omega (arith, ap (count j) one)), omega arith)

  attach_kernel_tracepoints-Attached :
      (names : List Bytes) (objs : O) (k : K) (m : Memleak)
      → Attached (length names) k m (attach_kernel_tracepoints kernel names objs k m)
  unfolding attach_kernel_tracepoints
  attach_kernel_tracepoints-Attached [] objs k m = (refl, (λ j. omega arith), omega arith)
  attach_kernel_tracepoints-Attached (name ∷ names) objs k m =
      linked-Attached (length names) name (attach_kernel_tracepoints kernel names objs) k m _
        (laws.attaches (codes "kmem") name objs k) (attach_kernel_tracepoints-Attached names objs)

  attach-Attached :
      (kernel_trace : Bool) (objs : O) (k : K) (m : Memleak)
      → Attached 4 k m (attach kernel kernel_trace objs k m)
  unfolding attach
  attach-Attached true objs k m =
      let (same, counts, counted) = attach_kernel_tracepoints-Attached tracepoints objs k m in
      (
        same,
        counts,
        Counted-wrap (codes "attaching kernel tracepoints: ") 4 (length m.links) _
            (attach_kernel_tracepoints kernel tracepoints objs k m).2 counted,
      )
  attach-Attached false objs k m = (refl, (λ j. omega arith), omega arith)

  ready-Started :
      (config : Config) (objs : O) (k0 k : K) (m : Memleak) (r : K × Memleak × Option Bytes)
      → laws.loaded k ≡ objs ∷ laws.loaded k0
      → laws.attached k ≡ laws.attached k0
      → Attached 4 k m r
      → Started config k0 m (ready kernel config objs r)
  unfolding ready
  ready-Started config objs k0 k m (k1, m1, none) held links (same, counts, counted) =
      let (freed, kept) = laws.closes objs k1 (laws.loaded k0) (same ∙ held) in
      elim (Bool-cases (has_tickers config)) [
        | inl q ↦ rw q (
          same ∙ held,
          (λ j. omega (arith, counts j, ap (count j) links)),
          counted,
          q,
          refl,
          refl,
        )
        | inr q ↦ rw q (
          freed,
          (λ j. omega (arith, counts j, ap (count j) links, ap (count j) kept)),
          counted,
          q,
        )
      ]
  ready-Started config objs k0 k m (k1, m1, some e) held links (same, counts, counted) =
      let (freed, kept) = laws.closes objs k1 (laws.loaded k0) (same ∙ held) in
      (freed, (λ j. omega (arith, counts j, ap (count j) links, ap (count j) kept)), counted)

  with_objects-Started :
      (config : Config) (m : Memleak) (k : K) (got : K × (Bytes ⊎ O))
      → Loads laws.loaded laws.attached k got
      → Started config k m (with_objects kernel config m got)
  unfolding with_objects
  with_objects-Started config m k (k1, inl e) (same, links) =
      (same, (λ j. omega (arith, ap (count j) links)), omega arith)
  with_objects-Started config m k (k1, inr objs) (held, links) =
      ready-Started config objs k k1 m (attach kernel m.kernel_trace objs k1 m) held links
        (attach-Attached m.kernel_trace objs k1 m)

  with_variables-Started :
      (config : Config) (spec : Bytes ⊎ S) (k : K) (m : Memleak)
      → Started config k m (with_variables kernel config spec k m)
  unfolding with_variables
  with_variables-Started config (inl e) k m = (refl, (λ j. omega arith), omega arith)
  with_variables-Started config (inr spec) k m =
      with_objects-Started config m k (kernel.load_and_assign spec k) (laws.loads spec k)

  with_spec-Started :
      (order : GoMap Bytes Constant → GoMap Bytes Constant) (config : Config) (spec : Bytes ⊎ S)
      (k : K) (m : Memleak)
      → Started config k m (with_spec kernel order config spec k m)
  unfolding with_spec
  with_spec-Started order config (inl e) k m = (refl, (λ j. omega arith), omega arith)
  with_spec-Started order config (inr spec) k m =
      with_variables-Started config (set_variables kernel (order (constant_values m)) spec) k m

  Started-from :
      (config : Config) (k : K) (m n : Memleak) (r : K × Memleak × Begun O)
      → n.links ≡ m.links
      → Started config k n r
      → Started config k m r
  Started-from config k m n (k1, m1, failed e) same (freed, counts, few) =
      (freed, rw (← same) counts, rw (← same) few)
  Started-from config k m n (k1, m1, panicked) same (freed, counts, four, off) =
      (freed, rw (← same) counts, rw (← same) four, off)
  Started-from config k m n (k1, m1, looping o) same (held, counts, four, ticks, on, zero) =
      (held, rw (← same) counts, rw (← same) four, ticks, on, zero)

  -- However the calls of the eBPF library end: if `Run` comes to its loop, its objects are loaded, four
  -- links more are attached, `running` is true and no report is counted; if it returns an error before
  -- it, its objects are closed. It comes to its loop only if its two intervals are positive, and panics
  -- only if one is not, with its objects closed and the four links attached. In every case the links that
  -- the kernel has got are those that `m.links` has got: the error leaves up to three of them attached.
  pub start-Started :
      (order : GoMap Bytes Constant → GoMap Bytes Constant) (config : Config) (k : K) (m : Memleak)
      → Started config k m (start kernel order config k m)
  unfolding start
  start-Started order config k m =
      Started-from config k m (parse_config m config) (start kernel order config k m)
        (parse_config-links m config)
        (with_spec-Started order config kernel.load_memleak k (parse_config m config))
