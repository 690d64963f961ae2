-- ===== src/Inputs/Memleak/Report/Alarms.antt =====
-- The quick check: what it logs, and what it remembers.
use mathlib.Core.List.{Perm}
use mathlib.Core.Path.{subst}
use arbutus.Base.{
  ltb, ◌&&◌, Bool, Option-cases, ℕ, ◌≡◌, refl, ◌∙◌, inl, inr, false, List, [], ◌∷◌, map, Option,
  none, some, arith, Bool-cases, if◌then◌else◌, lookup, lookup-insert, IsMap,
}
use arbutus.Inputs.Memleak.Leaks.Totals.{group_allocs-IsMap}
use arbutus.Inputs.Memleak.Leaks.{AllocInfo, StackAllocs, LeakMap, group_allocs}
use arbutus.Inputs.Memleak.Report.Quick.{
  remember, remember-lookup, pick_quick-lookup, values_where, pick_quick-values,
}
use arbutus.Inputs.Memleak.Report.Top.{IsDescending, sort-IsDescending}
use arbutus.Inputs.Memleak.Report.{
  Previous, comes_first, Sorter, Surroundings, alarming, pick_quick, check_for_new_leaks, leak_log,
}
use arbutus.Inputs.Memleak.{Memleak, LeakKey, key_eq, beq_key, beq_key_iff}

-- What is remembered of a stack as already reported, 0 where nothing is.
abbrev pub known : Option ℕ → ℕ
known none = 0
known (some n) = n

-- More than 10 MiB, and more than what is known.
abbrev pub is_alarm : LeakKey → StackAllocs → Previous → Bool
is_alarm key current previous =
    ltb 10485760 current.size && ltb (known (lookup key previous)) current.size

alarming-is_alarm :
    (key : LeakKey) (current : StackAllocs) (previous : Previous)
    → alarming key current previous ≡ is_alarm key current previous
alarming-is_alarm key current previous = elim (Option-cases (lookup key previous)) [
  | inl e ↦ rw e (ground arith)
  | inr (n, e) ↦ rw e refl
]

values_where_cong :
    (p q : LeakKey → StackAllocs → Bool) (leaks : LeakMap)
    → ((key : LeakKey) (current : StackAllocs) → p key current ≡ q key current)
    → values_where p leaks ≡ values_where q leaks
values_where_cong p q [] same = refl
values_where_cong p q ((key, current) ∷ leaks) same =
    rw (same key current, values_where_cong p q leaks same) refl

-- What is remembered of a stack after the check, by what is outstanding there.
abbrev pub remembered : LeakKey → Option StackAllocs → Previous → Option ℕ
remembered key none previous = lookup key previous
remembered key (some current) previous =
    if is_alarm key current previous then some current.size else lookup key previous

remembered_cong :
    (key : LeakKey) (found : Option StackAllocs) (p q : Previous)
    → lookup key p ≡ lookup key q
    → remembered key found p ≡ remembered key found q
remembered_cong key none p q h = h
remembered_cong key (some current) p q h = rw h refl

remember-remembered :
    (key : LeakKey) (current : StackAllocs) (previous : Previous)
    → lookup key (remember key current previous) ≡ remembered key (some current) previous
remember-remembered key current previous = elim (Bool-cases (alarming key current previous)) [
  | inl q ↦ rw q (ground (arith, lookup-insert key key current.size previous, beq_key_iff key key))
  | inr q ↦ rw (← alarming-is_alarm key current previous, q) refl
]

pick_quick-remembered :
    (key : LeakKey) (leaks : LeakMap) (previous : Previous)
    → IsMap leaks
    → lookup key (pick_quick leaks previous).1 ≡ remembered key (lookup key leaks) previous
unfolding pick_quick
pick_quick-remembered key [] previous h = refl
pick_quick-remembered key ((k, current) ∷ leaks) previous (l, h) =
    elim (Bool-cases (beq_key k key)) [
      | inl q ↦
          rw (q, ← (beq_key_iff k key).0 q)
            (pick_quick-lookup k leaks (remember k current previous) l
              ∙ remember-remembered k current previous)
      | inr q ↦ rw q (
          pick_quick-remembered key leaks (remember k current previous) h
          ∙ remembered_cong key (lookup key leaks) (remember k current previous) previous
              (remember-lookup k key current previous (λ e. cc (q, (beq_key_iff k key).1 e))))
    ]

-- A quick check logs, by descending size, exactly the stacks with more than 10 MiB outstanding whose size
-- is not yet remembered or is above the remembered one; and it remembers the size of these, and of all
-- others what it remembered before.
pub check_quick-values :
    (sorter : Sorter) (env : Surroundings) (infos : List AllocInfo) (m : Memleak)
    → let leaks = group_allocs infos in
      let checked = check_for_new_leaks sorter env infos none false m in
      let syms = if m.kernel_trace then env.syms else [] in
      ((shown : List StackAllocs) × Perm shown
          (values_where (λ k c. is_alarm k c m.previous_stacks) leaks)
        × IsDescending shown
        × (checked.1 ≡ map (leak_log (record env { syms = syms }) false) shown))
      × ((key : LeakKey)
          → lookup key checked.0.previous_stacks
            ≡ remembered key (lookup key leaks) m.previous_stacks)
unfolding check_for_new_leaks
check_quick-values sorter env infos m =
    let leaks = group_allocs infos in
    let picked = (pick_quick leaks m.previous_stacks).0 in
    (
      (
        sorter.sort comes_first picked,
        subst (λ ss. Perm (sorter.sort comes_first picked) ss)
            (pick_quick-values leaks m.previous_stacks (group_allocs-IsMap infos)
              ∙ values_where_cong _ _ leaks (λ k c. alarming-is_alarm k c m.previous_stacks))
            (sorter.sort_perm comes_first picked),
        sort-IsDescending sorter picked,
        refl,
      ),
      (λ key. pick_quick-remembered key leaks m.previous_stacks (group_allocs-IsMap infos)),
    )
