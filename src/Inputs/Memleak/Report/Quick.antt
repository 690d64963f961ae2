-- ===== src/Inputs/Memleak/Report/Quick.antt =====
-- The quick check: what it reports, and that it does not repeat itself.
use mathlib.Core.List.Perm
use arbutus.Base.{
  ◌≡◌, refl, sym, ◌∙◌, ◌≢◌, inl, inr, Bool, false, List, [], ◌∷◌, none, some, arith, Bool-cases,
  Option-cases, some_eq, ◌≤◌, lookup-Lacks, if◌then◌else◌, lookup, insert, lookup-insert, Lacks,
  IsMap,
}
use arbutus.Inputs.Memleak.Leaks.Totals.{group_allocs-IsMap}
use arbutus.Inputs.Memleak.Leaks.{AllocInfo, StackAllocs, LeakMap, group_allocs}
use arbutus.Inputs.Memleak.Report.{
  Previous, comes_first, Sorter, Surroundings, alarming, pick_quick, check_for_new_leaks,
}
use arbutus.Inputs.Memleak.{Memleak, LeakKey, key_eq, beq_key, beq_key_iff}

-- The memory that the loop goes on with after one entry.
abbrev pub remember : LeakKey → StackAllocs → Previous → Previous
remember key current previous =
    if alarming key current previous then insert key current.size previous else previous

pub remember-lookup :
    (key other : LeakKey) (current : StackAllocs) (previous : Previous)
    → key ≢ other
    → lookup other (remember key current previous) ≡ lookup other previous
remember-lookup key other current previous ne = elim (Bool-cases (alarming key current previous)) [
  | inl q ↦
      rw q (ground (arith, lookup-insert key other current.size previous, beq_key_iff key other))
  | inr q ↦ rw q
]

pub pick_quick-lookup :
    (other : LeakKey) (leaks : LeakMap) (previous : Previous)
    → Lacks other leaks
    → lookup other (pick_quick leaks previous).1 ≡ lookup other previous
unfolding pick_quick
pick_quick-lookup other [] previous h = refl
pick_quick-lookup other ((key, current) ∷ leaks) previous (ne, h) =
    pick_quick-lookup other leaks (remember key current previous) h
    ∙ remember-lookup key other current previous ne

-- No entry would be reported.
abbrev pub IsQuiet : LeakMap → Previous → Type 0
IsQuiet [] previous = Unit
IsQuiet ((key, current) ∷ leaks) previous =
    (alarming key current previous ≡ false) × IsQuiet leaks previous

-- Once its size is remembered, or it was not alarming, an entry is quiet.
remember-quiet :
    (key : LeakKey) (current : StackAllocs) (previous after : Previous)
    → lookup key after ≡ lookup key (remember key current previous)
    → alarming key current after ≡ false
remember-quiet key current previous after e = elim (Bool-cases (alarming key current previous)) [
  | inl q ↦
      rw (e, q) (ground (arith, lookup-insert key key current.size previous, beq_key_iff key key))
  | inr q ↦ rw (e, q) q
]

pick_quick-IsQuiet :
    (leaks : LeakMap) (previous : Previous)
    → IsMap leaks
    → IsQuiet leaks (pick_quick leaks previous).1
unfolding pick_quick
pick_quick-IsQuiet [] previous h = tt
pick_quick-IsQuiet ((key, current) ∷ leaks) previous (l, h) = (
  remember-quiet key current previous (pick_quick leaks (remember key current previous)).1
      (pick_quick-lookup key leaks (remember key current previous) l),
  pick_quick-IsQuiet leaks (remember key current previous) h,
)

IsQuiet-pick_quick :
    (leaks : LeakMap) (previous : Previous)
    → IsQuiet leaks previous
    → pick_quick leaks previous ≡ ([], previous)
unfolding pick_quick
IsQuiet-pick_quick [] previous h = refl
IsQuiet-pick_quick ((key, current) ∷ leaks) previous (q, h) =
    rw (q, IsQuiet-pick_quick leaks previous h)

sort-nil : (sorter : Sorter) → sorter.sort comes_first [] ≡ []
sort-nil sorter = Perm.eq-nil (sorter.sort_perm comes_first [])

IsQuiet-lookup :
    (leaks : LeakMap) (previous : Previous) (key : LeakKey) (current : StackAllocs)
    → IsQuiet leaks previous
    → lookup key leaks ≡ some current
    → alarming key current previous ≡ false
IsQuiet-lookup [] previous key current h e = cc
IsQuiet-lookup ((k, c) ∷ leaks) previous key current (q, h) e = elim (Bool-cases (beq_key k key)) [
  | inl same ↦ rw (← some_eq (rw same at e), ← (beq_key_iff k key).0 same) q
  | inr other ↦ IsQuiet-lookup leaks previous key current h (rw other at e)
]

-- Each entry of the second map was there in the first, and has not grown since.
abbrev pub NoNews : LeakMap → LeakMap → Type 0
NoNews before after =
    (key : LeakKey) (current : StackAllocs)
    → lookup key after ≡ some current
    → (old : StackAllocs) × (lookup key before ≡ some old) × (current.size ≤ old.size)

alarming_mono :
    (key : LeakKey) (current old : StackAllocs) (previous : Previous)
    → current.size ≤ old.size
    → alarming key old previous ≡ false
    → alarming key current previous ≡ false
alarming_mono key current old previous h q = elim (Option-cases (lookup key previous)) [
  | inl e ↦ rw e (ground (arith, rw e at q))
  | inr (n, e) ↦ rw e (ground (arith, rw e at q))
]

IsQuiet-of_lookup :
    (leaks : LeakMap) (previous : Previous)
    → IsMap leaks
    → ((key : LeakKey) (current : StackAllocs)
        → lookup key leaks ≡ some current
        → alarming key current previous ≡ false)
    → IsQuiet leaks previous
IsQuiet-of_lookup [] previous h quiet = tt
IsQuiet-of_lookup ((k, c) ∷ leaks) previous (l, h) quiet = (
  quiet k c (rw ((beq_key_iff k k).1 refl)),
  IsQuiet-of_lookup leaks previous h λ key current e.
      quiet key current (elim (Bool-cases (beq_key k key)) [
        | inl same ↦ absurd (cc (lookup-Lacks k leaks l, (beq_key_iff k key).0 same))
        | inr other ↦ rw other e
      ]),
)

-- A quick check that follows a quick check, with no process and stack whose outstanding bytes are new
-- or have grown in between, in whatever order the allocations come: it reports nothing and changes
-- nothing.
pub check_again :
    (sorter : Sorter) (env later : Surroundings) (infos infos' : List AllocInfo) (m : Memleak)
    → NoNews (group_allocs infos) (group_allocs infos')
    → let m' = (check_for_new_leaks sorter env infos none false m).0 in
      check_for_new_leaks sorter later infos' none false m' ≡ (m', [], none)
unfolding check_for_new_leaks
check_again sorter env later infos infos' m stale =
    let after = (pick_quick (group_allocs infos) m.previous_stacks).1 in
    let quiet =
      pick_quick-IsQuiet (group_allocs infos) m.previous_stacks (group_allocs-IsMap infos) in
    rw (
      IsQuiet-pick_quick (group_allocs infos') after (
          IsQuiet-of_lookup (group_allocs infos') after (group_allocs-IsMap infos') λ key current e.
            let (old, q, h) = stale key current e in
            alarming_mono key current old after h
              (IsQuiet-lookup (group_allocs infos) after key old quiet q)),
      sort-nil sorter,
    )

-- The values of the entries that a test passes, in order.
abbrev pub values_where : (LeakKey → StackAllocs → Bool) → LeakMap → List StackAllocs
values_where test [] = []
values_where test ((key, current) ∷ leaks) =
    if test key current then current ∷ values_where test leaks else values_where test leaks

remember-values :
    (key : LeakKey) (current : StackAllocs) (leaks : LeakMap) (previous : Previous)
    → Lacks key leaks
    → values_where (λ k c. alarming k c (remember key current previous)) leaks
      ≡ values_where (λ k c. alarming k c previous) leaks
remember-values key current [] previous h = refl
remember-values key current ((k, c) ∷ leaks) previous (ne, h) = rw (
  remember-lookup key k current previous (λ e. ne (sym e)),
  remember-values key current leaks previous h,
)

-- A quick check picks exactly the stacks with more than 10 MiB outstanding whose size is not yet
-- remembered or is above the remembered one, by the memory as it was before the check.
pub pick_quick-values :
    (leaks : LeakMap) (previous : Previous)
    → IsMap leaks
    → (pick_quick leaks previous).0 ≡ values_where (λ k c. alarming k c previous) leaks
unfolding pick_quick
pick_quick-values [] previous h = refl
pick_quick-values ((key, current) ∷ leaks) previous (l, h) = rw (
  pick_quick-values leaks (remember key current previous) h,
  remember-values key current leaks previous l,
)
