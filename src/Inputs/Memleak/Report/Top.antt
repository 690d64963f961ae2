-- ===== src/Inputs/Memleak/Report/Top.antt =====
-- The detailed report: what it picks, and that it writes the ten largest.
use mathlib.Core.List.{Perm, Permᴰ}
use mathlib.Core.Logic.{∥∥₁_elim}
use native.Mathlib.Nat.{ℕ_set}
use Prim.Native.Nat.{min}
use mathlib.Core.Path.{subst}
use arbutus.Base.{
  true, false, arith, ℕ, zero, suc, ◌≤◌, ◌≡◌, refl, sym, ap, ◌∙◌, true, List, [], ◌∷◌, ◌++◌, map,
  none, if◌then◌else◌, leb, length, length-take, take, drop, take-append-drop, filter, All, insert,
}
use arbutus.Inputs.Memleak.Leaks.{AllocInfo, StackAllocs, LeakMap, group_allocs}
use arbutus.Inputs.Memleak.Report.{
  Previous, comes_first, IsWeakOrder, IsSortedBy, Sorter, Surroundings, pick_detailed,
  check_for_new_leaks, leak_log,
}
use arbutus.Inputs.Memleak.{Memleak, key_eq}

perm-length : {xs ys : List StackAllocs} → Perm xs ys → length xs ≡ length ys
perm-length {xs} {ys} p = ∥∥₁_elim p (ℕ_set (length xs) (length ys)) go
  where
    go : {us vs : List StackAllocs} → Permᴰ us vs → length us ≡ length vs
    go Permᴰ.nil = refl
    go (Permᴰ.cons e q) = ap suc (go q)
    go (Permᴰ.swap e f) = refl
    go (Permᴰ.trans q r) = go q ∙ go r

-- Sizes do not rise along the list.
abbrev pub IsDescending : List StackAllocs → Type 0
IsDescending [] = Unit
IsDescending (s ∷ ss) = All (λ t. t.size ≤ s.size) ss × IsDescending ss

comes_first-IsWeakOrder : IsWeakOrder comes_first
unfolding comes_first
comes_first-IsWeakOrder = record {
  asymmetric = λ s t h. ground arith;
  negative = λ s t u h i. ground arith;
}

All-smaller :
    (s : StackAllocs) (ss : List StackAllocs)
    → All (λ t. comes_first t s ≡ false) ss
    → All (λ t. t.size ≤ s.size) ss
unfolding comes_first
All-smaller s [] h = tt
All-smaller s (t ∷ ss) (h, hs) = (ground arith, All-smaller s ss hs)

IsSortedBy-IsDescending : (ss : List StackAllocs) → IsSortedBy comes_first ss → IsDescending ss
IsSortedBy-IsDescending [] h = tt
IsSortedBy-IsDescending (s ∷ ss) (h, hs) = (All-smaller s ss h, IsSortedBy-IsDescending ss hs)

pub sort-IsDescending :
    (sorter : Sorter) (picked : List StackAllocs) → IsDescending (sorter.sort comes_first picked)
sort-IsDescending sorter picked =
    IsSortedBy-IsDescending (sorter.sort comes_first picked)
      (sorter.sort_sorted comes_first comes_first-IsWeakOrder picked)

-- `shown` are the largest `n` of `picked`, or all if there are fewer, by descending size.
pub record IsTop (n : ℕ) (picked shown : List StackAllocs) : Type 0 where
  pub rest : List StackAllocs
  pub complete : Perm (shown ++ rest) picked
  pub length_is : length shown ≡ min n (length picked)
  pub descending : IsDescending shown
  pub largest : All (λ s. All (λ r. r.size ≤ s.size) rest) shown

All-take {κ} :
    (P : StackAllocs → Type κ) (n : ℕ) (ss : List StackAllocs) → All P ss → All P (take n ss)
All-take P zero ss h = tt
All-take P (suc n) [] h = tt
All-take P (suc n) (s ∷ ss) (h, hs) = (h, All-take P n ss hs)

All-drop {κ} :
    (P : StackAllocs → Type κ) (n : ℕ) (ss : List StackAllocs) → All P ss → All P (drop n ss)
All-drop P zero ss h = h
All-drop P (suc n) [] h = tt
All-drop P (suc n) (s ∷ ss) (h, hs) = All-drop P n ss hs

IsDescending-take : (n : ℕ) (ss : List StackAllocs) → IsDescending ss → IsDescending (take n ss)
IsDescending-take zero ss h = tt
IsDescending-take (suc n) [] h = tt
IsDescending-take (suc n) (s ∷ ss) (h, hs) =
    (All-take (λ t. t.size ≤ s.size) n ss h, IsDescending-take n ss hs)

take-largest :
    (n : ℕ) (ss : List StackAllocs)
    → IsDescending ss
    → All (λ s. All (λ r. r.size ≤ s.size) (drop n ss)) (take n ss)
take-largest zero ss h = tt
take-largest (suc n) [] h = tt
take-largest (suc n) (s ∷ ss) (h, hs) =
    (All-drop (λ t. t.size ≤ s.size) n ss h, take-largest n ss hs)

take-IsTop :
    (sorter : Sorter) (n : ℕ) (picked : List StackAllocs)
    → IsTop n picked (take n (sorter.sort comes_first picked))
take-IsTop sorter n picked =
    let sorted = sorter.sort comes_first picked in
    let descends = sort-IsDescending sorter picked in
    record {
      rest = drop n sorted;
      complete =
          subst (λ ss. Perm ss picked) (sym (take-append-drop n sorted))
            (sorter.sort_perm comes_first picked);
      length_is =
          length-take n sorted
          ∙ ap (min n)
              (perm-length {xs = sorted} {ys = picked} (sorter.sort_perm comes_first picked));
      descending = IsDescending-take n sorted descends;
      largest = take-largest n sorted descends;
    }

abbrev pub values : LeakMap → List StackAllocs
values [] = []
values ((key, current) ∷ leaks) = current ∷ values leaks

pick_detailed-filter :
    (threshold : ℕ) (leaks : LeakMap) (previous : Previous)
    → (pick_detailed threshold leaks previous).0 ≡ filter (λ s. leb threshold s.size) (values leaks)
unfolding pick_detailed
pick_detailed-filter threshold [] previous = refl
pick_detailed-filter threshold ((key, current) ∷ leaks) previous =
    rw (pick_detailed-filter threshold leaks (insert key current.size previous))

-- A detailed report logs the ten largest of the stacks whose outstanding bytes reach the threshold,
-- or all of them if there are fewer, by descending size.
pub check_detailed-IsTop :
    (sorter : Sorter) (env : Surroundings) (infos : List AllocInfo) (m : Memleak)
    → let leaks = filter (λ s. leb m.min_leak_threshold s.size) (values (group_allocs infos)) in
      let syms = if m.kernel_trace then env.syms else [] in
      (shown : List StackAllocs) × IsTop 10 leaks shown
      × ((check_for_new_leaks sorter env infos none true m).1
          ≡ map (leak_log (record env { syms = syms }) true) shown)
unfolding check_for_new_leaks
check_detailed-IsTop sorter env infos m =
    let picked = filter (λ s. leb m.min_leak_threshold s.size) (values (group_allocs infos)) in
    (
      take 10 (sorter.sort comes_first picked),
      take-IsTop sorter 10 picked,
      rw (pick_detailed-filter m.min_leak_threshold (group_allocs infos) m.previous_stacks),
    )
