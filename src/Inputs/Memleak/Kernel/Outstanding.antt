-- ===== src/Inputs/Memleak/Kernel/Outstanding.antt =====
-- What `checkForNewLeaks` finds in the map `allocs`, against the tracepoints that were hit.
use arbutus.Base.{
  ℕ, ◌+◌, ◌%◌, ◌^◌, ◌≤◌, ◌≡◌, refl, sym, ap, ◌∙◌, inl, inr, List, [], ◌∷◌, Option, none, some,
  length, arith, GoMap, IsMap, lookup, nat_eq, Bool-cases, if◌then◌else◌,
}
use arbutus.Inputs.Memleak.Kernel.Cells.{cell_after, run-cells}
use arbutus.Inputs.Memleak.Kernel.Sums.{Outside, Distinct, weigh, sum, entries_sum, sum-lookup}
use arbutus.Inputs.Memleak.Kernel.{Constants, Moment, Hit, allocs_max_entries, loaded, run}
use arbutus.Inputs.Memleak.Leaks.Totals.{is_key, of_key, total, summary, group_allocs-lookup}
use arbutus.Inputs.Memleak.Leaks.{AllocInfo, StackAllocs, group_allocs}
use arbutus.Inputs.Memleak.{LeakKey, key_eq}

-- The allocations that the iterator of the map visits.
abbrev pub values : GoMap ℕ AllocInfo → List AllocInfo
values [] = []
values ((a, info) ∷ m) = info ∷ values m

-- What an allocation adds to the bytes and to the number of a process and stack.
abbrev pub bytes_for : LeakKey → AllocInfo → ℕ
bytes_for key info = if is_key key info.stack_id info then info.size else 0

abbrev pub one_for : LeakKey → AllocInfo → ℕ
one_for key info = if is_key key info.stack_id info then 1 else 0

-- What the leak map says; nothing is none.
abbrev pub bytes_in : Option StackAllocs → ℕ
bytes_in none = 0
bytes_in (some s) = s.size

abbrev pub number_in : Option StackAllocs → ℕ
number_in none = 0
number_in (some s) = s.count

total-of_key :
    (key : LeakKey) (m : GoMap ℕ AllocInfo)
    → total (of_key key (values m)) ≡ entries_sum (bytes_for key) m
total-of_key key [] = refl
total-of_key key ((a, info) ∷ m) = elim (Bool-cases (is_key key info.stack_id info)) [
  | inl q ↦ rw q (omega (arith, total-of_key key m))
  | inr q ↦ rw q (omega (arith, total-of_key key m))
]

length-of_key :
    (key : LeakKey) (m : GoMap ℕ AllocInfo)
    → length (of_key key (values m)) ≡ entries_sum (one_for key) m
length-of_key key [] = refl
length-of_key key ((a, info) ∷ m) = elim (Bool-cases (is_key key info.stack_id info)) [
  | inl q ↦ rw q (omega (arith, length-of_key key m))
  | inr q ↦ rw q (omega (arith, length-of_key key m))
]

bytes_in-summary : (infos : List AllocInfo) → bytes_in (summary infos) ≡ total infos % 2 ^ 64
bytes_in-summary [] = refl
bytes_in-summary (info ∷ infos) = omega arith

number_in-summary : (infos : List AllocInfo) → number_in (summary infos) ≡ length infos % 2 ^ 64
number_in-summary [] = refl
number_in-summary (info ∷ infos) = omega arith

sum-as :
    (weight : AllocInfo → ℕ) (f g : ℕ → Option AllocInfo) (xs : List ℕ)
    → ((a : ℕ) → f a ≡ g a)
    → sum weight f xs ≡ sum weight g xs
sum-as weight f g [] h = refl
sum-as weight f g (a ∷ xs) h = rw (h a) (ap (λ n. weigh weight (g a) + n) (sum-as weight f g xs h))

-- Let the programs be hit at most a million times, and let the addresses outside a list, which has each
-- address once, hold nothing at the end. Then a check of the plugin, in whatever order it visits the map,
-- finds for each process and stack as many bytes and allocations as the cells of these addresses hold for
-- it, modulo 2^64: each allocation whose size is traced and that has not been freed, once.
pub run-reported :
    (k : Constants) (hs : List (Moment × Hit)) (addresses : List ℕ) (entries : GoMap ℕ AllocInfo)
    (key : LeakKey)
    → length hs ≤ allocs_max_entries
    → IsMap entries
    → ((a : ℕ) → lookup a entries ≡ lookup a (run k hs loaded).allocs)
    → Distinct addresses
    → ((a : ℕ) → Outside a addresses → cell_after k hs a none ≡ none)
    → (bytes_in (lookup key (group_allocs (values entries)))
        ≡ sum (bytes_for key) (λ a. cell_after k hs a none) addresses % 2 ^ 64)
      × (number_in (lookup key (group_allocs (values entries)))
          ≡ sum (one_for key) (λ a. cell_after k hs a none) addresses % 2 ^ 64)
run-reported k hs addresses entries key few one_each same distinct outside =
    let cells = λ (a : ℕ). same a ∙ run-cells k hs a few in
    let inside = λ (a : ℕ) (out : Outside a addresses). cells a ∙ outside a out in
    let found = group_allocs-lookup key (values entries) in
    let bytes = sum-lookup (bytes_for key) entries addresses one_each distinct inside in
    let number = sum-lookup (one_for key) entries addresses one_each distinct inside in
    let agree = λ (weight : AllocInfo → ℕ).
      sum-as weight (λ a. lookup a entries) (λ a. cell_after k hs a none) addresses cells in
    (
      ap bytes_in found
          ∙ bytes_in-summary (of_key key (values entries))
          ∙ ap (λ n. n % 2 ^ 64) (total-of_key key entries ∙ sym bytes ∙ agree (bytes_for key)),
      ap number_in found
          ∙ number_in-summary (of_key key (values entries))
          ∙ ap (λ n. n % 2 ^ 64) (length-of_key key entries ∙ sym number ∙ agree (one_for key)),
    )
