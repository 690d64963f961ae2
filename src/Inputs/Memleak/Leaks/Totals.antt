-- ===== src/Inputs/Memleak/Leaks/Totals.antt =====
-- What the grouped map holds for a process and stack.
use arbutus.Base.{
  ℕ, ◌+◌, ◌%◌, ◌^◌, ◌≡◌, refl, sym, ap, ◌∙◌, inl, inr, Bool, false, List, [], ◌∷◌, Option, none,
  some, arith, Bool-cases, if◌then◌else◌, length, lookup, lookup-insert, IsMap, IsMap-insert,
}
use arbutus.Inputs.Memleak.Leaks.{
  AllocInfo, StackAllocs, LeakMap, key_of, fresh, or_fresh, grow, group_at, group_from,
  group_allocs,
}
use arbutus.Inputs.Memleak.{LeakKey, key_eq, beq_key, beq_key_iff}
use arbutus.Models.{ℤ, pos, negsuc}

abbrev pub is_key : LeakKey → ℤ → AllocInfo → Bool
is_key key (negsuc n) info = false
is_key key (pos n) info = beq_key (key_of info) key

-- The allocations of this process and stack, in the order of the iterator; none have a negative
-- stack id.
abbrev pub of_key : LeakKey → List AllocInfo → List AllocInfo
of_key key [] = []
of_key key (info ∷ infos) =
    if is_key key info.stack_id info then info ∷ of_key key infos else of_key key infos

abbrev pub total : List AllocInfo → ℕ
total [] = 0
total (info ∷ infos) = info.size + total infos

-- These allocations, added to an entry.
abbrev pub plus : StackAllocs → List AllocInfo → StackAllocs
plus s infos = record s {
  size = (s.size + total infos) % 2 ^ 64;
  count = (s.count + length infos) % 2 ^ 64;
}

-- The entry of a key with these allocations: none if there are none; else their sum and number, in
-- uint64, under the name that the first one has.
abbrev pub summary : List AllocInfo → Option StackAllocs
summary [] = none
summary (info ∷ infos) = some (plus (fresh info) (info ∷ infos))

-- What an entry is after the allocations that follow.
extend : Option StackAllocs → List AllocInfo → Option StackAllocs
extend none infos = summary infos
extend (some s) [] = some s
extend (some s) (info ∷ infos) = some (plus s (info ∷ infos))

grow-plus :
    (s : StackAllocs) (info : AllocInfo) (infos : List AllocInfo)
    → plus (grow s info.size) infos ≡ plus s (info ∷ infos)
grow-plus s info infos =
    let size_eq : ((s.size + info.size) % 2 ^ 64 + total infos) % 2 ^ 64
        ≡ (s.size + (info.size + total infos)) % 2 ^ 64 =
      omega arith in
    let count_eq : ((s.count + 1) % 2 ^ 64 + length infos) % 2 ^ 64
        ≡ (s.count + length (info ∷ infos)) % 2 ^ 64 =
      omega arith in
    λ i. record s { size = size_eq i; count = count_eq i }

grow-one : (s : StackAllocs) (info : AllocInfo) → grow s info.size ≡ plus s (info ∷ [])
grow-one s info =
    let size_eq : (s.size + info.size) % 2 ^ 64 ≡ (s.size + total (info ∷ [])) % 2 ^ 64 =
      omega arith in
    λ i. record s { size = size_eq i; count = (s.count + 1) % 2 ^ 64 }

extend-grow :
    (o : Option StackAllocs) (info : AllocInfo) (infos : List AllocInfo)
    → extend (some (grow (or_fresh o info) info.size)) infos ≡ extend o (info ∷ infos)
unfolding extend
extend-grow none info [] = ap some (grow-one (fresh info) info)
extend-grow none info (i ∷ infos) = ap some (grow-plus (fresh info) info (i ∷ infos))
extend-grow (some s) info [] = ap some (grow-one s info)
extend-grow (some s) info (i ∷ infos) = ap some (grow-plus s info (i ∷ infos))

extend-nil : (o : Option StackAllocs) → extend o [] ≡ o
unfolding extend
extend-nil none = refl
extend-nil (some s) = refl

group_at-IsMap :
    (stack_id : ℤ) (info : AllocInfo) (leaks : LeakMap)
    → IsMap leaks
    → IsMap (group_at stack_id info leaks)
unfolding group_at
group_at-IsMap (negsuc n) info leaks h = h
group_at-IsMap (pos n) info leaks h =
    IsMap-insert (key_of info) (grow (or_fresh (lookup (key_of info) leaks) info) info.size) leaks h

-- One allocation.
group_at-lookup :
    (key : LeakKey) (stack_id : ℤ) (info : AllocInfo) (infos : List AllocInfo) (leaks : LeakMap)
    → extend (lookup key (group_at stack_id info leaks)) infos
      ≡ extend (lookup key leaks) (if is_key key stack_id info then info ∷ infos else infos)
unfolding group_at
group_at-lookup key (negsuc n) info infos leaks = refl
group_at-lookup key (pos n) info infos leaks =
    rw
      (lookup-insert (key_of info) key (grow (or_fresh (lookup (key_of info) leaks) info) info.size)
        leaks)
      (elim (Bool-cases (beq_key (key_of info) key)) [
        | inl same ↦ rw same (
            rw ((beq_key_iff (key_of info) key).0 same) (extend-grow (lookup key leaks) info infos))
        | inr other ↦ rw other refl
      ])

group_from-lookup :
    (key : LeakKey) (infos : List AllocInfo) (leaks : LeakMap)
    → lookup key (group_from leaks infos) ≡ extend (lookup key leaks) (of_key key infos)
unfolding group_from
group_from-lookup key [] leaks = sym (extend-nil (lookup key leaks))
group_from-lookup key (info ∷ infos) leaks =
    group_from-lookup key infos (group_at info.stack_id info leaks)
    ∙ group_at-lookup key info.stack_id info (of_key key infos) leaks

-- For every process and stack, `leakMap` has an entry just where an allocation of theirs is
-- outstanding; the entry holds the sum of their sizes and their number, both modulo 2^64, and the
-- process name that the first of them has. Allocations with a negative stack id count nowhere.
pub group_allocs-lookup :
    (key : LeakKey) (infos : List AllocInfo)
    → lookup key (group_allocs infos) ≡ summary (of_key key infos)
unfolding group_allocs extend
group_allocs-lookup key infos = group_from-lookup key infos []

group_from-IsMap :
    (infos : List AllocInfo) (leaks : LeakMap) → IsMap leaks → IsMap (group_from leaks infos)
unfolding group_from
group_from-IsMap [] leaks h = h
group_from-IsMap (info ∷ infos) leaks h =
    group_from-IsMap infos (group_at info.stack_id info leaks)
      (group_at-IsMap info.stack_id info leaks h)

-- Each key once.
pub group_allocs-IsMap : (infos : List AllocInfo) → IsMap (group_allocs infos)
unfolding group_allocs
group_allocs-IsMap infos = group_from-IsMap infos [] tt
