-- ===== src/Inputs/Memleak/Kernel/Balance.antt =====
-- What is left in a packed entry after allocations and frees, as `TotalSize` and `NumberOfAllocs` of
-- memleak.go read it.
use arbutus.Base.{
  ℕ, ◌+◌, ◌*◌, ◌%◌, ◌^◌, ◌≤◌, ◌<◌, ◌≡◌, inl, inr, Bool, true, false, List, [], ◌∷◌, some, length,
  ◌==◌, ==_iff, arith, GoMap, lookup, nat_eq, Bool-cases, All, if◌then◌else◌,
}
use arbutus.Inputs.Memleak.Kernel.Statistics.{
  bits_in, Change, add, del, change_all, add-lookup, length-add, del-lookup, del_other, length-del,
}
use arbutus.Inputs.Memleak.Kernel.{bits_of, update_statistics_add, update_statistics_del}
use arbutus.Inputs.Memleak.{total_size, number_of_allocs}

-- The sizes that were added at a stack, and those that were taken off.
abbrev pub added : ℕ → List Change → List ℕ
added j [] = []
added j (add k n ∷ cs) = if k == j then n ∷ added j cs else added j cs
added j (del k n ∷ cs) = added j cs

abbrev pub deleted : ℕ → List Change → List ℕ
deleted j [] = []
deleted j (add k n ∷ cs) = deleted j cs
deleted j (del k n ∷ cs) = if k == j then n ∷ deleted j cs else deleted j cs

abbrev pub sum : List ℕ → ℕ
sum [] = 0
sum (n ∷ ns) = n + sum ns

-- Nothing is taken off at a stack before something has been added there; `b` says that there is an entry.
abbrev pub IsPaired : ℕ → Bool → List Change → Type 0
IsPaired j b [] = Unit
IsPaired j b (add k n ∷ cs) = IsPaired j (if k == j then true else b) cs
IsPaired j b (del k n ∷ cs) = (k ≡ j → b ≡ true) × IsPaired j b cs

packed : List ℕ → ℕ
packed [] = 0
packed (n ∷ ns) = bits_of n + packed ns

bits_of_lt : (n : ℕ) → bits_of n < 2 ^ 41
unfolding bits_of
bits_of_lt n = omega arith

-- The entry is there if `b` says so.
abbrev Has : Bool → ℕ → GoMap ℕ ℕ → Type 0
Has b j m = b ≡ true → (bits : ℕ) × (lookup j m ≡ some bits)

record Balanced (j : ℕ) (cs : List Change) (before after : GoMap ℕ ℕ) : Type 0 where
  even :
      (bits_in (lookup j after) + packed (deleted j cs)) % 2 ^ 64
      ≡ (bits_in (lookup j before) + packed (added j cs)) % 2 ^ 64
  small : bits_in (lookup j after) < 2 ^ 64

change_all-Balanced :
    (j : ℕ) (b : Bool) (cs : List Change) (m : GoMap ℕ ℕ)
    → length m + length cs ≤ 10240
    → IsPaired j b cs
    → Has b j m
    → bits_in (lookup j m) < 2 ^ 64
    → Balanced j cs m (change_all cs m)
unfolding packed
change_all-Balanced j b [] m room paired has lt = record { even = omega arith; small = lt }
change_all-Balanced j b (add k n ∷ cs) m room paired has lt =
    let next = update_statistics_add k n m in
    let fits : length m < 10240 = omega (arith, room) in
    elim (Bool-cases (k == j)) [
      | inl e ↦
          let here = rw e at (add-lookup k j n m fits) in
          let rest =
            change_all-Balanced j true cs next (omega (arith, room, length-add k n m fits))
              (rw e at paired) (λ _. (_, here)) (rw here (omega arith)) in
          record { even = rw e (omega (arith, rw here at (rest.even))); small = rest.small }
      | inr e ↦
          let here = rw e at (add-lookup k j n m fits) in
          let rest =
            change_all-Balanced j b cs next (omega (arith, room, length-add k n m fits))
              (rw e at paired) (λ q. rw here (has q)) (rw here lt) in
          record { even = rw e (rw here at (rest.even)); small = rest.small }
    ]
change_all-Balanced j b (del k n ∷ cs) m room paired has lt =
    let next = update_statistics_del k n m in
    let fits : length next + length cs ≤ 10240 = omega (arith, room, length-del k n m) in
    elim (Bool-cases (k == j)) [
      | inl e ↦
          let (bits, there) = has (paired.0 ((==_iff k j).0 e)) in
          let here = del-lookup k j n bits m e there in
          let rest =
            change_all-Balanced j b cs next fits paired.1 (λ _. (_, here))
              (rw here (omega arith)) in
          record {
            even = rw (e, there) (omega (arith, rw here at (rest.even), bits_of_lt n));
            small = rest.small;
          }
      | inr e ↦
          let here = del_other k j n m e in
          let rest =
            change_all-Balanced j b cs next fits paired.1 (λ q. rw here (has q)) (rw here lt) in
          record { even = rw e (rw here at (rest.even)); small = rest.small }
    ]

-- Sizes that fit their 40 bits.
abbrev pub Small : List ℕ → Type 0
Small = All (λ n. n < 2 ^ 40)

packed-Small : (ns : List ℕ) → Small ns → packed ns ≡ sum ns + 2 ^ 40 * length ns
unfolding packed bits_of
packed-Small [] h = omega arith
packed-Small (n ∷ ns) h = omega (arith, h.0, packed-Small ns h.1)

-- After at most 10240 allocations and frees from an empty map, in which the stack `j` is not freed from
-- before it has been allocated from, and each size that is added or taken off there is below 2^40: if
-- what is left there fits 40 bits and its number 24 bits, `TotalSize` and `NumberOfAllocs` read off the packed entry the bytes that were allocated there and not freed, and the
-- number of the allocations, although each change adds or subtracts both at once.
pub change_all-total :
    (j : ℕ) (cs : List Change) (left count : ℕ)
    → length cs ≤ 10240
    → IsPaired j false cs
    → Small (added j cs)
    → Small (deleted j cs)
    → sum (added j cs) ≡ sum (deleted j cs) + left
    → length (added j cs) ≡ length (deleted j cs) + count
    → left < 2 ^ 40
    → count < 2 ^ 24
    → (total_size (bits_in (lookup j (change_all cs []))) ≡ left)
      × (number_of_allocs (bits_in (lookup j (change_all cs []))) ≡ count)
unfolding total_size number_of_allocs
change_all-total j cs left count few paired came gone sizes counts fits_size fits_count =
    let b =
      change_all-Balanced j false cs [] (omega (arith, few)) paired (λ q. absurd cc)
        (omega arith) in
    let bits : bits_in (lookup j (change_all cs [])) ≡ left + 2 ^ 40 * count = omega (
      arith,
      b.even,
      b.small,
      packed-Small (added j cs) came,
      packed-Small (deleted j cs) gone,
      sizes,
      counts,
      fits_size,
      fits_count,
    ) in
    rw bits (omega (arith, fits_size, fits_count), omega (arith, fits_size, fits_count))
