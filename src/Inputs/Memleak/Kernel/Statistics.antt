-- ===== src/Inputs/Memleak/Kernel/Statistics.antt =====
-- What an allocation or a free does to the packed entry of a stack in the map `combined_allocs`.
use mathlib.Core.Path.{subst}
use arbutus.Base.{
  ℕ, suc, ◌+◌, ◌-◌, ◌%◌, ◌^◌, ◌≤◌, ◌<◌, ◌≡◌, refl, sym, ap, ◌∙◌, inl, inr, true, false, List, [],
  ◌∷◌, Option, none, some, length, ◌==◌, ==_iff, arith, GoMap, lookup, lookup-insert, length-insert,
  length-insert_present, nat_eq, Bool-cases, Option-cases, if◌then◌else◌,
}
use arbutus.Inputs.Memleak.Kernel.Steps.{update-room}
use arbutus.Inputs.Memleak.Kernel.{
  bits_of, lookup_or_try_init, adjust, update_statistics_add, update_statistics_del,
}

-- The bits of an entry, or 0.
abbrev pub bits_in : Option ℕ → ℕ
bits_in none = 0
bits_in (some bits) = bits

-- What the programs do to the map: an allocation or a free of this size, by its stack.
pub data Change : Type 0 where
  add del : (stack_id size : ℕ) → Change

abbrev pub change : Change → GoMap ℕ ℕ → GoMap ℕ ℕ
change (add k n) m = update_statistics_add k n m
change (del k n) m = update_statistics_del k n m

abbrev pub change_all : List Change → GoMap ℕ ℕ → GoMap ℕ ℕ
change_all [] m = m
change_all (c ∷ cs) m = change_all cs (change c m)

adjust-lookup :
    (f : ℕ → ℕ) (k j : ℕ) (m : GoMap ℕ ℕ)
    → lookup j (adjust f k m) ≡ elim (lookup k m) [
      | none ↦ lookup j m
      | some bits ↦ if k == j then some (f bits) else lookup j m
    ]
unfolding adjust
adjust-lookup f k j m = elim (Option-cases (lookup k m)) [
  | inl q ↦ rw (q, adjust) refl
  | inr (bits, q) ↦ rw (q, adjust) (lookup-insert k j (f bits) m)
]

-- The entry of a stack is there or is made, with its bits as they were.
try_init-lookup :
    (k j : ℕ) (m : GoMap ℕ ℕ)
    → length m < 10240
    → lookup j (lookup_or_try_init k m)
      ≡ (if k == j then some (bits_in (lookup k m)) else lookup j m)
unfolding lookup_or_try_init
try_init-lookup k j m h = elim (Option-cases (lookup k m)) [
  | inl q ↦ rw (q, lookup_or_try_init) (rw (update-room 10240 k 0 m h) (lookup-insert k j 0 m))
  | inr (bits, q) ↦
      rw (q, lookup_or_try_init)
        (elim (Bool-cases (k == j)) [
          | inl e ↦ rw e (subst (λ i. lookup i m ≡ some bits) ((==_iff k j).0 e) q)
          | inr e ↦ rw e refl
        ])
]

length-adjust : (f : ℕ → ℕ) (k : ℕ) (m : GoMap ℕ ℕ) → length (adjust f k m) ≡ length m
unfolding adjust
length-adjust f k m = elim (Option-cases (lookup k m)) [
  | inl q ↦ rw (q, adjust) refl
  | inr (bits, q) ↦ rw (q, adjust) (length-insert_present k (f bits) bits m q)
]

length-try_init :
    (k : ℕ) (m : GoMap ℕ ℕ) → length m < 10240 → length (lookup_or_try_init k m) ≤ suc (length m)
unfolding lookup_or_try_init
length-try_init k m h = elim (Option-cases (lookup k m)) [
  | inl q ↦ rw (q, lookup_or_try_init) (rw (update-room 10240 k 0 m h) (length-insert k 0 m))
  | inr (bits, q) ↦ rw (q, lookup_or_try_init) (omega arith)
]

pub length-add :
    (k n : ℕ) (m : GoMap ℕ ℕ)
    → length m < 10240
    → length (update_statistics_add k n m) ≤ suc (length m)
unfolding update_statistics_add
length-add k n m h = omega (
  arith,
  length-adjust (λ bits. (bits + bits_of n) % 2 ^ 64) k (lookup_or_try_init k m),
  length-try_init k m h,
)

pub length-del : (k n : ℕ) (m : GoMap ℕ ℕ) → length (update_statistics_del k n m) ≡ length m
unfolding update_statistics_del
length-del k n m = length-adjust (λ bits. (bits + 2 ^ 64 - bits_of n) % 2 ^ 64) k m

pub add-lookup :
    (k j n : ℕ) (m : GoMap ℕ ℕ)
    → length m < 10240
    → lookup j (update_statistics_add k n m)
      ≡ (if k == j then some ((bits_in (lookup j m) + bits_of n) % 2 ^ 64) else lookup j m)
unfolding update_statistics_add
add-lookup k j n m h =
    let there = try_init-lookup k k m h in
    let found = adjust-lookup (λ bits. (bits + bits_of n) % 2 ^ 64) k j (lookup_or_try_init k m) in
    let made = rw (rw ((==_iff k k).1 refl) at there) at found in
    elim (Bool-cases (k == j)) [
      | inl e ↦ rw e (
          rw e at made
          ∙ ap (λ i. some ((bits_in (lookup i m) + bits_of n) % 2 ^ 64)) ((==_iff k j).0 e))
      | inr e ↦ rw e (rw e at made ∙ rw e at (try_init-lookup k j m h))
    ]

pub del-lookup :
    (k j n bits : ℕ) (m : GoMap ℕ ℕ)
    → k == j ≡ true
    → lookup j m ≡ some bits
    → lookup j (update_statistics_del k n m) ≡ some ((bits + 2 ^ 64 - bits_of n) % 2 ^ 64)
unfolding update_statistics_del
del-lookup k j n bits m e h =
    let here : lookup k m ≡ some bits =
      subst (λ i. lookup i m ≡ some bits) (sym ((==_iff k j).0 e)) h in
    rw (here, e) at (adjust-lookup (λ bits. (bits + 2 ^ 64 - bits_of n) % 2 ^ 64) k j m)

pub del_other :
    (k j n : ℕ) (m : GoMap ℕ ℕ)
    → k == j ≡ false
    → lookup j (update_statistics_del k n m) ≡ lookup j m
unfolding update_statistics_del
del_other k j n m e =
    let found = adjust-lookup (λ bits. (bits + 2 ^ 64 - bits_of n) % 2 ^ 64) k j m in
    elim (Option-cases (lookup k m)) [ inl q ↦ rw q at found | inr (bits, q) ↦ rw (q, e) at found ]
