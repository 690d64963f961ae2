-- ===== src/Inputs/Memleak/Kernel/Sums.antt =====
-- Sums over a map, taken entry by entry or address by address.
use mathlib.Core.Path.{subst}
use arbutus.Base.{
  ℕ, ◌+◌, ◌≡◌, ◌≢◌, refl, inl, inr, Bool, true, false, List, [], ◌∷◌, Option, none, some, ◌==◌,
  ==_iff, sym, arith, All, GoMap, IsMap, Lacks, lookup, lookup-Lacks, nat_eq, Bool-cases,
  if◌then◌else◌,
}

-- No address of the list is this one; each address once.
abbrev pub Outside : ℕ → List ℕ → Type 0
Outside a = All (λ b. b ≢ a)

abbrev pub Distinct : List ℕ → Type 0
Distinct [] = Unit
Distinct (a ∷ xs) = Outside a xs × Distinct xs

module _ {V : Type 0} (weight : V → ℕ) where
  abbrev pub weigh : Option V → ℕ
  weigh none = 0
  weigh (some v) = weight v

  -- The sum of the cells at these addresses.
  abbrev pub sum : (ℕ → Option V) → List ℕ → ℕ
  sum cell [] = 0
  sum cell (a ∷ xs) = weigh (cell a) + sum cell xs

  abbrev pub entries_sum : GoMap ℕ V → ℕ
  entries_sum [] = 0
  entries_sum ((k, v) ∷ m) = weight v + entries_sum m

  abbrev member : ℕ → List ℕ → Bool
  member a [] = false
  member a (b ∷ bs) = if a == b then true else member a bs

  Outside-member : (a : ℕ) (xs : List ℕ) → Outside a xs → member a xs ≡ false
  Outside-member a [] h = refl
  Outside-member a (b ∷ bs) h = ground (arith, Outside-member a bs h.1)

  member-Outside : (a : ℕ) (xs : List ℕ) → member a xs ≡ false → Outside a xs
  member-Outside a [] h = tt
  member-Outside a (b ∷ bs) h = elim (Bool-cases (a == b)) [
    | inl q ↦ cc (rw q at h)
    | inr q ↦ ((λ e. ground (arith, e, q)), member-Outside a bs (rw q at h))
  ]

  sum-nil : (xs : List ℕ) → sum (λ a. lookup a []) xs ≡ 0
  sum-nil [] = refl
  sum-nil (a ∷ xs) = omega (arith, sum-nil xs)

  -- One entry more counts just if its address is in the list.
  sum-cons :
      (k : ℕ) (v : V) (m : GoMap ℕ V) (xs : List ℕ)
      → Lacks k m
      → Distinct xs
      → sum (λ a. lookup a ((k, v) ∷ m)) xs
        ≡ (if member k xs then weight v else 0) + sum (λ a. lookup a m) xs
  sum-cons k v m [] l d = omega arith
  sum-cons k v m (a ∷ xs) l d = elim (Bool-cases (k == a)) [
    | inl q ↦
        let same : k ≡ a = (==_iff k a).0 q in
        let gone : lookup a m ≡ none = subst (λ j. lookup j m ≡ none) same (lookup-Lacks k m l) in
        let once : member k xs ≡ false =
          Outside-member k xs (subst (λ j. Outside j xs) (sym same) d.0) in
        rw (q, gone) (omega (arith, rw once at (sum-cons k v m xs l d.1)))
    | inr q ↦ rw q (omega (arith, sum-cons k v m xs l d.1))
  ]

  -- In a map whose addresses are among these, entry by entry is address by address.
  pub sum-lookup :
      (m : GoMap ℕ V) (xs : List ℕ)
      → IsMap m
      → Distinct xs
      → ((a : ℕ) → Outside a xs → lookup a m ≡ none)
      → sum (λ a. lookup a m) xs ≡ entries_sum m
  sum-lookup [] xs h d c = sum-nil xs
  sum-lookup ((k, v) ∷ m) xs h d c =
      let rest = sum-lookup m xs h.1 d (λ a out. elim (Bool-cases (k == a)) [
        | inl q ↦ cc (rw q at (c a out))
        | inr q ↦ rw q at (c a out)
      ]) in
      elim (Bool-cases (member k xs)) [
        | inl q ↦ omega (arith, rest, rw q at (sum-cons k v m xs h.0 d))
        | inr q ↦ cc (rw ((==_iff k k).1 refl) at (c k (member-Outside k xs q)))
      ]
