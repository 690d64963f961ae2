-- ===== src/Inputs/Memleak/Tests/Insertion.antt =====
-- Insertion sort, by any comparison.
use mathlib.Core.List.{Permᴰ}
use mathlib.Core.List.Permᴰ as PermD
use arbutus.Base.{◌≡◌, refl, Bool, false, List, [], ◌∷◌, All, if◌then◌else◌, Bool-cases, inl, inr}
use arbutus.Inputs.Memleak.Leaks.{StackAllocs}
use arbutus.Inputs.Memleak.Report.{IsWeakOrder, IsSortedBy, Sorter}

abbrev pub Less : Type 0
Less = StackAllocs → StackAllocs → Bool

abbrev pub insert : Less → StackAllocs → List StackAllocs → List StackAllocs
insert less s [] = s ∷ []
insert less s (t ∷ ss) = if less t s then t ∷ insert less s ss else s ∷ t ∷ ss

abbrev pub insertion_sort : Less → List StackAllocs → List StackAllocs
insertion_sort less [] = []
insertion_sort less (s ∷ ss) = insert less s (insertion_sort less ss)

module _ (less : Less) where
  insert-Perm : (s : StackAllocs) (ss : List StackAllocs) → Permᴰ (insert less s ss) (s ∷ ss)
  insert-Perm s [] = PermD.refl (s ∷ [])
  insert-Perm s (t ∷ ss) = elim (Bool-cases (less t s)) [
    | inl q ↦ rw q (Permᴰ.trans (Permᴰ.cons refl (insert-Perm s ss)) (Permᴰ.swap refl refl))
    | inr q ↦ rw q (PermD.refl (s ∷ t ∷ ss))
  ]

  pub insertion_sort-Perm : (ss : List StackAllocs) → Permᴰ (insertion_sort less ss) ss
  insertion_sort-Perm [] = Permᴰ.nil
  insertion_sort-Perm (s ∷ ss) =
      Permᴰ.trans (insert-Perm s (insertion_sort less ss))
        (Permᴰ.cons refl (insertion_sort-Perm ss))

  All-insert :
      (P : StackAllocs → Type 0) (s : StackAllocs) (ss : List StackAllocs)
      → P s
      → All P ss
      → All P (insert less s ss)
  All-insert P s [] p ps = (p, tt)
  All-insert P s (t ∷ ss) p ps = elim (Bool-cases (less t s)) [
    | inl q ↦ rw q (ps.0, All-insert P s ss p ps.1)
    | inr q ↦ rw q (p, ps)
  ]

  module _ (order : IsWeakOrder less) where
    All-later :
        (s t : StackAllocs) (ss : List StackAllocs)
        → less t s ≡ false
        → All (λ u. less u t ≡ false) ss
        → All (λ u. less u s ≡ false) ss
    All-later s t [] h ps = tt
    All-later s t (u ∷ ss) h ps = (order.negative u t s ps.0 h, All-later s t ss h ps.1)

    insert-IsSortedBy :
        (s : StackAllocs) (ss : List StackAllocs)
        → IsSortedBy less ss
        → IsSortedBy less (insert less s ss)
    insert-IsSortedBy s [] d = (tt, tt)
    insert-IsSortedBy s (t ∷ ss) d = elim (Bool-cases (less t s)) [
      | inl q ↦ rw q (
        All-insert (λ u. less u t ≡ false) s ss (order.asymmetric t s q) d.0,
        insert-IsSortedBy s ss d.1,
      )
      | inr q ↦ rw q ((q, All-later s t ss q d.0), d)
    ]

    pub insertion_sort-IsSortedBy :
        (ss : List StackAllocs) → IsSortedBy less (insertion_sort less ss)
    insertion_sort-IsSortedBy [] = tt
    insertion_sort-IsSortedBy (s ∷ ss) =
        insert-IsSortedBy s (insertion_sort less ss) (insertion_sort-IsSortedBy ss)

abbrev pub insertion : Sorter
insertion = record {
  sort = insertion_sort;
  sort_perm = λ less ss. ∣ insertion_sort-Perm less ss ∣₁;
  sort_sorted = insertion_sort-IsSortedBy;
}
