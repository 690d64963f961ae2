-- ===== src/Base/Maps.antt =====
-- A Go map is the list of its entries, each key once. The order of the list is the one in which a
-- `range` loop visits them, which Go chooses anew for each loop.
use mathlib.Core.Bool.{Bool, true}
use mathlib.Core.List.{List, [], ◌∷◌}
use mathlib.Core.Logic.{◌↔◌, ◌≢◌, inl, inr}
use mathlib.Core.Option.{Option, none, some}
use mathlib.Core.Path.{◌≡◌, refl, ap}
use native.Mathlib.Omega.{arith}
use Prim.Native.Nat.{ℕ, suc, ◌≤◌}
use arbutus.Base.Lists.{length}
use arbutus.Base.Tests.{◌==◌, ==_iff, if◌then◌else◌, Bool-cases}
use arbutus.Base.Text.{Bytes, beq_bytes, beq_bytes_iff}

pub record Eq (K : Type 0) : Type 0 where
  pub beq : K → K → Bool
  pub beq_iff : (a b : K) → (beq a b ≡ true) ↔ (a ≡ b)

instance abbrev pub bytes_eq : Eq Bytes
bytes_eq = record { beq = beq_bytes; beq_iff = beq_bytes_iff }

instance abbrev pub nat_eq : Eq ℕ
nat_eq = record { beq = ◌==◌; beq_iff = ==_iff }

abbrev pub GoMap : Type 0 → Type 0 → Type 0
GoMap K V = List (K × V)

module _ {K V : Type 0} ⦃e : Eq K⦄ where
  -- `v, ok := m[k]`
  abbrev pub lookup : K → GoMap K V → Option V
  lookup k [] = none
  lookup k ((j, v) ∷ m) = if e.beq j k then some v else lookup k m

  -- `m[k] = v`
  abbrev pub insert : K → V → GoMap K V → GoMap K V
  insert k v [] = (k, v) ∷ []
  insert k v ((j, w) ∷ m) = if e.beq j k then (j, v) ∷ m else (j, w) ∷ insert k v m

  -- `delete(m, k)`
  abbrev pub erase : K → GoMap K V → GoMap K V
  erase k [] = []
  erase k ((j, w) ∷ m) = if e.beq j k then m else (j, w) ∷ erase k m

  -- No entry has the key.
  abbrev pub Lacks : K → GoMap K V → Type 0
  Lacks k [] = Unit
  Lacks k ((j, v) ∷ m) = (j ≢ k) × Lacks k m

  -- Each key once.
  abbrev pub IsMap : GoMap K V → Type 0
  IsMap [] = Unit
  IsMap ((k, v) ∷ m) = Lacks k m × IsMap m

  pub lookup-insert :
      (k j : K) (v : V) (m : GoMap K V)
      → lookup j (insert k v m) ≡ (if e.beq k j then some v else lookup j m)
  lookup-insert k j v [] = refl
  lookup-insert k j v ((i, w) ∷ m) =
      ground (arith, e.beq_iff k j, e.beq_iff i k, e.beq_iff i j, lookup-insert k j v m)

  pub Lacks-insert : (k j : K) (v : V) (m : GoMap K V) → k ≢ j → Lacks j m → Lacks j (insert k v m)
  Lacks-insert k j v [] ne h = (ne, tt)
  Lacks-insert k j v ((i, w) ∷ m) ne h = ground (arith, Lacks-insert k j v m ne h.1)

  pub IsMap-insert : (k : K) (v : V) (m : GoMap K V) → IsMap m → IsMap (insert k v m)
  IsMap-insert k v [] h = (tt, tt)
  IsMap-insert k v ((j, w) ∷ m) (l, h) = elim (Bool-cases (e.beq j k)) [
    | inl same ↦ rw same (l, h)
    | inr other ↦
        rw other (Lacks-insert k j v m (λ q. ground (arith, e.beq_iff j k)) l, IsMap-insert k v m h)
  ]

  pub lookup-Lacks : (k : K) (m : GoMap K V) → Lacks k m → lookup k m ≡ none
  lookup-Lacks k [] h = refl
  lookup-Lacks k ((j, v) ∷ m) h = ground (arith, e.beq_iff j k, lookup-Lacks k m h.1)

  pub Lacks-lookup : (k : K) (m : GoMap K V) → lookup k m ≡ none → Lacks k m
  Lacks-lookup k [] h = tt
  Lacks-lookup k ((j, v) ∷ m) h = elim (Bool-cases (e.beq j k)) [
    | inl same ↦ cc (rw same at h)
    | inr other ↦ ((λ q. ground (arith, e.beq_iff j k)), Lacks-lookup k m (rw other at h))
  ]

  pub Lacks-erase : (k j : K) (m : GoMap K V) → Lacks j m → Lacks j (erase k m)
  Lacks-erase k j [] h = tt
  Lacks-erase k j ((i, w) ∷ m) h = ground (arith, Lacks-erase k j m h.1)

  pub IsMap-erase : (k : K) (m : GoMap K V) → IsMap m → IsMap (erase k m)
  IsMap-erase k [] h = tt
  IsMap-erase k ((j, w) ∷ m) (l, h) = elim (Bool-cases (e.beq j k)) [
    | inl same ↦ rw same h
    | inr other ↦ rw other (Lacks-erase k j m l, IsMap-erase k m h)
  ]

  pub lookup-erase :
      (k j : K) (m : GoMap K V)
      → IsMap m
      → lookup j (erase k m) ≡ (if e.beq k j then none else lookup j m)
  lookup-erase k j [] h = ground arith
  lookup-erase k j ((i, w) ∷ m) (l, h) =
      ground (
        arith,
        e.beq_iff k j,
        e.beq_iff i k,
        e.beq_iff i j,
        lookup-erase k j m h,
        lookup-Lacks i m l,
      )

  pub length-insert : (k : K) (v : V) (m : GoMap K V) → length (insert k v m) ≤ suc (length m)
  length-insert k v [] = omega arith
  length-insert k v ((j, w) ∷ m) = ground (arith, length-insert k v m)

  pub length-insert_present :
      (k : K) (v w : V) (m : GoMap K V) → lookup k m ≡ some w → length (insert k v m) ≡ length m
  length-insert_present k v w [] h = cc
  length-insert_present k v w ((j, u) ∷ m) h = elim (Bool-cases (e.beq j k)) [
    | inl q ↦ rw q refl
    | inr q ↦ rw q (ap suc (length-insert_present k v w m (rw q at h)))
  ]

  pub length-erase : (k : K) (m : GoMap K V) → length (erase k m) ≤ length m
  length-erase k [] = omega arith
  length-erase k ((j, w) ∷ m) = ground (arith, length-erase k m)
