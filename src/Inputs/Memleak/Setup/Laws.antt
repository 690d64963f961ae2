-- ===== src/Inputs/Memleak/Setup/Laws.antt =====
-- What the eBPF library documents of the calls that `Run` and `Stop` of memleak make.
use arbutus.Base.{
  ℕ, ◌+◌, ◌≡◌, List, [], ◌∷◌, ◌++◌, length, ◌==◌, if◌then◌else◌, ◌⊎◌, inl, inr, Bytes, arith,
}
use arbutus.Inputs.Memleak.Setup.{Kernel}

-- How often a link is in a list, and the list without its first occurrence.
abbrev pub count : ℕ → List ℕ → ℕ
count j [] = 0
count j (l ∷ ls) = (if l == j then 1 else 0) + count j ls

abbrev pub remove : ℕ → List ℕ → List ℕ
remove l [] = []
remove l (x ∷ xs) = if x == l then xs else x ∷ remove l xs

pub count-append : (j : ℕ) (ls rs : List ℕ) → count j (ls ++ rs) ≡ count j ls + count j rs
count-append j [] rs = omega arith
count-append j (l ∷ ls) rs = omega (arith, count-append j ls rs)

pub length-snoc : (ls : List ℕ) (l : ℕ) → length (ls ++ l ∷ []) ≡ length ls + 1
length-snoc [] l = omega arith
length-snoc (x ∷ ls) l = omega (arith, length-snoc ls l)

-- What a call of the library leaves, by the objects that are loaded and the links that are attached, the
-- last first: a call that fails leaves nothing new, and the `Close` of a link takes it out.
abbrev pub Loads : {K O : Type 0} → (K → List O) → (K → List ℕ) → K → K × (Bytes ⊎ O) → Type 0
Loads loaded attached k (k1, inl e) = (loaded k1 ≡ loaded k) × (attached k1 ≡ attached k)
Loads loaded attached k (k1, inr o) = (loaded k1 ≡ o ∷ loaded k) × (attached k1 ≡ attached k)

abbrev pub Attaches : {K O : Type 0} → (K → List O) → (K → List ℕ) → K → K × (Bytes ⊎ ℕ) → Type 0
Attaches loaded attached k (k1, inr l) = (loaded k1 ≡ loaded k) × (attached k1 ≡ l ∷ attached k)
Attaches loaded attached k (k1, inl e) = (loaded k1 ≡ loaded k) × (attached k1 ≡ attached k)

pub record Documented {K S O : Type 0} (kernel : Kernel K S O) : Type 1 where
  pub loaded : K → List O
  pub attached : K → List ℕ
  pub loads : (spec : S) (k : K) → Loads loaded attached k (kernel.load_and_assign spec k)
  pub attaches :
      (group name : Bytes) (o : O) (k : K)
      → Attaches loaded attached k (kernel.tracepoint group name o k)
  pub closes :
      (o : O) (k : K) (os : List O)
      → loaded k ≡ o ∷ os
      → (loaded (kernel.close_objects o k) ≡ os)
        × (attached (kernel.close_objects o k) ≡ attached k)
  pub detaches : (l : ℕ) (k : K) → attached (kernel.close_link l k) ≡ remove l (attached k)
