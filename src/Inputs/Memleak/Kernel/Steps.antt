-- ===== src/Inputs/Memleak/Kernel/Steps.antt =====
-- What `gen_alloc_enter`, `gen_alloc_exit2` and `gen_free_enter` do to the map `allocs`, against one cell
-- for each address.
use mathlib.Core.Path.{subst}
use arbutus.Base.{
  ℕ, suc, ◌+◌, ◌%◌, ◌≤◌, ◌<◌, ◌≡◌, refl, sym, ap, ◌∙◌, inl, inr, Bool, true, false, not, ◌&&◌, ◌||◌,
  [], ◌∷◌, Option, none, some, length, leb, ◌==◌, ==_iff, arith, GoMap, IsMap, lookup,
  lookup-insert, lookup-erase, IsMap-insert, IsMap-erase, length-insert, length-erase, insert,
  erase, nat_eq, Bool-cases, Option-cases, if◌then◌else◌,
}
use arbutus.Inputs.Memleak.Kernel.{
  Constants, Moment, Maps, allocs_max_entries, process, update, info_of, record_alloc,
  gen_alloc_enter, gen_alloc_exit2, gen_free_enter, alloc,
}
use arbutus.Inputs.Memleak.Leaks.{AllocInfo}

-- The sizes that are traced, at the rate at which they are sampled.
abbrev pub is_traced : Constants → Moment → ℕ → Bool
is_traced k t size =
    leb k.min_size size
    && (leb size k.max_size && (leb k.sample_rate 1 || t.entered % k.sample_rate == 0))

-- What the cell of address `a` holds once this address has been freed.
abbrev pub freed : ℕ → ℕ → Option AllocInfo → Option AllocInfo
freed address a cell = if address == a then none else cell

-- And once this many bytes have been allocated there.
abbrev pub allocated : Constants → Moment → ℕ → ℕ → ℕ → Option AllocInfo → Option AllocInfo
allocated k t address size a cell =
    if address == a && (not (address == 0) && is_traced k t size)
    then some (info_of t size)
    else cell

-- Between two programs no size is left over, and each address has one entry; there is room for this many
-- more.
pub record IsReady (room : ℕ) (s : Maps) : Type 0 where
  pub no_sizes : s.sizes ≡ []
  pub one_each : IsMap s.allocs
  pub fits : length s.allocs + room ≤ allocs_max_entries

-- The maps hold what the cells hold.
pub record Keeps (room : ℕ) (s : Maps) (f : ℕ → Option AllocInfo → Option AllocInfo) (q : Maps)
    : Type 0 where
  pub ready : IsReady room q
  pub cells : (a : ℕ) → lookup a q.allocs ≡ f a (lookup a s.allocs)

pub gen_free_enter-Keeps :
    (room address : ℕ) (s : Maps)
    → IsReady room s
    → Keeps room s (freed address) (gen_free_enter address s)
unfolding gen_free_enter
gen_free_enter-Keeps room address s r = elim (Option-cases (lookup address s.allocs)) [
  | inl q ↦ rw (q, gen_free_enter) (record { ready = r; cells = λ a. ground (arith, q) })
  | inr (info, q) ↦
      rw (q, gen_free_enter)
        (record {
          ready = record {
            no_sizes = r.no_sizes;
            one_each = IsMap-erase address s.allocs r.one_each;
            fits = omega (arith, r.fits, length-erase address s.allocs);
          };
          cells = λ a. lookup-erase address a s.allocs r.one_each;
        })
]

-- The maps between two programs.
abbrev between : GoMap ℕ AllocInfo → GoMap ℕ ℕ → Maps
between allocs combined = record { sizes = []; allocs = allocs; combined_allocs = combined }

==_refl : (n : ℕ) → n == n ≡ true
==_refl n = (==_iff n n).1 refl

enter-traced :
    (k : Constants) (t : Moment) (size : ℕ) (allocs : GoMap ℕ AllocInfo) (combined : GoMap ℕ ℕ)
    → is_traced k t size ≡ true
    → gen_alloc_enter k t size (between allocs combined)
      ≡ record { sizes = (process t, size) ∷ []; allocs = allocs; combined_allocs = combined }
unfolding gen_alloc_enter
enter-traced k t size allocs combined h = ground (arith, h)

enter-untraced :
    (k : Constants) (t : Moment) (size : ℕ) (s : Maps)
    → is_traced k t size ≡ false
    → gen_alloc_enter k t size s ≡ s
unfolding gen_alloc_enter
enter-untraced k t size s h = ground (arith, h)

exit2-nothing :
    (t : Moment) (address : ℕ) (allocs : GoMap ℕ AllocInfo) (combined : GoMap ℕ ℕ)
    → gen_alloc_exit2 t address (between allocs combined) ≡ between allocs combined
unfolding gen_alloc_exit2
exit2-nothing t address allocs combined = refl

erase-one : (key n : ℕ) → erase key ((key, n) ∷ []) ≡ []
erase-one key n = rw (==_refl key) refl

exit2-size :
    (t : Moment) (address size : ℕ) (allocs : GoMap ℕ AllocInfo) (combined : GoMap ℕ ℕ)
    → gen_alloc_exit2 t address
        (record { sizes = (process t, size) ∷ []; allocs = allocs; combined_allocs = combined })
      ≡ record_alloc t address size (between allocs combined)
unfolding gen_alloc_exit2
exit2-size t address size allocs combined =
    rw (==_refl (process t), gen_alloc_exit2)
      (ap
        (λ sizes.
          record_alloc t address size
            (record { sizes = sizes; allocs = allocs; combined_allocs = combined }))
        (erase-one (process t) size))

pub update-room :
    {V : Type 0} (size key : ℕ) (v : V) (m : GoMap ℕ V)
    → length m < size
    → update size key v m ≡ insert key v m
update-room size key v m h = elim (Option-cases (lookup key m)) [
  | inl q ↦ rw (q, update) (ground (arith, h))
  | inr (w, q) ↦ rw (q, update) refl
]

-- An allocation of a size that was let in.
record_alloc-Keeps :
    (t : Moment) (address size room : ℕ) (s : Maps)
    → IsReady (suc room) s
    → Keeps room s
        (λ a cell. if address == a && not (address == 0) then some (info_of t size) else cell)
        (record_alloc t address size s)
unfolding record_alloc
record_alloc-Keeps t address size room s r =
    let put =
      update-room allocs_max_entries address (info_of t size) s.allocs (omega (arith, r.fits)) in
    elim (Bool-cases (address == 0)) [
      | inl q ↦
          rw (q, record_alloc)
            (record {
              ready = record {
                no_sizes = r.no_sizes;
                one_each = r.one_each;
                fits = omega (arith, r.fits);
              };
              cells = λ a. ground (arith, q);
            })
      | inr q ↦
          rw (q, record_alloc)
            (record {
              ready = record {
                no_sizes = r.no_sizes;
                one_each = rw put (IsMap-insert address (info_of t size) s.allocs r.one_each);
                fits =
                    rw put (omega (arith, r.fits, length-insert address (info_of t size) s.allocs));
              };
              cells = λ a.
                  rw put (ground (arith, q, lookup-insert address a (info_of t size) s.allocs));
            })
    ]

pub Keeps-nothing : (room : ℕ) (s : Maps) → IsReady (suc room) s → Keeps room s (λ a cell. cell) s
Keeps-nothing room s r = record {
  ready = record { no_sizes = r.no_sizes; one_each = r.one_each; fits = omega (arith, r.fits) };
  cells = λ a. refl;
}

alloc-between :
    (k : Constants) (t : Moment) (address size : ℕ) (allocs : GoMap ℕ AllocInfo)
    (combined : GoMap ℕ ℕ)
    → alloc k t address size (between allocs combined) ≡ (
        if is_traced k t size
        then record_alloc t address size (between allocs combined)
        else between allocs combined)
alloc-between k t address size allocs combined = elim (Bool-cases (is_traced k t size)) [
  | inl q ↦ rw q (
      ap (gen_alloc_exit2 t address) (enter-traced k t size allocs combined q)
      ∙ exit2-size t address size allocs combined)
  | inr q ↦ rw q (
      ap (gen_alloc_exit2 t address) (enter-untraced k t size (between allocs combined) q)
      ∙ exit2-nothing t address allocs combined)
]

-- The same change of the cells, in other words.
Keeps-as :
    (room : ℕ) (s : Maps) (f g : ℕ → Option AllocInfo → Option AllocInfo) (q : Maps)
    → ((a : ℕ) (cell : Option AllocInfo) → f a cell ≡ g a cell)
    → Keeps room s f q
    → Keeps room s g q
Keeps-as room s f g q same h = record {
  ready = h.ready;
  cells = λ a. h.cells a ∙ same a (lookup a s.allocs);
}

alloc_lem :
    (k : Constants) (t : Moment) (address size : ℕ) (s : Maps)
    → s.sizes ≡ []
    → alloc k t address size s ≡ (if is_traced k t size then record_alloc t address size s else s)
alloc_lem k t address size s h =
    let same : between s.allocs s.combined_allocs ≡ s = sym (λ i. record s { sizes = h i }) in
    subst
      (λ m.
        alloc k t address size m
        ≡ (if is_traced k t size then record_alloc t address size m else m))
      same (alloc-between k t address size s.allocs s.combined_allocs)

-- `gen_alloc_enter` and `gen_alloc_exit2`, one after the other.
pub alloc-Keeps :
    (k : Constants) (t : Moment) (address size room : ℕ) (s : Maps)
    → IsReady (suc room) s
    → Keeps room s (allocated k t address size) (alloc k t address size s)
alloc-Keeps k t address size room s r =
    let now = alloc_lem k t address size s r.no_sizes in
    elim (Bool-cases (is_traced k t size)) [
      | inl q ↦ subst (Keeps room s (allocated k t address size)) (sym (rw q at now)) (
          Keeps-as room s
            (λ a cell. if address == a && not (address == 0) then some (info_of t size) else cell)
            (allocated k t address size) (record_alloc t address size s)
            (λ a cell. rw q (ground arith)) (record_alloc-Keeps t address size room s r))
      | inr q ↦ subst (Keeps room s (allocated k t address size)) (sym (rw q at now)) (
          Keeps-as room s (λ a cell. cell) (allocated k t address size) s
            (λ a cell. rw q (ground arith)) (Keeps-nothing room s r))
    ]
