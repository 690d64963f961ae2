-- ===== src/Inputs/Setup/Released.antt =====
-- What the start of `Run` holds of the kernel when `Run` is over.
use arbutus.Base.{◌≡◌, ap, ◌∙◌, List, ◌∷◌, Option, none, ◌⊎◌, inl, inr, Bytes, codes}
use arbutus.Inputs.Setup.{Hook, Kernel, words_of, deferring, with_link, with_objects, run}

pub data Handle (O L R : Type 0) : Type 0 where
  objects : O → Handle O L R
  link : L → Handle O L R
  reader : R → Handle O L R

-- What a call leaves open: its handle on top, or nothing new after an error.
abbrev pub Gets : {K H A : Type 0} → (K → List H) → (A → H) → K → K × (Bytes ⊎ A) → Type 0
Gets held handle k (k1, inl e) = held k1 ≡ held k
Gets held handle k (k1, inr a) = held k1 ≡ handle a ∷ held k

-- What the library documents of its calls, by the handles that are open, the last one first: a call
-- that fails leaves nothing open, and `Close` releases the handle.
pub record Documented {K O L R : Type 0} (kernel : Kernel K O L R) : Type 1 where
  pub held : K → List (Handle O L R)
  pub loads : (k : K) → Gets held objects k (kernel.load_objects k)
  pub attaches : (hook : Hook) (objs : O) (k : K) → Gets held link k (kernel.attach hook objs k)
  pub opens : (objs : O) (k : K) → Gets held reader k (kernel.new_reader objs k)
  pub unloads :
      (o : O) (k : K) (hs : List (Handle O L R))
      → held k ≡ objects o ∷ hs
      → held (kernel.close_objects o k) ≡ hs
  pub detaches :
      (l : L) (k : K) (hs : List (Handle O L R))
      → held k ≡ link l ∷ hs
      → held (kernel.close_link l k) ≡ hs
  pub shuts :
      (r : R) (k : K) (hs : List (Handle O L R))
      → held k ≡ reader r ∷ hs
      → held (kernel.close_reader r k) ≡ hs

-- An acquisition with its deferred `Close` and the rest of the body, on what it gave in the state `k`.
module _ {K H A : Type 0} (words : Bytes) (close : A → K → K) (body : A → K → K × Option Bytes)
    (held : K → List H) (handle : A → H) (k : K) where
  pub deferring-held :
      ((a : A) (k1 : K) (hs : List H) → held k1 ≡ handle a ∷ hs → held (close a k1) ≡ hs)
      → ((a : A) (k1 : K) → held (body a k1).0 ≡ held k1)
      → (got : K × (Bytes ⊎ A)) → Gets held handle k got
      → held (deferring words close body got).0 ≡ held k
  unfolding deferring
  deferring-held closes keeps (k1, inl e) law = law
  deferring-held closes keeps (k1, inr a) law = closes a _ (held k) (keeps a k1 ∙ law)

  -- No error: the handle was there, and the body ran with it and gave none.
  pub deferring-none :
      (got : K × (Bytes ⊎ A))
      → Gets held handle k got
      → (deferring words close body got).1 ≡ none
      → (a : A) × (k1 : K) × (held k1 ≡ handle a ∷ held k) × ((body a k1).1 ≡ none)
  unfolding deferring
  deferring-none (k1, inl e) law h = absurd cc
  deferring-none (k1, inr a) law h = (a, k1, law, h)

module _ {K O L R : Type 0} (kernel : Kernel K O L R) (rest_of_run : R → K → K × Option Bytes)
    (laws : Documented kernel) where
  released :
      ((r : R) (k : K) → laws.held (rest_of_run r k).0 ≡ laws.held k)
      → (hook : Hook) (k : K) → laws.held (run kernel rest_of_run hook k).0 ≡ laws.held k
  unfolding run with_objects with_link
  released keeps hook k =
      deferring-held (codes "loading eBPF objects: ") kernel.close_objects
        (with_objects kernel rest_of_run hook) laws.held objects k laws.unloads
        (λ objs k1.
          deferring-held (words_of hook) kernel.close_link
            (λ lnk. with_link kernel rest_of_run objs) laws.held link k1 laws.detaches
            (λ lnk k2.
              deferring-held (codes "opening ringbuf reader: ") kernel.close_reader rest_of_run
                laws.held reader k2 laws.shuts keeps (kernel.new_reader objs k2)
                (laws.opens objs k2))
            (kernel.attach hook objs k1) (laws.attaches hook objs k1))
        (kernel.load_objects k) (laws.loads k)

  run-clean :
      (hook : Hook) (k : K)
      → (run kernel rest_of_run hook k).1 ≡ none
      → (o : O) × (l : L) × (r : R) × (k1 : K) × (laws.held k1
          ≡ reader r ∷ link l ∷ objects o ∷ laws.held k)
        × ((rest_of_run r k1).1 ≡ none)
  unfolding run with_objects with_link
  run-clean hook k h =
      let (o, k1, h1, q1) =
        deferring-none (codes "loading eBPF objects: ") kernel.close_objects
          (with_objects kernel rest_of_run hook) laws.held objects k (kernel.load_objects k)
          (laws.loads k) h in
      let (l, k2, h2, q2) =
        deferring-none (words_of hook) kernel.close_link (λ lnk. with_link kernel rest_of_run o)
          laws.held link k1 (kernel.attach hook o k1) (laws.attaches hook o k1) q1 in
      let (r, k3, h3, q3) =
        deferring-none (codes "opening ringbuf reader: ") kernel.close_reader rest_of_run laws.held
          reader k2 (kernel.new_reader o k2) (laws.opens o k2) q2 in
      (o, l, r, k3, h3 ∙ ap (λ hs. reader r ∷ hs) (h2 ∙ ap (λ hs. link l ∷ hs) h1), q3)

  -- If the rest of `Run` holds no more at its end than at its start: whichever call of the start of
  -- `Run` fails, and if none does, when `Run` is over the kernel holds what it held before, so the
  -- objects, the hook and the reader have all been released. And if `Run` returns no error, then its
  -- loop ran, with all three open, and returned none: no failure of the start is lost.
  pub run-released :
      ((r : R) (k : K) → laws.held (rest_of_run r k).0 ≡ laws.held k)
      → (hook : Hook) (k : K)
      → (laws.held (run kernel rest_of_run hook k).0 ≡ laws.held k)
        × ((run kernel rest_of_run hook k).1 ≡ none
            → (o : O) × (l : L) × (r : R) × (k1 : K) × (laws.held k1
                ≡ reader r ∷ link l ∷ objects o ∷ laws.held k)
              × ((rest_of_run r k1).1 ≡ none))
  run-released keeps hook k = (released keeps hook k, run-clean hook k)
