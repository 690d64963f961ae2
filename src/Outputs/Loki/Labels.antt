-- ===== src/Outputs/Loki/Labels.antt =====
-- `mapsEqual` against equality of maps.
use arbutus.Base.{
  suc, ◌≤◌, ◌≡◌, refl, sym, ap, ◌∙◌, ◌≢◌, ◌↔◌, inl, inr, true, [], ◌∷◌, some, none, some_eq, ◌⊎◌,
  arith, length, ◌==◌, ==_iff, if◌then◌else◌, Bool-cases, Option-cases, Bytes, beq_bytes,
  beq_bytes_iff, beq_bytes_refl, bytes_eq, lookup, Lacks, IsMap, lookup-Lacks,
}
use arbutus.Outputs.Loki.{Labels, or_empty, get_or_empty, all_found, maps_equal}

-- The maps agree on every key.
abbrev pub SameMap : Labels → Labels → Type 0
SameMap a b = (k : Bytes) → lookup k a ≡ lookup k b

-- No label has the empty value.
abbrev pub HasValues : Labels → Type 0
HasValues [] = Unit
HasValues ((k, v) ∷ a) = (v ≢ []) × HasValues a

-- Every entry of the first is one of the second.
abbrev Within : Labels → Labels → Type 0
Within [] b = Unit
Within ((k, v) ∷ a) b = (lookup k b ≡ some v) × Within a b

-- The map without a key.
abbrev remove : Bytes → Labels → Labels
remove k [] = []
remove k ((j, v) ∷ b) = if beq_bytes j k then b else (j, v) ∷ remove k b

lookup-remove_ne : (k j : Bytes) (b : Labels) → k ≢ j → lookup j (remove k b) ≡ lookup j b
lookup-remove_ne k j [] ne = refl
lookup-remove_ne k j ((i, v) ∷ b) ne =
    ground (arith, beq_bytes_iff i k, beq_bytes_iff i j, lookup-remove_ne k j b ne)

length-remove :
    (k v : Bytes) (b : Labels) → lookup k b ≡ some v → length b ≡ suc (length (remove k b))
length-remove k v [] h = cc
length-remove k v ((i, w) ∷ b) h = elim (Bool-cases (beq_bytes i k)) [
  | inl same ↦ rw same refl
  | inr other ↦ rw other (ap suc (length-remove k v b (rw other at h)))
]

Lacks-remove : (k j : Bytes) (b : Labels) → Lacks j b → Lacks j (remove k b)
Lacks-remove k j [] h = tt
Lacks-remove k j ((i, w) ∷ b) (ne, h) = elim (Bool-cases (beq_bytes i k)) [
  | inl same ↦ rw same h
  | inr other ↦ rw other (ne, Lacks-remove k j b h)
]

IsMap-remove : (k : Bytes) (b : Labels) → IsMap b → IsMap (remove k b)
IsMap-remove k [] h = tt
IsMap-remove k ((i, w) ∷ b) (l, h) = elim (Bool-cases (beq_bytes i k)) [
  | inl same ↦ rw same h
  | inr other ↦ rw other (Lacks-remove k i b l, IsMap-remove k b h)
]

Within-remove : (k : Bytes) (a b : Labels) → Lacks k a → Within a b → Within a (remove k b)
Within-remove k [] b l h = tt
Within-remove k ((j, v) ∷ a) b (ne, l) (h, hs) =
    (lookup-remove_ne k j b (λ e. ne (sym e)) ∙ h, Within-remove k a b l hs)

-- Counting: a map within another of the same size is the same map.
Within-SameMap : (a b : Labels) → IsMap a → length a ≡ length b → Within a b → SameMap a b
Within-SameMap [] [] m n h k = refl
Within-SameMap [] (x ∷ b) m n h k = absurd (omega arith)
Within-SameMap ((j, v) ∷ a) b (l, m) n (h, hs) k = elim (Bool-cases (beq_bytes j k)) [
  | inl same ↦ rw (same, ← (beq_bytes_iff j k).0 same) (sym h)
  | inr other ↦ rw other (
      Within-SameMap a (remove j b) m (omega (arith, length-remove j v b h))
        (Within-remove j a b l hs) k
      ∙ lookup-remove_ne j k b (λ e. cc ((beq_bytes_iff j k).1 e, other)))
]

all_found-Within : (a b : Labels) → HasValues a → all_found a b ≡ true → Within a b
unfolding all_found
all_found-Within [] b f h = tt
all_found-Within ((k, v) ∷ a) b (ne, f) h = elim (Bool-cases (beq_bytes (get_or_empty k b) v)) [
  | inl same ↦ elim (Option-cases (lookup k b)) [
    | inl missing ↦ absurd (ne (sym ((beq_bytes_iff [] v).0 (rw (ap or_empty missing) at same))))
    | inr (w, e) ↦ (
      e ∙ ap some ((beq_bytes_iff w v).0 (rw (ap or_empty e) at same)),
      all_found-Within a b f (rw same at h),
    )
  ]
  | inr other ↦ cc (rw other at h)
]

Within-all_found : (a b : Labels) → Within a b → all_found a b ≡ true
unfolding all_found
Within-all_found [] b h = refl
Within-all_found ((k, v) ∷ a) b (h, hs) =
    rw (ap or_empty h, beq_bytes_refl v) (Within-all_found a b hs)

SameMap-Within : (a b : Labels) → IsMap a → SameMap a b → Within a b
SameMap-Within a b m same = go a m (λ k v e. sym (same k) ∙ e)
  where
    go :
        (c : Labels)
        → IsMap c
        → ((k v : Bytes) → lookup k c ≡ some v → lookup k b ≡ some v)
        → Within c b
    go [] m h = tt
    go ((k, v) ∷ c) (l, m) h = (
      h k v (rw (beq_bytes_refl k)),
      go c m λ j w e. h j w (elim (Bool-cases (beq_bytes k j)) [
        | inl q ↦ absurd (cc (lookup-Lacks k c l, (beq_bytes_iff k j).0 q, e))
        | inr q ↦ rw q e
      ]),
    )

Within-length : (a b : Labels) → IsMap a → Within a b → length a ≤ length b
Within-length [] b m h = omega arith
Within-length ((k, v) ∷ a) b (l, m) (h, hs) =
    omega (arith, length-remove k v b h, Within-length a (remove k b) m (Within-remove k a b l hs))

-- On maps with no empty value, `mapsEqual` is equality of maps: it says true just where they have the
-- same value, or none, at every key. Only the first map's values matter for that.
pub maps_equal-SameMap :
    (a b : Labels) → IsMap a → IsMap b → HasValues a → (maps_equal a b ≡ true) ↔ SameMap a b
unfolding maps_equal
maps_equal-SameMap a b m n v = (
  λ h. elim (Bool-cases (length a == length b)) [
    | inl same ↦
        Within-SameMap a b m ((==_iff (length a) (length b)).0 same)
          (all_found-Within a b v (rw same at h))
    | inr other ↦ cc (rw other at h)
  ],
  λ same.
      let ab = SameMap-Within a b m same in
      let ba = SameMap-Within b a n (λ k. sym (same k)) in
      rw
        ((==_iff (length a) (length b)).1
          (omega (arith, Within-length a b m ab, Within-length b a n ba)))
        (Within-all_found a b ab),
)

-- The map has this value at the key; or the value is empty, and the map has none there.
abbrev pub HasOrEmpty : Bytes → Bytes → Labels → Type 0
HasOrEmpty k v b = (lookup k b ≡ some v) ⊎ ((v ≡ []) × (lookup k b ≡ none))

found_iff : (k v : Bytes) (b : Labels) → (beq_bytes (get_or_empty k b) v ≡ true) ↔ HasOrEmpty k v b
found_iff k v b = elim (Option-cases (lookup k b)) [
  | inl missing ↦ (
    λ h. inr (sym ((beq_bytes_iff [] v).0 (rw (ap or_empty missing) at h)), missing),
    λ h. elim h [
      | inl e ↦ cc (e, missing)
      | inr (empty, none_there) ↦ rw (ap or_empty missing) ((beq_bytes_iff [] v).1 (sym empty))
    ],
  )
  | inr (w, e) ↦ (
    λ h. inl (e ∙ ap some ((beq_bytes_iff w v).0 (rw (ap or_empty e) at h))),
    λ h. elim h [
      | inl there ↦ rw (ap or_empty there) (beq_bytes_refl v)
      | inr (empty, missing) ↦ cc (e, missing)
    ],
  )
]

-- Every value of the first map is in the second at the same key, or is empty and missing there.
abbrev pub Covers : Labels → Labels → Type 0
Covers b a = (k v : Bytes) → lookup k a ≡ some v → HasOrEmpty k v b

all_found-Covers : (a b : Labels) → all_found a b ≡ true → Covers b a
unfolding all_found
all_found-Covers [] b h k v e = cc
all_found-Covers ((j, w) ∷ a) b h k v e = elim (Bool-cases (beq_bytes (get_or_empty j b) w)) [
  | inl found ↦ elim (Bool-cases (beq_bytes j k)) [
    | inl same ↦
        rw ((beq_bytes_iff j k).0 same, some_eq (rw same at e)) at ((found_iff j w b).0 found)
    | inr other ↦ all_found-Covers a b (rw found at h) k v (rw other at e)
  ]
  | inr missed ↦ cc (rw missed at h)
]

Covers-all_found : (a b : Labels) → IsMap a → Covers b a → all_found a b ≡ true
unfolding all_found
Covers-all_found [] b m h = refl
Covers-all_found ((j, w) ∷ a) b (l, m) h =
    rw ((found_iff j w b).1 (h j w (rw (beq_bytes_refl j)))) (
      Covers-all_found a b m λ k v e. h k v (elim (Bool-cases (beq_bytes j k)) [
        | inl same ↦ absurd (cc (lookup-Lacks j a l, (beq_bytes_iff j k).0 same, e))
        | inr other ↦ rw other e
      ]))

-- On all Go maps, with empty values or not: `mapsEqual` says true just where the maps have the same size and each value of the first
-- is in the second at the same key, or is empty and missing there.
pub maps_equal_iff :
    (a b : Labels) → IsMap a → (maps_equal a b ≡ true) ↔ ((length a ≡ length b) × Covers b a)
unfolding maps_equal
maps_equal_iff a b m = (
  λ h. elim (Bool-cases (length a == length b)) [
    | inl same ↦ ((==_iff (length a) (length b)).0 same, all_found-Covers a b (rw same at h))
    | inr other ↦ cc (rw other at h)
  ],
  λ p. rw ((==_iff (length a) (length b)).1 p.0) (Covers-all_found a b m p.1),
)
