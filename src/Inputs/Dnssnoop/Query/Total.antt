-- ===== src/Inputs/Dnssnoop/Query/Total.antt =====
-- No payload makes the parser panic or loop.
use arbutus.Base.{
  ℕ, zero, suc, ◌+◌, ◌-◌, ◌≤◌, ◌<◌, ◌≡◌, refl, inl, inr, [], ◌∷◌, ◌++◌, arith, Option, none, some,
  length, drop, get_elem?, ltb, Bytes, length-append, length-take, length-drop, Bool-cases, ltb→lt,
}
use arbutus.Inputs.Dnssnoop.Query.{
  append_label, read_labels, parse_dns_query, Round, break, label, read_label, round,
}

get_elem?-some : (b : Bytes) (i : ℕ) → i < length b → (x : ℕ) × (get_elem? b i ≡ some x)
get_elem?-some [] i h = absurd (omega arith)
get_elem?-some (x ∷ b) zero h = (x, refl)
get_elem?-some (x ∷ b) (suc i) h = get_elem?-some b i (omega arith)

length-append_label :
    (domain part : Bytes) → length (append_label domain part) ≤ length domain + 1 + length part
unfolding append_label
length-append_label domain part = ground (
  arith,
  length-append (domain ++ b'.' ∷ []) part,
  length-append domain part,
  length-append domain (b'.' ∷ []),
)

-- A round never panics, and a label that it gives lies within the payload.
abbrev Advances : Bytes → ℕ → Option Round → Type 0
Advances payload offset none = ⊥
Advances payload offset (some break) = Unit
Advances payload offset (some (label label_len part)) =
    (length part ≡ label_len) × (offset + 1 + label_len ≤ length payload)

read_label-Advances :
    (payload : Bytes) (offset label_len : ℕ)
    → Advances payload offset (read_label payload (offset + 1) label_len)
unfolding read_label
read_label-Advances payload offset label_len = ground (
  arith,
  length-take (offset + 1 + label_len - (offset + 1)) (drop (offset + 1) payload),
  length-drop (offset + 1) payload,
)

round-Advances : (payload : Bytes) (offset : ℕ) → Advances payload offset (round payload offset)
unfolding round
round-Advances payload offset = elim (Bool-cases (ltb offset (length payload))) [
  | inl inside ↦
      let (x, q) = get_elem?-some payload offset (ltb→lt offset (length payload) inside) in
      rw (inside, q) (read_label-Advances payload offset x)
  | inr outside ↦ rw outside tt
]

-- What `read_labels` gives: a domain that is no longer than what was read.
abbrev Reads : Bytes → Option Bytes → Type 0
Reads payload r = (domain : Bytes) × (r ≡ some domain) × (length domain + 12 ≤ length payload)

read_labels-Reads :
    (fuel : ℕ) (payload : Bytes) (offset : ℕ) (domain : Bytes)
    → length payload < fuel + offset
    → offset ≤ length payload
    → length domain + 12 ≤ offset
    → Reads payload (read_labels fuel payload offset domain)
unfolding read_labels
read_labels-Reads zero payload offset domain enough inside short = absurd (omega arith)
read_labels-Reads (suc fuel) payload offset domain enough inside short =
    go (round payload offset) refl (round-Advances payload offset) λ n part h q.
      read_labels-Reads fuel payload (offset + 1 + n) (append_label domain part) (omega arith) h
        (omega (arith, length-append_label domain part))
  where
    go :
        (r : Option Round)
        → round payload offset ≡ r
        → Advances payload offset r
        → ((n : ℕ) (part : Bytes)
            → offset + 1 + n ≤ length payload
            → length part ≡ n
            → Reads payload (read_labels fuel payload (offset + 1 + n) (append_label domain part)))
        → Reads payload (read_labels (suc fuel) payload offset domain)
    go none e h rest = absurd h
    go (some break) e h rest = rw (e, read_labels) (domain, refl, omega arith)
    go (some (label n part)) e h rest = rw (e, read_labels) (rest n part h.1 h.0)

-- Whatever bytes come in, `parseDNSQuery` returns: no index or slice is out of range and the loop
-- ends. The domain is at least 12 bytes shorter than a payload that has 12 bytes.
pub parse_dns_query-total :
    (payload : Bytes)
    → (domain : Bytes) × (parse_dns_query payload ≡ some domain)
      × (length domain ≤ length payload - 12)
unfolding parse_dns_query
parse_dns_query-total payload = elim (Bool-cases (ltb (length payload) 13)) [
  | inl short ↦ rw short ([], refl, omega arith)
  | inr long ↦
      let (d, e, h) =
        read_labels-Reads (suc (length payload)) payload 12 [] (omega arith) (ground arith)
          (omega arith) in
      rw long (d, e, omega arith)
]
