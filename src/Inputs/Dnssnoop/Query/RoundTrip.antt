-- ===== src/Inputs/Dnssnoop/Query/RoundTrip.antt =====
-- The parser against the wire format of RFC 1035: length-prefixed labels, closed by a zero byte.
use arbutus.Base.{
  ℕ, zero, suc, ◌+◌, ◌<◌, ◌≡◌, refl, ap, ◌∙◌, List, [], ◌∷◌, ◌++◌, arith, some, length, get_elem?,
  Bytes, codes, join, length-append, append_assoc, take-length-append, drop-length-append, All,
}
use arbutus.Inputs.Dnssnoop.Query.{
  slice, append_label, read_labels, parse_dns_query, break, label, read_label, round,
}

-- A domain name on the wire.
abbrev pub encode : List Bytes → Bytes → Bytes
encode [] rest = 0 ∷ rest
encode (l ∷ ls) rest = length l ∷ l ++ encode ls rest

-- A label that the parser reads: not empty, and no compression pointer.
abbrev pub IsLabel : Bytes → Type 0
IsLabel l = (0 < length l) × (length l < 192)

get_elem?-append :
    (pre : Bytes) (x : ℕ) (b : Bytes) → get_elem? (pre ++ x ∷ b) (length pre) ≡ some x
get_elem?-append [] x b = refl
get_elem?-append (y ∷ pre) x b = get_elem?-append pre x b

slice-append :
    (pre part b : Bytes)
    → slice (pre ++ (part ++ b)) (length pre) (length pre + length part) ≡ some part
unfolding slice
slice-append pre part b = ground (
  arith,
  drop-length-append pre (part ++ b),
  take-length-append part b,
  length-append pre (part ++ b),
  length-append part b,
)

length-concat : (pre : Bytes) (x : ℕ) → length (pre ++ x ∷ []) ≡ length pre + 1
length-concat pre x = omega (arith, length-append pre (x ∷ []))

round-label :
    (pre part b : Bytes)
    → IsLabel part
    → round (pre ++ (length part ∷ part ++ b)) (length pre) ≡ some (label (length part) part)
unfolding round read_label
round-label pre part b h = ground (
  arith,
  get_elem?-append pre (length part) (part ++ b),
  length-append pre (length part ∷ part ++ b),
  length-append part b,
  rw (append_assoc pre (length part ∷ []) (part ++ b), length-concat pre (length part)) at
      (slice-append (pre ++ length part ∷ []) part b),
)

round-break : (pre b : Bytes) → round (pre ++ 0 ∷ b) (length pre) ≡ some break
unfolding round read_label
round-break pre b = ground (arith, get_elem?-append pre 0 b, length-append pre (0 ∷ b))

length-label : (pre l : Bytes) → length (pre ++ (length l ∷ l)) ≡ length pre + 1 + length l
length-label pre l = omega (arith, length-append pre (length l ∷ l))

-- What the loop makes of the labels that follow.
abbrev dotted : Bytes → List Bytes → Bytes
dotted domain [] = domain
dotted domain (l ∷ ls) = dotted (append_label domain l) ls

read_labels-encode :
    (labels : List Bytes) (fuel : ℕ) (pre domain rest : Bytes)
    → All IsLabel labels
    → length labels < fuel
    → read_labels fuel (pre ++ encode labels rest) (length pre) domain ≡ some (dotted domain labels)
unfolding read_labels
read_labels-encode labels zero pre domain rest h enough = absurd (omega arith)
read_labels-encode [] (suc fuel) pre domain rest h enough = rw (round-break pre rest, read_labels)
read_labels-encode (l ∷ ls) (suc fuel) pre domain rest (h, hs) enough =
    rw (round-label pre l (encode ls rest) h, read_labels)
      (rw (append_assoc pre (length l ∷ l) (encode ls rest), length-label pre l) at
        (read_labels-encode ls fuel (pre ++ (length l ∷ l)) (append_label domain l) rest hs
          (omega arith)))

join-append :
    (sep x y : Bytes) (ls : List Bytes) → join sep ((x ++ y) ∷ ls) ≡ x ++ join sep (y ∷ ls)
join-append sep x y [] = refl
join-append sep x y (l ∷ ls) = append_assoc x y (sep ++ join sep (l ∷ ls))

append_label-append :
    (domain part : Bytes) → 0 < length domain → append_label domain part ≡ domain ++ b'.' ∷ part
unfolding append_label
append_label-append domain part h = ground (arith, append_assoc domain (b'.' ∷ []) part)

dotted-join :
    (domain : Bytes) (ls : List Bytes)
    → 0 < length domain
    → dotted domain ls ≡ join (b'.' ∷ []) (domain ∷ ls)
dotted-join domain [] h = refl
dotted-join domain (l ∷ ls) h = rw (append_label-append domain l h) (
    dotted-join (domain ++ (b'.' ∷ l)) ls (omega (arith, length-append domain (b'.' ∷ l)))
    ∙ join-append (b'.' ∷ []) domain (b'.' ∷ l) ls
    ∙ ap (◌++◌ domain) (join-append (b'.' ∷ []) (b'.' ∷ []) l ls))

dotted-nil : (ls : List Bytes) → All IsLabel ls → dotted [] ls ≡ join (b'.' ∷ []) ls
unfolding append_label
dotted-nil [] h = refl
dotted-nil (l ∷ ls) h = dotted-join l ls h.0.0

pub length-encode : (ls : List Bytes) (rest : Bytes) → length ls < length (encode ls rest)
length-encode [] rest = omega arith
length-encode (l ∷ ls) rest =
    omega (arith, length-append (length l ∷ l) (encode ls rest), length-encode ls rest)

-- From a packet with a 12-byte header and then any domain name in wire format, whatever comes after
-- it, `parseDNSQuery` gets the labels joined by dots. The labels are those that the format allows
-- and more: each has 1 to 191 bytes.
pub parse_dns_query-encode :
    (header : Bytes) (labels : List Bytes) (rest : Bytes)
    → length header ≡ 12
    → All IsLabel labels
    → parse_dns_query (header ++ encode labels rest) ≡ some (join (codes ".") labels)
unfolding parse_dns_query
parse_dns_query-encode header labels rest h hs =
    let payload = header ++ encode labels rest in
    let read =
      read_labels-encode labels (suc (length payload)) header [] rest hs
        (omega (arith, length-append header (encode labels rest), length-encode labels rest)) in
    ground (
      arith,
      rw h at read,
      dotted-nil labels hs,
      length-append header (encode labels rest),
      length-encode labels rest,
    )
