-- ===== src/Inputs/Dnssnoop/Query.antt =====
-- internal/plugins/inputs/dnssnoop/dnssnoop.go: `parseDNSQuery`, with every index and slice checked as
-- Go checks it. `none` is a panic, or the end of the fuel.
pub mod Total
pub mod RoundTrip
use arbutus.Base.{
  ℕ, zero, suc, ◌+◌, ◌-◌, ◌≡◌, refl, Bool, ◌&&◌, List, [], ◌∷◌, ◌++◌, Option, none, some, length,
  take, drop, get_elem?, ltb, leb, ◌==◌, if◌then◌else◌, Bytes, codes,
}

infixl 5 ◌>>=◌
abbrev pub ◌>>=◌ : {A B : Type 0} → Option A → (A → Option B) → Option B
none >>= f = none
some a >>= f = f a

-- `b[lo:hi]`
unfoldable pub slice : Bytes → ℕ → ℕ → Option Bytes
slice b lo hi = if leb lo hi && leb hi (length b) then some (take (hi - lo) (drop lo b)) else none

-- `if len(domain) > 0 { domain = append(domain, '.') }; domain = append(domain, label...)`
unfoldable pub append_label : Bytes → Bytes → Bytes
append_label domain label = (if ltb 0 (length domain) then domain ++ b'.' ∷ [] else domain) ++ label

-- How the body of the loop ends: by `break`, or with a label and its length.
pub data Round : Type 0 where
  break : Round
  label : ℕ → Bytes → Round

-- The body from the read of the length byte on.
read_label : Bytes → ℕ → ℕ → Option Round
unfolding slice
read_label payload offset label_len =
    if label_len == 0
    then some break
    else if leb 192 label_len
    then some break
    else if ltb (length payload) (offset + label_len)
    then some break
    else slice payload offset (offset + label_len) >>= λ part. some (label label_len part)

-- The test and the body of the loop.
unfoldable pub round : Bytes → ℕ → Option Round
unfolding read_label
round payload offset =
    if ltb offset (length payload)
    then get_elem? payload offset >>= read_label payload (offset + 1)
    else some break

-- The loop from `offset`, with the domain so far.
unfoldable pub read_labels : ℕ → Bytes → ℕ → Bytes → Option Bytes
unfolding round append_label
read_labels zero payload offset domain = none
read_labels (suc fuel) payload offset domain = elim (round payload offset) [
  | none ↦ none
  | some break ↦ some domain
  | some (label label_len part) ↦
      read_labels fuel payload (offset + 1 + label_len) (append_label domain part)
]

-- Each round moves the offset on by one at least, so the fuel is enough.
unfoldable pub parse_dns_query : Bytes → Option Bytes
unfolding read_labels
parse_dns_query payload =
    if ltb (length payload) 13 then some [] else read_labels (suc (length payload)) payload 12 []
