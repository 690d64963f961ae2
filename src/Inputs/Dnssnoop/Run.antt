-- ===== src/Inputs/Dnssnoop/Run.antt =====
-- The runs of the plugin.
use arbutus.Base.{
  ℕ, ◌≤◌, ◌≡◌, ◌≢◌, inl, inr, List, [], ◌∷◌, Option, none, some, length, length-take, length-drop,
  drop, take, ltb, false, arith, Bytes, Bool-cases, some_eq, ap,
}
use arbutus.Inputs.Dnssnoop.Event.{to_log-panics_iff}
use arbutus.Inputs.Dnssnoop.{DnssnoopEvent, decode, event_size, to_log, run}
use arbutus.Inputs.Reader.Unbroken.{Sane, run-unbroken}
use arbutus.Inputs.Reader.{Reader, Step, reads, started, panicked}
use arbutus.Inputs.Wire.{field}
use arbutus.Models.{Time}

-- The kernel side never writes a longer payload than the array has room for.
abbrev pub Bounded : List Step → Type 0
Bounded [] = Unit
Bounded (reads sample ∷ ss) =
    ((e : DnssnoopEvent) → decode sample ≡ some e → e.payload_len ≤ 256) × Bounded ss
Bounded (s ∷ ss) = Bounded ss

not_below : (m n : ℕ) → ltb m n ≡ false → n ≤ m
not_below m n h = ground (arith, h)

decode-payload :
    (sample : Bytes) (e : DnssnoopEvent) → decode sample ≡ some e → length e.payload ≡ 256
unfolding decode field
decode-payload sample e h = elim (Bool-cases (ltb (length sample) event_size)) [
  | inl short ↦ cc (rw (short, decode) at h)
  | inr long ↦
      let same : length (take 256 (drop 28 sample)) ≡ length e.payload =
        ap (λ (x : DnssnoopEvent). length x.payload) (some_eq (rw (long, decode) at h)) in
      omega (
        arith,
        same,
        not_below (length sample) event_size long,
        length-take 256 (drop 28 sample),
        length-drop 28 sample,
      )
]

Good : DnssnoopEvent → Type 0
Good e = (length e.payload ≡ 256) × (e.payload_len ≤ 256)

Good-log :
    (host : Option Bytes) (now : Time) (e : DnssnoopEvent) → Good e → to_log host now e ≢ none
unfolding Good
Good-log host now e (size, fits) n =
    absurd (omega (arith, (to_log-panics_iff host now e size).0 n, fits))

Bounded-Sane :
    (host : Option Bytes) (ss : List Step)
    → Bounded ss
    → Sane decode (to_log host) Good (Good-log host) ss
unfolding Good
Bounded-Sane host [] b = tt
Bounded-Sane host (reads sample ∷ ss) (fits, b) =
    ((λ e h. (decode-payload sample e h, fits e h)), Bounded-Sane host ss b)
Bounded-Sane host (_ ∷ ss) b = Bounded-Sane host ss b

-- If no record that is decoded claims a payload longer than its array, then in no run does the loop
-- of the DNS plugin panic, whatever bytes the payloads hold.
pub run-Bounded :
    (host : Option Bytes) (ss : List Step) {r : Reader DnssnoopEvent}
    → Bounded ss
    → run host ss started ≡ some r
    → r.loop ≢ panicked
unfolding run
run-Bounded host ss {r} b h =
    run-unbroken decode (to_log host) Good (Good-log host) ss {r = r} (Bounded-Sane host ss b) h
