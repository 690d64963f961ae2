-- ===== src/Inputs/Opensnoop/Kernel/Kept.antt =====
-- No call of openat that found room is lost on the way to the accumulator.
use mathlib.Core.Path.{subst}
use arbutus.Base.{
  ◌/◌, ◌%◌, ◌^◌, ◌≤◌, ◌≡◌, refl, sym, ap, ◌∙◌, inl, inr, List, [], ◌∷◌, ◌++◌, append_assoc, map,
  filter, Option, some, length, Bytes, All, Bool-cases, if◌then◌else◌,
}
use arbutus.Inputs.Opensnoop.Event.{message-opened}
use arbutus.Inputs.Opensnoop.Kernel.Messages.{
  IsDocumented, words, memory, sys_enter_openat_room, sys_enter_openat_full,
  sys_enter_openat-IsEvent, memory-Returns, messages_of,
}
use arbutus.Inputs.Opensnoop.Event.{IsEvent}
use arbutus.Inputs.Opensnoop.Kernel.{Call, sys_enter_openat}
use arbutus.Inputs.Opensnoop.{OpensnoopEvent, decode, message, to_log, run}
use arbutus.Inputs.Reader.Passes.{events_of}
use arbutus.Inputs.Reader.Traced.{samples, put, submitted, All-submitted, run-traced}
use arbutus.Inputs.Reader.{Reader, Step, started, channel_size}
use arbutus.Models.{Log}

-- The calls that found room in the ring buffer.
abbrev pub had_room : List Call → List Call
had_room cs = filter (λ (c : Call). c.has_room) cs

submitted-had_room :
    (cs : List Call)
    → All IsDocumented cs
    → map message (submitted sys_enter_openat cs) ≡ map words (had_room cs)
submitted-had_room [] d = refl
submitted-had_room (c ∷ cs) d = elim (Bool-cases c.has_room) [
  | inl q ↦
      subst
        (λ b.
          map message (put (sys_enter_openat c) (submitted sys_enter_openat cs))
          ≡ map words (if b then c ∷ had_room cs else had_room cs))
        (sym q)
        (subst
          (λ o.
            map message (put o (submitted sys_enter_openat cs)) ≡ words c ∷ map words (had_room cs))
          (sym (sys_enter_openat_room c q))
          (λ i.
            message-opened (c.pid_tgid / 2 ^ 32 % 2 ^ 32) (c.uid_gid % 2 ^ 32) 0 c.comm c.comm_rest
              c.fname c.fname_rest d.0.comm_text d.0.fname_text i
            ∷ submitted-had_room cs d.1 i))
  | inr q ↦
      subst
        (λ b.
          map message (put (sys_enter_openat c) (submitted sys_enter_openat cs))
          ≡ map words (if b then c ∷ had_room cs else had_room cs))
        (sym q)
        (subst (λ o. map message (put o (submitted sys_enter_openat cs)) ≡ map words (had_room cs))
          (sym (sys_enter_openat_full c q)) (submitted-had_room cs d.1))
]

map-append :
    (xs ys : List OpensnoopEvent) → map message (xs ++ ys) ≡ map message xs ++ map message ys
map-append [] ys = refl
map-append (x ∷ xs) ys = ap (λ ms. message x ∷ ms) (map-append xs ys)

-- If the records that are read are the first of those that the eBPF program submits in these calls of
-- openat, and it submits no more than 10000, then in every run the messages that reached the accumulator,
-- then those of the events in the channel, then those of as many events as there are records still
-- unread, are what is to be said of the calls that found room in the ring buffer: of each, once and in
-- order.
pub run-openat_kept :
    (host : Option Bytes) (cs : List Call) (ss : List Step) (unread : List Bytes)
    {r : Reader OpensnoopEvent}
    → All IsDocumented cs
    → samples ss ++ unread ≡ map memory (submitted sys_enter_openat cs)
    → length (submitted sys_enter_openat cs) ≤ channel_size
    → run host ss started ≡ some r
    → (later : List OpensnoopEvent) × (length later ≡ length unread)
      × (map (λ (l : Log). l.message) r.logs ++ (map message r.events ++ map message later)
          ≡ map words (had_room cs))
unfolding run
run-openat_kept host cs ss unread {r} d q few e =
    let es = submitted sys_enter_openat cs in
    let events =
      All-submitted sys_enter_openat IsDocumented IsEvent sys_enter_openat-IsEvent cs d in
    let (_, kept) =
      run-traced decode (to_log host) memory es ss unread {r = r} (memory-Returns host es events) q
        e in
    let (taken, later, logged, all, same) = kept few in
    let before = events_of decode (to_log host) taken in
    (
      later,
      same,
      ap (λ ms. ms ++ (map message r.events ++ map message later))
            (ap (map (λ (l : Log). l.message)) logged ∙ messages_of host taken)
          ∙ sym (append_assoc (map message before) (map message r.events) (map message later))
          ∙ ap (λ ms. ms ++ map message later) (sym (map-append before r.events))
          ∙ sym (map-append (before ++ r.events) later)
          ∙ ap (map message) all
          ∙ submitted-had_room cs d,
    )
