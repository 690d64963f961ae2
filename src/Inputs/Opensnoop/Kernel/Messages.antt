-- ===== src/Inputs/Opensnoop/Kernel/Messages.antt =====
-- From the calls of openat to the messages of the logs.
use mathlib.Core.List.{Sublistᴰ}
use mathlib.Core.List.Sublistᴰ as Sub
use mathlib.Core.Path.{subst}
use arbutus.Base.{
  ◌/◌, ◌%◌, ◌^◌, ◌≡◌, refl, sym, ap, ◌∙◌, inl, inr, true, false, List, [], ◌∷◌, ◌++◌, map, Option,
  none, some, length, arith, Bytes, codes, format_uint, All, Bool-cases, some_eq,
}
use arbutus.Inputs.Opensnoop.Event.{opened, layout, IsEvent, decode-layout, message-opened}
use arbutus.Inputs.Opensnoop.Kernel.{Call, sys_enter_openat}
use arbutus.Inputs.Opensnoop.{OpensnoopEvent, decode, message, to_log, run}
use arbutus.Inputs.Reader.Passes.{Taken, events_of, logs_of}
use arbutus.Inputs.Reader.Traced.{
  samples, map-Sublist, part-Sublist, put, submitted, All-submitted, Returns, run-traced,
}
use arbutus.Inputs.Reader.{Reader, Step, started}
use arbutus.Inputs.Wire.Laws.{IsText}
use arbutus.Models.{Log}

-- What is documented of the helpers: they fill arrays of 16 and 256 bytes with a text that a zero
-- closes.
pub record IsDocumented (c : Call) : Type 0 where
  pub comm_size : length (c.comm ++ 0 ∷ c.comm_rest) ≡ 16
  pub comm_text : IsText c.comm
  pub fname_size : length (c.fname ++ 0 ∷ c.fname_rest) ≡ 256
  pub fname_text : IsText c.fname

-- What a log says of a call.
abbrev pub words : Call → Bytes
words c =
    codes "Process "
    ++ (c.comm
        ++ (codes " (PID "
            ++ (format_uint (c.pid_tgid / 2 ^ 32 % 2 ^ 32)
                ++ (codes ") opened file: " ++ c.fname))))

-- An event as a record of the ring buffer.
abbrev pub memory : OpensnoopEvent → Bytes
memory e = layout e []

pub sys_enter_openat-IsEvent :
    (c : Call) (e : OpensnoopEvent) → IsDocumented c → sys_enter_openat c ≡ some e → IsEvent e
unfolding sys_enter_openat
sys_enter_openat-IsEvent c e d h = elim (Bool-cases c.has_room) [
  | inl q ↦ subst IsEvent (some_eq (rw (q, sys_enter_openat) at h)) (record {
    pid_range = omega arith;
    uid_range = omega arith;
    ret_range = omega arith;
    comm_size = d.comm_size;
    fname_size = d.fname_size;
  })
  | inr q ↦ cc (rw (q, sys_enter_openat) at h)
]

pub memory-Returns :
    (host : Option Bytes) (es : List OpensnoopEvent)
    → All IsEvent es
    → All (Returns decode (to_log host) memory) es
memory-Returns host [] h = tt
memory-Returns host (e ∷ es) h = (decode-layout e [] h.0, memory-Returns host es h.1)

pub sys_enter_openat_room :
    (c : Call)
    → c.has_room ≡ true
    → sys_enter_openat c
      ≡ some (
          opened
            (c.pid_tgid / 2 ^ 32 % 2 ^ 32)
            (c.uid_gid % 2 ^ 32)
            0
            c.comm
            c.comm_rest
            c.fname
            c.fname_rest)
unfolding sys_enter_openat
sys_enter_openat_room c h = rw (h, sys_enter_openat) refl

pub sys_enter_openat_full : (c : Call) → c.has_room ≡ false → sys_enter_openat c ≡ none
unfolding sys_enter_openat
sys_enter_openat_full c h = rw (h, sys_enter_openat) refl

-- The events that are submitted, against the calls: a call without room leaves none.
submitted-words :
    (cs : List Call)
    → All IsDocumented cs
    → Sublistᴰ (map message (submitted sys_enter_openat cs)) (map words cs)
submitted-words [] d = Sub.slnil
submitted-words (c ∷ cs) d = elim (Bool-cases c.has_room) [
  | inl q ↦
      subst
        (λ o. Sublistᴰ (map message (put o (submitted sys_enter_openat cs))) (map words (c ∷ cs)))
        (sym (sys_enter_openat_room c q))
        (Sub.cons-cons
          (message-opened (c.pid_tgid / 2 ^ 32 % 2 ^ 32) (c.uid_gid % 2 ^ 32) 0 c.comm c.comm_rest
            c.fname c.fname_rest d.0.comm_text d.0.fname_text)
          (submitted-words cs d.1))
  | inr q ↦
      subst
        (λ o. Sublistᴰ (map message (put o (submitted sys_enter_openat cs))) (map words (c ∷ cs)))
        (sym (sys_enter_openat_full c q)) (Sub.cons (submitted-words cs d.1))
]

pub messages_of :
    (host : Option Bytes) (taken : Taken decode (to_log host))
    → map (λ (l : Log). l.message) (logs_of decode (to_log host) taken)
      ≡ map message (events_of decode (to_log host) taken)
unfolding to_log
messages_of host [] = refl
messages_of host ((now, e) ∷ taken) = ap (λ ms. message e ∷ ms) (messages_of host taken)

-- If the records that are read are the first of those that the eBPF program submits in these calls of
-- openat, then in every run the messages that reached the accumulator are those that name the process,
-- the pid and the path of some of these calls, in the order of the calls, and no call is told twice.
pub run-openat :
    (host : Option Bytes) (cs : List Call) (ss : List Step) (unread : List Bytes)
    {r : Reader OpensnoopEvent}
    → All IsDocumented cs
    → samples ss ++ unread ≡ map memory (submitted sys_enter_openat cs)
    → run host ss started ≡ some r
    → Sublistᴰ (map (λ (l : Log). l.message) r.logs) (map words cs)
unfolding run
run-openat host cs ss unread {r} d q e =
    let es = submitted sys_enter_openat cs in
    let events =
      All-submitted sys_enter_openat IsDocumented IsEvent sys_enter_openat-IsEvent cs d in
    let ((taken, logged, ordered), _) =
      run-traced decode (to_log host) memory es ss unread {r = r} (memory-Returns host es events) q
        e in
    subst (λ ms. Sublistᴰ ms (map words cs))
      (sym (ap (map (λ (l : Log). l.message)) logged ∙ messages_of host taken))
      (Sub.trans
        (map-Sublist message
          (Sub.trans (part-Sublist (events_of decode (to_log host) taken) r.events) ordered))
        (submitted-words cs d))
