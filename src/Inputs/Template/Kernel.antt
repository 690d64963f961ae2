-- ===== src/Inputs/Template/Kernel.antt =====
-- internal/plugins/inputs/template/template.bpf.c: the program at the entry of the system call openat.
-- It writes twelve bytes to the memory that it has reserved, and leaves the rest as it is.
use mathlib.Core.List.Sublistᴰ as Sub
use mathlib.Core.Path.{subst}
use arbutus.Base.{
  ◌≡◌, refl, sym, ap, inl, inr, false, Bool, List, [], ◌∷◌, ◌++◌, map, append-nil, arith, Option,
  none, some, length, length-drop, drop, ltb, Bytes, codes, All, Bool-cases, some_eq, if◌then◌else◌,
}
use arbutus.Inputs.Reader.Passes.{Taken, events_of, logs_of}
use arbutus.Inputs.Reader.Traced.{
  All-Sublist, part-Sublist, samples, submitted, All-submitted, Returns, run-traced,
}
use arbutus.Inputs.Reader.{Reader, Step, started}
use arbutus.Inputs.Template.{TemplateEvent, decode, event_size, to_log, run}
use arbutus.Inputs.Wire.Laws.{IsText, cstring_closed, field-append}
use arbutus.Inputs.Wire.{cstring, field}
use arbutus.Models.{Log}

-- One call: whether there is room, and what the reserved memory held before.
pub record Call : Type 0 where
  pub has_room : Bool
  pub reserved : Bytes

-- `const char hello[]`, with the zero that closes it
abbrev pub hello : Bytes
hello = codes "hello world" ++ 0 ∷ []

unfoldable pub sys_enter_openat : Call → Option TemplateEvent
sys_enter_openat c =
    if c.has_room then some (record { msg = hello ++ drop (length hello) c.reserved }) else none

abbrev pub IsReserved : Call → Type 0
IsReserved c = length c.reserved ≡ 256

-- An event with the text, in an array of its size.
record Greets (e : TemplateEvent) : Type 0 where
  size : length e.msg ≡ 256
  text : cstring e.msg ≡ codes "hello world"

hello-IsText : IsText (codes "hello world")
hello-IsText = ground arith

sys_enter_openat-Greets :
    (c : Call) (e : TemplateEvent) → IsReserved c → sys_enter_openat c ≡ some e → Greets e
unfolding sys_enter_openat
sys_enter_openat-Greets c e d h = elim (Bool-cases c.has_room) [
  | inl q ↦ subst Greets (some_eq (rw (q, sys_enter_openat) at h)) (record {
    size = omega (arith, d, length-drop 12 c.reserved);
    text = cstring_closed (codes "hello world") (drop 12 c.reserved) hello-IsText;
  })
  | inr q ↦ cc (rw (q, sys_enter_openat) at h)
]

decode-msg : (e : TemplateEvent) → length e.msg ≡ 256 → decode e.msg ≡ some e
unfolding decode
decode-msg e h =
    let long : ltb (length e.msg) event_size ≡ false = ground (arith, h) in
    let msg : field 0 256 e.msg ≡ e.msg =
      rw (append-nil e.msg) at (field-append [] e.msg [] 0 256 refl h) in
    rw long (λ i. some (record { msg = msg i }))

Greets-Returns :
    (host : Option Bytes) (es : List TemplateEvent)
    → All Greets es
    → All (Returns decode (to_log host) (λ (e : TemplateEvent). e.msg)) es
Greets-Returns host [] h = tt
Greets-Returns host (e ∷ es) h = (decode-msg e h.0.size, Greets-Returns host es h.1)

-- The log says hello.
abbrev pub Says : Log → Type 0
Says l = l.message ≡ codes "Template msg: hello world"

logs_of-Says :
    (host : Option Bytes) (taken : Taken decode (to_log host))
    → All Greets (events_of decode (to_log host) taken)
    → All Says (logs_of decode (to_log host) taken)
unfolding to_log
logs_of-Says host [] h = tt
logs_of-Says host ((now, e) ∷ taken) h =
    (ap (λ t. codes "Template msg: " ++ t) h.0.text, logs_of-Says host taken h.1)

-- Whatever the memory of the ring buffer held before, every log of a run on the records that the eBPF
-- program submits says hello world.
pub run-hello :
    (host : Option Bytes) (cs : List Call) (ss : List Step) (unread : List Bytes)
    {r : Reader TemplateEvent}
    → All IsReserved cs
    → samples ss ++ unread ≡ map (λ (e : TemplateEvent). e.msg) (submitted sys_enter_openat cs)
    → run host ss started ≡ some r
    → All Says r.logs
unfolding run
run-hello host cs ss unread {r} d q e =
    let es = submitted sys_enter_openat cs in
    let greets = All-submitted sys_enter_openat IsReserved Greets sys_enter_openat-Greets cs d in
    let ((taken, logged, ordered), _) =
      run-traced decode (to_log host) (λ (e : TemplateEvent). e.msg) es ss unread {r = r}
        (Greets-Returns host es greets) q e in
    let seen = Sub.trans (part-Sublist (events_of decode (to_log host) taken) r.events) ordered in
    subst (All Says) (sym logged) (logs_of-Says host taken (All-Sublist Greets seen greets))
