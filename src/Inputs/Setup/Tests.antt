-- ===== src/Inputs/Setup/Tests.antt =====
-- A kernel that keeps the open handles and knows no fentry hook.
use arbutus.Base.{◌≡◌, refl, ap, List, [], ◌∷◌, Option, none, some, ◌⊎◌, inl, inr, Bytes, codes}
use arbutus.Inputs.Setup.{
  Hook, tracepoint, tracing, Kernel, opensnoop_hook, dnssnoop_hook, deferring, with_link,
  with_objects, run,
}
use arbutus.Inputs.Setup.Released.{Handle, objects, link, reader, Gets, Documented, run-released}

abbrev Token : Type 0
Token = Unit

abbrev Handles : Type 0
Handles = List (Handle Token Token Token)

abbrev pop : Handles → Handles
pop [] = []
pop (h ∷ hs) = hs

abbrev attach : Hook → Handles → Handles × (Bytes ⊎ Token)
attach (tracepoint group name) hs = (link tt ∷ hs, inr tt)
attach tracing hs = (hs, inl (codes "not supported"))

abbrev toy : Kernel Handles Token Token Token
toy = record {
  load_objects = λ hs. (objects tt ∷ hs, inr tt);
  close_objects = λ o. pop;
  attach = λ hook o. attach hook;
  close_link = λ l. pop;
  new_reader = λ o hs. (reader tt ∷ hs, inr tt);
  close_reader = λ r. pop;
}

attach_lem : (hook : Hook) (hs : Handles) → Gets (λ (h : Handles). h) link hs (attach hook hs)
attach_lem (tracepoint group name) hs = refl
attach_lem tracing hs = refl

abbrev toy_documented : Documented toy
toy_documented = record {
  held = λ hs. hs;
  loads = λ hs. refl;
  attaches = λ hook o hs. attach_lem hook hs;
  opens = λ o hs. refl;
  unloads = λ o hs rest e. ap pop e;
  detaches = λ l hs rest e. ap pop e;
  shuts = λ r hs rest e. ap pop e;
}

abbrev quiet : Token → Handles → Handles × Option Bytes
quiet rd hs = (hs, none)

-- dnssnoop fails at its hook, opensnoop runs.
dnssnoop_fails :
    run toy quiet dnssnoop_hook [] ≡ ([], some (codes "attaching fentry: not supported"))
unfolding run with_objects with_link deferring
dnssnoop_fails = refl

opensnoop_runs : run toy quiet opensnoop_hook [] ≡ ([], none)
unfolding run with_objects with_link deferring
opensnoop_runs = refl

run-released_example :
    ((run toy quiet opensnoop_hook []).0 ≡ [])
    × ((run toy quiet opensnoop_hook []).1 ≡ none
        → (o : Token) × (l : Token) × (r : Token) × (k1 : Handles) × (k1
            ≡ reader r ∷ link l ∷ objects o ∷ [])
          × ((quiet r k1).1 ≡ none))
run-released_example = run-released toy quiet toy_documented (λ r k. refl) opensnoop_hook []
