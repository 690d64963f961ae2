-- ===== src/Inputs/Memleak/Setup/Tests.antt =====
-- A kernel with room for so many links.
use arbutus.Base.{
  ℕ, length, ◌⊎◌, ◌≡◌, refl, ap, true, List, [], ◌∷◌, none, inl, inr, Bytes, codes, GoMap, ltb,
  if◌then◌else◌, Bool-cases,
}
use arbutus.Inputs.Memleak.Config.{Config, parse_config}
use arbutus.Inputs.Memleak.Loop.{Event, done, stops, waiting, run_live}
use arbutus.Inputs.Memleak.Setup.Lasting.{is_stopped, Owns, run-lasting}
use arbutus.Inputs.Memleak.Setup.Laws.{remove, Attaches, Documented}
use arbutus.Inputs.Memleak.Setup.Links.{Started, start-Started}
use arbutus.Inputs.Memleak.Setup.{
  Constant, Kernel, failed, panicked, looping, has_tickers, attach, attach_kernel_tracepoints,
  linked, ready, set_variables, start, with_objects, with_spec, with_variables,
}
use arbutus.Inputs.Memleak.Tests.Insertion.{insertion}
use arbutus.Inputs.Memleak.{Memleak, new_memleak}
use arbutus.Models.{negsuc, int}

abbrev Token : Type 0
Token = Unit

record Toy : Type 0 where
  objects : List Token
  links : List ℕ
  room : ℕ

abbrev pop : List Token → List Token
pop [] = []
pop (t ∷ ts) = ts

abbrev attach_one : Toy → Toy × (Bytes ⊎ ℕ)
attach_one k =
    if ltb (length k.links) k.room
    then (record k { links = length k.links ∷ k.links }, inr (length k.links))
    else (k, inl (codes "no such event"))

abbrev toy : Kernel Toy Token Token
toy = record {
  load_memleak = inr tt;
  set_variable = λ name value spec. (spec, none);
  load_and_assign = λ spec k. (record k { objects = tt ∷ k.objects }, inr tt);
  close_objects = λ o k. record k { objects = pop k.objects };
  tracepoint = λ group name o k. attach_one k;
  close_link = λ l k. record k { links = remove l k.links };
}

attach_one-Attaches : (k : Toy) → Attaches (λ (j : Toy). j.objects) (λ j. j.links) k (attach_one k)
attach_one-Attaches k = elim (Bool-cases (ltb (length k.links) k.room)) [
  | inl fits ↦ rw fits (refl, refl)
  | inr full ↦ rw full (refl, refl)
]

abbrev toy_documented : Documented toy
toy_documented = record {
  loaded = λ k. k.objects;
  attached = λ k. k.links;
  loads = λ spec k. (refl, refl);
  attaches = λ group name o k. attach_one-Attaches k;
  closes = λ o k os e. (ap pop e, refl);
  detaches = λ l k. refl;
}

abbrev with_room : ℕ → Toy
with_room room = record { objects = []; links = []; room = room }

abbrev in_order : GoMap Bytes Constant → GoMap Bytes Constant
in_order constants = constants

abbrev ready_memleak : Memleak
ready_memleak = record new_memleak { running = true; links = 0 ∷ 1 ∷ 2 ∷ 3 ∷ [] }

start_full : start toy in_order [] (with_room 9) new_memleak ≡ (
  record { objects = tt ∷ []; links = 3 ∷ 2 ∷ 1 ∷ 0 ∷ []; room = 9 },
  ready_memleak,
  looping tt,
)
unfolding start with_spec with_variables with_objects set_variables ready attach
    attach_kernel_tracepoints linked parse_config
start_full = refl

-- The third tracepoint fails: two links stay.
start_partial : start toy in_order [] (with_room 2) new_memleak ≡ (
  record { objects = []; links = 1 ∷ 0 ∷ []; room = 2 },
  record new_memleak { links = 0 ∷ 1 ∷ [] },
  failed
      (codes "attaching kernel tracepoints: attaching kmem_cache_alloc tracepoint: no such event"),
)
unfolding start with_spec with_variables with_objects set_variables ready attach
    attach_kernel_tracepoints linked parse_config
start_partial = refl

start-Started_example :
    Started toy toy_documented []
      (with_room 2)
      new_memleak
      (start toy in_order [] (with_room 2) new_memleak)
start-Started_example = start-Started toy toy_documented in_order [] (with_room 2) new_memleak

-- An interval that is no positive number of seconds.
abbrev without_ticks : Config
without_ticks = (codes "interval", int (negsuc 0)) ∷ []

start_panicked : start toy in_order without_ticks (with_room 9) new_memleak ≡ (
  record { objects = []; links = 3 ∷ 2 ∷ 1 ∷ 0 ∷ []; room = 9 },
  record ready_memleak { running = true },
  panicked,
)
unfolding start with_spec with_variables with_objects set_variables ready attach
    attach_kernel_tracepoints linked parse_config has_tickers
start_panicked = refl

abbrev events : List Event
events = done ∷ stops ∷ []

run-lasting_example :
    let r = start toy in_order [] (with_room 9) new_memleak in
    let ended = run_live insertion toy.close_link events (r.0, r.1, waiting) in
    Owns insertion toy toy_documented (with_room 9) ended
    × (length ended.1.links ≡ (if is_stopped events then 0 else 4))
run-lasting_example =
    run-lasting insertion toy toy_documented in_order [] (with_room 9) new_memleak tt refl
      (ap (λ p. p.2) start_full) events
