-- ===== src/Pipeline/Replay.antt =====
-- Outputs with a state of their own against outputs that only keep a journal: what a journal's calls
-- of `Write` do, one after the other, is what happens to the outputs' state.
use arbutus.Base.{◌≡◌, refl, List, [], ◌∷◌, ◌++◌, filter}
use arbutus.Models.{Telemetry}
use arbutus.Models.Plugin.{Output, Outcome}
use arbutus.Pipeline.{supports, write_to, write_filtered}
use arbutus.Pipeline.Delivery.{Calls, recorder}

module _ {O W : Type 0} (api : Output O W) where
  -- The state after these calls.
  unfoldable pub replay : W → Calls O → W
  replay w [] = w
  replay w ((o, batch) ∷ calls) = replay (api.write o batch w).0 calls

  replay-append : (w : W) (xs ys : Calls O) → replay w (xs ++ ys) ≡ replay (replay w xs) ys
  unfolding replay
  replay-append w [] ys = refl
  replay-append w ((o, batch) ∷ xs) ys = replay-append (api.write o batch w).0 xs ys

  module _ (w : W) where
    -- How the outputs answer a call that comes after others.
    unfoldable pub answers : Calls O → O → List Telemetry → Outcome
    answers calls o batch = (api.write o batch (replay w calls)).1

    -- The journal that answers so.
    abbrev pub journal : Output O (Calls O)
    journal = recorder api.supported_types answers

    -- The answer of a call, on both sides.
    abbrev pub Plays : W × Outcome → Calls O × Outcome → Type 0
    Plays r s = r ≡ (replay w s.0, s.1)

    write_filtered-Plays :
        (o : O) (part : List Telemetry) (calls : Calls O)
        → Plays (write_filtered api o part (replay w calls)) (write_filtered journal o part calls)
    unfolding write_filtered replay answers
    write_filtered-Plays o [] calls = refl
    write_filtered-Plays o (t ∷ ts) calls = rw (replay-append w calls ((o, t ∷ ts) ∷ [])) refl

    pub write_to-Plays :
        (o : O) (batch : List Telemetry) (calls : Calls O)
        → Plays (write_to api o batch (replay w calls)) (write_to journal o batch calls)
    unfolding write_to supports
    write_to-Plays o batch calls = write_filtered-Plays o (filter (supports api o) batch) calls
