-- ===== src/Pipeline/View.antt =====
-- Outputs that do to a part of the state what other outputs do to it, and never fail.
use arbutus.Base.{◌≡◌, refl, ap, List, [], ◌∷◌, filter}
use arbutus.Models.{Telemetry}
use arbutus.Models.Plugin.{Output, Outcome, returned}
use arbutus.Pipeline.{supports, write_to, write_filtered}

module _ {O W V : Type 0} (api : Output O W) (print : O → List Telemetry → V → V) where
  abbrev pub viewed : Output O V
  viewed = record {
    supported_types = api.supported_types;
    write = λ o batch v. (print o batch v, returned);
  }

  module _ (view : W → V)
      (follows : (o : O) (batch : List Telemetry) (w : W)
        → print o batch (view w) ≡ view (api.write o batch w).0) where
    write_filtered-viewed :
        (o : O) (part : List Telemetry) (w : W)
        → write_filtered viewed o part (view w) ≡ (view (write_filtered api o part w).0, returned)
    unfolding write_filtered
    write_filtered-viewed o [] w = refl
    write_filtered-viewed o (t ∷ ts) w = ap (λ v. (v, returned)) (follows o (t ∷ ts) w)

    pub write_to-viewed :
        (o : O) (batch : List Telemetry) (w : W)
        → write_to viewed o batch (view w) ≡ (view (write_to api o batch w).0, returned)
    unfolding write_to supports
    write_to-viewed o batch w = write_filtered-viewed o (filter (supports api o) batch) w

-- What the body of the loop over the outputs does is nothing, or one call of `Write`.
write_filtered_cases :
    {O W : Type 0} (api : Output O W) (P : W × Outcome → Type 0) (o : O) (part : List Telemetry)
    (w : W)
    → P (w, returned)
    → ((ts : List Telemetry) → P (api.write o ts w))
    → P (write_filtered api o part w)
unfolding write_filtered
write_filtered_cases api P o [] w nothing any = nothing
write_filtered_cases api P o (t ∷ ts) w nothing any = any (t ∷ ts)

pub write_to_cases :
    {O W : Type 0} (api : Output O W) (P : W × Outcome → Type 0) (o : O) (batch : List Telemetry)
    (w : W)
    → P (w, returned)
    → ((ts : List Telemetry) → P (api.write o ts w))
    → P (write_to api o batch w)
unfolding write_to
write_to_cases api P o batch w nothing any =
    write_filtered_cases api P o (filter (supports api o) batch) w nothing any
