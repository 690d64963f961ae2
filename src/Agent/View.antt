-- ===== src/Agent/View.antt =====
-- Two agents that differ in what they see of the outputs' state.
use mathlib.Core.Option as Option
use arbutus.Base.{ℕ, zero, suc, ◌≡◌, refl, Bool, true, false, List, Option, none, some}
use arbutus.Models.{Telemetry}
use arbutus.Pipeline.{Pipeline}
use arbutus.Agent.{
  Agent, Event, on_done, on_signal, on_tick, on_flush, flushing, take_locked, finish, send, select,
  ready,
}

module _ {O W V : Type 0} (view : W → V) where
  abbrev pub seen : Agent O W → Agent O V
  seen a = record {
    pipeline = a.pipeline;
    main = a.main;
    senders = a.senders;
    cancelled = a.cancelled;
    interrupted = a.interrupted;
    ticked = a.ticked;
    world = view a.world;
  }

  ready-seen : (flag : Bool) (a : Agent O W) → ready flag (seen a) ≡ Option.map seen (ready flag a)
  unfolding ready
  ready-seen true a = refl
  ready-seen false a = refl

  pub select-seen : (e : Event) (a : Agent O W) → select e (seen a) ≡ Option.map seen (select e a)
  unfolding select
  select-seen on_done a = ready-seen a.cancelled (record a { main = flushing true })
  select-seen on_signal a =
      ready-seen a.interrupted (record a { interrupted = false; cancelled = true })
  select-seen on_tick a = ready-seen a.ticked (record a { ticked = false; main = flushing false })
  select-seen on_flush a =
      ready-seen a.pipeline.flush_token
        (record a { pipeline = record a.pipeline { flush_token = false }; main = flushing false })
  select-seen _ a = refl

  pub finish-seen : (last : Bool) (a : Agent O W) → finish last (seen a) ≡ seen (finish last a)
  unfolding finish
  finish-seen true a = refl
  finish-seen false a = refl

  pub take_locked-seen :
      (last : Bool) (r : Pipeline O × Option (List Telemetry)) (a : Agent O W)
      → take_locked last r (seen a) ≡ seen (take_locked last r a)
  unfolding take_locked
  take_locked-seen last (p, none) a = finish-seen last (record a { pipeline = p })
  take_locked-seen last (p, some batch) a = refl

  pub send-seen : (n : ℕ) (a : Agent O W) → send n (seen a) ≡ Option.map seen (send n a)
  unfolding send
  send-seen zero a = refl
  send-seen (suc n) a = refl
