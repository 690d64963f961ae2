-- ===== src/Outputs/Fleet/Launch.antt =====
-- The start of the outputs as a whole: `InitializeOutputs`, its goroutines, and what the main loop then
-- relies on.
use arbutus.Base.{
  ◌≡◌, refl, ◌∙◌, inl, inr, List, Option, none, some, Bytes, codes, bytes_eq, GoMap, lookup, IsMap,
  Lacks-lookup,
}
use arbutus.Outputs.File.{Os}
use arbutus.Outputs.Fleet.Safety.{IsReady, fleet-Calm}
use arbutus.Outputs.Fleet.Startup.{
  after, connect_all_lem, initialize_outputs_lem, Absent-kinds, outputs_of,
}
use arbutus.Outputs.Fleet.{
  Kind, file, loki, kind_eq, Config, World, initialize_outputs, connect, connect_all,
  supported_types, fleet,
}
use arbutus.Outputs.Lines.{Format}
use arbutus.Outputs.Loki.Client
use arbutus.Outputs.Loki.Client.Replies.{connect-IsReady}
use arbutus.Outputs.Loki.Client.{Web}
use arbutus.Outputs.Loki.{Text}
use arbutus.Pipeline.Delivery.{Calm}
use arbutus.Pipeline.Replay.{answers}

module _ {H D N : Type 0} (format : Format) (text : Text) (os : Os H D) (web : Web N) where
  -- `Connect` of Loki gives no error.
  abbrev pub Connects : Option Config → World H D N → Type 0
  Connects none w = Unit
  Connects (some config) w = (Client.connect web config w.loki).1 ≡ none

  after_file-loki :
      (f : Option Config) (w : World H D N) → (after format text os web file f w).loki ≡ w.loki
  unfolding connect
  after_file-loki none w = refl
  after_file-loki (some config) w = refl

  after_loki-IsReady :
      (config : Config) (outputs : List Kind) (w v : World H D N)
      → v.loki ≡ w.loki
      → Connects (some config) w
      → IsReady format text os web outputs (after format text os web loki (some config) v)
  unfolding connect
  after_loki-IsReady config outputs w v same ok =
      let e : (Client.connect web config v.loki).1 ≡ none = rw same ok in
      let ready =
        connect-IsReady web config v.loki (Client.connect web config v.loki).0
          (λ i. ((Client.connect web config v.loki).0, e i)) in
      inr (ready.timeout, ready.client)

  launched-IsReady :
      (configs : GoMap Bytes Config) (w : World H D N) (l : Option Config)
      → IsMap configs
      → lookup (codes "loki") configs ≡ l
      → Connects l w
      → IsReady format text os web
          (outputs_of configs)
          (connect_all format text os web (initialize_outputs configs) w)
  launched-IsReady configs w none m at_loki ok =
      let (m', same) = initialize_outputs_lem configs m in
      inl (
        Absent-kinds loki (initialize_outputs configs)
          (Lacks-lookup loki (initialize_outputs configs) (same loki ∙ at_loki)))
  launched-IsReady configs w (some config) m at_loki ok =
      let (m', same) = initialize_outputs_lem configs m in
      let started = initialize_outputs configs in
      rw (connect_all_lem format text os web started w m', same loki ∙ at_loki)
        (after_loki-IsReady config (outputs_of configs) w
          (after format text os web file (lookup file started) w)
          (after_file-loki (lookup file started) w) ok)

  -- Let the names of a configuration be distinct, and let `Connect` of Loki give no error if it is
  -- configured. Then in whatever order the goroutines of `InitializeOutputs` have run, no output
  -- panics from then on, whatever it is given and whatever the disk and the network answer.
  pub connect_all-Calm :
      (configs : GoMap Bytes Config) (w : World H D N)
      → IsMap configs
      → Connects (lookup (codes "loki") configs) w
      → Calm
          (supported_types format text os web)
          (answers
            (fleet format text os web)
            (connect_all format text os web (initialize_outputs configs) w))
          (outputs_of configs)
  connect_all-Calm configs w m ok =
      fleet-Calm format text os web (outputs_of configs)
        (connect_all format text os web (initialize_outputs configs) w)
        (launched-IsReady configs w (lookup (codes "loki") configs) m refl ok)
