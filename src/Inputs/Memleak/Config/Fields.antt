-- ===== src/Inputs/Memleak/Config/Fields.antt =====
-- What one assignment of `parseConfig` leaves alone.
use arbutus.Base.{◌≡◌, refl, Option, none, some}
use arbutus.Inputs.Memleak.Config.{assign}
use arbutus.Inputs.Memleak.{Memleak}

pub assign-keeps :
    {V A : Type 0} (f : Memleak → A) (o : Option V) (set : V → Memleak → Memleak)
    → ((v : V) (m : Memleak) → f (set v m) ≡ f m)
    → (m : Memleak) → f (assign o set m) ≡ f m
assign-keeps f none set keeps m = refl
assign-keeps f (some v) set keeps m = keeps v m
