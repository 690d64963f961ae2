-- ===== src/Inputs/Setup/Plugins.antt =====
-- `Run` of dnssnoop.go, opensnoop.go and template.go up to its goroutine. The rest of `Run` gets the
-- reader and the name of the host.
use arbutus.Base.{Option, Bytes}
use arbutus.Inputs.Setup.{Kernel, opensnoop_hook, template_hook, dnssnoop_hook, run}
use arbutus.Inputs.Wire.{hostname_or_unknown}

module _ {K O L R : Type 0} (kernel : Kernel K O L R)
    (rest_of_run : Bytes → R → K → K × Option Bytes) (hostname : Option Bytes) where
  unfoldable pub run_dnssnoop : K → K × Option Bytes
  unfolding run hostname_or_unknown
  run_dnssnoop k = run kernel (rest_of_run (hostname_or_unknown hostname)) dnssnoop_hook k

  unfoldable pub run_opensnoop : K → K × Option Bytes
  unfolding run hostname_or_unknown
  run_opensnoop k = run kernel (rest_of_run (hostname_or_unknown hostname)) opensnoop_hook k

  unfoldable pub run_template : K → K × Option Bytes
  unfolding run hostname_or_unknown
  run_template k = run kernel (rest_of_run (hostname_or_unknown hostname)) template_hook k
