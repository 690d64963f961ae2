-- ===== src/Inputs/Setup.antt =====
-- The start of `Run` in dnssnoop.go, opensnoop.go and template.go: the eBPF objects, the hook in the
-- kernel and the reader of the ring buffer are acquired one after the other, each with its deferred
-- `Close`. The kernel, behind the eBPF library, is a parameter; so is the rest of `Run`, from its
-- goroutine on.
pub mod Released
pub mod Plugins
mod Tests
use arbutus.Base.{◌++◌, Option, none, some, ◌⊎◌, inl, inr, Bytes, codes}

-- What the programs are attached to: `link.Tracepoint` with its group and name, `link.AttachTracing`.
pub data Hook : Type 0 where
  tracepoint : Bytes → Bytes → Hook
  tracing : Hook

abbrev pub opensnoop_hook : Hook
opensnoop_hook = tracepoint (codes "syscalls") (codes "sys_enter_openat")

abbrev pub template_hook : Hook
template_hook = tracepoint (codes "syscalls") (codes "sys_enter_openat")

abbrev pub dnssnoop_hook : Hook
dnssnoop_hook = tracing

abbrev pub words_of : Hook → Bytes
words_of (tracepoint group name) = codes "attaching tracepoint: "
words_of tracing = codes "attaching fentry: "

-- The calls of the library, on the state of the kernel: each gives the text of its error, or a handle.
pub record Kernel (K O L R : Type 0) : Type 0 where
  pub load_objects : K → K × (Bytes ⊎ O)
  pub close_objects : O → K → K
  pub attach : Hook → O → K → K × (Bytes ⊎ L)
  pub close_link : L → K → K
  pub new_reader : O → K → K × (Bytes ⊎ R)
  pub close_reader : R → K → K

-- `if err != nil { return fmt.Errorf(…) }`, then `defer`, on what an acquisition gave: the rest of
-- the body runs with the handle, which is closed at the end.
pub deferring :
    {K A : Type 0}
    → Bytes
    → (A → K → K)
    → (A → K → K × Option Bytes)
    → K × (Bytes ⊎ A)
    → K × Option Bytes
deferring words close body (k, inl e) = (k, some (words ++ e))
deferring words close body (k, inr a) = let (k1, result) = body a k in (close a k1, result)

module _ {K O L R : Type 0} (kernel : Kernel K O L R) (rest_of_run : R → K → K × Option Bytes) where
  with_link : O → K → K × Option Bytes
  unfolding deferring
  with_link objs k =
      deferring (codes "opening ringbuf reader: ") kernel.close_reader rest_of_run
        (kernel.new_reader objs k)

  with_objects : Hook → O → K → K × Option Bytes
  unfolding with_link
  with_objects hook objs k =
      deferring (words_of hook) kernel.close_link (λ lnk. with_link objs)
        (kernel.attach hook objs k)

  -- `Run`: the state of the kernel after it, and the error that it returns.
  unfoldable pub run : Hook → K → K × Option Bytes
  unfolding with_objects
  run hook k =
      deferring (codes "loading eBPF objects: ") kernel.close_objects (with_objects hook)
        (kernel.load_objects k)
