-- ===== src/Inputs/Memleak.antt =====
-- internal/plugins/inputs/memleak/memleak.go: the state of the plugin, `New` and `Stop`. The handles of
-- the kernel objects and the tickers carry no data of the program and are left out; a link is a number
-- that the library gives, never the nil that `Stop` tests for.

pub mod Config
pub mod Symbols
pub mod Leaks
pub mod Report
pub mod Loop
pub mod Setup
pub mod Kernel
pub mod Tests
use arbutus.Base.{
  ℕ, ◌+◌, ◌-◌, ◌*◌, ◌/◌, ◌%◌, ◌^◌, ◌≡◌, ◌↔◌, refl, arith, Bool, true, false, ◌&&◌, List, [], ◌∷◌,
  ◌==◌, Bytes, codes, GoMap, Eq, length,
}
use arbutus.Models.{ℤ, pos, negsuc}

abbrev pub beq_int : ℤ → ℤ → Bool
beq_int (pos m) (pos n) = m == n
beq_int (negsuc m) (negsuc n) = m == n
beq_int _ _ = false

pub beq_int_iff : (a b : ℤ) → (beq_int a b ≡ true) ↔ (a ≡ b)
beq_int_iff (pos m) (pos n) = ground arith
beq_int_iff _ _ = ground arith

pub record LeakKey : Type 0 where
  pub pid : ℕ
  pub stack_id : ℤ

abbrev pub beq_key : LeakKey → LeakKey → Bool
beq_key a b = a.pid == b.pid && beq_int a.stack_id b.stack_id

pub beq_key_iff : (a b : LeakKey) → (beq_key a b ≡ true) ↔ (a ≡ b)
beq_key_iff a b = (
  λ h. ground (arith, beq_int_iff a.stack_id b.stack_id),
  λ h. ground (arith, beq_int_iff a.stack_id b.stack_id),
)

instance abbrev pub key_eq : Eq LeakKey
key_eq = record { beq = beq_key; beq_iff = beq_key_iff }

pub record Memleak : Type 0 where
  pub running : Bool
  pub links : List ℕ
  pub report_count : ℕ
  pub max_reports : ℤ
  pub kernel_trace : Bool
  pub pid : ℤ
  pub object : Bytes
  pub min_size : ℕ
  pub max_size : ℕ
  pub sample_rate : ℕ
  pub trace_all : Bool
  pub previous_stacks : GoMap LeakKey ℕ
  pub min_leak_threshold : ℕ

-- `New`
abbrev pub new_memleak : Memleak
new_memleak = record {
  running = false;
  links = [];
  report_count = 0;
  max_reports = negsuc 0;
  kernel_trace = true;
  pid = negsuc 0;
  object = codes "libc.so.6";
  min_size = 0;
  max_size = 2 ^ 64 - 1;
  sample_rate = 1;
  trace_all = false;
  previous_stacks = [];
  min_leak_threshold = 1024 * 1024;
}

-- The fields that `Stop` sets.
unfoldable pub halted : Memleak → Memleak
halted m = record m { running = false; links = [] }

-- The loop of `Stop`, on the kernel `K`.
unfoldable pub close_links : {K : Type 0} → (ℕ → K → K) → List ℕ → K → K
close_links close [] k = k
close_links close (l ∷ ls) k = close_links close ls (close l k)

unfoldable pub stop : {K : Type 0} → (ℕ → K → K) → K × Memleak → K × Memleak
unfolding close_links halted
stop close (k, m) = (close_links close m.links k, halted m)

-- `combinedAllocInfo`: 40 bits of size below 24 bits of count.
unfoldable pub total_size : ℕ → ℕ
total_size bits = bits % 2 ^ 40

unfoldable pub number_of_allocs : ℕ → ℕ
number_of_allocs bits = bits / 2 ^ 40 % 2 ^ 24
