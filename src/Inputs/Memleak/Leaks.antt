-- ===== src/Inputs/Memleak/Leaks.antt =====
-- internal/plugins/inputs/memleak/memleak.go: the first half of `checkForNewLeaks`, which groups the
-- outstanding allocations by process and stack. The map of allocations is the list of its values in
-- the order of the iterator.
pub mod Totals
use arbutus.Base.{
  ℕ, ◌+◌, ◌%◌, ◌^◌, List, [], ◌∷◌, Option, none, some, Bytes, ◌==◌, if◌then◌else◌, GoMap, lookup,
  insert,
}
use arbutus.Inputs.Memleak.{LeakKey, key_eq}
use arbutus.Models.{ℤ, pos, negsuc}

-- `memleakAllocInfo`, the C struct `alloc_info`.
pub record AllocInfo : Type 0 where
  pub size : ℕ
  pub timestamp_ns : ℕ
  pub stack_id : ℤ
  pub pid : ℕ
  pub comm : Bytes

pub record StackAllocs : Type 0 where
  pub stack_id : ℤ
  pub size : ℕ
  pub count : ℕ
  pub pid : ℕ
  pub comm : Bytes

-- The bytes of `info.Comm` before the first zero.
abbrev pub comm_string : Bytes → Bytes
comm_string [] = []
comm_string (b ∷ bs) = if b == 0 then [] else b ∷ comm_string bs

abbrev pub LeakMap : Type 0
LeakMap = GoMap LeakKey StackAllocs

abbrev pub key_of : AllocInfo → LeakKey
key_of info = record { pid = info.pid; stack_id = info.stack_id }

-- The entry that the key starts with.
abbrev pub fresh : AllocInfo → StackAllocs
fresh info = record {
  stack_id = info.stack_id;
  size = 0;
  count = 0;
  pid = info.pid;
  comm = comm_string info.comm;
}

abbrev pub or_fresh : Option StackAllocs → AllocInfo → StackAllocs
or_fresh none info = fresh info
or_fresh (some s) info = s

-- `leakMap[key].Size += info.Size; leakMap[key].Count++`, in uint64.
abbrev pub grow : StackAllocs → ℕ → StackAllocs
grow s size = record s { size = (s.size + size) % 2 ^ 64; count = (s.count + 1) % 2 ^ 64 }

-- The body of the loop; a negative stack id is skipped.
unfoldable pub group_at : ℤ → AllocInfo → LeakMap → LeakMap
group_at (negsuc n) info leaks = leaks
group_at (pos n) info leaks =
    insert (key_of info) (grow (or_fresh (lookup (key_of info) leaks) info) info.size) leaks

unfoldable pub group_from : LeakMap → List AllocInfo → LeakMap
unfolding group_at
group_from leaks [] = leaks
group_from leaks (info ∷ infos) = group_from (group_at info.stack_id info leaks) infos

unfoldable pub group_allocs : List AllocInfo → LeakMap
unfolding group_from
group_allocs = group_from []
