-- ===== src/Resident.antt =====
-- The registry of resident services, src/zworkbench/resident_service_registry.py. Its lock makes each
-- method one step; a reading of the monotonic clock is a number of ticks that the caller gives.
pub mod Lookup
pub mod Capacity
use zworkbench.Common.{
  ℕ, String, Bool, true, false, not, Option, none, some, List, [], ◌∷◌, ◌++◌, map, ◌==◌, leb, ltb,
  if◌then◌else◌,
}
use zworkbench.Common.Int.{ℤ, pos, negsuc}
use zworkbench.Common.Tables.{find, select, length, sort_by}
use zworkbench.Common.Text.{text_lt}

-- `DEFAULT_RESIDENT_CAPACITY`
abbrev pub default_capacity : ℕ
default_capacity = 3

-- `ResidentServiceLease`
pub record Lease : Type 0 where
  pub lease_id : String
  pub kind : String
  pub acquired_at : ℕ

-- `ResidentServiceRegistry`: the dict `_leases` in the order of its insertions.
pub record Registry : Type 0 where
  pub capacity : ℕ
  pub leases : List Lease

-- ValueError, and `ResidentServiceCapacityError` with the names that hold a slot.
pub data Refusal : Type 0 where
  bad_capacity bad_lease_id bad_kind : Refusal
  capacity_exceeded : List String → Refusal

pub data Answer (A : Type 0) : Type 0 where
  given : A → Answer A
  refused : Refusal → Answer A

-- `__init__`
unfoldable pub new_registry : ℤ → Answer Registry
new_registry (negsuc n) = refused Refusal.bad_capacity
new_registry (pos n) =
    if ltb n 1 then refused Refusal.bad_capacity else given (record { capacity = n; leases = [] })

abbrev pub has_id : String → Lease → Bool
has_id id lease = lease.lease_id == id

-- `self._leases.get(lease_id)`
unfoldable pub lookup : String → Registry → Option Lease
lookup id r = find (has_id id) r.leases

unfoldable pub active_count : Registry → ℕ
active_count r = length r.leases

unfoldable pub is_full : Registry → Bool
unfolding active_count
is_full r = leb r.capacity (active_count r)

-- `sorted(self._leases)`
unfoldable pub active_names : Registry → List String
unfolding sort_by
active_names r = sort_by text_lt (map (λ lease. lease.lease_id) r.leases)

abbrev pub with_lease : Lease → Registry → Registry
with_lease lease r = record { capacity = r.capacity; leases = r.leases ++ lease ∷ [] }

-- The part of `acquire` under the lock.
unfoldable pub acquire_slot : Option Lease → Lease → Registry → Answer Lease × Registry
unfolding is_full active_names
acquire_slot (some existing) lease r = (given existing, r)
acquire_slot none lease r =
    if is_full r
    then (refused (Refusal.capacity_exceeded (active_names r)), r)
    else (given lease, with_lease lease r)

-- `acquire`, at the clock's reading `now`
unfoldable pub acquire : ℕ → String → String → Registry → Answer Lease × Registry
unfolding lookup acquire_slot
acquire now lease_id kind r =
    if lease_id == ""
    then (refused Refusal.bad_lease_id, r)
    else if kind == ""
    then (refused Refusal.bad_kind, r)
    else acquire_slot (lookup lease_id r)
        (record { lease_id = lease_id; kind = kind; acquired_at = now }) r

-- `release`
unfoldable pub release : String → Registry → Registry
release id r = record {
  capacity = r.capacity;
  leases = select (λ lease. not (has_id id lease)) r.leases;
}

-- `active`
unfoldable pub active : Registry → List Lease
active r = r.leases

-- `reset`
unfoldable pub reset : Registry → Registry
reset r = record { capacity = r.capacity; leases = [] }

-- A call of one of the methods that change the registry.
pub data RegistryCall : Type 0 where
  acquire_call : ℕ → String → String → RegistryCall
  release_call : String → RegistryCall
  reset_call : RegistryCall

unfoldable pub perform_call : RegistryCall → Registry → Registry
unfolding acquire release reset
perform_call (acquire_call now id kind) r = (acquire now id kind r).1
perform_call (release_call id) r = release id r
perform_call reset_call r = reset r

unfoldable pub perform_calls : List RegistryCall → Registry → Registry
unfolding perform_call
perform_calls [] r = r
perform_calls (c ∷ cs) r = perform_calls cs (perform_call c r)
