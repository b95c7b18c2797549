-- ===== src/Resident/Capacity.antt =====
-- The capacity of the registry over every history of calls
-- (src/zworkbench/resident_service_registry.py).
use zworkbench.Resident.Lookup.{refused-≢, given-injective, guarded}
use zworkbench.Common.Int.{pos, negsuc, ℤ}
use zworkbench.Common.Tables.{find, length, length-append, select, All}
use zworkbench.Common.Unique.{Apart, Apart-append}
use zworkbench.Common.{
  false, ◌==◌, ◌≤◌, ◌≡◌, if◌then◌else◌, ◌∷◌, suc, [], true, Bool, some, Option, refl, arith, ltb,
  List, subst, String, not, none, ℕ, ◌<◌,
}
use zworkbench.Resident.{
  active_count, Registry, Lease, reset, lookup, is_full, active_names, Refusal, has_id, with_lease,
  given, new_registry, acquire_slot, release, refused, perform_calls, acquire_call, acquire,
  release_call, reset_call, Answer, perform_call, RegistryCall,
}

-- Two leases of different names.
abbrev pub OtherName : Lease → Lease → Type 0
OtherName l m = (l.lease_id == m.lease_id) ≡ false

-- What holds of every registry: its capacity is at least one, no more slots are taken than it has, and
-- each name holds at most one.
pub record WellFormed (r : Registry) : Type 0 where
  pub has_room : 1 ≤ r.capacity
  pub is_within : active_count r ≤ r.capacity
  pub names_apart : Apart OtherName r.leases

new_registry-WellFormed : (n : ℤ) (r : Registry) → new_registry n ≡ given r → WellFormed r
unfolding new_registry active_count
new_registry-WellFormed (negsuc n) r h = absurd (refused-≢ h)
new_registry-WellFormed (pos n) r h = by_test (ltb n 1) refl h
  where
    by_test :
        (b : Bool)
        → ltb n 1 ≡ b
        → (if b then refused Refusal.bad_capacity else given (record { capacity = n; leases = [] }))
          ≡ given r
        → WellFormed r
    by_test true e h = absurd (refused-≢ h)
    by_test false e h =
        subst WellFormed (given-injective _ r h)
          (record { has_room = ground arith; is_within = ground arith; names_apart = tt })

reset-WellFormed : (r : Registry) → WellFormed r → WellFormed (reset r)
unfolding reset active_count
reset-WellFormed r w = record { has_room = w.has_room; is_within = omega arith; names_apart = tt }

length-select : (p : Lease → Bool) (ls : List Lease) → length (select p ls) ≤ length ls
length-select p [] = omega arith
length-select p (l ∷ ls) = by_head (p l) (length-select p ls)
  where
    by_head :
        (b : Bool)
        → length (select p ls) ≤ length ls
        → length (if b then l ∷ select p ls else select p ls) ≤ suc (length ls)
    by_head true h = omega arith
    by_head false h = omega arith

All-select :
    (P : Lease → Type 0) (p : Lease → Bool) (ls : List Lease) → All P ls → All P (select p ls)
All-select P p [] h = tt
All-select P p (l ∷ ls) h = by_head (p l) (All-select P p ls h.1)
  where
    by_head : (b : Bool) → All P (select p ls) → All P (if b then l ∷ select p ls else select p ls)
    by_head true k = (h.0, k)
    by_head false k = k

Apart-select :
    (p : Lease → Bool) (ls : List Lease) → Apart OtherName ls → Apart OtherName (select p ls)
Apart-select p [] h = tt
Apart-select p (l ∷ ls) h = by_head (p l) (Apart-select p ls h.1)
  where
    by_head :
        (b : Bool)
        → Apart OtherName (select p ls)
        → Apart OtherName (if b then l ∷ select p ls else select p ls)
    by_head true k = (All-select (OtherName l) p ls h.0, k)
    by_head false k = k

release-WellFormed : (id : String) (r : Registry) → WellFormed r → WellFormed (release id r)
unfolding release active_count
release-WellFormed id r w =
    let shorter = length-select (λ lease. not (has_id id lease)) r.leases in
    let within = w.is_within in
    record {
      has_room = w.has_room;
      is_within = omega arith;
      names_apart = Apart-select _ r.leases w.names_apart;
    }

unheld-All :
    (fresh : Lease) (ls : List Lease)
    → find (has_id fresh.lease_id) ls ≡ none
    → All (λ l. OtherName l fresh) ls
unheld-All fresh [] h = tt
unheld-All fresh (l ∷ ls) h = by_head (has_id fresh.lease_id l) refl (unheld-All fresh ls) h
  where
    by_head :
        (b : Bool)
        → has_id fresh.lease_id l ≡ b
        → (find (has_id fresh.lease_id) ls ≡ none → All (λ m. OtherName m fresh) ls)
        → (if b then some l else find (has_id fresh.lease_id) ls) ≡ none
        → OtherName l fresh × All (λ m. OtherName m fresh) ls
    by_head true e rest k = cc
    by_head false e rest k = (e, rest k)

acquire_slot-WellFormed :
    (existing : Option Lease) (fresh : Lease) (r : Registry)
    → lookup fresh.lease_id r ≡ existing
    → WellFormed r
    → WellFormed (acquire_slot existing fresh r).1
unfolding acquire_slot lookup is_full active_count
acquire_slot-WellFormed (some existing) fresh r found w = w
acquire_slot-WellFormed none fresh r found w = by_room (is_full r) refl
  where
    by_room :
        (b : Bool)
        → is_full r ≡ b
        → WellFormed
            (if◌then◌else◌ {A = Answer Lease × Registry} b
              (refused (Refusal.capacity_exceeded (active_names r)), r)
              (given fresh, with_lease fresh r)).1
    by_room true e = w
    by_room false e =
        let longer = length-append r.leases (fresh ∷ []) in
        record {
          has_room = w.has_room;
          is_within = ground (arith, longer);
          names_apart =
              Apart-append OtherName r.leases fresh w.names_apart (unheld-All fresh r.leases found);
        }

acquire-WellFormed :
    (time : ℕ) (id kind : String) (r : Registry)
    → WellFormed r
    → WellFormed (acquire time id kind r).1
unfolding acquire
acquire-WellFormed time id kind r w =
    guarded (λ x. WellFormed x.1) r (id == "") (kind == "") _ w w
      (acquire_slot-WellFormed (lookup id r)
        (record { lease_id = id; kind = kind; acquired_at = time }) r refl w)

perform_call-WellFormed :
    (c : RegistryCall) (r : Registry) → WellFormed r → WellFormed (perform_call c r)
unfolding perform_call
perform_call-WellFormed (acquire_call time id kind) r w = acquire-WellFormed time id kind r w
perform_call-WellFormed (release_call id) r w = release-WellFormed id r w
perform_call-WellFormed reset_call r w = reset-WellFormed r w

calls-WellFormed :
    (cs : List RegistryCall) (r : Registry) → WellFormed r → WellFormed (perform_calls cs r)
unfolding perform_calls
calls-WellFormed [] r w = w
calls-WellFormed (c ∷ cs) r w =
    calls-WellFormed cs (perform_call c r) (perform_call-WellFormed c r w)

-- After any history of calls on a new registry, no more slots are taken than its capacity, which is at
-- least one, and no name holds two of them.
pub registry-WellFormed :
    (n : ℤ) (r : Registry) (cs : List RegistryCall)
    → new_registry n ≡ given r
    → WellFormed (perform_calls cs r)
registry-WellFormed n r cs h = calls-WellFormed cs r (new_registry-WellFormed n r h)

removed :
    (id : String) (ls : List Lease) (held : Lease)
    → find (has_id id) ls ≡ some held
    → length (select (λ lease. not (has_id id lease)) ls) < length ls
removed id [] held h = cc
removed id (l ∷ ls) held h =
    by_head (has_id id l) (removed id ls held) (length-select (λ lease. not (has_id id lease)) ls) h
  where
    by_head :
        (b : Bool)
        → (find (has_id id) ls ≡ some held
            → length (select (λ lease. not (has_id id lease)) ls) < length ls)
        → length (select (λ lease. not (has_id id lease)) ls) ≤ length ls
        → (if b then some l else find (has_id id) ls) ≡ some held
        → length (
            if not b
            then l ∷ select (λ lease. not (has_id id lease)) ls
            else select (λ lease. not (has_id id lease)) ls)
          < suc (length ls)
    by_head true rest shorter k = omega arith
    by_head false rest shorter k = let fewer = rest k in omega arith

slot-room :
    (o : Option Lease) (fresh : Lease) (r : Registry)
    → is_full r ≡ false
    → (lease : Lease) × ((acquire_slot o fresh r).0 ≡ given lease)
unfolding acquire_slot
slot-room (some l) fresh r h = (l, refl)
slot-room none fresh r h = (fresh, rw h refl)

release-room :
    (id : String) (r : Registry) (held : Lease)
    → WellFormed r
    → lookup id r ≡ some held
    → is_full (release id r) ≡ false
unfolding lookup release is_full active_count
release-room id r held w found =
    let within = w.is_within in let fewer = removed id r.leases held found in ground arith

-- A release makes room: once a lease has been given back, however full the registry was, the next
-- `acquire` of any service with a name and a kind is given one.
pub release-acquire :
    (id : String) (r : Registry) (held : Lease) (time : ℕ) (name kind : String)
    → WellFormed r
    → lookup id r ≡ some held
    → (name == "") ≡ false
    → (kind == "") ≡ false
    → (lease : Lease) × ((acquire time name kind (release id r)).0 ≡ given lease)
unfolding acquire
release-acquire id r held time name kind w found named kinded =
    rw (named, kinded)
      (slot-room (lookup name (release id r))
        (record { lease_id = name; kind = kind; acquired_at = time }) (release id r)
        (release-room id r held w found))
