-- ===== src/Resident/Lookup.antt =====
-- What `acquire` and `release` do to the lease that each name holds
-- (src/zworkbench/resident_service_registry.py).
use zworkbench.Common.Tables.{find, select}
use zworkbench.Common.{
  Option, ◌≡◌, refl, [], String, Bool, ◌==◌, List, ◌∷◌, if◌then◌else◌, true, none, some, ◌++◌,
  false, ℕ, eq_iff, ◌∙◌, subst, not, ap, sym, ◌≢◌,
}
use zworkbench.Resident.{
  lookup, has_id, Lease, acquire_slot, Registry, given, active_names, acquire, is_full, with_lease,
  Refusal, release, refused, Answer,
}

find-append :
    (id : String) (leases : List Lease) (lease : Lease)
    → find (has_id id) leases ≡ none
    → find (has_id id) (leases ++ lease ∷ []) ≡ (if has_id id lease then some lease else none)
find-append id [] lease h = refl
find-append id (l ∷ ls) lease h = by_head (has_id id l) (find-append id ls lease) h
  where
    by_head :
        (b : Bool)
        → (find (has_id id) ls ≡ none
            → find (has_id id) (ls ++ lease ∷ []) ≡ (if has_id id lease then some lease else none))
        → (if b then some l else find (has_id id) ls) ≡ none
        → (if b then some l else find (has_id id) (ls ++ lease ∷ []))
          ≡ (if has_id id lease then some lease else none)
    by_head true rest e = cc
    by_head false rest e = rest e

find-append-other :
    (id : String) (leases : List Lease) (lease : Lease)
    → has_id id lease ≡ false
    → find (has_id id) (leases ++ lease ∷ []) ≡ find (has_id id) leases
find-append-other id [] lease h = rw h refl
find-append-other id (l ∷ ls) lease h = rw (find-append-other id ls lease h) refl

same_name :
    {A : Type 0} (id name : String) (look : String → A) (a : A)
    → look id ≡ a
    → look name ≡ (if id == name then a else look name)
same_name id name look a h = by_same (id == name) refl
  where
    by_same : (b : Bool) → (id == name) ≡ b → look name ≡ (if b then a else look name)
    by_same true e = subst (λ t. look t ≡ a) ((eq_iff id name).0 e) h
    by_same false e = refl

-- The table after a fresh lease has been added for `id`.
lookup-with_lease :
    (name : String) (fresh : Lease) (r : Registry)
    → lookup fresh.lease_id r ≡ none
    → lookup name (with_lease fresh r)
      ≡ (if fresh.lease_id == name then some fresh else lookup name r)
unfolding lookup
lookup-with_lease name fresh r h = by_same (fresh.lease_id == name) refl
  where
    by_same :
        (b : Bool)
        → (fresh.lease_id == name) ≡ b
        → find (has_id name) (r.leases ++ fresh ∷ [])
          ≡ (if b then some fresh else find (has_id name) r.leases)
    by_same true e =
        find-append name r.leases fresh
          (subst (λ t. find (has_id t) r.leases ≡ none) ((eq_iff fresh.lease_id name).0 e) h)
        ∙ rw e refl
    by_same false e = find-append-other name r.leases fresh e

pub given-injective : {A : Type 0} (a b : A) → given a ≡ given b → a ≡ b
given-injective a b h = cc

pub refused-≢ : {A : Type 0} {why : Refusal} {a : A} → refused why ≢ given a
refused-≢ h = cc

-- One of two results, whichever the test picks.
either : {A : Type 0} (P : A → Type 0) (b : Bool) (x y : A) → P x → P y → P (if b then x else y)
either P true x y h k = h
either P false x y h k = k

-- What a result of `acquire` shows of the table.
abbrev Looked : String → Registry → Lease → Answer Lease × Registry → Type 0
Looked id r lease x =
    x.0 ≡ given lease
    → (name : String) → lookup name x.1 ≡ (if id == name then some lease else lookup name r)

abbrev Unmoved : Registry → Refusal → Answer Lease × Registry → Type 0
Unmoved r why x = x.0 ≡ refused why → x.1 ≡ r

-- The two tests on the names before the slot is asked for.
pub guarded :
    (P : Answer Lease × Registry → Type 0) (r : Registry) (no_id no_kind : Bool)
    (slot : Answer Lease × Registry)
    → P (refused Refusal.bad_lease_id, r)
    → P (refused Refusal.bad_kind, r)
    → P slot
    → P (
        if no_id
        then (refused Refusal.bad_lease_id, r)
        else if no_kind
        then (refused Refusal.bad_kind, r)
        else slot)
guarded P r true no_kind slot h k l = h
guarded P r false true slot h k l = k
guarded P r false false slot h k l = l

acquire_slot-Looked :
    (existing : Option Lease) (fresh : Lease) (r : Registry) (lease : Lease)
    → lookup fresh.lease_id r ≡ existing
    → Looked fresh.lease_id r lease (acquire_slot existing fresh r)
unfolding acquire_slot
acquire_slot-Looked (some existing) fresh r lease found = λ h name.
    subst (λ l. lookup name r ≡ (if fresh.lease_id == name then some l else lookup name r))
      (given-injective existing lease h)
      (same_name fresh.lease_id name (λ t. lookup t r) (some existing) found)
acquire_slot-Looked none fresh r lease found =
    either (Looked fresh.lease_id r lease) (is_full r)
      (refused (Refusal.capacity_exceeded (active_names r)), r) (given fresh, with_lease fresh r)
      (λ h. absurd (refused-≢ h))
      (λ h name.
        subst
          (λ l.
            lookup name (with_lease fresh r)
            ≡ (if fresh.lease_id == name then some l else lookup name r))
          (given-injective fresh lease h) (lookup-with_lease name fresh r found))

-- When `acquire` hands out a lease, its name holds that lease afterwards, an earlier holder's own lease
-- included, and every other name holds what it held.
pub acquire-lookup :
    (time : ℕ) (id kind : String) (r : Registry) (lease : Lease)
    → (acquire time id kind r).0 ≡ given lease
    → (name : String)
    → lookup name (acquire time id kind r).1 ≡ (if id == name then some lease else lookup name r)
unfolding acquire
acquire-lookup time id kind r lease =
    guarded (Looked id r lease) r (id == "") (kind == "") _ (λ h. absurd (refused-≢ h))
      (λ h. absurd (refused-≢ h))
      (acquire_slot-Looked (lookup id r) (record { lease_id = id; kind = kind; acquired_at = time })
        r lease refl)

-- A call of `acquire` that is refused leaves the registry as it was.
pub acquire-refused :
    (time : ℕ) (id kind : String) (r : Registry) (why : Refusal)
    → (acquire time id kind r).0 ≡ refused why
    → (acquire time id kind r).1 ≡ r
unfolding acquire acquire_slot
acquire-refused time id kind r why =
    guarded (Unmoved r why) r (id == "") (kind == "") _ (λ h. refl) (λ h. refl)
      (by_slot (lookup id r) (record { lease_id = id; kind = kind; acquired_at = time }))
  where
    by_slot : (o : Option Lease) (fresh : Lease) → Unmoved r why (acquire_slot o fresh r)
    by_slot (some l) fresh = λ h. refl
    by_slot none fresh =
        either (Unmoved r why) (is_full r) (refused (Refusal.capacity_exceeded (active_names r)), r)
          (given fresh, with_lease fresh r) (λ h. refl) (λ h. absurd (refused-≢ (sym h)))

same_test : (s t name : String) → (s == t) ≡ true → (s == name) ≡ (t == name)
same_test s t name h = ap (λ u. u == name) ((eq_iff s t).0 h)

dropped :
    (l : Lease) (rest : Option Lease) (at_id at_lease : Bool)
    → at_lease ≡ at_id
    → (if at_id then none else rest) ≡ (if at_id then none else if at_lease then some l else rest)
dropped l rest true at_lease h = refl
dropped l rest false at_lease h = rw h refl

kept :
    (l : Lease) (rest : Option Lease) (at_id at_lease : Bool)
    → (at_id ≡ true → at_lease ≡ false)
    → (if at_lease then some l else (if at_id then none else rest))
      ≡ (if at_id then none else if at_lease then some l else rest)
kept l rest true at_lease h = rw (h refl) refl
kept l rest false at_lease h = refl

find-select :
    (id name : String) (leases : List Lease)
    → find (has_id name) (select (λ lease. not (has_id id lease)) leases)
      ≡ (if id == name then none else find (has_id name) leases)
find-select id name [] = either (λ o. none ≡ o) (id == name) none none refl refl
find-select id name (l ∷ ls) = by_head (has_id id l) refl (find-select id name ls)
  where
    by_head :
        (b : Bool)
        → (l.lease_id == id) ≡ b
        → find (has_id name) (select (λ lease. not (has_id id lease)) ls)
          ≡ (if id == name then none else find (has_id name) ls)
        → find (has_id name) (
            if not b
            then l ∷ select (λ lease. not (has_id id lease)) ls
            else select (λ lease. not (has_id id lease)) ls)
          ≡ (if id == name
              then none
              else if l.lease_id == name
              then some l
              else find (has_id name) ls)
    by_head true e h = h ∙ dropped l (find (has_id name) ls) _ _ (same_test l.lease_id id name e)
    by_head false e h =
        ap (λ o. if l.lease_id == name then some l else o) h
        ∙ kept l (find (has_id name) ls) _ _
            (λ same. subst (λ t. (l.lease_id == t) ≡ false) ((eq_iff id name).0 same) e)

-- After `release`, its name holds no lease, and every other name holds what it held.
pub release-lookup :
    (id : String) (r : Registry) (name : String)
    → lookup name (release id r) ≡ (if id == name then none else lookup name r)
unfolding lookup release
release-lookup id r name = find-select id name r.leases
