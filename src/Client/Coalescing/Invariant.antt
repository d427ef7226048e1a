-- ===== src/Client/Coalescing/Invariant.antt =====
-- helios_permissions/permission_client.go: what holds of `inFlight` in every state that calls and
-- fetches can reach.
use helios_permission_golang.Prelude.{
  ℕ, ◌≤◌, Str, Bool, true, false, none, some, lookup, ◌≡◌, refl, arith, ==_iff, lookup-insert,
  lookup-delete, Option-cases, inl, inr,
}
use helios_permission_golang.Client.Coalescing.{
  Fetched, Phase, unused, running, stored, closed, removed, outside, waiting, returned, Flights,
  new_in_flight, enter, arrive, move, remove, wake, outcome, Step, arrives, fetches, closes,
  removes, wakes, Steps, rest, step,
}

-- The entry is in the map.
abbrev pub is_live : Phase → Bool
is_live unused = false
is_live running = true
is_live (stored r) = true
is_live (closed r) = true
is_live (removed r) = false

abbrev pub is_used : Phase → Bool
is_used unused = false
is_used _ = true

pub record Consistent (s : Flights) : Type 0 where
  pub fresh : (n : ℕ) → s.next ≤ n → (s.entries n).phase ≡ unused
  pub listed :
      (n : ℕ) → is_live (s.entries n).phase ≡ true → lookup (s.entries n).key s.waiter ≡ some n
  pub live :
      (k : Str) (n : ℕ)
      → lookup k s.waiter ≡ some n
      → (is_live (s.entries n).phase ≡ true) × ((s.entries n).key ≡ k)
  pub waits :
      (c : ℕ) (k : Str) (n : ℕ)
      → s.callers c ≡ waiting k n
      → (is_used (s.entries n).phase ≡ true) × ((s.entries n).key ≡ k)
  pub told :
      (c : ℕ) (k : Str) (n : ℕ) (r : Fetched)
      → s.callers c ≡ returned k n r
      → (outcome (s.entries n).phase ≡ some r) × ((s.entries n).key ≡ k)

pub new_in_flight-Consistent : Consistent new_in_flight
unfolding new_in_flight lookup
new_in_flight-Consistent = record {
  fresh = λ n h. refl;
  listed = λ n h. cc;
  live = λ k n h. cc;
  waits = λ c k n h. absurd cc;
  told = λ c k n r h. absurd cc;
}

start-Consistent :
    (s : Flights) (c : ℕ) (key : Str)
    → s.callers c ≡ outside
    → lookup key s.waiter ≡ none
    → Consistent s
    → Consistent (enter c key none s)
start-Consistent s c key out miss h = record {
  fresh = λ n le. ground (arith, h.fresh n);
  listed = λ n e. ground (
    arith,
    h.listed n,
    h.fresh n,
    lookup-insert key (s.entries n).key s.next s.waiter,
    lookup-insert key key s.next s.waiter,
    ==_iff key (s.entries n).key,
    ==_iff key key,
  );
  live = λ k n e. (
    ground (arith, h.live k n, h.fresh n, lookup-insert key k s.next s.waiter, ==_iff key k),
    ground (arith, h.live k n, h.fresh n, lookup-insert key k s.next s.waiter, ==_iff key k),
  );
  waits = λ c' k n e.
      (ground (arith, h.waits c' k n, h.fresh n), ground (arith, h.waits c' k n, h.fresh n));
  told = λ c' k n r e.
      (ground (arith, h.told c' k n r, h.fresh n), ground (arith, h.told c' k n r, h.fresh n));
}

join-Consistent :
    (s : Flights) (c : ℕ) (key : Str) (n : ℕ)
    → s.callers c ≡ outside
    → lookup key s.waiter ≡ some n
    → Consistent s
    → Consistent (enter c key (some n) s)
join-Consistent s c key n out found h = record {
  fresh = h.fresh;
  listed = h.listed;
  live = h.live;
  waits = λ c' k m e.
      (ground (arith, h.waits c' k m, h.live key n), ground (arith, h.waits c' k m, h.live key n));
  told = λ c' k m r e. ground (arith, h.told c' k m r);
}

pub move-Consistent :
    (s : Flights) (n : ℕ) (p : Phase)
    → is_live (s.entries n).phase ≡ true
    → is_live p ≡ true
    → ((r : Fetched) → outcome (s.entries n).phase ≡ some r → outcome p ≡ some r)
    → Consistent s
    → Consistent (move n p s)
unfolding move
move-Consistent s n p was is keeps h = record {
  fresh = λ m le. ground (arith, h.fresh m);
  listed = λ m e. ground (arith, h.listed m);
  live = λ k m e. (ground (arith, h.live k m), ground (arith, h.live k m));
  waits =
      λ c k m e. (ground (arith, h.waits c k m, is_live-is_used p), ground (arith, h.waits c k m));
  told = λ c k m r e. (ground (arith, h.told c k m r, keeps r), ground (arith, h.told c k m r));
}
  where
    is_live-is_used : (p : Phase) → is_live p ≡ true → is_used p ≡ true
    is_live-is_used unused e = e
    is_live-is_used running e = refl
    is_live-is_used (stored r) e = refl
    is_live-is_used (closed r) e = refl
    is_live-is_used (removed r) e = refl

pub remove-Consistent :
    (s : Flights) (n : ℕ) (r : Fetched)
    → (s.entries n).phase ≡ closed r
    → Consistent s
    → Consistent (remove n r s)
unfolding remove move
remove-Consistent s n r was h = record {
  fresh = λ m le. ground (arith, h.fresh m);
  listed = λ m e. ground (
    arith,
    h.listed m,
    h.listed n,
    lookup-delete (s.entries n).key (s.entries m).key s.waiter,
    ==_iff (s.entries n).key (s.entries m).key,
  );
  live = λ k m e. (
    ground (
      arith,
      h.live k m,
      h.listed n,
      lookup-delete (s.entries n).key k s.waiter,
      ==_iff (s.entries n).key k,
    ),
    ground (
      arith,
      h.live k m,
      h.listed n,
      lookup-delete (s.entries n).key k s.waiter,
      ==_iff (s.entries n).key k,
    ),
  );
  waits = λ c k m e. (ground (arith, h.waits c k m), ground (arith, h.waits c k m));
  told = λ c k m r' e. (ground (arith, h.told c k m r'), ground (arith, h.told c k m r'));
}

pub wake-Consistent :
    (s : Flights) (c : ℕ) (key : Str) (n : ℕ) (r : Fetched)
    → s.callers c ≡ waiting key n
    → outcome (s.entries n).phase ≡ some r
    → Consistent s
    → Consistent (wake c key n r s)
unfolding wake
wake-Consistent s c key n r at over h = record {
  fresh = h.fresh;
  listed = h.listed;
  live = h.live;
  waits = λ c' k m e. ground (arith, h.waits c' k m);
  told = λ c' k m r' e.
      (ground (arith, h.told c' k m r'), ground (arith, h.told c' k m r', h.waits c key n));
}

pub arrive-Consistent :
    (s : Flights) (c : ℕ) (key : Str)
    → s.callers c ≡ outside
    → Consistent s
    → Consistent (arrive c key s)
unfolding arrive
arrive-Consistent s c key out h = elim (Option-cases (lookup key s.waiter)) [
  | inl miss ↦ rw miss (start-Consistent s c key out miss h)
  | inr (n, found) ↦ rw found (join-Consistent s c key n out found h)
]

Step-Consistent : (s s' : Flights) → Step s s' → Consistent s → Consistent s'
Step-Consistent _ _ (arrives s c key out) h = arrive-Consistent s c key out h
Step-Consistent _ _ (fetches s n r at) h =
    move-Consistent s n (stored r) (rw at refl) refl (λ r' e. rw⁻¹ e (rw at refl)) h
Step-Consistent _ _ (closes s n r at) h =
    move-Consistent s n (closed r) (rw at refl) refl (λ r' e. ground (arith, at)) h
Step-Consistent _ _ (removes s n r at) h = remove-Consistent s n r at h
Step-Consistent _ _ (wakes s c key n r at over) h = wake-Consistent s c key n r at over h

Steps-Consistent : (s s' : Flights) → Steps s s' → Consistent s → Consistent s'
Steps-Consistent s _ rest h = h
Steps-Consistent s _ (step before last) h = Step-Consistent _ _ last (Steps-Consistent s _ before h)

-- In every state that calls and fetches reach.
pub reached-Consistent : (s : Flights) → Steps new_in_flight s → Consistent s
reached-Consistent s steps = Steps-Consistent new_in_flight s steps new_in_flight-Consistent

-- Whatever the order of calls and fetches: two fetches of which neither has been removed are for
-- different keys, so at most one runs for a pair at any time.
pub one_fetch_per_key :
    (s : Flights) (n m : ℕ)
    → Steps new_in_flight s
    → is_live (s.entries n).phase ≡ true
    → is_live (s.entries m).phase ≡ true
    → (s.entries n).key ≡ (s.entries m).key
    → n ≡ m
one_fetch_per_key s n m steps p q same =
    let h = reached-Consistent s steps in ground (arith, h.listed n, h.listed m)

-- Whatever the order of calls and fetches: two calls that returned from one entry returned the
-- same, which is what the fetch of the entry returned, and both were for the key of the entry.
pub callers_agree :
    (s : Flights) (c d : ℕ) (j k : Str) (n : ℕ) (r r' : Fetched)
    → Steps new_in_flight s
    → s.callers c ≡ returned j n r
    → s.callers d ≡ returned k n r'
    → (r ≡ r') × (j ≡ k) × (outcome (s.entries n).phase ≡ some r) × ((s.entries n).key ≡ j)
callers_agree s c d j k n r r' steps p q =
    let h = reached-Consistent s steps in
    (
      ground (arith, h.told c j n r, h.told d k n r'),
      ground (arith, h.told c j n r, h.told d k n r'),
      (h.told c j n r p).0,
      (h.told c j n r p).1,
    )
