-- ===== src/Client/Coalescing/Alone.antt =====
-- helios_permissions/permission_client.go: `getOrStart` for a call whose key nobody is fetching, as
-- steps and as the function that the reads use.
use helios_permission_golang.Prelude.{
  ℕ, Str, if◌then◌else◌, none, some, lookup, insert, delete, ◌==◌, lookup-insert, lookup-delete,
  ◌≡◌, refl, ap, ◌∙◌, arith,
}
use mathlib.Core.Path.{subst}
use helios_permission_golang.Client.InFlight.{Waiter, started, finished, get_or_start}
use helios_permission_golang.Client.Coalescing.{
  Fetched, running, stored, closed, outside, waiting, returned, Flights, enter, arrive, move,
  remove, wake, outcome, Step, arrives, fetches, closes, removes, wakes, Steps, rest, step,
}

module _ (s : Flights) (c : ℕ) (key : Str) (r : Fetched) where
  abbrev begun : Flights
  begun = enter c key none s

  abbrev fetched : Flights
  fetched = move s.next (stored r) begun

  abbrev announced : Flights
  announced = move s.next (closed r) fetched

  abbrev released : Flights
  released = remove s.next r announced

  abbrev pub finished_call : Flights
  finished_call = wake c key s.next r released

  begins : s.callers c ≡ outside → lookup key s.waiter ≡ none → Step s begun
  begins out miss =
      subst (λ o. Step s (enter c key o s)) miss (unfold arrive in arrives s c key out)

  running_entry : (begun.entries s.next).phase ≡ running
  running_entry = ground arith

  stored_entry : (fetched.entries s.next).phase ≡ stored r
  unfolding move
  stored_entry = ground arith

  closed_entry : (announced.entries s.next).phase ≡ closed r
  unfolding move
  closed_entry = ground arith

  over_entry : outcome (released.entries s.next).phase ≡ some r
  unfolding move remove
  over_entry = ground arith

  waits : released.callers c ≡ waiting key s.next
  unfolding move remove
  waits = ground arith

  runs : s.callers c ≡ outside → lookup key s.waiter ≡ none → Steps s finished_call
  runs out miss =
      step
        (step
          (step (step (step rest (begins out miss)) (fetches begun s.next r running_entry))
            (closes fetched s.next r stored_entry))
          (removes announced s.next r closed_entry))
        (wakes released c key s.next r waits over_entry)

  told : finished_call.callers c ≡ returned key s.next r
  unfolding wake
  told = ground arith

  entry_key : (announced.entries s.next).key ≡ key
  unfolding move
  entry_key = ground arith

  left : (k : Str) → lookup k finished_call.waiter ≡ (if key == k then none else lookup k s.waiter)
  unfolding wake remove
  left k =
      ap (λ j. lookup k (delete j announced.waiter)) entry_key
      ∙ lookup-delete key k announced.waiter
      ∙ unfold move in ground (arith, lookup-insert key k s.next s.waiter)

-- What `get_or_start` does for a key that is not in the map.
lone_get_or_start :
    {S : Type 0} (key : Str) (fetch : S → Fetched × S) (w : Waiter) (st : S)
    → lookup key w ≡ none
    → (w' : Waiter) × (get_or_start key fetch w st ≡ some ((fetch st).0, w', (fetch st).1))
      × ((k : Str) → lookup k w' ≡ (if key == k then none else lookup k w))
unfolding get_or_start
lone_get_or_start key fetch w st miss =
    let registered = insert key started w in
    let over = insert key (finished (fetch st).0) registered in
    (
      delete key over,
      rw (miss, get_or_start) refl,
      λ k.
          lookup-delete key k over
          ∙ ground (
            arith,
            lookup-insert key k (finished (fetch st).0) registered,
            lookup-insert key k started w,
          ),
    )

-- A call whose key nobody is fetching: there are steps in which it returns the result `r` of its
-- fetch, and `get_or_start` returns the same; in both, the map afterwards has the other keys as
-- before, and not this one.
pub lone_call_runs :
    {S : Type 0} (s : Flights) (c : ℕ) (key : Str) (fetch : S → Fetched × S) (w : Waiter) (st : S)
    → s.callers c ≡ outside
    → lookup key s.waiter ≡ none
    → lookup key w ≡ none
    → ((s' : Flights) × Steps s s'
        × (s'.callers c ≡ returned key s.next (fetch st).0)
        × ((k : Str) → lookup k s'.waiter ≡ (if key == k then none else lookup k s.waiter)))
      × ((w' : Waiter) × (get_or_start key fetch w st ≡ some ((fetch st).0, w', (fetch st).1))
          × ((k : Str) → lookup k w' ≡ (if key == k then none else lookup k w)))
lone_call_runs s c key fetch w st out miss none_waiting =
    let r = (fetch st).0 in
    (
      (finished_call s c key r, runs s c key r out miss, told s c key r, left s c key r),
      lone_get_or_start key fetch w st none_waiting,
    )
