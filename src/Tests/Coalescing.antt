-- ===== src/Tests/Coalescing.antt =====
-- helios_permissions/permission_client.go: two calls for one key, and one fetch.
use helios_permission_golang.Prelude.{
  ℕ, Str, true, none, some, [], ◌∷◌, bytes, ◌==◌, lookup, insert, delete, ◌≡◌, ◌≢◌, ◌⊎◌, refl,
}
use helios_permission_golang.Permission
use helios_permission_golang.Client.Coalescing.{
  Fetched, Flights, new_in_flight, arrive, move, remove, wake, running, stored, closed, waiting,
  returned, Steps, rest, step, arrives, fetches, closes, removes, wakes, outcome,
}
use helios_permission_golang.Client.Coalescing.Invariant.{is_live, one_fetch_per_key, callers_agree}
use helios_permission_golang.Client.Coalescing.Progress.{CanReturn, waiting_call_returns}

code : Unit {0}
unfolding new_in_flight arrive move remove wake lookup insert delete bytes ◌==◌
code = tt

abbrev key : Str
key = bytes "u1:t1"

abbrev result : Fetched
result = (some (Permission.zeta_billing_view ∷ []), none)

abbrev two_calls : Flights
two_calls = arrive 1 key (arrive 0 key new_in_flight)

to_two_calls : Steps new_in_flight two_calls
unfolding code
to_two_calls = step (step rest (arrives new_in_flight 0 key refl)) (arrives _ 1 key refl)

abbrev both_returned : Flights
both_returned = wake 1 key 0 result (
    remove 0 result
      (wake 0 key 0 result (move 0 (closed result) (move 0 (stored result) two_calls))))

to_both_returned : Steps new_in_flight both_returned
unfolding code
to_both_returned =
    step
      (step
        (step (step (step to_two_calls (fetches _ 0 result refl)) (closes _ 0 result refl))
          (wakes _ 0 key 0 result refl refl))
        (removes _ 0 result refl))
      (wakes _ 1 key 0 result refl refl)

live_entry : is_live (two_calls.entries 0).phase ≡ true
unfolding code
live_entry = refl

returned_0 : both_returned.callers 0 ≡ returned key 0 result
unfolding code
returned_0 = refl

returned_1 : both_returned.callers 1 ≡ returned key 0 result
unfolding code
returned_1 = refl

second_waits : two_calls.callers 1 ≡ waiting key 0
unfolding code
second_waits = refl

one_fetch_per_key_example : ◌≡◌ {A = ℕ} 0 0
one_fetch_per_key_example = one_fetch_per_key two_calls 0 0 to_two_calls live_entry live_entry refl

callers_agree_example :
    (result ≡ result)
    × (key ≡ key)
    × (outcome (both_returned.entries 0).phase ≡ some result)
    × ((both_returned.entries 0).key ≡ key)
callers_agree_example =
    callers_agree both_returned 0 1 key key 0 result result to_both_returned returned_0 returned_1

waiting_call_returns_example :
    (r : Fetched) × CanReturn two_calls 1 key 0 r
    × (((two_calls.entries 0).phase ≢ running) ⊎ (r ≡ result))
waiting_call_returns_example =
    waiting_call_returns two_calls 1 key 0 result to_two_calls second_waits
