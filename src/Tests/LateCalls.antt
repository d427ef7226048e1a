-- ===== src/Tests/LateCalls.antt =====
-- helios_permissions/permission_client.go: an invalidation after a first call for a pair, and a second
-- call, over the in-memory cache.
use helios_permission_golang.Prelude.{
  ℕ, true, none, some, List, [], ◌∷◌, bytes, ◌==◌, lookup, insert, delete, ◌≡◌, refl, arith,
}
use helios_permission_golang.Cache.Spec.{set, invalidate}
use helios_permission_golang.Helios.{MembershipResolution}
use helios_permission_golang.Memory
use helios_permission_golang.Memory.{
  InMemoryPermissionCache, new_in_memory_permission_cache, memory_cache, mem_key,
}
use helios_permission_golang.Memory.Refinement.{new_cache-Shows, memory_faithful}
use helios_permission_golang.Client.Sources.{answer, answered}
use helios_permission_golang.Client.Coalescing.{
  Fetched, new_in_flight, arrive, move, remove, wake, update, running, stored, closed,
}
use helios_permission_golang.Client.Interleaving.{
  outside, missed, over, Shared, new_shared, flight_key, join, fetched, misses, joins, answers,
  stores, closes, removes, invalidates, wakes, Steps, rest, step,
}
use helios_permission_golang.Client.Interleaving.{Event, looked, did}
use helios_permission_golang.Client.Interleaving.Invalidation.{invalidation_holds}
use helios_permission_golang.Client.Interleaving.LateCalls.{late_calls_are_given}
use helios_permission_golang.Client.Interleaving.Given.{Given}
use helios_permission_golang.Client.Coalescing.Invariant.{is_live}
use helios_permission_golang.Tests.Interleaving.{
  u1, t1, billing, member, result, rewritten, written_first, t1-IsPlain, reads_written,
}

code : Unit {0}
unfolding new_in_flight arrive move remove wake lookup insert delete bytes ◌==◌ join Memory.get
    Memory.set mem_key new_in_memory_permission_cache answer answered
code = tt

-- A call that is over but for its caller, and the invalidation after it.
abbrev first_fetch : Shared
first_fetch = join 0 u1 t1 (record new_shared { calls = update 0 (missed u1 t1) new_shared.calls })

abbrev first_gone : Shared
first_gone = record first_fetch {
  reply = update 0 (some billing) first_fetch.reply;
  flights = remove 0 result (move 0 (closed result) (move 0 (stored result) first_fetch.flights));
}

abbrev first_events : List Event
first_events =
    did (invalidate u1 t1)
    ∷ did (set u1 t1 (some billing))
    ∷ fetched u1 t1 billing
    ∷ looked u1 t1
    ∷ []

to_first_gone :
    Steps memory_cache new_in_memory_permission_cache new_shared first_events
      new_in_memory_permission_cache first_gone
unfolding code Memory.invalidate
to_first_gone =
    step
      (step
        (step
          (step
            (step (step (step rest (misses 0 u1 t1 refl refl)) (joins 0 u1 t1 refl))
              (answers 0 (some member, none) billing refl refl refl))
            (stores 0 billing refl refl))
          (closes 0 result refl))
        (removes 0 result refl))
      (invalidates u1 t1)

nothing_at_first : (Memory.get u1 t1 new_in_memory_permission_cache).0.0 ≡ none
unfolding code
nothing_at_first = refl

none_stands :
    (n : ℕ)
    → first_gone.asker n ≡ (u1, t1)
    → (first_gone.flights.entries n).phase ≡ running
    → first_gone.reply n ≡ none
unfolding code
none_stands n asked runs = ground arith

-- The next call, with an answer that grants more.
abbrev promoted : MembershipResolution
promoted = record member { permissions = some rewritten }

abbrev second_fetch : Shared
second_fetch = join 1 u1 t1 (record first_gone { calls = update 1 (missed u1 t1) first_gone.calls })

abbrev second_stored : Shared
second_stored = record second_fetch {
  reply = update 1 (some rewritten) second_fetch.reply;
  flights = move 1 (stored (some rewritten, none)) second_fetch.flights;
}

abbrev second_events : List Event
second_events = did (set u1 t1 (some rewritten)) ∷ fetched u1 t1 rewritten ∷ looked u1 t1 ∷ []

to_second_stored :
    Steps memory_cache new_in_memory_permission_cache first_gone second_events written_first
      second_stored
unfolding code
to_second_stored =
    step
      (step (step (step rest (misses 1 u1 t1 refl refl)) (joins 1 u1 t1 refl))
        (answers 1 (some promoted, none) rewritten refl refl refl))
      (stores 1 rewritten refl refl)

invalidation_holds_example : Given (u1, t1) rewritten second_events
invalidation_holds_example =
    invalidation_holds memory_cache memory_faithful u1 t1 rewritten t1-IsPlain new_cache-Shows
      to_first_gone (t1-IsPlain, (t1-IsPlain, (tt, (t1-IsPlain, tt)))) nothing_at_first none_stands
      to_second_stored (t1-IsPlain, (tt, (t1-IsPlain, tt))) reads_written

abbrev second_result : Fetched
second_result = (some rewritten, none)

abbrev second_over : Shared
second_over = record second_stored {
  flights =
      wake 1 (flight_key u1 t1) 1 second_result
        (move 1 (closed second_result) second_stored.flights);
  calls = update 1 (over u1 t1 second_result) second_stored.calls;
}

to_second_over :
    Steps memory_cache new_in_memory_permission_cache first_gone second_events written_first
      second_over
unfolding code
to_second_over =
    step (step to_second_stored (closes 1 second_result refl))
      (wakes 1 u1 t1 1 second_result refl refl refl)

none_answered :
    (n : ℕ)
    → first_gone.asker n ≡ (u1, t1)
    → is_live (first_gone.flights.entries n).phase ≡ true
    → ((first_gone.flights.entries n).phase ≡ running) × (first_gone.reply n ≡ none)
unfolding code
none_answered n asked live = (ground arith, ground arith)

not_made : first_gone.calls 1 ≡ outside
unfolding code
not_made = refl

second_call : second_over.calls 1 ≡ over u1 t1 second_result
unfolding code
second_call = refl

late_calls_are_given_example : Given (u1, t1) rewritten second_events
late_calls_are_given_example =
    late_calls_are_given memory_cache memory_faithful u1 t1 1 rewritten t1-IsPlain new_cache-Shows
      to_first_gone (t1-IsPlain, (t1-IsPlain, (tt, (t1-IsPlain, tt)))) nothing_at_first
      none_answered not_made to_second_over (t1-IsPlain, (tt, (t1-IsPlain, tt))) second_call
