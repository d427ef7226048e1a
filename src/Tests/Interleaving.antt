-- ===== src/Tests/Interleaving.antt =====
-- helios_permissions/permission_client.go: two calls for one pair, with one fetch, over the
-- in-memory cache.
use helios_permission_golang.Prelude.{
  Str, true, none, some, List, [], ◌∷◌, ◌++◌, bytes, ◌==◌, lookup, insert, delete, ◌≡◌, refl, arith,
}
use helios_permission_golang.Permission
use helios_permission_golang.Permission.{Permission}
use helios_permission_golang.Cache.Runs.{nothing}
use helios_permission_golang.Cache.Spec.{View, set, invalidate}
use helios_permission_golang.Helios.{MembershipResolution}
use helios_permission_golang.Memory
use helios_permission_golang.Memory.{
  InMemoryPermissionCache, new_in_memory_permission_cache, memory_cache, mem_key,
}
use helios_permission_golang.Memory.Keys.{IsPlain}
use helios_permission_golang.Memory.Refinement.{IsPlainOp, new_cache-Shows, memory_faithful}
use helios_permission_golang.Roles.{role_viewer}
use helios_permission_golang.Client.Sources.{answer, answered}
use helios_permission_golang.Client.Coalescing.{
  Fetched, new_in_flight, arrive, move, remove, wake, update, stored, closed,
}
use helios_permission_golang.Client.Interleaving.{
  missed, over, Shared, new_shared, flight_key, join, fetched, misses, joins, answers, stores,
  closes, wakes, Steps, rest, step,
}
use helios_permission_golang.Client.Interleaving.{Event, looked, did}
use helios_permission_golang.Client.Interleaving.Fine.{AreFine}
use helios_permission_golang.Client.Interleaving.Collision.{colon_joins_fetches}
use helios_permission_golang.Client.Interleaving.Given.{Given}
use helios_permission_golang.Client.Interleaving.Race.{old_answer_returns}
use helios_permission_golang.Memory.Laws.{read}
use helios_permission_golang.Client.Interleaving.Sources.{answers_are_given}

code : Unit {0}
unfolding new_in_flight arrive move remove wake lookup insert delete bytes ◌==◌ join Memory.get
    Memory.set mem_key new_in_memory_permission_cache answer answered
code = tt

abbrev pub u1 : Str
u1 = bytes "u1"

abbrev pub t1 : Str
t1 = bytes "t1"

abbrev pub billing : List Permission
billing = Permission.zeta_billing_view ∷ []

abbrev pub member : MembershipResolution
member = record {
  status = bytes "active";
  role = role_viewer;
  permissions = some billing;
  is_active = true;
  expires_at = none;
  reason = [];
}

abbrev both_missed : Shared
both_missed = record new_shared {
  calls = update 1 (missed u1 t1) (update 0 (missed u1 t1) new_shared.calls);
}

abbrev both_wait : Shared
both_wait = join 1 u1 t1 (join 0 u1 t1 both_missed)

abbrev replied : Shared
replied = record both_wait { reply = update 0 (some billing) both_wait.reply }

abbrev pub result : Fetched
result = (some billing, none)

abbrev kept : Shared
kept = record replied { flights = move 0 (stored result) replied.flights }

abbrev shut : Shared
shut = record kept { flights = move 0 (closed result) kept.flights }

abbrev one_over : Shared
one_over = record shut {
  flights = wake 1 (flight_key u1 t1) 0 result shut.flights;
  calls = update 1 (over u1 t1 result) shut.calls;
}

abbrev full : InMemoryPermissionCache
full = record { store = (bytes "u1:t1", billing) ∷ [] }

pub t1-IsPlain : IsPlain t1
unfolding bytes
t1-IsPlain = omega arith

abbrev looked_twice : List Event
looked_twice = looked u1 t1 ∷ looked u1 t1 ∷ []

abbrev happened : List Event
happened = did (set u1 t1 (some billing)) ∷ fetched u1 t1 billing ∷ looked_twice

happened-AreFine : AreFine IsPlainOp happened
happened-AreFine = (t1-IsPlain, (tt, (t1-IsPlain, (t1-IsPlain, tt))))

to_both_wait :
    Steps memory_cache new_in_memory_permission_cache new_shared looked_twice
      new_in_memory_permission_cache both_wait
unfolding code
to_both_wait =
    step
      (step (step (step rest (misses 0 u1 t1 refl refl)) (misses 1 u1 t1 refl refl))
        (joins 0 u1 t1 refl))
      (joins 1 u1 t1 refl)

to_one_over : Steps memory_cache new_in_memory_permission_cache new_shared happened full one_over
unfolding code
to_one_over =
    step
      (step
        (step (step to_both_wait (answers 0 (some member, none) billing refl refl refl))
          (stores 0 billing refl refl))
        (closes 0 result refl))
      (wakes 1 u1 t1 0 result refl refl refl)

abbrev pub rewritten : List Permission
rewritten = Permission.helios_external_view ∷ Permission.zeta_billing_view ∷ []

-- The pair was written before the fetch stores its answer.
abbrev pub written_first : InMemoryPermissionCache
written_first = record { store = (bytes "u1:t1", rewritten) ∷ [] }

abbrev written_view : View
written_view v w = read written_first v w

over_1 : one_over.calls 1 ≡ over u1 t1 result
unfolding code
over_1 = refl

pub reads_written : (Memory.get u1 t1 written_first).0.0 ≡ some rewritten
unfolding code
reads_written = refl

answers_are_given_example : Given (u1, t1) billing happened
answers_are_given_example =
    answers_are_given memory_cache memory_faithful 1 u1 t1 billing new_cache-Shows to_one_over
      happened-AreFine over_1

old_answer_returns_example :
    (c : InMemoryPermissionCache) × (s : Shared) × Steps memory_cache new_in_memory_permission_cache
      new_shared
      (did (set u1 t1 (some (answer member)))
        ∷ did (invalidate u1 t1)
        ∷ fetched u1 t1 (answer member)
        ∷ looked u1 t1
        ∷ [])
      c
      s
    × ((Memory.get u1 t1 c).0.0 ≡ some (answer member))
old_answer_returns_example =
    old_answer_returns memory_cache memory_faithful new_in_memory_permission_cache nothing u1 t1
      member t1-IsPlain new_cache-Shows refl t1-IsPlain t1-IsPlain

abbrev a : Str
a = bytes "a"

nothing_read : (Memory.get (a ++ (bytes ":" ++ u1)) t1 new_in_memory_permission_cache).0.0 ≡ none
unfolding code
nothing_read = refl

nothing_read' :
    (Memory.get a
      (u1 ++ (bytes ":" ++ t1))
      (Memory.get (a ++ (bytes ":" ++ u1)) t1 new_in_memory_permission_cache).1).0.0
    ≡ none
unfolding code
nothing_read' = refl

member_answered : answered (some member, none) ≡ (some billing, none)
unfolding code
member_answered = refl

colon_joins_fetches_example :
    (c : InMemoryPermissionCache) × (s : Shared) × Steps memory_cache new_in_memory_permission_cache
      new_shared
      (did (set (a ++ (bytes ":" ++ u1)) t1 (some billing))
        ∷ fetched (a ++ (bytes ":" ++ u1)) t1 billing
        ∷ looked a (u1 ++ (bytes ":" ++ t1))
        ∷ looked (a ++ (bytes ":" ++ u1)) t1
        ∷ [])
      c
      s
    × (s.calls 1 ≡ over a (u1 ++ (bytes ":" ++ t1)) (some billing, none))
colon_joins_fetches_example =
    colon_joins_fetches memory_cache new_in_memory_permission_cache a u1 t1 (some member, none)
      billing nothing_read nothing_read' member_answered
