-- ===== src/Client/InFlight.antt =====
-- helios_permissions/permission_client.go: `inFlight.getOrStart`, as one goroutine runs it while no
-- other is between two of its steps. `none` is a wait that nobody ends.
use helios_permission_golang.Prelude.{
  Str, Bool, true, false, if◌then◌else◌, Option, none, some, Table, lookup, insert, delete,
}
use helios_permission_golang.Errors.{Error}
use helios_permission_golang.Cache.{Slice}

-- `done` is true once the channel is closed.
pub record InFlightEntry : Type 0 where
  pub done : Bool
  pub res : Slice
  pub err : Option Error

abbrev pub Waiter : Type 0
Waiter = Table InFlightEntry

abbrev pub started : InFlightEntry
started = record { done = false; res = none; err = none }

abbrev pub finished : Slice × Option Error → InFlightEntry
finished result = record { done = true; res = result.0; err = result.1 }

-- The fetch runs on the state `S` of the cache and the network.
unfoldable pub get_or_start :
    {S : Type 0}
    → Str
    → (S → (Slice × Option Error) × S)
    → Waiter
    → S
    → Option ((Slice × Option Error) × Waiter × S)
get_or_start key fetch waiter s = elim (lookup key waiter) [
  | some e ↦ if e.done then some ((e.res, e.err), waiter, s) else none
  | none ↦
      let registered = insert key started waiter in
      let (result, s') = fetch s in
      let closed = insert key (finished result) registered in some (result, delete key closed, s')
]
