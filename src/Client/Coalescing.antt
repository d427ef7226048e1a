-- ===== src/Client/Coalescing.antt =====
-- helios_permissions/permission_client.go: `inFlight.getOrStart` with any number of callers and
-- fetches at once. A step is what runs under the mutex, or one statement of a goroutine. An entry is
-- named by a number, and each call by its own.
pub mod Invariant
pub mod Progress
pub mod Alone
use helios_permission_golang.Prelude.{
  ℕ, suc, Str, Bool, true, false, if◌then◌else◌, Option, none, some, List, [], Table, lookup,
  insert, delete, nat_eq, ◌≡◌,
}
use helios_permission_golang.Errors.{Error}
use helios_permission_golang.Cache.{Slice}

abbrev pub Fetched : Type 0
Fetched = Slice × Option Error

-- The goroutine of an entry: in `fetch`, before `close`, before `delete`, and at its end.
pub data Phase : Type 0 where
  unused running : Phase
  stored closed removed : Fetched → Phase

pub record Entry : Type 0 where
  pub key : Str
  pub phase : Phase

-- A call with its key and its entry: not made yet, at `<-e.done`, or done with what it read.
pub data Caller : Type 0 where
  outside : Caller
  waiting : Str → ℕ → Caller
  returned : Str → ℕ → Fetched → Caller

pub record Flights : Type 0 where
  pub waiter : Table ℕ
  pub next : ℕ
  pub entries : ℕ → Entry
  pub callers : ℕ → Caller

unfoldable pub new_in_flight : Flights
new_in_flight = record {
  waiter = [];
  next = 0;
  entries = λ n. record { key = []; phase = unused };
  callers = λ c. outside;
}

abbrev pub update {ℓ} : {A : Type ℓ} → ℕ → A → (ℕ → A) → ℕ → A
update n x f m = if nat_eq m n then x else f m

-- The branches of `getOrStart`, under the mutex.
abbrev pub enter : ℕ → Str → Option ℕ → Flights → Flights
enter c key (some n) s = record s { callers = update c (waiting key n) s.callers }
enter c key none s = record {
  waiter = insert key s.next s.waiter;
  next = suc s.next;
  entries = update s.next (record { key = key; phase = running }) s.entries;
  callers = update c (waiting key s.next) s.callers;
}

unfoldable pub arrive : ℕ → Str → Flights → Flights
arrive c key s = enter c key (lookup key s.waiter) s

unfoldable pub move : ℕ → Phase → Flights → Flights
move n phase s = record s {
  entries = update n (record { key = (s.entries n).key; phase = phase }) s.entries;
}

-- `delete(i.waiter, key)`, under the mutex.
unfoldable pub remove : ℕ → Fetched → Flights → Flights
unfolding move
remove n r s =
    let moved = move n (removed r) s in record moved { waiter = delete (s.entries n).key s.waiter }

unfoldable pub wake : ℕ → Str → ℕ → Fetched → Flights → Flights
wake c key n r s = record s { callers = update c (returned key n r) s.callers }

-- What `<-e.done` lets a caller read.
abbrev pub outcome : Phase → Option Fetched
outcome (closed r) = some r
outcome (removed r) = some r
outcome _ = none

-- The steps; a fetch may return anything.
pub data Step : Flights → Flights → Type 0 where
  arrives : (s : Flights) (c : ℕ) (key : Str) → s.callers c ≡ outside → Step s (arrive c key s)
  fetches :
      (s : Flights) (n : ℕ) (r : Fetched)
      → (s.entries n).phase ≡ running
      → Step s (move n (stored r) s)
  closes :
      (s : Flights) (n : ℕ) (r : Fetched)
      → (s.entries n).phase ≡ stored r
      → Step s (move n (closed r) s)
  removes :
      (s : Flights) (n : ℕ) (r : Fetched) → (s.entries n).phase ≡ closed r → Step s (remove n r s)
  wakes :
      (s : Flights) (c : ℕ) (key : Str) (n : ℕ) (r : Fetched)
      → s.callers c ≡ waiting key n
      → outcome (s.entries n).phase ≡ some r
      → Step s (wake c key n r s)

-- Any number of steps, the last one outermost.
pub data Steps (s : Flights) : Flights → Type 0 where
  rest : Steps s s
  step : {s' s'' : Flights} → Steps s s' → Step s' s'' → Steps s s''
