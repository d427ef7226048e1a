-- ===== src/Client/Coalescing/Progress.antt =====
-- helios_permissions/permission_client.go: no call to `inFlight` waits for ever once its fetch
-- returns, and no entry is left behind.
use helios_permission_golang.Prelude.{
  ℕ, Str, true, false, none, some, lookup, ◌≡◌, ◌≢◌, ◌⊎◌, refl, arith, Option-cases, inl, inr,
}
use helios_permission_golang.Client.Coalescing.{
  Fetched, Phase, unused, running, stored, closed, removed, waiting, returned, Flights,
  new_in_flight, update, move, wake, outcome, Step, fetches, closes, wakes, Steps, rest, step,
}
use helios_permission_golang.Client.Coalescing.Invariant.{is_live, is_used, reached-Consistent}

-- The call can go on to return the result.
abbrev pub CanReturn : Flights → ℕ → Str → ℕ → Fetched → Type 0
CanReturn s c key n r = (s' : Flights) × Steps s s' × (s'.callers c ≡ returned key n r)

before : {s s' s'' : Flights} → Step s s' → Steps s' s'' → Steps s s''
before first rest = step rest first
before first (step steps last) = step (before first steps) last

after_step :
    (s s' : Flights) (c : ℕ) (key : Str) (n : ℕ) (r : Fetched)
    → Step s s'
    → CanReturn s' c key n r
    → CanReturn s c key n r
after_step s s' c key n r first (s'', steps, done) = (s'', before first steps, done)

update_same {ℓ} : {A : Type ℓ} (n : ℕ) (x : A) (f : ℕ → A) → update n x f n ≡ x
update_same n x f = ground arith

over :
    (s : Flights) (c : ℕ) (key : Str) (n : ℕ) (r : Fetched)
    → s.callers c ≡ waiting key n
    → outcome (s.entries n).phase ≡ some r
    → CanReturn s c key n r
over s c key n r at ready = (
  wake c key n r s,
  step rest (wakes s c key n r at ready),
  unfold wake in update_same c (returned key n r) s.callers,
)

moved : (s : Flights) (n : ℕ) (p : Phase) → ((move n p s).entries n).phase ≡ p
unfolding move
moved s n p = ground arith

same_callers : (s : Flights) (n : ℕ) (p : Phase) (c : ℕ) → (move n p s).callers c ≡ s.callers c
unfolding move
same_callers s n p c = refl

from_stored :
    (s : Flights) (c : ℕ) (key : Str) (n : ℕ) (r : Fetched)
    → s.callers c ≡ waiting key n
    → (s.entries n).phase ≡ stored r
    → CanReturn s c key n r
from_stored s c key n r at phase =
    after_step s (move n (closed r) s) c key n r (closes s n r phase)
      (over (move n (closed r) s) c key n r (rw same_callers at) (rw moved refl))

from_running :
    (s : Flights) (c : ℕ) (key : Str) (n : ℕ) (r : Fetched)
    → s.callers c ≡ waiting key n
    → (s.entries n).phase ≡ running
    → CanReturn s c key n r
from_running s c key n r at phase =
    after_step s (move n (stored r) s) c key n r (fetches s n r phase)
      (from_stored (move n (stored r) s) c key n r (rw same_callers at) (moved s n (stored r)))

from_phase :
    (s : Flights) (c : ℕ) (key : Str) (n : ℕ) (r : Fetched) (p : Phase)
    → s.callers c ≡ waiting key n
    → (s.entries n).phase ≡ p
    → is_used p ≡ true
    → (r' : Fetched) × CanReturn s c key n r' × ((p ≢ running) ⊎ (r' ≡ r))
from_phase s c key n r unused at phase used = cc
from_phase s c key n r running at phase used = (r, from_running s c key n r at phase, inr refl)
from_phase s c key n r (stored r') at phase used =
    (r', from_stored s c key n r' at phase, inl (λ e. cc))
from_phase s c key n r (closed r') at phase used =
    (r', over s c key n r' at (rw phase refl), inl (λ e. cc))
from_phase s c key n r (removed r') at phase used =
    (r', over s c key n r' at (rw phase refl), inl (λ e. cc))

-- In every state that calls and fetches reach, a call that waits can go on to return: with any
-- result `r`, or with another one if its fetch is no longer running.
pub waiting_call_returns :
    (s : Flights) (c : ℕ) (key : Str) (n : ℕ) (r : Fetched)
    → Steps new_in_flight s
    → s.callers c ≡ waiting key n
    → (r' : Fetched) × CanReturn s c key n r' × (((s.entries n).phase ≢ running) ⊎ (r' ≡ r))
waiting_call_returns s c key n r steps at =
    from_phase s c key n r (s.entries n).phase at refl
      ((reached-Consistent s steps).waits c key n at).0

-- In every state that calls and fetches reach, once no fetch is under way the map is empty.
pub no_entry_left :
    (s : Flights) (key : Str)
    → Steps new_in_flight s
    → ((n : ℕ) → is_live (s.entries n).phase ≡ false)
    → lookup key s.waiter ≡ none
no_entry_left s key steps idle = elim (Option-cases (lookup key s.waiter)) [
  | inl empty ↦ empty
  | inr (n, found) ↦ ground (arith, (reached-Consistent s steps).live key n found, idle n)
]
