-- ===== src/Client/Interleaving/Given.antt =====
-- helios_permissions/permission_client.go: what an entry of `inFlight` knows of the pair that its
-- fetch has captured.
use helios_permission_golang.Prelude.{
  ℕ, Str, true, false, Option, none, some, lookup, List, ◌∷◌, ◌++◌, [], nat_eq, ◌≡◌, ◌⊎◌, inl, inr,
  refl, sym, ◌∙◌, arith, ap, Bool-cases,
}
use helios_permission_golang.Permission.{Permission}
use helios_permission_golang.Cache.{Slice, elements}
use helios_permission_golang.Cache.Spec.{write_through}
use helios_permission_golang.Memory.Keys.{IsPlain}
use helios_permission_golang.Client.Coalescing.{
  Fetched, Phase, running, stored, closed, removed, Entry, Flights, update, enter, arrive, move,
  remove, outcome,
}
use helios_permission_golang.Client.Coalescing.Invariant.{is_used, Consistent}
use helios_permission_golang.Client.Interleaving.{Event, fetched, did, flight_key}

-- Helios answered these permissions for the pair, or they were written for it.
pub data Given (p : Str × Str) (ps : List Permission) : List Event → Type 0 where
  by_helios : {es : List Event} → Given p ps (fetched p.0 p.1 ps ∷ es)
  by_write :
      {perms : Slice} {es : List Event}
      → elements perms ≡ ps
      → Given p ps (did (write_through p.0 p.1 perms) ∷ es)
  earlier : {e : Event} {es : List Event} → Given p ps es → Given p ps (e ∷ es)

pub Given-append :
    (p : Str × Str) (ps : List Permission) (es' es : List Event)
    → Given p ps es
    → Given p ps (es' ++ es)
Given-append p ps [] es h = h
Given-append p ps (e ∷ es') es h = earlier (Given-append p ps es' es h)

-- What a fetch has returned.
abbrev pub result : Phase → Option Fetched
result (stored r) = some r
result (closed r) = some r
result (removed r) = some r
result _ = none

-- An entry in use has the key of the pair that asked, and what its fetch returned was given for
-- that pair.
pub record Owned (asker : ℕ → Str × Str) (s : Flights) (es : List Event) : Type 0 where
  pub keyed :
      (n : ℕ)
      → is_used (s.entries n).phase ≡ true
      → ((s.entries n).key ≡ flight_key (asker n).0 (asker n).1) × IsPlain (asker n).1
  pub produced :
      (n : ℕ) (ps : List Permission)
      → result (s.entries n).phase ≡ some (some ps, none)
      → Given (asker n) ps es

pub update-cases {ℓ} :
    {A : Type ℓ} (n m : ℕ) (x : A) (f : ℕ → A)
    → ((n ≡ m) × (update n x f m ≡ x)) ⊎ ((nat_eq m n ≡ false) × (update n x f m ≡ f m))
update-cases n m x f = elim (Bool-cases (nat_eq m n)) [
  | inl same ↦ inl (ground arith, rw same refl)
  | inr other ↦ inr (other, rw other refl)
]

module _ (asker : ℕ → Str × Str) (es : List Event) where
  -- An entry in use goes on to a phase that has no result, or one given for its pair.
  pub move-Owned :
      (s : Flights) (n : ℕ) (p : Phase)
      → is_used (s.entries n).phase ≡ true
      → ((ps : List Permission) → result p ≡ some (some ps, none) → Given (asker n) ps es)
      → Owned asker s es
      → Owned asker (move n p s) es
  unfolding move
  move-Owned s n p used given h = record {
    keyed = λ m e.
        elim (update-cases n m (record { key = (s.entries n).key; phase = p }) s.entries) [
          | inl (same, now) ↦ rw now (rw⁻¹ same (h.keyed n used))
          | inr (other, before) ↦ rw before (h.keyed m (rw⁻¹ before e))
        ];
    produced = λ m ps e.
        elim (update-cases n m (record { key = (s.entries n).key; phase = p }) s.entries) [
          | inl (same, now) ↦
              rw⁻¹ same (given ps (ap (λ (y : Entry). result y.phase) (sym now) ∙ e))
          | inr (other, before) ↦
              h.produced m ps (ap (λ (y : Entry). result y.phase) (sym before) ∙ e)
        ];
  }

  pub remove-Owned :
      (s : Flights) (n : ℕ) (r : Fetched)
      → (s.entries n).phase ≡ closed r
      → Owned asker s es
      → Owned asker (remove n r s) es
  unfolding move remove
  remove-Owned s n r at h =
      let after = move-Owned s n (removed r) (rw at refl) (λ ps e. h.produced n ps (rw at e)) h in
      record { keyed = after.keyed; produced = after.produced }

  -- A caller that joins or starts a fetch for its pair.
  module _ (s : Flights) (c : ℕ) (u t : Str) (plain : IsPlain t) (h : Consistent s)
      (owned : Owned asker s es) where
    abbrev askers : ℕ → Str × Str
    askers = update s.next (u, t) asker

    same_asker : (n : ℕ) → is_used (s.entries n).phase ≡ true → askers n ≡ asker n
    same_asker n used = ground (arith, h.fresh n)

    used_if_produced : (p : Phase) (r : Fetched) → result p ≡ some r → is_used p ≡ true
    used_if_produced p r e = ground arith

    old_keyed :
        (n : ℕ)
        → is_used (s.entries n).phase ≡ true
        → ((s.entries n).key ≡ flight_key (askers n).0 (askers n).1) × IsPlain (askers n).1
    old_keyed n used = rw (same_asker n used) (owned.keyed n used)

    old_produced :
        (n : ℕ) (ps : List Permission)
        → result (s.entries n).phase ≡ some (some ps, none)
        → Given (askers n) ps es
    old_produced n ps e = rw (same_asker n (used_if_produced _ _ e)) (owned.produced n ps e)

    abbrev started : Entry
    started = record { key = flight_key u t; phase = running }

    own : (n : ℕ) → s.next ≡ n → askers n ≡ (u, t)
    own n same = ground arith

    nothing_yet : {r : Fetched} → ◌≡◌ {A = Option Fetched} none (some r) → ⊥
    nothing_yet e = absurd cc

    enter-Owned : (o : Option ℕ) → Owned askers (enter c (flight_key u t) o s) es
    enter-Owned (some n) = record { keyed = old_keyed; produced = old_produced }
    enter-Owned none = record {
      keyed = λ m e. elim (update-cases s.next m started s.entries) [
        | inl (same, now) ↦ rw (now, own m same) (refl, plain)
        | inr (other, before) ↦ rw before (old_keyed m (rw⁻¹ before e))
      ];
      produced = λ m ps e. elim (update-cases s.next m started s.entries) [
        | inl (same, now) ↦ absurd (nothing_yet (sym (ap (λ (y : Entry). result y.phase) now) ∙ e))
        | inr (other, before) ↦
            old_produced m ps (ap (λ (y : Entry). result y.phase) (sym before) ∙ e)
      ];
    }

    pub arrive-Owned : Owned askers (arrive c (flight_key u t) s) es
    unfolding arrive
    arrive-Owned = enter-Owned (lookup (flight_key u t) s.waiter)

    enter_used :
        (o : Option ℕ) (n : ℕ)
        → is_used (s.entries n).phase ≡ true
        → is_used ((enter c (flight_key u t) o s).entries n).phase ≡ true
    enter_used (some m) n used = used
    enter_used none n used = ground arith

    pub arrive_used :
        (n : ℕ)
        → is_used (s.entries n).phase ≡ true
        → (is_used ((arrive c (flight_key u t) s).entries n).phase ≡ true) × (askers n ≡ asker n)
    unfolding arrive
    arrive_used n used = (enter_used (lookup (flight_key u t) s.waiter) n used, same_asker n used)

    enter_entries :
        (o : Option ℕ) (n : ℕ)
        → is_used (s.entries n).phase ≡ true
        → (enter c (flight_key u t) o s).entries n ≡ s.entries n
    enter_entries (some m) n used = refl
    enter_entries none n used = ground (arith, h.fresh n)

    pub arrive_entries :
        (n : ℕ)
        → is_used (s.entries n).phase ≡ true
        → (arrive c (flight_key u t) s).entries n ≡ s.entries n
    unfolding arrive
    arrive_entries n used = enter_entries (lookup (flight_key u t) s.waiter) n used

    enter_others :
        (o : Option ℕ) (d : ℕ)
        → nat_eq d c ≡ false
        → (enter c (flight_key u t) o s).callers d ≡ s.callers d
    enter_others (some m) d other = rw other refl
    enter_others none d other = rw other refl

    pub arrive_others :
        (d : ℕ) → nat_eq d c ≡ false → (arrive c (flight_key u t) s).callers d ≡ s.callers d
    unfolding arrive
    arrive_others d other = enter_others (lookup (flight_key u t) s.waiter) d other

pub result-outcome :
    (p : Phase) (r : Fetched) → outcome p ≡ some r → (result p ≡ some r) × (is_used p ≡ true)
result-outcome p r e = (ground arith, ground arith)
