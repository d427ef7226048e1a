-- ===== src/Client/Interleaving/Served.antt =====
-- helios_permissions/permission_client.go: what calls for a pair that are made from some state on
-- return, and the changes of the state that keep it so.
use helios_permission_golang.Prelude.{
  ℕ, Str, true, Bool, false, none, some, inl, inr, lookup, Option, List, [], ◌∷◌, ◌++◌, nat_eq, ◌≡◌,
  refl, sym, ◌∙◌, ap, arith,
}
use helios_permission_golang.Permission.{Permission}
use helios_permission_golang.Cache.Spec.{View}
use helios_permission_golang.Memory.Keys.{IsPlain}
use helios_permission_golang.Client.Coalescing.{
  Entry, Flights, Caller, Fetched, Phase, closed, removed, waiting, update, enter, arrive, move,
  remove,
}
use helios_permission_golang.Client.Coalescing.Invariant.{is_used, Consistent}
use helios_permission_golang.Client.Interleaving.{
  Call, outside, over, joined, Shared, join, flight_key, Event,
}
use helios_permission_golang.Client.Interleaving.Given.{
  Given, earlier, Given-append, result, update-cases, arrive_used, arrive_entries, arrive_others,
}
use helios_permission_golang.Client.Interleaving.Sound.{Sound}

abbrev pub is_removed : Phase → Bool
is_removed (removed r) = true
is_removed _ = false

-- The entries of `old` are removed. What the others fetched for the pair was given since, and so
-- was what the calls return that were not made before.
pub record IsServed (u t : Str) (calls0 : ℕ → Call) (old : ℕ → Bool) (es : List Event) (s : Shared)
    : Type 0 where
  pub gone : (n : ℕ) → old n ≡ true → is_removed (s.flights.entries n).phase ≡ true
  pub produced :
      (n : ℕ) (ps : List Permission)
      → old n ≡ false
      → s.asker n ≡ (u, t)
      → result (s.flights.entries n).phase ≡ some (some ps, none)
      → Given (u, t) ps es
  pub waits :
      (c n : ℕ)
      → calls0 c ≡ outside
      → s.calls c ≡ joined u t
      → s.flights.callers c ≡ waiting (flight_key u t) n
      → old n ≡ false
  pub returns :
      (c : ℕ) (ps : List Permission)
      → calls0 c ≡ outside
      → s.calls c ≡ over u t (some ps, none)
      → Given (u, t) ps es

-- What a fetch that a call starts or joins has returned, it had returned before.
result-enter :
    (f : Flights) (c : ℕ) (key : Str) (o : Option ℕ) (n : ℕ) (r : Fetched)
    → result ((enter c key o f).entries n).phase ≡ some r
    → result (f.entries n).phase ≡ some r
result-enter f c key (some m) n r e = e
result-enter f c key none n r e = ground arith

result-arrive :
    (f : Flights) (c : ℕ) (key : Str) (n : ℕ) (r : Fetched)
    → result ((arrive c key f).entries n).phase ≡ some r
    → result (f.entries n).phase ≡ some r
unfolding arrive
result-arrive f c key n r e = result-enter f c key (lookup key f.waiter) n r e

result_used : (p : Phase) (r : Fetched) → result p ≡ some r → is_used p ≡ true
result_used p r e = ground arith

removed_used : (p : Phase) → is_removed p ≡ true → is_used p ≡ true
removed_used p e = ground arith

-- A call does not wait for an entry that was removed before it came.
enter_waits :
    (f : Flights) (c d : ℕ) (key k : Str) (n : ℕ) (o : Option ℕ)
    → c ≡ d
    → Consistent f
    → lookup key f.waiter ≡ o
    → (enter c key o f).callers d ≡ waiting k n
    → is_removed (f.entries n).phase ≡ false
enter_waits f c d key k n (some m) same h found e = ground (arith, h.live key m found)
enter_waits f c d key k n none same h found e = ground (arith, h.fresh n)

arrive_waits :
    (f : Flights) (c d : ℕ) (key k : Str) (n : ℕ)
    → c ≡ d
    → Consistent f
    → (arrive c key f).callers d ≡ waiting k n
    → is_removed (f.entries n).phase ≡ false
unfolding arrive
arrive_waits f c d key k n same h e = enter_waits f c d key k n (lookup key f.waiter) same h refl e

module _ (u t : Str) (calls0 : ℕ → Call) (old : ℕ → Bool) (es : List Event) (s : Shared)
    (h : IsServed u t calls0 old es s) where
  pub later-IsServed :
      (e : Event) (reply : ℕ → Option (List Permission))
      → IsServed u t calls0 old (e ∷ es) (record s { reply = reply })
  later-IsServed e reply = record {
    gone = h.gone;
    produced = λ n ps new asked held. earlier (h.produced n ps new asked held);
    waits = h.waits;
    returns = λ c ps start e. earlier (h.returns c ps start e);
  }

  -- A call that goes on to a place that is not `<-e.done`.
  pub calls-IsServed :
      (es' : List Event) (c : ℕ) (k : Call)
      → ((k ≡ joined u t) → ⊥)
      → ((ps : List Permission)
          → calls0 c ≡ outside
          → k ≡ over u t (some ps, none)
          → Given (u, t) ps (es' ++ es))
      → (callers : ℕ → Caller) → ((d : ℕ) → nat_eq d c ≡ false → callers d ≡ s.flights.callers d)
      → IsServed u t calls0 old (es' ++ es) (record s {
        flights = record s.flights { callers = callers };
        calls = update c k s.calls;
      })
  calls-IsServed es' c k elsewhere given callers others = record {
    gone = h.gone;
    produced =
        λ n ps new asked held. Given-append (u, t) ps es' es (h.produced n ps new asked held);
    waits = λ d n start at wait. elim (update-cases c d k s.calls) [
      | inl (same, now) ↦ absurd (elsewhere (sym now ∙ at))
      | inr (other, before) ↦ h.waits d n start (sym before ∙ at) (sym (others d other) ∙ wait)
    ];
    returns = λ d ps start at. elim (update-cases c d k s.calls) [
      | inl (same, now) ↦ given ps (rw same start) (sym now ∙ at)
      | inr (other, before) ↦ Given-append (u, t) ps es' es (h.returns d ps start (sym before ∙ at))
    ];
  }

  pub moves-IsServed :
      (es' : List Event) (n : ℕ) (p : Phase)
      → is_removed (s.flights.entries n).phase ≡ false
      → ((ps : List Permission)
          → old n ≡ false
          → s.asker n ≡ (u, t)
          → result p ≡ some (some ps, none)
          → Given (u, t) ps (es' ++ es))
      → IsServed u t calls0 old (es' ++ es) (record s { flights = move n p s.flights })
  unfolding move
  moves-IsServed es' n p there given = record {
    gone = λ m gone. ground (arith, h.gone m gone);
    produced = λ m ps new asked held.
        elim (update-cases n m (record { key = (s.flights.entries n).key; phase = p })
          s.flights.entries) [
            | inl (same, now) ↦
                given ps (rw same new) (rw same asked)
                  (ap (λ (y : Entry). result y.phase) (sym now) ∙ held)
            | inr (other, before) ↦
                Given-append (u, t) ps es' es
                  (h.produced m ps new asked
                    (ap (λ (y : Entry). result y.phase) (sym before) ∙ held))
          ];
    waits = h.waits;
    returns = λ c ps start e. Given-append (u, t) ps es' es (h.returns c ps start e);
  }

  pub remove-IsServed :
      (n : ℕ) (r : Fetched)
      → (s.flights.entries n).phase ≡ closed r
      → IsServed u t calls0 old es (record s { flights = remove n r s.flights })
  unfolding move remove
  remove-IsServed n r at =
      let after =
        moves-IsServed [] n (removed r) (rw at refl)
          (λ ps new asked e. h.produced n ps new asked (rw at e)) in
      record {
        gone = after.gone;
        produced = after.produced;
        waits = after.waits;
        returns = after.returns;
      }

  pub joins-IsServed :
      (c : ℕ) (v w : Str) (all : List Event) (view : View)
      → Sound all view s
      → IsPlain w
      → IsServed u t calls0 old es (join c v w s)
  unfolding join
  joins-IsServed c v w all view sound plain = record {
    gone = λ n is_old.
        let was = h.gone n is_old in
        rw
          (arrive_entries s.asker all s.flights c v w plain sound.consistent sound.owned n
            (removed_used _ was))
          was;
    produced = λ n ps new asked held.
        let before = result-arrive s.flights c (flight_key v w) n (some ps, none) held in
        let same =
          (arrive_used s.asker all s.flights c v w plain sound.consistent sound.owned n
            (result_used _ _ before)).1 in
        h.produced n ps new (sym same ∙ asked) before;
    waits = λ d n start at wait. elim (update-cases c d (joined v w) s.calls) [
      | inl (same, now) ↦
          let there =
            arrive_waits s.flights c d (flight_key v w) (flight_key u t) n same sound.consistent
              wait in
          ground (arith, h.gone n)
      | inr (other, before) ↦ h.waits d n start (sym before ∙ at) (
          sym (arrive_others s.asker all s.flights c v w plain sound.consistent sound.owned d other)
          ∙ wait)
    ];
    returns = λ d ps start at. elim (update-cases c d (joined v w) s.calls) [
      | inl (same, now) ↦ absurd (not_over (sym now ∙ at))
      | inr (other, before) ↦ h.returns d ps start (sym before ∙ at)
    ];
  }
    where
      not_over : {r : Fetched} → joined v w ≡ over u t r → ⊥
      not_over e = cc
