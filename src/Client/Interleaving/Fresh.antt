-- ===== src/Client/Interleaving/Fresh.antt =====
-- helios_permissions/permission_client.go: what is given since a pair was not in the cache, and
-- the changes of the state that keep it so.
use helios_permission_golang.Prelude.{
  ℕ, Str, none, some, inl, inr, List, ◌∷◌, ◌++◌, ◌≡◌, refl, sym, ◌∙◌, ap, arith,
}
use mathlib.Core.Path.{subst}
use helios_permission_golang.Permission.{Permission}
use helios_permission_golang.Cache.{Slice, elements}
use helios_permission_golang.Cache.Spec.{View, set, write_through, set_if_absent, promised}
use helios_permission_golang.Memory.Keys.{IsPlain}
use helios_permission_golang.Client.Coalescing.{Entry, Flights, Phase, running, update, move}
use helios_permission_golang.Client.Interleaving.{Call, Shared, join, Event, fetched, did}
use helios_permission_golang.Client.Interleaving.Given.{
  Given, by_helios, by_write, earlier, Given-append, update-cases, arrive_used, arrive_entries,
}
use helios_permission_golang.Client.Interleaving.Sound.{Sound}
use helios_permission_golang.Client.Interleaving.Sources.{at_pair}

-- What the table has for the pair, and what a fetch for it is about to store, was given since.
pub record IsFresh (u t : Str) (es : List Event) (view : View) (s : Shared) : Type 0 where
  pub kept : (ps : List Permission) → view u t ≡ some ps → Given (u, t) ps es
  pub pending :
      (n : ℕ) (ps : List Permission)
      → s.asker n ≡ (u, t)
      → (s.flights.entries n).phase ≡ running
      → s.reply n ≡ some ps
      → Given (u, t) ps es

-- An entry that runs after another one moved on ran before.
pub still_running :
    (f : Flights) (n m : ℕ) (p : Phase)
    → ((p ≡ running) → ⊥)
    → ((move n p f).entries m).phase ≡ running
    → (f.entries m).phase ≡ running
unfolding move
still_running f n m p ended e = ground arith

module _ (u t : Str) (es : List Event) (view : View) (s : Shared) (h : IsFresh u t es view s) where
  -- A change of the flights after which no more entries run.
  pub moves-IsFresh :
      (es' : List Event) (view' : View) (flights : Flights) (calls : ℕ → Call)
      → ((ps : List Permission) → view' u t ≡ some ps → Given (u, t) ps (es' ++ es))
      → ((m : ℕ) → (flights.entries m).phase ≡ running → (s.flights.entries m).phase ≡ running)
      → IsFresh u t (es' ++ es) view' (record s { flights = flights; calls = calls })
  moves-IsFresh es' view' flights calls kept runs = record {
    kept = kept;
    pending = λ n ps asked run held.
        Given-append (u, t) ps es' es (h.pending n ps asked (runs n run) held);
  }

  pub joins-IsFresh :
      (c : ℕ) (v w : Str) (all : List Event)
      → Sound all view s
      → IsPlain w
      → IsFresh u t es view (join c v w s)
  unfolding join
  joins-IsFresh c v w all sound plain = record {
    kept = h.kept;
    pending = λ n ps asked run held.
        let used = (sound.replied n ps held).0 in
        let old =
          arrive_entries s.asker all s.flights c v w plain sound.consistent sound.owned n used in
        let same =
          (arrive_used s.asker all s.flights c v w plain sound.consistent sound.owned n used).1 in
        h.pending n ps (sym same ∙ asked) (ap (λ (e : Entry). e.phase) (sym old) ∙ run) held;
  }

  pub answers-IsFresh :
      (n : ℕ) (qs : List Permission)
      → IsFresh u t
          (fetched (s.asker n).0 (s.asker n).1 qs ∷ es)
          view
          (record s { reply = update n (some qs) s.reply })
  answers-IsFresh n qs = record {
    kept = λ ps e. earlier (h.kept ps e);
    pending = λ m ps asked run held. elim (update-cases n m (some qs) s.reply) [
      | inl (same, now) ↦
          let it : qs ≡ ps = cc in
          let mine : s.asker n ≡ (u, t) = subst (λ k. s.asker k ≡ (u, t)) (sym same) asked in
          rw⁻¹ it
            (subst (λ p. Given p qs (fetched (s.asker n).0 (s.asker n).1 qs ∷ es)) mine by_helios)
      | inr (other, before) ↦ earlier (h.pending m ps asked run (sym before ∙ held))
    ];
  }

  pub set_kept :
      (n : ℕ) (qs : List Permission)
      → (s.flights.entries n).phase ≡ running
      → s.reply n ≡ some qs
      → (ps : List Permission)
      → promised (set (s.asker n).0 (s.asker n).1 (some qs)) view u t ≡ some ps
      → Given (u, t) ps es
  unfolding promised
  set_kept n qs run held ps e =
      at_pair (s.asker n).0 u (s.asker n).1 t _ _ ps es e (absent (view u t) refl) (h.kept ps)
    where
      absent :
          (old : Slice)
          → view u t ≡ old
          → (s.asker n).0 ≡ u
          → (s.asker n).1 ≡ t
          → set_if_absent old (some qs) ≡ some ps
          → Given (u, t) ps es
      absent none was p q new =
          let it : qs ≡ ps = cc in
          let mine : s.asker n ≡ (u, t) = λ i. (p i, q i) in rw⁻¹ it (h.pending n qs mine run held)
      absent (some old) was p q new = h.kept ps (was ∙ new)

  pub write_kept :
      (v w : Str) (perms : Slice) (ps : List Permission)
      → promised (write_through v w perms) view u t ≡ some ps
      → Given (u, t) ps (did (write_through v w perms) ∷ es)
  unfolding promised
  write_kept v w perms ps e =
      at_pair v u w t _ _ ps _ e
        (λ p q new. let it : elements perms ≡ ps = cc in rw⁻¹ (p, q) (by_write it))
        (λ old. earlier (h.kept ps old))
