-- ===== src/Redis/Scan.antt =====
-- helios_permissions/redis_cache.go: the loop of `InvalidateTenant` over a server that answers.
use helios_permission_golang.Prelude.{
  ℕ, zero, suc, ◌≤◌, ◌<◌, Str, true, false, if◌then◌else◌, none, some, List, [], ◌∷◌, ◌≡◌, ◌≢◌, ◌⊎◌,
  inl, inr, refl, ap, ◌∙◌, arith, nat_eq, contains, Bool-cases, Option-cases,
}
use helios_permission_golang.Redis.{
  done, RedisPermissionCache, Served, delete_keys, scan_batch_size, scan_loop,
}
use helios_permission_golang.Redis.Server.{IsServer}

module _ (c : RedisPermissionCache) (h : IsServer c.rdb) where
  open h use {stored, matches, IsDue, remaining, page}

  delete_keys_reply : (ks : List Str) (s : Served c) → (n : ℕ) × ((delete_keys c ks s).0 ≡ done n)
  delete_keys_reply [] s = (0, refl)
  delete_keys_reply (k ∷ ks) s = h.del_reply k ks s

  stored_delete_keys :
      (ks : List Str) (j : Str) (s : Served c)
      → stored (delete_keys c ks s).1 j ≡ (if contains ks j then none else stored s j)
  stored_delete_keys [] j s = unfold contains in refl
  stored_delete_keys (k ∷ ks) j s = h.stored_del k ks j s

  due_delete_keys :
      (ks : List Str) (s : Served c) (cursor : ℕ) (j : Str)
      → IsDue s cursor j
      → IsDue (delete_keys c ks s).1 cursor j
  due_delete_keys [] s cursor j due = due
  due_delete_keys (k ∷ ks) s cursor j due = h.due_del k ks s cursor j due

  remaining_delete_keys :
      (ks : List Str) (s : Served c) (cursor : ℕ)
      → remaining (delete_keys c ks s).1 cursor ≤ remaining s cursor
  remaining_delete_keys [] s cursor = omega arith
  remaining_delete_keys (k ∷ ks) s cursor = h.remaining_del k ks s cursor

  module _ (p : Str) where
    abbrev keys : ℕ → Served c → List Str
    keys cursor s = (page cursor p scan_batch_size s).0

    abbrev next : ℕ → Served c → ℕ
    next cursor s = (page cursor p scan_batch_size s).1

    -- The server after one page and the deletion of its keys.
    abbrev after : ℕ → Served c → Served c
    after cursor s = (delete_keys c (keys cursor s) (c.rdb.scan cursor p scan_batch_size s).1).1

    scan_step :
        (fuel cursor : ℕ) (s : Served c)
        → scan_loop c (suc fuel) p cursor s ≡ (
            if nat_eq (next cursor s) 0
            then some (none, after cursor s)
            else scan_loop c fuel p (next cursor s) (after cursor s))
    unfolding scan_loop
    scan_step fuel cursor s =
        let (n, deleted) =
          delete_keys_reply (keys cursor s) (c.rdb.scan cursor p scan_batch_size s).1 in
        rw (h.scan_reply cursor p scan_batch_size s) (rw deleted refl)

    stored_after :
        (cursor : ℕ) (s : Served c) (j : Str)
        → stored (after cursor s) j ≡ (if contains (keys cursor s) j then none else stored s j)
    stored_after cursor s j =
        stored_delete_keys (keys cursor s) j (c.rdb.scan cursor p scan_batch_size s).1
        ∙ ap (λ v. if contains (keys cursor s) j then none else v)
            (h.stored_scan cursor p scan_batch_size j s)

    -- What a run of the loop from a cursor leaves: the keys that do not match as they were, and no
    -- matching key that the iteration still had to return.
    abbrev pub Swept : ℕ → Served c → Served c → Type 0
    Swept cursor s s' =
        (j : Str)
        → (matches p j ≡ false → stored s' j ≡ stored s j)
          × (stored s j ≡ none → stored s' j ≡ none)
          × (matches p j ≡ true → IsDue s cursor j → stored s' j ≡ none)

    after_absent :
        (cursor : ℕ) (s : Served c) (j : Str) → stored s j ≡ none → stored (after cursor s) j ≡ none
    after_absent cursor s j e = ground (arith, stored_after cursor s j)

    after_other :
        (cursor : ℕ) (s : Served c) (j : Str)
        → matches p j ≡ false
        → stored (after cursor s) j ≡ stored s j
    after_other cursor s j e =
        ground (arith, stored_after cursor s j, h.page_matches cursor p scan_batch_size s j)

    page_returns :
        (cursor : ℕ) (s : Served c) (j : Str)
        → matches p j ≡ true
        → IsDue s cursor j
        → (stored (after cursor s) j ≡ none)
          ⊎ ((next cursor s ≢ 0) × IsDue (after cursor s) (next cursor s) j)
    page_returns cursor s j m due = elim (Option-cases (stored s j)) [
      | inl absent ↦ inl (after_absent cursor s j absent)
      | inr (v, present) ↦ elim (h.due_scan cursor p scan_batch_size s j due (λ e. cc) m) [
        | inl returned ↦ inl (ground (arith, stored_after cursor s j))
        | inr (more, later) ↦ inr (more, due_delete_keys _ _ _ j later)
      ]
    ]

    last_page : (cursor : ℕ) (s : Served c) → next cursor s ≡ 0 → Swept cursor s (after cursor s)
    last_page cursor s e j = (
      after_other cursor s j,
      after_absent cursor s j,
      λ m due. elim (page_returns cursor s j m due) [
        | inl gone ↦ gone
        | inr (more, later) ↦ absurd (more e)
      ],
    )

    more_pages :
        (cursor : ℕ) (s s' : Served c)
        → Swept (next cursor s) (after cursor s) s'
        → Swept cursor s s'
    more_pages cursor s s' rest j = (
      λ e. (rest j).0 e ∙ after_other cursor s j e,
      λ e. (rest j).1 (after_absent cursor s j e),
      λ m due. elim (page_returns cursor s j m due) [
        | inl gone ↦ (rest j).1 gone
        | inr (more, later) ↦ (rest j).2 m later
      ],
    )

    remaining_after :
        (cursor : ℕ) (s : Served c)
        → next cursor s ≢ 0
        → remaining (after cursor s) (next cursor s) < remaining s cursor
    remaining_after cursor s more = omega (
      arith,
      h.remaining_scan cursor p scan_batch_size s more,
      remaining_delete_keys (keys cursor s) (c.rdb.scan cursor p scan_batch_size s).1
          (next cursor s),
    )

    -- With fuel for the pages that remain, the loop ends without error.
    pub scan_loop-Swept :
        (fuel cursor : ℕ) (s : Served c)
        → remaining s cursor < fuel
        → (s' : Served c) × (scan_loop c fuel p cursor s ≡ some (none, s')) × Swept cursor s s'
    scan_loop-Swept zero cursor s f = absurd (omega (arith, f))
    scan_loop-Swept (suc fuel) cursor s f = elim (Bool-cases (nat_eq (next cursor s) 0)) [
      | inl last ↦ (
        after cursor s,
        scan_step fuel cursor s ∙ rw last refl,
        last_page cursor s (ground (arith, last)),
      )
      | inr more ↦
          let left = remaining_after cursor s (λ e. ground (arith, more)) in
          let (s', ends, rest) =
            scan_loop-Swept fuel (next cursor s) (after cursor s) (omega (arith, left, f)) in
          (s', scan_step fuel cursor s ∙ rw more ends, more_pages cursor s s' rest)
    ]
