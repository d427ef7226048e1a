-- ===== src/Redis/Server.antt =====
-- helios_permissions/redis_cache.go: what the cache relies on in a Redis server that answers every
-- command, and in encoding/json, as Redis and Go document them.
use helios_permission_golang.Prelude.{
  ℕ, ◌≤◌, ◌<◌, Str, Bool, true, if◌then◌else◌, Option, none, some, List, [], ◌∷◌, ◌++◌, pos, bytes,
  ◌==◌, Without, contains, ◌≡◌, ◌≢◌, ◌↔◌, ◌⊎◌,
}
use helios_permission_golang.Permission.{Permission}
use helios_permission_golang.Redis.{done, RedisClient}

-- The text has none of the bytes that a pattern gives a meaning: * ? [ ] \
abbrev pub IsLiteral : Str → Type 0
IsLiteral s = Without b'*' s × Without b'?' s × Without b'[' s × Without b']' s × Without b'\\' s

-- SET NX leaves a value that is there.
abbrev pub kept : Option Str → Str → Str
kept none v = v
kept (some w) v = w

-- The commands on a key space of strings, with no expiry where the duration is 0. DEL takes at
-- least one key; nothing is said of a DEL without keys, which Redis refuses. A full iteration
-- of SCAN returns each matching key that is there from its start to its end: `IsDue s cursor k`
-- says that the iteration at the cursor still has to return the key `k`, and `remaining` bounds the
-- pages it still takes.
pub record IsServer (R : RedisClient) : Type 1 where
  pub stored : R.Server → Str → Option Str
  pub get_reply : (k : Str) (s : R.Server) → (R.get k s).0 ≡ done (stored s k)
  pub stored_get : (k j : Str) (s : R.Server) → stored (R.get k s).1 j ≡ stored s j
  pub set_nx_reply : (k v : Str) (s : R.Server) → (b : Bool) × ((R.set_nx k v (pos 0) s).0 ≡ done b)
  pub stored_set_nx :
      (k v j : Str) (s : R.Server)
      → stored (R.set_nx k v (pos 0) s).1 j
        ≡ (if k == j then some (kept (stored s j) v) else stored s j)
  pub set_reply : (k v : Str) (s : R.Server) → (R.set k v (pos 0) s).0 ≡ none
  pub stored_set :
      (k v j : Str) (s : R.Server)
      → stored (R.set k v (pos 0) s).1 j ≡ (if k == j then some v else stored s j)
  pub del_reply :
      (k : Str) (ks : List Str) (s : R.Server) → (n : ℕ) × ((R.del (k ∷ ks) s).0 ≡ done n)
  pub stored_del :
      (k : Str) (ks : List Str) (j : Str) (s : R.Server)
      → stored (R.del (k ∷ ks) s).1 j ≡ (if contains (k ∷ ks) j then none else stored s j)
  pub page : ℕ → Str → ℕ → R.Server → List Str × ℕ
  pub scan_reply :
      (cursor : ℕ) (p : Str) (n : ℕ) (s : R.Server)
      → (R.scan cursor p n s).0 ≡ done (page cursor p n s)
  pub stored_scan :
      (cursor : ℕ) (p : Str) (n : ℕ) (j : Str) (s : R.Server)
      → stored (R.scan cursor p n s).1 j ≡ stored s j
  pub matches : Str → Str → Bool
  pub matches_star :
      (p q k : Str)
      → IsLiteral p
      → IsLiteral q
      → (matches (p ++ (bytes "*" ++ q)) k ≡ true) ↔ ((m : Str) × (k ≡ p ++ (m ++ q)))
  pub page_matches :
      (cursor : ℕ) (p : Str) (n : ℕ) (s : R.Server) (k : Str)
      → contains (page cursor p n s).0 k ≡ true
      → matches p k ≡ true
  pub IsDue : R.Server → ℕ → Str → Type 0
  pub due_at_start : (s : R.Server) (k : Str) → IsDue s 0 k
  pub due_scan :
      (cursor : ℕ) (p : Str) (n : ℕ) (s : R.Server) (k : Str)
      → IsDue s cursor k
      → stored s k ≢ none
      → matches p k ≡ true
      → (contains (page cursor p n s).0 k ≡ true)
        ⊎ (((page cursor p n s).1 ≢ 0) × IsDue (R.scan cursor p n s).1 (page cursor p n s).1 k)
  pub due_del :
      (k : Str) (ks : List Str) (s : R.Server) (cursor : ℕ) (j : Str)
      → IsDue s cursor j
      → IsDue (R.del (k ∷ ks) s).1 cursor j
  pub remaining : R.Server → ℕ → ℕ
  pub remaining_scan :
      (cursor : ℕ) (p : Str) (n : ℕ) (s : R.Server)
      → (page cursor p n s).1 ≢ 0
      → remaining (R.scan cursor p n s).1 (page cursor p n s).1 < remaining s cursor
  pub remaining_del :
      (k : Str) (ks : List Str) (s : R.Server) (cursor : ℕ)
      → remaining (R.del (k ∷ ks) s).1 cursor ≤ remaining s cursor

abbrev pub IsAscii : Str → Type 0
IsAscii [] = Unit
IsAscii (x ∷ s) = (x < 128) × IsAscii s

abbrev pub AreAscii : List Permission → Type 0
AreAscii [] = Unit
AreAscii (p ∷ ps) = IsAscii p × AreAscii ps

-- `json.Marshal` and `json.Unmarshal` on lists of ASCII texts, and on nil.
pub record IsCodec (R : RedisClient) : Type 0 where
  pub round_trip :
      (ps : List Permission)
      → AreAscii ps
      → (raw : Str) × (R.marshal (some ps) ≡ done raw) × (R.unmarshal raw ≡ done (some ps))
  pub nil_round_trip : (raw : Str) × (R.marshal none ≡ done raw) × (R.unmarshal raw ≡ done none)
