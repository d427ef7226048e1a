-- ===== src/Tests/Server.antt =====
-- A Redis server in memory, for the tests: SCAN answers with an empty page and then with all keys
-- that match, and lists of texts are stored as bytes one higher, each ended by a zero.
use helios_permission_golang.Prelude.{
  ℕ, zero, suc, ◌<◌, Str, Bool, true, false, if◌then◌else◌, Option, none, some, List, [], ◌∷◌, ◌++◌,
  Table, lookup, insert, delete_where, lookup-insert, lookup-delete_where, contains, bytes, nat_eq,
  ◌==◌, ==_iff, ◌≡◌, ◌≢◌, ◌↔◌, ◌⊎◌, inl, inr, refl, ap, ◌∙◌, arith,
}
use helios_permission_golang.Cache.{Slice}
use helios_permission_golang.Memory.{ends_with}
use helios_permission_golang.Memory.Keys.{ends_with_iff}
use helios_permission_golang.Redis.{Fallible, failed, done, RedisClient}
use helios_permission_golang.Redis.Server.{IsServer, IsCodec, IsLiteral, kept}

-- A pattern with one star.
unfoldable pub matches : Str → Str → Bool
matches [] k = k == []
matches (x ∷ p) [] = if nat_eq x b'*' then ends_with [] p else false
matches (x ∷ p) (y ∷ k) =
    let rest = matches p k in
    if nat_eq x b'*' then ends_with (y ∷ k) p else if nat_eq x y then rest else false

unfoldable pub matching : Str → Table Str → List Str
matching p [] = []
matching p ((k, v) ∷ s) = let rest = matching p s in if matches p k then k ∷ rest else rest

abbrev pub page : ℕ → Str → ℕ → Table Str → List Str × ℕ
page zero p n s = ([], 1)
page (suc cursor) p n s = (matching p s, 0)

abbrev put_nx : Str → Str → Table Str → Option Str → Fallible Bool × Table Str
put_nx k v s none = (done true, insert k v s)
put_nx k v s (some w) = (done false, s)

unfoldable pub encode : Str → Str → Str
encode [] rest = 0 ∷ rest
encode (x ∷ p) rest = suc x ∷ encode p rest

unfoldable pub encode_all : List Str → Str
encode_all [] = []
encode_all (p ∷ ps) = encode p (encode_all ps)

abbrev push : ℕ → List Str → List Str
push x [] = (x ∷ []) ∷ []
push x (p ∷ ps) = (x ∷ p) ∷ ps

unfoldable pub decode_all : Str → List Str
decode_all [] = []
decode_all (zero ∷ s) = [] ∷ decode_all s
decode_all (suc x ∷ s) = push x (decode_all s)

abbrev pub marshal : Slice → Fallible Str
marshal none = done []
marshal (some ps) = done (1 ∷ encode_all ps)

abbrev pub unmarshal : Str → Fallible Slice
unmarshal [] = done none
unmarshal (zero ∷ s) = failed (bytes "invalid character")
unmarshal (suc x ∷ s) = done (some (decode_all s))

-- DEL wants a key.
abbrev del : List Str → Table Str → Fallible ℕ × Table Str
del [] s = (failed (bytes "ERR wrong number of arguments for 'del' command"), s)
del (k ∷ ks) s = (done 1, delete_where (contains (k ∷ ks)) s)

abbrev pub server : RedisClient
server = record {
  Server = Table Str;
  get = λ k s. (done (lookup k s), s);
  set_nx = λ k v expiry s. put_nx k v s (lookup k s);
  set = λ k v expiry s. (none, insert k v s);
  del = del;
  scan = λ cursor p n s. (done (page cursor p n s), s);
  marshal = marshal;
  unmarshal = unmarshal;
}

decode_all-encode : (p rest : Str) → decode_all (encode p rest) ≡ p ∷ decode_all rest
unfolding decode_all encode
decode_all-encode [] rest = refl
decode_all-encode (x ∷ p) rest = rw (decode_all-encode p rest) refl

decode_all-encode_all : (ps : List Str) → decode_all (encode_all ps) ≡ ps
unfolding encode_all
decode_all-encode_all [] = unfold decode_all in refl
decode_all-encode_all (p ∷ ps) =
    decode_all-encode p (encode_all ps) ∙ ap (◌∷◌ p) (decode_all-encode_all ps)

pub server-IsCodec : IsCodec server
server-IsCodec = record {
  round_trip =
      λ ps ascii. (1 ∷ encode_all ps, refl, ap (λ qs. done (some qs)) (decode_all-encode_all ps));
  nil_round_trip = ([], refl, refl);
}

star-ends_with : (q k : Str) → matches (b'*' ∷ q) k ≡ ends_with k q
unfolding matches
star-ends_with q [] = refl
star-ends_with q (y ∷ k) = refl

Before : Str → Str → Str → Type 0
Before p q k = (m : Str) × (k ≡ p ++ (m ++ q))

head-match :
    (x y : ℕ) (p k : Str)
    → x ≢ b'*'
    → (matches (x ∷ p) (y ∷ k) ≡ true) ↔ ((x ≡ y) × (matches p k ≡ true))
unfolding matches
head-match x y p k ne = (λ e. (ground arith, ground arith), λ (same, e). ground arith)

matches-star : (p q k : Str) → IsLiteral p → (matches (p ++ b'*' ∷ q) k ≡ true) ↔ Before p q k
unfolding Before matches
matches-star [] q k l = rw (star-ends_with q k) (ends_with_iff k q)
matches-star (x ∷ p) q [] l =
    let ne : x ≢ b'*' = l.0.0 in (λ e. absurd (ground arith), λ (m, e). cc)
matches-star (x ∷ p) q (y ∷ k) l =
    let rest = matches-star p q k (l.0.1, l.1.1, l.2.1, l.3.1, l.4.1) in
    let head = head-match x y (p ++ b'*' ∷ q) k l.0.0 in
    (
      λ e. let (same, tail) = head.0 e in let (m, found) = rest.0 tail in (m, ground arith),
      λ (m, e). head.1 (ground arith, rest.1 (m, ground arith)),
    )

stored-put_nx :
    (k v j : Str) (s : Table Str) (o : Option Str)
    → lookup k s ≡ o
    → lookup j (put_nx k v s o).1 ≡ (if k == j then some (kept (lookup j s) v) else lookup j s)
stored-put_nx k v j s none e = grind (arith, lookup-insert k j v s, ==_iff k j)
stored-put_nx k v j s (some w) e = grind (arith, ==_iff k j)

matching-matches :
    (p : Str) (s : Table Str) (k : Str) → contains (matching p s) k ≡ true → matches p k ≡ true
unfolding matching contains
matching-matches p [] k e = cc
matching-matches p ((j, v) ∷ s) k e = ground (arith, matching-matches p s k, ==_iff j k)

matching-all :
    (p : Str) (s : Table Str) (k : Str)
    → lookup k s ≢ none
    → matches p k ≡ true
    → contains (matching p s) k ≡ true
unfolding matching contains lookup
matching-all p [] k present m = absurd (present refl)
matching-all p ((j, v) ∷ s) k present m = ground (arith, matching-all p s k, ==_iff j k)

abbrev pub remaining : ℕ → ℕ
remaining zero = 1
remaining (suc cursor) = 0

page-matches :
    (cursor : ℕ) (p : Str) (n : ℕ) (s : Table Str) (k : Str)
    → contains (page cursor p n s).0 k ≡ true
    → matches p k ≡ true
page-matches zero p n s k e = unfold contains in cc
page-matches (suc cursor) p n s k e = matching-matches p s k e

page-all :
    (cursor : ℕ) (p : Str) (n : ℕ) (s : Table Str) (k : Str)
    → lookup k s ≢ none
    → matches p k ≡ true
    → (contains (page cursor p n s).0 k ≡ true) ⊎ (((page cursor p n s).1 ≢ 0) × Unit {0})
page-all zero p n s k present m = inr (λ e. omega (arith, e), tt)
page-all (suc cursor) p n s k present m = inl (matching-all p s k present m)

put_nx_reply :
    (k v : Str) (s : Table Str) (o : Option Str) → (b : Bool) × ((put_nx k v s o).0 ≡ done b)
put_nx_reply k v s none = (true, refl)
put_nx_reply k v s (some w) = (false, refl)

page-remaining :
    (cursor : ℕ) (p : Str) (n : ℕ) (s : Table Str)
    → (page cursor p n s).1 ≢ 0
    → remaining (page cursor p n s).1 < remaining cursor
page-remaining zero p n s more = omega arith
page-remaining (suc cursor) p n s more = absurd (more refl)

pub server-IsServer : IsServer server
server-IsServer = record {
  stored = λ s k. lookup k s;
  get_reply = λ k s. refl;
  stored_get = λ k j s. refl;
  set_nx_reply = λ k v s. put_nx_reply k v s (lookup k s);
  stored_set_nx = λ k v j s. stored-put_nx k v j s (lookup k s) refl;
  set_reply = λ k v s. refl;
  stored_set = λ k v j s. lookup-insert k j v s;
  del_reply = λ k ks s. (1, refl);
  stored_del = λ k ks j s. lookup-delete_where (contains (k ∷ ks)) j s;
  page = page;
  scan_reply = λ cursor p n s. refl;
  stored_scan = λ cursor p n j s. refl;
  matches = matches;
  matches_star = λ p q k l m. unfold bytes Before in matches-star p q k l;
  page_matches = page-matches;
  IsDue = λ s cursor k. Unit;
  due_at_start = λ s k. tt;
  due_scan = λ cursor p n s k due. page-all cursor p n s k;
  due_del = λ k ks s cursor j due. tt;
  remaining = λ s cursor. remaining cursor;
  remaining_scan = page-remaining;
  remaining_del = λ k ks s cursor. omega arith;
}

-- A sweep takes two pages.
pub server_pages : (s : Table Str) → server-IsServer.remaining s 0 < 2
unfolding server-IsServer
server_pages s = omega arith
