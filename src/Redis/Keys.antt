-- ===== src/Redis/Keys.antt =====
-- helios_permissions/redis_cache.go: `key` and `tenantPattern`.
use helios_permission_golang.Prelude.{
  Str, ◌&&◌, true, ◌↔◌, ap, ◌∙◌, ◌++◌, ◌≡◌, refl, arith, bytes, ◌==◌, ==_iff, ==-prefix,
  append_cancel, Bool-eq_of_iff,
}
use helios_permission_golang.Memory.{mem_key}
use helios_permission_golang.Memory.Keys.{IsPlain, split_unique, mem_key-eq}
use helios_permission_golang.Redis.{RedisPermissionCache, key, tenant_pattern}
use helios_permission_golang.Redis.Server.{IsServer, IsLiteral}

module _ (c : RedisPermissionCache) where
  -- The two caches agree on the rest of a key after its prefix.
  key-mem_key : (u t : Str) → key c u t ≡ c.key_prefix ++ mem_key u t
  unfolding key mem_key
  key-mem_key u t = refl

  pub key-eq :
      (u v t w : Str) → IsPlain t → IsPlain w → (key c u t == key c v w) ≡ (u == v && t == w)
  key-eq u v t w p q =
      ap (λ k. k == key c v w) (key-mem_key u t)
      ∙ ap (λ k. c.key_prefix ++ mem_key u t == k) (key-mem_key v w)
      ∙ ==-prefix c.key_prefix (mem_key u t) (mem_key v w)
      ∙ mem_key-eq u v t w p q

  module _ (h : IsServer c.rdb) (u w t : Str) where
    IsLiteral-suffix : IsLiteral t → IsLiteral (bytes ":" ++ t)
    unfolding bytes
    IsLiteral-suffix m = ground arith

    -- What the pattern of a tenant matches, by its documented meaning.
    matches_iff :
        IsLiteral c.key_prefix
        → IsLiteral t
        → (h.matches (tenant_pattern c t) (key c u w) ≡ true)
          ↔ ((m : Str) × (key c u w ≡ c.key_prefix ++ (m ++ (bytes ":" ++ t))))
    unfolding tenant_pattern bytes
    matches_iff l m =
        h.matches_star c.key_prefix (bytes ":" ++ t) (key c u w) l (IsLiteral-suffix m)

    -- For plain tenants whose text a pattern reads literally, the pattern of a tenant matches a
    -- key exactly when it is a key of that tenant.
    pub matches-key :
        IsPlain w
        → IsPlain t
        → IsLiteral c.key_prefix
        → IsLiteral t
        → h.matches (tenant_pattern c t) (key c u w) ≡ (w == t)
    unfolding key bytes
    matches-key p q l m =
        Bool-eq_of_iff _ _
          (λ e.
            let (v, found) = (matches_iff l m).0 e in
            (==_iff w t).1 (split_unique u v w t p q (append_cancel c.key_prefix _ _ found)).1)
          (λ e. (matches_iff l m).1 (u, rw ((==_iff w t).0 e) refl))
