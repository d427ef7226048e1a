-- ===== src/Helios/Laws.antt =====
-- helios_permissions/client.go: the outcomes of `FetchUserPermissions` and of the constructor.
use helios_permission_golang.Prelude.{
  ℕ, zero, suc, ap, ◌∷◌, ◌≤◌, ◌<◌, Str, Option, none, some, [], ◌≡◌, ◌↔◌, ◌⊎◌, inl, inr, refl,
  arith, len, take,
}
use helios_permission_golang.Errors.{}
use helios_permission_golang.Helios.{
  Env, Response, Reply, failed, response, MembershipResolution, decoded, read_limited, body_limit,
  not_a_member, parse_body, by_status, resolve,
}

-- No byte of the body up to the limit is missing.
abbrev pub IsWhole : ℕ → Response → Type 0
IsWhole n r = (n ≤ len r.body) ⊎ (r.broken ≡ none)

take_of_len-le : (n : ℕ) (s : Str) → len s ≤ n → take n s ≡ s
take_of_len-le zero [] h = refl
take_of_len-le zero (x ∷ s) h = absurd (omega arith)
take_of_len-le (suc n) [] h = refl
take_of_len-le (suc n) (x ∷ s) h = ap (◌∷◌ x) (take_of_len-le n s (omega arith))

-- What is read is a part of the body of at most `n` bytes, and an error means that it broke off.
read_whole : (n : ℕ) (r : Response) → IsWhole n r → read_limited n r ≡ (take n r.body, none)
unfolding read_limited
read_whole n r h = ground (arith, take_of_len-le n r.body)

read_broken :
    (n : ℕ) (r : Response) {s : Str}
    → read_limited n r ≡ (s, none)
    → IsWhole n r × (s ≡ take n r.body)
unfolding read_limited
read_broken n r e = ground (arith, take_of_len-le n r.body)

module _ (E : Env) where
  -- The replies that the package takes for an answer.
  pub data Answers : Reply → MembershipResolution → Type 0 where
    missing :
        {r : Response} {m : MembershipResolution}
        → r.status_code ≡ 404
        → m ≡ not_a_member
        → Answers (response r) m
    success :
        {r : Response} {m : MembershipResolution}
        → 200 ≤ r.status_code
        → r.status_code < 300
        → IsWhole body_limit r
        → E.unmarshal (take body_limit r.body) ≡ decoded m
        → Answers (response r) m

  parse_body-decoded :
      (status : ℕ) (read : Str × Option Str) (m : MembershipResolution)
      → parse_body E status read ≡ (some m, none)
      → (read.1 ≡ none) × (E.unmarshal read.0 ≡ decoded m)
  unfolding parse_body
  parse_body-decoded status (body, some err) m e = absurd (ground arith)
  parse_body-decoded status (body, none) m e = ground arith

  by_status-decoded :
      (status : ℕ) (excerpt whole : Str × Option Str) (m : MembershipResolution)
      → by_status E status excerpt whole ≡ (some m, none)
      → ((status ≡ 404) × (m ≡ not_a_member))
        ⊎ ((200 ≤ status) × (status < 300) × (whole.1 ≡ none) × (E.unmarshal whole.0 ≡ decoded m))
  unfolding by_status
  by_status-decoded status excerpt (body, some err) m e = ground arith
  by_status-decoded status excerpt (body, none) m e = ground arith

  resolve-Answers :
      (reply : Reply) (m : MembershipResolution)
      → resolve E reply ≡ (some m, none)
      → Answers reply m
  unfolding resolve
  resolve-Answers (failed err) m e = absurd (ground arith)
  resolve-Answers (response r) m e =
      elim (by_status-decoded r.status_code (read_limited 4096 r) (read_limited body_limit r) m e) [
        | inl (gone, same) ↦ missing gone same
        | inr (low, high, sound, parsed) ↦
            let read = read_limited body_limit r in
            let (whole, text) =
              read_broken body_limit r {s = read.0} (ap (λ b. (read.0, b)) sound) in
            success low high whole (rw (← text) parsed)
      ]

  by_status-404 :
      (status : ℕ) (excerpt whole : Str × Option Str)
      → status ≡ 404
      → by_status E status excerpt whole ≡ (some not_a_member, none)
  unfolding by_status
  by_status-404 status excerpt whole e = rw e

  by_status-2xx :
      (status : ℕ) (excerpt : Str × Option Str) (body : Str) (m : MembershipResolution)
      → 200 ≤ status
      → status < 300
      → E.unmarshal body ≡ decoded m
      → by_status E status excerpt (body, none) ≡ (some m, none)
  unfolding by_status
  by_status-2xx status excerpt body m low high e = ground arith

  Answers-resolve :
      (reply : Reply) (m : MembershipResolution)
      → Answers reply m
      → resolve E reply ≡ (some m, none)
  unfolding resolve
  Answers-resolve _ m (missing {r} gone same) = rw (same, by_status-404, gone)
  Answers-resolve _ m (success {r} low high whole parsed) =
      rw (read_whole body_limit r whole) (by_status-2xx _ (read_limited 4096 r) _ m low high parsed)

  -- A reply yields a resolution and no error exactly when its status is 404, and then "not_a_member"
  -- whatever the body, or its status is 2xx, no byte of the first MiB of its body is missing, and
  -- these bytes decode to the resolution.
  pub resolve_iff :
      (reply : Reply) (m : MembershipResolution)
      → (resolve E reply ≡ (some m, none)) ↔ Answers reply m
  resolve_iff reply m = (resolve-Answers reply m, Answers-resolve reply m)
