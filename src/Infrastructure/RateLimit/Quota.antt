-- ===== src/Infrastructure/RateLimit/Quota.antt =====
-- How many requests of one key pass within a window.
use alert_hub.Prelude.{
  ℕ, ◌+◌, ◌-◌, ◌≤◌, ◌<◌, min, ◌≡◌, ◌∙◌, ap, Bool, false, Option, some, List, [], ◌∷◌, Text, text_eq,
  pair_eq, length, keep, All, leb, ltb, Result, ok, ◌>>=◌, Bool-cases, inl, inr, if◌then◌else◌,
  arith,
}
use alert_hub.Prelude.Dict.{Dict, lookup, lookup-insert_self}
use alert_hub.Infrastructure.RateLimit.Limiter.{
  Limiter, Bucket, RateLimitDecision, is_live, cleanup, find_bucket, current_bucket, charge, check,
}
use alert_hub.Infrastructure.RateLimit.Room.{find_bucket_hit}

lookup-keep :
    (k : Text × Text) (now : ℕ) (d : Dict (Text × Text) Bucket) (b : Bucket)
    → now < b.expires_at
    → lookup k d ≡ some b
    → lookup k (keep (is_live now) d) ≡ some b
unfolding lookup
lookup-keep k now [] b live h = cc
lookup-keep k now (e ∷ d) b live h = ground (arith, lookup-keep k now d b live)

cleanup_keeps :
    (s : Limiter) (now : ℕ) (force : Bool) (k : Text × Text) (b : Bucket)
    → now < b.expires_at
    → lookup k s.buckets ≡ some b
    → lookup k (cleanup s now force).buckets ≡ some b
unfolding cleanup
cleanup_keeps s now force k b live h = ground (arith, lookup-keep k now s.buckets b live h)

-- The bucket after a request within its window.
abbrev pub charged : Bucket → ℕ → Bucket
charged b now = record b {
  count = if ltb b.count b.limit then b.count + 1 else b.count;
  last_seen = now;
}

check-charge :
    (s : Limiter) (now : ℕ) (scope key : Text) (limit window : ℕ)
    → 1 ≤ limit
    → 1 ≤ window
    → check s now scope key limit window ≡ (
        let r = find_bucket s now scope key in
        ok (charge r.0 r.1.0 (current_bucket r.1.1 now limit window) now limit))
unfolding check
check-charge s now scope key limit window l w = ground arith

current_live :
    (b : Bucket) (now : ℕ)
    → now < b.expires_at
    → current_bucket (some b) now b.limit b.window ≡ record b { last_seen = now }
unfolding current_bucket
current_live b now live = ground arith

charge_allowed :
    (s : Limiter) (k : Text × Text) (b : Bucket) (now : ℕ)
    → (charge s k (record b { last_seen = now }) now b.limit).1.allowed ≡ ltb b.count b.limit
unfolding charge
charge_allowed s k b now = ground arith

charge_next :
    (s : Limiter) (k : Text × Text) (b : Bucket) (now : ℕ)
    → lookup k (charge s k (record b { last_seen = now }) now b.limit).0.buckets
      ≡ some (charged b now)
unfolding charge
charge_next s k b now = elim (Bool-cases (leb b.limit b.count)) [
  | inl full ↦
      rw full
        (lookup-insert_self k (record b { last_seen = now }) s.buckets ∙ ap some (ground arith))
  | inr free ↦ rw free (
      lookup-insert_self k (record b { last_seen = now; count = b.count + 1 }) s.buckets
      ∙ ap some (ground arith))
]

-- A request that finds its bucket live and on its terms passes exactly if the count is below the
-- limit, and adds one to the count then.
pub check_live :
    (s : Limiter) (now : ℕ) (scope key : Text) (b : Bucket)
    → lookup (scope, key) s.buckets ≡ some b
    → now < b.expires_at
    → 1 ≤ b.limit
    → 1 ≤ b.window
    → (s' : Limiter) × (d : RateLimitDecision) × (check s now scope key b.limit b.window
        ≡ ok (s', d))
      × (d.allowed ≡ ltb b.count b.limit)
      × (lookup (scope, key) s'.buckets ≡ some (charged b now))
check_live s now scope key b h live l w =
    let s1 = cleanup s now false in
    let k : Text × Text = (scope, key) in
    let found = find_bucket_hit s now scope key (cleanup_keeps s now false k b live h) in
    let r = charge s1 k (record b { last_seen = now }) now b.limit in
    (
      r.0,
      r.1,
      check-charge s now scope key b.limit b.window l w
          ∙ ap
              (λ (q : Limiter × ((Text × Text) × Option Bucket)).
                ok (charge q.0 q.1.0 (current_bucket q.1.1 now b.limit b.window) now b.limit))
              found
          ∙ ap (λ c. ok (charge s1 k c now b.limit)) (current_live b now live),
      charge_allowed s1 k b now,
      charge_next s1 k b now,
    )

-- The requests of one key at the given times: how many were allowed.
abbrev pub count_allowed : Bool → ℕ → ℕ
count_allowed a n = if a then n + 1 else n

unfoldable pub requests : Limiter → Text → Text → ℕ → ℕ → List ℕ → Result ℕ
requests s scope key limit window [] = ok 0
requests s scope key limit window (t ∷ ts) = check s t scope key limit window >>= λ r.
    requests r.0 scope key limit window ts >>= λ n. ok (count_allowed r.1.allowed n)

-- Of the requests on a bucket's terms that come before it expires, as many pass as the limit leaves,
-- and no more.
pub requests_quota :
    (s : Limiter) (scope key : Text) (b : Bucket) (ts : List ℕ)
    → lookup (scope, key) s.buckets ≡ some b
    → 1 ≤ b.limit
    → 1 ≤ b.window
    → All (λ t. t < b.expires_at) ts
    → requests s scope key b.limit b.window ts ≡ ok (min (length ts) (b.limit - b.count))
unfolding requests
requests_quota s scope key b [] h l w live = ground arith
requests_quota s scope key b (t ∷ ts) h l w live =
    let (s', d, checked, allowed, next) = check_live s t scope key b h live.0 l w in
    rw checked (
      rw (requests_quota s' scope key (charged b t) ts next l w live.1, allowed)
        (ap ok (ground arith)))
