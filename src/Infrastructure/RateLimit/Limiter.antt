-- ===== src/Infrastructure/RateLimit/Limiter.antt =====
-- `LocalRateLimiter`. Readings of the monotonic clock and windows are in microseconds; a limit or a
-- window below one is 0. A call runs under the lock from its first read to its return.
use alert_hub.Prelude.{
  ℕ, ◌+◌, ◌-◌, ◌/◌, max, Bool, true, false, not, ◌&&◌, ◌||◌, Option, none, some, [], ◌∷◌, Text,
  codes, nat_eq, text_eq, pair_eq, nat_beq, length, keep, leb, ltb, Result, ok, value_error, ◌>>◌,
  raise_if, if◌then◌else◌,
}
use alert_hub.Prelude.Dict.{Dict, lookup, insert, erase}
use alert_hub.Prelude.Order.{Order, nat_order, text_order, pair_order}

pub record RateLimitDecision : Type 0 where
  pub allowed : Bool
  pub retry_after : ℕ
  pub remaining : ℕ

pub record Bucket : Type 0 where
  pub count : ℕ
  pub expires_at : ℕ
  pub last_seen : ℕ
  pub limit : ℕ
  pub window : ℕ

pub record Limiter : Type 0 where
  pub max_keys : ℕ
  pub cleanup_interval : ℕ
  pub buckets : Dict (Text × Text) Bucket
  pub last_cleanup : ℕ

unfoldable pub new_limiter : ℕ → ℕ → ℕ → Result Limiter
new_limiter max_keys cleanup_interval now = do
  raise_if (ltb max_keys 1) value_error
  raise_if (leb cleanup_interval 0) value_error
  ok (record {
    max_keys = max_keys;
    cleanup_interval = cleanup_interval;
    buckets = [];
    last_cleanup = now;
  })

abbrev pub is_live : ℕ → (Text × Text) × Bucket → Bool
is_live now e = not (leb e.1.expires_at now)

-- `_cleanup`
unfoldable pub cleanup : Limiter → ℕ → Bool → Limiter
cleanup s now force =
    if not force && ltb now (s.last_cleanup + s.cleanup_interval)
    then s
    else record s { buckets = keep (is_live now) s.buckets; last_cleanup = now }

unfoldable pub size : Limiter → ℕ
size s = length s.buckets

-- `cleanup`, which the tests of the source call, with what it returns.
unfoldable pub forced_cleanup : Limiter → ℕ → Limiter × ℕ
unfolding cleanup size
forced_cleanup s now = let s' = cleanup s now true in (s', size s')

-- `(bucket.last_seen, candidate[0], candidate[1])`
abbrev pub age_key : (Text × Text) × Bucket → ℕ × (Text × Text)
age_key e = (e.1.last_seen, e.0)

abbrev pub age_order : Order (ℕ × (Text × Text))
age_order = pair_order nat_order (pair_order text_order text_order)

-- `min(self._buckets, key=...)`, with its bucket: the first of the least.
unfoldable pub victim : Dict (Text × Text) Bucket → Option ((Text × Text) × Bucket)
victim [] = none
victim (e ∷ d) = elim (victim d) [
  | none ↦ some e
  | some f ↦ if age_order.le (age_key e) (age_key f) then some e else some f
]

abbrev pub overflow_key : Text → Text × Text
overflow_key scope = (scope, codes "<overflow>")

-- `del self._buckets[victim]`
abbrev pub evict_entry : Limiter → Option ((Text × Text) × Bucket) → Limiter
evict_entry s none = s
evict_entry s (some e) = record s { buckets = erase e.0 s.buckets }

abbrev pub evict : Limiter → Limiter
evict s = evict_entry s (victim s.buckets)

-- At capacity the expired keys go, whenever the last cleanup was.
unfoldable pub make_room : Limiter → ℕ → Limiter
make_room s now = if leb s.max_keys (length s.buckets) then cleanup s now true else s

-- A new key at capacity shares the overflow bucket of its scope, which takes the victim's place.
unfoldable pub spill : Limiter → Text → Text → Limiter × ((Text × Text) × Option Bucket)
spill s scope key =
    if leb s.max_keys (length s.buckets)
    then elim (lookup (overflow_key scope) s.buckets) [
      | some b ↦ (s, (overflow_key scope, some b))
      | none ↦ (evict s, (overflow_key scope, none))
    ]
    else (s, ((scope, key), none))

-- The key whose bucket is charged, its bucket, and the limiter with room for it.
unfoldable pub find_bucket : Limiter → ℕ → Text → Text → Limiter × ((Text × Text) × Option Bucket)
find_bucket s now scope key =
    let s1 = cleanup s now false in
    elim (lookup (scope, key) s1.buckets) [
      | some b ↦ (s1, ((scope, key), some b))
      | none ↦ spill (make_room s1 now) scope key
    ]

abbrev pub fresh_bucket : ℕ → ℕ → ℕ → Bucket
fresh_bucket now limit window = record {
  count = 0;
  expires_at = now + window;
  last_seen = now;
  limit = limit;
  window = window;
}

-- The bucket of this window: the old one, or a new one where it is missing, over or of other terms.
unfoldable pub current_bucket : Option Bucket → ℕ → ℕ → ℕ → Bucket
current_bucket none now limit window = fresh_bucket now limit window
current_bucket (some b) now limit window =
    if leb b.expires_at now || not (nat_beq b.limit limit) || not (nat_beq b.window window)
    then fresh_bucket now limit window
    else record b { last_seen = now }

-- `max(1, math.ceil(bucket.expires_at - now))`, in seconds.
abbrev pub retry_seconds : ℕ → ℕ
retry_seconds left = max 1 ((left + 999999) / 1000000)

-- The last four statements of `check`.
unfoldable pub charge : Limiter → Text × Text → Bucket → ℕ → ℕ → Limiter × RateLimitDecision
charge s k b now limit =
    if leb limit b.count
    then (
      record s { buckets = insert k b s.buckets },
      record { allowed = false; retry_after = retry_seconds (b.expires_at - now); remaining = 0 },
    )
    else (
      record s { buckets = insert k (record b { count = b.count + 1 }) s.buckets },
      record { allowed = true; retry_after = 0; remaining = limit - (b.count + 1) },
    )

unfoldable pub check : Limiter → ℕ → Text → Text → ℕ → ℕ → Result (Limiter × RateLimitDecision)
check s now scope key limit window = do
  raise_if (ltb limit 1 || leb window 0) value_error
  ok (
      let (s', (k, b)) = find_bucket s now scope key in
      charge s' k (current_bucket b now limit window) now limit)
