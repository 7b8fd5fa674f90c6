-- ===== src/Infrastructure/Tests.antt =====
-- The theorems of the infrastructure layer at concrete inputs.
use alert_hub.Prelude.{
  ◌≡◌, ◌-◌, refl, true, some, [], ◌∷◌, codes, text_eq, pair_eq, text_beq, ok, arith, min,
}
use alert_hub.Prelude.Dict.{lookup, insert, erase}
use alert_hub.Infrastructure.RateLimit.Limiter.{
  Bucket, Limiter, RateLimitDecision, check, cleanup, find_bucket, current_bucket, charge,
  make_room, spill, victim,
}
use alert_hub.Infrastructure.RateLimit.Bounds.{IsValid, check-IsValid}
use alert_hub.Infrastructure.RateLimit.Quota.{requests, requests_quota}

abbrev bucket : Bucket
bucket = record { count = 1; expires_at = 100; last_seen = 5; limit = 2; window = 60 }

abbrev limiter : Limiter
limiter = record {
  max_keys = 1;
  cleanup_interval = 30;
  buckets = ((codes "login", codes "ip"), bucket) ∷ [];
  last_cleanup = 0;
}

limiter-IsValid : IsValid limiter
limiter-IsValid = record { positive = omega arith; bounded = omega arith; counted = ground arith }

-- A new key at capacity goes to the overflow bucket, in the place of the old one.
abbrev spilled : Limiter
spilled = record limiter {
  buckets =
      (
        (codes "login", codes "<overflow>"),
        record { count = 1; expires_at = 70; last_seen = 10; limit = 2; window = 60 },
      )
      ∷ [];
  last_cleanup = 10;
}

abbrev passed : RateLimitDecision
passed = record { allowed = true; retry_after = 0; remaining = 1 }

spills : check limiter 10 (codes "login") (codes "other") 2 60 ≡ ok (spilled, passed)
unfolding check charge current_bucket find_bucket lookup cleanup text_beq spill make_room victim
    insert erase
spills = refl

check-IsValid_example : IsValid spilled
check-IsValid_example =
    check-IsValid limiter spilled 10 2 60 (codes "login") (codes "other") passed limiter-IsValid
      spills

found : lookup (codes "login", codes "ip") limiter.buckets ≡ some bucket
unfolding lookup text_beq
found = refl

requests_quota_example :
    requests limiter (codes "login") (codes "ip") 2 60 (10 ∷ 20 ∷ 30 ∷ []) ≡ ok (min 3 (2 - 1))
requests_quota_example =
    requests_quota limiter (codes "login") (codes "ip") bucket (10 ∷ 20 ∷ 30 ∷ []) found
      (omega arith) (omega arith) (omega arith, (omega arith, (omega arith, tt)))
