-- ===== src/Infrastructure/RateLimit/Bounds.antt =====
-- The number of buckets never passes the maximum, and no bucket counts past its limit.
use alert_hub.Prelude.{
  ℕ, ◌+◌, ◌≤◌, ◌<◌, ◌≡◌, refl, sym, Bool, true, false, Option, none, some, [], ◌∷◌, Text, text_eq,
  pair_eq, length, keep, leb, ok, Option-cases, Bool-cases, inl, inr, arith,
}
use mathlib.Core.Path.{subst}
use alert_hub.Prelude.Dict.{Dict, lookup, insert, erase, length-insert_present, length-insert_le}
use alert_hub.Infrastructure.RateLimit.Limiter.{
  Limiter, Bucket, RateLimitDecision, cleanup, make_room, spill, victim, evict, evict_entry,
  find_bucket, current_bucket, charge, check, is_live, overflow_key,
}
use alert_hub.Infrastructure.RateLimit.Room.{
  HasRoom, find_bucket_hit, find_bucket_miss, find_bucket-HasRoom,
}

-- Every bucket has counted at most its limit.
abbrev pub Counted : Dict (Text × Text) Bucket → Type 0
Counted [] = Unit
Counted (e ∷ d) = (e.1.count ≤ e.1.limit) × Counted d

-- At least one key may be kept, no more are, and none has counted past its limit.
pub record IsValid (s : Limiter) : Type 0 where
  pub positive : 1 ≤ s.max_keys
  pub bounded : length s.buckets ≤ s.max_keys
  pub counted : Counted s.buckets

insert-Counted :
    (k : Text × Text) (b : Bucket) (d : Dict (Text × Text) Bucket)
    → b.count ≤ b.limit
    → Counted d
    → Counted (insert k b d)
unfolding insert
insert-Counted k b [] h c = (h, tt)
insert-Counted k b (e ∷ d) h c = ground (arith, insert-Counted k b d h c.1)

erase-Counted : (k : Text × Text) (d : Dict (Text × Text) Bucket) → Counted d → Counted (erase k d)
unfolding erase
erase-Counted k [] c = tt
erase-Counted k (e ∷ d) c = ground (arith, erase-Counted k d c.1)

keep-Counted :
    (p : (Text × Text) × Bucket → Bool) (d : Dict (Text × Text) Bucket)
    → Counted d
    → Counted (keep p d)
keep-Counted p [] c = tt
keep-Counted p (e ∷ d) c = ground (arith, keep-Counted p d c.1)

lookup-Counted :
    (k : Text × Text) (d : Dict (Text × Text) Bucket) (b : Bucket)
    → Counted d
    → lookup k d ≡ some b
    → b.count ≤ b.limit
unfolding lookup
lookup-Counted k [] b c h = cc
lookup-Counted k (e ∷ d) b c h = ground (arith, lookup-Counted k d b c.1)

cleanup-Counted :
    (s : Limiter) (now : ℕ) (force : Bool)
    → Counted s.buckets
    → Counted (cleanup s now force).buckets
unfolding cleanup
cleanup-Counted s now force c = ground (arith, keep-Counted (is_live now) s.buckets c)

make_room-Counted : (s : Limiter) (now : ℕ) → Counted s.buckets → Counted (make_room s now).buckets
unfolding make_room
make_room-Counted s now c = ground (arith, cleanup-Counted s now true c)

-- The bucket found has counted within its limit, like those that stay.
abbrev CountedBucket : Option Bucket → Type 0
CountedBucket none = Unit
CountedBucket (some b) = b.count ≤ b.limit

evict_entry-Counted :
    (s : Limiter) (o : Option ((Text × Text) × Bucket))
    → Counted s.buckets
    → Counted (evict_entry s o).buckets
evict_entry-Counted s none c = c
evict_entry-Counted s (some e) c = erase-Counted e.0 s.buckets c

evict-Counted : (s : Limiter) → Counted s.buckets → Counted (evict s).buckets
evict-Counted s c = evict_entry-Counted s (victim s.buckets) c

spill-Counted :
    (s : Limiter) (scope key : Text)
    → Counted s.buckets
    → let (s', (k, b)) = spill s scope key in Counted s'.buckets × CountedBucket b
unfolding spill
spill-Counted s scope key c = elim (Bool-cases (leb s.max_keys (length s.buckets))) [
  | inr free ↦ rw free (c, tt)
  | inl full ↦ elim (Option-cases (lookup (overflow_key scope) s.buckets)) [
    | inl missing ↦ rw (full, missing) (evict-Counted s c, tt)
    | inr (b, found) ↦ rw (full, found) (c, lookup-Counted (overflow_key scope) s.buckets b c found)
  ]
]

find_bucket-Counted :
    (s : Limiter) (now : ℕ) (scope key : Text)
    → Counted s.buckets
    → let (s', (k, b)) = find_bucket s now scope key in Counted s'.buckets × CountedBucket b
find_bucket-Counted s now scope key c =
    let c1 = cleanup-Counted s now false c in
    elim (Option-cases (lookup (scope, key) (cleanup s now false).buckets)) [
      | inr (b, found) ↦
          subst
            (λ (r : Limiter × ((Text × Text) × Option Bucket)).
              Counted r.0.buckets × CountedBucket r.1.1)
            (sym (find_bucket_hit s now scope key found))
            (c1, lookup-Counted (scope, key) (cleanup s now false).buckets b c1 found)
      | inl missing ↦
          subst
            (λ (r : Limiter × ((Text × Text) × Option Bucket)).
              Counted r.0.buckets × CountedBucket r.1.1)
            (sym (find_bucket_miss s now scope key missing))
            (spill-Counted (make_room (cleanup s now false) now) scope key
              (make_room-Counted (cleanup s now false) now c1))
    ]

current_bucket_facts :
    (b : Option Bucket) (now limit window : ℕ)
    → CountedBucket b
    → let c = current_bucket b now limit window in
      (c.count ≤ limit) × (c.limit ≡ limit) × (c.window ≡ window) × (now < c.expires_at + 1)
unfolding current_bucket
current_bucket_facts none now limit window h = ground arith
current_bucket_facts (some b) now limit window h = ground arith

insert-HasRoom :
    (top : ℕ) (s : Limiter) (k : Text × Text) (o : Option Bucket) (c : Bucket)
    → HasRoom top s k o
    → (length (insert k c s.buckets) ≤ top) × (s.max_keys ≡ top)
insert-HasRoom top s k none c h = (omega (arith, length-insert_le k c s.buckets), h.1)
insert-HasRoom top s k (some b) c h = (omega (arith, length-insert_present k c s.buckets h.0), h.2)

charge-IsValid :
    (top : ℕ) (s : Limiter) (k : Text × Text) (c : Bucket) (now limit : ℕ)
    → 1 ≤ top
    → ((d : Bucket) → (length (insert k d s.buckets) ≤ top) × (s.max_keys ≡ top))
    → Counted s.buckets
    → c.count ≤ limit
    → c.limit ≡ limit
    → IsValid (charge s k c now limit).0
unfolding charge
charge-IsValid top s k c now limit h room counts le eq = elim (Bool-cases (leb limit c.count)) [
  | inl full ↦ rw full (record {
    positive = omega (arith, (room c).1);
    bounded = omega (arith, (room c).0, (room c).1);
    counted = insert-Counted k c s.buckets (omega arith) counts;
  })
  | inr free ↦
      let c' : Bucket = record c { count = c.count + 1 } in
      rw free (record {
        positive = omega (arith, (room c').1);
        bounded = omega (arith, (room c').0, (room c').1);
        counted = insert-Counted k c' s.buckets (ground arith) counts;
      })
]

-- A check of a valid limiter leaves it valid: the table stays within the maximum, whatever keys are
-- asked for, and no bucket counts past its limit.
pub check-IsValid :
    (s s' : Limiter) (now limit window : ℕ) (scope key : Text) (d : RateLimitDecision)
    → IsValid s
    → check s now scope key limit window ≡ ok (s', d)
    → IsValid s'
unfolding check
check-IsValid s s' now limit window scope key d v h =
    let r = find_bucket s now scope key in
    let counts = find_bucket-Counted s now scope key v.counted in
    let facts = current_bucket_facts r.1.1 now limit window counts.1 in
    let room = find_bucket-HasRoom s.max_keys s now scope key v.positive v.bounded refl in
    subst IsValid (ground arith) (
      charge-IsValid s.max_keys r.0 r.1.0 (current_bucket r.1.1 now limit window) now limit
        v.positive (λ c. insert-HasRoom s.max_keys r.0 r.1.0 r.1.1 c room) counts.0 facts.0 facts.1)
