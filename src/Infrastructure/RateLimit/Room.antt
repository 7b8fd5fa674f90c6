-- ===== src/Infrastructure/RateLimit/Room.antt =====
-- There is room for the bucket that a check finds.
use alert_hub.Prelude.{
  ℕ, ◌+◌, ◌≤◌, ◌≡◌, ◌∙◌, refl, sym, Bool, true, false, Option, none, some, [], ◌∷◌, Text, text_eq,
  pair_eq, is_some, length, length-keep-le, leb, Option-cases, Bool-cases, ◌==◌, beq_self, inl, inr,
  arith,
}
use mathlib.Core.Path.{subst}
use alert_hub.Prelude.Dict.{Dict, lookup, length-erase_present}
use alert_hub.Infrastructure.RateLimit.Limiter.{
  Limiter, Bucket, cleanup, make_room, spill, victim, evict, find_bucket, is_live, overflow_key,
}

pub lookup_tail :
    (k : Text × Text) (e : (Text × Text) × Bucket) (d : Dict (Text × Text) Bucket)
    → is_some (lookup k d) ≡ true
    → is_some (lookup k (e ∷ d)) ≡ true
unfolding lookup
lookup_tail k e d h = elim (Bool-cases (k == e.0)) [ inl here ↦ rw here | inr later ↦ rw later h ]

pub lookup_head :
    (e : (Text × Text) × Bucket) (d : Dict (Text × Text) Bucket)
    → is_some (lookup e.0 (e ∷ d)) ≡ true
unfolding lookup
lookup_head e d = rw (beq_self e.0)

-- The victim is an entry of the table.
pub victim_present :
    (d : Dict (Text × Text) Bucket) (e : (Text × Text) × Bucket)
    → victim d ≡ some e
    → is_some (lookup e.0 d) ≡ true
unfolding victim
victim_present [] e h = cc
victim_present (f ∷ d) e h = elim (Option-cases (victim d)) [
  | inl last ↦ ground (arith, lookup_head f d)
  | inr (g, found) ↦ ground (arith, lookup_head f d, lookup_tail g.0 f d, victim_present d g found)
]

pub victim-none : (d : Dict (Text × Text) Bucket) → victim d ≡ none → length d ≡ 0
unfolding victim
victim-none [] h = refl
victim-none (f ∷ d) h = ground arith

pub cleanup_shrinks :
    (s : Limiter) (now : ℕ) (force : Bool)
    → (length (cleanup s now force).buckets ≤ length s.buckets)
      × ((cleanup s now force).max_keys ≡ s.max_keys)
unfolding cleanup
cleanup_shrinks s now force = ground (arith, length-keep-le (is_live now) s.buckets)

-- Whether the bucket found can be written back within the maximum.
abbrev pub HasRoom : ℕ → Limiter → Text × Text → Option Bucket → Type 0
HasRoom top s k none = (length s.buckets + 1 ≤ top) × (s.max_keys ≡ top)
HasRoom top s k (some b) =
    (is_some (lookup k s.buckets) ≡ true) × (length s.buckets ≤ top) × (s.max_keys ≡ top)

pub evict-HasRoom :
    (top : ℕ) (s : Limiter) (k : Text × Text)
    → 1 ≤ top
    → length s.buckets ≤ top
    → s.max_keys ≡ top
    → HasRoom top (evict s) k none
evict-HasRoom top s k h l m = elim (Option-cases (victim s.buckets)) [
  | inl empty ↦ ground (arith, victim-none s.buckets empty)
  | inr (e, found) ↦
      ground (arith, victim_present s.buckets e found, length-erase_present e.0 s.buckets)
]

pub make_room_shrinks :
    (s : Limiter) (now : ℕ)
    → (length (make_room s now).buckets ≤ length s.buckets)
      × ((make_room s now).max_keys ≡ s.max_keys)
unfolding make_room
make_room_shrinks s now = ground (arith, cleanup_shrinks s now true)

pub spill-HasRoom :
    (top : ℕ) (s : Limiter) (scope key : Text)
    → 1 ≤ top
    → length s.buckets ≤ top
    → s.max_keys ≡ top
    → let (s', (k, b)) = spill s scope key in HasRoom top s' k b
unfolding spill
spill-HasRoom top s scope key h l m = elim (Bool-cases (leb s.max_keys (length s.buckets))) [
  | inr free ↦ rw free (ground arith)
  | inl full ↦ elim (Option-cases (lookup (overflow_key scope) s.buckets)) [
    | inl missing ↦ rw (full, missing) (evict-HasRoom top s (overflow_key scope) h l m)
    | inr (b, found) ↦ rw (full, found) (rw found (refl, l, m))
  ]
]

pub find_bucket_hit :
    (s : Limiter) (now : ℕ) (scope key : Text) {b : Bucket}
    → lookup (scope, key) (cleanup s now false).buckets ≡ some b
    → find_bucket s now scope key ≡ (cleanup s now false, ((scope, key), some b))
unfolding find_bucket
find_bucket_hit s now scope key found = rw (found, find_bucket)

pub find_bucket_miss :
    (s : Limiter) (now : ℕ) (scope key : Text)
    → lookup (scope, key) (cleanup s now false).buckets ≡ none
    → find_bucket s now scope key ≡ spill (make_room (cleanup s now false) now) scope key
unfolding find_bucket
find_bucket_miss s now scope key missing = rw (missing, find_bucket)

pub find_bucket-HasRoom :
    (top : ℕ) (s : Limiter) (now : ℕ) (scope key : Text)
    → 1 ≤ top
    → length s.buckets ≤ top
    → s.max_keys ≡ top
    → let (s', (k, b)) = find_bucket s now scope key in HasRoom top s' k b
unfolding find_bucket
find_bucket-HasRoom top s now scope key h l m =
    let a = cleanup_shrinks s now false in
    let b = make_room_shrinks (cleanup s now false) now in
    elim (Option-cases (lookup (scope, key) (cleanup s now false).buckets)) [
      | inr (b', found) ↦
          subst (λ (r : Limiter × ((Text × Text) × Option Bucket)). HasRoom top r.0 r.1.0 r.1.1)
            (sym (find_bucket_hit s now scope key found)) (rw found (refl, omega arith, a.1 ∙ m))
      | inl missing ↦
          subst (λ (r : Limiter × ((Text × Text) × Option Bucket)). HasRoom top r.0 r.1.0 r.1.1)
            (sym (find_bucket_miss s now scope key missing))
            (spill-HasRoom top (make_room (cleanup s now false) now) scope key h (omega arith)
              (b.1 ∙ a.1 ∙ m))
    ]
