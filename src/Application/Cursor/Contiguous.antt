-- ===== src/Application/Cursor/Contiguous.antt =====
-- A cursor never moves past a sequence number that the node does not have.
use alert_hub.Prelude.{
  ℕ, zero, suc, ◌+◌, ◌-◌, ◌≡◌, ◌≤◌, refl, sym, ap, ◌∙◌, Bool, true, false, ◌&&◌, List, [], ◌∷◌,
  Text, text_eq, nat_eq, ◌==◌, any, leb, inl, inr, Bool-cases, if◌then◌else◌, arith, beq_self,
}
use mathlib.Core.Path.{subst}
use alert_hub.Prelude.Dict.{Dict, lookup, insert}
use alert_hub.Application.Rows.{ClusterEvent}
use alert_hub.Application.Store.{of_origin}
use alert_hub.Application.Cursor.Defs.{cursor_of, present, advance_one, advance_peer_cursor}

-- An event of the origin has the number.
abbrev pub has_seq : Text → ℕ → List ClusterEvent → Bool
has_seq origin n events = any (λ e. of_origin origin e && (e.origin_seq == n)) events

-- No two events of an origin have the same number, as the table's constraint has it.
unfoldable pub is_unique : Text → List ClusterEvent → Bool
is_unique origin [] = true
is_unique origin (e ∷ es) =
    let rest = is_unique origin es in
    if of_origin origin e && has_seq origin e.origin_seq es then false else rest

present-suc :
    (origin : Text) (a b : ℕ) (es : List ClusterEvent)
    → a ≤ b
    → is_unique origin es ≡ true
    → present origin a (suc b) es
      ≡ present origin a b es + (if has_seq origin (suc b) es then 1 else 0)
unfolding is_unique
present-suc origin a b [] le u = refl
present-suc origin a b (e ∷ es) le u =
    grind (arith, le, u, present-suc origin a b es le, nat_eq.beq_iff e.origin_seq (suc b))

present-none : (origin : Text) (a : ℕ) (es : List ClusterEvent) → present origin a a es ≡ 0
present-none origin a [] = refl
present-none origin a (e ∷ es) = ground (arith, present-none origin a es)

present-le :
    (origin : Text) (a k : ℕ) (es : List ClusterEvent)
    → is_unique origin es ≡ true
    → present origin a (k + a) es ≤ k
present-le origin a zero es u =
    let base : 0 + a ≡ a = omega arith in rw base (omega (arith, present-none origin a es))
present-le origin a (suc k) es u =
    let next : suc k + a ≡ suc (k + a) = omega arith in
    rw next
      (ground (arith, present-suc origin a (k + a) es (omega arith) u, present-le origin a k es u))

-- Every number from 1 to `n` is there.
unfoldable pub has_upto : Text → ℕ → List ClusterEvent → Bool
has_upto origin zero es = true
has_upto origin (suc n) es = has_seq origin (suc n) es && has_upto origin n es

full-has_upto :
    (origin : Text) (a k : ℕ) (es : List ClusterEvent)
    → is_unique origin es ≡ true
    → has_upto origin a es ≡ true
    → present origin a (k + a) es ≡ k
    → has_upto origin (k + a) es ≡ true
unfolding has_upto
full-has_upto origin a zero es u h full = let base : 0 + a ≡ a = omega arith in rw base h
full-has_upto origin a (suc k) es u h full =
    let next : suc k + a ≡ suc (k + a) = omega arith in
    let filled = subst (λ n. present origin a n es ≡ suc k) next full in
    let step = present-suc origin a (k + a) es (omega arith) u in
    let bound = present-le origin a k es u in
    rw next (elim (Bool-cases (has_seq origin (suc (k + a)) es)) [
      | inl here ↦
          rw here (full-has_upto origin a k es u h (ground (arith, step, bound, here, filled)))
      | inr missing ↦ ground (arith, step, bound, missing, filled)
    ])

counted-has_upto :
    (origin : Text) (a b : ℕ) (es : List ClusterEvent)
    → is_unique origin es ≡ true
    → has_upto origin a es ≡ true
    → a ≤ b
    → present origin a b es ≡ b - a
    → has_upto origin b es ≡ true
counted-has_upto origin a b es u h le full =
    let split : (b - a) + a ≡ b = omega arith in
    subst (λ n. has_upto origin n es ≡ true) split
      (full-has_upto origin a (b - a) es u h
        (subst (λ n. present origin a n es ≡ b - a) (sym split) full))

cursor_of-insert :
    (origin o : Text) (n : ℕ) (d : Dict Text ℕ)
    → cursor_of origin (insert o n d) ≡ (if origin == o then n else cursor_of origin d)
unfolding lookup insert
cursor_of-insert origin o n [] = ground arith
cursor_of-insert origin o n (e ∷ d) = ground (
  arith,
  cursor_of-insert origin o n d,
  text_eq.beq_iff origin o,
  text_eq.beq_iff origin e.0,
  text_eq.beq_iff o e.0,
)

advance_own-has_upto :
    (es : List ClusterEvent) (n : ℕ) (cursor : Dict Text ℕ) (origin : Text)
    → is_unique origin es ≡ true
    → has_upto origin (cursor_of origin cursor) es ≡ true
    → has_upto origin (cursor_of origin (advance_one es origin n cursor)) es ≡ true
unfolding advance_one
advance_own-has_upto es n cursor origin u h =
    let moved = counted-has_upto origin (cursor_of origin cursor) n es u h in
    let count = present origin (cursor_of origin cursor) n es in
    elim (Bool-cases (leb n (cursor_of origin cursor))) [
      | inl passed ↦ rw passed h
      | inr ahead ↦ elim (Bool-cases (count == n - cursor_of origin cursor)) [
        | inl full ↦
            rw (ahead, full)
              (subst (λ m. has_upto origin m es ≡ true)
                (sym (
                  cursor_of-insert origin origin n cursor
                  ∙ ap (λ b. if b then n else cursor_of origin cursor) (beq_self origin)))
                (moved (ground (arith, ahead))
                  ((nat_eq.beq_iff count (n - cursor_of origin cursor)).0 full)))
        | inr short ↦ rw (ahead, short) h
      ]
    ]

advance_one-has_upto :
    (es : List ClusterEvent) (o : Text) (n : ℕ) (cursor : Dict Text ℕ) (origin : Text)
    → is_unique origin es ≡ true
    → has_upto origin (cursor_of origin cursor) es ≡ true
    → has_upto origin (cursor_of origin (advance_one es o n cursor)) es ≡ true
unfolding advance_one
advance_one-has_upto es o n cursor origin u h = elim (Bool-cases (origin == o)) [
  | inl same ↦
      subst (λ p. has_upto origin (cursor_of origin (advance_one es p n cursor)) es ≡ true)
        ((text_eq.beq_iff origin o).0 same) (advance_own-has_upto es n cursor origin u h)
  | inr other ↦ ground (arith, cursor_of-insert origin o n cursor, other, h)
]

advance_one-le :
    (es : List ClusterEvent) (o : Text) (n : ℕ) (cursor : Dict Text ℕ) (origin : Text)
    → cursor_of origin cursor ≤ cursor_of origin (advance_one es o n cursor)
unfolding advance_one
advance_one-le es o n cursor origin =
    ground (arith, cursor_of-insert origin o n cursor, text_eq.beq_iff origin o)

-- Where no two events of the origin have the same number and every number up to the cursor is there, every number up to the
-- advanced cursor is there, whatever the candidates are.
pub advance_peer_cursor-has_upto :
    (es : List ClusterEvent) (candidates cursor : Dict Text ℕ) (origin : Text)
    → is_unique origin es ≡ true
    → has_upto origin (cursor_of origin cursor) es ≡ true
    → has_upto origin (cursor_of origin (advance_peer_cursor es candidates cursor)) es ≡ true
unfolding advance_peer_cursor
advance_peer_cursor-has_upto es [] cursor origin u h = h
advance_peer_cursor-has_upto es (c ∷ cs) cursor origin u h =
    advance_peer_cursor-has_upto es cs (advance_one es c.0 c.1 cursor) origin u
      (advance_one-has_upto es c.0 c.1 cursor origin u h)

-- The cursor of an origin never goes back.
pub advance_peer_cursor-le :
    (es : List ClusterEvent) (candidates cursor : Dict Text ℕ) (origin : Text)
    → cursor_of origin cursor ≤ cursor_of origin (advance_peer_cursor es candidates cursor)
unfolding advance_peer_cursor
advance_peer_cursor-le es [] cursor origin = omega arith
advance_peer_cursor-le es (c ∷ cs) cursor origin = omega (
  arith,
  advance_one-le es c.0 c.1 cursor origin,
  advance_peer_cursor-le es cs (advance_one es c.0 c.1 cursor) origin,
)
