-- ===== src/Application/Notifications/Claims.antt =====
-- `_claim_batch`: an item is claimed by one worker at a time.
use alert_hub.Prelude.{
  ℕ, zero, suc, ◌≡◌, ◌≤◌, ◌+◌, refl, ◌∙◌, Bool, true, not, ◌||◌, List, [], ◌∷◌, Text, text_eq, all,
  contains, keep, map, take, length, length-map, length-take-le, arith, Permᴰ,
}
use alert_hub.Prelude.Members.{all-map}
use alert_hub.Prelude.Sort.{sort_by, sort_by-perm}
use alert_hub.Domain.Events.Defs.{key_order}
use alert_hub.Application.Rows.{OutboxItem}
use alert_hub.Application.Store.{Store}
use alert_hub.Application.Notifications.Queue.{
  WorkerSettings, claim_batch, claimed, due_items, is_due,
}

module _ {A : Type 0} (p : A → Bool) where
  all-take : (n : ℕ) (xs : List A) → all p xs ≡ true → all p (take n xs) ≡ true
  all-take zero xs h = refl
  all-take (suc n) [] h = refl
  all-take (suc n) (x ∷ xs) h = ground (arith, h, all-take n xs)

  all-perm : {xs ys : List A} → Permᴰ xs ys → all p xs ≡ all p ys
  all-perm Permᴰ.nil = refl
  all-perm (Permᴰ.cons h k) = ground (arith, h, all-perm k)
  all-perm (Permᴰ.swap h k) = ground arith
  all-perm (Permᴰ.trans h k) = ground (arith, all-perm h, all-perm k)

  all-keep_of :
      (q : A → Bool) (xs : List A)
      → all (λ x. not (q x) || p x) xs ≡ true
      → all p (keep q xs) ≡ true
  all-keep_of q [] h = refl
  all-keep_of q (x ∷ xs) h = ground (arith, h, all-keep_of q xs)

-- No claimed item is due before its lock has run out.
due-claimed :
    (lock now later : ℕ) (ids : List Text) (items : List OutboxItem)
    → later ≤ now + lock
    → all
        (λ (o : OutboxItem). not (is_due lock later o) || not (contains o.id ids))
        (map (claimed now ids) items)
      ≡ true
due-claimed lock now later ids [] h = refl
due-claimed lock now later ids (o ∷ os) h = ground (arith, h, due-claimed lock now later ids os h)

-- Whatever the settings, the store and the time, a claim takes at most a batch of items, and a claim
-- on the store that it leaves, at any time up to the end of its lock, takes none of them again.
pub claim_batch-once :
    (w : WorkerSettings) (now later : ℕ) (s : Store)
    → later ≤ now + w.lock
    → let first = claim_batch w now s in
      (length (first.1) ≤ w.batch_size)
      × (all (λ i. not (contains i first.1)) (claim_batch w later first.0).1 ≡ true)
unfolding claim_batch due_items
claim_batch-once w now later s h =
    let ids = (claim_batch w now s).1 in
    let key : OutboxItem → ℕ × Text = λ o. (o.available_at, o.id) in
    let sorted =
      λ (t : ℕ) (os : List OutboxItem). sort_by key_order key (keep (is_due w.lock t) os) in
    let outbox = map (claimed now ids) s.outbox in
    let free = λ (o : OutboxItem). not (contains o.id ids) in
    (
      omega (
        arith,
        length-map (λ (o : OutboxItem). o.id) (take w.batch_size (sorted now s.outbox)),
        length-take-le w.batch_size (sorted now s.outbox),
      ),
      all-map (λ i. not (contains i ids)) (λ (o : OutboxItem). o.id)
            (take w.batch_size (sorted later outbox))
          ∙ all-take free w.batch_size (sorted later outbox) (
              all-perm free (sort_by-perm key_order key (keep (is_due w.lock later) outbox))
              ∙ all-keep_of free (is_due w.lock later) outbox
                  (due-claimed w.lock now later ids s.outbox h)),
    )
