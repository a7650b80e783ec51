-- ===== src/Notify/Counts.antt =====
-- What there is in the queue of messages, counted.
use clock.Base.{
  All, Bool, Bool-cases, List, [], arith, filter, inl, inr, refl, some, suc, zero, ℕ, ◌++◌, ◌+◌,
  ◌-◌, ◌<◌, ◌∷◌, ◌≡◌,
}
use clock.Db.Rows.{sum_by}
use clock.Notify.{
  Queue, QueuedSend, end_round, is_later, is_ready, max_attempts, put_round, round_at,
}
use mathlib.Core.Path.{subst}

-- The calls that a message has left, and those that it has had
abbrev pub calls_left : QueuedSend → ℕ
calls_left q = max_attempts - q.attempts

abbrev pub calls_had : QueuedSend → ℕ
calls_had q = q.attempts

abbrev pub each_once : QueuedSend → ℕ
each_once q = 1

-- A sum over all messages that are not settled
abbrev pub pending : (QueuedSend → ℕ) → Queue → ℕ
pending f s = sum_by f s.waiting + sum_by (sum_by f) s.rounds

-- A message that waits has calls left.
abbrev pub IsFresh : QueuedSend → Type 0
IsFresh q = q.attempts < max_attempts

abbrev pub AllFresh : Queue → Type 0
AllFresh s = All IsFresh s.waiting × All (All IsFresh) s.rounds

pub sum_by-append :
    (f : QueuedSend → ℕ) (xs ys : List QueuedSend) → sum_by f (xs ++ ys) ≡ sum_by f xs + sum_by f ys
sum_by-append f [] ys = omega arith
sum_by-append f (x ∷ xs) ys = let h = sum_by-append f xs ys in omega arith

-- A round takes what is due, and leaves the rest.
pub sum_by-split :
    (f : QueuedSend → ℕ) (now : ℕ) (qs : List QueuedSend)
    → sum_by f (filter (is_ready now) qs) + sum_by f (filter (is_later now) qs) ≡ sum_by f qs
sum_by-split f now [] = refl
sum_by-split f now (q ∷ qs) = ground (arith, sum_by-split f now qs)

pub sum_by-put_round :
    (g : List QueuedSend → ℕ) (i : ℕ) (r old : List QueuedSend) (rs : List (List QueuedSend))
    → round_at i rs ≡ some old
    → sum_by g (put_round i r rs) + g old ≡ sum_by g rs + g r
unfolding round_at put_round
sum_by-put_round g i r old [] h = absurd (ground arith)
sum_by-put_round g zero r old (x ∷ rs) h = ground (arith, h)
sum_by-put_round g (suc i) r old (x ∷ rs) h = ground (arith, sum_by-put_round g i r old rs h)

pub sum_by-end_round :
    (g : List QueuedSend → ℕ) (i : ℕ) (old : List QueuedSend) (rs : List (List QueuedSend))
    → round_at i rs ≡ some old
    → sum_by g (end_round i rs) + g old ≡ sum_by g rs
unfolding round_at end_round
sum_by-end_round g i old [] h = absurd (ground arith)
sum_by-end_round g zero old (x ∷ rs) h = ground (arith, h)
sum_by-end_round g (suc i) old (x ∷ rs) h = ground (arith, sum_by-end_round g i old rs h)

module _ {A : Type 0} (P : A → Type 0) where
  pub All-append : (xs ys : List A) → All P xs → All P ys → All P (xs ++ ys)
  All-append [] ys h k = k
  All-append (x ∷ xs) ys (h, hs) k = (h, All-append xs ys hs k)

  pub All-filter : (p : A → Bool) (xs : List A) → All P xs → All P (filter p xs)
  All-filter p [] h = tt
  All-filter p (x ∷ xs) (h, hs) = elim (Bool-cases (p x)) [
    | inl e ↦ rw e (h, All-filter p xs hs)
    | inr e ↦ rw e (All-filter p xs hs)
  ]

module _ (P : List QueuedSend → Type 0) where
  pub All-round_at :
      (i : ℕ) (r : List QueuedSend) (rs : List (List QueuedSend))
      → All P rs
      → round_at i rs ≡ some r
      → P r
  unfolding round_at
  All-round_at i r [] h e = absurd (ground arith)
  All-round_at zero r (x ∷ rs) (h, hs) e = subst P (ground (arith, e)) h
  All-round_at (suc i) r (x ∷ rs) (h, hs) e = All-round_at i r rs hs e

  pub All-put_round :
      (i : ℕ) (r : List QueuedSend) (rs : List (List QueuedSend))
      → All P rs
      → P r
      → All P (put_round i r rs)
  unfolding put_round
  All-put_round i r [] h k = tt
  All-put_round zero r (x ∷ rs) (h, hs) k = (k, hs)
  All-put_round (suc i) r (x ∷ rs) (h, hs) k = (h, All-put_round i r rs hs k)

  pub All-end_round : (i : ℕ) (rs : List (List QueuedSend)) → All P rs → All P (end_round i rs)
  unfolding end_round
  All-end_round i [] h = tt
  All-end_round zero (x ∷ rs) (h, hs) = hs
  All-end_round (suc i) (x ∷ rs) (h, hs) = (h, All-end_round i rs hs)
