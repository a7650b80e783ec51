-- ===== src/Notify/Drain.antt =====
-- The queue of messages comes to rest.
use clock.Base.{Bool, List, [], length, max, some, suc, ℕ, ◌*◌, ◌+◌, ◌<◌, ◌∷◌, ◌≡◌, ◌≤◌}
use clock.Notify.{Queue, QueueStep, QueuedSend, finish, fire, reply}
use clock.Notify.Counts.{calls_left, pending}

-- Steps that put no message in the queue, counted. A call of `send` gets the answer that `answer`
-- gives to the state in which it is made.
pub data QuietRun (answer : Queue → Bool) : ℕ → Queue → Queue → Type 0 where
  quiet_start : (s : Queue) → QuietRun answer 0 s s
  quiet_fire :
      (n now at : ℕ) (s last : Queue)
      → s.timer ≡ some at
      → at ≤ now
      → QuietRun answer n (fire now s) last
      → QuietRun answer (suc n) s last
  quiet_reply :
      (n i now : ℕ) (s last : Queue)
      → QuietRun answer n (reply i (answer s) now s) last
      → QuietRun answer (suc n) s last
  quiet_finish :
      (n i now : ℕ) (s last : Queue)
      → QuietRun answer n (finish i now s) last
      → QuietRun answer (suc n) s last

abbrev pub IsIdle : Queue → Type 0
IsIdle s = (s.waiting ≡ []) × (s.rounds ≡ [])

-- What each step makes less
abbrev pub to_do : Queue → ℕ
to_do s = 3 * pending calls_left s + 2 * length s.waiting + length s.rounds

-- A time when all is due
abbrev latest : ℕ → List QueuedSend → ℕ
latest t [] = t
latest t (q ∷ qs) = max q.next_at (latest t qs)

-- A next step of a queue, which leaves less to do, and how it goes on a run
abbrev Progress : (Queue → Bool) → Queue → Type 0
Progress answer s =
    (s' : Queue) × ((n : ℕ) (last : Queue)
      → QuietRun answer n s' last
      → QuietRun answer (suc n) s last)
    × QueueStep s 0 s'
    × (to_do s' < to_do s)
