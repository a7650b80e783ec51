-- ===== src/Notify.antt =====
-- The queue of messages of backend/src/notify/notify.service.ts (`enqueue`, `schedule`, `tick`). A
-- round awaits the sending of each of its messages, and in between other rounds and requests run: a
-- round is here what it still has to send, and each of its steps is an operation of its own. The
-- channels, Telegram and mail, are outside: `arrived` is whether `send` gave true.
pub mod Counts
pub mod Sound
pub mod Drain
use clock.Base.{
  Bool, List, Option, [], filter, if◌then◌else◌, is_empty, is_some, leb, ltb, max, min, none, some,
  suc, zero, ℕ, ◌*◌, ◌++◌, ◌+◌, ◌^◌, ◌∷◌, ◌≡◌, ◌≤◌,
}
use clock.Text.{Text}

pub record QueuedSend : Type 0 where
  pub label : Text
  pub attempts : ℕ
  pub next_at : ℕ

pub record Queue : Type 0 where
  pub waiting : List QueuedSend
  -- when the timer goes off, if it is set
  pub timer : Option ℕ
  -- the rounds under way, each with what it has still to send
  pub rounds : List (List QueuedSend)
  -- how many messages were sent, and given up, and how often `send` was called
  pub sent : ℕ
  pub dropped : ℕ
  pub calls : ℕ

abbrev pub max_attempts : ℕ
max_attempts = 3

abbrev pub base_delay_ms : ℕ
base_delay_ms = 30_000

-- the earliest time of all
unfoldable pub earliest : ℕ → List QueuedSend → ℕ
earliest t [] = t
earliest t (q ∷ qs) = earliest (min t q.next_at) qs

-- A timer that is set stays. One of an empty queue goes off at once (`setTimeout` takes an infinite
-- delay as none).
unfoldable pub schedule : ℕ → Queue → Queue
unfolding earliest
schedule now s = if is_some s.timer then s else elim s.waiting [
  | [] ↦ record s { timer = some now }
  | q ∷ qs ↦ record s { timer = some (max now (earliest q.next_at qs)) }
]

unfoldable pub enqueue : Text → ℕ → Queue → Queue
unfolding schedule
enqueue label now s = schedule now (record s {
  waiting = s.waiting ++ (record { label = label; attempts = 0; next_at = now } ∷ []);
})

abbrev pub is_ready : ℕ → QueuedSend → Bool
is_ready now q = leb q.next_at now

abbrev pub is_later : ℕ → QueuedSend → Bool
is_later now q = ltb now q.next_at

-- The timer goes off, and a round begins.
unfoldable pub fire : ℕ → Queue → Queue
fire now s = record s {
  timer = none;
  rounds = filter (is_ready now) s.waiting ∷ s.rounds;
  waiting = filter (is_later now) s.waiting;
}

unfoldable pub round_at : ℕ → List (List QueuedSend) → Option (List QueuedSend)
round_at i [] = none
round_at zero (r ∷ rs) = some r
round_at (suc i) (r ∷ rs) = round_at i rs

unfoldable pub put_round : ℕ → List QueuedSend → List (List QueuedSend) → List (List QueuedSend)
put_round i r [] = []
put_round zero r (x ∷ rs) = r ∷ rs
put_round (suc i) r (x ∷ rs) = x ∷ put_round i r rs

unfoldable pub end_round : ℕ → List (List QueuedSend) → List (List QueuedSend)
end_round i [] = []
end_round zero (x ∷ rs) = rs
end_round (suc i) (x ∷ rs) = x ∷ end_round i rs

-- A failure: again after 30 seconds, then after 2 minutes, then no more.
abbrev pub after_failure : QueuedSend → ℕ → Queue → Queue
after_failure q now s =
    if leb max_attempts (q.attempts + 1) then record s { dropped = s.dropped + 1 } else record s {
      waiting =
          s.waiting
          ++ (record q { attempts = q.attempts + 1; next_at = now + base_delay_ms * 4 ^ q.attempts }
              ∷ []);
    }

abbrev pub after_send : Bool → QueuedSend → ℕ → Queue → Queue
after_send arrived q now s =
    if arrived then record s { sent = s.sent + 1 } else after_failure q now s

-- The next message of the round `i` has been sent, or has not.
unfoldable pub reply : ℕ → Bool → ℕ → Queue → Queue
unfolding round_at put_round
reply i arrived now s = elim (round_at i s.rounds) [
  | none ↦ s
  | some [] ↦ s
  | some (q ∷ qs) ↦
      after_send arrived q now (record s { rounds = put_round i qs s.rounds; calls = s.calls + 1 })
]

-- The round `i` has nothing more to send.
unfoldable pub finish : ℕ → ℕ → Queue → Queue
unfolding round_at end_round schedule
finish i now s = elim (round_at i s.rounds) [
  | none ↦ s
  | some (q ∷ qs) ↦ s
  | some [] ↦
      let ended : Queue = record s { rounds = end_round i s.rounds } in
      if is_empty s.waiting then ended else schedule now ended
]

-- What can happen; the number is how many messages are put in the queue.
pub data QueueStep (s : Queue) : ℕ → Queue → Type 0 where
  by_enqueue : (label : Text) (now : ℕ) → QueueStep s 1 (enqueue label now s)
  by_fire : (now at : ℕ) → s.timer ≡ some at → at ≤ now → QueueStep s 0 (fire now s)
  by_reply : (i : ℕ) (arrived : Bool) (now : ℕ) → QueueStep s 0 (reply i arrived now s)
  by_finish : (i now : ℕ) → QueueStep s 0 (finish i now s)

abbrev pub no_messages : Queue
no_messages = record { waiting = []; timer = none; rounds = []; sent = 0; dropped = 0; calls = 0 }

-- The states of a service since its start, with the number of messages put in the queue
pub data QueueReach : ℕ → Queue → Type 0 where
  queue_start : QueueReach 0 no_messages
  queue_step : {n m : ℕ} {s s' : Queue} → QueueReach n s → QueueStep s m s' → QueueReach (m + n) s'
