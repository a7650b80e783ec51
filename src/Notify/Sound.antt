-- ===== src/Notify/Sound.antt =====
-- What every reachable state of the queue of messages keeps.
use clock.Base.{
  All, Bool, Bool-cases, List, Option-cases, [], arith, false, get_or, inl, inr, is_empty, is_some,
  leb, not, refl, some, suc, sym, true, zero, ℕ, ◌*◌, ◌++◌, ◌+◌, ◌<◌, ◌^◌, ◌||◌, ◌∷◌, ◌≡◌, ◌≤◌,
}
use clock.Db.Rows.{sum_by}
use clock.Notify.{
  Queue, QueueReach, QueueStep, QueuedSend, after_send, base_delay_ms, by_enqueue, by_finish,
  by_fire, by_reply, end_round, enqueue, finish, fire, is_later, is_ready, max_attempts, put_round,
  queue_start, queue_step, reply, round_at, schedule,
}
use clock.Notify.Counts.{
  All-append, All-end_round, All-filter, All-put_round, All-round_at, AllFresh, IsFresh, calls_had,
  calls_left, each_once, pending, sum_by-append, sum_by-end_round, sum_by-put_round, sum_by-split,
}
use clock.Text.{Text}
use mathlib.Core.Path.{subst}

-- After `n` messages, all in numbers: what is sent, given up or pending, and the calls of `send` from
-- above and below; and while a message waits, a timer is set or a round is under way.
pub record IsSound (n : ℕ) (s : Queue) : Type 0 where
  pub fresh : AllFresh s
  pub total : pending each_once s + s.sent + s.dropped ≡ n
  pub at_most : s.calls + pending calls_left s ≤ max_attempts * n
  pub at_least : s.sent + max_attempts * s.dropped + pending calls_had s ≤ s.calls
  pub awake : (is_some s.timer || is_empty s.waiting || not (is_empty s.rounds)) ≡ true

pub schedule-timer :
    (now : ℕ) (s : Queue) → (t : ℕ) × (schedule now s ≡ record s { timer = some t })
unfolding schedule
schedule-timer now s = (get_or (schedule now s).timer 0, ground arith)

schedule-IsSound :
    (n now : ℕ) (s : Queue)
    → AllFresh s
    → pending each_once s + s.sent + s.dropped ≡ n
    → s.calls + pending calls_left s ≤ max_attempts * n
    → s.sent + max_attempts * s.dropped + pending calls_had s ≤ s.calls
    → IsSound n (schedule now s)
schedule-IsSound n now s f t m l =
    let (at, e) = schedule-timer now s in
    subst (IsSound n) (sym e)
      (record { fresh = f; total = t; at_most = m; at_least = l; awake = refl })

enqueue-IsSound :
    (n : ℕ) (label : Text) (now : ℕ) (s : Queue)
    → IsSound n s
    → IsSound (1 + n) (enqueue label now s)
unfolding enqueue
enqueue-IsSound n label now s h =
    let new : QueuedSend = record { label = label; attempts = 0; next_at = now } in
    let t = h.total in
    let m = h.at_most in
    let l = h.at_least in
    let t' = sum_by-append each_once s.waiting (new ∷ []) in
    let m' = sum_by-append calls_left s.waiting (new ∷ []) in
    let l' = sum_by-append calls_had s.waiting (new ∷ []) in
    schedule-IsSound (1 + n) now (record s { waiting = s.waiting ++ (new ∷ []) })
      (All-append IsFresh s.waiting (new ∷ []) (h.fresh.0) (omega arith, tt), h.fresh.1)
      (omega arith) (omega arith) (omega arith)

fire-IsSound : (n now : ℕ) (s : Queue) → IsSound n s → IsSound n (fire now s)
unfolding fire
fire-IsSound n now s h = record {
  fresh = (
    All-filter IsFresh (is_later now) s.waiting h.fresh.0,
    (All-filter IsFresh (is_ready now) s.waiting h.fresh.0, h.fresh.1),
  );
  total = let e = sum_by-split each_once now s.waiting in let t = h.total in omega arith;
  at_most = let e = sum_by-split calls_left now s.waiting in let t = h.at_most in omega arith;
  at_least = let e = sum_by-split calls_had now s.waiting in let t = h.at_least in omega arith;
  awake = ground arith;
}

-- A message has been called for once more.
after_send-IsSound :
    (n : ℕ) (arrived : Bool) (q : QueuedSend) (now : ℕ) (s : Queue)
    → AllFresh s
    → IsFresh q
    → pending each_once s + s.sent + s.dropped + 1 ≡ n
    → s.calls + pending calls_left s + calls_left q ≤ max_attempts * n + 1
    → s.sent + max_attempts * s.dropped + pending calls_had s + calls_had q + 1 ≤ s.calls
    → (is_some s.timer || is_empty s.waiting || not (is_empty s.rounds)) ≡ true
    → not (is_empty s.rounds) ≡ true
    → IsSound n (after_send arrived q now s)
after_send-IsSound n true q now s f fq t m l a r = record {
  fresh = f;
  total = omega arith;
  at_most = omega arith;
  at_least = omega arith;
  awake = a;
}
after_send-IsSound n false q now s f fq t m l a r =
    elim (Bool-cases (leb max_attempts (q.attempts + 1))) [
      | inl e ↦
          let last : max_attempts ≤ q.attempts + 1 = ground arith in
          rw e (record {
            fresh = f;
            total = omega arith;
            at_most = omega arith;
            at_least = omega arith;
            awake = a;
          })
      | inr e ↦
          let more : q.attempts + 1 < max_attempts = ground arith in
          let again : QueuedSend = record q {
            attempts = q.attempts + 1;
            next_at = now + base_delay_ms * 4 ^ q.attempts;
          } in
          let t' = sum_by-append each_once s.waiting (again ∷ []) in
          let m' = sum_by-append calls_left s.waiting (again ∷ []) in
          let l' = sum_by-append calls_had s.waiting (again ∷ []) in
          rw e (record {
            fresh = (All-append IsFresh s.waiting (again ∷ []) f.0 (more, tt), f.1);
            total = omega arith;
            at_most = omega arith;
            at_least = omega arith;
            awake = ground arith;
          })
    ]

put_round-some :
    (i : ℕ) (r old : List QueuedSend) (rs : List (List QueuedSend))
    → round_at i rs ≡ some old
    → not (is_empty (put_round i r rs)) ≡ true
unfolding round_at put_round
put_round-some i r old [] h = absurd (ground arith)
put_round-some zero r old (x ∷ rs) h = refl
put_round-some (suc i) r old (x ∷ rs) h = refl

-- A round with something to send makes a call.
reply_call-IsSound :
    (n i : ℕ) (arrived : Bool) (now : ℕ) (s : Queue) (q : QueuedSend) (qs : List QueuedSend)
    → round_at i s.rounds ≡ some (q ∷ qs)
    → IsSound n s
    → IsSound n (
        after_send arrived q now
          (record s { rounds = put_round i qs s.rounds; calls = s.calls + 1 }))
reply_call-IsSound n i arrived now s q qs e h =
    let t = h.total in
    let m = h.at_most in
    let l = h.at_least in
    let t' = sum_by-put_round (sum_by each_once) i qs (q ∷ qs) s.rounds e in
    let m' = sum_by-put_round (sum_by calls_left) i qs (q ∷ qs) s.rounds e in
    let l' = sum_by-put_round (sum_by calls_had) i qs (q ∷ qs) s.rounds e in
    let (fq, fqs) = All-round_at (All IsFresh) i (q ∷ qs) s.rounds h.fresh.1 e in
    let some_round = put_round-some i qs (q ∷ qs) s.rounds e in
    after_send-IsSound n arrived q now
      (record s { rounds = put_round i qs s.rounds; calls = s.calls + 1 })
      (h.fresh.0, All-put_round (All IsFresh) i qs s.rounds h.fresh.1 fqs) fq (omega arith)
      (omega arith) (omega arith) (ground arith) some_round

reply-IsSound :
    (n i : ℕ) (arrived : Bool) (now : ℕ) (s : Queue)
    → IsSound n s
    → IsSound n (reply i arrived now s)
unfolding reply
reply-IsSound n i arrived now s h = elim (Option-cases (round_at i s.rounds)) [
  | inl e ↦ subst (IsSound n) (ground (arith, e)) h
  | inr ([], e) ↦ subst (IsSound n) (ground (arith, e)) h
  | inr (q ∷ qs, e) ↦
      subst (IsSound n) (ground (arith, e)) (reply_call-IsSound n i arrived now s q qs e h)
]

-- A round that has sent all sets the timer, if a message waits.
finish-IsSound : (n i now : ℕ) (s : Queue) → IsSound n s → IsSound n (finish i now s)
unfolding finish
finish-IsSound n i now s h = elim (Option-cases (round_at i s.rounds)) [
  | inl e ↦ subst (IsSound n) (ground (arith, e)) h
  | inr (q ∷ qs, e) ↦ subst (IsSound n) (ground (arith, e)) h
  | inr ([], e) ↦
      let ended : Queue = record s { rounds = end_round i s.rounds } in
      let t = h.total in
      let m = h.at_most in
      let l = h.at_least in
      let t' = sum_by-end_round (sum_by each_once) i [] s.rounds e in
      let m' = sum_by-end_round (sum_by calls_left) i [] s.rounds e in
      let l' = sum_by-end_round (sum_by calls_had) i [] s.rounds e in
      let fr : AllFresh ended = (h.fresh.0, All-end_round (All IsFresh) i s.rounds h.fresh.1) in
      elim (Bool-cases (is_empty s.waiting)) [
        | inl none_left ↦
            let same : ended ≡ finish i now s = ground (arith, e, none_left) in
            subst (IsSound n) same (record {
              fresh = fr;
              total = omega arith;
              at_most = omega arith;
              at_least = omega arith;
              awake = ground (arith, none_left);
            })
        | inr some_left ↦
            let same : schedule now ended ≡ finish i now s = ground (arith, e, some_left) in
            subst (IsSound n) same
              (schedule-IsSound n now ended fr (omega arith) (omega arith) (omega arith))
      ]
]

pub no_more : (n : ℕ) → 0 + n ≡ n
no_more n = omega arith

pub step-IsSound : (n m : ℕ) (s s' : Queue) → QueueStep s m s' → IsSound n s → IsSound (m + n) s'
step-IsSound n m s s' (by_enqueue label now) h = enqueue-IsSound n label now s h
step-IsSound n m s s' (by_fire now at e l) h = rw (no_more n) (fire-IsSound n now s h)
step-IsSound n m s s' (by_reply i arrived now) h =
    rw (no_more n) (reply-IsSound n i arrived now s h)
step-IsSound n m s s' (by_finish i now) h = rw (no_more n) (finish-IsSound n i now s h)

-- After `n` messages were put in the queue, in whatever order the rounds and the requests take their
-- steps: the numbers of messages sent, given up and pending sum to `n`; a message that is pending has
-- been called for less than three times; the calls of `send`, with those that the pending messages
-- may still get, are at most `3 * n`, and at least one for each message sent and three for each given
-- up, with those that the pending ones had; and while a message waits, a timer is set or a round is
-- under way.
pub QueueReach-IsSound : (n : ℕ) (s : Queue) → QueueReach n s → IsSound n s
QueueReach-IsSound n s queue_start = record {
  fresh = (tt, tt);
  total = refl;
  at_most = omega arith;
  at_least = omega arith;
  awake = refl;
}
QueueReach-IsSound n s (queue_step {n = old} {m} {s = before} {s' = after} run step) =
    step-IsSound old m before s step (QueueReach-IsSound old before run)

-- When nothing is waiting or under way, as many messages were sent or given up as came, and there were
-- at most three times as many calls.
QueueReach-idle :
    (n : ℕ) (s : Queue)
    → QueueReach n s
    → s.waiting ≡ []
    → s.rounds ≡ []
    → (s.sent + s.dropped ≡ n)
      × (s.calls ≤ max_attempts * n)
      × (s.sent + max_attempts * s.dropped ≤ s.calls)
QueueReach-idle n s run w r =
    let h = QueueReach-IsSound n s run in
    let t = h.total in
    let m = h.at_most in let l = h.at_least in (ground arith, ground arith, ground arith)
