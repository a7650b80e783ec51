-- ===== src/Orders/Create/Intent/Laws.antt =====
-- What a spending limit protects: its owner, its amount, and that it is spent once.
use clock.Base.{Option-cases, ap, arith, false, inl, inr, refl, some, ℕ, ◌<◌, ◌∙◌, ◌≡◌}
use clock.Db.{Db, IntentStatus, PaymentIntent}
use clock.Db.Monad.{Error, err, ok}
use clock.Db.RowLaws.{find_where-update_where}
use clock.Db.Rows.{find_where, update_where}
use clock.Orders.Create.Amount.{Amount, below}
use clock.Orders.Create.Intent.{intent_fits, is_active_intent, is_intent, lock_intent, take_intent}
use clock.Payments.Intents.{set_intent}
use clock.Text.{Text}

taken_parts :
    (id user : ℕ) (total : Amount) (method : Text) (now : ℕ) (db db' : Db) (i : PaymentIntent)
    → take_intent id user total method now db ≡ (ok tt, db')
    → find_where (is_intent id) db.intents ≡ some i
    → (i.user_id ≡ user)
      × (i.status ≡ IntentStatus.active)
      × (now < i.expires_at)
      × (below i.max_usd total ≡ false)
      × (db' ≡ record db {
        intents = update_where (is_active_intent i.id) (set_intent IntentStatus.locked) db.intents;
      })
unfolding take_intent intent_fits lock_intent
taken_parts id user total method now db db' i e found = ground arith

-- The agent takes a spending limit only if it is the user's, is in force, has not ended, and is not below the total; then it is locked, in the one table that changes.
pub take_intent-fits :
    (id user : ℕ) (total : Amount) (method : Text) (now : ℕ) (db db' : Db)
    → take_intent id user total method now db ≡ (ok tt, db')
    → (i : PaymentIntent) × (find_where (is_intent id) db.intents ≡ some i)
      × (i.user_id ≡ user)
      × (i.status ≡ IntentStatus.active)
      × (now < i.expires_at)
      × (below i.max_usd total ≡ false)
      × (db' ≡ record db {
        intents = update_where (is_active_intent i.id) (set_intent IntentStatus.locked) db.intents;
      })
unfolding take_intent
take_intent-fits id user total method now db db' e =
    elim (Option-cases (find_where (is_intent id) db.intents)) [
      | inl missing ↦ absurd (ground arith)
      | inr (i, found) ↦
          let h = taken_parts id user total method now db db' i e found in
          (i, found, h.0, h.1, h.2, h.3, h.4)
    ]

-- A spending limit that was taken cannot be taken again, for whatever order: the attempt throws and changes nothing.
pub take_intent-once :
    (id user user' : ℕ) (total total' : Amount) (method method' : Text) (now now' : ℕ) (db db' : Db)
    → take_intent id user total method now db ≡ (ok tt, db')
    → take_intent id user' total' method' now' db' ≡ (err Error.bad_intent, db')
unfolding take_intent intent_fits
take_intent-once id user user' total total' method method' now now' db db' e =
    let (i, found, who, active, young, enough, after) =
      take_intent-fits id user total method now db db' e in
    let locked : find_where (is_intent id) db'.intents ≡ some (set_intent IntentStatus.locked i) =
      ap (λ d. find_where (is_intent id) d.intents) after
      ∙ find_where-update_where (is_active_intent i.id) (is_intent id)
          (set_intent IntentStatus.locked) db.intents (λ x. refl)
      ∙ rw found (ground arith) in
    rw locked (ground arith)
