-- ===== src/Accounts/Renewal.antt =====
-- The renewal of an agent's tickets (`issueDelegation`, `refreshDelegation`).
use clock.Accounts.{
  Accounts, Answer, Bcrypt, DelegationKey, Jose, and_then, denied, find_key, has_dkey, replied,
}
use clock.Accounts.Cleanup.{is_key_of}
use clock.Accounts.Service.{
  drop_key, granted, issue_delegation, old_claims, outdated, refresh_delegation, renewable, sweep,
  ticket_key,
}
use clock.Accounts.Steps.{
  Change, Run, by_delete, by_issue, by_password, by_profile, by_refresh, by_register, by_revoke,
  change_password-writes, register-writes, revoke_sessions-writes, run_start, run_step,
  update_profile-writes,
}
use clock.Base.{
  All, Bool, List, Option-cases, [], arith, false, inl, inr, none, refl, some, ℕ, ◌++◌, ◌∷◌, ◌≡◌,
  ◌≢◌,
}
use clock.Db.RowLaws.{find_where-delete_where}
use clock.Db.Rows.{delete_where, find_where}
use clock.Text.{Text, eq_of_text_eq, text_eq}

pub find_where-delete_none :
    {A : Type 0} (p q : A → Bool) (xs : List A)
    → find_where q xs ≡ none
    → find_where q (delete_where p xs) ≡ none
find_where-delete_none p q [] h = refl
find_where-delete_none p q (x ∷ xs) h = ground (arith, find_where-delete_none p q xs)

pub sweep-none :
    (swept : Bool) (now : ℕ) (k : Text) (keys : List DelegationKey)
    → find_where (has_dkey k) keys ≡ none
    → find_where (has_dkey k) (sweep swept now keys) ≡ none
sweep-none swept now k keys h =
    ground (arith, h, find_where-delete_none (outdated now) (has_dkey k) keys)

pub text_eq-no : (s t : Text) → s ≢ t → text_eq s t ≡ false
text_eq-no s t h = ground (arith, h, eq_of_text_eq s t)

granted-db : {Token : Type 0} (r : Answer (Token × ℕ) × Accounts) → (granted r).1 ≡ r.1
granted-db (replied a, db) = refl
granted-db (denied e, db) = refl

module _ {Token : Type 0} (jose : Jose Token) where
  issue_delegation-none :
      (swept : Bool) (dkey : Text) (id now : ℕ) (k : Text) (db : Accounts)
      → dkey ≢ k
      → find_key k db ≡ none
      → find_key k (issue_delegation jose swept dkey id now db).1 ≡ none
  unfolding issue_delegation
  issue_delegation-none swept dkey id now k db other h =
      ground (arith, h, text_eq-no dkey k other, sweep-none swept now k db.keys h)

  refresh_delegation-none :
      (swept : Bool) (dkey : Text) (id : ℕ) (t : Token) (now : ℕ) (k : Text) (db : Accounts)
      → dkey ≢ k
      → find_key k db ≡ none
      → find_key k (refresh_delegation jose swept dkey id t now db).1 ≡ none
  unfolding refresh_delegation
  refresh_delegation-none swept dkey id t now k db other h =
      elim (Option-cases (and_then (old_claims jose now t) ticket_key)) [
        | inl n ↦ ground (arith, h, n)
        | inr (k', e) ↦ ground (
          arith,
          h,
          e,
          granted-db (issue_delegation jose swept dkey id now (drop_key k' db)),
          issue_delegation-none swept dkey id now k (drop_key k' db) other
              (find_where-delete_none (has_dkey k') (has_dkey k) db.keys h),
        )
      ]

  -- The key of a ticket that is renewed is gone.
  refresh_delegation-drops :
      (swept : Bool) (dkey : Text) (id : ℕ) (t : Token) (now : ℕ) (k : Text) (db : Accounts)
      (a : Token × ℕ)
      → dkey ≢ k
      → and_then (old_claims jose now t) ticket_key ≡ some k
      → (refresh_delegation jose swept dkey id t now db).0 ≡ replied (some a)
      → find_key k (refresh_delegation jose swept dkey id t now db).1 ≡ none
  unfolding refresh_delegation
  refresh_delegation-drops swept dkey id t now k db a other h ended = ground (
    arith,
    h,
    ended,
    granted-db (issue_delegation jose swept dkey id now (drop_key k db)),
    issue_delegation-none swept dkey id now k (drop_key k db) other
        (find_where-delete_where (has_dkey k) db.keys),
  )

  refused_without :
      (swept : Bool) (dkey : Text) (id : ℕ) (t : Token) (now : ℕ) (k : Text) (db : Accounts)
      → and_then (old_claims jose now t) ticket_key ≡ some k
      → find_key k db ≡ none
      → refresh_delegation jose swept dkey id t now db ≡ (replied none, db)
  unfolding refresh_delegation renewable
  refused_without swept dkey id t now k db h e = ground (arith, h, e)

  module _ (bcrypt : Bcrypt) (k : Text) where
    -- Only the draw of the key brings a record of it.
    Change-none :
        (drawn : List Text) (db db' : Accounts)
        → Change jose bcrypt db drawn db'
        → All (λ d. d ≢ k) drawn
        → find_key k db ≡ none
        → find_key k db' ≡ none
    Change-none drawn db db' (by_register email pw name now) other h =
        elim (register-writes jose bcrypt email pw name now db) [ inl e ↦ rw e h | inr e ↦ rw e h ]
    Change-none drawn db db' (by_revoke id) other h = elim (revoke_sessions-writes id db) [
      | inl e ↦ rw e h
      | inr e ↦ rw e h
    ]
    Change-none drawn db db' (by_profile id name) other h =
        elim (update_profile-writes id name db) [ inl e ↦ rw e h | inr e ↦ rw e h ]
    Change-none drawn db db' (by_password id current new) other h =
        elim (change_password-writes bcrypt id current new db) [ inl e ↦ rw e h | inr e ↦ rw e h ]
    Change-none drawn db db' (by_issue swept dkey id now) (other, u) h =
        issue_delegation-none swept dkey id now k db other h
    Change-none drawn db db' (by_refresh swept dkey id t now) (other, u) h =
        refresh_delegation-none swept dkey id t now k db other h
    Change-none drawn db db' (by_delete id) other h =
        find_where-delete_none (is_key_of id) (has_dkey k) db.keys h

    All-append :
        (xs ys : List Text)
        → All (λ d. d ≢ k) (xs ++ ys)
        → All (λ d. d ≢ k) xs × All (λ d. d ≢ k) ys
    All-append [] ys h = (tt, h)
    All-append (x ∷ xs) ys (hx, h) = let (l, r) = All-append xs ys h in ((hx, l), r)

    Run-none :
        (db : Accounts) (drawn : List Text) (db' : Accounts)
        → Run jose bcrypt db drawn db'
        → All (λ d. d ≢ k) drawn
        → find_key k db ≡ none
        → find_key k db' ≡ none
    Run-none db drawn db' run_start other h = h
    Run-none db drawn db' (run_step {drawn = old} {more} {mid} run step) other h =
        let (new, before) = All-append more old other in
        Change-none more mid db' step new (Run-none db old mid run before h)

    -- A ticket is renewed once: after its renewal, and any operations that do not draw its key again,
    -- a renewal with that ticket, or another one of its key, is refused and changes nothing, whoever
    -- asks and whenever.
    pub refresh_delegation-once :
        (swept again : Bool) (dkey fresh : Text) (id other : ℕ) (t shown : Token) (now later : ℕ)
        (db db' : Accounts) (drawn : List Text) (a : Token × ℕ)
        → and_then (old_claims jose now t) ticket_key ≡ some k
        → (refresh_delegation jose swept dkey id t now db).0 ≡ replied (some a)
        → Run jose bcrypt (refresh_delegation jose swept dkey id t now db).1 drawn db'
        → All (λ d. d ≢ k) (dkey ∷ drawn)
        → and_then (old_claims jose later shown) ticket_key ≡ some k
        → refresh_delegation jose again fresh other shown later db' ≡ (replied none, db')
    refresh_delegation-once swept again dkey fresh id other t shown now later db db' drawn a h ended
          run (new, news) h' =
        refused_without again fresh other shown later k db' h' (
          Run-none _ drawn db' run news
            (refresh_delegation-drops swept dkey id t now k db a new h ended))
