-- ===== src/Inquiries/Laws.antt =====
-- What a customer writes cannot open a tag in the message to the concierge, and spam sends none.
use clock.Base.{
  Bool, Bool-cases, List, Option, Option-cases, [], ap, arith, false, if◌then◌else◌, inl, inr,
  is_empty, map, none, not, refl, some, true, ℕ, ◌&&◌, ◌++◌, ◌+◌, ◌==◌, ◌∙◌, ◌∷◌, ◌≡◌,
}
use clock.Inquiries.{
  CreateInquiryDto, Inquiry, InquiryDb, InquiryTriage, InquiryType, JevAnswers, bespoke,
  concierge_text, create_inquiry, email_part, escape_telegram_html, escape_unit, hot_today,
  inquiry_row, join_entries, join_lines, label_of, lead_line, lead_of, letters, low_interest,
  normal_day, optional_line, payload_line, priority_prefix, salon, spam_found, to_concierge,
  triage_inquiry, vip,
}
use clock.Listings.Update.{upper_unit}
use clock.Text.{Text, codes, eq_of_text_eq, includes, text_eq}
use mathlib.Core.Option.{some-injective}
use mathlib.Core.Path.{subst}

abbrev pub is_plain : ℕ → Bool
is_plain c = not (c == b'<') && not (c == b'>')

-- How many `<` a text has
abbrev pub tags : Text → ℕ
tags [] = 0
tags (c ∷ s) = (if c == b'<' then 1 else 0) + tags s

tags-append : (s t : Text) → tags (s ++ t) ≡ tags s + tags t
tags-append [] t = omega arith
tags-append (c ∷ s) t = omega (arith, tags-append s t)

tags-escape_telegram_html : (s : Text) → tags (escape_telegram_html s) ≡ 0
unfolding escape_telegram_html
tags-escape_telegram_html [] = refl
tags-escape_telegram_html (c ∷ s) =
    let rest = tags-escape_telegram_html s in
    let unit : tags (escape_unit c) ≡ 0 = ground arith in
    omega (arith, tags-append (escape_unit c) (escape_telegram_html s), rest, unit)

all_tags : List Text → ℕ
all_tags [] = 0
all_tags (l ∷ ls) = tags l + all_tags ls

all_tags-append : (xs ys : List Text) → all_tags (xs ++ ys) ≡ all_tags xs + all_tags ys
unfolding all_tags
all_tags-append [] ys = omega arith
all_tags-append (x ∷ xs) ys = omega (arith, all_tags-append xs ys)

tags-join_lines : (ls : List Text) → tags (join_lines ls) ≡ all_tags ls
unfolding all_tags
tags-join_lines [] = refl
tags-join_lines (l ∷ []) = omega arith
tags-join_lines (l ∷ m ∷ ls) =
    omega (arith, tags-append l (10 ∷ join_lines (m ∷ ls)), tags-join_lines (m ∷ ls))

-- Jev's lead is one of three words.
lead_of-same : (t l : Text) → lead_of (some t) ≡ some l → t ≡ l
unfolding lead_of
lead_of-same t l e =
    elim (Bool-cases (includes (codes "hot" ∷ codes "warm" ∷ codes "cold" ∷ []) t)) [
      | inl there ↦ ground (arith, e, there)
      | inr not_there ↦ absurd (ground (arith, e, not_there))
    ]

lead_of-other :
    (t l : Text)
    → lead_of (some t) ≡ some l
    → text_eq (codes "hot") t ≡ false
    → text_eq (codes "warm") t ≡ false
    → text_eq (codes "cold") t ≡ true
unfolding lead_of includes
lead_of-other t l e no_hot no_warm = elim (Bool-cases (text_eq (codes "cold") t)) [
  | inl cold ↦ cold
  | inr no_cold ↦ absurd (ground (arith, e, no_hot, no_warm, no_cold))
]

tags-word :
    (w t l : Text)
    → tags (map upper_unit w) ≡ 0
    → lead_of (some t) ≡ some l
    → text_eq w t ≡ true
    → tags (map upper_unit l) ≡ 0
tags-word w t l plain e same =
    subst (λ (x : Text). tags (map upper_unit x) ≡ 0) (eq_of_text_eq w t same ∙ lead_of-same t l e)
      plain

tags-lead_of : (o : Option Text) (l : Text) → lead_of o ≡ some l → tags (map upper_unit l) ≡ 0
unfolding upper_unit
tags-lead_of none l e = unfold lead_of in cc
tags-lead_of (some t) l e = elim (Bool-cases (text_eq (codes "hot") t)) [
  | inl hot ↦ tags-word (codes "hot") t l refl e hot
  | inr no_hot ↦ elim (Bool-cases (text_eq (codes "warm") t)) [
    | inl warm ↦ tags-word (codes "warm") t l refl e warm
    | inr no_warm ↦ tags-word (codes "cold") t l refl e (lead_of-other t l e no_hot no_warm)
  ]
]

-- How many tags the priority opens
abbrev pub priority_tags : Option InquiryTriage → ℕ
priority_tags none = 0
priority_tags (some t) = elim t.urgency [
  | vip ↦ 2
  | hot_today ↦ 2
  | normal_day ↦ 0
  | low_interest ↦ 0
]

tags-priority_prefix : (o : Option InquiryTriage) → tags (priority_prefix o) ≡ priority_tags o
tags-priority_prefix none = refl
tags-priority_prefix (some t) =
    elim t.urgency
      as (λ u.
        tags (elim u [
          | vip ↦ 0xd83d ∷ 0xdea8 ∷ codes " <b>[VIP]</b> "
          | hot_today ↦ 0xd83d ∷ 0xdd25 ∷ codes " <b>[GẤP]</b> "
          | normal_day ↦ []
          | low_interest ↦ []
        ])
        ≡ elim u [ vip ↦ 2 | hot_today ↦ 2 | normal_day ↦ 0 | low_interest ↦ 0 ]) [
          | vip ↦ refl
          | hot_today ↦ refl
          | normal_day ↦ refl
          | low_interest ↦ refl
        ]

tags-optional_line : (o : Option Text) → all_tags (optional_line (codes "Ghi chú: ") o) ≡ 0
unfolding all_tags
tags-optional_line none = refl
tags-optional_line (some t) =
    omega
      (arith, tags-append (codes "Ghi chú: ") (escape_telegram_html t), tags-escape_telegram_html t)

tags-email_part : (o : Option Text) → tags (email_part o) ≡ 0
tags-email_part none = refl
tags-email_part (some t) =
    omega (arith, tags-append (codes " — ") (escape_telegram_html t), tags-escape_telegram_html t)

tags-entry :
    (k v : Text) → tags (escape_telegram_html k ++ (codes ": " ++ escape_telegram_html v)) ≡ 0
tags-entry k v = omega (
  arith,
  tags-append (escape_telegram_html k) (codes ": " ++ escape_telegram_html v),
  tags-append (codes ": ") (escape_telegram_html v),
  tags-escape_telegram_html k,
  tags-escape_telegram_html v,
)

tags-join_entries : (es : List (Text × Text)) → tags (join_entries es) ≡ 0
unfolding join_entries
tags-join_entries [] = refl
tags-join_entries ((k, v) ∷ []) = tags-entry k v
tags-join_entries ((k, v) ∷ e ∷ es) = omega (
  arith,
  tags-append (escape_telegram_html k ++ (codes ": " ++ escape_telegram_html v))
      (codes " • " ++ join_entries (e ∷ es)),
  tags-append (codes " • ") (join_entries (e ∷ es)),
  tags-entry k v,
  tags-join_entries (e ∷ es),
)

tags-payload_line : (p : Option (List (Text × Text))) → all_tags (payload_line p) ≡ 0
unfolding all_tags
tags-payload_line none = refl
tags-payload_line (some es) = elim (Bool-cases (is_empty (join_entries es))) [
  | inl e ↦ rw e refl
  | inr e ↦
      rw e (omega (arith, tags-append (codes "Cấu hình: ") (join_entries es), tags-join_entries es))
]

triage_inquiry-lead :
    (jev : Option JevAnswers) (t : InquiryTriage) (l : Text)
    → triage_inquiry jev ≡ some t
    → t.lead ≡ some l
    → tags (map upper_unit l) ≡ 0
unfolding triage_inquiry
triage_inquiry-lead none t l e f = cc
triage_inquiry-lead (some a) t l e f =
    tags-lead_of a.lead_score l (ap (λ (x : InquiryTriage). x.lead) (some-injective _ t e) ∙ f)

tags-lead_line :
    (jev : Option JevAnswers) (kind : InquiryType)
    → all_tags (lead_line kind (triage_inquiry jev)) ≡ 0
unfolding all_tags
tags-lead_line jev salon = refl
tags-lead_line jev bespoke = elim (Option-cases (triage_inquiry jev)) [
  | inl off ↦ rw off refl
  | inr (t, e) ↦ rw e (elim (Option-cases t.lead) [
    | inl no_lead ↦ rw no_lead refl
    | inr (l, f) ↦ rw f (
        omega (
          arith,
          tags-append (codes "Lead: ") (map upper_unit l ++ codes " (Jev)"),
          tags-append (map upper_unit l) (codes " (Jev)"),
          triage_inquiry-lead jev t l e f,
        ))
  ])
]

module _ (short : Text) (no_tags : tags short ≡ 0) (kind : InquiryType) (prefix : Text) where
  abbrev first_line : Text
  first_line =
      0xd83d ∷ 0xdcec ∷ codes " "
      ++ (prefix
          ++ (codes "<b>" ++ (label_of kind ++ (codes " mới</b> (" ++ (short ++ codes ")")))))

  tags-first_line : tags first_line ≡ 2 + tags prefix
  tags-first_line =
      let end = tags-append short (codes ")") in
      let rest = codes " mới</b> (" ++ (short ++ codes ")") in
      let tail : tags rest ≡ 1 =
        omega (arith, tags-append (codes " mới</b> (") (short ++ codes ")"), end, no_tags) in
      let label : tags (label_of kind) ≡ 0 = elim kind as (λ k. tags (label_of k) ≡ 0) [
        | salon ↦ refl
        | bespoke ↦ refl
      ] in
      omega (
        arith,
        tags-append (codes " ") (prefix ++ (codes "<b>" ++ (label_of kind ++ rest))),
        tags-append prefix (codes "<b>" ++ (label_of kind ++ rest)),
        tags-append (codes "<b>") (label_of kind ++ rest),
        tags-append (label_of kind) rest,
        tail,
        label,
      )

concierge_text-tags :
    (short : Text) (q : Inquiry) (jev : Option JevAnswers)
    → tags short ≡ 0
    → tags (concierge_text short q (triage_inquiry jev)) ≡ 2 + priority_tags (triage_inquiry jev)
unfolding concierge_text all_tags
concierge_text-tags short q jev no_tags =
    let triage = triage_inquiry jev in
    let head = first_line short no_tags q.kind (priority_prefix triage) in
    let name = escape_telegram_html q.name in
    let phone = escape_telegram_html q.phone in
    let who = codes "Khách: " ++ (name ++ (codes " — " ++ (phone ++ email_part q.email))) in
    let who_tags : tags who ≡ 0 = omega (
      arith,
      tags-append (codes "Khách: ") (name ++ (codes " — " ++ (phone ++ email_part q.email))),
      tags-append name (codes " — " ++ (phone ++ email_part q.email)),
      tags-append (codes " — ") (phone ++ email_part q.email),
      tags-append phone (email_part q.email),
      tags-escape_telegram_html q.name,
      tags-escape_telegram_html q.phone,
      tags-email_part q.email,
    ) in
    let noted = optional_line (codes "Ghi chú: ") q.message in
    let lines = lead_line q.kind triage ++ (noted ++ payload_line q.payload) in
    omega (
      arith,
      tags-join_lines (head ∷ who ∷ lines),
      all_tags-append (lead_line q.kind triage) (noted ++ payload_line q.payload),
      all_tags-append noted (payload_line q.payload),
      tags-payload_line q.payload,
      tags-lead_line jev q.kind,
      tags-optional_line q.message,
      tags-first_line short no_tags q.kind (priority_prefix triage),
      tags-priority_prefix triage,
      who_tags,
    )

-- An inquiry is always stored. If Jev calls it spam, no message is sent. Otherwise, also when Jev is
-- off or fails, the concierge gets a message, after which the customer gets a letter if there is an
-- address; and whatever the customer wrote, in the payload's keys and values too, and Jev answered,
-- that message has no sign `<` but the two of its own heading and the two of an urgent inquiry, if the
-- short id has none.
pub create_inquiry_lem :
    (short : ℕ → Text) (jev : Option JevAnswers) (dto : CreateInquiryDto) (db : InquiryDb)
    → tags (short db.next_id) ≡ 0
    → let triage = triage_inquiry jev in
      let row = inquiry_row dto triage db.next_id in
      let out = (create_inquiry short jev dto db).1 in
      (out.inquiries ≡ row ∷ db.inquiries)
      × (if spam_found triage
          then out.postings ≡ db.postings
          else ((text : Text) × (out.postings
                ≡ letters row.email ++ (to_concierge text ∷ db.postings))
              × (tags text ≡ 2 + priority_tags triage)))
unfolding create_inquiry
create_inquiry_lem short jev dto db no_tags =
    let triage = triage_inquiry jev in
    let row = inquiry_row dto triage db.next_id in
    elim (Bool-cases (spam_found triage)) [
      | inl spam ↦ rw spam (refl, refl)
      | inr fair ↦ rw fair (
        refl,
        (
          concierge_text (short db.next_id) row triage,
          refl,
          concierge_text-tags (short db.next_id) row jev no_tags,
        ),
      )
    ]
