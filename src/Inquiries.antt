-- ===== src/Inquiries.antt =====
-- backend/src/inquiries/inquiries.controller.ts and the triage of
-- backend/src/common/jev.ts. What the model of Jev answers is a parameter. The payload of a
-- configurator is what `normalizePayload` keeps of it: its entries, each value as `String` writes it.
-- The newsletter is left out. `slice(-6)` of an id is a parameter. Signs beyond the basic plane are
-- written as their two code units.
pub mod Laws
use clock.Base.{
  Bool, List, Option, [], false, if◌then◌else◌, is_empty, leb, map, none, some, take, true, ℕ, ◌++◌,
  ◌+◌, ◌==◌, ◌∷◌,
}
use clock.Listings.Update.{or_null, upper_unit}
use clock.Text.{Text, codes, includes, text_eq, trim}

pub data InquiryType : Type 0 where
  salon bespoke : InquiryType

pub data InquiryStatus : Type 0 where
  new_inquiry spam_inquiry : InquiryStatus

pub data Urgency : Type 0 where
  vip hot_today normal_day low_interest : Urgency

pub record Inquiry : Type 0 where
  pub id : ℕ
  pub kind : InquiryType
  pub name : Text
  pub phone : Text
  pub email : Option Text
  pub message : Option Text
  pub payload : Option (List (Text × Text))
  pub status : InquiryStatus

-- `enqueueText` and `enqueueEmail`, the letter's text left out
pub data Posting : Type 0 where
  to_concierge : Text → Posting
  to_customer : Text → Posting

pub record InquiryDb : Type 0 where
  pub inquiries : List Inquiry
  pub postings : List Posting
  pub next_id : ℕ

pub record CreateInquiryDto : Type 0 where
  pub kind : Text
  pub name : Text
  pub phone : Text
  pub email : Option Text
  pub message : Option Text
  -- after `normalizePayload`
  pub payload : Option (List (Text × Text))

-- Jev's answers: a score in thousandths, if it is a number, and two choices, if they are texts
pub record JevAnswers : Type 0 where
  pub spam : Option ℕ
  pub urgency : Option Text
  pub lead_score : Option Text

pub record InquiryTriage : Type 0 where
  pub is_spam : Bool
  pub urgency : Urgency
  pub lead : Option Text

unfoldable pub urgency_of : Option Text → Urgency
unfolding text_eq
urgency_of none = normal_day
urgency_of (some u) =
    if text_eq u (codes "vip")
    then vip
    else if text_eq u (codes "hot")
    then hot_today
    else if text_eq u (codes "low")
    then low_interest
    else normal_day

unfoldable pub lead_of : Option Text → Option Text
unfolding includes
lead_of none = none
lead_of (some l) =
    if includes (codes "hot" ∷ codes "warm" ∷ codes "cold" ∷ []) l then some l else none

-- `triageInquiry`, of Jev's answers; `none` is a Jev that is off or fails.
unfoldable pub triage_inquiry : Option JevAnswers → Option InquiryTriage
unfolding urgency_of lead_of
triage_inquiry none = none
triage_inquiry (some a) = some (record {
  is_spam = elim a.spam [ none ↦ false | some score ↦ leb 850 score ];
  urgency = urgency_of a.urgency;
  lead = lead_of a.lead_score;
})

-- `escapeTelegramHtml`: the three replacements, `&` first
abbrev pub escape_unit : ℕ → Text
escape_unit c =
    if c == b'&'
    then codes "&amp;"
    else if c == b'<'
    then codes "&lt;"
    else if c == b'>'
    then codes "&gt;"
    else c ∷ []

unfoldable pub escape_telegram_html : Text → Text
escape_telegram_html [] = []
escape_telegram_html (c ∷ s) = escape_unit c ++ escape_telegram_html s

unfoldable pub type_of : Text → InquiryType
unfolding text_eq
type_of t = if text_eq t (codes "BESPOKE") then bespoke else salon

-- `?.trim().slice(0, n) || null`
abbrev pub trimmed_or_null : ℕ → Option Text → Option Text
trimmed_or_null n none = none
trimmed_or_null n (some t) = or_null (take n (trim t))

abbrev pub is_bespoke : InquiryType → Bool
is_bespoke bespoke = true
is_bespoke salon = false

abbrev pub label_of : InquiryType → Text
label_of bespoke = codes "Đơn bespoke"
label_of salon = codes "Yêu cầu đặt lịch"

abbrev pub priority_prefix : Option InquiryTriage → Text
priority_prefix none = []
priority_prefix (some t) = elim t.urgency [
  | vip ↦ 0xd83d ∷ 0xdea8 ∷ codes " <b>[VIP]</b> "
  | hot_today ↦ 0xd83d ∷ 0xdd25 ∷ codes " <b>[GẤP]</b> "
  | normal_day ↦ []
  | low_interest ↦ []
]

-- A line that may be missing
abbrev pub optional_line : Text → Option Text → List Text
optional_line head none = []
optional_line head (some t) = (head ++ escape_telegram_html t) ∷ []

abbrev pub lead_line : InquiryType → Option InquiryTriage → List Text
lead_line salon triage = []
lead_line bespoke none = []
lead_line bespoke (some t) = elim t.lead [
  | none ↦ []
  | some l ↦ (codes "Lead: " ++ (map upper_unit l ++ codes " (Jev)")) ∷ []
]

abbrev pub email_part : Option Text → Text
email_part none = []
email_part (some e) = codes " — " ++ escape_telegram_html e

-- `join("\n")`
abbrev pub join_lines : List Text → Text
join_lines [] = []
join_lines (l ∷ []) = l
join_lines (l ∷ m ∷ ls) = l ++ (10 ∷ join_lines (m ∷ ls))

-- `join(" • ")` of the payload's entries
unfoldable pub join_entries : List (Text × Text) → Text
unfolding escape_telegram_html
join_entries [] = []
join_entries ((k, v) ∷ []) = escape_telegram_html k ++ (codes ": " ++ escape_telegram_html v)
join_entries ((k, v) ∷ e ∷ es) =
    (escape_telegram_html k ++ (codes ": " ++ escape_telegram_html v))
    ++ (codes " • " ++ join_entries (e ∷ es))

abbrev pub payload_line : Option (List (Text × Text)) → List Text
payload_line none = []
payload_line (some entries) =
    let opts = join_entries entries in
    if is_empty opts then [] else (codes "Cấu hình: " ++ opts) ∷ []

unfoldable pub concierge_text : Text → Inquiry → Option InquiryTriage → Text
unfolding escape_telegram_html upper_unit join_entries
concierge_text short_id q triage = join_lines (
    (0xd83d ∷ 0xdcec ∷ codes " "
      ++ (priority_prefix triage
          ++ (codes "<b>" ++ (label_of q.kind ++ (codes " mới</b> (" ++ (short_id ++ codes ")"))))))
    ∷ (codes "Khách: "
        ++ (escape_telegram_html q.name
            ++ (codes " — " ++ (escape_telegram_html q.phone ++ email_part q.email))))
    ∷ (lead_line q.kind triage
        ++ (optional_line (codes "Ghi chú: ") q.message ++ payload_line q.payload)))

abbrev pub letters : Option Text → List Posting
letters none = []
letters (some e) = to_customer e ∷ []

abbrev pub spam_found : Option InquiryTriage → Bool
spam_found none = false
spam_found (some t) = t.is_spam

-- The row of an inquiry
unfoldable pub inquiry_row : CreateInquiryDto → Option InquiryTriage → ℕ → Inquiry
unfolding type_of trim
inquiry_row dto triage id = record {
  id = id;
  kind = type_of dto.kind;
  name = take 120 (trim dto.name);
  phone = take 40 (trim dto.phone);
  email = trimmed_or_null 160 dto.email;
  message = trimmed_or_null 2000 dto.message;
  payload = dto.payload;
  status = if spam_found triage then spam_inquiry else new_inquiry;
}

-- The id of the inquiry, and the tables afterwards; postings are listed newest first.
unfoldable pub create_inquiry :
    (ℕ → Text) → Option JevAnswers → CreateInquiryDto → InquiryDb → ℕ × InquiryDb
unfolding triage_inquiry inquiry_row concierge_text
create_inquiry short jev dto db =
    let triage = triage_inquiry jev in
    let row = inquiry_row dto triage db.next_id in
    let stored = record db { inquiries = row ∷ db.inquiries; next_id = db.next_id + 1 } in
    if spam_found triage then (row.id, stored) else (
      row.id,
      record stored {
        postings =
            letters row.email
            ++ (to_concierge (concierge_text (short row.id) row triage) ∷ db.postings);
      },
    )
