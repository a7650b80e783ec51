-- ===== src/Tests/Desk.antt =====
-- A repeated order, the listings of the back office and an inquiry at concrete inputs.
use clock.Base.{
  List, Option, [], arith, false, finite, if◌then◌else◌, map, none, pos, refl, some, ◌++◌, ◌+◌, ◌∷◌,
  ◌≡◌,
}
use clock.Db.{OrderStatus}
use clock.Db.Monad.{ok}
use clock.Inquiries.{
  CreateInquiryDto, InquiryDb, JevAnswers, create_inquiry, inquiry_row, letters, spam_found,
  to_concierge, triage_inquiry,
}
use clock.Inquiries.Laws.{create_inquiry_lem, priority_tags, tags}
use clock.Listings.{
  ListingDb, ProductBody, ProductListing, create_product, first_stock, insert_new, price_of,
}
use clock.Listings.Edits.{Edit, edit, edits, edits-IsCatalogue, made_change, made_new}
use clock.Listings.Laws.{IsCatalogue}
use clock.Listings.Update.{
  changed_row, date_change, next_count, update_found, update_product, write_row,
}
use clock.Orders.Create.Input.{CreateOrderOpts, normalize_idem_key, trimmed}
use clock.Orders.Create.Replay.{item_slugs, result_of, to_create_result}
use clock.Orders.Create.Retry.{finish_order-create, lacks_person}
use clock.Orders.Create.Service.{create, finish_order}
use clock.Pricing.{line_price, strap_delta, strap_options}
use clock.Samples.{sample_order, shop_with, toy_context, toy_request}
use clock.Text.{Text, codes, is_space, text_eq, trim, trim_end, trim_start}

abbrev keyed_opts : CreateOrderOpts
keyed_opts = record { idempotency_key = some (codes "key-00000001"); via_agent = false }

toy_person : lacks_person (toy_request (codes "vnpay")) ≡ false
unfolding trim trim_start trim_end is_space
toy_person = refl

toy_key : normalize_idem_key keyed_opts.idempotency_key ≡ some (codes "key-00000001")
unfolding normalize_idem_key trim trim_start trim_end is_space
toy_key = refl

finish_order-create_example :
    let order = sample_order 1 OrderStatus.pending in
    let input = toy_request (codes "vnpay") in
    let (r, db') =
      finish_order toy_context
        (some (codes "key-00000001"))
        (some 7)
        (trimmed input.contact)
        none
        order
        (shop_with OrderStatus.pending) in
    ((url : Option Text) × (r ≡ ok (to_create_result order (item_slugs order.items) url)))
    × (create toy_context input (some 7) keyed_opts db' ≡ (ok (result_of order), db'))
finish_order-create_example =
    finish_order-create toy_context (codes "key-00000001") (some 7) none
      (sample_order 1 OrderStatus.pending) (sample_order 1 OrderStatus.pending)
      (shop_with OrderStatus.pending) (toy_request (codes "vnpay")) keyed_opts refl refl toy_person
      refl toy_key

abbrev gold_body : ProductBody
gold_body = record {
  slug = some (codes "gold");
  name = some (codes "Gold");
  reference = some (codes "G-1");
  collection = none;
  price_usd = some (finite (pos 9000));
  stock = none;
  short_description = none;
  strap_label = none;
  calibre = none;
  case_material = none;
  narrative = none;
  in_boutique = none;
  condition = none;
  certified_by = none;
  certified_at = none;
  service_history = none;
  rating_count = none;
}

abbrev dearer_body : ProductBody
dearer_body = record gold_body { price_usd = some (finite (pos 9500)); reference = none }

abbrev two_edits : List Edit
two_edits = made_new gold_body ∷ made_change (codes "gold") dearer_body ∷ []

abbrev no_listings : ListingDb
no_listings = record { listings = []; events = [] }

edits-IsCatalogue_example : IsCatalogue (edits (λ t. none) (some 1) two_edits no_listings).listings
edits-IsCatalogue_example =
    edits-IsCatalogue (λ t. none) (some 1) two_edits no_listings
      (record { priced = tt; slugs = λ s. omega arith; references = λ r. omega arith })

-- The second edit changes the price of the row that the first one made.
two_edits_run :
    map
      (λ (p : ProductListing). p.price_vnd)
      (edits (λ t. none) (some 1) two_edits no_listings).listings
    ≡ 239_400_000 ∷ []
unfolding edits edit create_product update_product update_found write_row changed_row insert_new
    price_of first_stock next_count date_change line_price strap_delta strap_options text_eq trim
    trim_start trim_end is_space
two_edits_run = refl

abbrev rude_inquiry : CreateInquiryDto
rude_inquiry = record {
  kind = codes "BESPOKE";
  name = codes "<b>An</b>";
  phone = codes "0901234567";
  email = some (codes "an@example.com");
  message = none;
  payload = some ((codes "<i>", codes "a < b") ∷ (codes "strap", codes "steel") ∷ []);
}

abbrev toy_jev : Option JevAnswers
toy_jev =
    some (record { spam = some 100; urgency = some (codes "vip"); lead_score = some (codes "hot") })

abbrev no_inquiries : InquiryDb
no_inquiries = record { inquiries = []; postings = []; next_id = 5 }

create_inquiry_lem_example :
    let triage = triage_inquiry toy_jev in
    let row = inquiry_row rude_inquiry triage 5 in
    let out = (create_inquiry (λ id. codes "abc123") toy_jev rude_inquiry no_inquiries).1 in
    (out.inquiries ≡ row ∷ [])
    × (if spam_found triage
        then out.postings ≡ []
        else ((text : Text) × (out.postings ≡ letters row.email ++ (to_concierge text ∷ []))
            × (tags text ≡ 2 + priority_tags triage)))
create_inquiry_lem_example =
    create_inquiry_lem (λ id. codes "abc123") toy_jev rude_inquiry no_inquiries refl
