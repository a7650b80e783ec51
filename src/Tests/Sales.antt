-- ===== src/Tests/Sales.antt =====
-- The theorems on promotions and on the queue of messages, at concrete inputs.
use clock.Base.{List, [], arith, false, none, pos, refl, some, true, ◌∷◌, ◌≡◌}
use clock.Notify.{
  Queue, QueueReach, by_enqueue, by_finish, by_fire, by_reply, enqueue, finish, fire, no_messages,
  queue_start, queue_step, reply, schedule,
}
use clock.Notify.Sound.{IsSound, QueueReach-IsSound}
use clock.Promotions.{
  Listing, Promotion, PromotionInput, Shelf, create_promotion, find_clash, fit_dates, fit_discount,
  fraction, snapshot_of,
}
use clock.Promotions.Apart.{
  AllApart, PromotionStep, promotion_closed, promotion_made, promotion_steps,
  promotion_steps-AllApart,
}
use clock.Promotions.Close.{close_promotion, find_listing}
use clock.Promotions.RoundTrip.{HasUniqueSlugs, create_promotion-close_promotion}
use clock.Text.{Text, codes, includes, is_space, text_eq, trim, trim_end, trim_start}

abbrev steel_listing : Listing
steel_listing = record { slug = codes "steel"; price_usd = pos 2000; price_vnd = 50_400_000 }

abbrev shelf : Shelf
shelf = record {
  listings = steel_listing ∷ [];
  promotions = [];
  product_events = [];
  indexed = [];
  next_promotion = 1;
}

abbrev summer : PromotionInput
summer = record {
  name = codes "He";
  listing_slugs = codes "steel" ∷ [];
  discount_pct = fraction (pos 10) 0;
  starts_at = some 100;
  ends_at = some 200;
}

abbrev summer_row : Promotion
summer_row = record {
  id = 1;
  name = codes "He";
  listing_slugs = codes "steel" ∷ [];
  discount_pct = fraction (pos 10) 0;
  starts_at = 100;
  ends_at = 200;
  active = true;
  price_snapshot = (codes "steel", pos 2000) ∷ [];
  created_by = none;
}

-- The shelf while the promotion runs
abbrev cheaper : Listing
cheaper = record steel_listing { price_usd = pos 1800; price_vnd = 45_360_000 }

abbrev on_sale : Shelf
on_sale = record shelf { listings = cheaper ∷ []; promotions = summer_row ∷ []; next_promotion = 2 }

abbrev why : Text
why = codes "het han"

shelf-HasUniqueSlugs : HasUniqueSlugs shelf
shelf-HasUniqueSlugs s l h = (λ e. ground (arith, h, e), tt)

create_promotion-close_promotion_example :
    (l : Listing) × (find_listing (codes "steel") (close_promotion 1 why on_sale).1 ≡ some l)
    × (l.price_usd ≡ pos 2000)
unfolding create_promotion fit_discount fit_dates find_clash snapshot_of includes text_eq trim
    trim_start trim_end is_space
create_promotion-close_promotion_example =
    create_promotion-close_promotion summer none 50 why shelf on_sale summer_row (codes "steel")
      steel_listing cheaper shelf-HasUniqueSlugs refl refl refl refl refl

-- The second is refused, and the first is closed.
abbrev summer_steps : List PromotionStep
summer_steps =
    promotion_made 10 summer none ∷ promotion_made 5 summer none ∷ promotion_closed 5 1 why ∷ []

promotion_steps-AllApart_example :
    let (later, db') = promotion_steps summer_steps (50, shelf) in AllApart later db'.promotions
promotion_steps-AllApart_example = promotion_steps-AllApart summer_steps 50 shelf tt

-- A message that fails once, and is then waiting with a timer set.
abbrev m1 : Queue
m1 = enqueue (codes "telegram") 0 no_messages

abbrev m2 : Queue
m2 = fire 0 m1

abbrev m3 : Queue
m3 = reply 0 false 5 m2

abbrev m4 : Queue
m4 = finish 0 6 m3

one_failure : QueueReach 1 m4
unfolding enqueue schedule
one_failure =
    queue_step
      (queue_step
        (queue_step (queue_step queue_start (by_enqueue (codes "telegram") 0))
          (by_fire 0 0 refl (omega arith)))
        (by_reply 0 false 5))
      (by_finish 0 6)

QueueReach-IsSound_example : IsSound 1 m4
QueueReach-IsSound_example = QueueReach-IsSound 1 m4 one_failure
