-- ===== src/Catalogue/Filters.antt =====
-- The conditions of a query, as tests on a row. A condition that the code does not add is true.
use clock.Accounts.{and_then}
use clock.Base.{
  Bool, List, Number, Option, [], any, false, finite, get_or, if◌then◌else◌, is_empty, is_some, leb,
  ltb, none, not, pos, pos_part, some, suc, true, ◌&&◌, ◌++◌, ◌||◌, ◌∷◌,
}
use clock.Catalogue.{ProductQuery, Watch}
use clock.Text.{Text, codes, includes, starts_with, text_eq, to_lower_case, trim}

-- `contains` without regard to case
unfoldable pub contains : Text → Text → Bool
unfolding starts_with
contains p [] = is_empty p
contains p (c ∷ s) = starts_with p (c ∷ s) || contains p s

abbrev pub contains_any_case : Text → Text → Bool
contains_any_case p s = contains (to_lower_case p) (to_lower_case s)

-- `hasSome`
abbrev pub has_some : List Text → Watch → Bool
has_some names w = any (λ n. includes w.complications n) names

abbrev pub is_in : Text → Watch → Bool
is_in collection w = text_eq w.collection collection

-- The conditions that one name of a movement adds to the disjunction
unfoldable pub movement_where : Text → List (Watch → Bool)
unfolding text_eq includes
movement_where id =
    if text_eq id (codes "tourbillon")
    then is_in (codes "tourbillon") ∷ has_some (codes "Tourbillon" ∷ []) ∷ []
    else if text_eq id (codes "automatic")
    then (λ w. is_in (codes "classic") w || is_in (codes "grand-complication") w) ∷ []
    else if text_eq id (codes "manual")
    then is_in (codes "skeleton") ∷ []
    else if text_eq id (codes "chrono")
    then is_in (codes "sport")
      ∷ has_some (codes "Chronograph" ∷ codes "Chronograph Flyback" ∷ codes "Date" ∷ [])
      ∷ []
    else []

unfoldable pub movements_where : List Text → List (Watch → Bool)
unfolding movement_where
movements_where [] = []
movements_where (id ∷ ids) = movement_where id ++ movements_where ids

abbrev pub is_made_of : Text → Watch → Bool
is_made_of material w = contains_any_case material w.case_material

unfoldable pub material_where : Text → Option (Watch → Bool)
unfolding text_eq contains to_lower_case
material_where m =
    if text_eq m (codes "rose")
    then some (is_made_of (codes "rose"))
    else if text_eq m (codes "platinum")
    then some (is_made_of (codes "platinum"))
    else if text_eq m (codes "titanium")
    then some (is_made_of (codes "titanium"))
    else if text_eq m (codes "ceramic")
    then some (λ w. is_made_of (codes "carbon") w || is_made_of (codes "ceramic") w)
    else none

unfoldable pub size_where : Text → Option (Watch → Bool)
unfolding text_eq
size_where s =
    if text_eq s (codes "36")
    then some (λ w. leb w.diameter 3750)
    else if text_eq s (codes "39")
    then some (λ w. leb w.diameter 3950)
    else if text_eq s (codes "40")
    then some (λ w. ltb 3950 w.diameter && leb w.diameter 4050)
    else if text_eq s (codes "41")
    then some (λ w. ltb 4050 w.diameter && ltb w.diameter 4250)
    else if text_eq s (codes "42.5")
    then some (λ w. leb 4250 w.diameter)
    else none

unfoldable pub complication_where : Text → List (Watch → Bool)
unfolding text_eq includes
complication_where c =
    if text_eq c (codes "perpetual")
    then has_some (codes "Perpetual Calendar" ∷ []) ∷ []
    else if text_eq c (codes "moonphase")
    then has_some (codes "Moonphase" ∷ []) ∷ []
    else if text_eq c (codes "repeater")
    then has_some (codes "Minute repeater" ∷ []) ∷ []
    else if text_eq c (codes "skeleton")
    then has_some (codes "Skeleton" ∷ []) ∷ []
    else []

unfoldable pub complications_where : List Text → List (Watch → Bool)
unfolding complication_where
complications_where [] = []
complications_where (c ∷ cs) = complication_where c ++ complications_where cs

-- `if (ors.length) and.push({ OR: ors })`
unfoldable pub any_of : List (Watch → Bool) → Watch → Bool
any_of tests w = is_empty tests || any (λ (t : Watch → Bool). t w) tests

abbrev pub optional_test : Option (Watch → Bool) → Watch → Bool
optional_test none w = true
optional_test (some t) w = t w

unfoldable pub condition_where : Option Text → Watch → Bool
unfolding text_eq
condition_where none w = true
condition_where (some c) w =
    if text_eq c (codes "PRE_OWNED")
    then elim w.condition [ none ↦ false | some d ↦ text_eq d (codes "PRE_OWNED") ]
    else if text_eq c (codes "NEW")
    then elim w.condition [ none ↦ true | some d ↦ text_eq d (codes "NEW") ]
    else true

-- A bound counts if it is finite and positive.
unfoldable pub price_from : Number → Watch → Bool
price_from (finite (pos (suc n))) w = leb (suc n) (pos_part w.price_usd)
price_from _ w = true

unfoldable pub price_to : Number → Watch → Bool
price_to (finite (pos (suc n))) w = leb (pos_part w.price_usd) (suc n)
price_to _ w = true

-- All conditions but those of the search
unfoldable pub catalogue_where : Bool → ProductQuery → Watch → Bool
unfolding movements_where complications_where material_where size_where any_of condition_where
    price_from price_to text_eq
catalogue_where include_hidden query w =
    (include_hidden || w.in_boutique)
    && (is_empty (trim query.collection) || is_in (trim query.collection) w)
    && any_of (movements_where query.movements) w
    && optional_test (and_then query.material material_where) w
    && optional_test (and_then query.size size_where) w
    && any_of (complications_where query.complications) w
    && condition_where query.condition w
    && price_from query.min_usd w
    && price_to query.max_usd w

abbrev pub is_finite : Number → Bool
is_finite (finite z) = true
is_finite _ = false

unfoldable pub has_filters : ProductQuery → Bool
unfolding material_where size_where
has_filters query =
    not (is_empty query.movements)
    || is_some (and_then query.material material_where)
    || is_some (and_then query.size size_where)
    || not (is_empty query.complications)
    || not (is_empty (get_or query.condition []))
    || is_finite query.min_usd
    || is_finite query.max_usd

abbrev pub name_or_reference : Text → Watch → Bool
name_or_reference q w = contains_any_case q w.name || contains_any_case q w.reference
