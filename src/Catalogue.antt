-- ===== src/Catalogue.antt =====
-- The public catalogue: `list`, `listBySlugs` and `bySlug` of
-- backend/src/products/products.service.ts. The search engine, the suggestion for an empty search and
-- the database's order of rows are parameters (Engine). The numbers of a query are whole.
pub mod Filters
pub mod Listing
pub mod Laws
use clock.Base.{Bool, List, Number, Option, ℕ, ℤ}
use clock.Text.{Text}

pub record Watch : Type 0 where
  pub slug : Text
  pub name : Text
  pub reference : Text
  pub collection : Text
  pub price_usd : ℤ
  pub case_material : Text
  -- in hundredths of a millimetre
  pub diameter : ℕ
  pub complications : List Text
  pub condition : Option Text
  pub in_boutique : Bool

pub data Sort : Type 0 where
  featured price_asc price_desc newest : Sort

pub record ProductQuery : Type 0 where
  pub q : Text
  pub collection : Text
  pub sort : Sort
  pub page : Number
  pub limit : Number
  pub movements : List Text
  pub material : Option Text
  pub size : Option Text
  pub complications : List Text
  pub condition : Option Text
  pub min_usd : Number
  pub max_usd : Number

pub record Engine : Type 0 where
  -- is a search engine configured, and `searchSlugs`, which throws when it cannot be reached
  pub enabled : Bool
  pub search_slugs : Text → ℕ → Bool → Option (List Text)
  -- `searchHint`
  pub search_hint : Text → Option Text
  -- `orderBy`
  pub order_by : Sort → List Watch → List Watch

pub record ProductPage : Type 0 where
  pub items : List Watch
  pub total : ℕ
  pub page : ℕ
  pub limit : ℕ
  pub hint : Option Text
