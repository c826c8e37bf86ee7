-- ===== src/Catalog.antt =====
-- The catalogue rows that pricing reads (app/models.py): products, promotions, sets, the slots of a
-- set, and the (product, quantity) rows that the three kinds of bundle hold.
--
-- A non-negative Decimal is a whole number of millionths, so that a price in cents times a percentage
-- with two decimals, over a hundred, is exact.
use ebdental_api.Prelude.{ℕ, Bool, Option, List, Text}
use ebdental_api.Prelude.Int.{ℤ}

abbrev pub Money : Type 0
Money = ℕ

abbrev pub cent : Money
cent = 10000

abbrev pub dollar : Money
dollar = 1000000

pub data DiscountType : Type 0 where
  percent cash : DiscountType

-- PromotionItem, SetItem and ProductFreeItem: one member of a bundle. `row.product` is read through
-- the catalogue.
pub record BundleRow : Type 0 where
  pub id : ℕ
  pub product_id : ℕ
  pub qty : ℕ

pub record Product : Type 0 where
  pub id : ℕ
  pub product_name : Text
  pub product_code : Option Text
  pub uom : Option Text
  pub price : Money
  pub list_price : Money
  pub discount_type : DiscountType
  pub discount : ℕ
  pub is_purchasable : Bool
  pub free_items : List BundleRow

pub record Promotion : Type 0 where
  pub id : ℕ
  pub promotion_name : Text
  pub price : Money
  pub old_price : Option Money
  pub start_date : ℕ
  pub end_date : ℕ
  pub items : List BundleRow

-- SetOptionChoice. `price_delta` is NULL where the upcharge is to be derived.
pub record Choice : Type 0 where
  pub id : ℕ
  pub product_id : ℕ
  pub qty : ℕ
  pub price_delta : Option ℤ
  pub is_default : Bool
  pub sort_order : ℕ

-- SetOptionGroup: one swappable slot of a set.
pub record OptionGroup : Type 0 where
  pub id : ℕ
  pub name : Text
  pub sort_order : ℕ
  pub choices : List Choice

pub record Bundle : Type 0 where
  pub id : ℕ
  pub set_name : Text
  pub price : Money
  pub old_price : Option Money
  pub items : List BundleRow
  pub option_groups : List OptionGroup

-- The catalogue tables, by primary key.
pub record Catalog : Type 0 where
  pub product : ℕ → Option Product
  pub promotion : ℕ → Option Promotion
  pub bundle : ℕ → Option Bundle

-- A choice exposes the same `.product` and `.qty` as a fixed member.
abbrev pub row_of_choice : Choice → BundleRow
row_of_choice c = record { id = c.id; product_id = c.product_id; qty = c.qty }
