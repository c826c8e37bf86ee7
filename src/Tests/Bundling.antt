-- ===== src/Tests/Bundling.antt =====
-- Submitting the contents of a bundle.
use ebdental_api.Prelude.{◌≡◌, ◌↔◌, refl, false, none, List, [], ◌∷◌, All}
use ebdental_api.Http.{ok}
use ebdental_api.Catalog.{BundleRow}
use ebdental_api.Bundles.Accepted.{IsContents, build_bundle_rows-accepts}
use ebdental_api.Bundles.Submit.{
  Item, build_bundle_rows, GroupIn, GroupRow, default_count, build_option_groups,
  build_option_groups-one_default,
}
use ebdental_api.Tests.Shop.{ok_or, catalog}

abbrev submitted : List Item
submitted = (2, 5) ∷ (1, 1) ∷ []

abbrev saved_rows : List BundleRow
saved_rows = record { id = 9; product_id = 1; qty = 4 } ∷ []

build_bundle_rows-accepts_example :
    (build_bundle_rows catalog none submitted ≡ ok submitted)
    ↔ (IsContents catalog none submitted × (submitted ≡ submitted))
build_bundle_rows-accepts_example = build_bundle_rows-accepts catalog none submitted submitted

-- Two options, neither of them flagged.
abbrev group_in : GroupIn
group_in = record {
  name = [];
  choices =
      record { product_id = 1; qty = 1; price_delta = none; is_default = false }
      ∷ record { product_id = 2; qty = 1; price_delta = none; is_default = false }
      ∷ [];
}

abbrev group_rows : List GroupRow
unfolding build_option_groups
group_rows = ok_or [] (build_option_groups catalog (group_in ∷ []))

group_rows-built : build_option_groups catalog (group_in ∷ []) ≡ ok group_rows
unfolding build_option_groups
group_rows-built = refl

build_option_groups-one_default_example :
    All (λ (row : GroupRow). default_count row.choices ≡ 1) group_rows
build_option_groups-one_default_example =
    build_option_groups-one_default catalog (group_in ∷ []) group_rows-built
