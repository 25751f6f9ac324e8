-- ===== src/Inventory/TagCatalogTests.antt =====
-- The catalogue of three resources.
use nuvrion.Common.{String, true, none, some, List, [], ◌∷◌, Assoc, All, values, get, ◌≡◌, refl}
use nuvrion.Inventory.TagMaps.{Distinct}
use nuvrion.Inventory.TagStore.{TagService}
use nuvrion.Inventory.TagCatalog.{catalog}
use nuvrion.Inventory.TagCounts.{IsCounted, catalog-IsCounted}

abbrev service : TagService
service = record {
  tags =
      ("vm3", ("owner", "it") ∷ ("env", "prod") ∷ [])
      ∷ ("vm1", ("env", "test") ∷ [])
      ∷ ("vm2", ("env", "prod") ∷ [])
      ∷ [];
  has_file = true;
  disk = none;
}

-- Keys and values in their order, not that of the resources.
three_resources :
    catalog service
    ≡ record { key = "env"; resource_count = 3; counts = ("prod", 2) ∷ ("test", 1) ∷ [] }
      ∷ record { key = "owner"; resource_count = 1; counts = ("it", 1) ∷ [] }
      ∷ []
unfolding catalog nuvrion.Common.put get
three_resources = refl

distinct : All Distinct (values service.tags)
unfolding values get
distinct = ((refl, (refl, tt)), ((refl, tt), ((refl, tt), tt)))

catalog-IsCounted_example : All (IsCounted (values service.tags)) (catalog service)
catalog-IsCounted_example = catalog-IsCounted service distinct
