-- ===== src/Inventory/TagCatalog.antt =====
-- The catalogue of modules/inventory/src/tag-service.js: every key in use, its values, and how many resources carry
-- each.
use Prim.Native.String.{compare}
use package.text.Mathlib.Text.{is_lt}
use nuvrion.Common.{ℕ, ◌+◌, String, List, [], ◌∷◌, map, or_else, sort_by, get, put, values, Assoc}
use nuvrion.Inventory.TagStore.{TagService}

pub record Use : Type 0 where
  pub key : String
  pub resource_count : ℕ
  pub counts : Assoc ℕ

-- { key, resourceCount: 0, values: new Map() }
unfoldable pub unused : String → Use
unused key = record { key = key; resource_count = 0; counts = [] }

-- One more resource that carries this value of the key.
unfoldable pub with_value : String → Use → Use
with_value value u = record u {
  resource_count = u.resource_count + 1;
  counts = put value (or_else (get value u.counts) 0 + 1) u.counts;
}

unfoldable pub count_tag : String → String → Assoc Use → Assoc Use
unfolding unused with_value
count_tag key value uses = put key (with_value value (or_else (get key uses) (unused key))) uses

unfoldable pub count_tags : Assoc String → Assoc Use → Assoc Use
unfolding count_tag
count_tags [] uses = uses
count_tags ((key, value) ∷ m) uses = count_tags m (count_tag key value uses)

unfoldable pub count_all : List (Assoc String) → Assoc Use → Assoc Use
unfolding count_tags
count_all [] uses = uses
count_all (m ∷ ms) uses = count_all ms (count_tags m uses)

-- The values of a key in their order.
unfoldable pub with_sorted : Use → Use
unfolding sort_by
with_sorted u = record u { counts = sort_by (λ a b. is_lt (compare b.0 a.0)) u.counts }

-- catalog()
unfoldable pub catalog : TagService → List Use
unfolding count_all with_sorted sort_by values
catalog s =
    map with_sorted
      (sort_by (λ a b. is_lt (compare b.key a.key)) (values (count_all (values s.tags) [])))
