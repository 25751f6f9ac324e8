-- ===== src/Schedules/Tests.antt =====
-- The summary of a run over three machines, one of them gone.
use nuvrion.Common.{String, none, List, [], ◌∷◌}
use nuvrion.Schedules.Runs.{submitted, failed, Result, Item}

abbrev item_of : String → Result → Item
item_of id result = record {
  resource_id = id;
  name = none;
  result = result;
  detail = none;
  task_id = none;
}

abbrev results : List Item
results = item_of "vm1" submitted ∷ item_of "vm2" failed ∷ []
