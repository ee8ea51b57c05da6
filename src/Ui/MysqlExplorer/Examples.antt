-- ===== src/Ui/MysqlExplorer/Examples.antt =====
-- The theorem on src/ui/mysql_explorer.rs at a page with two schemas that is loaded, and one of them
-- twice.
use dbotter.Prelude.{◌≤◌, ◌≡◌, refl, false, none, [], ◌∷◌}
use dbotter.Text.{Text, codes}
use dbotter.Model.Pages.{
  CatalogLevel, CatalogNode, CatalogNodeKind, CatalogNodeIdentity, CatalogPage,
}
use dbotter.Drivers.Catalog.{retain}
use dbotter.Drivers.Catalog.Limits.{IsBudgeted}
use dbotter.Ui.MysqlExplorer.{
  MysqlExplorerState, new_explorer, handle_loaded, for_page, retained_counts,
}
use dbotter.Ui.MysqlExplorer.Shown.{Shows}
use dbotter.Ui.MysqlExplorer.Budget.{shown_nodes, start, loaded, Reach-retained_counts}

abbrev schema_node : Text → CatalogNode
schema_node name = record {
  identity = CatalogNodeIdentity.schema name;
  kind = CatalogNodeKind.schema;
  name = name;
  type_name = none;
  nullable = none;
  ordinal = none;
}

abbrev two_schemas : CatalogPage
two_schemas = record {
  identity = record { profile_id = codes "p"; profile_generation = 4; operation_id = 6 };
  level = CatalogLevel.schemas;
  parent = none;
  nodes = schema_node (codes "a") ∷ schema_node (codes "b") ∷ schema_node (codes "a") ∷ [];
  next_token = none;
  retained_counts = record { schemas = 0; relations = 0; columns = 0; columns_in_relation = 0 };
  retained_utf8_bytes = 0;
  truncated = false;
  stale = false;
  loaded_at = [];
}

abbrev explored : MysqlExplorerState
explored = handle_loaded new_explorer two_schemas

explored-two : (retained_counts explored).schemas ≡ 2
unfolding handle_loaded for_page retained_counts retain
explored-two = refl

Reach-retained_counts_example :
    IsBudgeted explored.retention
    × Shows (shown_nodes explored) explored.retention
    × ((retained_counts explored).schemas ≤ 200)
    × ((retained_counts explored).relations ≤ 2000)
    × ((retained_counts explored).columns ≤ 10000)
    × ((retained_counts explored).columns_in_relation ≤ 512)
Reach-retained_counts_example = Reach-retained_counts explored (loaded two_schemas start)
