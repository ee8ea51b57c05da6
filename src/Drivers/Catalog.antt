-- ===== src/Drivers/Catalog.antt =====
-- `CatalogRetention` of src/drivers/mysql_catalog.rs: the budget of what the explorer keeps of a
-- catalog. Sets and maps are lists, in any order.
use dbotter.Prelude.{
  ℕ, zero, suc, ◌+◌, ◌-◌, ◌*◌, ◌^◌, min, max, Bool, true, false, ◌&&◌, ◌||◌, not, Option, none,
  some, List, [], ◌∷◌, ◌++◌, any, ltb, ◌==◌, if◌then◌else◌,
}
use dbotter.Text.{Text, codes, str_len, text_eq}
use dbotter.Model.Pages.{
  CatalogNodeIdentity, schema, relation, column, CatalogNode, CatalogRetainedCounts,
}
pub mod Columns
pub mod Limits
pub mod Kept
pub mod Removal
pub mod Quoting
pub mod Examples

abbrev pub max_catalog_schemas : ℕ
max_catalog_schemas = 200

abbrev pub max_catalog_relations : ℕ
max_catalog_relations = 2000

abbrev pub max_catalog_columns : ℕ
max_catalog_columns = 10000

abbrev pub max_catalog_columns_per_relation : ℕ
max_catalog_columns_per_relation = 512

abbrev pub max_catalog_utf8_bytes : ℕ
max_catalog_utf8_bytes = 4194304

-- `usize::saturating_add`, of 64 bits.
abbrev pub saturating_add : ℕ → ℕ → ℕ
saturating_add a b = min (a + b) 18446744073709551615

pub record RelationColumns : Type 0 where
  pub schema : Text
  pub relation : Text
  pub count : ℕ

pub record CatalogRetention : Type 0 where
  pub identities : List CatalogNodeIdentity
  pub retained_counts : CatalogRetainedCounts
  pub retained_utf8_bytes : ℕ
  pub columns_by_relation : List RelationColumns

-- `CatalogRetention::default`, and what `clear` leaves.
abbrev pub empty_retention : CatalogRetention
empty_retention = record {
  identities = [];
  retained_counts = record { schemas = 0; relations = 0; columns = 0; columns_in_relation = 0 };
  retained_utf8_bytes = 0;
  columns_by_relation = [];
}

abbrev pub identity_eq : CatalogNodeIdentity → CatalogNodeIdentity → Bool
identity_eq (schema s) (schema t) = text_eq s t
identity_eq (relation s r) (relation t q) = text_eq s t && text_eq r q
identity_eq (column s r i) (column t q j) = text_eq s t && text_eq r q && i == j
identity_eq _ _ = false

abbrev pub contains : List CatalogNodeIdentity → CatalogNodeIdentity → Bool
contains ids i = any (identity_eq i) ids

abbrev pub is_of : Text → Text → RelationColumns → Bool
is_of s r c = text_eq c.schema s && text_eq c.relation r

-- `columns_by_relation.get(…).copied().unwrap_or(0)`.
abbrev pub columns_of : List RelationColumns → Text → Text → ℕ
columns_of [] s r = 0
columns_of (c ∷ cs) s r = let rest = columns_of cs s r in if is_of s r c then c.count else rest

abbrev pub add_column : List RelationColumns → Text → Text → List RelationColumns
add_column [] s r = record { schema = s; relation = r; count = saturating_add 0 1 } ∷ []
add_column (c ∷ cs) s r =
    let rest = add_column cs s r in
    if is_of s r c then record c { count = saturating_add c.count 1 } ∷ cs else c ∷ rest

abbrev pub drop_column : List RelationColumns → Text → Text → List RelationColumns
drop_column [] s r = []
drop_column (c ∷ cs) s r =
    let rest = drop_column cs s r in
    if is_of s r c
    then (if c.count - 1 == 0 then cs else record c { count = c.count - 1 } ∷ cs)
    else c ∷ rest

abbrev type_bytes : Option Text → ℕ
type_bytes none = 0
type_bytes (some t) = str_len t

pub catalog_node_utf8_bytes : CatalogNode → ℕ
catalog_node_utf8_bytes node = saturating_add (str_len node.name) (type_bytes node.type_name)

abbrev pub has_room : CatalogRetention → CatalogNodeIdentity → Bool
has_room r (schema s) = ltb r.retained_counts.schemas max_catalog_schemas
has_room r (relation s t) = ltb r.retained_counts.relations max_catalog_relations
has_room r (column s t i) =
    ltb r.retained_counts.columns max_catalog_columns
    && ltb (columns_of r.columns_by_relation s t) max_catalog_columns_per_relation

unfoldable pub can_retain : CatalogRetention → CatalogNode → Bool
unfolding catalog_node_utf8_bytes
can_retain r node =
    contains r.identities node.identity
    || (not (
          ltb max_catalog_utf8_bytes
            (saturating_add r.retained_utf8_bytes (catalog_node_utf8_bytes node)))
        && has_room r node.identity)

abbrev pub count_node : CatalogRetention → CatalogNodeIdentity → CatalogRetention
count_node r (schema s) = record r {
  retained_counts = record r.retained_counts {
    schemas = saturating_add r.retained_counts.schemas 1;
  };
}
count_node r (relation s t) = record r {
  retained_counts = record r.retained_counts {
    relations = saturating_add r.retained_counts.relations 1;
  };
}
count_node r (column s t i) = record r {
  retained_counts = record r.retained_counts {
    columns = saturating_add r.retained_counts.columns 1;
  };
  columns_by_relation = add_column r.columns_by_relation s t;
}

-- A node that is kept: its bytes, its count and its identity.
abbrev pub accept_node : CatalogRetention → CatalogNode → CatalogRetention
accept_node r node = record (count_node r node.identity) {
  retained_utf8_bytes = saturating_add r.retained_utf8_bytes (catalog_node_utf8_bytes node);
  identities = node.identity ∷ r.identities;
}

pub data RetainDecision : Type 0 where
  accepted : CatalogNode → RetainDecision
  duplicate cap_reached : RetainDecision

unfoldable pub retain_one : CatalogRetention → CatalogNode → RetainDecision × CatalogRetention
unfolding can_retain
retain_one r node =
    if contains r.identities node.identity
    then (duplicate, r)
    else if can_retain r node
    then (accepted node, accept_node r node)
    else (cap_reached, r)

pub record Outcome : Type 0 where
  pub nodes : List CatalogNode
  pub truncated : Bool
  pub retention : CatalogRetention

abbrev pub add_outcome : RetainDecision → Outcome → Outcome
add_outcome (accepted node) rest = record rest { nodes = node ∷ rest.nodes }
add_outcome duplicate rest = rest
add_outcome cap_reached rest = record rest { truncated = true }

unfoldable pub retain : CatalogRetention → List CatalogNode → Outcome
unfolding retain_one
retain r [] = record { nodes = []; truncated = false; retention = r }
retain r (node ∷ nodes) = let one = retain_one r node in add_outcome one.0 (retain one.1 nodes)

abbrev pub largest : List RelationColumns → ℕ
largest [] = 0
largest (c ∷ cs) = max c.count (largest cs)

unfoldable pub counts : CatalogRetention → CatalogRetainedCounts
counts r = record r.retained_counts { columns_in_relation = largest r.columns_by_relation }

abbrev pub forget_identity :
    List CatalogNodeIdentity → CatalogNodeIdentity → List CatalogNodeIdentity
forget_identity [] i = []
forget_identity (j ∷ js) i =
    let rest = forget_identity js i in if identity_eq i j then js else j ∷ rest

abbrev pub uncount_node : CatalogRetention → CatalogNodeIdentity → CatalogRetention
uncount_node r (schema s) = record r {
  retained_counts = record r.retained_counts { schemas = r.retained_counts.schemas - 1 };
}
uncount_node r (relation s t) = record r {
  retained_counts = record r.retained_counts { relations = r.retained_counts.relations - 1 };
}
uncount_node r (column s t i) = record r {
  retained_counts = record r.retained_counts { columns = r.retained_counts.columns - 1 };
  columns_by_relation = drop_column r.columns_by_relation s t;
}

abbrev pub remove_one : CatalogRetention → CatalogNode → CatalogRetention
remove_one r node = record (uncount_node r node.identity) {
  retained_utf8_bytes = r.retained_utf8_bytes - catalog_node_utf8_bytes node;
  identities = forget_identity r.identities node.identity;
}

unfoldable pub remove : CatalogRetention → List CatalogNode → CatalogRetention
unfolding catalog_node_utf8_bytes
remove r [] = r
remove r (node ∷ nodes) =
    remove (if contains r.identities node.identity then remove_one r node else r) nodes

-- `quote_mysql_identifier`: each backtick twice, between backticks.
abbrev pub double_backticks : Text → Text
double_backticks [] = []
double_backticks (c ∷ cs) =
    if c == 96 then 96 ∷ c ∷ double_backticks cs else c ∷ double_backticks cs

unfoldable pub quote_mysql_identifier : Text → Text
quote_mysql_identifier identifier = 96 ∷ (double_backticks identifier ++ 96 ∷ [])

unfoldable pub bounded_select_template : Text → Text → Text
unfolding quote_mysql_identifier
bounded_select_template s r =
    codes "SELECT * FROM "
    ++ (quote_mysql_identifier s ++ (codes "." ++ (quote_mysql_identifier r ++ codes " LIMIT 500")))
