-- ===== src/Drivers/Catalog/Limits.antt =====
-- The budget of the catalog in src/drivers/mysql_catalog.rs is kept, and its counters count.
use dbotter.Prelude.{
  ℕ, suc, ◌≤◌, ◌<◌, ◌≡◌, refl, sym, ap, ◌∙◌, inl, inr, Bool, true, false, ◌&&◌, not, List, [], ◌∷◌,
  arith, ltb, if◌then◌else◌, Bool-cases, All, subst,
}
use dbotter.Text.{Text, text_eq}
use dbotter.Drivers.Catalog.Columns.{IsSeparate, add_column-IsSeparate, columns_of-add_column}
use dbotter.Model.Pages.{CatalogNodeIdentity, schema, relation, column, CatalogNode}
use dbotter.Drivers.Catalog.{
  max_catalog_utf8_bytes, RelationColumns, CatalogRetention, RetainDecision, contains, columns_of,
  add_column, saturating_add, catalog_node_utf8_bytes, has_room, can_retain, accept_node,
  count_node, retain_one, retain, add_outcome, Outcome, empty_retention,
}

abbrev pub is_schema : CatalogNodeIdentity → Bool
is_schema (schema s) = true
is_schema _ = false

abbrev pub is_relation : CatalogNodeIdentity → Bool
is_relation (relation s r) = true
is_relation _ = false

abbrev pub is_column : CatalogNodeIdentity → Bool
is_column (column s r i) = true
is_column _ = false

abbrev pub tally : (CatalogNodeIdentity → Bool) → List CatalogNodeIdentity → ℕ
tally test [] = 0
tally test (i ∷ is) = let rest = tally test is in if test i then suc rest else rest

-- A column of the relation.
abbrev pub is_column_of : Text → Text → CatalogNodeIdentity → Bool
is_column_of s r (column t q i) = text_eq t s && text_eq q r
is_column_of s r _ = false

-- The counters are those of the identities that are kept, and all limits are kept.
pub record IsBudgeted (r : CatalogRetention) : Type 0 where
  pub schemas : r.retained_counts.schemas ≡ tally is_schema r.identities
  pub relations : r.retained_counts.relations ≡ tally is_relation r.identities
  pub columns : r.retained_counts.columns ≡ tally is_column r.identities
  pub in_relation :
      (s t : Text) → columns_of r.columns_by_relation s t ≡ tally (is_column_of s t) r.identities
  pub separate : IsSeparate r.columns_by_relation
  pub few_schemas : r.retained_counts.schemas ≤ 200
  pub few_relations : r.retained_counts.relations ≤ 2000
  pub few_columns : r.retained_counts.columns ≤ 10000
  pub few_in_relation : All (λ c. c.count ≤ 512) r.columns_by_relation
  pub few_bytes : r.retained_utf8_bytes ≤ 4194304

pub empty-IsBudgeted : IsBudgeted empty_retention
empty-IsBudgeted = record {
  schemas = refl;
  relations = refl;
  columns = refl;
  in_relation = λ s t. refl;
  separate = tt;
  few_schemas = omega arith;
  few_relations = omega arith;
  few_columns = omega arith;
  few_in_relation = tt;
  few_bytes = omega arith;
}

add_column-All :
    (cs : List RelationColumns) (s r : Text)
    → All (λ c. c.count ≤ 512) cs
    → columns_of cs s r < 512
    → All (λ c. c.count ≤ 512) (add_column cs s r)
add_column-All [] s r h lt = (omega arith, tt)
add_column-All (c ∷ cs) s r (h, hs) lt = ground (arith, add_column-All cs s r hs)

count-IsBudgeted :
    (r : CatalogRetention) (i : CatalogNodeIdentity) (bytes : ℕ)
    → IsBudgeted r
    → has_room r i ≡ true
    → bytes ≤ 4194304
    → IsBudgeted
        (record (count_node r i) { retained_utf8_bytes = bytes; identities = i ∷ r.identities })
count-IsBudgeted r (schema s) bytes h room few = record {
  schemas = ground arith;
  relations = h.relations;
  columns = h.columns;
  in_relation = h.in_relation;
  separate = h.separate;
  few_schemas = ground arith;
  few_relations = h.few_relations;
  few_columns = h.few_columns;
  few_in_relation = h.few_in_relation;
  few_bytes = few;
}
count-IsBudgeted r (relation s t) bytes h room few = record {
  schemas = h.schemas;
  relations = ground arith;
  columns = h.columns;
  in_relation = h.in_relation;
  separate = h.separate;
  few_schemas = h.few_schemas;
  few_relations = ground arith;
  few_columns = h.few_columns;
  few_in_relation = h.few_in_relation;
  few_bytes = few;
}
count-IsBudgeted r (column s t i) bytes h room few = record {
  schemas = h.schemas;
  relations = h.relations;
  columns = ground arith;
  in_relation = λ s' t'.
      let few = h.few_in_relation in
      columns_of-add_column r.columns_by_relation s t s' t' few
      ∙ ap (λ n. if text_eq s s' && text_eq t t' then suc n else n) (h.in_relation s' t');
  separate = add_column-IsSeparate r.columns_by_relation s t h.separate;
  few_schemas = h.few_schemas;
  few_relations = h.few_relations;
  few_columns = ground arith;
  few_in_relation = add_column-All r.columns_by_relation s t h.few_in_relation (ground arith);
  few_bytes = few;
}

accept-IsBudgeted :
    (r : CatalogRetention) (node : CatalogNode)
    → IsBudgeted r
    → has_room r node.identity ≡ true
    → saturating_add r.retained_utf8_bytes (catalog_node_utf8_bytes node) ≤ 4194304
    → IsBudgeted (accept_node r node)
accept-IsBudgeted r node h room bytes = count-IsBudgeted r node.identity _ h room bytes

retain_one-IsBudgeted :
    (r : CatalogRetention) (node : CatalogNode) → IsBudgeted r → IsBudgeted (retain_one r node).1
unfolding retain_one can_retain
retain_one-IsBudgeted r node h = elim (Bool-cases (contains r.identities node.identity)) [
  | inl same ↦ rw same h
  | inr new ↦
      elim (Bool-cases (
        not (
          ltb max_catalog_utf8_bytes
            (saturating_add r.retained_utf8_bytes (catalog_node_utf8_bytes node)))
        && has_room r node.identity)) [
          | inr full ↦ rw new (rw full h)
          | inl fits ↦ rw new (rw fits (accept-IsBudgeted r node h (ground arith) (ground arith)))
        ]
]

retain-retention : (d : RetainDecision) (o : Outcome) → (add_outcome d o).retention ≡ o.retention
retain-retention d o = ground arith

-- What is retained keeps the budget, and the counters go on counting.
pub retain-IsBudgeted :
    (r : CatalogRetention) (nodes : List CatalogNode)
    → IsBudgeted r
    → IsBudgeted (retain r nodes).retention
unfolding retain
retain-IsBudgeted r [] h = h
retain-IsBudgeted r (node ∷ nodes) h =
    subst IsBudgeted
      (sym (retain-retention (retain_one r node).0 (retain (retain_one r node).1 nodes)))
      (retain-IsBudgeted (retain_one r node).1 nodes (retain_one-IsBudgeted r node h))
