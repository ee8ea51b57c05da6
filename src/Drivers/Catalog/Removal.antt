-- ===== src/Drivers/Catalog/Removal.antt =====
-- Removing nodes from the budget of src/drivers/mysql_catalog.rs.
use dbotter.Prelude.{
  ℕ, suc, ◌-◌, ◌≤◌, ◌≡◌, refl, ◌∙◌, inl, inr, Bool, true, false, ◌&&◌, List, [], ◌∷◌, arith,
  if◌then◌else◌, Bool-cases, All,
}
use dbotter.Text.{Text, text_eq}
use dbotter.Text.Equality.{text_eq-swap}
use dbotter.Model.Pages.{CatalogNodeIdentity, schema, relation, column, CatalogNode}
use dbotter.Drivers.Catalog.{
  RelationColumns, CatalogRetention, identity_eq, contains, drop_column, catalog_node_utf8_bytes,
  uncount_node, remove_one, remove, forget_identity, largest, counts,
}
use dbotter.Drivers.Catalog.Columns.{drop_column-IsSeparate, columns_of-drop_column}
use dbotter.Drivers.Catalog.Limits.{
  is_schema, is_relation, is_column, is_column_of, tally, IsBudgeted,
}

drop_column-All :
    (cs : List RelationColumns) (s r : Text)
    → All (λ c. c.count ≤ 512) cs
    → All (λ c. c.count ≤ 512) (drop_column cs s r)
drop_column-All [] s r h = tt
drop_column-All (c ∷ cs) s r (h, hs) = ground (arith, drop_column-All cs s r hs)

-- Forgetting an identity that is there lowers the count of those of its kind.
forget-tally :
    (test : CatalogNodeIdentity → Bool) (i : CatalogNodeIdentity) (is : List CatalogNodeIdentity)
    → ((j : CatalogNodeIdentity) → identity_eq i j ≡ true → test j ≡ test i)
    → contains is i ≡ true
    → tally test is ≡ (
        if test i
        then suc (tally test (forget_identity is i))
        else tally test (forget_identity is i))
forget-tally test i [] same h = cc
forget-tally test i (j ∷ js) same h = elim (Bool-cases (identity_eq i j)) [
  | inl here ↦ rw here (rw (same j here) refl)
  | inr other ↦ let rest = forget-tally test i js same (ground arith) in ground (arith, rest)
]

same_schema : (i j : CatalogNodeIdentity) → identity_eq i j ≡ true → is_schema j ≡ is_schema i
same_schema i j h = ground arith

same_relation : (i j : CatalogNodeIdentity) → identity_eq i j ≡ true → is_relation j ≡ is_relation i
same_relation i j h = ground arith

same_column : (i j : CatalogNodeIdentity) → identity_eq i j ≡ true → is_column j ≡ is_column i
same_column i j h = ground arith

same_relation_column :
    (s t : Text) (i j : CatalogNodeIdentity)
    → identity_eq i j ≡ true
    → is_column_of s t j ≡ is_column_of s t i
same_relation_column s t (column s' t' n) (column s₁ t₁ m) h =
    let a = text_eq-swap s' s₁ s in let b = text_eq-swap t' t₁ t in ground (arith, a, b)
same_relation_column s t i j h = ground arith

-- The counters after an identity is forgotten, given the tallies of the identities that are left.
lowered_columns :
    {after before kept left : ℕ} (own : Bool)
    → after ≡ (if own then before - 1 else before)
    → before ≡ kept
    → kept ≡ (if own then suc left else left)
    → after ≡ left
lowered_columns true e f g = omega arith
lowered_columns false e f g = e ∙ f ∙ g

lowered-IsBudgeted :
    (r : CatalogRetention) (i : CatalogNodeIdentity) (left : List CatalogNodeIdentity) (bytes : ℕ)
    → IsBudgeted r
    → tally is_schema r.identities
      ≡ (if is_schema i then suc (tally is_schema left) else tally is_schema left)
    → tally is_relation r.identities
      ≡ (if is_relation i then suc (tally is_relation left) else tally is_relation left)
    → tally is_column r.identities
      ≡ (if is_column i then suc (tally is_column left) else tally is_column left)
    → ((s t : Text)
        → tally (is_column_of s t) r.identities ≡ (
            if is_column_of s t i
            then suc (tally (is_column_of s t) left)
            else tally (is_column_of s t) left))
    → IsBudgeted (record (uncount_node r i) {
      retained_utf8_bytes = r.retained_utf8_bytes - bytes;
      identities = left;
    })
lowered-IsBudgeted r (schema s) left bytes h a b c d = record {
  schemas = omega (arith, h.schemas, a);
  relations = h.relations ∙ b;
  columns = h.columns ∙ c;
  in_relation = λ s' t'. h.in_relation s' t' ∙ d s' t';
  separate = h.separate;
  few_schemas = omega (arith, h.few_schemas);
  few_relations = h.few_relations;
  few_columns = h.few_columns;
  few_in_relation = h.few_in_relation;
  few_bytes = omega (arith, h.few_bytes);
}
lowered-IsBudgeted r (relation s t) left bytes h a b c d = record {
  schemas = h.schemas ∙ a;
  relations = omega (arith, h.relations, b);
  columns = h.columns ∙ c;
  in_relation = λ s' t'. h.in_relation s' t' ∙ d s' t';
  separate = h.separate;
  few_schemas = h.few_schemas;
  few_relations = omega (arith, h.few_relations);
  few_columns = h.few_columns;
  few_in_relation = h.few_in_relation;
  few_bytes = omega (arith, h.few_bytes);
}
lowered-IsBudgeted r (column s t o) left bytes h a b c d = record {
  schemas = h.schemas ∙ a;
  relations = h.relations ∙ b;
  columns = omega (arith, h.columns, c);
  in_relation = λ s' t'.
      lowered_columns (text_eq s s' && text_eq t t')
        (columns_of-drop_column r.columns_by_relation s t s' t' h.separate) (h.in_relation s' t')
        (d s' t');
  separate = drop_column-IsSeparate r.columns_by_relation s t h.separate;
  few_schemas = h.few_schemas;
  few_relations = h.few_relations;
  few_columns = omega (arith, h.few_columns);
  few_in_relation = drop_column-All r.columns_by_relation s t h.few_in_relation;
  few_bytes = omega (arith, h.few_bytes);
}

uncount-IsBudgeted :
    (r : CatalogRetention) (i : CatalogNodeIdentity) (bytes : ℕ)
    → IsBudgeted r
    → contains r.identities i ≡ true
    → IsBudgeted (record (uncount_node r i) {
      retained_utf8_bytes = r.retained_utf8_bytes - bytes;
      identities = forget_identity r.identities i;
    })
uncount-IsBudgeted r i bytes h there =
    let a = forget-tally is_schema i r.identities (same_schema i) there in
    let b = forget-tally is_relation i r.identities (same_relation i) there in
    let c = forget-tally is_column i r.identities (same_column i) there in
    lowered-IsBudgeted r i _ bytes h a b c
      (λ s t. forget-tally (is_column_of s t) i r.identities (same_relation_column s t i) there)

-- Removing nodes, kept or not, keeps the budget and the counters exact.
pub remove-IsBudgeted :
    (r : CatalogRetention) (nodes : List CatalogNode) → IsBudgeted r → IsBudgeted (remove r nodes)
unfolding remove
remove-IsBudgeted r [] h = h
remove-IsBudgeted r (node ∷ nodes) h =
    remove-IsBudgeted (if contains r.identities node.identity then remove_one r node else r) nodes
      (elim (Bool-cases (contains r.identities node.identity)) [
        | inl there ↦
            rw there (uncount-IsBudgeted r node.identity (catalog_node_utf8_bytes node) h there)
        | inr gone ↦ rw gone h
      ])

largest-le : (cs : List RelationColumns) → All (λ c. c.count ≤ 512) cs → largest cs ≤ 512
largest-le [] h = omega arith
largest-le (c ∷ cs) (h, hs) = omega (arith, h, largest-le cs hs)

-- The counts that are shown keep their limits, also the largest number of columns of one relation.
pub counts-le :
    (r : CatalogRetention)
    → IsBudgeted r
    → ((counts r).schemas ≤ 200)
      × ((counts r).relations ≤ 2000)
      × ((counts r).columns ≤ 10000)
      × ((counts r).columns_in_relation ≤ 512)
unfolding counts
counts-le r h = (
  h.few_schemas,
  h.few_relations,
  h.few_columns,
  largest-le r.columns_by_relation h.few_in_relation,
)
