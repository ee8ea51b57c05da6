-- ===== src/Drivers/Catalog/Kept.antt =====
-- Which nodes the budget of src/drivers/mysql_catalog.rs keeps, and their bytes.
use mathlib.Core.List.{Memᴰ}
use dbotter.Prelude.{
  ℕ, ◌+◌, ◌-◌, ◌≤◌, ◌≡◌, ◌≢◌, ◌⊎◌, not, ◌&&◌, ltb, refl, sym, ap, ◌∙◌, inl, inr, Bool, true, false,
  Option, none, some, List, [], ◌∷◌, ◌++◌, map, arith, if◌then◌else◌, Bool-cases, All, All-map,
  subst, min,
}
use dbotter.Prelude.Alls.{All-lookup}
use dbotter.Text.{Text, str_len}
use dbotter.Text.Equality.{text_eq→≡, text_eq_self}
use dbotter.Model.Pages.{CatalogNodeIdentity, schema, relation, column, CatalogNode}
use dbotter.Drivers.Catalog.{
  CatalogRetention, RetainDecision, accepted, duplicate, cap_reached, Outcome, contains,
  identity_eq, forget_identity, saturating_add, catalog_node_utf8_bytes, max_catalog_utf8_bytes,
  remove_one, remove, has_room, add_outcome, accept_node, can_retain, retain_one, retain,
  empty_retention,
}
pub mod Changes

-- The bytes of a node: its name, and its type where it has one.
abbrev pub node_bytes : CatalogNode → ℕ
node_bytes n = str_len n.name + elim n.type_name [ none ↦ 0 | some t ↦ str_len t ]

abbrev pub total_bytes : List CatalogNode → ℕ
total_bytes [] = 0
total_bytes (n ∷ ns) = node_bytes n + total_bytes ns

-- No two nodes have the same identity.
abbrev pub IsDistinct : List CatalogNode → Type 0
IsDistinct [] = Unit
IsDistinct (n ∷ ns) = All (λ m. n.identity ≢ m.identity) ns × IsDistinct ns

identity_eq→≡ : (i j : CatalogNodeIdentity) → identity_eq i j ≡ true → i ≡ j
identity_eq→≡ (schema s) (schema t) h = ap schema (text_eq→≡ s t h)
identity_eq→≡ (relation s r) (relation t q) h =
    let a : s ≡ t = text_eq→≡ s t (ground arith) in
    let b : r ≡ q = text_eq→≡ r q (ground arith) in cc
identity_eq→≡ (column s r i) (column t q j) h =
    let a : s ≡ t = text_eq→≡ s t (ground arith) in
    let b : r ≡ q = text_eq→≡ r q (ground arith) in let c : i ≡ j = ground arith in cc
identity_eq→≡ i j h = absurd (ground arith)

identity_eq_self : (i : CatalogNodeIdentity) → identity_eq i i ≡ true
identity_eq_self (schema s) = text_eq_self s
identity_eq_self (relation s r) = ground (arith, text_eq_self s, text_eq_self r)
identity_eq_self (column s r i) = ground (arith, text_eq_self s, text_eq_self r)

identity_eq_ne : (i j : CatalogNodeIdentity) → i ≢ j → identity_eq i j ≡ false
identity_eq_ne i j h = elim (Bool-cases (identity_eq i j)) [
  | inl same ↦ absurd (h (identity_eq→≡ i j same))
  | inr differ ↦ differ
]

abbrev identities_of : List CatalogNode → List CatalogNodeIdentity
identities_of ns = map (λ n. n.identity) ns

-- The identities and the bytes of a budget are those of the nodes, within the limit on bytes.
pub record Tracks (r : CatalogRetention) (kept : List CatalogNode) : Type 0 where
  pub identities : r.identities ≡ identities_of kept
  pub bytes : r.retained_utf8_bytes ≡ total_bytes kept
  pub few : total_bytes kept ≤ 4194304
  pub distinct : IsDistinct kept

pub empty-Tracks : Tracks empty_retention []
empty-Tracks = record { identities = refl; bytes = refl; few = omega arith; distinct = tt }

pub forget : List CatalogNode → CatalogNodeIdentity → List CatalogNode
forget [] i = []
forget (n ∷ ns) i = let rest = forget ns i in if identity_eq i n.identity then ns else n ∷ rest

forget-identities :
    (ns : List CatalogNode) (i : CatalogNodeIdentity)
    → forget_identity (identities_of ns) i ≡ identities_of (forget ns i)
unfolding forget
forget-identities [] i = refl
forget-identities (n ∷ ns) i = elim (Bool-cases (identity_eq i n.identity)) [
  | inl here ↦ rw here refl
  | inr other ↦ rw (other, forget-identities ns i) refl
]

pub forget-Memᴰ :
    (ns : List CatalogNode) (i : CatalogNodeIdentity) (m : CatalogNode)
    → i ≢ m.identity
    → Memᴰ m ns
    → Memᴰ m (forget ns i)
unfolding forget
forget-Memᴰ [] i m ne mem = elim mem [ ]
forget-Memᴰ (n ∷ ns) i m ne (Memᴰ.head e) =
    rw (identity_eq_ne i n.identity (λ q. ne (q ∙ sym (ap (λ z. z.identity) e)))) (Memᴰ.head e)
forget-Memᴰ (n ∷ ns) i m ne (Memᴰ.tail mem) = elim (Bool-cases (identity_eq i n.identity)) [
  | inl here ↦ rw here mem
  | inr other ↦ rw other (Memᴰ.tail (forget-Memᴰ ns i m ne mem))
]

forget-All :
    (P : CatalogNode → Type 0) (ns : List CatalogNode) (i : CatalogNodeIdentity)
    → All P ns
    → All P (forget ns i)
unfolding forget
forget-All P [] i h = tt
forget-All P (n ∷ ns) i (h, hs) = elim (Bool-cases (identity_eq i n.identity)) [
  | inl here ↦ rw here hs
  | inr other ↦ rw other (h, forget-All P ns i hs)
]

forget-IsDistinct :
    (ns : List CatalogNode) (i : CatalogNodeIdentity) → IsDistinct ns → IsDistinct (forget ns i)
unfolding forget
forget-IsDistinct [] i h = tt
forget-IsDistinct (n ∷ ns) i (h, hs) = elim (Bool-cases (identity_eq i n.identity)) [
  | inl here ↦ rw here hs
  | inr other ↦ rw other (forget-All _ ns i h, forget-IsDistinct ns i hs)
]

pub contains-Memᴰ :
    (ns : List CatalogNode) (n : CatalogNode)
    → Memᴰ n ns
    → contains (identities_of ns) n.identity ≡ true
contains-Memᴰ [] n mem = elim mem [ ]
contains-Memᴰ (m ∷ ns) n (Memᴰ.head e) =
    let same : identity_eq n.identity m.identity ≡ true =
      subst (λ z. identity_eq n.identity z.identity ≡ true) e (identity_eq_self n.identity) in
    rw same refl
contains-Memᴰ (m ∷ ns) n (Memᴰ.tail mem) = ground (arith, contains-Memᴰ ns n mem)

pub contains-none :
    (ns : List CatalogNode) (i : CatalogNodeIdentity)
    → contains (identities_of ns) i ≡ false
    → All (λ m. i ≢ m.identity) ns
contains-none [] i h = tt
contains-none (n ∷ ns) i h = elim (Bool-cases (identity_eq i n.identity)) [
  | inl here ↦ absurd (ground arith)
  | inr other ↦ (
    λ q. absurd (
        let self : identity_eq i n.identity ≡ true =
          subst (λ j. identity_eq i j ≡ true) q (identity_eq_self i) in
        ground arith),
    contains-none ns i (rw other at h),
  )
]

forget-total_bytes :
    (ns : List CatalogNode) (n : CatalogNode)
    → Memᴰ n ns
    → IsDistinct ns
    → total_bytes ns ≡ total_bytes (forget ns n.identity) + node_bytes n
unfolding forget
forget-total_bytes [] n mem d = elim mem [ ]
forget-total_bytes (m ∷ ns) n (Memᴰ.head e) d =
    let same : identity_eq n.identity m.identity ≡ true =
      subst (λ z. identity_eq n.identity z.identity ≡ true) e (identity_eq_self n.identity) in
    rw same (omega (arith, ap (λ z. node_bytes z) e))
forget-total_bytes (m ∷ ns) n (Memᴰ.tail mem) (h, d) =
    let other : m.identity ≢ n.identity = All-lookup (λ z. m.identity ≢ z.identity) ns n h mem in
    rw (identity_eq_ne n.identity m.identity (λ q. other (sym q)))
      (omega (arith, forget-total_bytes ns n mem d))

pub catalog_bytes :
    (n : CatalogNode) → catalog_node_utf8_bytes n ≡ min (node_bytes n) 18446744073709551615
unfolding catalog_node_utf8_bytes
catalog_bytes n = refl

pub remove_one-Tracks :
    (r : CatalogRetention) (kept : List CatalogNode) (n : CatalogNode)
    → Tracks r kept
    → Memᴰ n kept
    → Tracks (remove_one r n) (forget kept n.identity)
remove_one-Tracks r kept n t mem =
    let total = forget-total_bytes kept n mem t.distinct in
    record {
      identities = rw (t.identities) (forget-identities kept n.identity);
      bytes = omega (arith, catalog_bytes n, t.bytes, t.few, total);
      few = omega (arith, t.few, total);
      distinct = forget-IsDistinct kept n.identity t.distinct;
    }
