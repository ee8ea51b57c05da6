-- ===== src/Drivers/Catalog/Kept/Changes.antt =====
-- What a removal and an offer of nodes does to the kept nodes of src/drivers/mysql_catalog.rs.
use mathlib.Core.List.{Memᴰ}
use dbotter.Prelude.{
  ◌≤◌, ◌≡◌, ◌≢◌, ◌⊎◌, not, ◌&&◌, ltb, refl, sym, ap, inl, inr, true, List, [], ◌∷◌, arith,
  Bool-cases, All, All-map,
}
use dbotter.Model.Pages.{CatalogNodeIdentity, CatalogNode}
use dbotter.Drivers.Catalog.{
  CatalogRetention, RetainDecision, accepted, duplicate, cap_reached, Outcome, contains,
  saturating_add, catalog_node_utf8_bytes, max_catalog_utf8_bytes, remove_one, remove, has_room,
  add_outcome, accept_node, can_retain, retain_one, retain,
}
use dbotter.Drivers.Catalog.Kept.{
  IsDistinct, Tracks, forget, forget-Memᴰ, contains-Memᴰ, contains-none, catalog_bytes,
  remove_one-Tracks,
}

-- After a removal of kept nodes: what is left, and that it is all the rest.
pub record Removal (r : CatalogRetention) (kept nodes : List CatalogNode) : Type 0 where
  pub left : List CatalogNode
  pub tracks : Tracks r left
  pub stays :
      (m : CatalogNode) → Memᴰ m kept → All (λ n. n.identity ≢ m.identity) nodes → Memᴰ m left

others_stay :
    (kept : List CatalogNode) (i : CatalogNodeIdentity) (ns : List CatalogNode)
    → All (λ n. i ≢ n.identity) ns
    → All (λ n. Memᴰ n kept) ns
    → All (λ n. Memᴰ n (forget kept i)) ns
others_stay kept i [] ne mem = tt
others_stay kept i (n ∷ ns) (ne, nes) (mem, mems) =
    (forget-Memᴰ kept i n ne mem, others_stay kept i ns nes mems)

pub remove-Removal :
    (nodes : List CatalogNode) (r : CatalogRetention) (kept : List CatalogNode)
    → Tracks r kept
    → All (λ n. Memᴰ n kept) nodes
    → IsDistinct nodes
    → Removal (remove r nodes) kept nodes
unfolding remove
remove-Removal [] r kept t mems d = record { left = kept; tracks = t; stays = λ m mem ne. mem }
remove-Removal (node ∷ nodes) r kept t (mem, mems) (ne, d) =
    let there : contains r.identities node.identity ≡ true =
      rw (t.identities) (contains-Memᴰ kept node mem) in
    let rest =
      remove-Removal nodes (remove_one r node) (forget kept node.identity)
        (remove_one-Tracks r kept node t mem) (others_stay kept node.identity nodes ne mems) d in
    rw there (record {
      left = rest.left;
      tracks = rest.tracks;
      stays =
          λ m in' (other, others). rest.stays m (forget-Memᴰ kept node.identity m other in') others;
    })

-- After nodes are offered: what is kept then, and that those that are taken up are new.
pub record Growth (o : Outcome) (kept : List CatalogNode) : Type 0 where
  pub grown : List CatalogNode
  pub tracks : Tracks o.retention grown
  pub stays : (m : CatalogNode) → Memᴰ m kept → Memᴰ m grown
  pub taken : All (λ n. Memᴰ n grown) o.nodes
  pub distinct : IsDistinct o.nodes
  pub new : All (λ n. All (λ m. m.identity ≢ n.identity) kept) o.nodes

not_taken :
    (kept : List CatalogNode) (d : RetainDecision) (o : Outcome)
    → (d ≡ duplicate) ⊎ (d ≡ cap_reached)
    → Growth o kept
    → Growth (add_outcome d o) kept
not_taken kept d o (inl same) g = rw same g
not_taken kept d o (inr cap') g = rw cap' (record {
  grown = g.grown;
  tracks = g.tracks;
  stays = g.stays;
  taken = g.taken;
  distinct = g.distinct;
  new = g.new;
})

accept-Tracks :
    (r : CatalogRetention) (kept : List CatalogNode) (n : CatalogNode)
    → Tracks r kept
    → All (λ m. n.identity ≢ m.identity) kept
    → saturating_add r.retained_utf8_bytes (catalog_node_utf8_bytes n) ≤ 4194304
    → Tracks (accept_node r n) (n ∷ kept)
accept-Tracks r kept n t fresh fits = record {
  identities = ap (◌∷◌ n.identity) t.identities;
  bytes = omega (arith, catalog_bytes n, t.bytes, t.few, fits);
  few = omega (arith, catalog_bytes n, t.bytes, t.few, fits);
  distinct = (fresh, t.distinct);
}

accepted-Growth :
    (kept : List CatalogNode) (n : CatalogNode) (o : Outcome)
    → All (λ m. n.identity ≢ m.identity) kept
    → Growth o (n ∷ kept)
    → Growth (add_outcome (accepted n) o) kept
accepted-Growth kept n o fresh g = record {
  grown = g.grown;
  tracks = g.tracks;
  stays = λ m mem. g.stays m (Memᴰ.tail mem);
  taken = (g.stays n (Memᴰ.head refl), g.taken);
  distinct = (All-map o.nodes (λ x h. h.0) g.new, g.distinct);
  new = (All-map kept (λ m ne q. ne (sym q)) fresh, All-map o.nodes (λ x h. h.1) g.new);
}

pub retain-Growth :
    (nodes : List CatalogNode) (r : CatalogRetention) (kept : List CatalogNode)
    → Tracks r kept
    → Growth (retain r nodes) kept
unfolding retain retain_one can_retain
retain-Growth [] r kept t = record {
  grown = kept;
  tracks = t;
  stays = λ m mem. mem;
  taken = tt;
  distinct = tt;
  new = tt;
}
retain-Growth (n ∷ nodes) r kept t =
    let without = retain-Growth nodes r kept t in
    elim (Bool-cases (contains r.identities n.identity)) [
      | inl there ↦ rw there (not_taken kept duplicate (retain r nodes) (inl refl) without)
      | inr fresh ↦
          elim (Bool-cases (
            not (
              ltb max_catalog_utf8_bytes
                (saturating_add r.retained_utf8_bytes (catalog_node_utf8_bytes n)))
            && has_room r n.identity)) [
              | inr full ↦
                  rw fresh
                    (rw full (not_taken kept cap_reached (retain r nodes) (inr refl) without))
              | inl fits ↦
                  let new = contains-none kept n.identity (rw (t.identities) at fresh) in
                  rw fresh (
                    rw fits (
                      accepted-Growth kept n (retain (accept_node r n) nodes) new (
                        retain-Growth nodes (accept_node r n) (n ∷ kept)
                          (accept-Tracks r kept n t new (ground arith)))))
            ]
    ]
