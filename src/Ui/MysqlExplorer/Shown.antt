-- ===== src/Ui/MysqlExplorer/Shown.antt =====
-- The nodes that the branches of src/ui/mysql_explorer.rs show are kept in the budget.
use mathlib.Core.List.{Memᴰ}
use dbotter.Prelude.{
  ◌≡◌, ◌≢◌, refl, sym, ap, ◌∙◌, inl, inr, true, false, List, [], ◌∷◌, ◌++◌, arith, if◌then◌else◌,
  Bool-cases, All, All-map, All-append, subst,
}
use dbotter.Prelude.Alls.{All-lookup, All-both}
use dbotter.Text.Equality.{text_eq→≡, text_eq_self}
use dbotter.Model.Pages.{CatalogNode}
use dbotter.Drivers.Catalog.{CatalogRetention, retain, remove}
use dbotter.Drivers.Catalog.Kept.{IsDistinct, Tracks}
use dbotter.Drivers.Catalog.Kept.Changes.{remove-Removal, retain-Growth}
use dbotter.Ui.MysqlExplorer.{BranchKey, schemas, relations, columns, branch_eq}

-- The budget is that of a list of nodes with different identities, which has all nodes that the
-- branches show, and no identity is shown twice, neither in one branch nor in two.
pub record Shows (at : BranchKey → List CatalogNode) (r : CatalogRetention) : Type 0 where
  pub kept : List CatalogNode
  pub tracks : Tracks r kept
  pub shown : (k : BranchKey) → All (λ n. Memᴰ n kept) (at k)
  pub distinct : (k : BranchKey) → IsDistinct (at k)
  pub apart :
      (k j : BranchKey) → k ≢ j → All (λ n. All (λ m. n.identity ≢ m.identity) (at j)) (at k)

branch_eq→≡ : (k j : BranchKey) → branch_eq k j ≡ true → k ≡ j
branch_eq→≡ schemas schemas h = refl
branch_eq→≡ (relations s) (relations t) h = ap relations (text_eq→≡ s t h)
branch_eq→≡ (columns s r) (columns t q) h =
    let a : s ≡ t = text_eq→≡ s t (ground arith) in
    let b : r ≡ q = text_eq→≡ r q (ground arith) in cc
branch_eq→≡ k j h = absurd (ground arith)

pub branch_eq_self : (k : BranchKey) → branch_eq k k ≡ true
branch_eq_self schemas = refl
branch_eq_self (relations s) = text_eq_self s
branch_eq_self (columns s r) = ground (arith, text_eq_self s, text_eq_self r)

branch_ne : (k j : BranchKey) → branch_eq k j ≡ false → k ≢ j
branch_ne k j h q =
    let self : branch_eq k j ≡ true = subst (λ b. branch_eq k b ≡ true) q (branch_eq_self k) in
    ground arith

abbrev IsApart : List CatalogNode → List CatalogNode → Type 0
IsApart xs ys = All (λ n. All (λ m. n.identity ≢ m.identity) ys) xs

IsApart-nil : (xs : List CatalogNode) → IsApart xs []
IsApart-nil [] = tt
IsApart-nil (x ∷ xs) = (tt, IsApart-nil xs)

-- The kept nodes are apart from those that are new to them.
IsApart-new :
    (kept xs ys : List CatalogNode)
    → All (λ n. Memᴰ n kept) xs
    → All (λ n. All (λ m. m.identity ≢ n.identity) kept) ys
    → IsApart xs ys
IsApart-new kept xs ys mems news =
    All-map xs
      (λ x mem. All-map ys (λ y h. All-lookup (λ m. m.identity ≢ y.identity) kept x h mem) news)
      mems

IsApart-swap : (xs ys : List CatalogNode) → IsApart xs ys → IsApart ys xs
IsApart-swap xs [] h = tt
IsApart-swap xs (y ∷ ys) h =
    (All-map xs (λ x ne q. ne.0 (sym q)) h, IsApart-swap xs ys (All-map xs (λ x ne. ne.1) h))

IsApart-append :
    (xs ys zs : List CatalogNode) → IsApart xs ys → IsApart xs zs → IsApart xs (ys ++ zs)
IsApart-append xs ys zs h k =
    All-map xs (λ x both. All-append (λ m. x.identity ≢ m.identity) ys zs both.0 both.1)
      (All-both _ _ xs h k)

IsDistinct-append :
    (xs ys : List CatalogNode)
    → IsDistinct xs
    → IsDistinct ys
    → IsApart xs ys
    → IsDistinct (xs ++ ys)
IsDistinct-append [] ys h k a = k
IsDistinct-append (x ∷ xs) ys (h, hs) k (a, rest) =
    (All-append (λ m. x.identity ≢ m.identity) xs ys h a, IsDistinct-append xs ys hs k rest)

-- What the branches show, with one of them replaced.
abbrev pub with_nodes :
    BranchKey → List CatalogNode → (BranchKey → List CatalogNode) → BranchKey → List CatalogNode
with_nodes k nodes at j = if branch_eq k j then nodes else at j

module _ (at : BranchKey → List CatalogNode) (k : BranchKey) (nodes : List CatalogNode)
    (r : CatalogRetention) (kept : List CatalogNode) (tracks : Tracks r kept)
    (shown : All (λ n. Memᴰ n kept) nodes) (distinct : IsDistinct nodes)
    (others : (j : BranchKey) → k ≢ j → All (λ n. Memᴰ n kept) (at j))
    (alone : (j : BranchKey) → IsDistinct (at j))
    (apart : (j : BranchKey) → k ≢ j → IsApart nodes (at j))
    (apart_others : (i j : BranchKey) → i ≢ j → IsApart (at i) (at j)) where
  replaced-Shows : Shows (with_nodes k nodes at) r
  replaced-Shows = record {
    kept = kept;
    tracks = tracks;
    shown = λ j. elim (Bool-cases (branch_eq k j)) [
      | inl own ↦ rw own shown
      | inr other ↦ rw other (others j (branch_ne k j other))
    ];
    distinct = λ j. elim (Bool-cases (branch_eq k j)) [
      | inl own ↦ rw own distinct
      | inr other ↦ rw other (alone j)
    ];
    apart = λ i j ne. elim (Bool-cases (branch_eq k i)) [
      | inl own ↦ elim (Bool-cases (branch_eq k j)) [
        | inl same ↦ absurd (ne (sym (branch_eq→≡ k i own) ∙ branch_eq→≡ k j same))
        | inr other ↦ rw (own, other) (apart j (branch_ne k j other))
      ]
      | inr far ↦ elim (Bool-cases (branch_eq k j)) [
        | inl same ↦ rw (far, same) (IsApart-swap nodes (at i) (apart i (branch_ne k i far)))
        | inr other ↦ rw (far, other) (apart_others i j ne)
      ]
    ];
  }

module _ (at : BranchKey → List CatalogNode) (k : BranchKey) (r : CatalogRetention) where
  -- The nodes of a branch are taken out of the budget, and no longer shown.
  pub remove-Shows : Shows at r → Shows (with_nodes k [] at) (remove r (at k))
  remove-Shows h =
      let gone = remove-Removal (at k) r h.kept h.tracks (h.shown k) (h.distinct k) in
      replaced-Shows at k [] (remove r (at k)) gone.left gone.tracks tt tt
        (λ j ne.
          All-map (at j)
            (λ m both. gone.stays m both.0 (All-map (at k) (λ n differ q. differ (sym q)) both.1))
            (All-both _ _ (at j) (h.shown j) (h.apart j k (λ q. ne (sym q)))))
        h.distinct (λ j ne. tt) h.apart

  -- New nodes are taken up, as far as there is room, and shown behind those of a branch.
  pub retain-Shows :
      (nodes : List CatalogNode)
      → Shows at r
      → Shows (with_nodes k (at k ++ (retain r nodes).nodes) at) (retain r nodes).retention
  retain-Shows nodes h =
      let o = retain r nodes in
      let g = retain-Growth nodes r h.kept h.tracks in
      replaced-Shows at k (at k ++ o.nodes) o.retention g.grown g.tracks
        (All-append _ (at k) o.nodes (All-map (at k) g.stays (h.shown k)) g.taken)
        (IsDistinct-append (at k) o.nodes (h.distinct k) g.distinct
          (IsApart-new h.kept (at k) o.nodes (h.shown k) g.new))
        (λ j ne. All-map (at j) g.stays (h.shown j)) h.distinct
        (λ j ne.
          All-append _ (at k) o.nodes (h.apart k j ne)
            (IsApart-swap (at j) o.nodes (IsApart-new h.kept (at j) o.nodes (h.shown j) g.new)))
        h.apart

-- Branches that show the same nodes.
pub same-Shows :
    (at again : BranchKey → List CatalogNode) (r : CatalogRetention)
    → ((k : BranchKey) → again k ≡ at k)
    → Shows at r
    → Shows again r
same-Shows at again r e h = record {
  kept = h.kept;
  tracks = h.tracks;
  shown = λ k. subst (All (λ n. Memᴰ n h.kept)) (sym (e k)) (h.shown k);
  distinct = λ k. subst IsDistinct (sym (e k)) (h.distinct k);
  apart = λ k j ne.
      subst (λ xs. IsApart xs (again j)) (sym (e k))
        (subst (IsApart (at k)) (sym (e j)) (h.apart k j ne));
}
