-- ===== src/Ui/MysqlExplorer/Budget.antt =====
-- The explorer of src/ui/mysql_explorer.rs keeps the budget of src/drivers/mysql_catalog.rs.
use dbotter.Prelude.{
  List, [], ◌++◌, ◌≡◌, refl, sym, ap, subst, ◌≤◌, inl, inr, Bool, true, false, Option, none, some,
  Bool-cases,
}
use dbotter.Model.Operations.{PublicSummary}
use dbotter.Model.Requests.{CatalogRequest}
use dbotter.Model.Pages.{CatalogPage, CatalogNode}
use dbotter.Drivers.Catalog.{CatalogRetention, retain, remove, empty_retention}
use dbotter.Drivers.Catalog.Kept.{empty-Tracks}
use dbotter.Ui.MysqlExplorer.Shown.{
  Shows, with_nodes, same-Shows, retain-Shows, remove-Shows, branch_eq_self,
}
use dbotter.Drivers.Catalog.Limits.{IsBudgeted, empty-IsBudgeted, retain-IsBudgeted}
use dbotter.Drivers.Catalog.Removal.{remove-IsBudgeted, counts-le}
use dbotter.Ui.MysqlExplorer.{
  branch_eq, branch_or_default, load_branch, appends, continuation_of, without_pending,
  stale_branch, branch_for_request, BranchKey, CatalogBranch, PendingCatalogRequest,
  MysqlExplorerState, new_explorer, mark_submitted, handle_loaded, load_page, released, for_page,
  is_other_level, handle_failed, clear, dismiss_error, retained_counts,
}

-- The explorer after any submissions, answers and clearings, in any order.
pub data Reach : MysqlExplorerState → Type 0 where
  start : Reach new_explorer
  submitted : {s : MysqlExplorerState} (r : CatalogRequest) → Reach s → Reach (mark_submitted s r)
  loaded : {s : MysqlExplorerState} (page : CatalogPage) → Reach s → Reach (handle_loaded s page)
  failed :
      {s : MysqlExplorerState} (r : CatalogRequest) (e : PublicSummary)
      → Reach s
      → Reach (handle_failed s r e)
  cleared : {s : MysqlExplorerState} → Reach s → Reach (clear s)
  dismissed : {s : MysqlExplorerState} → Reach s → Reach (dismiss_error s)

released-IsBudgeted :
    (append : Bool) (previous : Option CatalogBranch) (r : CatalogRetention)
    → IsBudgeted r
    → IsBudgeted (released append previous r)
released-IsBudgeted false (some branch) r h = remove-IsBudgeted r branch.nodes h
released-IsBudgeted false none r h = h
released-IsBudgeted true previous r h = h

load_page-IsBudgeted :
    (s : MysqlExplorerState) (key : Option BranchKey) (pending : Option PendingCatalogRequest)
    (page : CatalogPage)
    → IsBudgeted s.retention
    → IsBudgeted (load_page s key pending page).retention
load_page-IsBudgeted s none pending page h = h
load_page-IsBudgeted s (some key) pending page h =
    retain-IsBudgeted _ page.nodes (released-IsBudgeted _ (s.branches key) s.retention h)

loaded-IsBudgeted :
    (s : MysqlExplorerState) (page : CatalogPage)
    → IsBudgeted s.retention
    → IsBudgeted (handle_loaded s page).retention
unfolding handle_loaded
loaded-IsBudgeted s page h =
    elim (Bool-cases (is_other_level (s.pending page.identity.operation_id) page)) [
      | inl other ↦ rw other h
      | inr asked ↦
          rw asked
            (load_page-IsBudgeted _ (for_page page) (s.pending page.identity.operation_id) page h)
    ]

Reach-IsBudgeted : (s : MysqlExplorerState) → Reach s → IsBudgeted s.retention
unfolding mark_submitted handle_failed clear dismiss_error
Reach-IsBudgeted s start = empty-IsBudgeted
Reach-IsBudgeted s (submitted {s = t} r h) = Reach-IsBudgeted t h
Reach-IsBudgeted s (loaded {s = t} page h) = loaded-IsBudgeted t page (Reach-IsBudgeted t h)
Reach-IsBudgeted s (failed {s = t} r e h) = Reach-IsBudgeted t h
Reach-IsBudgeted s (cleared {s = t} h) = empty-IsBudgeted
Reach-IsBudgeted s (dismissed {s = t} h) = Reach-IsBudgeted t h

abbrev nodes_of : Option CatalogBranch → List CatalogNode
nodes_of none = []
nodes_of (some branch) = branch.nodes

-- What each branch shows.
abbrev pub shown_nodes : MysqlExplorerState → BranchKey → List CatalogNode
shown_nodes s k = nodes_of (s.branches k)

default_nodes : (o : Option CatalogBranch) → (branch_or_default o).nodes ≡ nodes_of o
default_nodes none = refl
default_nodes (some branch) = refl

released-remove :
    (o : Option CatalogBranch) (r : CatalogRetention) → released false o r ≡ remove r (nodes_of o)
unfolding remove
released-remove none r = refl
released-remove (some branch) r = refl

load_branch-Shows :
    (s : MysqlExplorerState) (key : BranchKey) (append : Bool)
    (continuation : Option CatalogRequest) (page : CatalogPage)
    → Shows (shown_nodes s) s.retention
    → let next =
        load_branch s key append continuation page
          (retain (released append (s.branches key) s.retention) page.nodes) in
      Shows (shown_nodes next) next.retention
load_branch-Shows s key true continuation page h =
    let o = retain s.retention page.nodes in
    same-Shows (with_nodes key (shown_nodes s key ++ o.nodes) (shown_nodes s)) _ o.retention
      (λ k. elim (Bool-cases (branch_eq key k)) [
        | inl own ↦ rw own (ap (λ xs. xs ++ o.nodes) (default_nodes (s.branches key)))
        | inr other ↦ rw other refl
      ])
      (retain-Shows (shown_nodes s) key s.retention page.nodes h)
load_branch-Shows s key false continuation page h =
    let r = released false (s.branches key) s.retention in
    let at = with_nodes key [] (shown_nodes s) in
    let o = retain r page.nodes in
    let freed : Shows at r =
      subst (Shows at) (sym (released-remove (s.branches key) s.retention))
        (remove-Shows (shown_nodes s) key s.retention h) in
    same-Shows (with_nodes key (at key ++ o.nodes) at) _ o.retention
      (λ k. elim (Bool-cases (branch_eq key k)) [
        | inl own ↦ rw (own, branch_eq_self key) refl
        | inr other ↦ rw other refl
      ])
      (retain-Shows at key r page.nodes freed)

load_page-Shows :
    (s : MysqlExplorerState) (key : Option BranchKey) (pending : Option PendingCatalogRequest)
    (page : CatalogPage)
    → Shows (shown_nodes s) s.retention
    → let next = load_page s key pending page in Shows (shown_nodes next) next.retention
load_page-Shows s none pending page h = h
load_page-Shows s (some key) pending page h =
    load_branch-Shows s key (appends pending) (continuation_of pending page.next_token) page h

loaded-Shows :
    (s : MysqlExplorerState) (page : CatalogPage)
    → Shows (shown_nodes s) s.retention
    → let next = handle_loaded s page in Shows (shown_nodes next) next.retention
unfolding handle_loaded
loaded-Shows s page h =
    let rest = without_pending s page.identity.operation_id in
    elim (Bool-cases (is_other_level (s.pending page.identity.operation_id) page)) [
      | inl other ↦ rw other h
      | inr asked ↦
          rw asked
            (load_page-Shows rest (for_page page) (s.pending page.identity.operation_id) page h)
    ]

stale_nodes : (o : Option CatalogBranch) → nodes_of (stale_branch o) ≡ nodes_of o
stale_nodes none = refl
stale_nodes (some branch) = refl

failed-Shows :
    (s : MysqlExplorerState) (r : CatalogRequest) (e : PublicSummary)
    → Shows (shown_nodes s) s.retention
    → let next = handle_failed s r e in Shows (shown_nodes next) next.retention
unfolding handle_failed
failed-Shows s r e h =
    same-Shows (shown_nodes s) _ s.retention
      (λ k. elim (Bool-cases (branch_eq (branch_for_request r) k)) [
        | inl own ↦ rw own (stale_nodes (s.branches k))
        | inr other ↦ rw other refl
      ])
      h

empty-Shows : Shows (λ k. []) empty_retention
empty-Shows = record {
  kept = [];
  tracks = empty-Tracks;
  shown = λ k. tt;
  distinct = λ k. tt;
  apart = λ k j ne. tt;
}

Reach-Shows : (s : MysqlExplorerState) → Reach s → Shows (shown_nodes s) s.retention
unfolding mark_submitted clear dismiss_error
Reach-Shows s start = empty-Shows
Reach-Shows s (submitted {s = t} r h) = Reach-Shows t h
Reach-Shows s (loaded {s = t} page h) = loaded-Shows t page (Reach-Shows t h)
Reach-Shows s (failed {s = t} r e h) = failed-Shows t r e (Reach-Shows t h)
Reach-Shows s (cleared {s = t} h) = empty-Shows
Reach-Shows s (dismissed {s = t} h) = Reach-Shows t h

-- After any submissions, answers, failures and clearings, in any order, the explorer counts at most
-- 200 schemas, 2000 relations, 10000 columns and 512 columns of one relation, and its counters, that
-- of each relation too, are those of the identities that it keeps. These identities and the bytes
-- that are counted, at most 4194304, are those of a list of nodes, with no identity twice; all nodes
-- that the branches show are in it, and no identity is shown twice.
pub Reach-retained_counts :
    (s : MysqlExplorerState)
    → Reach s
    → IsBudgeted s.retention
      × Shows (shown_nodes s) s.retention
      × ((retained_counts s).schemas ≤ 200)
      × ((retained_counts s).relations ≤ 2000)
      × ((retained_counts s).columns ≤ 10000)
      × ((retained_counts s).columns_in_relation ≤ 512)
unfolding retained_counts
Reach-retained_counts s h =
    let budget = Reach-IsBudgeted s h in
    let (a, b, c, d) = counts-le s.retention budget in (budget, Reach-Shows s h, a, b, c, d)
