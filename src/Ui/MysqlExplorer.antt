-- ===== src/Ui/MysqlExplorer.antt =====
-- `MySqlExplorerState` of src/ui/mysql_explorer.rs: the branches of the catalog that are loaded, and
-- the requests under way. Hash maps are functions from their keys, hash sets are lists.
use dbotter.Prelude.{
  ℕ, Bool, true, false, ◌&&◌, ◌||◌, not, Option, none, some, List, [], ◌∷◌, ◌++◌, ◌==◌,
  if◌then◌else◌,
}
use dbotter.Text.{Text, text_eq}
use dbotter.Model.Operations.{PublicSummary}
use dbotter.Model.Requests.{CatalogRequest, CatalogParent}
use dbotter.Model.Pages.{
  CatalogLevel, CatalogNodeIdentity, CatalogNode, CatalogPage, CatalogRetainedCounts,
}
use dbotter.Drivers.Catalog.{CatalogRetention, empty_retention, Outcome, retain, remove, counts}
pub mod Shown
pub mod Budget
pub mod Examples

pub data BranchKey : Type 0 where
  schemas : BranchKey
  relations : Text → BranchKey
  columns : Text → Text → BranchKey

abbrev pub branch_eq : BranchKey → BranchKey → Bool
branch_eq schemas schemas = true
branch_eq (relations s) (relations t) = text_eq s t
branch_eq (columns s r) (columns t q) = text_eq s t && text_eq r q
branch_eq _ _ = false

abbrev for_place : CatalogLevel → Option CatalogNodeIdentity → Option BranchKey
for_place CatalogLevel.schemas none = some schemas
for_place CatalogLevel.relations (some (CatalogNodeIdentity.schema s)) = some (relations s)
for_place CatalogLevel.columns (some (CatalogNodeIdentity.relation s r)) = some (columns s r)
for_place _ _ = none

unfoldable pub for_page : CatalogPage → Option BranchKey
for_page page = for_place page.level page.parent

abbrev branch_of : CatalogParent → BranchKey
branch_of CatalogParent.schemas = schemas
branch_of (CatalogParent.relations s) = relations s
branch_of (CatalogParent.columns s r) = columns s r

abbrev pub branch_for_request : CatalogRequest → BranchKey
branch_for_request request = branch_of request.parent

-- Whether a request asks for a level.
abbrev is_level : CatalogParent → CatalogLevel → Bool
is_level CatalogParent.schemas CatalogLevel.schemas = true
is_level (CatalogParent.relations s) CatalogLevel.relations = true
is_level (CatalogParent.columns s r) CatalogLevel.columns = true
is_level _ _ = false

pub record CatalogBranch : Type 0 where
  pub nodes : List CatalogNode
  pub continuation : Option CatalogRequest
  pub truncated : Bool
  pub stale : Bool

abbrev pub default_branch : CatalogBranch
default_branch = record { nodes = []; continuation = none; truncated = false; stale = false }

pub record PendingCatalogRequest : Type 0 where
  pub request : CatalogRequest
  pub append : Bool

pub record MysqlExplorerState : Type 0 where
  pub prefix : Text
  pub branches : BranchKey → Option CatalogBranch
  pub expanded_schemas : List Text
  pub expanded_relations : List (Text × Text)
  pub pending : ℕ → Option PendingCatalogRequest
  pub retry : Option CatalogRequest
  pub last_error : Option PublicSummary
  pub retention : CatalogRetention

abbrev pub new_explorer : MysqlExplorerState
new_explorer = record {
  prefix = [];
  branches = λ k. none;
  expanded_schemas = [];
  expanded_relations = [];
  pending = λ o. none;
  retry = none;
  last_error = none;
  retention = empty_retention;
}

abbrev is_set {ℓ} : {A : Type ℓ} → Option A → Bool
is_set none = false
is_set (some a) = true

pub mark_submitted : MysqlExplorerState → CatalogRequest → MysqlExplorerState
mark_submitted s request = record s {
  pending = λ o.
      if request.identity.operation_id == o
      then some (record { request = request; append = is_set request.page_token })
      else s.pending o;
  last_error = none;
}

abbrev without_pending : MysqlExplorerState → ℕ → MysqlExplorerState
without_pending s operation = record s {
  pending = λ o. if operation == o then none else s.pending o;
}

abbrev is_other_level : Option PendingCatalogRequest → CatalogPage → Bool
is_other_level none page = false
is_other_level (some p) page = not (is_level p.request.parent page.level)

abbrev appends : Option PendingCatalogRequest → Bool
appends none = false
appends (some p) = p.append

abbrev pub request_with_page_token : CatalogRequest → Text → CatalogRequest
request_with_page_token request token = record request { page_token = some token }

abbrev continuation_of : Option PendingCatalogRequest → Option Text → Option CatalogRequest
continuation_of (some p) (some token) = some (request_with_page_token p.request token)
continuation_of _ _ = none

-- What a page that is loaded anew takes out of the budget.
abbrev pub released : Bool → Option CatalogBranch → CatalogRetention → CatalogRetention
released false (some previous) retention = remove retention previous.nodes
released _ _ retention = retention

abbrev branch_or_default : Option CatalogBranch → CatalogBranch
branch_or_default none = default_branch
branch_or_default (some branch) = branch

abbrev pub load_branch :
    MysqlExplorerState
    → BranchKey
    → Bool
    → Option CatalogRequest
    → CatalogPage
    → Outcome
    → MysqlExplorerState
load_branch s key append continuation page outcome =
    let before = branch_or_default (s.branches key) in
    let truncated = page.truncated || outcome.truncated in
    let branch : CatalogBranch = record {
      nodes = if append then before.nodes ++ outcome.nodes else outcome.nodes;
      continuation = if truncated then none else continuation;
      truncated = truncated;
      stale = false;
    } in
    record s {
      branches = λ k. if branch_eq key k then some branch else s.branches k;
      retention = outcome.retention;
      retry = none;
      last_error = none;
    }

abbrev pub load_page :
    MysqlExplorerState
    → Option BranchKey
    → Option PendingCatalogRequest
    → CatalogPage
    → MysqlExplorerState
load_page s none pending page = s
load_page s (some key) pending page =
    load_branch s key (appends pending) (continuation_of pending page.next_token) page
      (retain (released (appends pending) (s.branches key) s.retention) page.nodes)

unfoldable pub handle_loaded : MysqlExplorerState → CatalogPage → MysqlExplorerState
unfolding for_page
handle_loaded s page =
    let operation = page.identity.operation_id in
    let rest = without_pending s operation in
    if is_other_level (s.pending operation) page
    then rest
    else load_page rest (for_page page) (s.pending operation) page

abbrev stale_branch : Option CatalogBranch → Option CatalogBranch
stale_branch none = none
stale_branch (some branch) = some (record branch { stale = true })

unfoldable pub handle_failed :
    MysqlExplorerState → CatalogRequest → PublicSummary → MysqlExplorerState
handle_failed s request summary =
    let key = branch_for_request request in
    record (without_pending s request.identity.operation_id) {
      branches = λ k. if branch_eq key k then stale_branch (s.branches k) else s.branches k;
      retry = some request;
      last_error = some summary;
    }

-- `clear`, which keeps the prefix.
pub clear : MysqlExplorerState → MysqlExplorerState
clear s = record new_explorer { prefix = s.prefix }

pub dismiss_error : MysqlExplorerState → MysqlExplorerState
dismiss_error s = record s { last_error = none }

pub retained_counts : MysqlExplorerState → CatalogRetainedCounts
unfolding counts
retained_counts s = counts s.retention

abbrev is_stale : Option CatalogBranch → Bool
is_stale none = false
is_stale (some branch) = branch.stale

pub is_stale_for : MysqlExplorerState → CatalogRequest → Bool
is_stale_for s request = is_stale (s.branches (branch_for_request request))
