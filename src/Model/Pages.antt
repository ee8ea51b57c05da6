-- ===== src/Model/Pages.antt =====
-- The pages of the explorers in src/model.rs.
use dbotter.Prelude.{ℕ, Bool, Option, List}
use dbotter.Text.{Text}
use dbotter.Model.{ℤ, Cell, ResultNotice, TransientAllocation}
use dbotter.Model.Requests.{RequestIdentity}

pub data CatalogLevel : Type 0 where
  schemas relations columns : CatalogLevel

pub data CatalogNodeIdentity : Type 0 where
  schema : Text → CatalogNodeIdentity
  relation : Text → Text → CatalogNodeIdentity
  column : Text → Text → ℕ → CatalogNodeIdentity

pub data CatalogNodeKind : Type 0 where
  schema table view column : CatalogNodeKind

pub record CatalogNode : Type 0 where
  pub identity : CatalogNodeIdentity
  pub kind : CatalogNodeKind
  pub name : Text
  pub type_name : Option Text
  pub nullable : Option Bool
  pub ordinal : Option ℕ

pub record CatalogRetainedCounts : Type 0 where
  pub schemas : ℕ
  pub relations : ℕ
  pub columns : ℕ
  pub columns_in_relation : ℕ

pub record CatalogPage : Type 0 where
  pub identity : RequestIdentity
  pub level : CatalogLevel
  pub parent : Option CatalogNodeIdentity
  pub nodes : List CatalogNode
  pub next_token : Option Text
  pub retained_counts : CatalogRetainedCounts
  pub retained_utf8_bytes : ℕ
  pub truncated : Bool
  pub stale : Bool
  pub loaded_at : Text

pub record RedisKeyEntry : Type 0 where
  pub id : List ℕ
  pub key_base64 : Text
  pub display : Text
  pub hex : Text

pub record RedisKeyPage : Type 0 where
  pub identity : RequestIdentity
  pub next_cursor : ℕ
  pub keys : List RedisKeyEntry
  pub retained_count : ℕ
  pub skipped_oversize : ℕ
  pub retained_bytes : ℕ
  pub truncated : Bool
  pub stale : Bool

pub data RedisValueType : Type 0 where
  string hash list set sorted_set stream module_or_unknown : RedisValueType

pub data RedisTtl : Type 0 where
  missing persistent : RedisTtl
  expires_in : ℤ → RedisTtl

pub record RedisValuePreview : Type 0 where
  pub identity : RequestIdentity
  pub key : RedisKeyEntry
  pub value_type : RedisValueType
  pub ttl : RedisTtl
  pub size : Option ℕ
  pub items : List Cell
  pub retained_items : ℕ
  pub retained_bytes : ℕ
  pub truncated : Bool
  pub stale : Bool
  pub transient_allocation : TransientAllocation
  pub notices : List ResultNotice
