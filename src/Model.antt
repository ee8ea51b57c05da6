-- ===== src/Model.antt =====
-- src/model.rs: the identities, cells and results that the other modules pass around. Its children
-- are the requests with their validation, and the retention of a result.
use dbotter.Prelude.{ℕ, Bool, List, Option}
use dbotter.Text.{Text}
pub mod Operations
pub mod Profiles
pub mod Pages
pub mod Requests
pub mod Retention

-- `negsuc n` is -(n + 1). An `i64` keeps to its range by its type in the source.
pub data ℤ : Type 0 where
  pos : ℕ → ℤ
  negsuc : ℕ → ℤ

pub data DriverKind : Type 0 where
  my_sql redis mongo_db : DriverKind

-- `serde_json::Value`. A number is kept as the text that it displays as; an object's fields are in
-- the order of its map.
mutual
  pub data Json : Type 0 where
    null : Json
    boolean : Bool → Json
    number : Text → Json
    string : Text → Json
    array : JsonItems → Json
    object : JsonFields → Json

  pub data JsonItems : Type 0 where
    nil : JsonItems
    cons : Json → JsonItems → JsonItems

  pub data JsonFields : Type 0 where
    end : JsonFields
    field : Text → Json → JsonFields → JsonFields

-- An `f64` is its bit pattern.
pub data Cell : Type 0 where
  null : Cell
  boolean : Bool → Cell
  int : ℤ → Cell
  uint : ℕ → Cell
  float : ℕ → Cell
  decimal : Text → Cell
  text : Text → Cell
  text_preview : Text → ℕ → Cell
  bytes : List ℕ → ℕ → Cell
  json : Json → Cell
  json_preview : Text → ℕ → Cell
  date_time : Text → Cell

pub record Column : Type 0 where
  pub name : Text
  pub type_name : Text

pub record QueryResult : Type 0 where
  pub columns : List Column
  pub rows : List (List Cell)
  pub affected_rows : ℕ
  pub last_insert_id : Option ℕ
  pub elapsed_ms : ℕ
  pub truncated : Bool
  pub backend_notices_present : Bool

pub record ResultProvenance : Type 0 where
  pub result_id : ℕ
  pub profile_id : Text
  pub profile_generation : ℕ
  pub operation_id : ℕ
  pub driver : DriverKind
  pub completed_at_unix_ms : ℤ
  pub duration_ms : ℕ

pub data ResultNotice : Type 0 where
  driver_reported_truncation column_limit_reached row_limit_reached snapshot_byte_limit_reached
        cell_preview_truncated redis_cell_limit_reached redis_depth_limit_reached
        backend_notices_discarded mysql_transient_row_allocation redis_transient_frame_allocation :
      ResultNotice

pub ResultNotice-discrete : Discrete ResultNotice
ResultNotice-discrete = hlevel

pub data TransientAllocation : Type 0 where
  mysql_current_row_or_cell redis_whole_resp_frame : TransientAllocation

pub data CellTruncationKind : Type 0 where
  text bytes json decimal date_time : CellTruncationKind

pub record CellTruncation : Type 0 where
  pub row_index : ℕ
  pub column_index : ℕ
  pub kind : CellTruncationKind
  pub retained_bytes : ℕ
  pub original_len : Option ℕ
  pub truncated : Bool

pub record ResultSnapshot : Type 0 where
  pub provenance : ResultProvenance
  pub columns : List Column
  pub rows : List (List Cell)
  pub affected_rows : ℕ
  pub last_insert_id : Option ℕ
  pub truncated : Bool
  pub notices : List ResultNotice
  pub retained_bytes : ℕ
  pub transient_allocation : TransientAllocation
  pub cell_truncations : List CellTruncation

pub data ExportFormat : Type 0 where
  csv tsv json : ExportFormat
