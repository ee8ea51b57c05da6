-- ===== src/Export.antt =====
-- src/export.rs: a retained result as CSV, TSV or JSON, through a writer that can be cancelled.
-- The encoders are traces: the pieces that they hand to `write_all`, in order, and how they end.
pub mod Scalars
pub mod Fields
pub mod Traces
pub mod Tables
pub mod JsonText
