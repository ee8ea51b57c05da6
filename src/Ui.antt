-- ===== src/Ui.antt =====
-- The user interface of src/ui, where it decides without drawing.
pub mod Model
pub mod Editor
pub mod MysqlExplorer
pub mod RedisExplorer
pub mod ResultView
