-- ===== src/Lib.antt =====
-- Verification of dbotter, a desktop client for MySQL and Redis.
--
-- What is modelled. dbotter decides in pure code what one press of Execute may send, what of a
-- driver's answer it keeps, how that is shown and exported, and what it offers against an error.
-- These parts are here:
--
-- * Execution (src/execution.rs). `extract_and_validate_target` turns the editor's text, caret and
--   selection into one MySQL statement or one Redis command. Execution/Scanner.antt is `scan_mysql`
--   with its helpers, on a cursor that keeps the text on both sides of the byte index;
--   Execution/Mysql.antt is the choice of a statement (`infer_mysql_target`,
--   `validate_mysql_selection`); Execution/Redis.antt is the deny list and the limits
--   (`redis_bytes_are_denied`, `validate_redis_target`, `validate_single_redis_physical_command`);
--   Execution/Classify.antt is `classify_execution_kind`; Execution/Target.antt is the entry point.
-- * Requests and retention (src/model.rs). Model.antt has the data, Model/Requests.antt the requests
--   and their `validate`, Model/Retention.antt the retention of one cell, and
--   Model/Retention/Rows.antt the loops of `ResultSnapshot::retain`.
-- * Export (src/export.rs). Export/Scalars.antt has `clipboard_scalar` and canonical JSON,
--   Export/Fields.antt the escaping of fields and JSON strings, Export/Tables.antt `write_csv` and
--   `write_tsv`, Export/JsonText.antt `write_json`. An encoder is the list of the pieces that it
--   hands to the writer, and how it ends (Export/Traces.antt).
-- * Errors (src/public_error.rs). PublicErrors.antt has the contexts, actions and errors, and its
--   children the rows of the recovery matrix, one function per summary; PublicErrors/Matrix.antt is
--   `recovery_for_with_fact` and the construction of an error.
-- * The user interface's state (src/ui). Ui/Model.antt is `UiModel` of src/ui/model.rs and its
--   events; Ui/Model/Profiles.antt and Ui/Model/Sessions.antt have an event's effect each, and
--   Ui/Model/Fold.antt `UiModel::fold`. Ui/Model/Deleted.antt has the steps of the model: its events,
--   and the operations that src/ui/app.rs submits for an active profile, which it shows as pending or
--   closing. Ui/ResultView.antt is `ResultViewState` of src/ui/result_view.rs, and
--   Ui/ResultView/Copy.antt the copying of rows.
--   Ui/Editor.antt is `build_execute_intent` of src/ui/editor.rs, with what is typed into its fields.
--   Ui/MysqlExplorer.antt is `MySqlExplorerState` of src/ui/mysql_explorer.rs, which keeps what the
--   budget of src/drivers/mysql_catalog.rs lets it keep (`CatalogRetention`, Drivers/Catalog.antt).
--   The keeping of the budget is in Drivers/Catalog/Limits.antt and its siblings, and what the
--   branches show of it in Ui/MysqlExplorer/Shown.antt.
--   Ui/RedisExplorer.antt is `RedisExplorer` of src/ui/redis_explorer.rs on `RedisScanAccumulator` of
--   src/drivers/redis_browser.rs (Drivers/RedisScan.antt).
-- * Secrets (src/secrets.rs). Secrets.antt is the store of session credentials, whose lock may be
--   poisoned, and what a save does to it.
--
-- How they meet. The Redis requests of Model/Requests.antt use the deny list of Execution/Redis.antt;
-- the retention makes the snapshot that the export reads, that the model of the user interface keeps
-- in a workspace, and that the result view shows and copies. The fold shows the public errors. The
-- editor's intent is made by the entry point of Execution.
--
-- How the code is modelled. A `str` is the list of its scalar values, and byte indices are counted
-- with the length of each in UTF-8. A fallible function returns `Result`. An `f64` is its bits.
-- Machine integers are natural numbers: the code adds only lengths of texts in memory, and uses
-- checked addition for the size of a Redis command, which the model does too, at 64 bits.
--
-- Loops. The scanner's loop over a text and its loop over a quoted token run on fuel of one more than
-- the characters that are left, which suffices since each round moves the cursor on. The digits of a
-- number have fuel for thirty-nine, enough for 128 bits. All other loops are structural.
--
-- Parameters. `shell_words::split` is the argument `split` of the Redis definitions. The printing of floats
-- and base64, the parsing of decimals and times (record `Formats`), and `serde_json`'s text (record
-- `Printing`) are arguments of the export and the retention. Nothing is assumed of them.
--
-- Maps. A hash map is a function from its keys to an option; a set of rows is a list. Operations,
-- sessions, drafts and generations are numbers, and an event that cannot come is not left out: the
-- fold is total.
--
-- Not modelled: the rest of the user interface (src/ui), which draws or calls egui, the service and
-- the rest of the drivers, which call asynchronous libraries, configuration, the commit of an export
-- file, the cancelling writer of the export, and the Debug texts and the texts of errors.
pub mod Prelude
pub mod Text
pub mod Execution
pub mod Model
pub mod Export
pub mod PublicErrors
pub mod Secrets
pub mod Drivers
pub mod Ui
