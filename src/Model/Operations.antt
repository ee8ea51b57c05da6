-- ===== src/Model/Operations.antt =====
-- The operations of src/model.rs, the summaries and codes under which their errors are shown, and
-- the fields of a profile form.
use dbotter.Prelude.{ℕ, Bool, ◌&&◌, ◌||◌, not, Result, ok, err, leb, ◌==◌, any, if◌then◌else◌}
use dbotter.Text.{Text, codes, str_len}

pub data OperationKind : Type 0 where
  load_configuration reload_configuration migrate_configuration create_profile update_profile
        delete_profile test_draft_connection connect_profile disconnect_profile reconnect_profile
        execute_read execute_mutation browse_mysql browse_redis inspect_redis export_result
        shutdown_runtime :
      OperationKind

pub data PublicSummary : Type 0 where
  invalid_input credential_required authentication_failed permission_denied network_unavailable
        tls_verification_failed operation_timed_out syntax_rejected constraint_rejected
        unsupported_feature operation_cancelled resource_busy resource_stale
        config_write_not_committed committed_durability_unknown export_failed internal_failure :
      PublicSummary

pub message : PublicSummary → Text
message invalid_input = codes "Some input needs attention."
message credential_required = codes "A credential is required."
message authentication_failed = codes "Authentication failed."
message permission_denied = codes "The server denied this operation."
message network_unavailable = codes "The server is unavailable."
message tls_verification_failed = codes "TLS verification failed."
message operation_timed_out = codes "The operation timed out."
message syntax_rejected = codes "The server rejected the syntax."
message constraint_rejected = codes "The server rejected the change."
message unsupported_feature = codes "This operation is not supported."
message operation_cancelled = codes "The operation was cancelled."
message resource_busy = codes "Another operation is already active."
message resource_stale = codes "The selected state is stale."
message config_write_not_committed = codes "The configuration was not changed."
message committed_durability_unknown =
    codes "The change is visible, but durable storage confirmation failed."
message export_failed = codes "The result could not be exported."
message internal_failure = codes "Dbotter could not complete the operation."

pub data ProfileFieldId : Type 0 where
  connection_id display_name host port database username credential_mode credential_environment_name
        session_credential redis_tls_mode redis_ca_file :
      ProfileFieldId

pub data PublicCodeValidationError : Type 0 where
  invalid_mysql_errno invalid_sql_state : PublicCodeValidationError

pub record MysqlPublicErrorCode : Type 0 where
  pub errno : ℕ
  pub sql_state : Text

abbrev is_state_byte : ℕ → Bool
is_state_byte c = (leb b'A' c && leb c b'Z') || (leb b'0' c && leb c b'9')

-- `MySqlPublicErrorCode::new`.
pub mysql_public_error_code : ℕ → Text → Result PublicCodeValidationError MysqlPublicErrorCode
mysql_public_error_code errno sql_state =
    if errno == 0
    then err invalid_mysql_errno
    else if not (str_len sql_state == 5) || any (λ c. not (is_state_byte c)) sql_state
    then err invalid_sql_state
    else ok (record { errno = errno; sql_state = sql_state })

pub data RedisPublicErrorKind : Type 0 where
  parse authentication_failed unexpected_return_type invalid_client_config io client extension
        master_name_not_found_by_sentinel no_valid_replicas_found_by_sentinel empty_sentinel_list
        cluster_connection_not_found resp3_not_supported response_error exec_abort busy_loading
        no_script moved ask try_again cluster_down cross_slot master_down read_only not_busy no_sub
        no_perm :
      RedisPublicErrorKind

pub data PublicCode : Type 0 where
  no_code : PublicCode
  field : ProfileFieldId → PublicCode
  profile_id_conflict profile_stale config_external_change migration_backup_available
        session_credential credential_environment_name username database statement_target
        ambiguous_sql_mode unterminated_sql_token row_limit timeout_input catalog redis_scan
        export_destination export_destination_committed redis_tls_ca_invalid_pem
        redis_tls_ca_untrusted_issuer tls_hostname_mismatch redis_tls_preferred_legacy
        prepared_statement_unsupported :
      PublicCode
  mysql : MysqlPublicErrorCode → PublicCode
  redis : RedisPublicErrorKind → PublicCode
