-- ===== src/Model/Profiles.antt =====
-- The connection profiles of src/model.rs.
use native.Mathlib.Decide.{ℕ_discrete}
use dbotter.Prelude.{ℕ, Option, none, [], ◌++◌}
use dbotter.Text.{Text, codes}
use dbotter.Model.{DriverKind, my_sql, redis, mongo_db}
use dbotter.Export.Scalars.{display_uint}
use dbotter.Export.JsonText.{driver_name}

pub data TlsMode : Type 0 where
  disabled preferred required : TlsMode

pub data CredentialMode : Type 0 where
  no_credential session environment : CredentialMode

pub record RedisTlsConfig : Type 0 where
  pub ca_file : Option Text

pub record ConnectionProfile : Type 0 where
  pub id : Text
  pub name : Text
  pub driver : DriverKind
  pub host : Text
  pub port : ℕ
  pub database : Option Text
  pub username : Option Text
  pub tls : TlsMode
  pub credential_mode : CredentialMode
  pub secret_env : Option Text
  pub redis_tls : RedisTlsConfig

pub ConnectionProfile-discrete : Discrete ConnectionProfile
ConnectionProfile-discrete = hlevel (ℕ_discrete)

pub record ConnectionDraft : Type 0 where
  pub name : Text
  pub driver : DriverKind
  pub host : Text
  pub port : ℕ
  pub database : Option Text
  pub username : Option Text
  pub tls : TlsMode
  pub credential_mode : CredentialMode
  pub secret_env : Option Text
  pub redis_tls : RedisTlsConfig

pub redacted_endpoint : ConnectionProfile → Text
redacted_endpoint p =
    driver_name p.driver ++ (codes "://" ++ (p.host ++ (codes ":" ++ display_uint p.port)))

pub from_draft : Text → ConnectionDraft → ConnectionProfile
from_draft id draft = record {
  id = id;
  name = draft.name;
  driver = draft.driver;
  host = draft.host;
  port = draft.port;
  database = draft.database;
  username = draft.username;
  tls = draft.tls;
  credential_mode = draft.credential_mode;
  secret_env = draft.secret_env;
  redis_tls = draft.redis_tls;
}

pub as_draft : ConnectionProfile → ConnectionDraft
as_draft p = record {
  name = p.name;
  driver = p.driver;
  host = p.host;
  port = p.port;
  database = p.database;
  username = p.username;
  tls = p.tls;
  credential_mode = p.credential_mode;
  secret_env = p.secret_env;
  redis_tls = p.redis_tls;
}

abbrev default_port : DriverKind → ℕ
default_port my_sql = 3306
default_port redis = 6379
default_port mongo_db = 27017

abbrev default_tls : DriverKind → TlsMode
default_tls my_sql = preferred
default_tls redis = disabled
default_tls mongo_db = preferred

pub for_driver : DriverKind → ConnectionDraft
for_driver driver = record {
  name = [];
  driver = driver;
  host = codes "127.0.0.1";
  port = default_port driver;
  database = none;
  username = none;
  tls = default_tls driver;
  credential_mode = no_credential;
  secret_env = none;
  redis_tls = record { ca_file = none };
}
