-- ===== src/Tests/StartRuns.antt =====
-- A run of src/main.rs.
use eventfold_db.Common.{[], ◌≡◌, refl, true, ◌∷◌, none, some, All, ltb}
use eventfold_db.Store.{no_faults}
use eventfold_db.Server.Config.{
  Variable, Environment, Config, Outcome, ready, parse_digits, parse_usize, read_broker_capacity,
  read_dedup_capacity, read_tls, read_jwt_secret, read_listen, read_metrics_listen, from_env,
}
use eventfold_db.Server.Config as Settings
use eventfold_db.Server.Start.{Serving, Host, main}
use eventfold_db.Server.Start.Watch.{at_start, Obeys}
use eventfold_db.Server.Start.Stages.{at_end, main-Obeys}
use eventfold_db.Server.Start.Yields.{IsGuarded}
use eventfold_db.Server.Start.Guarded.{main-IsGuarded}
use eventfold_db.Tests.Data.{sum_crc, plain_uuid, list_lru}
use eventfold_db.Tests.ServerRuns.{texts, keys, plain_metadata}

-- TLS and a secret, and no metrics.
abbrev environment : Environment
environment Variable.data_path = some (b'd' ∷ [])
environment Variable.metrics_listen = some []
environment Variable.tls_cert = some (b'c' ∷ [])
environment Variable.tls_key = some (b'k' ∷ [])
environment Variable.jwt_secret = some (b's' ∷ [])
environment _ = none

abbrev host : Host
host = record {
  env = environment;
  os = no_faults;
  data_file = λ path. none;
  channel = λ n. ltb 0 n;
  build_recorder = some tt;
  recorder_handle = none;
  read = λ path. some path;
  tls_config = λ identity. true;
  bind = λ addr. some addr;
  sigterm_registers = true;
  serving = Serving.drained;
  writer_joins = true;
}

abbrev settings : Config
settings = record {
  data_path = b'd' ∷ [];
  listen_addr = texts.default_listen_addr;
  broker_capacity = 4096;
  dedup_capacity = 65536;
  tls = some (record { cert_path = b'c' ∷ []; key_path = b'k' ∷ []; ca_path = none });
  metrics_listen = none;
  jwt_secret = some (b's' ∷ []);
}

configured : from_env host.env ≡ ready settings
unfolding from_env read_listen read_broker_capacity read_dedup_capacity read_metrics_listen read_tls
    read_jwt_secret Settings.◌>>=◌
configured = refl

main-Obeys_example : Obeys at_start at_end (main host)
main-Obeys_example = main-Obeys host

main-IsGuarded_example : All (IsGuarded host settings) (main host).0
main-IsGuarded_example = main-IsGuarded host settings configured
