-- ===== src/Server/Start.antt =====
-- src/main.rs: `main`, from the environment to the end of the process. What it does to the outside is
-- a list of effects, in order; what the outside answers is a host. Log lines are left out.
pub mod Watch
pub mod Stages
pub mod Yields
pub mod Guarded
use eventfold_db.Common.{
  [], ℕ, ◌≡◌, Bool, true, false, List, ◌∷◌, ◌++◌, Option, none, some, if◌then◌else◌,
}
use mathlib.Core.Option
use eventfold_db.Crates.{Crc32, UuidCrate}
use eventfold_db.Error.{Result, ok, err}
use eventfold_db.Store.{OpenIo, Store, open_store}
use eventfold_db.Dedup.{LruCrate}
use eventfold_db.Writer.{Writer, spawn_writer}
use eventfold_db.Server.Config.{
  AddressParser, Environment, Fault, Outcome, ready, reject, TlsConfig, Config, from_env,
}
use eventfold_db.Server.Auth.{TokenCrate, MetadataCrate, JwtInterceptor, new}
use eventfold_db.Server.Metrics.{
  Installed, installed, already_installed, panicked, install_recorder,
}

-- How the future of the server ends: it waits for the shutdown future, or fails before or after it.
-- The stream of a listener's connections has no end.
pub data Serving : Type 0 where
  drained : Serving
  failed_early : Serving
  failed_late : Serving

-- What the health service is asked for: the whole server, or the event store.
pub data HealthName : Type 0 where
  overall : HealthName
  event_store : HealthName

-- `std::process::exit`, or a panic, in place of a value.
pub data Ended {ℓ} (A : Type ℓ) : Type ℓ where
  go : A → Ended A
  exit : ℕ → Ended A
  panic : Ended A

-- The certificate, the key and the authority, as read.
abbrev pub TlsIdentity : Type 0
TlsIdentity = List ℕ × List ℕ × Option (List ℕ)

module _ ⦃address : AddressParser⦄ ⦃jwt : TokenCrate⦄ ⦃metadata : MetadataCrate⦄ ⦃crc : Crc32⦄
    ⦃uuid : UuidCrate⦄ ⦃lru : LruCrate⦄ where
  pub record Host : Type 0 where
    pub env : Environment
    -- The file system, and the data file at a path.
    pub os : OpenIo
    pub data_file : List ℕ → Option (List ℕ)
    -- `broadcast::channel` panics on some capacities.
    pub channel : ℕ → Bool
    -- The exporter's builder, and the static of src/metrics.rs.
    pub build_recorder : Option (Unit {0})
    pub recorder_handle : Option (Unit {0})
    -- `tokio::fs::read`
    pub read : List ℕ → Option (List ℕ)
    pub tls_config : TlsIdentity → Bool
    -- The address that is bound.
    pub bind : address.SocketAddr → Option address.SocketAddr
    pub sigterm_registers : Bool
    pub serving : Serving
    pub writer_joins : Bool

  -- The server as it is built.
  pub record Router : Type 0 where
    pub tls : Option TlsIdentity
    pub interceptor : Option JwtInterceptor

  pub data Effect : Type 0 where
    message : Fault → Effect
    opened : Store → Effect
    spawned : Writer → Effect
    metrics_spawned : address.SocketAddr → Effect
    bound : address.SocketAddr → Effect
    set_status : HealthName → Bool → Effect
    served : address.SocketAddr → Router → Effect
    metrics_aborted : Effect
    writer_dropped : Effect
    writer_joined : Effect

  abbrev pub Run {ℓ} : Type ℓ → Type ℓ
  Run A = List Effect × Ended A

  abbrev pub bind_to {ℓ κ} : {A : Type ℓ} {B : Type κ} → List Effect → Ended A → (A → Run B) → Run B
  bind_to effects (go a) next = let (more, r) = next a in (effects ++ more, r)
  bind_to effects (exit n) next = (effects, exit n)
  bind_to effects panic next = (effects, panic)

  infixl 5 ◌>>=◌ ◌>>◌
  unfoldable pub ◌>>=◌ {ℓ κ} : {A : Type ℓ} {B : Type κ} → Run A → (A → Run B) → Run B
  (effects, r) >>= next = bind_to effects r next

  abbrev pub ◌>>◌ {ℓ κ} : {A : Type ℓ} {B : Type κ} → Run A → Run B → Run B
  m >> next = m >>= λ _. next

  abbrev pub pure {ℓ} : {A : Type ℓ} → A → Run A
  pure a = ([], go a)

  abbrev pub emit : Effect → Run (Unit {0})
  emit e = (e ∷ [], go tt)

  -- A failure that is logged ends the process with 1.
  abbrev pub or_exit {ℓ} : {A : Type ℓ} → Option A → Run A
  or_exit none = ([], exit 1)
  or_exit (some a) = pure a

  abbrev pub or_panic : Bool → Run (Unit {0})
  or_panic false = ([], panic)
  or_panic true = pure tt

  abbrev pub configured : Outcome Fault Config → Run Config
  configured (reject e) = (message e ∷ [], exit 1)
  configured (ready config) = pure config

  -- Step 4; `none` stands for a recovery that does not end.
  abbrev pub opened_or_exit : Option (Result Store) → Run Store
  opened_or_exit none = ([], panic)
  opened_or_exit (some (err e)) = ([], exit 1)
  opened_or_exit (some (ok store)) = pure store

  -- Step 7.
  abbrev pub installed_or_exit : Installed (Unit {0}) → Run (Unit {0})
  installed_or_exit (installed handle) = pure handle
  installed_or_exit already_installed = ([], exit 1)
  installed_or_exit panicked = ([], panic)

  -- Step 8.
  abbrev pub start_metrics : Option address.SocketAddr → Run (Unit {0})
  start_metrics none = pure tt
  start_metrics (some addr) = emit (metrics_spawned addr)

  abbrev pub read_client_ca : Host → Option (List ℕ) → Run (Option (List ℕ))
  read_client_ca host none = pure none
  read_client_ca host (some path) = or_exit (host.read path) >>= λ ca. pure (some ca)

  -- Step 11.
  unfoldable pub configure_tls : Host → Option TlsConfig → Run (Option TlsIdentity)
  configure_tls host none = pure none
  configure_tls host (some tls) = do
    cert ← or_exit (host.read tls.cert_path)
    key ← or_exit (host.read tls.key_path)
    ca ← read_client_ca host tls.ca_path
    or_exit (if host.tls_config (cert, key, ca) then some (some (cert, key, ca)) else none)

  -- `shutdown_signal`, as far as it can fail.
  abbrev pub shutdown_signal : Host → Run (Unit {0})
  shutdown_signal host = or_panic host.sigterm_registers

  abbrev pub set_not_serving : Run (Unit {0})
  set_not_serving = do emit (set_status overall false); emit (set_status event_store false)

  abbrev pub until_shutdown : Serving → Run (Unit {0})
  until_shutdown drained = set_not_serving
  until_shutdown failed_early = ([], exit 1)
  until_shutdown failed_late = set_not_serving >> ([], exit 1)

  -- Steps 15 to 17.
  unfoldable pub serve : Host → address.SocketAddr → Router → Run (Unit {0})
  serve host addr router = do
    emit (set_status event_store true)
    emit (set_status overall true)
    emit (served addr router)
    shutdown_signal host
    until_shutdown host.serving

  abbrev pub abort_metrics : Option address.SocketAddr → Run (Unit {0})
  abort_metrics none = pure tt
  abort_metrics (some addr) = emit metrics_aborted

  unfoldable pub shut_down : Host → Option address.SocketAddr → Run (Unit {0})
  shut_down host metrics_listen = do
    abort_metrics metrics_listen
    emit writer_dropped
    or_panic host.writer_joins
    emit writer_joined

  -- Steps 4 to 8.
  unfoldable pub start_parts : Host → Config → Run (Unit {0})
  start_parts host config = do
    store ← opened_or_exit (open_store host.os (host.data_file config.data_path))
    emit (opened store)
    or_panic (host.channel config.broker_capacity)
    emit (spawned (spawn_writer store config.dedup_capacity))
    installed_or_exit (install_recorder host.build_recorder host.recorder_handle).1
    start_metrics config.metrics_listen

  -- Steps 11 to 14.
  unfoldable pub listen : Host → Config → Run (address.SocketAddr × Router)
  listen host config = do
    tls ← configure_tls host config.tls
    addr ← or_exit (host.bind config.listen_addr)
    emit (bound addr)
    pure (addr, record { tls = tls; interceptor = Option.map new config.jwt_secret })

  unfoldable pub main : Host → Run (Unit {0})
  main host = do
    config ← configured (from_env host.env)
    start_parts host config
    (addr, router) ← listen host config
    serve host addr router
    shut_down host config.metrics_listen
