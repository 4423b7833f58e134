-- ===== src/Server/Start/Yields.antt =====
-- src/main.rs: rules for what `main` does, step by step, and for the value that a step gives.
use eventfold_db.Common.{
  [], ℕ, ◌≡◌, refl, Bool, true, false, List, ◌++◌, Option, none, some, All, All-append, Bool-cases,
  inl, inr,
}
use mathlib.Core.Option
use eventfold_db.Crates.{Crc32, UuidCrate}
use eventfold_db.Error.{Result, ok, err}
use eventfold_db.Store.{Store, open_store}
use eventfold_db.Dedup.{LruCrate}
use eventfold_db.Writer.{spawn_writer}
use eventfold_db.Server.Config.{AddressParser, TlsConfig, Config}
use eventfold_db.Server.Metrics.{Installed, installed, already_installed, panicked}
use eventfold_db.Server.Auth.{TokenCrate, MetadataCrate, new}
use eventfold_db.Server.Start.{
  TlsIdentity, Host, Effect, Run, Ended, ◌>>=◌, emit, pure, or_exit, or_panic, opened_or_exit,
  installed_or_exit, read_client_ca, configure_tls,
}

module _ ⦃address : AddressParser⦄ ⦃jwt : TokenCrate⦄ ⦃metadata : MetadataCrate⦄ ⦃crc : Crc32⦄
    ⦃uuid : UuidCrate⦄ ⦃lru : LruCrate⦄ where
  -- What the server holds for a path, and for the paths of the configuration.
  abbrev pub Reads : Host → Option (List ℕ) → Option (List ℕ) → Type 0
  Reads host none pem = pem ≡ none
  Reads host (some path) pem = (bytes : List ℕ) × (host.read path ≡ some bytes) × (pem ≡ some bytes)

  abbrev pub HoldsTls : Host → Option TlsConfig → Option TlsIdentity → Type 0
  HoldsTls host none tls = tls ≡ none
  HoldsTls host (some config) tls =
      (cert key : List ℕ) × ((ca : Option (List ℕ)) × ((tls ≡ some (cert, key, ca))
          × (host.read config.cert_path ≡ some cert)
          × (host.read config.key_path ≡ some key)
          × Reads host config.ca_path ca))

  -- What the effects are allowed to be, for a configuration.
  abbrev pub IsGuarded : Host → Config → Effect → Type 0
  IsGuarded host config (Effect.opened store) =
      open_store host.os (host.data_file config.data_path) ≡ some (ok store)
  IsGuarded host config (Effect.spawned writer) =
      (store : Store) × ((open_store host.os (host.data_file config.data_path) ≡ some (ok store))
        × (writer ≡ spawn_writer store config.dedup_capacity))
  IsGuarded host config (Effect.metrics_spawned addr) = config.metrics_listen ≡ some addr
  IsGuarded host config (Effect.bound addr) = host.bind config.listen_addr ≡ some addr
  IsGuarded host config (Effect.served addr router) =
      (host.bind config.listen_addr ≡ some addr)
      × (router.interceptor ≡ Option.map new config.jwt_secret)
      × HoldsTls host config.tls router.tls
  IsGuarded host config _ = Unit {0}

  -- All effects are so, and the value, if there is one.
  abbrev pub Yields {ℓ} : {A : Type ℓ} → (Effect → Type 0) → (A → Type 0) → Run A → Type 0
  Yields P Q (es, Ended.go a) = All P es × Q a
  Yields P Q (es, Ended.exit n) = All P es
  Yields P Q (es, Ended.panic) = All P es

  Yields-after {ℓ} :
      {A : Type ℓ} (P : Effect → Type 0) (Q : A → Type 0) (es : List Effect) (p : Run A)
      → All P es
      → Yields P Q p
      → (let (more, r) = p in Yields P Q (es ++ more, r))
  Yields-after P Q es (more, Ended.go a) h (k, q) = (All-append P es more h k, q)
  Yields-after P Q es (more, Ended.exit n) h k = All-append P es more h k
  Yields-after P Q es (more, Ended.panic) h k = All-append P es more h k

  pub Yields-bind {ℓ κ} :
      {A : Type ℓ} {B : Type κ} (P : Effect → Type 0) (Q : A → Type 0) (R : B → Type 0) (m : Run A)
      (next : A → Run B)
      → Yields P Q m
      → ((a : A) → Q a → Yields P R (next a))
      → Yields P R (m >>= next)
  unfolding ◌>>=◌
  Yields-bind P Q R (es, Ended.go a) next (h, q) after = Yields-after P R es (next a) h (after a q)
  Yields-bind P Q R (es, Ended.exit n) next h after = h
  Yields-bind P Q R (es, Ended.panic) next h after = h

  -- No value is handed on.
  pub Yields-then {ℓ} :
      {B : Type ℓ} (P : Effect → Type 0) (R : B → Type 0) (m : Run (Unit {0})) (next : Run B)
      → Yields P (λ _. Unit {0}) m
      → Yields P R next
      → Yields P R (m >>= λ _. next)
  Yields-then P R m next h after = Yields-bind P (λ _. Unit {0}) R m (λ _. next) h (λ _ _. after)

  pub pure-Yields {ℓ κ} :
      {A : Type ℓ} {B : Type κ} (P : Effect → Type 0) (R : B → Type 0) (a : A) (next : A → Run B)
      → Yields P R (next a)
      → Yields P R (pure a >>= next)
  unfolding ◌>>=◌
  pure-Yields P R a next h = Yields-after P R [] (next a) tt h

  pub or_exit-Yields :
      {A : Type 0} (P : Effect → Type 0) (o : Option A) → Yields P (λ a. o ≡ some a) (or_exit o)
  or_exit-Yields P none = tt
  or_exit-Yields P (some a) = (tt, refl)

  pub or_panic-Yields : (P : Effect → Type 0) (b : Bool) → Yields P (λ _. Unit {0}) (or_panic b)
  or_panic-Yields P true = (tt, tt)
  or_panic-Yields P false = tt

  pub emit-Yields : (P : Effect → Type 0) (e : Effect) → P e → Yields P (λ _. Unit {0}) (emit e)
  emit-Yields P e h = ((h, tt), tt)

  read_client_ca-Yields :
      (P : Effect → Type 0) (host : Host) (o : Option (List ℕ))
      → Yields P (Reads host o) (read_client_ca host o)
  read_client_ca-Yields P host none = (tt, refl)
  read_client_ca-Yields P host (some path) =
      Yields-bind P _ _ (or_exit (host.read path)) _ (or_exit-Yields P (host.read path))
        (λ ca h. (tt, (ca, h, refl)))

  pub configure_tls-Yields :
      (P : Effect → Type 0) (host : Host) (o : Option TlsConfig)
      → Yields P (HoldsTls host o) (configure_tls host o)
  unfolding configure_tls
  configure_tls-Yields P host none = (tt, refl)
  configure_tls-Yields P host (some tls) =
      Yields-bind P _ _ (or_exit (host.read tls.cert_path)) _ (or_exit-Yields P _) (λ cert hc.
        Yields-bind P _ _ (or_exit (host.read tls.key_path)) _ (or_exit-Yields P _) (λ key hk.
          Yields-bind P _ _ (read_client_ca host tls.ca_path) _
            (read_client_ca-Yields P host tls.ca_path)
            (λ ca ha. elim (Bool-cases (host.tls_config (cert, key, ca))) [
              | inl accepted ↦ rw accepted (tt, (cert, key, (ca, (refl, hc, hk, ha))))
              | inr refused ↦ rw refused tt
            ])))

  pub opened_or_exit-Yields :
      (P : Effect → Type 0) (o : Option (Result Store))
      → Yields P (λ store. o ≡ some (ok store)) (opened_or_exit o)
  opened_or_exit-Yields P none = tt
  opened_or_exit-Yields P (some (err e)) = tt
  opened_or_exit-Yields P (some (ok store)) = (tt, refl)

  pub installed_or_exit-Yields :
      (P : Effect → Type 0) (o : Installed (Unit {0}))
      → Yields P (λ _. Unit {0}) (installed_or_exit o)
  installed_or_exit-Yields P (installed handle) = (tt, tt)
  installed_or_exit-Yields P already_installed = tt
  installed_or_exit-Yields P panicked = tt
