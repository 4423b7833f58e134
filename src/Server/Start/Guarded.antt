-- ===== src/Server/Start/Guarded.antt =====
-- src/main.rs: what the server is started with.
use eventfold_db.Common.{◌≡◌, refl, true, Option, none, some, All}
use eventfold_db.Crates.{Crc32, UuidCrate}
use eventfold_db.Dedup.{LruCrate}
use eventfold_db.Writer.{spawn_writer}
use eventfold_db.Server.Config.{AddressParser, ready, Config, from_env}
use eventfold_db.Server.Auth.{TokenCrate, MetadataCrate}
use eventfold_db.Server.Start.{
  Router, Serving, Host, Effect, HealthName, Run, Ended, ◌>>=◌, main, emit, or_exit, or_panic,
  opened_or_exit, installed_or_exit, start_metrics, configure_tls, until_shutdown, serve,
  abort_metrics, shut_down, start_parts, listen,
}
use eventfold_db.Server.Start.Yields.{
  IsGuarded, Yields, Yields-bind, Yields-then, pure-Yields, or_exit-Yields, or_panic-Yields,
  emit-Yields, configure_tls-Yields, opened_or_exit-Yields, installed_or_exit-Yields,
}

module _ ⦃address : AddressParser⦄ ⦃jwt : TokenCrate⦄ ⦃metadata : MetadataCrate⦄ ⦃crc : Crc32⦄
    ⦃uuid : UuidCrate⦄ ⦃lru : LruCrate⦄ where
  module _ (host : Host) (config : Config) where
    abbrev Guard : Effect → Type 0
    Guard = IsGuarded host config

    start_metrics-Yields :
        (o : Option address.SocketAddr)
        → config.metrics_listen ≡ o
        → Yields Guard (λ _. Unit {0}) (start_metrics o)
    start_metrics-Yields none h = (tt, tt)
    start_metrics-Yields (some addr) h = ((h, tt), tt)

    start_parts-Yields : Yields Guard (λ _. Unit {0}) (start_parts host config)
    unfolding start_parts
    start_parts-Yields =
        Yields-bind Guard _ _ (opened_or_exit _) _ (opened_or_exit-Yields Guard _) (λ store h.
          Yields-then Guard _ (emit _) _ (emit-Yields Guard (Effect.opened store) h) (
            Yields-then Guard _ (or_panic _) _ (or_panic-Yields Guard _) (
              Yields-then Guard _ (emit _) _
                (emit-Yields Guard (Effect.spawned (spawn_writer store config.dedup_capacity))
                  (store, (h, refl)))
                (Yields-then Guard _ (installed_or_exit _) _ (installed_or_exit-Yields Guard _)
                  (start_metrics-Yields config.metrics_listen refl)))))

    abbrev IsBuilt : address.SocketAddr × Router → Type 0
    IsBuilt (addr, router) = Guard (Effect.served addr router)

    listen-Yields : Yields Guard IsBuilt (listen host config)
    unfolding listen
    listen-Yields =
        Yields-bind Guard _ _ (configure_tls host config.tls) _
          (configure_tls-Yields Guard host config.tls)
          (λ tls ht.
            Yields-bind Guard _ _ (or_exit (host.bind config.listen_addr)) _
              (or_exit-Yields Guard _)
              (λ addr ha.
                Yields-then Guard IsBuilt (emit _) _ (emit-Yields Guard (Effect.bound addr) ha)
                  ((tt, (ha, refl, ht)))))

    until_shutdown-Yields :
        (serving : Serving) → Yields Guard (λ _. Unit {0}) (until_shutdown serving)
    unfolding ◌>>=◌
    until_shutdown-Yields Serving.drained = ((tt, (tt, tt)), tt)
    until_shutdown-Yields Serving.failed_early = tt
    until_shutdown-Yields Serving.failed_late = (tt, (tt, tt))

    serve-Yields :
        (addr : address.SocketAddr) (router : Router)
        → IsBuilt (addr, router)
        → Yields Guard (λ _. Unit {0}) (serve host addr router)
    unfolding serve
    serve-Yields addr router h =
        Yields-then Guard _ (emit _) _
          (emit-Yields Guard (Effect.set_status HealthName.event_store true) tt)
          (Yields-then Guard _ (emit _) _
            (emit-Yields Guard (Effect.set_status HealthName.overall true) tt)
            (Yields-then Guard _ (emit _) _ (emit-Yields Guard (Effect.served addr router) h) (
              Yields-then Guard _ (or_panic _) _ (or_panic-Yields Guard _)
                (until_shutdown-Yields host.serving))))

    abort_metrics-Yields :
        (o : Option address.SocketAddr) → Yields Guard (λ _. Unit {0}) (abort_metrics o)
    abort_metrics-Yields none = (tt, tt)
    abort_metrics-Yields (some addr) = ((tt, tt), tt)

    shut_down-Yields : Yields Guard (λ _. Unit {0}) (shut_down host config.metrics_listen)
    unfolding shut_down
    shut_down-Yields =
        Yields-then Guard _ (abort_metrics _) _ (abort_metrics-Yields config.metrics_listen) (
          Yields-then Guard _ (emit _) _ (emit-Yields Guard Effect.writer_dropped tt) (
            Yields-then Guard _ (or_panic _) _ (or_panic-Yields Guard _)
              (emit-Yields Guard Effect.writer_joined tt)))

    Yields-All : (m : Run (Unit {0})) → Yields Guard (λ _. Unit {0}) m → All Guard m.0
    Yields-All (es, Ended.go a) (h, q) = h
    Yields-All (es, Ended.exit n) h = h
    Yields-All (es, Ended.panic) h = h

    -- When the environment gives a configuration, `main` does everything as it says: the store that
    -- it opens is the one recovered from the data path, its writer has the configured capacity, and
    -- it serves on the configured address only, behind the interceptor exactly if a secret is
    -- configured and with that secret, and with TLS exactly if it is configured and with what the
    -- configured files hold.
    pub main-IsGuarded :
        from_env host.env ≡ ready config → All (IsGuarded host config) (main host).0
    unfolding main
    main-IsGuarded h = Yields-All (main host) (
        rw h (
          pure-Yields Guard _ config _ (
            Yields-then Guard _ (start_parts host config) _ start_parts-Yields (
              Yields-bind Guard _ _ (listen host config) _ listen-Yields (λ (addr, router) built.
                Yields-then Guard _ (serve host addr router) _ (serve-Yields addr router built)
                  shut_down-Yields)))))
