-- ===== src/Server/Start/Stages.antt =====
-- src/main.rs: `main` obeys the watch, stage by stage.
use eventfold_db.Common.{refl, Bool, true, false, Option, none, some, is_some}
use eventfold_db.Crates.{Crc32, UuidCrate}
use eventfold_db.Dedup.{LruCrate}
use eventfold_db.Server.Config.{AddressParser, Outcome, ready, reject, Fault, Config}
use eventfold_db.Server.Metrics.{Installed, installed, already_installed, panicked}
use eventfold_db.Error.{Result, ok, err}
use eventfold_db.Store.{Store}
use eventfold_db.Server.Auth.{TokenCrate, MetadataCrate}
use eventfold_db.Server.Start.{
  Router, Serving, Host, Effect, ◌>>=◌, main, emit, or_exit, or_panic, configured, opened_or_exit,
  installed_or_exit, start_metrics, configure_tls, until_shutdown, serve, abort_metrics, shut_down,
  start_parts, listen,
}
use eventfold_db.Server.Start.Watch.{
  Watch, at_start, Obeys, Obeys-bind, or_exit-Obeys, or_panic-Obeys, configure_tls-Obeys,
}

module _ ⦃address : AddressParser⦄ ⦃jwt : TokenCrate⦄ ⦃metadata : MetadataCrate⦄ ⦃crc : Crc32⦄
    ⦃uuid : UuidCrate⦄ ⦃lru : LruCrate⦄ where
  -- `main` goes from stage to stage; the metrics may be up.
  abbrev running : Bool → Bool → Bool → Bool → Watch
  running metrics listening up served = record {
    store_open = true;
    writing = true;
    metrics_on = metrics;
    listening = listening;
    overall_up = up;
    event_store_up = up;
    has_served = served;
    joined = false;
  }

  abbrev pub at_end : Watch
  at_end = record (running false true false true) { writing = false; joined = true }

  configured-Obeys : (o : Outcome Fault Config) → Obeys at_start at_start (configured o)
  configured-Obeys (reject e) = (refl, (at_start, refl))
  configured-Obeys (ready config) = refl

  opened_or_exit-Obeys : (w : Watch) (o : Option (Result Store)) → Obeys w w (opened_or_exit o)
  opened_or_exit-Obeys w none = (w, refl)
  opened_or_exit-Obeys w (some (err e)) = (refl, (w, refl))
  opened_or_exit-Obeys w (some (ok store)) = refl

  installed_or_exit-Obeys : (w : Watch) (o : Installed (Unit {0})) → Obeys w w (installed_or_exit o)
  installed_or_exit-Obeys w (installed handle) = refl
  installed_or_exit-Obeys w already_installed = (refl, (w, refl))
  installed_or_exit-Obeys w panicked = (w, refl)

  start_metrics-Obeys :
      (o : Option address.SocketAddr)
      → Obeys
          (running false false false false)
          (running (is_some o) false false false)
          (start_metrics o)
  start_metrics-Obeys none = refl
  start_metrics-Obeys (some addr) = refl

  start_parts-Obeys :
      (host : Host) (config : Config)
      → Obeys at_start
          (running (is_some config.metrics_listen) false false false)
          (start_parts host config)
  unfolding start_parts
  start_parts-Obeys host config =
      let store_opened = record at_start { store_open = true } in
      let spawned = running false false false false in
      Obeys-bind at_start at_start _ (opened_or_exit _) _ (opened_or_exit-Obeys at_start _)
        (λ store. Obeys-bind at_start store_opened _ (emit (Effect.opened store)) _ refl (λ _.
          Obeys-bind store_opened store_opened _ (or_panic _) _ (or_panic-Obeys store_opened _)
            (λ _. Obeys-bind store_opened spawned _ (emit _) _ refl (λ _.
              Obeys-bind spawned spawned _ (installed_or_exit _) _
                (installed_or_exit-Obeys spawned _)
                (λ _. start_metrics-Obeys config.metrics_listen)))))

  listen-Obeys :
      (host : Host) (config : Config) (metrics : Bool)
      → Obeys
          (running metrics false false false)
          (running metrics true false false)
          (listen host config)
  unfolding listen
  listen-Obeys host config metrics =
      let before = running metrics false false false in
      Obeys-bind before before _ (configure_tls host config.tls) _
        (configure_tls-Obeys host before config.tls)
        (λ tls. Obeys-bind before before _ (or_exit _) _ (or_exit-Obeys before _) (λ addr.
          Obeys-bind before (running metrics true false false) _ (emit (Effect.bound addr)) _ refl
            (λ _. refl)))

  until_shutdown-Obeys :
      (metrics : Bool) (serving : Serving)
      → Obeys
          (running metrics true true true)
          (running metrics true false true)
          (until_shutdown serving)
  unfolding ◌>>=◌
  until_shutdown-Obeys metrics Serving.drained = refl
  until_shutdown-Obeys metrics Serving.failed_early = (refl, (running metrics true true true, refl))
  until_shutdown-Obeys metrics Serving.failed_late = (refl, (running metrics true false true, refl))

  serve-Obeys :
      (host : Host) (addr : address.SocketAddr) (router : Router) (metrics : Bool)
      → Obeys
          (running metrics true false false)
          (running metrics true false true)
          (serve host addr router)
  unfolding serve
  serve-Obeys host addr router metrics =
      let down = running metrics true false false in
      let half = record down { event_store_up = true } in
      let up = running metrics true true false in
      let open_up = running metrics true true true in
      Obeys-bind down half _ (emit _) _ refl (λ _. Obeys-bind half up _ (emit _) _ refl (λ _.
        Obeys-bind up open_up _ (emit _) _ refl (λ _.
          Obeys-bind open_up open_up _ (or_panic _) _ (or_panic-Obeys open_up _)
            (λ _. until_shutdown-Obeys metrics host.serving))))

  abort_metrics-Obeys :
      (o : Option address.SocketAddr)
      → Obeys
          (running (is_some o) true false true)
          (running false true false true)
          (abort_metrics o)
  abort_metrics-Obeys none = refl
  abort_metrics-Obeys (some addr) = refl

  shut_down-Obeys :
      (host : Host) (o : Option address.SocketAddr)
      → Obeys (running (is_some o) true false true) at_end (shut_down host o)
  unfolding shut_down
  shut_down-Obeys host o =
      let quiet = running false true false true in
      let dropped = record quiet { writing = false } in
      Obeys-bind (running (is_some o) true false true) quiet _ (abort_metrics o) _
        (abort_metrics-Obeys o)
        (λ _.
          Obeys-bind quiet dropped _ (emit _) _ refl (λ _.
            Obeys-bind dropped dropped _ (or_panic _) _ (or_panic-Obeys dropped _) (λ _. refl)))

  -- Whatever the environment, the files and the network answer, `main` does nothing that the watch
  -- stops at: it serves, and says so, only with an open store, a running writer and a bound listener,
  -- and it drops the writer only after it has said that it does not serve and has ended the metrics
  -- server. If it returns, all that has been done, and the writer has been awaited; if it exits, it
  -- is with 1.
  pub main-Obeys : (host : Host) → Obeys at_start at_end (main host)
  unfolding main
  main-Obeys host =
      Obeys-bind at_start at_start at_end (configured _) _ (configured-Obeys _) (λ config.
        let m = is_some config.metrics_listen in
        Obeys-bind at_start (running m false false false) at_end (start_parts host config) _
          (start_parts-Obeys host config)
          (λ _.
            Obeys-bind (running m false false false) (running m true false false) at_end
              (listen host config) _ (listen-Obeys host config m)
              (λ (addr, router).
                Obeys-bind (running m true false false) (running m true false true) at_end
                  (serve host addr router) _ (serve-Obeys host addr router m)
                  (λ _. shut_down-Obeys host config.metrics_listen))))
