-- ===== src/Server/Start/Watch.antt =====
-- src/main.rs: in which order `main` does what it does. A watch follows the effects and stops at one
-- that comes too early or too late.
use eventfold_db.Common.{
  [], ℕ, ◌≡◌, ◌∙◌, refl, ap, Bool, true, false, ◌&&◌, not, List, ◌∷◌, ◌++◌, Option, none, some,
  if◌then◌else◌,
}
use eventfold_db.Crates.{Crc32, UuidCrate}
use eventfold_db.Dedup.{LruCrate}
use eventfold_db.Server.Config.{AddressParser, TlsConfig}
use eventfold_db.Server.Auth.{TokenCrate, MetadataCrate}
use eventfold_db.Server.Start.{
  Host, Effect, HealthName, Run, Ended, ◌>>=◌, or_exit, or_panic, read_client_ca, configure_tls,
}

-- What has been done and is not undone.
pub record Watch : Type 0 where
  pub store_open : Bool
  pub writing : Bool
  pub metrics_on : Bool
  pub listening : Bool
  pub overall_up : Bool
  pub event_store_up : Bool
  pub has_served : Bool
  pub joined : Bool

abbrev pub at_start : Watch
at_start = record {
  store_open = false;
  writing = false;
  metrics_on = false;
  listening = false;
  overall_up = false;
  event_store_up = false;
  has_served = false;
  joined = false;
}

abbrev pub require : Bool → Watch → Option Watch
require test w = if test then some w else none

module _ ⦃address : AddressParser⦄ ⦃jwt : TokenCrate⦄ ⦃metadata : MetadataCrate⦄ ⦃crc : Crc32⦄
    ⦃uuid : UuidCrate⦄ ⦃lru : LruCrate⦄ where
  -- The writer writes to the open store; the server says that it serves, and serves, when the writer
  -- runs and the listener is bound; the writer's handle is dropped when the server has said that it
  -- does not serve any more and the metrics are down.
  abbrev pub follow_one : Watch → Effect → Option Watch
  follow_one w (Effect.message fault) = require (not w.store_open) w
  follow_one w (Effect.opened store) = require (not w.store_open) (record w { store_open = true })
  follow_one w (Effect.spawned writer) =
      require (w.store_open && not w.writing) (record w { writing = true })
  follow_one w (Effect.metrics_spawned addr) =
      require (w.writing && not w.metrics_on) (record w { metrics_on = true })
  follow_one w (Effect.bound addr) =
      require (w.writing && not w.listening) (record w { listening = true })
  follow_one w (Effect.set_status HealthName.overall up) =
      require (w.writing && w.listening) (record w { overall_up = up })
  follow_one w (Effect.set_status HealthName.event_store up) =
      require (w.writing && w.listening) (record w { event_store_up = up })
  follow_one w (Effect.served addr router) =
      require (w.overall_up && w.event_store_up) (record w { has_served = true })
  follow_one w Effect.metrics_aborted = require w.metrics_on (record w { metrics_on = false })
  follow_one w Effect.writer_dropped =
      require (w.writing && not w.overall_up && not w.event_store_up && not w.metrics_on)
        (record w { writing = false })
  follow_one w Effect.writer_joined =
      require (w.store_open && not w.writing) (record w { joined = true })

  abbrev pub follow_next : Option Watch → Effect → Option Watch
  follow_next none e = none
  follow_next (some w) e = follow_one w e

  abbrev pub follow : Option Watch → List Effect → Option Watch
  follow o [] = o
  follow o (e ∷ es) = follow (follow_next o e) es

  -- From `w`, the effects are followed, to `v` if there is a value; an exit is with 1.
  abbrev pub Obeys {ℓ} : {A : Type ℓ} → Watch → Watch → Run A → Type 0
  Obeys w v (es, Ended.go a) = follow (some w) es ≡ some v
  Obeys w v (es, Ended.exit n) = (n ≡ 1) × ((u : Watch) × (follow (some w) es ≡ some u))
  Obeys w v (es, Ended.panic) = (u : Watch) × (follow (some w) es ≡ some u)

  follow-append :
      (o : Option Watch) (es more : List Effect) → follow o (es ++ more) ≡ follow (follow o es) more
  follow-append o [] more = refl
  follow-append o (e ∷ es) more = follow-append (follow_next o e) es more

  follow-after :
      (w u : Watch) (es more : List Effect)
      → follow (some w) es ≡ some u
      → follow (some w) (es ++ more) ≡ follow (some u) more
  follow-after w u es more h = follow-append (some w) es more ∙ ap (λ o. follow o more) h

  Obeys-after {ℓ} :
      {B : Type ℓ} (w u v : Watch) (es : List Effect) (p : Run B)
      → follow (some w) es ≡ some u
      → Obeys u v p
      → (let (more, r) = p in Obeys w v (es ++ more, r))
  Obeys-after w u v es (more, Ended.go b) h k = follow-after w u es more h ∙ k
  Obeys-after w u v es (more, Ended.exit n) h (one, (t, k)) =
      (one, (t, follow-after w u es more h ∙ k))
  Obeys-after w u v es (more, Ended.panic) h (t, k) = (t, follow-after w u es more h ∙ k)

  pub Obeys-bind {ℓ κ} :
      {A : Type ℓ} {B : Type κ} (w u v : Watch) (m : Run A) (next : A → Run B)
      → Obeys w u m
      → ((a : A) → Obeys u v (next a))
      → Obeys w v (m >>= next)
  unfolding ◌>>=◌
  Obeys-bind w u v (es, Ended.go a) next h after = Obeys-after w u v es (next a) h (after a)
  Obeys-bind w u v (es, Ended.exit n) next h after = h
  Obeys-bind w u v (es, Ended.panic) next h after = h

  pub or_exit-Obeys {ℓ} : {A : Type ℓ} (w : Watch) (o : Option A) → Obeys w w (or_exit o)
  or_exit-Obeys w none = (refl, (w, refl))
  or_exit-Obeys w (some a) = refl

  pub or_panic-Obeys : (w : Watch) (b : Bool) → Obeys w w (or_panic b)
  or_panic-Obeys w true = refl
  or_panic-Obeys w false = (w, refl)

  read_client_ca-Obeys :
      (host : Host) (w : Watch) (o : Option (List ℕ)) → Obeys w w (read_client_ca host o)
  read_client_ca-Obeys host w none = refl
  read_client_ca-Obeys host w (some path) =
      Obeys-bind w w w (or_exit (host.read path)) _ (or_exit-Obeys w (host.read path)) (λ ca. refl)

  pub configure_tls-Obeys :
      (host : Host) (w : Watch) (o : Option TlsConfig) → Obeys w w (configure_tls host o)
  unfolding configure_tls
  configure_tls-Obeys host w none = refl
  configure_tls-Obeys host w (some tls) =
      Obeys-bind w w w (or_exit (host.read tls.cert_path)) _ (or_exit-Obeys w _) (λ cert.
        Obeys-bind w w w (or_exit (host.read tls.key_path)) _ (or_exit-Obeys w _) (λ key.
          Obeys-bind w w w (read_client_ca host tls.ca_path) _
            (read_client_ca-Obeys host w tls.ca_path) (λ ca. or_exit-Obeys w _)))
