-- ===== src/Server/Config/Accepts.antt =====
-- src/main.rs: which environments are a configuration, and which one.
use eventfold_db.Common.{[], ℕ, ◌<◌, ◌≡◌, ◌↔◌, refl, sym, ap, List, ◌∷◌, Option, none, some}
use eventfold_db.Server.Config.{
  AddressParser, Variable, Environment, Fault, Outcome, ready, reject, ◌>>=◌,
  default_broker_capacity, default_dedup_capacity, ok_or, Config, read_listen, read_metrics_listen,
  from_env,
}
use eventfold_db.Server.Config.Values.{
  Given, HasTls, HasSecret, read_broker_capacity_lem, read_dedup_capacity_lem, read_tls_lem,
  read_jwt_secret_lem,
}

bound_by {ℓ κ} :
    {A : Type ℓ} {B : Type κ} (r : Outcome Fault A) (f : A → Outcome Fault B) (c : B)
    → (r >>= f) ≡ ready c
    → (a : A) × (r ≡ ready a) × (f a ≡ ready c)
unfolding ◌>>=◌
bound_by (reject e) f c h = cc
bound_by (ready a) f c h = (a, refl, h)

bind_of {ℓ κ} :
    {A : Type ℓ} {B : Type κ} (r : Outcome Fault A) (a : A) (f : A → Outcome Fault B) (c : B)
    → r ≡ ready a
    → f a ≡ ready c
    → (r >>= f) ≡ ready c
unfolding ◌>>=◌
bind_of r a f c h rest = rw h rest

ready_of {ℓ} :
    {A : Type ℓ} (e : Fault) (o : Option A) (a : A) → (ok_or e o ≡ ready a) ↔ (o ≡ some a)
ready_of e none a = (λ h. cc, λ h. cc)
ready_of e (some b) a =
    (λ h. let same : b ≡ a = cc in ap some same, λ h. let same : b ≡ a = cc in ap ready same)

module _ ⦃address : AddressParser⦄ where
  abbrev pub ListensOn : Option (List ℕ) → address.SocketAddr → Type 0
  ListensOn none addr = addr ≡ address.default_listen_addr
  ListensOn (some text) addr = address.parse text ≡ some addr

  abbrev pub ShowsMetricsOn : Option (List ℕ) → Option address.SocketAddr → Type 0
  ShowsMetricsOn none metrics = metrics ≡ some address.default_metrics_listen_addr
  ShowsMetricsOn (some []) metrics = metrics ≡ none
  ShowsMetricsOn (some (b ∷ bs)) metrics =
      (addr : address.SocketAddr) × (address.parse (b ∷ bs) ≡ some addr) × (metrics ≡ some addr)

  -- The configuration that an environment describes.
  pub record IsConfigured (env : Environment) (c : Config) : Type 0 where
    pub path : env Variable.data_path ≡ some c.data_path
    pub listens : ListensOn (env Variable.listen) c.listen_addr
    pub broker : Given default_broker_capacity (env Variable.broker_capacity) c.broker_capacity
    pub dedup : Given default_dedup_capacity (env Variable.dedup_capacity) c.dedup_capacity
    pub dedup_pos : 0 < c.dedup_capacity
    pub metrics : ShowsMetricsOn (env Variable.metrics_listen) c.metrics_listen
    pub tls : HasTls (env Variable.tls_cert) (env Variable.tls_key) (env Variable.tls_ca) c.tls
    pub secret : HasSecret (env Variable.jwt_secret) c.jwt_secret

  read_listen_lem :
      (text : Option (List ℕ)) (addr : address.SocketAddr)
      → (read_listen text ≡ ready addr) ↔ ListensOn text addr
  unfolding read_listen
  read_listen_lem none addr = (λ h. cc, λ h. ap ready (sym h))
  read_listen_lem (some text) addr = ready_of Fault.listen_not_address (address.parse text) addr

  read_metrics_listen_lem :
      (text : Option (List ℕ)) (metrics : Option address.SocketAddr)
      → (read_metrics_listen text ≡ ready metrics) ↔ ShowsMetricsOn text metrics
  unfolding read_metrics_listen ◌>>=◌
  read_metrics_listen_lem none metrics = (λ h. cc, λ h. ap ready (sym h))
  read_metrics_listen_lem (some []) metrics = (λ h. cc, λ h. ap ready (sym h))
  read_metrics_listen_lem (some (b ∷ bs)) metrics = (
    λ h.
        let (addr, read, same) =
          bound_by (ok_or Fault.metrics_not_address (address.parse (b ∷ bs))) (λ a. ready (some a))
            metrics h in
        (addr, (ready_of Fault.metrics_not_address _ addr).0 read, cc),
    λ (addr, read, same). rw (read, same) refl,
  )

  ready_same : (b c : Config) → Path (Outcome Fault Config) (ready b) (ready c) → b ≡ c
  ready_same b c h = cc

  -- An environment is a configuration exactly if it describes it: the data path is set, each
  -- address that is set is one (an empty metrics address turns the metrics off), each
  -- capacity that is set is a decimal number of a `usize` and the deduplication one is not
  -- zero, the TLS certificate and key are set together and the authority only with them, and
  -- an empty secret is as none.
  pub from_env-IsConfigured :
      (env : Environment) (c : Config) → (from_env env ≡ ready c) ↔ IsConfigured env c
  unfolding from_env
  from_env-IsConfigured env c = (
    λ h.
        let (path, is_path, h1) = bound_by _ _ c h in
        let (addr, is_addr, h2) = bound_by _ _ c h1 in
        let (broker, is_broker, h3) = bound_by _ _ c h2 in
        let (dedup, is_dedup, h4) = bound_by _ _ c h3 in
        let (metrics, is_metrics, h5) = bound_by _ _ c h4 in
        let (tls, is_tls, h6) = bound_by _ _ c h5 in
        let same = ready_same _ c h6 in
        rw (← same) (record {
          path = (ready_of Fault.data_required _ path).0 is_path;
          listens = (read_listen_lem _ addr).0 is_addr;
          broker = (read_broker_capacity_lem _ broker).0 is_broker;
          dedup = ((read_dedup_capacity_lem _ dedup).0 is_dedup).0;
          dedup_pos = ((read_dedup_capacity_lem _ dedup).0 is_dedup).1;
          metrics = (read_metrics_listen_lem _ metrics).0 is_metrics;
          tls = (read_tls_lem _ _ _ tls).0 is_tls;
          secret = (read_jwt_secret_lem _ _).0 refl;
        }),
    λ h. bind_of _ c.data_path _ c ((ready_of Fault.data_required _ c.data_path).1 h.path) (
        bind_of _ c.listen_addr _ c ((read_listen_lem _ c.listen_addr).1 h.listens) (
          bind_of _ c.broker_capacity _ c
            ((read_broker_capacity_lem _ c.broker_capacity).1 h.broker)
            (bind_of _ c.dedup_capacity _ c
              ((read_dedup_capacity_lem _ c.dedup_capacity).1 (h.dedup, h.dedup_pos))
              (bind_of _ c.metrics_listen _ c
                ((read_metrics_listen_lem _ c.metrics_listen).1 h.metrics)
                (bind_of _ c.tls _ c ((read_tls_lem _ _ _ c.tls).1 h.tls)
                  (rw ((read_jwt_secret_lem _ c.jwt_secret).1 h.secret) refl)))))),
  )
