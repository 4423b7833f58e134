-- ===== src/Server/Config/Values.antt =====
-- src/main.rs: the variables of the environment that are read one by one.
use eventfold_db.Common.{
  [], ℕ, ◌<◌, ◌≡◌, ◌≢◌, ◌↔◌, ◌⊎◌, inl, inr, refl, sym, ap, List, ◌∷◌, Option, none, some, arith,
  ◌==◌, Bool-cases, eq_of_==, ne_of_==,
}
use eventfold_db.Server.Config.Numbers.{Denotes, parse_usize-Denotes}
use eventfold_db.Server.Config.{
  IntFault, Fault, Outcome, ready, reject, ◌>>=◌, parse_usize, TlsConfig, default_broker_capacity,
  default_dedup_capacity, map_err, read_broker_capacity, nonzero, read_dedup_capacity, read_tls,
  read_jwt_secret,
}

-- A number with a default.
abbrev pub Given : ℕ → Option (List ℕ) → ℕ → Type 0
Given default none n = n ≡ default
Given default (some text) n = Denotes text n

-- The certificate and the key are set both or not at all, and the authority only with them.
abbrev pub HasTls : Option (List ℕ) → Option (List ℕ) → Option (List ℕ) → Option TlsConfig → Type 0
HasTls cert key ca none = (cert ≡ none) × (key ≡ none) × (ca ≡ none)
HasTls cert key ca (some tls) =
    (cert ≡ some tls.cert_path) × (key ≡ some tls.key_path) × (ca ≡ tls.ca_path)

abbrev pub HasSecret : Option (List ℕ) → Option (List ℕ) → Type 0
HasSecret text none = (text ≡ none) ⊎ (text ≡ some [])
HasSecret text (some secret) = (text ≡ some secret) × (secret ≢ [])

map_err-ready :
    (f : IntFault → Fault) (r : Outcome IntFault ℕ) (n : ℕ) → map_err f r ≡ ready n → r ≡ ready n
map_err-ready f (ready m) n h = let same : m ≡ n = cc in ap ready same
map_err-ready f (reject e) n h = cc

pub read_broker_capacity_lem :
    (text : Option (List ℕ)) (n : ℕ)
    → (read_broker_capacity text ≡ ready n) ↔ Given default_broker_capacity text n
unfolding read_broker_capacity
read_broker_capacity_lem none n = (λ h. cc, λ h. ap ready (sym h))
read_broker_capacity_lem (some text) n = (
  λ h. (parse_usize-Denotes text n).0 (map_err-ready Fault.broker_not_usize (parse_usize text) n h),
  λ d. rw ((parse_usize-Denotes text n).1 d) refl,
)

nonzero_lem :
    (r : Outcome IntFault ℕ) (n : ℕ)
    → ((map_err Fault.dedup_not_usize r >>= nonzero) ≡ ready n) ↔ ((r ≡ ready n) × (0 < n))
unfolding ◌>>=◌
nonzero_lem (reject e) n = (λ h. cc, λ h. cc)
nonzero_lem (ready m) n = elim (Bool-cases (m == 0)) [
  | inl empty ↦
      let is_zero : m ≡ 0 = eq_of_== m 0 empty in
      (λ h. cc (rw empty at h), λ (h, pos). let same : m ≡ n = cc in absurd (omega arith))
  | inr full ↦
      let other : m ≢ 0 = ne_of_== m 0 full in
      rw full (
        λ h. let same : m ≡ n = cc in (ap ready same, omega arith),
        λ (h, pos). let same : m ≡ n = cc in ap ready same,
      )
]

pub read_dedup_capacity_lem :
    (text : Option (List ℕ)) (n : ℕ)
    → (read_dedup_capacity text ≡ ready n) ↔ (Given default_dedup_capacity text n × (0 < n))
unfolding read_dedup_capacity
read_dedup_capacity_lem none n = (
  λ h. let same : n ≡ default_dedup_capacity = cc in (same, omega arith),
  λ (h, _). ap ready (sym h),
)
read_dedup_capacity_lem (some text) n = (
  λ h.
      let (read, pos) = (nonzero_lem (parse_usize text) n).0 h in
      ((parse_usize-Denotes text n).0 read, pos),
  λ (d, pos). (nonzero_lem (parse_usize text) n).1 ((parse_usize-Denotes text n).1 d, pos),
)

tls_fields :
    (t u : TlsConfig)
    → (t ≡ u)
    → (some t.cert_path ≡ some u.cert_path)
      × (some t.key_path ≡ some u.key_path)
      × (t.ca_path ≡ u.ca_path)
tls_fields t u h =
    (ap (λ v. some v.cert_path) h, ap (λ v. some v.key_path) h, ap (λ v. v.ca_path) h)

same_tls :
    (t u : TlsConfig)
    → (some t.cert_path ≡ some u.cert_path)
      × (some t.key_path ≡ some u.key_path)
      × (t.ca_path ≡ u.ca_path)
    → Path (Outcome Fault (Option TlsConfig)) (ready (some t)) (ready (some u))
same_tls t u (hc, hk, ha) =
    let p : t.cert_path ≡ u.cert_path = cc in
    let q : t.key_path ≡ u.key_path = cc in
    λ i. ready (some (record { cert_path = p i; key_path = q i; ca_path = ha i }))

pub read_tls_lem :
    (cert key ca : Option (List ℕ)) (tls : Option TlsConfig)
    → (read_tls cert key ca ≡ ready tls) ↔ HasTls cert key ca tls
unfolding read_tls
read_tls_lem none none none none = (λ h. (refl, refl, refl), λ h. refl)
read_tls_lem none none none (some t) = (λ h. cc, λ h. cc)
read_tls_lem none none (some ca) none = (λ h. cc, λ h. cc)
read_tls_lem none none (some ca) (some t) = (λ h. cc, λ h. cc)
read_tls_lem none (some key) ca none = (λ h. cc, λ h. cc)
read_tls_lem none (some key) ca (some t) = (λ h. cc, λ h. cc)
read_tls_lem (some cert) none ca none = (λ h. cc, λ h. cc)
read_tls_lem (some cert) none ca (some t) = (λ h. cc, λ h. cc)
read_tls_lem (some cert) (some key) none none = (λ h. cc, λ h. cc)
read_tls_lem (some cert) (some key) none (some t) = (
  λ h.
      let same : (record { cert_path = cert; key_path = key; ca_path = none }) ≡ t = cc in
      tls_fields (record { cert_path = cert; key_path = key; ca_path = none }) t same,
  same_tls (record { cert_path = cert; key_path = key; ca_path = none }) t,
)
read_tls_lem (some cert) (some key) (some ca) none = (λ h. cc, λ h. cc)
read_tls_lem (some cert) (some key) (some ca) (some t) = (
  λ h.
      let same : (record { cert_path = cert; key_path = key; ca_path = some ca }) ≡ t = cc in
      tls_fields (record { cert_path = cert; key_path = key; ca_path = some ca }) t same,
  same_tls (record { cert_path = cert; key_path = key; ca_path = some ca }) t,
)

pub read_jwt_secret_lem :
    (text secret : Option (List ℕ)) → (read_jwt_secret text ≡ secret) ↔ HasSecret text secret
unfolding read_jwt_secret
read_jwt_secret_lem none none = (λ h. inl refl, λ h. refl)
read_jwt_secret_lem none (some s) = (λ h. cc, λ h. cc)
read_jwt_secret_lem (some []) none = (λ h. inr refl, λ h. refl)
read_jwt_secret_lem (some []) (some s) = (λ h. cc, λ (h, ne). absurd (ne (cc)))
read_jwt_secret_lem (some (b ∷ bs)) none = (λ h. cc, λ h. elim h [ inl x ↦ cc | inr x ↦ cc ])
read_jwt_secret_lem (some (b ∷ bs)) (some s) = (λ h. (h, λ e. cc), λ (h, ne). h)
