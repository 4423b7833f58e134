-- ===== src/Server/Config.antt =====
-- src/main.rs: `Config::from_env`. The environment gives each variable's text, none if it is not
-- set or not Unicode. A socket address is read by the standard library's parser, an interface.
pub mod Numbers
pub mod Values
pub mod Accepts
use eventfold_db.Common.{
  [], ℕ, ◌+◌, ◌-◌, ◌*◌, ◌≡◌, Bool, ◌&&◌, List, ◌∷◌, Option, none, some, ltb, leb, ◌==◌,
  if◌then◌else◌,
}
use eventfold_db.Reader.{max_u64}

-- `SocketAddr::from_str`, and that the two defaults are addresses.
pub record AddressParser : Type 1 where
  pub SocketAddr : Type 0
  pub parse : List ℕ → Option SocketAddr
  pub default_listen_addr : SocketAddr
  pub default_metrics_listen_addr : SocketAddr
  pub parse-default_listen_addr :
      parse (b'[' ∷ b':' ∷ b':' ∷ b']' ∷ b':' ∷ b'2' ∷ b'1' ∷ b'1' ∷ b'3' ∷ [])
      ≡ some default_listen_addr
  pub parse-default_metrics_listen_addr :
      parse (b'[' ∷ b':' ∷ b':' ∷ b']' ∷ b':' ∷ b'9' ∷ b'0' ∷ b'9' ∷ b'0' ∷ [])
      ≡ some default_metrics_listen_addr

pub data Variable : Type 0 where
  data_path : Variable
  listen : Variable
  broker_capacity : Variable
  dedup_capacity : Variable
  metrics_listen : Variable
  tls_cert : Variable
  tls_key : Variable
  tls_ca : Variable
  jwt_secret : Variable

abbrev pub Environment : Type 0
Environment = Variable → Option (List ℕ)

-- `ParseIntError`
pub data IntFault : Type 0 where
  empty : IntFault
  invalid_digit : IntFault
  pos_overflow : IntFault

-- The texts of the errors.
pub data Fault : Type 0 where
  data_required : Fault
  listen_not_address : Fault
  broker_not_usize : IntFault → Fault
  dedup_not_usize : IntFault → Fault
  dedup_zero : Fault
  metrics_not_address : Fault
  key_missing : Fault
  cert_missing : Fault
  cert_and_key_missing : Fault

-- `Result<A, E>`
pub data Outcome {ℓ κ} (E : Type κ) (A : Type ℓ) : Type (ℓ ⊔ κ) where
  ready : A → Outcome E A
  reject : E → Outcome E A

infixl 5 ◌>>=◌
unfoldable pub ◌>>=◌ {ℓ κ ι} :
    {E : Type ι} {A : Type ℓ} {B : Type κ} → Outcome E A → (A → Outcome E B) → Outcome E B
reject e >>= next = reject e
ready a >>= next = next a

abbrev pub is_digit : ℕ → Bool
is_digit b = leb b'0' b && leb b b'9'

-- `usize::from_str`, of 64 bits: the digits, from the left.
unfoldable pub parse_digits : ℕ → List ℕ → Outcome IntFault ℕ
parse_digits n [] = ready n
parse_digits n (b ∷ bs) =
    let next = n * 10 + (b - b'0') in
    let rest = parse_digits next bs in
    if is_digit b
    then if ltb max_u64 next then reject pos_overflow else rest
    else reject invalid_digit

-- A plus sign may stand before the digits.
unfoldable pub parse_usize : List ℕ → Outcome IntFault ℕ
parse_usize [] = reject empty
parse_usize (b ∷ []) = parse_digits 0 (b ∷ [])
parse_usize (b ∷ c ∷ bs) =
    if b == b'+' then parse_digits 0 (c ∷ bs) else parse_digits 0 (b ∷ c ∷ bs)

pub record TlsConfig : Type 0 where
  pub cert_path : List ℕ
  pub key_path : List ℕ
  pub ca_path : Option (List ℕ)

abbrev pub default_broker_capacity : ℕ
default_broker_capacity = 4096

abbrev pub default_dedup_capacity : ℕ
default_dedup_capacity = 65536

-- An error, with the message around it.
abbrev pub map_err {ℓ} : {A : Type ℓ} → (IntFault → Fault) → Outcome IntFault A → Outcome Fault A
map_err f (ready a) = ready a
map_err f (reject e) = reject (f e)

abbrev pub ok_or {ℓ} : {A : Type ℓ} → Fault → Option A → Outcome Fault A
ok_or e none = reject e
ok_or e (some a) = ready a

unfoldable pub read_broker_capacity : Option (List ℕ) → Outcome Fault ℕ
read_broker_capacity none = ready default_broker_capacity
read_broker_capacity (some text) = map_err broker_not_usize (parse_usize text)

-- `NonZeroUsize::new`
abbrev pub nonzero : ℕ → Outcome Fault ℕ
nonzero n = if n == 0 then reject dedup_zero else ready n

unfoldable pub read_dedup_capacity : Option (List ℕ) → Outcome Fault ℕ
read_dedup_capacity none = ready default_dedup_capacity
read_dedup_capacity (some text) = map_err dedup_not_usize (parse_usize text) >>= nonzero

-- The match on the three variables.
unfoldable pub read_tls :
    Option (List ℕ) → Option (List ℕ) → Option (List ℕ) → Outcome Fault (Option TlsConfig)
read_tls none none none = ready none
read_tls (some cert) (some key) none =
    ready (some (record { cert_path = cert; key_path = key; ca_path = none }))
read_tls (some cert) (some key) (some ca) =
    ready (some (record { cert_path = cert; key_path = key; ca_path = some ca }))
read_tls (some cert) none ca = reject key_missing
read_tls none (some key) ca = reject cert_missing
read_tls none none (some ca) = reject cert_and_key_missing

-- An empty secret is as one that is not set.
unfoldable pub read_jwt_secret : Option (List ℕ) → Option (List ℕ)
read_jwt_secret none = none
read_jwt_secret (some []) = none
read_jwt_secret (some (b ∷ bs)) = some (b ∷ bs)

module _ ⦃address : AddressParser⦄ where
  pub record Config : Type 0 where
    pub data_path : List ℕ
    pub listen_addr : address.SocketAddr
    pub broker_capacity : ℕ
    pub dedup_capacity : ℕ
    pub tls : Option TlsConfig
    pub metrics_listen : Option address.SocketAddr
    pub jwt_secret : Option (List ℕ)

  unfoldable pub read_listen : Option (List ℕ) → Outcome Fault address.SocketAddr
  read_listen none = ready address.default_listen_addr
  read_listen (some text) = ok_or listen_not_address (address.parse text)

  -- An empty text disables the metrics.
  unfoldable pub read_metrics_listen : Option (List ℕ) → Outcome Fault (Option address.SocketAddr)
  read_metrics_listen none = ready (some address.default_metrics_listen_addr)
  read_metrics_listen (some []) = ready none
  read_metrics_listen (some (b ∷ bs)) =
      ok_or metrics_not_address (address.parse (b ∷ bs)) >>= λ a. ready (some a)

  unfoldable pub from_env : Environment → Outcome Fault Config
  from_env env = do
    path ← ok_or data_required (env Variable.data_path)
    addr ← read_listen (env Variable.listen)
    broker ← read_broker_capacity (env Variable.broker_capacity)
    dedup ← read_dedup_capacity (env Variable.dedup_capacity)
    metrics ← read_metrics_listen (env Variable.metrics_listen)
    tls ← read_tls (env Variable.tls_cert) (env Variable.tls_key) (env Variable.tls_ca)
    ready (record {
      data_path = path;
      listen_addr = addr;
      broker_capacity = broker;
      dedup_capacity = dedup;
      tls = tls;
      metrics_listen = metrics;
      jwt_secret = read_jwt_secret (env Variable.jwt_secret);
    })
