-- ===== src/Console/Tls.antt =====
-- eventfold-console/src/main.rs: the TLS flags of the command line, and the options that they give,
-- over what the files hold.
use eventfold_db.Common.{
  ℕ, ◌≡◌, Bool, true, false, ◌&&◌, not, List, Option, none, some, ◌⊎◌, is_some, if◌then◌else◌,
}

pub record Cli : Type 0 where
  pub addr : List ℕ
  pub tls : Bool
  pub tls_ca : Option (List ℕ)
  pub tls_client_cert : Option (List ℕ)
  pub tls_client_key : Option (List ℕ)

pub record TlsOptions : Type 0 where
  pub enabled : Bool
  pub ca_pem : Option (List ℕ)
  pub identity : Option (List ℕ × List ℕ)

-- How the check of the flags ends: the process goes on, or exits with the name of a flag.
pub data Flags : Type 0 where
  paired : Flags
  missing_client_key : Flags
  missing_client_cert : Flags

abbrev pub pair_of : Option (List ℕ) → Option (List ℕ) → Flags
pair_of none none = paired
pair_of (some cert) none = missing_client_key
pair_of none (some key) = missing_client_cert
pair_of (some cert) (some key) = paired

unfoldable pub validate_tls_flags : Cli → Flags
validate_tls_flags cli = pair_of cli.tls_client_cert cli.tls_client_key

-- The options, the path of a file that cannot be read, or the panic of the missing key.
pub data Built {ℓ} (A : Type ℓ) : Type ℓ where
  built : A → Built A
  unreadable : List ℕ → Built A
  panicked : Built A

-- `tokio::fs::read`
module _ (read : List ℕ → Option (List ℕ)) where
  abbrev with_pem {ℓ} : {A : Type ℓ} → List ℕ → Option (List ℕ) → (List ℕ → Built A) → Built A
  with_pem path none next = unreadable path
  with_pem path (some pem) next = next pem

  abbrev read_identity : TlsOptions → Option (List ℕ) → Option (List ℕ) → Built TlsOptions
  read_identity opts none key = built opts
  read_identity opts (some cert) none = with_pem cert (read cert) (λ cert_pem. panicked)
  read_identity opts (some cert) (some key) = with_pem cert (read cert) (λ cert_pem.
      with_pem key (read key)
        (λ key_pem. built (record opts { identity = some (cert_pem, key_pem) })))

  abbrev read_ca : Option (List ℕ) → (TlsOptions → Built TlsOptions) → TlsOptions → Built TlsOptions
  read_ca none next opts = next opts
  read_ca (some ca) next opts =
      with_pem ca (read ca) (λ pem. next (record opts { ca_pem = some pem }))

  unfoldable pub build_tls_options : Cli → Built TlsOptions
  build_tls_options cli =
      if not cli.tls && not (is_some cli.tls_ca) && not (is_some cli.tls_client_cert)
      then built (record { enabled = false; ca_pem = none; identity = none })
      else read_ca cli.tls_ca (λ opts. read_identity opts cli.tls_client_cert cli.tls_client_key)
          (record { enabled = true; ca_pem = none; identity = none })

  -- A file that a flag names, and what it holds.
  abbrev pub Holds : Option (List ℕ) → Option (List ℕ) → Type 0
  Holds none pem = pem ≡ none
  Holds (some path) pem = (bytes : List ℕ) × (read path ≡ some bytes) × (pem ≡ some bytes)

  abbrev pub HoldsPair : Option (List ℕ) → Option (List ℕ) → Option (List ℕ × List ℕ) → Type 0
  HoldsPair (some cert) (some key) identity =
      (cert_pem key_pem : List ℕ) × (read cert ≡ some cert_pem)
      × (read key ≡ some key_pem)
      × (identity ≡ some (cert_pem, key_pem))
  HoldsPair _ _ identity = identity ≡ none

  -- The options hold what the flags name, or a file cannot be read.
  abbrev IsAnswered :
      Bool → Option (List ℕ) → Option (List ℕ) → Option (List ℕ) → Built TlsOptions → Type 0
  IsAnswered enabled ca cert key result =
      ((opts : TlsOptions) × (result ≡ built opts)
        × (opts.enabled ≡ enabled)
        × Holds ca opts.ca_pem
        × HoldsPair cert key opts.identity)
      ⊎ ((path : List ℕ) × (result ≡ unreadable path) × (read path ≡ none))
