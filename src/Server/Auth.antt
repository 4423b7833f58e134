-- ===== src/Server/Auth.antt =====
-- src/auth.rs: the interceptor that every request passes when a secret is configured. The
-- token library is an interface, and so is the header value of tonic.
use eventfold_db.Common.{
  All, ◌↔◌, [], ℕ, ◌+◌, ◌≤◌, ◌≡◌, Bool, true, List, ◌∷◌, Option, none, some, ◌==◌, if◌then◌else◌,
}
use eventfold_db.Server.Config.{Outcome, ready, reject}

pub data Algorithm : Type 0 where
  hs256 : Algorithm

pub data ClaimName : Type 0 where
  exp : ClaimName
  sub : ClaimName

pub record Claims : Type 0 where
  pub sub : List ℕ
  pub exp : ℕ

-- `jsonwebtoken::Validation`, the fields that the interceptor sets and `validate_aud`, which
-- `Validation::new` sets.
pub record Validation : Type 0 where
  pub algorithm : Algorithm
  pub validate_exp : Bool
  pub leeway : ℕ
  pub validate_aud : Bool
  pub required_spec_claims : List ClaimName

-- jsonwebtoken: `decode` at a time of the clock, in seconds. `IsSigned` says that a token's
-- signature by that algorithm and key is right and that its payload holds the claims, `Names` that
-- its payload has a claim of that name, `IsUnaddressed` that it has no audience. `decode` gives the
-- claims of a token exactly if it is signed, in time, has the required claims and, as the
-- interceptor expects no audience, is for none when the audience is looked at.
pub record TokenCrate : Type 1 where
  pub DecodingKey : Type 0
  pub DecodeFault : Type 0
  pub from_secret : List ℕ → DecodingKey
  pub decode : List ℕ → DecodingKey → Validation → ℕ → Outcome DecodeFault Claims
  pub IsSigned : List ℕ → DecodingKey → Algorithm → Claims → Type 0
  pub Names : List ℕ → ClaimName → Type 0
  pub IsUnaddressed : List ℕ → Type 0
  pub decode_lem :
      (token : List ℕ) (key : DecodingKey) (v : Validation) (now : ℕ) (c : Claims)
      → (decode token key v now ≡ ready c) ↔ (
          IsSigned token key v.algorithm c
          × (v.validate_exp ≡ true → now ≤ c.exp + v.leeway)
          × All (Names token) v.required_spec_claims
          × (v.validate_aud ≡ true → IsUnaddressed token))

-- tonic: a metadata value, and its text if it is visible ASCII.
pub record MetadataCrate : Type 1 where
  pub MetadataValue : Type 0
  pub to_str : MetadataValue → Option (List ℕ)

-- `str::strip_prefix`
unfoldable pub strip_prefix : List ℕ → List ℕ → Option (List ℕ)
strip_prefix [] text = some text
strip_prefix (b ∷ bs) [] = none
strip_prefix (b ∷ bs) (c ∷ cs) = let rest = strip_prefix bs cs in if c == b then rest else none

abbrev pub bearer : List ℕ
bearer = b'B' ∷ b'e' ∷ b'a' ∷ b'r' ∷ b'e' ∷ b'r' ∷ b' ' ∷ []

module _ ⦃jwt : TokenCrate⦄ ⦃metadata : MetadataCrate⦄ where
  pub record JwtInterceptor : Type 0 where
    pub decoding_key : jwt.DecodingKey
    pub validation : Validation

  -- `JwtInterceptor::new`
  unfoldable pub new : List ℕ → JwtInterceptor
  new secret = record {
    decoding_key = jwt.from_secret secret;
    validation = record {
      algorithm = hs256;
      validate_exp = true;
      leeway = 0;
      validate_aud = true;
      required_spec_claims = ClaimName.exp ∷ ClaimName.sub ∷ [];
    };
  }

  -- A request without its body: the `authorization` metadata, if there is any.
  pub record Request : Type 0 where
    pub authorization : Option metadata.MetadataValue

  -- The message of an `unauthenticated` status.
  pub data Unauthenticated : Type 0 where
    missing_header : Unauthenticated
    invalid_format : Unauthenticated
    not_decoded : jwt.DecodeFault → Unauthenticated

  abbrev pub decoded : {A : Type 0} → A → Outcome jwt.DecodeFault Claims → Outcome Unauthenticated A
  decoded request (ready c) = ready request
  decoded request (reject e) = reject (not_decoded e)

  abbrev pub with_token :
      JwtInterceptor → ℕ → Request → Option (List ℕ) → Outcome Unauthenticated Request
  with_token self now request none = reject invalid_format
  with_token self now request (some token) =
      decoded request (jwt.decode token self.decoding_key self.validation now)

  abbrev pub with_text :
      JwtInterceptor → ℕ → Request → Option (List ℕ) → Outcome Unauthenticated Request
  with_text self now request none = reject missing_header
  with_text self now request (some text) = with_token self now request (strip_prefix bearer text)

  abbrev pub with_value :
      JwtInterceptor → ℕ → Request → Option metadata.MetadataValue → Outcome Unauthenticated Request
  with_value self now request none = reject missing_header
  with_value self now request (some value) = with_text self now request (metadata.to_str value)

  -- `call`, at a time of the clock.
  unfoldable pub call : JwtInterceptor → ℕ → Request → Outcome Unauthenticated Request
  call self now request = with_value self now request request.authorization
