-- ===== src/Tests/ServerRuns.antt =====
-- Runs of src/main.rs and src/auth.rs, with stand-ins for the address parser and the token library.
use eventfold_db.Common.{
  eq_of_==, ◌≡◌, ◌↔◌, ◌+◌, ◌≤◌, [], ℕ, refl, ap, List, ◌∷◌, ◌++◌, Option, none, some, arith, Bool,
  true, false, not, ◌&&◌, ◌||◌, ◌==◌, All, ltb, leb, length, if◌then◌else◌,
}
use eventfold_db.Server.Config.{
  AddressParser, Variable, Environment, Outcome, ready, reject, Config, from_env,
}
use eventfold_db.Server.Config.Accepts.{IsConfigured, from_env-IsConfigured}
use eventfold_db.Server.Auth.{
  ClaimName, Claims, Validation, TokenCrate, MetadataCrate, Request, bearer, new, call,
}
use eventfold_db.Server.Admission.{Bears, call-Bears}

-- An address is its text.
instance abbrev pub texts : AddressParser
texts = record {
  SocketAddr = List ℕ;
  parse = λ text. some text;
  default_listen_addr = b'[' ∷ b':' ∷ b':' ∷ b']' ∷ b':' ∷ b'2' ∷ b'1' ∷ b'1' ∷ b'3' ∷ [];
  default_metrics_listen_addr = b'[' ∷ b':' ∷ b':' ∷ b']' ∷ b':' ∷ b'9' ∷ b'0' ∷ b'9' ∷ b'0' ∷ [];
  parse-default_listen_addr = refl;
  parse-default_metrics_listen_addr = refl;
}

-- The data path, a capacity of twenty, and no metrics.
abbrev environment : Environment
environment Variable.data_path = some (b'd' ∷ [])
environment Variable.broker_capacity = some (b'2' ∷ b'0' ∷ [])
environment Variable.metrics_listen = some []
environment _ = none

abbrev expected : Config
expected = record {
  data_path = b'd' ∷ [];
  listen_addr = texts.default_listen_addr;
  broker_capacity = 20;
  dedup_capacity = 65536;
  tls = none;
  metrics_listen = none;
  jwt_secret = none;
}

from_env-IsConfigured_example :
    (from_env environment ≡ ready expected) ↔ IsConfigured environment expected
from_env-IsConfigured_example = from_env-IsConfigured environment expected

-- A token is four numbers: the key that signed it, the time up to which it is good, its subject and
-- its audience, where zero is none.
abbrev pub Token : Type 0
Token = ℕ × ℕ × ℕ × ℕ

abbrev token_of : List ℕ → Option Token
token_of (key ∷ exp ∷ sub ∷ aud ∷ []) = some (key, exp, sub, aud)
token_of _ = none

abbrev claims_of : Token → Claims
claims_of (key, exp, sub, aud) = record { sub = sub ∷ []; exp = exp }

abbrev has : Option Token → ClaimName → Bool
has none name = false
has (some t) ClaimName.exp = true
has (some (key, exp, sub, aud)) ClaimName.sub = ltb 0 sub

abbrev has_all : Option Token → List ClaimName → Bool
has_all o [] = true
has_all o (name ∷ names) = has o name && has_all o names

abbrev has_no_audience : Option Token → Bool
has_no_audience none = true
has_no_audience (some (key, exp, sub, aud)) = aud == 0

abbrev check_token : Option Token → ℕ → Validation → ℕ → Outcome (Unit {0}) Claims
check_token none key v now = reject tt
check_token (some (signer, exp, sub, aud)) key v now =
    if (signer == key)
      && (not v.validate_exp || leb now (exp + v.leeway))
      && has_all (some (signer, exp, sub, aud)) v.required_spec_claims
      && (not v.validate_aud || (aud == 0))
    then ready (record { sub = sub ∷ []; exp = exp })
    else reject tt

abbrev IsFrom : Option Token → ℕ → Claims → Type 0
IsFrom none key c = ⊥
IsFrom (some (signer, exp, sub, aud)) key c =
    (signer ≡ key) × (record { sub = sub ∷ []; exp = exp } ≡ c)

has_all-All :
    (o : Option Token) (names : List ClaimName)
    → has_all o names ≡ true
    → All (λ name. has o name ≡ true) names
has_all-All o [] h = tt
has_all-All o (name ∷ names) h = (ground arith, has_all-All o names (ground arith))

All-has_all :
    (o : Option Token) (names : List ClaimName)
    → All (λ name. has o name ≡ true) names
    → has_all o names ≡ true
All-has_all o [] h = refl
All-has_all o (name ∷ names) h = ground (arith, h.0, All-has_all o names h.1)

let_in :
    (b : Bool) (d c : Claims)
    → (if b then ready d else Outcome.reject (tt {0})) ≡ ready c
    → (b ≡ true) × (d ≡ c)
let_in true d c h = (refl, cc)
let_in false d c h = cc

split_tests :
    (a b c d : Bool) → (a && b && c && d) ≡ true → (a ≡ true) × (b ≡ true) × (c ≡ true) × (d ≡ true)
split_tests true true true true h = (refl, refl, refl, refl)
split_tests false b c d h = cc
split_tests true false c d h = cc
split_tests true true false d h = cc
split_tests true true true false h = cc

demanded : (a b : Bool) → (not a || b) ≡ true → a ≡ true → b ≡ true
demanded true b h e = h
demanded false b h e = cc

le_of_leb : (a b : ℕ) → leb a b ≡ true → a ≤ b
le_of_leb a b h = ground arith

leb_of_le : (a b : ℕ) → a ≤ b → leb a b ≡ true
leb_of_le a b h = ground arith

waived : (a b : Bool) → (a ≡ true → b ≡ true) → (not a || b) ≡ true
waived true b h = h refl
waived false b h = refl

pub check_token_lem :
    (o : Option Token) (key : ℕ) (v : Validation) (now : ℕ) (c : Claims)
    → (check_token o key v now ≡ ready c) ↔ (
        IsFrom o key c
        × (v.validate_exp ≡ true → now ≤ c.exp + v.leeway)
        × All (λ name. has o name ≡ true) v.required_spec_claims
        × (v.validate_aud ≡ true → has_no_audience o ≡ true))
check_token_lem none key v now c = (λ h. cc, λ (never, _, _, _). absurd never)
check_token_lem (some (signer, exp, sub, aud)) key v now c = (
  λ h.
      let (checks, same) = let_in _ (claims_of (signer, exp, sub, aud)) c h in
      let (signed, in_time, named, no_aud) = split_tests (signer == key) _ _ _ checks in
      let same_exp : exp ≡ c.exp = ap (λ d. d.exp) same in
      (
        (eq_of_== signer key signed, same),
        λ e.
            omega (
              arith,
              same_exp,
              le_of_leb now (exp + v.leeway) (demanded v.validate_exp _ in_time e),
            ),
        has_all-All (some (signer, exp, sub, aud)) v.required_spec_claims named,
        demanded v.validate_aud _ no_aud,
      ),
  λ ((signed, same), fresh, names, no_aud).
      let same_exp : exp ≡ c.exp = ap (λ d. d.exp) same in
      let is_signed : (signer == key) ≡ true = ground (arith, signed) in
      let in_time : (not v.validate_exp || leb now (exp + v.leeway)) ≡ true =
        waived v.validate_exp _
          (λ e. leb_of_le now (exp + v.leeway) (omega (arith, same_exp, fresh e))) in
      rw
        (
          is_signed,
          in_time,
          All-has_all (some (signer, exp, sub, aud)) v.required_spec_claims names,
          waived v.validate_aud (aud == 0) no_aud,
        )
        (ap ready same),
)

instance abbrev pub keys : TokenCrate
keys = record {
  DecodingKey = ℕ;
  DecodeFault = Unit {0};
  from_secret = length;
  decode = λ token key v now. check_token (token_of token) key v now;
  IsSigned = λ token key algorithm c. IsFrom (token_of token) key c;
  Names = λ token name. has (token_of token) name ≡ true;
  IsUnaddressed = λ token. has_no_audience (token_of token) ≡ true;
  decode_lem = λ token key v now c. check_token_lem (token_of token) key v now c;
}

instance abbrev pub plain_metadata : MetadataCrate
plain_metadata = record { MetadataValue = List ℕ; to_str = λ text. some text }

-- Signed with a secret of one byte, good until 100, of the subject 7.
abbrev asked : Request
asked = record { authorization = some (bearer ++ 1 ∷ 100 ∷ 7 ∷ 0 ∷ []) }

call-Bears_example :
    (call (new (b'k' ∷ [])) 99 asked ≡ ready asked) ↔ ((asked ≡ asked) × Bears asked (b'k' ∷ []) 99)
call-Bears_example = call-Bears (b'k' ∷ []) 99 asked asked
