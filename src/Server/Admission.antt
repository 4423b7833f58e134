-- ===== src/Server/Admission.antt =====
-- src/auth.rs: which requests the interceptor admits.
use eventfold_db.Common.{
  [], ℕ, ◌≤◌, ◌≡◌, ◌↔◌, inl, inr, refl, sym, ap, Bool-cases, List, ◌∷◌, ◌++◌, Option, none, some,
  ◌==◌, eq_of_==, ne_of_==, arith,
}
use eventfold_db.Server.Config.{Outcome, ready, reject}
use eventfold_db.Server.Auth.{
  hs256, ClaimName, Claims, TokenCrate, MetadataCrate, strip_prefix, bearer, new, Request, decoded,
  with_token, with_text, with_value, call,
}

strip_prefix_lem :
    (p text token : List ℕ) → (strip_prefix p text ≡ some token) ↔ (text ≡ p ++ token)
unfolding strip_prefix
strip_prefix_lem [] text token = (λ h. cc, λ h. ap some h)
strip_prefix_lem (b ∷ bs) [] token = (λ h. cc, λ h. cc)
strip_prefix_lem (b ∷ bs) (c ∷ cs) token = elim (Bool-cases (c == b)) [
  | inl same ↦
      let eq = eq_of_== c b same in
      rw same (
        λ h. let rest = (strip_prefix_lem bs cs token).0 h in cc,
        λ h. (strip_prefix_lem bs cs token).1 let tails : c ∷ cs ≡ b ∷ (bs ++ token) = h in cc,
      )
  | inr other ↦
      rw other (
        λ h. cc,
        λ h. let tails : c ∷ cs ≡ b ∷ (bs ++ token) = h in absurd (ne_of_== c b other (cc)),
      )
]

module _ ⦃jwt : TokenCrate⦄ ⦃metadata : MetadataCrate⦄ where
  decoded_lem :
      (request got : Request) (r : Outcome jwt.DecodeFault Claims)
      → (decoded request r ≡ ready got) ↔ ((got ≡ request) × (c : Claims) × (r ≡ ready c))
  decoded_lem request got (reject e) = (λ h. cc, λ (_, c, h). cc)
  decoded_lem request got (ready c) = (
    λ h. let same : request ≡ got = cc in (sym same, c, refl),
    λ (same, _, _). ap ready (sym same),
  )

  -- A token that the secret signed by HS256, that names its subject and its expiry, that has not
  -- expired at that time and that is for no audience.
  pub record IsAdmitted (secret : List ℕ) (now : ℕ) (token : List ℕ) : Type 0 where
    pub claims : Claims
    pub signed : jwt.IsSigned token (jwt.from_secret secret) hs256 claims
    pub fresh : now ≤ claims.exp
    pub names_exp : jwt.Names token ClaimName.exp
    pub names_sub : jwt.Names token ClaimName.sub
    pub unaddressed : jwt.IsUnaddressed token

  admitted :
      (secret : List ℕ) (now : ℕ) (token : List ℕ) (c : Claims)
      → jwt.decode token (jwt.from_secret secret) (new secret).validation now ≡ ready c
      → IsAdmitted secret now token
  unfolding new
  admitted secret now token c h =
      let (signed, fresh, (exp, (sub, _)), aud) =
        (jwt.decode_lem token (jwt.from_secret secret) (new secret).validation now c).0 h in
      record {
        claims = c;
        signed = signed;
        fresh = omega (arith, fresh refl);
        names_exp = exp;
        names_sub = sub;
        unaddressed = aud refl;
      }

  accepted :
      (secret : List ℕ) (now : ℕ) (token : List ℕ) (ok : IsAdmitted secret now token)
      → jwt.decode token (jwt.from_secret secret) (new secret).validation now ≡ ready ok.claims
  unfolding new
  accepted secret now token ok =
      (jwt.decode_lem token (jwt.from_secret secret) (new secret).validation now ok.claims).1 (
        ok.signed,
        λ _. omega (arith, ok.fresh),
        (ok.names_exp, (ok.names_sub, tt)),
        λ _. ok.unaddressed,
      )

  -- The request has an authorization, of visible ASCII, that is a bearer's of such a token.
  abbrev pub Bears : Request → List ℕ → ℕ → Type 0
  Bears request secret now =
      (value : metadata.MetadataValue) × (request.authorization ≡ some value)
      × (token : List ℕ) × (metadata.to_str value ≡ some (bearer ++ token))
      × IsAdmitted secret now token

  with_token_lem :
      (secret : List ℕ) (now : ℕ) (request got : Request) (o : Option (List ℕ))
      → (with_token (new secret) now request o ≡ ready got)
        ↔ ((got ≡ request) × (token : List ℕ) × (o ≡ some token) × IsAdmitted secret now token)
  unfolding new
  with_token_lem secret now request got none = (λ h. cc, λ (_, token, h, _). cc)
  with_token_lem secret now request got (some token) = (
    λ h.
        let (same, c, accepted) = (decoded_lem request got _).0 h in
        (same, token, refl, admitted secret now token c accepted),
    λ (same, other, is, ok).
        (decoded_lem request got _).1
          (same, ok.claims, let q : token ≡ other = cc in rw q (accepted secret now other ok)),
  )

  with_text_lem :
      (secret : List ℕ) (now : ℕ) (request got : Request) (o : Option (List ℕ))
      → (with_text (new secret) now request o ≡ ready got) ↔ (
          (got ≡ request)
          × (token : List ℕ) × (o ≡ some (bearer ++ token))
          × IsAdmitted secret now token)
  with_text_lem secret now request got none = (λ h. cc, λ (_, token, h, _). cc)
  with_text_lem secret now request got (some text) = (
    λ h.
        let (same, token, stripped, ok) =
          (with_token_lem secret now request got (strip_prefix bearer text)).0 h in
        (same, token, ap some ((strip_prefix_lem bearer text token).0 stripped), ok),
    λ (same, token, is, ok).
        let whole : text ≡ bearer ++ token = cc in
        (with_token_lem secret now request got (strip_prefix bearer text)).1
          (same, token, (strip_prefix_lem bearer text token).1 whole, ok),
  )

  with_value_lem :
      (secret : List ℕ) (now : ℕ) (request got : Request) (o : Option metadata.MetadataValue)
      → (with_value (new secret) now request o ≡ ready got) ↔ (
          (got ≡ request)
          × ((value : metadata.MetadataValue) × (o ≡ some value)
              × (token : List ℕ) × (metadata.to_str value ≡ some (bearer ++ token))
              × IsAdmitted secret now token))
  with_value_lem secret now request got none = (λ h. cc, λ (_, (_, h, _, _, _)). cc)
  with_value_lem secret now request got (some value) = (
    λ h.
        let (same, token, text, ok) =
          (with_text_lem secret now request got (metadata.to_str value)).0 h in
        (same, (value, refl, token, text, ok)),
    λ (same, (other, is, token, text, ok)).
        let q : value ≡ other = cc in
        (with_text_lem secret now request got (metadata.to_str value)).1
          (same, token, rw q text, ok),
  )

  -- The interceptor lets a request pass, and unchanged, exactly if its authorization is `Bearer`,
  -- one space and a token that is signed with the secret by HS256, names its subject and its
  -- expiry, has not expired, with no leeway, and is for no audience.
  pub call-Bears :
      (secret : List ℕ) (now : ℕ) (request got : Request)
      → (call (new secret) now request ≡ ready got) ↔ ((got ≡ request) × Bears request secret now)
  unfolding call
  call-Bears secret now request got = with_value_lem secret now request got request.authorization
