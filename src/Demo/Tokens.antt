-- ===== src/Demo/Tokens.antt =====
-- examples/websocket/mock-backend/main.go and examples/grpc/mock-jwt/main.go: the tokens for the tests
-- and the key that they are signed with.
use pucora_ce.Base.{ℕ, ◌+◌, String, ◌<>◌, List, [], ◌∷◌, Option, none, some}
use pucora_ce.Base.Result.{Result, ok, err}

-- `jwt.Claims` with the private ones, the expiry in seconds; an ID and a subject may be missing.
pub record Claims : Type 0 where
  pub issuer : String
  pub audience : List String
  pub expiry : ℕ
  pub id : Option String
  pub sub : Option String
  pub roles : List String

-- The signing libraries: the decoder of the key, the signer for HS256 with the key ID `sim2`, the
-- serialization of signed claims, and the time in seconds.
pub record Signing : Type 1 where
  pub Key : Type 0
  pub Signer : Type 0
  pub decode : String → Result Key
  pub new_signer : Key → Result Signer
  pub serialize : Signer → Claims → Result String
  pub now : ℕ

abbrev pub hs256_key : String
hs256_key = "AyM1SysPpbyDfgZld3umj1qzKObwVMkoqQ-EstJQLr_T-1qS0gZH75aKtMN3Yj0iPS4hcgUuTwjAzZr1Z9CAow"

-- The answer of a token handler: the entries of its JSON object, or the error with the status 500.
pub data TokenReply : Type 0 where
  internal_error : String → TokenReply
  token : List (String × String) → TokenReply

-- A key of the document of keys: `kty`, `alg`, `k` and `kid`.
pub record Jwk : Type 0 where
  pub kty : String
  pub alg : String
  pub k : String
  pub kid : String

abbrev sim1 : Jwk
sim1 = record { kty = "oct"; alg = "A128KW"; k = "GawgguFyGrWKav7AX4VKUg"; kid = "sim1" }

abbrev sim2 : Jwk
sim2 = record { kty = "oct"; alg = "HS256"; k = hs256_key; kid = "sim2" }

-- `symmetricJWKEndpoint` of the two programs.
pub websocket_keys : List Jwk
websocket_keys = sim1 ∷ sim2 ∷ []

pub jwt_keys : List Jwk
jwt_keys = sim2 ∷ []

module _ (S : Signing) where
  signed : Claims → Result S.Signer → Result String
  signed c (err e) = err e
  signed c (ok signer) = S.serialize signer c

  with_key : Claims → Result S.Key → Result String
  unfolding signed
  with_key c (err e) = err e
  with_key c (ok key) = signed c (S.new_signer key)

  -- The claims that both programs sign.
  jwt_claims : Claims
  jwt_claims = record {
    issuer = "http://example.com";
    audience = "http://api.example.com" ∷ [];
    expiry = S.now + 86400;
    id = none;
    sub = none;
    roles = "role_a" ∷ "role_b" ∷ [];
  }

  websocket_claims : Claims
  unfolding jwt_claims
  websocket_claims = record jwt_claims { id = some "compose-test-jti"; sub = some "compose-user" }

  -- `signTestToken` of examples/websocket/mock-backend/main.go
  pub sign_websocket_token : Result String
  unfolding with_key websocket_claims
  sign_websocket_token = with_key websocket_claims (S.decode hs256_key)

  -- `signTestToken` of examples/grpc/mock-jwt/main.go
  pub sign_jwt_token : Result String
  unfolding with_key jwt_claims
  sign_jwt_token = with_key jwt_claims (S.decode hs256_key)

websocket_reply : Result String → TokenReply
websocket_reply (err e) = internal_error e
websocket_reply (ok t) = token (
    ("token", t)
    ∷ ("header", "Authorization")
    ∷ ("value", "Bearer " <> t)
    ∷ ("expires_in", "24h")
    ∷ [])

jwt_reply : Result String → TokenReply
jwt_reply (err e) = internal_error e
jwt_reply (ok t) = token (("token", t) ∷ ("value", "Bearer " <> t) ∷ [])

-- `tokenHandler` of the two programs.
pub websocket_token_handler : Signing → TokenReply
unfolding websocket_reply
websocket_token_handler S = websocket_reply (sign_websocket_token S)

pub jwt_token_handler : Signing → TokenReply
unfolding jwt_reply
jwt_token_handler S = jwt_reply (sign_jwt_token S)
