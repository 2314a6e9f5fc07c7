-- ===== src/Security/Jwt.antt =====
-- internal/security/jwt.go: the filter that checks a connection's token (RFC 7519, HS256).
-- base64, JSON, the HMAC, strings.Split and strconv are parameters, in `Codec`. A time is in
-- seconds; Validate reads the clock twice, as `now` and then as `later`. The registration under a name is not modelled.
pub mod Issued
pub mod Revoked
pub mod Logout
mod Scenarios
use sgate.Prelude.{
  String, Bool, true, false, not, ◌&&◌, List, [], ◌∷◌, Option, none, some, if◌then◌else◌, ltb,
  length, ◌==◌, string_eq,
}
use sgate.Prelude.Int.{ℤ, pos, ◌+ℤ◌, wrap64, ltb_ℤ, leb_ℤ}
use sgate.Prelude.Bytes.{Bytes}
use sgate.Prelude.Maps.{Map, lookup, insert}
use sgate.Types.Filters.{FilterContext, Verdict, continues, stops}
use Prim.Native.String.{◌++◌ as str_append}

-- A value, or an error with its text.
pub data Result (A : Type 0) : Type 0 where
  ok : A → Result A
  err : String → Result A

unfoldable pub and_then : {A B : Type 0} → Result A → (A → Result B) → Result B
and_then (ok a) next = next a
and_then (err e) next = err e

pub record JwtClaims : Type 0 where
  pub sub : String
  pub iss : String
  pub exp : ℤ
  pub iat : ℤ
  pub jti : String
  pub route : String

-- The two fields of a token's header.
pub record JwtHeader : Type 0 where
  pub alg : String
  pub typ : String

pub record Codec : Type 0 where
  pub encode64 : Bytes → String
  pub decode64 : String → Result Bytes
  pub marshal_header : JwtHeader → Result Bytes
  pub unmarshal_header : Bytes → Result JwtHeader
  pub marshal_claims : JwtClaims → Result Bytes
  pub unmarshal_claims : Bytes → Result JwtClaims
  pub hmac_sha256 : String → String → Bytes
  pub hmac_equal : Bytes → Bytes → Bool
  pub split_dots : String → List String
  pub format_int : ℤ → String

pub record JwtAuthConfig : Type 0 where
  pub cfg_secret : String
  pub cfg_issuer : String
  pub cfg_header_field : String
  pub cfg_skip_routes : List String

-- `revoked` holds, for an id of a token, the time until which it is refused.
pub record JwtAuthFilter : Type 0 where
  pub secret : String
  pub issuer : String
  pub skip_routes : List String
  pub header_name : String
  pub revoked : Map String ℤ

unfoldable pub new_jwt_auth_filter : JwtAuthConfig → JwtAuthFilter
new_jwt_auth_filter cfg = record {
  secret = cfg.cfg_secret;
  issuer = cfg.cfg_issuer;
  skip_routes = cfg.cfg_skip_routes;
  header_name = if cfg.cfg_header_field == "" then "X-Auth-Token" else cfg.cfg_header_field;
  revoked = [];
}

unfoldable pub is_skipped : List String → String → Bool
is_skipped [] route = false
is_skipped (r ∷ rs) route = let rest = is_skipped rs route in if r == route then true else rest

-- What is left after every entry that has run out by `now` is deleted.
unfoldable pub delete_expired : ℤ → Map String ℤ → Map String ℤ
delete_expired now [] = []
delete_expired now ((j, e) ∷ m) =
    let rest = delete_expired now m in if leb_ℤ e now then rest else (j, e) ∷ rest

unfoldable pub revoke : JwtAuthFilter → ℤ → String → ℤ → JwtAuthFilter
revoke f now jti exp = record f {
  revoked =
      insert jti exp
        (if ltb 1024 (length f.revoked) then delete_expired now f.revoked else f.revoked);
}

unfoldable pub update_secret : JwtAuthFilter → String → JwtAuthFilter
update_secret f secret = record f { secret = secret }

-- revokeConnJWT of internal/gateway/admin.go, at a logout: a token of no expiry is refused for an
-- hour.
unfoldable pub revoke_time : ℤ → ℤ → ℤ
revoke_time now exp = if leb_ℤ exp (pos 0) then wrap64 (now +ℤ pos 3600) else exp

unfoldable pub revoke_conn_jwt : JwtAuthFilter → ℤ → String → ℤ → JwtAuthFilter
revoke_conn_jwt f now jti exp = if jti == "" then f else revoke f now jti (revoke_time now exp)

abbrev pub runs_until : Option ℤ → ℤ → Bool
runs_until none now = false
runs_until (some exp) now = ltb_ℤ now exp

abbrev pub or_missing : Option String → String
or_missing none = ""
or_missing (some s) = s

module _ (codec : Codec) where
  unfoldable pub sign : JwtAuthFilter → String → Bytes
  sign f input = codec.hmac_sha256 f.secret input

  -- The checks on the claims of a token whose signature is right.
  unfoldable pub check_claims : JwtAuthFilter → ℤ → ℤ → JwtClaims → Result JwtClaims
  check_claims f now later claims =
      if ltb_ℤ (pos 0) claims.exp && ltb_ℤ claims.exp now
      then err "token expired"
      else if not (f.issuer == "") && not (claims.iss == f.issuer)
      then err "issuer mismatch"
      else if runs_until (lookup claims.jti f.revoked) later
      then err "token revoked"
      else ok claims

  -- The check of the signature of the parts `h`, `p` and `s`, and what follows it.
  unfoldable pub check_signature :
      JwtAuthFilter → ℤ → ℤ → String → String → String → Result JwtClaims
  check_signature f now later h p s = and_then (codec.decode64 s) (λ (sig : Bytes).
      if not (codec.hmac_equal sig (sign f (str_append h (str_append "." p))))
      then err "signature mismatch"
      else and_then (codec.decode64 p) (λ (payload : Bytes).
        and_then (codec.unmarshal_claims payload) (check_claims f now later)))

  unfoldable pub check_parts : JwtAuthFilter → ℤ → ℤ → List String → Result JwtClaims
  check_parts f now later (h ∷ p ∷ s ∷ []) = and_then (codec.decode64 h) (λ (header : Bytes).
      and_then (codec.unmarshal_header header) (λ (parsed : JwtHeader).
        if not (parsed.alg == "HS256")
        then err (str_append "unsupported alg: " parsed.alg)
        else check_signature f now later h p s))
  check_parts f now later [] = err "invalid token format"
  check_parts f now later (h ∷ []) = err "invalid token format"
  check_parts f now later (h ∷ p ∷ []) = err "invalid token format"
  check_parts f now later (h ∷ p ∷ s ∷ x ∷ rest) = err "invalid token format"

  unfoldable pub validate : JwtAuthFilter → ℤ → ℤ → String → Result JwtClaims
  validate f now later token = check_parts f now later (codec.split_dots token)

  unfoldable pub join_token : JwtAuthFilter → Bytes → Bytes → String
  join_token f hb pb =
      let h = codec.encode64 hb in
      let p = codec.encode64 pb in
      let signed = str_append h (str_append "." p) in
      str_append h (str_append "." (str_append p (str_append "." (codec.encode64 (sign f signed)))))

  unfoldable pub issue : JwtAuthFilter → JwtClaims → Result String
  issue f claims =
      and_then (codec.marshal_header (record { alg = "HS256"; typ = "JWT" })) (λ (hb : Bytes).
        and_then (codec.marshal_claims claims) (λ (pb : Bytes). ok (join_token f hb pb)))

  -- What the filter does with a token that the metadata hold.
  unfoldable pub admit : FilterContext → Result JwtClaims → FilterContext × Verdict
  admit fc (err e) = (record fc { drop_reason = str_append "invalid jwt: " e }, stops)
  admit fc (ok claims) =
      let with_id = insert "jwt.jti" claims.jti fc.metadata in
      (
        record fc {
          user_uuid = claims.sub;
          metadata = insert "jwt.exp" (codec.format_int claims.exp) with_id;
        },
        continues,
      )

  unfoldable pub process : JwtAuthFilter → ℤ → ℤ → FilterContext → FilterContext × Verdict
  process f now later fc =
      if ltb 0 (length f.skip_routes) && is_skipped f.skip_routes fc.route
      then (fc, continues)
      else (let token = or_missing (lookup f.header_name fc.metadata) in
          if token == ""
          then (if fc.user_uuid == ""
              then (fc, continues)
              else (record fc { drop_reason = "missing jwt token" }, stops))
          else admit fc (validate f now later token))
