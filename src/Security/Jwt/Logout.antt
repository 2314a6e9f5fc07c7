-- ===== src/Security/Jwt/Logout.antt =====
-- internal/security/jwt.go with revokeConnJWT of internal/gateway/admin.go: a token from its issue
-- over the logout of its connection to its check.
use sgate.Prelude.{
  ◌≡◌, ◌⊎◌, refl, ◌∙◌, String, false, not, ◌&&◌, List, if◌then◌else◌, ◌==◌, string_eq, arith, All,
}
use sgate.Prelude.Int.{ℤ, pos, ltb_ℤ}
use sgate.Prelude.Maps.{lookup, NodupKeys}
use sgate.Security.Jwt.{
  Result, ok, err, JwtClaims, Codec, JwtAuthFilter, revoke, check_claims, validate, issue,
}
use sgate.Security.Jwt.Issued.{IsLawful, validate-issue}
use sgate.Security.Jwt.{revoke_time, revoke_conn_jwt}
use sgate.Security.Jwt.Revoked.{
  Revocation, IsOther, revoke_all, Held, revoke_all-same, revoke_all-IsHeldBy, own-IsHeldBy,
  runs_until-Held,
}

-- What is answered for a token that was revoked until `until`, if the clock reads `now` and then
-- `later`.
unfoldable pub after_revocation : ℤ → ℤ → ℤ → JwtClaims → Result JwtClaims
after_revocation until now later c =
    if ltb_ℤ (pos 0) c.exp && ltb_ℤ c.exp now
    then err "token expired"
    else if ltb_ℤ later until
    then err "token revoked"
    else ok c

foreign-false :
    (issuer iss : String)
    → (issuer ≡ "") ⊎ (iss ≡ issuer)
    → (not (issuer == "") && not (iss == issuer)) ≡ false
foreign-false issuer iss own =
    ground (arith, string_eq.beq_iff issuer "", string_eq.beq_iff iss issuer)

module _ (codec : Codec) where
  check_claims-Held :
      (g : JwtAuthFilter) (until now later : ℤ) (c : JwtClaims)
      → (g.issuer ≡ "") ⊎ (c.iss ≡ g.issuer)
      → Held later until (lookup c.jti g.revoked)
      → check_claims codec g now later c ≡ after_revocation until now later c
  unfolding check_claims after_revocation
  check_claims-Held g until now later c own held =
      rw
        (
          foreign-false g.issuer c.iss own,
          runs_until-Held later until (lookup c.jti g.revoked) held,
        )
        refl

module _ (codec : Codec) (lawful : IsLawful codec) where
  revoked-validate :
      (f : JwtAuthFilter) (c : JwtClaims) (token : String) (at until now later : ℤ)
      (rs : List Revocation)
      → issue codec f c ≡ ok token
      → NodupKeys f.revoked
      → (f.issuer ≡ "") ⊎ (c.iss ≡ f.issuer)
      → All (IsOther later c.jti) rs
      → validate codec (revoke_all (revoke f at c.jti until) rs) now later token
        ≡ after_revocation until now later c
  unfolding revoke
  revoked-validate f c token at until now later rs issued nodup own others =
      let g = revoke f at c.jti until in
      let same = revoke_all-same g rs in
      let held =
        revoke_all-IsHeldBy later until c.jti g rs others
          (own-IsHeldBy later until c.jti f at nodup) in
      validate-issue codec lawful f (revoke_all g rs) now later c token issued same.0
      ∙ check_claims-Held codec (revoke_all g rs) until now later c (rw same.1 own) held.1

  -- A token with an id, issued by a filter with no issuer or with the claims' issuer, is answered
  -- after the logout of its connection as expired when its expiry is positive and before the clock's
  -- first reading, else as revoked when the second reading is before the time until which the logout
  -- revokes it (its expiry, or an hour if that is not positive), else it is let through, as when both
  -- read the very second of its expiry. This is so whatever other tokens were revoked before, and
  -- after it at times up to the second reading.
  pub logout-validate :
      (f : JwtAuthFilter) (c : JwtClaims) (token : String) (at now later : ℤ) (rs : List Revocation)
      → issue codec f c ≡ ok token
      → (c.jti == "") ≡ false
      → NodupKeys f.revoked
      → (f.issuer ≡ "") ⊎ (c.iss ≡ f.issuer)
      → All (IsOther later c.jti) rs
      → validate codec (revoke_all (revoke_conn_jwt f at c.jti c.exp) rs) now later token
        ≡ after_revocation (revoke_time at c.exp) now later c
  unfolding revoke_conn_jwt
  logout-validate f c token at now later rs issued named nodup own others =
      rw named
        (revoked-validate f c token at (revoke_time at c.exp) now later rs issued nodup own others)
