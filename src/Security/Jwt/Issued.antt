-- ===== src/Security/Jwt/Issued.antt =====
-- internal/security/jwt.go: a token from its issue to its check, and what is taken of the libraries.
use sgate.Prelude.{◌≡◌, subst, refl, sym, String, true, [], ◌∷◌, string_eq, arith}
use sgate.Prelude.Int.{ℤ}
use sgate.Prelude.Bytes.{Bytes}
use sgate.Security.Jwt.{
  Result, ok, err, and_then, JwtClaims, JwtHeader, Codec, JwtAuthFilter, check_claims,
  check_signature, check_parts, validate, join_token, issue, sign,
}
use Prim.Native.String.{◌++◌ as str_append}

-- What is documented of the libraries: encoding and decoding, equality of two codes, and that the
-- alphabet of base64 has no dot.
pub record IsLawful (codec : Codec) : Type 0 where
  pub decodes : (b : Bytes) → codec.decode64 (codec.encode64 b) ≡ ok b
  pub reads_header :
      (h : JwtHeader) (b : Bytes) → codec.marshal_header h ≡ ok b → codec.unmarshal_header b ≡ ok h
  pub reads_claims :
      (c : JwtClaims) (b : Bytes) → codec.marshal_claims c ≡ ok b → codec.unmarshal_claims b ≡ ok c
  pub equal : (b : Bytes) → codec.hmac_equal b b ≡ true
  pub splits :
      (a b c : Bytes)
      → codec.split_dots (
          str_append
            (codec.encode64 a)
            (str_append "." (str_append (codec.encode64 b) (str_append "." (codec.encode64 c)))))
        ≡ codec.encode64 a ∷ codec.encode64 b ∷ codec.encode64 c ∷ []

and_then_ok :
    {A B : Type 0} (r : Result A) (next : A → Result B) (b : B)
    → and_then r next ≡ ok b
    → (a : A) × (r ≡ ok a) × (next a ≡ ok b)
unfolding and_then
and_then_ok (ok a) next b h = (a, refl, h)
and_then_ok (err e) next b h = ground arith

module _ (codec : Codec) (lawful : IsLawful codec) where
  check_signature_signed :
      (g : JwtAuthFilter) (now later : ℤ) (hb pb : Bytes) (c : JwtClaims)
      → codec.marshal_claims c ≡ ok pb
      → check_signature codec g now later (codec.encode64 hb) (codec.encode64 pb) (
          codec.encode64
            (sign codec g (str_append (codec.encode64 hb) (str_append "." (codec.encode64 pb)))))
        ≡ check_claims codec g now later c
  unfolding check_signature and_then
  check_signature_signed g now later hb pb c h =
      let signed =
        sign codec g (str_append (codec.encode64 hb) (str_append "." (codec.encode64 pb))) in
      rw (lawful.decodes signed, lawful.equal signed, lawful.decodes pb, lawful.reads_claims c pb h)
        refl

  validate-join_token :
      (f g : JwtAuthFilter) (now later : ℤ) (c : JwtClaims) (hb pb : Bytes)
      → codec.marshal_header (record { alg = "HS256"; typ = "JWT" }) ≡ ok hb
      → codec.marshal_claims c ≡ ok pb
      → g.secret ≡ f.secret
      → validate codec g now later (join_token codec f hb pb) ≡ check_claims codec g now later c
  unfolding validate join_token check_parts and_then sign
  validate-join_token f g now later c hb pb header claims same =
      rw
        (
          sym same,
          lawful.splits hb pb
              (sign codec g (str_append (codec.encode64 hb) (str_append "." (codec.encode64 pb)))),
          lawful.decodes hb,
          lawful.reads_header (record { alg = "HS256"; typ = "JWT" }) hb header,
        )
        (check_signature_signed g now later hb pb c claims)

  -- A token that a filter with the same secret issued is judged by its claims.
  pub validate-issue :
      (f g : JwtAuthFilter) (now later : ℤ) (c : JwtClaims) (token : String)
      → issue codec f c ≡ ok token
      → g.secret ≡ f.secret
      → validate codec g now later token ≡ check_claims codec g now later c
  unfolding issue
  validate-issue f g now later c token h same =
      let made_header =
        and_then_ok (codec.marshal_header (record { alg = "HS256"; typ = "JWT" }))
          (λ (hb : Bytes).
            and_then (codec.marshal_claims c) (λ (pb : Bytes). ok (join_token codec f hb pb)))
          token h in
      let hb = made_header.0 in
      let made_claims =
        and_then_ok (codec.marshal_claims c) (λ (pb : Bytes). ok (join_token codec f hb pb)) token
          made_header.2 in
      let made : join_token codec f hb made_claims.0 ≡ token = ground (arith, made_claims.2) in
      subst (λ (t : String). validate codec g now later t ≡ check_claims codec g now later c) made
        (validate-join_token f g now later c hb made_claims.0 made_header.1 made_claims.1 same)
