-- ===== src/Security/Jwt/Scenarios.antt =====
-- The theorem on revoked tokens, applied to a filter whose libraries are written out for a token.
-- The code of a byte is so many letters `a` and a `b`; a signature is made of two lengths.
use sgate.Prelude.{
  ℕ, zero, suc, ◌+◌, ◌≡◌, refl, sym, ap, ◌∙◌, inr, String, Bool, true, false, ◌&&◌, List, [], ◌∷◌,
  if◌then◌else◌, nat_beq, ◌==◌, string_eq, arith,
}
use sgate.Prelude.Int.{ℤ, pos, negsuc, leb_ℤ}
use sgate.Prelude.Bytes.{Bytes}
use sgate.Security.Jwt.{
  Result, ok, err, JwtClaims, JwtHeader, Codec, JwtAuthFilter, validate, new_jwt_auth_filter, issue,
  join_token, and_then, sign, revoke_time, revoke_conn_jwt,
}
use sgate.Security.Jwt.Issued.{IsLawful}
use sgate.Security.Jwt.Revoked.{Revocation, revoke_all}
use sgate.Security.Jwt.Logout.{logout-validate, after_revocation}
use Prim.Native.Char.{Char, code}
use Prim.Native.String.{count, ◌++◌ as str_append, [] as str_nil, ◌∷◌ as str_cons}
use text.Mathlib.TextLemmas.{cons-append, nil-append}

abbrev letters : ℕ → String → String
letters zero s = str_cons "b" s
letters (suc n) s = str_cons "a" (letters n s)

abbrev encode : Bytes → String
encode [] = str_nil
encode (b ∷ bs) = letters b (encode bs)

abbrev decode_from : ℕ → String → Bytes
decode_from n str_nil = []
decode_from n (str_cons c s) =
    let ended = decode_from 0 s in
    let longer = decode_from (suc n) s in if nat_beq (code c) 98 then n ∷ ended else longer

abbrev decode : String → Result Bytes
decode s = ok (decode_from 0 s)

decode_from-letters :
    (n k : ℕ) (s : String) (bs : Bytes)
    → decode_from 0 s ≡ bs
    → decode_from n (letters k s) ≡ (n + k) ∷ bs
decode_from-letters n zero s bs h = ground (arith, h)
decode_from-letters n (suc k) s bs h =
    decode_from-letters (suc n) k s bs h ∙ ap (λ (i : ℕ). i ∷ bs) (omega arith)

decode_from-encode : (bs : Bytes) → decode_from 0 (encode bs) ≡ bs
decode_from-encode [] = refl
decode_from-encode (b ∷ bs) =
    decode_from-letters 0 b (encode bs) bs (decode_from-encode bs)
    ∙ ap (λ (i : ℕ). i ∷ bs) (omega arith)

abbrev onto_first : Char → List String → List String
onto_first c [] = []
onto_first c (s ∷ rest) = str_cons c s ∷ rest

abbrev split : String → List String
split str_nil = str_nil ∷ []
split (str_cons c s) =
    let rest = split s in if nat_beq (code c) 46 then str_nil ∷ rest else onto_first c rest

split-letters :
    (k : ℕ) (s first : String) (rest : List String)
    → split s ≡ first ∷ rest
    → split (letters k s) ≡ letters k first ∷ rest
split-letters zero s first rest h = ap (onto_first "b") h
split-letters (suc k) s first rest h = ap (onto_first "a") (split-letters k s first rest h)

letters-append : (k : ℕ) (s t : String) → str_append (letters k s) t ≡ letters k (str_append s t)
letters-append zero s t = cons-append "b" s t
letters-append (suc k) s t =
    cons-append "a" (letters k s) t ∙ ap (λ (u : String). str_cons "a" u) (letters-append k s t)

split-encode : (bs : Bytes) → split (encode bs) ≡ encode bs ∷ []
split-encode [] = refl
split-encode (b ∷ bs) = split-letters b (encode bs) (encode bs) [] (split-encode bs)

split-append :
    (bs : Bytes) (t : String)
    → split (str_append (encode bs) (str_append "." t)) ≡ encode bs ∷ split t
split-append [] t = ap split (
    nil-append (str_append "." t)
    ∙ (cons-append "." "" t ∙ ap (λ (u : String). str_cons "." u) (nil-append t)))
split-append (b ∷ bs) t =
    ap split (letters-append b (encode bs) (str_append "." t))
    ∙ split-letters b (str_append (encode bs) (str_append "." t)) (encode bs) (split t)
        (split-append bs t)

abbrev claims : JwtClaims
claims = record { sub = "ann"; iss = "sgate"; exp = pos 100; iat = pos 10; jti = "t1"; route = "" }

abbrev hs256 : JwtHeader
hs256 = record { alg = "HS256"; typ = "JWT" }

abbrev int_beq : ℤ → ℤ → Bool
int_beq a b = leb_ℤ a b && leb_ℤ b a

int_beq-eq : (a b : ℤ) → int_beq a b ≡ true → a ≡ b
int_beq-eq (pos a) (pos b) h = ap pos (ground arith)
int_beq-eq (pos a) (negsuc b) h = ground arith
int_beq-eq (negsuc a) (pos b) h = ground arith
int_beq-eq (negsuc a) (negsuc b) h = ground arith

abbrev is_claims : JwtClaims → Bool
is_claims c =
    c.sub == "ann"
    && (c.iss == "sgate"
        && (int_beq c.exp (pos 100)
            && (int_beq c.iat (pos 10) && (c.jti == "t1" && c.route == ""))))

is_claims-eq : (c : JwtClaims) → is_claims c ≡ true → c ≡ claims
is_claims-eq c h =
    let sub_eq : c.sub ≡ "ann" = ground (arith, string_eq.beq_iff c.sub "ann") in
    let iss_eq : c.iss ≡ "sgate" = ground (arith, string_eq.beq_iff c.iss "sgate") in
    let exp_eq : c.exp ≡ pos 100 = int_beq-eq c.exp (pos 100) (ground arith) in
    let iat_eq : c.iat ≡ pos 10 = int_beq-eq c.iat (pos 10) (ground arith) in
    let jti_eq : c.jti ≡ "t1" = ground (arith, string_eq.beq_iff c.jti "t1") in
    let route_eq : c.route ≡ "" = ground (arith, string_eq.beq_iff c.route "") in
    λ i. record {
      sub = sub_eq i;
      iss = iss_eq i;
      exp = exp_eq i;
      iat = iat_eq i;
      jti = jti_eq i;
      route = route_eq i;
    }

abbrev is_hs256 : JwtHeader → Bool
is_hs256 h = h.alg == "HS256" && h.typ == "JWT"

is_hs256-eq : (h : JwtHeader) → is_hs256 h ≡ true → h ≡ hs256
is_hs256-eq h e =
    let alg_eq : h.alg ≡ "HS256" = ground (arith, string_eq.beq_iff h.alg "HS256") in
    let typ_eq : h.typ ≡ "JWT" = ground (arith, string_eq.beq_iff h.typ "JWT") in
    λ i. record { alg = alg_eq i; typ = typ_eq i }

abbrev bytes_beq : Bytes → Bytes → Bool
bytes_beq [] [] = true
bytes_beq [] (b ∷ bs) = false
bytes_beq (a ∷ rest) [] = false
bytes_beq (a ∷ rest) (b ∷ bs) = nat_beq a b && bytes_beq rest bs

bytes_beq_refl : (b : Bytes) → bytes_beq b b ≡ true
bytes_beq_refl [] = refl
bytes_beq_refl (b ∷ bs) = ground (arith, bytes_beq_refl bs)

abbrev codec : Codec
codec = record {
  encode64 = encode;
  decode64 = decode;
  marshal_header = λ (h : JwtHeader). if is_hs256 h then ok (1 ∷ []) else err "header";
  unmarshal_header = λ (b : Bytes). ok hs256;
  marshal_claims = λ (c : JwtClaims). if is_claims c then ok (2 ∷ []) else err "claims";
  unmarshal_claims = λ (b : Bytes). ok claims;
  hmac_sha256 = λ (secret input : String). count secret ∷ count input ∷ [];
  hmac_equal = bytes_beq;
  split_dots = split;
  format_int = λ (n : ℤ). "100";
}

codec-IsLawful : IsLawful codec
codec-IsLawful = record {
  decodes = λ (b : Bytes). ap ok (decode_from-encode b);
  reads_header = λ (h : JwtHeader) (b : Bytes) (e : codec.marshal_header h ≡ ok b).
      ap ok (sym (is_hs256-eq h (ground arith)));
  reads_claims = λ (c : JwtClaims) (b : Bytes) (e : codec.marshal_claims c ≡ ok b).
      ap ok (sym (is_claims-eq c (ground arith)));
  equal = bytes_beq_refl;
  splits = λ (a b c : Bytes).
      split-append a (str_append (encode b) (str_append "." (encode c)))
      ∙ ap (λ (r : List String). encode a ∷ r)
          (split-append b (encode c) ∙ ap (λ (r : List String). encode b ∷ r) (split-encode c));
}

abbrev filter : JwtAuthFilter
filter =
    new_jwt_auth_filter (record {
      cfg_secret = "k";
      cfg_issuer = "sgate";
      cfg_header_field = "";
      cfg_skip_routes = [];
    })

abbrev others : List Revocation
others =
    record { at = pos 30; id = "t2"; until = pos 40 }
    ∷ record { at = pos 50; id = "t3"; until = pos 60 }
    ∷ []

abbrev token : String
token = "ab.aab.abaaaaaab"

filter_issues : issue codec filter claims ≡ ok token
unfolding issue join_token and_then sign new_jwt_auth_filter
filter_issues = refl

logout-validate_example :
    validate codec
      (revoke_all (revoke_conn_jwt filter (pos 20) "t1" (pos 100)) others)
      (pos 60)
      (pos 61)
      token
    ≡ after_revocation (revoke_time (pos 20) (pos 100)) (pos 60) (pos 61) claims
unfolding new_jwt_auth_filter
logout-validate_example =
    logout-validate codec codec-IsLawful filter claims token (pos 20) (pos 60) (pos 61) others
      filter_issues refl tt (inr refl) ((omega arith, refl), ((omega arith, refl), tt))
