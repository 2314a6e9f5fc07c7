-- ===== src/Security/Jwt/Revoked.antt =====
-- internal/security/jwt.go: the ids of revoked tokens, and the check of a token that was revoked.
use sgate.Prelude.{
  ◌≡◌, ◌⊎◌, inl, refl, String, true, false, List, [], ◌∷◌, Option, none, some, if◌then◌else◌, ltb,
  length, ◌==◌, string_eq, arith, if_cases, All,
}
use sgate.Prelude.Int.{ℤ, ltb_ℤ, leb_ℤ, ◌≤ℤ◌}
use sgate.Prelude.Maps.{
  Map, lookup, insert, NodupKeys, lookup-insert, lookup-insert_self, insert-NodupKeys,
}
use sgate.Security.Jwt.{JwtAuthFilter, delete_expired, revoke, runs_until}

-- One call of Revoke.
pub record Revocation : Type 0 where
  pub at : ℤ
  pub id : String
  pub until : ℤ

-- The revocation of another token, at a time that is not after `now`.
abbrev pub IsOther : ℤ → String → Revocation → Type 0
IsOther now jti r = (r.at ≤ℤ now) × ((r.id == jti) ≡ false)

unfoldable pub revoke_all : JwtAuthFilter → List Revocation → JwtAuthFilter
revoke_all f [] = f
revoke_all f (r ∷ rs) = revoke_all (revoke f r.at r.id r.until) rs

lookup-delete_none :
    (j : String) (now : ℤ) (m : Map String ℤ)
    → lookup j m ≡ none
    → lookup j (delete_expired now m) ≡ none
unfolding lookup delete_expired
lookup-delete_none j now [] h = refl
lookup-delete_none j now ((i, e) ∷ m) h = ground (arith, lookup-delete_none j now m)

delete-NodupKeys : (now : ℤ) (m : Map String ℤ) → NodupKeys m → NodupKeys (delete_expired now m)
unfolding delete_expired
delete-NodupKeys now [] h = tt
delete-NodupKeys now ((i, e) ∷ m) h =
    if_cases (λ (n : Map String ℤ). NodupKeys n) (leb_ℤ e now)
      (λ (run : leb_ℤ e now ≡ true). delete-NodupKeys now m h.1)
      (λ (runs : leb_ℤ e now ≡ false). (lookup-delete_none i now m h.0, delete-NodupKeys now m h.1))

abbrev unless_run_out : ℤ → Option ℤ → Option ℤ
unless_run_out now none = none
unless_run_out now (some e) = if leb_ℤ e now then none else some e

lookup-delete :
    (j : String) (now : ℤ) (m : Map String ℤ)
    → NodupKeys m
    → lookup j (delete_expired now m) ≡ unless_run_out now (lookup j m)
unfolding lookup delete_expired
lookup-delete j now [] nodup = refl
lookup-delete j now ((i, e) ∷ m) nodup = ground (
  arith,
  string_eq.beq_iff i j,
  lookup-delete_none i now m nodup.0,
  lookup-delete j now m nodup.1,
)

-- The entry of an id is there with its time, or it has run out.
abbrev pub Held : ℤ → ℤ → Option ℤ → Type 0
Held now exp entry = (entry ≡ some exp) ⊎ ((entry ≡ none) × (exp ≤ℤ now))

unless_run_out-Held :
    (now at exp : ℤ) (entry : Option ℤ)
    → at ≤ℤ now
    → Held now exp entry
    → Held now exp (unless_run_out at entry)
unless_run_out-Held now at exp none le h = h
unless_run_out-Held now at exp (some e) le h = ground arith

-- After a revocation, what was so of another id is so.
module _ (now exp : ℤ) (jti : String) where
  abbrev pub IsHeldBy : JwtAuthFilter → Type 0
  IsHeldBy f = NodupKeys f.revoked × Held now exp (lookup jti f.revoked)

  swept-IsHeldBy :
      (m : Map String ℤ) (at : ℤ)
      → at ≤ℤ now
      → NodupKeys m × Held now exp (lookup jti m)
      → NodupKeys (delete_expired at m) × Held now exp (lookup jti (delete_expired at m))
  swept-IsHeldBy m at le h = (
    delete-NodupKeys at m h.0,
    rw (lookup-delete jti at m h.0) (unless_run_out-Held now at exp (lookup jti m) le h.1),
  )

  written-IsHeldBy :
      (m : Map String ℤ) (id : String) (until : ℤ)
      → (id == jti) ≡ false
      → NodupKeys m × Held now exp (lookup jti m)
      → NodupKeys (insert id until m) × Held now exp (lookup jti (insert id until m))
  written-IsHeldBy m id until other h =
      (insert-NodupKeys id until m h.0, rw (lookup-insert id jti until m, other) h.1)

  revoke-IsHeldBy :
      (f : JwtAuthFilter) (r : Revocation)
      → IsOther now jti r
      → IsHeldBy f
      → IsHeldBy (revoke f r.at r.id r.until)
  unfolding revoke
  revoke-IsHeldBy f r other h =
      if_cases
        (λ (m : Map String ℤ).
          NodupKeys (insert r.id r.until m) × Held now exp (lookup jti (insert r.id r.until m)))
        (ltb 1024 (length f.revoked))
        (λ (full : ltb 1024 (length f.revoked) ≡ true).
          written-IsHeldBy (delete_expired r.at f.revoked) r.id r.until other.1
            (swept-IsHeldBy f.revoked r.at other.0 h))
        (λ (room : ltb 1024 (length f.revoked) ≡ false).
          written-IsHeldBy f.revoked r.id r.until other.1 h)

  pub revoke_all-IsHeldBy :
      (f : JwtAuthFilter) (rs : List Revocation)
      → All (IsOther now jti) rs
      → IsHeldBy f
      → IsHeldBy (revoke_all f rs)
  unfolding revoke_all
  revoke_all-IsHeldBy f [] others h = h
  revoke_all-IsHeldBy f (r ∷ rs) others h =
      revoke_all-IsHeldBy (revoke f r.at r.id r.until) rs others.1 (revoke-IsHeldBy f r others.0 h)

  pub own-IsHeldBy :
      (f : JwtAuthFilter) (at : ℤ) → NodupKeys f.revoked → IsHeldBy (revoke f at jti exp)
  unfolding revoke
  own-IsHeldBy f at nodup =
      if_cases
        (λ (m : Map String ℤ).
          NodupKeys (insert jti exp m) × Held now exp (lookup jti (insert jti exp m)))
        (ltb 1024 (length f.revoked))
        (λ (full : ltb 1024 (length f.revoked) ≡ true). (
          insert-NodupKeys jti exp (delete_expired at f.revoked)
              (delete-NodupKeys at f.revoked nodup),
          inl (lookup-insert_self jti exp (delete_expired at f.revoked)),
        ))
        (λ (room : ltb 1024 (length f.revoked) ≡ false).
          (insert-NodupKeys jti exp f.revoked nodup, inl (lookup-insert_self jti exp f.revoked)))

pub revoke_all-same :
    (f : JwtAuthFilter) (rs : List Revocation)
    → ((revoke_all f rs).secret ≡ f.secret) × ((revoke_all f rs).issuer ≡ f.issuer)
unfolding revoke_all revoke
revoke_all-same f [] = (refl, refl)
revoke_all-same f (r ∷ rs) = revoke_all-same (revoke f r.at r.id r.until) rs

pub runs_until-Held :
    (now exp : ℤ) (entry : Option ℤ) → Held now exp entry → runs_until entry now ≡ ltb_ℤ now exp
runs_until-Held now exp none h = ground arith
runs_until-Held now exp (some e) h = ground arith
