-- ===== src/Security/Waf.antt =====
-- internal/security/waf.go: the web application firewall. A compiled regular expression is a test
-- of the payload; the payload is taken as bytes.
use sgate.Prelude.{
  ℕ, suc, ◌*◌, ◌/◌, String, Bool, true, false, not, ◌&&◌, ◌||◌, List, [], ◌∷◌, if◌then◌else◌, leb,
  ltb, nat_beq, length, take, ◌==◌, string_eq,
}
use sgate.Prelude.Int.{ℤ, pos, ltb_ℤ}
use sgate.Prelude.Bytes.{Bytes}

pub record Waf : Type 0 where
  pub enabled : Bool
  pub sql_patterns : List (Bytes → Bool)
  pub xss_patterns : List (Bytes → Bool)
  pub max_payload_size : ℤ
  pub block_action : String
  pub blocked_count : ℕ

abbrev pub printable : ℕ → Bool
printable b =
    (leb 32 b && leb b 126) || (nat_beq b 10 || (nat_beq b 13 || (nat_beq b 9 || leb 128 b)))

unfoldable pub count_printable : Bytes → ℕ
count_printable [] = 0
count_printable (b ∷ bs) = let rest = count_printable bs in if printable b then suc rest else rest

-- More than 80 of 100 among the first 100 bytes can be printed.
unfoldable pub is_likely_text : Bytes → Bool
is_likely_text [] = false
is_likely_text (b ∷ bs) =
    let head = take 100 (b ∷ bs) in ltb 80 (count_printable head * 100 / length head)

unfoldable pub any_match : List (Bytes → Bool) → Bytes → Bool
any_match [] payload = false
any_match (p ∷ ps) payload = let rest = any_match ps payload in if p payload then true else rest

abbrev pub is_empty : Bytes → Bool
is_empty [] = true
is_empty (b ∷ bs) = false

abbrev pub blocked : Waf → Waf
blocked w = record w { blocked_count = suc w.blocked_count }

-- The result is true for a payload that is safe.
unfoldable pub inspect : Waf → Bytes → Waf × Bool
inspect w payload =
    if not w.enabled || is_empty payload
    then (w, true)
    else if ltb_ℤ (pos 0) w.max_payload_size && ltb_ℤ w.max_payload_size (pos (length payload))
    then (blocked w, false)
    else if is_likely_text payload
    then (if any_match w.sql_patterns payload
        then (blocked w, false)
        else if any_match w.xss_patterns payload
        then (blocked w, false)
        else (w, true))
    else (w, true)

unfoldable pub should_block : Waf → Bool
should_block w = w.block_action == "drop"
