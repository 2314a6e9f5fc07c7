-- ===== src/Security/Whitelist.antt =====
-- internal/security/whitelist.go: the white list and the black list. A set is a map to `Unit`.
pub mod Edits
mod Scenarios
use sgate.Prelude.{
  ℕ, String, Bool, true, false, List, [], ◌∷◌, map, Option, none, some, length, nat_beq, string_eq,
}
use sgate.Prelude.Maps.{Map, lookup, insert, erase}

pub record WhitelistBlacklist : Type 0 where
  pub whitelist : Map String Unit
  pub blacklist : Map String Unit

abbrev pub new_whitelist_blacklist : WhitelistBlacklist
new_whitelist_blacklist = record { whitelist = []; blacklist = [] }

abbrev pub is_some : {V : Type 0} → Option V → Bool
is_some none = false
is_some (some u) = true

unfoldable pub is_in_whitelist : WhitelistBlacklist → String → Bool
is_in_whitelist wbl key = is_some (lookup key wbl.whitelist)

unfoldable pub is_in_blacklist : WhitelistBlacklist → String → Bool
is_in_blacklist wbl key = is_some (lookup key wbl.blacklist)

unfoldable pub add_to_whitelist : WhitelistBlacklist → String → WhitelistBlacklist
add_to_whitelist wbl key = record wbl { whitelist = insert key tt wbl.whitelist }

unfoldable pub remove_from_whitelist : WhitelistBlacklist → String → WhitelistBlacklist
remove_from_whitelist wbl key = record wbl { whitelist = erase key wbl.whitelist }

unfoldable pub add_to_blacklist : WhitelistBlacklist → String → WhitelistBlacklist
add_to_blacklist wbl key = record wbl { blacklist = insert key tt wbl.blacklist }

unfoldable pub remove_from_blacklist : WhitelistBlacklist → String → WhitelistBlacklist
remove_from_blacklist wbl key = record wbl { blacklist = erase key wbl.blacklist }

-- The loop that fills a new map.
unfoldable pub fill : Map String Unit → List String → Map String Unit
fill m [] = m
fill m (key ∷ keys) = fill (insert key tt m) keys

unfoldable pub replace_whitelist : WhitelistBlacklist → List String → WhitelistBlacklist
replace_whitelist wbl keys = record wbl { whitelist = fill [] keys }

unfoldable pub replace_blacklist : WhitelistBlacklist → List String → WhitelistBlacklist
replace_blacklist wbl keys = record wbl { blacklist = fill [] keys }

unfoldable pub whitelist_empty : WhitelistBlacklist → Bool
whitelist_empty wbl = nat_beq (length wbl.whitelist) 0

abbrev keys_of : Map String Unit → List String
keys_of = map (λ (kv : String × Unit). kv.0)

unfoldable pub get_whitelist : WhitelistBlacklist → List String
get_whitelist wbl = keys_of wbl.whitelist

unfoldable pub get_blacklist : WhitelistBlacklist → List String
get_blacklist wbl = keys_of wbl.blacklist
