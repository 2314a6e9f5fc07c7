-- ===== src/Security/Whitelist/Scenarios.antt =====
-- The theorem on the white list and the black list, applied to concrete changes.
use sgate.Prelude.{◌≡◌, String, List, [], ◌∷◌}
use sgate.Security.Whitelist.{
  WhitelistBlacklist, new_whitelist_blacklist, is_in_whitelist, is_in_blacklist,
}
use sgate.Security.Whitelist.Edits.{
  Edit, adds_white, removes_black, replaces_black, edit_all, key_edits, edit_all-key_edits,
}

abbrev changes : List Edit
changes = adds_white "10.0.0.1" ∷ replaces_black ("10.0.0.2" ∷ []) ∷ removes_black "10.0.0.3" ∷ []

abbrev banned : String
banned = "10.0.0.2"

abbrev empty_lists : WhitelistBlacklist
empty_lists = new_whitelist_blacklist

edit_all-key_edits_example :
    (
      is_in_whitelist (edit_all empty_lists changes) banned,
      is_in_blacklist (edit_all empty_lists changes) banned,
    )
    ≡ key_edits banned
        (is_in_whitelist empty_lists banned, is_in_blacklist empty_lists banned)
        changes
edit_all-key_edits_example = edit_all-key_edits empty_lists changes banned
