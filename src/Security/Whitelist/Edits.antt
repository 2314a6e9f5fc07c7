-- ===== src/Security/Whitelist/Edits.antt =====
-- The lists after any changes, one key at a time (internal/security/whitelist.go).
use sgate.Prelude.{
  ◌≡◌, refl, String, Bool, false, ◌||◌, List, [], ◌∷◌, if◌then◌else◌, ◌==◌, string_eq, arith,
}
use sgate.Prelude.Maps.{Map, lookup, insert, lookup-insert, lookup-erase}
use sgate.Security.Whitelist.{
  WhitelistBlacklist, is_some, is_in_whitelist, is_in_blacklist, add_to_whitelist,
  remove_from_whitelist, add_to_blacklist, remove_from_blacklist, fill, replace_whitelist,
  replace_blacklist,
}

pub data Edit : Type 0 where
  adds_white removes_white adds_black removes_black : String → Edit
  replaces_white replaces_black : List String → Edit

unfoldable pub edit : WhitelistBlacklist → Edit → WhitelistBlacklist
edit wbl (adds_white key) = add_to_whitelist wbl key
edit wbl (removes_white key) = remove_from_whitelist wbl key
edit wbl (adds_black key) = add_to_blacklist wbl key
edit wbl (removes_black key) = remove_from_blacklist wbl key
edit wbl (replaces_white keys) = replace_whitelist wbl keys
edit wbl (replaces_black keys) = replace_blacklist wbl keys

unfoldable pub edit_all : WhitelistBlacklist → List Edit → WhitelistBlacklist
edit_all wbl [] = wbl
edit_all wbl (e ∷ es) = edit_all (edit wbl e) es

unfoldable pub among : String → List String → Bool
among key [] = false
among key (k ∷ ks) = (k == key) || among key ks

-- One key's place in the two lists, and what a change does to it.
unfoldable pub key_edit : String → Bool × Bool → Edit → Bool × Bool
key_edit key (white, black) (adds_white k) = ((k == key) || white, black)
key_edit key (white, black) (removes_white k) = (if k == key then false else white, black)
key_edit key (white, black) (adds_black k) = (white, (k == key) || black)
key_edit key (white, black) (removes_black k) = (white, if k == key then false else black)
key_edit key (white, black) (replaces_white ks) = (among key ks, black)
key_edit key (white, black) (replaces_black ks) = (white, among key ks)

unfoldable pub key_edits : String → Bool × Bool → List Edit → Bool × Bool
key_edits key place [] = place
key_edits key place (e ∷ es) = key_edits key (key_edit key place e) es

abbrev pub place_of : WhitelistBlacklist → String → Bool × Bool
place_of wbl key = (is_in_whitelist wbl key, is_in_blacklist wbl key)

filled :
    (m : Map String Unit) (keys : List String) (key : String)
    → is_some (lookup key (fill m keys)) ≡ (among key keys || is_some (lookup key m))
unfolding fill among
filled m [] key = refl
filled m (k ∷ ks) key = ground (arith, filled (insert k tt m) ks key, lookup-insert k key tt m)

edit-key :
    (wbl : WhitelistBlacklist) (e : Edit) (key : String)
    → place_of (edit wbl e) key ≡ key_edit key (place_of wbl key) e
unfolding edit key_edit is_in_whitelist is_in_blacklist add_to_whitelist remove_from_whitelist
    add_to_blacklist remove_from_blacklist replace_whitelist replace_blacklist
edit-key wbl (adds_white k) key = ground (arith, lookup-insert k key tt wbl.whitelist)
edit-key wbl (removes_white k) key = ground (arith, lookup-erase k key wbl.whitelist)
edit-key wbl (adds_black k) key = ground (arith, lookup-insert k key tt wbl.blacklist)
edit-key wbl (removes_black k) key = ground (arith, lookup-erase k key wbl.blacklist)
edit-key wbl (replaces_white ks) key = unfold lookup in ground (arith, filled [] ks key)
edit-key wbl (replaces_black ks) key = unfold lookup in ground (arith, filled [] ks key)

-- After any additions, removals and replacements, a key is in a list exactly if the changes of that
-- list, taken one after the other for that key alone, leave it there: no other key and no change of
-- the other list matters.
pub edit_all-key_edits :
    (wbl : WhitelistBlacklist) (es : List Edit) (key : String)
    → (is_in_whitelist (edit_all wbl es) key, is_in_blacklist (edit_all wbl es) key)
      ≡ key_edits key (is_in_whitelist wbl key, is_in_blacklist wbl key) es
unfolding edit_all key_edits
edit_all-key_edits wbl [] key = refl
edit_all-key_edits wbl (e ∷ es) key =
    ground (arith, edit_all-key_edits (edit wbl e) es key, edit-key wbl e key)
