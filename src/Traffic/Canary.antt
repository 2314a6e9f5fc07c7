-- ===== src/Traffic/Canary.antt =====
-- internal/traffic/canary.go: the filter that sends a share of the messages to another route.
-- `fnv` stands for uhash.FNV1a32 (streasure/util). The registration under a name is not modelled.
use sgate.Prelude.{
  ℕ, suc, ◌%◌, ◌≡◌, String, Bool, true, false, not, ◌&&◌, List, [], ◌∷◌, Option, none, some,
  if◌then◌else◌, ◌==◌, string_eq, arith,
}
use sgate.Prelude.Int.{ℤ, pos, ltb_ℤ, ◌≤ℤ◌}
use sgate.Prelude.Maps.{Map, lookup, insert}
use sgate.Types.Filters.{FilterContext, Verdict, continues}

pub record CanaryConfig : Type 0 where
  pub cfg_percent : ℤ
  pub cfg_headers : Map String String
  pub cfg_user_ids : List String
  pub cfg_target_route : String

pub record CanaryFilter : Type 0 where
  pub percent : ℤ
  pub headers : Map String String
  pub user_ids : List String
  pub target_route : String
  pub hit_count : ℕ

unfoldable pub new_canary_filter : CanaryConfig → CanaryFilter
new_canary_filter cfg = record {
  percent = cfg.cfg_percent;
  headers = cfg.cfg_headers;
  user_ids = cfg.cfg_user_ids;
  target_route = cfg.cfg_target_route;
  hit_count = 0;
}

unfoldable pub update_config : CanaryFilter → CanaryConfig → CanaryFilter
update_config f cfg = record f {
  percent = cfg.cfg_percent;
  headers = cfg.cfg_headers;
  user_ids = cfg.cfg_user_ids;
  target_route = cfg.cfg_target_route;
}

unfoldable pub is_canary_user : List String → String → Bool
is_canary_user [] user = false
is_canary_user (u ∷ us) user = let rest = is_canary_user us user in if u == user then true else rest

abbrev pub value_of : Option String → String
value_of none = ""
value_of (some v) = v

-- Whether some header has its value in the metadata; one that is missing reads as empty.
unfoldable pub any_header : Map String String → Map String String → Bool
any_header [] metadata = false
any_header ((k, v) ∷ headers) metadata =
    let rest = any_header headers metadata in
    if value_of (lookup k metadata) == v then true else rest

module _ (fnv : String → ℕ) where
  unfoldable pub hits : CanaryFilter → FilterContext → Bool
  hits f fc =
      if not (fc.user_uuid == "") && is_canary_user f.user_ids fc.user_uuid
      then true
      else if any_header f.headers fc.metadata
      then true
      else ltb_ℤ (pos 0) f.percent && ltb_ℤ (pos (fnv fc.connection_id % 100)) f.percent

  unfoldable pub process : CanaryFilter → FilterContext → CanaryFilter × FilterContext × Verdict
  process f fc =
      let marked = record fc {
        metadata = insert "canary" "true" fc.metadata;
        route = if f.target_route == "" then fc.route else f.target_route;
      } in
      if hits f fc
      then (record f { hit_count = suc f.hit_count }, marked, continues)
      else (f, fc, continues)

  -- A greater share takes in all that a smaller one does.
  hits_monotone :
      (f : CanaryFilter) (fc : FilterContext) (more : ℤ)
      → f.percent ≤ℤ more
      → hits f fc ≡ true
      → hits (record f { percent = more }) fc ≡ true
  unfolding hits
  hits_monotone f fc more le h = ground arith
