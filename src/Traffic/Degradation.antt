-- ===== src/Traffic/Degradation.antt =====
-- internal/traffic/degradation.go: routes whose back ends fail too often get a canned answer for a
-- while. `reached errors size` stands for the comparison of errors / size, in float64, with the
-- rule's threshold. Times are in whole seconds, as time.Unix(last, 0) reads them, and `cool_down` is
-- in nanoseconds. The windows' counters are int, and are not taken to their end.
pub mod Window
use sgate.Prelude.{
  ℕ, zero, suc, ◌+◌, ◌-◌, ◌*◌, ◌%◌, String, Bool, true, false, List, [], ◌∷◌, Option, none, some,
  if◌then◌else◌, ltb, leb, nat_beq, get_or, set, replicate, string_eq, ◌==◌,
}
use sgate.Prelude.Int.{ℤ, pos, negsuc, ltb_ℤ, sub_ℕ}
use sgate.Prelude.Bytes.{Bytes}
use sgate.Prelude.Maps.{Map, lookup, insert}
use sgate.Types.Filters.{FilterContext}

pub record DegradeRule : Type 0 where
  pub window_size : ℕ
  pub recent_errors : List Bool
  pub position : ℕ
  pub count : ℕ
  pub error_count : ℕ
  pub fallback_data : Bytes
  pub degraded : Bool
  pub cool_down : ℤ
  pub last_degrade : ℕ

-- A window of no size is one of 100. (`make` refuses a negative size.)
unfoldable pub new_degradation_rule : ℕ → Bytes → ℤ → DegradeRule
new_degradation_rule window_size fallback_data cool_down =
    let size = if nat_beq window_size 0 then 100 else window_size in
    record {
      window_size = size;
      recent_errors = replicate size false;
      position = 0;
      count = 0;
      error_count = 0;
      fallback_data = fallback_data;
      degraded = false;
      cool_down = cool_down;
      last_degrade = 0;
    }

-- The window's part of recordResult. `error_count` is at least 1 where it goes down (Window).
unfoldable pub slide : DegradeRule → Bool → DegradeRule
slide r is_error =
    let at = r.position % r.window_size in
    let old = get_or r.recent_errors at false in
    let kept =
      if leb r.window_size r.count
      then (if old then r.error_count - 1 else r.error_count)
      else r.error_count in
    record r {
      recent_errors = set r.recent_errors at is_error;
      position = r.position + 1;
      count = r.count + 1;
      error_count = if is_error then kept + 1 else kept;
    }

-- recordResult; the result says whether the rule was triggered.
unfoldable pub record_result : (ℕ → ℕ → Bool) → DegradeRule → Bool → ℕ → DegradeRule × Bool
record_result reached r is_error now =
    let slid = slide r is_error in
    if leb slid.window_size slid.count
    then (if reached slid.error_count slid.window_size
        then (if slid.degraded
            then (slid, false)
            else (record slid { degraded = true; last_degrade = now }, true))
        else (slid, false))
    else (slid, false)

pub record DegradationManager : Type 0 where
  pub rules : Map String DegradeRule
  pub enabled : Bool
  pub triggered_count : ℕ

unfoldable pub record_route_result :
    (ℕ → ℕ → Bool) → DegradationManager → String → Bool → ℕ → DegradationManager
record_route_result reached m route is_error now = elim (lookup route m.rules) [
  | none ↦ m
  | some r ↦
      let (r', triggered) = record_result reached r is_error now in
      record m {
        rules = insert route r' m.rules;
        triggered_count = if triggered then m.triggered_count + 1 else m.triggered_count;
      }
]

-- Process: within the cool-down of a degraded route the message's data are replaced, and a
-- cool-down that is over ends the degradation. `now` is in nanoseconds.
unfoldable pub process :
    DegradationManager → FilterContext → ℕ → DegradationManager × FilterContext × Bool
process m c now =
    if m.enabled
    then (elim (lookup c.route m.rules) [
      | none ↦ (m, c, true)
      | some r ↦
          if r.degraded
          then (if ltb_ℤ (sub_ℕ now (r.last_degrade * 1000000000)) r.cool_down
              then (
                m,
                record c {
                  data_bytes = r.fallback_data;
                  metadata = insert "degraded" "true" c.metadata;
                },
                true,
              )
              else (
                record m { rules = insert c.route (record r { degraded = false }) m.rules },
                c,
                true,
              ))
          else (m, c, true)
    ])
    else (m, c, true)

unfoldable pub add_rule : DegradationManager → String → ℕ → Bytes → ℤ → DegradationManager
add_rule m route window_size fallback_data cool_down = record m {
  rules = insert route (new_degradation_rule window_size fallback_data cool_down) m.rules;
}
