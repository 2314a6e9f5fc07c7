-- ===== src/Types/Scenarios.antt =====
-- The theorems on internal/types, applied to concrete filters.
use sgate.Prelude.{ℕ, refl, ◌≡◌, true, false, not, [], ◌∷◌}
use sgate.Prelude.Int.{pos}
use sgate.Types.Filters.{
  Filter, FilterChain, FilterContext, phase_pre_auth, phase_auth, all_phases, continues, fails,
  new_filter_chain, run_phases,
}
use sgate.Types.Filters.Order.{Ordered, at_priority, add_filters, add_filters-order}
use sgate.Types.Filters.Abort.{run_phases-abort}
use sgate.Types.Filters.Passes.{all_phases_continue, run_phases-continues}

abbrev whitelist : Filter ℕ
whitelist = record {
  name = "whitelist";
  phase = phase_pre_auth;
  priority = pos 10;
  process = λ n c. (n, c, continues);
}

abbrev token : Filter ℕ
token = record {
  name = "jwt";
  phase = phase_auth;
  priority = pos 10;
  process = λ n c. (n, c, fails "no token");
}

abbrev waf : Filter ℕ
waf = record {
  name = "waf";
  phase = phase_pre_auth;
  priority = pos 5;
  process = λ n c. (n, c, continues);
}

abbrev blank : FilterContext
blank = record {
  connection_id = "c1";
  remote_ip = "10.0.0.1";
  route = "cmd_1";
  cmd = pos 1;
  data_bytes = [];
  user_uuid = "";
  metadata = [];
  abort = false;
  drop_reason = "";
  mirrored = false;
}

add_filters-order_example :
    Ordered (add_filters new_filter_chain (whitelist ∷ token ∷ waf ∷ [])).filters
    × (at_priority (pos 10) (add_filters new_filter_chain (whitelist ∷ token ∷ waf ∷ [])).filters
        ≡ at_priority (pos 10) (whitelist ∷ token ∷ waf ∷ []))
add_filters-order_example = add_filters-order (pos 10) (whitelist ∷ token ∷ waf ∷ [])

abbrev chain : FilterChain ℕ
chain = record { filters = waf ∷ whitelist ∷ token ∷ []; enabled = true }

run_phases-abort_example :
    (run_phases chain all_phases 0 blank).1.abort ≡ not (run_phases chain all_phases 0 blank).2
run_phases-abort_example = run_phases-abort chain 0 blank

run_phases-continues_example :
    (run_phases chain all_phases 0 blank).2 ≡ all_phases_continue chain.filters all_phases 0 blank
run_phases-continues_example = run_phases-continues chain all_phases 0 blank refl
