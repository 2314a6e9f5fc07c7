-- ===== src/Traffic/Scenarios.antt =====
-- The theorems on internal/traffic, applied to concrete rules.
use sgate.Prelude.{ℕ, ◌*◌, Bool, true, false, List, [], ◌∷◌, leb}
use sgate.Prelude.Int.{pos}
use sgate.Traffic.Degradation.{DegradeRule, new_degradation_rule}
use sgate.Traffic.Degradation.Window.{IsWindow, new_rule-IsWindow, record_all, record_all-IsWindow}

-- Half of the results.
abbrev half_reached : ℕ → ℕ → Bool
half_reached errors size = leb size (errors * 2)

abbrev small_rule : DegradeRule
small_rule = new_degradation_rule 3 [] (pos 1000)

abbrev results : List (Bool × ℕ)
results = (true, 1) ∷ (false, 2) ∷ (true, 3) ∷ (false, 4) ∷ (true, 5) ∷ []

record_all-IsWindow_example : IsWindow (record_all half_reached small_rule results)
record_all-IsWindow_example =
    record_all-IsWindow half_reached small_rule results (new_rule-IsWindow 3 [] (pos 1000))
