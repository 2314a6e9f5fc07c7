-- ===== src/Types/Filters.antt =====
-- internal/types/types.go: the chain of filters that a message passes, and
-- internal/gateway/filter.go: its four phases before a message is forwarded.
-- A filter works on a state of its own, `S`, which stands for all that filters keep, and on the
-- message's context. Filters are not changed while a message passes.
pub mod Order
pub mod Abort
pub mod Passes
use sgate.Prelude.{
  ℕ, String, Bool, true, false, List, [], ◌∷◌, ◌++◌, if◌then◌else◌, string_eq, ◌==◌, Option, none,
  some, leb, nat_beq,
}
use sgate.Prelude.Int.{ℤ, leb_ℤ}
use sgate.Prelude.Bytes.{Bytes}
use sgate.Prelude.Maps.{Map}
use Prim.Native.String.{◌++◌ as str_append}

pub data FilterPhase : Type 0 where
  phase_pre_auth phase_auth phase_post_auth phase_forward : FilterPhase

unfoldable pub phase_beq : FilterPhase → FilterPhase → Bool
phase_beq phase_pre_auth phase_pre_auth = true
phase_beq phase_pre_auth phase_auth = false
phase_beq phase_pre_auth phase_post_auth = false
phase_beq phase_pre_auth phase_forward = false
phase_beq phase_auth phase_pre_auth = false
phase_beq phase_auth phase_auth = true
phase_beq phase_auth phase_post_auth = false
phase_beq phase_auth phase_forward = false
phase_beq phase_post_auth phase_pre_auth = false
phase_beq phase_post_auth phase_auth = false
phase_beq phase_post_auth phase_post_auth = true
phase_beq phase_post_auth phase_forward = false
phase_beq phase_forward phase_pre_auth = false
phase_beq phase_forward phase_auth = false
phase_beq phase_forward phase_post_auth = false
phase_beq phase_forward phase_forward = true

pub record FilterContext : Type 0 where
  pub connection_id : String
  pub remote_ip : String
  pub route : String
  pub cmd : ℤ
  pub data_bytes : Bytes
  pub user_uuid : String
  pub metadata : Map String String
  pub abort : Bool
  pub drop_reason : String
  pub mirrored : Bool

-- What Process returns: (true, nil), (false, nil), or an error with its text.
pub data Verdict : Type 0 where
  continues stops : Verdict
  fails : String → Verdict

pub record Filter (S : Type 0) : Type 0 where
  pub name : String
  pub phase : FilterPhase
  pub priority : ℤ
  pub process : S → FilterContext → S × FilterContext × Verdict

pub record FilterChain (S : Type 0) : Type 0 where
  pub filters : List (Filter S)
  pub enabled : Bool

abbrev pub aborted : FilterContext → FilterContext
aborted c = record c { abort = true }

abbrev pub all_phases : List FilterPhase
all_phases = phase_pre_auth ∷ phase_auth ∷ phase_post_auth ∷ phase_forward ∷ []

module _ {S : Type 0} where
  abbrev pub new_filter_chain : FilterChain S
  new_filter_chain = record { filters = []; enabled = true }

  -- slices.SortStableFunc by priority, as an insertion sort from the end: a filter goes before those
  -- of its own priority that followed it.
  unfoldable pub place : Filter S → List (Filter S) → List (Filter S)
  place f [] = f ∷ []
  place f (g ∷ gs) = if leb_ℤ f.priority g.priority then f ∷ g ∷ gs else g ∷ place f gs

  unfoldable pub sort_filters : List (Filter S) → List (Filter S)
  sort_filters [] = []
  sort_filters (f ∷ fs) = place f (sort_filters fs)

  unfoldable pub add_filter : FilterChain S → Filter S → FilterChain S
  add_filter fc f = record fc { filters = sort_filters (fc.filters ++ (f ∷ [])) }

  abbrev pub with_reason : Filter S → String → FilterContext → FilterContext
  with_reason f err c =
      if c.drop_reason == ""
      then record c { drop_reason = str_append f.name (str_append ": " err) }
      else c

  unfoldable pub run_filters :
      FilterPhase → List (Filter S) → S → FilterContext → S × FilterContext × Bool
  run_filters phase [] s c = (s, c, true)
  run_filters phase (f ∷ fs) s c =
      let (s', c', verdict) = f.process s c in
      let rest = run_filters phase fs s' c' in
      let skipped = run_filters phase fs s c in
      if phase_beq f.phase phase
      then (elim verdict [
        | continues ↦ rest
        | stops ↦ (s', aborted c', false)
        | fails err ↦ (s', aborted (with_reason f err c'), false)
      ])
      else skipped

  unfoldable pub run_by_phase :
      FilterChain S → FilterPhase → S → FilterContext → S × FilterContext × Bool
  run_by_phase fc phase s c = if fc.enabled then run_filters phase fc.filters s c else (s, c, true)

  -- The loop of applyForwardFilters: it also stops at a context that says Abort.
  unfoldable pub run_phases :
      FilterChain S → List FilterPhase → S → FilterContext → S × FilterContext × Bool
  run_phases fc [] s c = (s, c, true)
  run_phases fc (phase ∷ phases) s c =
      let (s', c', passed) = run_by_phase fc phase s c in
      let rest = run_phases fc phases s' c' in
      if passed then (if c'.abort then (s', c', false) else rest) else (s', c', false)
