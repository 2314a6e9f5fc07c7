-- ===== src/Types/Filters/Passes.antt =====
-- Which messages pass a phase of filters, and all of them (internal/types/types.go and
-- internal/gateway/filter.go), beside what each filter by itself says of the message.
use sgate.Prelude.{
  ◌≡◌, refl, Bool, true, false, List, [], ◌∷◌, ◌&&◌, not, if◌then◌else◌, Bool-cases, inl, inr,
}
use sgate.Types.Filters.{
  Filter, FilterPhase, FilterContext, FilterChain, Verdict, continues, stops, fails, phase_beq,
  run_filters, run_by_phase, run_phases,
}
use sgate.Types.Filters.Abort.{verdict_cases}

abbrev is_continue : Verdict → Bool
is_continue continues = true
is_continue stops = false
is_continue (fails e) = false

abbrev all_continue : List Verdict → Bool
all_continue [] = true
all_continue (v ∷ vs) = is_continue v && all_continue vs

module _ {S : Type 0} where
  -- The filters of a phase, in the order of the chain.
  unfoldable pub of_phase : FilterPhase → List (Filter S) → List (Filter S)
  of_phase phase [] = []
  of_phase phase (f ∷ fs) =
      let rest = of_phase phase fs in if phase_beq f.phase phase then f ∷ rest else rest

  -- What filters say and leave if each is run on what the one before it left, whatever that said.
  unfoldable pub verdicts : List (Filter S) → S → FilterContext → List Verdict
  verdicts [] s c = []
  verdicts (f ∷ fs) s c = let (s', c', v) = f.process s c in v ∷ verdicts fs s' c'

  unfoldable pub all_run : List (Filter S) → S → FilterContext → S × FilterContext
  all_run [] s c = (s, c)
  all_run (f ∷ fs) s c = let (s', c', v) = f.process s c in all_run fs s' c'

  -- A result that passes, with what its filters left; or one that does not, with Abort.
  unfoldable pub PhaseResult : Bool → S × FilterContext × Bool → S × FilterContext → Type 0
  PhaseResult true r left = (r.2 ≡ true) × ((r.0 ≡ left.0) × (r.1 ≡ left.1))
  PhaseResult false r left = (r.2 ≡ false) × (r.1.abort ≡ true)

  run_filters-PhaseResult :
      (phase : FilterPhase) (fs : List (Filter S)) (s : S) (c : FilterContext)
      → PhaseResult
          (all_continue (verdicts (of_phase phase fs) s c))
          (run_filters phase fs s c)
          (all_run (of_phase phase fs) s c)
  unfolding run_filters of_phase verdicts all_run PhaseResult
  run_filters-PhaseResult phase [] s c = (refl, (refl, refl))
  run_filters-PhaseResult phase (f ∷ fs) s c = elim (Bool-cases (phase_beq f.phase phase)) [
    | inl here ↦ elim (verdict_cases (f.process s c).2) [
      | inl e ↦ rw here (
          rw (e, run_filters)
            (run_filters-PhaseResult phase fs (f.process s c).0 (f.process s c).1))
      | inr (inl e) ↦ rw here (rw (e, run_filters) (refl, refl))
      | inr (inr (err, e)) ↦ rw here (rw (e, run_filters) (refl, refl))
    ]
    | inr other ↦ rw other (run_filters-PhaseResult phase fs s c)
  ]

  -- Whether the filters of each phase all let the message continue, with no Abort after a phase.
  unfoldable pub all_phases_continue : List (Filter S) → List FilterPhase → S → FilterContext → Bool
  all_phases_continue fs [] s c = true
  all_phases_continue fs (phase ∷ phases) s c =
      let left = all_run (of_phase phase fs) s c in
      all_continue (verdicts (of_phase phase fs) s c)
      && (not left.1.abort && all_phases_continue fs phases left.0 left.1)

  unless_marked :
      (left : S × FilterContext) (marked : Bool) (r : S × FilterContext × Bool) (ok : Bool)
      → r.2 ≡ ok
      → (if marked then (left.0, left.1, false) else r).2 ≡ (not marked && ok)
  unless_marked left true r ok h = refl
  unless_marked left false r ok h = h

  phase_then :
      (r : S × FilterContext × Bool) (left : S × FilterContext) (b : Bool)
      (rest : S → FilterContext → S × FilterContext × Bool) (ok : S → FilterContext → Bool)
      → PhaseResult b r left
      → ((s : S) (c : FilterContext) → (rest s c).2 ≡ ok s c)
      → (if r.2
          then (if r.1.abort then (r.0, r.1, false) else rest r.0 r.1)
          else (r.0, r.1, false)).2
        ≡ (b && (not left.1.abort && ok left.0 left.1))
  unfolding PhaseResult
  phase_then r left false rest ok h later = rw h.0 refl
  phase_then r left true rest ok h later =
      rw (h.0, h.1.0, h.1.1)
        (unless_marked left left.1.abort (rest left.0 left.1) (ok left.0 left.1)
          (later left.0 left.1))

  -- A chain that is enabled lets a message through phases exactly if in each of them every filter of
  -- the phase, run in the chain's order on what the one before it left, lets it continue, and the
  -- context that the phase leaves does not say Abort.
  pub run_phases-continues :
      (fc : FilterChain S) (phases : List FilterPhase) (s : S) (c : FilterContext)
      → fc.enabled ≡ true
      → (run_phases fc phases s c).2 ≡ all_phases_continue fc.filters phases s c
  unfolding run_phases run_by_phase all_phases_continue
  run_phases-continues fc [] s c on = refl
  run_phases-continues fc (phase ∷ phases) s c on =
      rw (on, run_phases, run_by_phase)
        (phase_then (run_filters phase fc.filters s c) (all_run (of_phase phase fc.filters) s c)
          (all_continue (verdicts (of_phase phase fc.filters) s c)) (run_phases fc phases)
          (all_phases_continue fc.filters phases) (run_filters-PhaseResult phase fc.filters s c)
          (λ (s' : S) (c' : FilterContext). run_phases-continues fc phases s' c' on))
