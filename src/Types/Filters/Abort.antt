-- ===== src/Types/Filters/Abort.antt =====
-- What a context's Abort says after the phases of filters (internal/types/types.go and
-- internal/gateway/filter.go).
use sgate.Prelude.{
  ◌≡◌, ◌⊎◌, refl, String, true, false, List, [], ◌∷◌, arith, Bool-cases, inl, inr, not,
}
use sgate.Types.Filters.{
  Filter, FilterPhase, FilterContext, FilterChain, Verdict, continues, stops, fails, phase_beq,
  run_filters, run_by_phase, run_phases, all_phases, phase_pre_auth, phase_auth, phase_post_auth,
  phase_forward,
}

pub verdict_cases : (v : Verdict) → (v ≡ continues) ⊎ ((v ≡ stops) ⊎ ((e : String) × (v ≡ fails e)))
verdict_cases continues = inl refl
verdict_cases stops = inr (inl refl)
verdict_cases (fails e) = inr (inr (e, refl))

module _ {S : Type 0} where
  stopped-abort :
      (phase : FilterPhase) (fs : List (Filter S)) (s : S) (c : FilterContext)
      → (run_filters phase fs s c).2 ≡ false
      → (run_filters phase fs s c).1.abort ≡ true
  unfolding run_filters
  stopped-abort phase [] s c = λ h. ground (arith, h)
  stopped-abort phase (f ∷ fs) s c = elim (Bool-cases (phase_beq f.phase phase)) [
    | inl here ↦ elim (verdict_cases (f.process s c).2) [
      | inl e ↦
          rw here (rw (e, run_filters) (stopped-abort phase fs (f.process s c).0 (f.process s c).1))
      | inr (inl e) ↦ rw here (rw (e, run_filters) (λ h. refl))
      | inr (inr (err, e)) ↦ rw here (rw (e, run_filters) (λ h. refl))
    ]
    | inr other ↦ rw other (stopped-abort phase fs s c)
  ]

  phase_stopped :
      (fc : FilterChain S) (phase : FilterPhase) (s : S) (c : FilterContext)
      → (run_by_phase fc phase s c).2 ≡ false
      → (run_by_phase fc phase s c).1.abort ≡ true
  unfolding run_by_phase
  phase_stopped fc phase s c = elim (Bool-cases fc.enabled) [
    | inl on ↦ rw on (stopped-abort phase fc.filters s c)
    | inr off ↦ rw off (λ h. ground (arith, h))
  ]

  first_phase :
      (fc : FilterChain S) (phase : FilterPhase) (phases : List FilterPhase) (s : S)
      (c : FilterContext)
      → ((s' : S) (c' : FilterContext)
          → c'.abort ≡ false
          → (run_phases fc phases s' c').1.abort ≡ not (run_phases fc phases s' c').2)
      → (run_phases fc (phase ∷ phases) s c).1.abort ≡ not (run_phases fc (phase ∷ phases) s c).2
  unfolding run_phases
  first_phase fc phase phases s c later = elim (Bool-cases (run_by_phase fc phase s c).2) [
    | inr stopped ↦ rw stopped (phase_stopped fc phase s c stopped)
    | inl passed ↦ elim (Bool-cases (run_by_phase fc phase s c).1.abort) [
      | inl marked ↦ rw (passed, marked) marked
      | inr clean ↦
          rw passed
            (rw clean (later (run_by_phase fc phase s c).0 (run_by_phase fc phase s c).1 clean))
    ]
  ]

  later_phases :
      (fc : FilterChain S) (phases : List FilterPhase) (s : S) (c : FilterContext)
      → c.abort ≡ false
      → (run_phases fc phases s c).1.abort ≡ not (run_phases fc phases s c).2
  later_phases fc [] s c clean = unfold run_phases in clean
  later_phases fc (phase ∷ phases) s c clean =
      first_phase fc phase phases s c (later_phases fc phases)

-- Whatever the filters do, a message passes the four phases exactly if its context does not say
-- Abort at the end.
pub run_phases-abort :
    {S : Type 0} (fc : FilterChain S) (s : S) (c : FilterContext)
    → (run_phases fc all_phases s c).1.abort ≡ not (run_phases fc all_phases s c).2
run_phases-abort fc s c =
    first_phase fc phase_pre_auth (phase_auth ∷ phase_post_auth ∷ phase_forward ∷ []) s c
      (later_phases fc (phase_auth ∷ phase_post_auth ∷ phase_forward ∷ []))
