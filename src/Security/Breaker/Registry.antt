-- ===== src/Security/Breaker/Registry.antt =====
-- internal/security/circuit.go: the manager, which hands out one breaker per name.
use sgate.Prelude.{
  ℕ, ◌≡◌, String, List, [], ◌∷◌, Option, none, some, arith, ◌≢◌, inl, inr, Option-cases,
}
use sgate.Prelude.{string_eq}
use sgate.Prelude.Int.{ℤ, pos, ◌+ℤ◌, wrap64}
use sgate.Prelude.Maps.{Map, lookup, insert, erase, lookup-insert, lookup-erase, lookup-insert_self}
use sgate.Security.Breaker.{CircuitBreaker, Call, new_circuit_breaker, run}
use text.Mathlib.TextEquality.{eq_iff}

pub record CircuitBreakerManager : Type 0 where
  pub breakers : Map String CircuitBreaker

unfoldable pub get_breaker : CircuitBreakerManager → String → Option CircuitBreaker
get_breaker m name = lookup name m.breakers

unfoldable pub get_circuit_breaker :
    CircuitBreakerManager → String → ℤ → ℤ → ℤ → ℕ → CircuitBreakerManager × CircuitBreaker
get_circuit_breaker m name failures successes timeout now = elim (lookup name m.breakers) [
  | some cb ↦ (m, cb)
  | none ↦
      let cb = new_circuit_breaker name failures successes timeout now in
      (record { breakers = insert name cb m.breakers }, cb)
]

unfoldable pub remove_breaker : CircuitBreakerManager → String → CircuitBreakerManager
remove_breaker m name = record { breakers = erase name m.breakers }

tripped_total : Map String CircuitBreaker → ℤ
unfolding wrap64
tripped_total [] = pos 0
tripped_total ((name, cb) ∷ rest) = wrap64 (cb.tripped_count +ℤ tripped_total rest)

unfoldable pub get_tripped_count : CircuitBreakerManager → ℤ
unfolding tripped_total
get_tripped_count m = tripped_total m.breakers

-- Calls on the breaker that the manager keeps under a name; its callers share that breaker.
unfoldable pub use_breaker :
    CircuitBreakerManager → String → List (ℕ × Call) → CircuitBreakerManager
use_breaker m name calls = elim (lookup name m.breakers) [
  | none ↦ m
  | some cb ↦ record { breakers = insert name (run cb calls) m.breakers }
]

-- After the first request for a name, every later one, under whatever settings and however the
-- breaker was used in between, gets the same breaker with its history, and changes nothing.
get_circuit_breaker_shared :
    (m : CircuitBreakerManager) (name : String) (f s t f' s' t' : ℤ) (now later : ℕ)
    (calls : List (ℕ × Call))
    → let first = get_circuit_breaker m name f s t now in
      let used = use_breaker first.0 name calls in
      get_circuit_breaker used name f' s' t' later ≡ (used, run first.1 calls)
unfolding get_circuit_breaker use_breaker
get_circuit_breaker_shared m name f s t f' s' t' now later calls =
    elim (Option-cases (lookup name m.breakers)) [
      | inl e ↦ ground (
        arith,
        lookup-insert_self name (new_circuit_breaker name f s t now) m.breakers,
        lookup-insert_self name (run (new_circuit_breaker name f s t now) calls)
            (insert name (new_circuit_breaker name f s t now) m.breakers),
      )
      | inr (cb, e) ↦ ground (arith, lookup-insert_self name (run cb calls) m.breakers)
    ]

-- Creating, using or removing the breaker of one name leaves every other name's breaker alone.
other_breakers_kept :
    (m : CircuitBreakerManager) (name other : String) (f s t : ℤ) (now : ℕ)
    (calls : List (ℕ × Call))
    → name ≢ other
    → (get_breaker (get_circuit_breaker m name f s t now).0 other ≡ get_breaker m other)
      × (get_breaker (use_breaker m name calls) other ≡ get_breaker m other)
      × (get_breaker (remove_breaker m name) other ≡ get_breaker m other)
unfolding get_breaker get_circuit_breaker use_breaker remove_breaker
other_breakers_kept m name other f s t now calls h = elim (Option-cases (lookup name m.breakers)) [
  | inl e ↦ ground (
    arith,
    eq_iff name other,
    lookup-insert name other (new_circuit_breaker name f s t now) m.breakers,
    lookup-erase name other m.breakers,
  )
  | inr (cb, e) ↦ ground (
    arith,
    eq_iff name other,
    lookup-insert name other (run cb calls) m.breakers,
    lookup-erase name other m.breakers,
  )
]
