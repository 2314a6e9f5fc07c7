-- ===== src/Traffic/Degradation/Window.antt =====
-- The sliding window of a degradation rule, and the errors in it (internal/traffic/degradation.go).
use sgate.Prelude.{
  ℕ, zero, suc, ◌+◌, ◌-◌, ◌%◌, ◌<◌, ◌≤◌, ◌≡◌, refl, sym, ap, ◌∙◌, Bool, true, false, List, [], ◌∷◌,
  if◌then◌else◌, leb, nat_beq, get_or, set, replicate, length, arith, Bool-cases, inl, inr,
}
use sgate.Prelude.{length-set, length-replicate, leb→le}
use sgate.Prelude.Int.{ℤ}
use sgate.Prelude.Bytes.{Bytes}
use native.Mathlib.Nat.{mod-lt, mod-eq_of_lt}
use sgate.Traffic.Degradation.{DegradeRule, new_degradation_rule, slide, record_result}

unfoldable pub errors : List Bool → ℕ
errors [] = 0
errors (true ∷ rs) = suc (errors rs)
errors (false ∷ rs) = errors rs

abbrev pub one_if : Bool → ℕ
one_if true = 1
one_if false = 0

errors-set :
    (rs : List Bool) (i : ℕ) (b : Bool)
    → i < length rs
    → errors (set rs i b) + one_if (get_or rs i false) ≡ errors rs + one_if b
unfolding errors
errors-set [] i b h = absurd (omega arith)
errors-set (true ∷ rs) zero b h = ground arith
errors-set (false ∷ rs) zero b h = ground arith
errors-set (true ∷ rs) (suc i) b h = ground (arith, errors-set rs i b)
errors-set (false ∷ rs) (suc i) b h = ground (arith, errors-set rs i b)

errors-replicate : (n : ℕ) → errors (replicate n false) ≡ 0
unfolding errors
errors-replicate zero = refl
errors-replicate (suc n) = errors-replicate n

-- The window has its size, its errors are counted, and as long as it is not full its next place and
-- those behind it hold no error.
pub record IsWindow (r : DegradeRule) : Type 0 where
  pub sized : length r.recent_errors ≡ r.window_size
  pub some_size : 0 < r.window_size
  pub counted : r.error_count ≡ errors r.recent_errors
  pub in_step : r.position ≡ r.count
  pub unused : (i : ℕ) → r.count ≤ i → get_or r.recent_errors i false ≡ false

get_or_beyond : (rs : List Bool) (i : ℕ) → length rs ≤ i → get_or rs i false ≡ false
get_or_beyond [] i h = refl
get_or_beyond (r ∷ rs) zero h = absurd (omega arith)
get_or_beyond (r ∷ rs) (suc i) h = get_or_beyond rs i (omega arith)

get_or_before :
    (rs : List Bool) (i j : ℕ) (b : Bool) → i < j → get_or (set rs i b) j false ≡ get_or rs j false
get_or_before [] i j b h = refl
get_or_before (r ∷ rs) i zero b h = absurd (omega arith)
get_or_before (r ∷ rs) zero (suc j) b h = refl
get_or_before (r ∷ rs) (suc i) (suc j) b h = get_or_before rs i j b (omega arith)

get_or-replicate : (n i : ℕ) → get_or (replicate n false) i false ≡ false
get_or-replicate zero i = refl
get_or-replicate (suc n) zero = refl
get_or-replicate (suc n) (suc i) = get_or-replicate n i

pub new_rule-IsWindow :
    (window_size : ℕ) (fallback_data : Bytes) (cool_down : ℤ)
    → IsWindow (new_degradation_rule window_size fallback_data cool_down)
unfolding new_degradation_rule
new_rule-IsWindow window_size fallback_data cool_down =
    let size = if nat_beq window_size 0 then 100 else window_size in
    record {
      sized = length-replicate size false;
      some_size = ground arith;
      counted = sym (errors-replicate size);
      in_step = refl;
      unused = λ i h. get_or-replicate size i;
    }

-- The place that a result goes to lies in the window, and is the next unused one while there is one.
place :
    (r : DegradeRule)
    → IsWindow r
    → (r.position % r.window_size < length r.recent_errors)
      × ((r.count < r.window_size) → r.position % r.window_size ≡ r.count)
place r w = (
  omega (arith, mod-lt r.position w.some_size, w.sized),
  λ room. ap (λ k. k % r.window_size) w.in_step ∙ mod-eq_of_lt room,
)

slide-unused :
    (r : DegradeRule) (is_error : Bool)
    → IsWindow r
    → (i : ℕ) → r.count + 1 ≤ i
    → get_or (set r.recent_errors (r.position % r.window_size) is_error) i false ≡ false
slide-unused r is_error w i h = elim (Bool-cases (leb r.window_size r.count)) [
  | inl full ↦ get_or_beyond (set r.recent_errors (r.position % r.window_size) is_error) i (
      omega (
        arith,
        w.sized,
        leb→le r.window_size r.count full,
        length-set r.recent_errors (r.position % r.window_size) is_error,
      ))
  | inr room ↦
      let next : r.position % r.window_size ≡ r.count = (place r w).1 (ground arith) in
      get_or_before r.recent_errors (r.position % r.window_size) i is_error (omega (arith, next))
      ∙ w.unused i (omega arith)
]

errors_present : (rs : List Bool) (i : ℕ) → get_or rs i false ≡ true → 0 < errors rs
unfolding errors
errors_present [] i h = ground (arith, h)
errors_present (true ∷ rs) i h = omega arith
errors_present (false ∷ rs) zero h = ground (arith, h)
errors_present (false ∷ rs) (suc i) h = errors_present rs i h

out_and_in :
    (b : Bool) (n x : ℕ) → 0 < n → x + 1 ≡ n + one_if b → (if b then n - 1 + 1 else n - 1) ≡ x
out_and_in true n x some_error h = omega arith
out_and_in false n x some_error h = omega arith

only_in : (b : Bool) (n x : ℕ) → x + 0 ≡ n + one_if b → (if b then n + 1 else n) ≡ x
only_in true n x h = omega arith
only_in false n x h = omega arith

slide-counted :
    (r : DegradeRule) (is_error : Bool)
    → IsWindow r
    → (slide r is_error).error_count ≡ errors (slide r is_error).recent_errors
unfolding slide
slide-counted r is_error w =
    let at = r.position % r.window_size in
    let after = errors (set r.recent_errors at is_error) in
    let balance : after + one_if (get_or r.recent_errors at false)
        ≡ r.error_count + one_if is_error =
      errors-set r.recent_errors at is_error (place r w).0
      ∙ ap (λ n. n + one_if is_error) (sym w.counted) in
    elim (Bool-cases (leb r.window_size r.count)) [
      | inl full ↦ elim (Bool-cases (get_or r.recent_errors at false)) [
        | inl old ↦
            rw (full, old)
              (out_and_in is_error r.error_count after
                (omega (arith, w.counted, errors_present r.recent_errors at old))
                (rw old at balance))
        | inr clean ↦ rw (full, clean) (only_in is_error r.error_count after (rw clean at balance))
      ]
      | inr room ↦
          let next : at ≡ r.count = (place r w).1 (ground arith) in
          let clean : get_or r.recent_errors at false ≡ false = w.unused at (omega (arith, next)) in
          rw room (only_in is_error r.error_count after (rw clean at balance))
    ]

slide-IsWindow : (r : DegradeRule) (is_error : Bool) → IsWindow r → IsWindow (slide r is_error)
slide-IsWindow r is_error w = record {
  sized =
      unfold slide in length-set r.recent_errors (r.position % r.window_size) is_error ∙ w.sized;
  some_size = unfold slide in w.some_size;
  counted = slide-counted r is_error w;
  in_step = unfold slide in ap (λ k. k + 1) w.in_step;
  unused = unfold slide in slide-unused r is_error w;
}

triggered-IsWindow :
    (already : Bool) (r : DegradeRule) (now : ℕ)
    → IsWindow r
    → IsWindow
        (if◌then◌else◌ {A = DegradeRule × Bool} already
          (r, false)
          (record r { degraded = true; last_degrade = now }, true)).0
triggered-IsWindow true r now w = w
triggered-IsWindow false r now w = record {
  sized = w.sized;
  some_size = w.some_size;
  counted = w.counted;
  in_step = w.in_step;
  unused = w.unused;
}

record_result-IsWindow :
    (reached : ℕ → ℕ → Bool) (r : DegradeRule) (is_error : Bool) (now : ℕ)
    → IsWindow r
    → IsWindow (record_result reached r is_error now).0
unfolding record_result
record_result-IsWindow reached r is_error now w =
    let slid = slide r is_error in
    let v = slide-IsWindow r is_error w in
    elim (Bool-cases (leb slid.window_size slid.count)) [
      | inr room ↦ rw room v
      | inl full ↦ elim (Bool-cases (reached slid.error_count slid.window_size)) [
        | inr few ↦ rw (full, few) v
        | inl many ↦ rw (full, many) (triggered-IsWindow slid.degraded slid now v)
      ]
    ]

-- Results, each with its time.
unfoldable pub record_all : (ℕ → ℕ → Bool) → DegradeRule → List (Bool × ℕ) → DegradeRule
record_all reached r [] = r
record_all reached r ((is_error, now) ∷ rs) =
    record_all reached (record_result reached r is_error now).0 rs

-- From a window whose errors are counted: after any results the error count is still the number of
-- errors in the window, and the window still has its size.
pub record_all-IsWindow :
    (reached : ℕ → ℕ → Bool) (r : DegradeRule) (rs : List (Bool × ℕ))
    → IsWindow r
    → IsWindow (record_all reached r rs)
unfolding record_all
record_all-IsWindow reached r [] w = w
record_all-IsWindow reached r ((is_error, now) ∷ rs) w =
    record_all-IsWindow reached (record_result reached r is_error now).0 rs
      (record_result-IsWindow reached r is_error now w)
