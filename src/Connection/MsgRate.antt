-- ===== src/Connection/MsgRate.antt =====
-- internal/connection/connection.go: the limit on a connection's messages
-- (CheckAndIncrementMsgRate), in windows of a second. Times are in milliseconds.
use sgate.Prelude.{
  ℕ, suc, ◌+◌, ◌-◌, ◌<◌, ◌≤◌, ◌≡◌, Bool, true, false, List, [], ◌∷◌, if◌then◌else◌, leb, length,
  arith, All, Bool-cases, inl, inr,
}

pub record MsgWindow : Type 0 where
  pub msg_count : ℕ
  pub msg_window_start : ℕ

-- A limit of 0 is none. (So is a negative one.)
unfoldable pub check_and_increment_msg_rate : ℕ → MsgWindow → ℕ → MsgWindow × Bool
check_and_increment_msg_rate max_per_conn w now =
    if leb max_per_conn 0
    then (w, true)
    else if leb (w.msg_window_start + 1000) now
    then (record { msg_count = 1; msg_window_start = now }, true)
    else if leb max_per_conn w.msg_count
    then (w, false)
    else (record w { msg_count = w.msg_count + 1 }, true)

-- Messages at the given times: the window afterwards, and how many were let through.
unfoldable pub check_all : ℕ → MsgWindow → List ℕ → MsgWindow × ℕ
check_all max_per_conn w [] = (w, 0)
check_all max_per_conn w (now ∷ times) =
    let (w', passed) = check_and_increment_msg_rate max_per_conn w now in
    let (last, n) = check_all max_per_conn w' times in (last, if passed then suc n else n)

-- What is left of a window: all of the messages, or as many as the limit still allows.
abbrev pub allowed : ℕ → ℕ → ℕ
allowed left n = if leb n left then n else left

one_more :
    (max_per_conn count n : ℕ)
    → count < max_per_conn
    → suc (allowed (max_per_conn - (count + 1)) n) ≡ allowed (max_per_conn - count) (suc n)
one_more max_per_conn count n h = ground arith

none_left : (max_per_conn count n : ℕ) → max_per_conn ≤ count → allowed (max_per_conn - count) n ≡ 0
none_left max_per_conn count n h = ground arith

-- Under a positive limit, of the messages that come within a second of the window's start exactly
-- those pass that the limit still allows: all of them, or the limit less those counted before.
pub check_all-allowed :
    (max_per_conn : ℕ) (w : MsgWindow) (times : List ℕ)
    → 0 < max_per_conn
    → All (λ now. now < w.msg_window_start + 1000) times
    → (check_all max_per_conn w times).1 ≡ allowed (max_per_conn - w.msg_count) (length times)
unfolding check_all check_and_increment_msg_rate
check_all-allowed max_per_conn w [] pos_limit early = ground arith
check_all-allowed max_per_conn w (now ∷ times) pos_limit early =
    elim (Bool-cases (leb max_per_conn w.msg_count)) [
      | inl full ↦ ground (arith, early.0, check_all-allowed max_per_conn w times pos_limit early.1)
      | inr room ↦ ground (
        arith,
        early.0,
        check_all-allowed max_per_conn (record w { msg_count = w.msg_count + 1 }) times pos_limit
            early.1,
        one_more max_per_conn w.msg_count (length times),
      )
    ]
