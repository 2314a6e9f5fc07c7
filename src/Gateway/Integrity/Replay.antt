-- ===== src/Gateway/Integrity/Replay.antt =====
-- The same message of a connection for a second time (internal/gateway/integrity.go).
use sgate.Prelude.{
  ℕ, zero, suc, ◌<◌, ◌≡◌, refl, sym, ap, ◌∙◌, String, false, List, [], ◌∷◌, Option, none, some,
  get_or, map, All, ◌==◌, string_eq, arith, if_cases, option_cases, Bool-cases, inl, inr, length,
  get_or-set_self, get_or-set_cases, subst,
}
use native.Mathlib.Nat.{mod-lt}
use mathlib.Core.Option.{none-ne-some}
use sgate.Prelude.Int.{ℤ, ltb_ℤ, sub_ℕ}
use sgate.Prelude.Maps.{Map, lookup, insert, lookup-insert, lookup-insert_self}
use sgate.Types.StreamData.{StreamData, is_zero}
use sgate.Gateway.Integrity.{
  IntegrityError, seq_id_required, replay_detected, MessageIntegrity, integrity_shard_count,
  delete_old, cleanup_cache, shard_for, message_key, cache_of, process_message,
}

-- Later calls: other messages, and sweeps of the cache.
pub data IntegrityCall : Type 0 where
  comes : String → StreamData → ℕ → IntegrityCall
  sweeps : ℕ → IntegrityCall

-- A sweep at a time at which what was stored at `start` is not yet too old.
abbrev pub InWindow : ℤ → ℕ → IntegrityCall → Type 0
InWindow window start (comes c msg now) = Unit
InWindow window start (sweeps now) = ltb_ℤ window (sub_ℕ now start) ≡ false

lookup-delete_old :
    (window : ℤ) (now : ℕ) (m : Map String ℕ) (key : String) (ts : ℕ)
    → ltb_ℤ window (sub_ℕ now ts) ≡ false
    → lookup key m ≡ some ts
    → lookup key (delete_old window now m) ≡ some ts
unfolding lookup delete_old
lookup-delete_old window now [] key ts w h = h
lookup-delete_old window now ((j, t) ∷ m) key ts w h =
    ground (arith, lookup-delete_old window now m key ts w)

lookup-insert_other :
    (m : Map String ℕ) (k key : String) (now ts : ℕ)
    → lookup k m ≡ none
    → lookup key m ≡ some ts
    → lookup key (insert k now m) ≡ some ts
lookup-insert_other m k key now ts n h = elim (Bool-cases (k == key)) [
  | inl e ↦
      absurd (none-ne-some ts (sym n ∙ (ap (λ j. lookup j m) ((string_eq.beq_iff k key).0 e) ∙ h)))
  | inr e ↦ lookup-insert k key now m ∙ rw e h
]

get_or-sweep :
    (xs : List (Map String ℕ)) (j : ℕ) (window : ℤ) (now : ℕ)
    → get_or (map (delete_old window now) xs) j [] ≡ delete_old window now (get_or xs j [])
unfolding delete_old
get_or-sweep [] j window now = refl
get_or-sweep (x ∷ xs) zero window now = refl
get_or-sweep (x ∷ xs) (suc j) window now = get_or-sweep xs j window now

module _ (hash : String → ℕ) (itoa : ℤ → String) where
  abbrev Stored : String → String → ℕ → MessageIntegrity → Type 0
  Stored c key ts mi = lookup key (cache_of hash itoa mi c) ≡ some ts

  unfoldable pub later_call : MessageIntegrity → IntegrityCall → MessageIntegrity
  later_call mi (comes c msg now) = (process_message hash itoa mi c msg now).0
  later_call mi (sweeps now) = cleanup_cache mi now

  unfoldable pub later_calls : MessageIntegrity → List IntegrityCall → MessageIntegrity
  later_calls mi [] = mi
  later_calls mi (call ∷ calls) = later_calls (later_call mi call) calls

  process-Stored :
      (mi : MessageIntegrity) (c key : String) (ts : ℕ) (d : String) (msg : StreamData) (now : ℕ)
      → Stored c key ts mi
      → Stored c key ts (process_message hash itoa mi d msg now).0
  unfolding process_message
  process-Stored mi c key ts d msg now h =
      let k = message_key hash itoa d msg in
      if_cases StoredAfter (is_zero msg.seq_id) (λ z. h)
        (λ z.
          option_cases StoredAfter (lookup k (cache_of hash itoa mi d))
            (λ n.
              get_or-set_cases mi.shards (shard_for hash itoa d) (shard_for hash itoa c)
                (insert k now (cache_of hash itoa mi d)) [] (λ m. lookup key m ≡ some ts) h
                (λ i.
                  lookup-insert_other (cache_of hash itoa mi d) k key now ts n
                    (ap (λ j. lookup key (get_or mi.shards j [])) i ∙ h)))
            (λ t e. h))
    where
      StoredAfter : MessageIntegrity × Option IntegrityError → Type 0
      StoredAfter r = Stored c key ts r.0

  later_call-window :
      (mi : MessageIntegrity) (call : IntegrityCall)
      → (later_call mi call).time_window ≡ mi.time_window
  unfolding later_call process_message cleanup_cache
  later_call-window mi (comes d msg now) =
      if_cases SameWindow (is_zero msg.seq_id) (λ z. refl)
        (λ z.
          option_cases SameWindow (lookup (message_key hash itoa d msg) (cache_of hash itoa mi d))
            (λ n. refl) (λ t e. refl))
    where
      SameWindow : MessageIntegrity × Option IntegrityError → Type 0
      SameWindow r = r.0.time_window ≡ mi.time_window
  later_call-window mi (sweeps now) = refl

  later_call-Stored :
      (mi : MessageIntegrity) (c key : String) (ts : ℕ) (call : IntegrityCall)
      → InWindow mi.time_window ts call
      → Stored c key ts mi
      → Stored c key ts (later_call mi call)
  unfolding later_call cleanup_cache
  later_call-Stored mi c key ts (comes d msg now) w h = process-Stored mi c key ts d msg now h
  later_call-Stored mi c key ts (sweeps now) w h =
      ap (lookup key) (get_or-sweep mi.shards (shard_for hash itoa c) mi.time_window now)
      ∙ lookup-delete_old mi.time_window now (cache_of hash itoa mi c) key ts w h

  later_calls-Stored :
      (mi : MessageIntegrity) (c key : String) (ts : ℕ) (calls : List IntegrityCall)
      → All (InWindow mi.time_window ts) calls
      → Stored c key ts mi
      → Stored c key ts (later_calls mi calls)
  unfolding later_calls
  later_calls-Stored mi c key ts [] w h = h
  later_calls-Stored mi c key ts (call ∷ calls) w h =
      later_calls-Stored (later_call mi call) c key ts calls
        (subst (λ window. All (InWindow window ts) calls) (sym (later_call-window mi call)) w.1)
        (later_call-Stored mi c key ts call w.0 h)

  accepted-Stored :
      (mi : MessageIntegrity) (c : String) (msg : StreamData) (now : ℕ)
      → length mi.shards ≡ integrity_shard_count
      → (process_message hash itoa mi c msg now).1 ≡ none
      → Stored c (message_key hash itoa c msg) now (process_message hash itoa mi c msg now).0
  unfolding process_message
  accepted-Stored mi c msg now sized ok =
      let key = message_key hash itoa c msg in
      let inside : shard_for hash itoa c < length mi.shards =
        omega (arith, mod-lt (hash c) {m = integrity_shard_count} (omega arith), sized) in
      if_cases (λ (r : MessageIntegrity × Option IntegrityError). r.1 ≡ none → Stored c key now r.0)
        (is_zero msg.seq_id) (λ z e. absurd (none-ne-some seq_id_required (sym e)))
        (λ z.
          option_cases
            (λ (r : MessageIntegrity × Option IntegrityError). r.1 ≡ none → Stored c key now r.0)
            (lookup key (cache_of hash itoa mi c))
            (λ n e.
              ap (lookup key) (
                get_or-set_self mi.shards (shard_for hash itoa c)
                  (insert key now (cache_of hash itoa mi c)) [] inside)
              ∙ lookup-insert_self key now (cache_of hash itoa mi c))
            (λ t f e. absurd (none-ne-some replay_detected (sym e))))
        ok

  accepted-numbered :
      (mi : MessageIntegrity) (c : String) (msg : StreamData) (now : ℕ)
      → (process_message hash itoa mi c msg now).1 ≡ none
      → is_zero msg.seq_id ≡ false
  unfolding process_message
  accepted-numbered mi c msg now ok =
      if_cases
        (λ (r : MessageIntegrity × Option IntegrityError). r.1 ≡ none → is_zero msg.seq_id ≡ false)
        (is_zero msg.seq_id) (λ z e. absurd (none-ne-some seq_id_required (sym e))) (λ z e. z) ok

  Stored-refused :
      (mi : MessageIntegrity) (c : String) (msg : StreamData) (ts now : ℕ)
      → is_zero msg.seq_id ≡ false
      → Stored c (message_key hash itoa c msg) ts mi
      → (process_message hash itoa mi c msg now).1 ≡ some replay_detected
  unfolding process_message
  Stored-refused mi c msg ts now z h =
      if_cases (λ (r : MessageIntegrity × Option IntegrityError). r.1 ≡ some replay_detected)
        (is_zero msg.seq_id) (λ e. absurd (ground (arith, e, z)))
        (λ e.
          option_cases
            (λ (r : MessageIntegrity × Option IntegrityError). r.1 ≡ some replay_detected)
            (lookup (message_key hash itoa c msg) (cache_of hash itoa mi c))
            (λ n. absurd (none-ne-some ts (sym n ∙ h))) (λ t f. refl))

  -- After a message of a connection was let through, and after any later messages of any connections
  -- and sweeps in the window, the same message of this connection is refused as a replay.
  pub replay_refused :
      (mi : MessageIntegrity) (c : String) (msg : StreamData) (start now : ℕ)
      (calls : List IntegrityCall)
      → length mi.shards ≡ integrity_shard_count
      → (process_message hash itoa mi c msg start).1 ≡ none
      → All (InWindow mi.time_window start) calls
      → (process_message hash itoa
          (later_calls (process_message hash itoa mi c msg start).0 calls)
          c
          msg
          now).1
        ≡ some replay_detected
  unfolding later_call
  replay_refused mi c msg start now calls sized ok w =
      let first = (process_message hash itoa mi c msg start).0 in
      Stored-refused (later_calls first calls) c msg start now (accepted-numbered mi c msg start ok)
        (later_calls-Stored first c (message_key hash itoa c msg) start calls
          (subst (λ window. All (InWindow window start) calls)
            (sym (later_call-window mi (comes c msg start))) w)
          (accepted-Stored mi c msg start sized ok))
