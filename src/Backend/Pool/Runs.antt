-- ===== src/Backend/Pool/Runs.antt =====
-- The pool through any streams that come and go, and its closing
-- (internal/backend/pool.go).
use sgate.Prelude.{
  ℕ, zero, suc, ◌<◌, ◌≡◌, ◌⊎◌, inl, inr, refl, sym, ◌∙◌, Bool, false, List, [], ◌∷◌, none, some,
  String, string_eq, get_elem?, set, All, All-get, option_cases,
}
use mathlib.Core.Option.{none-ne-some}
use sgate.Prelude.Maps.{Map}
use sgate.Backend.Client.{is_connected_state, LogicClient, close_client}
use sgate.Backend.Client.Attached.{IsAttached}
use sgate.Backend.Pool.FastClient.{
  IsPool, pool_is_connected-any, close_made-IsPool, put-off, close-off, attach-IsPool,
  detach-IsPool, close_each-IsPool,
}
use sgate.Backend.Pool.{
  LogicStreamMeta, LogicClientPool, StreamSettings, only, new_logic_client_pool, is_connected,
  connected_at, any_connected, pool_is_connected, close_made, attach, detach, close_each, close,
}

-- What happens to a pool: a stream comes or ends, or the pool is closed.
pub data PoolEvent : Type 0 where
  stream_attaches : StreamSettings → LogicStreamMeta → ℕ → PoolEvent
  stream_detaches : (c idx stream : ℕ) → PoolEvent
  pool_closes : PoolEvent

abbrev pub HasShards : PoolEvent → Type 0
HasShards (stream_attaches s m stream) = 0 < m.shard_count
HasShards (stream_detaches c idx stream) = Unit
HasShards pool_closes = Unit

module _ {M : Type 0} where
  close_made-fast :
      (pool : LogicClientPool M) (c : ℕ) → (close_made pool c).fast_client ≡ pool.fast_client
  unfolding close_made
  close_made-fast pool c =
      option_cases (λ (p : LogicClientPool M). p.fast_client ≡ pool.fast_client)
        (get_elem? pool.made c) (λ e. refl) (λ lc e. refl)

  close_each-fast :
      (pool : LogicClientPool M) (clients : Map String ℕ)
      → (close_each pool clients).fast_client ≡ pool.fast_client
  unfolding close_each
  close_each-fast pool [] = refl
  close_each-fast pool ((id, c) ∷ rest) =
      close_each-fast (close_made pool c) rest ∙ close_made-fast pool c

  close_made-off :
      (pool : LogicClientPool M) (c k : ℕ)
      → IsPool pool
      → is_connected pool k ≡ false
      → is_connected (close_made pool c) k ≡ false
  unfolding close_made
  close_made-off pool c k h o =
      option_cases (λ (p : LogicClientPool M). is_connected p k ≡ false) (get_elem? pool.made c)
        (λ e. o)
        (λ lc e.
          put-off pool.made c k lc (close_client lc) e
            (λ l. close-off lc (All-get IsAttached pool.made c lc h.each e)) o)

  close_each-off :
      (pool : LogicClientPool M) (clients : Map String ℕ) (k : ℕ)
      → IsPool pool
      → is_connected pool k ≡ false
      → is_connected (close_each pool clients) k ≡ false
  unfolding close_each
  close_each-off pool [] k h o = o
  close_each-off pool ((id, c) ∷ rest) k h o =
      close_each-off (close_made pool c) rest k (close_made-IsPool pool c h)
        (close_made-off pool c k h o)

  put_self-off :
      (made : List (LogicClient M)) (c : ℕ) (lc lc' : LogicClient M)
      → get_elem? made c ≡ some lc
      → is_connected_state lc'.state ≡ false
      → connected_at (set made c lc') c ≡ false
  put_self-off [] c lc lc' e o = refl
  put_self-off (x ∷ xs) zero lc lc' e o = o
  put_self-off (x ∷ xs) (suc c) lc lc' e o = put_self-off xs c lc lc' e o

  close_made_off :
      (pool : LogicClientPool M) (c : ℕ) → IsPool pool → is_connected (close_made pool c) c ≡ false
  unfolding close_made
  close_made_off pool c h =
      option_cases (λ (p : LogicClientPool M). is_connected p c ≡ false) (get_elem? pool.made c)
        (λ e.
          option_cases {B = Bool} (λ b. b ≡ false) (get_elem? pool.made c) (λ f. refl)
            (λ lc f. absurd (none-ne-some lc (sym e ∙ f))))
        (λ lc e.
          put_self-off pool.made c lc (close_client lc) e
            (close-off lc (All-get IsAttached pool.made c lc h.each e)))

  close-fast :
      (pool : LogicClientPool M) (clients : Map String ℕ)
      → IsPool pool
      → pool.fast_client ≡ only clients
      → ((close_each pool clients).fast_client ≡ none)
        ⊎ ((c : ℕ) × ((close_each pool clients).fast_client ≡ some c)
            × (is_connected (close_each pool clients) c ≡ false))
  unfolding close_each
  close-fast pool [] h f = inl f
  close-fast pool ((id, c) ∷ []) h f = inr (c, close_made-fast pool c ∙ f, close_made_off pool c h)
  close-fast pool (a ∷ (b ∷ rest)) h f = inl (close_each-fast pool (a ∷ (b ∷ rest)) ∙ f)

  close-IsPool : (pool : LogicClientPool M) → IsPool pool → IsPool (close pool)
  unfolding close
  close-IsPool pool h = record {
    each = (close_each-IsPool pool pool.clients h).each;
    fast = inr (record {
      shut = refl;
      emptied = refl;
      off = elim h.fast [
        | inl f ↦ close-fast pool pool.clients h f
        | inr s ↦ elim s.off [
          | inl n ↦ inl (close_each-fast pool pool.clients ∙ n)
          | inr (c, n, o) ↦
              inr (c, close_each-fast pool pool.clients ∙ n, close_each-off pool pool.clients c h o)
        ]
      ];
    });
  }

  unfoldable pub pool_step : LogicClientPool M → PoolEvent → LogicClientPool M
  pool_step pool (stream_attaches s m stream) = (attach s pool m stream).0
  pool_step pool (stream_detaches c idx stream) = detach pool c idx stream
  pool_step pool pool_closes = close pool

  unfoldable pub pool_run : LogicClientPool M → List PoolEvent → LogicClientPool M
  pool_run pool [] = pool
  pool_run pool (event ∷ events) = pool_run (pool_step pool event) events

  step-IsPool :
      (pool : LogicClientPool M) (event : PoolEvent)
      → HasShards event
      → IsPool pool
      → IsPool (pool_step pool event)
  unfolding pool_step
  step-IsPool pool (stream_attaches s m stream) p h = attach-IsPool s pool m stream p h
  step-IsPool pool (stream_detaches c idx stream) p h = detach-IsPool pool c idx stream h
  step-IsPool pool pool_closes p h = close-IsPool pool h

  run-IsPool :
      (pool : LogicClientPool M) (events : List PoolEvent)
      → All HasShards events
      → IsPool pool
      → IsPool (pool_run pool events)
  unfolding pool_run
  run-IsPool pool [] p h = h
  run-IsPool pool (event ∷ events) p h =
      run-IsPool (pool_step pool event) events p.1 (step-IsPool pool event p.0 h)

-- After any streams that came (each of a logic server with at least one shard) and went, and after
-- a closing, the pool is connected exactly if one of its clients is, and each client that was ever
-- made is connected exactly while it is open and all its shards have a stream.
pub pool_run-connected :
    (M : Type 0) (events : List PoolEvent)
    → All HasShards events
    → (pool_is_connected (pool_run (new_logic_client_pool {M = M}) events)
        ≡ any_connected
            (pool_run (new_logic_client_pool {M = M}) events)
            (pool_run (new_logic_client_pool {M = M}) events).clients)
      × All IsAttached (pool_run (new_logic_client_pool {M = M}) events).made
pool_run-connected M events p =
    let h =
      run-IsPool (new_logic_client_pool {M = M}) events p (record { each = tt; fast = inl refl }) in
    (pool_is_connected-any (pool_run new_logic_client_pool events) h, h.each)
