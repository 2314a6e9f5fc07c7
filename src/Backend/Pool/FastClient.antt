-- ===== src/Backend/Pool/FastClient.antt =====
-- The pool's short cut for its only client, beside a look at all clients
-- (internal/backend/pool.go).
use sgate.Prelude.{
  ℕ, zero, suc, ◌<◌, ◌≡◌, ◌⊎◌, inl, inr, refl, sym, ap, ◌∙◌, true, false, List, [], ◌∷◌, Option,
  none, some, String, string_eq, get_elem?, set, All, All-set, All-append, All-get, ◌&&◌, arith,
  if_cases, option_cases,
}
use sgate.Prelude.Int.{pos, ◌-ℤ◌, ltb_ℤ}
use sgate.Prelude.Maps.{Map, lookup}
use sgate.Backend.Queue.{LogicError}
use sgate.Backend.Client.{
  is_connected_state, LogicClient, new_logic_client, attach_shard, detach_shard, lose_one,
  is_stream, shard_at, close_client,
}
use sgate.Backend.Client.Attached.{
  IsAttached, attach-IsAttached, detach-IsAttached, close-IsAttached, init-IsAttached,
}
use sgate.Backend.Pool.{
  LogicStreamMeta, LogicClientPool, StreamSettings, only, is_connected, connected_at, any_connected,
  pool_is_connected, make_client, client_for, is_count, shards_of, put_client, close_made,
  close_stale, attach, detach, close_each,
}

module _ {M : Type 0} where
  -- The pool is closed, and the fast client that it still has is not connected.
  pub record IsShut (pool : LogicClientPool M) : Type 0 where
    pub shut : pool.closed ≡ true
    pub emptied : pool.clients ≡ []
    pub off :
        (pool.fast_client ≡ none)
        ⊎ ((c : ℕ) × (pool.fast_client ≡ some c) × (is_connected pool c ≡ false))

  pub record IsPool (pool : LogicClientPool M) : Type 0 where
    pub each : All IsAttached pool.made
    pub fast : (pool.fast_client ≡ only pool.clients) ⊎ IsShut pool

  -- The short cut for a client that is the only one.
  only-any :
      (pool : LogicClientPool M) (clients : Map String ℕ) (fast : Option ℕ)
      → fast ≡ only clients
      → (elim fast [ some c ↦ is_connected pool c | none ↦ any_connected pool clients ])
        ≡ any_connected pool clients
  only-any pool [] fast e = rw e refl
  only-any pool ((id, c) ∷ []) fast e = rw e (ground arith)
  only-any pool (a ∷ (b ∷ rest)) fast e = rw e refl

  shut-any :
      (pool : LogicClientPool M) (clients : Map String ℕ) (fast : Option ℕ)
      → clients ≡ []
      → (fast ≡ none) ⊎ ((c : ℕ) × (fast ≡ some c) × (is_connected pool c ≡ false))
      → (elim fast [ some c ↦ is_connected pool c | none ↦ any_connected pool clients ])
        ≡ any_connected pool clients
  shut-any pool clients fast n (inl e) = rw e refl
  shut-any pool clients fast n (inr (c, e, o)) = rw e (rw n o)

  -- A pool is connected exactly if one of its clients is, whichever way it looks at them: by its
  -- only client, or at all of them.
  pub pool_is_connected-any :
      (pool : LogicClientPool M)
      → IsPool pool
      → pool_is_connected pool ≡ any_connected pool pool.clients
  unfolding pool_is_connected
  pool_is_connected-any pool h = elim h.fast [
    | inl e ↦ only-any pool pool.clients pool.fast_client e
    | inr s ↦ shut-any pool pool.clients pool.fast_client s.emptied s.off
  ]

  abbrev made_of : Option (LogicClient M) → List (LogicClient M)
  made_of none = []
  made_of (some lc) = lc ∷ []

  detach-stays :
      (lc : LogicClient M) (idx stream : ℕ)
      → is_connected_state lc.state ≡ false
      → is_connected_state (detach_shard lc idx stream).state ≡ false
  unfolding detach_shard lose_one
  detach-stays lc idx stream h =
      option_cases Off (shard_at lc.shards idx) (λ e. h)
        (λ sh e.
          if_cases Off (is_stream sh.stream stream)
            (λ b.
              if_cases Off lc.closing (λ c. h)
                (λ c.
                  if_cases Off (ltb_ℤ (lc.attached -ℤ pos 1) (pos 0)) (λ n. h)
                    (λ n.
                      if_cases Off
                        (ltb_ℤ (lc.attached -ℤ pos 1) (pos lc.total_shards)
                          && is_connected_state lc.state)
                        (λ l. refl) (λ l. h))))
            (λ b. h))
    where
      Off : LogicClient M → Type 0
      Off lc = is_connected_state lc.state ≡ false

  pub close-off :
      (lc : LogicClient M) → IsAttached lc → is_connected_state (close_client lc).state ≡ false
  unfolding close_client
  close-off lc h =
      if_cases (λ (r : LogicClient M). is_connected_state r.state ≡ false) lc.closing
        (λ c. ground (arith, h.connected, c)) (λ c. refl)

  -- A client that is changed without being connected leaves what is not connected so.
  pub put-off :
      (made : List (LogicClient M)) (c k : ℕ) (lc lc' : LogicClient M)
      → get_elem? made c ≡ some lc
      → (is_connected_state lc.state ≡ false → is_connected_state lc'.state ≡ false)
      → connected_at made k ≡ false
      → connected_at (set made c lc') k ≡ false
  put-off [] c k lc lc' e stays h = h
  put-off (x ∷ xs) zero zero lc lc' e stays h =
      stays (ap (λ (o : Option (LogicClient M)). connected_at (made_of o) 0) (sym e) ∙ h)
  put-off (x ∷ xs) zero (suc k) lc lc' e stays h = h
  put-off (x ∷ xs) (suc c) zero lc lc' e stays h = h
  put-off (x ∷ xs) (suc c) (suc k) lc lc' e stays h = put-off xs c k lc lc' e stays h

  -- What changes the state of one client, and nothing else of the pool.
  put-IsPool :
      (pool : LogicClientPool M) (c : ℕ) (lc lc' : LogicClient M)
      → IsPool pool
      → IsAttached lc'
      → get_elem? pool.made c ≡ some lc
      → (pool.closed ≡ true
          → is_connected_state lc.state ≡ false
          → is_connected_state lc'.state ≡ false)
      → IsPool (put_client pool c lc')
  put-IsPool pool c lc lc' h a e stays = record {
    each = All-set IsAttached pool.made c lc' h.each a;
    fast = elim h.fast [
      | inl f ↦ inl f
      | inr s ↦ inr (record {
        shut = s.shut;
        emptied = s.emptied;
        off = elim s.off [
          | inl n ↦ inl n
          | inr (k, n, o) ↦ inr (k, n, put-off pool.made c k lc lc' e (stays s.shut) o)
        ];
      })
    ];
  }

  pub close_made-IsPool :
      (pool : LogicClientPool M) (c : ℕ) → IsPool pool → IsPool (close_made pool c)
  unfolding close_made
  close_made-IsPool pool c h =
      option_cases IsPool (get_elem? pool.made c) (λ e. h)
        (λ lc e.
          let a = All-get IsAttached pool.made c lc h.each e in
          put-IsPool pool c lc (close_client lc) h (close-IsAttached lc a) e
            (λ s o. close-off lc a))

  pub detach-IsPool :
      (pool : LogicClientPool M) (c idx stream : ℕ)
      → IsPool pool
      → IsPool (detach pool c idx stream)
  unfolding detach
  detach-IsPool pool c idx stream h =
      option_cases IsPool (get_elem? pool.made c) (λ e. h)
        (λ lc e.
          let a = All-get IsAttached pool.made c lc h.each e in
          put-IsPool pool c lc (detach_shard lc idx stream) h (detach-IsAttached lc idx stream a) e
            (λ s o. detach-stays lc idx stream o))

  make_client-IsPool :
      (s : StreamSettings) (pool : LogicClientPool M) (m : LogicStreamMeta)
      → 0 < m.shard_count
      → IsPool pool
      → IsPool (make_client s pool m).0
  unfolding make_client new_logic_client
  make_client-IsPool s pool m p h = record {
    each =
        All-append IsAttached pool.made _ h.each
          (init-IsAttached M s.cpus s.send_channel_size m.shard_count _ p refl refl refl, tt);
    fast = inl refl;
  }

  abbrev Made : LogicClientPool M × ℕ × Option ℕ → Type 0
  Made r = IsPool r.0

  client_for-IsPool :
      (s : StreamSettings) (pool : LogicClientPool M) (m : LogicStreamMeta)
      → 0 < m.shard_count
      → IsPool pool
      → IsPool (client_for s pool m).0
  unfolding client_for
  client_for-IsPool s pool m p h =
      option_cases Made (lookup m.logic_id pool.clients) (λ e. make_client-IsPool s pool m p h)
        (λ c e.
          if_cases Made (is_count m.shard_count (shards_of pool c)) (λ b. h)
            (λ b. make_client-IsPool s pool m p h))

  close_made-closed : (pool : LogicClientPool M) (c : ℕ) → (close_made pool c).closed ≡ pool.closed
  unfolding close_made
  close_made-closed pool c =
      option_cases (λ (p : LogicClientPool M). p.closed ≡ pool.closed) (get_elem? pool.made c)
        (λ e. refl) (λ lc e. refl)

  close_stale-closed :
      (pool : LogicClientPool M) (stale : Option ℕ) → (close_stale pool stale).closed ≡ pool.closed
  close_stale-closed pool none = refl
  close_stale-closed pool (some c) = close_made-closed pool c

  client_for-closed :
      (s : StreamSettings) (pool : LogicClientPool M) (m : LogicStreamMeta)
      → (client_for s pool m).0.closed ≡ pool.closed
  unfolding client_for make_client
  client_for-closed s pool m =
      option_cases (λ (r : LogicClientPool M × ℕ × Option ℕ). r.0.closed ≡ pool.closed)
        (lookup m.logic_id pool.clients) (λ e. refl)
        (λ c e.
          if_cases (λ (r : LogicClientPool M × ℕ × Option ℕ). r.0.closed ≡ pool.closed)
            (is_count m.shard_count (shards_of pool c)) (λ b. refl) (λ b. refl))

  stale-IsPool :
      (pool : LogicClientPool M) (stale : Option ℕ) → IsPool pool → IsPool (close_stale pool stale)
  stale-IsPool pool none h = h
  stale-IsPool pool (some c) h = close_made-IsPool pool c h

  abbrev Attached : LogicClientPool M × Option LogicError → Type 0
  Attached r = IsPool r.0

  pub attach-IsPool :
      (s : StreamSettings) (pool : LogicClientPool M) (m : LogicStreamMeta) (stream : ℕ)
      → 0 < m.shard_count
      → IsPool pool
      → IsPool (attach s pool m stream).0
  unfolding attach
  attach-IsPool s pool m stream p h =
      let swept = close_stale (client_for s pool m).0 (client_for s pool m).2 in
      let c = (client_for s pool m).1 in
      let same =
        close_stale-closed (client_for s pool m).0 (client_for s pool m).2
        ∙ client_for-closed s pool m in
      let k = stale-IsPool _ (client_for s pool m).2 (client_for-IsPool s pool m p h) in
      if_cases Attached pool.closed (λ b. h)
        (λ b.
          option_cases Attached (get_elem? swept.made c) (λ e. k)
            (λ lc e.
              put-IsPool swept c lc (attach_shard lc m.shard_idx stream).0 k
                (attach-IsAttached lc m.shard_idx stream
                  (All-get IsAttached swept.made c lc k.each e))
                e (λ t o. absurd (ground (arith, b, t, same)))))

  pub close_each-IsPool :
      (pool : LogicClientPool M) (clients : Map String ℕ)
      → IsPool pool
      → IsPool (close_each pool clients)
  unfolding close_each
  close_each-IsPool pool [] h = h
  close_each-IsPool pool ((id, c) ∷ rest) h =
      close_each-IsPool (close_made pool c) rest (close_made-IsPool pool c h)
