-- ===== src/Backend/Client/Attached.antt =====
-- When a logic client is connected (internal/backend/client.go).
use sgate.Prelude.{
  ℕ, zero, suc, ◌+◌, ◌<◌, ◌≤◌, ◌≡◌, ◌⊎◌, inl, inr, refl, sym, ap, ◌∙◌, Bool, true, false, not, ◌&&◌,
  List, [], ◌∷◌, Option, none, some, leb, length, set, map, replicate, arith, if_cases, Bool-cases,
  Option-cases,
}
use sgate.Prelude.{option_cases, length-map, length-set, length-replicate}
use sgate.Prelude.Int.{pos, ◌+ℤ◌, ◌-ℤ◌, ltb_ℤ, leb_ℤ}
use sgate.Backend.Queue.{LogicError}
use sgate.Backend.Client.{
  is_connected_state, StreamShard, LogicClient, new_shard, new_shards, init_accepted, shard_at,
  put_shard, connect_if_full, bind, attach_shard, lose_one, is_stream, detach_shard, stop_shard,
  close_client,
}

abbrev pub one_if_some : Option ℕ → ℕ
one_if_some none = 0
one_if_some (some s) = 1

is_stream-bound : (o : Option ℕ) (stream : ℕ) → is_stream o stream ≡ true → one_if_some o ≡ 1
is_stream-bound none stream h = ground (arith, h)
is_stream-bound (some s) stream h = refl

pos-suc : (n m : ℕ) → m ≡ n + 1 → pos n +ℤ pos 1 ≡ pos m
pos-suc n m h = ground (arith, h)

-- What happens to a client's streams: one comes, one ends, or the client is closed.
pub data ClientEvent : Type 0 where
  attaches : (idx stream : ℕ) → ClientEvent
  detaches : (idx stream : ℕ) → ClientEvent
  closes : ClientEvent

module _ {M : Type 0} where
  -- How many shards have a stream.
  unfoldable pub bound : List (StreamShard M) → ℕ
  bound [] = 0
  bound (sh ∷ shs) = one_if_some sh.stream + bound shs

  pub record IsAttached (lc : LogicClient M) : Type 0 where
    pub counted : (lc.closing ≡ true) ⊎ (lc.attached ≡ pos (bound lc.shards))
    pub sized : length lc.shards ≡ lc.total_shards
    pub connected :
        is_connected_state lc.state ≡ (not lc.closing && leb lc.total_shards (bound lc.shards))

  bound-le : (shs : List (StreamShard M)) → bound shs ≤ length shs
  unfolding bound
  bound-le [] = omega arith
  bound-le (sh ∷ shs) = elim (Option-cases sh.stream) [
    | inl e ↦ omega (arith, bound-le shs, ap one_if_some e)
    | inr (s, e) ↦ omega (arith, bound-le shs, ap one_if_some e)
  ]

  bound-set :
      (shs : List (StreamShard M)) (i : ℕ) (old sh : StreamShard M)
      → shard_at shs i ≡ some old
      → bound (set shs i sh) + one_if_some old.stream ≡ bound shs + one_if_some sh.stream
  unfolding bound
  bound-set [] i old sh h = ground arith
  bound-set (x ∷ shs) zero old sh h = omega (
    arith,
    ap {B = ℕ} (λ (o : Option (StreamShard M)). elim o [ none ↦ 0 | some y ↦ one_if_some y.stream ])
        h,
  )
  bound-set (x ∷ shs) (suc i) old sh h = omega (arith, bound-set shs i old sh h)

  bound-stop : (shs : List (StreamShard M)) → bound (map stop_shard shs) ≡ bound shs
  unfolding bound
  bound-stop [] = refl
  bound-stop (sh ∷ shs) = ap (λ n. one_if_some sh.stream + n) (bound-stop shs)

  connect-IsAttached :
      (lc : LogicClient M)
      → lc.closing ≡ false
      → lc.attached ≡ pos (bound lc.shards)
      → length lc.shards ≡ lc.total_shards
      → (is_connected_state lc.state ≡ false) ⊎ (lc.total_shards ≤ bound lc.shards)
      → IsAttached (connect_if_full lc).0
  unfolding connect_if_full
  connect-IsAttached lc c a s st =
      let full = ap (leb_ℤ (pos lc.total_shards)) a in
      if_cases (λ (r : LogicClient M × Bool). IsAttached r.0)
        (leb_ℤ (pos lc.total_shards) lc.attached && not (is_connected_state lc.state))
        (λ e. record { counted = inr a; sized = s; connected = ground (arith, c, full, e) })
        (λ e. record { counted = inr a; sized = s; connected = ground (arith, c, full, e, st) })

  lose-IsAttached :
      (lc : LogicClient M)
      → lc.closing ≡ false
      → lc.attached ≡ pos (suc (bound lc.shards))
      → length lc.shards ≡ lc.total_shards
      → bound lc.shards < lc.total_shards
      → IsAttached (lose_one lc)
  unfolding lose_one
  lose-IsAttached lc c a s b =
      let left = ap (λ n. n -ℤ pos 1) a in
      if_cases IsAttached (ltb_ℤ (lc.attached -ℤ pos 1) (pos 0))
        (λ e. absurd (ground (arith, left, e)))
        (λ e.
          if_cases IsAttached
            (ltb_ℤ (lc.attached -ℤ pos 1) (pos lc.total_shards) && is_connected_state lc.state)
            (λ f. record {
              counted = inr (ground (arith, left));
              sized = s;
              connected = ground (arith, c);
            })
            (λ f. record {
              counted = inr (ground (arith, left));
              sized = s;
              connected = ground (arith, c, left, f);
            }))

  open-counted :
      (lc : LogicClient M)
      → IsAttached lc
      → lc.closing ≡ false
      → lc.attached ≡ pos (bound lc.shards)
  open-counted lc h c = elim h.counted [ inl e ↦ absurd (ground (arith, c, e)) | inr e ↦ e ]

  -- One more stream, or another one: the count goes with it.
  record IsBind (lc lc' : LogicClient M) : Type 0 where
    open_ : lc'.closing ≡ lc.closing
    same_state : lc'.state ≡ lc.state
    same_total : lc'.total_shards ≡ lc.total_shards
    counted : lc'.attached ≡ pos (bound lc'.shards)
    sized : length lc'.shards ≡ length lc.shards
    more : bound lc.shards ≤ bound lc'.shards

  bind-IsBind :
      (lc : LogicClient M) (idx : ℕ) (sh : StreamShard M) (stream : ℕ)
      → shard_at lc.shards idx ≡ some sh
      → lc.attached ≡ pos (bound lc.shards)
      → IsBind lc (bind lc idx sh stream)
  unfolding bind
  bind-IsBind lc idx sh stream e a =
      let sh' = record sh { stream = some stream } in
      let sizes = bound-set lc.shards idx sh sh' e in
      option_cases (IsBind lc) sh.stream
        (λ n. record {
          open_ = refl;
          same_state = refl;
          same_total = refl;
          counted =
              ap (λ z. z +ℤ pos 1) a
              ∙ pos-suc (bound lc.shards) (bound (set lc.shards idx sh'))
                  (omega (arith, sizes, ap one_if_some n));
          sized = length-set lc.shards idx sh';
          more = omega (arith, sizes, ap one_if_some n);
        })
        (λ s n. record {
          open_ = refl;
          same_state = refl;
          same_total = refl;
          counted = a ∙ ap pos (omega (arith, sizes, ap one_if_some n));
          sized = length-set lc.shards idx sh';
          more = omega (arith, sizes, ap one_if_some n);
        })

  pub attach-IsAttached :
      (lc : LogicClient M) (idx stream : ℕ)
      → IsAttached lc
      → IsAttached (attach_shard lc idx stream).0
  unfolding attach_shard bind
  attach-IsAttached lc idx stream h =
      if_cases {A = LogicClient M × Option LogicError × Bool} (λ r. IsAttached r.0) lc.closing
        (λ c. h)
        (λ c.
          option_cases {B = LogicClient M × Option LogicError × Bool} (λ r. IsAttached r.0)
            (shard_at lc.shards idx) (λ e. h)
            (λ sh e.
              let b = bind-IsBind lc idx sh stream e (open-counted lc h c) in
              connect-IsAttached (bind lc idx sh stream) (b.open_ ∙ c) b.counted
                (b.sized ∙ (h.sized ∙ sym b.same_total))
                (elim (Bool-cases (leb lc.total_shards (bound lc.shards))) [
                  | inl t ↦ inr (ground (arith, t, b.more, b.same_total))
                  | inr t ↦
                      inl (ap is_connected_state b.same_state ∙ ground (arith, h.connected, c, t))
                ])))

  pub detach-IsAttached :
      (lc : LogicClient M) (idx stream : ℕ)
      → IsAttached lc
      → IsAttached (detach_shard lc idx stream)
  unfolding detach_shard
  detach-IsAttached lc idx stream h =
      option_cases IsAttached (shard_at lc.shards idx) (λ e. h)
        (λ sh e.
          if_cases IsAttached (is_stream sh.stream stream)
            (λ b.
              if_cases IsAttached lc.closing
                (λ c. record {
                  counted = inl c;
                  sized = length-set lc.shards idx _ ∙ h.sized;
                  connected = ground (arith, h.connected, c);
                })
                (λ c.
                  let sh' = record sh { stream = none } in
                  let sizes = bound-set lc.shards idx sh sh' e in
                  let had = is_stream-bound sh.stream stream b in
                  lose-IsAttached (put_shard lc idx sh') c
                    (open-counted lc h c ∙ ap pos (omega (arith, sizes, had)))
                    (length-set lc.shards idx sh' ∙ h.sized)
                    (omega (arith, sizes, had, bound-le lc.shards, h.sized))))
            (λ b. h))

  pub close-IsAttached : (lc : LogicClient M) → IsAttached lc → IsAttached (close_client lc)
  unfolding close_client
  close-IsAttached lc h =
      if_cases IsAttached lc.closing (λ c. h)
        (λ c. record {
          counted = inl refl;
          sized = length-map stop_shard lc.shards ∙ h.sized;
          connected = refl;
        })

  unfoldable pub client_step : LogicClient M → ClientEvent → LogicClient M
  client_step lc (attaches idx stream) = (attach_shard lc idx stream).0
  client_step lc (detaches idx stream) = detach_shard lc idx stream
  client_step lc closes = close_client lc

  unfoldable pub client_run : LogicClient M → List ClientEvent → LogicClient M
  client_run lc [] = lc
  client_run lc (event ∷ events) = client_run (client_step lc event) events

  step-IsAttached :
      (lc : LogicClient M) (event : ClientEvent) → IsAttached lc → IsAttached (client_step lc event)
  unfolding client_step
  step-IsAttached lc (attaches idx stream) h = attach-IsAttached lc idx stream h
  step-IsAttached lc (detaches idx stream) h = detach-IsAttached lc idx stream h
  step-IsAttached lc closes h = close-IsAttached lc h

  -- However streams come, are replaced and go, and the client is closed: the client is connected
  -- exactly if it is not closing and each of its shards has a stream.
  pub client_run-IsAttached :
      (lc : LogicClient M) (events : List ClientEvent)
      → IsAttached lc
      → IsAttached (client_run lc events)
  unfolding client_run
  client_run-IsAttached lc [] h = h
  client_run-IsAttached lc (event ∷ events) h =
      client_run-IsAttached (client_step lc event) events (step-IsAttached lc event h)

module _ (M : Type 0) where
  bound-replicate : (n : ℕ) → bound (replicate n (new_shard {M = M})) ≡ 0
  unfolding bound
  bound-replicate zero = refl
  bound-replicate (suc n) = omega (arith, bound-replicate n)

  pub init-IsAttached :
      (cpus channel total : ℕ) (lc : LogicClient M)
      → 0 < total
      → lc.closing ≡ false
      → lc.attached ≡ pos 0
      → is_connected_state lc.state ≡ false
      → IsAttached (init_accepted cpus channel lc total)
  unfolding init_accepted new_shards
  init-IsAttached cpus channel zero lc h c a d = elim h [ ]
  init-IsAttached cpus channel (suc total) lc h c a d =
      let none_bound = bound-replicate (suc total) in
      record {
        counted = inr (a ∙ ap pos (sym none_bound));
        sized = length-replicate (suc total) (new_shard {M = M});
        connected = ground (arith, c, d, none_bound);
      }
