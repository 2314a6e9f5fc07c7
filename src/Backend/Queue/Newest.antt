-- ===== src/Backend/Queue/Newest.antt =====
-- What the drop policy keeps (internal/backend/client.go).
use sgate.Prelude.{
  ℕ, ◌+◌, ◌-◌, ◌<◌, ◌≤◌, ◌≡◌, refl, sym, ap, ◌∙◌, Bool, List, [], ◌∷◌, ◌++◌, length, drop, arith,
  append_assoc, append-nil,
}
use sgate.Prelude.{if_cases, length-append, length-drop, drop-append_le, drop-drop}
use sgate.Backend.Queue.{
  QueuePolicy, queue_policy_drop, StreamMessageQueue, tail, append, is_full, drop_oldest,
  enqueue_by, enqueue,
}
use sgate.Backend.Queue.Bounds.{IsBounded, drop_oldest-size, append-drop-IsBounded}

module _ {M : Type 0} where
  -- The newest `size` of some messages.
  abbrev pub newest : ℕ → List M → List M
  newest size ms = drop (length ms - size) ms

  tail-append :
      (ms : List M) (msg : M) → 0 < length ms → tail ms ++ (msg ∷ []) ≡ drop 1 (ms ++ (msg ∷ []))
  tail-append [] msg h = elim h [ ]
  tail-append (m ∷ ms) msg h = refl

  newest_few : (size : ℕ) (ms : List M) → length ms ≤ size → newest size ms ≡ ms
  newest_few size ms h = ap (λ n. drop n ms) {x = length ms - size} {y = 0} (omega arith)

  drop_oldest-append :
      (mq : StreamMessageQueue M) (msg : M)
      → IsBounded mq
      → (drop_oldest mq).queue ++ (msg ∷ []) ≡ newest mq.max_size (mq.queue ++ (msg ∷ []))
  unfolding drop_oldest
  drop_oldest-append mq msg h =
      let longer = length-append mq.queue (msg ∷ []) in
      if_cases
        (λ (r : StreamMessageQueue M).
          r.queue ++ (msg ∷ []) ≡ newest mq.max_size (mq.queue ++ (msg ∷ [])))
        (is_full mq)
        (λ e.
          tail-append mq.queue msg (ground arith)
          ∙ ap (λ n. drop n (mq.queue ++ (msg ∷ []))) {x = 1}
              {y = length (mq.queue ++ (msg ∷ [])) - mq.max_size} (ground (arith, longer)))
        (λ e. sym (newest_few mq.max_size (mq.queue ++ (msg ∷ [])) (ground (arith, longer))))

  -- More messages behind a cut: cutting before or after them is the same.
  newest-append :
      (size : ℕ) (ms more : List M)
      → newest size (newest size ms ++ more) ≡ newest size (ms ++ more)
  newest-append size ms more =
      let k = length ms - size in
      let cut = sym (drop-append_le k ms more (omega arith)) in
      ap (newest size) cut
      ∙ (drop-drop (length (drop k (ms ++ more)) - size) k (ms ++ more)
          ∙ ap (λ n. drop n (ms ++ more)) {x = k + (length (drop k (ms ++ more)) - size)}
              {y = length (ms ++ more) - size}
              (omega (arith, length-append ms more, length-drop k (ms ++ more))))

  drop_oldest-policy : (mq : StreamMessageQueue M) → (drop_oldest mq).policy ≡ mq.policy
  unfolding drop_oldest
  drop_oldest-policy mq =
      if_cases (λ (r : StreamMessageQueue M). r.policy ≡ mq.policy) (is_full mq) (λ e. refl)
        (λ e. refl)

  module _ (pressed : ℕ → ℕ → Bool) where
    unfoldable pub enqueue_all : StreamMessageQueue M → List M → StreamMessageQueue M
    enqueue_all mq [] = mq
    enqueue_all mq (msg ∷ msgs) = enqueue_all (enqueue pressed [] mq msg).0 msgs

    enqueue_drop :
        (policy : QueuePolicy) (mq : StreamMessageQueue M) (msg : M)
        → policy ≡ queue_policy_drop
        → (enqueue_by policy pressed [] mq msg).0 ≡ append (drop_oldest mq) msg
    unfolding enqueue_by
    enqueue_drop policy mq msg e = rw e refl

    pub enqueue_all-newest :
        (mq : StreamMessageQueue M) (msgs : List M)
        → mq.policy ≡ queue_policy_drop
        → IsBounded mq
        → (enqueue_all mq msgs).queue ≡ newest mq.max_size (mq.queue ++ msgs)
    unfolding enqueue_all enqueue_by
    enqueue_all-newest mq [] e h =
        rw (append-nil mq.queue) (sym (newest_few mq.max_size mq.queue h.bounded))
    enqueue_all-newest mq (msg ∷ msgs) e h =
        let mq' = append (drop_oldest mq) msg in
        let size = mq.max_size in
        ap (λ q. (enqueue_all q msgs).queue) (enqueue_drop mq.policy mq msg e)
        ∙ (enqueue_all-newest mq' msgs (drop_oldest-policy mq ∙ e) (append-drop-IsBounded mq msg h)
            ∙ (ap (λ n. newest n (mq'.queue ++ msgs)) (drop_oldest-size mq)
                ∙ (ap (λ q. newest size (q ++ msgs)) (drop_oldest-append mq msg h)
                    ∙ (newest-append size (mq.queue ++ (msg ∷ [])) msgs
                        ∙ ap (newest size) (append_assoc mq.queue (msg ∷ []) msgs)))))
