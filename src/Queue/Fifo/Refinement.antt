-- ===== src/Queue/Fifo/Refinement.antt =====
-- `sertos_queue_send_from_isr` and `sertos_queue_receive_from_isr` of src/sertos_queue.c answer as a
-- bounded line of items does.
use sertos.Base.{
  ℕ, ◌+◌, ◌*◌, ◌<◌, ◌≡◌, refl, ap₂, true, none, some, List, [], ◌∷◌, length, leb, arith, inl, inr,
  Bool-cases,
}
use sertos.Modules.{Modules}
use sertos.Kernel.{Kernel}
use sertos.Queue.Transfer.{send_from_isr, receive_from_isr}
use sertos.Queue.Ring.{RingLaws}
use sertos.Queue.Fifo.{Request, send, receive, Reply, answer, answers, AreRequests}
use sertos.Queue.Fifo.Holding.{
  Holds, has_room-eq, has_item-nil, has_item-cons, put-Holds, fetch-Holds,
}

-- The answer of the code.
module _ ⦃m : Modules⦄ where
  abbrev pub ask : Kernel → ℕ → Request → Kernel × Reply
  ask k h (send item) =
      let (k', _, status) = send_from_isr k (some h) (some item) in (k', (status, none))
  ask k h receive =
      let (k', _, item, status) = receive_from_isr k (some h) true in (k', (status, item))

  unfoldable pub asks : Kernel → ℕ → List Request → List Reply
  asks k h [] = []
  asks k h (r ∷ rs) = let (k', reply) = ask k h r in reply ∷ asks k' h rs

module _ ⦃m : Modules⦄ (rings : RingLaws m) (capacity size : ℕ) (k : Kernel) (h : ℕ) where
  send_step :
      (items : List (List ℕ)) (item : List ℕ)
      → Holds rings capacity size (k.queues h) items
      → length item ≡ size
      → let (k', reply) = ask k h (send item) in
        let (items', expected) = answer capacity size items (send item) in
        (reply ≡ expected) × Holds rings capacity size (k'.queues h) items'
  unfolding send_from_isr answer
  send_step items item q fit = elim (Bool-cases (leb (length items * size + size) capacity)) [
    | inl e ↦
        rw (q.is_live, has_room-eq rings capacity size (k.queues h) items q, e)
          (refl, put-Holds rings capacity size k h items item q fit (ground (arith, e)))
    | inr e ↦ rw (q.is_live, has_room-eq rings capacity size (k.queues h) items q, e) (refl, q)
  ]

  receive_step :
      (items : List (List ℕ))
      → Holds rings capacity size (k.queues h) items
      → 0 < size
      → let (k', reply) = ask k h receive in
        let (items', expected) = answer capacity size items receive in
        (reply ≡ expected) × Holds rings capacity size (k'.queues h) items'
  unfolding receive_from_isr answer
  receive_step [] q pos =
      rw (q.is_live, has_item-nil rings capacity size (k.queues h) pos q) (refl, q)
  receive_step (item ∷ items) q pos =
      let (q', out) = fetch-Holds rings capacity size k h item items q in
      rw (q.is_live, has_item-cons rings capacity size (k.queues h) item items q, out) (refl, q')

module _ ⦃m : Modules⦄ (rings : RingLaws m) (capacity size : ℕ) (pos : 0 < size) (h : ℕ) where
  -- A queue that holds some items of its size answers any sequence of calls, each the sending of an
  -- item of that size or a receiving from an interrupt, as the bounded line of these items does:
  -- items come out in the order in which they went in, an item that does not fit is refused, and so
  -- is a receiving from an empty queue.
  pub asks-answers :
      (requests : List Request) (k : Kernel) (items : List (List ℕ))
      → Holds rings capacity size (k.queues h) items
      → AreRequests size requests
      → asks k h requests ≡ answers capacity size items requests
  unfolding asks answers
  asks-answers [] k items q fit = refl
  asks-answers (send item ∷ rs) k items q (e, fit) =
      let (same, q') = send_step rings capacity size k h items item q e in
      ap₂ (λ x l. x ∷ l) same (asks-answers rs (ask k h (send item)).0 _ q' fit)
  asks-answers (receive ∷ rs) k items q fit =
      let (same, q') = receive_step rings capacity size k h items q pos in
      ap₂ (λ x l. x ∷ l) same (asks-answers rs (ask k h receive).0 _ q' fit)
