-- ===== src/Queue/Fifo/Peeking.antt =====
-- `sertos_queue_peek` of src/sertos_queue.c against receiving.
use sertos.Base.{
  ℕ, zero, suc, ◌+◌, ◌<◌, ◌≤◌, ◌≡◌, refl, ◌∙◌, sym, ap, ap₂, true, some, List, [], ◌∷◌, length,
  take, drop, take-append, length-append, arith,
}
use sertos.Types.{ok}
use sertos.Modules.{Modules, RingBuffer}
use sertos.Port.{Port}
use sertos.Kernel.{Kernel}
use sertos.Queue.{byte_at, peek_from, queue_peek_bytes}
use sertos.Queue.Transfer.{receive_from_isr, peek, peek_rounds}
use sertos.Queue.Ring.{RingLaws}
use sertos.Queue.Fifo.{receive}
use sertos.Queue.Fifo.Holding.{Holds, concat, has_item-cons, fetch-Holds}
use sertos.Queue.Fifo.Refinement.{ask}

-- The bytes that peeking reads are the first ones of the contents.
take-drop_step :
    (j n : ℕ) (l : List ℕ)
    → j < length l
    → take (suc n) (drop j l) ≡ byte_at l j ∷ take n (drop (suc j) l)
take-drop_step j n [] h = absurd (omega arith)
take-drop_step zero n (x ∷ xs) h = refl
take-drop_step (suc j) n (x ∷ xs) h = take-drop_step j n xs (omega arith)

module _ ⦃m : Modules⦄ (rings : RingLaws m) (rb : RingBuffer) (ring : rings.IsRing rb) where
  peek_from-take :
      (n j : ℕ)
      → j + n ≤ length (rings.contents rb)
      → peek_from rb (rb.tail + j) n ≡ take n (drop j (rings.contents rb))
  unfolding peek_from
  peek_from-take zero j h = refl
  peek_from-take (suc n) j h =
      ap₂ (λ b l. b ∷ l) (rings.byte_lem rb j ring (omega (arith, h)))
        (ap (λ i. peek_from rb i n) (omega arith) ∙ peek_from-take n (suc j) (omega (arith, h)))
      ∙ sym (take-drop_step j n (rings.contents rb) (omega (arith, h)))

  queue_peek_bytes-take :
      (n : ℕ) → n ≤ length (rings.contents rb) → queue_peek_bytes rb n ≡ take n (rings.contents rb)
  unfolding queue_peek_bytes
  queue_peek_bytes-take n h =
      ap (λ i. peek_from rb i n) (omega arith) ∙ peek_from-take n 0 (omega (arith, h))

module _ ⦃m : Modules⦄ ⦃e : Port⦄ (rings : RingLaws m) (capacity size : ℕ) (k : Kernel)
    (h : ℕ) where
  -- Peeking at a queue that holds items returns the bytes of the first one at once, which is the item
  -- that a receiving returns next, and changes nothing; its loop makes one round.
  pub peek-item :
      (fuel ticks : ℕ) (item : List ℕ) (items : List (List ℕ))
      → Holds rings capacity size (k.queues h) (item ∷ items)
      → (peek (suc fuel) k (some h) true ticks ≡ some (k, some item, ok))
        × ((ask k h receive).1 ≡ (ok, some item))
  unfolding peek peek_rounds receive_from_isr
  peek-item fuel ticks item items q =
      let same : (k.queues h).item_size ≡ length item = q.same_size ∙ sym q.sized.0 in
      let bytes : queue_peek_bytes (k.queues h).ring_buf (k.queues h).item_size ≡ item =
        queue_peek_bytes-take rings (k.queues h).ring_buf q.is_ring (k.queues h).item_size
          (omega (arith, ap length q.bytes, length-append {0} item (concat items), same))
        ∙ rw (q.bytes, same) (take-append item (concat items)) in
      let there = has_item-cons rings capacity size (k.queues h) item items q in
      (
        rw (q.is_live, there, bytes) refl,
        rw (q.is_live, there, (fetch-Holds rings capacity size k h item items q).1) refl,
      )
