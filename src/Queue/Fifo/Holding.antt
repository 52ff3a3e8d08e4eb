-- ===== src/Queue/Fifo/Holding.antt =====
-- A queue of src/sertos_queue.c that holds items, and what a write and a read make of it.
use sertos.Base.{
  ℕ, ◌+◌, ◌*◌, ◌<◌, ◌≤◌, ◌≡◌, refl, ◌∙◌, sym, ap, true, false, List, [], ◌∷◌, ◌++◌, length,
  take-append, drop-append, length-append, leb, ◌==◌, arith,
}
use mathlib.Core.List.{append-nil, append_assoc}
use sertos.Modules.{Modules}
use sertos.Kernel.{Kernel, Queue, queue_wait_send, queue_wait_recv}
use sertos.Scheduler.Objects.{unblock_highest-SameObjects}
use sertos.Queue.{queue_magic_word, queue_free_bytes}
use sertos.Queue.Transfer.{has_room, has_item, put, fetch}
use sertos.Queue.Ring.{RingLaws}
use sertos.Queue.Fifo.{AreSized}

abbrev pub concat : List (List ℕ) → List ℕ
concat [] = []
concat (x ∷ xs) = x ++ concat xs

concat-snoc : (xs : List (List ℕ)) (x : List ℕ) → concat (xs ++ x ∷ []) ≡ concat xs ++ x
concat-snoc [] x = append-nil x
concat-snoc (y ∷ ys) x = ap (λ l. y ++ l) (concat-snoc ys x) ∙ sym (append_assoc y (concat ys) x)

length-concat :
    (size : ℕ) (xs : List (List ℕ)) → AreSized size xs → length (concat xs) ≡ length xs * size
length-concat size [] s = omega arith
length-concat size (x ∷ xs) (e, s) =
    omega (arith, length-append {0} x (concat xs), length-concat size xs s, e)

AreSized-snoc :
    (size : ℕ) (xs : List (List ℕ)) (x : List ℕ)
    → AreSized size xs
    → length x ≡ size
    → AreSized size (xs ++ x ∷ [])
AreSized-snoc size [] x s e = (e, tt)
AreSized-snoc size (y ∷ ys) x (f, s) e = (f, AreSized-snoc size ys x s e)

module _ ⦃m : Modules⦄ (rings : RingLaws m) (capacity size : ℕ) where
  -- The queue holds these items.
  pub record Holds (q : Queue) (items : List (List ℕ)) : Type 0 where
    pub is_ring : rings.IsRing q.ring_buf
    pub is_live : (q.magic == queue_magic_word) ≡ true
    pub same_size : q.item_size ≡ size
    pub same_capacity : m.ring_buffer_capacity q.ring_buf ≡ capacity
    pub sized : AreSized size items
    pub bytes : rings.contents q.ring_buf ≡ concat items

  module _ (q : Queue) (items : List (List ℕ)) (h : Holds q items) where
    pub stored : length (rings.contents q.ring_buf) ≡ length items * size
    stored = rw h.bytes (length-concat size items h.sized)

    pub has_room-eq : has_room q ≡ leb (length items * size + size) capacity
    unfolding has_room queue_free_bytes
    has_room-eq = ground (
      arith,
      rings.count_lem q.ring_buf h.is_ring,
      rings.within q.ring_buf h.is_ring,
      stored,
      h.same_size,
      h.same_capacity,
    )

  pub has_item-nil : (q : Queue) → 0 < size → Holds q [] → has_item q ≡ false
  unfolding has_item
  has_item-nil q pos h =
      ground (arith, rings.count_lem q.ring_buf h.is_ring, ap length h.bytes, h.same_size)

  pub has_item-cons :
      (q : Queue) (x : List ℕ) (xs : List (List ℕ)) → Holds q (x ∷ xs) → has_item q ≡ true
  unfolding has_item
  has_item-cons q x xs h = ground (
    arith,
    rings.count_lem q.ring_buf h.is_ring,
    ap length h.bytes,
    length-append x (concat xs),
    h.sized,
    h.same_size,
  )

module _ ⦃m : Modules⦄ where
  -- What a write and a read do to the queue; the task that is woken changes nothing in it.
  put_queue :
      (k : Kernel) (h : ℕ) (item : List ℕ)
      → (put k h item).0.queues h
        ≡ record (k.queues h) { ring_buf = (m.ring_buffer_write (k.queues h).ring_buf item).0 }
  unfolding put
  put_queue k h item =
      rw (unblock_highest-SameObjects _ (queue_wait_recv h)).same_queues (ground arith)

  fetch_queue :
      (k : Kernel) (h : ℕ)
      → let (rb, item) = m.ring_buffer_read (k.queues h).ring_buf (k.queues h).item_size in
        ((fetch k h).0.queues h ≡ record (k.queues h) { ring_buf = rb }) × ((fetch k h).2 ≡ item)
  unfolding fetch
  fetch_queue k h =
      (rw (unblock_highest-SameObjects _ (queue_wait_send h)).same_queues (ground arith), refl)

module _ ⦃m : Modules⦄ (rings : RingLaws m) (capacity size : ℕ) (k : Kernel) (h : ℕ) where
  pub put-Holds :
      (items : List (List ℕ)) (item : List ℕ)
      → Holds rings capacity size (k.queues h) items
      → length item ≡ size
      → length items * size + size ≤ capacity
      → Holds rings capacity size ((put k h item).0.queues h) (items ++ item ∷ [])
  put-Holds items item q fit room =
      let (ring, now, same, _) = rings.write_lem (k.queues h).ring_buf item q.is_ring (
        omega
          (arith, stored rings capacity size (k.queues h) items q, fit, room, q.same_capacity)) in
      rw (put_queue k h item) (record {
        is_ring = ring;
        is_live = q.is_live;
        same_size = q.same_size;
        same_capacity = same ∙ q.same_capacity;
        sized = AreSized-snoc size items item q.sized fit;
        bytes = now ∙ ap (λ l. l ++ item) q.bytes ∙ sym (concat-snoc items item);
      })

  pub fetch-Holds :
      (item : List ℕ) (items : List (List ℕ))
      → Holds rings capacity size (k.queues h) (item ∷ items)
      → Holds rings capacity size ((fetch k h).0.queues h) items × ((fetch k h).2 ≡ item)
  fetch-Holds item items q =
      let same : (k.queues h).item_size ≡ length item = q.same_size ∙ sym q.sized.0 in
      let (ring, now, cap, out) =
        rings.read_lem (k.queues h).ring_buf (k.queues h).item_size q.is_ring
          (omega (arith, ap length q.bytes, length-append {0} item (concat items), same)) in
      (
        rw (fetch_queue k h).0 (record {
          is_ring = ring;
          is_live = q.is_live;
          same_size = q.same_size;
          same_capacity = cap ∙ q.same_capacity;
          sized = q.sized.1;
          bytes = now ∙ rw (q.bytes, same) (drop-append item (concat items));
        }),
        (fetch_queue k h).1 ∙ (out ∙ rw (q.bytes, same) (take-append item (concat items))),
      )
