-- ===== src/Examples/Queues.antt =====
-- Message queues, on a state of Examples/States.antt with a ring of seven bytes.
use sertos.Base.{
  ℕ, zero, suc, ◌+◌, ◌≤◌, ◌<◌, ◌≡◌, refl, ◌∙◌, ap, ap₂, true, some, none, List, [], ◌∷◌, length,
  leb, update, arith, length-append, length-drop,
}
use Prim.Native.Nat.{bit_and}
use sertos.Types.{ok, resource_busy}
use sertos.Modules.{RingBuffer}
use sertos.Modules.Plain.{plain}
use sertos.Kernel.{Kernel}
use sertos.Queue.{queue_magic_word, byte_at}
use sertos.Queue.Ring.{RingLaws}
use sertos.Queue.Fifo.{Request, send, receive, answers}
use sertos.Queue.Fifo.Holding.{Holds}
use sertos.Queue.Fifo.Refinement.{ask, asks, asks-answers}
use sertos.Queue.Fifo.Peeking.{peek-item}
use sertos.Queue.Transfer.{peek}
use sertos.Examples.States.{empty, host}

low_index : (i : ℕ) → i < 7 → bit_and i 7 ≡ i
low_index zero h = refl
low_index (suc zero) h = refl
low_index (suc (suc zero)) h = refl
low_index (suc (suc (suc zero))) h = refl
low_index (suc (suc (suc (suc zero)))) h = refl
low_index (suc (suc (suc (suc (suc zero))))) h = refl
low_index (suc (suc (suc (suc (suc (suc zero)))))) h = refl
low_index (suc (suc (suc (suc (suc (suc (suc i))))))) h = absurd (omega arith)

-- A ring of at most seven bytes that starts at place 0.
record IsSmall (r : RingBuffer) : Type 0 where
  at_start : r.tail ≡ 0
  mask_lem : r.mask ≡ 7
  few : length r.buffer ≤ 7

plain_rings : RingLaws plain
plain_rings = record {
  IsRing = IsSmall;
  contents = λ r. r.buffer;
  count_lem = λ r s. refl;
  within = λ r s. rw s.mask_lem s.few;
  write_lem = λ r l s h.
      let e : leb (length r.buffer + length l) r.mask ≡ true = ground (arith, h) in
      rw e (
        record {
          at_start = s.at_start;
          mask_lem = s.mask_lem;
          few = omega (arith, h, s.mask_lem, length-append {0} r.buffer l);
        },
        refl,
        refl,
        refl,
      );
  read_lem = λ r n s h. (
    record {
      at_start = s.at_start;
      mask_lem = s.mask_lem;
      few = omega (arith, s.few, length-drop {0} n r.buffer);
    },
    refl,
    refl,
    refl,
  );
  byte_lem = λ r i s h.
      ap (λ (p : ℕ). byte_at r.buffer p)
        (ap₂ (λ (a b : ℕ). bit_and (a + i) b) s.at_start s.mask_lem
          ∙ (ap (λ (a : ℕ). bit_and a 7) (omega arith) ∙ low_index i (omega (arith, h, s.few))));
  clear_lem = λ r s.
      (record { at_start = s.at_start; mask_lem = s.mask_lem; few = omega arith }, refl, refl);
}

-- Queue 3 takes items of two bytes; it holds none, or one.
abbrev open_queue : List ℕ → Kernel
open_queue bytes = record empty {
  queues = update empty.queues 3 (record (empty.queues 3) {
    ring_buf = record { buffer = bytes; mask = 7; head = length bytes; tail = 0 };
    item_size = 2;
    magic = queue_magic_word;
  });
}

open_queue-Holds : Holds plain_rings 7 2 ((open_queue []).queues 3) []
unfolding plain_rings
open_queue-Holds = record {
  is_ring = record { at_start = refl; mask_lem = refl; few = omega arith };
  is_live = refl;
  same_size = refl;
  same_capacity = refl;
  sized = tt;
  bytes = refl;
}

full_queue-Holds : Holds plain_rings 7 2 ((open_queue (8 ∷ 9 ∷ [])).queues 3) ((8 ∷ 9 ∷ []) ∷ [])
unfolding plain_rings
full_queue-Holds = record {
  is_ring = record { at_start = refl; mask_lem = refl; few = omega arith };
  is_live = refl;
  same_size = refl;
  same_capacity = refl;
  sized = (refl, tt);
  bytes = refl;
}

abbrev requests : List Request
requests = send (1 ∷ 2 ∷ []) ∷ send (3 ∷ 4 ∷ []) ∷ receive ∷ receive ∷ receive ∷ []

asks-answers_example : asks (open_queue []) 3 requests ≡ answers 7 2 [] requests
asks-answers_example =
    asks-answers plain_rings 7 2 (omega arith) 3 requests (open_queue []) [] open_queue-Holds
      (refl, (refl, tt))

-- The line gives the two items in order and then nothing.
answers_run :
    answers 7 2 [] requests
    ≡ (ok, none)
      ∷ (ok, none)
      ∷ (ok, some (1 ∷ 2 ∷ []))
      ∷ (ok, some (3 ∷ 4 ∷ []))
      ∷ (resource_busy, none)
      ∷ []
unfolding answers
answers_run = refl

peek-item_example :
    (peek 1 (open_queue (8 ∷ 9 ∷ [])) (some 3) true 0
      ≡ some (open_queue (8 ∷ 9 ∷ []), some (8 ∷ 9 ∷ []), ok))
    × ((ask (open_queue (8 ∷ 9 ∷ [])) 3 receive).1 ≡ (ok, some (8 ∷ 9 ∷ [])))
peek-item_example =
    peek-item plain_rings 7 2 (open_queue (8 ∷ 9 ∷ [])) 3 0 0 (8 ∷ 9 ∷ []) [] full_queue-Holds
