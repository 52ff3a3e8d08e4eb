-- ===== src/Queue/Fifo.antt =====
-- The message queue of src/sertos_queue.c, as a client sees it: a bounded line of items of one size.
pub mod Holding
pub mod Refinement
pub mod Peeking
use sertos.Base.{
  ℕ, ◌+◌, ◌*◌, ◌≡◌, Bool, Option, none, some, List, [], ◌∷◌, ◌++◌, length, leb, if◌then◌else◌,
}
use sertos.Types.{Status, ok, resource_busy}

-- What a client asks, of an item's bytes or for an item, and what it learns.
pub data Request : Type 0 where
  send : List ℕ → Request
  receive : Request

abbrev pub Reply : Type 0
Reply = Status × Option (List ℕ)

-- The line, with the bytes that there is room for and the size of an item.
module _ (capacity size : ℕ) where
  unfoldable pub answer : List (List ℕ) → Request → List (List ℕ) × Reply
  answer items (send item) =
      if leb (length items * size + size) capacity
      then (items ++ item ∷ [], (ok, none))
      else (items, (resource_busy, none))
  answer [] receive = ([], (resource_busy, none))
  answer (item ∷ items) receive = (items, (ok, some item))

  unfoldable pub answers : List (List ℕ) → List Request → List Reply
  unfolding answer
  answers items [] = []
  answers items (r ∷ rs) = let (items', reply) = answer items r in reply ∷ answers items' rs

-- Every item that is sent has the size of the queue's items.
abbrev pub AreSized : ℕ → List (List ℕ) → Type 0
AreSized size [] = Unit
AreSized size (x ∷ xs) = (length x ≡ size) × AreSized size xs

abbrev pub AreRequests : ℕ → List Request → Type 0
AreRequests size [] = Unit
AreRequests size (send x ∷ rs) = (length x ≡ size) × AreRequests size rs
AreRequests size (receive ∷ rs) = AreRequests size rs
