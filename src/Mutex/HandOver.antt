-- ===== src/Mutex/HandOver.antt =====
-- The release of a mutex of src/sertos_mutex.c.
use sertos.Base.{ℕ}
use sertos.Modules.{Modules, ListLaws, BitmapLaws}
use sertos.Kernel.{Kernel, Mutex}
use sertos.Mutex.{restore_owner_priority}

module _ ⦃m : Modules⦄ (lists : ListLaws m) (bits : BitmapLaws m) (k : Kernel) (h current : ℕ) where
  abbrev restored : Kernel
  restored = restore_owner_priority k h current
