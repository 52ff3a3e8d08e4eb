-- ===== src/Modules/Plain.antt =====
-- One way to meet the laws of the submodules, for the runs of tests: plain lists, bits as functions,
-- rings that start at the first place of their buffer.
use sertos.Base.{
  ℕ, zero, suc, ◌+◌, ◌-◌, ◌<◌, ◌≡◌, refl, Bool, true, false, Option, none, some, [], ◌∷◌, ◌++◌,
  erase, length, leb, take, drop, head?, null, ◌==◌, if◌then◌else◌, arith,
}
use sertos.Types.{max_priorities}
use sertos.Modules.{Modules, ListLaws, BitmapLaws}

-- The highest of the first `n` bits that is set.
abbrev highest : ℕ → (ℕ → Bool) → Option ℕ
highest zero b = none
highest (suc n) b = let rest = highest n b in if b n then some n else rest

highest-none : (n : ℕ) (b : ℕ → Bool) (i : ℕ) → highest n b ≡ none → i < n → b i ≡ false
highest-none zero b i e h = elim h [ ]
highest-none (suc n) b i e h = ground (arith, highest-none n b i)

highest-some : (n : ℕ) (b : ℕ → Bool) (p : ℕ) → highest n b ≡ some p → (p < n) × (b p ≡ true)
highest-some zero b p e = ground arith
highest-some (suc n) b p e = ground (arith, highest-some n b p)

highest-last : (n : ℕ) (b : ℕ → Bool) (p q : ℕ) → highest n b ≡ some p → p < q → q < n → b q ≡ false
highest-last zero b p q e h l = elim l [ ]
highest-last (suc n) b p q e h l = ground (arith, highest-last n b p q)

instance abbrev pub plain : Modules
plain = record {
  linked_list_init = [];
  linked_list_insert_tail_direct = λ l t. l ++ t ∷ [];
  linked_list_remove_direct = λ l t. erase t l;
  remove_clears_node = false;
  linked_list_is_empty = null;
  linked_list_peek_head = head?;
  bitmap_init = λ n. some (λ i. false);
  bitmap_set_bit = λ b i j. if i == j then true else b j;
  bitmap_clear_bit = λ b i j. if i == j then false else b j;
  bitmap_find_last_set = highest max_priorities;
  ring_buffer_init = λ s n. some (record { buffer = []; mask = n - 1; head = 0; tail = 0 });
  ring_buffer_write = λ r l.
      if leb (length r.buffer + length l) r.mask
      then (record r { buffer = r.buffer ++ l; head = r.head + length l }, length l)
      else (r, 0);
  ring_buffer_read =
      λ r n. (record r { buffer = drop n r.buffer; head = r.head - n }, take n r.buffer);
  ring_buffer_count = λ r. length r.buffer;
  ring_buffer_capacity = λ r. r.mask;
  ring_buffer_clear = λ r. record r { buffer = []; head = 0 };
  ring_buffer_is_empty = λ r. null r.buffer;
  ring_buffer_is_full = λ r. length r.buffer == r.mask;
  memory_pool_malloc = λ p n. none;
  memory_pool_free = λ p b. erase b p;
  crc_32_calculate = λ l. 0;
}

pub plain_lists : ListLaws plain
plain_lists = record {
  init_lem = refl;
  insert_tail_lem = λ l t h. refl;
  remove_lem = λ l t h d. refl;
  is_empty_lem = λ l. refl;
  peek_head_lem = λ l. refl;
}

pub plain_bits : BitmapLaws plain
plain_bits = record {
  bits_init = ((λ i. false), refl, λ i. refl);
  set_lem = λ b i j l. refl;
  clear_lem = λ b i j l. refl;
  find_none = λ b i e l. highest-none max_priorities b i e l;
  find_some = λ b p e. highest-some max_priorities b p e;
  find_last = λ b p q e l h. highest-last max_priorities b p q e l h;
}
