-- ===== src/Stream/Trigger.antt =====
-- The trigger level of a stream buffer of src/sertos_stream_buffer.c.
use sertos.Base.{
  ℕ, ◌≤◌, ◌≡◌, refl, ◌⊎◌, inl, inr, true, false, none, some, List, ltb, ==-self, arith, Bool-cases,
  Option-cases,
}
use sertos.Types.{ok, invalid_param}
use sertos.Modules.{Modules, RingBuffer}
use sertos.Kernel.{Kernel, StreamBuffer}
use sertos.Stream.{create_static, set_up, at_least_one, is_valid_handle}

-- A trigger level from one byte to all that the buffer holds.
abbrev pub IsTriggered : ⦃m : Modules⦄ → StreamBuffer → Type 0
IsTriggered ⦃m⦄ s =
    (1 ≤ s.trigger_level_bytes) × (s.trigger_level_bytes ≤ m.ring_buffer_capacity s.ring_buf)

module _ ⦃m : Modules⦄ (k : Kernel) (h address : ℕ) where
  set_up_cases :
      (rb : RingBuffer) (trigger : ℕ)
      → 1 ≤ trigger
      → let (k', out, status) = set_up k h address rb trigger in
        ((status ≡ ok)
          × (out ≡ some h)
          × (is_valid_handle k' (some h) ≡ true)
          × IsTriggered (k'.stream_buffers h))
        ⊎ ((status ≡ invalid_param) × (out ≡ none))
  unfolding set_up is_valid_handle
  set_up_cases rb trigger pos = elim (Bool-cases (ltb (m.ring_buffer_capacity rb) trigger)) [
    | inl e ↦ rw (set_up, e) (inr (refl, refl))
    | inr e ↦
        rw (set_up, e)
          (inl (refl, refl, rw (==-self h) refl, rw (==-self h) (pos, ground (arith, e))))
  ]

  set_up_reached :
      (bytes : List ℕ) (size trigger : ℕ) (rb : RingBuffer)
      → ltb size 2 ≡ false
      → m.ring_buffer_init bytes size ≡ some rb
      → create_static k (some h) (some (address, bytes)) size trigger true
        ≡ set_up k h address rb (at_least_one trigger)
  unfolding create_static
  set_up_reached bytes size trigger rb big e = rw (big, e) refl

  too_small :
      (bytes : List ℕ) (size trigger : ℕ)
      → (ltb size 2 ≡ true) ⊎ (m.ring_buffer_init bytes size ≡ none)
      → create_static k (some h) (some (address, bytes)) size trigger true
        ≡ (k, none, invalid_param)
  unfolding create_static
  too_small bytes size trigger (inl small) = rw small refl
  too_small bytes size trigger (inr e) = elim (Bool-cases (ltb size 2)) [
    | inl small ↦ rw small refl
    | inr big ↦ rw (big, e) refl
  ]

  at_least_one_le : (n : ℕ) → 1 ≤ at_least_one n
  unfolding at_least_one
  at_least_one_le n = ground arith

  -- A stream buffer that is created in given storage is valid and has a trigger level from one byte
  -- to its capacity, or the call fails with an invalid parameter and gives no handle.
  pub create_static_cases :
      (bytes : List ℕ) (size trigger : ℕ)
      → let (k', out, status) =
          create_static k (some h) (some (address, bytes)) size trigger true in
        ((status ≡ ok)
          × (out ≡ some h)
          × (is_valid_handle k' (some h) ≡ true)
          × IsTriggered (k'.stream_buffers h))
        ⊎ ((status ≡ invalid_param) × (out ≡ none))
  create_static_cases bytes size trigger = elim (Bool-cases (ltb size 2)) [
    | inl small ↦ rw (too_small bytes size trigger (inl small)) (inr (refl, refl))
    | inr big ↦ elim (Option-cases (m.ring_buffer_init bytes size)) [
      | inl e ↦ rw (too_small bytes size trigger (inr e)) (inr (refl, refl))
      | inr (rb, e) ↦
          rw (set_up_reached bytes size trigger rb big e)
            (set_up_cases rb (at_least_one trigger) (at_least_one_le trigger))
    ]
  ]
