-- ===== src/RingBuffer.antt =====
-- toxcore/util.c: `RingBuffer`, a queue of pointers that drops the oldest when it is full. A pointer is
-- an element of any type; NULL is `none`.
pub mod Copies
pub mod Refine
pub mod Runs
mod Tests
use insert_project_name_here.Base.{
  ℕ, zero, suc, ◌+◌, ◌-◌, ◌%◌, ◌^◌, Bool, true, false, Option, none, some, List, [], ◌∷◌, u16, ltb,
  ◌==◌, if◌then◌else◌,
}

-- `struct RingBuffer`; the slots below `size` are the array's.
pub record RingBuffer {ℓ} (A : Type ℓ) : Type ℓ where
  pub size : ℕ  -- uint16_t
  pub start : ℕ  -- uint16_t
  pub end : ℕ  -- uint16_t
  pub slots : ℕ → Option A

module _ {ℓ} {A : Type ℓ} where
  unfoldable pub store_slot : (ℕ → Option A) → ℕ → Option A → ℕ → Option A
  store_slot f i v = λ j. if j == i then v else f j

  unfoldable pub rb_full : RingBuffer A → Bool
  rb_full b = (b.end + 1) % b.size == b.start

  unfoldable pub rb_empty : RingBuffer A → Bool
  rb_empty b = b.end == b.start

  -- The buffer, and the pointer that was dropped.
  unfoldable pub rb_write : RingBuffer A → A → RingBuffer A × Option A
  unfolding store_slot
  rb_write b p =
      let dropped = if (b.end + 1) % b.size == b.start then b.slots b.start else none in
      let end' = (b.end + 1) % b.size in
      (
        record b {
          slots = store_slot b.slots b.end (some p);
          end = end';
          start = if end' == b.start then (b.start + 1) % b.size else b.start;
        },
        dropped,
      )

  -- The buffer, `*p`, and the returned flag.
  unfoldable pub rb_read : RingBuffer A → RingBuffer A × Option A × Bool
  rb_read b =
      if b.end == b.start
      then (b, none, false)
      else (record b { start = (b.start + 1) % b.size }, b.slots b.start, true)

  -- `rb_new` where both allocations succeed.
  unfoldable pub rb_new : ℕ → RingBuffer A
  rb_new size = record { size = u16 (size + 1); start = 0; end = 0; slots = λ _. none }

  unfoldable pub rb_size : RingBuffer A → ℕ
  unfolding rb_empty
  rb_size b =
      if rb_empty b
      then 0
      else if ltb b.start b.end
      then b.end - b.start
      else b.size - b.start + b.end

  -- The loop of `rb_data`, with `n` rounds left.
  unfoldable pub copy_slots : RingBuffer A → ℕ → ℕ → List (Option A)
  copy_slots b i zero = []
  copy_slots b i (suc n) = b.slots ((b.start + i) % b.size) ∷ copy_slots b (i + 1) n

  unfoldable pub rb_data : RingBuffer A → List (Option A)
  unfolding copy_slots rb_size
  rb_data b = copy_slots b 0 (rb_size b)
