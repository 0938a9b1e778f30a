-- ===== src/RingBuffer/Runs.antt =====
-- toxcore/util.c: sequences of calls of the ring buffer against a bounded queue.
use insert_project_name_here.Base.{
  ℕ, zero, suc, ◌+◌, ◌-◌, ◌≡◌, ◌≢◌, refl, sym, ap, ◌∙◌, Option, none, some, List, [], ◌∷◌, ◌++◌,
  arith, length, drop, leb, if◌then◌else◌, Bool-cases, inl, inr,
}
use insert_project_name_here.RingBuffer.{
  RingBuffer, rb_full, rb_write, rb_read, rb_size, rb_data, copy_slots,
}
use insert_project_name_here.RingBuffer.Copies.{IsRing, rb_write-IsRing, rb_read-IsRing}
use insert_project_name_here.RingBuffer.Refine.{rb_full_iff, data-read, rb_write-data, rb_read-data}

pub data RbCall {ℓ} (A : Type ℓ) : Type ℓ where
  put : A → RbCall A
  get : RbCall A

module _ {ℓ} {A : Type ℓ} where
  -- A call, and the pointer that it gives: the dropped one, or the one that is read.
  unfoldable pub perform : RingBuffer A → RbCall A → RingBuffer A × Option A
  perform b (put p) = rb_write b p
  perform b get = ((rb_read b).0, (rb_read b).1)

  unfoldable pub perform_all : RingBuffer A → List (RbCall A) → RingBuffer A × List (Option A)
  perform_all b [] = (b, [])
  perform_all b (c ∷ calls) =
      let q = perform b c in let rest = perform_all q.0 calls in (rest.0, q.1 ∷ rest.1)

  -- The same on a queue with room for `room` pointers, which drops the oldest.
  abbrev pub first : List (Option A) → Option A
  first [] = none
  first (p ∷ ps) = p

  abbrev pub queue_step : ℕ → List (Option A) → RbCall A → List (Option A) × Option A
  queue_step room l (put p) =
      if leb room (length l)
      then (drop 1 (l ++ (some p ∷ [])), first l)
      else (l ++ (some p ∷ []), none)
  queue_step room l get = (drop 1 l, first l)

  abbrev pub queue_run : ℕ → List (Option A) → List (RbCall A) → List (Option A) × List (Option A)
  queue_run room l [] = (l, [])
  queue_run room l (c ∷ calls) =
      let q = queue_step room l c in let rest = queue_run room q.0 calls in (rest.0, q.1 ∷ rest.1)

  length-copy_slots : (b : RingBuffer A) (i n : ℕ) → length (copy_slots b i n) ≡ n
  unfolding copy_slots
  length-copy_slots b i zero = refl
  length-copy_slots b i (suc n) = ap suc (length-copy_slots b (i + 1) n)

  length-rb_data : (b : RingBuffer A) → length (rb_data b) ≡ rb_size b
  unfolding rb_data
  length-rb_data b = length-copy_slots b 0 (rb_size b)

  -- The pointer at the start is the first that `rb_data` lists.
  first-rb_data :
      {b : RingBuffer A} → IsRing b → rb_size b ≢ 0 → first (rb_data b) ≡ b.slots b.start
  first-rb_data {b} r h = rw (data-read r (rb_size b - 1) (omega (arith, h))) refl

  empty_list : (l : List (Option A)) → length l ≡ 0 → l ≡ []
  empty_list [] e = refl
  empty_list (p ∷ ps) e = absurd (omega (arith, e))

  is_full : {b : RingBuffer A} → IsRing b → rb_full b ≡ leb (b.size - 1) (length (rb_data b))
  is_full {b} r = elim (Bool-cases (rb_full b)) [
    | inl e ↦ ground (arith, e, length-rb_data b, (rb_full_iff r).0 e)
    | inr e ↦ ground (arith, e, length-rb_data b, (rb_full_iff r).1 e)
  ]

  -- A call, and what the queue does.
  abbrev Stepped : RingBuffer A → RbCall A → Type ℓ
  Stepped b c = (rb_data (perform b c).0, (perform b c).1) ≡ queue_step (b.size - 1) (rb_data b) c

  put-Stepped : (b : RingBuffer A) (p : A) → IsRing b → Stepped b (put p)
  unfolding perform
  put-Stepped b p r = elim (Bool-cases (rb_full b)) [
    | inl e ↦
        let some_held : rb_size b ≢ 0 =
          λ z. absurd (omega (arith, z, (rb_full_iff r).0 e, r.room)) in
        rw
          (
            sym (is_full r),
            (rb_write-data r p).0,
            (rb_write-data r p).1,
            e,
            first-rb_data r some_held,
          )
          refl
    | inr e ↦ rw (sym (is_full r), (rb_write-data r p).0, (rb_write-data r p).1, e) refl
  ]

  get-Stepped : (b : RingBuffer A) → IsRing b → (n : ℕ) → rb_size b ≡ n → Stepped b get
  unfolding perform
  get-Stepped b r zero e =
      rw ((rb_read-data r).0 e, empty_list (rb_data b) (length-rb_data b ∙ e)) refl
  get-Stepped b r (suc n) e = rw (((rb_read-data r).1 (omega (arith, e))).0) refl

  perform-Stepped : (b : RingBuffer A) (c : RbCall A) → IsRing b → Stepped b c
  perform-Stepped b (put p) r = put-Stepped b p r
  perform-Stepped b get r = get-Stepped b r (rb_size b) refl

  perform-IsRing : (b : RingBuffer A) (c : RbCall A) → IsRing b → IsRing (perform b c).0
  unfolding perform
  perform-IsRing b (put p) r = rb_write-IsRing p r
  perform-IsRing b get r = rb_read-IsRing r

  size-perform : (b : RingBuffer A) (c : RbCall A) → (perform b c).0.size ≡ b.size
  unfolding perform rb_write rb_read
  size-perform b (put p) = refl
  size-perform b get = ground arith

  -- From a valid ring with room for `size - 1` pointers, any sequence of `rb_write` and `rb_read`
  -- does what it does to a queue with that room, of which a write to the full queue drops the
  -- oldest pointer: the dropped and the read pointers are the same, and `rb_data` then lists the
  -- queue.
  pub perform_all-queue_run :
      (b : RingBuffer A) (calls : List (RbCall A))
      → IsRing b
      → (rb_data (perform_all b calls).0, (perform_all b calls).1)
        ≡ queue_run (b.size - 1) (rb_data b) calls
  unfolding perform_all
  perform_all-queue_run b [] r = refl
  perform_all-queue_run b (c ∷ calls) r =
      let q = perform b c in
      let rest = perform_all-queue_run q.0 calls (perform-IsRing b c r) in
      let step = perform-Stepped b c r in
      rw (sym step) (
        ap (λ (t : List (Option A) × List (Option A)). (t.0, q.1 ∷ t.1))
          (rw (size-perform b c) at rest))
