-- ===== src/RingBuffer/Refine.antt =====
-- toxcore/util.c: the ring buffer against a bounded queue.
use insert_project_name_here.Base.{
  ℕ, suc, ◌+◌, ◌-◌, ◌%◌, ◌<◌, ◌≡◌, ◌≢◌, refl, ap, sym, ◌∙◌, true, false, Bool-cases, inl, inr, none,
  some, [], ◌∷◌, ◌++◌, arith, if◌then◌else◌, drop,
}
use mathlib.Core.Path.{ap₂}
use native.Mathlib.Nat.{add-zero, mod-add-mod, mod-eq_of_lt}
use insert_project_name_here.RingBuffer.{RingBuffer, rb_full, rb_write, rb_read, rb_size, rb_data}
use insert_project_name_here.RingBuffer.Copies.{
  IsRing, mod_cases, size_facts, rb_write-IsRing, rb_read-IsRing, collect, collect-ext,
  collect-snoc, collect-shift, collect-drop, copy_slots-collect,
}

module _ {ℓ} {A : Type ℓ} {b : RingBuffer A} (r : IsRing b) where
  pub rb_full_iff :
      (rb_full b ≡ true → rb_size b + 1 ≡ b.size) × (rb_full b ≡ false → rb_size b + 1 < b.size)
  unfolding rb_full rb_size
  rb_full_iff = (
    λ e. ground (arith, r.start_in, r.end_in, r.room, mod_cases (b.end + 1) b.size),
    λ e. ground (arith, r.start_in, r.end_in, r.room, mod_cases (b.end + 1) b.size),
  )

  size-write : (p : A) → rb_size (rb_write b p).0 ≡ (if rb_full b then rb_size b else rb_size b + 1)
  unfolding rb_full rb_size rb_write
  size-write p = ground (
    arith,
    r.start_in,
    r.end_in,
    r.room,
    mod_cases (b.end + 1) b.size,
    mod_cases (b.start + 1) b.size,
  )

  size-read : rb_size b ≢ 0 → rb_size (rb_read b).0 + 1 ≡ rb_size b
  unfolding rb_size rb_read
  size-read h = ground (arith, r.start_in, r.end_in, r.room, mod_cases (b.start + 1) b.size)

  -- Slots that are fewer than `size` steps apart differ.
  slot_ne : (k : ℕ) → k < rb_size b → (b.start + k) % b.size ≢ b.end
  slot_ne k h =
      let f = size_facts r in
      ground (
        arith,
        r.start_in,
        f,
        mod_cases (b.start + k) b.size,
        mod_cases (b.start + rb_size b) b.size,
      )

  slot_turn : (k : ℕ) → ((b.start + 1) % b.size + k) % b.size ≡ (b.start + (k + 1)) % b.size
  slot_turn k = mod-add-mod (b.start + 1) b.size k ∙ ap (λ m. m % b.size) (omega arith)

  slots-write_old :
      (p : A) (k : ℕ)
      → k < rb_size b
      → (rb_write b p).0.slots ((b.start + k) % b.size) ≡ b.slots ((b.start + k) % b.size)
  unfolding rb_write
  slots-write_old p k h = ground (arith, slot_ne k h)

  slots-write_new : (p : A) → (rb_write b p).0.slots ((b.start + rb_size b) % b.size) ≡ some p
  unfolding rb_write
  slots-write_new p = ground (arith, size_facts r)

  start-write :
      (p : A) → (rb_write b p).0.start ≡ (if rb_full b then (b.start + 1) % b.size else b.start)
  unfolding rb_write rb_full
  start-write p = refl

  data_lem : rb_data b ≡ collect (λ k. b.slots ((b.start + k) % b.size)) 0 (rb_size b)
  unfolding rb_data
  data_lem = copy_slots-collect b 0 (rb_size b)

module _ {ℓ} {A : Type ℓ} {b : RingBuffer A} (r : IsRing b) (p : A) where
  -- The pointers after a write, counted from the old start.
  written :
      collect (λ k. (rb_write b p).0.slots ((b.start + k) % b.size)) 0 (rb_size b + 1)
      ≡ rb_data b ++ (some p ∷ [])
  written =
      collect-snoc (λ k. (rb_write b p).0.slots ((b.start + k) % b.size)) 0 (rb_size b)
      ∙ ap₂ (λ l q. l ++ (q ∷ []))
          (collect-ext _ _ 0 (rb_size b) (λ k h l. slots-write_old r p k (omega arith))
            ∙ sym (data_lem r))
          (ap (λ k. (rb_write b p).0.slots ((b.start + k) % b.size)) (omega arith)
            ∙ slots-write_new r p)

  pub size_same : (rb_write b p).0.size ≡ b.size
  unfolding rb_write
  size_same = refl

  write_room : rb_full b ≡ false → rb_data (rb_write b p).0 ≡ rb_data b ++ (some p ∷ [])
  write_room e =
      data_lem (rb_write-IsRing p r)
      ∙ (rw (size-write r p, e, start-write r p, e, size_same) written)

  write_over : rb_full b ≡ true → rb_data (rb_write b p).0 ≡ drop 1 (rb_data b ++ (some p ∷ []))
  write_over e =
      data_lem (rb_write-IsRing p r)
      ∙ (rw (size-write r p, e, start-write r p, e, size_same)
          (collect-ext _ _ 0 (rb_size b) (λ k h l. ap (rb_write b p).0.slots (slot_turn r k))
            ∙ sym (collect-drop (λ k. (rb_write b p).0.slots ((b.start + k) % b.size)) (rb_size b))
            ∙ ap (drop 1) written))

  dropped : (rb_write b p).1 ≡ (if rb_full b then b.slots b.start else none)
  unfolding rb_write rb_full
  dropped = refl

  -- In a valid ring, `rb_write` appends the pointer to what `rb_data` lists; if the ring was full
  -- the oldest pointer is dropped from the list and returned, otherwise nothing is returned.
  pub rb_write-data :
      (rb_data (rb_write b p).0
        ≡ (if rb_full b then drop 1 (rb_data b ++ (some p ∷ [])) else rb_data b ++ (some p ∷ [])))
      × ((rb_write b p).1 ≡ (if rb_full b then b.slots b.start else none))
  rb_write-data = (
    elim (Bool-cases (rb_full b)) [ inl e ↦ rw e (write_over e) | inr e ↦ rw e (write_room e) ],
    dropped,
  )

module _ {ℓ} {A : Type ℓ} {b : RingBuffer A} (r : IsRing b) where
  pub read_parts :
      rb_size b ≢ 0
      → ((rb_read b).0.start ≡ (b.start + 1) % b.size)
        × ((rb_read b).0.slots ≡ b.slots)
        × ((rb_read b).0.size ≡ b.size)
        × ((rb_read b).1 ≡ b.slots b.start)
        × ((rb_read b).2 ≡ true)
  unfolding rb_read rb_size
  read_parts h = (ground arith, ground arith, ground arith, ground arith, ground arith)

  read_empty : rb_size b ≡ 0 → rb_read b ≡ (b, none, false)
  unfolding rb_read rb_size
  read_empty e = ground (arith, r.start_in, r.end_in)

  pub data-read : (n : ℕ) → rb_size b ≡ suc n → rb_data b ≡ b.slots b.start ∷ rb_data (rb_read b).0
  unfolding collect
  data-read n e =
      let h : rb_size b ≢ 0 = omega arith in
      let q = read_parts h in
      data_lem r
      ∙ (rw e (
          ap₂ ◌∷◌ (ap b.slots (ap (λ k. k % b.size) (add-zero b.start) ∙ mod-eq_of_lt r.start_in))
            (rest q (omega (arith, size-read r h)))))
    where
      rest :
          ((rb_read b).0.start ≡ (b.start + 1) % b.size)
            × ((rb_read b).0.slots ≡ b.slots)
            × ((rb_read b).0.size ≡ b.size)
            × ((rb_read b).1 ≡ b.slots b.start)
            × ((rb_read b).2 ≡ true)
          → rb_size (rb_read b).0 ≡ n
          → collect (λ k. b.slots ((b.start + k) % b.size)) 1 n ≡ rb_data (rb_read b).0
      rest q z =
          collect-shift (λ k. b.slots ((b.start + k) % b.size)) 0 n
          ∙ (collect-ext _ _ 0 n (λ k g l. ap b.slots (sym (slot_turn r k)))
              ∙ sym (data_lem (rb_read-IsRing r) ∙ rw (z, q.0, q.1, q.2) refl))

  -- In a valid ring, `rb_read` on an empty ring changes nothing and fails; otherwise it takes the
  -- first pointer off what `rb_data` lists, and succeeds.
  pub rb_read-data :
      (rb_size b ≡ 0 → rb_read b ≡ (b, none, false))
      × (rb_size b ≢ 0
          → (rb_data b ≡ (rb_read b).1 ∷ rb_data (rb_read b).0) × ((rb_read b).2 ≡ true))
  rb_read-data = (
    read_empty,
    λ h. let q = read_parts h in (rw (q.3) (data-read (rb_size b - 1) (omega arith)), q.4),
  )
