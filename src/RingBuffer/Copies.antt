-- ===== src/RingBuffer/Copies.antt =====
-- toxcore/util.c: the pointers that `rb_data` copies, and valid rings.
use insert_project_name_here.Base.{
  ℕ, zero, suc, ◌+◌, ◌-◌, ◌%◌, ◌^◌, ◌≤◌, ◌<◌, ◌≡◌, ◌⊎◌, refl, ap, ◌∙◌, inl, inr, Option, List, [],
  ◌∷◌, ◌++◌, arith, drop,
}
use native.Mathlib.Decide.{dec_lt}
use mathlib.Core.Path.{ap₂}
use native.Mathlib.Numerals.{add-one}
use native.Mathlib.Nat.{add-zero, suc-add, mod-eq_of_lt, mod-eq-sub-mod}
use insert_project_name_here.RingBuffer.{RingBuffer, rb_write, rb_read, rb_size, copy_slots}

-- Both ends lie in the array, which has room for a pointer and the empty element.
pub record IsRing {ℓ} {A : Type ℓ} (b : RingBuffer A) : Type 0 where
  pub word : b.size < 2 ^ 16
  pub room : 1 < b.size
  pub start_in : b.start < b.size
  pub end_in : b.end < b.size

-- A remainder of a number below twice the modulus.
pub mod_cases : (x m : ℕ) → x < m + m → ((x < m) × (x % m ≡ x)) ⊎ ((m ≤ x) × (x % m ≡ x - m))
mod_cases x m h = elim (dec_lt x m) [
  | yes p ↦ inl (p, mod-eq_of_lt p)
  | no p ↦ inr (
    omega arith,
    mod-eq-sub-mod {n = x} {m = m} (omega arith) ∙ mod-eq_of_lt {n = x - m} {m = m} (omega arith),
  )
]

module _ {ℓ} {A : Type ℓ} where
  pub size_facts :
      {b : RingBuffer A}
      → IsRing b
      → (rb_size b < b.size) × (b.end ≡ (b.start + rb_size b) % b.size)
  unfolding rb_size
  size_facts {b} r = (
    ground (arith, r.start_in, r.end_in),
    ground (
      arith,
      r.start_in,
      r.end_in,
      mod_cases b.end b.size,
      mod_cases (b.size - b.start + b.end + b.start) b.size,
      mod_cases (b.start + rb_size b) b.size,
    ),
  )

  -- A ring after a write.
  pub rb_write-IsRing : {b : RingBuffer A} (p : A) → IsRing b → IsRing (rb_write b p).0
  unfolding rb_write
  rb_write-IsRing {b} p r = record {
    word = r.word;
    room = r.room;
    start_in = ground (arith, r.start_in, r.end_in);
    end_in = ground (arith, r.start_in, r.end_in);
  }

  pub rb_read-IsRing : {b : RingBuffer A} → IsRing b → IsRing (rb_read b).0
  unfolding rb_read
  rb_read-IsRing {b} r = record {
    word = ground (arith, r.word);
    room = ground (arith, r.room);
    start_in = ground (arith, r.start_in, r.end_in);
    end_in = ground (arith, r.start_in, r.end_in);
  }

-- The pointers `g i`, `g (i + 1)`, … : `n` of them.
unfoldable pub collect {ℓ} : {A : Type ℓ} → (ℕ → Option A) → ℕ → ℕ → List (Option A)
collect g i zero = []
collect g i (suc n) = g i ∷ collect g (i + 1) n

module _ {ℓ} {A : Type ℓ} where
  pub collect-ext :
      (g h : ℕ → Option A) (i n : ℕ)
      → ((k : ℕ) → i ≤ k → k < i + n → g k ≡ h k)
      → collect g i n ≡ collect h i n
  unfolding collect
  collect-ext g h i zero e = refl
  collect-ext g h i (suc n) e =
      ap₂ ◌∷◌ (e i (omega arith) (omega arith))
        (collect-ext g h (i + 1) n (λ k p q. e k (omega arith) (omega arith)))

  pub collect-snoc :
      (g : ℕ → Option A) (i n : ℕ) → collect g i (n + 1) ≡ collect g i n ++ (g (i + n) ∷ [])
  unfolding collect
  collect-snoc g i zero = simp add-zero
  collect-snoc g i (suc n) = simp (suc-add) (
      ap (λ l. g i ∷ l)
        (collect-snoc g (i + 1) n ∙ ap (λ k. collect g (i + 1) n ++ (g k ∷ [])) (omega arith)))

  pub collect-shift :
      (g : ℕ → Option A) (i n : ℕ) → collect g (i + 1) n ≡ collect (λ k. g (k + 1)) i n
  unfolding collect
  collect-shift g i zero = refl
  collect-shift g i (suc n) = ap (λ l. g (i + 1) ∷ l) (collect-shift g (i + 1) n)

  pub collect-drop :
      (g : ℕ → Option A) (n : ℕ) → drop 1 (collect g 0 (n + 1)) ≡ collect (λ k. g (k + 1)) 0 n
  unfolding collect
  collect-drop g n = rw add-one (collect-shift g 0 n)

  pub copy_slots-collect :
      (b : RingBuffer A) (i n : ℕ)
      → copy_slots b i n ≡ collect (λ k. b.slots ((b.start + k) % b.size)) i n
  unfolding copy_slots collect
  copy_slots-collect b i zero = refl
  copy_slots-collect b i (suc n) =
      ap (λ l. b.slots ((b.start + i) % b.size) ∷ l) (copy_slots-collect b (i + 1) n)
