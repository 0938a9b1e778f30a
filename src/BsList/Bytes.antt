-- ===== src/BsList/Bytes.antt =====
-- toxcore/list.c: byte strings in the order of `memcmp`.
use insert_project_name_here.Base.{
  ℕ, zero, suc, ◌≡◌, refl, List, [], ◌∷◌, arith, ltb, ◌==◌, if◌then◌else◌, ◌⊎◌, inl, inr, Option,
  some, none,
}

-- The sign of `memcmp(data, element)`.
pub data Order : Type 0 where
  below equal above : Order

-- Strings of one length are compared; a shorter one would come first.
unfoldable pub memcmp : List ℕ → List ℕ → Order
memcmp [] [] = equal
memcmp [] (b ∷ bs) = below
memcmp (a ∷ r) [] = above
memcmp (a ∷ r) (b ∷ bs) =
    let rest = memcmp r bs in if a == b then rest else if ltb a b then below else above

pub Order-cases : (o : Order) → (o ≡ equal) ⊎ ((o ≡ above) ⊎ (o ≡ below))
Order-cases equal = inl refl
Order-cases above = inr (inl refl)
Order-cases below = inr (inr refl)

pub memcmp-equal : (x y : List ℕ) → memcmp x y ≡ equal → x ≡ y
unfolding memcmp
memcmp-equal [] [] e = refl
memcmp-equal [] (b ∷ bs) e = ground arith
memcmp-equal (a ∷ r) [] e = ground arith
memcmp-equal (a ∷ r) (b ∷ bs) e = ground (arith, memcmp-equal r bs)

pub memcmp_self : (x : List ℕ) → memcmp x x ≡ equal
unfolding memcmp
memcmp_self [] = refl
memcmp_self (a ∷ r) = ground (arith, memcmp_self r)

pub memcmp-above : (x y : List ℕ) → memcmp x y ≡ above → memcmp y x ≡ below
unfolding memcmp
memcmp-above [] [] e = ground arith
memcmp-above [] (b ∷ bs) e = ground arith
memcmp-above (a ∷ r) [] e = refl
memcmp-above (a ∷ r) (b ∷ bs) e = ground (arith, memcmp-above r bs)

pub memcmp-below : (x y : List ℕ) → memcmp x y ≡ below → memcmp y x ≡ above
unfolding memcmp
memcmp-below [] [] e = ground arith
memcmp-below [] (b ∷ bs) e = refl
memcmp-below (a ∷ r) [] e = ground arith
memcmp-below (a ∷ r) (b ∷ bs) e = ground (arith, memcmp-below r bs)

pub memcmp_trans : (x y z : List ℕ) → memcmp x y ≡ below → memcmp y z ≡ below → memcmp x z ≡ below
unfolding memcmp
memcmp_trans [] [] z e f = ground arith
memcmp_trans [] (b ∷ bs) [] e f = ground arith
memcmp_trans [] (b ∷ bs) (c ∷ cs) e f = refl
memcmp_trans (a ∷ r) [] z e f = ground arith
memcmp_trans (a ∷ r) (b ∷ bs) [] e f = ground arith
memcmp_trans (a ∷ r) (b ∷ bs) (c ∷ cs) e f = ground (arith, memcmp_trans r bs cs)

-- `memcmp(data, list->data + list->element_size * i, list->element_size)`; `none` is a read past the end.
abbrev pub compare_at : List ℕ → List (List ℕ) → ℕ → Option Order
compare_at x [] i = none
compare_at x (y ∷ ys) zero = some (memcmp x y)
compare_at x (y ∷ ys) (suc i) = compare_at x ys i
