-- ===== src/BsList/Ascending.antt =====
-- toxcore/list.c: ascending arrays of byte strings, and comparisons with their elements.
use insert_project_name_here.Base.{
  ℕ, zero, suc, ◌≤◌, ◌<◌, ◌≡◌, refl, some, List, [], ◌∷◌, arith, length,
}
use insert_project_name_here.BsList.Bytes.{
  Order, below, above, memcmp, memcmp_trans, memcmp-above, memcmp-below, compare_at,
}

-- All strings of the list lie above `x`.
abbrev pub AllAbove : List ℕ → List (List ℕ) → Type 0
AllAbove x [] = Unit
AllAbove x (y ∷ ys) = (memcmp x y ≡ below) × AllAbove x ys

-- The strings ascend strictly.
abbrev pub IsSorted : List (List ℕ) → Type 0
IsSorted [] = Unit
IsSorted (x ∷ xs) = AllAbove x xs × IsSorted xs

pub compare_at-total :
    (x : List ℕ) (xs : List (List ℕ)) (i : ℕ)
    → i < length xs
    → (o : Order) × (compare_at x xs i ≡ some o)
compare_at-total x [] i h = elim h [ ]
compare_at-total x (y ∷ ys) zero h = (memcmp x y, refl)
compare_at-total x (y ∷ ys) (suc i) h = compare_at-total x ys i (omega arith)

-- What lies above a string of which all others lie above lies above it too.
AllAbove-above :
    (x y : List ℕ) (ys : List (List ℕ)) (i : ℕ)
    → AllAbove y ys
    → compare_at x ys i ≡ some above
    → memcmp x y ≡ above
AllAbove-above x y [] i h e = ground arith
AllAbove-above x y (z ∷ zs) zero h e =
    ground (arith, memcmp-above x z, memcmp_trans y z x, memcmp-below y x)
AllAbove-above x y (z ∷ zs) (suc i) h e = AllAbove-above x y zs i h.1 e

AllAbove-below :
    (x y : List ℕ) (ys : List (List ℕ)) (k : ℕ)
    → AllAbove y ys
    → memcmp x y ≡ below
    → k < length ys
    → compare_at x ys k ≡ some below
AllAbove-below x y [] k h e l = elim l [ ]
AllAbove-below x y (z ∷ zs) zero h e l = ground (arith, memcmp_trans x y z)
AllAbove-below x y (z ∷ zs) (suc k) h e l = AllAbove-below x y zs k h.1 e (omega arith)

pub above_before :
    (x : List ℕ) (xs : List (List ℕ)) (i k : ℕ)
    → IsSorted xs
    → compare_at x xs i ≡ some above
    → k ≤ i
    → compare_at x xs k ≡ some above
above_before x [] i k s e h = ground arith
above_before x (y ∷ ys) zero zero s e h = e
above_before x (y ∷ ys) zero (suc k) s e h = absurd (omega arith)
above_before x (y ∷ ys) (suc i) zero s e h = ground (arith, AllAbove-above x y ys i s.0 e)
above_before x (y ∷ ys) (suc i) (suc k) s e h = above_before x ys i k s.1 e (omega arith)

pub below_after :
    (x : List ℕ) (xs : List (List ℕ)) (i k : ℕ)
    → IsSorted xs
    → compare_at x xs i ≡ some below
    → i ≤ k
    → k < length xs
    → compare_at x xs k ≡ some below
below_after x [] i k s e h l = ground arith
below_after x (y ∷ ys) zero zero s e h l = e
below_after x (y ∷ ys) zero (suc k) s e h l =
    AllAbove-below x y ys k s.0 (ground arith) (omega arith)
below_after x (y ∷ ys) (suc i) zero s e h l = absurd (omega arith)
below_after x (y ∷ ys) (suc i) (suc k) s e h l =
    below_after x ys i k s.1 e (omega arith) (omega arith)
