-- ===== src/BsList/Sorted.antt =====
-- toxcore/list.c: insertion and deletion in the sorted array, seen as a map.
use insert_project_name_here.Base.{
  ℕ, zero, suc, ◌≤◌, ◌<◌, ◌≡◌, ◌≢◌, refl, ap, Bool, true, false, Option, none, some, List, [], ◌∷◌,
  ◌++◌, arith, if◌then◌else◌, length, take, drop, get_elem?,
}
use mathlib.Core.Path.{subst, sym}
use insert_project_name_here.BsList.Bytes.{
  Order, below, equal, above, memcmp, memcmp-equal, memcmp_self, memcmp-above, memcmp-below,
  compare_at,
}
use insert_project_name_here.BsList.Ascending.{AllAbove, IsSorted}

abbrev pub is_equal : Order → Bool
is_equal equal = true
is_equal _ = false

-- The id of a byte string, by a scan of all pairs of a key and an id.
unfoldable pub lookup : List ℕ → List (List ℕ) → List ℕ → Option ℕ
lookup x (k ∷ ks) (i ∷ is) =
    let rest = lookup x ks is in if is_equal (memcmp x k) then some i else rest
lookup x _ _ = none

AllAbove-equal :
    (x y : List ℕ) (ys : List (List ℕ)) (i : ℕ)
    → AllAbove y ys
    → compare_at x ys i ≡ some equal
    → memcmp x y ≡ above
AllAbove-equal x y [] i h e = ground arith
AllAbove-equal x y (z ∷ zs) zero h e =
    memcmp-below y x (subst (λ w. memcmp y w ≡ below) (sym (memcmp-equal x z (cc))) h.0)
AllAbove-equal x y (z ∷ zs) (suc i) h e = AllAbove-equal x y zs i h.1 e

pub lookup-at :
    (x : List ℕ) (ks : List (List ℕ)) (is : List ℕ) (i : ℕ)
    → IsSorted ks
    → length ks ≡ length is
    → compare_at x ks i ≡ some equal
    → lookup x ks is ≡ get_elem? is i
unfolding lookup
lookup-at x [] is i s l e = ground arith
lookup-at x (k ∷ ks) [] i s l e = absurd (omega arith)
lookup-at x (k ∷ ks) (j ∷ is) zero s l e = ground arith
lookup-at x (k ∷ ks) (j ∷ is) (suc i) s l e =
    ground (arith, AllAbove-equal x k ks i s.0 e, lookup-at x ks is i s.1 (omega arith) e)

pub lookup-ne :
    (x : List ℕ) (ks : List (List ℕ)) (is : List ℕ)
    → ((k : ℕ) → k < length ks → compare_at x ks k ≢ some equal)
    → lookup x ks is ≡ none
unfolding lookup
lookup-ne x [] is h = refl
lookup-ne x (k ∷ ks) [] h = refl
lookup-ne x (k ∷ ks) (j ∷ is) h =
    ground (arith, h 0 (omega arith), lookup-ne x ks is (λ k' l. h (suc k') (omega arith)))

lookup_of_AllAbove :
    (x : List ℕ) (ks : List (List ℕ)) (is : List ℕ) → AllAbove x ks → lookup x ks is ≡ none
unfolding lookup
lookup_of_AllAbove x [] is h = refl
lookup_of_AllAbove x (k ∷ ks) [] h = refl
lookup_of_AllAbove x (k ∷ ks) (j ∷ is) h = ground (arith, lookup_of_AllAbove x ks is h.1)

module _ (x : List ℕ) where
  pub lookup-insert :
      (y : List ℕ) (id : ℕ) (ks : List (List ℕ)) (is : List ℕ) (i : ℕ)
      → i ≤ length ks
      → length ks ≡ length is
      → ((k : ℕ) → k < i → compare_at x ks k ≡ some above)
      → lookup y (take i ks ++ (x ∷ drop i ks)) (take i is ++ (id ∷ drop i is))
        ≡ (if is_equal (memcmp y x) then some id else lookup y ks is)
  unfolding lookup
  lookup-insert y id ks is zero h l a = refl
  lookup-insert y id [] is (suc i) h l a = absurd (omega arith)
  lookup-insert y id (k ∷ ks) [] (suc i) h l a = absurd (omega arith)
  lookup-insert y id (k ∷ ks) (j ∷ is) (suc i) h l a = ground (
    arith,
    a 0 (omega arith),
    memcmp-equal y x,
    memcmp-equal y k,
    memcmp_self k,
    memcmp_self x,
    memcmp_self y,
    lookup-insert y id ks is i (omega arith) (omega arith) (λ k' q. a (suc k') (omega arith)),
  )

  AllAbove-insert :
      (z : List ℕ) (ks : List (List ℕ)) (i : ℕ)
      → AllAbove z ks
      → memcmp z x ≡ below
      → AllAbove z (take i ks ++ (x ∷ drop i ks))
  AllAbove-insert z ks zero h e = (e, h)
  AllAbove-insert z [] (suc i) h e = (e, tt)
  AllAbove-insert z (k ∷ ks) (suc i) h e = (h.0, AllAbove-insert z ks i h.1 e)

  AllAbove-of_below :
      (ks : List (List ℕ))
      → ((k : ℕ) → k < length ks → compare_at x ks k ≡ some below)
      → AllAbove x ks
  AllAbove-of_below [] h = tt
  AllAbove-of_below (k ∷ ks) h =
      (cc (h 0 (omega arith)), AllAbove-of_below ks (λ k' l. h (suc k') (omega arith)))

  pub insert-IsSorted :
      (ks : List (List ℕ)) (i : ℕ)
      → IsSorted ks
      → ((k : ℕ) → k < i → compare_at x ks k ≡ some above)
      → ((k : ℕ) → i ≤ k → k < length ks → compare_at x ks k ≡ some below)
      → IsSorted (take i ks ++ (x ∷ drop i ks))
  insert-IsSorted ks zero s a b = (AllAbove-of_below ks (λ k l. b k (omega arith) l), s)
  insert-IsSorted [] (suc i) s a b = (tt, tt)
  insert-IsSorted (k ∷ ks) (suc i) s a b = (
    AllAbove-insert k ks i s.0 (memcmp-above x k (cc (a 0 (omega arith)))),
    insert-IsSorted ks i s.1 (λ k' l. a (suc k') (omega arith))
        (λ k' l m. b (suc k') (omega arith) (omega arith)),
  )

  AllAbove-erase :
      (z : List ℕ) (ks : List (List ℕ)) (i : ℕ)
      → AllAbove z ks
      → AllAbove z (take i ks ++ drop (suc i) ks)
  AllAbove-erase z [] zero h = tt
  AllAbove-erase z [] (suc i) h = tt
  AllAbove-erase z (k ∷ ks) zero h = h.1
  AllAbove-erase z (k ∷ ks) (suc i) h = (h.0, AllAbove-erase z ks i h.1)

  pub erase-IsSorted :
      (ks : List (List ℕ)) (i : ℕ) → IsSorted ks → IsSorted (take i ks ++ drop (suc i) ks)
  erase-IsSorted [] zero s = tt
  erase-IsSorted [] (suc i) s = tt
  erase-IsSorted (k ∷ ks) zero s = s.1
  erase-IsSorted (k ∷ ks) (suc i) s = (AllAbove-erase k ks i s.0, erase-IsSorted ks i s.1)

  pub lookup-erase :
      (y : List ℕ) (ks : List (List ℕ)) (is : List ℕ) (i : ℕ)
      → IsSorted ks
      → length ks ≡ length is
      → compare_at x ks i ≡ some equal
      → lookup y (take i ks ++ drop (suc i) ks) (take i is ++ drop (suc i) is)
        ≡ (if is_equal (memcmp y x) then none else lookup y ks is)
  unfolding lookup
  lookup-erase y [] is i s l e = ground arith
  lookup-erase y (k ∷ ks) [] i s l e = absurd (omega arith)
  lookup-erase y (k ∷ ks) (j ∷ is) zero s l e =
      ground (
        arith,
        memcmp-equal y x,
        memcmp-equal x k,
        memcmp-equal y k,
        lookup_of_AllAbove k ks is s.0,
      )
  lookup-erase y (k ∷ ks) (j ∷ is) (suc i) s l e = ground (
    arith,
    AllAbove-equal x k ks i s.0 e,
    memcmp-equal y x,
    memcmp-equal y k,
    memcmp_self k,
    memcmp_self x,
    memcmp_self y,
    lookup-erase y ks is i s.1 (omega arith) e,
  )

pub length-insert {ℓ} :
    {A : Type ℓ} (xs : List A) (i : ℕ) (a : A)
    → length (take i xs ++ (a ∷ drop i xs)) ≡ suc (length xs)
length-insert xs zero a = refl
length-insert [] (suc i) a = refl
length-insert (x ∷ xs) (suc i) a = ap suc (length-insert xs i a)

pub length-erase {ℓ} :
    {A : Type ℓ} (xs : List A) (i : ℕ)
    → i < length xs
    → suc (length (take i xs ++ drop (suc i) xs)) ≡ length xs
length-erase [] i h = elim h [ ]
length-erase (x ∷ xs) zero h = refl
length-erase (x ∷ xs) (suc i) h = ap suc (length-erase xs i (omega arith))
