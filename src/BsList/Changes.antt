-- ===== src/BsList/Changes.antt =====
-- toxcore/list.c: `bs_list_remove` against a map from byte strings to ids.
use insert_project_name_here.Base.{
  ℕ, zero, suc, ◌/◌, ◌<◌, ◌≡◌, ◌≢◌, inl, inr, refl, ◌∙◌, Bool, true, false, Bool-cases, Option,
  none, some, List, [], ◌∷◌, arith, if◌then◌else◌, length, get_elem?, ltb, ◌*◌, ◌^◌, ◌≤◌, ◌==◌, u32,
  if_elim,
}
use native.Mathlib.Nat.{mul-le-mul_left, one-le-mul}
use insert_project_name_here.BsList.Bytes.{Order, memcmp, compare_at}
use insert_project_name_here.BsList.Search.{IsPosition, IsValid, find-IsPosition}
use insert_project_name_here.BsList.Sorted.{
  is_equal, lookup-at, lookup-ne, erase-IsSorted, lookup-erase, length-erase,
}
use insert_project_name_here.BsList.{
  BsList, Position, at, gap, find, erase_at, shrink, bs_list_remove, same_id, realloc, data_bytes,
}
use insert_project_name_here.BsList.Adding.{id_of, no_equal}

exact : {bytes : ℕ} → bytes < 2 ^ 32 → bytes ≤ u32 bytes
exact h = omega (arith, h)

-- Half of the capacity takes no more bytes than the block of the data has.
halved : {l : BsList} → IsValid l → l.element_size * (l.capacity / 2) < 2 ^ 32
halved {l} v = omega (
  arith,
  mul-le-mul_left {m = l.capacity / 2} {n = l.capacity} l.element_size (omega arith),
  v.data_fits,
  v.data_word,
)

no_bytes : (size k : ℕ) → size * k ≡ 0 → 1 ≤ k → size ≡ 0
no_bytes zero k e h = refl
no_bytes (suc size) k e h =
    absurd (omega (arith, e, h, one-le-mul {a = suc size} {b = k} (omega arith) h))

-- A failed `realloc` to half of the capacity leaves the data; if no bytes were asked for, none were
-- needed.
halved_kept :
    {l : BsList}
    → IsValid l
    → ltb l.n (l.capacity / 2) ≡ true
    → IsValid
        (record l { data_room = (realloc false (data_bytes l (l.capacity / 2)) l.data_room).0 })
halved_kept {l} v f =
    let bytes = data_bytes l (l.capacity / 2) in
    let P : ℕ → Type 0 = λ r. (l.element_size * l.capacity ≤ r) × (r < 2 ^ 32) in
    let left : P (if bytes == 0 then 0 else l.data_room) =
      if_elim P (bytes == 0) 0 l.data_room
        (λ q.
          let none_asked : l.element_size * (l.capacity / 2) ≡ 0 = ground (arith, q, halved v) in
          let no_size : l.element_size ≡ 0 =
            no_bytes l.element_size (l.capacity / 2) none_asked (ground (arith, f)) in
          (rw no_size (omega arith), omega arith))
        (λ _. (v.data_fits, v.data_word)) in
    record {
      sorted = v.sorted;
      keys_n = v.keys_n;
      ids_n = v.ids_n;
      few = v.few;
      within = v.within;
      capacity_word = v.capacity_word;
      data_fits = left.0;
      data_word = left.1;
      ids_fit = v.ids_fit;
    }

shrink-IsValid :
    {l : BsList} (data_ok ids_ok : Bool)
    → IsValid l
    → (data_ok ≡ true → ids_ok ≡ true)
    → IsValid (shrink data_ok ids_ok l)
      × ((shrink data_ok ids_ok l).n ≡ l.n)
      × ((shrink data_ok ids_ok l).keys ≡ l.keys)
      × ((shrink data_ok ids_ok l).ids ≡ l.ids)
unfolding shrink
shrink-IsValid {l} true true v both = elim (Bool-cases (ltb l.n (l.capacity / 2))) [
  | inr f ↦ rw f (v, refl, refl, refl)
  | inl f ↦ rw f (
    record {
      sorted = v.sorted;
      keys_n = v.keys_n;
      ids_n = v.ids_n;
      few = v.few;
      within = ground arith;
      capacity_word = ground (arith, v.capacity_word);
      data_fits = exact (halved v);
      data_word = omega arith;
      ids_fit = omega (arith, v.capacity_word);
    },
    refl,
    refl,
    refl,
  )
]
shrink-IsValid true false v both = cc (both refl)
shrink-IsValid {l} false ids_ok v both = elim (Bool-cases (ltb l.n (l.capacity / 2))) [
  | inr f ↦ rw f (v, refl, refl, refl)
  | inl f ↦ rw f (halved_kept v f, refl, refl, refl)
]

-- What `bs_list_remove` leaves: a valid list, without the entry or unchanged.
abbrev pub RemoveResult : BsList → List ℕ → ℕ → BsList × Bool → Type 0
RemoveResult l x id (l', true) =
    IsValid l'
    × (id_of l x ≡ some id)
    × ((y : List ℕ) → id_of l' y ≡ (if is_equal (memcmp y x) then none else id_of l y))
RemoveResult l x id (l', false) = (l' ≡ l) × (id_of l x ≢ some id)

erase_at-IsValid : {l : BsList} (i : ℕ) → IsValid l → i < l.n → IsValid (erase_at l i)
unfolding erase_at
erase_at-IsValid {l} i v h = record {
  sorted = erase-IsSorted [] l.keys i v.sorted;
  keys_n = omega (arith, v.keys_n, v.few, length-erase l.keys i);
  ids_n = omega (arith, v.ids_n, v.few, length-erase l.ids i);
  few = omega arith;
  within = omega (arith, v.few);
  capacity_word = v.capacity_word;
  data_fits = v.data_fits;
  data_word = v.data_word;
  ids_fit = v.ids_fit;
}

pub compare_at-lt :
    (x : List ℕ) (ks : List (List ℕ)) (i : ℕ) {o : Order}
    → compare_at x ks i ≡ some o
    → i < length ks
compare_at-lt x [] i e = ground arith
compare_at-lt x (k ∷ ks) zero e = omega arith
compare_at-lt x (k ∷ ks) (suc i) e = omega (arith, compare_at-lt x ks i e)

same_id-true : (o : Option ℕ) (id : ℕ) → same_id o id ≡ true → o ≡ some id
same_id-true none id e = ground arith
same_id-true (some j) id e = ground arith

same_id-false : (o : Option ℕ) (id : ℕ) → same_id o id ≡ false → o ≢ some id
same_id-false none id e = ground arith
same_id-false (some j) id e = ground arith

remove_by :
    (l : BsList) (data_ok ids_ok : Bool) (x : List ℕ) (id : ℕ) (p : Option Position)
    → IsValid l
    → (data_ok ≡ true → ids_ok ≡ true)
    → find l x ≡ p
    → IsPosition x l.keys p
    → RemoveResult l x id (bs_list_remove data_ok ids_ok l x id)
unfolding bs_list_remove erase_at
remove_by l data_ok ids_ok x id none v both e q = absurd q
remove_by l data_ok ids_ok x id (some (gap i)) v both e q =
    rw (e, bs_list_remove) (refl, rw (lookup-ne x l.keys l.ids (no_equal x l.keys i q)) (λ z. cc))
remove_by l data_ok ids_ok x id (some (at i)) v both e q =
    let at_i = lookup-at x l.keys l.ids i v.sorted (omega (arith, v.keys_n, v.ids_n)) q in
    elim (Bool-cases (same_id (get_elem? l.ids i) id)) [
      | inl s ↦
          let w = shrink-IsValid data_ok ids_ok v both in
          rw (e, s, bs_list_remove)
            (
              erase_at-IsValid i w.0 (omega (arith, w.1, v.keys_n, compare_at-lt x l.keys i q)),
              at_i ∙ same_id-true _ id s,
              λ y.
                  rw (w.2, w.3)
                    (lookup-erase x y l.keys l.ids i v.sorted (omega (arith, v.keys_n, v.ids_n)) q),
            )
      | inr s ↦ rw (e, s, bs_list_remove) (refl, rw at_i (same_id-false _ id s))
    ]

-- On a valid list, unless the `realloc` of the ids fails after that of the data has succeeded: if
-- `bs_list_remove` succeeds, the data had the given id, the list stays valid, and as a map it
-- lacks the data and keeps all other ids; if it fails, the list is unchanged and the data did not
-- have that id.
pub bs_list_remove-RemoveResult :
    {l : BsList} (data_ok ids_ok : Bool) (x : List ℕ) (id : ℕ)
    → IsValid l
    → (data_ok ≡ true → ids_ok ≡ true)
    → RemoveResult l x id (bs_list_remove data_ok ids_ok l x id)
bs_list_remove-RemoveResult {l} data_ok ids_ok x id v both =
    remove_by l data_ok ids_ok x id (find l x) v both refl (find-IsPosition x v)
