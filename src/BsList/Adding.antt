-- ===== src/BsList/Adding.antt =====
-- toxcore/list.c: `bs_list_find` and `bs_list_add` against a map from byte strings to ids.
use insert_project_name_here.Base.{
  ℕ, ◌+◌, ◌^◌, ◌<◌, ◌≡◌, ◌≢◌, inl, inr, refl, Bool, true, false, Bool-cases, Option, none, some,
  List, arith, if◌then◌else◌, ==_iff, length, ◌==◌,
}
use mathlib.Core.Path.{sym}
use native.Mathlib.Decide.{dec_lt}
use insert_project_name_here.BsList.Bytes.{equal, memcmp, compare_at}
use insert_project_name_here.BsList.Room.{
  Growable, grown, grown-IsValid, wider-IsValid, kept-IsValid,
}
use insert_project_name_here.BsList.Search.{IsPosition, IsValid, find-IsPosition}
use insert_project_name_here.BsList.Sorted.{
  is_equal, lookup, lookup-at, lookup-ne, lookup-insert, insert-IsSorted, length-insert,
}
use insert_project_name_here.BsList.{
  BsList, Position, at, gap, find, bs_list_find, bs_list_add, add_at, insert_at, resize,
}

-- The map that a list stands for.
abbrev pub id_of : BsList → List ℕ → Option ℕ
id_of l y = lookup y l.keys l.ids

pub no_equal :
    (x : List ℕ) (ks : List (List ℕ)) (i : ℕ)
    → IsPosition x ks (some (gap i))
    → (k : ℕ) → k < length ks
    → compare_at x ks k ≢ some equal
no_equal x ks i p k h = elim (dec_lt k i) [
  | yes a ↦ ground (arith, p.1 k a)
  | no b ↦ ground (arith, p.2 k (omega arith) h)
]

find_by :
    (l : BsList) (x : List ℕ) (p : Option Position)
    → IsValid l
    → find l x ≡ p
    → IsPosition x l.keys p
    → bs_list_find l x ≡ id_of l x
unfolding bs_list_find
find_by l x none v e q = absurd q
find_by l x (some (at i)) v e q =
    rw (e, bs_list_find)
      (sym (lookup-at x l.keys l.ids i v.sorted (omega (arith, v.keys_n, v.ids_n)) q))
find_by l x (some (gap i)) v e q =
    rw (e, bs_list_find) (sym (lookup-ne x l.keys l.ids (no_equal x l.keys i q)))

-- On a valid list `bs_list_find` gives the id that a linear search gives, and fails if there is
-- none.
pub bs_list_find-eq-id_of : {l : BsList} (x : List ℕ) → IsValid l → bs_list_find l x ≡ id_of l x
bs_list_find-eq-id_of {l} x v = find_by l x (find l x) v refl (find-IsPosition x v)

-- The record of what `bs_list_add` has done when it returns 1.
pub record Added (l : BsList) (x : List ℕ) (id : ℕ) (l' : BsList) : Type 0 where
  pub fresh : id_of l x ≡ none
  pub stored : (y : List ℕ) → id_of l' y ≡ (if is_equal (memcmp y x) then some id else id_of l y)

insert_at-Added :
    (l : BsList) (x : List ℕ) (id i : ℕ)
    → IsValid l
    → IsPosition x l.keys (some (gap i))
    → Added l x id (insert_at l i x id)
unfolding insert_at
insert_at-Added l x id i v p = record {
  fresh = lookup-ne x l.keys l.ids (no_equal x l.keys i p);
  stored = λ y. lookup-insert x y id l.keys l.ids i p.0 (omega (arith, v.keys_n, v.ids_n)) p.1;
}

insert_at-IsValid :
    (l : BsList) (x : List ℕ) (id i : ℕ)
    → IsValid l
    → l.n + 1 < 2 ^ 31
    → l.n < l.capacity
    → IsPosition x l.keys (some (gap i))
    → IsValid (insert_at l i x id)
unfolding insert_at
insert_at-IsValid l x id i v few room p = record {
  sorted = insert-IsSorted x l.keys i v.sorted p.1 p.2;
  keys_n = omega (arith, v.keys_n, length-insert l.keys i x);
  ids_n = omega (arith, v.ids_n, length-insert l.ids i id);
  few = omega arith;
  within = omega arith;
  capacity_word = v.capacity_word;
  data_fits = v.data_fits;
  data_word = v.data_word;
  ids_fit = v.ids_fit;
}

-- What `bs_list_add` leaves, on every branch: a valid list, with the entry or unchanged as a map.
abbrev pub AddResult : BsList → List ℕ → ℕ → BsList × Bool → Type 0
AddResult l x id (l', true) = IsValid l' × Added l x id l'
AddResult l x id (l', false) = IsValid l' × ((y : List ℕ) → id_of l' y ≡ id_of l y)

add_at_lem :
    (data_ok ids_ok : Bool) (l : BsList) (x : List ℕ) (id : ℕ) (p : Option Position)
    → IsValid l
    → l.n + 1 < 2 ^ 31
    → Growable l
    → IsPosition x l.keys p
    → AddResult l x id (add_at data_ok ids_ok l x id p)
unfolding resize grown insert_at
add_at_lem data_ok ids_ok l x id none v few fits p = absurd p
add_at_lem data_ok ids_ok l x id (some (at i)) v few fits p = (v, λ y. refl)
add_at_lem true true l x id (some (gap i)) v few fits p = elim (Bool-cases (l.n == l.capacity)) [
  | inr f ↦
      rw f (
        insert_at-IsValid l x id i v few (ground (arith, v.within)) p,
        insert_at-Added l x id i v p,
      )
  | inl f ↦
      let (w, room) = grown-IsValid v (fits ((==_iff l.n l.capacity).0 f)) in
      let h = insert_at-Added l x id i v p in
      rw f (
        insert_at-IsValid (grown l) x id i w few room p,
        record { fresh = h.fresh; stored = h.stored },
      )
]
add_at_lem true false l x id (some (gap i)) v few fits p = elim (Bool-cases (l.n == l.capacity)) [
  | inr f ↦
      rw f (
        insert_at-IsValid l x id i v few (ground (arith, v.within)) p,
        insert_at-Added l x id i v p,
      )
  | inl f ↦
      let full = (==_iff l.n l.capacity).0 f in rw f (wider-IsValid v full (fits full), λ y. refl)
]
add_at_lem false ids_ok l x id (some (gap i)) v few fits p = elim (Bool-cases (l.n == l.capacity)) [
  | inr f ↦
      rw f (
        insert_at-IsValid l x id i v few (ground (arith, v.within)) p,
        insert_at-Added l x id i v p,
      )
  | inl f ↦
      let full = (==_iff l.n l.capacity).0 f in
      rw f (kept-IsValid ids_ok v full (fits full), λ y. refl)
]

-- On a valid list of fewer than 2^31 - 1 elements, of which the grown capacity takes fewer than
-- 2^32 bytes if it is full, whether or not `realloc` succeeds: if `bs_list_add` succeeds, the
-- data was absent, the list stays valid, and as a map it has the new id for the data and the old
-- ids for all other data; if it fails, the list stays valid and the same as a map.
pub bs_list_add-AddResult :
    {l : BsList} (data_ok ids_ok : Bool) (x : List ℕ) (id : ℕ)
    → IsValid l
    → l.n + 1 < 2 ^ 31
    → Growable l
    → AddResult l x id (bs_list_add data_ok ids_ok l x id)
unfolding bs_list_add
bs_list_add-AddResult {l} data_ok ids_ok x id v few fits =
    add_at_lem data_ok ids_ok l x id (find l x) v few fits (find-IsPosition x v)
