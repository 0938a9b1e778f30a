-- ===== src/BsList/Overrun.antt =====
-- toxcore/list.c: the growth of a full list whose bytes do not fit a word of 32 bits.
use insert_project_name_here.Base.{
  ℕ, zero, suc, ◌+◌, ◌*◌, ◌/◌, ◌^◌, ◌≤◌, ◌<◌, ◌≡◌, ◌≢◌, refl, sym, ◌∙◌, Bool, true, Option, none,
  some, List, [], ◌∷◌, arith, length, get_elem?, u32, ==_iff,
}
use native.Mathlib.Nat.{mul-add, mul-le-mul_left}
use insert_project_name_here.BsList.Search.{IsPosition, IsValid, find-IsPosition}
use insert_project_name_here.BsList.Sorted.{lookup-at}
use insert_project_name_here.BsList.{
  BsList, Position, at, gap, find, bs_list_add, add_at, insert_at, resize,
}
use insert_project_name_here.BsList.Room.{grown_size}
use insert_project_name_here.BsList.Adding.{id_of}
use insert_project_name_here.BsList.Changes.{compare_at-lt}

get_elem?-inside : (is : List ℕ) (i : ℕ) → i < length is → get_elem? is i ≢ none
get_elem?-inside [] i h e = omega (arith, h)
get_elem?-inside (j ∷ is) zero h e = cc e
get_elem?-inside (j ∷ is) (suc i) h e = get_elem?-inside is i (omega (arith, h)) e

-- Bytes that wrap around are fewer than those of one element more.
wrapped_bytes :
    {l : BsList}
    → IsValid l
    → l.n ≡ l.capacity
    → 2 ^ 32 ≤ l.element_size * grown_size l
    → u32 (l.element_size * u32 (grown_size l)) < l.element_size * u32 (l.n + 1)
wrapped_bytes {l} v full wraps =
    let same : u32 (grown_size l) ≡ grown_size l = omega (arith, v.few) in
    let next : u32 (l.n + 1) ≡ l.n + 1 = omega (arith, v.few) in
    let order : grown_size l ≡ l.n + 1 + l.n / 2 = omega arith in
    let split : l.element_size * grown_size l
        ≡ l.element_size * (l.n + 1) + l.element_size * (l.n / 2) =
      rw order (mul-add l.element_size (l.n + 1) (l.n / 2)) in
    let half : l.element_size * (l.n / 2) ≤ l.element_size * l.capacity =
      mul-le-mul_left {m = l.n / 2} {n = l.capacity} l.element_size (omega (arith, full)) in
    rw (same, next) (omega (arith, split, half, wraps, v.data_fits, v.data_word))

-- What an addition has done that returned 1 and wrote past the data.
abbrev pub Overruns : BsList × Bool → Type 0
Overruns (l, done) = (done ≡ true) × (l.data_room < l.element_size * l.n)

added-Overruns :
    {l : BsList} (x : List ℕ) (id : ℕ) (p : Option Position)
    → IsValid l
    → l.n ≡ l.capacity
    → 2 ^ 32 ≤ l.element_size * grown_size l
    → id_of l x ≡ none
    → IsPosition x l.keys p
    → Overruns (add_at true true l x id p)
unfolding resize insert_at
added-Overruns x id none v full wraps absent q = absurd q
added-Overruns {l} x id (some (at i)) v full wraps absent q =
    let inside : i < length l.ids = omega (arith, compare_at-lt x l.keys i q, v.keys_n, v.ids_n) in
    absurd (
      get_elem?-inside l.ids i inside
        (sym (lookup-at x l.keys l.ids i v.sorted (omega (arith, v.keys_n, v.ids_n)) q) ∙ absent))
added-Overruns {l} x id (some (gap i)) v full wraps absent q =
    rw ((==_iff l.n l.capacity).1 full) (refl, wrapped_bytes v full wraps)

-- On a valid list that is full, if the bytes of the capacity that it grows to are 2^32 or more
-- and the data is absent, then `bs_list_add`, with both calls of `realloc` successful, returns 1
-- and leaves a block of data with fewer bytes than the elements take.
pub bs_list_add-Overruns :
    {l : BsList} (x : List ℕ) (id : ℕ)
    → IsValid l
    → l.n ≡ l.capacity
    → 2 ^ 32 ≤ l.element_size * grown_size l
    → id_of l x ≡ none
    → Overruns (bs_list_add true true l x id)
unfolding bs_list_add
bs_list_add-Overruns {l} x id v full wraps absent =
    added-Overruns x id (find l x) v full wraps absent (find-IsPosition x v)
