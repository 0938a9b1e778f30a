-- ===== src/BsList/Room.antt =====
-- toxcore/list.c: the bytes of the two allocations when a full list grows.
use insert_project_name_here.Base.{
  ℕ, ◌+◌, ◌/◌, ◌^◌, ◌<◌, ◌≡◌, Bool, true, false, arith, ◌==◌, u32, ◌*◌, ◌≤◌, if_elim,
}
use native.Mathlib.Nat.{mul-le-mul_left}
use insert_project_name_here.BsList.Search.{IsValid}
use insert_project_name_here.BsList.{BsList, realloc, data_bytes, ids_bytes, resize}

-- The capacity that a full list grows to, and that its bytes can be counted.
abbrev pub grown_size : BsList → ℕ
grown_size l = l.n + l.n / 2 + 1

abbrev pub Growable : BsList → Type 0
Growable l = l.n ≡ l.capacity → l.element_size * grown_size l < 2 ^ 32

unfoldable pub grown : BsList → BsList
grown l = record l {
  capacity = u32 (grown_size l);
  data_room = data_bytes l (u32 (grown_size l));
  ids_room = ids_bytes (u32 (grown_size l));
}

small : {l : BsList} → IsValid l → u32 (grown_size l) ≡ grown_size l
small v = omega (arith, v.few)

-- The capacity is no more than what a full list grows to.
below_grown :
    (l : BsList) → l.n ≡ l.capacity → l.element_size * l.capacity ≤ l.element_size * grown_size l
below_grown l e = mul-le-mul_left l.element_size (omega (arith, e))

pub grown-IsValid :
    {l : BsList}
    → IsValid l
    → l.element_size * grown_size l < 2 ^ 32
    → IsValid (grown l) × (l.n < (grown l).capacity)
unfolding grown
grown-IsValid {l} v fits = (
  record {
    sorted = v.sorted;
    keys_n = v.keys_n;
    ids_n = v.ids_n;
    few = v.few;
    within = omega (arith, v.few);
    capacity_word = omega arith;
    data_fits = rw (small v) (omega (arith, fits));
    data_word = omega arith;
    ids_fit = omega (arith, v.few);
  },
  omega (arith, v.few),
)

-- Only one of the two blocks was changed.
unmoved-IsValid :
    {l : BsList} (data_room ids_room : ℕ)
    → IsValid l
    → l.element_size * l.capacity ≤ data_room
    → data_room < 2 ^ 32
    → 4 * l.capacity ≤ ids_room
    → IsValid (record l { data_room = data_room; ids_room = ids_room })
unmoved-IsValid data_room ids_room v h k j = record {
  sorted = v.sorted;
  keys_n = v.keys_n;
  ids_n = v.ids_n;
  few = v.few;
  within = v.within;
  capacity_word = v.capacity_word;
  data_fits = h;
  data_word = k;
  ids_fit = j;
}

pub wider-IsValid :
    {l : BsList}
    → IsValid l
    → l.n ≡ l.capacity
    → l.element_size * grown_size l < 2 ^ 32
    → IsValid (resize true false l (u32 (grown_size l))).0
unfolding resize
wider-IsValid {l} v e fits =
    unmoved-IsValid (data_bytes l (u32 (grown_size l)))
      (realloc false (ids_bytes (u32 (grown_size l))) l.ids_room).0 v
      (rw (small v) (omega (arith, fits, below_grown l e))) (omega arith)
      (ground (arith, v.few, v.ids_fit))

pub kept_room :
    {need room : ℕ} (bytes : ℕ)
    → need ≤ bytes
    → bytes < 2 ^ 32
    → need ≤ room
    → need ≤ (realloc false (u32 bytes) room).0
kept_room {need} {room} bytes h k j =
    if_elim (λ (r : ℕ). need ≤ r) (u32 bytes == 0) 0 room (λ q. ground (arith, q, h, k)) (λ _. j)

pub kept-IsValid :
    {l : BsList} (ids_ok : Bool)
    → IsValid l
    → l.n ≡ l.capacity
    → l.element_size * grown_size l < 2 ^ 32
    → IsValid (resize false ids_ok l (u32 (grown_size l))).0
unfolding resize
kept-IsValid {l} ids_ok v e fits =
    unmoved-IsValid (realloc false (data_bytes l (u32 (grown_size l))) l.data_room).0 l.ids_room v
      (rw (small v) (kept_room (l.element_size * grown_size l) (below_grown l e) fits v.data_fits))
      (if_elim (λ (r : ℕ). r < 2 ^ 32) (data_bytes l (u32 (grown_size l)) == 0) 0 l.data_room
        (λ _. omega arith) (λ _. v.data_word))
      v.ids_fit
