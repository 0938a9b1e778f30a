-- ===== src/BsList.antt =====
-- toxcore/list.c: BS_LIST, a sorted array of byte strings with an id for each. The flat `data` array
-- is the list of its elements. Whether `realloc` succeeds is an argument of the operations.
pub mod Bytes
pub mod Ascending
pub mod Search
pub mod Sorted
pub mod Room
pub mod Adding
pub mod Overrun
pub mod Changes
mod Tests
use insert_project_name_here.Base.{
  ℕ, zero, suc, ◌+◌, ◌*◌, ◌/◌, ◌≡◌, Bool, true, false, ◌||◌, Option, none, some, List, [], ◌∷◌,
  ◌++◌, ltb, ◌==◌, if◌then◌else◌, get_elem?, take, drop, u32, u64, sub32,
}
use insert_project_name_here.BsList.Bytes.{Order, below, equal, above, compare_at}

-- The results of `find`: an index, or `INDEX(i)`, the place where the data would be inserted.
pub data Position : Type 0 where
  at : ℕ → Position
  gap : ℕ → Position

-- The variable `d` of `find`: -1, 0 and 1.
pub data Trend : Type 0 where
  undecided up down : Trend

pub Trend-discrete : Discrete Trend
Trend-discrete = hlevel

abbrev pub is_up : Trend → Bool
is_up up = true
is_up _ = false

abbrev pub is_down : Trend → Bool
is_down down = true
is_down _ = false

-- `delta / 2`, but at least 1.
abbrev pub halve : ℕ → ℕ
halve delta = if delta / 2 == 0 then 1 else delta / 2

-- The `while (1)` of `find` at position `i`, on fuel; `none` if the fuel ran out, or the loop read
-- past the end.
unfoldable pub find_loop : ℕ → List (List ℕ) → ℕ → List ℕ → ℕ → ℕ → Trend → Option Position
find_loop zero xs n x i delta d = none
find_loop (suc fuel) xs n x i delta d =
    let after =
      find_loop fuel xs n x (u32 (i + delta)) (halve delta) (if delta / 2 == 0 then down else d) in
    let before =
      find_loop fuel xs n x (sub32 i delta) (halve delta) (if delta / 2 == 0 then up else d) in
    elim (compare_at x xs i) [
      | none ↦ none
      | some equal ↦ some (at i)
      | some above ↦ if is_up d || u32 (i + delta) == n then some (gap (u32 (i + delta))) else after
      | some below ↦ if is_down d || i == 0 then some (gap i) else before
    ]

-- `BS_LIST`. `data_room` and `ids_room` are the bytes that the two allocations hold.
pub record BsList : Type 0 where
  pub keys : List (List ℕ)
  pub ids : List ℕ
  pub n : ℕ  -- uint32_t
  pub capacity : ℕ  -- uint32_t
  pub element_size : ℕ  -- uint32_t
  pub data_room : ℕ
  pub ids_room : ℕ

-- At most `2 * n + 3` rounds are run.
unfoldable pub find : BsList → List ℕ → Option Position
unfolding find_loop
find l x =
    if l.n == 0
    then some (gap 0)
    else find_loop (2 * l.n + 3) l.keys l.n x (l.n / 2) (halve (l.n / 2)) undecided

-- `realloc` to a number of bytes: the bytes that the block holds, and whether the result is not NULL.
-- A NULL leaves the block alone, but for no bytes the block may be freed, and is taken to be.
abbrev pub realloc : Bool → ℕ → ℕ → ℕ × Bool
realloc true bytes room = (bytes, true)
realloc false bytes room = (if bytes == 0 then 0 else room, false)

-- `element_size * new_size` is a uint32_t, `sizeof(int) * new_size` a size_t of 64 bits.
abbrev pub data_bytes : BsList → ℕ → ℕ
data_bytes l size = u32 (l.element_size * size)

abbrev pub ids_bytes : ℕ → ℕ
ids_bytes size = u64 (4 * size)

-- `resize`: each of the two calls of `realloc` may fail.
unfoldable pub resize : Bool → Bool → BsList → ℕ → BsList × Bool
resize data_ok ids_ok l size =
    let (room, done) = realloc data_ok (data_bytes l size) l.data_room in
    let (room', done') = realloc ids_ok (ids_bytes size) l.ids_room in
    if done
    then (record l { data_room = room; ids_room = room' }, done')
    else (record l { data_room = room }, false)

unfoldable pub bs_list_init : Bool → Bool → ℕ → ℕ → BsList × Bool
unfolding resize
bs_list_init data_ok ids_ok element_size initial_capacity =
    let empty : BsList = record {
      keys = [];
      ids = [];
      n = 0;
      capacity = 0;
      element_size = element_size;
      data_room = 0;
      ids_room = 0;
    } in
    let (l, done) = resize data_ok ids_ok empty initial_capacity in
    if initial_capacity == 0
    then (empty, true)
    else if done
    then (record l { capacity = initial_capacity }, true)
    else (l, false)

-- `none` is -1.
unfoldable pub bs_list_find : BsList → List ℕ → Option ℕ
unfolding find
bs_list_find l x = elim (find l x) [ some (at i) ↦ get_elem? l.ids i | _ ↦ none ]

-- The two `memmove` calls of `bs_list_add`, and `++list->n`.
unfoldable pub insert_at : BsList → ℕ → List ℕ → ℕ → BsList
insert_at l i x id = record l {
  keys = take i l.keys ++ (x ∷ drop i l.keys);
  ids = take i l.ids ++ (id ∷ drop i l.ids);
  n = u32 (l.n + 1);
}

abbrev pub add_at : Bool → Bool → BsList → List ℕ → ℕ → Option Position → BsList × Bool
add_at data_ok ids_ok l x id (some (gap i)) =
    if l.n == l.capacity
    then (let size = u32 (l.n + l.n / 2 + 1) in
        let (l', done) = resize data_ok ids_ok l size in
        if done then (insert_at (record l' { capacity = size }) i x id, true) else (l', false))
    else (insert_at l i x id, true)
add_at data_ok ids_ok l x id _ = (l, false)

unfoldable pub bs_list_add : Bool → Bool → BsList → List ℕ → ℕ → BsList × Bool
unfolding find resize insert_at
bs_list_add data_ok ids_ok l x id = add_at data_ok ids_ok l x id (find l x)

-- The shrinking step of `bs_list_remove`; a failure of `resize` is ignored.
unfoldable pub shrink : Bool → Bool → BsList → BsList
unfolding resize
shrink data_ok ids_ok l =
    if ltb l.n (l.capacity / 2)
    then (let (l', done) = resize data_ok ids_ok l (l.capacity / 2) in
        if done then record l' { capacity = l.capacity / 2 } else l')
    else l

-- `--list->n`, and the two `memmove` calls of `bs_list_remove`.
unfoldable pub erase_at : BsList → ℕ → BsList
erase_at l i = record l {
  keys = take i l.keys ++ drop (suc i) l.keys;
  ids = take i l.ids ++ drop (suc i) l.ids;
  n = sub32 l.n 1;
}

abbrev pub same_id : Option ℕ → ℕ → Bool
same_id none id = false
same_id (some j) id = j == id

unfoldable pub bs_list_remove : Bool → Bool → BsList → List ℕ → ℕ → BsList × Bool
unfolding find shrink erase_at
bs_list_remove data_ok ids_ok l x id = elim (find l x) [
  | some (at i) ↦
      if same_id (get_elem? l.ids i) id
      then (erase_at (shrink data_ok ids_ok l) i, true)
      else (l, false)
  | _ ↦ (l, false)
]

unfoldable pub bs_list_trim : Bool → Bool → BsList → BsList × Bool
unfolding resize
bs_list_trim data_ok ids_ok l =
    let (l', done) = resize data_ok ids_ok l l.n in
    if done then (record l' { capacity = l.n }, true) else (l', false)
