-- ===== src/PingArray.antt =====
-- toxcore/ping_array.c: the ring of outstanding pings. The clock (`unix_time`), the random number and
-- the success of `malloc` are arguments.
pub mod Expiry
pub mod Exchange
mod Tests
use insert_project_name_here.Base.{
  ℕ, zero, suc, ◌+◌, ◌*◌, ◌/◌, ◌%◌, Bool, true, false, not, ◌||◌, Option, none, some, List, u32,
  u64, sub32, ltb, leb, ◌==◌, if◌then◌else◌,
}

-- `Ping_Array_Entry`; the pointer `data` is an `Option`.
pub record PingArrayEntry : Type 0 where
  pub payload : Option (List ℕ)
  pub len : ℕ  -- uint32_t
  pub time : ℕ  -- uint64_t
  pub ping_id : ℕ  -- uint64_t

-- `Ping_Array`: the entries below `total_size` are the array's.
pub record PingArray : Type 0 where
  pub entries : ℕ → PingArrayEntry
  pub last_deleted : ℕ  -- uint32_t
  pub last_added : ℕ  -- uint32_t
  pub total_size : ℕ  -- uint32_t
  pub timeout : ℕ  -- uint32_t

-- toxcore/util.c: `is_timeout` at the time `now`.
abbrev pub is_timeout : ℕ → ℕ → ℕ → Bool
is_timeout now timestamp timeout = leb (u64 (timestamp + timeout)) now

abbrev pub blank : PingArrayEntry
blank = record { payload = none; len = 0; time = 0; ping_id = 0 }

unfoldable pub set_entry : (ℕ → PingArrayEntry) → ℕ → PingArrayEntry → ℕ → PingArrayEntry
set_entry f i e = λ j. if j == i then e else f j

unfoldable pub clear_entry : PingArray → ℕ → PingArray
unfolding set_entry
clear_entry a index = record a { entries = set_entry a.entries index blank }

-- One round of the loop that deletes timed out entries, before the test of its condition.
abbrev pub clear_first : PingArray → PingArray
unfolding clear_entry
clear_first a =
    let b = clear_entry a (a.last_deleted % a.total_size) in
    record b { last_deleted = u32 (a.last_deleted + 1) }

-- The loop, on fuel.
unfoldable pub clear_timedout : ℕ → ℕ → PingArray → PingArray
unfolding clear_entry
clear_timedout now zero a = a
clear_timedout now (suc fuel) a =
    let rest = clear_timedout now fuel (clear_first a) in
    if a.last_deleted == a.last_added
    then a
    else if not (is_timeout now (a.entries (a.last_deleted % a.total_size)).time a.timeout)
    then a
    else rest

unfoldable pub ping_array_clear_timedout : ℕ → PingArray → PingArray
unfolding clear_timedout
ping_array_clear_timedout now a = clear_timedout now (sub32 a.last_added a.last_deleted) a

abbrev pub holds : Option (List ℕ) → Bool
holds none = false
holds (some _) = true

-- An entry that is in the way of the next ping is dropped.
unfoldable pub make_room : PingArray → PingArray
unfolding clear_entry
make_room a =
    let index = a.last_added % a.total_size in
    if holds (a.entries index).payload
    then clear_entry (record a { last_deleted = sub32 a.last_added a.total_size }) index
    else a

-- The ping id made of a random number: below it the index, and never 0.
unfoldable pub make_ping_id : ℕ → ℕ → ℕ → ℕ
make_ping_id random size index =
    let ping_id = u64 (random / size * size + index) in
    if ping_id == 0 then u64 (ping_id + size) else ping_id

-- The array without timed out entries, with room for the next ping, and that ping's entry.
unfoldable pub ping_array_add : ℕ → ℕ → Bool → PingArray → List ℕ → ℕ → PingArray × ℕ
unfolding ping_array_clear_timedout make_room make_ping_id set_entry
ping_array_add now random malloc a bytes len =
    let b = make_room (ping_array_clear_timedout now a) in
    let index = b.last_added % b.total_size in
    let ping_id = make_ping_id random b.total_size index in
    if malloc
    then (
      record b {
        entries =
            set_entry b.entries index
              (record { payload = some bytes; len = len; time = now; ping_id = ping_id });
        last_added = u32 (b.last_added + 1);
      },
      ping_id,
    )
    else (b, 0)

abbrev pub copy_out : PingArray → ℕ → Option (List ℕ) → PingArray × Option (List ℕ)
unfolding clear_entry
copy_out a index none = (a, none)
copy_out a index (some bytes) = (clear_entry a index, some bytes)

-- What is copied out, or `none` for -1. `len` is the room of the caller's buffer.
unfoldable pub ping_array_check : ℕ → ℕ → PingArray → ℕ → PingArray × Option (List ℕ)
unfolding clear_entry
ping_array_check now len a ping_id =
    let index = ping_id % a.total_size in
    if ping_id == 0
    then (a, none)
    else if not ((a.entries index).ping_id == ping_id)
    then (a, none)
    else if is_timeout now (a.entries index).time a.timeout
    then (a, none)
    else if ltb len (a.entries index).len
    then (a, none)
    else copy_out a index (a.entries index).payload

-- `none` is -1; `calloc` says whether the allocation succeeds.
unfoldable pub ping_array_init : Bool → ℕ → ℕ → Option PingArray
ping_array_init calloc size timeout =
    if size == 0 || timeout == 0
    then none
    else if calloc
    then some (record {
      entries = λ _. blank;
      last_deleted = 0;
      last_added = 0;
      total_size = size;
      timeout = timeout;
    })
    else none
