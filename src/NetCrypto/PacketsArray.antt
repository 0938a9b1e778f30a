-- ===== src/NetCrypto/PacketsArray.antt =====
-- toxcore/net_crypto.c, "Array Related functions": the sliding window of packets. A pointer into
-- the array is an `Option`; `malloc` is an argument that says whether the allocation succeeds.
pub mod Slots
pub mod Window
pub mod Reach
pub mod Lookups
use insert_project_name_here.Base.{
  ℕ, zero, suc, ◌+◌, ◌%◌, ◌^◌, Bool, true, false, ◌||◌, Option, none, some, List, u32, sub32, ltb,
  leb, ◌==◌, if◌then◌else◌,
}

-- `Packet_Data`
pub record PacketData : Type 0 where
  pub sent_time : ℕ  -- uint64_t
  pub len : ℕ  -- uint16_t
  pub payload : List ℕ

-- CRYPTO_PACKET_BUFFER_SIZE
abbrev pub buffer_size : ℕ
buffer_size = 2 ^ 15

abbrev pub Slots : Type 0
Slots = ℕ → Option PacketData

-- `Packets_Array`: the slots below `buffer_size` are the array's.
pub record PacketsArray : Type 0 where
  pub buffer : Slots
  pub buffer_start : ℕ  -- uint32_t
  pub buffer_end : ℕ  -- uint32_t

-- `buffer[i] = v`
unfoldable pub store : Slots → ℕ → Option PacketData → Slots
store f i v = λ j. if j == i then v else f j

abbrev pub is_some : Option PacketData → Bool
is_some none = false
is_some (some _) = true

unfoldable pub num_packets_array : PacketsArray → ℕ
num_packets_array a = sub32 a.buffer_end a.buffer_start

-- The new array, and whether the call returned 0 (and not -1).
unfoldable pub add_data_to_buffer : Bool → PacketsArray → ℕ → PacketData → PacketsArray × Bool
unfolding store
add_data_to_buffer malloc a number d =
    if ltb buffer_size (sub32 number a.buffer_start)
    then (a, false)
    else if is_some (a.buffer (number % buffer_size))
    then (a, false)
    else if malloc
    then (
      record a {
        buffer = store a.buffer (number % buffer_size) (some d);
        buffer_end =
            if leb (sub32 a.buffer_end a.buffer_start) (sub32 number a.buffer_start)
            then u32 (number + 1)
            else a.buffer_end;
      },
      true,
    )
    else (a, false)

-- The three results of `get_data_pointer`: -1, 0 and 1.
pub data Lookup : Type 0 where
  outside : Lookup
  hole : Lookup
  found : PacketData → Lookup

abbrev pub as_lookup : Option PacketData → Lookup
as_lookup none = hole
as_lookup (some d) = found d

unfoldable pub get_data_pointer : PacketsArray → ℕ → Lookup
get_data_pointer a number =
    let num_spots = sub32 a.buffer_end a.buffer_start in
    if ltb num_spots (sub32 a.buffer_end number) || leb num_spots (sub32 number a.buffer_start)
    then outside
    else as_lookup (a.buffer (number % buffer_size))

-- The packet number, or `none` for -1.
unfoldable pub add_data_end_of_buffer : Bool → PacketsArray → PacketData → PacketsArray × Option ℕ
unfolding num_packets_array store
add_data_end_of_buffer malloc a d =
    if leb buffer_size (num_packets_array a)
    then (a, none)
    else if malloc
    then (
      record a {
        buffer = store a.buffer (a.buffer_end % buffer_size) (some d);
        buffer_end = u32 (a.buffer_end + 1);
      },
      some a.buffer_end,
    )
    else (a, none)

-- What `read_data_beg_buffer` does with the first slot's pointer.
abbrev pub read_slot : PacketsArray → Option PacketData → PacketsArray × Option (ℕ × PacketData)
unfolding store
read_slot a none = (a, none)
read_slot a (some d) = (
  record a {
    buffer = store a.buffer (a.buffer_start % buffer_size) none;
    buffer_start = u32 (a.buffer_start + 1);
  },
  some (a.buffer_start, d),
)

unfoldable pub read_data_beg_buffer : PacketsArray → PacketsArray × Option (ℕ × PacketData)
unfolding store
read_data_beg_buffer a =
    if a.buffer_end == a.buffer_start
    then (a, none)
    else read_slot a (a.buffer (a.buffer_start % buffer_size))

-- The loop `for (; i != number; ++i)` that empties slots, on fuel: the slots, and the last `i`.
unfoldable pub clear_slots : ℕ → ℕ → ℕ → Slots → Slots × ℕ
unfolding store
clear_slots zero i number f = (f, i)
clear_slots (suc fuel) i number f =
    let rest = clear_slots fuel (u32 (i + 1)) number (store f (i % buffer_size) none) in
    if i == number then (f, i) else rest

-- `clear_slots` from the start of the array to `number`; `number` is at most 2 ^ 32 - 1 steps away.
unfoldable pub clear_to : PacketsArray → ℕ → PacketsArray
unfolding clear_slots
clear_to a number =
    let (f, i) = clear_slots (sub32 number a.buffer_start) a.buffer_start number a.buffer in
    record a { buffer = f; buffer_start = i }

unfoldable pub clear_buffer_until : PacketsArray → ℕ → PacketsArray × Bool
unfolding clear_to
clear_buffer_until a number =
    let num_spots = sub32 a.buffer_end a.buffer_start in
    if leb num_spots (sub32 a.buffer_end number) || ltb num_spots (sub32 number a.buffer_start)
    then (a, false)
    else (clear_to a number, true)

unfoldable pub clear_buffer : PacketsArray → PacketsArray
unfolding clear_to
clear_buffer a = clear_to a a.buffer_end

unfoldable pub set_buffer_end : PacketsArray → ℕ → PacketsArray × Bool
set_buffer_end a number =
    if ltb buffer_size (sub32 number a.buffer_start) || ltb buffer_size (sub32 number a.buffer_end)
    then (a, false)
    else (record a { buffer_end = number }, true)
