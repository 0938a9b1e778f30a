-- ===== src/NetCrypto/PacketsArray/Lookups.antt =====
-- toxcore/net_crypto.c: `get_data_pointer` after each operation on a packet window.
use insert_project_name_here.Base.{
  ℕ, ◌+◌, ◌%◌, ◌^◌, ◌≤◌, ◌<◌, ◌≡◌, ◌≢◌, refl, Bool, true, none, some, arith, u32, sub32, ltb, leb,
  ◌==◌, if◌then◌else◌, ◌&&◌,
}
use insert_project_name_here.NetCrypto.PacketsArray.{
  PacketsArray, PacketData, buffer_size, num_packets_array, add_data_to_buffer,
  add_data_end_of_buffer, read_data_beg_buffer, clear_buffer_until, set_buffer_end,
  get_data_pointer, outside, hole, found,
}
use insert_project_name_here.NetCrypto.PacketsArray.Window.{IsWindow}
use insert_project_name_here.NetCrypto.PacketsArray.Slots.{clear_slots_lem, clear_slots-end}

-- In a well-formed window, a packet that is added at the end gets the number that ended the
-- window and is found under it, and what every other number finds stays.
pub get_data_pointer-add_data_end_of_buffer :
    (a : PacketsArray) (malloc : Bool) (d : PacketData) {id : ℕ}
    → IsWindow a
    → (add_data_end_of_buffer malloc a d).1 ≡ some id
    → (m : ℕ) → m < 2 ^ 32
    → (id ≡ a.buffer_end)
      × (get_data_pointer (add_data_end_of_buffer malloc a d).0 m
          ≡ (if m == id then found d else get_data_pointer a m))
unfolding add_data_end_of_buffer get_data_pointer
get_data_pointer-add_data_end_of_buffer a malloc d w e m hm =
    ground (arith, w.start_word, w.end_word, w.fits)

-- In a well-formed window, a packet that is read at the beginning has the number that starts the
-- window and was found under it; afterwards that number is outside of the window, and what every
-- other number finds stays.
pub get_data_pointer-read_data_beg_buffer :
    (a : PacketsArray) {id : ℕ} {d : PacketData}
    → IsWindow a
    → (read_data_beg_buffer a).1 ≡ some (id, d)
    → (m : ℕ) → m < 2 ^ 32
    → (id ≡ a.buffer_start)
      × (get_data_pointer a id ≡ found d)
      × (get_data_pointer (read_data_beg_buffer a).0 m
          ≡ (if m == id then outside else get_data_pointer a m))
unfolding read_data_beg_buffer get_data_pointer
get_data_pointer-read_data_beg_buffer a w e m hm = ground (arith, w.start_word, w.end_word, w.fits)

-- In a well-formed window, when `clear_buffer_until` succeeds, the numbers before the given one
-- are outside of the window, and what every other number finds stays.
pub get_data_pointer-clear_buffer_until :
    (a : PacketsArray) (number : ℕ)
    → IsWindow a
    → number < 2 ^ 32
    → (clear_buffer_until a number).1 ≡ true
    → (m : ℕ) → m < 2 ^ 32
    → get_data_pointer (clear_buffer_until a number).0 m ≡ (
        if ltb (sub32 m a.buffer_start) (sub32 number a.buffer_start)
        then outside
        else get_data_pointer a m)
unfolding clear_buffer_until get_data_pointer
get_data_pointer-clear_buffer_until a number w hn e m hm = ground (
  arith,
  w.start_word,
  w.end_word,
  w.fits,
  clear_slots-end (sub32 number a.buffer_start) a.buffer_start number a.buffer w.start_word hn refl,
  clear_slots_lem (sub32 number a.buffer_start) a.buffer_start number a.buffer (m % buffer_size)
      w.start_word hn refl (omega arith),
)

-- The test whether number `m` lies between the old end and a later number.
abbrev pub is_between : PacketsArray → ℕ → ℕ → Bool
is_between a number m =
    leb (sub32 a.buffer_end a.buffer_start) (sub32 m a.buffer_start)
    && ltb (sub32 m a.buffer_start) (sub32 number a.buffer_start)

-- In a well-formed window, when `set_buffer_end` succeeds, the numbers from the old end to the
-- new one become holes, and what every other number finds stays.
pub get_data_pointer-set_buffer_end :
    (a : PacketsArray) (number : ℕ)
    → IsWindow a
    → number < 2 ^ 32
    → (set_buffer_end a number).1 ≡ true
    → (m : ℕ) → m < 2 ^ 32
    → get_data_pointer (set_buffer_end a number).0 m
      ≡ (if is_between a number m then hole else get_data_pointer a m)
unfolding set_buffer_end get_data_pointer
get_data_pointer-set_buffer_end a number w hn e m hm =
    ground (arith, w.start_word, w.end_word, w.fits, w.inside (m % buffer_size) (omega arith))

module _ (a : PacketsArray) (malloc : Bool) (number : ℕ) (d : PacketData) (w : IsWindow a)
    (hn : number < 2 ^ 32) (ho : sub32 number a.buffer_start < buffer_size)
    (e : (add_data_to_buffer malloc a number d).1 ≡ true) where
  lookup_self : get_data_pointer (add_data_to_buffer malloc a number d).0 number ≡ found d
  unfolding add_data_to_buffer get_data_pointer
  lookup_self = ground (arith, w.start_word, w.end_word, w.fits)

  lookup_beyond :
      (m : ℕ)
      → m < 2 ^ 32
      → m ≢ number
      → sub32 number a.buffer_start < sub32 a.buffer_end a.buffer_start
      → get_data_pointer (add_data_to_buffer malloc a number d).0 m ≡ get_data_pointer a m
  unfolding add_data_to_buffer get_data_pointer
  lookup_beyond m hm ne inner = ground (arith, w.start_word, w.end_word, w.fits)

  lookup_grown :
      (m : ℕ)
      → m < 2 ^ 32
      → m ≢ number
      → sub32 a.buffer_end a.buffer_start ≤ sub32 number a.buffer_start
      → get_data_pointer (add_data_to_buffer malloc a number d).0 m
        ≡ (if is_between a number m then hole else get_data_pointer a m)
  unfolding add_data_to_buffer get_data_pointer
  lookup_grown m hm ne outer =
      ground (arith, w.start_word, w.end_word, w.fits, w.inside (m % buffer_size) (omega arith))

-- In a well-formed window, when `add_data_to_buffer` succeeds for a number less than 32768 past
-- the start, the packet is found under its number, the numbers from the old end to it become
-- holes, and what every other number finds stays.
pub get_data_pointer-add_data_to_buffer :
    (a : PacketsArray) (malloc : Bool) (number : ℕ) (d : PacketData)
    → IsWindow a
    → number < 2 ^ 32
    → sub32 number a.buffer_start < buffer_size
    → (add_data_to_buffer malloc a number d).1 ≡ true
    → (m : ℕ) → m < 2 ^ 32
    → get_data_pointer (add_data_to_buffer malloc a number d).0 m ≡ (
        if m == number
        then found d
        else if is_between a number m
        then hole
        else get_data_pointer a m)
get_data_pointer-add_data_to_buffer a malloc number d w hn ho e m hm = ground (
  arith,
  w.start_word,
  w.end_word,
  lookup_self a malloc number d w hn ho e,
  lookup_beyond a malloc number d w hn ho e m hm,
  lookup_grown a malloc number d w hn ho e m hm,
)

-- In a well-formed window whose first number is a hole, `add_data_to_buffer` accepts the number
-- 32768 past the start: the window then has 32769 numbers, and the packet is read as the one of
-- the first number.
pub add_data_to_buffer_aliases :
    (a : PacketsArray) (d : PacketData)
    → IsWindow a
    → a.buffer (a.buffer_start % buffer_size) ≡ none
    → ((add_data_to_buffer true a (u32 (a.buffer_start + buffer_size)) d).1 ≡ true)
      × (num_packets_array (add_data_to_buffer true a (u32 (a.buffer_start + buffer_size)) d).0
          ≡ buffer_size + 1)
      × ((read_data_beg_buffer
            (add_data_to_buffer true a (u32 (a.buffer_start + buffer_size)) d).0).1
          ≡ some (a.buffer_start, d))
unfolding add_data_to_buffer read_data_beg_buffer num_packets_array
add_data_to_buffer_aliases a d w e = ground (arith, w.start_word, w.end_word, w.fits)
