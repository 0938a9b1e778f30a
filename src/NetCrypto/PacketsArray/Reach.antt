-- ===== src/NetCrypto/PacketsArray/Reach.antt =====
-- toxcore/net_crypto.c: the packet windows that calls lead to, from the window of a new connection.
use insert_project_name_here.Base.{ℕ, ◌^◌, ◌≤◌, ◌<◌, refl, Bool, none, arith, sub32}
use insert_project_name_here.NetCrypto.PacketsArray.{
  PacketsArray, PacketData, buffer_size, num_packets_array, add_data_to_buffer,
  add_data_end_of_buffer, read_data_beg_buffer, clear_buffer_until, clear_buffer, set_buffer_end,
}
use insert_project_name_here.NetCrypto.PacketsArray.Window.{
  IsWindow, add_data_to_buffer-IsWindow, add_data_end_of_buffer-IsWindow,
  read_data_beg_buffer-IsWindow, clear_buffer_until-IsWindow, clear_buffer-IsWindow,
  set_buffer_end-IsWindow,
}

-- The window of a new connection.
abbrev pub new_array : PacketsArray
new_array = record { buffer = λ j. none; buffer_start = 0; buffer_end = 0 }

-- Windows that calls lead to. Numbers are words, and a packet is added at less than 32768 past the start,
-- as `handle_data_packet_helper` and `read_data_beg_buffer` keep it.
pub data Reachable : PacketsArray → Type 0 where
  at_first : Reachable new_array
  added :
      {a : PacketsArray} (malloc : Bool) (number : ℕ) (d : PacketData)
      → number < 2 ^ 32
      → sub32 number a.buffer_start < buffer_size
      → Reachable a
      → Reachable (add_data_to_buffer malloc a number d).0
  added_at_end :
      {a : PacketsArray} (malloc : Bool) (d : PacketData)
      → Reachable a
      → Reachable (add_data_end_of_buffer malloc a d).0
  read : {a : PacketsArray} → Reachable a → Reachable (read_data_beg_buffer a).0
  cleared_until :
      {a : PacketsArray} (number : ℕ)
      → number < 2 ^ 32
      → Reachable a
      → Reachable (clear_buffer_until a number).0
  cleared : {a : PacketsArray} → Reachable a → Reachable (clear_buffer a)
  ended :
      {a : PacketsArray} (number : ℕ)
      → number < 2 ^ 32
      → Reachable a
      → Reachable (set_buffer_end a number).0

new_array-IsWindow : IsWindow new_array
new_array-IsWindow = record {
  start_word = omega arith;
  end_word = omega arith;
  fits = omega arith;
  inside = λ j h k. refl;
}

IsWindow-holds : {a : PacketsArray} → Reachable a → IsWindow a
IsWindow-holds at_first = new_array-IsWindow
IsWindow-holds (added malloc number d h k r) =
    add_data_to_buffer-IsWindow malloc number d h k (IsWindow-holds r)
IsWindow-holds (added_at_end malloc d r) =
    add_data_end_of_buffer-IsWindow malloc d (IsWindow-holds r)
IsWindow-holds (read r) = read_data_beg_buffer-IsWindow (IsWindow-holds r)
IsWindow-holds (cleared_until number h r) = clear_buffer_until-IsWindow number h (IsWindow-holds r)
IsWindow-holds (cleared r) = clear_buffer-IsWindow (IsWindow-holds r)
IsWindow-holds (ended number h r) = set_buffer_end-IsWindow number h (IsWindow-holds r)

-- Every packet window that calls lead to from the window of a new connection is well formed: at
-- most 32768 numbers between words, and every slot outside of them empty. The calls are
-- `add_data_to_buffer` for a word less than 32768 past the start, `add_data_end_of_buffer`,
-- `read_data_beg_buffer`, `clear_buffer_until` and `set_buffer_end` for any word, and
-- `clear_buffer`, in any order and with or without memory.
pub Reachable-IsWindow :
    {a : PacketsArray} → Reachable a → IsWindow a × (num_packets_array a ≤ buffer_size)
unfolding num_packets_array
Reachable-IsWindow r = (IsWindow-holds r, (IsWindow-holds r).fits)
