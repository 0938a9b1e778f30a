-- ===== src/NetCrypto/Tests.antt =====
-- toxcore/net_crypto.c: runs of packet windows and request packets on concrete data.
use insert_project_name_here.Base.{
  ℕ, ◌+◌, ◌-◌, ◌^◌, ltb, length, ◌≡◌, ◌≤◌, refl, true, none, some, [], ◌∷◌, arith, u32, sub32,
  if◌then◌else◌, ◌==◌,
}
use insert_project_name_here.NetCrypto.PacketsArray.{
  PacketData, PacketsArray, buffer_size, num_packets_array, add_data_to_buffer,
  add_data_end_of_buffer, read_data_beg_buffer, clear_buffer_until, set_buffer_end,
  get_data_pointer, found, hole, outside,
}
use insert_project_name_here.NetCrypto.PacketsArray.Window.{IsWindow}
use insert_project_name_here.NetCrypto.PacketsArray.Reach.{
  new_array, at_first, added_at_end, read, Reachable-IsWindow,
}
use insert_project_name_here.NetCrypto.PacketsArray.Lookups.{
  get_data_pointer-add_data_end_of_buffer, get_data_pointer-read_data_beg_buffer,
  get_data_pointer-clear_buffer_until, get_data_pointer-set_buffer_end,
  get_data_pointer-add_data_to_buffer, is_between, add_data_to_buffer_aliases,
}
use insert_project_name_here.NetCrypto.Request.{generate_request_packet, handle_request_packet}
use insert_project_name_here.NetCrypto.Request.Bounds.{length-generate_request_packet}
use insert_project_name_here.NetCrypto.Request.Exchange.{generate-handle_request_keeps}
use insert_project_name_here.NetCrypto.Request.Bytes.{content}
use insert_project_name_here.NetCrypto.Request.Holes.{holes, generate-handle_requested}
use insert_project_name_here.NetCrypto.Request.Stamps.{handle_request_packet-latest}

abbrev word : PacketData
word = record { sent_time = 40; len = 2; payload = 16 ∷ 5 ∷ [] }

-- The numbers 2 ^ 32 - 1, 0 and 1, of which 0 is missing.
abbrev gappy : PacketsArray
gappy = record {
  buffer = λ j. if j == 32767 then some word else if j == 1 then some word else none;
  buffer_start = 2 ^ 32 - 1;
  buffer_end = 2;
}

-- The same numbers, and the next, with none missing.
abbrev whole : PacketsArray
whole = record {
  buffer = λ j.
      if j == 32767
      then some word
      else if j == 0
      then some word
      else if j == 1
      then some word
      else if j == 2
      then some word
      else none;
  buffer_start = 2 ^ 32 - 1;
  buffer_end = 3;
}

request_runs : generate_request_packet 100 gappy ≡ some (1 ∷ 2 ∷ [])
unfolding generate_request_packet
request_runs = refl

gappy-IsWindow : IsWindow gappy
gappy-IsWindow = record {
  start_word = omega arith;
  end_word = omega arith;
  fits = omega arith;
  inside = λ j h k. ground arith;
}

whole-IsWindow : IsWindow whole
whole-IsWindow = record {
  start_word = omega arith;
  end_word = omega arith;
  fits = omega arith;
  inside = λ j h k. ground arith;
}

abbrev late : PacketsArray
late = record gappy { buffer = λ j. none }

late-IsWindow : IsWindow late
late-IsWindow = record {
  start_word = omega arith;
  end_word = omega arith;
  fits = omega arith;
  inside = λ j h k. refl;
}

generate-handle_request_keeps_example :
    content ((handle_request_packet 100 10 whole (1 ∷ 2 ∷ []) 0).0.buffer 0) ≡ content (some word)
generate-handle_request_keeps_example =
    generate-handle_request_keeps gappy whole 100 0 100 10 gappy-IsWindow whole-IsWindow refl
      (omega arith) request_runs 0 refl

generate-handle_requested_example :
    (handle_request_packet 100 10 whole (1 ∷ 2 ∷ []) 0).2 ≡ some (holes gappy.buffer 3 (2 ^ 32 - 1))
generate-handle_requested_example =
    generate-handle_requested gappy whole 100 0 100 10 gappy-IsWindow whole-IsWindow refl
      (omega arith) (omega arith) request_runs

length-generate_request_packet_example : length {A = ℕ} (1 ∷ 2 ∷ []) ≤ 100
length-generate_request_packet_example = length-generate_request_packet 100 gappy request_runs

requested_one : (handle_request_packet 100 10 whole (1 ∷ 2 ∷ []) 0).2 ≡ some 1
unfolding handle_request_packet
requested_one = refl

handle_request_packet-latest_example :
    (handle_request_packet 100 10 whole (1 ∷ 2 ∷ []) 0).1 ≡ 2 ^ 64 - 1
handle_request_packet-latest_example =
    handle_request_packet-latest 100 10 whole 2 0 [] (λ j d e. ground arith) (omega arith)
      requested_one

Reachable-IsWindow_example :
    IsWindow (read_data_beg_buffer (add_data_end_of_buffer true new_array word).0).0
    × (num_packets_array (read_data_beg_buffer (add_data_end_of_buffer true new_array word).0).0
        ≤ buffer_size)
Reachable-IsWindow_example = Reachable-IsWindow (read (added_at_end true word at_first))

end_added : (add_data_end_of_buffer true gappy word).1 ≡ some 2
unfolding add_data_end_of_buffer
end_added = refl

get_data_pointer-add_data_end_of_buffer_example :
    (2 ≡ gappy.buffer_end)
    × (get_data_pointer (add_data_end_of_buffer true gappy word).0 1
        ≡ (if 1 == 2 then found word else get_data_pointer gappy 1))
get_data_pointer-add_data_end_of_buffer_example =
    get_data_pointer-add_data_end_of_buffer gappy true word gappy-IsWindow end_added 1 (omega arith)

beginning_read : (read_data_beg_buffer gappy).1 ≡ some (2 ^ 32 - 1, word)
unfolding read_data_beg_buffer
beginning_read = refl

get_data_pointer-read_data_beg_buffer_example :
    (2 ^ 32 - 1 ≡ gappy.buffer_start)
    × (get_data_pointer gappy (2 ^ 32 - 1) ≡ found word)
    × (get_data_pointer (read_data_beg_buffer gappy).0 1
        ≡ (if 1 == 2 ^ 32 - 1 then outside else get_data_pointer gappy 1))
get_data_pointer-read_data_beg_buffer_example =
    get_data_pointer-read_data_beg_buffer gappy gappy-IsWindow beginning_read 1 (omega arith)

cleared : (clear_buffer_until gappy 1).1 ≡ true
unfolding clear_buffer_until
cleared = refl

get_data_pointer-clear_buffer_until_example : get_data_pointer (clear_buffer_until gappy 1).0 0 ≡ (
    if ltb (sub32 0 (2 ^ 32 - 1)) (sub32 1 (2 ^ 32 - 1)) then outside else get_data_pointer gappy 0)
get_data_pointer-clear_buffer_until_example =
    get_data_pointer-clear_buffer_until gappy 1 gappy-IsWindow (omega arith) cleared 0 (omega arith)

end_set : (set_buffer_end gappy 9).1 ≡ true
unfolding set_buffer_end
end_set = refl

get_data_pointer-set_buffer_end_example :
    get_data_pointer (set_buffer_end gappy 9).0 5
    ≡ (if is_between gappy 9 5 then hole else get_data_pointer gappy 5)
get_data_pointer-set_buffer_end_example =
    get_data_pointer-set_buffer_end gappy 9 gappy-IsWindow (omega arith) end_set 5 (omega arith)

gap_filled : (add_data_to_buffer true gappy 0 word).1 ≡ true
unfolding add_data_to_buffer
gap_filled = refl

get_data_pointer-add_data_to_buffer_example :
    get_data_pointer (add_data_to_buffer true gappy 0 word).0 1 ≡ (
      if 1 == 0
      then found word
      else if is_between gappy 0 1
      then hole
      else get_data_pointer gappy 1)
get_data_pointer-add_data_to_buffer_example =
    get_data_pointer-add_data_to_buffer gappy true 0 word gappy-IsWindow (omega arith) (omega arith)
      gap_filled 1 (omega arith)

add_data_to_buffer_aliases_example :
    ((add_data_to_buffer true late (u32 (late.buffer_start + buffer_size)) word).1 ≡ true)
    × (num_packets_array
          (add_data_to_buffer true late (u32 (late.buffer_start + buffer_size)) word).0
        ≡ buffer_size + 1)
    × ((read_data_beg_buffer
          (add_data_to_buffer true late (u32 (late.buffer_start + buffer_size)) word).0).1
        ≡ some (late.buffer_start, word))
add_data_to_buffer_aliases_example = add_data_to_buffer_aliases late word late-IsWindow refl
