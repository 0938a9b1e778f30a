-- ===== src/Messenger/Tests.antt =====
-- toxcore/Messenger.c: file transfers on concrete data.
use insert_project_name_here.Base.{
  ℕ, ◌≤◌, ◌≡◌, ◌≢◌, refl, inl, true, false, not, Option, none, some, List, [], ◌∷◌, arith,
  replicate, ◌==◌, if◌then◌else◌, if_fst,
}
use insert_project_name_here.NetCrypto.Connection.{CryptoBox, CryptoConnection, established}
use insert_project_name_here.NetCrypto.Connection.Send.{write_cryptpacket, send_lossless_packet}
use insert_project_name_here.NetCrypto.Connection.Receive.{empty_array}
use insert_project_name_here.Messenger.Files.{
  controlled, chunk_wanted, FileStatus, no_transfer, not_accepted, transferring, finished,
  pause_not, FileTransfers, data_came, Friend, Env, is_finished, is_none, is_transferring,
  write_packet, write_cryptpacket_id,
}
use insert_project_name_here.Messenger.Files.Send.{
  file_control, file_seek, file_data, data_error, is_receiving, slot_of,
}
use insert_project_name_here.Messenger.Files.Receive.{
  break_files, handle_file_packet, receiving_number,
}
use insert_project_name_here.Messenger.Files.Chunks.{
  request_chunks, max_speed_reached, chunk_length,
}
use insert_project_name_here.Messenger.Files.Resume.{quiet, resumed, file_seek-request_chunks}
use insert_project_name_here.Messenger.Files.Counting.{used, Counted}
use insert_project_name_here.Messenger.Files.Steps.{file_data-Counted}
use insert_project_name_here.Messenger.Files.Requests.{Careful}
use insert_project_name_here.Messenger.Files.Rounds.{request_chunks_enough}
use insert_project_name_here.Messenger.Files.Stream.{
  Call, send_chunks, receive_packets, packets_of, Streamed, send_chunks-receive_packets,
}
use insert_project_name_here.Messenger.Files.Control.{Controlled, file_control-handle_file_packet}
use insert_project_name_here.Messenger.Files.Seek.{Sought, file_seek-handle_file_packet}
use insert_project_name_here.Messenger.Files.Calls.{
  FileCall, offer, take_in, ask, perform_all, perform_all-Counted, break_files_lem,
}

abbrev open_box : List ℕ → Option (List ℕ)
open_box [] = none
open_box (b ∷ bs) = some bs

abbrev plain_box : CryptoBox
plain_box = record {
  mac_bytes = 1;
  afternm = λ key nonce plain. some (0 ∷ plain);
  open_afternm = λ key nonce encrypted. open_box encrypted;
}

abbrev opened : CryptoConnection
opened = record {
  status = established;
  shared_key = [];
  sent_nonce = replicate 24 0;
  recv_nonce = replicate 24 0;
  temp_packet = none;
  send_array = empty_array;
  recv_array = empty_array;
  packet_counter = 0;
  packets_left = 40;
  packets_left_requested = 40;
  packets_sent = 0;
  rtt_time = 1000;
  maximum_speed_reached = false;
  wire = [];
  handed = [];
}

abbrev fine : Env
fine = record { again = true; sent = true; malloc = true; now = 50 }

abbrev unused : FileTransfers
unused = record {
  size = 0;
  transferred = 0;
  status = no_transfer;
  paused = pause_not;
  last_packet_number = 0;
  requested = 0;
  slots_allocated = 0;
  id = [];
}

-- A file of three bytes, of which all are requested.
abbrev moving : FileTransfers
moving = record unused { size = 3; requested = 3; status = transferring }

abbrev waiting : FileTransfers
waiting = record unused { size = 9; status = not_accepted }

abbrev nobody : Friend
nobody = record {
  is_online = true;
  file_sending = λ j. unused;
  num_sending_files = 0;
  file_receiving = λ j. unused;
  connection = opened;
  outbox = [];
  events = [];
}

-- Two peers with a transfer in slot 5.
abbrev sender : FileTransfers → Friend
sender ft = record nobody {
  file_sending = λ j. if j == 5 then ft else unused;
  num_sending_files = 1;
}

abbrev receiver : FileTransfers → Friend
receiver ft = record nobody { file_receiving = λ j. if j == 5 then ft else unused }

-- A chunk at the wrong position, and all of the file.
abbrev chunk_calls : List Call
chunk_calls =
    record { env = fine; position = 1; bytes = 7 ∷ 8 ∷ [] }
    ∷ record { env = fine; position = 0; bytes = 7 ∷ 8 ∷ 9 ∷ [] }
    ∷ []

file_sent : (send_chunks plain_box 5 chunk_calls (sender moving)).1 ≡ (7 ∷ 8 ∷ 9 ∷ []) ∷ []
unfolding send_chunks file_data write_packet write_cryptpacket send_lossless_packet
file_sent = refl

file_came :
    (receive_packets plain_box 5 fine ((82 ∷ 5 ∷ 7 ∷ 8 ∷ 9 ∷ []) ∷ []) (receiver moving)).events
    ≡ data_came (receiving_number 5) 0 (7 ∷ 8 ∷ 9 ∷ []) ∷ data_came (receiving_number 5) 3 [] ∷ []
unfolding receive_packets handle_file_packet
file_came = refl

send_chunks-receive_packets_example :
    Streamed plain_box 5
      (omega arith)
      (omega arith)
      (sender moving)
      (receiver moving)
      (send_chunks plain_box 5 chunk_calls (sender moving)).1
      (send_chunks plain_box 5 chunk_calls (sender moving)).0
      (receive_packets plain_box 5 fine
        (packets_of plain_box 5 (send_chunks plain_box 5 chunk_calls (sender moving)).1)
        (receiver moving))
send_chunks-receive_packets_example =
    send_chunks-receive_packets plain_box 5 (omega arith) (omega arith) fine chunk_calls
      (sender moving) (receiver moving)
      (inl (record {
        sending_is = refl;
        receiving_is = refl;
        same_size = refl;
        same_place = refl;
        inside = omega arith;
        size_word = omega arith;
        online = refl;
      }))

pause_sent : (file_control plain_box fine (receiver moving) (receiving_number 5) 1).1 ≡ 0
unfolding file_control write_cryptpacket_id write_packet write_cryptpacket send_lossless_packet
pause_sent = refl

transferring_apart : (s : FileStatus) → is_transferring s ≡ true → s ≢ finished
transferring_apart s e q = ground (arith, e, q)

file_control-handle_file_packet_example :
    Controlled plain_box fine
      (receiver moving)
      (sender moving)
      (is_receiving (receiving_number 5))
      (slot_of (receiving_number 5))
      1
      (file_control plain_box fine (receiver moving) (receiving_number 5) 1).0
file_control-handle_file_packet_example =
    file_control-handle_file_packet plain_box fine fine (receiver moving) (sender moving)
      (receiving_number 5) 1 (omega arith) refl
      (record {
        status_is = refl;
        unfinished = transferring_apart transferring refl;
        paused_is = refl;
        before = λ e. refl;
      })
      pause_sent

seek_sent : (file_seek plain_box fine (receiver waiting) (receiving_number 5) 4).1 ≡ 0
unfolding file_seek write_cryptpacket_id write_packet write_cryptpacket send_lossless_packet
seek_sent = refl

file_seek-handle_file_packet_example :
    Sought plain_box fine
      (receiver waiting)
      (sender waiting)
      (slot_of (receiving_number 5))
      4
      (file_seek plain_box fine (receiver waiting) (receiving_number 5) 4).0
file_seek-handle_file_packet_example =
    file_seek-handle_file_packet plain_box fine fine (receiver waiting) (sender waiting)
      (receiving_number 5) 4 (omega arith) (omega arith) refl refl refl seek_sent

not_reached :
    (max_speed_reached plain_box quiet fine
      (resumed plain_box fine (sender waiting) (slot_of (receiving_number 5)) 4)).1
    ≡ false
unfolding max_speed_reached handle_file_packet
not_reached = refl

file_seek-request_chunks_example :
    (request_chunks plain_box quiet 1
      (λ j. fine)
      (slot_of (receiving_number 5))
      2
      (resumed plain_box fine (sender waiting) (slot_of (receiving_number 5)) 4)).0.events
    ≡ controlled (slot_of (receiving_number 5)) 0
      ∷ chunk_wanted (slot_of (receiving_number 5)) 4 (
          chunk_length plain_box quiet (
            (resumed plain_box fine (sender waiting) (slot_of (receiving_number 5)) 4).file_sending
              (slot_of (receiving_number 5))))
      ∷ []
file_seek-request_chunks_example =
    file_seek-request_chunks plain_box fine fine (λ j. fine) (receiver waiting) (sender waiting)
      (receiving_number 5) 4 2 (omega arith) (omega arith) refl refl refl refl seek_sent
      (omega arith) not_reached

-- A client that gives every chunk at once.
abbrev eager : ℕ → ℕ → ℕ → Friend → Friend
eager i position len f = (file_data plain_box fine f i position (replicate len 7)).0

eager_finished :
    (i position : ℕ) (f : Friend)
    → is_finished (f.file_sending i).status ≡ true
    → is_none ((eager i position 0 f).file_sending i).status ≡ false
unfolding file_data data_error
eager_finished i position f e =
    let error = data_error plain_box f i position 0 in
    if_fst (λ (g : Friend). is_none (g.file_sending i).status ≡ false) (not (error == 0)) (f, error)
      _ (λ _. ground (arith, e)) (λ q. absurd (ground (arith, e, q)))

eager-Careful : Careful eager
eager-Careful = (
  λ i position len f w. file_data-Counted plain_box fine f i position (replicate len 7) w,
  eager_finished,
)

request_chunks_enough_example :
    (request_chunks plain_box eager 9 (λ j. fine) 5 2 (sender moving)
      ≡ request_chunks plain_box eager 3 (λ j. fine) 5 2 (sender moving))
    × ((request_chunks plain_box eager 3 (λ j. fine) 5 2 (sender moving)).1 ≤ 2)
request_chunks_enough_example =
    request_chunks_enough plain_box eager 3 9 (λ j. fine) 5 2 (sender moving) (omega arith)
      (omega arith)

-- A file of two bytes is offered, the friend accepts it, and its chunk is asked for.
abbrev file_calls : List FileCall
file_calls =
    offer fine 0 2 (replicate 32 1) (65 ∷ [])
    ∷ take_in fine (81 ∷ 0 ∷ 0 ∷ 0 ∷ [])
    ∷ ask (λ j k. fine)
    ∷ []

nobody-Counted : Counted nobody
unfolding used
nobody-Counted = refl

perform_all-Counted_example :
    Counted (perform_all plain_box eager file_calls nobody)
    × ((perform_all plain_box eager file_calls nobody).num_sending_files ≤ 256)
perform_all-Counted_example =
    perform_all-Counted plain_box eager eager-Careful file_calls nobody nobody-Counted

break_files_lem_example :
    (used 256 (break_files (sender moving)).file_sending ≡ 0)
    × (used 256 (break_files (sender moving)).file_receiving ≡ 0)
    × ((break_files (sender moving)).num_sending_files ≡ 1)
break_files_lem_example = break_files_lem (sender moving)
