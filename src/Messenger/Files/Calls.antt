-- ===== src/Messenger/Files/Calls.antt =====
-- toxcore/Messenger.c: the calls that a client makes about file transfers, the friend's packets and the
-- rounds of chunk requests, in any order, and the end of the connection.
use insert_project_name_here.Base.{ℕ, zero, suc, ◌≤◌, ◌≡◌, refl, List, [], ◌∷◌, arith}
use insert_project_name_here.NetCrypto.Connection.{CryptoBox}
use insert_project_name_here.Messenger.Files.{FileTransfers, Friend, Env}
use insert_project_name_here.Messenger.Files.Send.{
  new_filesender, file_control, file_seek, file_data,
}
use insert_project_name_here.Messenger.Files.Receive.{break_slots, break_files, handle_file_packet}
use insert_project_name_here.Messenger.Files.Chunks.{do_reqchunk_filecb}
use insert_project_name_here.Messenger.Files.Counting.{
  Counted, used, used_bound, new_filesender-Counted,
}
use insert_project_name_here.Messenger.Files.Balance.{file_control-Counted}
use insert_project_name_here.Messenger.Files.Steps.{file_seek-Counted, file_data-Counted}
use insert_project_name_here.Messenger.Files.Handlers.{handle_file_packet-Counted}
use insert_project_name_here.Messenger.Files.Requests.{Careful, do_reqchunk_filecb-Counted}

-- One call, with what the world gives it.
pub data FileCall : Type 0 where
  offer : Env → (file_type filesize : ℕ) (file_id filename : List ℕ) → FileCall
  steer : Env → (filenumber control : ℕ) → FileCall
  seek : Env → (filenumber position : ℕ) → FileCall
  give : Env → (filenumber position : ℕ) (data_bytes : List ℕ) → FileCall
  take_in : Env → (packet : List ℕ) → FileCall
  ask : (ℕ → ℕ → Env) → FileCall

module _ (box : CryptoBox) (client : ℕ → ℕ → ℕ → Friend → Friend) where
  unfoldable pub perform : FileCall → Friend → Friend
  unfolding new_filesender file_control file_seek file_data handle_file_packet do_reqchunk_filecb
  perform (offer env file_type filesize file_id filename) f =
      (new_filesender box env f file_type filesize file_id filename).0
  perform (steer env filenumber control) f = (file_control box env f filenumber control).0
  perform (seek env filenumber position) f = (file_seek box env f filenumber position).0
  perform (give env filenumber position bytes) f = (file_data box env f filenumber position bytes).0
  perform (take_in env packet) f = handle_file_packet box env f packet
  perform (ask env) f = do_reqchunk_filecb box client env f

  unfoldable pub perform_all : List FileCall → Friend → Friend
  unfolding perform
  perform_all [] f = f
  perform_all (c ∷ calls) f = perform_all calls (perform c f)

perform-Counted :
    (box : CryptoBox) (client : ℕ → ℕ → ℕ → Friend → Friend) (careful : Careful client)
    (c : FileCall) (f : Friend)
    → Counted f
    → Counted (perform box client c f)
unfolding perform
perform-Counted box client careful (offer env file_type filesize file_id filename) f w =
    new_filesender-Counted box env f file_type filesize file_id filename w
perform-Counted box client careful (steer env filenumber control) f w =
    file_control-Counted box env f filenumber control w
perform-Counted box client careful (seek env filenumber position) f w =
    file_seek-Counted box env f filenumber position w
perform-Counted box client careful (give env filenumber position bytes) f w =
    file_data-Counted box env f filenumber position bytes w
perform-Counted box client careful (take_in env packet) f w =
    handle_file_packet-Counted box env f packet w
perform-Counted box client careful (ask env) f w =
    do_reqchunk_filecb-Counted box client careful env f w

-- If `num_sending_files` is the number of the slots that are sending, it still is after any
-- sequence of `new_filesender`, `file_control`, `file_seek`, `file_data`, packets of the friend
-- about files, and rounds of `do_reqchunk_filecb`, with any arguments, whether or not packets are
-- accepted, and it is at most 256. In its callback for a chunk the client may do whatever keeps
-- this, if it does not end a transfer of which it is told that it is finished.
pub perform_all-Counted :
    (box : CryptoBox) (client : ℕ → ℕ → ℕ → Friend → Friend) (careful : Careful client)
    (calls : List FileCall) (f : Friend)
    → Counted f
    → Counted (perform_all box client calls f)
      × ((perform_all box client calls f).num_sending_files ≤ 256)
unfolding perform_all
perform_all-Counted box client careful [] f w = (w, omega (arith, w, used_bound 256 f.file_sending))
perform_all-Counted box client careful (c ∷ calls) f w =
    perform_all-Counted box client careful calls (perform box client c f)
      (perform-Counted box client careful c f w)

used-break_slots :
    (n m : ℕ) (slots : ℕ → FileTransfers) → n ≤ m → used n (break_slots m 0 slots) ≡ 0
unfolding used break_slots
used-break_slots zero m slots h = refl
used-break_slots (suc n) m slots h =
    rw (used-break_slots n m slots (omega (arith, h))) (ground (arith, h))

-- `break_files` ends every transfer, sent or received, but leaves `num_sending_files` as it was.
pub break_files_lem :
    (f : Friend)
    → (used 256 (break_files f).file_sending ≡ 0)
      × (used 256 (break_files f).file_receiving ≡ 0)
      × ((break_files f).num_sending_files ≡ f.num_sending_files)
unfolding break_files
break_files_lem f = (
  used-break_slots 256 256 f.file_sending (omega arith),
  used-break_slots 256 256 f.file_receiving (omega arith),
  refl,
)
