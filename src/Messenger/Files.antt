-- ===== src/Messenger/Files.antt =====
-- toxcore/Messenger.c: the file transfers with one friend, and the packets that are sent for them. The
-- friend exists, so `friend_not_valid` is false; its crypto connection is that of NetCrypto.
pub mod Send
pub mod Receive
pub mod Chunks
pub mod Rounds
pub mod Checks
pub mod Transfer
pub mod Stream
pub mod Mirror
pub mod Packets
pub mod Control
pub mod Seek
pub mod Resume
pub mod Counting
pub mod Balance
pub mod Steps
pub mod Handlers
pub mod Requests
pub mod Calls
use insert_project_name_here.Base.{
  ℕ, zero, suc, ◌+◌, ◌-◌, Bool, true, false, not, ◌||◌, Option, none, some, List, [], ◌∷◌, ◌++◌,
  length, leb, ◌==◌, if◌then◌else◌,
}
use insert_project_name_here.NetCrypto.Connection.{CryptoBox, CryptoConnection}
use insert_project_name_here.NetCrypto.Connection.Send.{max_crypto_data_size, write_cryptpacket}

-- FILESTATUS_NONE to FILESTATUS_FINISHED
pub data FileStatus : Type 0 where
  no_transfer not_accepted transferring finished : FileStatus

-- FILE_PAUSE_NOT to FILE_PAUSE_BOTH, the four values of two bits.
pub data FilePause : Type 0 where
  pause_not pause_us pause_other pause_both : FilePause

-- FILECONTROL_ACCEPT to FILECONTROL_SEEK
abbrev pub control_accept : ℕ
control_accept = 0

abbrev pub control_pause : ℕ
control_pause = 1

abbrev pub control_kill : ℕ
control_kill = 2

abbrev pub control_seek : ℕ
control_seek = 3

abbrev pub is_none : FileStatus → Bool
is_none no_transfer = true
is_none _ = false

abbrev pub is_not_accepted : FileStatus → Bool
is_not_accepted not_accepted = true
is_not_accepted _ = false

abbrev pub is_transferring : FileStatus → Bool
is_transferring transferring = true
is_transferring _ = false

abbrev pub is_finished : FileStatus → Bool
is_finished finished = true
is_finished _ = false

-- `paused & FILE_PAUSE_US` and `paused & FILE_PAUSE_OTHER`
abbrev pub by_us : FilePause → Bool
by_us pause_us = true
by_us pause_both = true
by_us _ = false

abbrev pub by_other : FilePause → Bool
by_other pause_other = true
by_other pause_both = true
by_other _ = false

-- `paused |= FILE_PAUSE_US` and `paused |= FILE_PAUSE_OTHER`
abbrev pub add_us : FilePause → FilePause
add_us pause_not = pause_us
add_us pause_us = pause_us
add_us pause_other = pause_both
add_us pause_both = pause_both

abbrev pub add_other : FilePause → FilePause
add_other pause_not = pause_other
add_other pause_us = pause_both
add_other pause_other = pause_other
add_other pause_both = pause_both

-- `paused ^= FILE_PAUSE_US` and `paused ^= FILE_PAUSE_OTHER`
abbrev pub flip_us : FilePause → FilePause
flip_us pause_not = pause_us
flip_us pause_us = pause_not
flip_us pause_other = pause_both
flip_us pause_both = pause_other

abbrev pub flip_other : FilePause → FilePause
flip_other pause_not = pause_other
flip_other pause_us = pause_both
flip_other pause_other = pause_not
flip_other pause_both = pause_us

abbrev pub is_unpaused : FilePause → Bool
is_unpaused pause_not = true
is_unpaused _ = false

-- `struct File_Transfers`
pub record FileTransfers : Type 0 where
  pub size : ℕ  -- uint64_t
  pub transferred : ℕ  -- uint64_t
  pub status : FileStatus
  pub paused : FilePause
  pub last_packet_number : ℕ  -- uint32_t
  pub requested : ℕ  -- uint64_t
  pub slots_allocated : ℕ  -- unsigned int
  pub id : List ℕ

-- The callbacks of the client: file_sendrequest, file_filecontrol, file_reqchunk and file_filedata.
pub data FileEvent : Type 0 where
  asked : (filenumber file_type filesize : ℕ) (filename : List ℕ) → FileEvent
  controlled : (filenumber control : ℕ) → FileEvent
  chunk_wanted : (filenumber position len : ℕ) → FileEvent
  data_came : (filenumber position : ℕ) (data_bytes : List ℕ) → FileEvent

-- What `Friend` has for file transfers. `is_online` says that the status is FRIEND_ONLINE. The slots
-- below `max_concurrent_file_pipes` are the arrays'. `outbox` holds the packets that the connection has
-- accepted, and `events` what the callbacks were called with, both in order.
pub record Friend : Type 0 where
  pub is_online : Bool
  pub file_sending : ℕ → FileTransfers
  pub num_sending_files : ℕ  -- unsigned int
  pub file_receiving : ℕ → FileTransfers
  pub connection : CryptoConnection
  pub outbox : List (List ℕ)
  pub events : List FileEvent

-- MAX_CONCURRENT_FILE_PIPES
abbrev pub max_concurrent_file_pipes : ℕ
max_concurrent_file_pipes = 256

unfoldable pub set_slot : (ℕ → FileTransfers) → ℕ → FileTransfers → ℕ → FileTransfers
set_slot slots i ft = λ j. if j == i then ft else slots j

unfoldable pub set_sending : Friend → ℕ → FileTransfers → Friend
unfolding set_slot
set_sending f i ft = record f { file_sending = set_slot f.file_sending i ft }

unfoldable pub set_receiving : Friend → ℕ → FileTransfers → Friend
unfolding set_slot
set_receiving f i ft = record f { file_receiving = set_slot f.file_receiving i ft }

-- A call of a callback.
abbrev pub call : FileEvent → Friend → Friend
call e f = record f { events = f.events ++ (e ∷ []) }

-- What `send_packet_to` gives for a packet that is sent again and for a new one, whether `malloc`
-- succeeds, and the clock.
pub record Env : Type 0 where
  pub again : Bool
  pub sent : Bool
  pub malloc : Bool
  pub now : ℕ

-- The packets that were accepted.
abbrev pub logged : List (List ℕ) → List ℕ → Option ℕ → List (List ℕ)
logged outbox packet none = outbox
logged outbox packet (some number) = outbox ++ (packet ∷ [])

abbrev pub is_written : Option ℕ → Bool
is_written none = false
is_written (some number) = true

module _ (box : CryptoBox) where
  -- A call of `write_cryptpacket`.
  unfoldable pub write_packet : Env → Friend → List ℕ → Bool → Friend × Option ℕ
  write_packet env f packet congestion_control =
      let (c, number) =
        write_cryptpacket box env.again env.sent env.malloc env.now f.connection packet
          congestion_control in
      (record f { connection = c; outbox = logged f.outbox packet number }, number)

  unfoldable pub write_cryptpacket_id : Env → Friend → ℕ → List ℕ → Bool → Friend × Bool
  unfolding write_packet
  write_cryptpacket_id env f packet_id bytes congestion_control =
      if leb (max_crypto_data_size box) (length bytes) || not f.is_online
      then (f, false)
      else let (f', number) = write_packet env f (packet_id ∷ bytes) congestion_control in
        (f', is_written number)
