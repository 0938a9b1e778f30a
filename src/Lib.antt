-- ===== src/Lib.antt =====
-- A verification library for data structures and protocols of the Tox messaging library.
--
-- The program. toxcore is a C library of a peer-to-peer messenger. Encrypted connections between
-- two friends (toxcore/net_crypto.c) number the packets that they send, keep those that were not
-- yet acknowledged in an array, and ask each other for the packets that were lost. Pings of every
-- layer (the DHT, the onion, groups) are remembered in a ring of outstanding pings
-- (toxcore/ping_array.c), and the DHT caches the keys that it shares with other nodes, and keeps
-- lists of the nodes that are closest to a key (toxcore/DHT.c). The friend connections and the TCP
-- relays look up friends by their keys in a sorted list of byte strings (toxcore/list.c). Requests
-- of strangers to become friends are filtered before the user sees them
-- (toxcore/friend_requests.c). The messenger sends files over a crypto connection
-- (toxcore/Messenger.c): a receiver accepts, pauses, seeks and kills a transfer with control
-- packets. On top of the friend connections, toxav signals audio and video calls (toxav/msi.c)
-- with messages that the messenger delivers, and buffers audio and video frames in a ring buffer
-- (toxcore/util.c).
--
-- The files.
--   Base: the names that all parts share, and its children: Tests (Boolean tests on numbers),
--     Bytes (numbers in network order), Lists (length, get_elem?, take and drop over native
--     numbers), Word (wrap-around at 8, 16, 32, 64 bits).
--   NetCrypto.PacketsArray: `Packets_Array` and each function from `num_packets_array` to
--     `set_buffer_end` of toxcore/net_crypto.c. Its children are Slots, Window, Reach and Lookups.
--   NetCrypto.Request: `generate_request_packet` and `handle_request_packet` of
--     toxcore/net_crypto.c. Its children are Bounds, Bytes, Exchange, Holes and Stamps.
--   NetCrypto.Nonce: `increment_nonce` and `increment_nonce_number` of toxcore/crypto_core.c. Its
--     child Value reads a nonce as a number.
--   NetCrypto.Connection: `Crypto_Connection` of toxcore/net_crypto.h, `cryptpacket_received` and
--     `crypto_num_free_sendqueue_slots`. Its children are Send (what a connection sends, from
--     `send_data_packet` to `send_requested_packets`, with `write_cryptpacket` and
--     `send_lossy_cryptpacket`), Receive (`handle_data_packet_helper` and what it calls) and Room.
--   NetCrypto.Delivery: two peers of a connection. Wire (the plain text of a data packet), Sender
--     and Receiver (the two windows against the packets that were accepted), Sending (what every
--     function that sends keeps), Giver and Giving, Taker and Taking, Writing (the peers through
--     each function), Acts (the calls of a peer), Agree (the two together) and Runs (sequences of
--     calls).
--   PingArray: `Ping_Array` and the functions of toxcore/ping_array.c. Its children are Expiry and
--     Exchange.
--   BsList: `BS_LIST` and the functions of toxcore/list.c. Its children are Bytes (the order of
--     memcmp), Ascending, Search (`find`), Sorted, Room, Adding, Changes and Overrun.
--   RingBuffer: `RingBuffer` of toxcore/util.c. Its children are Copies, Refine and Runs.
--   Dht.SharedKeys: `Shared_Keys` and `get_shared_key` of toxcore/DHT.c. Its child is Cache.
--   Dht.Nodes: `Node_format`, `id_closest` and `add_to_list` of toxcore/DHT.c. Its children are
--     Distance, Insertion, Closest and Adding.
--   FriendRequests: `Friend_Requests` and the functions of toxcore/friend_requests.c. Its children
--     are Received and Memory.
--   Messenger.Files: the file transfers with one friend of toxcore/Messenger.c and
--     toxcore/Messenger.h. Its children that model code are Send (`file_get_id`, `new_filesender`,
--     `file_control`, `file_seek`, `file_data`, `file_dataremaining`), Receive (the cases of
--     `handle_packet` for files, `handle_filecontrol` and `break_files`) and Chunks
--     (`do_reqchunk_filecb`). The others hold theorems: Checks, Transfer and Stream (a file from
--     one peer to the other), Mirror, Packets, Control, Seek and Resume (control packets between
--     two peers), Rounds (the loop that asks for chunks), Counting, Balance, Steps, Handlers,
--     Requests and Calls (`num_sending_files`).
--   Msi.Message: the messages of toxav/msi.c, `msg_parse_in` and what `send_message` writes.
--   Msi.Session: `MSICall` and `MSISession` of toxav/msi.h, `get_call`, `new_call`, `kill_call`,
--     `send_message`, `send_error` and `invoke_callback`.
--   Msi.Handlers: `handle_init`, `handle_push`, `handle_pop`, `handle_msi_packet`,
--     `on_peer_status`, and the operations of the local user from `msi_invite` to
--     `msi_change_capabilities`.
--   Msi.Codec, Msi.Container, Msi.Steps, Msi.States, Msi.Runs, Msi.Defects: theorems about these;
--     Msi.Runs also has the events of a session and `msi_new`.
--   The modules called Tests, below the parts, hold runs on concrete data.
--
-- State and operations. A C struct is a record, a pointer that may be NULL is an Option, an array
-- is a function from its indices or a list, and an operation that changes a struct gives the new
-- one. A result -1 is `none` or `false`. An unsigned machine word is a native number, with the
-- wrap-around written out. What `malloc`, `realloc`, `pthread_mutex_trylock`, the clock and the
-- random number generator give is an argument of the operation. A size_t has 64 bits, and a
-- `realloc` for no bytes that gives NULL is taken to have freed the block. A call of msi.c is
-- stored in its session under its friend number, and the pointers between calls are friend
-- numbers. A crypto connection records, beside the fields of its struct, the packets that it
-- handed to `send_packet_to` with their plain texts, and what its data callback was called with. A
-- friend records, beside its fields for file transfers, the packets that its connection accepted
-- and what its callbacks were called with. The callback for chunks is a parameter that may change
-- the friend, since clients send from it. What the connection and the clock give a call is a
-- record `Env`. The encryption of the cryptographic library is a parameter, the record
-- `CryptoBox`; where a theorem needs that it is authenticated, the step on which a packet arrives
-- says so.
--
-- Fuel. The loops over a packet window run on the distance between its two numbers as fuel, which
-- is the number of their rounds; so does the loop that clears timed out pings. The search of a
-- list of n elements runs on 2 * n + 3 rounds. Packets are handed on for at most as many rounds as
-- the window has numbers. The loop that asks for the chunks of a file runs for at most one round
-- more than the free slots, which each round lowers; `add_to_list` calls itself at most once for
-- each node of an ascending list. Packets are sent again in one round for each number of the
-- window, as in the source.
--
-- Not modelled. The sockets, the threads and their locks, and the parts of toxcore that only these
-- layers reach: the DHT but for its cache of keys and its lists of the closest nodes, the onion,
-- the TCP relays, the groups, the public interface, and the messenger but for its file transfers:
-- the friend of a transfer exists, its callbacks are registered, and its status is online or not.
-- In net_crypto.c, the handshake, the congestion control, the dispatch of packets, and the table
-- of connections. In msi.c, `msi_kill` and the registration of callbacks. In list.c, ping_array.c
-- and the ring buffer, the functions that only free memory. A callback of a session is a function
-- that says whether it succeeded; it does not call back into the session.
pub mod Base
pub mod BsList
pub mod PingArray
pub mod RingBuffer
pub mod Msi
pub mod FriendRequests
pub mod NetCrypto
pub mod Dht
pub mod Messenger
