-- ===== src/FriendRequests.antt =====
-- toxcore/friend_requests.c: which friend requests reach the user. A key is its bytes, `nospam` the
-- four bytes of the number in memory, and a user's callback is what it is called with.
pub mod Received
pub mod Memory
mod Tests
use insert_project_name_here.Base.{
  ℕ, zero, suc, ◌+◌, ◌-◌, Bool, true, false, not, ◌||◌, Option, none, some, List, [], ltb, leb,
  ◌==◌, if◌then◌else◌, length, take, drop, replicate, u16,
}
use insert_project_name_here.BsList.Bytes.{Order, equal, memcmp}

abbrev pub is_same : Order → Bool
is_same equal = true
is_same _ = false

-- toxcore/util.c: `id_equal`.
unfoldable pub id_equal : List ℕ → List ℕ → Bool
unfolding memcmp
id_equal a b = is_same (memcmp a b)

-- MAX_RECEIVED_STORED
abbrev pub max_received_stored : ℕ
max_received_stored = 32

-- `Friend_Requests`: the requests below `max_received_stored` are the array's. The filter says whether
-- it returned 0.
pub record FriendRequests : Type 0 where
  pub nospam : List ℕ
  pub handle_friendrequest_isset : Bool
  pub filter_function : Option (List ℕ → Bool)
  pub received_requests : ℕ → List ℕ
  pub received_requests_index : ℕ  -- uint16_t

unfoldable pub set_nospam : FriendRequests → List ℕ → FriendRequests
set_nospam fr num = record fr { nospam = num }

unfoldable pub callback_friendrequest : FriendRequests → FriendRequests
callback_friendrequest fr = record fr { handle_friendrequest_isset = true }

unfoldable pub set_filter_function : FriendRequests → Option (List ℕ → Bool) → FriendRequests
set_filter_function fr f = record fr { filter_function = f }

-- `received_requests[i] = key`
unfoldable pub store_request : (ℕ → List ℕ) → ℕ → List ℕ → ℕ → List ℕ
store_request f i key = λ j. if j == i then key else f j

unfoldable pub addto_receivedlist : FriendRequests → List ℕ → FriendRequests
unfolding store_request
addto_receivedlist fr real_pk =
    let index =
      if leb max_received_stored fr.received_requests_index
      then 0
      else fr.received_requests_index in
    record fr {
      received_requests = store_request fr.received_requests index real_pk;
      received_requests_index = u16 (index + 1);
    }

-- The first slot from number `i` on, of `n` slots, that holds the key.
unfoldable pub find_request : ℕ → ℕ → (ℕ → List ℕ) → List ℕ → Option ℕ
unfolding id_equal
find_request zero i f real_pk = none
find_request (suc n) i f real_pk =
    let rest = find_request n (i + 1) f real_pk in if id_equal (f i) real_pk then some i else rest

abbrev pub is_found : Option ℕ → Bool
is_found none = false
is_found (some _) = true

unfoldable pub request_received : FriendRequests → List ℕ → Bool
unfolding find_request
request_received fr real_pk =
    is_found (find_request max_received_stored 0 fr.received_requests real_pk)

-- What `sodium_memzero` leaves of a key.
abbrev pub zero_key : List ℕ
zero_key = replicate 32 0

-- The requests, and whether the call returned 0.
unfoldable pub remove_request_received : FriendRequests → List ℕ → FriendRequests × Bool
unfolding find_request store_request
remove_request_received fr real_pk =
    elim (find_request max_received_stored 0 fr.received_requests real_pk) [
      | none ↦ (fr, false)
      | some i ↦
          (record fr { received_requests = store_request fr.received_requests i zero_key }, true)
    ]

abbrev pub refuses : Option (List ℕ → Bool) → List ℕ → Bool
refuses none key = false
refuses (some f) key = not (f key)

-- The requests, and the message that the user's callback gets, or `none` for the return of 1.
-- `max_data_size` is ONION_CLIENT_MAX_DATA_SIZE, which rests on sizes of the cryptographic library.
unfoldable pub friendreq_handlepacket :
    ℕ → FriendRequests → List ℕ → List ℕ → FriendRequests × Option (List ℕ)
unfolding request_received addto_receivedlist id_equal
friendreq_handlepacket max_data_size fr source_pubkey packet =
    if leb (length packet) 5 || ltb max_data_size (length packet)
    then (fr, none)
    else if not fr.handle_friendrequest_isset
    then (fr, none)
    else if request_received fr source_pubkey
    then (fr, none)
    else if not (id_equal (take 4 (drop 1 packet)) fr.nospam)
    then (fr, none)
    else if refuses fr.filter_function source_pubkey
    then (fr, none)
    else (addto_receivedlist fr source_pubkey, some (drop 4 (drop 1 packet)))
