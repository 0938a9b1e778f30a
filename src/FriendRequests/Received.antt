-- ===== src/FriendRequests/Received.antt =====
-- toxcore/friend_requests.c: the array of received requests.
use native.Mathlib.Decide.{dec_lt}
use mathlib.Core.Path.{subst}
use insert_project_name_here.Base.{
  ℕ, zero, suc, ◌+◌, ◌-◌, ◌≡◌, ◌<◌, ◌≤◌, true, List, leb, if◌then◌else◌, arith,
}
use insert_project_name_here.BsList.Bytes.{memcmp_self}
use insert_project_name_here.FriendRequests.{
  FriendRequests, id_equal, addto_receivedlist, store_request, find_request, is_found,
  request_received,
}

id_equal_self : (x : List ℕ) → id_equal x x ≡ true
unfolding id_equal
id_equal_self x = rw (memcmp_self x)

-- A key in a slot is found.
find_request-is_found :
    (n i j : ℕ) (f : ℕ → List ℕ) → i ≤ j → j < i + n → is_found (find_request n i f (f j)) ≡ true
unfolding find_request
find_request-is_found zero i j f h l = absurd (omega arith)
find_request-is_found (suc n) i j f h l = elim (dec_lt i j) [
  | yes q ↦ ground (arith, find_request-is_found n (i + 1) j f (omega arith) (omega arith))
  | no q ↦ ground (arith, id_equal_self (f j))
]

-- A key in slot `p`, with `room` additions before that slot is overwritten.
pub record Remembered (fr : FriendRequests) (key : List ℕ) (room : ℕ) : Type 0 where
  pub slot : ℕ
  pub below_max : slot < 32
  pub holds : fr.received_requests slot ≡ key
  pub index_max : fr.received_requests_index ≤ 32
  pub ahead : room ≤ (
      if leb fr.received_requests_index slot
      then slot - fr.received_requests_index
      else slot + 32 - fr.received_requests_index)

pub Remembered-received :
    {fr : FriendRequests} {key : List ℕ} {room : ℕ}
    → Remembered fr key room
    → request_received fr key ≡ true
unfolding request_received
Remembered-received {fr} r =
    subst (λ k. is_found (find_request 32 0 fr.received_requests k) ≡ true) r.holds
      (find_request-is_found 32 0 r.slot fr.received_requests (omega arith) r.below_max)

pub addto_receivedlist-first :
    (fr : FriendRequests) (key : List ℕ)
    → fr.received_requests_index ≤ 32
    → Remembered (addto_receivedlist fr key) key 31
unfolding addto_receivedlist store_request
addto_receivedlist-first fr key h = record {
  slot = if leb 32 fr.received_requests_index then 0 else fr.received_requests_index;
  below_max = ground arith;
  holds = ground arith;
  index_max = ground arith;
  ahead = ground arith;
}

pub addto_receivedlist-keeps :
    {fr : FriendRequests} {key : List ℕ} {room : ℕ} (other : List ℕ)
    → Remembered fr key (suc room)
    → Remembered (addto_receivedlist fr other) key room
unfolding addto_receivedlist store_request
addto_receivedlist-keeps other r = record {
  slot = r.slot;
  below_max = r.below_max;
  holds = ground (arith, r.holds, r.ahead, r.below_max, r.index_max);
  index_max = ground (arith, r.index_max);
  ahead = ground (arith, r.ahead, r.below_max, r.index_max);
}

pub Remembered-less :
    {fr : FriendRequests} {key : List ℕ} {room : ℕ}
    → Remembered fr key (suc room)
    → Remembered fr key room
Remembered-less r = record {
  slot = r.slot;
  below_max = r.below_max;
  holds = r.holds;
  index_max = r.index_max;
  ahead = omega (arith, r.ahead);
}
