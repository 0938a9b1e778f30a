-- ===== src/FriendRequests/Tests.antt =====
-- toxcore/friend_requests.c: runs of the friend requests on concrete data.
use insert_project_name_here.Base.{
  ℕ, ◌≡◌, ◌≤◌, ◌++◌, refl, true, false, none, some, List, [], ◌∷◌, arith, length, take,
}
use insert_project_name_here.FriendRequests.{
  FriendRequests, remove_request_received, request_received, addto_receivedlist,
  friendreq_handlepacket, zero_key,
}
use insert_project_name_here.FriendRequests.Memory.{
  handle_packets, friendreq_handlepacket_once, friendreq_handlepacket-message,
}

abbrev alice : List ℕ
alice = 7 ∷ 7 ∷ []

abbrev hello : List ℕ
hello = 32 ∷ 1 ∷ 2 ∷ 3 ∷ 4 ∷ 104 ∷ 105 ∷ []

abbrev ready : FriendRequests
ready = record {
  nospam = 1 ∷ 2 ∷ 3 ∷ 4 ∷ [];
  handle_friendrequest_isset = true;
  filter_function = none;
  received_requests = λ _. zero_key;
  received_requests_index = 0;
}

hello_accepted : (friendreq_handlepacket 1000 ready alice hello).1 ≡ some (104 ∷ 105 ∷ [])
unfolding friendreq_handlepacket
hello_accepted = refl

removed_again :
    request_received (remove_request_received (addto_receivedlist ready alice) alice).0 alice
    ≡ false
unfolding request_received remove_request_received addto_receivedlist
removed_again = refl

friendreq_handlepacket_once_example :
    let fr =
      handle_packets 1000
        (friendreq_handlepacket 1000 ready alice hello).0
        ((9 ∷ [], hello) ∷ []) in
    friendreq_handlepacket 1000 fr alice hello ≡ (fr, none)
friendreq_handlepacket_once_example =
    friendreq_handlepacket_once 1000 ready alice hello hello ((9 ∷ [], hello) ∷ []) (omega arith)
      hello_accepted (omega arith)

friendreq_handlepacket-message_example :
    (hello ≡ take 1 hello ++ (ready.nospam ++ (104 ∷ 105 ∷ [])))
    × (request_received ready alice ≡ false)
    × (length hello ≤ 1000)
friendreq_handlepacket-message_example =
    friendreq_handlepacket-message 1000 ready alice hello hello_accepted
