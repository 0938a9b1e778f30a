-- ===== src/FriendRequests/Memory.antt =====
-- toxcore/friend_requests.c: which requests are remembered.
use mathlib.Core.Path.{subst, ap}
use mathlib.Core.Bool.{not, ◌||◌}
use insert_project_name_here.Base.{
  ℕ, zero, suc, ◌≡◌, ◌≤◌, refl, Bool, true, false, Bool-cases, inl, inr, ltb, take, drop, ◌++◌, sym,
  ◌∙◌, none, some, List, [], ◌∷◌, leb, if◌then◌else◌, length, arith,
}
use insert_project_name_here.BsList.Bytes.{memcmp-equal, Order-cases, memcmp}
use insert_project_name_here.FriendRequests.{
  FriendRequests, id_equal, addto_receivedlist, request_received, friendreq_handlepacket, refuses,
}
use insert_project_name_here.FriendRequests.Received.{
  Remembered, Remembered-received, addto_receivedlist-first, addto_receivedlist-keeps,
  Remembered-less,
}

-- Five tests in turn with one answer are one test.
five_tests :
    {A : Type 0} (a b c d e : Bool) (x y : A)
    → (if a then x else if b then x else if c then x else if d then x else if e then x else y)
      ≡ (if a || (b || (c || (d || e))) then x else y)
five_tests true b c d e x y = refl
five_tests false true c d e x y = refl
five_tests false false true d e x y = refl
five_tests false false false true e x y = refl
five_tests false false false false e x y = refl

-- What follows where none of the five tests holds.
no_test :
    (a b c d e : Bool)
    → a || (b || (c || (not d || e))) ≡ false
    → (a ≡ false) × (c ≡ false) × (d ≡ true)
no_test a b c d e h = ground (arith, h)

module _ (max_data_size : ℕ) (fr : FriendRequests) (key packet : List ℕ) where
  -- The tests of `friendreq_handlepacket`, in its order.
  abbrev is_refused : Bool
  is_refused =
      (leb (length packet) 5 || ltb max_data_size (length packet))
      || (not fr.handle_friendrequest_isset
          || (request_received fr key
              || (not (id_equal (take 4 (drop 1 packet)) fr.nospam)
                  || refuses fr.filter_function key)))

  handlepacket-is_refused : friendreq_handlepacket max_data_size fr key packet ≡ (
      if is_refused then (fr, none) else (addto_receivedlist fr key, some (drop 4 (drop 1 packet))))
  unfolding friendreq_handlepacket
  handlepacket-is_refused =
      five_tests (leb (length packet) 5 || ltb max_data_size (length packet))
        (not fr.handle_friendrequest_isset) (request_received fr key)
        (not (id_equal (take 4 (drop 1 packet)) fr.nospam)) (refuses fr.filter_function key)
        (fr, none) (addto_receivedlist fr key, some (drop 4 (drop 1 packet)))

  handlepacket-refused :
      request_received fr key ≡ true
      → friendreq_handlepacket max_data_size fr key packet ≡ (fr, none)
  unfolding friendreq_handlepacket
  handlepacket-refused e = ground arith

  handlepacket-accepted :
      {m : List ℕ}
      → (friendreq_handlepacket max_data_size fr key packet).1 ≡ some m
      → (is_refused ≡ false)
        × (drop 4 (drop 1 packet) ≡ m)
        × ((friendreq_handlepacket max_data_size fr key packet).0 ≡ addto_receivedlist fr key)
  handlepacket-accepted e = ground (arith, handlepacket-is_refused)

  handlepacket-keeps :
      {other : List ℕ} {room : ℕ}
      → Remembered fr other (suc room)
      → Remembered (friendreq_handlepacket max_data_size fr key packet).0 other room
  handlepacket-keeps {other} {room} r = elim (Bool-cases is_refused) [
    | inl e ↦
        subst (λ g. Remembered g other room) (ground (arith, handlepacket-is_refused))
          (Remembered-less r)
    | inr e ↦
        subst (λ g. Remembered g other room) (ground (arith, handlepacket-is_refused))
          (addto_receivedlist-keeps key r)
  ]

-- The requests after a sequence of packets, each with the key of its sender.
unfoldable pub handle_packets : ℕ → FriendRequests → List (List ℕ × List ℕ) → FriendRequests
unfolding friendreq_handlepacket
handle_packets max_data_size fr [] = fr
handle_packets max_data_size fr ((key, packet) ∷ later) =
    handle_packets max_data_size (friendreq_handlepacket max_data_size fr key packet).0 later

handle_packets-keeps :
    (max_data_size : ℕ) (fr : FriendRequests) (key : List ℕ) (later : List (List ℕ × List ℕ))
    {room : ℕ}
    → length later ≤ room
    → Remembered fr key room
    → request_received (handle_packets max_data_size fr later) key ≡ true
unfolding handle_packets
handle_packets-keeps max_data_size fr key [] h r = Remembered-received r
handle_packets-keeps max_data_size fr key ((k, p) ∷ later) {room = zero} h r = absurd (omega arith)
handle_packets-keeps max_data_size fr key ((k, p) ∷ later) {room = suc room} h r =
    handle_packets-keeps max_data_size (friendreq_handlepacket max_data_size fr k p).0 key later
      (omega arith) (handlepacket-keeps max_data_size fr k p r)

-- If the index of received requests is at most 32 and a request of a key is handed to the user,
-- then after at most 31 further packets of any senders, every packet of that key is refused and
-- changes nothing.
pub friendreq_handlepacket_once :
    (max_data_size : ℕ) (fr : FriendRequests) (key packet again : List ℕ)
    (later : List (List ℕ × List ℕ)) {message : List ℕ}
    → fr.received_requests_index ≤ 32
    → (friendreq_handlepacket max_data_size fr key packet).1 ≡ some message
    → length later ≤ 31
    → let fr' =
        handle_packets max_data_size (friendreq_handlepacket max_data_size fr key packet).0 later in
      friendreq_handlepacket max_data_size fr' key again ≡ (fr', none)
friendreq_handlepacket_once max_data_size fr key packet again later h e few =
    let a = handlepacket-accepted max_data_size fr key packet e in
    handlepacket-refused max_data_size
      (handle_packets max_data_size (friendreq_handlepacket max_data_size fr key packet).0 later)
      key again
      (handle_packets-keeps max_data_size (friendreq_handlepacket max_data_size fr key packet).0 key
        later few (subst (λ g. Remembered g key 31) (sym a.2) (addto_receivedlist-first fr key h)))

take-drop : {A : Type 0} (n : ℕ) (xs : List A) → take n xs ++ drop n xs ≡ xs
take-drop zero xs = refl
take-drop (suc n) [] = refl
take-drop (suc n) (x ∷ xs) = ap (λ r. x ∷ r) (take-drop n xs)

id_equal-eq : (a b : List ℕ) → id_equal a b ≡ true → a ≡ b
unfolding id_equal
id_equal-eq a b e = elim (Order-cases (memcmp a b)) [
  | inl q ↦ memcmp-equal a b q
  | inr (inl q) ↦ absurd (ground (arith, e, q))
  | inr (inr q) ↦ absurd (ground (arith, e, q))
]

-- If a message is handed to the user, the packet is one byte, the bytes of the own nospam and
-- that message, it is not longer than the bound, and the key of its sender was not among the
-- received requests.
pub friendreq_handlepacket-message :
    (max_data_size : ℕ) (fr : FriendRequests) (key packet : List ℕ) {message : List ℕ}
    → (friendreq_handlepacket max_data_size fr key packet).1 ≡ some message
    → (packet ≡ take 1 packet ++ (fr.nospam ++ message))
      × (request_received fr key ≡ false)
      × (length packet ≤ max_data_size)
friendreq_handlepacket-message max_data_size fr key packet {message} e =
    let a = handlepacket-accepted max_data_size fr key packet e in
    let tests =
      no_test (leb (length packet) 5 || ltb max_data_size (length packet))
        (not fr.handle_friendrequest_isset) (request_received fr key)
        (id_equal (take 4 (drop 1 packet)) fr.nospam) (refuses fr.filter_function key) a.0 in
    let same : take 4 (drop 1 packet) ≡ fr.nospam =
      id_equal-eq (take 4 (drop 1 packet)) fr.nospam tests.2 in
    (
      sym (take-drop 1 packet)
          ∙ ap (λ r. take 1 packet ++ r)
              (sym (take-drop 4 (drop 1 packet))
                ∙ ap (λ r. r ++ drop 4 (drop 1 packet)) same
                ∙ ap (λ r. fr.nospam ++ r) a.1),
      tests.1,
      ground (arith, tests.0),
    )
