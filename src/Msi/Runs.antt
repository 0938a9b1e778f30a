-- ===== src/Msi/Runs.antt =====
-- toxav/msi.c: sequences of events that reach a session.
use insert_project_name_here.Base.{
  ℕ, ◌≡◌, ◌≢◌, refl, inl, inr, Bool, true, false, Option-cases, Bool-cases, Option, none, some,
  List, [], ◌∷◌, ◌==◌,
}
use mathlib.Core.Path.{subst, sym}
use insert_project_name_here.Msi.Message.{msg_init, requ_init, requ_pop, MsiMessage}
use insert_project_name_here.Msi.Session.{
  MsiCallState, inactive, active, requesting, requested, MsiCallbackId, on_peer_timeout, MsiCall,
  MsiSession, call_in, get_call, link_call, kill_call, send_message, put_call,
}
use insert_project_name_here.Msi.Handlers.{
  push_message, handle_msi_packet, on_peer_status, msi_invite, msi_hangup, hangup_by_state,
  msi_answer, answer_by_state, msi_change_capabilities, change_by_state,
}
use insert_project_name_here.Msi.States.{
  handle_msi_packet-GoesOn, link_call-LiveBut, link_call-number, get_call-live,
}
use insert_project_name_here.Msi.Steps.{GoesOn, ended-IsLive}
use insert_project_name_here.Msi.Container.{
  IsLive, LiveBut, LiveBut-of_IsLive, kill_call-IsLive, put_call-IsLive, calls-send_message,
  none-live,
}

-- What reaches a session: packets and status changes of friends, and the calls of the local user. The
-- flags say whether the lock was free and whether memory was given.
pub data Event : Type 0 where
  packet : Bool → ℕ → List ℕ → Event
  status : ℕ → ℕ → Event
  invite : Bool → Bool → ℕ → ℕ → Event
  hangup : Bool → ℕ → Event
  answer : Bool → ℕ → ℕ → Event
  change : Bool → ℕ → ℕ → Event

-- The local user's operations are made on a call that the session has.
abbrev pub on_call : (MsiCall → MsiSession × Bool) → MsiSession → Option MsiCall → MsiSession
on_call f s none = s
on_call f s (some c) = (f c).0

abbrev pub handle_event : MsiSession → Event → Option MsiSession
unfolding handle_msi_packet on_peer_status msi_invite msi_hangup msi_answer msi_change_capabilities
handle_event s (packet malloc friend bytes) = handle_msi_packet malloc s friend bytes
handle_event s (status friend n) = some (on_peer_status s friend n)
handle_event s (invite trylock malloc friend v) = some (msi_invite trylock malloc s friend v).0
handle_event s (hangup trylock friend) = some (on_call (msi_hangup trylock s) s (get_call s friend))
handle_event s (answer trylock friend v) =
    some (on_call (λ c. msi_answer trylock s c v) s (get_call s friend))
handle_event s (change trylock friend v) =
    some (on_call (λ c. msi_change_capabilities trylock s c v) s (get_call s friend))

abbrev pub go_with : Option MsiSession → (MsiSession → Option MsiSession) → Option MsiSession
go_with none f = none
go_with (some s) f = f s

-- `none` if a handler calls `abort`.
unfoldable pub run_events : MsiSession → List Event → Option MsiSession
unfolding handle_msi_packet on_peer_status msi_invite msi_hangup msi_answer msi_change_capabilities
run_events s [] = some s
run_events s (e ∷ es) = go_with (handle_event s e) (λ s'. run_events s' es)

-- `msi_new`: a session without calls.
unfoldable pub msi_new : (MsiCallbackId → Option (MsiCall → Bool)) → MsiSession
msi_new callbacks = record {
  calls = none;
  calls_tail = 0;
  calls_head = 0;
  callbacks = callbacks;
  sent = [];
}

sent-IsLive :
    (s : MsiSession) (friend : ℕ) (m : MsiMessage) → IsLive s → IsLive (send_message s friend m)
sent-IsLive s friend m h =
    λ j d q. h j d (subst (λ cs. call_in cs j ≡ some d) (calls-send_message s friend m) q)

answered-IsLive :
    (s : MsiSession) (friend : ℕ) (m : MsiMessage) (c : MsiCall)
    → c.state ≢ inactive
    → LiveBut c.friend_number s.calls
    → IsLive (put_call (send_message s friend m) c)
answered-IsLive s friend m c live h =
    put_call-IsLive (send_message s friend m) c live
      (subst (λ cs. LiveBut c.friend_number cs) (sym (calls-send_message s friend m)) h)

on_peer_status-IsLive :
    (s : MsiSession) (friend n : ℕ) → IsLive s → IsLive (on_peer_status s friend n)
unfolding on_peer_status
on_peer_status-IsLive s friend n h = elim (Bool-cases (n == 0)) [
  | inr e ↦ rw e h
  | inl e ↦ elim (Option-cases (get_call s friend)) [
    | inl q ↦ rw (e, q, on_peer_status) h
    | inr (c, q) ↦ rw (e, q, on_peer_status) (ended-IsLive s on_peer_timeout c h)
  ]
]

msi_invite-IsLive :
    (trylock malloc : Bool) (s : MsiSession) (friend v : ℕ)
    → IsLive s
    → IsLive (msi_invite trylock malloc s friend v).0
unfolding msi_invite
msi_invite-IsLive false malloc s friend v h = h
msi_invite-IsLive true false s friend v h = elim (Option-cases (get_call s friend)) [
  | inr (c, q) ↦ rw (q, msi_invite) h
  | inl q ↦ rw (q, msi_invite) h
]
msi_invite-IsLive true true s friend v h = elim (Option-cases (get_call s friend)) [
  | inr (c, q) ↦ rw (q, msi_invite) h
  | inl q ↦
      rw (q, msi_invite)
        (let (s', c) = link_call s friend s.calls in
          answered-IsLive s' c.friend_number (record (msg_init requ_init) { capabilities = some v })
            (record c { self_capabilities = v; state = requesting }) (λ z. cc)
            (subst (λ n. LiveBut n s'.calls) (sym (link_call-number s friend s.calls))
              (link_call-LiveBut s friend s.calls (LiveBut-of_IsLive friend s h))))
]

hung_up-IsLive :
    (s : MsiSession) (c : MsiCall)
    → IsLive s
    → IsLive (kill_call (send_message s c.friend_number (msg_init requ_pop)) c)
hung_up-IsLive s c h =
    let s' = send_message s c.friend_number (msg_init requ_pop) in
    kill_call-IsLive s' c
      (LiveBut-of_IsLive c.friend_number s' (sent-IsLive s c.friend_number (msg_init requ_pop) h))

hangup_by_state-IsLive :
    (st : MsiCallState) (s : MsiSession) (c : MsiCall)
    → IsLive s
    → IsLive (hangup_by_state st s c).0
unfolding msi_hangup
hangup_by_state-IsLive inactive s c h = h
hangup_by_state-IsLive active s c h = hung_up-IsLive s c h
hangup_by_state-IsLive requesting s c h = hung_up-IsLive s c h
hangup_by_state-IsLive requested s c h = hung_up-IsLive s c h

answer_by_state-IsLive :
    (st : MsiCallState) (s : MsiSession) (c : MsiCall) (v : ℕ)
    → IsLive s
    → IsLive (answer_by_state st s c v).0
unfolding msi_answer
answer_by_state-IsLive inactive s c v h = h
answer_by_state-IsLive active s c v h = h
answer_by_state-IsLive requesting s c v h = h
answer_by_state-IsLive requested s c v h =
    answered-IsLive s c.friend_number (push_message v)
      (record c { self_capabilities = v; state = active }) (λ q. cc)
      (LiveBut-of_IsLive c.friend_number s h)

change_by_state-IsLive :
    (st : MsiCallState) (s : MsiSession) (c : MsiCall) (v : ℕ)
    → c.state ≢ inactive
    → IsLive s
    → IsLive (change_by_state st s c v).0
unfolding msi_change_capabilities
change_by_state-IsLive inactive s c v live h = h
change_by_state-IsLive active s c v live h =
    answered-IsLive s c.friend_number (push_message v) (record c { self_capabilities = v }) live
      (LiveBut-of_IsLive c.friend_number s h)
change_by_state-IsLive requesting s c v live h = h
change_by_state-IsLive requested s c v live h = h

on_call-IsLive :
    (f : MsiCall → MsiSession × Bool) (s : MsiSession) (o : Option MsiCall)
    → ((c : MsiCall) → o ≡ some c → IsLive (f c).0)
    → IsLive s
    → IsLive (on_call f s o)
on_call-IsLive f s none k h = h
on_call-IsLive f s (some c) k h = k c refl

msi_hangup-IsLive :
    (trylock : Bool) (s : MsiSession) (c : MsiCall) → IsLive s → IsLive (msi_hangup trylock s c).0
unfolding msi_hangup
msi_hangup-IsLive true s c h = hangup_by_state-IsLive c.state s c h
msi_hangup-IsLive false s c h = h

msi_answer-IsLive :
    (trylock : Bool) (s : MsiSession) (c : MsiCall) (v : ℕ)
    → IsLive s
    → IsLive (msi_answer trylock s c v).0
unfolding msi_answer
msi_answer-IsLive true s c v h = answer_by_state-IsLive c.state s c v h
msi_answer-IsLive false s c v h = h

msi_change-IsLive :
    (trylock : Bool) (s : MsiSession) (c : MsiCall) (v : ℕ)
    → c.state ≢ inactive
    → IsLive s
    → IsLive (msi_change_capabilities trylock s c v).0
unfolding msi_change_capabilities
msi_change-IsLive true s c v live h = change_by_state-IsLive c.state s c v live h
msi_change-IsLive false s c v live h = h

handle_event-GoesOn : (s : MsiSession) (e : Event) → IsLive s → GoesOn (handle_event s e)
unfolding run_events
handle_event-GoesOn s (packet malloc friend bytes) h =
    handle_msi_packet-GoesOn malloc s friend bytes h
handle_event-GoesOn s (status friend n) h = on_peer_status-IsLive s friend n h
handle_event-GoesOn s (invite trylock malloc friend v) h =
    msi_invite-IsLive trylock malloc s friend v h
handle_event-GoesOn s (hangup trylock friend) h =
    on_call-IsLive (msi_hangup trylock s) s (get_call s friend)
      (λ c e. msi_hangup-IsLive trylock s c h) h
handle_event-GoesOn s (answer trylock friend v) h =
    on_call-IsLive (λ c. msi_answer trylock s c v) s (get_call s friend)
      (λ c e. msi_answer-IsLive trylock s c v h) h
handle_event-GoesOn s (change trylock friend v) h =
    on_call-IsLive (λ c. msi_change_capabilities trylock s c v) s (get_call s friend)
      (λ c e. msi_change-IsLive trylock s c v (get_call-live s friend c h e) h) h

go_with-GoesOn :
    (o : Option MsiSession) (f : MsiSession → Option MsiSession)
    → GoesOn o
    → ((s : MsiSession) → IsLive s → GoesOn (f s))
    → GoesOn (go_with o f)
go_with-GoesOn none f g k = absurd g
go_with-GoesOn (some s) f g k = k s g

run_events-live : (s : MsiSession) (es : List Event) → IsLive s → GoesOn (run_events s es)
unfolding run_events
run_events-live s [] h = h
run_events-live s (e ∷ es) h =
    go_with-GoesOn (handle_event s e) (λ s'. run_events s' es) (handle_event-GoesOn s e h)
      (λ s' g. run_events-live s' es g)

-- From a new session with any callbacks, whatever packets, status changes and local operations
-- follow in any order, and whether or not locks and allocations succeed, no handler calls
-- `abort`, and no call is left in the state `msi_CallInactive`.
pub run_events-GoesOn :
    (callbacks : MsiCallbackId → Option (MsiCall → Bool)) (es : List Event)
    → GoesOn (run_events (msi_new callbacks) es)
unfolding msi_new
run_events-GoesOn callbacks es = run_events-live (msi_new callbacks) es none-live
