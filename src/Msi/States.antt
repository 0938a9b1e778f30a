-- ===== src/Msi/States.antt =====
-- toxav/msi.c: the states of the calls through `handle_msi_packet`.
use insert_project_name_here.Base.{
  ℕ, ◌≡◌, ◌≢◌, refl, inl, inr, Bool, true, false, Bool-cases, Option-cases, Option, none, some,
  List, arith, ltb,
}
use mathlib.Core.Path.{subst, sym}
use insert_project_name_here.Msi.Message.{
  MsiRequest, requ_init, requ_push, requ_pop, MsiError, e_invalid_message, e_stray_message,
  e_system, MsiMessage, Parsed, parsed, invalid, overrun, msg_parse_in,
}
use insert_project_name_here.Msi.Session.{
  inactive, MsiCall, MsiSession, Calls, call_in, get_call, fresh_call, new_call, link_call,
  send_error, store_call, change_call, clear_between,
}
use insert_project_name_here.Msi.Handlers.{first_message, by_request, handle_msi_packet}
use insert_project_name_here.Msi.Container.{
  LiveBut, IsLive, LiveBut-of_IsLive, LiveBut-change_call, none-live, calls-send_error,
}
use insert_project_name_here.Msi.Steps.{handle_init-IsLive, GoesOn, dispatch-GoesOn}

send_error-IsLive :
    (s : MsiSession) (friend : ℕ) (e : MsiError) → IsLive s → IsLive (send_error s friend e)
send_error-IsLive s friend e h =
    λ j d q. h j d (subst (λ cs. call_in cs j ≡ some d) (calls-send_error s friend e) q)

store_call-LiveBut :
    (friend : ℕ) (f : Calls) (o : Option MsiCall)
    → LiveBut friend (some f)
    → LiveBut friend (some (store_call f friend o))
unfolding store_call
store_call-LiveBut friend f o h j c ne e = ground (arith, h j c)

clear_between-LiveBut :
    (friend tail : ℕ) (f : Calls)
    → LiveBut friend (some f)
    → LiveBut friend (some (clear_between f tail friend))
unfolding clear_between
clear_between-LiveBut friend tail f h j c ne e = ground (arith, h j c)

pub link_call-LiveBut :
    (s : MsiSession) (friend : ℕ) (cs : Option Calls)
    → LiveBut friend cs
    → LiveBut friend (link_call s friend cs).0.calls
unfolding new_call
link_call-LiveBut s friend none h =
    store_call-LiveBut friend (λ _. none) (some (fresh_call friend)) (λ j c ne e. none-live j c e)
link_call-LiveBut s friend (some f) h = elim (Bool-cases (ltb s.calls_tail friend)) [
  | inl t ↦ rw t (
      store_call-LiveBut friend
        (change_call (clear_between f s.calls_tail friend) s.calls_tail
          (λ c. record c { next = some friend }))
        (some (record (fresh_call friend) { prev = some s.calls_tail }))
        (LiveBut-change_call friend s.calls_tail (clear_between f s.calls_tail friend)
          (λ c. record c { next = some friend }) (λ c. refl)
          (clear_between-LiveBut friend s.calls_tail f h)))
  | inr t ↦ elim (Bool-cases (ltb friend s.calls_head)) [
    | inl u ↦
        rw (t, u)
          (store_call-LiveBut friend
            (change_call f s.calls_head (λ c. record c { prev = some friend }))
            (some (record (fresh_call friend) { next = some s.calls_head }))
            (LiveBut-change_call friend s.calls_head f (λ c. record c { prev = some friend })
              (λ c. refl) h))
    | inr u ↦ rw (t, u) (store_call-LiveBut friend f (some (fresh_call friend)) h)
  ]
]

pub link_call-number :
    (s : MsiSession) (friend : ℕ) (cs : Option Calls)
    → (link_call s friend cs).1.friend_number ≡ friend
unfolding new_call
link_call-number s friend none = refl
link_call-number s friend (some f) = ground arith

link_call-state :
    (s : MsiSession) (friend : ℕ) (cs : Option Calls) → (link_call s friend cs).1.state ≡ inactive
unfolding new_call
link_call-state s friend none = refl
link_call-state s friend (some f) = ground arith

first_message-GoesOn :
    (malloc : Bool) (r : MsiRequest) (s : MsiSession) (friend : ℕ) (m : MsiMessage)
    → IsLive s
    → GoesOn (first_message malloc r s friend m)
unfolding handle_msi_packet
first_message-GoesOn malloc requ_push s friend m h = send_error-IsLive s friend e_stray_message h
first_message-GoesOn malloc requ_pop s friend m h = send_error-IsLive s friend e_stray_message h
first_message-GoesOn false requ_init s friend m h = send_error-IsLive s friend e_system h
first_message-GoesOn true requ_init s friend m h =
    let (s', c) = link_call s friend s.calls in
    handle_init-IsLive s' c m.capabilities
      (subst (λ n. LiveBut n s'.calls) (sym (link_call-number s friend s.calls))
        (link_call-LiveBut s friend s.calls (LiveBut-of_IsLive friend s h)))
      (λ q. absurd (q (link_call-state s friend s.calls)))

pub get_call-live :
    (s : MsiSession) (friend : ℕ) (c : MsiCall)
    → IsLive s
    → get_call s friend ≡ some c
    → c.state ≢ inactive
unfolding get_call
get_call-live s friend c h e = ground (arith, h friend c)

by_request-GoesOn :
    (malloc : Bool) (r : Option MsiRequest) (s : MsiSession) (friend : ℕ) (m : MsiMessage)
    → IsLive s
    → GoesOn (by_request malloc r s friend m)
unfolding handle_msi_packet
by_request-GoesOn malloc none s friend m h = send_error-IsLive s friend e_invalid_message h
by_request-GoesOn malloc (some r) s friend m h = elim (Option-cases (get_call s friend)) [
  | inl e ↦ rw (e, by_request) (first_message-GoesOn malloc r s friend m h)
  | inr (c, e) ↦ rw (e, by_request) (dispatch-GoesOn r s c m (get_call-live s friend c h e) h)
]

packet_by :
    (malloc : Bool) (s : MsiSession) (friend : ℕ) (bytes : List ℕ) (p : Parsed)
    → msg_parse_in bytes ≡ p
    → IsLive s
    → GoesOn (handle_msi_packet malloc s friend bytes)
unfolding handle_msi_packet
packet_by malloc s friend bytes (parsed m) e h =
    rw (e, handle_msi_packet) (by_request-GoesOn malloc m.request s friend m h)
packet_by malloc s friend bytes invalid e h =
    rw (e, handle_msi_packet) (send_error-IsLive s friend e_invalid_message h)
packet_by malloc s friend bytes overrun e h =
    rw (e, handle_msi_packet) (send_error-IsLive s friend e_invalid_message h)

-- A packet in any session without unfinished calls.
pub handle_msi_packet-GoesOn :
    (malloc : Bool) (s : MsiSession) (friend : ℕ) (bytes : List ℕ)
    → IsLive s
    → GoesOn (handle_msi_packet malloc s friend bytes)
handle_msi_packet-GoesOn malloc s friend bytes h =
    packet_by malloc s friend bytes (msg_parse_in bytes) refl h
