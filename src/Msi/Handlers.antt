-- ===== src/Msi/Handlers.antt =====
-- toxav/msi.c: what a peer's messages, the friend's status and the local user do to a call. The success
-- of `malloc` and of `pthread_mutex_trylock` are arguments.
use insert_project_name_here.Base.{
  ℕ, Bool, true, false, Option, none, some, List, ◌==◌, if◌then◌else◌,
}
use insert_project_name_here.Msi.Message.{
  MsiRequest, requ_init, requ_push, requ_pop, MsiError, e_invalid_message, e_invalid_state,
  e_stray_message, e_system, MsiMessage, msg_init, parsed, msg_parse_in,
}
use insert_project_name_here.Msi.Session.{
  MsiCallState, inactive, active, requesting, requested, on_invite, on_start, on_end, on_error,
  on_peer_timeout, on_capabilities, MsiCall, MsiSession, get_call, new_call, kill_call,
  send_message, send_error, invoke_callback, put_call,
}

-- The label FAILURE of `handle_init` and `handle_push`.
unfoldable pub fail_call : MsiSession → MsiCall → MsiSession
unfolding send_error kill_call
fail_call s c = kill_call (send_error s c.friend_number c.error) c

-- The call goes on if the callback succeeds.
unfoldable pub go_on : MsiSession → MsiCall × Bool → MsiSession
unfolding fail_call put_call
go_on s (c, true) = put_call s c
go_on s (c, false) = fail_call s c

abbrev pub push_message : ℕ → MsiMessage
push_message capabilities = record (msg_init requ_push) { capabilities = some capabilities }

abbrev pub init_by_state : MsiCallState → MsiSession → MsiCall → ℕ → MsiSession
unfolding go_on invoke_callback
init_by_state inactive s c v =
    go_on s (invoke_callback s on_invite (record c { peer_capabilities = v; state = requested }))
init_by_state active s c v = send_message s c.friend_number (push_message c.self_capabilities)
init_by_state _ s c v = fail_call s (record c { error = e_invalid_state })

unfoldable pub handle_init : MsiSession → MsiCall → Option ℕ → MsiSession
unfolding go_on invoke_callback send_message fail_call
handle_init s c none = fail_call s (record c { error = e_invalid_message })
handle_init s c (some v) = init_by_state c.state s c v

abbrev pub push_by_state : MsiCallState → MsiSession → MsiCall → ℕ → MsiSession
unfolding go_on invoke_callback
push_by_state active s c v =
    if c.peer_capabilities == v
    then s
    else go_on s (invoke_callback s on_capabilities (record c { peer_capabilities = v }))
push_by_state requesting s c v =
    go_on s (invoke_callback s on_start (record c { peer_capabilities = v; state = active }))
push_by_state _ s c v = s

unfoldable pub handle_push : MsiSession → MsiCall → Option ℕ → MsiSession
unfolding go_on invoke_callback fail_call
handle_push s c none = fail_call s (record c { error = e_invalid_message })
handle_push s c (some v) = push_by_state c.state s c v

abbrev pub pop_by_state : MsiCallState → MsiSession → MsiCall → Option MsiSession
unfolding kill_call invoke_callback
pop_by_state inactive s c = none
pop_by_state _ s c = some (kill_call s (invoke_callback s on_end c).0)

-- `none` is the call of `abort`.
unfoldable pub handle_pop : MsiSession → MsiCall → Option MsiError → Option MsiSession
unfolding kill_call invoke_callback
handle_pop s c (some e) = some (kill_call s (invoke_callback s on_error (record c { error = e })).0)
handle_pop s c none = pop_by_state c.state s c

abbrev pub dispatch : MsiRequest → MsiSession → MsiCall → MsiMessage → Option MsiSession
unfolding handle_init handle_push handle_pop
dispatch requ_init s c m = some (handle_init s c m.capabilities)
dispatch requ_push s c m = some (handle_push s c m.capabilities)
dispatch requ_pop s c m = handle_pop s c m.error

-- A message for which there is no call yet.
abbrev pub first_message : Bool → MsiRequest → MsiSession → ℕ → MsiMessage → Option MsiSession
unfolding new_call handle_init handle_push handle_pop send_error
first_message malloc requ_init s friend m = elim (new_call malloc s friend).1 [
  | none ↦ some (send_error s friend e_system)
  | some c ↦ dispatch requ_init (new_call malloc s friend).0 c m
]
first_message malloc _ s friend m = some (send_error s friend e_stray_message)

abbrev pub by_request : Bool → Option MsiRequest → MsiSession → ℕ → MsiMessage → Option MsiSession
unfolding get_call new_call handle_init handle_push handle_pop send_error
by_request malloc none s friend m = some (send_error s friend e_invalid_message)
by_request malloc (some r) s friend m = elim (get_call s friend) [
  | none ↦ first_message malloc r s friend m
  | some c ↦ dispatch r s c m
]

-- `handle_msi_packet`
unfoldable pub handle_msi_packet : Bool → MsiSession → ℕ → List ℕ → Option MsiSession
unfolding msg_parse_in get_call new_call handle_init handle_push handle_pop send_error
handle_msi_packet malloc s friend bytes = elim (msg_parse_in bytes) [
  | parsed m ↦ by_request malloc m.request s friend m
  | _ ↦ some (send_error s friend e_invalid_message)
]

-- `on_peer_status`
unfoldable pub on_peer_status : MsiSession → ℕ → ℕ → MsiSession
unfolding get_call invoke_callback kill_call
on_peer_status s friend status =
    if status == 0
    then elim (get_call s friend) [
      | none ↦ s
      | some c ↦ kill_call s (invoke_callback s on_peer_timeout c).0
    ]
    else s

-- The session, and whether the call returned 0.
unfoldable pub msi_invite : Bool → Bool → MsiSession → ℕ → ℕ → MsiSession × Bool
unfolding get_call new_call send_message put_call
msi_invite trylock malloc s friend capabilities =
    if trylock
    then elim (get_call s friend) [
      | some _ ↦ (s, false)
      | none ↦ elim (new_call malloc s friend).1 [
        | none ↦ (s, false)
        | some c ↦ (
          put_call
              (send_message (new_call malloc s friend).0 c.friend_number
                (record (msg_init requ_init) { capabilities = some capabilities }))
              (record c { self_capabilities = capabilities; state = requesting }),
          true,
        )
      ]
    ]
    else (s, false)

abbrev pub hangup_by_state : MsiCallState → MsiSession → MsiCall → MsiSession × Bool
unfolding kill_call send_message
hangup_by_state inactive s c = (s, false)
hangup_by_state _ s c = (kill_call (send_message s c.friend_number (msg_init requ_pop)) c, true)

unfoldable pub msi_hangup : Bool → MsiSession → MsiCall → MsiSession × Bool
unfolding kill_call send_message
msi_hangup trylock s c = if trylock then hangup_by_state c.state s c else (s, false)

abbrev pub answer_by_state : MsiCallState → MsiSession → MsiCall → ℕ → MsiSession × Bool
unfolding put_call send_message
answer_by_state requested s c v = (
  put_call (send_message s c.friend_number (push_message v))
      (record c { self_capabilities = v; state = active }),
  true,
)
answer_by_state _ s c v = (s, false)

unfoldable pub msi_answer : Bool → MsiSession → MsiCall → ℕ → MsiSession × Bool
unfolding put_call send_message
msi_answer trylock s c capabilities =
    if trylock then answer_by_state c.state s c capabilities else (s, false)

abbrev pub change_by_state : MsiCallState → MsiSession → MsiCall → ℕ → MsiSession × Bool
unfolding put_call send_message
change_by_state active s c v = (
  put_call (send_message s c.friend_number (push_message v)) (record c { self_capabilities = v }),
  true,
)
change_by_state _ s c v = (s, false)

unfoldable pub msi_change_capabilities : Bool → MsiSession → MsiCall → ℕ → MsiSession × Bool
unfolding put_call send_message
msi_change_capabilities trylock s c capabilities =
    if trylock then change_by_state c.state s c capabilities else (s, false)
