-- ===== src/Msi/Tests.antt =====
-- toxav/msi.c: runs of the call signalling on concrete data.
use insert_project_name_here.Base.{
  ℕ, ◌≡◌, ◌≢◌, refl, Bool, true, Option, none, some, List, [], ◌∷◌, arith, if◌then◌else◌, ◌==◌,
}
use insert_project_name_here.Msi.Message.{
  requ_init, msg_init, MsiMessage, message_bytes, parsed, overrun, msg_parse_in,
}
use insert_project_name_here.Msi.Codec.{message_bytes-msg_parse_in, msg_parse_in-inside}
use insert_project_name_here.Msi.Session.{
  active, MsiCallbackId, MsiCall, MsiSession, fresh_call, new_call, kill_call,
}
use insert_project_name_here.Msi.Steps.{GoesOn}
use insert_project_name_here.Msi.Defects.{kill_call-new_call_clears}
use insert_project_name_here.Msi.Runs.{
  Event, packet, invite, run_events, msi_new, run_events-GoesOn,
}

abbrev accept : MsiCallbackId → Option (MsiCall → Bool)
accept _ = some (λ _. true)

abbrev ring : MsiMessage
ring = record (msg_init requ_init) { capabilities = some 12 }

ring_bytes : message_bytes ring ≡ some (1 ∷ 1 ∷ 0 ∷ 3 ∷ 1 ∷ 12 ∷ 0 ∷ [])
unfolding message_bytes
ring_bytes = refl

message_bytes-msg_parse_in_example : msg_parse_in (1 ∷ 1 ∷ 0 ∷ 3 ∷ 1 ∷ 12 ∷ 0 ∷ []) ≡ parsed ring
message_bytes-msg_parse_in_example = message_bytes-msg_parse_in ring ring_bytes

msg_parse_in-inside_example : msg_parse_in (1 ∷ 1 ∷ 0 ∷ []) ≢ overrun
msg_parse_in-inside_example = msg_parse_in-inside (1 ∷ 1 ∷ 0 ∷ [])

-- The calls of friends 2 and 9, linked.
abbrev pair : ℕ → Option MsiCall
pair i =
    if i == 2
    then some (record (fresh_call 2) { state = active; next = some 9 })
    else if i == 9
    then some (record (fresh_call 9) { state = active; prev = some 2 })
    else none

abbrev busy : MsiSession
busy = record { calls = some pair; calls_tail = 9; calls_head = 2; callbacks = accept; sent = [] }

kill_call-new_call_clears_example : (kill_call (new_call true busy 5).0 (fresh_call 5)).calls ≡ none
kill_call-new_call_clears_example =
    kill_call-new_call_clears busy 5 refl (omega arith) (omega arith) middle
  where
    middle : (new_call true busy 5).1 ≡ some (fresh_call 5)
    middle = unfold new_call in refl

abbrev evening : List Event
evening = packet true 3 (1 ∷ 1 ∷ 0 ∷ 3 ∷ 1 ∷ 12 ∷ 0 ∷ []) ∷ invite true true 4 8 ∷ []

run_events-GoesOn_example : GoesOn (run_events (msi_new accept) evening)
run_events-GoesOn_example = run_events-GoesOn accept evening
