-- ===== src/Msi/Session.antt =====
-- toxav/msi.c: the container of calls of a session. A call is an object of its own; a pointer to it is
-- the friend number under which it is stored.
use insert_project_name_here.Base.{
  ℕ, Bool, true, false, ◌&&◌, Option, none, some, List, ◌∷◌, ltb, ◌==◌, if◌then◌else◌,
}
use insert_project_name_here.Msi.Message.{
  MsiError, e_none, e_handle, MsiMessage, msg_init, requ_pop, message_bytes,
}

-- `MSICallState`
pub data MsiCallState : Type 0 where
  inactive active requesting requested : MsiCallState

-- `MSICallbackID`
pub data MsiCallbackId : Type 0 where
  on_invite on_start on_end on_error on_peer_timeout on_capabilities : MsiCallbackId

-- `MSICall`; `peer_vfpsz` and `av_call` are not used by msi.c.
pub record MsiCall : Type 0 where
  pub state : MsiCallState
  pub peer_capabilities : ℕ  -- uint8_t
  pub self_capabilities : ℕ  -- uint8_t
  pub friend_number : ℕ  -- uint32_t
  pub error : MsiError
  pub next : Option ℕ
  pub prev : Option ℕ

abbrev pub Calls : Type 0
Calls = ℕ → Option MsiCall

-- `MSISession`. A callback is a function that says whether it returned 0; `sent` holds the packets
-- that were handed to the messenger, the latest first.
pub record MsiSession : Type 0 where
  pub calls : Option Calls
  pub calls_tail : ℕ
  pub calls_head : ℕ
  pub callbacks : MsiCallbackId → Option (MsiCall → Bool)
  pub sent : List (ℕ × List ℕ)

unfoldable pub store_call : Calls → ℕ → Option MsiCall → Calls
store_call f i c = λ j. if j == i then c else f j

-- A write to a field of the call at `i`.
unfoldable pub change_call : Calls → ℕ → (MsiCall → MsiCall) → Calls
change_call f i g = λ j. if j == i then elim (f i) [ none ↦ none | some c ↦ some (g c) ] else f j

-- The loop of `new_call` that empties the slots between the old tail and the new one.
unfoldable pub clear_between : Calls → ℕ → ℕ → Calls
clear_between f tail friend = λ j. if ltb tail j && ltb j friend then none else f j

-- The call that is stored for a friend.
abbrev pub call_in : Option Calls → ℕ → Option MsiCall
call_in none j = none
call_in (some f) j = f j

unfoldable pub get_call : MsiSession → ℕ → Option MsiCall
get_call s friend = if ltb s.calls_tail friend then none else call_in s.calls friend

abbrev pub fresh_call : ℕ → MsiCall
fresh_call friend = record {
  state = inactive;
  peer_capabilities = 0;
  self_capabilities = 0;
  friend_number = friend;
  error = e_none;
  next = none;
  prev = none;
}

-- The three ways of `new_call` to link the new call.
abbrev pub link_call : MsiSession → ℕ → Option Calls → MsiSession × MsiCall
unfolding store_call change_call clear_between
link_call s friend none =
    let c = fresh_call friend in
    (
      record s {
        calls = some (store_call (λ _. none) friend (some c));
        calls_tail = friend;
        calls_head = friend;
      },
      c,
    )
link_call s friend (some f) =
    if ltb s.calls_tail friend
    then (let c = record (fresh_call friend) { prev = some s.calls_tail } in
        let linked =
          change_call (clear_between f s.calls_tail friend) s.calls_tail
            (λ t. record t { next = some friend }) in
        (record s { calls = some (store_call linked friend (some c)); calls_tail = friend }, c))
    else if ltb friend s.calls_head
    then (let c = record (fresh_call friend) { next = some s.calls_head } in
        let linked = change_call f s.calls_head (λ h. record h { prev = some friend }) in
        (record s { calls = some (store_call linked friend (some c)); calls_head = friend }, c))
    else (let c = fresh_call friend in
        (record s { calls = some (store_call f friend (some c)) }, c))

-- The new call, or `none` where an allocation fails.
unfoldable pub new_call : Bool → MsiSession → ℕ → MsiSession × Option MsiCall
unfolding store_call change_call clear_between
new_call malloc s friend =
    if malloc then (let (s', c) = link_call s friend s.calls in (s', some c)) else (s, none)

abbrev pub map_calls : (Calls → Calls) → Option Calls → Option Calls
map_calls g none = none
map_calls g (some f) = some (g f)

-- `kill_call` by the pointers `prev` and `next` of the call.
abbrev pub unlink_call : MsiSession → ℕ → Option ℕ → Option ℕ → MsiSession
unfolding store_call change_call
unlink_call s friend none none = record s { calls = none; calls_tail = 0; calls_head = 0 }
unlink_call s friend none (some n) = record s {
  calls =
      map_calls (λ f. store_call (change_call f n (λ c. record c { prev = none })) friend none)
        s.calls;
  calls_head = n;
}
unlink_call s friend (some p) none = record s {
  calls =
      map_calls (λ f. store_call (change_call f p (λ c. record c { next = none })) friend none)
        s.calls;
  calls_tail = p;
}
unlink_call s friend (some p) (some n) = record s {
  calls =
      map_calls
        (λ f.
          store_call
            (change_call (change_call f p (λ c. record c { next = some n })) n
              (λ c. record c { prev = some p }))
            friend none)
        s.calls;
}

unfoldable pub kill_call : MsiSession → MsiCall → MsiSession
unfolding store_call change_call
kill_call s c = unlink_call s c.friend_number c.prev c.next

-- `send_message`; what the messenger answers is ignored by every caller.
unfoldable pub send_message : MsiSession → ℕ → MsiMessage → MsiSession
unfolding message_bytes
send_message s friend m = elim (message_bytes m) [
  | none ↦ s
  | some bytes ↦ record s { sent = (friend, bytes) ∷ s.sent }
]

unfoldable pub send_error : MsiSession → ℕ → MsiError → MsiSession
unfolding send_message
send_error s friend e = send_message s friend (record (msg_init requ_pop) { error = some e })

abbrev pub mark_error : MsiError → MsiCall → MsiCall
mark_error e_none c = record c { error = e_handle }
mark_error _ c = c

-- The call after a callback, and whether `invoke_callback` returned 0.
abbrev pub run_callback : Option (MsiCall → Bool) → MsiCall → MsiCall × Bool
run_callback none c = (mark_error c.error c, false)
run_callback (some h) c = if h c then (c, true) else (mark_error c.error c, false)

unfoldable pub invoke_callback : MsiSession → MsiCallbackId → MsiCall → MsiCall × Bool
invoke_callback s id c = run_callback (s.callbacks id) c

-- The changed call, back in its place.
unfoldable pub put_call : MsiSession → MsiCall → MsiSession
unfolding store_call
put_call s c = record s { calls = map_calls (λ f. store_call f c.friend_number (some c)) s.calls }
