-- ===== src/Msi/Steps.antt =====
-- toxav/msi.c: the states of the calls through `handle_init`, `handle_push` and `handle_pop`.
use insert_project_name_here.Base.{
  ℕ, ◌≡◌, ◌≢◌, refl, inl, inr, Bool, true, false, Bool-cases, Option, none, some, ◌==◌, ◌∙◌,
}
use mathlib.Core.Path.{subst, sym}
use insert_project_name_here.Msi.Message.{
  MsiRequest, requ_init, requ_push, requ_pop, MsiError, e_none, e_invalid_message, e_invalid_state,
  MsiMessage,
}
use insert_project_name_here.Msi.Session.{
  MsiCallState, inactive, active, requesting, requested, MsiCallbackId, on_invite, on_start, on_end,
  on_error, on_capabilities, MsiCall, MsiSession, call_in, kill_call, invoke_callback, run_callback,
  mark_error,
}
use insert_project_name_here.Msi.Handlers.{
  push_message, go_on, handle_init, init_by_state, handle_push, push_by_state, handle_pop,
  pop_by_state, dispatch,
}
use insert_project_name_here.Msi.Container.{
  LiveBut, IsLive, LiveBut-of_IsLive, kill_call-IsLive, put_call-IsLive, calls-send_message,
  fail_call-IsLive,
}

mark_error-same :
    (e : MsiError) (c : MsiCall)
    → ((mark_error e c).state ≡ c.state) × ((mark_error e c).friend_number ≡ c.friend_number)
mark_error-same e_none c = (refl, refl)
mark_error-same _ c = (refl, refl)

-- A callback changes neither the state of a call nor its number.
run_callback-same :
    (o : Option (MsiCall → Bool)) (c : MsiCall)
    → ((run_callback o c).0.state ≡ c.state)
      × ((run_callback o c).0.friend_number ≡ c.friend_number)
run_callback-same none c = mark_error-same c.error c
run_callback-same (some h) c = elim (Bool-cases (h c)) [
  | inl e ↦ rw e (refl, refl)
  | inr e ↦ rw e (mark_error-same c.error c)
]

invoke_callback-same :
    (s : MsiSession) (id : MsiCallbackId) (c : MsiCall)
    → ((invoke_callback s id c).0.state ≡ c.state)
      × ((invoke_callback s id c).0.friend_number ≡ c.friend_number)
unfolding invoke_callback
invoke_callback-same s id c = run_callback-same (s.callbacks id) c

go_on-IsLive :
    (s : MsiSession) (c : MsiCall) (done : Bool)
    → c.state ≢ inactive
    → LiveBut c.friend_number s.calls
    → IsLive (go_on s (c, done))
unfolding go_on
go_on-IsLive s c true live h = put_call-IsLive s c live h
go_on-IsLive s c false live h = fail_call-IsLive s c h

invoked-IsLive :
    (s : MsiSession) (id : MsiCallbackId) (c : MsiCall)
    → c.state ≢ inactive
    → LiveBut c.friend_number s.calls
    → IsLive (go_on s (invoke_callback s id c))
invoked-IsLive s id c live h =
    let (r, done) = invoke_callback s id c in
    let (same, number) = invoke_callback-same s id c in
    go_on-IsLive s r done (λ q. live (sym same ∙ q)) (subst (λ n. LiveBut n s.calls) (sym number) h)

init_by_state-IsLive :
    (st : MsiCallState) (s : MsiSession) (c : MsiCall) (v : ℕ)
    → c.state ≡ st
    → LiveBut c.friend_number s.calls
    → (st ≢ inactive → IsLive s)
    → IsLive (init_by_state st s c v)
unfolding handle_init
init_by_state-IsLive inactive s c v e h k =
    invoked-IsLive s on_invite (record c { peer_capabilities = v; state = requested }) (λ q. cc) h
init_by_state-IsLive active s c v e h k = λ j d q.
    k (λ z. cc) j d
      (subst (λ cs. call_in cs j ≡ some d)
        (calls-send_message s c.friend_number (push_message c.self_capabilities)) q)
init_by_state-IsLive requesting s c v e h k =
    fail_call-IsLive s (record c { error = e_invalid_state }) h
init_by_state-IsLive requested s c v e h k =
    fail_call-IsLive s (record c { error = e_invalid_state }) h

pub handle_init-IsLive :
    (s : MsiSession) (c : MsiCall) (v : Option ℕ)
    → LiveBut c.friend_number s.calls
    → (c.state ≢ inactive → IsLive s)
    → IsLive (handle_init s c v)
unfolding handle_init
handle_init-IsLive s c none h k = fail_call-IsLive s (record c { error = e_invalid_message }) h
handle_init-IsLive s c (some v) h k = init_by_state-IsLive c.state s c v refl h k

push_by_state-IsLive :
    (st : MsiCallState) (s : MsiSession) (c : MsiCall) (v : ℕ)
    → c.state ≡ st
    → IsLive s
    → IsLive (push_by_state st s c v)
unfolding handle_push
push_by_state-IsLive inactive s c v e h = h
push_by_state-IsLive requested s c v e h = h
push_by_state-IsLive requesting s c v e h =
    invoked-IsLive s on_start (record c { peer_capabilities = v; state = active }) (λ q. cc)
      (LiveBut-of_IsLive c.friend_number s h)
push_by_state-IsLive active s c v e h = elim (Bool-cases (c.peer_capabilities == v)) [
  | inl t ↦ rw t h
  | inr t ↦ rw t (
      invoked-IsLive s on_capabilities (record c { peer_capabilities = v }) (λ q. cc)
        (LiveBut-of_IsLive c.friend_number s h))
]

handle_push-IsLive :
    (s : MsiSession) (c : MsiCall) (v : Option ℕ) → IsLive s → IsLive (handle_push s c v)
unfolding handle_push
handle_push-IsLive s c none h =
    fail_call-IsLive s (record c { error = e_invalid_message })
      (LiveBut-of_IsLive c.friend_number s h)
handle_push-IsLive s c (some v) h = push_by_state-IsLive c.state s c v refl h

-- A session that goes on, and is live.
abbrev pub GoesOn : Option MsiSession → Type 0
GoesOn none = ⊥
GoesOn (some s) = IsLive s

pub ended-IsLive :
    (s : MsiSession) (id : MsiCallbackId) (c : MsiCall)
    → IsLive s
    → IsLive (kill_call s (invoke_callback s id c).0)
ended-IsLive s id c h =
    kill_call-IsLive s (invoke_callback s id c).0
      (LiveBut-of_IsLive (invoke_callback s id c).0.friend_number s h)

pop_by_state-GoesOn :
    (st : MsiCallState) (s : MsiSession) (c : MsiCall)
    → st ≢ inactive
    → IsLive s
    → GoesOn (pop_by_state st s c)
unfolding handle_pop
pop_by_state-GoesOn inactive s c live h = absurd (live refl)
pop_by_state-GoesOn active s c live h = ended-IsLive s on_end c h
pop_by_state-GoesOn requesting s c live h = ended-IsLive s on_end c h
pop_by_state-GoesOn requested s c live h = ended-IsLive s on_end c h

handle_pop-GoesOn :
    (s : MsiSession) (c : MsiCall) (e : Option MsiError)
    → c.state ≢ inactive
    → IsLive s
    → GoesOn (handle_pop s c e)
unfolding handle_pop
handle_pop-GoesOn s c (some e) live h = ended-IsLive s on_error (record c { error = e }) h
handle_pop-GoesOn s c none live h = pop_by_state-GoesOn c.state s c live h

pub dispatch-GoesOn :
    (r : MsiRequest) (s : MsiSession) (c : MsiCall) (m : MsiMessage)
    → c.state ≢ inactive
    → IsLive s
    → GoesOn (dispatch r s c m)
unfolding handle_init handle_push handle_pop
dispatch-GoesOn requ_init s c m live h =
    handle_init-IsLive s c m.capabilities (LiveBut-of_IsLive c.friend_number s h) (λ q. h)
dispatch-GoesOn requ_push s c m live h = handle_push-IsLive s c m.capabilities h
dispatch-GoesOn requ_pop s c m live h = handle_pop-GoesOn s c m.error live h
