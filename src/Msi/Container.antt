-- ===== src/Msi/Container.antt =====
-- toxav/msi.c: the states of the calls in the container of a session.
use insert_project_name_here.Base.{
  ℕ, ◌≡◌, ◌≢◌, refl, inl, inr, Bool-cases, Option-cases, Option, none, some, arith, ◌==◌,
}
use mathlib.Core.Path.{subst, sym}
use insert_project_name_here.Msi.Message.{requ_pop, MsiError, MsiMessage, msg_init, message_bytes}
use insert_project_name_here.Msi.Session.{
  inactive, MsiCall, MsiSession, Calls, call_in, map_calls, kill_call, unlink_call, send_message,
  send_error, put_call, store_call, change_call,
}
use insert_project_name_here.Msi.Handlers.{fail_call}

-- No call but that of `friend` is left in the state in which it was created.
abbrev pub LiveBut : ℕ → Option Calls → Type 0
LiveBut friend cs = (j : ℕ) (c : MsiCall) → j ≢ friend → call_in cs j ≡ some c → c.state ≢ inactive

-- No call is left in the state in which it was created.
abbrev pub IsLive : MsiSession → Type 0
IsLive s = (j : ℕ) (c : MsiCall) → call_in s.calls j ≡ some c → c.state ≢ inactive

pub LiveBut-of_IsLive : (friend : ℕ) (s : MsiSession) → IsLive s → LiveBut friend s.calls
LiveBut-of_IsLive friend s h j c ne e = h j c e

pub LiveBut-change_call :
    (friend i : ℕ) (f : Calls) (g : MsiCall → MsiCall)
    → ((c : MsiCall) → (g c).state ≡ c.state)
    → LiveBut friend (some f)
    → LiveBut friend (some (change_call f i g))
unfolding change_call
LiveBut-change_call friend i f g same h j c ne e = elim (Bool-cases (j == i)) [
  | inr p ↦ h j c ne (rw p at e)
  | inl p ↦ elim (Option-cases (f i)) [
    | inl q ↦ ground arith
    | inr (d, q) ↦ ground (arith, same d, h j d ne)
  ]
]

IsLive-store_none :
    (friend : ℕ) (f : Calls)
    → LiveBut friend (some f)
    → (j : ℕ) (c : MsiCall) → store_call f friend none j ≡ some c
    → c.state ≢ inactive
unfolding store_call
IsLive-store_none friend f h j c e = ground (arith, h j c)

kill_by :
    (s : MsiSession) (cs : Option Calls) (friend : ℕ) (g : Calls → Calls)
    → ((f : Calls) → LiveBut friend (some f) → LiveBut friend (some (g f)))
    → LiveBut friend cs
    → (j : ℕ) (c : MsiCall) → call_in (map_calls (λ f. store_call (g f) friend none) cs) j ≡ some c
    → c.state ≢ inactive
kill_by s none friend g keep h j c e = cc
kill_by s (some f) friend g keep h j c e = IsLive-store_none friend (g f) (keep f h) j c e

pub none-live : (j : ℕ) (c : MsiCall) → call_in none j ≡ some c → c.state ≢ inactive
none-live j c e = cc

unlink_call-IsLive :
    (s : MsiSession) (friend : ℕ) (prev next : Option ℕ)
    → LiveBut friend s.calls
    → IsLive (unlink_call s friend prev next)
unfolding kill_call
unlink_call-IsLive s friend none none h = none-live
unlink_call-IsLive s friend none (some n) h =
    kill_by s s.calls friend (λ f. change_call f n (λ c. record c { prev = none }))
      (λ f. LiveBut-change_call friend n f _ (λ c. refl)) h
unlink_call-IsLive s friend (some p) none h =
    kill_by s s.calls friend (λ f. change_call f p (λ c. record c { next = none }))
      (λ f. LiveBut-change_call friend p f _ (λ c. refl)) h
unlink_call-IsLive s friend (some p) (some n) h =
    kill_by s s.calls friend
      (λ f.
        change_call (change_call f p (λ c. record c { next = some n })) n
          (λ c. record c { prev = some p }))
      (λ f k.
        LiveBut-change_call friend n (change_call f p (λ c. record c { next = some n })) _
          (λ c. refl) (LiveBut-change_call friend p f _ (λ c. refl) k))
      h

pub kill_call-IsLive :
    (s : MsiSession) (c : MsiCall) → LiveBut c.friend_number s.calls → IsLive (kill_call s c)
unfolding kill_call
kill_call-IsLive s c h = unlink_call-IsLive s c.friend_number c.prev c.next h

put_by :
    (cs : Option Calls) (c : MsiCall)
    → c.state ≢ inactive
    → LiveBut c.friend_number cs
    → (j : ℕ) (d : MsiCall)
    → call_in (map_calls (λ f. store_call f c.friend_number (some c)) cs) j ≡ some d
    → d.state ≢ inactive
unfolding store_call
put_by none c live h j d e = cc
put_by (some f) c live h j d e = ground (arith, h j d)

pub put_call-IsLive :
    (s : MsiSession) (c : MsiCall)
    → c.state ≢ inactive
    → LiveBut c.friend_number s.calls
    → IsLive (put_call s c)
unfolding put_call
put_call-IsLive s c live h = put_by s.calls c live h

pub calls-send_message :
    (s : MsiSession) (friend : ℕ) (m : MsiMessage) → (send_message s friend m).calls ≡ s.calls
unfolding send_message
calls-send_message s friend m = elim (Option-cases (message_bytes m)) [
  | inl e ↦ rw (e, send_message)
  | inr (b, e) ↦ rw (e, send_message)
]

pub calls-send_error :
    (s : MsiSession) (friend : ℕ) (e : MsiError) → (send_error s friend e).calls ≡ s.calls
unfolding send_error
calls-send_error s friend e =
    calls-send_message s friend (record (msg_init requ_pop) { error = some e })

LiveBut-eq :
    (friend : ℕ) {cs cs' : Option Calls} → cs' ≡ cs → LiveBut friend cs → LiveBut friend cs'
LiveBut-eq friend e h = subst (λ cs. LiveBut friend cs) (sym e) h

pub fail_call-IsLive :
    (s : MsiSession) (c : MsiCall) → LiveBut c.friend_number s.calls → IsLive (fail_call s c)
unfolding fail_call
fail_call-IsLive s c h =
    kill_call-IsLive _ c (LiveBut-eq c.friend_number (calls-send_error s c.friend_number c.error) h)
