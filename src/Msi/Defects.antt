-- ===== src/Msi/Defects.antt =====
-- toxav/msi.c: `new_call` for a friend between the first and the last of a session, and `kill_call`.
use insert_project_name_here.Base.{ℕ, ◌≤◌, ◌≡◌, true, some, none, arith}
use insert_project_name_here.Msi.Session.{MsiCall, MsiSession, Calls, new_call, kill_call}

-- A new call whose friend number lies between the first and the last of a session's calls is
-- linked to no other call, and killing it drops every call of the session.
pub kill_call-new_call_clears :
    (s : MsiSession) (friend : ℕ) {f : Calls} {c : MsiCall}
    → s.calls ≡ some f
    → s.calls_head ≤ friend
    → friend ≤ s.calls_tail
    → (new_call true s friend).1 ≡ some c
    → (kill_call (new_call true s friend).0 c).calls ≡ none
unfolding new_call kill_call
kill_call-new_call_clears s friend e h t q = ground arith
