-- ===== src/Messenger/Files/Mirror.antt =====
-- toxcore/Messenger.c: the two ends of a file transfer through the control packets between them.
use insert_project_name_here.Base.{ℕ, ◌≤◌, ◌≡◌, ◌≢◌, refl, Bool, true, false, arith}
use insert_project_name_here.Messenger.Files.{
  no_transfer, not_accepted, finished, FilePause, pause_not, pause_us, pause_other, pause_both,
  is_none, FileTransfers,
}
use insert_project_name_here.Messenger.Files.Send.{control_error, control_transfer}
use insert_project_name_here.Messenger.Files.Receive.{accept_transfer, pause_transfer}

-- Our pauses are the other's, and the other's ours.
abbrev pub swapped : FilePause → FilePause
swapped pause_not = pause_not
swapped pause_us = pause_other
swapped pause_other = pause_us
swapped pause_both = pause_both

-- Two ends of a transfer that is not finished, in agreement.
pub record Mirrored (a b : FileTransfers) : Type 0 where
  pub status_is : b.status ≡ a.status
  pub unfinished : a.status ≢ finished
  pub paused_is : b.paused ≡ swapped a.paused
  pub before : a.status ≡ not_accepted → a.paused ≡ pause_not

pub control_error_bound :
    (a : FileTransfers) (sr : Bool) (control : ℕ) → control_error a sr control ≡ 0 → control ≤ 2
unfolding control_error
control_error_bound a sr control e = ground (arith, e)

pub accepted-Mirrored :
    (a b : FileTransfers) (sr : Bool)
    → control_error a sr 0 ≡ 0
    → Mirrored a b
    → ((accept_transfer sr b).1 ≡ true) × Mirrored (control_transfer a 0) (accept_transfer sr b).0
unfolding control_error control_transfer accept_transfer
accepted-Mirrored a b sr e w =
    let st : b.status ≡ a.status = w.status_is in
    let unf = w.unfinished in
    let pa : b.paused ≡ swapped a.paused = w.paused_is in
    let be = w.before in
    (
      ground (arith, e, st, unf, pa, be),
      record {
        status_is = ground (arith, e, st, unf, pa, be);
        unfinished = λ q. absurd (cc q);
        paused_is = ground (arith, e, st, unf, pa, be);
        before = λ q. absurd (cc q);
      },
    )

pub paused-Mirrored :
    (a b : FileTransfers) (sr : Bool)
    → control_error a sr 1 ≡ 0
    → Mirrored a b
    → ((pause_transfer b).1 ≡ true) × Mirrored (control_transfer a 1) (pause_transfer b).0
unfolding control_error control_transfer pause_transfer
paused-Mirrored a b sr e w =
    let st : b.status ≡ a.status = w.status_is in
    let unf = w.unfinished in
    let pa : b.paused ≡ swapped a.paused = w.paused_is in
    (
      ground (arith, e, st, pa),
      record {
        status_is = ground (arith, e, st, pa);
        unfinished = unf;
        paused_is = ground (arith, e, st, pa);
        before = λ q. absurd (ground (arith, e, q));
      },
    )

pub killed-Mirrored :
    (a b : FileTransfers)
    → Mirrored a b
    → Mirrored (control_transfer a 2) (record b { status = no_transfer })
unfolding control_transfer
killed-Mirrored a b w = record {
  status_is = refl;
  unfinished = λ q. absurd (cc q);
  paused_is = w.paused_is;
  before = λ q. absurd (cc q);
}

-- A transfer that may be controlled exists at the other end.
pub Mirrored-exists :
    (a b : FileTransfers) (sr : Bool) (control : ℕ)
    → control_error a sr control ≡ 0
    → Mirrored a b
    → is_none b.status ≡ false
unfolding control_error
Mirrored-exists a b sr control e w =
    let st : b.status ≡ a.status = w.status_is in ground (arith, e, st)
