-- ===== src/RingBuffer/Tests.antt =====
-- toxcore/util.c: runs of the ring buffer on concrete data.
use insert_project_name_here.Base.{ℕ, ◌≡◌, refl, none, some, [], ◌∷◌, arith, if◌then◌else◌, ◌==◌}
use insert_project_name_here.RingBuffer.{RingBuffer, rb_write, rb_data}
use insert_project_name_here.RingBuffer.Runs.{
  put, get, perform_all, queue_run, perform_all-queue_run,
}
use insert_project_name_here.RingBuffer.Copies.{IsRing}

abbrev two : RingBuffer ℕ
two = record {
  size = 3;
  start = 2;
  end = 1;
  slots = λ i. if i == 2 then some 7 else if i == 0 then some 8 else none;
}

two_holds : rb_data two ≡ some 7 ∷ some 8 ∷ []
unfolding rb_data
two_holds = refl

full_drops : ((rb_write two 9).1 ≡ some 7) × (rb_data (rb_write two 9).0 ≡ some 8 ∷ some 9 ∷ [])
unfolding rb_data rb_write
full_drops = (refl, refl)

two-IsRing : IsRing two
two-IsRing = omega arith

perform_all-queue_run_example :
    (rb_data (perform_all two (put 9 ∷ get ∷ [])).0, (perform_all two (put 9 ∷ get ∷ [])).1)
    ≡ queue_run 2 (rb_data two) (put 9 ∷ get ∷ [])
perform_all-queue_run_example = perform_all-queue_run two (put 9 ∷ get ∷ []) two-IsRing
