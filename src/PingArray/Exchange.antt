-- ===== src/PingArray/Exchange.antt =====
-- toxcore/ping_array.c: `ping_array_add` followed by `ping_array_check`.
use insert_project_name_here.Base.{
  ℕ, ◌+◌, ◌*◌, ◌/◌, ◌%◌, ◌^◌, ◌≤◌, ◌<◌, ◌≡◌, ◌≢◌, inl, inr, Bool, true, Bool-cases, none, some,
  List, arith,
}
use native.Mathlib.Nat.{
  div-lt_iff_lt-mul, mul_comm, mul-add-mod_self_right, mod-eq_of_lt, mod_self, mod-lt,
}
use insert_project_name_here.PingArray.{
  PingArray, make_ping_id, make_room, holds, ping_array_clear_timedout, ping_array_check,
  ping_array_add,
}
use insert_project_name_here.PingArray.Expiry.{Pruned, Expired, ping_array_clear_timedout-Pruned}

-- A ping id of an array whose size divides 2 ^ 64 leads back to its index.
module _ (random size index k : ℕ) (divides : size * k ≡ 2 ^ 64) (word : random < 2 ^ 64)
    (small : size < 2 ^ 32) (inside : index < size) where
  quotient_room : random / size * size + size ≤ 2 ^ 64
  quotient_room =
      let lt : random / size < k =
        (div-lt_iff_lt-mul {k = size} {x = random} {y = k} (omega arith)).1
          (omega (arith, mul_comm size k)) in
      grind (arith, mul_comm size k)

  pub make_ping_id_lem :
      (make_ping_id random size index % size ≡ index) × (make_ping_id random size index ≢ 0)
  unfolding make_ping_id
  make_ping_id_lem = ground (
    arith,
    quotient_room,
    mul-add-mod_self_right (random / size) size index,
    mod-eq_of_lt inside,
    mod_self size,
  )

-- What the steps before the new entry leave: the sizes, and every entry but that of the next index
-- unless it was timed out.
record Ready (now : ℕ) (a b : PingArray) : Type 0 where
  size : b.total_size ≡ a.total_size
  life : b.timeout ≡ a.timeout
  added : b.last_added ≡ a.last_added
  each :
      (j : ℕ) → j ≢ a.last_added % a.total_size → Expired now a.timeout (a.entries j) (b.entries j)

make_room-Ready : (now : ℕ) {a b : PingArray} → Pruned now a b → Ready now a (make_room b)
unfolding make_room
make_room-Ready now {a} {b} p =
    elim (Bool-cases (holds (b.entries (b.last_added % b.total_size)).payload)) [
      | inl e ↦ rw e (record {
        size = p.size;
        life = p.life;
        added = p.added;
        each = λ j ne. ground (arith, p.each j, p.size, p.added);
      })
      | inr e ↦
          rw e (record { size = p.size; life = p.life; added = p.added; each = λ j ne. p.each j })
    ]

prepared-Ready :
    (now : ℕ) (a : PingArray) → Ready now a (make_room (ping_array_clear_timedout now a))
prepared-Ready now a = make_room-Ready now (ping_array_clear_timedout-Pruned now a)

-- A ping that is added at the time `now`.
module _ (now random : ℕ) (a : PingArray) (bytes : List ℕ) (len k : ℕ)
    (divides : a.total_size * k ≡ 2 ^ 64) (word : random < 2 ^ 64) (small : a.total_size < 2 ^ 32)
    (positive : 0 < a.total_size) (later : 0 < a.timeout) (clock : now + a.timeout < 2 ^ 64) where
  added_at :
      (ping_array_add now random true a bytes len).1 % a.total_size ≡ a.last_added % a.total_size
  unfolding ping_array_add
  added_at =
      let r = prepared-Ready now a in
      ground (
        arith,
        r.size,
        r.added,
        make_ping_id_lem random a.total_size (a.last_added % a.total_size) k divides word small
            (mod-lt a.last_added positive),
      )

  added_id : (ping_array_add now random true a bytes len).1 ≢ 0
  unfolding ping_array_add
  added_id =
      let r = prepared-Ready now a in
      ground (
        arith,
        r.size,
        r.added,
        make_ping_id_lem random a.total_size (a.last_added % a.total_size) k divides word small
            (mod-lt a.last_added positive),
      )

  added_entry :
      let (b, id) = ping_array_add now random true a bytes len in
      (b.total_size ≡ a.total_size)
      × (b.timeout ≡ a.timeout)
      × (b.entries (a.last_added % a.total_size)
          ≡ record { payload = some bytes; len = len; time = now; ping_id = id })
  unfolding ping_array_add
  added_entry = let r = prepared-Ready now a in (r.size, r.life, ground (arith, r.size, r.added))

  -- If the array's size is positive and divides 2^64, its timeout is positive and the clock does
  -- not wrap: after `ping_array_add` with memory, the id that it gives is not 0,
  -- `ping_array_check` at the same time with enough room gives back the data, and a second check
  -- of the same id gives nothing.
  pub ping_array_add-check :
      (room : ℕ)
      → len ≤ room
      → let (b, id) = ping_array_add now random true a bytes len in
        (id ≢ 0)
        × ((ping_array_check now room b id).1 ≡ some bytes)
        × ((ping_array_check now room (ping_array_check now room b id).0 id).1 ≡ none)
  unfolding ping_array_check
  ping_array_add-check room fits = (
    added_id,
    ground (arith, added_at, added_id, added_entry.0, added_entry.1, added_entry.2),
    ground (arith, added_at, added_id, added_entry.0, added_entry.1, added_entry.2),
  )

-- For an id of another index of the array, `ping_array_check` at a time not before that of
-- `ping_array_add` gives the same with or without the addition: clearing timed out entries never
-- loses an answer that would still count.
pub ping_array_add-check_other :
    (now random : ℕ) (malloc : Bool) (a : PingArray) (bytes : List ℕ) (len later_now room other : ℕ)
    → now ≤ later_now
    → other % a.total_size ≢ a.last_added % a.total_size
    → (ping_array_check later_now room (ping_array_add now random malloc a bytes len).0 other).1
      ≡ (ping_array_check later_now room a other).1
unfolding ping_array_check ping_array_add
ping_array_add-check_other now random malloc a bytes len later_now room other h ne =
    let r = prepared-Ready now a in
    ground (arith, r.size, r.life, r.added, r.each (other % a.total_size))
