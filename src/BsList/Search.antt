-- ===== src/BsList/Search.antt =====
-- toxcore/list.c: the loop of `find`, round by round.
use insert_project_name_here.Base.{
  ℕ, zero, suc, ◌+◌, ◌-◌, ◌*◌, ◌/◌, ◌^◌, ◌≤◌, ◌<◌, ◌≡◌, ◌≢◌, ◌⊎◌, inl, inr, refl, ap, ◌∙◌, true,
  false, Bool-cases, ◌||◌, Option, none, some, List, arith, if◌then◌else◌, ◌==◌, ==_iff, length,
  u32, sub32,
}
use native.Mathlib.Decide.{ℕ_discrete}
use mathlib.Core.Path.{subst}
use insert_project_name_here.BsList.Bytes.{below, equal, above, Order-cases, compare_at}
use insert_project_name_here.BsList.{
  BsList, Position, at, gap, Trend, undecided, up, down, is_up, is_down, halve, find_loop, find,
}
use insert_project_name_here.BsList.Ascending.{
  IsSorted, compare_at-total, above_before, below_after,
}

-- Where `x` is, or where it would have to stand.
abbrev pub IsPosition : List ℕ → List (List ℕ) → Option Position → Type 0
IsPosition x xs none = ⊥
IsPosition x xs (some (at i)) = compare_at x xs i ≡ some equal
IsPosition x xs (some (gap i)) =
    (i ≤ length xs)
    × ((k : ℕ) → k < i → compare_at x xs k ≡ some above)
    × ((k : ℕ) → i ≤ k → k < length xs → compare_at x xs k ≡ some below)

-- What holds at position `i` of the loop.
record Searching (x : List ℕ) (xs : List (List ℕ)) (i delta : ℕ) (d : Trend) : Type 0 where
  inside : i < length xs
  moves : 1 ≤ delta
  room : (delta ≡ 1) ⊎ ((2 * delta ≤ i) × (i + 2 * delta ≤ length xs))
  small : d ≢ undecided → delta ≡ 1
  came_down : d ≡ down → (0 < i) × (compare_at x xs (i - 1) ≡ some above)
  came_up : d ≡ up → (i + 1 < length xs) × (compare_at x xs (i + 1) ≡ some below)

-- Rounds that the loop can still make.
abbrev measure : ℕ → ℕ → ℕ → Trend → ℕ
measure n i delta undecided = delta + n + 1
measure n i delta down = n - i
measure n i delta up = i + 1

module _ (x : List ℕ) (xs : List (List ℕ)) (sorted : IsSorted xs) (small : length xs < 2 ^ 31) where
  gap_after :
      (i : ℕ)
      → compare_at x xs i ≡ some above
      → i < length xs
      → ((i + 1 ≡ length xs) ⊎ (compare_at x xs (i + 1) ≡ some below))
      → IsPosition x xs (some (gap (i + 1)))
  gap_after i e h t = (
    omega arith,
    λ k hk. above_before x xs i k sorted e (omega arith),
    λ k hk hl. elim t [
      | inl f ↦ absurd (omega arith)
      | inr f ↦ below_after x xs (i + 1) k sorted f hk hl
    ],
  )

  gap_before :
      (i : ℕ)
      → compare_at x xs i ≡ some below
      → i < length xs
      → ((i ≡ 0) ⊎ ((0 < i) × (compare_at x xs (i - 1) ≡ some above)))
      → IsPosition x xs (some (gap i))
  gap_before i e h t = (
    omega arith,
    λ k hk. elim t [
      | inl f ↦ absurd (omega arith)
      | inr f ↦ above_before x xs (i - 1) k sorted f.1 (omega arith)
    ],
    λ k hk hl. below_after x xs i k sorted e hk hl,
  )

  step_after :
      (i delta : ℕ) (d : Trend)
      → Searching x xs i delta d
      → compare_at x xs i ≡ some above
      → (is_up d || u32 (i + delta) == length xs) ≡ false
      → Searching x xs (u32 (i + delta)) (halve delta) (if delta / 2 == 0 then down else d)
  step_after i delta d s e t = record {
    inside = ground (arith, s.inside, s.room, s.moves);
    moves = ground (arith, s.moves);
    room = ground (arith, s.inside, s.room, s.moves);
    small = ground (arith, s.small, s.moves);
    came_down = ground (arith, s.inside, s.room, s.moves, s.small);
    came_up = ground (arith, s.inside, s.room, s.moves);
  }

  step_before :
      (i delta : ℕ) (d : Trend)
      → Searching x xs i delta d
      → compare_at x xs i ≡ some below
      → (is_down d || i == 0) ≡ false
      → Searching x xs (sub32 i delta) (halve delta) (if delta / 2 == 0 then up else d)
  step_before i delta d s e t = record {
    inside = ground (arith, s.inside, s.room, s.moves);
    moves = ground (arith, s.moves);
    room = ground (arith, s.inside, s.room, s.moves);
    small = ground (arith, s.small, s.moves);
    came_down = ground (arith, s.inside, s.room, s.moves, s.small);
    came_up = ground (arith, s.inside, s.room, s.moves);
  }

  measure_after :
      (i delta : ℕ) (d : Trend)
      → Searching x xs i delta d
      → (is_up d || u32 (i + delta) == length xs) ≡ false
      → measure (length xs) (u32 (i + delta)) (halve delta) (if delta / 2 == 0 then down else d)
        < measure (length xs) i delta d
  measure_after i delta undecided s t = ground (arith, s.inside, s.room, s.moves)
  measure_after i delta down s t = ground (arith, s.inside, s.room, s.moves, s.small (λ q. cc))
  measure_after i delta up s t = ground arith

  measure_before :
      (i delta : ℕ) (d : Trend)
      → Searching x xs i delta d
      → (is_down d || i == 0) ≡ false
      → measure (length xs) (sub32 i delta) (halve delta) (if delta / 2 == 0 then up else d)
        < measure (length xs) i delta d
  measure_before i delta undecided s t = ground (arith, s.inside, s.room, s.moves)
  measure_before i delta down s t = ground arith
  measure_before i delta up s t = ground (arith, s.inside, s.room, s.moves, s.small (λ q. cc))

  lands_after :
      (i delta : ℕ) (d : Trend)
      → Searching x xs i delta d
      → compare_at x xs i ≡ some above
      → (is_up d || u32 (i + delta) == length xs) ≡ true
      → IsPosition x xs (some (gap (u32 (i + delta))))
  lands_after i delta d s e t =
      let one : u32 (i + delta) ≡ i + 1 = ground (arith, s.inside, s.room, s.moves, s.small) in
      rw one (gap_after i e s.inside (ground (arith, s.came_up, one)))

  lands_before :
      (i delta : ℕ) (d : Trend)
      → Searching x xs i delta d
      → compare_at x xs i ≡ some below
      → (is_down d || i == 0) ≡ true
      → IsPosition x xs (some (gap i))
  lands_before i delta d s e t = gap_before i e s.inside (ground (arith, s.came_down))

  find_loop-IsPosition :
      (fuel i delta : ℕ) (d : Trend)
      → Searching x xs i delta d
      → measure (length xs) i delta d < fuel
      → IsPosition x xs (find_loop fuel xs (length xs) x i delta d)
  unfolding find_loop
  find_loop-IsPosition zero i delta d s h = absurd (omega arith)
  find_loop-IsPosition (suc fuel) i delta d s h =
      let (o, e) = compare_at-total x xs i s.inside in
      elim (Order-cases o) [
        | inl q ↦ rw (e, q, find_loop) (e ∙ ap some q)
        | inr (inl q) ↦ elim (Bool-cases (is_up d || u32 (i + delta) == length xs)) [
          | inl t ↦ rw (e, q, t, find_loop) (lands_after i delta d s (e ∙ ap some q) t)
          | inr t ↦
              rw (e, q, t, find_loop)
                (find_loop-IsPosition fuel (u32 (i + delta)) (halve delta)
                  (if delta / 2 == 0 then down else d) (step_after i delta d s (e ∙ ap some q) t)
                  (omega (arith, measure_after i delta d s t)))
        ]
        | inr (inr q) ↦ elim (Bool-cases (is_down d || i == 0)) [
          | inl t ↦ rw (e, q, t, find_loop) (lands_before i delta d s (e ∙ ap some q) t)
          | inr t ↦
              rw (e, q, t, find_loop)
                (find_loop-IsPosition fuel (sub32 i delta) (halve delta)
                  (if delta / 2 == 0 then up else d) (step_before i delta d s (e ∙ ap some q) t)
                  (omega (arith, measure_before i delta d s t)))
        ]
      ]

-- The representation: the two arrays hold `n` elements, the keys ascend, and the allocations hold
-- what `capacity` says. Capacities and the bytes of the data are words of 32 bits.
pub record IsValid (l : BsList) : Type 0 where
  pub sorted : IsSorted l.keys
  pub keys_n : length l.keys ≡ l.n
  pub ids_n : length l.ids ≡ l.n
  pub few : l.n < 2 ^ 31
  pub within : l.n ≤ l.capacity
  pub capacity_word : l.capacity < 2 ^ 32
  pub data_fits : l.element_size * l.capacity ≤ l.data_room
  pub data_word : l.data_room < 2 ^ 32
  pub ids_fit : 4 * l.capacity ≤ l.ids_room

-- On a valid list the search of `find` ends within `2 * n + 3` rounds and never reads past the
-- end: it gives an index that holds the data, or an insertion index with all smaller elements
-- before it and all larger ones from it on.
pub find-IsPosition : {l : BsList} (x : List ℕ) → IsValid l → IsPosition x l.keys (find l x)
unfolding find
find-IsPosition {l} x v = elim (ℕ_discrete l.n 0) [
  | yes z ↦ rw ((==_iff l.n 0).1 z) (
    omega (arith, v.keys_n),
    λ k h. absurd (omega arith),
    λ k h g. absurd (omega (arith, v.keys_n)),
  )
  | no z ↦ rw (start z) (
      subst
        (λ m.
          IsPosition x l.keys (find_loop (2 * m + 3) l.keys m x (m / 2) (halve (m / 2)) undecided))
        v.keys_n
        (find_loop-IsPosition x l.keys v.sorted (omega (arith, v.keys_n, v.few))
          (2 * length l.keys + 3) (length l.keys / 2) (halve (length l.keys / 2)) undecided
          (record {
            inside = omega (arith, v.keys_n);
            moves = ground arith;
            room = ground (arith, v.keys_n);
            small = λ q. absurd (q refl);
            came_down = λ q. cc;
            came_up = λ q. cc;
          })
          (ground (arith, v.keys_n))))
]
  where
    start : l.n ≢ 0 → (l.n == 0) ≡ false
    start z = ground arith
