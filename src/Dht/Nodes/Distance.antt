-- ===== src/Dht/Nodes/Distance.antt =====
-- toxcore/DHT.c: `id_closest` against the distance of keys as a number.
use insert_project_name_here.Base.{
  ℕ, zero, suc, ◌+◌, ◌*◌, ◌<◌, ◌≡◌, refl, List, [], ◌∷◌, arith, of_be, ltb, if◌then◌else◌,
  Bool-cases, inl, inr, true, false,
}
use insert_project_name_here.Dht.Nodes.{Key, key_bytes, distance_byte, closest_from, id_closest}

-- The bytes of the exclusive or of two keys, and the number that they stand for.
abbrev pub distance_bytes : ℕ → ℕ → Key → Key → List ℕ
distance_bytes zero i pk pk1 = []
distance_bytes (suc rounds) i pk pk1 = distance_byte pk pk1 i ∷ distance_bytes rounds (i + 1) pk pk1

unfoldable pub distance : Key → Key → ℕ
distance pk pk1 = of_be 0 (distance_bytes key_bytes 0 pk pk1)

abbrev pub order : ℕ → ℕ → ℕ
order m n = if ltb m n then 1 else if ltb n m then 2 else 0

less_before :
    (rounds i m n : ℕ) (pk pk1 pk2 : Key)
    → m < n
    → of_be m (distance_bytes rounds i pk pk1) < of_be n (distance_bytes rounds i pk pk2)
less_before zero i m n pk pk1 pk2 h = h
less_before (suc rounds) i m n pk pk1 pk2 h =
    less_before rounds (i + 1) _ _ pk pk1 pk2 (omega (arith, h))

order_less : (m n : ℕ) → m < n → order m n ≡ 1
order_less m n h = ground (arith, h)

order_more : (m n : ℕ) → n < m → order m n ≡ 2
order_more m n h = ground (arith, h)

pub test_less : (m n : ℕ) → ltb m n ≡ true → m < n
test_less m n h = ground (arith, h)

neither : (m n : ℕ) → ltb m n ≡ false → ltb n m ≡ false → m ≡ n
neither m n h k = ground (arith, h, k)

closest_from-order :
    (rounds i acc : ℕ) (pk pk1 pk2 : Key)
    → closest_from rounds i pk pk1 pk2
      ≡ order
          (of_be acc (distance_bytes rounds i pk pk1))
          (of_be acc (distance_bytes rounds i pk pk2))
unfolding closest_from
closest_from-order zero i acc pk pk1 pk2 = ground arith
closest_from-order (suc rounds) i acc pk pk1 pk2 =
    let b1 = distance_byte pk pk1 i in
    let b2 = distance_byte pk pk2 i in
    elim (Bool-cases (ltb b1 b2)) [
      | inl e ↦
          rw
            (
              e,
              order_less _ _ (
                  less_before rounds (i + 1) (acc * 256 + b1) (acc * 256 + b2) pk pk1 pk2
                    (omega (arith, test_less b1 b2 e))),
            )
            refl
      | inr e ↦ elim (Bool-cases (ltb b2 b1)) [
        | inl k ↦
            rw
              (
                e,
                k,
                order_more _ _ (
                    less_before rounds (i + 1) (acc * 256 + b2) (acc * 256 + b1) pk pk2 pk1
                      (omega (arith, test_less b2 b1 k))),
              )
              refl
        | inr k ↦
            rw (e, k, neither b1 b2 e k)
              (closest_from-order rounds (i + 1) (acc * 256 + b2) pk pk1 pk2)
      ]
    ]

-- `id_closest` compares the distances of the two keys as numbers.
pub id_closest-distance :
    (pk pk1 pk2 : Key)
    → id_closest pk pk1 pk2 ≡ (
        if ltb (distance pk pk1) (distance pk pk2)
        then 1
        else if ltb (distance pk pk2) (distance pk pk1)
        then 2
        else 0)
unfolding id_closest distance
id_closest-distance pk pk1 pk2 = closest_from-order key_bytes 0 0 pk pk1 pk2
