-- ===== src/Dht/Nodes/Closest.antt =====
-- toxcore/DHT.c: `add_to_list` against the insertion of a distance, node by node.
use insert_project_name_here.Base.{
  ℕ, zero, suc, ◌<◌, ◌≤◌, ◌≡◌, refl, sym, ap, ◌∙◌, Bool, true, false, Option, none, some, List, [],
  ◌∷◌, arith, length, take, ltb, ◌==◌, if_elim, Bool-cases, inl, inr,
}
use insert_project_name_here.Dht.Nodes.{
  Key, id_closest, NodeFormat, is_last_node, with_first, replace_first, carry_on, add_to_list,
}
use insert_project_name_here.Dht.Nodes.Insertion.{
  insert, Ascending, insert-Least, is_closer, not_closer, order_two, less_weak, not_less,
}
use insert_project_name_here.Dht.Nodes.Distance.{distance, test_less, id_closest-distance}

module _ {ℓ} {A : Type ℓ} (cmp_pk : Key) where
  abbrev pub distance_of : NodeFormat A → ℕ
  distance_of n = distance cmp_pk n.public_key

  abbrev pub distances : List (NodeFormat A) → List ℕ
  distances [] = []
  distances (n ∷ ns) = distance_of n ∷ distances ns

  is_farther :
      (n x : NodeFormat A)
      → (id_closest cmp_pk n.public_key x.public_key == 2) ≡ ltb (distance_of x) (distance_of n)
  is_farther n x =
      rw (id_closest-distance cmp_pk n.public_key x.public_key)
        (order_two (distance_of n) (distance_of x))

  -- The node that was replaced is farther.
  abbrev Farther : NodeFormat A → Option (List (NodeFormat A) × NodeFormat A × Bool) → Type 0
  Farther x none = Unit
  Farther x (some (ns, old, last)) = distance_of x < distance_of old

  with_first-Farther :
      (x n : NodeFormat A) (o : Option (List (NodeFormat A) × NodeFormat A × Bool))
      → Farther x o
      → Farther x (with_first n o)
  with_first-Farther x n none w = tt
  with_first-Farther x n (some (ns, old, last)) w = w

  replace_first-Farther :
      (x : NodeFormat A) (ns : List (NodeFormat A)) → Farther x (replace_first cmp_pk x ns)
  unfolding replace_first
  replace_first-Farther x [] = tt
  replace_first-Farther x (n ∷ ns) =
      if_elim (Farther x) (id_closest cmp_pk n.public_key x.public_key == 2) _ _
        (λ q. test_less (distance_of x) (distance_of n) (sym (is_farther n x) ∙ q))
        (λ _. with_first-Farther x n (replace_first cmp_pk x ns) (replace_first-Farther x ns))

  closer_head :
      (n x : NodeFormat A) (ns : List (NodeFormat A))
      → ltb (distance_of x) (distance_of n) ≡ true
      → replace_first cmp_pk x (n ∷ ns) ≡ some (x ∷ ns, n, is_last_node ns)
  unfolding replace_first
  closer_head n x ns h = rw (is_farther n x ∙ h) refl

  farther_head :
      (n x : NodeFormat A) (ns : List (NodeFormat A))
      → ltb (distance_of x) (distance_of n) ≡ false
      → replace_first cmp_pk x (n ∷ ns) ≡ with_first n (replace_first cmp_pk x ns)
  unfolding replace_first
  farther_head n x ns h = rw (is_farther n x ∙ h) refl

  abbrev under : NodeFormat A → List (NodeFormat A) × Bool → List (NodeFormat A) × Bool
  under n q = (n ∷ q.0, q.1)

  carry_on-under :
      (again : NodeFormat A → List (NodeFormat A) → List (NodeFormat A)) (n x : NodeFormat A)
      (ns : List (NodeFormat A)) (o : Option (List (NodeFormat A) × NodeFormat A × Bool))
      → ((old : NodeFormat A) (l : List (NodeFormat A))
          → distance_of n ≤ distance_of old
          → again old (n ∷ l) ≡ n ∷ again old l)
      → distance_of n ≤ distance_of x
      → Farther x o
      → carry_on again (n ∷ ns) (with_first n o) ≡ under n (carry_on again ns o)
  carry_on-under again n x ns none k h w = refl
  carry_on-under again n x ns (some (l, old, true)) k h w = refl
  carry_on-under again n x ns (some (l, old, false)) k h w =
      ap (λ (l : List (NodeFormat A)). (l, true)) (k old l (omega (arith, h, w)))

  -- A node that is not farther stays, and the rest is as without it.
  add_to_list-under :
      (fuel : ℕ) (n x : NodeFormat A) (ns : List (NodeFormat A))
      → distance_of n ≤ distance_of x
      → add_to_list fuel cmp_pk x (n ∷ ns) ≡ under n (add_to_list fuel cmp_pk x ns)
  unfolding add_to_list
  add_to_list-under zero n x ns h = refl
  add_to_list-under (suc fuel) n x ns h =
      rw (farther_head n x ns (not_closer (distance_of n) (distance_of x) h)) (
        carry_on-under (λ old l. (add_to_list fuel cmp_pk old l).0) n x ns
          (replace_first cmp_pk x ns)
          (λ old l k.
            ap (λ (q : List (NodeFormat A) × Bool). q.0) (add_to_list-under fuel n old l k))
          h (replace_first-Farther x ns))

  -- What the call gives, by the distances.
  pub record Inserted (x : NodeFormat A) (ns : List (NodeFormat A)) (q : List (NodeFormat A) × Bool)
      : Type 0 where
    pub distances_are : distances q.0 ≡ take (length ns) (insert (distance_of x) (distances ns))
    pub result_is : q.1 ≡ is_closer (distance_of x) (distances ns)

  Inserted-under :
      (n x : NodeFormat A) (ns : List (NodeFormat A)) (q : List (NodeFormat A) × Bool)
      → ltb (distance_of x) (distance_of n) ≡ false
      → Inserted x ns q
      → Inserted x (n ∷ ns) (under n q)
  Inserted-under n x ns q h w = record {
    distances_are = rw (h, w.distances_are) refl;
    result_is = rw (h, w.result_is) refl;
  }

  pub add_to_list-Inserted :
      (fuel : ℕ) (x : NodeFormat A) (ns : List (NodeFormat A))
      → length ns < fuel
      → Ascending (distances ns)
      → Inserted x ns (add_to_list fuel cmp_pk x ns)
  unfolding add_to_list replace_first
  add_to_list-Inserted zero x ns h w = absurd (omega (arith, h))
  add_to_list-Inserted (suc fuel) x [] h w = record { distances_are = refl; result_is = refl }
  add_to_list-Inserted (suc fuel) x (n ∷ []) h w =
      elim (Bool-cases (ltb (distance_of x) (distance_of n))) [
        | inl q ↦
            rw (closer_head n x [] q) (record { distances_are = rw q refl; result_is = rw q refl })
        | inr q ↦
            rw (add_to_list-under (suc fuel) n x [] (not_less (distance_of x) (distance_of n) q))
              (Inserted-under n x [] _ q (add_to_list-Inserted (suc fuel) x [] (omega arith) tt))
      ]
  add_to_list-Inserted (suc fuel) x (n ∷ m ∷ ns) h w =
      elim (Bool-cases (ltb (distance_of x) (distance_of n))) [
        | inl q ↦
            let rest = add_to_list-Inserted fuel n (m ∷ ns) (omega (arith, h)) w.1 in
            rw
              (
                closer_head n x (m ∷ ns) q,
                add_to_list-under fuel x n (m ∷ ns) (less_weak (distance_of x) (distance_of n) q),
              )
              (record {
                distances_are =
                    rw
                      (
                        q,
                        rest.distances_are,
                        insert-Least (distance_of n) (distances (m ∷ ns)) w.0 w.1,
                      )
                      refl;
                result_is = rw q refl;
              })
        | inr q ↦
            rw
              (add_to_list-under (suc fuel) n x (m ∷ ns)
                (not_less (distance_of x) (distance_of n) q))
              (Inserted-under n x (m ∷ ns) _ q
                (add_to_list-Inserted (suc fuel) x (m ∷ ns) (omega (arith, h)) w.1))
      ]
