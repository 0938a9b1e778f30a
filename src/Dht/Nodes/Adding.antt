-- ===== src/Dht/Nodes/Adding.antt =====
-- toxcore/DHT.c: what `add_to_list` leaves in a list of nodes.
use insert_project_name_here.Base.{
  ℕ, zero, suc, ◌<◌, ◌≡◌, Bool, true, false, Option, none, some, List, [], ◌∷◌, length, take, ◌==◌,
  if_elim,
}
use insert_project_name_here.Dht.Nodes.{
  Key, id_closest, NodeFormat, with_first, replace_first, carry_on, add_to_list,
}
use insert_project_name_here.Dht.Nodes.Insertion.{
  insert, Ascending, is_closer, insert-Ascending, take-Ascending,
}
use insert_project_name_here.Dht.Nodes.Closest.{distance_of, distances, add_to_list-Inserted}

abbrev pub Each {ℓ} : {A : Type ℓ} → (A → Type 0) → List A → Type 0
Each P [] = Unit
Each P (n ∷ ns) = P n × Each P ns

module _ {ℓ} {A : Type ℓ} (cmp_pk : Key) (P : NodeFormat A → Type 0) where
  abbrev Replaced : Option (List (NodeFormat A) × NodeFormat A × Bool) → Type 0
  Replaced none = Unit
  Replaced (some (ns, old, last)) = Each P ns × P old

  with_first-Replaced :
      (n : NodeFormat A) (o : Option (List (NodeFormat A) × NodeFormat A × Bool))
      → P n
      → Replaced o
      → Replaced (with_first n o)
  with_first-Replaced n none p w = tt
  with_first-Replaced n (some (ns, old, last)) p w = ((p, w.0), w.1)

  replace_first-Replaced :
      (x : NodeFormat A) (ns : List (NodeFormat A))
      → P x
      → Each P ns
      → Replaced (replace_first cmp_pk x ns)
  unfolding replace_first
  replace_first-Replaced x [] p w = tt
  replace_first-Replaced x (n ∷ ns) p w =
      if_elim Replaced (id_closest cmp_pk n.public_key x.public_key == 2) _ _ (λ _. ((p, w.1), w.0))
        (λ _.
          with_first-Replaced n (replace_first cmp_pk x ns) w.0 (replace_first-Replaced x ns p w.1))

  carry_on-Each :
      (again : NodeFormat A → List (NodeFormat A) → List (NodeFormat A)) (ns : List (NodeFormat A))
      (o : Option (List (NodeFormat A) × NodeFormat A × Bool))
      → ((old : NodeFormat A) (l : List (NodeFormat A)) → P old → Each P l → Each P (again old l))
      → Each P ns
      → Replaced o
      → Each P (carry_on again ns o).0
  carry_on-Each again ns none k w r = w
  carry_on-Each again ns (some (l, old, true)) k w r = r.0
  carry_on-Each again ns (some (l, old, false)) k w r = k old l r.1 r.0

  add_to_list-Each :
      (fuel : ℕ) (x : NodeFormat A) (ns : List (NodeFormat A))
      → P x
      → Each P ns
      → Each P (add_to_list fuel cmp_pk x ns).0
  unfolding add_to_list
  add_to_list-Each zero x ns p w = w
  add_to_list-Each (suc fuel) x ns p w =
      carry_on-Each (λ old l. (add_to_list fuel cmp_pk old l).0) ns (replace_first cmp_pk x ns)
        (λ old l q v. add_to_list-Each fuel old l q v) w (replace_first-Replaced x ns p w)

  -- On a list of nodes that ascends by the distance to a key, which is the number that the
  -- exclusive or of the keys stands for, and with more fuel than the list has nodes,
  -- `add_to_list` leaves the distances that the insertion of the new node's distance gives, cut
  -- to the length of the list; they ascend, every node of the new list is the new node or was in
  -- the list (each predicate that holds of these holds of it), and the result is true exactly if
  -- the new node is closer than a node of the list.
  pub add_to_list-closest :
      (fuel : ℕ) (x : NodeFormat A) (ns : List (NodeFormat A))
      → length ns < fuel
      → Ascending (distances cmp_pk ns)
      → P x
      → Each P ns
      → (distances cmp_pk (add_to_list fuel cmp_pk x ns).0
          ≡ take (length ns) (insert (distance_of cmp_pk x) (distances cmp_pk ns)))
        × Ascending (distances cmp_pk (add_to_list fuel cmp_pk x ns).0)
        × ((add_to_list fuel cmp_pk x ns).1
            ≡ is_closer (distance_of cmp_pk x) (distances cmp_pk ns))
        × Each P (add_to_list fuel cmp_pk x ns).0
  add_to_list-closest fuel x ns h w p each =
      let done = add_to_list-Inserted cmp_pk fuel x ns h w in
      (
        done.distances_are,
        rw done.distances_are (
            take-Ascending (length ns) (insert (distance_of cmp_pk x) (distances cmp_pk ns))
              (insert-Ascending (distance_of cmp_pk x) (distances cmp_pk ns) w)),
        done.result_is,
        add_to_list-Each fuel x ns p each,
      )
