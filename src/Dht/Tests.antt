-- ===== src/Dht/Tests.antt =====
-- toxcore/DHT.c: the cache of shared keys and lists of nodes on concrete data.
use insert_project_name_here.Base.{
  ℕ, ◌≡◌, refl, Bool, true, false, List, [], ◌∷◌, ◌++◌, replicate, take, arith, ◌==◌, if◌then◌else◌,
}
use insert_project_name_here.Dht.Nodes.{Key, NodeFormat, add_to_list}
use insert_project_name_here.Dht.Nodes.Insertion.{insert, Ascending, is_closer}
use insert_project_name_here.Dht.Nodes.Distance.{distance}
use insert_project_name_here.Dht.Nodes.Closest.{distance_of, distances}
use insert_project_name_here.Dht.Nodes.Adding.{Each, add_to_list-closest}
use insert_project_name_here.Dht.SharedKeys.{SharedKey, SharedKeys, get_shared_key}
use insert_project_name_here.Dht.SharedKeys.Cache.{
  IsCache, InSlot, get_shared_key-precompute, get_shared_key_others,
}

abbrev exchange : List ℕ → List ℕ → List ℕ
exchange public_key secret_key = public_key ++ secret_key

abbrev all_equal : List ℕ → List ℕ → Bool
all_equal [] [] = true
all_equal [] (y ∷ ys) = false
all_equal (x ∷ xs) [] = false
all_equal (x ∷ xs) (y ∷ ys) = let rest = all_equal xs ys in if x == y then rest else false

all_equal_lem : (xs ys : List ℕ) → all_equal xs ys ≡ true → xs ≡ ys
all_equal_lem [] [] e = refl
all_equal_lem [] (y ∷ ys) e = absurd (cc e)
all_equal_lem (x ∷ xs) [] e = absurd (cc e)
all_equal_lem (x ∷ xs) (y ∷ ys) e = ground (arith, e, all_equal_lem xs ys)

-- A node whose key has the byte 3 at index 30.
abbrev node : List ℕ
node = replicate 30 7 ++ (3 ∷ 9 ∷ [])

abbrev unused : SharedKey
unused = record {
  public_key = [];
  shared_key = [];
  times_requested = 0;
  stored = false;
  time_last_requested = 0;
}

-- The first key of the slot is another node's, the second is this one's.
abbrev cache : SharedKeys
cache = record {
  keys = λ j.
      if j == 12
      then record {
        public_key = [];
        shared_key = 5 ∷ [];
        times_requested = 1;
        stored = true;
        time_last_requested = 90;
      }
      else if j == 13
      then record {
        public_key = node;
        shared_key = node ++ (5 ∷ []);
        times_requested = 2;
        stored = true;
        time_last_requested = 95;
      }
      else unused;
}

cache-IsCache : IsCache exchange all_equal all_equal_lem (5 ∷ []) cache
cache-IsCache j e = ground (arith, e)

counted :
    ((get_shared_key exchange all_equal 100 cache (5 ∷ []) node).0.keys 13).times_requested ≡ 3
unfolding get_shared_key
counted = refl

get_shared_key-precompute_example :
    ((get_shared_key exchange all_equal 100 cache (5 ∷ []) node).1 ≡ exchange node (5 ∷ []))
    × IsCache exchange all_equal all_equal_lem
        (5 ∷ [])
        (get_shared_key exchange all_equal 100 cache (5 ∷ []) node).0
get_shared_key-precompute_example =
    get_shared_key-precompute exchange all_equal all_equal_lem 100 cache (5 ∷ []) node cache-IsCache

outside : ¬ (InSlot node 16)
outside h = absurd (omega (arith, h.1))

get_shared_key_others_example :
    (get_shared_key exchange all_equal 100 cache (5 ∷ []) node).0.keys 16 ≡ cache.keys 16
get_shared_key_others_example =
    get_shared_key_others exchange all_equal all_equal_lem 100 cache (5 ∷ []) node 16 outside

-- Keys whose last byte tells them apart, and nodes with the address 4.
abbrev key_of : ℕ → Key
key_of b = λ i. if i == 31 then b else 7

abbrev node_of : ℕ → NodeFormat ℕ
node_of b = record { public_key = key_of b; ip_port = 4 }

-- The distances of the three nodes to the key are 1, 4 and 8.
abbrev three : List (NodeFormat ℕ)
three = node_of 1 ∷ node_of 4 ∷ node_of 8 ∷ []

abbrev Known : NodeFormat ℕ → Type 0
Known n = n.ip_port ≡ 4

three-distances : distances (key_of 0) three ≡ 1 ∷ 4 ∷ 8 ∷ []
unfolding distance
three-distances = refl

added_second :
    (add_to_list 4 (key_of 0) (node_of 2) three).0 ≡ node_of 1 ∷ node_of 2 ∷ node_of 4 ∷ []
unfolding add_to_list
added_second = refl

three-Ascending : Ascending (distances (key_of 0) three)
unfolding distance
three-Ascending = (omega arith, (omega arith, (tt, tt)))

add_to_list-closest_example :
    (distances (key_of 0) (add_to_list 4 (key_of 0) (node_of 2) three).0
      ≡ take 3 (insert (distance_of (key_of 0) (node_of 2)) (distances (key_of 0) three)))
    × Ascending (distances (key_of 0) (add_to_list 4 (key_of 0) (node_of 2) three).0)
    × ((add_to_list 4 (key_of 0) (node_of 2) three).1
        ≡ is_closer (distance_of (key_of 0) (node_of 2)) (distances (key_of 0) three))
    × Each Known (add_to_list 4 (key_of 0) (node_of 2) three).0
add_to_list-closest_example =
    add_to_list-closest (key_of 0) Known 4 (node_of 2) three (omega arith) three-Ascending refl
      (refl, (refl, (refl, tt)))
