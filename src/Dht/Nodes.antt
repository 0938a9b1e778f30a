-- ===== src/Dht/Nodes.antt =====
-- toxcore/DHT.c: the distance of keys, and the lists of the nodes that are closest to a key. A key is a
-- function from the indices of its bytes. What is known of the address of a node is of any type.
pub mod Distance
pub mod Insertion
pub mod Closest
pub mod Adding
use Prim.Native.Nat.{bit_xor}
use insert_project_name_here.Base.{
  ℕ, zero, suc, ◌+◌, Bool, true, false, Option, none, some, List, [], ◌∷◌, u8, ltb, ◌==◌,
  if◌then◌else◌,
}

-- crypto_box_PUBLICKEYBYTES
abbrev pub key_bytes : ℕ
key_bytes = 32

abbrev pub Key : Type 0
Key = ℕ → ℕ

-- `pk[i] ^ pk1[i]`, as a uint8_t
abbrev pub distance_byte : Key → Key → ℕ → ℕ
distance_byte pk pk1 i = u8 (bit_xor (pk i) (pk1 i))

-- The loop of `id_closest`, with `rounds` rounds left.
unfoldable pub closest_from : ℕ → ℕ → Key → Key → Key → ℕ
closest_from zero i pk pk1 pk2 = 0
closest_from (suc rounds) i pk pk1 pk2 =
    let rest = closest_from rounds (i + 1) pk pk1 pk2 in
    if ltb (distance_byte pk pk1 i) (distance_byte pk pk2 i)
    then 1
    else if ltb (distance_byte pk pk2 i) (distance_byte pk pk1 i)
    then 2
    else rest

unfoldable pub id_closest : Key → Key → Key → ℕ
unfolding closest_from
id_closest pk pk1 pk2 = closest_from key_bytes 0 pk pk1 pk2

-- `Node_format`
pub record NodeFormat {ℓ} (A : Type ℓ) : Type ℓ where
  pub public_key : Key
  pub ip_port : A

-- `i == length - 1`
abbrev pub is_last_node {ℓ} : {A : Type ℓ} → List A → Bool
is_last_node [] = true
is_last_node (n ∷ ns) = false

module _ {ℓ} {A : Type ℓ} where
  abbrev pub with_first :
      NodeFormat A
      → Option (List (NodeFormat A) × NodeFormat A × Bool)
      → Option (List (NodeFormat A) × NodeFormat A × Bool)
  with_first n none = none
  with_first n (some (ns, old, last)) = some (n ∷ ns, old, last)

  -- The loop of `add_to_list`: the list with the first node that is farther replaced, that node, and
  -- whether it was the last.
  unfoldable pub replace_first :
      Key → NodeFormat A → List (NodeFormat A) → Option (List (NodeFormat A) × NodeFormat A × Bool)
  unfolding id_closest
  replace_first cmp_pk node [] = none
  replace_first cmp_pk node (n ∷ ns) =
      let rest = with_first n (replace_first cmp_pk node ns) in
      if id_closest cmp_pk n.public_key node.public_key == 2
      then some (node ∷ ns, n, is_last_node ns)
      else rest

  -- What `add_to_list` does with the replaced node.
  abbrev pub carry_on :
      (NodeFormat A → List (NodeFormat A) → List (NodeFormat A))
      → List (NodeFormat A)
      → Option (List (NodeFormat A) × NodeFormat A × Bool)
      → List (NodeFormat A) × Bool
  carry_on again nodes none = (nodes, false)
  carry_on again nodes (some (ns, old, last)) = (if last then ns else again old ns, true)

  -- `add_to_list`, on fuel for the calls of itself: the list, and the result.
  unfoldable pub add_to_list :
      ℕ → Key → NodeFormat A → List (NodeFormat A) → List (NodeFormat A) × Bool
  unfolding replace_first
  add_to_list zero cmp_pk node nodes = (nodes, false)
  add_to_list (suc fuel) cmp_pk node nodes =
      carry_on (λ old ns. (add_to_list fuel cmp_pk old ns).0) nodes
        (replace_first cmp_pk node nodes)
