-- ===== src/NetCrypto/Nonce.antt =====
-- toxcore/crypto_core.c, `increment_nonce` and `increment_nonce_number`: a nonce is its bytes, the most
-- significant first. The loops run from the last byte with a carry.
pub mod Value
use insert_project_name_here.Base.{
  ℕ, zero, suc, ◌+◌, ◌-◌, ◌*◌, ◌/◌, ◌%◌, List, [], ◌∷◌, ◌++◌, length, drop, replicate, be32, of_be,
}

-- The bytes after the loop, and the carry.
unfoldable pub add_carry : List ℕ → ℕ → List ℕ × ℕ
add_carry [] carry = ([], carry)
add_carry (b ∷ bs) carry = let (r, c) = add_carry bs carry in ((c + b) % 256 ∷ r, (c + b) / 256)

unfoldable pub increment_nonce : List ℕ → List ℕ
unfolding add_carry
increment_nonce nonce = (add_carry nonce 1).0

-- The same with the bytes of a number added.
unfoldable pub add_bytes : List ℕ → List ℕ → List ℕ × ℕ
add_bytes [] ks = ([], 0)
add_bytes (b ∷ bs) [] = (b ∷ bs, 0)
add_bytes (b ∷ bs) (k ∷ ks) =
    let (r, c) = add_bytes bs ks in ((c + (b + k)) % 256 ∷ r, (c + (b + k)) / 256)

-- `num_as_nonce`
abbrev pub num_as_nonce : ℕ → ℕ → List ℕ
num_as_nonce size num = replicate (size - 4) 0 ++ be32 num

unfoldable pub increment_nonce_number : List ℕ → ℕ → List ℕ
unfolding add_bytes
increment_nonce_number nonce num = (add_bytes nonce (num_as_nonce (length nonce) num)).0

-- toxcore/net_crypto.c: the lowest two bytes, in network order.
unfoldable pub get_nonce_uint16 : List ℕ → ℕ
get_nonce_uint16 nonce = of_be 0 (drop (length nonce - 2) nonce)
