-- ===== src/Dht/SharedKeys.antt =====
-- toxcore/DHT.c, `get_shared_key`: the cache of the keys that the DHT shares with other nodes. The
-- key exchange and the comparison of keys, both of the cryptographic library, are parameters.
pub mod Cache
use insert_project_name_here.Base.{
  ℕ, zero, suc, ◌+◌, ◌*◌, ◌-◌, ◌^◌, Bool, true, false, ◌&&◌, List, [], ◌∷◌, drop, u32, ltb, ◌==◌,
  if◌then◌else◌,
}
use insert_project_name_here.PingArray.{is_timeout}

-- An element of `keys`.
pub record SharedKey : Type 0 where
  pub public_key : List ℕ
  pub shared_key : List ℕ
  pub times_requested : ℕ  -- uint32_t
  pub stored : Bool
  pub time_last_requested : ℕ  -- uint64_t

-- `Shared_Keys`: the keys below 256 * `max_keys_per_slot` are the array's.
pub record SharedKeys : Type 0 where
  pub keys : ℕ → SharedKey

-- MAX_KEYS_PER_SLOT and KEYS_TIMEOUT
abbrev pub max_keys_per_slot : ℕ
max_keys_per_slot = 4

abbrev pub keys_timeout : ℕ
keys_timeout = 600

-- `public_key[30] * MAX_KEYS_PER_SLOT`
abbrev pub head_or_zero : List ℕ → ℕ
head_or_zero [] = 0
head_or_zero (b ∷ bs) = b

abbrev pub first_index : List ℕ → ℕ
first_index public_key = head_or_zero (drop 30 public_key) * max_keys_per_slot

-- `num` and `curr` after a round for an index whose key is not the wanted one.
unfoldable pub better : ℕ → SharedKey → ℕ → ℕ → ℕ → ℕ × ℕ
better now key index num curr =
    if num == 0
    then (num, curr)
    else if key.stored
    then if is_timeout now key.time_last_requested keys_timeout
      then (0, index)
      else if ltb key.times_requested num
      then (key.times_requested, index)
      else (num, curr)
    else (0, index)

-- How the loop ends: at a stored key, or with `num` and `curr`.
pub data Search : Type 0 where
  hit : (index : ℕ) → Search
  miss : (num curr : ℕ) → Search

unfoldable pub store_key : (ℕ → SharedKey) → ℕ → SharedKey → ℕ → SharedKey
store_key keys i key = λ j. if j == i then key else keys j

module _ (precompute : List ℕ → List ℕ → List ℕ) (verify : List ℕ → List ℕ → Bool) where
  -- The loop with `rounds` rounds left.
  unfoldable pub search_slot : ℕ → ℕ → (ℕ → SharedKey) → List ℕ → ℕ → ℕ → ℕ → Search
  unfolding better
  search_slot now zero keys public_key i num curr = miss num curr
  search_slot now (suc rounds) keys public_key i num curr =
      let index = first_index public_key + i in
      let next = better now (keys index) index num curr in
      let rest = search_slot now rounds keys public_key (i + 1) next.0 next.1 in
      if (keys index).stored && verify public_key (keys index).public_key then hit index else rest

  -- What follows the loop, or the return inside of it.
  unfoldable pub finish : ℕ → SharedKeys → List ℕ → List ℕ → Search → SharedKeys × List ℕ
  unfolding store_key
  finish now shared_keys secret_key public_key (hit index) =
      let key = shared_keys.keys index in
      (
        record {
          keys = store_key shared_keys.keys index (record key {
            times_requested = u32 (key.times_requested + 1);
            time_last_requested = now;
          });
        },
        key.shared_key,
      )
  finish now shared_keys secret_key public_key (miss num curr) =
      let shared = precompute public_key secret_key in
      (
        if num == 2 ^ 32 - 1 then shared_keys else record {
          keys = store_key shared_keys.keys curr (record {
            public_key = public_key;
            shared_key = shared;
            times_requested = 1;
            stored = true;
            time_last_requested = now;
          });
        },
        shared,
      )

  -- The cache and the shared key. `now` is the clock.
  unfoldable pub get_shared_key : ℕ → SharedKeys → List ℕ → List ℕ → SharedKeys × List ℕ
  unfolding search_slot finish
  get_shared_key now shared_keys secret_key public_key =
      finish now shared_keys secret_key public_key
        (search_slot now max_keys_per_slot shared_keys.keys public_key 0 (2 ^ 32 - 1) 0)
