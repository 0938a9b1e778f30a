-- ===== src/Dht/SharedKeys/Cache.antt =====
-- toxcore/DHT.c: `get_shared_key` against the key exchange that it saves.
use insert_project_name_here.Base.{
  ℕ, zero, suc, ◌+◌, ◌-◌, ◌^◌, ◌≤◌, ◌<◌, ◌≡◌, ◌⊎◌, inl, inr, refl, sym, ap, ◌∙◌, Bool, true, ◌&&◌,
  List, arith, ◌==◌, if_elim,
}
use insert_project_name_here.Dht.SharedKeys.{
  SharedKey, SharedKeys, Search, hit, miss, first_index, better, store_key, search_slot, finish,
  get_shared_key,
}

-- The index is one of the slot's.
abbrev pub InSlot : List ℕ → ℕ → Type 0
InSlot public_key j = (first_index public_key ≤ j) × (j < first_index public_key + 4)

module _ (precompute : List ℕ → List ℕ → List ℕ) (verify : List ℕ → List ℕ → Bool)
    (verify_equal : (a b : List ℕ) → verify a b ≡ true → a ≡ b) where
  abbrev pub IsShared : List ℕ → SharedKey → Type 0
  IsShared secret_key key =
      key.stored ≡ true → key.shared_key ≡ precompute key.public_key secret_key

  -- Every stored key is what the key exchange gives.
  abbrev pub IsCache : List ℕ → SharedKeys → Type 0
  IsCache secret_key shared_keys = (j : ℕ) → IsShared secret_key (shared_keys.keys j)

  -- What the loop finds.
  abbrev Found : (ℕ → SharedKey) → List ℕ → Search → Type 0
  Found keys public_key (hit index) =
      InSlot public_key index
      × ((keys index).stored ≡ true)
      × ((keys index).public_key ≡ public_key)
  Found keys public_key (miss num curr) = (num ≡ 2 ^ 32 - 1) ⊎ InSlot public_key curr

  better-InSlot :
      (now : ℕ) (key : SharedKey) (public_key : List ℕ) (index num curr : ℕ)
      → InSlot public_key index
      → (num ≡ 2 ^ 32 - 1) ⊎ InSlot public_key curr
      → ((better now key index num curr).0 ≡ 2 ^ 32 - 1)
        ⊎ InSlot public_key (better now key index num curr).1
  unfolding better
  better-InSlot now key public_key index num curr h w = ground (arith, h, w)

  search_slot-Found :
      (now rounds : ℕ) (keys : ℕ → SharedKey) (public_key : List ℕ) (i num curr : ℕ)
      → i + rounds ≤ 4
      → (num ≡ 2 ^ 32 - 1) ⊎ InSlot public_key curr
      → Found keys public_key (search_slot precompute verify now rounds keys public_key i num curr)
  unfolding search_slot
  search_slot-Found now zero keys public_key i num curr h w = w
  search_slot-Found now (suc rounds) keys public_key i num curr h w =
      let index = first_index public_key + i in
      let inside : InSlot public_key index = (omega (arith, h), omega (arith, h)) in
      let next = better now (keys index) index num curr in
      if_elim (Found keys public_key)
        ((keys index).stored && verify public_key (keys index).public_key) (hit index)
        (search_slot precompute verify now rounds keys public_key (i + 1) next.0 next.1)
        (λ e. (
          inside,
          ground (arith, e),
          sym (verify_equal public_key (keys index).public_key (ground (arith, e))),
        ))
        (λ _.
          search_slot-Found now rounds keys public_key (i + 1) next.0 next.1 (omega (arith, h))
            (better-InSlot now (keys index) public_key index num curr inside w))

  store_key-IsShared :
      (secret_key : List ℕ) (keys : ℕ → SharedKey) (i : ℕ) (key : SharedKey)
      → IsShared secret_key key
      → ((j : ℕ) → IsShared secret_key (keys j))
      → (j : ℕ) → IsShared secret_key (store_key keys i key j)
  unfolding store_key
  store_key-IsShared secret_key keys i key k w j =
      if_elim (IsShared secret_key) (j == i) key (keys j) (λ _. k) (λ _. w j)

  finish-IsCache :
      (now : ℕ) (shared_keys : SharedKeys) (secret_key public_key : List ℕ) (s : Search)
      → Found shared_keys.keys public_key s
      → IsCache secret_key shared_keys
      → ((finish precompute verify now shared_keys secret_key public_key s).1
          ≡ precompute public_key secret_key)
        × IsCache secret_key (finish precompute verify now shared_keys secret_key public_key s).0
  unfolding finish
  finish-IsCache now shared_keys secret_key public_key (hit index) f w = (
    w index f.1 ∙ ap (λ k. precompute k secret_key) f.2,
    store_key-IsShared secret_key shared_keys.keys index _ (w index) w,
  )
  finish-IsCache now shared_keys secret_key public_key (miss num curr) f w = (
    refl,
    if_elim (IsCache secret_key) (num == 2 ^ 32 - 1) shared_keys _ (λ _. w)
        (λ _. store_key-IsShared secret_key shared_keys.keys curr _ (λ _. refl) w),
  )

  -- If the comparison of keys succeeds only on equal keys, and every stored key of the cache is
  -- what the key exchange gives for its public key and a secret key, then `get_shared_key` gives
  -- what the key exchange gives for that secret key and the asked public key, and every stored
  -- key of the cache still is what the key exchange gives.
  pub get_shared_key-precompute :
      (now : ℕ) (shared_keys : SharedKeys) (secret_key public_key : List ℕ)
      → IsCache secret_key shared_keys
      → ((get_shared_key precompute verify now shared_keys secret_key public_key).1
          ≡ precompute public_key secret_key)
        × IsCache secret_key
            (get_shared_key precompute verify now shared_keys secret_key public_key).0
  unfolding get_shared_key
  get_shared_key-precompute now shared_keys secret_key public_key w =
      finish-IsCache now shared_keys secret_key public_key _
        (search_slot-Found now 4 shared_keys.keys public_key 0 (2 ^ 32 - 1) 0 (omega arith)
          (inl refl))
        w

  store_key_other :
      (keys : ℕ → SharedKey) (public_key : List ℕ) (i : ℕ) (key : SharedKey) (j : ℕ)
      → InSlot public_key i
      → ¬ (InSlot public_key j)
      → store_key keys i key j ≡ keys j
  unfolding store_key
  store_key_other keys public_key i key j inside n =
      if_elim (λ (k : SharedKey). k ≡ keys j) (j == i) key (keys j)
        (λ e.
          let same : j ≡ i = ground (arith, e) in
          absurd (n (omega (arith, same, inside.0), omega (arith, same, inside.1))))
        (λ _. refl)

  finish_others :
      (now : ℕ) (shared_keys : SharedKeys) (secret_key public_key : List ℕ) (s : Search) (j : ℕ)
      → Found shared_keys.keys public_key s
      → ¬ (InSlot public_key j)
      → (finish precompute verify now shared_keys secret_key public_key s).0.keys j
        ≡ shared_keys.keys j
  unfolding finish
  finish_others now shared_keys secret_key public_key (hit index) j f n =
      store_key_other shared_keys.keys public_key index _ j f.0 n
  finish_others now shared_keys secret_key public_key (miss num curr) j f n =
      if_elim (λ (c : SharedKeys). c.keys j ≡ shared_keys.keys j) (num == 2 ^ 32 - 1) shared_keys _
        (λ _. refl)
        (λ e. elim f [
          | inl q ↦ absurd (ground (arith, q, e))
          | inr inside ↦ store_key_other shared_keys.keys public_key curr _ j inside n
        ])

  -- If the comparison of keys succeeds only on equal keys, `get_shared_key` changes no key of the
  -- cache outside of the four whose first index is four times the byte 30 of the public key.
  pub get_shared_key_others :
      (now : ℕ) (shared_keys : SharedKeys) (secret_key public_key : List ℕ) (j : ℕ)
      → ¬ (InSlot public_key j)
      → (get_shared_key precompute verify now shared_keys secret_key public_key).0.keys j
        ≡ shared_keys.keys j
  unfolding get_shared_key
  get_shared_key_others now shared_keys secret_key public_key j n =
      finish_others now shared_keys secret_key public_key _ j
        (search_slot-Found now 4 shared_keys.keys public_key 0 (2 ^ 32 - 1) 0 (omega arith)
          (inl refl))
        n
