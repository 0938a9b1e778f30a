-- ===== src/NetCrypto/PacketsArray/Slots.antt =====
-- toxcore/net_crypto.c: which slots the clearing loop of a packet window empties.
use insert_project_name_here.Base.{
  ℕ, zero, suc, ◌+◌, ◌-◌, ◌%◌, ◌^◌, ◌<◌, ◌≡◌, none, arith, u32, sub32, ltb, if◌then◌else◌,
}
use insert_project_name_here.NetCrypto.PacketsArray.{Slots, buffer_size, store, clear_slots}

-- How far slot `j` lies behind the slot of packet number `i`, going round.
abbrev pub behind : ℕ → ℕ → ℕ
behind i j = (j + buffer_size - i % buffer_size) % buffer_size

pub clear_slots-end :
    (k i number : ℕ) (f : Slots)
    → i < 2 ^ 32
    → number < 2 ^ 32
    → k ≡ sub32 number i
    → (clear_slots k i number f).1 ≡ number
unfolding clear_slots
clear_slots-end zero i number f hi hn e = omega arith
clear_slots-end (suc k) i number f hi hn e =
    ground (arith, clear_slots-end k (u32 (i + 1)) number (store f (i % buffer_size) none))

pub clear_slots_lem :
    (k i number : ℕ) (f : Slots) (j : ℕ)
    → i < 2 ^ 32
    → number < 2 ^ 32
    → k ≡ sub32 number i
    → j < buffer_size
    → (clear_slots k i number f).0 j ≡ (if ltb (behind i j) k then none else f j)
unfolding clear_slots
clear_slots_lem zero i number f j hi hn e hj = ground arith
clear_slots_lem (suc k) i number f j hi hn e hj =
    ground (arith, clear_slots_lem k (u32 (i + 1)) number (store f (i % buffer_size) none) j)
