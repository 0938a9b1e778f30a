-- ===== src/Messenger/Files/Counting.antt =====
-- toxcore/Messenger.c: `num_sending_files` against the transfers that are being sent.
use insert_project_name_here.Base.{
  ℕ, zero, suc, ◌+◌, ◌≤◌, ◌<◌, ◌≡◌, ◌≢◌, inl, inr, refl, Bool, true, false, not, Bool-cases, ◌||◌,
  List, ◌∷◌, ◌++◌, arith, length, ltb, leb, ◌==◌, ==_apart, if◌then◌else◌, if_fst, u32, be32, be64,
}
use native.Mathlib.Decide.{ℕ_discrete}
use insert_project_name_here.NetCrypto.Connection.{CryptoBox}
use insert_project_name_here.NetCrypto.Connection.Send.{max_crypto_data_size}
use insert_project_name_here.Messenger.Files.{
  is_none, FileTransfers, Friend, set_slot, set_sending, Env, write_packet, write_cryptpacket_id,
}
use insert_project_name_here.Messenger.Files.Send.{
  as_byte, free_slot, file_sendrequest, new_filesender, send_file_control_packet,
}

abbrev pub one_of : FileTransfers → ℕ
one_of ft = if is_none ft.status then 0 else 1

-- The used transfers among the first `n`.
unfoldable pub used : ℕ → (ℕ → FileTransfers) → ℕ
used zero slots = 0
used (suc n) slots = used n slots + one_of (slots n)

pub used_bound : (n : ℕ) (slots : ℕ → FileTransfers) → used n slots ≤ n
unfolding used
used_bound zero slots = omega arith
used_bound (suc n) slots = ground (arith, used_bound n slots)

used-set_slot_beyond :
    (n i : ℕ) (slots : ℕ → FileTransfers) (ft : FileTransfers)
    → n ≤ i
    → used n (set_slot slots i ft) ≡ used n slots
unfolding used set_slot
used-set_slot_beyond zero i slots ft h = refl
used-set_slot_beyond (suc n) i slots ft h =
    ground (arith, h, used-set_slot_beyond n i slots ft (omega (arith, h)))

set_slot_self :
    (i : ℕ) (slots : ℕ → FileTransfers) (ft : FileTransfers) → set_slot slots i ft i ≡ ft
unfolding set_slot
set_slot_self i slots ft = ground arith

set_slot_other :
    (i j : ℕ) (slots : ℕ → FileTransfers) (ft : FileTransfers)
    → j ≢ i
    → set_slot slots i ft j ≡ slots j
unfolding set_slot
set_slot_other i j slots ft h = ground (arith, h)

pub used-set_slot :
    (n i : ℕ) (slots : ℕ → FileTransfers) (ft : FileTransfers)
    → i < n
    → used n (set_slot slots i ft) + one_of (slots i) ≡ used n slots + one_of ft
unfolding used
used-set_slot zero i slots ft h = absurd (omega (arith, h))
used-set_slot (suc n) i slots ft h = elim (ℕ_discrete n i) [
  | yes q ↦
      rw (q, set_slot_self i slots ft, used-set_slot_beyond i i slots ft (omega arith))
        (omega arith)
  | no q ↦
      rw (set_slot_other i n slots ft q)
        (omega (arith, used-set_slot n i slots ft (omega (arith, h, q))))
]

-- The count is that of the transfers in use.
abbrev pub Counted : Friend → Type 0
Counted f = f.num_sending_files ≡ used 256 f.file_sending

pub free_slot_lem :
    (n i : ℕ) (slots : ℕ → FileTransfers)
    → (free_slot n i slots ≤ i + n)
      × (free_slot n i slots ≢ i + n → is_none (slots (free_slot n i slots)).status ≡ true)
unfolding free_slot
free_slot_lem zero i slots = (omega arith, λ h. absurd (h (omega arith)))
free_slot_lem (suc n) i slots =
    let rest = free_slot_lem n (i + 1) slots in
    elim (Bool-cases (is_none (slots i).status)) [
      | inl e ↦ rw (e, free_slot) (omega arith, λ _. e)
      | inr e ↦ rw (e, free_slot) (omega (arith, rest.0), λ h. rest.1 (λ q. h (omega (arith, q))))
    ]

below : (a b : ℕ) → a ≤ b → a ≢ b → a < b
below a b h n = omega (arith, h, n)

-- A transfer is changed, and the count with it.
pub set_sending-Counted :
    (f : Friend) (i count : ℕ) (ft : FileTransfers)
    → i < 256
    → count + one_of (f.file_sending i) ≡ f.num_sending_files + one_of ft
    → Counted f
    → Counted (record (set_sending f i ft) { num_sending_files = count })
unfolding set_sending
set_sending-Counted f i count ft h e w =
    omega (arith, w, e, used-set_slot 256 i f.file_sending ft h)

-- The transfers that are sent, and their count, are untouched.
abbrev pub Same : Friend → Friend → Type 0
Same f g = (g.file_sending ≡ f.file_sending) × (g.num_sending_files ≡ f.num_sending_files)

pub Same-Counted : (f g : Friend) → Same f g → Counted f → Counted g
Same-Counted f g e w = rw (e.0, e.1) w

module _ (box : CryptoBox) where
  write_cryptpacket_id-Same :
      (env : Env) (f : Friend) (packet_id : ℕ) (bytes : List ℕ) (congestion_control : Bool)
      → Same f (write_cryptpacket_id box env f packet_id bytes congestion_control).0
  unfolding write_cryptpacket_id write_packet
  write_cryptpacket_id-Same env f packet_id bytes congestion_control =
      if_fst (Same f) (leb (max_crypto_data_size box) (length bytes) || not f.is_online) (f, false)
        _ (λ _. (refl, refl)) (λ _. (refl, refl))

  pub send_file_control_packet-Same :
      (env : Env) (f : Friend) (sr : Bool) (i control : ℕ) (bytes : List ℕ)
      → Same f (send_file_control_packet box env f sr i control bytes).0
  unfolding send_file_control_packet
  send_file_control_packet-Same env f sr i control bytes =
      if_fst (Same f) (ltb (max_crypto_data_size box) (1 + 3 + length bytes)) (f, true) _
        (λ _. (refl, refl))
        (λ _. write_cryptpacket_id-Same env f 81 (as_byte sr ∷ i ∷ control ∷ bytes) false)

  file_sendrequest-Same :
      (env : Env) (f : Friend) (i file_type filesize : ℕ) (file_id filename : List ℕ)
      → Same f (file_sendrequest box env f i file_type filesize file_id filename).0
  unfolding file_sendrequest
  file_sendrequest-Same env f i file_type filesize file_id filename =
      if_fst (Same f) (ltb 255 (length filename)) (f, false) _ (λ _. (refl, refl))
        (λ _.
          write_cryptpacket_id-Same env f 80
            (i ∷ (be32 file_type ++ (be64 filesize ++ (file_id ++ filename)))) false)

  -- A transfer in a free slot is counted.
  offered-Counted :
      (f g : Friend) (i : ℕ) (ft : FileTransfers)
      → Same f g
      → i < 256
      → is_none (f.file_sending i).status ≡ true
      → is_none ft.status ≡ false
      → Counted f
      → Counted (record (set_sending g i ft) { num_sending_files = u32 (g.num_sending_files + 1) })
  offered-Counted f g i ft same h free in_use w =
      let w' = Same-Counted f g same w in
      let few = used_bound 256 g.file_sending in
      let free' : is_none (g.file_sending i).status ≡ true = rw same.0 free in
      set_sending-Counted g i _ ft h (ground (arith, free', in_use, w', few)) w'

  pub new_filesender-Counted :
      (env : Env) (f : Friend) (file_type filesize : ℕ) (file_id filename : List ℕ)
      → Counted f
      → Counted (new_filesender box env f file_type filesize file_id filename).0
  unfolding new_filesender
  new_filesender-Counted env f file_type filesize file_id filename w =
      let i = free_slot 256 0 f.file_sending in
      let slot = free_slot_lem 256 0 f.file_sending in
      let sent = file_sendrequest box env f i file_type filesize file_id filename in
      let same = file_sendrequest-Same env f i file_type filesize file_id filename in
      if_fst Counted (ltb 255 (length filename)) (f, inr 2) _ (λ _. w)
        (λ _.
          if_fst Counted (i == 256) (f, inr 3) _ (λ _. w)
            (λ e.
              if_fst Counted sent.1 _ (sent.0, inr 4)
                (λ _.
                  offered-Counted f sent.0 i _ same (below i 256 slot.0 (==_apart i 256 e))
                    (slot.1 (==_apart i 256 e)) refl w)
                (λ _. Same-Counted f sent.0 same w)))
