-- ===== src/Messenger/Files/Steps.antt =====
-- toxcore/Messenger.c: `num_sending_files` through `file_data` and `file_seek`.
use insert_project_name_here.Base.{
  ℕ, ◌<◌, ◌≡◌, refl, sym, ap, ◌∙◌, true, false, not, Option, none, some, List, arith, length, leb,
  ◌==◌, if_fst, be64,
}
use insert_project_name_here.NetCrypto.Connection.{CryptoBox}
use insert_project_name_here.Messenger.Files.{
  is_none, is_not_accepted, FileTransfers, Friend, set_receiving, call, Env, write_packet,
  FileEvent,
}
use insert_project_name_here.Messenger.Files.Send.{
  is_receiving, slot_of, send_file_control_packet, file_seek, data_error, data_transfer, data_sent,
  send_file_data_packet, file_data,
}
use insert_project_name_here.Messenger.Files.Counting.{
  Counted, Same, Same-Counted, send_file_control_packet-Same,
}
use insert_project_name_here.Messenger.Files.Balance.{no_error, kept-Counted}

pub call-Counted : (e : FileEvent) (f : Friend) → Counted f → Counted (call e f)
call-Counted e f w = Same-Counted f (call e f) (refl, refl) w

pub set_receiving-Counted :
    (f : Friend) (i : ℕ) (ft : FileTransfers) → Counted f → Counted (set_receiving f i ft)
unfolding set_receiving
set_receiving-Counted f i ft w = Same-Counted f (set_receiving f i ft) (refl, refl) w

module _ (box : CryptoBox) where
  data_error-used :
      (f : Friend) (i position len : ℕ)
      → data_error box f i position len ≡ 0
      → (i < 256) × (is_none (f.file_sending i).status ≡ false)
  unfolding data_error
  data_error-used f i position len e = (ground (arith, e), ground (arith, e))

  data_transfer-used :
      (ft : FileTransfers) (len number : ℕ)
      → is_none ft.status ≡ false
      → is_none (data_transfer box ft len number).status ≡ false
  unfolding data_transfer
  data_transfer-used ft len number e = ground (arith, e)

  data_sent-Counted :
      (f g : Friend) (i len : ℕ) (number : Option ℕ)
      → Same f g
      → i < 256
      → is_none (f.file_sending i).status ≡ false
      → Counted f
      → Counted (data_sent box i (f.file_sending i) len g number).0
  unfolding data_sent
  data_sent-Counted f g i len none same h e w = Same-Counted f g same w
  data_sent-Counted f g i len (some number) same h e w =
      let old : g.file_sending i ≡ f.file_sending i = ap (λ (s : ℕ → FileTransfers). s i) same.0 in
      kept-Counted g i (data_transfer box (f.file_sending i) len number) h
        (rw old (e ∙ sym (data_transfer-used (f.file_sending i) len number e)))
        (Same-Counted f g same w)

  pub file_data-Counted :
      (env : Env) (f : Friend) (i position : ℕ) (bytes : List ℕ)
      → Counted f
      → Counted (file_data box env f i position bytes).0
  unfolding file_data send_file_data_packet write_packet
  file_data-Counted env f i position bytes w =
      let error = data_error box f i position (length bytes) in
      let sent = send_file_data_packet box env f i bytes in
      if_fst Counted (not (error == 0)) (f, error) _ (λ _. w)
        (λ e.
          let u = data_error-used f i position (length bytes) (no_error error e) in
          data_sent-Counted f sent.0 i (length bytes) sent.1 (refl, refl) u.0 u.1 w)

  pub file_seek-Counted :
      (env : Env) (f : Friend) (filenumber position : ℕ)
      → Counted f
      → Counted (file_seek box env f filenumber position).0
  unfolding file_seek
  file_seek-Counted env f filenumber position w =
      let i = slot_of filenumber in
      let ft = f.file_receiving i in
      let sent = send_file_control_packet box env f true i 3 (be64 position) in
      let w' =
        Same-Counted f sent.0 (send_file_control_packet-Same box env f true i 3 (be64 position))
          w in
      if_fst Counted (not f.is_online) (f, 2) _ (λ _. w)
        (λ _.
          if_fst Counted (not (is_receiving filenumber)) (f, 4) _ (λ _. w)
            (λ _.
              if_fst Counted (leb 256 i) (f, 3) _ (λ _. w)
                (λ _.
                  if_fst Counted (is_none ft.status) (f, 3) _ (λ _. w)
                    (λ _.
                      if_fst Counted (not (is_not_accepted ft.status)) (f, 5) _ (λ _. w)
                        (λ _.
                          if_fst Counted (leb ft.size position) (f, 6) _ (λ _. w)
                            (λ _.
                              if_fst Counted sent.1 _ (sent.0, 8)
                                (λ _.
                                  set_receiving-Counted sent.0 i
                                    (record ft { transferred = position }) w')
                                (λ _. w')))))))
