-- ===== src/Msi/Codec.antt =====
-- toxav/msi.c: `msg_parse_in` on what `send_message` writes, and on any bytes.
use insert_project_name_here.Base.{
  ℕ, ◌-◌, ◌≤◌, ◌<◌, ◌≡◌, ◌≢◌, refl, true, Option-cases, inl, inr, ◌∙◌, Option, none, some, List, [],
  ◌∷◌, ◌++◌, arith, length,
}
use mathlib.Core.Path.{subst, sym, ap}
use insert_project_name_here.Msi.Message.{
  MsiRequest, requ_init, requ_push, requ_pop, MsiError, e_none, MsiMessage, request_code,
  error_code, request_of, error_of, message_bytes, message_bytes_with, parsed, overrun, set_header,
  parse_headers, msg_parse_in, ends_in_zero, no_headers, msg_init, msg_parse_header_out,
  error_header, capabilities_header,
}

request_of-request_code : (r : MsiRequest) → request_of (request_code r) ≡ some r
request_of-request_code requ_init = refl
request_of-request_code requ_push = refl
request_of-request_code requ_pop = refl

error_of-error_code : (e : MsiError) → error_of (error_code e) ≡ some e
error_of-error_code e_none = refl
error_of-error_code _ = refl

parse_headers-header :
    (id v : ℕ) (rest : List ℕ) (room : ℕ) (m m' : MsiMessage)
    → 0 < id
    → id ≤ 3
    → 4 ≤ room
    → set_header id v m ≡ some m'
    → parse_headers (id ∷ 1 ∷ v ∷ rest) room m ≡ parse_headers rest (room - 3) m'
unfolding parse_headers
parse_headers-header id v rest room m m' h k l e = ground arith

set_header-error :
    (e : MsiError) (m : MsiMessage)
    → set_header 2 (error_code e) m ≡ some (record m { error = some e })
unfolding set_header
set_header-error e m = rw (error_of-error_code e)

set_header-request :
    (r : MsiRequest) (m : MsiMessage)
    → set_header 1 (request_code r) m ≡ some (record m { request = some r })
unfolding set_header
set_header-request r m = rw (request_of-request_code r)

set_header-capabilities :
    (c : ℕ) (m : MsiMessage) → set_header 3 c m ≡ some (record m { capabilities = some c })
unfolding set_header
set_header-capabilities c m = refl

parse_headers-end :
    (room : ℕ) (m : MsiMessage) {r : MsiRequest}
    → m.request ≡ some r
    → parse_headers (0 ∷ []) room m ≡ parsed m
unfolding parse_headers
parse_headers-end room m e = rw e

abbrev tail_bytes : Option MsiError → Option ℕ → List ℕ
unfolding msg_parse_header_out
tail_bytes e c = error_header e ++ (capabilities_header c ++ (0 ∷ []))

-- The bytes of the optional headers, read after the request.
parse_headers-rest :
    (r : MsiRequest) (e : Option MsiError) (c : Option ℕ) (room : ℕ)
    → length (tail_bytes e c) ≤ room
    → parse_headers (tail_bytes e c) room (msg_init r)
      ≡ parsed (record { request = some r; error = e; capabilities = c })
unfolding msg_parse_header_out
parse_headers-rest r none none room h = parse_headers-end room _ refl
parse_headers-rest r (some e) none room h =
    parse_headers-header 2 (error_code e) _ room _ _ (omega arith) (omega arith) (omega arith)
      (set_header-error e _)
    ∙ parse_headers-end _ _ refl
parse_headers-rest r none (some c) room h =
    parse_headers-header 3 c _ room _ _ (omega arith) (omega arith) (omega arith)
      (set_header-capabilities c _)
    ∙ parse_headers-end _ _ refl
parse_headers-rest r (some e) (some c) room h =
    parse_headers-header 2 (error_code e) _ room _ _ (omega arith) (omega arith) (omega arith)
      (set_header-error e _)
    ∙ (parse_headers-header 3 c _ (room - 3) _ _ (omega arith) (omega arith) (omega arith)
          (set_header-capabilities c _)
        ∙ parse_headers-end _ _ refl)

abbrev all_bytes : MsiRequest → Option MsiError → Option ℕ → List ℕ
unfolding msg_parse_header_out
all_bytes r e c = 1 ∷ 1 ∷ request_code r ∷ tail_bytes e c

ends_in_zero-all_bytes :
    (r : MsiRequest) (e : Option MsiError) (c : Option ℕ) → ends_in_zero (all_bytes r e c) ≡ true
unfolding msg_parse_header_out
ends_in_zero-all_bytes r none none = refl
ends_in_zero-all_bytes r none (some c) = refl
ends_in_zero-all_bytes r (some e) none = refl
ends_in_zero-all_bytes r (some e) (some c) = refl

length-tail_bytes : (e : Option MsiError) (c : Option ℕ) → 1 ≤ length (tail_bytes e c)
unfolding msg_parse_header_out
length-tail_bytes none none = omega arith
length-tail_bytes none (some c) = omega arith
length-tail_bytes (some e) c = omega arith

msg_parse_in-all_bytes :
    (r : MsiRequest) (e : Option MsiError) (c : Option ℕ)
    → msg_parse_in (all_bytes r e c)
      ≡ parsed (record { request = some r; error = e; capabilities = c })
unfolding msg_parse_in msg_parse_header_out
msg_parse_in-all_bytes r e c = rw (ends_in_zero-all_bytes r e c) (
    parse_headers-header 1 (request_code r) (tail_bytes e c) _ no_headers _ (omega arith)
      (omega arith) (omega (arith, length-tail_bytes e c)) (set_header-request r no_headers)
    ∙ parse_headers-rest r e c (length (all_bytes r e c) - 3) (omega arith))

print-parse :
    (q : Option MsiRequest) (m : MsiMessage) {bytes : List ℕ}
    → m.request ≡ q
    → message_bytes_with q m ≡ some bytes
    → msg_parse_in bytes ≡ parsed m
unfolding msg_parse_header_out
print-parse none m e p = cc
print-parse (some r) m {bytes} e p =
    subst (λ bs. msg_parse_in bs ≡ parsed m) (cc)
      (msg_parse_in-all_bytes r m.error m.capabilities
        ∙ ap (λ q. parsed (record m { request = q })) (sym e))

-- Every message that `send_message` can print is parsed back by `msg_parse_in` to the same
-- message.
pub message_bytes-msg_parse_in :
    (m : MsiMessage) {bytes : List ℕ} → message_bytes m ≡ some bytes → msg_parse_in bytes ≡ parsed m
unfolding message_bytes
message_bytes-msg_parse_in m p = print-parse m.request m refl p

parse_headers-inside :
    (bytes : List ℕ) (room : ℕ) (m : MsiMessage)
    → ends_in_zero bytes ≡ true
    → length bytes ≡ room
    → parse_headers bytes room m ≢ overrun
unfolding parse_headers
parse_headers-inside [] room m e h = ground arith
parse_headers-inside (b ∷ []) room m e h = ground arith
parse_headers-inside (b ∷ s ∷ []) room m e h = ground arith
parse_headers-inside (b ∷ s ∷ v ∷ []) room m e h = ground arith
parse_headers-inside (b ∷ s ∷ v ∷ c ∷ rest) room m e h = elim (Option-cases (set_header b v m)) [
  | inl z ↦ ground arith
  | inr (m', z) ↦ ground (arith, parse_headers-inside (c ∷ rest) (room - 3) m')
]

-- On any bytes `msg_parse_in` ends without a read outside of them.
pub msg_parse_in-inside : (bytes : List ℕ) → msg_parse_in bytes ≢ overrun
unfolding msg_parse_in
msg_parse_in-inside bytes = ground (arith, parse_headers-inside bytes (length bytes) no_headers)
