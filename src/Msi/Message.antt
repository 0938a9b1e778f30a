-- ===== src/Msi/Message.antt =====
-- toxav/msi.c: the messages of the call protocol, their parser and their printer.
use insert_project_name_here.Base.{
  ℕ, zero, suc, ◌-◌, Bool, false, Option, none, some, List, [], ◌∷◌, ◌++◌, ltb, ◌==◌, if◌then◌else◌,
  length,
}

-- `MSIRequest`: requ_init, requ_push, requ_pop
pub data MsiRequest : Type 0 where
  requ_init requ_push requ_pop : MsiRequest

-- `MSIError`
pub data MsiError : Type 0 where
  e_none e_invalid_message e_invalid_param e_invalid_state e_stray_message e_system e_handle
        e_undisclosed :
      MsiError

abbrev pub request_code : MsiRequest → ℕ
request_code requ_init = 0
request_code requ_push = 1
request_code requ_pop = 2

-- `CHECK_ENUM_HIGH(it, requ_pop)`, and the cast to the enum.
abbrev pub request_of : ℕ → Option MsiRequest
request_of zero = some requ_init
request_of (suc zero) = some requ_push
request_of (suc (suc zero)) = some requ_pop
request_of (suc (suc (suc n))) = none

abbrev pub error_code : MsiError → ℕ
error_code e_none = 0
error_code e_invalid_message = 1
error_code e_invalid_param = 2
error_code e_invalid_state = 3
error_code e_stray_message = 4
error_code e_system = 5
error_code e_handle = 6
error_code e_undisclosed = 7

-- `CHECK_ENUM_HIGH(it, msi_EUndisclosed)`, and the cast to the enum.
abbrev pub error_of : ℕ → Option MsiError
error_of n =
    if n == 0
    then some e_none
    else if n == 1
    then some e_invalid_message
    else if n == 2
    then some e_invalid_param
    else if n == 3
    then some e_invalid_state
    else if n == 4
    then some e_stray_message
    else if n == 5
    then some e_system
    else if n == 6
    then some e_handle
    else if n == 7
    then some e_undisclosed
    else none

-- `MSIMessage`: a header whose `exists` is false is `none`.
pub record MsiMessage : Type 0 where
  pub request : Option MsiRequest
  pub error : Option MsiError
  pub capabilities : Option ℕ  -- uint8_t

abbrev pub no_headers : MsiMessage
no_headers = record { request = none; error = none; capabilities = none }

-- `msg_init`
abbrev pub msg_init : MsiRequest → MsiMessage
msg_init r = record no_headers { request = some r }

-- IDRequest, IDError and IDCapabilities
abbrev pub id_request : ℕ
id_request = 1

abbrev pub id_error : ℕ
id_error = 2

abbrev pub id_capabilities : ℕ
id_capabilities = 3

-- `msg_parse_header_out` for a value of one byte.
unfoldable pub msg_parse_header_out : ℕ → ℕ → List ℕ
msg_parse_header_out id value = id ∷ 1 ∷ value ∷ []

abbrev pub error_header : Option MsiError → List ℕ
unfolding msg_parse_header_out
error_header none = []
error_header (some e) = msg_parse_header_out id_error (error_code e)

abbrev pub capabilities_header : Option ℕ → List ℕ
unfolding msg_parse_header_out
capabilities_header none = []
capabilities_header (some c) = msg_parse_header_out id_capabilities c

-- The bytes that `send_message` hands to the messenger; `none` is its early return of -1.
abbrev pub message_bytes_with : Option MsiRequest → MsiMessage → Option (List ℕ)
unfolding msg_parse_header_out
message_bytes_with none m = none
message_bytes_with (some r) m = some (
    msg_parse_header_out id_request (request_code r)
    ++ (error_header m.error ++ (capabilities_header m.capabilities ++ (0 ∷ []))))

unfoldable pub message_bytes : MsiMessage → Option (List ℕ)
unfolding msg_parse_header_out
message_bytes m = message_bytes_with m.request m

-- The results of the parser: a message, -1, or a read outside of the data.
pub data Parsed : Type 0 where
  parsed : MsiMessage → Parsed
  invalid : Parsed
  overrun : Parsed

-- The effect of one header with the value `v`, or `none` for a value that is refused.
unfoldable pub set_header : ℕ → ℕ → MsiMessage → Option MsiMessage
set_header id v m =
    if id == id_request
    then elim (request_of v) [ none ↦ none | some r ↦ some (record m { request = some r }) ]
    else if id == id_error
    then elim (error_of v) [ none ↦ none | some e ↦ some (record m { error = some e }) ]
    else if id == id_capabilities
    then some (record m { capabilities = some v })
    else none

abbrev pub check_request : Option MsiRequest → MsiMessage → Parsed
check_request none m = invalid
check_request (some r) m = parsed m

-- The loop `while (*it)`. `room` is `size_constraint`; `CHECK_SIZE` subtracts 3 and wants at least 1.
unfoldable pub parse_headers : List ℕ → ℕ → MsiMessage → Parsed
parse_headers [] room m = overrun
parse_headers (b ∷ []) room m =
    if b == 0
    then check_request m.request m
    else if ltb id_capabilities b
    then invalid
    else if ltb room 4
    then invalid
    else overrun
parse_headers (b ∷ s ∷ []) room m =
    if b == 0
    then check_request m.request m
    else if ltb id_capabilities b
    then invalid
    else if ltb room 4
    then invalid
    else if s == 1
    then overrun
    else invalid
parse_headers (b ∷ s ∷ v ∷ rest) room m =
    if b == 0
    then check_request m.request m
    else if ltb id_capabilities b
    then invalid
    else if ltb room 4
    then invalid
    else if s == 1
    then elim (set_header b v m) [ none ↦ invalid | some m' ↦ parse_headers rest (room - 3) m' ]
    else invalid

-- The byte at the end of the data is 0.
abbrev pub ends_in_zero : List ℕ → Bool
ends_in_zero [] = false
ends_in_zero (b ∷ []) = b == 0
ends_in_zero (b ∷ c ∷ r) = ends_in_zero (c ∷ r)

-- `msg_parse_in`
unfoldable pub msg_parse_in : List ℕ → Parsed
unfolding parse_headers
msg_parse_in bytes =
    if ends_in_zero bytes then parse_headers bytes (length bytes) no_headers else invalid
