-- ===== src/Util/Status.antt =====
-- util/status.hpp: the result of a fallible operation, a code and a message.
use aevum.Prelude.{Bool, true, false, Str, ◌++◌, [], lit}

pub data StatusCode : Type 0 where
  k_ok k_not_found k_corruption k_not_supported k_invalid_argument k_io_error k_unauthorized :
      StatusCode

pub record Status : Type 0 where
  pub code : StatusCode
  pub message : Str

abbrev pub ok : Status
ok = record { code = k_ok; message = [] }

abbrev pub not_found : Str → Status
not_found m = record { code = k_not_found; message = m }

abbrev pub corruption : Str → Status
corruption m = record { code = k_corruption; message = m }

abbrev pub invalid_argument : Str → Status
invalid_argument m = record { code = k_invalid_argument; message = m }

abbrev pub io_error : Str → Status
io_error m = record { code = k_io_error; message = m }

-- Status::ok()
abbrev code_ok : StatusCode → Bool
code_ok k_ok = true
code_ok _ = false

abbrev pub is_ok : Status → Bool
is_ok s = code_ok s.code

-- The label that the switch in `to_string` picks.
label : StatusCode → Str
label k_ok = lit "Unknown Error: "
label k_not_found = lit "Not Found: "
label k_corruption = lit "Corruption: "
label k_not_supported = lit "Not Supported: "
label k_invalid_argument = lit "Invalid Argument: "
label k_io_error = lit "IO Error: "
label k_unauthorized = lit "Unauthorized: "

with_code : StatusCode → Str → Str
with_code k_ok m = lit "OK"
with_code c m = label c ++ m

-- Status::to_string()
pub to_string : Status → Str
unfolding with_code label
to_string s = with_code s.code s.message
