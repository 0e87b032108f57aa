-- ===== src/Shell/Command.antt =====
-- `process_command` of shell/parser/command_parser.cpp. simdjson and the regular expression of
-- `db.create_user` are the interface `Reader`; what is printed is returned. The exceptions that the
-- handler at the end of the function catches are those of a failed allocation, and are left out.
pub mod RoundTrip
use aevum.Prelude.{
  ℕ, suc, Bool, true, false, not, ◌||◌, ◌&&◌, [], ◌∷◌, ◌++◌, List, map, Option, none, some, Str, ℤ,
  pos, lit, length, take, drop, is_empty, str_eq, starts_with, int_to_string, to_decimal,
  if◌then◌else◌, ◌==◌,
}
use aevum.Util.Strings.{trim, cut}
use aevum.Client.{AevumClient, build_payload}
use aevum.Client
use aevum.Shell.{find_matching_brace}

pub record Reader : Type 1 where
  pub Elem : Type 0
  -- parser.parse: the element, or the message of the error
  pub parse : Str → Option Elem
  pub parse_error : Str → Str
  -- doc[key].get_string() and doc[key].get_int64(), where `none` is any error
  pub get_string : Elem → Str → Option Str
  pub get_int64 : Elem → Str → Option ℤ
  -- doc["metrics"][key].get_int64()
  pub metric : Elem → Str → Option ℤ
  -- doc["data"].get_array(), each item as simdjson::to_string prints it
  pub get_array : Elem → Str → Option (List Str)
  -- the two groups of a match of the whole line with the expression for `db.create_user`
  pub match_user : Str → Option (Str × Str)

-- What is printed on std::cout and std::cerr.
pub data Printed : Type 0 where
  out err : Str → Printed

abbrev pub value_or {ℓ} : {A : Type ℓ} → Option A → A → A
value_or none default_value = default_value
value_or (some value) default_value = value

-- The text without its last byte.
unfoldable pub but_last : Str → Str
but_last [] = []
but_last (c ∷ s) = let rest = but_last s in if is_empty s then [] else c ∷ rest

-- line.back() == ')'
unfoldable pub ends_with : ℕ → Str → Bool
ends_with b [] = false
ends_with b (c ∷ s) = if is_empty s then c == b else ends_with b s

-- A command `db.<collection>.<operation>(<arguments>)`, cut by the positions of the first '.' behind
-- `db.` and of the first '(' behind that; `none` is an invalid format.
pub record Parts : Type 0 where
  pub collection : Str
  pub operation : Str
  pub args_str : Str

cut_arguments : Str → Option (Str × Str) → Option Parts
unfolding ends_with but_last trim
cut_arguments collection none = none
cut_arguments collection (some (operation, behind)) =
    if is_empty collection || not (ends_with b')' behind)
    then none
    else some (record {
      collection = collection;
      operation = operation;
      args_str = trim (but_last behind);
    })

cut_operation : Option (Str × Str) → Option Parts
unfolding cut_arguments cut
cut_operation none = none
cut_operation (some (collection, behind)) = cut_arguments collection (cut b'(' behind)

unfoldable pub cut_command : Str → Option Parts
unfolding cut_operation cut
cut_command line =
    if not (starts_with (lit "db.") line) then none else cut_operation (cut b'.' (drop 3 line))

-- The query of `find`: the object at the start of the arguments, and else all documents.
unfoldable pub find_query : Str → Str
find_query [] = lit "{}"
find_query (c ∷ s) =
    if not (c == b'{') then lit "{}" else elim (find_matching_brace (c ∷ s) 0 b'{' b'}') [
      | none ↦ lit "{}"
      | some query_end ↦ take (suc query_end) (c ∷ s)
    ]

-- args_str.find('{', start), and the text from there on
unfoldable pub from_brace : Str → Option Str
from_brace [] = none
from_brace (c ∷ s) = if c == b'{' then some (c ∷ s) else from_brace s

pub data Update : Type 0 where
  objects : Str → Str → Update
  malformed : Str → Update

update_object : Str → Option Str → Update
update_object query none = malformed (lit "Error: Missing update object in update command.\n")
update_object query (some text) = elim (find_matching_brace text 0 b'{' b'}') [
  | none ↦ malformed (lit "Error: Malformed update object in update command.\n")
  | some update_end ↦ objects query (take (suc update_end) text)
]

-- The two objects of `update`. The search for the second one starts behind the first.
unfoldable pub update_objects : Str → Update
unfolding update_object from_brace
update_objects args_str = elim (find_matching_brace args_str 0 b'{' b'}') [
  | none ↦ malformed (lit "Error: Malformed query object in update command.\n")
  | some query_end ↦
      update_object (take (suc query_end) args_str) (from_brace (drop (suc query_end) args_str))
]

module _ (r : Reader) where
  items : List Str → List Printed
  items [] = []
  items (item ∷ more) = out (lit "  " ++ (item ++ lit "\n")) ∷ items more

  show_found : Option (List Str) → List Printed
  unfolding items
  show_found none = []
  show_found (some found) =
      out (lit "Found " ++ (to_decimal (length found) ++ lit " document(s).\n")) ∷ items found

  -- The summary of an answer with the status `ok`.
  show_ok : Str → r.Elem → List Printed
  unfolding show_found
  show_ok operation doc =
      if str_eq operation (lit "find")
      then show_found (r.get_array doc (lit "data"))
      else if str_eq operation (lit "insert")
      then out (
          lit "Success: Document inserted with _id: \""
          ++ (value_or (r.get_string doc (lit "_id")) [] ++ lit "\".\n"))
        ∷ []
      else if str_eq operation (lit "update")
      then out (
          lit "Success: "
          ++ (int_to_string (value_or (r.get_int64 doc (lit "updated_count")) (pos 0))
              ++ lit " document(s) updated.\n"))
        ∷ []
      else if str_eq operation (lit "delete")
      then out (
          lit "Success: "
          ++ (int_to_string (value_or (r.get_int64 doc (lit "deleted_count")) (pos 0))
              ++ lit " document(s) removed.\n"))
        ∷ []
      else if str_eq operation (lit "count")
      then out (int_to_string (value_or (r.get_int64 doc (lit "count")) (pos 0)) ++ lit "\n") ∷ []
      else out (lit "Success: Operation '" ++ (operation ++ lit "' completed.\n")) ∷ []

  -- doc["status"] is a string, and that string is `ok`.
  status_ok : r.Elem → Bool
  status_ok doc = elim (r.get_string doc (lit "status")) [
    | none ↦ false
    | some status ↦ str_eq status (lit "ok")
  ]

  -- What is printed of an answer.
  unfoldable pub show_response : Str → Str → List Printed
  unfolding show_ok status_ok
  show_response operation response = elim (r.parse response) [
    | none ↦ out (response ++ lit "\n") ∷ []
    | some doc ↦
        if status_ok doc
        then show_ok operation doc
        else err (
            lit "Error: "
            ++ (value_or (r.get_string doc (lit "message")) (lit "An unknown error occurred.")
                ++ lit "\n"))
          ∷ []
  ]

  metric_line : Str → Str → Str → r.Elem → Printed
  metric_line label key end doc =
      out (label ++ (int_to_string (value_or (r.metric doc key) (pos 0)) ++ end))

  show_metrics : Str → List Printed
  unfolding metric_line status_ok
  show_metrics response = elim (r.parse response) [
    | none ↦
        err (lit "Error parsing metrics response: " ++ (r.parse_error response ++ lit "\n")) ∷ []
    | some doc ↦
        if status_ok doc
        then out (lit "\nAevumDB Metrics:\n")
          ∷ (metric_line (lit "  Total Requests: ") (lit "total_requests") (lit "\n") doc
              ∷ (metric_line (lit "  Total Errors: ") (lit "total_errors") (lit "\n") doc
                  ∷ (metric_line (lit "  Active Connections: ") (lit "active_connections")
                        (lit "\n") doc
                      ∷ (metric_line (lit "  Bytes Received: ") (lit "bytes_received")
                            (lit " bytes\n") doc
                          ∷ (metric_line (lit "  Bytes Sent: ") (lit "bytes_sent") (lit " bytes\n")
                                doc
                              ∷ (metric_line (lit "  Uptime: ") (lit "uptime_seconds")
                                    (lit " seconds\n\n") doc
                                  ∷ []))))))
        else err (
            lit "Error fetching metrics: "
            ++ (value_or (r.get_string doc (lit "message")) (lit "Unknown error") ++ lit "\n"))
          ∷ []
  ]

  create_user_command : AevumClient → Option (Str × Str) → List Printed
  create_user_command client none =
      err (
        lit
          "Error: Invalid format. Expected: db.create_user(\"<key>\", \"<ADMIN|READ_WRITE|READ_ONLY>\")\n")
      ∷ []
  create_user_command client (some (key, role)) =
      let extra = lit "\"key\":\"" ++ (key ++ (lit "\", \"role\":\"" ++ (role ++ lit "\""))) in
      out (client.send_request (build_payload client (lit "create_user") [] extra) ++ lit "\n") ∷ []

  show_update : AevumClient → Str → Str → Update → List Printed
  show_update client operation collection (malformed message) = err message ∷ []
  show_update client operation collection (objects query change) =
      show_response operation (Client.update client collection query change)

  -- The chain of tests on the operation.
  unfoldable pub run_operation : AevumClient → Parts → List Printed
  unfolding show_update
  run_operation client parts =
      let operation = parts.operation in
      let collection = parts.collection in
      if str_eq operation (lit "insert")
      then show_response operation (Client.insert client collection parts.args_str)
      else if str_eq operation (lit "find")
      then show_response operation
          (Client.find client collection (find_query parts.args_str) (lit "{}") (pos 0) (pos 0))
      else if str_eq operation (lit "update")
      then show_update client operation collection (update_objects parts.args_str)
      else if str_eq operation (lit "count")
      then show_response operation (Client.count client collection parts.args_str)
      else if str_eq operation (lit "delete")
      then show_response operation (Client.remove client collection parts.args_str)
      else if str_eq operation (lit "set_schema")
      then show_response operation (
          client.send_request (
            build_payload client (lit "set_schema") collection
              (lit "\"schema\":" ++ parts.args_str)))
      else err (
          lit "ERROR: Unknown operation '"
          ++ (operation ++ lit "'. Type 'help' for a list of commands.\n"))
        ∷ []

  data_command : AevumClient → Option Parts → List Printed
  unfolding run_operation
  data_command client none =
      err (lit "Error: Invalid command format. Type 'help' for usage.\n") ∷ []
  data_command client (some parts) = run_operation client parts

  unfoldable pub process_command : Str → AevumClient → List Printed
  unfolding data_command create_user_command show_metrics
  process_command line client =
      if str_eq line (lit "/health")
      then out (lit "Health Check: aevumsh is healthy and connected\n") ∷ []
      else if str_eq line (lit "/metrics")
      then show_metrics
          (client.send_request (lit "{\"action\":\"metrics\",\"auth\":\"default_client\"}"))
      else if starts_with (lit "db.create_user(") line
      then create_user_command client (r.match_user line)
      else data_command client (cut_command line)
