-- ===== src/Client.antt =====
-- client/aevum_client.cpp: the requests that the client sends. The connection, which takes a payload
-- and gives the server's answer, is an argument.
pub mod Payloads
pub mod Connection
pub mod Session
use aevum.Prelude.{[], ◌++◌, Str, lit, ℤ, int_to_string, is_empty, if◌then◌else◌}

pub record AevumClient : Type 0 where
  pub api_key : Str
  pub send_request : Str → Str

unfoldable pub build_payload : AevumClient → Str → Str → Str → Str
build_payload client action collection extra_fields =
    let head =
      lit "{\"auth\":\"" ++ (client.api_key ++ (lit "\",\"action\":\"" ++ (action ++ lit "\""))) in
    let named =
      if is_empty collection then [] else lit ",\"collection\":\"" ++ (collection ++ lit "\"") in
    let extra = if is_empty extra_fields then [] else lit "," ++ extra_fields in
    head ++ (named ++ (extra ++ lit "}"))

unfoldable pub insert : AevumClient → Str → Str → Str
insert client collection doc_json =
    client.send_request
      (build_payload client (lit "insert") collection (lit "\"data\":" ++ doc_json))

unfoldable pub find : AevumClient → Str → Str → Str → ℤ → ℤ → Str
find client collection query_json sort_json limit skip =
    let extra =
      lit "\"query\":"
      ++ (query_json
          ++ (lit ",\"sort\":"
              ++ (sort_json
                  ++ (lit ",\"limit\":"
                      ++ (int_to_string limit ++ (lit ",\"skip\":" ++ int_to_string skip)))))) in
    client.send_request (build_payload client (lit "find") collection extra)

unfoldable pub update : AevumClient → Str → Str → Str → Str
update client collection query_json update_json = client.send_request (
    build_payload client (lit "update") collection
      (lit "\"query\":" ++ (query_json ++ (lit ",\"update\":" ++ update_json))))

unfoldable pub remove : AevumClient → Str → Str → Str
remove client collection query_json =
    client.send_request
      (build_payload client (lit "delete") collection (lit "\"query\":" ++ query_json))

unfoldable pub count : AevumClient → Str → Str → Str
count client collection query_json =
    client.send_request
      (build_payload client (lit "count") collection (lit "\"query\":" ++ query_json))
