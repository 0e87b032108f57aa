-- ===== src/Client/Session.antt =====
-- AevumClient::AevumClient, connect and disconnect of client/aevum_client.cpp: the client with its
-- connection.
use aevum.Prelude.{[], none, Bool, Str, lit, List, ◌∷◌, if◌then◌else◌}
use aevum.Client.{build_payload}
use aevum.Client.Connection.{
  Os, Connection, is_connected, connect_server, disconnect_server, send_request,
}

-- The request of `disconnect`; a payload does not depend on the connection.
unfoldable pub farewell : Str → Str
farewell api_key =
    build_payload (record { api_key = api_key; send_request = λ s. [] }) (lit "exit") [] []

module _ (os : Os) where
  pub record Session : Type 0 where
    pub conn_ : Connection os
    pub api_key_ : Str

  -- The constructor, over what the socket calls change.
  unfoldable pub new_session : Str → os.State → Session
  new_session api_key st = record {
    conn_ = record { socket_fd = none; state = st };
    api_key_ = api_key;
  }

  unfoldable pub connect : Session → Bool × Session
  connect s = let (connected, c) = connect_server os s.conn_ in (connected, record s { conn_ = c })

  unfoldable pub disconnect : Session → Session
  disconnect s =
      if is_connected os s.conn_
      then (let (response, c) = send_request os (farewell s.api_key_) s.conn_ in
          record s { conn_ = disconnect_server os c })
      else s

  -- The destructor, which is that of the connection; what the calls changed is left.
  unfoldable pub destroyed : Session → os.State
  destroyed s = (disconnect_server os s.conn_).state

  -- Requests that are sent one after another.
  unfoldable pub send_all : List Str → Session → Session
  send_all [] s = s
  send_all (payload ∷ payloads) s =
      send_all payloads (record s { conn_ = (send_request os payload s.conn_).1 })
