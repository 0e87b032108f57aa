-- ===== src/Tests/ClientRuns.antt =====
-- The theorem of the client's payloads at two requests.
use aevum.Prelude.{◌≡◌, refl, codes}
use aevum.Client.{AevumClient}
use aevum.Client.Payloads.{build_payload_injective}

-- A client whose server sends every payload back.
abbrev echo_client : AevumClient
echo_client = record { api_key = codes "root"; send_request = λ payload. payload }

build_payload_injective_example :
    (echo_client.api_key ≡ echo_client.api_key)
    × ((codes "count" ≡ codes "count") × (codes "users" ≡ codes "users"))
build_payload_injective_example =
    build_payload_injective echo_client echo_client (codes "count") (codes "count") (codes "users")
      (codes "users") (codes "\"query\":{}") (codes "\"query\":{}") refl refl refl refl refl refl
      refl refl refl
