-- ===== src/Client/LoginTests.antt =====
-- A login without, and one with encryption.
use cubic_server.Common.{
  ℕ, ◌≡◌, refl, arith, Bool, true, false, [], ◌∷◌, replicate, length, none, some, if◌then◌else◌,
  ◌==◌,
}
use cubic_server.Protocol.Types.{U128}
use cubic_server.Packets.Session.{LoginStart, EncryptionResponse}
use cubic_server.Packets.Dispatch.{
  ClientStatus, login, ServerPacket, handshake, login_start, encryption_response,
}
use cubic_server.Packets.Parsed.{zero_uuid}
use cubic_server.Client.Session.{ClientState, Server, new_client, handle_parsed_client_packet}
use cubic_server.Client.Login.{connected, received, Admitted, Reached-Admitted}
use cubic_server.Client.Whitelisted.{whitelist_claim}

abbrev listed_uuid : U128
listed_uuid = record { most = 7; least = 9 }

abbrev mojang_uuid : U128
mojang_uuid = record { most = 1; least = 2 }

-- The whitelist has one UUID; the session server knows every name but the empty one.
abbrev server_in : Bool → Server
server_in online = record {
  is_initialized = true;
  is_whitelist_enabled = true;
  is_player_whitelisted = λ uuid name. uuid.most == 7;
  online_mode = online;
  name_hash = λ name. zero_uuid;
  decrypt = λ bytes. if length bytes == 16 then some bytes else some (1 ∷ 2 ∷ 3 ∷ 4 ∷ []);
  verify_token = 1 ∷ 2 ∷ 3 ∷ 4 ∷ [];
  has_joined = λ key name. if length name == 0 then none else some mojang_uuid;
  on_play = λ s packet. s;
}

abbrev hello : ServerPacket
hello = handshake (record { prot_version = 761; addr = b'a' ∷ []; port = 25565; next_state = 2 })

abbrev bob : LoginStart
bob = record { name = b'b' ∷ b'o' ∷ b'b' ∷ []; has_player_uuid = true; player_uuid = listed_uuid }

abbrev handler : ClientState → ℕ → ServerPacket → ClientState
handler = handle_parsed_client_packet (server_in false)

abbrev of_client : ClientState → ClientStatus
of_client s = s.client_status

abbrev bob_plays : ClientState
bob_plays = handler (handler new_client 0 hello) 0 (login_start bob)

bob_plays-player : bob_plays.player ≡ some (record { uuid = listed_uuid; username = bob.name })
unfolding handle_parsed_client_packet
bob_plays-player = refl

Reached-Admitted_example :
    Admitted (server_in false) bob_plays (record { uuid = listed_uuid; username = bob.name })
Reached-Admitted_example =
    Reached-Admitted (server_in false) bob_plays
      (record { uuid = listed_uuid; username = bob.name }) (λ key. refl)
      (λ s packet. (refl, refl, refl)) (received 0 (login_start bob) (received 0 hello connected))
      bob_plays-player

abbrev answer : EncryptionResponse
answer = record { shared_secret = replicate 16 5; verify_token = 0 ∷ [] }

abbrev waiting_for_start : ClientState
waiting_for_start = record new_client { client_status = login }

abbrev asked : ClientState
asked = handle_parsed_client_packet (server_in true) waiting_for_start 0 (login_start bob)

whitelist_claim_example :
    (handle_parsed_client_packet (server_in true) asked 1 (encryption_response answer)).player
    ≡ some (record { uuid = mojang_uuid; username = bob.name })
whitelist_claim_example =
    whitelist_claim (server_in true) waiting_for_start bob.name listed_uuid mojang_uuid answer
      (replicate 16 5) refl refl refl refl (omega arith, omega arith, refl, refl, refl, refl) refl
