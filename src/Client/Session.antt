-- ===== src/Client/Session.antt =====
-- cubic-server/Client.cpp, Client.hpp: handleParsedClientPacket with the handlers of the states before
-- play, as functions of the client's state. What they send is not modelled. The configuration, the
-- whitelist, RSA, the session server and the player are parameters.
use cubic_server.Common.{
  ℕ, Bool, true, false, not, ◌&&◌, ◌||◌, Option, none, some, List, [], ◌∷◌, length, if◌then◌else◌,
  ltb, ◌==◌,
}
use cubic_server.Protocol.Types.{U128}
use cubic_server.Packets.Session.{Handshake, LoginStart, EncryptionResponse}
use cubic_server.Packets.Parsed.{zero_uuid}
use cubic_server.Packets.Dispatch.{
  ClientStatus, initial, status, login, play, ServerPacket, handshake, login_start,
  encryption_response,
}

-- `protocol::LoginSuccess`, without the properties.
pub record LoginSuccess : Type 0 where
  pub uuid : U128
  pub username : List ℕ

pub record ClientState : Type 0 where
  pub client_status : ClientStatus
  pub is_running : Bool
  pub is_encrypted : Bool
  pub res_pck : LoginSuccess
  pub player : Option LoginSuccess

abbrev pub new_client : ClientState
new_client = record {
  client_status = initial;
  is_running = true;
  is_encrypted = false;
  res_pck = record { uuid = zero_uuid; username = [] };
  player = none;
}

-- What the handlers ask of the rest of the server. `decrypt` gives the bytes that RSA decrypts, none
-- for an error; `verify_token` are the bytes of the client's address; `has_joined` is the answer of
-- the session server to an encryption key and a name; `on_play` is the player's handler.
pub record Server : Type 0 where
  pub is_initialized : Bool
  pub is_whitelist_enabled : Bool
  pub is_player_whitelisted : U128 → List ℕ → Bool
  pub online_mode : Bool
  pub name_hash : List ℕ → U128
  pub decrypt : List ℕ → Option (List ℕ)
  pub verify_token : List ℕ
  pub has_joined : List ℕ → List ℕ → Option U128
  pub on_play : ClientState → ServerPacket → ClientState

unfoldable pub switch_to_play_state : ClientState → LoginSuccess → ClientState
switch_to_play_state s pck = record s { client_status = play; player = some pck }

unfoldable pub login_sequence : ClientState → LoginSuccess → ClientState
unfolding switch_to_play_state
login_sequence s pck = switch_to_play_state s pck

-- `disconnect` of a client that is not in play.
unfoldable pub disconnect : ClientState → ClientState
disconnect s = record s { is_running = false }

unfoldable pub on_handshake : ClientState → Handshake → ClientState
on_handshake s pck =
    if pck.next_state == 1
    then record s { client_status = status }
    else if pck.next_state == 2
    then record s { client_status = login }
    else s

abbrev pub encryption_maximum_length : ℕ
encryption_maximum_length = 512

unfoldable pub same_bytes : List ℕ → List ℕ → Bool
same_bytes [] [] = true
same_bytes (a ∷ cs) (b ∷ bs) = (a == b) && same_bytes cs bs
same_bytes _ _ = false

-- `_handleOnline` and what comes after it, for the answer of the session server.
unfoldable pub answered : ClientState → Option U128 → ClientState
unfolding disconnect login_sequence
answered s none = disconnect s
answered s (some uuid) =
    let pck : LoginSuccess = record { uuid = uuid; username = s.res_pck.username } in
    login_sequence (record s { res_pck = pck }) pck

module _ (server : Server) where
  abbrev pub claimed : LoginStart → LoginSuccess
  claimed pck = record {
    uuid = (if pck.has_player_uuid then pck.player_uuid else server.name_hash pck.name);
    username = pck.name;
  }

  unfoldable pub on_login_start : ClientState → LoginStart → ClientState
  unfolding disconnect login_sequence
  on_login_start s pck =
      if not server.is_initialized
      then disconnect s
      else if server.is_whitelist_enabled
          && not (server.is_player_whitelisted (claimed pck).uuid pck.name)
      then disconnect s
      else if server.online_mode
      then record s { res_pck = claimed pck }
      else login_sequence s (claimed pck)

  unfoldable pub handle_online : ClientState → List ℕ → ClientState
  unfolding answered
  handle_online s key = answered s (server.has_joined key s.res_pck.username)

  -- `res != n`, for the bytes that were decrypted.
  abbrev pub has_size : ℕ → Option (List ℕ) → Bool
  has_size n none = false
  has_size n (some bytes) = length bytes == n

  abbrev pub bytes_of : Option (List ℕ) → List ℕ
  bytes_of none = []
  bytes_of (some bytes) = bytes

  abbrev pub too_long_keys : EncryptionResponse → Bool
  too_long_keys pck =
      ltb encryption_maximum_length (length pck.shared_secret)
      || ltb encryption_maximum_length (length pck.verify_token)

  abbrev pub wrong_token : EncryptionResponse → Bool
  wrong_token pck =
      not (same_bytes (bytes_of (server.decrypt pck.verify_token)) server.verify_token)

  unfoldable pub on_encryption_response : ClientState → EncryptionResponse → ClientState
  unfolding disconnect handle_online same_bytes
  on_encryption_response s pck =
      if too_long_keys pck
      then disconnect s
      else if not (has_size 4 (server.decrypt pck.verify_token))
      then disconnect s
      else if wrong_token pck
      then disconnect s
      else if not (has_size 16 (server.decrypt pck.shared_secret))
      then disconnect s
      else handle_online (record s { is_encrypted = true })
          (bytes_of (server.decrypt pck.shared_secret))

  -- The requests of the state `status` are answered, and change nothing.
  unfoldable pub handle_parsed : ClientStatus → ClientState → ServerPacket → ClientState
  unfolding on_handshake on_login_start on_encryption_response
  handle_parsed initial s (handshake pck) = on_handshake s pck
  handle_parsed login s (login_start pck) = on_login_start s pck
  handle_parsed login s (encryption_response pck) = on_encryption_response s pck
  handle_parsed play s packet = server.on_play s packet
  handle_parsed _ s packet = s

  unfoldable pub handle_parsed_client_packet : ClientState → ℕ → ServerPacket → ClientState
  unfolding handle_parsed
  handle_parsed_client_packet s id packet = handle_parsed s.client_status s packet
