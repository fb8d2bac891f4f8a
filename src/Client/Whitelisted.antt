-- ===== src/Client/Whitelisted.antt =====
-- cubic-server/Client.cpp: on which UUID the whitelist is asked in online mode.
use cubic_server.Common.{
  ℕ, ◌≤◌, ◌≡◌, refl, ◌∙◌, ap, Bool, true, false, ◌&&◌, Option, some, List, [], ◌∷◌, length, le→ltb,
  eq→==,
}
use cubic_server.Protocol.Types.{U128}
use cubic_server.Packets.Session.{LoginStart, EncryptionResponse}
use cubic_server.Packets.Dispatch.{ClientStatus, login, login_start, encryption_response}
use cubic_server.Client.Session.{
  ClientState, Server, same_bytes, claimed, on_login_start, on_encryption_response, handle_online,
  answered, handle_parsed, handle_parsed_client_packet,
}

same_bytes_refl : (bs : List ℕ) → same_bytes bs bs ≡ true
unfolding same_bytes
same_bytes_refl [] = refl
same_bytes_refl (b ∷ bs) = rw (eq→== b b refl, same_bytes_refl bs) refl

and_false : (b : Bool) → b && false ≡ false
and_false true = refl
and_false false = refl

module _ (server : Server) where
  -- What RSA makes of an answer to the encryption request: the server's token and a key.
  abbrev pub Answers : EncryptionResponse → List ℕ → Type 0
  Answers pck key =
      (length pck.shared_secret ≤ 512)
      × (length pck.verify_token ≤ 512)
      × (server.decrypt pck.verify_token ≡ some server.verify_token)
      × (length server.verify_token ≡ 4)
      × (server.decrypt pck.shared_secret ≡ some key)
      × (length key ≡ 16)

  on_encryption_response-Answers :
      (s : ClientState) (pck : EncryptionResponse) (key : List ℕ)
      → Answers pck key
      → on_encryption_response server s pck
        ≡ handle_online server (record s { is_encrypted = true }) key
  unfolding on_encryption_response
  on_encryption_response-Answers s pck key (a, b, t, t4, k, k16) =
      rw (le→ltb 512 (length pck.shared_secret) a, le→ltb 512 (length pck.verify_token) b, t, k)
        (rw
          (
            same_bytes_refl server.verify_token,
            eq→== (length server.verify_token) 4 t4,
            eq→== (length key) 16 k16,
          )
          refl)

  stored :
      (s : ClientState) (pck : LoginStart)
      → server.is_initialized ≡ true
      → server.online_mode ≡ true
      → server.is_player_whitelisted (claimed server pck).uuid pck.name ≡ true
      → on_login_start server s pck ≡ record s { res_pck = claimed server pck }
  unfolding on_login_start
  stored s pck ready online listed =
      rw (ready, listed, online, and_false server.is_whitelist_enabled) refl

  -- In online mode the whitelist is asked about the UUID that the client claims: a client in the
  -- state login that claims a UUID which the whitelist takes, and whose name the session server
  -- knows under another UUID, plays under the other UUID, whatever the whitelist says of that.
  pub whitelist_claim :
      (s : ClientState) (name : List ℕ) (victim uuid : U128) (pck : EncryptionResponse)
      (key : List ℕ)
      → s.client_status ≡ login
      → server.is_initialized ≡ true
      → server.online_mode ≡ true
      → server.is_player_whitelisted victim name ≡ true
      → Answers pck key
      → server.has_joined key name ≡ some uuid
      → let start : LoginStart = record {
        name = name;
        has_player_uuid = true;
        player_uuid = victim;
      } in
        let asked = handle_parsed_client_packet server s 0 (login_start start) in
        (handle_parsed_client_packet server asked 1 (encryption_response pck)).player
        ≡ some (record { uuid = uuid; username = name })
  unfolding handle_parsed_client_packet answered handle_online
  whitelist_claim s name victim uuid pck key at_login ready online listed answers joined =
      ap
        (λ (t : ClientState).
          (handle_parsed_client_packet server t 1 (encryption_response pck)).player)
        (ap (λ (t : ClientStatus). handle_parsed server t s (login_start start)) at_login
          ∙ stored s start ready online listed)
      ∙ ap (λ (t : ClientStatus). (handle_parsed server t asked (encryption_response pck)).player)
          at_login
      ∙ ap (λ (t : ClientState). t.player) (on_encryption_response-Answers asked pck key answers)
      ∙ ap (λ (t : Option U128). (answered (record asked { is_encrypted = true }) t).player) joined
    where
      start : LoginStart
      start = record { name = name; has_player_uuid = true; player_uuid = victim }

      asked : ClientState
      asked = record s { res_pck = claimed server start }
