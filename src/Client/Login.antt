-- ===== src/Client/Login.antt =====
-- cubic-server/Client.cpp: who may enter play, over every sequence of packets.
use cubic_server.Common.{
  ℕ, ◌≡◌, ◌≢◌, refl, ◌∙◌, ◌⊎◌, inl, inr, Bool, true, false, Option, none, some, List, [], arith,
  not, ◌&&◌, if◌then◌else◌, ◌==◌, subst, sym,
}
use cubic_server.Protocol.Types.{U128}
use cubic_server.Packets.Session.{Handshake, LoginStart, EncryptionResponse}
use cubic_server.Packets.Dispatch.{
  ClientStatus, initial, login, play, ServerPacket, handshake, login_start, encryption_response,
}
use cubic_server.Client.Session.{
  LoginSuccess, ClientState, new_client, Server, on_handshake, claimed, on_login_start, answered,
  too_long_keys, wrong_token, has_size, on_encryption_response, handle_parsed,
  handle_parsed_client_packet,
}

pub data Reached (server : Server) : ClientState → Type 0 where
  connected : Reached server new_client
  received :
      {s : ClientState} (id : ℕ) (packet : ServerPacket)
      → Reached server s
      → Reached server (handle_parsed_client_packet server s id packet)

-- The player's handlers leave alone who plays, and the encryption.
abbrev pub KeepsPlayer : Server → Type 0
KeepsPlayer server =
    (s : ClientState) (packet : ServerPacket)
    → ((server.on_play s packet).player ≡ s.player)
      × ((server.on_play s packet).is_encrypted ≡ s.is_encrypted)
      × ((server.on_play s packet).res_pck ≡ s.res_pck)

module _ (server : Server) where
  -- A client that claims a UUID and a name gets past the tests of a login.
  abbrev pub Passes : U128 → List ℕ → Type 0
  Passes uuid name =
      (server.is_initialized ≡ true)
      × (server.is_whitelist_enabled ≡ true → server.is_player_whitelisted uuid name ≡ true)

  -- Some UUID that was claimed with the name got past these tests.
  abbrev pub Claimed : List ℕ → Type 0
  Claimed name = (uuid : U128) × Passes uuid name

  -- The session server knows the player by the name, and gave the UUID; the connection is encrypted.
  abbrev pub Authenticated : ClientState → LoginSuccess → Type 0
  Authenticated s who =
      (s.is_encrypted ≡ true)
      × (key : List ℕ) × (server.has_joined key who.username ≡ some who.uuid)

  abbrev pub Admitted : ClientState → LoginSuccess → Type 0
  Admitted s who =
      ((server.online_mode ≡ false) × Passes who.uuid who.username)
      ⊎ (Authenticated s who × Claimed who.username)

  abbrev Inv : ClientState → Type 0
  Inv s =
      ((s.res_pck.username ≡ []) ⊎ Claimed s.res_pck.username)
      × ((who : LoginSuccess) → s.player ≡ some who → Admitted s who)

  still-Admitted :
      (s t : ClientState) (who : LoginSuccess)
      → (s.is_encrypted ≡ true → t.is_encrypted ≡ true)
      → Admitted s who
      → Admitted t who
  still-Admitted s t who kept (inl offline) = inl offline
  still-Admitted s t who kept (inr ((e, key, joined), claim)) = inr ((kept e, key, joined), claim)

  encrypted-Inv : (s : ClientState) → Inv s → Inv (record s { is_encrypted = true })
  encrypted-Inv s (h, k) =
      (h, λ who e. still-Admitted s (record s { is_encrypted = true }) who (λ _. refl) (k who e))

  on_play-Inv :
      (s : ClientState) (packet : ServerPacket)
      → KeepsPlayer server
      → Inv s
      → Inv (server.on_play s packet)
  on_play-Inv s packet keeps (h, k) =
      let (same_player, same_encryption, same_pck) = keeps s packet in
      (
        subst (λ (r : LoginSuccess). (r.username ≡ []) ⊎ Claimed r.username) (sym same_pck) h,
        λ who e.
            still-Admitted s (server.on_play s packet) who (λ on. same_encryption ∙ on)
              (k who (sym same_player ∙ e)),
      )

  -- A branch is taken with its test.
  Inv-if :
      (b : Bool) (s t : ClientState)
      → (b ≡ true → Inv s)
      → (b ≡ false → Inv t)
      → Inv (if b then s else t)
  Inv-if true s t h k = h refl
  Inv-if false s t h k = k refl

  on_handshake-Inv : (s : ClientState) (pck : Handshake) → Inv s → Inv (on_handshake s pck)
  unfolding on_handshake
  on_handshake-Inv s pck h =
      Inv-if (pck.next_state == 1) _ _ (λ _. h)
        (λ _. Inv-if (pck.next_state == 2) _ _ (λ _. h) (λ _. h))

  not-false : (b : Bool) → not b ≡ false → b ≡ true
  not-false true e = refl
  not-false false e = sym e

  passes : (enabled listed : Bool) → enabled && not listed ≡ false → enabled ≡ true → listed ≡ true
  passes enabled listed e h = ground arith

  on_login_start-Inv :
      (s : ClientState) (pck : LoginStart) → Inv s → Inv (on_login_start server s pck)
  unfolding on_login_start
  on_login_start-Inv s pck (h, k) =
      Inv-if (not server.is_initialized) _ _ (λ _. (h, k))
        (λ ready.
          Inv-if (server.is_whitelist_enabled && not listed) _ _ (λ _. (h, k))
            (λ let_in.
              let passed : Passes (claimed server pck).uuid pck.name = (
                not-false server.is_initialized ready,
                passes server.is_whitelist_enabled listed let_in,
              ) in
              Inv-if server.online_mode _ _ (λ _. (inr ((claimed server pck).uuid, passed), k))
                (λ offline. (
                  h,
                  λ who e. inl (
                    offline,
                    subst (λ (w : LoginSuccess). Passes w.uuid w.username) (some-injective e)
                        passed,
                  ),
                ))))
    where
      listed : Bool
      listed = server.is_player_whitelisted (claimed server pck).uuid pck.name

      some-injective : {v w : LoginSuccess} → some v ≡ some w → v ≡ w
      some-injective e = cc

  -- No account of the session server has the empty name.
  module _ (named : (key : List ℕ) → server.has_joined key [] ≡ none) where
    not_empty :
        (key name : List ℕ) (uuid : U128) → server.has_joined key name ≡ some uuid → name ≢ []
    not_empty key name uuid e z = cc (named key)

    Claimed-named :
        (key name : List ℕ) (uuid : U128)
        → (name ≡ []) ⊎ Claimed name
        → server.has_joined key name ≡ some uuid
        → Claimed name
    Claimed-named key name uuid (inl z) e = absurd (not_empty key name uuid e z)
    Claimed-named key name uuid (inr c) e = c

    answered-Inv :
        (s : ClientState) (key : List ℕ) (answer : Option U128)
        → server.has_joined key s.res_pck.username ≡ answer
        → s.is_encrypted ≡ true
        → Inv s
        → Inv (answered s answer)
    unfolding answered
    answered-Inv s key none e encrypted h = h
    answered-Inv s key (some uuid) e encrypted (h, k) = (
      h,
      λ who f.
          subst (Admitted (answered s (some uuid))) (cc)
            (inr ((encrypted, key, e), Claimed-named key s.res_pck.username uuid h e)),
    )

    on_encryption_response-Inv :
        (s : ClientState) (pck : EncryptionResponse)
        → Inv s
        → Inv (on_encryption_response server s pck)
    unfolding on_encryption_response
    on_encryption_response-Inv s pck h =
        Inv-if (too_long_keys server pck) _ _ (λ _. h)
          (λ _.
            Inv-if (not (has_size server 4 (server.decrypt pck.verify_token))) _ _ (λ _. h)
              (λ _.
                Inv-if (wrong_token server pck) _ _ (λ _. h)
                  (λ _.
                    Inv-if (not (has_size server 16 (server.decrypt pck.shared_secret))) _ _
                      (λ _. h) (λ _. answered-Inv _ _ _ refl refl (encrypted-Inv s h)))))

    handle_parsed-Inv :
        (in_status : ClientStatus) (s : ClientState) (packet : ServerPacket)
        → KeepsPlayer server
        → Inv s
        → Inv (handle_parsed server in_status s packet)
    unfolding handle_parsed
    handle_parsed-Inv initial s (handshake pck) keeps h = on_handshake-Inv s pck h
    handle_parsed-Inv login s (login_start pck) keeps h = on_login_start-Inv s pck h
    handle_parsed-Inv login s (encryption_response pck) keeps h = on_encryption_response-Inv s pck h
    handle_parsed-Inv play s packet keeps h = on_play-Inv s packet keeps h
    handle_parsed-Inv _ s packet keeps h = h

    Reached-Inv : (s : ClientState) → KeepsPlayer server → Reached server s → Inv s
    unfolding handle_parsed_client_packet
    Reached-Inv s keeps connected = (inl refl, λ who e. cc)
    Reached-Inv s keeps (received {s = t} id packet r) =
        handle_parsed-Inv t.client_status t packet keeps (Reached-Inv t keeps r)

-- Whatever packets a client sends: where the player's handlers leave alone who plays, and no
-- account of the session server has the empty name, a client that plays either passed the
-- whitelist, if it is enabled, with its UUID and name in offline mode; or its connection is
-- encrypted, the session server gave the UUID for its name and a key, and some UUID claimed with
-- that name passed the whitelist.
pub Reached-Admitted :
    (server : Server) (s : ClientState) (who : LoginSuccess)
    → ((key : List ℕ) → server.has_joined key [] ≡ none)
    → KeepsPlayer server
    → Reached server s
    → s.player ≡ some who
    → Admitted server s who
Reached-Admitted server s who named keeps r e = (Reached-Inv server named s keeps r).1 who e
