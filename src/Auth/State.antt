-- ===== src/Auth/State.antt =====
-- The static `s_auth` of auth.c, `auth_configure`, `auth_command_is_protected`,
-- `auth_handle_packet` and `auth_unwrap_packet`. A `memcpy` over a whole array replaces it.
use esp32_ota_link.Base.{
  ℕ, ◌+◌, ◌-◌, List, ◌∷◌, ◌++◌, Option, none, some, Bool, true, false, not, ◌&&◌, ◌||◌, ltb, ◌==◌,
  if◌then◌else◌, take, drop, overwrite, replicate,
}
use esp32_ota_link.Idf.{Env, History, filled_random}
use esp32_ota_link.Protocol.Wire.{
  Packet, ProtocolError, err_ok, err_unknown_command, err_auth_required, err_invalid_length,
  error_code, cmd_ack, cmd_reboot, cmd_rollback, cmd_ota_begin, cmd_ota_data, cmd_ota_end,
  cmd_ota_abort, max_payload,
}
use esp32_ota_link.Protocol.Sender.{Sender, send_packet, send_ack}
use esp32_ota_link.Auth.Hmac.{
  nonce_size, tag_size, auth_proof_prefix, device_proof_prefix, session_prefix,
  hmac_prefixed_nonce_pair, compute_packet_tag, constant_time_equal,
}

abbrev pub key_max_size : ℕ
key_max_size = 64

abbrev pub replay_cache_size : ℕ
replay_cache_size = 8

-- `auth_replay_entry_t`.
pub record ReplayEntry : Type 0 where
  pub valid : Bool
  pub request_command : ℕ
  pub sequence : ℕ
  pub request_digest : List ℕ
  pub response_command : ℕ
  pub response_length : ℕ
  pub response_payload : List ℕ

-- A zeroed entry.
unfoldable pub empty_entry : ReplayEntry
empty_entry = record {
  valid = false;
  request_command = 0;
  sequence = 0;
  request_digest = replicate 32 0;
  response_command = 0;
  response_length = 0;
  response_payload = replicate max_payload 0;
}

-- `auth_state_t`.
pub record AuthState : Type 0 where
  pub required : Bool
  pub pending : Bool
  pub authenticated : Bool
  pub key : List ℕ
  pub key_len : ℕ
  pub client_nonce : List ℕ
  pub server_nonce : List ℕ
  pub session_key : List ℕ
  pub replay_cache : List ReplayEntry
  pub next_replay_entry : ℕ

-- What `memset(&s_auth, 0, sizeof(s_auth))` leaves.
unfoldable pub cleared : AuthState
unfolding empty_entry
cleared = record {
  required = false;
  pending = false;
  authenticated = false;
  key = replicate key_max_size 0;
  key_len = 0;
  client_nonce = replicate nonce_size 0;
  server_nonce = replicate nonce_size 0;
  session_key = replicate 32 0;
  replay_cache = replicate replay_cache_size empty_entry;
  next_replay_entry = 0;
}

unfoldable pub clear_replay_cache : AuthState → AuthState
unfolding empty_entry
clear_replay_cache s = record s {
  replay_cache = replicate replay_cache_size empty_entry;
  next_replay_entry = 0;
}

-- `auth_configure`; `none` is a NULL key.
unfoldable pub configure : Option (List ℕ) → ℕ → Bool → AuthState
unfolding cleared
configure none key_len require_authentication = cleared
configure (some key) key_len require_authentication =
    if key_len == 0 || ltb key_max_size key_len then cleared else record cleared {
      key = overwrite cleared.key 0 (take key_len key);
      key_len = key_len;
      required = require_authentication;
    }

unfoldable pub is_enabled : AuthState → Bool
is_enabled s = s.required

unfoldable pub command_is_protected : ℕ → Bool
command_is_protected command =
    command == cmd_reboot
    || command == cmd_rollback
    || command == cmd_ota_begin
    || command == cmd_ota_data
    || command == cmd_ota_end
    || command == cmd_ota_abort

-- What an operation that may send leaves.
pub record AuthRun : Type 0 where
  pub auth : AuthState
  pub sender : Sender
  pub history : History
  pub result : ProtocolError

abbrev pub ran : AuthState → Sender → History → ProtocolError → AuthRun
ran s t h e = record { auth = s; sender = t; history = h; result = e }

module _ (env : Env) where
  -- The first handshake packet, from the device proof on.
  unfoldable pub send_challenge : AuthState → Sender → History → Packet → Option (List ℕ) → AuthRun
  send_challenge s t h p none = ran s t h err_auth_required
  send_challenge s t h p (some device_proof) =
      let response = error_code err_ok ∷ (s.server_nonce ++ take tag_size device_proof) in
      let (t', h') = send_packet t cmd_ack p.sequence (some response) 33 h in ran s t' h' err_ok

  -- From the session key on; `s` holds the two nonces.
  unfoldable pub open_session : AuthState → Sender → History → Packet → Option (List ℕ) → AuthRun
  unfolding send_challenge clear_replay_cache
  open_session s t h p none = ran s t h err_auth_required
  open_session s t h p (some session_key) =
      let s' =
        clear_replay_cache
          (record s { session_key = session_key; pending = true; authenticated = false }) in
      send_challenge s' t h p (
        hmac_prefixed_nonce_pair env.sha device_proof_prefix s'.key s'.key_len s'.client_nonce
          s'.server_nonce)

  -- A payload of 16 bytes: a fresh challenge.
  unfoldable pub start_challenge : AuthState → Sender → History → Packet → AuthRun
  unfolding open_session
  start_challenge s t h p =
      let server_nonce = env.fill_random h nonce_size in
      let s' = record s { client_nonce = take nonce_size p.payload; server_nonce = server_nonce } in
      open_session s' t (filled_random server_nonce ∷ h) p (
        hmac_prefixed_nonce_pair env.sha session_prefix s'.key s'.key_len s'.client_nonce
          s'.server_nonce)

  -- The last test on a proof: the tag against what the key gives.
  unfoldable pub tag_matches : List ℕ → Option (List ℕ) → Bool
  tag_matches tag none = false
  tag_matches tag (some expected) = constant_time_equal tag expected tag_size

  -- The negation of the condition under which a proof is refused.
  unfoldable pub proof_holds : AuthState → Packet → Bool
  unfolding tag_matches
  proof_holds s p =
      (s.pending || s.authenticated)
      && constant_time_equal p.payload s.client_nonce nonce_size
      && tag_matches (drop nonce_size p.payload) (
          hmac_prefixed_nonce_pair env.sha auth_proof_prefix s.key s.key_len s.client_nonce
            s.server_nonce)

  -- A payload of 32 bytes: the client's proof.
  unfoldable pub complete_challenge : AuthState → Sender → History → Packet → AuthRun
  unfolding proof_holds
  complete_challenge s t h p =
      let (t', h') = send_ack t p.sequence h in
      if not (proof_holds s p)
      then ran s t h err_auth_required
      else ran (record s { pending = false; authenticated = true }) t' h' err_ok

  -- `auth_handle_packet`.
  unfoldable pub handle_packet : AuthState → Sender → History → Packet → AuthRun
  unfolding start_challenge complete_challenge
  handle_packet s t h p =
      if not s.required
      then ran s t h err_unknown_command
      else if p.length == nonce_size
      then start_challenge s t h p
      else if p.length == nonce_size + tag_size
      then complete_challenge s t h p
      else ran s t h err_invalid_length

  -- `auth_unwrap_packet`: the error code and the length; the payload pointer is the packet's.
  unfoldable pub unwrap_packet : AuthState → Packet → ProtocolError × ℕ
  unfolding command_is_protected tag_matches
  unwrap_packet s p =
      let unwrapped_length = p.length - tag_size in
      if not s.required || not (command_is_protected p.command)
      then (err_ok, p.length)
      else if not s.authenticated || ltb p.length tag_size
      then (err_auth_required, p.length)
      else if not (
          tag_matches (drop unwrapped_length p.payload) (
            compute_packet_tag env.sha s.session_key p.command p.sequence p.payload
              unwrapped_length))
      then (err_auth_required, p.length)
      else (err_ok, unwrapped_length)
