-- ===== src/Auth/Replay.antt =====
-- The replay cache of auth.c: `auth_check_replay`, and `auth_send_response` with its two callers.
use esp32_ota_link.Base.{
  ℕ, ◌+◌, ◌%◌, List, [], ◌∷◌, ◌++◌, Option, none, some, Bool, true, false, not, ◌&&◌, ◌||◌, ltb,
  ◌!=◌, if◌then◌else◌, take, get_or, set, overwrite, replicate,
}
use esp32_ota_link.Idf.{Env, History}
use esp32_ota_link.Protocol.Wire.{
  Packet, ProtocolError, err_ok, err_auth_required, err_invalid_length, error_code, cmd_ack,
  cmd_nack, max_payload,
}
use esp32_ota_link.Protocol.Sender.{Sender, send_packet, send_nack}
use esp32_ota_link.Auth.Hmac.{
  tag_size, constant_time_equal, compute_request_digest, compute_response_tag,
}
use esp32_ota_link.Auth.State.{
  AuthState, ReplayEntry, empty_entry, replay_cache_size, command_is_protected,
}

-- How the loop of `auth_check_replay` ends: no entry has the command and the sequence, the first
-- that has them has another digest, or it has the same digest.
pub data Scan : Type 0 where
  fresh clash : Scan
  hit : ReplayEntry → Scan

-- The loop over the entries left.
unfoldable pub scan : List ReplayEntry → ℕ → ℕ → List ℕ → Scan
scan [] command sequence digest = fresh
scan (e ∷ es) command sequence digest =
    let rest = scan es command sequence digest in
    if not e.valid || e.request_command != command || e.sequence != sequence
    then rest
    else if not (constant_time_equal e.request_digest digest 32)
    then clash
    else hit e

-- What `auth_check_replay` leaves; it never writes the session state.
pub record Checked : Type 0 where
  pub sender : Sender
  pub history : History
  pub result : ProtocolError
  pub replayed : Bool

-- What `auth_send_response` leaves.
pub record Responded : Type 0 where
  pub auth : AuthState
  pub sender : Sender
  pub history : History

-- The end of `auth_check_replay`, by how the loop ended.
unfoldable pub resend : Sender → History → Packet → Scan → Checked
resend t h p fresh = record { sender = t; history = h; result = err_ok; replayed = false }
resend t h p clash = record {
  sender = t;
  history = h;
  result = err_auth_required;
  replayed = false;
}
resend t h p (hit e) =
    let (t', h') =
      send_packet t e.response_command p.sequence (some e.response_payload) e.response_length h in
    record { sender = t'; history = h'; result = err_ok; replayed = true }

-- The tag bytes; `compute_response_tag` cannot fail here (its result is not tested).
unfoldable pub tag_bytes : Option (List ℕ) → List ℕ
tag_bytes none = replicate 32 0
tag_bytes (some tag) = tag

module _ (env : Env) where
  unfoldable pub check_replay : AuthState → Sender → History → Packet → Checked
  unfolding scan resend
  check_replay s t h p =
      if not s.required || not (command_is_protected p.command)
      then record { sender = t; history = h; result = err_ok; replayed = false }
      else if not s.authenticated
      then record { sender = t; history = h; result = err_auth_required; replayed = false }
      else resend t h p
          (scan s.replay_cache p.command p.sequence (compute_request_digest env.sha p))

  -- The signed response: the payload and its tag.
  unfoldable pub signed_response : AuthState → Packet → ℕ → List ℕ → ℕ → List ℕ
  unfolding tag_bytes
  signed_response s request response_command payload length =
      take length payload
      ++ take tag_size (
          tag_bytes (
            compute_response_tag env.sha s.session_key request.command response_command
              request.sequence payload length))

  -- The writes to `s_auth.replay_cache[s_auth.next_replay_entry]`.
  unfoldable pub remember : AuthState → Packet → ℕ → List ℕ → ℕ → AuthState
  unfolding empty_entry
  remember s request response_command response response_length =
      let old = get_or s.replay_cache s.next_replay_entry empty_entry in
      let entry : ReplayEntry = record {
        valid = true;
        request_command = request.command;
        sequence = request.sequence;
        request_digest = compute_request_digest env.sha request;
        response_command = response_command;
        response_length = response_length;
        response_payload = overwrite old.response_payload 0 (take response_length response);
      } in
      record s {
        replay_cache = set s.replay_cache s.next_replay_entry entry;
        next_replay_entry = (s.next_replay_entry + 1) % replay_cache_size;
      }

  -- A response under a session: signed, remembered, sent.
  unfoldable pub respond_signed : AuthState → Sender → History → Packet → ℕ → List ℕ → ℕ → Responded
  unfolding signed_response remember
  respond_signed s t h request response_command payload length =
      let response = signed_response s request response_command payload length in
      let (t', h') =
        send_packet t response_command request.sequence (some response) (length + tag_size) h in
      let (t'', h'') = send_nack t request.sequence err_invalid_length h in
      if ltb max_payload (length + tag_size)
      then record { auth = s; sender = t''; history = h'' }
      else record {
        auth = remember s request response_command response (length + tag_size);
        sender = t';
        history = h';
      }

  unfoldable pub send_response : AuthState → Sender → History → Packet → ℕ → List ℕ → ℕ → Responded
  unfolding respond_signed
  send_response s t h request response_command payload length =
      let (t', h') = send_packet t response_command request.sequence (some payload) length h in
      if s.required && s.authenticated && command_is_protected request.command
      then respond_signed s t h request response_command payload length
      else record { auth = s; sender = t'; history = h' }

  -- `auth_send_ack` and `auth_send_nack`.
  unfoldable pub respond_ack : AuthState → Sender → History → Packet → Responded
  unfolding send_response
  respond_ack s t h request = send_response s t h request cmd_ack (error_code err_ok ∷ []) 1

  unfoldable pub respond_nack : AuthState → Sender → History → Packet → ProtocolError → Responded
  unfolding send_response
  respond_nack s t h request error = send_response s t h request cmd_nack (error_code error ∷ []) 1
