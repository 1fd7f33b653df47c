-- ===== src/Auth/Examples.antt =====
-- Tests of the properties of the link authentication.
use esp32_ota_link.Base.{
  IsBytes-replicate, ◌++◌, ◌⊎◌, false, ℕ, zero, suc, ◌≡◌, ◌↔◌, refl, List, [], ◌∷◌, none, some,
  true, arith, take, get_or, replicate, length-replicate,
}
use esp32_ota_link.Demo.Facts.{demo-ShaSized}
use esp32_ota_link.Demo.{demo_env}
use esp32_ota_link.Idf.{wrote, filled_random}
use esp32_ota_link.Protocol.Wire.{
  Packet, err_ok, error_code, buffer_size, max_payload, cmd_ack, cmd_nack, err_auth_required,
  cmd_auth, cmd_reboot,
}
use esp32_ota_link.Protocol.Sender.{Sender}
use esp32_ota_link.Protocol.Frame.{frame, writer_in_use, IsReady}
use esp32_ota_link.Auth.Hmac.{
  device_proof_prefix, nonce_size, tag_size, compute_request_digest, constant_time_equal,
  collect_diff, hmac_prefixed_nonce_pair, hmac_sha256,
}
use esp32_ota_link.Auth.Accept.{IsResponse, handshake_opens}
use esp32_ota_link.Auth.Handshake.{IsProof, handle_packet-IsProof, new_challenge}
use esp32_ota_link.Auth.Equal.{constant_time_equal_iff}
use esp32_ota_link.Auth.State.{
  AuthState, ReplayEntry, cleared, empty_entry, command_is_protected, handle_packet, proof_holds,
  complete_challenge, tag_matches,
}
use esp32_ota_link.Auth.Replay.{scan, fresh, signed_response, send_response, check_replay}
use esp32_ota_link.Auth.Cache.{IsCache}
use esp32_ota_link.Auth.Retry.{retry_same_bytes, other_request_refused}

abbrev one_two : List ℕ
one_two = 1 ∷ 2 ∷ []

abbrev one_three : List ℕ
one_three = 1 ∷ 3 ∷ []

constant_time_equal_iff_example :
    (constant_time_equal one_two one_three 2 ≡ true) ↔ (take 2 one_two ≡ take 2 one_three)
constant_time_equal_iff_example =
    constant_time_equal_iff 2 one_two one_three (omega arith) (omega arith)
      (omega arith, (omega arith, tt)) (omega arith, (omega arith, tt))

-- A session with an empty cache.
abbrev in_session : AuthState
in_session = record cleared { required = true; authenticated = true }

get_or-replicate : (n i : ℕ) (e : ReplayEntry) → get_or (replicate n e) i e ≡ e
get_or-replicate zero i e = refl
get_or-replicate (suc n) zero e = refl
get_or-replicate (suc n) (suc i) e = get_or-replicate n i e

in_session-IsCache : IsCache in_session
unfolding cleared empty_entry
in_session-IsCache = record {
  entries = refl;
  within = omega arith;
  arrays = λ i. rw (get_or-replicate 8 i empty_entry) (length-replicate {A = ℕ} max_payload 0);
}

abbrev fresh_sender : Sender
fresh_sender = record { uart_port = 0; write = none; tx_buffer = replicate buffer_size 0 }

fresh-IsReady : IsReady fresh_sender
fresh-IsReady = record { sized = length-replicate {A = ℕ} buffer_size 0 }

abbrev reboot_request : Packet
reboot_request = record {
  version = 1;
  command = cmd_reboot;
  sequence = 7;
  length = 16;
  payload = replicate max_payload 0;
}

retry_same_bytes_example :
    let response =
      frame cmd_ack 7 (signed_response demo_env in_session reboot_request cmd_ack (0 ∷ []) 1) in
    let first =
      send_response demo_env in_session fresh_sender [] reboot_request cmd_ack (0 ∷ []) 1 in
    let second = check_replay demo_env first.auth first.sender first.history reboot_request in
    (first.history ≡ wrote (writer_in_use fresh_sender) response ∷ [])
    × (second.history ≡ wrote (writer_in_use first.sender) response ∷ first.history)
    × (second.result ≡ err_ok)
    × (second.replayed ≡ true)
unfolding cleared empty_entry command_is_protected scan
retry_same_bytes_example =
    retry_same_bytes demo_env in_session fresh_sender [] reboot_request cmd_ack 1 (0 ∷ [])
      demo-ShaSized in_session-IsCache fresh-IsReady refl refl refl (omega arith) (omega arith) refl

-- A challenge that waits for its proof, and the proof.
abbrev challenged : AuthState
challenged = record cleared { required = true; pending = true; key_len = 3 }

abbrev proof_packet : Packet
proof_packet = record {
  version = 1;
  command = cmd_auth;
  sequence = 8;
  length = 32;
  payload = replicate 16 0 ++ (replicate 16 96 ++ replicate 992 0);
}

handle_packet-IsProof_example :
    (challenged.authenticated ≡ true) ⊎ IsProof demo_env challenged proof_packet
unfolding cleared empty_entry handle_packet proof_holds complete_challenge tag_matches
    constant_time_equal collect_diff hmac_prefixed_nonce_pair hmac_sha256
handle_packet-IsProof_example =
    handle_packet-IsProof demo_env fresh_sender proof_packet challenged [] refl

abbrev challenge_packet : Packet
challenge_packet = record {
  version = 1;
  command = cmd_auth;
  sequence = 9;
  length = 16;
  payload = replicate 1024 5;
}

-- The keyed hash of the concrete platform: its digest has 32 times the length of the input.
challenge_proof :
    hmac_prefixed_nonce_pair demo_env.sha device_proof_prefix in_session.key in_session.key_len
      (take nonce_size challenge_packet.payload)
      (demo_env.fill_random [] nonce_size)
    ≡ some (replicate 32 96)
unfolding cleared hmac_prefixed_nonce_pair hmac_sha256
challenge_proof = refl

new_challenge_example :
    let r = handle_packet demo_env in_session fresh_sender [] challenge_packet in
    let server = demo_env.fill_random [] nonce_size in
    (r.result ≡ err_ok)
    × (r.history
        ≡ wrote
            (writer_in_use fresh_sender)
            (frame cmd_ack 9 (error_code err_ok ∷ (server ++ take tag_size (replicate 32 96))))
          ∷ filled_random server
          ∷ [])
    × (r.auth.authenticated ≡ false)
    × (r.auth.pending ≡ true)
    × (r.auth.client_nonce ≡ take nonce_size challenge_packet.payload)
    × (r.auth.server_nonce ≡ server)
    × ((command sequence : ℕ) (digest : List ℕ)
        → scan r.auth.replay_cache command sequence digest ≡ fresh)
unfolding cleared
new_challenge_example =
    new_challenge demo_env fresh_sender challenge_packet in_session [] (replicate 32 96)
      demo-ShaSized fresh-IsReady (length-replicate {A = ℕ} nonce_size 9) refl refl challenge_proof

-- A reboot request with the same sequence number and one byte more.
abbrev other_request : Packet
other_request = record reboot_request { length = 17 }

other_request_refused_example :
    let first =
      send_response demo_env in_session fresh_sender [] reboot_request cmd_nack (6 ∷ []) 1 in
    check_replay demo_env first.auth first.sender first.history other_request ≡ record {
      sender = first.sender;
      history = first.history;
      result = err_auth_required;
      replayed = false;
    }
unfolding cleared empty_entry command_is_protected scan constant_time_equal collect_diff
    compute_request_digest
other_request_refused_example =
    other_request_refused demo_env in_session fresh_sender [] reboot_request other_request cmd_nack
      1 (6 ∷ []) in_session-IsCache refl refl refl refl refl (omega arith) refl refl

-- The proof for the challenge with the nonce of fives.
abbrev answer_packet : Packet
answer_packet = record proof_packet {
  payload = replicate 16 5 ++ (replicate 16 96 ++ replicate 992 0);
}

answer-IsResponse :
    IsResponse demo_env in_session (take 16 challenge_packet.payload) (replicate 16 9) answer_packet
unfolding cleared empty_entry hmac_prefixed_nonce_pair hmac_sha256
answer-IsResponse = record {
  two_parts = refl;
  enough = omega arith;
  nonce_is = refl;
  proof = replicate 32 96;
  computed = refl;
  proof_is = refl;
}

handshake_opens_example :
    let opened = handle_packet demo_env in_session fresh_sender [] challenge_packet in
    let r = handle_packet demo_env opened.auth fresh_sender [] answer_packet in
    (opened.result ≡ err_ok)
    × (r.result ≡ err_ok)
    × (r.auth.authenticated ≡ true)
    × (r.auth.session_key ≡ replicate 32 96)
unfolding cleared hmac_prefixed_nonce_pair hmac_sha256
handshake_opens_example =
    handshake_opens demo_env demo-ShaSized in_session fresh_sender fresh_sender [] []
      challenge_packet answer_packet (replicate 32 96) refl refl (omega arith)
      (IsBytes-replicate 1024 5 (omega arith)) refl answer-IsResponse
