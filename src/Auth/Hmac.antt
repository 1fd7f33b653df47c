-- ===== src/Auth/Hmac.antt =====
-- The hashes of auth.c over `esp_sha`: `hmac_sha256`, `constant_time_equal`,
-- `hmac_prefixed_nonce_pair` and the three digests of requests and responses. `none` is the
-- result false. A buffer that is filled from its start is the list of the bytes written.
use esp32_ota_link.Base.{
  ℕ, zero, suc, ◌+◌, List, [], ◌∷◌, ◌++◌, map, Option, none, some, Bool, ltb, ◌==◌, if◌then◌else◌,
  take, drop, get_or, overwrite, replicate, length, bit_and, bit_or, bit_xor, u8, ◌>>>◌,
}
use esp32_ota_link.Protocol.Wire.{Packet}

abbrev pub nonce_size : ℕ
nonce_size = 16

abbrev pub tag_size : ℕ
tag_size = 16

abbrev pub hmac_block_size : ℕ
hmac_block_size = 64

-- (sizeof("response") - 1) + 4 + PROTOCOL_MAX_PAYLOAD.
abbrev pub hmac_max_data_size : ℕ
hmac_max_data_size = 1036

abbrev pub auth_proof_prefix : List ℕ
auth_proof_prefix = b'a' ∷ b'u' ∷ b't' ∷ b'h' ∷ b'-' ∷ b'p' ∷ b'r' ∷ b'o' ∷ b'o' ∷ b'f' ∷ []

abbrev pub device_proof_prefix : List ℕ
device_proof_prefix =
    b'd' ∷ b'e' ∷ b'v' ∷ b'i' ∷ b'c' ∷ b'e' ∷ b'-' ∷ b'p' ∷ b'r' ∷ b'o' ∷ b'o' ∷ b'f' ∷ []

abbrev pub session_prefix : List ℕ
session_prefix = b's' ∷ b'e' ∷ b's' ∷ b's' ∷ b'i' ∷ b'o' ∷ b'n' ∷ []

abbrev pub response_prefix : List ℕ
response_prefix = b'r' ∷ b'e' ∷ b's' ∷ b'p' ∷ b'o' ∷ b'n' ∷ b's' ∷ b'e' ∷ []

module _ (sha : List ℕ → List ℕ) where
  -- `key_block` after the test on `key_len`; `key` is not NULL.
  pub key_block : List ℕ → ℕ → List ℕ
  key_block key key_len =
      overwrite (replicate hmac_block_size 0) 0
        (if ltb hmac_block_size key_len then sha (take key_len key) else take key_len key)

  unfoldable pub hmac_sha256 : List ℕ → ℕ → List ℕ → ℕ → Option (List ℕ)
  unfolding key_block
  hmac_sha256 key key_len input data_len =
      let block = key_block key key_len in
      let inner_input = map (λ b. bit_xor b 0x36) block ++ take data_len input in
      let outer_input = map (λ b. bit_xor b 0x5c) block ++ sha inner_input in
      if ltb hmac_max_data_size data_len then none else some (sha outer_input)

  unfoldable pub hmac_prefixed_nonce_pair : List ℕ → List ℕ → ℕ → List ℕ → List ℕ → Option (List ℕ)
  hmac_prefixed_nonce_pair prefix key key_len client_nonce server_nonce =
      let input = prefix ++ (take nonce_size client_nonce ++ take nonce_size server_nonce) in
      if ltb 64 (length prefix + 32)
      then none
      else hmac_sha256 key key_len input (length prefix + 32)

  unfoldable pub compute_request_digest : Packet → List ℕ
  compute_request_digest p = sha (
      p.command
      ∷ bit_and p.sequence 0xff
      ∷ bit_and (p.sequence >>> 8) 0xff
      ∷ take p.length p.payload)

  unfoldable pub compute_packet_tag : List ℕ → ℕ → ℕ → List ℕ → ℕ → Option (List ℕ)
  compute_packet_tag session_key command sequence payload length =
      let input =
        command ∷ bit_and sequence 0xff ∷ bit_and (sequence >>> 8) 0xff ∷ take length payload in
      hmac_sha256 session_key 32 input (3 + length)

  unfoldable pub compute_response_tag : List ℕ → ℕ → ℕ → ℕ → List ℕ → ℕ → Option (List ℕ)
  compute_response_tag session_key request_command response_command sequence payload length =
      let input =
        response_prefix
        ++ (request_command
            ∷ response_command
            ∷ bit_and sequence 0xff
            ∷ bit_and (sequence >>> 8) 0xff
            ∷ take length payload) in
      hmac_sha256 session_key 32 input (12 + length)

-- The loop of `constant_time_equal`, with the rounds left.
unfoldable pub collect_diff : ℕ → List ℕ → List ℕ → ℕ → ℕ
collect_diff diff left right zero = diff
collect_diff diff left right (suc n) =
    collect_diff (u8 (bit_or diff (bit_xor (get_or left 0 0) (get_or right 0 0)))) (drop 1 left)
      (drop 1 right) n

unfoldable pub constant_time_equal : List ℕ → List ℕ → ℕ → Bool
unfolding collect_diff
constant_time_equal left right length = collect_diff 0 left right length == 0
