-- ===== src/Commands/Quiet.antt =====
-- What the answers of `commands_handle_packet` of commands.c, and its commands without a gate, do
-- besides sending.
use esp32_ota_link.Base.{◌≡◌, refl, ◌∙◌, [], ◌∷◌, Option, none, some, true, if_cases}
use esp32_ota_link.Idf.{Env}
use esp32_ota_link.Protocol.Wire.{
  Packet, ProtocolError, err_ok, err_invalid_length, error_code, cmd_ack, cmd_nack, cmd_info,
  max_payload,
}
use esp32_ota_link.Auth.State.{AuthRun, handle_packet}
use esp32_ota_link.Auth.Replay.{respond_ack, respond_nack}
use esp32_ota_link.Auth.Quiet.{
  effects, send_packet-effects, send_ack-effects, send_nack-effects, send_response-effects,
  handle_packet-effects,
}
use esp32_ota_link.Info.Build.{Out, build_payload}
use esp32_ota_link.Commands.{
  App, is_err_ok, plain_ack, plain_nack, ack, nack, answer, sent_info, handle_get_info, handle_auth,
}

pub is_err_ok_lem : (e : ProtocolError) → is_err_ok e ≡ true → e ≡ err_ok
is_err_ok_lem err_ok h = refl
is_err_ok_lem _ h = absurd (cc)

-- What a command may do behind the gate's back: nothing but send, draw random numbers and keep the
-- statics of `auth.c` and the buffer of the device information.
pub record IsQuiet (a r : App) : Type 0 where
  pub ota_same : r.ota ≡ a.ota
  pub effects_same : effects r.history ≡ effects a.history

module _ (env : Env) (p : Packet) where
  pub IsQuiet-after : {a b r : App} → IsQuiet a b → IsQuiet b r → IsQuiet a r
  IsQuiet-after q t = record {
    ota_same = t.ota_same ∙ q.ota_same;
    effects_same = t.effects_same ∙ q.effects_same;
  }

  pub plain_nack-IsQuiet : (a : App) (e : ProtocolError) → IsQuiet a (plain_nack a p e)
  unfolding plain_nack
  plain_nack-IsQuiet a e = record {
    ota_same = refl;
    effects_same = send_nack-effects a.sender p.sequence e a.history;
  }

  pub plain_ack-IsQuiet : (a : App) → IsQuiet a (plain_ack a p)
  unfolding plain_ack
  plain_ack-IsQuiet a = record {
    ota_same = refl;
    effects_same = send_ack-effects a.sender p.sequence a.history;
  }

  pub nack-IsQuiet : (a : App) (e : ProtocolError) → IsQuiet a (nack env a p e)
  unfolding nack respond_nack
  nack-IsQuiet a e = record {
    ota_same = refl;
    effects_same =
        send_response-effects env a.auth a.sender a.history p cmd_nack (error_code e ∷ []) 1;
  }

  pub ack-IsQuiet : (a : App) → IsQuiet a (ack env a p)
  unfolding ack respond_ack
  ack-IsQuiet a = record {
    ota_same = refl;
    effects_same =
        send_response-effects env a.auth a.sender a.history p cmd_ack (error_code err_ok ∷ []) 1;
  }

  pub answer-IsQuiet : (a : App) (e : ProtocolError) → IsQuiet a (answer env a p e)
  unfolding answer
  answer-IsQuiet a e =
      if_cases (IsQuiet a) (is_err_ok e) (λ ok. ack-IsQuiet a) (λ bad. nack-IsQuiet a e)

  sent_info-IsQuiet : (a : App) (o : Option Out) → IsQuiet a (sent_info env a p o)
  unfolding sent_info
  sent_info-IsQuiet a none = plain_nack-IsQuiet a err_invalid_length
  sent_info-IsQuiet a (some o) = record {
    ota_same = refl;
    effects_same =
        send_packet-effects a.sender cmd_info p.sequence (some o.buffer) o.offset a.history;
  }

  pub handle_auth-IsQuiet : (a : App) → IsQuiet a (handle_auth env a p)
  unfolding handle_auth
  handle_auth-IsQuiet a =
      if_cases (IsQuiet a) (is_err_ok run.result) (λ ok. handled)
        (λ bad. IsQuiet-after handled (plain_nack-IsQuiet a' run.result))
    where
      run : AuthRun
      run = handle_packet env a.auth a.sender a.history p

      a' : App
      a' = record a { auth = run.auth; sender = run.sender; history = run.history }

      handled : IsQuiet a a'
      handled = record {
        ota_same = refl;
        effects_same = handle_packet-effects env a.sender p a.auth a.history;
      }

  pub get_info-IsQuiet : (a : App) → IsQuiet a (handle_get_info env a p)
  unfolding handle_get_info
  get_info-IsQuiet a =
      sent_info-IsQuiet a (build_payload env a.history a.boot_count a.info_payload max_payload)
