-- ===== src/Commands/Keeps.antt =====
-- The OTA invariant over whole packets: what `commands_handle_packet` leaves.
use esp32_ota_link.Base.{
  ℕ, ◌-◌, ◌≤◌, ◌≡◌, refl, sym, ap, subst, ◌∙◌, [], ◌∷◌, ◌++◌, not, ◌||◌, arith, ltb, ◌!=◌, if_cases,
  Bool-cases, inl, inr, length, drop,
}
use esp32_ota_link.Idf.{Env, History, wrote, filled_random, ota_began, ota_wrote, esp_ok}
use esp32_ota_link.Protocol.Wire.{Packet, ProtocolError, err_invalid_length}
use esp32_ota_link.Ota.{OtaState, OtaRun}
use esp32_ota_link.Ota
use esp32_ota_link.Ota.Staged.{staged, opened}
use esp32_ota_link.Ota.Invariant.{
  OtaInv, SmallPartitions, begin-Keeps, write_data-Keeps, abort-Keeps, finish-Keeps,
}
use esp32_ota_link.Auth.Hmac.{tag_size, compute_packet_tag}
use esp32_ota_link.Auth.State.{AuthState, command_is_protected, tag_matches, unwrap_packet}
use esp32_ota_link.Auth.Replay.{Checked, check_replay}
use esp32_ota_link.Auth.Quiet.{effects, check_replay-effects}
use esp32_ota_link.Commands.Cases.{
  GatedCommand, reboots, rollbacks, begins, aborts, writes, ends, fresh_of, handle_cases,
}
use esp32_ota_link.Commands.Quiet.{
  IsQuiet, plain_nack-IsQuiet, plain_ack-IsQuiet, nack-IsQuiet, ack-IsQuiet, answer-IsQuiet,
  handle_auth-IsQuiet, get_info-IsQuiet,
}
use esp32_ota_link.Commands.{
  App, is_err_ok, ack, nack, with_ota, handle_authenticated_replay, guarded, handle, reboot_fresh,
  rollback_fresh, with_payload_fresh, without_payload_fresh,
}

-- What is staged, and the open session, are matters of the effects.
staged-effects : (h : History) → staged (effects h) ≡ staged h
staged-effects [] = refl
staged-effects (wrote w bytes ∷ h) = staged-effects h
staged-effects (filled_random bytes ∷ h) = staged-effects h
staged-effects (ota_began p n k esp_ok ∷ h) = refl
staged-effects (ota_wrote k bytes esp_ok ∷ h) = ap (λ t. t ++ bytes) (staged-effects h)
staged-effects (_ ∷ h) = staged-effects h

opened-effects : (h : History) → opened (effects h) ≡ opened h
opened-effects [] = refl
opened-effects (wrote w bytes ∷ h) = opened-effects h
opened-effects (filled_random bytes ∷ h) = opened-effects h
opened-effects (ota_began p n k esp_ok ∷ h) = refl
opened-effects (_ ∷ h) = opened-effects h

pub OtaInv-same :
    (s : OtaState) (h h' : History)
    → staged h ≡ staged h'
    → opened h ≡ opened h'
    → OtaInv s h
    → OtaInv s h'
OtaInv-same s h h' image session v = record {
  open_session = λ a.
      let o = v.open_session a in
      record {
        session = sym session ∙ o.session;
        received = ap length (sym image) ∙ o.received;
        within = o.within;
        no_wrap = o.no_wrap;
        last_end = o.last_end;
        last_small = o.last_small;
        last_sized = o.last_sized;
        last_bytes = o.last_bytes ∙ ap (drop s.last_chunk_offset) image;
        digest_sized = o.digest_sized;
      };
  closed_session = v.closed_session;
}

abbrev pub AppInv : App → Type 0
AppInv a = OtaInv a.ota a.history

IsQuiet-AppInv : (a r : App) → IsQuiet a r → AppInv a → AppInv r
IsQuiet-AppInv a r q v =
    subst (λ s. OtaInv s r.history) (sym q.ota_same)
      (OtaInv-same a.ota a.history r.history
        (sym (staged-effects a.history) ∙ ap staged (sym q.effects_same) ∙ staged-effects r.history)
        (sym (opened-effects a.history) ∙ ap opened (sym q.effects_same) ∙ opened-effects r.history)
        v)

-- The payload left of a request is a part of it.
unwrap_packet-length :
    (env : Env) (s : AuthState) (p : Packet) → (unwrap_packet env s p).1 ≤ p.length
unfolding unwrap_packet
unwrap_packet-length env s p =
    if_cases P (not s.required || not (command_is_protected p.command)) (λ e. omega arith)
      (λ e.
        if_cases P (not s.authenticated || ltb p.length tag_size) (λ e. omega arith)
          (λ e.
            if_cases P
              (not (
                tag_matches env (drop (p.length - tag_size) p.payload) (
                  compute_packet_tag env.sha s.session_key p.command p.sequence p.payload
                    (p.length - tag_size))))
              (λ e. omega arith) (λ e. omega arith)))
  where
    P : ProtocolError × ℕ → Type 0
    P r = r.1 ≤ p.length

module _ (env : Env) (p : Packet) where
  nack-AppInv : (a : App) (e : ProtocolError) → AppInv a → AppInv (nack env a p e)
  nack-AppInv a e v = IsQuiet-AppInv a _ (nack-IsQuiet env p a e) v

  -- An acknowledgement, and calls after it that leave the image alone.
  acked-AppInv :
      (a : App) (h : History)
      → staged (ack env a p).history ≡ staged h
      → opened (ack env a p).history ≡ opened h
      → AppInv a
      → AppInv (record (ack env a p) { history = h })
  acked-AppInv a h image session v =
      OtaInv-same (ack env a p).ota (ack env a p).history h image session
        (IsQuiet-AppInv a (ack env a p) (ack-IsQuiet env p a) v)

  without_payload-AppInv :
      (operation : OtaState → History → OtaRun)
      → ((s : OtaState) (h : History)
          → OtaInv s h
          → OtaInv (operation s h).state (operation s h).history)
      → (a : App) → AppInv a
      → AppInv (without_payload_fresh env operation a p)
  unfolding without_payload_fresh
  without_payload-AppInv operation keeps a v =
      if_cases AppInv (not (is_err_ok (unwrap_packet env a.auth p).0))
        (λ bad. IsQuiet-AppInv a _ (answer-IsQuiet env p a _) v)
        (λ ok.
          if_cases AppInv ((unwrap_packet env a.auth p).1 != 0)
            (λ long. IsQuiet-AppInv a _ (answer-IsQuiet env p a err_invalid_length) v)
            (λ empty.
              let run = operation a.ota a.history in
              IsQuiet-AppInv (with_ota a run) _ (answer-IsQuiet env p (with_ota a run) run.result)
                (keeps a.ota a.history v)))

  fresh_of-AppInv :
      (o : GatedCommand) (a : App)
      → SmallPartitions env
      → p.length ≤ length p.payload
      → AppInv a
      → AppInv (fresh_of env o a p)
  unfolding reboot_fresh rollback_fresh with_payload_fresh
  fresh_of-AppInv reboots a small enough v =
      if_cases AppInv
        (not (is_err_ok (unwrap_packet env a.auth p).0) || (unwrap_packet env a.auth p).1 != 0)
        (λ bad. nack-AppInv a _ v)
        (λ good.
          if_cases AppInv (Ota.is_active a.ota) (λ busy. nack-AppInv a _ v)
            (λ idle. acked-AppInv a _ refl refl v))
  fresh_of-AppInv rollbacks a small enough v =
      if_cases AppInv
        (not (is_err_ok (unwrap_packet env a.auth p).0) || (unwrap_packet env a.auth p).1 != 0)
        (λ bad. nack-AppInv a _ v)
        (λ good.
          if_cases AppInv (Ota.is_active a.ota) (λ busy. nack-AppInv a _ v)
            (λ idle.
              if_cases AppInv (not (env.rollback_possible a.history)) (λ no. nack-AppInv a _ v)
                (λ yes. acked-AppInv a _ refl refl v)))
  fresh_of-AppInv begins a small enough v =
      if_cases AppInv (is_err_ok (unwrap_packet env a.auth p).0)
        (λ ok.
          let run = Ota.begin env a.ota a.history p.payload (unwrap_packet env a.auth p).1 in
          IsQuiet-AppInv (with_ota a run) _ (answer-IsQuiet env p (with_ota a run) run.result)
            (begin-Keeps env a.ota a.history p.payload (unwrap_packet env a.auth p).1 small v))
        (λ bad. IsQuiet-AppInv a _ (answer-IsQuiet env p a _) v)
  fresh_of-AppInv writes a small enough v =
      if_cases AppInv (is_err_ok (unwrap_packet env a.auth p).0)
        (λ ok.
          let run = Ota.write_data env a.ota a.history p.payload (unwrap_packet env a.auth p).1 in
          IsQuiet-AppInv (with_ota a run) _ (answer-IsQuiet env p (with_ota a run) run.result) (
            write_data-Keeps env a.ota a.history p.payload (unwrap_packet env a.auth p).1
              (omega (arith, unwrap_packet-length env a.auth p)) v))
        (λ bad. IsQuiet-AppInv a _ (answer-IsQuiet env p a _) v)
  fresh_of-AppInv aborts a small enough v =
      without_payload-AppInv (Ota.abort env) (abort-Keeps env) a v
  fresh_of-AppInv ends a small enough v =
      without_payload-AppInv (Ota.finish env) (finish-Keeps env) a v

  guarded-AppInv :
      (o : GatedCommand) (a : App)
      → SmallPartitions env
      → p.length ≤ length p.payload
      → AppInv a
      → AppInv (guarded env (fresh_of env o) a p)
  unfolding guarded handle_authenticated_replay
  guarded-AppInv o a small enough v = elim (Bool-cases (is_err_ok checked.result)) [
    | inl ok ↦ rw ok (
        if_cases AppInv checked.replayed (λ again. seen)
          (λ first. fresh_of-AppInv o a' small enough seen))
    | inr bad ↦ rw bad (nack-AppInv a' checked.result seen)
  ]
    where
      checked : Checked
      checked = check_replay env a.auth a.sender a.history p

      a' : App
      a' = record a { sender = checked.sender; history = checked.history }

      seen : AppInv a'
      seen =
          IsQuiet-AppInv a a'
            (record {
              ota_same = refl;
              effects_same = check_replay-effects env a.auth a.sender a.history p;
            })
            v

  -- Whatever packet arrives, with a payload that lies within its array: after
  -- `commands_handle_packet` the OTA session in RAM still agrees with what was written to flash,
  -- where the update partition leaves room below 4 GB.
  pub handle-AppInv :
      (a : App)
      → SmallPartitions env
      → p.length ≤ length p.payload
      → AppInv a
      → AppInv (handle env a p)
  handle-AppInv a small enough v =
      handle_cases env a p AppInv (λ other. quiet (plain_nack-IsQuiet env p a _))
        (λ free. quiet (plain_ack-IsQuiet env p a)) (λ free. quiet (get_info-IsQuiet env p a))
        (λ free. quiet (handle_auth-IsQuiet env p a)) (λ free. quiet (plain_nack-IsQuiet env p a _))
        (λ o prot. guarded-AppInv o a small enough v)
    where
      quiet : {r : App} → IsQuiet a r → AppInv r
      quiet {r = r} q = IsQuiet-AppInv a r q v
