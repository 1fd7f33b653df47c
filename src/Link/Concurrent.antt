-- ===== src/Link/Concurrent.antt =====
-- The command task and `mark_valid_task` of ota_link.c together: the device's invariant holds in
-- every interleaving of their steps.
use esp32_ota_link.Base.{◌≡◌, refl, Option, not, if_cases}
use esp32_ota_link.Idf.{Env, History, EspErr, ImgState, is_ok}
use esp32_ota_link.Ota.Staged.{staged, opened}
use esp32_ota_link.Ota.Invariant.{SmallPartitions}
use esp32_ota_link.Commands.Keeps.{OtaInv-same}
use esp32_ota_link.Link.{Link, with_history}
use esp32_ota_link.Link.Validate.{mark_app_valid, is_unconfirmed, or_undefined}
use esp32_ota_link.Link.Tasks.{
  Device, mark_sleep, mark_confirm, mark_leave, Step, receive, sleep, confirm, leave, Reach, here,
  later,
}
use esp32_ota_link.Link.Run.{DeviceInv, task_step-DeviceInv}

-- Calls that leave the image and the session alone keep the invariant.
with_history-DeviceInv :
    (l : Link) (h : History)
    → staged l.app.history ≡ staged h
    → opened l.app.history ≡ opened h
    → DeviceInv l
    → DeviceInv (with_history l h)
with_history-DeviceInv l h image session v = record {
  parses = v.parses;
  array = v.array;
  app_inv = OtaInv-same l.app.ota l.app.history h image session v.app_inv;
}

module _ (env : Env) where
  mark_confirm-DeviceInv : (l : Link) → DeviceInv l → DeviceInv (mark_confirm env l)
  unfolding mark_confirm mark_app_valid
  mark_confirm-DeviceInv l v =
      if_cases P (not (is_ok state.0)) (λ e. v)
        (λ e.
          if_cases P (not (is_unconfirmed (or_undefined state.1))) (λ e. v)
            (λ e. with_history-DeviceInv l _ refl refl v))
    where
      h : History
      h = l.app.history

      state : EspErr × Option ImgState
      state = env.state_partition h (env.running_partition h)

      P : History × EspErr → Type 0
      P r = DeviceInv (with_history l r.0)

  Step-DeviceInv :
      SmallPartitions env → {d e : Device} → DeviceInv d.link → Step env d e → DeviceInv e.link
  unfolding mark_sleep mark_leave
  Step-DeviceInv small {d = d} v (receive r) = task_step-DeviceInv env small d.link r v
  Step-DeviceInv small {d = d} v (sleep at) = with_history-DeviceInv d.link _ refl refl v
  Step-DeviceInv small {d = d} v (confirm at) = mark_confirm-DeviceInv d.link v
  Step-DeviceInv small {d = d} v (leave at) = record {
    parses = v.parses;
    array = v.array;
    app_inv = (with_history-DeviceInv d.link _ refl refl v).app_inv;
  }

  -- However the scheduler interleaves the command task (with any bytes, timeouts and errors from the
  -- transport) and `mark_valid_task`, from a device whose parser is well-formed, whose packet array
  -- has its size and whose OTA session agrees with the flash: this is so after every step, where the
  -- update partition leaves room below 4 GB.
  pub Reach-DeviceInv :
      SmallPartitions env → {d e : Device} → DeviceInv d.link → Reach env d e → DeviceInv e.link
  Reach-DeviceInv small v here = v
  Reach-DeviceInv small v (later steps step) =
      Step-DeviceInv small (Reach-DeviceInv small v steps) step
