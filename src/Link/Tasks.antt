-- ===== src/Link/Tasks.antt =====
-- The tasks that run over the statics of ota_link.c: the command task and `mark_valid_task`. The
-- scheduler may switch between any two calls that are steps here; the two tasks share the platform
-- and nothing else (the command task reads no handle, the other task no parser, session or buffer).
use esp32_ota_link.Base.{◌∷◌, none, ◌≡◌}
use esp32_ota_link.Idf.{Env, mark_valid_task, delayed, task_deleted}
use esp32_ota_link.Link.{Link, Read, with_history, task_step}
use esp32_ota_link.Link.Validate.{mark_app_valid}

-- Where `mark_valid_task` stands: before its delay, before the confirmation, before the end.
pub data MarkPc : Type 0 where
  absent sleeping marking leaving : MarkPc

pub record Device : Type 0 where
  pub link : Link
  pub marker : MarkPc

module _ (env : Env) where
  -- `vTaskDelay(pdMS_TO_TICKS(s_config.auto_mark_valid_delay_ms))`.
  unfoldable pub mark_sleep : Link → Link
  mark_sleep l = with_history l (delayed l.config.auto_mark_valid_delay_ms ∷ l.app.history)

  -- `ota_link_mark_app_valid()`; its result only reaches the log.
  unfoldable pub mark_confirm : Link → Link
  mark_confirm l = with_history l (mark_app_valid env l.app.history).0

  -- `s_mark_valid_task_handle = NULL; vTaskDelete(NULL);`.
  unfoldable pub mark_leave : Link → Link
  mark_leave l = record (with_history l (task_deleted mark_valid_task ∷ l.app.history)) {
    mark_valid_task_handle = none;
  }

-- One step of one task.
pub data Step (env : Env) (d : Device) : Device → Type 0 where
  receive : (r : Read) → Step env d (record d { link = task_step env d.link r })
  sleep :
      d.marker ≡ MarkPc.sleeping
      → Step env d (record { link = mark_sleep env d.link; marker = MarkPc.marking })
  confirm :
      d.marker ≡ MarkPc.marking
      → Step env d (record { link = mark_confirm env d.link; marker = MarkPc.leaving })
  leave :
      d.marker ≡ MarkPc.leaving
      → Step env d (record { link = mark_leave env d.link; marker = MarkPc.absent })

pub data Reach (env : Env) (d : Device) : Device → Type 0 where
  here : Reach env d d
  later : {e f : Device} → Reach env d e → Step env e f → Reach env d f
