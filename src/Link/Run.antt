-- ===== src/Link/Run.antt =====
-- The command task of ota_link.c over any run of reads: the invariant of the whole device.
use esp32_ota_link.Idf.Traffic.{is_stopped}
use esp32_ota_link.Base.{
  ℕ, ◌+◌, ◌≤◌, ◌≡◌, refl, sym, ap, subst, ◌∙◌, List, [], ◌∷◌, ◌++◌, true, false, arith, ltb, ◌==◌,
  if_cases, length, take, drop, length-overwrite,
}
use esp32_ota_link.Idf.{Env, delayed}
use esp32_ota_link.Protocol.Wire.{Packet, magic_0, magic_1, max_payload, buffer_size}
use esp32_ota_link.Protocol.Parser.{Fed, feed, parser_init}
use esp32_ota_link.Protocol.Parser.Stream.{Outcome, more, whole, declared, crc_holds, accept, next}
use esp32_ota_link.Protocol.Parser.Refines.{Agrees, feed-Agrees}
use esp32_ota_link.Protocol.Parser.Safety.{IsWellFormed, feed-IsWellFormed}
use esp32_ota_link.Ota.Invariant.{SmallPartitions}
use esp32_ota_link.Commands.Keeps.{AppInv, OtaInv-same, handle-AppInv}
use esp32_ota_link.Link.{
  Link, Read, byte, timed_out, failed, deliver, task_step, task_loop, run_task,
}

-- A packet that the parser accepts declares at most the size of the payload array.
abbrev IsSmall : Outcome → Type 0
IsSmall (more seen) = Unit
IsSmall (whole seen) = declared seen ≤ max_payload

accept-IsSmall : (seen : List ℕ) → IsSmall (accept seen)
unfolding accept
accept-IsSmall seen =
    if_cases IsSmall (ltb (length seen) 8) (λ e. tt)
      (λ e.
        if_cases IsSmall (ltb max_payload (declared seen)) (λ e. tt)
          (λ fits.
            if_cases IsSmall (ltb (length seen) (8 + declared seen + 4)) (λ e. tt)
              (λ e. if_cases IsSmall (crc_holds seen) (λ e. ground (arith, fits)) (λ e. tt))))

next-IsSmall : (seen : List ℕ) (b : ℕ) → IsSmall (next seen b)
unfolding next
next-IsSmall [] b = if_cases IsSmall (b == magic_0) (λ e. tt) (λ e. tt)
next-IsSmall (x ∷ []) b =
    if_cases IsSmall (b == magic_1) (λ e. tt)
      (λ e. if_cases IsSmall (b == magic_0) (λ e. tt) (λ e. tt))
next-IsSmall (x ∷ y ∷ seen) b = accept-IsSmall (x ∷ y ∷ (seen ++ (b ∷ [])))

-- The packet behind the pointer after a byte: its array has its size, and what was delivered fits.
abbrev IsDelivery : Fed → Type 0
IsDelivery r = (length r.1.payload ≡ max_payload) × (r.2 ≡ true → r.1.length ≤ max_payload)

Agrees-IsDelivery :
    (o : Outcome) (packet : Packet) (r : Fed)
    → length packet.payload ≡ max_payload
    → IsSmall o
    → Agrees o packet r
    → IsDelivery r
Agrees-IsDelivery (more seen) packet r array small (held, same, none_yet) =
    (ap (λ (q : Packet). length q.payload) same ∙ array, λ e. absurd (cc))
Agrees-IsDelivery (whole seen) packet r array small (held, same, done) = (
  ap (λ (q : Packet). length q.payload) same
      ∙ length-overwrite packet.payload 0 (take (declared seen) (drop 8 seen))
      ∙ array,
  λ e. subst (λ n. n ≤ max_payload) (sym (ap (λ (q : Packet). q.length) same)) small,
)

-- The parser is well-formed, the packet's array has its size, and the OTA session agrees with the
-- flash.
pub record DeviceInv (l : Link) : Type 0 where
  pub parses : IsWellFormed l.parser
  pub array : length l.packet.payload ≡ max_payload
  pub app_inv : AppInv l.app

module _ (env : Env) (small : SmallPartitions env) where
  deliver-DeviceInv :
      (l : Link) (r : Fed)
      → IsWellFormed r.0
      → IsDelivery r
      → AppInv l.app
      → DeviceInv (deliver env l r)
  unfolding deliver
  deliver-DeviceInv l (parser, packet, true) parses (array, fits) v = record {
    parses = parses;
    array = array;
    app_inv = handle-AppInv env packet l.app small (omega (arith, fits refl, array)) v;
  }
  deliver-DeviceInv l (parser, packet, false) parses (array, fits) v = record {
    parses = parses;
    array = array;
    app_inv = v;
  }

  pub task_step-DeviceInv : (l : Link) (r : Read) → DeviceInv l → DeviceInv (task_step env l r)
  unfolding task_step
  task_step-DeviceInv l (byte b) v =
      deliver-DeviceInv l (feed l.parser b l.packet)
        ((feed-IsWellFormed l.parser b l.packet).1 v.parses).0
        (Agrees-IsDelivery (next v.parses.seen b) l.packet (feed l.parser b l.packet) v.array
          (next-IsSmall v.parses.seen b)
          (feed-Agrees l.parser v.parses.seen b l.packet v.parses.incomplete v.parses.held))
        v.app_inv
  task_step-DeviceInv l timed_out v = v
  task_step-DeviceInv l failed v = record {
    parses = v.parses;
    array = v.array;
    app_inv = OtaInv-same l.app.ota l.app.history (delayed 10 ∷ l.app.history) refl refl v.app_inv;
  }

  task_loop-DeviceInv :
      (l : Link) (reads : List Read) → DeviceInv l → DeviceInv (task_loop env l reads)
  unfolding task_loop
  task_loop-DeviceInv l [] v = v
  task_loop-DeviceInv l (r ∷ rs) v =
      if_cases DeviceInv (is_stopped l.app.history) (λ stopped. v)
        (λ runs. task_loop-DeviceInv (task_step env l r) rs (task_step-DeviceInv l r v))

  -- The command task, from a device whose arrays have their sizes and whose OTA session agrees with
  -- the flash: whatever its reads give (bytes, timeouts, errors), the parser stays well-formed, the
  -- packet's array keeps its size, and the OTA session agrees with the flash, where the update
  -- partition leaves room below 4 GB.
  pub run_task-DeviceInv :
      (l : Link) (reads : List Read)
      → length l.parser.buffer ≡ buffer_size
      → length l.packet.payload ≡ max_payload
      → AppInv l.app
      → DeviceInv (run_task env l reads)
  unfolding run_task
  run_task-DeviceInv l reads sized array v =
      task_loop-DeviceInv (record l { parser = parser_init l.parser }) reads
        (record {
          parses = (feed-IsWellFormed l.parser 0 l.packet).0 sized;
          array = array;
          app_inv = v;
        })
