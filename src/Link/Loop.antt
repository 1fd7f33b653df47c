-- ===== src/Link/Loop.antt =====
-- The command loop of ota_link.c on bytes, as the parser and the dispatcher see them.
use esp32_ota_link.Base.{
  Bool, Bool-cases, inl, inr, sym, ℕ, ◌≡◌, refl, ap, ◌∙◌, List, [], ◌∷◌, ◌++◌, map, true, false,
  if◌then◌else◌,
}
use esp32_ota_link.Idf.{Env}
use esp32_ota_link.Idf.Traffic.{is_stopped}
use esp32_ota_link.Protocol.Wire.{Packet}
use esp32_ota_link.Protocol.Parser.{Fed, feed}
use esp32_ota_link.Protocol.Parser.Run.{feed_all}
use esp32_ota_link.Commands.{App, handle}
use esp32_ota_link.Link.{Link, byte, deliver, task_step, task_loop}

module _ (env : Env) where
  -- The dispatcher on packet after packet.
  unfoldable pub handle_all : App → List Packet → App
  handle_all a [] = a
  handle_all a (p ∷ ps) = handle_all (handle env a p) ps

  -- The command task over these bytes.
  unfoldable pub receive : Link → List ℕ → Link
  receive l bytes = task_loop env l (map byte bytes)

  -- What the parser and the dispatcher make of the bytes, one after the other.
  abbrev pub settled : Link → List ℕ → Link
  settled l bytes =
      let r = feed_all l.parser l.packet bytes in
      record l { parser = r.0; packet = r.1; app = handle_all l.app r.2 }

  deliver-settled :
      (l : Link) (r : Fed) (bytes : List ℕ)
      → settled (deliver env l r) bytes ≡ (
          let rest = feed_all r.0 r.1 bytes in
          let packets = if r.2 then r.1 ∷ rest.2 else rest.2 in
          record l { parser = rest.0; packet = rest.1; app = handle_all l.app packets })
  unfolding deliver handle_all
  deliver-settled l (p, q, true) bytes = refl
  deliver-settled l (p, q, false) bytes = refl

  -- On none of these packets the device restarts.
  abbrev pub Survives : App → List Packet → Type 0
  Survives a [] = is_stopped a.history ≡ false
  Survives a (p ∷ ps) = (is_stopped a.history ≡ false) × Survives (handle env a p) ps

  Survives-runs : (a : App) (ps : List Packet) → Survives a ps → is_stopped a.history ≡ false
  Survives-runs a [] s = s
  Survives-runs a (p ∷ ps) s = s.0

  -- What is to survive, after the first byte.
  deliver-Survives :
      (l : Link) (r : Fed) (bytes : List ℕ)
      → (let rest = feed_all r.0 r.1 bytes in Survives l.app (if r.2 then r.1 ∷ rest.2 else rest.2))
      → (is_stopped l.app.history ≡ false)
        × (let l' = deliver env l r in Survives l'.app (feed_all l'.parser l'.packet bytes).2)
  unfolding deliver
  deliver-Survives l (p, q, true) bytes s = s
  deliver-Survives l (p, q, false) bytes s = (Survives-runs l.app (feed_all p q bytes).2 s, s)

  -- Over bytes on which the device does not restart, the command task leaves what
  -- `protocol_parser_feed` leaves of the parser and of the packet, and what
  -- `commands_handle_packet` makes of the delivered packets, in their order.
  pub receive_lem :
      (l : Link) (bytes : List ℕ)
      → Survives l.app (feed_all l.parser l.packet bytes).2
      → receive l bytes ≡ settled l bytes
  unfolding receive task_loop task_step feed_all handle_all
  receive_lem l [] s = refl
  receive_lem l (b ∷ bs) s =
      let fed = feed l.parser b l.packet in
      let next = deliver-Survives l fed bs s in
      ap (λ (t : Bool). if t then l else receive (deliver env l fed) bs) next.0
      ∙ receive_lem (deliver env l fed) bs next.1
      ∙ deliver-settled l fed bs

  receive_stopped :
      (l : Link) (bytes : List ℕ) → is_stopped l.app.history ≡ true → receive l bytes ≡ l
  unfolding receive task_loop
  receive_stopped l [] s = refl
  receive_stopped l (b ∷ bs) s = rw s refl

  pub receive-append :
      (l : Link) (xs ys : List ℕ) → receive l (xs ++ ys) ≡ receive (receive l xs) ys
  unfolding receive task_loop
  receive-append l [] ys = refl
  receive-append l (x ∷ xs) ys = elim (Bool-cases (is_stopped l.app.history)) [
    | inl s ↦ rw s (sym (receive_stopped l ys s))
    | inr s ↦ rw s (receive-append (task_step env l (byte x)) xs ys)
  ]
