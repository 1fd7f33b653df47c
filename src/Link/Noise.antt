-- ===== src/Link/Noise.antt =====
-- The command loop of ota_link.c on a frame that was damaged on the line.
use esp32_ota_link.Base.{
  ℕ, ◌<◌, ◌≡◌, ◌≢◌, sym, ap, ap₂, subst, ◌∙◌, List, [], ◌∷◌, ◌++◌, false, length,
}
use esp32_ota_link.Idf.{Env}
use esp32_ota_link.Idf.Traffic.{is_stopped}
use esp32_ota_link.Protocol.Frame.{content}
use esp32_ota_link.Protocol.Parser.{Parser}
use esp32_ota_link.Protocol.Parser.Refines.{Holds}
use esp32_ota_link.Protocol.Parser.Run.{feed_all}
use esp32_ota_link.Protocol.RoundTrip.{IsMessage, damaged, damaged_dropped}
use esp32_ota_link.Link.{Link}
use esp32_ota_link.Link.Loop.{handle_all, receive, Survives, receive_lem, receive-append}

module _ (env : Env) (l : Link) where
  -- Bytes of which no packet comes out.
  ignored :
      (bytes : List ℕ)
      → is_stopped l.app.history ≡ false
      → (feed_all l.parser l.packet bytes).2 ≡ []
      → (feed_all l.parser l.packet bytes).1 ≡ l.packet
      → receive env l bytes ≡ record l { parser = (feed_all l.parser l.packet bytes).0 }
  unfolding handle_all
  ignored bytes runs none same =
      receive_lem env l bytes (subst (Survives env l.app) (sym none) runs)
      ∙ ap₂
          (λ q ps. record l {
            parser = (feed_all l.parser l.packet bytes).0;
            packet = q;
            app = handle_all env l.app ps;
          })
          same none

  -- On a running device whose parser waits for a packet, the frame of a message of which one byte
  -- that the CRC covers, outside the LENGTH field, arrives as another byte, leaves no trace: the
  -- command task takes whatever bytes follow as it would have without that frame, with its parser
  -- waiting again, and so nothing was sent, no session has changed and nothing was written to
  -- flash.
  pub damaged_ignored :
      (command sequence : ℕ) (payload pre post : List ℕ) (x y : ℕ)
      → is_stopped l.app.history ≡ false
      → Holds [] l.parser
      → IsMessage command sequence payload
      → content command sequence payload ≡ pre ++ (x ∷ post)
      → y < 256
      → y ≢ x
      → length pre ≢ 4
      → length pre ≢ 5
      → let f = damaged pre y post (content command sequence payload) in
        (p : Parser) × Holds [] p
        × ((rest : List ℕ) → receive env l (f ++ rest) ≡ receive env (record l { parser = p }) rest)
  damaged_ignored command sequence payload pre post x y runs waits m e byte differ n4 n5 =
      let f = damaged pre y post (content command sequence payload) in
      let out =
        damaged_dropped l.parser l.packet command sequence payload pre post x y waits m e byte
          differ n4 n5 in
      (
        (feed_all l.parser l.packet f).0,
        out.2,
        λ rest.
            receive-append env l f rest
            ∙ ap (λ (d : Link). receive env d rest) (ignored f runs out.0 out.1),
      )
