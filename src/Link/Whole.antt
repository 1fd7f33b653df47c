-- ===== src/Link/Whole.antt =====
-- A whole update over the link: to a device without a key, and to one with an open session.
use esp32_ota_link.Base.{ℕ, ◌≡◌, List}
use esp32_ota_link.Idf.{Env, Partition}
use esp32_ota_link.Ota.{cleared}
use esp32_ota_link.Auth.Cache.{ShaSized}
use esp32_ota_link.Link.{Link}
use esp32_ota_link.Link.Loop.{receive}
use esp32_ota_link.Link.Serve.{IsListening, keyless_channel}
use esp32_ota_link.Link.Session.{IsInSession, session_channel}
use esp32_ota_link.Link.Delivery.{IsOffer, update_stream, IsUpdated, receive_update}

-- A running device without a key, whose parser waits for a packet and which has no OTA session open,
-- receives the frames of an update byte by byte: OTA_BEGIN, the chunks of 1 to 1016 bytes in order,
-- OTA_END, with sequence numbers that count up. The image has at least one byte and fits the
-- partition, which leaves room below 4 GB; the calls of the platform succeed, and it computes the
-- announced digest in the end. Then the image is staged, the offered partition is made bootable,
-- just once, the session is over, every request is acknowledged, in order and with its sequence
-- number, nothing else is sent, and the device listens again.
pub keyless_update :
    (env : Env) (p : Partition) (digest : List ℕ) (n : ℕ) (cs : List (List ℕ)) (l : Link)
    → IsOffer env (keyless_channel env) p digest n cs
    → IsListening l
    → l.app.ota ≡ cleared
    → IsUpdated env
        (keyless_channel env)
        l
        p
        cs
        n
        (receive env l (update_stream env (keyless_channel env) n digest cs))
keyless_update env p digest n cs l offer listening idle =
    receive_update env (keyless_channel env) p digest n cs offer l listening idle

-- The same of a running device that requires a key and has an authenticated session open, whose session key
-- the host knows: the host signs each request (chunks of 1 to 1000 bytes), and uses sequence
-- numbers below 65536 that are above those of the requests which the device remembers. Then the
-- image is staged and its partition made bootable, just once, and every request is acknowledged, in
-- order, by a frame that carries the device's tag.
pub session_update :
    (env : Env) (key : List ℕ) (p : Partition) (digest : List ℕ) (n : ℕ) (cs : List (List ℕ))
    (l : Link) (sized : ShaSized env)
    → IsOffer env (session_channel env sized key) p digest n cs
    → IsInSession key n l
    → l.app.ota ≡ cleared
    → IsUpdated env
        (session_channel env sized key)
        l
        p
        cs
        n
        (receive env l (update_stream env (session_channel env sized key) n digest cs))
session_update env key p digest n cs l sized offer listening idle =
    receive_update env (session_channel env sized key) p digest n cs offer l listening idle
