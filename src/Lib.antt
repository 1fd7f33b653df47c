-- ===== src/Lib.antt =====
-- A verification library for esp32-ota-link: firmware updates of an ESP32 over a serial link.
--
-- The program. A host sends packets over a byte stream. The command task of the component
-- firmware/components/ota_link reads bytes, finds packets in them, and dispatches each by its
-- command: it answers questions about the device, opens an authenticated session, and writes a
-- firmware image to the partition that is not running, checks it and makes it bootable.
--
-- The parts, and the files here that model them (paths from the repository's root; the sources are
-- in firmware/components/ota_link/src unless a path says otherwise):
--   Protocol    protocol.h, protocol.c. `Wire` has the constants, the packet and the byte order,
--               `Crc` is protocol_crc32, `Parser` is protocol_parser_init and
--               protocol_parser_feed, `Sender` the functions that send, with their static buffer.
--   Ota         ota_manager.c: `begin`, `write_data`, `finish` (ota_manager_end), `abort` and
--               `is_active`, over the static s_ota.
--   Auth        auth.h, auth.c: `Hmac` the keyed hashes, `State` the handshake and the check of a
--               request's tag, `Replay` the replay cache and the signed responses.
--   Info        device_info.c: the boot counter, the version parser, the payload of CMD_INFO, whose
--               bytes `Reference` lists.
--   Commands    commands.c: commands_handle_packet is `handle`.
--   Link        ota_link.c, include/ota_link.h: the start, the loop of the command task, the
--               confirmation of the running image; `Reset` has the statics after a reset and the
--               default configuration, `Tasks` the two tasks and their interleavings.
--   Example     firmware/main/main.c: the example application.
--   Idf         the calls of ESP-IDF and FreeRTOS.
--   Base        shared names, lists, words and bit operations.
--   Demo        a concrete platform for the tests, which stand in the modules called `Examples`.
--
-- How the code is modelled. A static variable is a value that each function takes and gives back;
-- `Commands.App` and `Link.Link` gather them. A C array is a list of bytes, a pointer into one the
-- list from there on, and `memcpy` is `overwrite`. Integers are natural numbers, with `% 2 ^ w`
-- written out where a C expression can wrap around. Each function is a chain of the conditions and
-- early returns of the source. ESP-IDF is a parameter: `Idf.Env` answers each call as a function of
-- all calls before it, so that a theorem without a hypothesis about the platform holds for any
-- sequence of failures. Calls with an effect are recorded, the newest first, in a `History`: what is
-- in flash, which partition boots and what was sent are functions of it. `esp_restart` and an
-- accepted rollback do not return: the command loop stops at their event. Nothing here runs on
-- fuel: the loops of the source go over
-- arrays, cursors and bytes read, and are recursion on them; the endless loop of the command task
-- is a function of the results of the reads. The command task and mark_valid_task run as steps of
-- one device in any order; a step is a round of the command loop, or one call of the other task.
-- These interleavings may go on behind a restart, and so cover more than the runs of the device.
--
-- Not modelled: log lines; the two wrappers of the UART driver's read and write, which are calls
-- of the driver; the host's programs and their tests, which are in Python. The results of writes to
-- the link are ignored by the source, and so by the model. SHA-256 and the random generator are
-- parameters, of which a theorem assumes at most the size of what they give.
pub mod Base
pub mod Protocol
pub mod Idf
pub mod Ota
pub mod Auth
pub mod Info
pub mod Commands
pub mod Link
pub mod Example
pub mod Demo
