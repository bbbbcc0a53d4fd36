-- ===== src/Lib.antt =====
-- A WebSocket server for the Pico W (lwIP, one connection, a task on a stack of its own): what its
-- own code computes, and that it computes the right thing.
--
-- The parts. `main` (testing.c) brings up the network and a TCP server; the callbacks of lwIP store
-- what arrived in the connection and notify the task of the connection by iol_lock.c, which resumes it
-- when the reason it waits for has come up. The task reads the HTTP request by the `ws_t_` functions of
-- testing.c, picks the header fields out by the streaming selecter of bufferless_str.c, answers with a
-- key that it encodes in Base64 (bufferless_str.c), and then goes over to frames
-- (websocket_framinator.h), whose payloads it unmasks in place.
--
-- The files.
--   Base        the names, Boolean tests, lists, machine words and bits that all parts use.
--   Selecter    bufferless_str.c, `bl_str_select` and `bl_str_reset` (select, reset). Reference says what
--               the answer for a name is; Search and Scan go through the two loops; Stream has names
--               that come in pieces.
--   Base64      bufferless_str.c, the rest: `bitsToBase64` (bits_to_base64), `base64bits`,
--               `encode_base64`, `decode_base64`. Encode compares with RFC 4648, RoundTrip goes both
--               ways, Chunks has a text in two pieces.
--   Lock        iol_lock.c: `iol_trylock`, `iol_unlock`, `iol_continue`, `iol_notify`, `iol_task_run`.
--               Sequential has them as functions, for one context; Steps has them for many contexts, each
--               access to `locked`, to the mutex and to a field that is stored as a step (a run of
--               the task and a call of `check_reason` are one step), with Invariant, Watched and
--               Wakeup about all interleavings.
--   Mask        websocket_framinator.h, `websocket_apply_mask` (apply_mask). Rotation, Bytewise, Loops
--               and Tail are about its parts, Payload about the whole.
--   Lwip        what the code uses of lwIP: an interface with the laws of its documentation, and in
--               Pieces lists of pieces that have them.
--   Con         testing.c, `ws_read` (read), `ws_peak` (peak), `ws_consume` (consume), `ws_t_read`
--               (t_read), `ws_check_reason` (check_reason) and the callbacks `tcp_cli_con_recv`,
--               `tcp_cli_con_err` and `tcp_cli_con_sent` (con_recv, con_err, con_sent). Calm and Stream
--               are about a connection that stays open, Bounds about every connection, Notify about
--               the callbacks and the lock, Quiet about reads, which send nothing; Peak has `ws_t_peak`;
--               Write has `ws_t_write` and `ws_t_write_barrier`, with Room and Barrier about them.
--   Frame       websocket_framinator.h, `websocket_read`: Rfc has the frames of RFC 6455; Reads,
--               Packed, Length, Header and Payload are about the parts of the loop's body, Messages
--               about the whole, Quiet about reads, which send nothing, Faults about where it departs
--               from the RFC.
--   Handshake   testing.c, `ws_eat_whitespace`, `ws_consume_line`, `ws_confirm_tag` (eat_whitespace,
--               consume_line, confirm_tag) and `do_ws_header` up to the frames (read_name, read_value,
--               read_fields, read_header). Scanning, Tag, Names, Values and Fields are about the parts,
--               Head about the head of a request, Faults about where the parser departs from HTTP;
--               Reply has the answer (send_page, send_upgrade, answer_request).
--   Writer      websocket_framinator.h, the rest: the ring with its memory and
--               `websocket_framinator_ack_callback` (ack_callback); Send has
--               `websocket_complete_and_send_frame`, `websocket_write`, `websocket_flush` and
--               `websocket_initialize_framinator`. Memory, Markers, Frames, Rounds and Flush are about
--               the parts, Messages about whole messages, Faults about a wait without an end,
--               Collision about a head that runs into the tail.
--   Commands    testing.c, the loop of `do_ws_header` on the commands in frames (serve, obey): Pin is
--               about the commands for the pin, Reading about the one that is answered.
--   Server      testing.c, `tcp_server_accept`, `reset_cli_con_for_new_client`, `do_cli_con_task`,
--               `ws_cli_con_close`, `ws_cli_con_close_pcb`, `tcp_server_open` (accept,
--               reset_for_new_client, do_cli_con_task, close, close_pcb, server_open), and of sub_task.h
--               `sub_task_reset`; Accept is about the life of one connection.
--   Startup     testing.c, `main`: the loop until the link is up (wait_for_link), the ends of the start
--               (main), and a round of the second loop (main_round); Blink is about the LED.
--
-- Numbers are natural numbers; a machine word keeps its `% 2 ^ w`. `char` is unsigned, words are
-- little-endian and have 32 bits, as on the RP2040. A C string is the list of its bytes before the
-- NUL, and a read outside of an array is the value `fault`.
--
-- Fuel. `select` has a round for each byte and each string, and `stuck`, the end of the fuel, is not
-- reached. The loops of the handshake have a round for each buffer or field, and more fuel than the
-- request has bytes is enough; after a lost connection no fuel is.
-- `websocket_write` has a round for each part that is copied and each wait, the callback for
-- acknowledgments one for each marker and each byte. `continue` has as many rounds as the task can go
-- on without waiting; that these are finitely many is the condition `Progress` of Lock/Sequential, a
-- measure that each such run takes down, with the error that is in force. `websocket_read` has a round
-- for each frame, and each frame has bytes. `serve` takes as many commands as it is told. The `ws_t_`
-- functions are structural in what the task waits through: a script with the callbacks of each wait; a
-- task that waits beyond the script is the result `waiting`, or `blocked`. The other loops are
-- structural.
--
-- Parameters. The task and `check_reason` of a lock are parameters, since sub_task.S switches stacks
-- and the reasons belong to the user of the lock. In Lock/Steps the SDK's mutex is a cell that one
-- context at a time can be in, and `mutex_try_enter` fails just when another is (`fails` leaves out the
-- runs where it does); memory is sequentially consistent. lwIP is a record
-- of operations with laws, given to every definition that calls it. SHA-1, which is mbedtls's, and the page, which the build generates, are arguments of the handshake; `malloc`
-- and `tcp_output` are arguments of the frame writer. What `tcp_close` answers is given to Server, and
-- so is the task that it starts. The polls of the link, with the time, and the characters of the UART
-- are given to Startup.
--
-- Not modelled: the assembly of sub_task.S, the build files, the page, and the configuration headers,
-- which hold no logic; of `main` in testing.c, the calls that initialise the hardware.
pub mod Base
pub mod Selecter
pub mod Base64
pub mod Lock
pub mod Mask
pub mod Lwip
pub mod Con
pub mod Frame
pub mod Handshake
pub mod Writer
pub mod Commands
pub mod Server
pub mod Startup
