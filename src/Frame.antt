-- ===== src/Frame.antt =====
-- websocket_framinator.h, the reading half: `websocket_read`, which takes the payloads out of the
-- frames of RFC 6455. The result of `ws_t_read` goes through an `err_t` of 8 bits here.
pub mod Reads
pub mod Rfc
pub mod Packed
pub mod Length
pub mod Header
pub mod Payload
pub mod Messages
pub mod Faults
pub mod Quiet
mod Examples
use c_web_socket_pico_w_test.Base.{
  ℕ, zero, suc, ◌+◌, ◌-◌, ◌*◌, ◌/◌, ◌%◌, ◌^◌, Bool, true, false, not, ◌&&◌, ◌||◌, ◌==◌, leb, ltb,
  min, if◌then◌else◌, List, [], ◌∷◌, ◌++◌, length, bit_and, bit_or, ◌<<◌, ◌>>◌, u8, u32, u64,
  get_or,
}
use c_web_socket_pico_w_test.Lwip.{Lwip}
use c_web_socket_pico_w_test.Con.{Con, Script, done, failed, Outcome, returns, waiting, t_read}
use c_web_socket_pico_w_test.Mask.{apply_mask, load32}

-- `WS_HEADER_OPCODE_…`.
abbrev pub opcode_continuation : ℕ
opcode_continuation = 0x0

abbrev pub opcode_text : ℕ
opcode_text = 0x1

abbrev pub opcode_data : ℕ
opcode_data = 0x2

-- The fields of `ws_framinator` that reading goes by.
pub record Framer (Chain : Type 0) : Type 0 where
  pub con : Con Chain
  pub read_length : ℕ
  pub read_mask : ℕ
  pub read_last_op : ℕ

-- How a function ends: with a value; with an error without its sign; while it waits; by using bytes
-- that were never read; out of fuel.
pub data Run (Chain A : Type 0) : Type 0 where
  ok : A → Framer Chain → Script Chain → Run Chain A
  fails : ℕ → Framer Chain → Script Chain → Run Chain A
  suspended : Framer Chain → Run Chain A
  unread starved : Run Chain A

-- What follows a call unless it ends the function.
abbrev pub and_then :
    {Chain A B : Type 0}
    → Run Chain A
    → (A → Framer Chain → Script Chain → Run Chain B)
    → Run Chain B
and_then (ok a ws script) f = f a ws script
and_then (fails code ws script) f = fails code ws script
and_then (suspended ws) f = suspended ws
and_then unread f = unread
and_then starved f = starved

-- `header & mask` as a test.
abbrev pub has_bits : ℕ → ℕ → Bool
has_bits header bits = not (bit_and header bits == 0)

-- `((uint64_t) lwip_ntohl((uint32_t) length) << 32) | (uint64_t) lwip_ntohl(length >> 32)`.
unfoldable pub swap64 : (ℕ → ℕ) → ℕ → ℕ
swap64 ntohl length = bit_or (u64 (ntohl (u32 length) << 32)) (ntohl (u32 (length >> 32)))

-- The opcode that counts: that of the message for a continuation frame.
unfoldable pub opcode_of : ℕ → ℕ → ℕ
opcode_of header last_op =
    let opcode = bit_and header 0x000f in
    if opcode == opcode_continuation && not (last_op == opcode_continuation)
    then last_op
    else opcode

-- `read_lastOp` after a header.
unfoldable pub last_op_of : ℕ → ℕ → ℕ → ℕ
last_op_of header opcode last_op =
    if has_bits header 0x0080
    then opcode_continuation
    else if not (opcode == opcode_continuation)
    then opcode
    else last_op

module _ {Chain : Type 0} (lwip : Lwip Chain) where
  -- `if ((ret = ws_t_read(ws_con->con, …, size)) < 0) { return ret; }`, where `ret` is an `err_t`: the
  -- number of bytes or the error code, cut to 8 bits, and below 0 from 128 on.
  unfoldable pub t_read8 : ℕ → Framer Chain → Script Chain → Run Chain (List ℕ)
  t_read8 size ws script = elim (t_read lwip size ws.con script) [
    | returns (done bytes) con script' ↦
        let ret = u8 (length bytes) in
        if leb 128 ret
        then fails (256 - ret) (record ws { con = con }) script'
        else ok bytes (record ws { con = con }) script'
    | returns (failed code) con script' ↦
        let ret = u8 (256 - u8 code) in
        if leb 128 ret then fails (256 - ret) (record ws { con = con }) script' else unread
    | waiting con ↦ suspended (record ws { con = con })
  ]

  -- The loop that takes the payload of an unhandled frame byte by byte, with `read_length` to go.
  unfoldable pub skip : ℕ → Framer Chain → Script Chain → Run Chain Unit
  skip zero ws script = ok tt ws script
  skip (suc left) ws script =
      and_then (t_read8 1 ws script)
        (λ _ ws' script'. skip left (record ws' { read_length = left }) script')

  -- The two bytes in memory as a `uint16_t`.
  abbrev pub load16 : List ℕ → ℕ
  load16 bytes = get_or bytes 0 0 + get_or bytes 1 0 * 2 ^ 8

  abbrev pub load : List ℕ → ℕ
  load bytes = load32 (get_or bytes 0 0) (get_or bytes 1 0) (get_or bytes 2 0) (get_or bytes 3 0)

  abbrev pub load64 : List ℕ → ℕ
  load64 bytes =
      load bytes
      + load32 (get_or bytes 4 0) (get_or bytes 5 0) (get_or bytes 6 0) (get_or bytes 7 0) * 2 ^ 32

  -- The length of the payload; the value is 64 bits.
  unfoldable pub read_payload_length : ℕ → Framer Chain → Script Chain → Run Chain ℕ
  read_payload_length header ws script =
      let length7 = bit_and (header >> 8) 0x007f in
      if length7 == 126
      then and_then (t_read8 2 ws script) (λ b ws' script'. ok (lwip.ntohs (load16 b)) ws' script')
      else if length7 == 127
      then and_then (t_read8 8 ws script)
          (λ b ws' script'. ok (swap64 lwip.ntohl (load64 b)) ws' script')
      else ok length7 ws script

  -- `ws_con->read_mask`, from the frame or 0.
  unfoldable pub read_key : ℕ → Framer Chain → Script Chain → Run Chain Unit
  read_key header ws script =
      if has_bits header 0x8000
      then and_then (t_read8 4 ws script)
          (λ b ws' script'. ok tt (record ws' { read_mask = load b }) script')
      else ok tt (record ws { read_mask = 0 }) script

  -- "Read a new frame/payload", up to the end of the loop's body.
  unfoldable pub next_frame : Framer Chain → Script Chain → Run Chain Unit
  next_frame ws script = and_then (t_read8 2 ws script) (λ b ws1 script1.
      let header = load16 b in
      and_then (read_payload_length header ws1 script1) (λ len ws2 script2.
        and_then (read_key header (record ws2 { read_length = len }) script2) (λ _ ws3 script3.
          let opcode = opcode_of header ws3.read_last_op in
          let ws4 = record ws3 { read_last_op = last_op_of header opcode ws3.read_last_op } in
          if not (opcode == opcode_data) && not (opcode == opcode_text)
          then skip ws4.read_length ws4 script3
          else ok tt ws4 script3)))

  -- "Use up existing payload first": the bytes without their mask.
  unfoldable pub read_payload : ℕ → ℕ → Framer Chain → Script Chain → Run Chain (List ℕ)
  read_payload addr size ws script =
      if ltb 0 ws.read_length
      then (let can_read_len = min ws.read_length size in
          and_then (t_read8 can_read_len ws script) (λ b ws1 script1.
            let (mask, plain) = apply_mask addr ws1.read_mask b can_read_len in
            ok plain (record ws1 { read_mask = mask; read_length = ws1.read_length - can_read_len })
              script1))
      else ok [] ws script

  -- `websocket_read` into a buffer at address `addr`, the bytes stored being the value.
  unfoldable pub websocket_read : ℕ → ℕ → ℕ → Framer Chain → Script Chain → Run Chain (List ℕ)
  websocket_read zero addr size ws script = starved
  websocket_read (suc fuel) addr size ws script =
      if size == 0
      then ok [] ws script
      else and_then (read_payload addr size ws script) (λ got ws1 script1.
        if size - length got == 0
        then ok got ws1 script1
        else and_then (next_frame ws1 script1) (λ _ ws2 script2.
          and_then (websocket_read fuel (addr + length got) (size - length got) ws2 script2)
            (λ more ws3 script3. ok (got ++ more) ws3 script3)))
