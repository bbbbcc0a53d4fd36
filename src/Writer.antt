-- ===== src/Writer.antt =====
-- websocket_framinator.h, the writing half: small writes are gathered into frames in a ring, from
-- which TCP sends them, and each acknowledgment moves the tail of the ring on.
pub mod Send
pub mod Memory
pub mod Markers
pub mod Frames
pub mod Rounds
pub mod Flush
pub mod Messages
pub mod Faults
pub mod Collision
mod Examples
use c_web_socket_pico_w_test.Base.{
  ℕ, zero, suc, ◌+◌, ◌-◌, ◌*◌, ◌/◌, ◌%◌, ◌^◌, Bool, true, false, not, ◌&&◌, ◌||◌, ◌==◌, leb, ltb,
  min, if◌then◌else◌, Option, none, some, List, [], ◌∷◌, ◌++◌, length, take, drop, get_or, bit_and,
  bit_or, ◌<<◌, ◌>>◌, u8, u16, u32, sub32,
}
use c_web_socket_pico_w_test.Lwip.{Lwip, Pcb}
use c_web_socket_pico_w_test.Con.{Con, Event, recv, err, sent, Script, callback}
use c_web_socket_pico_w_test.Con.Write.{Written, wrote, refused, blocked, null, t_write}
use c_web_socket_pico_w_test.Mask.{load32}

abbrev pub buf_starting_len : ℕ
buf_starting_len = 1024

abbrev pub max_payload_len : ℕ
max_payload_len = 256

abbrev pub large_enough : ℕ
large_enough = 192

abbrev pub wrap_anyway : ℕ
wrap_anyway = 16

abbrev pub flag_wrap : ℕ
flag_wrap = 0x4000_0000

-- `sizeof(ws_buf_marker)`, which is its alignment too.
abbrev pub marker_size : ℕ
marker_size = 4

-- `sizeof(ws_buf_marker) + WS_MAX_NO_MASK_HEADER_LEN`.
abbrev pub frame_start : ℕ
frame_start = 8

abbrev pub tcp_snd_buf : ℕ
tcp_snd_buf = 8 * 1460

abbrev pub err_buf : ℕ
err_buf = 2

abbrev pub err_mem : ℕ
err_mem = 1

-- The fields of `ws_framinator` that writing goes by; `buf` is the memory behind the pointer.
pub record Framinator (Chain : Type 0) : Type 0 where
  pub con : Con Chain
  pub buf : List ℕ
  pub buf_len : ℕ
  pub head : ℕ
  pub tail : ℕ
  pub current_marker : ℕ
  pub current_payload_len : ℕ

-- How a function ends: with a value; with an error without its sign; while it waits beyond the
-- script; by an access outside of the buffer or through the null pointer; in a loop without an end.
pub data Put (Chain A : Type 0) : Type 0 where
  puts : A → Framinator Chain → Script Chain → Put Chain A
  gives_up : ℕ → Framinator Chain → Script Chain → Put Chain A
  stalled : Framinator Chain → Put Chain A
  invalid spinning : Put Chain A

abbrev pub and_put :
    {Chain A B : Type 0}
    → Put Chain A
    → (A → Framinator Chain → Script Chain → Put Chain B)
    → Put Chain B
and_put (puts a ws script) f = f a ws script
and_put (gives_up code ws script) f = gives_up code ws script
and_put (stalled ws) f = stalled ws
and_put invalid f = invalid
and_put spinning f = spinning

-- How a callback ends.
pub data Acked (Chain : Type 0) : Type 0 where
  acked : Framinator Chain → Acked Chain
  astray endless : Acked Chain

abbrev pub and_acked :
    {Chain A : Type 0} → Acked Chain → (Framinator Chain → Put Chain A) → Put Chain A
and_acked (acked ws) f = f ws
and_acked astray f = invalid
and_acked endless f = spinning

abbrev pub and_next :
    {Chain : Type 0} → Acked Chain → (Framinator Chain → Acked Chain) → Acked Chain
and_next (acked ws) f = f ws
and_next astray f = astray
and_next endless f = endless

-- A write of bytes to memory, and a 32-bit word read from it.
unfoldable pub store : List ℕ → ℕ → List ℕ → Option (List ℕ)
store buf i bytes =
    if leb (i + length bytes) (length buf)
    then some (take i buf ++ (bytes ++ drop (i + length bytes) buf))
    else none

unfoldable pub fetch32 : List ℕ → ℕ → Option ℕ
fetch32 buf i =
    if leb (i + 4) (length buf)
    then some (
        load32 (get_or buf i 0) (get_or buf (i + 1) 0) (get_or buf (i + 2) 0)
          (get_or buf (i + 3) 0))
    else none

-- Words in memory, their lowest byte first.
abbrev pub bytes16 : ℕ → List ℕ
bytes16 n = n % 2 ^ 8 ∷ n / 2 ^ 8 % 2 ^ 8 ∷ []

abbrev pub bytes32 : ℕ → List ℕ
bytes32 n = n % 2 ^ 8 ∷ n / 2 ^ 8 % 2 ^ 8 ∷ n / 2 ^ 16 % 2 ^ 8 ∷ n / 2 ^ 24 % 2 ^ 8 ∷ []

-- `WS_MRK_GET_LEN` and `WS_MRK_GET_SCRATCH_LEN`.
abbrev pub get_len : ℕ → ℕ
get_len packed = bit_and packed 0x00ff_ffff

abbrev pub get_scratch_len : ℕ → ℕ
get_scratch_len packed = bit_and (packed >> 24) 0x3f

-- `WS_MRK_SCRATCH_LEN(scratch) | WS_MRK_LEN(len)`.
abbrev pub marker : ℕ → ℕ → ℕ
marker scratch len = bit_or (u32 (scratch << 24)) len

-- `websocket_framinator_ack_callback`.
unfoldable pub ack_callback : {Chain : Type 0} → ℕ → ℕ → Framinator Chain → Acked Chain
ack_callback fuel zero ws = acked ws
ack_callback zero (suc len) ws = endless
ack_callback (suc fuel) (suc len) ws = elim (fetch32 ws.buf ws.tail) [
  | none ↦ astray
  | some packed ↦
      let to_ack = min (suc len) (get_len packed) in
      let wrapped = ack_callback fuel (suc len) (record ws { tail = 0 }) in
      let whole =
        ack_callback fuel (suc len - to_ack)
          (record ws { tail = u32 (ws.tail + to_ack + get_scratch_len packed) }) in
      let advance = get_scratch_len packed + to_ack in
      let new_scratch = advance % marker_size in
      let tail' = u32 (ws.tail + (advance - new_scratch)) in
      if not (bit_and packed flag_wrap == 0)
      then wrapped
      else if leb to_ack (suc len)
      then whole
      else elim (store ws.buf tail' (bytes32 (marker new_scratch (get_len packed - to_ack)))) [
        | none ↦ astray
        | some buf' ↦ ack_callback fuel (suc len - to_ack) (record ws { buf = buf'; tail = tail' })
      ]
]

-- A marker is a wrap or takes some of `len`, and no wrap follows a wrap.
unfoldable pub ack : {Chain : Type 0} → ℕ → Framinator Chain → Acked Chain
ack len ws = ack_callback (2 * len + 2) len ws

-- The acknowledgments of one wait; `tcp_cli_con_sent` hands its length, a `u16_t`, to the callback.
unfoldable pub ack_events : {Chain : Type 0} → List (Event Chain) → Framinator Chain → Acked Chain
ack_events [] ws = acked ws
ack_events (sent queuelen room ∷ events) ws =
    and_next (ack (u16 room) ws) (λ ws'. ack_events events ws')
ack_events (recv p crowded ∷ events) ws = ack_events events ws
ack_events (err code ∷ events) ws = ack_events events ws

unfoldable pub ack_waits : {Chain : Type 0} → Script Chain → Framinator Chain → Acked Chain
ack_waits [] ws = acked ws
ack_waits (events ∷ waits) ws = and_next (ack_events events ws) (λ ws'. ack_waits waits ws')

-- `head += padding`: up to the alignment of a marker.
abbrev pub padded : {Chain : Type 0} → Framinator Chain → Framinator Chain
padded ws = record ws { head = u32 (ws.head + (marker_size - ws.head % marker_size) % marker_size) }

-- The frame from its header on: `header`, and for a long payload `e_payload_len`, in the byte order
-- of the network, as `(x << 8) | (x >> 8)` puts them into a `uint16_t`.
abbrev pub swapped16 : ℕ → ℕ
swapped16 n = u16 (bit_or (n << 8) (n >> 8))

abbrev pub is_large : ℕ → Bool
is_large payload_len = leb 126 payload_len

abbrev pub header_of : ℕ → List ℕ
header_of payload_len =
    if is_large payload_len
    then bytes16 (swapped16 (bit_or 0x8100 126)) ++ bytes16 (swapped16 payload_len)
    else bytes16 (swapped16 (bit_or 0x8100 payload_len))

-- Where the header begins, behind the marker.
abbrev pub header_offset : ℕ → ℕ
header_offset payload_len = if is_large payload_len then 4 else 6
