-- ===== src/Lwip.antt =====
-- lwIP, which the program calls and does not hold: chains of packet buffers and the byte order of
-- the network, with what the documentation of lwIP says of the operations that are used.
pub mod Pieces
use c_web_socket_pico_w_test.Base.{
  ℕ, ◌+◌, ◌*◌, ◌^◌, ◌<◌, ◌≡◌, Option, none, some, List, [], ◌++◌, take, drop, length,
}

-- What the code sees of a `struct tcp_pcb`: the room that `tcp_sndbuf` tells, a `u16_t`, and the
-- number of buffers not acknowledged yet; with all bytes that `tcp_write` took, and the sum of all
-- that `tcp_recved` was told.
pub record Pcb : Type 0 where
  pub snd_buf : ℕ
  pub snd_queuelen : ℕ
  pub written : List ℕ
  pub recved : ℕ

pub record Lwip (Chain : Type 0) : Type 0 where
  -- All bytes of a chain, `tot_len` of them.
  pub bytes : Chain → List ℕ
  -- The bytes of its first buffer, `len` of them.
  pub payload : Chain → List ℕ
  -- The bytes that `pbuf_copy_partial(chain, buf, len, 0)` stores.
  pub copy_partial : Chain → ℕ → List ℕ
  -- `pbuf_free_header(chain, size)`; no chain is the null pointer.
  pub free_header : Chain → ℕ → Option Chain
  pub cat : Chain → Chain → Chain
  pub coalesce : Chain → Chain
  -- `lwip_ntohs` and `lwip_ntohl`.
  pub ntohs : ℕ → ℕ
  pub ntohl : ℕ → ℕ
  -- `tcp_write`, its flags left out: the error without its sign, and what it leaves.
  pub tcp_write : Pcb → List ℕ → ℕ × Pcb

-- The bytes behind a pointer to a chain.
unfoldable pub content : {Chain : Type 0} → Lwip Chain → Option Chain → List ℕ
content lwip none = []
content lwip (some chain) = lwip.bytes chain

pub record LwipLaws {Chain : Type 0} (lwip : Lwip Chain) : Type 0 where
  pub bytes-payload : (c : Chain) → (after : List ℕ) × (lwip.bytes c ≡ lwip.payload c ++ after)
  pub copied : (c : Chain) (n : ℕ) → lwip.copy_partial c n ≡ take n (lwip.bytes c)
  pub freed : (c : Chain) (n : ℕ) → content lwip (lwip.free_header c n) ≡ drop n (lwip.bytes c)
  pub bytes-cat : (c d : Chain) → lwip.bytes (lwip.cat c d) ≡ lwip.bytes c ++ lwip.bytes d
  pub bytes-coalesce : (c : Chain) → lwip.bytes (lwip.coalesce c) ≡ lwip.bytes c
  pub ntohs-swap : (a b : ℕ) → a < 2 ^ 8 → b < 2 ^ 8 → lwip.ntohs (a + b * 2 ^ 8) ≡ a * 2 ^ 8 + b
  pub ntohl-swap :
      (a b c d : ℕ)
      → a < 2 ^ 8
      → b < 2 ^ 8
      → c < 2 ^ 8
      → d < 2 ^ 8
      → lwip.ntohl (a + b * 2 ^ 8 + c * 2 ^ 16 + d * 2 ^ 24)
        ≡ a * 2 ^ 24 + b * 2 ^ 16 + c * 2 ^ 8 + d
  pub tcp_write-ok :
      (pcb : Pcb) (bytes : List ℕ)
      → (lwip.tcp_write pcb bytes).0 ≡ 0
      → ((lwip.tcp_write pcb bytes).1.written ≡ pcb.written ++ bytes)
        × ((lwip.tcp_write pcb bytes).1.snd_buf + length bytes ≡ pcb.snd_buf)
