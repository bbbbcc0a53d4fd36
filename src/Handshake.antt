-- ===== src/Handshake.antt =====
-- testing.c, the task of a connection: how it reads the head of an HTTP request. The bytes of the
-- task are peeked at and consumed, so a name or a value may come in any number of pieces.
pub mod Scanning
pub mod Tag
pub mod Names
pub mod Values
pub mod Fields
pub mod Head
pub mod Faults
pub mod Reply
mod Examples
use c_web_socket_pico_w_test.Base.{
  ℕ, zero, suc, ◌+◌, Bool, true, false, not, ◌&&◌, ◌||◌, ◌==◌, if◌then◌else◌, Option, none, some,
  List, [], ◌∷◌, length, take, codes,
}
use c_web_socket_pico_w_test.Lwip.{Lwip}
use c_web_socket_pico_w_test.Con.{Con, Script, done, failed, returns, waiting, consume, t_read}
use c_web_socket_pico_w_test.Con.Peak.{t_peak}
use c_web_socket_pico_w_test.Selecter.{
  Selecter, Selection, index, no_match_yet, no_match, fault, stuck, select, reset,
}

-- `WS_H_FIELDS`.
abbrev pub header_fields : List (List ℕ)
header_fields = codes "Upgrade" ∷ codes "Sec-WebSocket-Key" ∷ []

abbrev pub key_len : ℕ
key_len = 24

-- How a function of the task ends: with a value; while it waits beyond the script; by a read outside
-- of an array or through the null pointer; out of fuel.
pub data Task (Chain A : Type 0) : Type 0 where
  ends : A → Con Chain → Script Chain → Task Chain A
  waits : Con Chain → Task Chain A
  crash starved : Task Chain A

-- An `int` result: a value, or an error without its sign.
pub data Status : Type 0 where
  value : ℕ → Status
  error : ℕ → Status

-- What follows a call.
abbrev pub task_then :
    {Chain A B : Type 0}
    → Task Chain A
    → (A → Con Chain → Script Chain → Task Chain B)
    → Task Chain B
task_then (ends a con script) f = f a con script
task_then (waits con) f = waits con
task_then crash f = crash
task_then starved f = starved

-- What follows a call of `bl_str_select`.
abbrev pub and_then_selected :
    {Chain A : Type 0} → Selection → (Selection → Task Chain A) → Task Chain A
and_then_selected fault f = crash
and_then_selected stuck f = starved
and_then_selected no_match f = f no_match
and_then_selected no_match_yet f = f no_match_yet
and_then_selected (index i) f = f (index i)

-- A `for` loop over a buffer that ends at the first byte where `stop` is true: its `i` then, and
-- the byte, if there is one.
unfoldable pub seek : (ℕ → Bool) → List ℕ → ℕ × Option ℕ
seek stop [] = (0, none)
seek stop (c ∷ buf) = if stop c then (0, some c) else (suc (seek stop buf).0, (seek stop buf).1)

-- `c != ':' && c != ' ' && c != '\r'`.
abbrev pub not_white : ℕ → Bool
not_white c = not (c == 58) && not (c == 32) && not (c == 13)

abbrev pub is_return : ℕ → Bool
is_return c = c == 13

-- Where the loop on a name ends: at `:` or at `\n`.
abbrev pub ends_name : ℕ → Bool
ends_name c = c == 58 || c == 10

-- The loop of `ws_confirm_tag` on one buffer, from its `i` on: the tag and the line are over; only
-- the tag is; a byte differs; the buffer is over, with what is left of the tag.
pub data Comparison : Type 0 where
  whole longer differs : ℕ → Comparison
  so_far : List ℕ → Comparison

unfoldable pub compare : ℕ → List ℕ → List ℕ → Comparison
compare i tag [] = so_far tag
compare i [] (b ∷ buf) = if b == 13 then whole i else longer i
compare i (t ∷ tag) (b ∷ buf) = if b == t then compare (i + 1) tag buf else differs i

-- What the loop on a name ends with: the end of the header, or what the selecter says.
pub data Name : Type 0 where
  header_done : Name
  selected : Selection → Name

-- What the loop on the header ends with: the error that `do_ws_header` returns, or
-- `websocket_upgrade` and the first bytes of `wsKey`.
pub data Header : Type 0 where
  returned : ℕ → Header
  parsed : Bool → List ℕ → Header

module _ {Chain : Type 0} (lwip : Lwip Chain) where
  -- The loop that `ws_eat_whitespace` and `ws_consume_line` have in common: look for a byte where
  -- `stop` is true, consume what is before it and `extra` bytes more, and return `extra`.
  unfoldable pub eat : (ℕ → Bool) → (ℕ → ℕ) → ℕ → Con Chain → Script Chain → Task Chain Status
  eat stop extra zero con script = starved
  eat stop extra (suc fuel) con script = elim (t_peak lwip con script) [
    | waiting con' ↦ waits con'
    | returns (failed code) con' script' ↦ ends (error code) con' script'
    | returns (done buf) con' script' ↦ elim (seek stop buf).1 [
      | none ↦ eat stop extra fuel (consume lwip con' (seek stop buf).0).1 script'
      | some c ↦ ends (value (extra c)) (consume lwip con' ((seek stop buf).0 + extra c)).1 script'
    ]
  ]

  -- `ws_eat_whitespace`.
  unfoldable pub eat_whitespace : ℕ → Con Chain → Script Chain → Task Chain Status
  eat_whitespace = eat not_white (λ c. if c == 10 then 1 else 0)

  -- `ws_consume_line`; `value 0` is `ERR_OK`.
  unfoldable pub consume_line : ℕ → Con Chain → Script Chain → Task Chain Status
  consume_line = eat is_return (λ _. 0)

  -- `ws_confirm_tag`. Its `len` is unsigned: after an error of `ws_t_peak` it is huge, and the loop
  -- reads through the null pointer.
  unfoldable pub confirm_tag : ℕ → List ℕ → Con Chain → Script Chain → Task Chain Bool
  confirm_tag zero tag con script = starved
  confirm_tag (suc fuel) tag con script = elim (t_peak lwip con script) [
    | waiting con' ↦ waits con'
    | returns (failed code) con' script' ↦ crash
    | returns (done buf) con' script' ↦ elim (compare 0 tag buf) [
      | whole i ↦ ends true (consume lwip con' i).1 script'
      | longer i ↦
          task_then (consume_line (suc fuel) (consume lwip con' (i + 1)).1 script')
            (λ _ con2 script2. ends false con2 script2)
      | differs i ↦
          task_then (consume_line (suc fuel) (consume lwip con' i).1 script')
            (λ _ con2 script2. ends false con2 script2)
      | so_far tag' ↦ confirm_tag fuel tag' (consume lwip con' (length buf)).1 script'
    ]
  ]

  -- The `do … while (i == len)` on a name. After an error `len` is negative and `i` is 0.
  unfoldable pub read_name : ℕ → Selecter → Con Chain → Script Chain → Task Chain Name
  read_name zero tag_finder con script = starved
  read_name (suc fuel) tag_finder con script = elim (t_peak lwip con script) [
    | waiting con' ↦ waits con'
    | returns (failed code) con' script' ↦
        and_then_selected (select tag_finder []).0
          (λ answer. ends (selected answer) (consume lwip con' 0).1 script')
    | returns (done buf) con' script' ↦
        let i = (seek ends_name buf).0 in
        let left = (consume lwip con' i).1 in
        elim (seek ends_name buf).1 [
          | none ↦
              let (answer, tag_finder') = select tag_finder buf in
              and_then_selected answer (λ _. read_name fuel tag_finder' left script')
          | some c ↦
              if c == 10
              then ends header_done (consume lwip con' (i + 1)).1 script'
              else and_then_selected (select tag_finder (take i buf)).0
                  (λ answer. ends (selected answer) left script')
        ]
  ]

  -- `while (!ws_eat_whitespace(cli_con)) { … ws_consume_line(cli_con); }`.
  unfoldable pub eat_rest : ℕ → Con Chain → Script Chain → Task Chain Unit
  eat_rest zero con script = starved
  eat_rest (suc fuel) con script =
      task_then (eat_whitespace (suc fuel) con script) (λ status con1 script1. elim status [
        | value zero ↦
            task_then (consume_line (suc fuel) con1 script1)
              (λ _ con2 script2. eat_rest fuel con2 script2)
        | _ ↦ ends tt con1 script1
      ])

  -- The `switch` on the name.
  unfoldable pub read_value :
      ℕ → Selection → Bool → List ℕ → Con Chain → Script Chain → Task Chain Header
  read_value fuel (index zero) upgrade key con script =
      task_then (confirm_tag fuel (codes "websocket") con script)
        (λ same con1 script1. ends (parsed (same || upgrade) key) con1 script1)
  read_value fuel (index (suc zero)) upgrade key con script =
      elim (t_read lwip key_len con script) [
        | waiting con' ↦ waits con'
        | returns (failed code) con' script' ↦ ends (returned code) con' script'
        | returns (done bytes) con' script' ↦ ends (parsed upgrade bytes) con' script'
      ]
  read_value fuel answer upgrade key con script = ends (parsed upgrade key) con script

  -- The `while (true)` on the fields.
  unfoldable pub read_fields : ℕ → Bool → List ℕ → Con Chain → Script Chain → Task Chain Header
  read_fields zero upgrade key con script = starved
  read_fields (suc fuel) upgrade key con script =
      task_then (read_name (suc fuel) (reset header_fields (length header_fields)) con script)
        (λ name con1 script1. elim name [
          | header_done ↦ ends (parsed upgrade key) con1 script1
          | selected answer ↦ task_then (eat_whitespace (suc fuel) con1 script1) (λ _ con2 script2.
              task_then (read_value (suc fuel) answer upgrade key con2 script2)
                (λ header con3 script3. elim header [
                  | returned code ↦ ends (returned code) con3 script3
                  | parsed upgrade' key' ↦
                      task_then (eat_rest (suc fuel) con3 script3)
                        (λ _ con4 script4. read_fields fuel upgrade' key' con4 script4)
                ]))
        ])

  -- `do_ws_header` up to `header_done`; `junk` is what `wsKey` held before.
  unfoldable pub read_header : ℕ → List ℕ → Con Chain → Script Chain → Task Chain Header
  read_header fuel junk con script = task_then (consume_line fuel con script) (λ _ con1 script1.
      task_then (eat_whitespace fuel con1 script1)
        (λ _ con2 script2. read_fields fuel false junk con2 script2))
