-- ===== src/Handshake/Fields.antt =====
-- The two header fields that the server knows, as the `switch` of `do_ws_header` takes them.
use c_web_socket_pico_w_test.Base.{
  ℕ, ◌<◌, ◌≤◌, ◌≡◌, ◌≢◌, refl, ap, ◌∙◌, arith, Bool, true, false, ◌&&◌, ◌||◌, ◌==◌, equal,
  if◌then◌else◌, Bool-cases, none, some, ◌⊎◌, inl, inr, List, [], ◌∷◌, ◌++◌, length, length-append,
  length-drop, take, drop, All-drop, codes, take-append_le, drop-append_le,
}
use c_web_socket_pico_w_test.Lwip.{Lwip, LwipLaws}
use c_web_socket_pico_w_test.Con.{Con, Script, done, returns, t_read}
use c_web_socket_pico_w_test.Con.Calm.{On}
use c_web_socket_pico_w_test.Con.Stream.{t_read-stream}
use c_web_socket_pico_w_test.Selecter.{index, no_match_yet, no_match}
use c_web_socket_pico_w_test.Selecter.Reference.{strip, answer}
use c_web_socket_pico_w_test.Handshake.{
  header_fields, key_len, Task, ends, task_then, Header, parsed, read_value,
}
use c_web_socket_pico_w_test.Handshake.Scanning.{PeakLaws, Ends}
use c_web_socket_pico_w_test.Handshake.Tag.{confirm_tag-takes}
use c_web_socket_pico_w_test.Handshake.Values.{IsLine, line-NoReturn}

abbrev pub upgrade_name : List ℕ
upgrade_name = codes "Upgrade"

abbrev pub key_name : List ℕ
key_name = codes "Sec-WebSocket-Key"

strip-cases :
    (name str : List ℕ)
    → ((strip name str ≡ none) × (equal name str ≡ false))
      ⊎ ((strip name str ≡ some []) × (equal name str ≡ true))
      ⊎ ((c : ℕ) × (rest : List ℕ) × (strip name str ≡ some (c ∷ rest)) × (equal name str ≡ false))
strip-cases [] [] = inr (inl (refl, refl))
strip-cases [] (c ∷ str) = inr (inr (c, str, refl, refl))
strip-cases (c ∷ name) [] = inl (refl, refl)
strip-cases (c ∷ name) (d ∷ str) = elim (Bool-cases (c == d)) [
  | inl same ↦ rw same (strip-cases name str)
  | inr other ↦ inl (rw other refl, rw other refl)
]

-- A name that begins the one field name is not the other.
other_name :
    (name rest : List ℕ) (c : ℕ)
    → strip name upgrade_name ≡ some (c ∷ rest)
    → equal name key_name ≡ false
other_name [] rest c e = refl
other_name (n ∷ name) rest c e = ground arith

-- What the selecter says of a name, and which name it is.
pub header_names :
    (name : List ℕ)
    → ((equal name upgrade_name ≡ true)
        × (equal name key_name ≡ false)
        × (answer 0 header_fields name ≡ index 0))
      ⊎ ((equal name upgrade_name ≡ false)
          × (equal name key_name ≡ true)
          × (answer 0 header_fields name ≡ index 1))
      ⊎ ((equal name upgrade_name ≡ false)
          × (equal name key_name ≡ false)
          × ((answer 0 header_fields name ≡ no_match)
              ⊎ (answer 0 header_fields name ≡ no_match_yet)))
unfolding answer
header_names name = elim (strip-cases name upgrade_name) [
  | inl (s, e) ↦ elim (strip-cases name key_name) [
    | inl (s2, e2) ↦ inr (inr (e, e2, inl (rw (s, s2) refl)))
    | inr (inl (s2, e2)) ↦ inr (inl (e, e2, rw (s, s2) refl))
    | inr (inr (c, rest, s2, e2)) ↦ inr (inr (e, e2, inr (rw (s, s2) refl)))
  ]
  | inr (inl (s, e)) ↦ inl (e, whole_name name e, rw s refl)
  | inr (inr (c, rest, s, e)) ↦ inr (inr (e, other_name name rest c s, inr (rw s refl)))
]
  where
    whole_name : (n : List ℕ) → equal n upgrade_name ≡ true → equal n key_name ≡ false
    whole_name [] e = refl
    whole_name (n ∷ ns) e = ground arith

module _ {Chain : Type 0} (lwip : Lwip Chain) (laws : LwipLaws lwip) (peaks : PeakLaws lwip) where
  -- The flag and the key behind a value, and a part of its line that is not read yet.
  abbrev pub ValueRead : Bool → List ℕ → List ℕ → List ℕ → Task Chain Header → Type 0
  ValueRead upgrade key value ys t =
      (left : List ℕ) × IsLine left
      × (length left ≤ length value)
      × Ends lwip (parsed upgrade key) (left ++ 13 ∷ 10 ∷ ys) t

  read_upgrade :
      (fuel : ℕ) (upgrade : Bool) (key : List ℕ) (con : Con Chain) (script : Script Chain)
      (value ys : List ℕ)
      → length value < fuel
      → IsLine value
      → On lwip con script (value ++ 13 ∷ 10 ∷ ys)
      → ValueRead
          (equal value (codes "websocket") || upgrade)
          key
          value
          ys
          (read_value lwip fuel (index 0) upgrade key con script)
  unfolding read_value
  read_upgrade fuel upgrade key con script value ys lt fine on =
      let (con1, script1, e, on1) =
        confirm_tag-takes lwip laws peaks fuel (codes "websocket") con script value (10 ∷ ys) lt
          (omega arith) (line-NoReturn value fine) on in
      (
        [],
        tt,
        omega arith,
        (
          con1,
          script1,
          ap
              (λ r.
                task_then r (λ same con2 script2. ends (parsed (same || upgrade) key) con2 script2))
              e,
          on1,
        ),
      )

  read_key :
      (fuel : ℕ) (upgrade : Bool) (key : List ℕ) (con : Con Chain) (script : Script Chain)
      (value ys : List ℕ)
      → key_len ≤ length value
      → IsLine value
      → On lwip con script (value ++ 13 ∷ 10 ∷ ys)
      → ValueRead upgrade
          (take key_len value)
          value
          ys
          (read_value lwip fuel (index 1) upgrade key con script)
  unfolding read_value
  read_key fuel upgrade key con script value ys long fine (next, open_con, calm) =
      let (con1, script1, e, left, on1, calm1) =
        t_read-stream lwip laws key_len con script (omega arith) open_con calm
          (omega (arith, ap length next, length-append value (13 ∷ 10 ∷ ys))) in
      let got : t_read lwip key_len con script ≡ returns (done (take key_len value)) con1 script1 =
        e
        ∙ ap (λ l. returns (done (take key_len l)) con1 script1) next
        ∙ ap (λ l. returns (done l) con1 script1)
            (take-append_le key_len value (13 ∷ 10 ∷ ys) long) in
      (
        drop key_len value,
        All-drop (λ c. (c ≢ 13) × (c ≢ 10)) key_len value fine,
        omega (arith, length-drop key_len value),
        (
          con1,
          script1,
          rw (read_value, got) refl,
          (
            left ∙ ap (drop key_len) next ∙ drop-append_le key_len value (13 ∷ 10 ∷ ys) long,
            on1,
            calm1,
          ),
        ),
      )

  -- The value of a field by its name.
  pub read_value-ValueRead :
      (fuel : ℕ) (upgrade : Bool) (key : List ℕ) (con : Con Chain) (script : Script Chain)
      (name value ys : List ℕ)
      → length value < fuel
      → (equal name key_name ≡ true → key_len ≤ length value)
      → IsLine value
      → On lwip con script (value ++ 13 ∷ 10 ∷ ys)
      → ValueRead
          ((equal name upgrade_name && equal value (codes "websocket")) || upgrade)
          (if equal name key_name then take key_len value else key)
          value
          ys
          (read_value lwip fuel (answer 0 header_fields name) upgrade key con script)
  unfolding read_value
  read_value-ValueRead fuel upgrade key con script name value ys lt long fine on =
      elim (header_names name) [
        | inl (u, k, a) ↦
            rw (u, k, a) (read_upgrade fuel upgrade key con script value ys lt fine on)
        | inr (inl (u, k, a)) ↦
            rw (u, k, a) (read_key fuel upgrade key con script value ys (long k) fine on)
        | inr (inr (u, k, inl a)) ↦ rw (u, k, a) (value, fine, omega arith, (con, script, refl, on))
        | inr (inr (u, k, inr a)) ↦ rw (u, k, a) (value, fine, omega arith, (con, script, refl, on))
      ]
