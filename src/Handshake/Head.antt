-- ===== src/Handshake/Head.antt =====
-- The head of a whole request, as the loops of `do_ws_header` read it.
use c_web_socket_pico_w_test.Base.{
  ℕ, zero, suc, ◌+◌, ◌<◌, ◌≤◌, ◌≡◌, refl, ap, ◌∙◌, arith, Bool, true, false, ◌&&◌, ◌||◌, equal,
  if◌then◌else◌, ◌⊎◌, inl, inr, List, [], ◌∷◌, ◌++◌, length, length-append, take, All, codes,
}
use c_web_socket_pico_w_test.Lwip.{Lwip, LwipLaws}
use c_web_socket_pico_w_test.Con.{Con, Script}
use c_web_socket_pico_w_test.Con.Calm.{On}
use c_web_socket_pico_w_test.Selecter.{Selection, no_match, reset}
use c_web_socket_pico_w_test.Selecter.Reference.{IsText, answer}
use c_web_socket_pico_w_test.Handshake.{
  header_fields, key_len, Task, ends, crash, Status, not_white, header_done, selected, Header,
  parsed, eat_whitespace, read_name, read_value, eat_rest, read_fields, read_header,
}
use c_web_socket_pico_w_test.Handshake.Scanning.{PeakLaws, Ends}
use c_web_socket_pico_w_test.Handshake.Tag.{
  NoReturn, consume_line-takes, eat_whitespace-takes, eat_whitespace-sneezes,
}
use c_web_socket_pico_w_test.Handshake.Names.{IsName, read_name-NameRead, read_name-done}
use c_web_socket_pico_w_test.Handshake.Values.{IsLine, eat_rest-takes}
use c_web_socket_pico_w_test.Handshake.Fields.{upgrade_name, key_name, read_value-ValueRead}

-- A field of the header: its name, the blanks behind the colon, and its value, which begins with
-- `first`, a byte that is no white space.
pub record Field : Type 0 where
  pub name : List ℕ
  pub blanks : List ℕ
  pub first : ℕ
  pub more : List ℕ

abbrev pub field_value : Field → List ℕ
field_value f = f.first ∷ f.more

pub record IsField (f : Field) : Type 0 where
  pub name-IsName : IsName f.name
  pub blank : All (λ c. c ≡ 32) f.blanks
  pub starts : not_white f.first ≡ true
  pub value-IsLine : IsLine (field_value f)
  pub long_key : equal f.name key_name ≡ true → key_len ≤ length (field_value f)

-- A field with what is behind it, and the rest of a request from its fields on.
abbrev pub render_field : Field → List ℕ → List ℕ
render_field f rest = f.name ++ 58 ∷ (f.blanks ++ (field_value f ++ 13 ∷ 10 ∷ rest))

abbrev pub render_fields : List Field → List ℕ → List ℕ
render_fields [] body = 13 ∷ 10 ∷ body
render_fields (f ∷ fs) body = render_field f (render_fields fs body)

abbrev pub render : List ℕ → List Field → List ℕ → List ℕ
render request fs body = request ++ 13 ∷ 10 ∷ render_fields fs body

-- What the header asks for: an upgrade to websockets, under the key that it gives last.
abbrev pub wants_upgrade : List Field → Bool → Bool
wants_upgrade [] upgrade = upgrade
wants_upgrade (f ∷ fs) upgrade =
    wants_upgrade fs
      ((equal f.name upgrade_name && equal (field_value f) (codes "websocket")) || upgrade)

abbrev pub given_key : List Field → List ℕ → List ℕ
given_key [] key = key
given_key (f ∷ fs) key =
    given_key fs (if equal f.name key_name then take key_len (field_value f) else key)

-- A field whose name begins neither of the names that the selecter has.
abbrev pub HasUnknown : List Field → Type 0
HasUnknown [] = ⊥
HasUnknown (f ∷ fs) = (answer 0 header_fields f.name ≡ no_match) ⊎ HasUnknown fs

length-render_field :
    (f : Field) (rest : List ℕ)
    → length (render_field f rest)
      ≡ length f.name + 1 + length f.blanks + length (field_value f) + 2 + length rest
length-render_field f rest = omega (
  arith,
  length-append f.name (58 ∷ (f.blanks ++ (field_value f ++ 13 ∷ 10 ∷ rest))),
  length-append f.blanks (field_value f ++ 13 ∷ 10 ∷ rest),
  length-append (field_value f) (13 ∷ 10 ∷ rest),
)

blank-white : (xs : List ℕ) → All (λ c. c ≡ 32) xs → All (λ c. not_white c ≡ false) xs
blank-white [] h = tt
blank-white (x ∷ xs) (h, hs) = (ap not_white h, blank-white xs hs)

pub fields-IsText : All IsText header_fields
fields-IsText = omega arith

module _ {Chain : Type 0} (lwip : Lwip Chain) where
  -- The header is read to its end, or a name that is cut makes the selecter read too far.
  abbrev pub HeaderRead : List Field → Bool → List ℕ → List ℕ → Task Chain Header → Type 0
  HeaderRead fs upgrade key body t =
      ((t ≡ crash) × HasUnknown fs)
      ⊎ Ends lwip (parsed (wants_upgrade fs upgrade) (given_key fs key)) body t

  pub fields-crash :
      (fuel : ℕ) (upgrade : Bool) (key : List ℕ) (con : Con Chain) (script : Script Chain)
      → read_name lwip (suc fuel) (reset header_fields (length header_fields)) con script ≡ crash
      → read_fields lwip (suc fuel) upgrade key con script ≡ crash
  unfolding read_fields
  fields-crash fuel upgrade key con script e = rw (read_fields, e) refl

  fields-done :
      (fuel : ℕ) (upgrade : Bool) (key : List ℕ) (con con1 : Con Chain)
      (script script1 : Script Chain)
      → read_name lwip (suc fuel) (reset header_fields (length header_fields)) con script
        ≡ ends header_done con1 script1
      → read_fields lwip (suc fuel) upgrade key con script ≡ ends (parsed upgrade key) con1 script1
  unfolding read_fields
  fields-done fuel upgrade key con con1 script script1 e = rw (read_fields, e) refl

  pub fields-next :
      (fuel : ℕ) (upgrade upgrade' : Bool) (key key' : List ℕ) (answer : Selection) (s : Status)
      (con con1 con2 con3 con4 : Con Chain) (script script1 script2 script3 script4 : Script Chain)
      → read_name lwip (suc fuel) (reset header_fields (length header_fields)) con script
        ≡ ends (selected answer) con1 script1
      → eat_whitespace lwip (suc fuel) con1 script1 ≡ ends s con2 script2
      → read_value lwip (suc fuel) answer upgrade key con2 script2
        ≡ ends (parsed upgrade' key') con3 script3
      → eat_rest lwip (suc fuel) con3 script3 ≡ ends tt con4 script4
      → read_fields lwip (suc fuel) upgrade key con script
        ≡ read_fields lwip fuel upgrade' key' con4 script4
  unfolding read_fields
  fields-next fuel upgrade upgrade' key key' answer s con con1 con2 con3 con4 script script1 script2
        script3 script4 e1 e2 e3 e4 =
      rw (read_fields, e1, e2, e3, e4) refl

module _ {Chain : Type 0} (lwip : Lwip Chain) (laws : LwipLaws lwip) (peaks : PeakLaws lwip) where
  read_fields-HeaderRead :
      (fuel : ℕ) (fs : List Field) (upgrade : Bool) (key body : List ℕ) (con : Con Chain)
      (script : Script Chain)
      → length (render_fields fs body) < fuel
      → All IsField fs
      → On lwip con script (render_fields fs body)
      → HeaderRead lwip fs upgrade key body (read_fields lwip fuel upgrade key con script)
  read_fields-HeaderRead zero fs upgrade key body con script lt fine on = absurd (omega arith)
  read_fields-HeaderRead (suc fuel) [] upgrade key body con script lt fine on =
      let (con1, script1, e, on1) =
        read_name-done lwip laws peaks (suc fuel) (codes "Upgrade") (codes "Sec-WebSocket-Key" ∷ [])
          con script body (omega arith) fields-IsText on in
      inr (con1, script1, fields-done lwip fuel upgrade key con con1 script script1 e, on1)
  read_fields-HeaderRead (suc fuel) (f ∷ fs) upgrade key body con script lt (fine, rest) on =
      let tail_bytes : List ℕ = render_fields fs body in
      let line_bytes : List ℕ = field_value f ++ 13 ∷ 10 ∷ tail_bytes in
      let size = length-render_field f tail_bytes in
      elim (read_name-NameRead lwip laws peaks (suc fuel) (codes "Upgrade")
        (codes "Sec-WebSocket-Key" ∷ []) con script f.name (f.blanks ++ line_bytes)
        (omega (arith, size)) fields-IsText fine.name-IsName on) [
          | inl (e, unknown) ↦ inl (fields-crash lwip fuel upgrade key con script e, inl unknown)
          | inr (con1, script1, e1, on1) ↦
              let (con2, script2, e2, on2) =
                eat_whitespace-takes lwip laws peaks (suc fuel) con1 script1 (58 ∷ f.blanks) f.first
                  (f.more ++ 13 ∷ 10 ∷ tail_bytes) (omega (arith, size))
                  (refl, blank-white f.blanks fine.blank) fine.starts fine.value-IsLine.0.1 on1 in
              let (left, left_line, le, (con3, script3, e3, on3)) =
                read_value-ValueRead lwip laws peaks (suc fuel) upgrade key con2 script2 f.name
                  (field_value f) tail_bytes (omega (arith, size)) fine.long_key fine.value-IsLine
                  on2 in
              let (con4, script4, e4, on4) =
                eat_rest-takes lwip laws peaks (suc fuel) con3 script3 left tail_bytes
                  (omega (arith, size)) left_line on3 in
              let upgrade' : Bool =
                (equal f.name upgrade_name && equal (field_value f) (codes "websocket"))
                || upgrade in
              let key' : List ℕ =
                if equal f.name key_name then take key_len (field_value f) else key in
              let run =
                fields-next lwip fuel upgrade upgrade' key key' _ _ con con1 con2 con3 con4 script
                  script1 script2 script3 script4 e1 e2 e3 e4 in
              elim (read_fields-HeaderRead fuel fs upgrade' key' body con4 script4
                (omega (arith, size)) rest on4) [
                  | inl (e, unknown) ↦ inl (
                    ◌∙◌ {b = read_fields lwip fuel upgrade' key' con4 script4} run e,
                    inr unknown,
                  )
                  | inr (con5, script5, e, on5) ↦ inr (
                    con5,
                    script5,
                    ◌∙◌ {b = read_fields lwip fuel upgrade' key' con4 script4} run e,
                    on5,
                  )
                ]
        ]

  -- The loops on a header read it as it is meant: the task goes on with the flag and the key that
  -- the fields give, and the body is still to be read, byte for byte, however the request is cut
  -- into buffers. The other end is a read outside of an array, and only where some field has a name
  -- that begins neither of the names the server knows. The connection stays open, every value
  -- begins with a byte that is no white space, a key has 24 bytes at least, and the fuel is larger
  -- than the request.
  pub read_header-HeaderRead :
      (fuel : ℕ) (request : List ℕ) (fs : List Field) (junk body : List ℕ) (con : Con Chain)
      (script : Script Chain)
      → length (render request fs body) < fuel
      → NoReturn request
      → All IsField fs
      → On lwip con script (render request fs body)
      → HeaderRead lwip fs false junk body (read_header lwip fuel junk con script)
  unfolding read_header
  read_header-HeaderRead fuel request fs junk body con script lt line fine on =
      let size = length-append request (13 ∷ 10 ∷ render_fields fs body) in
      let (con1, script1, e1, on1) =
        consume_line-takes lwip laws peaks fuel con script request (10 ∷ render_fields fs body)
          (omega (arith, size)) line on in
      let (con2, script2, e2, on2) =
        eat_whitespace-sneezes lwip laws peaks fuel con1 script1 (13 ∷ []) (render_fields fs body)
          (omega (arith, size)) (refl, tt) on1 in
      rw (read_header, e1, e2)
        (read_fields-HeaderRead fuel fs false junk body con2 script2 (omega (arith, size)) fine on2)
