-- ===== src/Frame/Header.antt =====
-- A whole header, and the frames that are entered or passed over behind it.
use c_web_socket_pico_w_test.Base.{
  ℕ, ◌<◌, ◌≡◌, refl, sym, ap, ◌∙◌, subst, arith, true, false, not, ◌&&◌, ◌==◌, if◌then◌else◌,
  Option, none, some, List, ◌++◌, append_assoc, length, IsU32,
}
use c_web_socket_pico_w_test.Lwip.{Lwip, LwipLaws}
use c_web_socket_pico_w_test.Con.{Con, Script}
use c_web_socket_pico_w_test.Mask.{load32}
use c_web_socket_pico_w_test.Mask.Bytewise.{masked, length-masked}
use c_web_socket_pico_w_test.Frame.{
  Framer, Run, ok, has_bits, opcode_of, last_op_of, read_key, next_frame, skip,
}
use c_web_socket_pico_w_test.Con.Calm.{On}
use c_web_socket_pico_w_test.Frame.Reads.{t_read8-takes, skip-takes}
use c_web_socket_pico_w_test.Frame.Rfc.{
  Frame, word, octets, mask_bit, fin_bit, length7, extended, head, encode, IsFrame, effective,
  after, delivers,
}
use c_web_socket_pico_w_test.Frame.Packed.{
  packed, packed-length7, packed-mask, length7-lt, opcode_of-packed, last_op_of-packed,
}
use c_web_socket_pico_w_test.Frame.Length.{read_payload_length-extended}

encode-append :
    (f : Frame) (ys : List ℕ)
    → encode f ++ ys
      ≡ head f
        ++ (extended (length f.payload) ++ (octets f.key ++ (masked (word f.key) f.payload ++ ys)))
encode-append f ys =
    ap (λ l. head f ++ l)
      (append_assoc (extended (length f.payload)) (octets f.key ++ masked (word f.key) f.payload) ys
        ∙ ap (λ l. extended (length f.payload) ++ l)
            (append_assoc (octets f.key) (masked (word f.key) f.payload) ys))

mask_bit-lt : (key : Option ℕ) → mask_bit key < 2
mask_bit-lt none = omega arith
mask_bit-lt (some k) = omega arith

module _ {Chain : Type 0} (lwip : Lwip Chain) (laws : LwipLaws lwip) where
  read_key-octets :
      (key : Option ℕ) (header : ℕ) (ys : List ℕ) (ws : Framer Chain) (script : Script Chain)
      → has_bits header 0x8000 ≡ (mask_bit key == 1)
      → IsU32 (word key)
      → On lwip ws.con script (octets key ++ ys)
      → (con' : Con Chain) × (script' : Script Chain) × (read_key lwip header ws script
          ≡ ok tt (record ws { con = con'; read_mask = word key }) script')
        × On lwip con' script' ys
  unfolding read_key load32
  read_key-octets none header ys ws script flag h on = (ws.con, script, rw flag refl, on)
  read_key-octets (some k) header ys ws script flag h on =
      let (con', script', e, on') =
        t_read8-takes lwip laws 4 (octets (some k)) ys ws script refl (omega arith) on in
      (
        con',
        script',
        rw (flag, e)
            (ap (λ m. ok tt (record ws { con = con'; read_mask = m }) script') {y = k}
              (omega arith)),
        on',
      )

  -- What the code does behind a header with the opcode `op` in force.
  abbrev behind_header : ℕ → Framer Chain → Script Chain → Run Chain Unit
  behind_header op ws script =
      if not (op == 2) && not (op == 1) then skip lwip ws.read_length ws script else ok tt ws script

  -- The fields that a frame leaves in the framer.
  abbrev pub begun : Con Chain → Framer Chain → Frame → Framer Chain
  begun con' ws f = record {
    con = con';
    read_length = length f.payload;
    read_mask = word f.key;
    read_last_op = after ws.read_last_op f;
  }

  next_frame-header :
      (f : Frame) (ys : List ℕ) (ws : Framer Chain) (script : Script Chain)
      → IsFrame f
      → On lwip ws.con script (head f ++ (extended (length f.payload) ++ (octets f.key ++ ys)))
      → (con' : Con Chain) × (script' : Script Chain) × (next_frame lwip ws script
          ≡ behind_header (effective ws.read_last_op f) (begun con' ws f) script')
        × On lwip con' script' ys
  unfolding next_frame
  next_frame-header f ys ws script (op_lt, len_lt, _, key_lt) on =
      let n : ℕ = length f.payload in
      let header : ℕ = packed f.opcode (fin_bit f.fin) (length7 n) (mask_bit f.key) in
      let len7 = length7-lt n in
      let fin_lt : fin_bit f.fin < 2 = ground arith in
      let mask_lt : mask_bit f.key < 2 = mask_bit-lt f.key in
      let (con1, script1, e1, on1) =
        t_read8-takes lwip laws 2 (head f) (extended n ++ (octets f.key ++ ys)) ws script refl
          (omega arith) on in
      let (con2, script2, e2, on2) =
        read_payload_length-extended lwip laws n header (octets f.key ++ ys)
          (record ws { con = con1 }) script1
          (packed-length7 f.opcode (fin_bit f.fin) (length7 n) (mask_bit f.key) op_lt fin_lt len7
            mask_lt)
          len_lt on1 in
      let (con3, script3, e3, on3) =
        read_key-octets f.key header ys (record ws { con = con2; read_length = n }) script2
          (packed-mask f.opcode (fin_bit f.fin) (length7 n) (mask_bit f.key) op_lt fin_lt len7
            mask_lt)
          key_lt on2 in
      let op_is : opcode_of header ws.read_last_op ≡ effective ws.read_last_op f =
        opcode_of-packed f.opcode (fin_bit f.fin) (length7 n) (mask_bit f.key) ws.read_last_op op_lt
          fin_lt len7 mask_lt in
      let last_is : last_op_of header (effective ws.read_last_op f) ws.read_last_op
          ≡ after ws.read_last_op f =
        last_op_of-packed f.opcode (length7 n) (mask_bit f.key) ws.read_last_op f.fin op_lt len7
          mask_lt in
      (con3, script3, rw (e1, e2, e3, op_is, last_is) refl, on3)

  -- A text or data frame is entered: its payload is next, with its length and its key at hand.
  pub next_frame-delivers :
      (f : Frame) (ys : List ℕ) (ws : Framer Chain) (script : Script Chain)
      → IsFrame f
      → delivers ws.read_last_op f ≡ true
      → On lwip ws.con script (encode f ++ ys)
      → (con' : Con Chain) × (script' : Script Chain) × (next_frame lwip ws script
          ≡ ok tt (begun con' ws f) script')
        × On lwip con' script' (masked (word f.key) f.payload ++ ys)
  next_frame-delivers f ys ws script valid deliver on =
      let (con', script', e, on') =
        next_frame-header f (masked (word f.key) f.payload ++ ys) ws script valid
          (subst (On lwip ws.con script) (encode-append f ys) on) in
      let taken : (not (effective ws.read_last_op f == 2) && not (effective ws.read_last_op f == 1))
          ≡ false =
        ground arith in
      (
        con',
        script',
        e
            ∙ ap
                (λ t.
                  if t
                  then skip lwip (length f.payload) (begun con' ws f) script'
                  else ok tt (begun con' ws f) script')
                taken,
        on',
      )

  -- Every other frame is passed over as a whole.
  pub next_frame-other :
      (f : Frame) (ys : List ℕ) (ws : Framer Chain) (script : Script Chain)
      → IsFrame f
      → delivers ws.read_last_op f ≡ false
      → On lwip ws.con script (encode f ++ ys)
      → (con' : Con Chain) × (script' : Script Chain) × (next_frame lwip ws script
          ≡ ok tt (record (begun con' ws f) { read_length = 0 }) script')
        × On lwip con' script' ys
  next_frame-other f ys ws script valid other on =
      let (con1, script1, e1, on1) =
        next_frame-header f (masked (word f.key) f.payload ++ ys) ws script valid
          (subst (On lwip ws.con script) (encode-append f ys) on) in
      let (con', script', e2, on2) =
        skip-takes lwip laws (masked (word f.key) f.payload) ys (begun con1 ws f) script1
          (sym (length-masked (word f.key) f.payload)) on1 in
      let taken : (not (effective ws.read_last_op f == 2) && not (effective ws.read_last_op f == 1))
          ≡ true =
        ground arith in
      (
        con',
        script',
        e1
            ∙ ap
                (λ t.
                  if t
                  then skip lwip (length f.payload) (begun con1 ws f) script1
                  else ok tt (begun con1 ws f) script1)
                taken
            ∙ ap (λ k. skip lwip k (begun con1 ws f) script1)
                (sym (length-masked (word f.key) f.payload))
            ∙ e2,
        on2,
      )
