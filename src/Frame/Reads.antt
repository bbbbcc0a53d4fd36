-- ===== src/Frame/Reads.antt =====
-- Reads from a stream whose next bytes are known.
use c_web_socket_pico_w_test.Base.{
  ℕ, ◌<◌, ◌≡◌, refl, ap, ◌∙◌, arith, false, leb, List, [], ◌∷◌, ◌++◌, length, length-append, take,
  drop, take-append_le, drop-append_le, take_of_length-le, drop_of_length-le, u8,
}
use c_web_socket_pico_w_test.Lwip.{Lwip, LwipLaws}
use c_web_socket_pico_w_test.Con.{Con, Script, done, returns, t_read}
use c_web_socket_pico_w_test.Con.Calm.{On, stream}
use c_web_socket_pico_w_test.Con.Stream.{t_read-stream}
use c_web_socket_pico_w_test.Frame.{Framer, ok, and_then, t_read8, skip}

module _ {Chain : Type 0} (lwip : Lwip Chain) (laws : LwipLaws lwip) where
  pub t_read8-takes :
      (n : ℕ) (xs ys : List ℕ) (ws : Framer Chain) (script : Script Chain)
      → n ≡ length xs
      → n < 128
      → On lwip ws.con script (xs ++ ys)
      → (con' : Con Chain) × (script' : Script Chain) × (t_read8 lwip n ws script
          ≡ ok xs (record ws { con = con' }) script')
        × On lwip con' script' ys
  unfolding t_read8
  t_read8-takes n xs ys ws script len few (next, on, calm) =
      let (con', script', e, left, on', calm') =
        t_read-stream lwip laws n ws.con script (omega arith) on calm
          (omega (arith, ap length next, length-append xs ys)) in
      let got : take n (stream lwip ws.con script) ≡ xs =
        ap (take n) next
        ∙ take-append_le n xs ys (omega arith)
        ∙ take_of_length-le n xs (omega arith) in
      let read : t_read lwip n ws.con script ≡ returns (done xs) con' script' =
        e ∙ ap (λ l. returns (done l) con' script') got in
      let positive : leb 128 (u8 (length xs)) ≡ false = ground arith in
      (
        con',
        script',
        rw (t_read8, read, positive) refl,
        (
          left
              ∙ ap (drop n) next
              ∙ drop-append_le n xs ys (omega arith)
              ∙ ap (λ l. l ++ ys) (drop_of_length-le n xs (omega arith)),
          on',
          calm',
        ),
      )

  -- All bytes of an unhandled frame are passed over.
  pub skip-takes :
      (xs ys : List ℕ) (ws : Framer Chain) (script : Script Chain)
      → ws.read_length ≡ length xs
      → On lwip ws.con script (xs ++ ys)
      → (con' : Con Chain) × (script' : Script Chain) × (skip lwip (length xs) ws script
          ≡ ok tt (record ws { con = con'; read_length = 0 }) script')
        × On lwip con' script' ys
  unfolding skip
  skip-takes [] ys ws script len on =
      (ws.con, script, ap (λ k. ok tt (record ws { read_length = k }) script) len, on)
  skip-takes (x ∷ xs) ys ws script len on =
      let (con1, script1, e1, on1) =
        t_read8-takes 1 (x ∷ []) (xs ++ ys) ws script refl (omega arith) on in
      let (con2, script2, e2, on2) =
        skip-takes xs ys (record ws { con = con1; read_length = length xs }) script1 refl on1 in
      (
        con2,
        script2,
        ap
              (λ r. and_then r (λ _ ws' script'.
                skip lwip (length xs) (record ws' { read_length = length xs }) script'))
              e1
            ∙ e2,
        on2,
      )
