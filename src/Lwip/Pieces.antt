-- ===== src/Lwip/Pieces.antt =====
-- Packet buffers as lists of pieces, which have the laws.
use c_web_socket_pico_w_test.Base.{
  ◌-◌, length, leb, if◌then◌else◌, Bool-cases, inl, inr, ℕ, ◌+◌, ◌*◌, ◌/◌, ◌%◌, ◌^◌, ◌≡◌, ◌≤◌, true,
  refl, ap, sym, ◌∙◌, arith, some, List, [], ◌∷◌, ◌++◌, append_assoc, append-nil, take, drop,
  take-append-drop,
}
use c_web_socket_pico_w_test.Lwip.{Lwip, Pcb, LwipLaws, content}

abbrev pub flatten : List (List ℕ) → List ℕ
flatten [] = []
flatten (piece ∷ pieces) = piece ++ flatten pieces

-- A chain has a first buffer.
abbrev pub Chain : Type 0
Chain = List ℕ × List (List ℕ)

-- `tcp_write` takes what fits, and nothing else.
unfoldable pub write : Pcb → List ℕ → ℕ × Pcb
write pcb bytes =
    if leb (length bytes) pcb.snd_buf
    then (0, record pcb { snd_buf = pcb.snd_buf - length bytes; written = pcb.written ++ bytes })
    else (1, pcb)

write-ok :
    (pcb : Pcb) (bytes : List ℕ)
    → (write pcb bytes).0 ≡ 0
    → ((write pcb bytes).1.written ≡ pcb.written ++ bytes)
      × ((write pcb bytes).1.snd_buf + length bytes ≡ pcb.snd_buf)
unfolding write
write-ok pcb bytes h = elim (Bool-cases (leb (length bytes) pcb.snd_buf)) [
  | inl fits ↦ rw fits (refl, ground arith)
  | inr over ↦ absurd (ground arith)
]

write-accepts : (pcb : Pcb) (bytes : List ℕ) → length bytes ≤ pcb.snd_buf → (write pcb bytes).0 ≡ 0
unfolding write
write-accepts pcb bytes h =
    let fits : leb (length bytes) pcb.snd_buf ≡ true = ground arith in rw fits refl

unfoldable pub pieces : Lwip Chain
pieces = record {
  bytes = λ c. c.0 ++ flatten c.1;
  payload = λ c. c.0;
  copy_partial = λ c n. take n (c.0 ++ flatten c.1);
  free_header = λ c n. some (drop n (c.0 ++ flatten c.1), []);
  cat = λ c d. (c.0, c.1 ++ d.0 ∷ d.1);
  coalesce = λ c. (c.0 ++ flatten c.1, []);
  tcp_write = write;
  ntohs = λ n. n % 2 ^ 8 * 2 ^ 8 + n / 2 ^ 8;
  ntohl = λ n.
      n % 2 ^ 8 * 2 ^ 24 + n / 2 ^ 8 % 2 ^ 8 * 2 ^ 16 + n / 2 ^ 16 % 2 ^ 8 * 2 ^ 8 + n / 2 ^ 24;
}

flatten-append : (xs ys : List (List ℕ)) → flatten (xs ++ ys) ≡ flatten xs ++ flatten ys
flatten-append [] ys = refl
flatten-append (x ∷ xs) ys =
    ap (λ l. x ++ l) (flatten-append xs ys) ∙ sym (append_assoc x (flatten xs) (flatten ys))

pub pieces-LwipLaws : LwipLaws pieces
unfolding pieces content
pieces-LwipLaws = record {
  bytes-payload = λ c. (flatten c.1, refl);
  copied = λ c n. refl;
  freed = λ c n. append-nil (drop n (c.0 ++ flatten c.1));
  bytes-cat = λ c d.
      ap (λ l. c.0 ++ l) (flatten-append c.1 (d.0 ∷ d.1))
      ∙ sym (append_assoc c.0 (flatten c.1) (d.0 ++ flatten d.1));
  tcp_write-ok = write-ok;
  ntohs-swap = λ a b ha hb. omega arith;
  ntohl-swap = λ a b c d ha hb hc hd. omega arith;
  bytes-coalesce = λ c. append-nil (c.0 ++ flatten c.1);
}

pub pieces-accepts :
    (pcb : Pcb) (bytes : List ℕ) → length bytes ≤ pcb.snd_buf → (pieces.tcp_write pcb bytes).0 ≡ 0
unfolding pieces
pieces-accepts = write-accepts

-- Chains of one buffer.
unfoldable pub flat : Lwip (List ℕ)
flat = record {
  bytes = λ c. c;
  payload = λ c. c;
  copy_partial = λ c n. take n c;
  free_header = λ c n. some (drop n c);
  cat = λ c d. c ++ d;
  coalesce = λ c. c;
  tcp_write = write;
  ntohs = λ n. n % 2 ^ 8 * 2 ^ 8 + n / 2 ^ 8;
  ntohl = λ n.
      n % 2 ^ 8 * 2 ^ 24 + n / 2 ^ 8 % 2 ^ 8 * 2 ^ 16 + n / 2 ^ 16 % 2 ^ 8 * 2 ^ 8 + n / 2 ^ 24;
}

pub flat-LwipLaws : LwipLaws flat
unfolding flat content
flat-LwipLaws = record {
  bytes-payload = λ c. ([], sym (append-nil c));
  copied = λ c n. refl;
  freed = λ c n. refl;
  bytes-cat = λ c d. refl;
  tcp_write-ok = write-ok;
  ntohs-swap = λ a b ha hb. omega arith;
  ntohl-swap = λ a b c d ha hb hc hd. omega arith;
  bytes-coalesce = λ c. refl;
}

-- Chains whose buffers hold four bytes each.
unfoldable pub fours : Lwip (List ℕ)
unfolding flat
fours = record flat { payload = λ c. take 4 c }

pub fours-LwipLaws : LwipLaws fours
unfolding fours flat content
fours-LwipLaws = record {
  bytes-payload = λ c. (drop 4 c, sym (take-append-drop 4 c));
  copied = λ c n. refl;
  freed = λ c n. refl;
  bytes-cat = λ c d. refl;
  tcp_write-ok = write-ok;
  ntohs-swap = λ a b ha hb. omega arith;
  ntohl-swap = λ a b c d ha hb hc hd. omega arith;
  bytes-coalesce = λ c. refl;
}

pub fours-accepts :
    (pcb : Pcb) (bytes : List ℕ) → length bytes ≤ pcb.snd_buf → (fours.tcp_write pcb bytes).0 ≡ 0
unfolding fours flat
fours-accepts = write-accepts
