-- ===== src/Selecter/Examples.antt =====
-- The header fields of the server, looked up whole and in pieces.
use c_web_socket_pico_w_test.Base.{ℕ, ◌≡◌, refl, List, [], ◌∷◌, arith, All, codes}
use c_web_socket_pico_w_test.Selecter.{
  index, no_match_yet, fault, select, reset, scan, next_match, finish, char_at, strncmp_eq,
}
use c_web_socket_pico_w_test.Selecter.Reference.{IsText, answer}
use c_web_socket_pico_w_test.Selecter.Stream.{feed, feed-answer, select-no_match_fault}

-- `WS_H_FIELDS` of testing.c.
abbrev upgrade : List ℕ
upgrade = codes "Upgrade"

abbrev key : List ℕ
key = codes "Sec-WebSocket-Key"

fields-IsText : All IsText (upgrade ∷ key ∷ [])
fields-IsText = omega arith

key_of_request : (select (reset (upgrade ∷ key ∷ []) 2) (codes "Sec-WebSocket-Key")).0 ≡ index 1
unfolding select reset scan next_match finish char_at strncmp_eq
key_of_request = refl

select_prefix : (select (reset (upgrade ∷ key ∷ []) 2) (codes "Sec-")).0 ≡ no_match_yet
unfolding select reset scan next_match finish char_at strncmp_eq
select_prefix = refl

feed-answer_example :
    feed fault (reset (upgrade ∷ key ∷ []) 2) (codes "Sec-Web" ∷ [] ∷ codes "Socket-Key" ∷ [])
    ≡ index 1
unfolding answer
feed-answer_example =
    feed-answer fault upgrade (key ∷ []) ([] ∷ codes "Socket-Key" ∷ []) (codes "Sec-Web")
      fields-IsText (omega arith) (unfold answer in λ e. cc)

select-no_match_fault_example :
    (select (select (reset (upgrade ∷ key ∷ []) 2) (codes "Ho")).1 (codes "st")).0 ≡ fault
select-no_match_fault_example =
    select-no_match_fault upgrade (key ∷ []) (codes "Ho") (codes "st") fields-IsText (omega arith)
      (unfold answer in refl)
