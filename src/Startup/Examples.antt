-- ===== src/Startup/Examples.antt =====
-- A link that joins, and the start of `main`.
use c_web_socket_pico_w_test.Base.{◌≡◌, refl, arith, true, false, some, [], ◌∷◌, codes}
use c_web_socket_pico_w_test.Server.{listening, run_tcp_server_test, server_open}
use c_web_socket_pico_w_test.Startup.{
  link_down, link_join, link_up, link_badauth, same_status, Link, exits, started,
  netif_set_link_down, netif_set_link_up, led_set, wait_for_link, main, main_round, command,
  and_open, connects_again, poll, led_after, rate, on_time, link_status_name,
}
use c_web_socket_pico_w_test.Startup.Blink.{each_ms, Shows, wait_for_link-Shows}

main_joins :
    main 0 0
      (record { status = link_join; ms = 150; connect_error = 7 }
        ∷ record { status = link_up; ms = 1000; connect_error = 7 }
        ∷ [])
      true
      true
      0
      true
    ≡ started listening (record {
      led = true;
      status_old = link_up;
      printed = codes "joining" ∷ codes "link up" ∷ [];
    })
unfolding main and_open wait_for_link connects_again same_status poll led_after rate on_time
    link_status_name run_tcp_server_test server_open
main_joins = refl

main_refused :
    main 0 0 (record { status = link_badauth; ms = 0; connect_error = 7 } ∷ []) true true 0 true
    ≡ exits 2
unfolding main and_open wait_for_link connects_again
main_refused = refl

round_restart :
    main_round (some b'x')
    ≡ netif_set_link_down ∷ netif_set_link_up ∷ led_set true ∷ led_set false ∷ []
unfolding main_round command
round_restart = refl

abbrev dark : Link
dark = record { led = false; status_old = link_down; printed = [] }

wait_for_link-Shows_example : Shows link_join 749 (wait_for_link (each_ms link_join 600 150) dark)
unfolding rate
wait_for_link-Shows_example = wait_for_link-Shows link_join 149 600 dark (λ e. grind arith) refl
