-- ===== src/Startup.antt =====
-- testing.c, `main`: the link of the network is polled while the LED shows its status, then the
-- server is opened, and commands come in over the UART.
pub mod Blink
mod Examples
use c_web_socket_pico_w_test.Base.{
  ℕ, zero, suc, ◌%◌, Bool, true, false, not, ◌&&◌, ◌==◌, if◌then◌else◌, Option, none, some, List,
  [], ◌∷◌, ◌++◌, codes,
}
use c_web_socket_pico_w_test.Server.{Opened, run_tcp_server_test}

-- `CYW43_LINK_DOWN` and its kin, and the other numbers, of which the driver has none.
pub data LinkStatus : Type 0 where
  link_down link_join link_noip link_up link_fail link_nonet link_badauth : LinkStatus
  link_other : ℕ → LinkStatus

-- `cyw43_tcpip_link_status_name`.
unfoldable pub link_status_name : LinkStatus → List ℕ
link_status_name link_down = codes "link down"
link_status_name link_join = codes "joining"
link_status_name link_noip = codes "no ip"
link_status_name link_up = codes "link up"
link_status_name link_fail = codes "link fail"
link_status_name link_nonet = codes "network fail"
link_status_name link_badauth = codes "bad auth"
link_status_name (link_other code) = codes "unknown"

-- `rate`.
unfoldable pub rate : LinkStatus → ℕ
rate link_join = 300
rate link_noip = 200
rate _ = 500

-- `on_time`.
unfoldable pub on_time : LinkStatus → ℕ
on_time link_join = 150
on_time link_noip = 100
on_time link_fail = 50
on_time link_nonet = 50
on_time link_badauth = 50
on_time _ = 250

-- The cases of the `switch` that connect again.
unfoldable pub connects_again : LinkStatus → Bool
connects_again link_fail = true
connects_again link_nonet = true
connects_again link_badauth = true
connects_again _ = false

-- The LED after a poll.
unfoldable pub led_after : LinkStatus → ℕ → Bool → Bool
led_after status ms led =
    if ms % rate status == 0 then true else if ms % on_time status == 0 then false else led

-- `status != status_old`.
unfoldable pub same_status : LinkStatus → LinkStatus → Bool
same_status link_down link_down = true
same_status link_join link_join = true
same_status link_noip link_noip = true
same_status link_up link_up = true
same_status link_fail link_fail = true
same_status link_nonet link_nonet = true
same_status link_badauth link_badauth = true
same_status (link_other code) (link_other code') = code == code'
same_status _ _ = false

-- A round of the loop: the status, the time, and what `cyw43_arch_wifi_connect_async` answers if it
-- is called.
pub record Poll : Type 0 where
  pub status : LinkStatus
  pub ms : ℕ
  pub connect_error : ℕ

-- What the loop keeps: the LED, `status_old`, and the statuses that were printed.
pub record Link : Type 0 where
  pub led : Bool
  pub status_old : LinkStatus
  pub printed : List (List ℕ)

-- `main`: it has ended, with a code and without its sign; the loop still polls; the link is up; or
-- the server was opened.
pub data Startup : Type 0 where
  exits : ℕ → Startup
  polling : Link → Startup
  linked : Link → Startup
  started : Opened → Link → Startup

-- The loop's body without the call that connects again.
unfoldable pub poll : Poll → Link → Link
poll p link = record {
  led = led_after p.status p.ms link.led;
  status_old = p.status;
  printed =
      if same_status p.status link.status_old
      then link.printed
      else link.printed ++ link_status_name p.status ∷ [];
}

-- The loop.
unfoldable pub wait_for_link : List Poll → Link → Startup
wait_for_link [] link = polling link
wait_for_link (p ∷ polls) link =
    let rest = wait_for_link polls (poll p link) in
    if connects_again p.status && not (p.connect_error == 0)
    then exits 2
    else if same_status p.status link_up
    then linked (poll p link)
    else rest

-- `run_tcp_server_test`, behind the loop.
unfoldable pub and_open : Startup → Opened → Startup
and_open (linked link) opened = started opened link
and_open waited opened = waited

-- `main` up to its second loop, with what the driver answers and what `run_tcp_server_test` leaves.
unfoldable pub main : ℕ → ℕ → List Poll → Bool → Bool → ℕ → Bool → Startup
main init_error connect_error polls memory new_pcb bind_error listens =
    if not (init_error == 0)
    then exits 1
    else if not (connect_error == 0)
    then exits 2
    else and_open
        (wait_for_link polls (record { led = false; status_old = link_down; printed = [] }))
        (run_tcp_server_test memory new_pcb bind_error listens)

-- What the second loop asks for, and what it does with the LED.
pub data Act : Type 0 where
  dhcp_reboot netif_set_link_up netif_set_link_down stats_display : Act
  led_set : Bool → Act

-- The `switch` on a character from the UART.
unfoldable pub command : ℕ → List Act
command c =
    if c == b'r'
    then dhcp_reboot ∷ []
    else if c == b'u'
    then netif_set_link_up ∷ []
    else if c == b'd'
    then netif_set_link_down ∷ []
    else if c == b'x'
    then netif_set_link_down ∷ netif_set_link_up ∷ []
    else if c == b's'
    then stats_display ∷ []
    else []

-- A round of the second loop, with the character that is there, if one is.
unfoldable pub main_round : Option ℕ → List Act
main_round none = led_set true ∷ led_set false ∷ []
main_round (some c) = command c ++ led_set true ∷ led_set false ∷ []
