-- ===== src/Startup/Blink.antt =====
-- The LED while the link is not up.
use c_web_socket_pico_w_test.Base.{
  ℕ, zero, suc, ◌+◌, ◌%◌, ltb, ◌≡◌, ◌≢◌, refl, ap, ◌∙◌, arith, Bool, List, [], ◌∷◌,
}
use c_web_socket_pico_w_test.Startup.{
  LinkStatus, link_down, link_join, link_noip, link_up, link_fail, link_nonet, link_badauth,
  link_other, rate, on_time, connects_again, led_after, same_status, Poll, Link, Startup, polling,
  poll, wait_for_link,
}

-- A poll in each of `n` milliseconds, from `ms` on, with one status; connecting again succeeds.
abbrev pub each_ms : LinkStatus → ℕ → ℕ → List Poll
each_ms status ms zero = []
each_ms status ms (suc n) =
    record { status = status; ms = ms; connect_error = 0 } ∷ each_ms status (suc ms) n

-- How the LED is to blink: for how many milliseconds it is on, at the start of how many.
abbrev pub period : LinkStatus → ℕ
period link_join = 300
period link_noip = 200
period _ = 500

abbrev pub shows : LinkStatus → ℕ → Bool
shows link_join ms = ltb (ms % 300) 150
shows link_noip ms = ltb (ms % 200) 100
shows link_fail ms = ltb (ms % 500) 50
shows link_nonet ms = ltb (ms % 500) 50
shows link_badauth ms = ltb (ms % 500) 50
shows _ ms = ltb (ms % 500) 250

-- A status that shows in the LED from a poll to the next.
led_after-shows :
    (status : LinkStatus) (ms : ℕ)
    → led_after status (suc ms) (shows status ms) ≡ shows status (suc ms)
unfolding led_after rate on_time
led_after-shows link_down ms = ground arith
led_after-shows link_join ms = ground arith
led_after-shows link_noip ms = ground arith
led_after-shows link_up ms = ground arith
led_after-shows link_fail ms = ground arith
led_after-shows link_nonet ms = ground arith
led_after-shows link_badauth ms = ground arith
led_after-shows (link_other code) ms = ground arith

led_after-first :
    (status : LinkStatus) (ms : ℕ) (led : Bool)
    → ms % period status ≡ 0
    → led_after status ms led ≡ shows status ms
unfolding led_after rate on_time
led_after-first link_down ms led h = ground arith
led_after-first link_join ms led h = ground arith
led_after-first link_noip ms led h = ground arith
led_after-first link_up ms led h = ground arith
led_after-first link_fail ms led h = ground arith
led_after-first link_nonet ms led h = ground arith
led_after-first link_badauth ms led h = ground arith
led_after-first (link_other code) ms led h = ground arith

-- A poll at which connecting again succeeds leaves the loop only when the link is up.
wait_for_link-goes_on :
    (status : LinkStatus) (ms : ℕ) (polls : List Poll) (link : Link)
    → status ≢ link_up
    → wait_for_link (record { status = status; ms = ms; connect_error = 0 } ∷ polls) link
      ≡ wait_for_link polls (poll (record { status = status; ms = ms; connect_error = 0 }) link)
unfolding wait_for_link connects_again same_status
wait_for_link-goes_on link_down ms polls link other = refl
wait_for_link-goes_on link_join ms polls link other = refl
wait_for_link-goes_on link_noip ms polls link other = refl
wait_for_link-goes_on link_up ms polls link other = absurd (other refl)
wait_for_link-goes_on link_fail ms polls link other = refl
wait_for_link-goes_on link_nonet ms polls link other = refl
wait_for_link-goes_on link_badauth ms polls link other = refl
wait_for_link-goes_on (link_other code) ms polls link other = refl

-- The loop still polls, and the LED shows the status.
abbrev pub Shows : LinkStatus → ℕ → Startup → Type 0
Shows status ms t = (link : Link) × (t ≡ polling link) × (link.led ≡ shows status ms)

each_ms-Shows :
    (status : LinkStatus) (n ms : ℕ) (link : Link)
    → status ≢ link_up
    → link.led ≡ shows status ms
    → Shows status (ms + n) (wait_for_link (each_ms status (suc ms) n) link)
unfolding wait_for_link poll
each_ms-Shows status zero ms link other now =
    (link, refl, now ∙ ap (shows status) {x = ms} {y = ms + 0} (omega arith))
each_ms-Shows status (suc n) ms link other now =
    let p : Poll = record { status = status; ms = suc ms; connect_error = 0 } in
    let (link1, e, lit) =
      each_ms-Shows status n (suc ms) (poll p link) other
        (ap (led_after status (suc ms)) now ∙ led_after-shows status ms) in
    (
      link1,
      wait_for_link-goes_on status (suc ms) (each_ms status (suc (suc ms)) n) link other ∙ e,
      lit ∙ ap (shows status) {x = suc ms + n} {y = ms + suc n} (omega arith),
    )

-- While a status other than `link_up` lasts, the LED blinks by it, whatever it showed before: it is
-- on for 250 of 500 milliseconds for a link that is down or unknown, for 150 of 300 while it joins,
-- for 100 of 200 without an address, and for 50 of 500 after a failure, as long as connecting again
-- succeeds. There is a poll in each millisecond, the first one at a multiple of the period, and the
-- clock of 32 bits does not wrap meanwhile.
pub wait_for_link-Shows :
    (status : LinkStatus) (n ms : ℕ) (link : Link)
    → status ≢ link_up
    → ms % period status ≡ 0
    → Shows status (ms + n) (wait_for_link (each_ms status ms (suc n)) link)
unfolding poll
wait_for_link-Shows status n ms link other start =
    let p : Poll = record { status = status; ms = ms; connect_error = 0 } in
    let (link1, e, lit) =
      each_ms-Shows status n ms (poll p link) other (led_after-first status ms link.led start) in
    (link1, wait_for_link-goes_on status ms (each_ms status (suc ms) n) link other ∙ e, lit)
