-- ===== src/Examples/Controller.antt =====
-- Runs of the controller's driver, mp2/module, with room for one byte below it.
use computer_systems_enginee.Base.{
  ℕ, ◌≤◌, ◌≡◌, refl, arith, ◌==◌, if◌then◌else◌, some, List, [], ◌∷◌, ◌++◌, length, replicate,
}
use computer_systems_enginee.Tux.Protocol.{mtcp_reset, mtcp_bioc_event, mtcp_bioc_on}
use computer_systems_enginee.Tux.Ring.{Ring, buf_room, buf_used, put_bytes, get_bytes}
use computer_systems_enginee.Tux.Ring.Queue.{
  IsRing, contents, Accepts, Takes, put_bytes_lem, get_bytes_lem,
}
use computer_systems_enginee.Tux.Framing.{Packet, scan}
use computer_systems_enginee.Tux.Framing.Stream.{send, scan-send, AllFramed, in_two, scan_append}
use computer_systems_enginee.Tux.Driver.{
  Driver, empty_ring, tuxctl_ldisc_put, handle_packets, tuxctl_handle_packet, tuxctl_ioctl,
  tux_set_led, success, tuxctl_ldisc_rcv_buf, led_bytes,
}
use computer_systems_enginee.Tux.Driver.Sent.{HandsOver, Puts, put_lem, wakeups, wakeups_drain}
use computer_systems_enginee.Tux.Driver.Steps.{IsDriver}
use computer_systems_enginee.Tux.Driver.Reception.{rcv_buf-IsDriver}
use computer_systems_enginee.Tux.Driver.Stream.{Handles, receive, whole, receive-Handles}
use computer_systems_enginee.Tux.Driver.Requests.{reset-restores, last_event, Reports, buttons_lem}
use computer_systems_enginee.Tux.Driver.Display.{
  IsShowable, display, after_leds, Served, set_led_lem, ioctl-Served,
}
use computer_systems_enginee.Input.Timer.{buf_time, clock_face, led_bytes-buf_time}

-- A buffer whose queue goes round the end of the array: 62 and 63, then 0 and 1.
abbrev round_ring : Ring
round_ring = record { buf = replicate 64 9; start = 62; finish = 2 }

round-IsRing : IsRing round_ring
round-IsRing = record { size = refl; starts = omega arith; finishes = omega arith }

put_bytes_example :
    Accepts
      (1 ∷ 2 ∷ 3 ∷ [])
      round_ring
      (put_bytes (1 ∷ 2 ∷ 3 ∷ []) round_ring).0
      (put_bytes (1 ∷ 2 ∷ 3 ∷ []) round_ring).1
put_bytes_example = put_bytes_lem (1 ∷ 2 ∷ 3 ∷ []) round_ring round-IsRing

get_bytes_example : Takes 3 round_ring (get_bytes 3 round_ring).0 (get_bytes 3 round_ring).1
get_bytes_example = get_bytes_lem 3 round_ring round-IsRing

abbrev two_packets : List Packet
two_packets = record { a = 0x40; b = 0x80; c = 0x81 } ∷ record { a = 0x41; b = 0x8E; c = 0x8F } ∷ []

two_packets-AllFramed : AllFramed two_packets
two_packets-AllFramed = (refl, (refl, tt))

scan-send_example : scan (send two_packets) ≡ (two_packets, [])
scan-send_example = scan-send two_packets two_packets-AllFramed

scan_append_example :
    in_two (0x40 ∷ 0x80 ∷ []) (0x81 ∷ 0x41 ∷ []) ≡ scan ((0x40 ∷ 0x80 ∷ []) ++ (0x81 ∷ 0x41 ∷ []))
scan_append_example = scan_append (0x40 ∷ 0x80 ∷ []) (0x81 ∷ 0x41 ∷ [])

-- A driver that has received part of a packet, and has the LEDs of a display to remember.
abbrev open_driver : Driver
open_driver = record {
  rx = round_ring;
  tx = empty_ring;
  saved = 0x41 ∷ 0x8E ∷ [];
  error_flag = 0;
  ack_flag = 0;
  reset_flag = 0;
  led_poll_flag = 0;
  led_regular_buffer = 0xC6 ∷ 0xF ∷ 0xE7 ∷ 0x06 ∷ 0xCB ∷ 0x8F ∷ [];
  regular_buffer = 0;
  button_buffer = (0, 0);
  write_room = λ k. 1;
  calls = 0;
  written = [];
  copies = [];
}

open-IsDriver : IsDriver open_driver
open-IsDriver = record {
  rx = round-IsRing;
  tx = record { size = refl; starts = omega arith; finishes = omega arith };
  leds = refl;
  saved = omega arith;
}

put_example :
    Puts
      (1 ∷ 2 ∷ 3 ∷ [])
      open_driver
      (tuxctl_ldisc_put (1 ∷ 2 ∷ 3 ∷ []) open_driver).0
      (tuxctl_ldisc_put (1 ∷ 2 ∷ 3 ∷ []) open_driver).1
put_example = put_lem (1 ∷ 2 ∷ 3 ∷ []) open_driver open-IsDriver.tx

-- Three bytes wait to be sent, and none that was received waits.
abbrev waiting_driver : Driver
waiting_driver = record open_driver {
  rx = empty_ring;
  tx = record { buf = replicate 64 7; start = 63; finish = 2 };
}

waiting-IsRing : IsRing waiting_driver.tx
waiting-IsRing = record { size = refl; starts = omega arith; finishes = omega arith }

waiting-IsDriver : IsDriver waiting_driver
waiting-IsDriver = record {
  rx = open-IsDriver.tx;
  tx = waiting-IsRing;
  leds = refl;
  saved = omega arith;
}

three_wait : length (contents waiting_driver.tx) ≤ 3
unfolding buf_used
three_wait = omega arith

drain_example :
    ((wakeups 3 waiting_driver).written ≡ waiting_driver.written ++ contents waiting_driver.tx)
    × (contents (wakeups 3 waiting_driver).tx ≡ [])
drain_example = wakeups_drain 3 waiting_driver waiting-IsRing three_wait

none_received : contents waiting_driver.rx ≡ []
unfolding buf_used
none_received = refl

-- The end of a packet, and a packet in two pieces.
abbrev pieces : List (List ℕ)
pieces = (0x8F ∷ 0x46 ∷ 0x80 ∷ []) ∷ (0x81 ∷ []) ∷ []

receive_example :
    Handles
      (scan (waiting_driver.saved ++ whole pieces))
      waiting_driver
      (receive pieces waiting_driver)
receive_example =
    receive-Handles pieces waiting_driver waiting-IsDriver none_received
      (omega arith, (omega arith, tt))

rcv_buf_example : IsDriver (tuxctl_ldisc_rcv_buf (0x41 ∷ 0x8E ∷ 0x8F ∷ []) open_driver)
rcv_buf_example = rcv_buf-IsDriver (0x41 ∷ 0x8E ∷ 0x8F ∷ []) open_driver open-IsDriver

abbrev reset_packet : Packet
reset_packet = record { a = mtcp_reset; b = 0x80; c = 0x80 }

empty_room : 7 ≤ buf_room open_driver.tx
unfolding buf_room buf_used
empty_room = omega arith

reset_example :
    ((wakeups 63 (tuxctl_handle_packet reset_packet open_driver)).written
      ≡ (open_driver.written ++ contents open_driver.tx)
        ++ (mtcp_bioc_on ∷ open_driver.led_regular_buffer))
    × (contents (wakeups 63 (tuxctl_handle_packet reset_packet open_driver)).tx ≡ [])
reset_example =
    reset-restores reset_packet open_driver 63 open-IsDriver refl empty_room (omega arith)

abbrev button_packet : Packet
button_packet = record { a = mtcp_bioc_event; b = 0x8E; c = 0x8F }

-- A user's memory to which everything below 4096 can be copied.
abbrev user_memory : ℕ → ℕ → ℕ
user_memory arg value = if arg == 0 then 4 else 0

-- Two events with a reset between them.
abbrev button_packets : List Packet
button_packets =
    record { a = mtcp_bioc_event; b = 0x81; c = 0x82 } ∷ reset_packet ∷ button_packet ∷ []

buttons_example :
    Reports user_memory 16
      (last_event button_packets open_driver.button_buffer)
      (handle_packets button_packets open_driver)
buttons_example =
    buttons_lem user_memory 16 button_packets open_driver refl
      (λ e. cc e, (λ e. cc e, (λ e. cc e, tt)))

abbrev noon : ℕ
noon = 0xF4FF0C3B

noon-IsShowable : IsShowable noon
noon-IsShowable = (omega arith, omega arith)

set_led_example :
    (tuxctl_ioctl user_memory (tux_set_led noon) open_driver
      ≡ some (after_leds (display noon) open_driver, success))
    × HandsOver
        (contents open_driver.tx ++ display noon)
        open_driver
        (after_leds (display noon) open_driver)
set_led_example =
    set_led_lem user_memory noon open_driver open-IsDriver refl noon-IsShowable
      (omega (arith, empty_room))

ioctl-Served_example : Served (tuxctl_ioctl user_memory (tux_set_led noon) open_driver)
ioctl-Served_example =
    ioctl-Served user_memory (tux_set_led noon) open_driver open-IsDriver noon-IsShowable

led_bytes-buf_time_example : led_bytes (buf_time 754) ≡ some (clock_face 754)
led_bytes-buf_time_example = led_bytes-buf_time 754
