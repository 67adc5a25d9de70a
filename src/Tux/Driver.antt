-- ===== src/Tux/Driver.antt =====
-- The state of mp2/module/tuxctl-ioctl.c and tuxctl-ld.c, and the functions over it. The serial driver
-- below them is a parameter: `write_room` has the answers of its method of that name, one a call, and
-- `written` the bytes that its method `write` is given. `copies` has what copy_to_user is asked to
-- write, an address and a number. The functions run under a lock, so each is one step.
pub mod Sent
pub mod Steps
pub mod Reception
pub mod Stream
pub mod Requests
pub mod Display
use computer_systems_enginee.Base.{
  ℕ, zero, suc, ◌+◌, ◌-◌, ◌*◌, ◌/◌, ◌%◌, ◌^◌, Bool, true, false, Option, none, some, List, [], ◌∷◌,
  ◌++◌, ◌==◌, leb, if◌then◌else◌, get_elem?, set, length, replicate,
}
use computer_systems_enginee.Tux.Protocol.{
  mtcp_ack, mtcp_bioc_event, mtcp_reset, mtcp_leds_poll0, leds_poll01, leds_poll02, leds_poll012,
  mtcp_leds_poll1, leds_poll11, leds_poll12, leds_poll112, mtcp_error, mtcp_bioc_on, mtcp_led_set,
  mtcp_led_usr, mtcp_clk_reset, mtcp_clk_up,
}
use computer_systems_enginee.Tux.Ring.{Ring, tuxctl_bufsize, put_bytes, get_bytes}
use computer_systems_enginee.Tux.Framing.{Packet, scan}

pub record Driver : Type 0 where
  pub rx : Ring
  pub tx : Ring
  pub saved : List ℕ
  pub error_flag : ℕ
  pub ack_flag : ℕ
  pub reset_flag : ℕ
  pub led_poll_flag : ℕ
  pub led_regular_buffer : List ℕ
  pub regular_buffer : ℕ
  pub button_buffer : ℕ × ℕ
  pub write_room : ℕ → ℕ
  pub calls : ℕ
  pub written : List ℕ
  pub copies : List (ℕ × ℕ)

abbrev pub empty_ring : Ring
empty_ring = record { buf = replicate tuxctl_bufsize 0; start = 0; finish = 0 }

-- `tuxctl_ldisc_open`
unfoldable pub tuxctl_ldisc_open : Driver → Driver
tuxctl_ldisc_open d = record d { rx = empty_ring; tx = empty_ring }

-- `while (n <= room && …)` takes one byte more than there is room for.
unfoldable pub tuxctl_ldisc_write_wakeup : Driver → Driver
tuxctl_ldisc_write_wakeup d =
    let taken = get_bytes (suc (d.write_room d.calls)) d.tx in
    record d { tx = taken.1; calls = suc d.calls; written = d.written ++ taken.0 }

unfoldable pub tuxctl_ldisc_put : List ℕ → Driver → Driver × ℕ
tuxctl_ldisc_put bytes d =
    let r = put_bytes bytes d.tx in (tuxctl_ldisc_write_wakeup (record d { tx = r.0 }), r.1)

-- A put whose count is thrown away.
abbrev pub put : List ℕ → Driver → Driver
put bytes d = (tuxctl_ldisc_put bytes d).0

abbrev pub set_leds : ℕ → ℕ → ℕ → Driver → Driver
set_leds i u v d = record d { led_regular_buffer = set (set d.led_regular_buffer i u) (suc i) v }

-- `x & 0x7F` and `x | 0x80` of a byte are `x % 128` and `x % 128 + 128`.
unfoldable pub process_rcvd_pckt0 : Packet → Driver → Driver
process_rcvd_pckt0 p d =
    if p.a == 0x50
    then set_leds 2 (p.b % 128) (p.c % 128) d
    else if p.a == 0x51
    then set_leds 2 (p.c % 128) (p.b % 128 + 128) d
    else if p.a == 0x52
    then set_leds 2 (p.b % 128) (p.c % 128 + 128) d
    else if p.a == 0x53
    then set_leds 2 (p.c % 128 + 128) (p.b % 128 + 128) d
    else d

-- The switch of `process_rcvd_pckt1`.
unfoldable pub set_upper : Packet → Driver → Driver
set_upper p d =
    if p.a == 0x54
    then set_leds 4 (p.b % 128) (p.c % 128) d
    else if p.a == 0x55
    then set_leds 4 (p.c % 128) (p.b % 128 + 128) d
    else if p.a == 0x56
    then set_leds 4 (p.b % 128) (p.c % 128 + 128) d
    else if p.a == 0x57
    then set_leds 4 (p.c % 128 + 128) (p.b % 128 + 128) d
    else d

unfoldable pub process_rcvd_pckt1 : Packet → Driver → Driver
unfolding set_upper
process_rcvd_pckt1 p d = record (set_upper p d) { led_poll_flag = 1 }

unfoldable pub restore_leds : Driver → Driver
restore_leds d =
    let d1 = put (mtcp_bioc_on ∷ []) (record d { regular_buffer = mtcp_bioc_on }) in
    let d2 = put d1.led_regular_buffer d1 in record d2 { reset_flag = 0; ack_flag = 0 }

unfoldable pub tuxctl_handle_packet : Packet → Driver → Driver
tuxctl_handle_packet p d =
    if p.a == mtcp_error
    then record d { error_flag = 1 }
    else if p.a == mtcp_ack
    then record d { ack_flag = 1 }
    else if p.a == mtcp_reset
    then restore_leds d
    else if p.a == mtcp_bioc_event
    then record d { button_buffer = (p.b, p.c) }
    else if p.a == mtcp_leds_poll0
    then process_rcvd_pckt0 p d
    else if p.a == leds_poll01
    then process_rcvd_pckt0 p d
    else if p.a == leds_poll02
    then process_rcvd_pckt0 p d
    else if p.a == leds_poll012
    then process_rcvd_pckt0 p d
    else if p.a == mtcp_leds_poll1
    then process_rcvd_pckt1 p d
    else if p.a == leds_poll11
    then process_rcvd_pckt1 p d
    else if p.a == leds_poll12
    then process_rcvd_pckt1 p d
    else if p.a == leds_poll112
    then process_rcvd_pckt1 p d
    else d

unfoldable pub handle_packets : List Packet → Driver → Driver
handle_packets [] d = d
handle_packets (p ∷ ps) d = handle_packets ps (tuxctl_handle_packet p d)

unfoldable pub tuxctl_ldisc_data_callback : Driver → Driver
tuxctl_ldisc_data_callback d =
    let got = get_bytes (12 - length d.saved) d.rx in
    let found = scan (d.saved ++ got.0) in
    let d' = handle_packets found.0 (record d { rx = got.1 }) in record d' { saved = found.1 }

unfoldable pub tuxctl_ldisc_rcv_buf : List ℕ → Driver → Driver
tuxctl_ldisc_rcv_buf bytes d =
    tuxctl_ldisc_data_callback (record d { rx = (put_bytes bytes d.rx).0 })

-- The ioctls that the driver knows, and any other.
pub data Ioctl : Type 0 where
  tux_init : Ioctl
  tux_buttons tux_set_led : ℕ → Ioctl
  unknown : Ioctl

-- 0, -1 and -EINVAL.
pub data Status : Type 0 where
  success failure invalid : Status

abbrev pub nums : List ℕ
nums =
    0xE7 ∷ 0x06 ∷ 0xCB ∷ 0x8F ∷ 0x2E ∷ 0xAD ∷ 0xED ∷ 0x86 ∷ 0xEF ∷ 0xAE ∷ 0xEE ∷ 0x6D ∷ 0xE1 ∷ 0x4F
    ∷ 0xE9 ∷ 0xE8 ∷ []

-- `x | 0x10`
abbrev pub with_point : ℕ → ℕ
with_point x = if x / 16 % 2 == 1 then x else x + 16

-- One turn of the loop, for position `i` and the digit there. A digit past the end of `nums` is read
-- from outside the array: `none`.
unfoldable pub segment : ℕ → ℕ → ℕ → Option ℕ
segment arg i digit =
    let led_on = arg / 2 ^ 16 % 16 in
    let dp_on = arg / 2 ^ 24 % 16 in
    let lit = if led_on / 2 ^ i % 2 == 1 then get_elem? nums digit else some 0 in
    elim lit [ none ↦ none | some x ↦ some (if dp_on / 2 ^ i % 2 == 1 then with_point x else x) ]

abbrev pub four : Option ℕ → Option ℕ → Option ℕ → Option ℕ → Option (List ℕ)
four (some u) (some v) (some x) (some y) = some (mtcp_led_set ∷ 0xF ∷ u ∷ v ∷ x ∷ y ∷ [])
four u v x y = none

-- The six bytes for the low 16 bits of the argument, a byte of minutes and a byte of seconds.
unfoldable pub led_bytes : ℕ → Option (List ℕ)
led_bytes arg =
    let convert_min = arg % 2 ^ 16 / 2 ^ 8 in
    let convert_sec = arg % 2 ^ 8 in
    four (segment arg 0 (convert_sec % 10)) (segment arg 1 (convert_sec / 10))
      (segment arg 2 (convert_min % 10)) (segment arg 3 (convert_min / 10))

-- What an ioctl first does when an error packet has come.
unfoldable pub after_error : Driver → Driver
after_error d =
    if d.error_flag == 0
    then d
    else let d' = put (mtcp_bioc_on ∷ []) (record d { regular_buffer = mtcp_bioc_on }) in
      record d' { reset_flag = 0; ack_flag = 0 }

-- `copy_to_user` gives the number of bytes that it did not copy, from the address and the value.
unfoldable pub switch_cmd : (ℕ → ℕ → ℕ) → Ioctl → Driver → Option (Driver × Status)
switch_cmd copy_to_user tux_init d =
    let d1 = put (mtcp_bioc_on ∷ []) d in
    let d2 = put (mtcp_led_usr ∷ []) d1 in
    let d3 = put (mtcp_clk_reset ∷ []) d2 in
    let d4 = put (mtcp_clk_up ∷ []) d3 in some (record d4 { ack_flag = 1 }, success)
switch_cmd copy_to_user (tux_buttons arg) d =
    let value = d.button_buffer.0 % 16 + 16 * (d.button_buffer.1 % 16) in
    let d' = record d { copies = d.copies ++ ((arg, value) ∷ []) } in
    some (d', (if copy_to_user arg value == 0 then success else failure))
switch_cmd copy_to_user (tux_set_led arg) d = elim (led_bytes arg) [
  | none ↦ none
  | some bytes ↦
      let d' = put bytes d in some (record d' { led_regular_buffer = bytes; ack_flag = 1 }, success)
]
switch_cmd copy_to_user unknown d = some (d, invalid)

unfoldable pub tuxctl_ioctl : (ℕ → ℕ → ℕ) → Ioctl → Driver → Option (Driver × Status)
tuxctl_ioctl copy_to_user cmd d = switch_cmd copy_to_user cmd (after_error d)
