-- ===== src/Tux/Driver/Requests.antt =====
-- How the packets, the ioctls and the serial driver of mp2/module work together.
use computer_systems_enginee.Base.{
  ℕ, ◌+◌, ◌*◌, ◌/◌, ◌%◌, ◌≤◌, ◌≡◌, ◌≢◌, refl, sym, ap, subst, ◌∙◌, arith, some, ◌==◌, if◌then◌else◌,
  List, [], ◌∷◌, ◌++◌,
}
use computer_systems_enginee.Tux.Protocol.{mtcp_bioc_event, mtcp_reset, mtcp_bioc_on, mtcp_error}
use computer_systems_enginee.Tux.Ring.{buf_room}
use computer_systems_enginee.Tux.Ring.Queue.{contents, buf_room_eq}
use computer_systems_enginee.Tux.Framing.{Packet}
use computer_systems_enginee.Tux.Driver.{
  Driver, put, tuxctl_ldisc_put, tuxctl_ldisc_write_wakeup, restore_leds, tuxctl_handle_packet,
  process_rcvd_pckt0, process_rcvd_pckt1, set_upper, handle_packets, tux_buttons, success, failure,
  after_error, switch_cmd, tuxctl_ioctl,
}
use computer_systems_enginee.Tux.Driver.Sent.{
  put_lem, put_fits, append_assoc, in_order, HandsOver-in_order, wakeups, wakeups_drain,
}
use computer_systems_enginee.Tux.Driver.Steps.{IsDriver, handle-IsDriver}

reset-in_order :
    (p : Packet) (d : Driver)
    → IsDriver d
    → p.a ≡ mtcp_reset
    → 7 ≤ buf_room d.tx
    → in_order (tuxctl_handle_packet p d) ≡ in_order d ++ (mtcp_bioc_on ∷ d.led_regular_buffer)
unfolding tuxctl_handle_packet restore_leds tuxctl_ldisc_put tuxctl_ldisc_write_wakeup
reset-in_order p d v e room =
    let d0 = record d { regular_buffer = mtcp_bioc_on } in
    let d1 = put (mtcp_bioc_on ∷ []) d0 in
    let one = put_fits (mtcp_bioc_on ∷ []) d0 v.tx (omega (arith, room)) in
    let more = (put_lem (mtcp_bioc_on ∷ []) d0 v.tx).room in
    let two = put_fits d.led_regular_buffer d1 one.valid (omega (arith, more, room, v.leds)) in
    rw e (
      HandsOver-in_order (contents d1.tx ++ d.led_regular_buffer) d1 (put d.led_regular_buffer d1)
        two
      ∙ sym (append_assoc d1.written (contents d1.tx) d.led_regular_buffer)
      ∙ ap (λ xs. xs ++ d.led_regular_buffer)
          (HandsOver-in_order (contents d.tx ++ (mtcp_bioc_on ∷ [])) d0 d1 one
            ∙ sym (append_assoc d.written (contents d.tx) (mtcp_bioc_on ∷ [])))
      ∙ append_assoc (in_order d) (mtcp_bioc_on ∷ []) d.led_regular_buffer)

-- For a reset packet, in a well-formed driver where there is room for seven bytes: once the serial
-- driver has called 63 times or more, its write has been given the bytes that waited, then the
-- command that enables the buttons, and then the bytes of the LEDs, whatever its write_room says;
-- then none waits.
pub reset-restores :
    (p : Packet) (d : Driver) (n : ℕ)
    → IsDriver d
    → p.a ≡ mtcp_reset
    → 7 ≤ buf_room d.tx
    → 63 ≤ n
    → ((wakeups n (tuxctl_handle_packet p d)).written
        ≡ (d.written ++ contents d.tx) ++ (mtcp_bioc_on ∷ d.led_regular_buffer))
      × (contents (wakeups n (tuxctl_handle_packet p d)).tx ≡ [])
reset-restores p d n v e room h =
    let d' = tuxctl_handle_packet p d in
    let v' = handle-IsDriver p d v in
    let (given, left) = wakeups_drain n d' v'.tx (omega (arith, h, buf_room_eq d'.tx v'.tx)) in
    (given ∙ reset-in_order p d v e room, left)

-- The buttons of the last event in a sequence of packets; `old` if it has none.
abbrev pub last_event : List Packet → ℕ × ℕ → ℕ × ℕ
last_event [] old = old
last_event (p ∷ ps) old = last_event ps (if p.a == mtcp_bioc_event then (p.b, p.c) else old)

abbrev pub NoErrors : List Packet → Type 0
NoErrors [] = Unit {0}
NoErrors (p ∷ ps) = (p.a ≢ mtcp_error) × NoErrors ps

handle-buttons :
    (p : Packet) (d : Driver)
    → (tuxctl_handle_packet p d).button_buffer
      ≡ (if p.a == mtcp_bioc_event then (p.b, p.c) else d.button_buffer)
unfolding tuxctl_handle_packet restore_leds process_rcvd_pckt0 process_rcvd_pckt1 set_upper
    tuxctl_ldisc_put tuxctl_ldisc_write_wakeup
handle-buttons p d = ground arith

handle-error :
    (p : Packet) (d : Driver)
    → p.a ≢ mtcp_error
    → (tuxctl_handle_packet p d).error_flag ≡ d.error_flag
unfolding tuxctl_handle_packet restore_leds process_rcvd_pckt0 process_rcvd_pckt1 set_upper
    tuxctl_ldisc_put tuxctl_ldisc_write_wakeup
handle-error p d ne = ground (arith, ne)

handle_all-buttons :
    (ps : List Packet) (d : Driver)
    → (handle_packets ps d).button_buffer ≡ last_event ps d.button_buffer
unfolding handle_packets
handle_all-buttons [] d = refl
handle_all-buttons (p ∷ ps) d =
    handle_all-buttons ps (tuxctl_handle_packet p d) ∙ ap (last_event ps) (handle-buttons p d)

handle_all-error :
    (ps : List Packet) (d : Driver) → NoErrors ps → (handle_packets ps d).error_flag ≡ d.error_flag
unfolding handle_packets
handle_all-error [] d h = refl
handle_all-error (p ∷ ps) d h =
    handle_all-error ps (tuxctl_handle_packet p d) h.1 ∙ handle-error p d h.0

-- What the ioctl for the buttons answers: the eight buttons in one number, which copy_to_user is
-- asked to write.
pub record Reports (copy_to_user : ℕ → ℕ → ℕ) (arg : ℕ) (buttons : ℕ × ℕ) (d : Driver)
    : Type 0 where
  pub value : ℕ
  pub runs :
      tuxctl_ioctl copy_to_user (tux_buttons arg) d
      ≡ some (
        record d { copies = d.copies ++ ((arg, value) ∷ []) },
        if copy_to_user arg value == 0 then success else failure,
      )
  pub right : value % 16 ≡ buttons.0 % 16
  pub left : value / 16 ≡ buttons.1 % 16

clear_buttons :
    (copy_to_user : ℕ → ℕ → ℕ) (arg : ℕ) (d : Driver)
    → d.error_flag ≡ 0
    → Reports copy_to_user arg d.button_buffer d
unfolding tuxctl_ioctl switch_cmd after_error
clear_buttons copy_to_user arg d clear = record {
  value = d.button_buffer.0 % 16 + 16 * (d.button_buffer.1 % 16);
  runs = rw clear refl;
  right = omega arith;
  left = omega arith;
}

-- While no error packet has come, after any sequence of packets the ioctl for the buttons asks for
-- one number to be copied to the user's address, and changes nothing else: its low four bits are
-- those of the second byte of the last button event in the sequence, and the number divided by 16
-- is the low four bits of the event's third byte. Where there was no such event, they are the
-- buttons of before. The answer says whether all was copied.
pub buttons_lem :
    (copy_to_user : ℕ → ℕ → ℕ) (arg : ℕ) (ps : List Packet) (d : Driver)
    → d.error_flag ≡ 0
    → NoErrors ps
    → Reports copy_to_user arg (last_event ps d.button_buffer) (handle_packets ps d)
buttons_lem copy_to_user arg ps d clear h =
    subst (λ b. Reports copy_to_user arg b (handle_packets ps d)) (handle_all-buttons ps d)
      (clear_buttons copy_to_user arg (handle_packets ps d) (handle_all-error ps d h ∙ clear))
