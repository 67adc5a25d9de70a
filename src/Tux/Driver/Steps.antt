-- ===== src/Tux/Driver/Steps.antt =====
-- What each step of the driver of mp2/module keeps and does.
use computer_systems_enginee.Base.{
  ℕ, suc, ◌+◌, ◌%◌, ◌≤◌, ◌≡◌, refl, sym, ap, ◌∙◌, subst, true, false, Bool, ◌==◌, if◌then◌else◌,
  List, [], ◌∷◌, set, length, length-set,
}
use computer_systems_enginee.Tux.Protocol.{
  mtcp_error, mtcp_ack, mtcp_reset, mtcp_bioc_event, mtcp_leds_poll0, leds_poll01, leds_poll02,
  leds_poll012, mtcp_leds_poll1, leds_poll11, leds_poll12, leds_poll112, mtcp_bioc_on,
}
use computer_systems_enginee.Tux.Ring.Queue.{IsRing}
use computer_systems_enginee.Tux.Framing.{Packet}
use computer_systems_enginee.Tux.Driver.{
  Driver, put, tuxctl_ldisc_put, tuxctl_ldisc_write_wakeup, set_leds, process_rcvd_pckt0,
  process_rcvd_pckt1, set_upper, restore_leds, tuxctl_handle_packet, handle_packets,
}
use computer_systems_enginee.Tux.Driver.Sent.{put_lem}

pub record IsDriver (d : Driver) : Type 0 where
  pub rx : IsRing d.rx
  pub tx : IsRing d.tx
  pub leds : length d.led_regular_buffer ≡ 6
  pub saved : length d.saved ≤ 2

pub put-IsDriver : (bytes : List ℕ) (d : Driver) → IsDriver d → IsDriver (put bytes d)
unfolding tuxctl_ldisc_put tuxctl_ldisc_write_wakeup
put-IsDriver bytes d v = record {
  rx = v.rx;
  tx = (put_lem bytes d v.tx).hands.valid;
  leds = v.leds;
  saved = v.saved;
}

-- A change of the flags and the other plain variables.
pub IsDriver-same :
    (d d' : Driver)
    → d'.rx ≡ d.rx
    → d'.tx ≡ d.tx
    → d'.led_regular_buffer ≡ d.led_regular_buffer
    → d'.saved ≡ d.saved
    → IsDriver d
    → IsDriver d'
IsDriver-same d d' r t l s v = record {
  rx = subst IsRing (sym r) v.rx;
  tx = subst IsRing (sym t) v.tx;
  leds = ap length l ∙ v.leds;
  saved = subst (λ x. length x ≤ 2) (sym s) v.saved;
}

set_leds-IsDriver : (i u x : ℕ) (d : Driver) → IsDriver d → IsDriver (set_leds i u x d)
set_leds-IsDriver i u x d v = record {
  rx = v.rx;
  tx = v.tx;
  leds =
      length-set (set d.led_regular_buffer i u) (suc i) x
      ∙ length-set d.led_regular_buffer i u
      ∙ v.leds;
  saved = v.saved;
}

restore-IsDriver : (d : Driver) → IsDriver d → IsDriver (restore_leds d)
unfolding restore_leds
restore-IsDriver d v =
    let d0 = record d { regular_buffer = mtcp_bioc_on } in
    let v1 = put-IsDriver (mtcp_bioc_on ∷ []) d0 (IsDriver-same d d0 refl refl refl refl v) in
    let d1 = put (mtcp_bioc_on ∷ []) d0 in
    let d2 = put d1.led_regular_buffer d1 in
    IsDriver-same d2 (record d2 { reset_flag = 0; ack_flag = 0 }) refl refl refl refl
      (put-IsDriver d1.led_regular_buffer d1 v1)

IsDriver-if : (b : Bool) (x y : Driver) → IsDriver x → IsDriver y → IsDriver (if b then x else y)
IsDriver-if true x y h k = h
IsDriver-if false x y h k = k

poll0-IsDriver : (p : Packet) (d : Driver) → IsDriver d → IsDriver (process_rcvd_pckt0 p d)
unfolding process_rcvd_pckt0
poll0-IsDriver p d v =
    (IsDriver-if (p.a == 0x50) _ _ (set_leds-IsDriver 2 (p.b % 128) (p.c % 128) d v) (
      IsDriver-if (p.a == 0x51) _ _ (set_leds-IsDriver 2 (p.c % 128) (p.b % 128 + 128) d v) (
        IsDriver-if (p.a == 0x52) _ _ (set_leds-IsDriver 2 (p.b % 128) (p.c % 128 + 128) d v) (
          IsDriver-if (p.a == 0x53) _ _
            (set_leds-IsDriver 2 (p.c % 128 + 128) (p.b % 128 + 128) d v) v))))

led_polled-IsDriver : (d : Driver) → IsDriver d → IsDriver (record d { led_poll_flag = 1 })
led_polled-IsDriver d v = IsDriver-same d _ refl refl refl refl v

upper-IsDriver : (p : Packet) (d : Driver) → IsDriver d → IsDriver (set_upper p d)
unfolding set_upper
upper-IsDriver p d v =
    (IsDriver-if (p.a == 0x54) _ _ (set_leds-IsDriver 4 (p.b % 128) (p.c % 128) d v) (
      IsDriver-if (p.a == 0x55) _ _ (set_leds-IsDriver 4 (p.c % 128) (p.b % 128 + 128) d v) (
        IsDriver-if (p.a == 0x56) _ _ (set_leds-IsDriver 4 (p.b % 128) (p.c % 128 + 128) d v) (
          IsDriver-if (p.a == 0x57) _ _
            (set_leds-IsDriver 4 (p.c % 128 + 128) (p.b % 128 + 128) d v) v))))

poll1-IsDriver : (p : Packet) (d : Driver) → IsDriver d → IsDriver (process_rcvd_pckt1 p d)
unfolding process_rcvd_pckt1
poll1-IsDriver p d v = led_polled-IsDriver (set_upper p d) (upper-IsDriver p d v)

event-IsDriver :
    (b c : ℕ) (d : Driver) → IsDriver d → IsDriver (record d { button_buffer = (b, c) })
event-IsDriver b c d v = IsDriver-same d _ refl refl refl refl v

error-IsDriver : (d : Driver) → IsDriver d → IsDriver (record d { error_flag = 1 })
error-IsDriver d v = IsDriver-same d _ refl refl refl refl v

ack-IsDriver : (d : Driver) → IsDriver d → IsDriver (record d { ack_flag = 1 })
ack-IsDriver d v = IsDriver-same d _ refl refl refl refl v

pub handle-IsDriver : (p : Packet) (d : Driver) → IsDriver d → IsDriver (tuxctl_handle_packet p d)
unfolding tuxctl_handle_packet
handle-IsDriver p d v =
    (IsDriver-if (p.a == mtcp_error) _ _ (error-IsDriver d v) (
      IsDriver-if (p.a == mtcp_ack) _ _ (ack-IsDriver d v) (
        IsDriver-if (p.a == mtcp_reset) _ _ (restore-IsDriver d v) (
          IsDriver-if (p.a == mtcp_bioc_event) _ _ (event-IsDriver p.b p.c d v) (
            IsDriver-if (p.a == mtcp_leds_poll0) _ _ (poll0-IsDriver p d v) (
              IsDriver-if (p.a == leds_poll01) _ _ (poll0-IsDriver p d v) (
                IsDriver-if (p.a == leds_poll02) _ _ (poll0-IsDriver p d v) (
                  IsDriver-if (p.a == leds_poll012) _ _ (poll0-IsDriver p d v) (
                    IsDriver-if (p.a == mtcp_leds_poll1) _ _ (poll1-IsDriver p d v) (
                      IsDriver-if (p.a == leds_poll11) _ _ (poll1-IsDriver p d v) (
                        IsDriver-if (p.a == leds_poll12) _ _ (poll1-IsDriver p d v) (
                          IsDriver-if (p.a == leds_poll112) _ _ (poll1-IsDriver p d v) v))))))))))))

pub handle_all-IsDriver :
    (ps : List Packet) (d : Driver) → IsDriver d → IsDriver (handle_packets ps d)
unfolding handle_packets
handle_all-IsDriver [] d v = v
handle_all-IsDriver (p ∷ ps) d v =
    handle_all-IsDriver ps (tuxctl_handle_packet p d) (handle-IsDriver p d v)
