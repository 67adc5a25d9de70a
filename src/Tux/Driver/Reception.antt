-- ===== src/Tux/Driver/Reception.antt =====
-- The bytes received by the driver of mp2/module: what `tuxctl_ldisc_data_callback` makes of them.
use computer_systems_enginee.Base.{ℕ, ◌-◌, List, ◌++◌, length}
use computer_systems_enginee.Tux.Ring.{put_bytes, get_bytes}
use computer_systems_enginee.Tux.Ring.Queue.{put_bytes_lem, get_bytes_lem}
use computer_systems_enginee.Tux.Framing.{scan}
use computer_systems_enginee.Tux.Framing.Stream.{scan_saved}
use computer_systems_enginee.Tux.Driver.{Driver, tuxctl_ldisc_data_callback, tuxctl_ldisc_rcv_buf}
use computer_systems_enginee.Tux.Driver.Steps.{IsDriver, handle_all-IsDriver}

pub callback-IsDriver : (d : Driver) → IsDriver d → IsDriver (tuxctl_ldisc_data_callback d)
unfolding tuxctl_ldisc_data_callback
callback-IsDriver d v =
    let n = 12 - length d.saved in
    let got = get_bytes n d.rx in
    let t = get_bytes_lem n d.rx v.rx in
    let found = scan (d.saved ++ got.0) in
    let u =
      handle_all-IsDriver found.0 (record d { rx = got.1 })
        (record { rx = t.valid; tx = v.tx; leds = v.leds; saved = v.saved }) in
    record { rx = u.rx; tx = u.tx; leds = u.leds; saved = scan_saved (d.saved ++ got.0) }

-- Receiving any bytes, with all that the packets found in them do, leaves a well-formed driver well
-- formed.
pub rcv_buf-IsDriver :
    (bytes : List ℕ) (d : Driver) → IsDriver d → IsDriver (tuxctl_ldisc_rcv_buf bytes d)
unfolding tuxctl_ldisc_rcv_buf
rcv_buf-IsDriver bytes d v =
    callback-IsDriver (record d { rx = (put_bytes bytes d.rx).0 })
      (record {
        rx = (put_bytes_lem bytes d.rx v.rx).valid;
        tx = v.tx;
        leds = v.leds;
        saved = v.saved;
      })
