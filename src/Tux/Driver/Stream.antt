-- ===== src/Tux/Driver/Stream.antt =====
-- What the driver of mp2/module does with a stream of bytes that comes in pieces.
use computer_systems_enginee.Base.{
  ℕ, zero, suc, ◌-◌, ◌≤◌, ◌≡◌, refl, sym, ap, ◌∙◌, arith, List, [], ◌∷◌, ◌++◌, take, drop, length,
}
use computer_systems_enginee.Tux.Ring.{Ring, buf_room, put_bytes, get_bytes}
use computer_systems_enginee.Tux.Ring.Queue.{contents, put_bytes_lem, get_bytes_lem, buf_room_eq}
use computer_systems_enginee.Tux.Framing.{Packet, scan}
use computer_systems_enginee.Tux.Framing.Stream.{scan_append}
use computer_systems_enginee.Tux.Driver.{
  Driver, tuxctl_ldisc_put, tuxctl_ldisc_write_wakeup, process_rcvd_pckt0, process_rcvd_pckt1,
  set_upper, restore_leds, tuxctl_handle_packet, handle_packets, tuxctl_ldisc_data_callback,
  tuxctl_ldisc_rcv_buf,
}
use computer_systems_enginee.Tux.Driver.Sent.{append_assoc, take_all}
use computer_systems_enginee.Tux.Driver.Steps.{IsDriver}
use computer_systems_enginee.Tux.Driver.Reception.{rcv_buf-IsDriver}

-- A driver with another buffer for receiving and other saved bytes.
abbrev pub receiving : Ring → List ℕ → Driver → Driver
receiving r s d = record d { rx = r; saved = s }

-- The packets act on the rest of the driver alone.
handle-receiving :
    (p : Packet) (r : Ring) (s : List ℕ) (d : Driver)
    → tuxctl_handle_packet p (receiving r s d) ≡ receiving r s (tuxctl_handle_packet p d)
unfolding tuxctl_handle_packet restore_leds process_rcvd_pckt0 process_rcvd_pckt1 set_upper
    tuxctl_ldisc_put tuxctl_ldisc_write_wakeup
handle-receiving p r s d = ground arith

-- tuxctl_handle_packet for each of the packets, in their order.
abbrev pub in_turn : List Packet → Driver → Driver
in_turn [] d = d
in_turn (p ∷ ps) d = in_turn ps (tuxctl_handle_packet p d)

handle_packets_eq : (ps : List Packet) (d : Driver) → handle_packets ps d ≡ in_turn ps d
unfolding handle_packets
handle_packets_eq [] d = refl
handle_packets_eq (p ∷ ps) d = handle_packets_eq ps (tuxctl_handle_packet p d)

in_turn-receiving :
    (ps : List Packet) (r : Ring) (s : List ℕ) (d : Driver)
    → in_turn ps (receiving r s d) ≡ receiving r s (in_turn ps d)
in_turn-receiving [] r s d = refl
in_turn-receiving (p ∷ ps) r s d =
    ap (in_turn ps) (handle-receiving p r s d) ∙ in_turn-receiving ps r s (tuxctl_handle_packet p d)

in_turn_append :
    (ps qs : List Packet) (d : Driver) → in_turn (ps ++ qs) d ≡ in_turn qs (in_turn ps d)
in_turn_append [] qs d = refl
in_turn_append (p ∷ ps) qs d = in_turn_append ps qs (tuxctl_handle_packet p d)

-- What reception leaves: the packets that are found are handled, in their order, the bytes after
-- them are saved, and none waits.
pub record Handles (found : List Packet × List ℕ) (d after : Driver) : Type 0 where
  pub does : receiving d.rx d.saved after ≡ in_turn found.0 d
  pub saved : after.saved ≡ found.1
  pub empty : contents after.rx ≡ []

drop_all : (n : ℕ) (xs : List ℕ) → length xs ≤ n → drop n xs ≡ []
drop_all zero [] h = refl
drop_all zero (x ∷ xs) h = absurd (omega arith)
drop_all (suc n) [] h = refl
drop_all (suc n) (x ∷ xs) h = drop_all n xs (omega arith)

callback-Handles :
    (d : Driver) (bytes : List ℕ)
    → IsDriver d
    → contents d.rx ≡ bytes
    → length bytes ≤ 10
    → Handles (scan (d.saved ++ bytes)) d (tuxctl_ldisc_data_callback d)
unfolding tuxctl_ldisc_data_callback
callback-Handles d bytes v e short =
    let n = 12 - length d.saved in
    let got = get_bytes n d.rx in
    let t = get_bytes_lem n d.rx v.rx in
    let all : got.0 ≡ bytes =
      t.oldest ∙ ap (take n) e ∙ take_all n bytes (omega (arith, short, v.saved)) in
    let ps = (scan (d.saved ++ got.0)).0 in
    let d' = receiving got.1 d.saved d in
    record {
      does =
          ap (receiving d.rx d.saved)
            (handle_packets_eq ps d' ∙ in_turn-receiving ps got.1 d.saved d)
          ∙ sym (in_turn-receiving ps d.rx d.saved d)
          ∙ ap (λ xs. in_turn (scan (d.saved ++ xs)).0 d) all;
      saved = ap (λ xs. (scan (d.saved ++ xs)).1) all;
      empty =
          ap (λ x. contents x.rx) (handle_packets_eq ps d' ∙ in_turn-receiving ps got.1 d.saved d)
          ∙ t.queued
          ∙ ap (drop n) e
          ∙ drop_all n bytes (omega (arith, short, v.saved));
    }

rcv_buf-Handles :
    (bytes : List ℕ) (d : Driver)
    → IsDriver d
    → contents d.rx ≡ []
    → length bytes ≤ 10
    → Handles (scan (d.saved ++ bytes)) d (tuxctl_ldisc_rcv_buf bytes d)
unfolding tuxctl_ldisc_rcv_buf
rcv_buf-Handles bytes d v e short =
    let a = put_bytes_lem bytes d.rx v.rx in
    let d' = record d { rx = (put_bytes bytes d.rx).0 } in
    let room = buf_room_eq d.rx v.rx in
    let t =
      callback-Handles d' bytes (record { rx = a.valid; tx = v.tx; leds = v.leds; saved = v.saved })
        (a.queued
          ∙ ap (λ xs. xs ++ take (buf_room d.rx) bytes) e
          ∙ take_all (buf_room d.rx) bytes (omega (arith, short, room, ap length e)))
        short in
    record {
      does =
          ap (receiving d.rx d.saved) t.does
          ∙ ap (receiving d.rx d.saved)
              (in_turn-receiving (scan (d.saved ++ bytes)).0 d'.rx d.saved d)
          ∙ sym (in_turn-receiving (scan (d.saved ++ bytes)).0 d.rx d.saved d);
      saved = t.saved;
      empty = t.empty;
    }

-- The line discipline receives one piece after the other.
unfoldable pub receive : List (List ℕ) → Driver → Driver
receive [] d = d
receive (bytes ∷ pieces) d = receive pieces (tuxctl_ldisc_rcv_buf bytes d)

abbrev pub whole : List (List ℕ) → List ℕ
whole [] = []
whole (bytes ∷ pieces) = bytes ++ whole pieces

abbrev pub AllShort : List (List ℕ) → Type 0
AllShort [] = Unit {0}
AllShort (bytes ∷ pieces) = (length bytes ≤ 10) × AllShort pieces

scan_short : (xs : List ℕ) → length xs ≤ 2 → scan (xs ++ []) ≡ ([], xs)
unfolding scan
scan_short [] h = refl
scan_short (a ∷ []) h = refl
scan_short (a ∷ b ∷ []) h = refl
scan_short (a ∷ b ∷ c ∷ xs) h = absurd (omega arith)

-- In a well-formed driver that has no byte waiting, pieces of at most ten bytes are received in any
-- number: together, they do to the rest of the driver what tuxctl_handle_packet does for the
-- packets of the whole stream, in their order, wherever the pieces end. The stream begins with the
-- bytes that were saved; those after its last packet are saved, and none waits.
pub receive-Handles :
    (pieces : List (List ℕ)) (d : Driver)
    → IsDriver d
    → contents d.rx ≡ []
    → AllShort pieces
    → Handles (scan (d.saved ++ whole pieces)) d (receive pieces d)
unfolding receive
receive-Handles [] d v e short =
    let none_left = scan_short d.saved v.saved in
    record {
      does = ap (λ found. in_turn found.0 d) (sym none_left);
      saved = ap (λ found. found.1) (sym none_left);
      empty = e;
    }
receive-Handles (bytes ∷ pieces) d v e short =
    let d' = tuxctl_ldisc_rcv_buf bytes d in
    let one = rcv_buf-Handles bytes d v e short.0 in
    let found = scan (d.saved ++ bytes) in
    let next = scan (d'.saved ++ whole pieces) in
    let rest = receive-Handles pieces d' (rcv_buf-IsDriver bytes d v) one.empty short.1 in
    let cut : (found.0 ++ next.0, next.1) ≡ scan (d.saved ++ (bytes ++ whole pieces)) =
      ap (λ xs. (found.0 ++ (scan (xs ++ whole pieces)).0, (scan (xs ++ whole pieces)).1)) one.saved
      ∙ scan_append (d.saved ++ bytes) (whole pieces)
      ∙ ap scan (append_assoc d.saved bytes (whole pieces)) in
    record {
      does =
          ap (receiving d.rx d.saved) rest.does
          ∙ sym (in_turn-receiving next.0 d.rx d.saved d')
          ∙ ap (in_turn next.0) one.does
          ∙ sym (in_turn_append found.0 next.0 d)
          ∙ ap (λ f. in_turn f.0 d) cut;
      saved = rest.saved ∙ ap (λ f. f.1) cut;
      empty = rest.empty;
    }
