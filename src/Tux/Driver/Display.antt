-- ===== src/Tux/Driver/Display.antt =====
-- The bytes that the ioctl for the LEDs of mp2/module/tuxctl-ioctl.c makes, and what it does with them.
use computer_systems_enginee.Base.{
  ℕ, zero, suc, ◌/◌, ◌%◌, ◌^◌, ◌≤◌, ◌<◌, ◌≡◌, refl, ap, ◌∙◌, arith, Bool-cases, inl, inr, Option,
  some, ◌==◌, if◌then◌else◌, List, [], ◌∷◌, ◌++◌, length, get_elem?, get_or,
}
use computer_systems_enginee.Tux.Protocol.{
  mtcp_led_set, mtcp_bioc_on, mtcp_led_usr, mtcp_clk_reset, mtcp_clk_up,
}
use computer_systems_enginee.Tux.Ring.{buf_room}
use computer_systems_enginee.Tux.Ring.Queue.{contents}
use computer_systems_enginee.Tux.Driver.{
  Driver, put, Ioctl, tux_init, tux_buttons, tux_set_led, unknown, Status, success, after_error,
  switch_cmd, tuxctl_ioctl, led_bytes, segment, nums, with_point,
}
use computer_systems_enginee.Tux.Driver.Sent.{HandsOver, put_fits}
use computer_systems_enginee.Tux.Driver.Steps.{IsDriver, IsDriver-same, put-IsDriver}

get_elem?_of_lt : (xs : List ℕ) (i d : ℕ) → i < length xs → get_elem? xs i ≡ some (get_or xs i d)
get_elem?_of_lt [] i d h = absurd (omega arith)
get_elem?_of_lt (x ∷ xs) zero d h = refl
get_elem?_of_lt (x ∷ xs) (suc i) d h = get_elem?_of_lt xs i d (omega arith)

-- What position `i` shows: nothing, or a digit, and a point.
abbrev pub lamp : ℕ → ℕ → ℕ → ℕ → ℕ
lamp led_on dp_on i digit =
    let x = if led_on / 2 ^ i % 2 == 1 then get_or nums digit 0 else 0 in
    if dp_on / 2 ^ i % 2 == 1 then with_point x else x

abbrev pub shown : ℕ → ℕ → ℕ → ℕ
shown arg i digit = lamp (arg / 2 ^ 16 % 16) (arg / 2 ^ 24 % 16) i digit

segment_eq : (arg i digit : ℕ) → digit < 16 → segment arg i digit ≡ some (shown arg i digit)
unfolding segment
segment_eq arg i digit h = elim (Bool-cases (arg / 2 ^ 16 % 16 / 2 ^ i % 2 == 1)) [
  | inl t ↦ rw (t, get_elem?_of_lt nums digit 0 h, segment) refl
  | inr f ↦ rw (f, segment) refl
]

-- The minutes and the seconds of an argument.
abbrev pub minutes_of : ℕ → ℕ
minutes_of arg = arg % 2 ^ 16 / 2 ^ 8

abbrev pub seconds_of : ℕ → ℕ
seconds_of arg = arg % 2 ^ 8

-- The six bytes where no digit is past the end of the table.
abbrev pub panel : ℕ → ℕ → ℕ → ℕ → List ℕ
panel led_on dp_on m s =
    mtcp_led_set
    ∷ 0xF
    ∷ lamp led_on dp_on 0 (s % 10)
    ∷ lamp led_on dp_on 1 (s / 10)
    ∷ lamp led_on dp_on 2 (m % 10)
    ∷ lamp led_on dp_on 3 (m / 10)
    ∷ []

abbrev pub display : ℕ → List ℕ
display arg = panel (arg / 2 ^ 16 % 16) (arg / 2 ^ 24 % 16) (minutes_of arg) (seconds_of arg)

-- Both the minutes and the seconds have a first digit for which there is a pattern.
abbrev pub IsShowable : ℕ → Type 0
IsShowable arg = (minutes_of arg < 160) × (seconds_of arg < 160)

pub led_bytes_eq : (arg : ℕ) → IsShowable arg → led_bytes arg ≡ some (display arg)
unfolding led_bytes
led_bytes_eq arg h =
    rw
      (
        segment_eq arg 0 (seconds_of arg % 10) (omega arith),
        segment_eq arg 1 (seconds_of arg / 10) (omega (arith, h.1)),
        segment_eq arg 2 (minutes_of arg % 10) (omega arith),
        segment_eq arg 3 (minutes_of arg / 10) (omega (arith, h.0)),
      )
      refl

abbrev pub after_leds : List ℕ → Driver → Driver
after_leds bytes d = record (put bytes d) { led_regular_buffer = bytes; ack_flag = 1 }

switch_set_led :
    (copy_to_user : ℕ → ℕ → ℕ) (arg : ℕ) (d : Driver)
    → IsShowable arg
    → switch_cmd copy_to_user (tux_set_led arg) d ≡ some (after_leds (display arg) d, success)
unfolding switch_cmd
switch_set_led copy_to_user arg d h = rw (led_bytes_eq arg h, switch_cmd) refl

pub no_error : (d : Driver) → d.error_flag ≡ 0 → after_error d ≡ d
unfolding after_error
no_error d e = elim (Bool-cases (d.error_flag == 0)) [
  | inl t ↦ rw t refl
  | inr f ↦ absurd (ground (arith, e, f))
]

-- In a well-formed driver, while no error packet has come and where there is room for six bytes,
-- the ioctl for the LEDs, at minutes and seconds below 160, succeeds and remembers the six bytes of
-- the display, whose digits are decimal. They join the bytes that wait; of all these the serial
-- driver's write is given the first, one more than its write_room said if there are so many, and
-- the others wait.
pub set_led_lem :
    (copy_to_user : ℕ → ℕ → ℕ) (arg : ℕ) (d : Driver)
    → IsDriver d
    → d.error_flag ≡ 0
    → IsShowable arg
    → 6 ≤ buf_room d.tx
    → (tuxctl_ioctl copy_to_user (tux_set_led arg) d ≡ some (after_leds (display arg) d, success))
      × HandsOver (contents d.tx ++ display arg) d (after_leds (display arg) d)
unfolding tuxctl_ioctl
set_led_lem copy_to_user arg d v clear h room =
    let t = put_fits (display arg) d v.tx room in
    (
      ap (switch_cmd copy_to_user (tux_set_led arg)) (no_error d clear)
          ∙ switch_set_led copy_to_user arg d h,
      record { valid = t.valid; handed = t.handed; waiting = t.waiting; calls = t.calls },
    )

-- An argument that an ioctl of this kind may have.
abbrev pub IsAccepted : Ioctl → Type 0
IsAccepted (tux_set_led arg) = IsShowable arg
IsAccepted _ = Unit {0}

-- A result that is there, and a driver that is well formed.
pub record Served (result : Option (Driver × Status)) : Type 0 where
  pub after : Driver
  pub status : Status
  pub runs : result ≡ some (after, status)
  pub valid : IsDriver after

error-IsDriver : (d : Driver) → IsDriver d → IsDriver (after_error d)
unfolding after_error
error-IsDriver d v = elim (Bool-cases (d.error_flag == 0)) [
  | inl t ↦ rw t v
  | inr f ↦
      let d0 = record d { regular_buffer = mtcp_bioc_on } in
      let d1 = put (mtcp_bioc_on ∷ []) d0 in
      rw f (
        IsDriver-same d1 (record d1 { reset_flag = 0; ack_flag = 0 }) refl refl refl refl
          (put-IsDriver (mtcp_bioc_on ∷ []) d0 (IsDriver-same d d0 refl refl refl refl v)))
]

switch-Served :
    (copy_to_user : ℕ → ℕ → ℕ) (cmd : Ioctl) (d : Driver)
    → IsDriver d
    → IsAccepted cmd
    → Served (switch_cmd copy_to_user cmd d)
unfolding switch_cmd
switch-Served copy_to_user tux_init d v h =
    let d4 =
      put (mtcp_clk_up ∷ [])
        (put (mtcp_clk_reset ∷ []) (put (mtcp_led_usr ∷ []) (put (mtcp_bioc_on ∷ []) d))) in
    let u = put-IsDriver (mtcp_clk_up ∷ []) _ (
      put-IsDriver (mtcp_clk_reset ∷ []) _
        (put-IsDriver (mtcp_led_usr ∷ []) _ (put-IsDriver (mtcp_bioc_on ∷ []) d v))) in
    record {
      after = record d4 { ack_flag = 1 };
      status = _;
      runs = refl;
      valid = IsDriver-same d4 _ refl refl refl refl u;
    }
switch-Served copy_to_user (tux_buttons arg) d v h = record {
  after = _;
  status = _;
  runs = refl;
  valid = IsDriver-same d _ refl refl refl refl v;
}
switch-Served copy_to_user (tux_set_led arg) d v h =
    let u = put-IsDriver (display arg) d v in
    record {
      after = after_leds (display arg) d;
      status = success;
      runs = switch_set_led copy_to_user arg d h;
      valid = record { rx = u.rx; tx = u.tx; leds = refl; saved = u.saved };
    }
switch-Served copy_to_user unknown d v h = record { after = d; status = _; runs = refl; valid = v }

-- In a well-formed driver, also after an error packet, every ioctl, at a number that can be shown
-- if it is the one for the LEDs, ends and leaves the driver well formed.
pub ioctl-Served :
    (copy_to_user : ℕ → ℕ → ℕ) (cmd : Ioctl) (d : Driver)
    → IsDriver d
    → IsAccepted cmd
    → Served (tuxctl_ioctl copy_to_user cmd d)
unfolding tuxctl_ioctl
ioctl-Served copy_to_user cmd d v h =
    switch-Served copy_to_user cmd (after_error d) (error-IsDriver d v) h
