-- ===== src/Input/Timer.antt =====
-- The clock that the thread `display_time_on_tux` of mp2/input.c shows on the controller, and what the
-- driver makes of its argument.
use computer_systems_enginee.Base.{
  ℕ, ◌+◌, ◌*◌, ◌/◌, ◌%◌, ◌<◌, ◌≡◌, refl, ap, ◌∙◌, arith, ◌^◌, ltb, Bool, true, false, if◌then◌else◌,
  some, List, [], ◌∷◌, get_or,
}
use computer_systems_enginee.Tux.Driver.{led_bytes, nums, with_point}
use computer_systems_enginee.Tux.Driver.Display.{
  led_bytes_eq, display, panel, minutes_of, seconds_of,
}

abbrev pub time_limit : ℕ
time_limit = 60

abbrev pub max_min_tux : ℕ
max_min_tux = 99

abbrev pub max_sec_tux : ℕ
max_sec_tux = 59

abbrev pub minutes_at : ℕ → ℕ
minutes_at counter =
    let minutes = counter / time_limit in if ltb max_min_tux minutes then 0 else minutes

abbrev pub seconds_at : ℕ → ℕ
seconds_at counter =
    let seconds = counter % time_limit in if ltb max_sec_tux seconds then 0 else seconds

-- The argument of the ioctl. The bits that are joined are apart from each other, so that they are
-- added; `& 0xFFF7FFFF` takes away the leftmost LED.
unfoldable pub buf_time : ℕ → ℕ
buf_time counter =
    let leds = if ltb (minutes_at counter) 10 then 0xF4F70000 else 0xF4FF0000 in
    leds + 256 * (minutes_at counter % 256) + seconds_at counter % 256

-- The digits of the time, over the whole life of the thread: seconds, a point before them at the
-- minutes, and no tens of minutes below ten.
abbrev pub clock_face : ℕ → List ℕ
clock_face counter =
    let m = minutes_at counter in
    let s = seconds_at counter in
    0xC6
    ∷ 0xF
    ∷ get_or nums (s % 10) 0
    ∷ get_or nums (s / 10) 0
    ∷ with_point (get_or nums (m % 10) 0)
    ∷ (if ltb m 10 then 0 else get_or nums (m / 10) 0)
    ∷ []

minutes_lt : (counter : ℕ) → minutes_at counter < 100
minutes_lt counter = ground arith

seconds_lt : (counter : ℕ) → seconds_at counter < 60
seconds_lt counter = ground arith

-- The argument with its four parts.
abbrev joined : Bool → ℕ → ℕ → ℕ
joined b m s = (if b then 0xF4F70000 else 0xF4FF0000) + 256 * (m % 256) + s % 256

panel_eq :
    (arg l p m s : ℕ)
    → arg / 2 ^ 16 % 16 ≡ l
    → arg / 2 ^ 24 % 16 ≡ p
    → minutes_of arg ≡ m
    → seconds_of arg ≡ s
    → display arg ≡ panel l p m s
panel_eq arg l p m s el ep em es =
    ap (λ x. panel x (arg / 2 ^ 24 % 16) (minutes_of arg) (seconds_of arg)) el
    ∙ ap (λ x. panel l x (minutes_of arg) (seconds_of arg)) ep
    ∙ ap (λ x. panel l p x (seconds_of arg)) em
    ∙ ap (panel l p m) es

joined_lem :
    (b : Bool) (m s : ℕ)
    → m < 100
    → s < 60
    → led_bytes (joined b m s) ≡ some (panel (if b then 7 else 15) 4 m s)
joined_lem true m s hm hs =
    led_bytes_eq (joined true m s) (omega arith, omega arith)
    ∙ ap some
        (panel_eq (joined true m s) 7 4 m s (omega arith) (omega arith) (omega arith) (omega arith))
joined_lem false m s hm hs =
    led_bytes_eq (joined false m s) (omega arith, omega arith)
    ∙ ap some (
        panel_eq (joined false m s) 15 4 m s (omega arith) (omega arith) (omega arith)
          (omega arith))

panel_face :
    (b : Bool) (m s : ℕ)
    → panel (if b then 7 else 15) 4 m s
      ≡ 0xC6
        ∷ 0xF
        ∷ get_or nums (s % 10) 0
        ∷ get_or nums (s / 10) 0
        ∷ with_point (get_or nums (m % 10) 0)
        ∷ (if b then 0 else get_or nums (m / 10) 0)
        ∷ []
panel_face true m s = refl
panel_face false m s = refl

-- At every count of seconds, the bytes that the driver makes of the timer thread's argument are
-- those of the clock's face: the decimal digits of the seconds, those of the minutes with a point
-- after the first, and no tens of minutes below ten; past 99 minutes, the minutes shown are zero.
pub led_bytes-buf_time : (counter : ℕ) → led_bytes (buf_time counter) ≡ some (clock_face counter)
unfolding buf_time
led_bytes-buf_time counter =
    let m = minutes_at counter in
    let s = seconds_at counter in
    joined_lem (ltb m 10) m s (minutes_lt counter) (seconds_lt counter)
    ∙ ap some (panel_face (ltb m 10) m s)
