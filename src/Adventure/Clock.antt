-- ===== src/Adventure/Clock.antt =====
-- The ticks of the event loop of mp2/adventure.c.
use computer_systems_enginee.Base.{
  ℕ, zero, suc, ◌+◌, ◌-◌, ◌*◌, ◌≤◌, ◌<◌, ◌≡◌, ◌↔◌, ◌⊎◌, refl, inl, inr, arith, Bool, true, false,
  leb, ltb, ◌==◌, if◌then◌else◌, Bool-cases, Option, none, some,
}

-- `struct timeval`
pub record Timeval : Type 0 where
  pub tv_sec : ℕ
  pub tv_usec : ℕ

abbrev pub tick_usec : ℕ
tick_usec = 50000

unfoldable pub time_is_after : Timeval → Timeval → Bool
time_is_after t1 t2 =
    if t1.tv_sec == t2.tv_sec then leb t2.tv_usec t1.tv_usec else ltb t2.tv_sec t1.tv_sec

-- `if ((tick_time.tv_usec += TICK_USEC) > 1000000) { … }`
unfoldable pub add_tick : Timeval → Timeval
add_tick t =
    let usec = t.tv_usec + tick_usec in
    if ltb 1000000 usec
    then record { tv_sec = suc t.tv_sec; tv_usec = usec - 1000000 }
    else record t { tv_usec = usec }

-- The loop that advances the tick, on fuel.
unfoldable pub advance_tick : ℕ → Timeval → Timeval → Option Timeval
advance_tick zero cur tick = none
advance_tick (suc fuel) cur tick =
    let next = add_tick tick in
    let rest = advance_tick fuel cur next in if time_is_after cur next then rest else some next

-- A time in microseconds.
abbrev pub micros : Timeval → ℕ
micros t = 1000000 * t.tv_sec + t.tv_usec

-- For a first time with fewer than 1000000 microseconds and a second with at most that many,
-- time_is_after tells whether the first is at or after the second.
pub time_is_after_iff :
    (cur tick : Timeval)
    → cur.tv_usec < 1000000
    → tick.tv_usec ≤ 1000000
    → (time_is_after cur tick ≡ true) ↔ (micros tick ≤ micros cur)
unfolding time_is_after
time_is_after_iff cur tick h k = ground arith

before_tick :
    (cur tick : Timeval)
    → cur.tv_usec < 1000000
    → tick.tv_usec ≤ 1000000
    → time_is_after cur tick ≡ false
    → micros cur < micros tick
unfolding time_is_after
before_tick cur tick h k f = ground (arith, f)

add_tick-micros : (t : Timeval) → t.tv_usec ≤ 1000000 → micros (add_tick t) ≡ micros t + tick_usec
unfolding add_tick
add_tick-micros t h = ground arith

add_tick_le : (t : Timeval) → t.tv_usec ≤ 1000000 → (add_tick t).tv_usec ≤ 1000000
unfolding add_tick
add_tick_le t h = ground arith

-- The tick that comes next: `ticks` ticks later, the first that the current time has not reached.
pub record NextTick (cur tick : Timeval) (result : Option Timeval) : Type 0 where
  pub next : Timeval
  pub ticks : ℕ
  pub found : result ≡ some next
  pub normal : next.tv_usec ≤ 1000000
  pub later : micros next ≡ micros tick + suc ticks * tick_usec
  pub ahead : micros cur < micros next
  pub first : (ticks ≡ 0) ⊎ (micros tick + ticks * tick_usec ≤ micros cur)

-- For times as the loop makes them, the loop that advances the tick ends where its fuel covers the
-- ticks that were missed, and gives the first later tick that the current time has not reached.
pub advance_tick_lem :
    (fuel : ℕ) (cur tick : Timeval)
    → cur.tv_usec < 1000000
    → tick.tv_usec ≤ 1000000
    → micros cur < micros tick + fuel * tick_usec
    → 0 < fuel
    → NextTick cur tick (advance_tick fuel cur tick)
unfolding advance_tick
advance_tick_lem zero cur tick h k f p = absurd (omega arith)
advance_tick_lem (suc fuel) cur tick h k f p =
    let next = add_tick tick in
    let e = add_tick-micros tick k in
    let le = add_tick_le tick k in
    let iff = time_is_after_iff cur next h le in
    elim (Bool-cases (time_is_after cur next)) [
      | inl t ↦
          let reached = iff.0 t in
          let ih =
            advance_tick_lem fuel cur next h le (omega (arith, e)) (omega (arith, e, reached)) in
          rw t (record {
            next = ih.next;
            ticks = suc ih.ticks;
            found = ih.found;
            normal = ih.normal;
            later = omega (arith, ih.later, e);
            ahead = ih.ahead;
            first = inr (earlier (micros next) ih.ticks e reached ih.first);
          })
      | inr g ↦ rw g (record {
        next = next;
        ticks = 0;
        found = refl;
        normal = le;
        later = omega (arith, e);
        ahead = before_tick cur next h le g;
        first = inl refl;
      })
    ]
  where
    earlier :
        (m n : ℕ)
        → m ≡ micros tick + tick_usec
        → m ≤ micros cur
        → (n ≡ 0) ⊎ (m + n * tick_usec ≤ micros cur)
        → micros tick + suc n * tick_usec ≤ micros cur
    earlier m n e r (inl z) = omega arith
    earlier m n e r (inr l) = omega arith
