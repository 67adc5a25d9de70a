-- ===== src/Tux/Ring.antt =====
-- The circular buffers of mp2/module/tuxctl-ld.c, `rx_buf` and `tx_buf` with their two indices, and
-- the loops that fill and empty them.
pub mod Queue
use computer_systems_enginee.Base.{
  ℕ, zero, suc, ◌+◌, ◌-◌, ◌%◌, Bool, ◌==◌, leb, if◌then◌else◌, List, [], ◌∷◌, get_or, set, length,
}

abbrev pub tuxctl_bufsize : ℕ
tuxctl_bufsize = 64

pub record Ring : Type 0 where
  pub buf : List ℕ
  pub start : ℕ
  pub finish : ℕ

unfoldable pub buf_used : Ring → ℕ
buf_used r =
    if leb r.start r.finish then r.finish - r.start else tuxctl_bufsize + r.finish - r.start

unfoldable pub buf_room : Ring → ℕ
buf_room r = tuxctl_bufsize - buf_used r - 1

unfoldable pub buf_empty : Ring → Bool
buf_empty r = r.start == r.finish

unfoldable pub buf_full : Ring → Bool
buf_full r = (suc r.finish % tuxctl_bufsize) == r.start

unfoldable pub buf_incidx : ℕ → ℕ
buf_incidx idx = suc idx % tuxctl_bufsize

-- `buf[end] = byte; buf_incidx (end);`
unfoldable pub store : ℕ → Ring → Ring
store byte r = record r { buf = set r.buf r.finish byte; finish = buf_incidx r.finish }

-- The loops of `tuxctl_ldisc_put` and `tuxctl_ldisc_rcv_buf`: as many bytes as there is room for. The
-- result also has the number of bytes left over.
unfoldable pub put_bytes : List ℕ → Ring → Ring × ℕ
put_bytes [] r = (r, 0)
put_bytes (byte ∷ bytes) r =
    let rest = put_bytes bytes (store byte r) in
    if buf_full r then (r, length (byte ∷ bytes)) else rest

-- The loops of `tuxctl_ldisc_get` and `tuxctl_ldisc_write_wakeup`: at most `n` bytes.
unfoldable pub get_bytes : ℕ → Ring → List ℕ × Ring
get_bytes zero r = ([], r)
get_bytes (suc n) r =
    let rest = get_bytes n (record r { start = buf_incidx r.start }) in
    if buf_empty r then ([], r) else (get_or r.buf r.start 0 ∷ rest.0, rest.1)
