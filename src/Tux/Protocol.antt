-- ===== src/Tux/Protocol.antt =====
-- The op-codes of mp2/module/mtcp.h. A byte is a number below 256; its bits are read by `/` and `%`.
use computer_systems_enginee.Base.{ℕ, ◌+◌, ◌*◌, ◌/◌, ◌%◌}

-- `(n & 7) | ((n & 0x18) << 1) | 0x40`
abbrev pub mtcp_resp : ℕ → ℕ
mtcp_resp n = n % 8 + 2 * (8 * (n / 8 % 4)) + 0x40

abbrev pub mtcp_ack : ℕ
mtcp_ack = mtcp_resp 0x0

abbrev pub mtcp_bioc_event : ℕ
mtcp_bioc_event = mtcp_resp 0x1

abbrev pub mtcp_reset : ℕ
mtcp_reset = mtcp_resp 0x6

abbrev pub mtcp_leds_poll0 : ℕ
mtcp_leds_poll0 = mtcp_resp 0x8

abbrev pub leds_poll01 : ℕ
leds_poll01 = mtcp_resp 0x9

abbrev pub leds_poll02 : ℕ
leds_poll02 = mtcp_resp 0xa

abbrev pub leds_poll012 : ℕ
leds_poll012 = mtcp_resp 0xb

abbrev pub mtcp_leds_poll1 : ℕ
mtcp_leds_poll1 = mtcp_resp 0xc

abbrev pub leds_poll11 : ℕ
leds_poll11 = mtcp_resp 0xd

abbrev pub leds_poll12 : ℕ
leds_poll12 = mtcp_resp 0xe

abbrev pub leds_poll112 : ℕ
leds_poll112 = mtcp_resp 0xf

abbrev pub mtcp_error : ℕ
mtcp_error = mtcp_resp 0x1f

-- `0xC0 | c`, for a command below 32.
abbrev pub mtcp_cmd : ℕ → ℕ
mtcp_cmd c = 0xc0 + c

abbrev pub mtcp_bioc_on : ℕ
mtcp_bioc_on = mtcp_cmd 0x3

abbrev pub mtcp_led_set : ℕ
mtcp_led_set = mtcp_cmd 0x6

abbrev pub mtcp_led_usr : ℕ
mtcp_led_usr = mtcp_cmd 0x8

abbrev pub mtcp_clk_reset : ℕ
mtcp_clk_reset = mtcp_cmd 0x9

abbrev pub mtcp_clk_up : ℕ
mtcp_clk_up = mtcp_cmd 0xe
