-- ===== src/Modex/Vga.antt =====
-- The writes of mp2/modex.c to the ports of the VGA and to its memory.
use computer_systems_enginee.Base.{
  ℕ, ◌+◌, ◌-◌, ◌*◌, ◌/◌, ◌%◌, ◌^◌, Bool, true, false, ◌&&◌, leb, ltb, ◌==◌, if◌then◌else◌, List, [],
  ◌∷◌,
}
use computer_systems_enginee.World.State.{update}
use computer_systems_enginee.Modex.{Attributes, VgaState}

-- `outw`: the low byte selects a register, and the high byte is its value.
abbrev pub outw : ℕ → (ℕ → ℕ) → ℕ → ℕ
outw val regs = update regs (val % 256) (val / 256)

-- `REP_OUTSW`
unfoldable pub rep_outsw : List ℕ → (ℕ → ℕ) → ℕ → ℕ
rep_outsw [] regs = regs
rep_outsw (val ∷ source) regs = rep_outsw source (outw val regs)

-- `outb` to port 0x3C0.
abbrev pub outb_attr : ℕ → Attributes → Attributes
outb_attr val a =
    if a.data_next
    then record { regs = update a.regs (a.index % 32) val; index = a.index; data_next = false }
    else record { regs = a.regs; index = val; data_next = true }

-- `inb` from port 0x3DA: an index is written next.
abbrev pub inb_status : Attributes → Attributes
inb_status a = record a { data_next = false }

-- `REP_OUTSB` to port 0x3C0.
unfoldable pub rep_outsb : List ℕ → Attributes → Attributes
rep_outsb [] a = a
rep_outsb (val ∷ source) a = rep_outsb source (outb_attr val a)

-- The sequencer's register 2 enables the writes to each plane.
abbrev pub enabled : VgaState → ℕ → Bool
enabled v plane = v.seq 2 / 2 ^ plane % 2 == 1

-- `SET_WRITE_MASK`: its `movb` puts the register's number into the low byte.
abbrev pub set_write_mask : ℕ → VgaState → VgaState
set_write_mask mask v = record v { seq = outw (mask / 256 * 256 + 2) v.seq }

-- `rep movsb`, from an array to the offset `scr_addr` of every enabled plane.
abbrev pub rep_movsb : ℕ → (ℕ → ℕ) → ℕ → ℕ → VgaState → VgaState
rep_movsb ecx memory img scr_addr v = record v {
  planes = λ plane a.
      if enabled v plane && (leb scr_addr a && ltb a (scr_addr + ecx))
      then memory (img + (a - scr_addr))
      else v.planes plane a;
}

abbrev pub copy_image : (ℕ → ℕ) → ℕ → ℕ → VgaState → VgaState
copy_image = rep_movsb 16000

abbrev pub copy_image2 : (ℕ → ℕ) → ℕ → ℕ → VgaState → VgaState
copy_image2 = rep_movsb 1440

abbrev pub mode_x_mem_size : ℕ
mode_x_mem_size = 65536

-- `clear_screens`
unfoldable pub clear_screens : VgaState → VgaState
clear_screens v = cleared (set_write_mask 0x0F00 v)
  where
    cleared : VgaState → VgaState
    cleared v = record v {
      planes = λ plane a. if enabled v plane && ltb a mode_x_mem_size then 0 else v.planes plane a;
    }

-- `VGA_blank`: bit 5 of the sequencer's register 1, and the display connected.
unfoldable pub vga_blank : ℕ → VgaState → VgaState
vga_blank blank_bit v = record v {
  seq = update v.seq 1 (v.seq 1 - v.seq 1 / 32 % 2 * 32 + blank_bit % 2 * 32);
  attr = outb_attr 0x20 (inb_status v.attr);
}

-- `set_seq_regs_and_reset`
unfoldable pub set_seq_regs_and_reset : List ℕ → ℕ → VgaState → VgaState
unfolding rep_outsw
set_seq_regs_and_reset table val v = record v {
  seq = outw 0x0300 (rep_outsw table v.seq);
  misc = val;
}

-- `set_CRTC_registers`
unfoldable pub set_crtc_registers : List ℕ → VgaState → VgaState
unfolding rep_outsw
set_crtc_registers table v = record v { crtc = rep_outsw table (outw 0x0011 v.crtc) }

-- `set_attr_registers`
unfoldable pub set_attr_registers : List ℕ → VgaState → VgaState
unfolding rep_outsb
set_attr_registers table v = record v { attr = rep_outsb table (inb_status v.attr) }

-- `set_graphics_registers`
unfoldable pub set_graphics_registers : List ℕ → VgaState → VgaState
unfolding rep_outsw
set_graphics_registers table v = record v { graphics = rep_outsw table v.graphics }

-- `palette_print`. The colours of the VGA have six bits each.
unfoldable pub palette_print : ℕ → ℕ → ℕ → ℕ → VgaState → VgaState
palette_print i red green blue v =
    if ltb 255 i
    then v
    else record v { dac = update v.dac i (record { red = red; green = green; blue = blue }) }
