-- ===== src/Cpu/Registros/Salto.antt =====
-- `saltar_si_no_es_cero`: the jump on a register of 8 bits.
use tp_sisop_1c.Prelude.{refl, false, ◌+◌, ◌<◌, ◌≡◌, ◌==◌, arith}
use tp_sisop_1c.Cpu.Registros.{Registros, leer_32_bits, saltar_si_no_es_cero, a_unsigned, ax, ℤ}

abbrev pub salta : Registros → ℤ → Registros
salta r i = record r { pc = a_unsigned 0x1_0000_0000 i }

-- The jump on AX is taken when AX is zero but BX, CX or DX is not.
pub saltar_si_no_es_cero-ax :
    (r : Registros) (i : ℤ)
    → r.ax ≡ 0
    → 0 < r.bx + r.cx + r.dx
    → saltar_si_no_es_cero r ax i ≡ salta r i
unfolding saltar_si_no_es_cero leer_32_bits
saltar_si_no_es_cero-ax r i h l =
    let otro : (leer_32_bits r ax == 0) ≡ false = ground arith in
    rw (otro, saltar_si_no_es_cero) refl
