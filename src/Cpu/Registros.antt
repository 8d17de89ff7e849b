-- ===== src/Cpu/Registros.antt =====
-- t_registros, and the operations on it of utils/instruccion/instruccion.c and cpu/registros.
-- `uint8_t` registers wrap at 2 ^ 8 and `uint32_t` ones at 2 ^ 32.
pub mod Aritmetica
pub mod Salto
use tp_sisop_1c.Prelude.{zero, suc, true, false, ◌%◌, ◌*◌, ◌+◌, ◌-◌, Bool, if◌then◌else◌, ℕ, ◌==◌}
use tp_sisop_1c.Prelude.Int.{ℤ, pos, negsuc}

pub record Registros : Type 0 where
  pub pc : ℕ
  pub ax : ℕ
  pub bx : ℕ
  pub cx : ℕ
  pub dx : ℕ
  pub eax : ℕ
  pub ebx : ℕ
  pub ecx : ℕ
  pub edx : ℕ
  pub si : ℕ
  pub di : ℕ

-- The names that `obtener_registro` knows. For any other text it answers NULL.
pub data Nombre : Type 0 where
  ax bx cx dx eax ebx ecx edx si di pc : Nombre

unfoldable pub iniciar_registros : Registros
iniciar_registros = record {
  pc = 0;
  ax = 0;
  bx = 0;
  cx = 0;
  dx = 0;
  eax = 0;
  ebx = 0;
  ecx = 0;
  edx = 0;
  si = 0;
  di = 0;
}

unfoldable pub asignar_registros : Registros → Registros → Registros
asignar_registros registros news = record registros {
  ax = news.ax;
  bx = news.bx;
  cx = news.cx;
  dx = news.dx;
  eax = news.eax;
  ebx = news.ebx;
  ecx = news.ecx;
  edx = news.edx;
  si = news.si;
  di = news.di;
  pc = news.pc;
}

-- What the pointer of `obtener_registro` points to, read and written at its own size.
unfoldable pub obtener_registro : Registros → Nombre → ℕ
obtener_registro r ax = r.ax
obtener_registro r bx = r.bx
obtener_registro r cx = r.cx
obtener_registro r dx = r.dx
obtener_registro r eax = r.eax
obtener_registro r ebx = r.ebx
obtener_registro r ecx = r.ecx
obtener_registro r edx = r.edx
obtener_registro r si = r.si
obtener_registro r di = r.di
obtener_registro r pc = r.pc

unfoldable pub escribir_registro : Registros → Nombre → ℕ → Registros
escribir_registro r ax v = record r { ax = v }
escribir_registro r bx v = record r { bx = v }
escribir_registro r cx v = record r { cx = v }
escribir_registro r dx v = record r { dx = v }
escribir_registro r eax v = record r { eax = v }
escribir_registro r ebx v = record r { ebx = v }
escribir_registro r ecx v = record r { ecx = v }
escribir_registro r edx v = record r { edx = v }
escribir_registro r si v = record r { si = v }
escribir_registro r di v = record r { di = v }
escribir_registro r pc v = record r { pc = v }

-- The test on the four names that the operations make first.
unfoldable pub es_de_8_bits : Nombre → Bool
es_de_8_bits ax = true
es_de_8_bits bx = true
es_de_8_bits cx = true
es_de_8_bits dx = true
es_de_8_bits _ = false

-- The number of values of a register.
unfoldable pub modulo : Nombre → ℕ
modulo n = if es_de_8_bits n then 256 else 0x1_0000_0000

-- An `int` stored in an unsigned register of `m` values.
unfoldable pub a_unsigned : ℕ → ℤ → ℕ
a_unsigned m (pos n) = n % m
a_unsigned m (negsuc n) = m - suc (n % m)

-- `valor` is what `atoi` answers for the text.
unfoldable pub setear_registro : Registros → Nombre → ℤ → Registros
setear_registro r destino valor = escribir_registro r destino (a_unsigned (modulo destino) valor)

-- `while (valor > 0) { a_sumar++; valor--; }` in a counter of `m` values.
unfoldable pub contar_hasta : ℕ → ℕ → ℕ → ℕ
contar_hasta m zero a_sumar = a_sumar
contar_hasta m (suc valor) a_sumar = contar_hasta m valor ((a_sumar + 1) % m)

-- The origin as it is added: a register of the size of the destination at once, and one of the other
-- size by the counting loop.
unfoldable pub a_sumar : Registros → Nombre → Nombre → ℕ
a_sumar r destino origen =
    let valor = obtener_registro r origen in
    let contado = contar_hasta (modulo destino) valor 0 in
    if es_de_8_bits destino
    then (if es_de_8_bits origen then valor else contado)
    else (if es_de_8_bits origen then contado else valor)

unfoldable pub sumar_registro : Registros → Nombre → Nombre → Registros
sumar_registro r destino origen =
    escribir_registro r destino
      ((obtener_registro r destino + a_sumar r destino origen) % modulo destino)

-- The difference wraps: the sum with the rest of `modulo` is the same value.
unfoldable pub restar_registro : Registros → Nombre → Nombre → Registros
restar_registro r destino origen =
    escribir_registro r destino
      ((obtener_registro r destino + modulo destino - a_sumar r destino origen) % modulo destino)

-- The four bytes from the register on, in the order of the record: the code reads an `uint32_t` at
-- the address of a register of one byte. `dx` is the last byte before `eax`.
unfoldable pub leer_32_bits : Registros → Nombre → ℕ
leer_32_bits r ax = r.ax + 256 * (r.bx + 256 * (r.cx + 256 * r.dx))
leer_32_bits r bx = r.bx + 256 * (r.cx + 256 * (r.dx + 256 * (r.eax % 256)))
leer_32_bits r cx = r.cx + 256 * (r.dx + 256 * (r.eax % 0x1_0000))
leer_32_bits r dx = r.dx + 256 * (r.eax % 0x100_0000)
leer_32_bits r n = obtener_registro r n

-- `instruccion` is what `atoi` answers for the text.
unfoldable pub saltar_si_no_es_cero : Registros → Nombre → ℤ → Registros
saltar_si_no_es_cero r registro instruccion =
    if leer_32_bits r registro == 0
    then r
    else record r { pc = a_unsigned 0x1_0000_0000 instruccion }
