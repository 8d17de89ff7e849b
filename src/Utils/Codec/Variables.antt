-- ===== src/Utils/Codec/Variables.antt =====
-- Round trips of the variables and small records of a package.
use tp_sisop_1c.Cpu.Registros.{
  Registros, obtener_registro, modulo, es_de_8_bits, ax, bx, cx, dx, eax, ebx, ecx, edx, si, di, pc,
}
use tp_sisop_1c.Cpu.Registros.Aritmetica.{EnRango}
use tp_sisop_1c.Utils.Codec.{OpCode, crear_paquete, deserializar_registros, serializar_registros}
use mathlib.Core.List.{append_assoc}
use tp_sisop_1c.Prelude.{
  zero, suc, refl, [], some, ◌++◌, ◌/◌, ◌<◌, ◌∷◌, ◌≡◌, List, ℕ, length, ◌^◌, ap, arith, subst, ◌==◌,
  true, false, ◌%◌, ◌*◌, ◌+◌, Bool, if◌then◌else◌,
}
use native.Mathlib.Nat.{div-add-mod, div-lt_iff_lt-mul, pow-suc}
use tp_sisop_1c.Utils.Codec.{
  agregar_var_a_paquete, bytes, deserializar_bytes, deserializar_uint32, deserializar_uint8,
  deserializar_char, Registro, deserializar_t_registro, DireccionFisica, bytes_de_dato,
  deserializar_texto,
}

pub resto_menor : (n valor : ℕ) → valor < 256 ^ suc n → valor / 256 < 256 ^ n
resto_menor n valor h =
    (div-lt_iff_lt-mul (omega arith)).1 (subst (λ k. valor < k) (pow-suc 256 n) h)

pub byte_y_resto : (valor : ℕ) → valor % 256 + 256 * (valor / 256) ≡ valor
byte_y_resto valor = omega (arith, div-add-mod valor 256)

pub deserializar_bytes_lem :
    (n valor : ℕ)
    → valor < 256 ^ n
    → (resto : List ℕ) → deserializar_bytes n (bytes n valor ++ resto) ≡ some (valor, resto)
unfolding deserializar_bytes bytes
deserializar_bytes_lem zero valor h resto = ap (λ v. some (v, resto)) (omega (arith, h))
deserializar_bytes_lem (suc n) valor h resto =
    rw (deserializar_bytes_lem n (valor / 256) (resto_menor n valor h) resto)
      (ap (λ v. some (v, resto)) (byte_y_resto valor))

-- A number below 2 ^ 32 reads back.
pub uint32_lem :
    (valor : ℕ)
    → valor < 0x1_0000_0000
    → (resto : List ℕ) → deserializar_uint32 (bytes 4 valor ++ resto) ≡ some (valor, resto)
unfolding deserializar_uint32
uint32_lem valor h resto = deserializar_bytes_lem 4 valor h resto

pub uint8_lem :
    (valor : ℕ)
    → valor < 256
    → (resto : List ℕ) → deserializar_uint8 (bytes 1 valor ++ resto) ≡ some (valor, resto)
unfolding deserializar_uint8
uint8_lem valor h resto = deserializar_bytes_lem 1 valor h resto

pub deserializar_char_lem :
    (texto resto : List ℕ) → deserializar_char (length texto) (texto ++ resto) ≡ some (texto, resto)
unfolding deserializar_char
deserializar_char_lem [] resto = refl
deserializar_char_lem (b ∷ texto) resto = rw (deserializar_char_lem texto resto) refl

-- A value of the size that `tipo` says.
pub record RegistroValido (r : Registro) : Type 0 where
  pub tipo : r.tipo < 256
  pub dato : r.dato < 256 ^ bytes_de_dato r.tipo

dato_lem :
    (b : Bool) (dato : ℕ)
    → dato < 256 ^ (if b then 1 else 4)
    → (resto : List ℕ)
    → (if b
        then deserializar_uint8 (bytes (if b then 1 else 4) dato ++ resto)
        else deserializar_uint32 (bytes (if b then 1 else 4) dato ++ resto))
      ≡ some (dato, resto)
dato_lem true dato h resto = uint8_lem dato h resto
dato_lem false dato h resto = uint32_lem dato h resto

pub registro_lem :
    (r : Registro)
    → RegistroValido r
    → (resto : List ℕ)
    → deserializar_t_registro (bytes 1 r.tipo ++ (bytes (bytes_de_dato r.tipo) r.dato ++ resto))
      ≡ some (r, resto)
unfolding deserializar_t_registro
registro_lem r v resto =
    rw
      (
        uint8_lem r.tipo v.tipo (bytes (bytes_de_dato r.tipo) r.dato ++ resto),
        dato_lem (r.tipo == 1) r.dato v.dato resto,
      )
      refl

pub texto_lem :
    (texto : List ℕ)
    → length texto < 0x1_0000_0000
    → (resto : List ℕ)
    → deserializar_texto (bytes 4 (length texto) ++ (texto ++ resto)) ≡ some (texto, resto)
unfolding deserializar_texto
texto_lem texto h resto =
    rw (uint32_lem (length texto) h (texto ++ resto)) (deserializar_char_lem texto resto)

-- The values that fit in their fields.
pub record DireccionValida (d : DireccionFisica) : Type 0 where
  pub pid : d.pid < 0x1_0000_0000
  pub marco : d.marco < 0x1_0000_0000
  pub desplazamiento_fisico : d.desplazamiento_fisico < 0x1_0000_0000

-- The registers of a context, each with a value of its size, read back as they were, whatever
-- follows them in the stream.
pub deserializar_registros-serializar_registros :
    (codigo : OpCode) (r : Registros) (resto : List ℕ)
    → EnRango r
    → deserializar_registros ((serializar_registros (crear_paquete codigo) r).stream ++ resto)
      ≡ some (r, resto)
unfolding deserializar_registros serializar_registros agregar_var_a_paquete crear_paquete
    obtener_registro modulo es_de_8_bits
deserializar_registros-serializar_registros codigo r resto v = simp (
  append_assoc,
  uint8_lem r.ax (v.valor ax),
  uint8_lem r.bx (v.valor bx),
  uint8_lem r.cx (v.valor cx),
  uint8_lem r.dx (v.valor dx),
  uint32_lem r.eax (v.valor eax),
  uint32_lem r.ebx (v.valor ebx),
  uint32_lem r.ecx (v.valor ecx),
  uint32_lem r.edx (v.valor edx),
  uint32_lem r.si (v.valor si),
  uint32_lem r.di (v.valor di),
  uint32_lem r.pc (v.valor pc),
)
