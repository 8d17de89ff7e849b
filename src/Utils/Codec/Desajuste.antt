-- ===== src/Utils/Codec/Desajuste.antt =====
-- utils/codec: the message of a busy interface for standard output, whose two ends do not agree.
use tp_sisop_1c.Prelude.{
  refl, false, some, none, ◌%◌, ◌*◌, ◌+◌, ◌<◌, ◌≡◌, ◌≢◌, List, length, ℕ, ◌==◌, arith,
}
use mathlib.Core.List.{append_assoc}
use tp_sisop_1c.Utils.Codec.{
  ◌>>=◌, Leido, Paquete, crear_paquete, agregar_var_a_paquete, agregar_texto,
  agregar_dir_fisica_a_paquete, bytes, deserializar_bytes, deserializar_uint8, deserializar_uint32,
  deserializar_texto, deserializar_direccion_fisica, deserializar_t_registro, DireccionFisica,
  io_ocupada_write,
}
use tp_sisop_1c.Utils.Codec.Interfaces.{IoOcupadaRead}
use tp_sisop_1c.Utils.Codec.Variables.{uint32_lem, texto_lem, DireccionValida}

pub record IoOcupadaWrite : Type 0 where
  pub nombre_interfaz : List ℕ
  pub pid : ℕ
  pub direccion_fisica : DireccionFisica
  pub tamanio : ℕ

-- The size is packed as an `uint32_t`.
unfoldable pub serializar_interfaz_ocupada_write : IoOcupadaWrite → Paquete
serializar_interfaz_ocupada_write m =
    let p = crear_paquete io_ocupada_write in
    let p = agregar_texto p m.nombre_interfaz in
    let p = agregar_var_a_paquete p (bytes 4 m.pid) in
    let p = agregar_dir_fisica_a_paquete p m.direccion_fisica in
    agregar_var_a_paquete p (bytes 4 m.tamanio)

-- The size is read as a register, as that of a busy interface for standard input is.
unfoldable pub deserializar_io_ocupada_write : List ℕ → Leido IoOcupadaRead
deserializar_io_ocupada_write stream = do
  (nombre_interfaz, s) ← deserializar_texto stream
  (pid, s) ← deserializar_uint32 s
  (direccion_fisica, s) ← deserializar_direccion_fisica s
  (reg, s) ← deserializar_t_registro s
  some (
    record {
      nombre_interfaz = nombre_interfaz;
      pid = pid;
      direccion_fisica = direccion_fisica;
      reg = reg;
    },
    s,
  )

registro_corto :
    (tamanio : ℕ) → tamanio % 256 ≢ 1 → deserializar_t_registro (bytes 4 tamanio) ≡ none
unfolding deserializar_t_registro deserializar_uint8 deserializar_uint32 deserializar_bytes bytes
registro_corto tamanio h =
    let otro : ((tamanio % 256 + 256 * 0) == 1) ≡ false = ground arith in rw otro refl

-- The values fit in their fields.
pub record IoOcupadaWriteValido (m : IoOcupadaWrite) : Type 0 where
  pub nombre_interfaz : length m.nombre_interfaz < 0x1_0000_0000
  pub pid : m.pid < 0x1_0000_0000
  pub direccion_fisica : DireccionValida m.direccion_fisica

-- The reading of the message of a busy interface for standard output goes on behind its end unless
-- the low byte of the size is 1, if the other values fit in their fields.
pub deserializar_io_ocupada_write-corto :
    (m : IoOcupadaWrite)
    → IoOcupadaWriteValido m
    → m.tamanio % 256 ≢ 1
    → deserializar_io_ocupada_write (serializar_interfaz_ocupada_write m).stream ≡ none
unfolding deserializar_io_ocupada_write serializar_interfaz_ocupada_write agregar_texto
    agregar_var_a_paquete agregar_dir_fisica_a_paquete crear_paquete deserializar_direccion_fisica
deserializar_io_ocupada_write-corto m v h = simp (
  append_assoc,
  texto_lem m.nombre_interfaz v.nombre_interfaz,
  uint32_lem m.pid v.pid,
  uint32_lem m.direccion_fisica.pid v.direccion_fisica.pid,
  uint32_lem m.direccion_fisica.marco v.direccion_fisica.marco,
  uint32_lem m.direccion_fisica.desplazamiento_fisico v.direccion_fisica.desplazamiento_fisico,
  registro_corto m.tamanio h,
)
