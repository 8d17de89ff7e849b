-- ===== src/Utils/Codec/PeticionEntrada.antt =====
-- utils/codec: the request of a process to read the standard input, whose two ends do not agree.
use tp_sisop_1c.Prelude.{
  false, some, ◌%◌, ◌/◌, ap, ◌*◌, ◌+◌, ◌<◌, ◌≡◌, ◌∷◌, ◌++◌, List, length, ℕ, ◌==◌, arith, ap, refl,
}
use mathlib.Core.List.{append_assoc}
use tp_sisop_1c.Utils.Codec.{
  ◌>>=◌, Leido, Paquete, agregar_var_a_paquete, agregar_texto, Registro, bytes_de_dato,
  serializar_t_registro, agregar_dir_fisica_a_paquete, bytes, deserializar_bytes,
  deserializar_uint8, deserializar_uint32, deserializar_texto, deserializar_direccion_fisica,
  deserializar_t_registro, DireccionFisica, instruccion_io_stdin_read,
}
use tp_sisop_1c.Utils.Codec.Variables.{uint32_lem, texto_lem, DireccionValida}
use tp_sisop_1c.Utils.Codec.Contexto.{
  ContextoMensaje, contexto_sin_recurso, serializar_contexto_ejecucion,
  deserializar_contexto_ejecucion, ContextoMensajeValido,
  deserializar_contexto_ejecucion-serializar_contexto_ejecucion,
}

-- t_peticion_io_stdin_read
pub record PeticionIoStdinRead : Type 0 where
  pub cde : ContextoMensaje
  pub interfaz : List ℕ
  pub dir_fisica : DireccionFisica
  pub tamanio : Registro

-- The rest of t_io_stdin_read, which has the name of the interface again.
unfoldable pub serializar_t_stdin_read : Paquete → PeticionIoStdinRead → Paquete
serializar_t_stdin_read paq m =
    let p = agregar_dir_fisica_a_paquete paq m.dir_fisica in
    let p = agregar_texto p m.interfaz in serializar_t_registro p m.tamanio

-- The context travels with NULL for its resource.
unfoldable pub serializar_peticion_io_stdin_read : PeticionIoStdinRead → Paquete
serializar_peticion_io_stdin_read m =
    let p = record (serializar_contexto_ejecucion (contexto_sin_recurso m.cde)) {
      codigo_operacion = instruccion_io_stdin_read;
    } in
    let p = agregar_texto p m.interfaz in serializar_t_stdin_read p m

unfoldable pub deserializar_obtener_paquete_peticion_io_stdin_read :
    List ℕ → Leido PeticionIoStdinRead
deserializar_obtener_paquete_peticion_io_stdin_read stream = do
  (cde, s) ← deserializar_contexto_ejecucion stream
  (interfaz, s) ← deserializar_texto s
  (dir_fisica, s) ← deserializar_direccion_fisica s
  (tamanio, s) ← deserializar_t_registro s
  some (record { cde = cde; interfaz = interfaz; dir_fisica = dir_fisica; tamanio = tamanio }, s)

-- The values fit in their fields.
pub record PeticionIoStdinReadValido (m : PeticionIoStdinRead) : Type 0 where
  pub cde : ContextoMensajeValido (contexto_sin_recurso m.cde)
  pub interfaz : length m.interfaz < 0x1_0000_0000
  pub dir_fisica : DireccionValida m.dir_fisica

-- A length of one byte and a character, read as a register.
longitud_como_registro :
    (n c : ℕ) (resto : List ℕ)
    → 1 < n
    → n < 256
    → deserializar_t_registro (bytes 4 n ++ c ∷ resto)
      ≡ some (record { tipo = n; dato = 0x100_0000 * c }, resto)
unfolding deserializar_t_registro deserializar_uint8 deserializar_uint32 deserializar_bytes bytes
longitud_como_registro n c resto h k =
    let un_byte : n % 256 ≡ n = omega (arith, k) in
    let ceros : n / 256 ≡ 0 = omega (arith, k) in
    let otro : ((n + 0) == 1) ≡ false = ground arith in
    let tipo : n + 0 ≡ n = omega arith in
    let dato : 0 + 256 * (0 + 256 * (0 + 256 * (c + 0))) ≡ 0x100_0000 * c = omega arith in
    rw (un_byte, ceros, otro, tipo, dato) refl

-- The kernel reads the size in a request for the standard input from the name of the interface
-- that is packed a second time: its kind is the length of the name and its value 2 ^ 24 times the
-- first character, if the values fit and the name takes more than 1 and less than 256 bytes.
pub deserializar_obtener_paquete_peticion_io_stdin_read-nombre :
    (m : PeticionIoStdinRead) (c : ℕ) (nombre resto : List ℕ)
    → PeticionIoStdinReadValido m
    → m.interfaz ≡ c ∷ nombre
    → 1 < length m.interfaz
    → length m.interfaz < 256
    → (s : List ℕ) × (deserializar_obtener_paquete_peticion_io_stdin_read
          ((serializar_peticion_io_stdin_read m).stream ++ resto)
        ≡ some (
          record m {
            cde = contexto_sin_recurso m.cde;
            tamanio = record { tipo = length m.interfaz; dato = 0x100_0000 * c };
          },
          s,
        ))
unfolding deserializar_obtener_paquete_peticion_io_stdin_read serializar_peticion_io_stdin_read
    serializar_t_stdin_read agregar_texto agregar_var_a_paquete agregar_dir_fisica_a_paquete
    deserializar_direccion_fisica serializar_t_registro
deserializar_obtener_paquete_peticion_io_stdin_read-nombre m c nombre resto v h largo corto =
    let bs =
      bytes 1 m.tamanio.tipo ++ (bytes (bytes_de_dato m.tamanio.tipo) m.tamanio.dato ++ resto) in
    (
      nombre ++ bs,
      simp (
        append_assoc,
        deserializar_contexto_ejecucion-serializar_contexto_ejecucion (contexto_sin_recurso m.cde) _
            v.cde,
        texto_lem m.interfaz v.interfaz,
        uint32_lem m.dir_fisica.pid v.dir_fisica.pid,
        uint32_lem m.dir_fisica.marco v.dir_fisica.marco,
        uint32_lem m.dir_fisica.desplazamiento_fisico v.dir_fisica.desplazamiento_fisico,
        ap (λ xs. xs ++ bs) h,
        longitud_como_registro (length m.interfaz) c (nombre ++ bs) largo corto,
      ),
    )
