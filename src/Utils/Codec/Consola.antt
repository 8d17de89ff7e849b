-- ===== src/Utils/Codec/Consola.antt =====
-- utils/codec: the messages to the interfaces for standard input and output.
-- Each packs its fields in order; a text is its bytes with the final zero.
use tp_sisop_1c.Prelude.{some, ◌++◌, ◌<◌, ◌≡◌, ℕ, List, length}
use tp_sisop_1c.Utils.Codec.Variables.{
  uint32_lem, texto_lem, registro_lem, DireccionValida, RegistroValido,
}
use mathlib.Core.List.{append_assoc}
use tp_sisop_1c.Utils.Codec.{
  ◌>>=◌, Paquete, agregar_dir_fisica_a_paquete, DireccionFisica, Leido, agregar_texto,
  agregar_var_a_paquete, crear_paquete, Registro, deserializar_direccion_fisica,
  deserializar_uint32, ejecutar_io_stdin_read, ejecutar_io_stdout_write, bytes,
  deserializar_t_registro, serializar_t_registro, deserializar_texto,
}

-- t_ejecutar_io_stdin_read
pub record EjecutarIoStdinRead : Type 0 where
  pub pid : ℕ
  pub dir_fisica : DireccionFisica
  pub tamanio : Registro

unfoldable pub serializar_ejecutar_io_stdin_read : EjecutarIoStdinRead → Paquete
serializar_ejecutar_io_stdin_read m =
    let p = crear_paquete ejecutar_io_stdin_read in
    let p = agregar_var_a_paquete p (bytes 4 m.pid) in
    let p = agregar_dir_fisica_a_paquete p m.dir_fisica in serializar_t_registro p m.tamanio

unfoldable pub deserializar_ejecutar_stdin_read : List ℕ → Leido EjecutarIoStdinRead
deserializar_ejecutar_stdin_read stream = do
  (pid, s) ← deserializar_uint32 stream
  (dir_fisica, s) ← deserializar_direccion_fisica s
  (tamanio, s) ← deserializar_t_registro s
  some (record { pid = pid; dir_fisica = dir_fisica; tamanio = tamanio }, s)

-- The values fit in their fields.
pub record EjecutarIoStdinReadValido (m : EjecutarIoStdinRead) : Type 0 where
  pub pid : m.pid < 0x1_0000_0000
  pub dir_fisica : DireccionValida m.dir_fisica
  pub tamanio : RegistroValido m.tamanio

-- A message of serializar_ejecutar_io_stdin_read whose values fit reads back as it was, whatever follows it.
pub deserializar_ejecutar_stdin_read-serializar_ejecutar_io_stdin_read :
    (m : EjecutarIoStdinRead) (resto : List ℕ)
    → EjecutarIoStdinReadValido m
    → deserializar_ejecutar_stdin_read ((serializar_ejecutar_io_stdin_read m).stream ++ resto)
      ≡ some (m, resto)
unfolding agregar_dir_fisica_a_paquete agregar_var_a_paquete crear_paquete
    deserializar_direccion_fisica deserializar_ejecutar_stdin_read serializar_ejecutar_io_stdin_read
    serializar_t_registro
deserializar_ejecutar_stdin_read-serializar_ejecutar_io_stdin_read m resto v = simp (
  append_assoc,
  uint32_lem m.pid v.pid,
  uint32_lem m.dir_fisica.pid v.dir_fisica.pid,
  uint32_lem m.dir_fisica.marco v.dir_fisica.marco,
  uint32_lem m.dir_fisica.desplazamiento_fisico v.dir_fisica.desplazamiento_fisico,
  registro_lem m.tamanio v.tamanio,
)

-- t_ejecutar_io_stdout_write
pub record EjecutarIoStdoutWrite : Type 0 where
  pub pid : ℕ
  pub dir_fisica : DireccionFisica
  pub tamanio : ℕ

unfoldable pub serializar_ejecutar_io_stdout_write : EjecutarIoStdoutWrite → Paquete
serializar_ejecutar_io_stdout_write m =
    let p = crear_paquete ejecutar_io_stdout_write in
    let p = agregar_var_a_paquete p (bytes 4 m.pid) in
    let p = agregar_dir_fisica_a_paquete p m.dir_fisica in
    agregar_var_a_paquete p (bytes 4 m.tamanio)

unfoldable pub deserializar_ejecutar_stdout_write : List ℕ → Leido EjecutarIoStdoutWrite
deserializar_ejecutar_stdout_write stream = do
  (pid, s) ← deserializar_uint32 stream
  (dir_fisica, s) ← deserializar_direccion_fisica s
  (tamanio, s) ← deserializar_uint32 s
  some (record { pid = pid; dir_fisica = dir_fisica; tamanio = tamanio }, s)

-- The values fit in their fields.
pub record EjecutarIoStdoutWriteValido (m : EjecutarIoStdoutWrite) : Type 0 where
  pub pid : m.pid < 0x1_0000_0000
  pub dir_fisica : DireccionValida m.dir_fisica
  pub tamanio : m.tamanio < 0x1_0000_0000

-- A message of serializar_ejecutar_io_stdout_write whose values fit reads back as it was, whatever follows it.
pub deserializar_ejecutar_stdout_write-serializar_ejecutar_io_stdout_write :
    (m : EjecutarIoStdoutWrite) (resto : List ℕ)
    → EjecutarIoStdoutWriteValido m
    → deserializar_ejecutar_stdout_write ((serializar_ejecutar_io_stdout_write m).stream ++ resto)
      ≡ some (m, resto)
unfolding agregar_dir_fisica_a_paquete agregar_var_a_paquete crear_paquete
    deserializar_direccion_fisica deserializar_ejecutar_stdout_write
    serializar_ejecutar_io_stdout_write
deserializar_ejecutar_stdout_write-serializar_ejecutar_io_stdout_write m resto v = simp (
  append_assoc,
  uint32_lem m.pid v.pid,
  uint32_lem m.dir_fisica.pid v.dir_fisica.pid,
  uint32_lem m.dir_fisica.marco v.dir_fisica.marco,
  uint32_lem m.dir_fisica.desplazamiento_fisico v.dir_fisica.desplazamiento_fisico,
  uint32_lem m.tamanio v.tamanio,
)

-- t_ejecutar_io_stdin
pub record EjecutarIoStdin : Type 0 where
  pub pid : ℕ
  pub dir_fisica : DireccionFisica
  pub tamanio : Registro
  pub a_escribir : List ℕ

unfoldable pub serializar_io_stdin : EjecutarIoStdin → Paquete
serializar_io_stdin m =
    let p = crear_paquete ejecutar_io_stdin_read in
    let p = agregar_var_a_paquete p (bytes 4 m.pid) in
    let p = agregar_dir_fisica_a_paquete p m.dir_fisica in
    let p = serializar_t_registro p m.tamanio in agregar_texto p m.a_escribir

unfoldable pub deserializar_io_stdin : List ℕ → Leido EjecutarIoStdin
deserializar_io_stdin stream = do
  (pid, s) ← deserializar_uint32 stream
  (dir_fisica, s) ← deserializar_direccion_fisica s
  (tamanio, s) ← deserializar_t_registro s
  (a_escribir, s) ← deserializar_texto s
  some
      (record { pid = pid; dir_fisica = dir_fisica; tamanio = tamanio; a_escribir = a_escribir }, s)

-- The values fit in their fields.
pub record EjecutarIoStdinValido (m : EjecutarIoStdin) : Type 0 where
  pub pid : m.pid < 0x1_0000_0000
  pub dir_fisica : DireccionValida m.dir_fisica
  pub tamanio : RegistroValido m.tamanio
  pub a_escribir : length m.a_escribir < 0x1_0000_0000

-- The message with what was typed whose values fit in their fields reads back as it was, whatever
-- follows it in the stream.
pub deserializar_io_stdin-serializar_io_stdin :
    (m : EjecutarIoStdin) (resto : List ℕ)
    → EjecutarIoStdinValido m
    → deserializar_io_stdin ((serializar_io_stdin m).stream ++ resto) ≡ some (m, resto)
unfolding agregar_dir_fisica_a_paquete agregar_texto agregar_var_a_paquete crear_paquete
    deserializar_direccion_fisica deserializar_io_stdin serializar_io_stdin serializar_t_registro
deserializar_io_stdin-serializar_io_stdin m resto v = simp (
  append_assoc,
  uint32_lem m.pid v.pid,
  uint32_lem m.dir_fisica.pid v.dir_fisica.pid,
  uint32_lem m.dir_fisica.marco v.dir_fisica.marco,
  uint32_lem m.dir_fisica.desplazamiento_fisico v.dir_fisica.desplazamiento_fisico,
  registro_lem m.tamanio v.tamanio,
  texto_lem m.a_escribir v.a_escribir,
)
