-- ===== src/Utils/Codec/Archivos.antt =====
-- utils/codec: the messages to the file system.
-- Each packs its fields in order; a text is its bytes with the final zero.
use tp_sisop_1c.Prelude.{some, ◌++◌, ◌<◌, ◌≡◌, ℕ, List, length}
use tp_sisop_1c.Utils.Codec.Variables.{uint32_lem, texto_lem, DireccionValida}
use mathlib.Core.List.{append_assoc}
use tp_sisop_1c.Utils.Codec.{
  ◌>>=◌, Paquete, agregar_dir_fisica_a_paquete, agregar_texto, DireccionFisica, Leido,
  agregar_var_a_paquete, crear_paquete, deserializar_direccion_fisica, deserializar_uint32,
  ejecutar_io_fs_create, ejecutar_io_fs_delete, ejecutar_io_fs_read, ejecutar_io_fs_truncate,
  ejecutar_io_fs_write, bytes, deserializar_texto,
}

-- t_ejecutar_io_fs_create
pub record EjecutarIoFsCreate : Type 0 where
  pub pid : ℕ
  pub nombre_archivo : List ℕ

unfoldable pub serializar_ejecutar_io_fs_create : EjecutarIoFsCreate → Paquete
serializar_ejecutar_io_fs_create m =
    let p = crear_paquete ejecutar_io_fs_create in
    let p = agregar_var_a_paquete p (bytes 4 m.pid) in agregar_texto p m.nombre_archivo

unfoldable pub deserializar_ejecutar_io_fs_create : List ℕ → Leido EjecutarIoFsCreate
deserializar_ejecutar_io_fs_create stream = do
  (pid, s) ← deserializar_uint32 stream
  (nombre_archivo, s) ← deserializar_texto s
  some (record { pid = pid; nombre_archivo = nombre_archivo }, s)

-- The values fit in their fields.
pub record EjecutarIoFsCreateValido (m : EjecutarIoFsCreate) : Type 0 where
  pub pid : m.pid < 0x1_0000_0000
  pub nombre_archivo : length m.nombre_archivo < 0x1_0000_0000

-- A message of serializar_ejecutar_io_fs_create whose values fit reads back as it was, whatever follows it.
pub deserializar_ejecutar_io_fs_create-serializar_ejecutar_io_fs_create :
    (m : EjecutarIoFsCreate) (resto : List ℕ)
    → EjecutarIoFsCreateValido m
    → deserializar_ejecutar_io_fs_create ((serializar_ejecutar_io_fs_create m).stream ++ resto)
      ≡ some (m, resto)
unfolding agregar_texto agregar_var_a_paquete crear_paquete deserializar_ejecutar_io_fs_create
    serializar_ejecutar_io_fs_create
deserializar_ejecutar_io_fs_create-serializar_ejecutar_io_fs_create m resto v =
    simp (append_assoc, uint32_lem m.pid v.pid, texto_lem m.nombre_archivo v.nombre_archivo)

-- t_ejecutar_io_fs_delete
pub record EjecutarIoFsDelete : Type 0 where
  pub pid : ℕ
  pub nombre_archivo : List ℕ

unfoldable pub serializar_ejecutar_io_fs_delete : EjecutarIoFsDelete → Paquete
serializar_ejecutar_io_fs_delete m =
    let p = crear_paquete ejecutar_io_fs_delete in
    let p = agregar_var_a_paquete p (bytes 4 m.pid) in agregar_texto p m.nombre_archivo

unfoldable pub deserializar_ejecutar_io_fs_delete : List ℕ → Leido EjecutarIoFsDelete
deserializar_ejecutar_io_fs_delete stream = do
  (pid, s) ← deserializar_uint32 stream
  (nombre_archivo, s) ← deserializar_texto s
  some (record { pid = pid; nombre_archivo = nombre_archivo }, s)

-- The values fit in their fields.
pub record EjecutarIoFsDeleteValido (m : EjecutarIoFsDelete) : Type 0 where
  pub pid : m.pid < 0x1_0000_0000
  pub nombre_archivo : length m.nombre_archivo < 0x1_0000_0000

-- A message of serializar_ejecutar_io_fs_delete whose values fit reads back as it was, whatever follows it.
pub deserializar_ejecutar_io_fs_delete-serializar_ejecutar_io_fs_delete :
    (m : EjecutarIoFsDelete) (resto : List ℕ)
    → EjecutarIoFsDeleteValido m
    → deserializar_ejecutar_io_fs_delete ((serializar_ejecutar_io_fs_delete m).stream ++ resto)
      ≡ some (m, resto)
unfolding agregar_texto agregar_var_a_paquete crear_paquete deserializar_ejecutar_io_fs_delete
    serializar_ejecutar_io_fs_delete
deserializar_ejecutar_io_fs_delete-serializar_ejecutar_io_fs_delete m resto v =
    simp (append_assoc, uint32_lem m.pid v.pid, texto_lem m.nombre_archivo v.nombre_archivo)

-- t_ejecutar_io_fs_truncate
pub record EjecutarIoFsTruncate : Type 0 where
  pub pid : ℕ
  pub nombre_archivo : List ℕ
  pub tamanio_a_truncar : ℕ

unfoldable pub serializar_ejecutar_io_fs_truncate : EjecutarIoFsTruncate → Paquete
serializar_ejecutar_io_fs_truncate m =
    let p = crear_paquete ejecutar_io_fs_truncate in
    let p = agregar_var_a_paquete p (bytes 4 m.pid) in
    let p = agregar_texto p m.nombre_archivo in
    agregar_var_a_paquete p (bytes 4 m.tamanio_a_truncar)

unfoldable pub deserializar_ejecutar_io_fs_truncate : List ℕ → Leido EjecutarIoFsTruncate
deserializar_ejecutar_io_fs_truncate stream = do
  (pid, s) ← deserializar_uint32 stream
  (nombre_archivo, s) ← deserializar_texto s
  (tamanio_a_truncar, s) ← deserializar_uint32 s
  some (
    record { pid = pid; nombre_archivo = nombre_archivo; tamanio_a_truncar = tamanio_a_truncar },
    s,
  )

-- The values fit in their fields.
pub record EjecutarIoFsTruncateValido (m : EjecutarIoFsTruncate) : Type 0 where
  pub pid : m.pid < 0x1_0000_0000
  pub nombre_archivo : length m.nombre_archivo < 0x1_0000_0000
  pub tamanio_a_truncar : m.tamanio_a_truncar < 0x1_0000_0000

-- A message of serializar_ejecutar_io_fs_truncate whose values fit reads back as it was, whatever follows it.
pub deserializar_ejecutar_io_fs_truncate-serializar_ejecutar_io_fs_truncate :
    (m : EjecutarIoFsTruncate) (resto : List ℕ)
    → EjecutarIoFsTruncateValido m
    → deserializar_ejecutar_io_fs_truncate ((serializar_ejecutar_io_fs_truncate m).stream ++ resto)
      ≡ some (m, resto)
unfolding agregar_texto agregar_var_a_paquete crear_paquete deserializar_ejecutar_io_fs_truncate
    serializar_ejecutar_io_fs_truncate
deserializar_ejecutar_io_fs_truncate-serializar_ejecutar_io_fs_truncate m resto v = simp (
  append_assoc,
  uint32_lem m.pid v.pid,
  texto_lem m.nombre_archivo v.nombre_archivo,
  uint32_lem m.tamanio_a_truncar v.tamanio_a_truncar,
)

-- t_ejecutar_io_fs_read
pub record EjecutarIoFsRead : Type 0 where
  pub pid : ℕ
  pub nombre_archivo : List ℕ
  pub tamanio : ℕ
  pub posicion_archivo : ℕ
  pub dir_fisica : DireccionFisica

unfoldable pub serializar_ejecutar_io_fs_read : EjecutarIoFsRead → Paquete
serializar_ejecutar_io_fs_read m =
    let p = crear_paquete ejecutar_io_fs_read in
    let p = agregar_var_a_paquete p (bytes 4 m.pid) in
    let p = agregar_texto p m.nombre_archivo in
    let p = agregar_var_a_paquete p (bytes 4 m.tamanio) in
    let p = agregar_var_a_paquete p (bytes 4 m.posicion_archivo) in
    agregar_dir_fisica_a_paquete p m.dir_fisica

unfoldable pub deserializar_ejecutar_io_fs_read : List ℕ → Leido EjecutarIoFsRead
deserializar_ejecutar_io_fs_read stream = do
  (pid, s) ← deserializar_uint32 stream
  (nombre_archivo, s) ← deserializar_texto s
  (tamanio, s) ← deserializar_uint32 s
  (posicion_archivo, s) ← deserializar_uint32 s
  (dir_fisica, s) ← deserializar_direccion_fisica s
  some (
    record {
      pid = pid;
      nombre_archivo = nombre_archivo;
      tamanio = tamanio;
      posicion_archivo = posicion_archivo;
      dir_fisica = dir_fisica;
    },
    s,
  )

-- The values fit in their fields.
pub record EjecutarIoFsReadValido (m : EjecutarIoFsRead) : Type 0 where
  pub pid : m.pid < 0x1_0000_0000
  pub nombre_archivo : length m.nombre_archivo < 0x1_0000_0000
  pub tamanio : m.tamanio < 0x1_0000_0000
  pub posicion_archivo : m.posicion_archivo < 0x1_0000_0000
  pub dir_fisica : DireccionValida m.dir_fisica

-- A message of serializar_ejecutar_io_fs_read whose values fit reads back as it was, whatever follows it.
pub deserializar_ejecutar_io_fs_read-serializar_ejecutar_io_fs_read :
    (m : EjecutarIoFsRead) (resto : List ℕ)
    → EjecutarIoFsReadValido m
    → deserializar_ejecutar_io_fs_read ((serializar_ejecutar_io_fs_read m).stream ++ resto)
      ≡ some (m, resto)
unfolding agregar_dir_fisica_a_paquete agregar_texto agregar_var_a_paquete crear_paquete
    deserializar_direccion_fisica deserializar_ejecutar_io_fs_read serializar_ejecutar_io_fs_read
deserializar_ejecutar_io_fs_read-serializar_ejecutar_io_fs_read m resto v = simp (
  append_assoc,
  uint32_lem m.pid v.pid,
  texto_lem m.nombre_archivo v.nombre_archivo,
  uint32_lem m.tamanio v.tamanio,
  uint32_lem m.posicion_archivo v.posicion_archivo,
  uint32_lem m.dir_fisica.pid v.dir_fisica.pid,
  uint32_lem m.dir_fisica.marco v.dir_fisica.marco,
  uint32_lem m.dir_fisica.desplazamiento_fisico v.dir_fisica.desplazamiento_fisico,
)

-- t_ejecutar_io_fs_write
pub record EjecutarIoFsWrite : Type 0 where
  pub pid : ℕ
  pub nombre_archivo : List ℕ
  pub tamanio : ℕ
  pub posicion_archivo : ℕ
  pub dir_fisica : DireccionFisica

unfoldable pub serializar_ejecutar_io_fs_write : EjecutarIoFsWrite → Paquete
serializar_ejecutar_io_fs_write m =
    let p = crear_paquete ejecutar_io_fs_write in
    let p = agregar_var_a_paquete p (bytes 4 m.pid) in
    let p = agregar_texto p m.nombre_archivo in
    let p = agregar_var_a_paquete p (bytes 4 m.tamanio) in
    let p = agregar_var_a_paquete p (bytes 4 m.posicion_archivo) in
    agregar_dir_fisica_a_paquete p m.dir_fisica

unfoldable pub deserializar_ejecutar_io_fs_write : List ℕ → Leido EjecutarIoFsWrite
deserializar_ejecutar_io_fs_write stream = do
  (pid, s) ← deserializar_uint32 stream
  (nombre_archivo, s) ← deserializar_texto s
  (tamanio, s) ← deserializar_uint32 s
  (posicion_archivo, s) ← deserializar_uint32 s
  (dir_fisica, s) ← deserializar_direccion_fisica s
  some (
    record {
      pid = pid;
      nombre_archivo = nombre_archivo;
      tamanio = tamanio;
      posicion_archivo = posicion_archivo;
      dir_fisica = dir_fisica;
    },
    s,
  )

-- The values fit in their fields.
pub record EjecutarIoFsWriteValido (m : EjecutarIoFsWrite) : Type 0 where
  pub pid : m.pid < 0x1_0000_0000
  pub nombre_archivo : length m.nombre_archivo < 0x1_0000_0000
  pub tamanio : m.tamanio < 0x1_0000_0000
  pub posicion_archivo : m.posicion_archivo < 0x1_0000_0000
  pub dir_fisica : DireccionValida m.dir_fisica

-- The message to write a file whose values fit in their fields reads back as it was, whatever
-- follows it in the stream.
pub deserializar_ejecutar_io_fs_write-serializar_ejecutar_io_fs_write :
    (m : EjecutarIoFsWrite) (resto : List ℕ)
    → EjecutarIoFsWriteValido m
    → deserializar_ejecutar_io_fs_write ((serializar_ejecutar_io_fs_write m).stream ++ resto)
      ≡ some (m, resto)
unfolding agregar_dir_fisica_a_paquete agregar_texto agregar_var_a_paquete crear_paquete
    deserializar_direccion_fisica deserializar_ejecutar_io_fs_write serializar_ejecutar_io_fs_write
deserializar_ejecutar_io_fs_write-serializar_ejecutar_io_fs_write m resto v = simp (
  append_assoc,
  uint32_lem m.pid v.pid,
  texto_lem m.nombre_archivo v.nombre_archivo,
  uint32_lem m.tamanio v.tamanio,
  uint32_lem m.posicion_archivo v.posicion_archivo,
  uint32_lem m.dir_fisica.pid v.dir_fisica.pid,
  uint32_lem m.dir_fisica.marco v.dir_fisica.marco,
  uint32_lem m.dir_fisica.desplazamiento_fisico v.dir_fisica.desplazamiento_fisico,
)
