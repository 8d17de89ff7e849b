-- ===== src/Utils/Codec/Ocupadas.antt =====
-- utils/codec: the messages that hand an operation of the file system back to the kernel when its interface is busy.
-- Each packs its fields in order; a text is its bytes with the final zero.
use tp_sisop_1c.Prelude.{some, ◌++◌, ◌<◌, ◌≡◌, List, length, ℕ}
use tp_sisop_1c.Utils.Codec.Variables.{uint32_lem, texto_lem, DireccionValida}
use mathlib.Core.List.{append_assoc}
use tp_sisop_1c.Utils.Codec.{
  ◌>>=◌, Paquete, agregar_dir_fisica_a_paquete, agregar_texto, agregar_var_a_paquete, crear_paquete,
  DireccionFisica, Leido, deserializar_direccion_fisica, io_ocupada_fs_create, io_ocupada_fs_delete,
  io_ocupada_fs_read, io_ocupada_fs_truncate, io_ocupada_fs_write, bytes, deserializar_texto,
  deserializar_uint32,
}

-- t_interfaz_mje, the fields that this message sets to a value of its own
pub record IoOcupadaFsCreate : Type 0 where
  pub nombre_interfaz : List ℕ
  pub pid : ℕ
  pub nombre_archivo : List ℕ

unfoldable pub serializar_interfaz_ocupada_fs_create : IoOcupadaFsCreate → Paquete
serializar_interfaz_ocupada_fs_create m =
    let p = crear_paquete io_ocupada_fs_create in
    let p = agregar_texto p m.nombre_interfaz in
    let p = agregar_var_a_paquete p (bytes 4 m.pid) in agregar_texto p m.nombre_archivo

unfoldable pub deserializar_io_ocupada_fs_create : List ℕ → Leido IoOcupadaFsCreate
deserializar_io_ocupada_fs_create stream = do
  (nombre_interfaz, s) ← deserializar_texto stream
  (pid, s) ← deserializar_uint32 s
  (nombre_archivo, s) ← deserializar_texto s
  some (record { nombre_interfaz = nombre_interfaz; pid = pid; nombre_archivo = nombre_archivo }, s)

-- The values fit in their fields.
pub record IoOcupadaFsCreateValido (m : IoOcupadaFsCreate) : Type 0 where
  pub nombre_interfaz : length m.nombre_interfaz < 0x1_0000_0000
  pub pid : m.pid < 0x1_0000_0000
  pub nombre_archivo : length m.nombre_archivo < 0x1_0000_0000

-- A message of serializar_interfaz_ocupada_fs_create whose values fit reads back as it was, whatever follows it.
pub deserializar_io_ocupada_fs_create-serializar_interfaz_ocupada_fs_create :
    (m : IoOcupadaFsCreate) (resto : List ℕ)
    → IoOcupadaFsCreateValido m
    → deserializar_io_ocupada_fs_create ((serializar_interfaz_ocupada_fs_create m).stream ++ resto)
      ≡ some (m, resto)
unfolding agregar_texto agregar_var_a_paquete crear_paquete deserializar_io_ocupada_fs_create
    serializar_interfaz_ocupada_fs_create
deserializar_io_ocupada_fs_create-serializar_interfaz_ocupada_fs_create m resto v = simp (
  append_assoc,
  texto_lem m.nombre_interfaz v.nombre_interfaz,
  uint32_lem m.pid v.pid,
  texto_lem m.nombre_archivo v.nombre_archivo,
)

-- t_interfaz_mje, the fields that this message sets to a value of its own
pub record IoOcupadaFsDelete : Type 0 where
  pub nombre_interfaz : List ℕ
  pub pid : ℕ
  pub nombre_archivo : List ℕ

unfoldable pub serializar_interfaz_ocupada_fs_delete : IoOcupadaFsDelete → Paquete
serializar_interfaz_ocupada_fs_delete m =
    let p = crear_paquete io_ocupada_fs_delete in
    let p = agregar_texto p m.nombre_interfaz in
    let p = agregar_var_a_paquete p (bytes 4 m.pid) in agregar_texto p m.nombre_archivo

unfoldable pub deserializar_io_ocupada_fs_delete : List ℕ → Leido IoOcupadaFsDelete
deserializar_io_ocupada_fs_delete stream = do
  (nombre_interfaz, s) ← deserializar_texto stream
  (pid, s) ← deserializar_uint32 s
  (nombre_archivo, s) ← deserializar_texto s
  some (record { nombre_interfaz = nombre_interfaz; pid = pid; nombre_archivo = nombre_archivo }, s)

-- The values fit in their fields.
pub record IoOcupadaFsDeleteValido (m : IoOcupadaFsDelete) : Type 0 where
  pub nombre_interfaz : length m.nombre_interfaz < 0x1_0000_0000
  pub pid : m.pid < 0x1_0000_0000
  pub nombre_archivo : length m.nombre_archivo < 0x1_0000_0000

-- A message of serializar_interfaz_ocupada_fs_delete whose values fit reads back as it was, whatever follows it.
pub deserializar_io_ocupada_fs_delete-serializar_interfaz_ocupada_fs_delete :
    (m : IoOcupadaFsDelete) (resto : List ℕ)
    → IoOcupadaFsDeleteValido m
    → deserializar_io_ocupada_fs_delete ((serializar_interfaz_ocupada_fs_delete m).stream ++ resto)
      ≡ some (m, resto)
unfolding agregar_texto agregar_var_a_paquete crear_paquete deserializar_io_ocupada_fs_delete
    serializar_interfaz_ocupada_fs_delete
deserializar_io_ocupada_fs_delete-serializar_interfaz_ocupada_fs_delete m resto v = simp (
  append_assoc,
  texto_lem m.nombre_interfaz v.nombre_interfaz,
  uint32_lem m.pid v.pid,
  texto_lem m.nombre_archivo v.nombre_archivo,
)

-- t_interfaz_mje, the fields that this message sets to a value of its own
pub record IoOcupadaFsTruncate : Type 0 where
  pub nombre_interfaz : List ℕ
  pub pid : ℕ
  pub nombre_archivo : List ℕ
  pub tamanio_truncar : ℕ

unfoldable pub serializar_interfaz_ocupada_fs_truncate : IoOcupadaFsTruncate → Paquete
serializar_interfaz_ocupada_fs_truncate m =
    let p = crear_paquete io_ocupada_fs_truncate in
    let p = agregar_texto p m.nombre_interfaz in
    let p = agregar_var_a_paquete p (bytes 4 m.pid) in
    let p = agregar_texto p m.nombre_archivo in agregar_var_a_paquete p (bytes 4 m.tamanio_truncar)

unfoldable pub deserializar_io_ocupada_fs_truncate : List ℕ → Leido IoOcupadaFsTruncate
deserializar_io_ocupada_fs_truncate stream = do
  (nombre_interfaz, s) ← deserializar_texto stream
  (pid, s) ← deserializar_uint32 s
  (nombre_archivo, s) ← deserializar_texto s
  (tamanio_truncar, s) ← deserializar_uint32 s
  some (
    record {
      nombre_interfaz = nombre_interfaz;
      pid = pid;
      nombre_archivo = nombre_archivo;
      tamanio_truncar = tamanio_truncar;
    },
    s,
  )

-- The values fit in their fields.
pub record IoOcupadaFsTruncateValido (m : IoOcupadaFsTruncate) : Type 0 where
  pub nombre_interfaz : length m.nombre_interfaz < 0x1_0000_0000
  pub pid : m.pid < 0x1_0000_0000
  pub nombre_archivo : length m.nombre_archivo < 0x1_0000_0000
  pub tamanio_truncar : m.tamanio_truncar < 0x1_0000_0000

-- A message of serializar_interfaz_ocupada_fs_truncate whose values fit reads back as it was, whatever follows it.
pub deserializar_io_ocupada_fs_truncate-serializar_interfaz_ocupada_fs_truncate :
    (m : IoOcupadaFsTruncate) (resto : List ℕ)
    → IoOcupadaFsTruncateValido m
    → deserializar_io_ocupada_fs_truncate
        ((serializar_interfaz_ocupada_fs_truncate m).stream ++ resto)
      ≡ some (m, resto)
unfolding agregar_texto agregar_var_a_paquete crear_paquete deserializar_io_ocupada_fs_truncate
    serializar_interfaz_ocupada_fs_truncate
deserializar_io_ocupada_fs_truncate-serializar_interfaz_ocupada_fs_truncate m resto v = simp (
  append_assoc,
  texto_lem m.nombre_interfaz v.nombre_interfaz,
  uint32_lem m.pid v.pid,
  texto_lem m.nombre_archivo v.nombre_archivo,
  uint32_lem m.tamanio_truncar v.tamanio_truncar,
)

-- t_interfaz_mje, the fields that this message sets to a value of its own
pub record IoOcupadaFsWrite : Type 0 where
  pub nombre_interfaz : List ℕ
  pub pid : ℕ
  pub nombre_archivo : List ℕ
  pub tamanio : ℕ
  pub posicion_archivo : ℕ
  pub direccion_fisica : DireccionFisica

unfoldable pub serializar_interfaz_ocupada_fs_write : IoOcupadaFsWrite → Paquete
serializar_interfaz_ocupada_fs_write m =
    let p = crear_paquete io_ocupada_fs_write in
    let p = agregar_texto p m.nombre_interfaz in
    let p = agregar_var_a_paquete p (bytes 4 m.pid) in
    let p = agregar_texto p m.nombre_archivo in
    let p = agregar_var_a_paquete p (bytes 4 m.tamanio) in
    let p = agregar_var_a_paquete p (bytes 4 m.posicion_archivo) in
    agregar_dir_fisica_a_paquete p m.direccion_fisica

unfoldable pub deserializar_io_ocupada_fs_write : List ℕ → Leido IoOcupadaFsWrite
deserializar_io_ocupada_fs_write stream = do
  (nombre_interfaz, s) ← deserializar_texto stream
  (pid, s) ← deserializar_uint32 s
  (nombre_archivo, s) ← deserializar_texto s
  (tamanio, s) ← deserializar_uint32 s
  (posicion_archivo, s) ← deserializar_uint32 s
  (direccion_fisica, s) ← deserializar_direccion_fisica s
  some (
    record {
      nombre_interfaz = nombre_interfaz;
      pid = pid;
      nombre_archivo = nombre_archivo;
      tamanio = tamanio;
      posicion_archivo = posicion_archivo;
      direccion_fisica = direccion_fisica;
    },
    s,
  )

-- The values fit in their fields.
pub record IoOcupadaFsWriteValido (m : IoOcupadaFsWrite) : Type 0 where
  pub nombre_interfaz : length m.nombre_interfaz < 0x1_0000_0000
  pub pid : m.pid < 0x1_0000_0000
  pub nombre_archivo : length m.nombre_archivo < 0x1_0000_0000
  pub tamanio : m.tamanio < 0x1_0000_0000
  pub posicion_archivo : m.posicion_archivo < 0x1_0000_0000
  pub direccion_fisica : DireccionValida m.direccion_fisica

-- The message that hands a write of a file back whose values fit in their fields reads back as it
-- was, whatever follows it in the stream.
pub deserializar_io_ocupada_fs_write-serializar_interfaz_ocupada_fs_write :
    (m : IoOcupadaFsWrite) (resto : List ℕ)
    → IoOcupadaFsWriteValido m
    → deserializar_io_ocupada_fs_write ((serializar_interfaz_ocupada_fs_write m).stream ++ resto)
      ≡ some (m, resto)
unfolding agregar_dir_fisica_a_paquete agregar_texto agregar_var_a_paquete crear_paquete
    deserializar_direccion_fisica deserializar_io_ocupada_fs_write
    serializar_interfaz_ocupada_fs_write
deserializar_io_ocupada_fs_write-serializar_interfaz_ocupada_fs_write m resto v = simp (
  append_assoc,
  texto_lem m.nombre_interfaz v.nombre_interfaz,
  uint32_lem m.pid v.pid,
  texto_lem m.nombre_archivo v.nombre_archivo,
  uint32_lem m.tamanio v.tamanio,
  uint32_lem m.posicion_archivo v.posicion_archivo,
  uint32_lem m.direccion_fisica.pid v.direccion_fisica.pid,
  uint32_lem m.direccion_fisica.marco v.direccion_fisica.marco,
  uint32_lem m.direccion_fisica.desplazamiento_fisico v.direccion_fisica.desplazamiento_fisico,
)

-- t_interfaz_mje, the fields that this message sets to a value of its own
pub record IoOcupadaFsRead : Type 0 where
  pub nombre_interfaz : List ℕ
  pub pid : ℕ
  pub nombre_archivo : List ℕ
  pub tamanio : ℕ
  pub posicion_archivo : ℕ
  pub direccion_fisica : DireccionFisica

unfoldable pub serializar_interfaz_ocupada_fs_read : IoOcupadaFsRead → Paquete
serializar_interfaz_ocupada_fs_read m =
    let p = crear_paquete io_ocupada_fs_read in
    let p = agregar_texto p m.nombre_interfaz in
    let p = agregar_var_a_paquete p (bytes 4 m.pid) in
    let p = agregar_texto p m.nombre_archivo in
    let p = agregar_var_a_paquete p (bytes 4 m.tamanio) in
    let p = agregar_var_a_paquete p (bytes 4 m.posicion_archivo) in
    agregar_dir_fisica_a_paquete p m.direccion_fisica

unfoldable pub deserializar_io_ocupada_fs_read : List ℕ → Leido IoOcupadaFsRead
deserializar_io_ocupada_fs_read stream = do
  (nombre_interfaz, s) ← deserializar_texto stream
  (pid, s) ← deserializar_uint32 s
  (nombre_archivo, s) ← deserializar_texto s
  (tamanio, s) ← deserializar_uint32 s
  (posicion_archivo, s) ← deserializar_uint32 s
  (direccion_fisica, s) ← deserializar_direccion_fisica s
  some (
    record {
      nombre_interfaz = nombre_interfaz;
      pid = pid;
      nombre_archivo = nombre_archivo;
      tamanio = tamanio;
      posicion_archivo = posicion_archivo;
      direccion_fisica = direccion_fisica;
    },
    s,
  )

-- The values fit in their fields.
pub record IoOcupadaFsReadValido (m : IoOcupadaFsRead) : Type 0 where
  pub nombre_interfaz : length m.nombre_interfaz < 0x1_0000_0000
  pub pid : m.pid < 0x1_0000_0000
  pub nombre_archivo : length m.nombre_archivo < 0x1_0000_0000
  pub tamanio : m.tamanio < 0x1_0000_0000
  pub posicion_archivo : m.posicion_archivo < 0x1_0000_0000
  pub direccion_fisica : DireccionValida m.direccion_fisica

-- A message of serializar_interfaz_ocupada_fs_read whose values fit reads back as it was, whatever follows it.
pub deserializar_io_ocupada_fs_read-serializar_interfaz_ocupada_fs_read :
    (m : IoOcupadaFsRead) (resto : List ℕ)
    → IoOcupadaFsReadValido m
    → deserializar_io_ocupada_fs_read ((serializar_interfaz_ocupada_fs_read m).stream ++ resto)
      ≡ some (m, resto)
unfolding agregar_dir_fisica_a_paquete agregar_texto agregar_var_a_paquete crear_paquete
    deserializar_direccion_fisica deserializar_io_ocupada_fs_read
    serializar_interfaz_ocupada_fs_read
deserializar_io_ocupada_fs_read-serializar_interfaz_ocupada_fs_read m resto v = simp (
  append_assoc,
  texto_lem m.nombre_interfaz v.nombre_interfaz,
  uint32_lem m.pid v.pid,
  texto_lem m.nombre_archivo v.nombre_archivo,
  uint32_lem m.tamanio v.tamanio,
  uint32_lem m.posicion_archivo v.posicion_archivo,
  uint32_lem m.direccion_fisica.pid v.direccion_fisica.pid,
  uint32_lem m.direccion_fisica.marco v.direccion_fisica.marco,
  uint32_lem m.direccion_fisica.desplazamiento_fisico v.direccion_fisica.desplazamiento_fisico,
)
