-- ===== src/Utils/Codec/PeticionesArchivos.antt =====
-- utils/codec: the requests of a process to a file system, each behind the context of
-- the process. The serializers pack the context with NULL for its resource.
use tp_sisop_1c.Prelude.{some, ◌++◌, ◌<◌, ◌≡◌, ℕ, List, length}
use mathlib.Core.List.{append_assoc}
use tp_sisop_1c.Utils.Codec.{
  ◌>>=◌, Paquete, Leido, agregar_texto, agregar_var_a_paquete, bytes, DireccionFisica,
  agregar_dir_fisica_a_paquete, deserializar_direccion_fisica, deserializar_uint32,
  deserializar_texto, instruccion_io_fs_create, instruccion_io_fs_delete,
  instruccion_io_fs_truncate, instruccion_io_fs_write, instruccion_io_fs_read,
}
use tp_sisop_1c.Utils.Codec.Variables.{uint32_lem, texto_lem, DireccionValida}
use tp_sisop_1c.Utils.Codec.Contexto.{
  ContextoMensaje, contexto_sin_recurso, serializar_contexto_ejecucion,
  deserializar_contexto_ejecucion, ContextoMensajeValido,
  deserializar_contexto_ejecucion-serializar_contexto_ejecucion,
}

-- t_peticion_io_fs_create
pub record PeticionIoFsCreate : Type 0 where
  pub cde : ContextoMensaje
  pub interfaz : List ℕ
  pub nombre_archivo : List ℕ

unfoldable pub obtener_paquete_peticion_io_fs_create : PeticionIoFsCreate → Paquete
obtener_paquete_peticion_io_fs_create m =
    let p = record (serializar_contexto_ejecucion (contexto_sin_recurso m.cde)) {
      codigo_operacion = instruccion_io_fs_create;
    } in
    let p = agregar_texto p m.interfaz in agregar_texto p m.nombre_archivo

unfoldable pub deserializar_peticion_io_fs_create : List ℕ → Leido PeticionIoFsCreate
deserializar_peticion_io_fs_create stream = do
  (cde, s) ← deserializar_contexto_ejecucion stream
  (interfaz, s) ← deserializar_texto s
  (nombre_archivo, s) ← deserializar_texto s
  some (record { cde = cde; interfaz = interfaz; nombre_archivo = nombre_archivo }, s)

-- The values fit in their fields.
pub record PeticionIoFsCreateValido (m : PeticionIoFsCreate) : Type 0 where
  pub cde : ContextoMensajeValido (contexto_sin_recurso m.cde)
  pub interfaz : length m.interfaz < 0x1_0000_0000
  pub nombre_archivo : length m.nombre_archivo < 0x1_0000_0000

pub deserializar_peticion_io_fs_create-obtener_paquete_peticion_io_fs_create :
    (m : PeticionIoFsCreate) (resto : List ℕ)
    → PeticionIoFsCreateValido m
    → deserializar_peticion_io_fs_create ((obtener_paquete_peticion_io_fs_create m).stream ++ resto)
      ≡ some (record m { cde = contexto_sin_recurso m.cde }, resto)
unfolding deserializar_peticion_io_fs_create obtener_paquete_peticion_io_fs_create agregar_texto
    agregar_var_a_paquete
deserializar_peticion_io_fs_create-obtener_paquete_peticion_io_fs_create m resto v = simp (
  append_assoc,
  deserializar_contexto_ejecucion-serializar_contexto_ejecucion (contexto_sin_recurso m.cde) _
      v.cde,
  texto_lem m.interfaz v.interfaz,
  texto_lem m.nombre_archivo v.nombre_archivo,
)

-- t_peticion_io_fs_delete
pub record PeticionIoFsDelete : Type 0 where
  pub cde : ContextoMensaje
  pub interfaz : List ℕ
  pub nombre_archivo : List ℕ

unfoldable pub obtener_paquete_peticion_io_fs_delete : PeticionIoFsDelete → Paquete
obtener_paquete_peticion_io_fs_delete m =
    let p = record (serializar_contexto_ejecucion (contexto_sin_recurso m.cde)) {
      codigo_operacion = instruccion_io_fs_delete;
    } in
    let p = agregar_texto p m.interfaz in agregar_texto p m.nombre_archivo

unfoldable pub deserializar_peticion_io_fs_delete : List ℕ → Leido PeticionIoFsDelete
deserializar_peticion_io_fs_delete stream = do
  (cde, s) ← deserializar_contexto_ejecucion stream
  (interfaz, s) ← deserializar_texto s
  (nombre_archivo, s) ← deserializar_texto s
  some (record { cde = cde; interfaz = interfaz; nombre_archivo = nombre_archivo }, s)

-- The values fit in their fields.
pub record PeticionIoFsDeleteValido (m : PeticionIoFsDelete) : Type 0 where
  pub cde : ContextoMensajeValido (contexto_sin_recurso m.cde)
  pub interfaz : length m.interfaz < 0x1_0000_0000
  pub nombre_archivo : length m.nombre_archivo < 0x1_0000_0000

pub deserializar_peticion_io_fs_delete-obtener_paquete_peticion_io_fs_delete :
    (m : PeticionIoFsDelete) (resto : List ℕ)
    → PeticionIoFsDeleteValido m
    → deserializar_peticion_io_fs_delete ((obtener_paquete_peticion_io_fs_delete m).stream ++ resto)
      ≡ some (record m { cde = contexto_sin_recurso m.cde }, resto)
unfolding deserializar_peticion_io_fs_delete obtener_paquete_peticion_io_fs_delete agregar_texto
    agregar_var_a_paquete
deserializar_peticion_io_fs_delete-obtener_paquete_peticion_io_fs_delete m resto v = simp (
  append_assoc,
  deserializar_contexto_ejecucion-serializar_contexto_ejecucion (contexto_sin_recurso m.cde) _
      v.cde,
  texto_lem m.interfaz v.interfaz,
  texto_lem m.nombre_archivo v.nombre_archivo,
)

-- t_peticion_io_fs_truncate
pub record PeticionIoFsTruncate : Type 0 where
  pub cde : ContextoMensaje
  pub interfaz : List ℕ
  pub nombre_archivo : List ℕ
  pub tam : ℕ

unfoldable pub obtener_paquete_peticion_io_fs_truncate : PeticionIoFsTruncate → Paquete
obtener_paquete_peticion_io_fs_truncate m =
    let p = record (serializar_contexto_ejecucion (contexto_sin_recurso m.cde)) {
      codigo_operacion = instruccion_io_fs_truncate;
    } in
    let p = agregar_texto p m.interfaz in
    let p = agregar_texto p m.nombre_archivo in agregar_var_a_paquete p (bytes 4 m.tam)

unfoldable pub deserializar_peticion_io_fs_truncate : List ℕ → Leido PeticionIoFsTruncate
deserializar_peticion_io_fs_truncate stream = do
  (cde, s) ← deserializar_contexto_ejecucion stream
  (interfaz, s) ← deserializar_texto s
  (nombre_archivo, s) ← deserializar_texto s
  (tam, s) ← deserializar_uint32 s
  some (record { cde = cde; interfaz = interfaz; nombre_archivo = nombre_archivo; tam = tam }, s)

-- The values fit in their fields.
pub record PeticionIoFsTruncateValido (m : PeticionIoFsTruncate) : Type 0 where
  pub cde : ContextoMensajeValido (contexto_sin_recurso m.cde)
  pub interfaz : length m.interfaz < 0x1_0000_0000
  pub nombre_archivo : length m.nombre_archivo < 0x1_0000_0000
  pub tam : m.tam < 0x1_0000_0000

pub deserializar_peticion_io_fs_truncate-obtener_paquete_peticion_io_fs_truncate :
    (m : PeticionIoFsTruncate) (resto : List ℕ)
    → PeticionIoFsTruncateValido m
    → deserializar_peticion_io_fs_truncate
        ((obtener_paquete_peticion_io_fs_truncate m).stream ++ resto)
      ≡ some (record m { cde = contexto_sin_recurso m.cde }, resto)
unfolding deserializar_peticion_io_fs_truncate obtener_paquete_peticion_io_fs_truncate agregar_texto
    agregar_var_a_paquete
deserializar_peticion_io_fs_truncate-obtener_paquete_peticion_io_fs_truncate m resto v = simp (
  append_assoc,
  deserializar_contexto_ejecucion-serializar_contexto_ejecucion (contexto_sin_recurso m.cde) _
      v.cde,
  texto_lem m.interfaz v.interfaz,
  texto_lem m.nombre_archivo v.nombre_archivo,
  uint32_lem m.tam v.tam,
)

-- t_peticion_io_fs_write
pub record PeticionIoFsWrite : Type 0 where
  pub cde : ContextoMensaje
  pub interfaz : List ℕ
  pub nombre_archivo : List ℕ
  pub tam : ℕ
  pub dir_fis : DireccionFisica
  pub posicion_archivo : ℕ

unfoldable pub obtener_paquete_peticion_io_fs_write : PeticionIoFsWrite → Paquete
obtener_paquete_peticion_io_fs_write m =
    let p = record (serializar_contexto_ejecucion (contexto_sin_recurso m.cde)) {
      codigo_operacion = instruccion_io_fs_write;
    } in
    let p = agregar_texto p m.interfaz in
    let p = agregar_texto p m.nombre_archivo in
    let p = agregar_var_a_paquete p (bytes 4 m.tam) in
    let p = agregar_dir_fisica_a_paquete p m.dir_fis in
    agregar_var_a_paquete p (bytes 4 m.posicion_archivo)

unfoldable pub deserializar_peticion_io_fs_write : List ℕ → Leido PeticionIoFsWrite
deserializar_peticion_io_fs_write stream = do
  (cde, s) ← deserializar_contexto_ejecucion stream
  (interfaz, s) ← deserializar_texto s
  (nombre_archivo, s) ← deserializar_texto s
  (tam, s) ← deserializar_uint32 s
  (dir_fis, s) ← deserializar_direccion_fisica s
  (posicion_archivo, s) ← deserializar_uint32 s
  some (
    record {
      cde = cde;
      interfaz = interfaz;
      nombre_archivo = nombre_archivo;
      tam = tam;
      dir_fis = dir_fis;
      posicion_archivo = posicion_archivo;
    },
    s,
  )

-- The values fit in their fields.
pub record PeticionIoFsWriteValido (m : PeticionIoFsWrite) : Type 0 where
  pub cde : ContextoMensajeValido (contexto_sin_recurso m.cde)
  pub interfaz : length m.interfaz < 0x1_0000_0000
  pub nombre_archivo : length m.nombre_archivo < 0x1_0000_0000
  pub tam : m.tam < 0x1_0000_0000
  pub dir_fis : DireccionValida m.dir_fis
  pub posicion_archivo : m.posicion_archivo < 0x1_0000_0000

-- The request of a process to write a file, with the process control block and all the registers,
-- reads back as it was except that its context has no resource, whatever follows it, if its values
-- fit in their fields and the resource that the process waits for, if any, has a byte at least.
pub deserializar_peticion_io_fs_write-obtener_paquete_peticion_io_fs_write :
    (m : PeticionIoFsWrite) (resto : List ℕ)
    → PeticionIoFsWriteValido m
    → deserializar_peticion_io_fs_write ((obtener_paquete_peticion_io_fs_write m).stream ++ resto)
      ≡ some (record m { cde = contexto_sin_recurso m.cde }, resto)
unfolding deserializar_peticion_io_fs_write obtener_paquete_peticion_io_fs_write agregar_texto
    agregar_var_a_paquete agregar_dir_fisica_a_paquete deserializar_direccion_fisica
deserializar_peticion_io_fs_write-obtener_paquete_peticion_io_fs_write m resto v = simp (
  append_assoc,
  deserializar_contexto_ejecucion-serializar_contexto_ejecucion (contexto_sin_recurso m.cde) _
      v.cde,
  texto_lem m.interfaz v.interfaz,
  texto_lem m.nombre_archivo v.nombre_archivo,
  uint32_lem m.tam v.tam,
  uint32_lem m.dir_fis.pid v.dir_fis.pid,
  uint32_lem m.dir_fis.marco v.dir_fis.marco,
  uint32_lem m.dir_fis.desplazamiento_fisico v.dir_fis.desplazamiento_fisico,
  uint32_lem m.posicion_archivo v.posicion_archivo,
)

-- t_peticion_io_fs_read
pub record PeticionIoFsRead : Type 0 where
  pub cde : ContextoMensaje
  pub interfaz : List ℕ
  pub nombre_archivo : List ℕ
  pub tam : ℕ
  pub dir_fis : DireccionFisica
  pub posicion_archivo : ℕ

unfoldable pub obtener_paquete_peticion_io_fs_read : PeticionIoFsRead → Paquete
obtener_paquete_peticion_io_fs_read m =
    let p = record (serializar_contexto_ejecucion (contexto_sin_recurso m.cde)) {
      codigo_operacion = instruccion_io_fs_read;
    } in
    let p = agregar_texto p m.interfaz in
    let p = agregar_texto p m.nombre_archivo in
    let p = agregar_var_a_paquete p (bytes 4 m.tam) in
    let p = agregar_dir_fisica_a_paquete p m.dir_fis in
    agregar_var_a_paquete p (bytes 4 m.posicion_archivo)

unfoldable pub deserializar_peticion_io_fs_read : List ℕ → Leido PeticionIoFsRead
deserializar_peticion_io_fs_read stream = do
  (cde, s) ← deserializar_contexto_ejecucion stream
  (interfaz, s) ← deserializar_texto s
  (nombre_archivo, s) ← deserializar_texto s
  (tam, s) ← deserializar_uint32 s
  (dir_fis, s) ← deserializar_direccion_fisica s
  (posicion_archivo, s) ← deserializar_uint32 s
  some (
    record {
      cde = cde;
      interfaz = interfaz;
      nombre_archivo = nombre_archivo;
      tam = tam;
      dir_fis = dir_fis;
      posicion_archivo = posicion_archivo;
    },
    s,
  )

-- The values fit in their fields.
pub record PeticionIoFsReadValido (m : PeticionIoFsRead) : Type 0 where
  pub cde : ContextoMensajeValido (contexto_sin_recurso m.cde)
  pub interfaz : length m.interfaz < 0x1_0000_0000
  pub nombre_archivo : length m.nombre_archivo < 0x1_0000_0000
  pub tam : m.tam < 0x1_0000_0000
  pub dir_fis : DireccionValida m.dir_fis
  pub posicion_archivo : m.posicion_archivo < 0x1_0000_0000

pub deserializar_peticion_io_fs_read-obtener_paquete_peticion_io_fs_read :
    (m : PeticionIoFsRead) (resto : List ℕ)
    → PeticionIoFsReadValido m
    → deserializar_peticion_io_fs_read ((obtener_paquete_peticion_io_fs_read m).stream ++ resto)
      ≡ some (record m { cde = contexto_sin_recurso m.cde }, resto)
unfolding deserializar_peticion_io_fs_read obtener_paquete_peticion_io_fs_read agregar_texto
    agregar_var_a_paquete agregar_dir_fisica_a_paquete deserializar_direccion_fisica
deserializar_peticion_io_fs_read-obtener_paquete_peticion_io_fs_read m resto v = simp (
  append_assoc,
  deserializar_contexto_ejecucion-serializar_contexto_ejecucion (contexto_sin_recurso m.cde) _
      v.cde,
  texto_lem m.interfaz v.interfaz,
  texto_lem m.nombre_archivo v.nombre_archivo,
  uint32_lem m.tam v.tam,
  uint32_lem m.dir_fis.pid v.dir_fis.pid,
  uint32_lem m.dir_fis.marco v.dir_fis.marco,
  uint32_lem m.dir_fis.desplazamiento_fisico v.dir_fis.desplazamiento_fisico,
  uint32_lem m.posicion_archivo v.posicion_archivo,
)
