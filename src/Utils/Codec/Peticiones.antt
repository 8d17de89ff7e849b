-- ===== src/Utils/Codec/Peticiones.antt =====
-- utils/codec: the requests of a process to an interface that sleeps or writes, each behind the context of
-- the process. The serializers pack the context with NULL for its resource.
use tp_sisop_1c.Prelude.{some, ◌++◌, ◌<◌, ◌≡◌, ℕ, List, length}
use mathlib.Core.List.{append_assoc}
use tp_sisop_1c.Utils.Codec.{
  ◌>>=◌, Paquete, Leido, agregar_texto, agregar_var_a_paquete, bytes, DireccionFisica,
  agregar_dir_fisica_a_paquete, deserializar_direccion_fisica, deserializar_uint32,
  deserializar_texto, instruccion_io_gen_sleep, instruccion_io_stdout_write,
}
use tp_sisop_1c.Utils.Codec.Variables.{uint32_lem, texto_lem, DireccionValida}
use tp_sisop_1c.Utils.Codec.Contexto.{
  ContextoMensaje, contexto_sin_recurso, serializar_contexto_ejecucion,
  deserializar_contexto_ejecucion, ContextoMensajeValido,
  deserializar_contexto_ejecucion-serializar_contexto_ejecucion,
}

-- t_peticion_io_gen_sleep
pub record PeticionIoGenSleep : Type 0 where
  pub cde : ContextoMensaje
  pub interfaz : List ℕ
  pub unidades_de_trabajo : ℕ

unfoldable pub obtener_paquete_peticion_io_gen_sleep : PeticionIoGenSleep → Paquete
obtener_paquete_peticion_io_gen_sleep m =
    let p = record (serializar_contexto_ejecucion (contexto_sin_recurso m.cde)) {
      codigo_operacion = instruccion_io_gen_sleep;
    } in
    let p = agregar_texto p m.interfaz in agregar_var_a_paquete p (bytes 4 m.unidades_de_trabajo)

unfoldable pub deserializar_obtener_paquete_peticion_io_gen_sleep :
    List ℕ → Leido PeticionIoGenSleep
deserializar_obtener_paquete_peticion_io_gen_sleep stream = do
  (cde, s) ← deserializar_contexto_ejecucion stream
  (interfaz, s) ← deserializar_texto s
  (unidades_de_trabajo, s) ← deserializar_uint32 s
  some (record { cde = cde; interfaz = interfaz; unidades_de_trabajo = unidades_de_trabajo }, s)

-- The values fit in their fields.
pub record PeticionIoGenSleepValido (m : PeticionIoGenSleep) : Type 0 where
  pub cde : ContextoMensajeValido (contexto_sin_recurso m.cde)
  pub interfaz : length m.interfaz < 0x1_0000_0000
  pub unidades_de_trabajo : m.unidades_de_trabajo < 0x1_0000_0000

pub deserializar_obtener_paquete_peticion_io_gen_sleep-obtener_paquete_peticion_io_gen_sleep :
    (m : PeticionIoGenSleep) (resto : List ℕ)
    → PeticionIoGenSleepValido m
    → deserializar_obtener_paquete_peticion_io_gen_sleep
        ((obtener_paquete_peticion_io_gen_sleep m).stream ++ resto)
      ≡ some (record m { cde = contexto_sin_recurso m.cde }, resto)
unfolding deserializar_obtener_paquete_peticion_io_gen_sleep obtener_paquete_peticion_io_gen_sleep
    agregar_texto agregar_var_a_paquete
deserializar_obtener_paquete_peticion_io_gen_sleep-obtener_paquete_peticion_io_gen_sleep m resto v =
    simp (
      append_assoc,
      deserializar_contexto_ejecucion-serializar_contexto_ejecucion (contexto_sin_recurso m.cde) _
          v.cde,
      texto_lem m.interfaz v.interfaz,
      uint32_lem m.unidades_de_trabajo v.unidades_de_trabajo,
    )

-- t_peticion_io_stdout_write
pub record PeticionIoStdoutWrite : Type 0 where
  pub cde : ContextoMensaje
  pub dir_fisica : DireccionFisica
  pub interfaz : List ℕ
  pub tamanio : ℕ

unfoldable pub serializar_peticion_io_stdout_write : PeticionIoStdoutWrite → Paquete
serializar_peticion_io_stdout_write m =
    let p = record (serializar_contexto_ejecucion (contexto_sin_recurso m.cde)) {
      codigo_operacion = instruccion_io_stdout_write;
    } in
    let p = agregar_dir_fisica_a_paquete p m.dir_fisica in
    let p = agregar_texto p m.interfaz in agregar_var_a_paquete p (bytes 4 m.tamanio)

unfoldable pub deserializar_obtener_paquete_peticion_io_stdout_write :
    List ℕ → Leido PeticionIoStdoutWrite
deserializar_obtener_paquete_peticion_io_stdout_write stream = do
  (cde, s) ← deserializar_contexto_ejecucion stream
  (dir_fisica, s) ← deserializar_direccion_fisica s
  (interfaz, s) ← deserializar_texto s
  (tamanio, s) ← deserializar_uint32 s
  some (record { cde = cde; dir_fisica = dir_fisica; interfaz = interfaz; tamanio = tamanio }, s)

-- The values fit in their fields.
pub record PeticionIoStdoutWriteValido (m : PeticionIoStdoutWrite) : Type 0 where
  pub cde : ContextoMensajeValido (contexto_sin_recurso m.cde)
  pub dir_fisica : DireccionValida m.dir_fisica
  pub interfaz : length m.interfaz < 0x1_0000_0000
  pub tamanio : m.tamanio < 0x1_0000_0000

pub deserializar_obtener_paquete_peticion_io_stdout_write-serializar_peticion_io_stdout_write :
    (m : PeticionIoStdoutWrite) (resto : List ℕ)
    → PeticionIoStdoutWriteValido m
    → deserializar_obtener_paquete_peticion_io_stdout_write
        ((serializar_peticion_io_stdout_write m).stream ++ resto)
      ≡ some (record m { cde = contexto_sin_recurso m.cde }, resto)
unfolding deserializar_obtener_paquete_peticion_io_stdout_write serializar_peticion_io_stdout_write
    agregar_texto agregar_var_a_paquete agregar_dir_fisica_a_paquete deserializar_direccion_fisica
deserializar_obtener_paquete_peticion_io_stdout_write-serializar_peticion_io_stdout_write m resto
      v =
    simp (
      append_assoc,
      deserializar_contexto_ejecucion-serializar_contexto_ejecucion (contexto_sin_recurso m.cde) _
          v.cde,
      uint32_lem m.dir_fisica.pid v.dir_fisica.pid,
      uint32_lem m.dir_fisica.marco v.dir_fisica.marco,
      uint32_lem m.dir_fisica.desplazamiento_fisico v.dir_fisica.desplazamiento_fisico,
      texto_lem m.interfaz v.interfaz,
      uint32_lem m.tamanio v.tamanio,
    )
