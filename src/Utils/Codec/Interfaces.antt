-- ===== src/Utils/Codec/Interfaces.antt =====
-- utils/codec: messages of the kernel with the memory and with the interfaces.
-- Each packs its fields in order; a text is its bytes with the final zero.
use tp_sisop_1c.Prelude.{some, ◌++◌, ◌<◌, ◌≡◌, List, length, ℕ}
use tp_sisop_1c.Utils.Codec.Variables.{
  uint32_lem, texto_lem, registro_lem, DireccionValida, RegistroValido,
}
use mathlib.Core.List.{append_assoc}
use tp_sisop_1c.Utils.Codec.{
  ◌>>=◌, Paquete, agregar_dir_fisica_a_paquete, agregar_texto, agregar_var_a_paquete,
  DireccionFisica, Leido, crear_paquete, Registro, crear_proceso, deserializar_direccion_fisica,
  deserializar_texto, deserializar_uint32, ejecutar_io_gen_sleep, error_io, handshake_io,
  io_ocupada_read, io_ocupada_sleep, bytes, deserializar_t_registro, serializar_t_registro,
}

-- t_crear_proceso
pub record CrearProceso : Type 0 where
  pub ruta_archivo : List ℕ
  pub pid : ℕ

unfoldable pub serializar_nuevo_proceso_memoria : CrearProceso → Paquete
serializar_nuevo_proceso_memoria m =
    let p = crear_paquete crear_proceso in
    let p = agregar_texto p m.ruta_archivo in agregar_var_a_paquete p (bytes 4 m.pid)

unfoldable pub deserializar_nuevo_proceso_memoria : List ℕ → Leido CrearProceso
deserializar_nuevo_proceso_memoria stream = do
  (ruta_archivo, s) ← deserializar_texto stream
  (pid, s) ← deserializar_uint32 s
  some (record { ruta_archivo = ruta_archivo; pid = pid }, s)

-- The values fit in their fields.
pub record CrearProcesoValido (m : CrearProceso) : Type 0 where
  pub ruta_archivo : length m.ruta_archivo < 0x1_0000_0000
  pub pid : m.pid < 0x1_0000_0000

-- The message to create a process whose values fit in their fields reads back as it was, whatever
-- follows it in the stream.
pub deserializar_nuevo_proceso_memoria-serializar_nuevo_proceso_memoria :
    (m : CrearProceso) (resto : List ℕ)
    → CrearProcesoValido m
    → deserializar_nuevo_proceso_memoria ((serializar_nuevo_proceso_memoria m).stream ++ resto)
      ≡ some (m, resto)
unfolding agregar_texto agregar_var_a_paquete crear_paquete deserializar_nuevo_proceso_memoria
    serializar_nuevo_proceso_memoria
deserializar_nuevo_proceso_memoria-serializar_nuevo_proceso_memoria m resto v =
    simp (append_assoc, texto_lem m.ruta_archivo v.ruta_archivo, uint32_lem m.pid v.pid)

-- t_handshake_io
pub record HandshakeIo : Type 0 where
  pub nombre : List ℕ
  pub tipo_interfaz : ℕ

unfoldable pub serializar_handshake_io : HandshakeIo → Paquete
serializar_handshake_io m =
    let p = crear_paquete handshake_io in
    let p = agregar_texto p m.nombre in agregar_var_a_paquete p (bytes 4 m.tipo_interfaz)

unfoldable pub deserializar_handshake_io : List ℕ → Leido HandshakeIo
deserializar_handshake_io stream = do
  (nombre, s) ← deserializar_texto stream
  (tipo_interfaz, s) ← deserializar_uint32 s
  some (record { nombre = nombre; tipo_interfaz = tipo_interfaz }, s)

-- The values fit in their fields.
pub record HandshakeIoValido (m : HandshakeIo) : Type 0 where
  pub nombre : length m.nombre < 0x1_0000_0000
  pub tipo_interfaz : m.tipo_interfaz < 0x1_0000_0000

-- The message of a new interface whose values fit in their fields reads back as it was, whatever
-- follows it in the stream.
pub deserializar_handshake_io-serializar_handshake_io :
    (m : HandshakeIo) (resto : List ℕ)
    → HandshakeIoValido m
    → deserializar_handshake_io ((serializar_handshake_io m).stream ++ resto) ≡ some (m, resto)
unfolding agregar_texto agregar_var_a_paquete crear_paquete deserializar_handshake_io
    serializar_handshake_io
deserializar_handshake_io-serializar_handshake_io m resto v =
    simp (append_assoc, texto_lem m.nombre v.nombre, uint32_lem m.tipo_interfaz v.tipo_interfaz)

-- t_interfaz_mje, the fields that this message sets to a value of its own
pub record InterfazMje : Type 0 where
  pub nombre_interfaz : List ℕ
  pub pid : ℕ

unfoldable pub serializar_error_io : InterfazMje → Paquete
serializar_error_io m =
    let p = crear_paquete error_io in
    let p = agregar_texto p m.nombre_interfaz in agregar_var_a_paquete p (bytes 4 m.pid)

unfoldable pub deserializar_error_io : List ℕ → Leido InterfazMje
deserializar_error_io stream = do
  (nombre_interfaz, s) ← deserializar_texto stream
  (pid, s) ← deserializar_uint32 s
  some (record { nombre_interfaz = nombre_interfaz; pid = pid }, s)

-- The values fit in their fields.
pub record InterfazMjeValido (m : InterfazMje) : Type 0 where
  pub nombre_interfaz : length m.nombre_interfaz < 0x1_0000_0000
  pub pid : m.pid < 0x1_0000_0000

-- A message of serializar_error_io whose values fit reads back as it was, whatever follows it.
pub deserializar_error_io-serializar_error_io :
    (m : InterfazMje) (resto : List ℕ)
    → InterfazMjeValido m
    → deserializar_error_io ((serializar_error_io m).stream ++ resto) ≡ some (m, resto)
unfolding agregar_texto agregar_var_a_paquete crear_paquete deserializar_error_io
    serializar_error_io
deserializar_error_io-serializar_error_io m resto v =
    simp (append_assoc, texto_lem m.nombre_interfaz v.nombre_interfaz, uint32_lem m.pid v.pid)

-- t_interfaz_mje, the fields that this message sets to a value of its own
pub record IoOcupadaSleep : Type 0 where
  pub nombre_interfaz : List ℕ
  pub pid : ℕ
  pub unidades_de_trabajo : ℕ

unfoldable pub serializar_interfaz_ocupada_sleep : IoOcupadaSleep → Paquete
serializar_interfaz_ocupada_sleep m =
    let p = crear_paquete io_ocupada_sleep in
    let p = agregar_texto p m.nombre_interfaz in
    let p = agregar_var_a_paquete p (bytes 4 m.pid) in
    agregar_var_a_paquete p (bytes 4 m.unidades_de_trabajo)

unfoldable pub deserializar_io_ocupada_sleep : List ℕ → Leido IoOcupadaSleep
deserializar_io_ocupada_sleep stream = do
  (nombre_interfaz, s) ← deserializar_texto stream
  (pid, s) ← deserializar_uint32 s
  (unidades_de_trabajo, s) ← deserializar_uint32 s
  some (
    record {
      nombre_interfaz = nombre_interfaz;
      pid = pid;
      unidades_de_trabajo = unidades_de_trabajo;
    },
    s,
  )

-- The values fit in their fields.
pub record IoOcupadaSleepValido (m : IoOcupadaSleep) : Type 0 where
  pub nombre_interfaz : length m.nombre_interfaz < 0x1_0000_0000
  pub pid : m.pid < 0x1_0000_0000
  pub unidades_de_trabajo : m.unidades_de_trabajo < 0x1_0000_0000

-- A message of serializar_interfaz_ocupada_sleep whose values fit reads back as it was, whatever follows it.
pub deserializar_io_ocupada_sleep-serializar_interfaz_ocupada_sleep :
    (m : IoOcupadaSleep) (resto : List ℕ)
    → IoOcupadaSleepValido m
    → deserializar_io_ocupada_sleep ((serializar_interfaz_ocupada_sleep m).stream ++ resto)
      ≡ some (m, resto)
unfolding agregar_texto agregar_var_a_paquete crear_paquete deserializar_io_ocupada_sleep
    serializar_interfaz_ocupada_sleep
deserializar_io_ocupada_sleep-serializar_interfaz_ocupada_sleep m resto v = simp (
  append_assoc,
  texto_lem m.nombre_interfaz v.nombre_interfaz,
  uint32_lem m.pid v.pid,
  uint32_lem m.unidades_de_trabajo v.unidades_de_trabajo,
)

-- t_interfaz_mje, the fields that this message sets to a value of its own
pub record IoOcupadaRead : Type 0 where
  pub nombre_interfaz : List ℕ
  pub pid : ℕ
  pub direccion_fisica : DireccionFisica
  pub reg : Registro

unfoldable pub serializar_interfaz_ocupada_read : IoOcupadaRead → Paquete
serializar_interfaz_ocupada_read m =
    let p = crear_paquete io_ocupada_read in
    let p = agregar_texto p m.nombre_interfaz in
    let p = agregar_var_a_paquete p (bytes 4 m.pid) in
    let p = agregar_dir_fisica_a_paquete p m.direccion_fisica in serializar_t_registro p m.reg

unfoldable pub deserializar_io_ocupada_read : List ℕ → Leido IoOcupadaRead
deserializar_io_ocupada_read stream = do
  (nombre_interfaz, s) ← deserializar_texto stream
  (pid, s) ← deserializar_uint32 s
  (direccion_fisica, s) ← deserializar_direccion_fisica s
  (reg, s) ← deserializar_t_registro s
  some (
    record {
      nombre_interfaz = nombre_interfaz;
      pid = pid;
      direccion_fisica = direccion_fisica;
      reg = reg;
    },
    s,
  )

-- The values fit in their fields.
pub record IoOcupadaReadValido (m : IoOcupadaRead) : Type 0 where
  pub nombre_interfaz : length m.nombre_interfaz < 0x1_0000_0000
  pub pid : m.pid < 0x1_0000_0000
  pub direccion_fisica : DireccionValida m.direccion_fisica
  pub reg : RegistroValido m.reg

-- The message that hands a read of the keyboard back whose values fit in their fields reads back
-- as it was, whatever follows it in the stream.
pub deserializar_io_ocupada_read-serializar_interfaz_ocupada_read :
    (m : IoOcupadaRead) (resto : List ℕ)
    → IoOcupadaReadValido m
    → deserializar_io_ocupada_read ((serializar_interfaz_ocupada_read m).stream ++ resto)
      ≡ some (m, resto)
unfolding agregar_dir_fisica_a_paquete agregar_texto agregar_var_a_paquete crear_paquete
    deserializar_direccion_fisica deserializar_io_ocupada_read serializar_interfaz_ocupada_read
    serializar_t_registro
deserializar_io_ocupada_read-serializar_interfaz_ocupada_read m resto v = simp (
  append_assoc,
  texto_lem m.nombre_interfaz v.nombre_interfaz,
  uint32_lem m.pid v.pid,
  uint32_lem m.direccion_fisica.pid v.direccion_fisica.pid,
  uint32_lem m.direccion_fisica.marco v.direccion_fisica.marco,
  uint32_lem m.direccion_fisica.desplazamiento_fisico v.direccion_fisica.desplazamiento_fisico,
  registro_lem m.reg v.reg,
)

-- t_ejecutar_io_gen_sleep
pub record EjecutarIoGenSleep : Type 0 where
  pub unidades_de_trabajo : ℕ
  pub pid : ℕ

unfoldable pub serializar_ejecutar_io_gen_sleep : EjecutarIoGenSleep → Paquete
serializar_ejecutar_io_gen_sleep m =
    let p = crear_paquete ejecutar_io_gen_sleep in
    let p = agregar_var_a_paquete p (bytes 4 m.unidades_de_trabajo) in
    agregar_var_a_paquete p (bytes 4 m.pid)

unfoldable pub deserializar_ejecutar_io_gen_sleep : List ℕ → Leido EjecutarIoGenSleep
deserializar_ejecutar_io_gen_sleep stream = do
  (unidades_de_trabajo, s) ← deserializar_uint32 stream
  (pid, s) ← deserializar_uint32 s
  some (record { unidades_de_trabajo = unidades_de_trabajo; pid = pid }, s)

-- The values fit in their fields.
pub record EjecutarIoGenSleepValido (m : EjecutarIoGenSleep) : Type 0 where
  pub unidades_de_trabajo : m.unidades_de_trabajo < 0x1_0000_0000
  pub pid : m.pid < 0x1_0000_0000

-- A message of serializar_ejecutar_io_gen_sleep whose values fit reads back as it was, whatever follows it.
pub deserializar_ejecutar_io_gen_sleep-serializar_ejecutar_io_gen_sleep :
    (m : EjecutarIoGenSleep) (resto : List ℕ)
    → EjecutarIoGenSleepValido m
    → deserializar_ejecutar_io_gen_sleep ((serializar_ejecutar_io_gen_sleep m).stream ++ resto)
      ≡ some (m, resto)
unfolding agregar_var_a_paquete crear_paquete deserializar_ejecutar_io_gen_sleep
    serializar_ejecutar_io_gen_sleep
deserializar_ejecutar_io_gen_sleep-serializar_ejecutar_io_gen_sleep m resto v =
    simp
      (append_assoc, uint32_lem m.unidades_de_trabajo v.unidades_de_trabajo, uint32_lem m.pid v.pid)
