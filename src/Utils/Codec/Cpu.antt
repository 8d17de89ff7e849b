-- ===== src/Utils/Codec/Cpu.antt =====
-- utils/codec: the requests of the cpu to the memory, and the answers.
-- Each packs its fields in order; a text is its bytes with the final zero.
use tp_sisop_1c.Prelude.{some, ◌++◌, ◌<◌, ◌≡◌, ℕ, List, length}
use tp_sisop_1c.Utils.Codec.Variables.{
  uint32_lem, texto_lem, registro_lem, DireccionValida, RegistroValido,
}
use mathlib.Core.List.{append_assoc}
use tp_sisop_1c.Utils.Codec.{
  ◌>>=◌, DireccionFisica, Paquete, agregar_dir_fisica_a_paquete, agregar_texto,
  agregar_var_a_paquete, Leido, Registro, crear_paquete, deserializar_direccion_fisica,
  deserializar_uint32, ejecutar_copystring, ejecutar_movin, ejecutar_movout, ejecutar_resize,
  obt_instruccion, pedir_marco, ret_instruccion, bytes, deserializar_t_registro, deserializar_texto,
  serializar_t_registro,
}

-- t_obtener_instruccion
pub record ObtenerInstruccion : Type 0 where
  pub pid : ℕ
  pub pc : ℕ

unfoldable pub obtener_paquete_instrucciones : ObtenerInstruccion → Paquete
obtener_paquete_instrucciones m =
    let p = crear_paquete obt_instruccion in
    let p = agregar_var_a_paquete p (bytes 4 m.pid) in agregar_var_a_paquete p (bytes 4 m.pc)

unfoldable pub deserializar_obtener_instruccion : List ℕ → Leido ObtenerInstruccion
deserializar_obtener_instruccion stream = do
  (pid, s) ← deserializar_uint32 stream
  (pc, s) ← deserializar_uint32 s
  some (record { pid = pid; pc = pc }, s)

-- The values fit in their fields.
pub record ObtenerInstruccionValido (m : ObtenerInstruccion) : Type 0 where
  pub pid : m.pid < 0x1_0000_0000
  pub pc : m.pc < 0x1_0000_0000

-- A message of obtener_paquete_instrucciones whose values fit reads back as it was, whatever follows it.
pub deserializar_obtener_instruccion-obtener_paquete_instrucciones :
    (m : ObtenerInstruccion) (resto : List ℕ)
    → ObtenerInstruccionValido m
    → deserializar_obtener_instruccion ((obtener_paquete_instrucciones m).stream ++ resto)
      ≡ some (m, resto)
unfolding agregar_var_a_paquete crear_paquete deserializar_obtener_instruccion
    obtener_paquete_instrucciones
deserializar_obtener_instruccion-obtener_paquete_instrucciones m resto v =
    simp (append_assoc, uint32_lem m.pid v.pid, uint32_lem m.pc v.pc)

-- t_obtener_ret_instruccion
pub record ObtenerRetInstruccion : Type 0 where
  pub id_inst : ℕ
  pub instruccion : List ℕ

unfoldable pub obtener_paquete_ret_instrucciones : ObtenerRetInstruccion → Paquete
obtener_paquete_ret_instrucciones m =
    let p = crear_paquete ret_instruccion in
    let p = agregar_var_a_paquete p (bytes 4 m.id_inst) in agregar_texto p m.instruccion

unfoldable pub deserializar_obtener_ret_instruccion : List ℕ → Leido ObtenerRetInstruccion
deserializar_obtener_ret_instruccion stream = do
  (id_inst, s) ← deserializar_uint32 stream
  (instruccion, s) ← deserializar_texto s
  some (record { id_inst = id_inst; instruccion = instruccion }, s)

-- The values fit in their fields.
pub record ObtenerRetInstruccionValido (m : ObtenerRetInstruccion) : Type 0 where
  pub id_inst : m.id_inst < 0x1_0000_0000
  pub instruccion : length m.instruccion < 0x1_0000_0000

-- The message with an instruction whose values fit in their fields reads back as it was, whatever
-- follows it in the stream.
pub deserializar_obtener_ret_instruccion-obtener_paquete_ret_instrucciones :
    (m : ObtenerRetInstruccion) (resto : List ℕ)
    → ObtenerRetInstruccionValido m
    → deserializar_obtener_ret_instruccion ((obtener_paquete_ret_instrucciones m).stream ++ resto)
      ≡ some (m, resto)
unfolding agregar_texto agregar_var_a_paquete crear_paquete deserializar_obtener_ret_instruccion
    obtener_paquete_ret_instrucciones
deserializar_obtener_ret_instruccion-obtener_paquete_ret_instrucciones m resto v =
    simp (append_assoc, uint32_lem m.id_inst v.id_inst, texto_lem m.instruccion v.instruccion)

-- t_dir_logica
pub record DirLogica : Type 0 where
  pub pid : ℕ
  pub pagina : ℕ

unfoldable pub serializar_pedir_marco : DirLogica → Paquete
serializar_pedir_marco m =
    let p = crear_paquete pedir_marco in
    let p = agregar_var_a_paquete p (bytes 4 m.pid) in agregar_var_a_paquete p (bytes 4 m.pagina)

unfoldable pub deserializar_pedir_marco : List ℕ → Leido DirLogica
deserializar_pedir_marco stream = do
  (pid, s) ← deserializar_uint32 stream
  (pagina, s) ← deserializar_uint32 s
  some (record { pid = pid; pagina = pagina }, s)

-- The values fit in their fields.
pub record DirLogicaValido (m : DirLogica) : Type 0 where
  pub pid : m.pid < 0x1_0000_0000
  pub pagina : m.pagina < 0x1_0000_0000

-- A message of serializar_pedir_marco whose values fit reads back as it was, whatever follows it.
pub deserializar_pedir_marco-serializar_pedir_marco :
    (m : DirLogica) (resto : List ℕ)
    → DirLogicaValido m
    → deserializar_pedir_marco ((serializar_pedir_marco m).stream ++ resto) ≡ some (m, resto)
unfolding agregar_var_a_paquete crear_paquete deserializar_pedir_marco serializar_pedir_marco
deserializar_pedir_marco-serializar_pedir_marco m resto v =
    simp (append_assoc, uint32_lem m.pid v.pid, uint32_lem m.pagina v.pagina)

-- t_mov_in
pub record MovIn : Type 0 where
  pub dir_fisica : DireccionFisica
  pub datos : Registro

unfoldable pub serializar_ejecutar_mov_in : MovIn → Paquete
serializar_ejecutar_mov_in m =
    let p = crear_paquete ejecutar_movin in
    let p = agregar_dir_fisica_a_paquete p m.dir_fisica in serializar_t_registro p m.datos

unfoldable pub deserializar_ejecutar_mov_in : List ℕ → Leido MovIn
deserializar_ejecutar_mov_in stream = do
  (dir_fisica, s) ← deserializar_direccion_fisica stream
  (datos, s) ← deserializar_t_registro s
  some (record { dir_fisica = dir_fisica; datos = datos }, s)

-- The values fit in their fields.
pub record MovInValido (m : MovIn) : Type 0 where
  pub dir_fisica : DireccionValida m.dir_fisica
  pub datos : RegistroValido m.datos

-- The message to read the memory into a register whose values fit in their fields reads back as it
-- was, whatever follows it in the stream.
pub deserializar_ejecutar_mov_in-serializar_ejecutar_mov_in :
    (m : MovIn) (resto : List ℕ)
    → MovInValido m
    → deserializar_ejecutar_mov_in ((serializar_ejecutar_mov_in m).stream ++ resto)
      ≡ some (m, resto)
unfolding agregar_dir_fisica_a_paquete agregar_var_a_paquete crear_paquete
    deserializar_direccion_fisica deserializar_ejecutar_mov_in serializar_ejecutar_mov_in
    serializar_t_registro
deserializar_ejecutar_mov_in-serializar_ejecutar_mov_in m resto v = simp (
  append_assoc,
  uint32_lem m.dir_fisica.pid v.dir_fisica.pid,
  uint32_lem m.dir_fisica.marco v.dir_fisica.marco,
  uint32_lem m.dir_fisica.desplazamiento_fisico v.dir_fisica.desplazamiento_fisico,
  registro_lem m.datos v.datos,
)

-- t_mov_out
pub record MovOut : Type 0 where
  pub dir_fisica : DireccionFisica
  pub datos : Registro

unfoldable pub serializar_ejecutar_mov_out : MovOut → Paquete
serializar_ejecutar_mov_out m =
    let p = crear_paquete ejecutar_movout in
    let p = agregar_dir_fisica_a_paquete p m.dir_fisica in serializar_t_registro p m.datos

unfoldable pub deserializar_ejecutar_mov_out : List ℕ → Leido MovOut
deserializar_ejecutar_mov_out stream = do
  (dir_fisica, s) ← deserializar_direccion_fisica stream
  (datos, s) ← deserializar_t_registro s
  some (record { dir_fisica = dir_fisica; datos = datos }, s)

-- The values fit in their fields.
pub record MovOutValido (m : MovOut) : Type 0 where
  pub dir_fisica : DireccionValida m.dir_fisica
  pub datos : RegistroValido m.datos

-- A message of serializar_ejecutar_mov_out whose values fit reads back as it was, whatever follows it.
pub deserializar_ejecutar_mov_out-serializar_ejecutar_mov_out :
    (m : MovOut) (resto : List ℕ)
    → MovOutValido m
    → deserializar_ejecutar_mov_out ((serializar_ejecutar_mov_out m).stream ++ resto)
      ≡ some (m, resto)
unfolding agregar_dir_fisica_a_paquete agregar_var_a_paquete crear_paquete
    deserializar_direccion_fisica deserializar_ejecutar_mov_out serializar_ejecutar_mov_out
    serializar_t_registro
deserializar_ejecutar_mov_out-serializar_ejecutar_mov_out m resto v = simp (
  append_assoc,
  uint32_lem m.dir_fisica.pid v.dir_fisica.pid,
  uint32_lem m.dir_fisica.marco v.dir_fisica.marco,
  uint32_lem m.dir_fisica.desplazamiento_fisico v.dir_fisica.desplazamiento_fisico,
  registro_lem m.datos v.datos,
)

-- t_copy_string
pub record CopyString : Type 0 where
  pub tamanio : ℕ
  pub pid : ℕ
  pub di : ℕ
  pub si : ℕ

unfoldable pub serializar_ejecutar_copy_string : CopyString → Paquete
serializar_ejecutar_copy_string m =
    let p = crear_paquete ejecutar_copystring in
    let p = agregar_var_a_paquete p (bytes 4 m.tamanio) in
    let p = agregar_var_a_paquete p (bytes 4 m.pid) in
    let p = agregar_var_a_paquete p (bytes 4 m.di) in agregar_var_a_paquete p (bytes 4 m.si)

unfoldable pub deserializar_ejecutar_copy_string : List ℕ → Leido CopyString
deserializar_ejecutar_copy_string stream = do
  (tamanio, s) ← deserializar_uint32 stream
  (pid, s) ← deserializar_uint32 s
  (di, s) ← deserializar_uint32 s
  (si, s) ← deserializar_uint32 s
  some (record { tamanio = tamanio; pid = pid; di = di; si = si }, s)

-- The values fit in their fields.
pub record CopyStringValido (m : CopyString) : Type 0 where
  pub tamanio : m.tamanio < 0x1_0000_0000
  pub pid : m.pid < 0x1_0000_0000
  pub di : m.di < 0x1_0000_0000
  pub si : m.si < 0x1_0000_0000

-- The message to copy a string whose values fit in their fields reads back as it was, whatever
-- follows it in the stream.
pub deserializar_ejecutar_copy_string-serializar_ejecutar_copy_string :
    (m : CopyString) (resto : List ℕ)
    → CopyStringValido m
    → deserializar_ejecutar_copy_string ((serializar_ejecutar_copy_string m).stream ++ resto)
      ≡ some (m, resto)
unfolding agregar_var_a_paquete crear_paquete deserializar_ejecutar_copy_string
    serializar_ejecutar_copy_string
deserializar_ejecutar_copy_string-serializar_ejecutar_copy_string m resto v = simp (
  append_assoc,
  uint32_lem m.tamanio v.tamanio,
  uint32_lem m.pid v.pid,
  uint32_lem m.di v.di,
  uint32_lem m.si v.si,
)

-- t_resize
pub record Resize : Type 0 where
  pub pid : ℕ
  pub tamanio : ℕ

unfoldable pub serializar_ejecutar_resize : Resize → Paquete
serializar_ejecutar_resize m =
    let p = crear_paquete ejecutar_resize in
    let p = agregar_var_a_paquete p (bytes 4 m.pid) in agregar_var_a_paquete p (bytes 4 m.tamanio)

unfoldable pub deserializar_ejecutar_resize : List ℕ → Leido Resize
deserializar_ejecutar_resize stream = do
  (pid, s) ← deserializar_uint32 stream
  (tamanio, s) ← deserializar_uint32 s
  some (record { pid = pid; tamanio = tamanio }, s)

-- The values fit in their fields.
pub record ResizeValido (m : Resize) : Type 0 where
  pub pid : m.pid < 0x1_0000_0000
  pub tamanio : m.tamanio < 0x1_0000_0000

-- A message of serializar_ejecutar_resize whose values fit reads back as it was, whatever follows it.
pub deserializar_ejecutar_resize-serializar_ejecutar_resize :
    (m : Resize) (resto : List ℕ)
    → ResizeValido m
    → deserializar_ejecutar_resize ((serializar_ejecutar_resize m).stream ++ resto)
      ≡ some (m, resto)
unfolding agregar_var_a_paquete crear_paquete deserializar_ejecutar_resize
    serializar_ejecutar_resize
deserializar_ejecutar_resize-serializar_ejecutar_resize m resto v =
    simp (append_assoc, uint32_lem m.pid v.pid, uint32_lem m.tamanio v.tamanio)
