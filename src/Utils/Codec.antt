-- ===== src/Utils/Codec.antt =====
-- utils/codec: packages, and the variables and small records that they hold. Bytes are numbers below
-- 256, the least significant one first. A stream with its displacement is the list of the bytes from
-- there on, and `none` is a read behind its end.
pub mod Variables
pub mod Contexto
pub mod PeticionEntrada
pub mod Peticiones
pub mod PeticionesArchivos
pub mod Cpu
pub mod Interfaces
pub mod Consola
pub mod Archivos
pub mod Ocupadas
pub mod Desajuste
use tp_sisop_1c.Cpu.Registros.{Registros}
use tp_sisop_1c.Prelude.{
  zero, suc, [], some, none, ◌%◌, ◌*◌, ◌++◌, ◌+◌, ◌/◌, ◌∷◌, List, Option, ℕ, if◌then◌else◌, ◌==◌,
  length,
}

-- A chain of reads.
infixl 5 ◌>>=◌
abbrev pub ◌>>=◌ {ℓ κ} : {A : Type ℓ} {B : Type κ} → Option A → (A → Option B) → Option B
none >>= f = none
some a >>= f = f a

-- What a read answers: the value and the rest of the stream.
abbrev pub Leido {ℓ} : Type ℓ → Type ℓ
Leido A = Option (A × List ℕ)

-- op_code
pub data OpCode : Type 0 where
  mensaje obt_instruccion ret_instruccion int_proceso : OpCode
  finalizar_proceso_cpu enviar_pcb enviar_contexto_ejecucion instruccion_io_stdin_read : OpCode
  instruccion_io_stdout_write instruccion_io_gen_sleep instruccion_io_fs_create
        instruccion_io_fs_delete :
      OpCode
  instruccion_io_fs_truncate instruccion_io_fs_read instruccion_io_fs_write ejecutar_io_gen_sleep :
      OpCode
  error_io handshake_io handshake_memoria ejecutar_movin : OpCode
  ejecutar_movout ejecutar_copystring ejecutar_io_stdin_read rta_movin : OpCode
  ejecutar_io_stdout_write ret_io_stdin_read ret_io_stdout_write pedir_marco : OpCode
  io_ocupada_sleep io_ocupada_read io_ocupada_write fin_io : OpCode
  paquete crear_proceso finalizar_proceso_memoria fin_term_pro : OpCode
  fin_crea_pro ejecutar_resize ejecutar_resize_out_of_memory_error io_ocupada_fs_create : OpCode
  io_ocupada_fs_delete io_ocupada_fs_truncate io_ocupada_fs_write io_ocupada_fs_read : OpCode
  ejecutar_io_fs_create ejecutar_io_fs_delete ejecutar_io_fs_truncate ejecutar_io_fs_write : OpCode
  ejecutar_io_fs_read : OpCode

pub record Paquete : Type 0 where
  pub codigo_operacion : OpCode
  pub stream : List ℕ

unfoldable pub crear_paquete : OpCode → Paquete
crear_paquete codigo = record { codigo_operacion = codigo; stream = [] }

-- `agregar_var_a_paquete` of the bytes at the address of a variable.
unfoldable pub agregar_var_a_paquete : Paquete → List ℕ → Paquete
agregar_var_a_paquete paq valor = record paq { stream = paq.stream ++ valor }

-- A variable of `n` bytes.
unfoldable pub bytes : ℕ → ℕ → List ℕ
bytes zero valor = []
bytes (suc n) valor = valor % 256 ∷ bytes n (valor / 256)

-- The length of a text with its final zero, and the text.
unfoldable pub agregar_texto : Paquete → List ℕ → Paquete
agregar_texto paq texto =
    agregar_var_a_paquete (agregar_var_a_paquete paq (bytes 4 (length texto))) texto

unfoldable pub deserializar_bytes : ℕ → List ℕ → Leido ℕ
deserializar_bytes zero stream = some (0, stream)
deserializar_bytes (suc n) [] = none
deserializar_bytes (suc n) (b ∷ stream) = do
  (valor, resto) ← deserializar_bytes n stream
  some (b + 256 * valor, resto)

unfoldable pub deserializar_uint32 : List ℕ → Leido ℕ
deserializar_uint32 stream = deserializar_bytes 4 stream

unfoldable pub deserializar_uint8 : List ℕ → Leido ℕ
deserializar_uint8 stream = deserializar_bytes 1 stream

-- `memcpy` of `tamanio` bytes.
unfoldable pub deserializar_char : ℕ → List ℕ → Leido (List ℕ)
deserializar_char zero stream = some ([], stream)
deserializar_char (suc n) [] = none
deserializar_char (suc n) (b ∷ stream) = do
  (texto, resto) ← deserializar_char n stream
  some (b ∷ texto, resto)

unfoldable pub deserializar_texto : List ℕ → Leido (List ℕ)
deserializar_texto stream = do
  (tamanio, s) ← deserializar_uint32 stream
  deserializar_char tamanio s

-- t_registro_8 when `tipo` is 1, and t_registro_32 otherwise.
pub record Registro : Type 0 where
  pub tipo : ℕ
  pub dato : ℕ

-- The size of its data.
abbrev pub bytes_de_dato : ℕ → ℕ
bytes_de_dato tipo = if tipo == 1 then 1 else 4

unfoldable pub serializar_t_registro : Paquete → Registro → Paquete
serializar_t_registro paq reg =
    agregar_var_a_paquete (agregar_var_a_paquete paq (bytes 1 reg.tipo))
      (bytes (bytes_de_dato reg.tipo) reg.dato)

unfoldable pub deserializar_t_registro : List ℕ → Leido Registro
deserializar_t_registro stream = do
  (tipo, s) ← deserializar_uint8 stream
  (dato, s') ← if tipo == 1 then deserializar_uint8 s else deserializar_uint32 s
  some (record { tipo = tipo; dato = dato }, s')

-- t_direccion_fisica
pub record DireccionFisica : Type 0 where
  pub pid : ℕ
  pub marco : ℕ
  pub desplazamiento_fisico : ℕ

unfoldable pub agregar_dir_fisica_a_paquete : Paquete → DireccionFisica → Paquete
agregar_dir_fisica_a_paquete paq dir =
    let p = agregar_var_a_paquete paq (bytes 4 dir.pid) in
    let p = agregar_var_a_paquete p (bytes 4 dir.marco) in
    agregar_var_a_paquete p (bytes 4 dir.desplazamiento_fisico)

unfoldable pub deserializar_direccion_fisica : List ℕ → Leido DireccionFisica
deserializar_direccion_fisica stream = do
  (pid, s) ← deserializar_uint32 stream
  (marco, s) ← deserializar_uint32 s
  (desplazamiento, s) ← deserializar_uint32 s
  some (record { pid = pid; marco = marco; desplazamiento_fisico = desplazamiento }, s)

unfoldable pub serializar_registros : Paquete → Registros → Paquete
serializar_registros paq r =
    let p = agregar_var_a_paquete paq (bytes 1 r.ax) in
    let p = agregar_var_a_paquete p (bytes 1 r.bx) in
    let p = agregar_var_a_paquete p (bytes 1 r.cx) in
    let p = agregar_var_a_paquete p (bytes 1 r.dx) in
    let p = agregar_var_a_paquete p (bytes 4 r.eax) in
    let p = agregar_var_a_paquete p (bytes 4 r.ebx) in
    let p = agregar_var_a_paquete p (bytes 4 r.ecx) in
    let p = agregar_var_a_paquete p (bytes 4 r.edx) in
    let p = agregar_var_a_paquete p (bytes 4 r.si) in
    let p = agregar_var_a_paquete p (bytes 4 r.di) in agregar_var_a_paquete p (bytes 4 r.pc)

unfoldable pub deserializar_registros : List ℕ → Leido Registros
deserializar_registros stream = do
  (ax, s) ← deserializar_uint8 stream
  (bx, s) ← deserializar_uint8 s
  (cx, s) ← deserializar_uint8 s
  (dx, s) ← deserializar_uint8 s
  (eax, s) ← deserializar_uint32 s
  (ebx, s) ← deserializar_uint32 s
  (ecx, s) ← deserializar_uint32 s
  (edx, s) ← deserializar_uint32 s
  (si, s) ← deserializar_uint32 s
  (di, s) ← deserializar_uint32 s
  (pc, s) ← deserializar_uint32 s
  some (
    record {
      ax = ax;
      bx = bx;
      cx = cx;
      dx = dx;
      eax = eax;
      ebx = ebx;
      ecx = ecx;
      edx = edx;
      si = si;
      di = di;
      pc = pc;
    },
    s,
  )
