-- ===== src/Utils/Codec/Contexto.antt =====
-- utils/codec: the process control block and the context that the cpu gives back with it.
use tp_sisop_1c.Cpu.Registros.{Registros}
use tp_sisop_1c.Cpu.Registros.Aritmetica.{EnRango}
use tp_sisop_1c.Prelude.{
  zero, suc, [], some, none, ◌++◌, ◌<◌, ◌∷◌, ◌≡◌, ℕ, List, Option, length, refl, arith, ◌^◌, sym,
}
use mathlib.Core.List.{append_assoc, append-nil}
use tp_sisop_1c.Utils.Codec.{
  ◌>>=◌, Paquete, Leido, agregar_texto, agregar_var_a_paquete, crear_paquete, bytes, enviar_pcb,
  enviar_contexto_ejecucion, serializar_registros, deserializar_registros, deserializar_bytes,
  deserializar_uint32, deserializar_char, deserializar_texto,
}
use tp_sisop_1c.Utils.Codec.Variables.{
  uint32_lem, texto_lem, deserializar_bytes_lem, deserializar_char_lem,
  deserializar_registros-serializar_registros,
}

-- t_pcb as it travels: a text with its final zero, an `int64_t` by the number its 64 bits stand for
-- without a sign, and the state by its number.
pub record PcbMensaje : Type 0 where
  pub pc : ℕ
  pub pid : ℕ
  pub quantum : ℕ
  pub registros : Registros
  pub recurso_esperando : Option (List ℕ)
  pub recursos_tomados : List (List ℕ)
  pub estado : ℕ
  pub tiempo_inicial : ℕ

-- A text that may be NULL, which is a length of 0.
unfoldable pub serializar_recurso : Paquete → Option (List ℕ) → Paquete
serializar_recurso paq none = agregar_var_a_paquete paq (bytes 4 0)
serializar_recurso paq (some recurso) = agregar_texto paq recurso

unfoldable pub deserializar_recurso_de : ℕ → List ℕ → Leido (Option (List ℕ))
deserializar_recurso_de zero stream = some (none, stream)
deserializar_recurso_de (suc n) stream = do
  (recurso, s) ← deserializar_char (suc n) stream
  some (some recurso, s)

unfoldable pub deserializar_recurso : List ℕ → Leido (Option (List ℕ))
deserializar_recurso stream = do
  (recurso_len, s) ← deserializar_uint32 stream
  deserializar_recurso_de recurso_len s

unfoldable pub agregar_recursos : Paquete → List (List ℕ) → Paquete
agregar_recursos paq [] = paq
agregar_recursos paq (recurso ∷ recursos) = agregar_recursos (agregar_texto paq recurso) recursos

unfoldable pub deserializar_recursos : ℕ → List ℕ → Leido (List (List ℕ))
deserializar_recursos zero stream = some ([], stream)
deserializar_recursos (suc cantidad) stream = do
  (recurso, s) ← deserializar_texto stream
  (recursos, s) ← deserializar_recursos cantidad s
  some (recurso ∷ recursos, s)

unfoldable pub serializar_paquete_pcb : PcbMensaje → Paquete
serializar_paquete_pcb pcb =
    let p = crear_paquete enviar_pcb in
    let p = agregar_var_a_paquete p (bytes 4 pcb.pc) in
    let p = agregar_var_a_paquete p (bytes 4 pcb.pid) in
    let p = agregar_var_a_paquete p (bytes 8 pcb.quantum) in
    let p = serializar_registros p pcb.registros in
    let p = serializar_recurso p pcb.recurso_esperando in
    let p = agregar_var_a_paquete p (bytes 4 (length pcb.recursos_tomados)) in
    let p = agregar_recursos p pcb.recursos_tomados in
    let p = agregar_var_a_paquete p (bytes 4 pcb.estado) in
    agregar_var_a_paquete p (bytes 8 pcb.tiempo_inicial)

unfoldable pub deserializar_int64 : List ℕ → Leido ℕ
deserializar_int64 stream = deserializar_bytes 8 stream

unfoldable pub deserializar_paquete_pcb : List ℕ → Leido PcbMensaje
deserializar_paquete_pcb stream = do
  (pc, s) ← deserializar_uint32 stream
  (pid, s) ← deserializar_uint32 s
  (quantum, s) ← deserializar_int64 s
  (registros, s) ← deserializar_registros s
  (recurso_esperando, s) ← deserializar_recurso s
  (cantidad_recursos, s) ← deserializar_uint32 s
  (recursos_tomados, s) ← deserializar_recursos cantidad_recursos s
  (estado, s) ← deserializar_uint32 s
  (tiempo_inicial, s) ← deserializar_int64 s
  some (
    record {
      pc = pc;
      pid = pid;
      quantum = quantum;
      registros = registros;
      recurso_esperando = recurso_esperando;
      recursos_tomados = recursos_tomados;
      estado = estado;
      tiempo_inicial = tiempo_inicial;
    },
    s,
  )

-- t_contexto_de_ejecucion
pub record ContextoMensaje : Type 0 where
  pub pcb_ejecutado : PcbMensaje
  pub motivo_desalojo : ℕ
  pub recurso : Option (List ℕ)

-- With NULL for the resource.
abbrev pub contexto_sin_recurso : ContextoMensaje → ContextoMensaje
contexto_sin_recurso c = record c { recurso = none }

unfoldable pub serializar_contexto_ejecucion : ContextoMensaje → Paquete
serializar_contexto_ejecucion c =
    let p = record (serializar_paquete_pcb c.pcb_ejecutado) {
      codigo_operacion = enviar_contexto_ejecucion;
    } in
    let p = agregar_var_a_paquete p (bytes 4 c.motivo_desalojo) in serializar_recurso p c.recurso

unfoldable pub deserializar_contexto_ejecucion : List ℕ → Leido ContextoMensaje
deserializar_contexto_ejecucion stream = do
  (pcb, s) ← deserializar_paquete_pcb stream
  (motivo_desalojo, s) ← deserializar_uint32 s
  (recurso, s) ← deserializar_recurso s
  some (record { pcb_ejecutado = pcb; motivo_desalojo = motivo_desalojo; recurso = recurso }, s)

-- A text that is there has its final zero, and its length fits.
unfoldable pub RecursoValido : Option (List ℕ) → Type 0
RecursoValido none = 0 < 1
RecursoValido (some recurso) = (0 < length recurso) × (length recurso < 0x1_0000_0000)

unfoldable pub RecursosValidos : List (List ℕ) → Type 0
RecursosValidos [] = 0 < 1
RecursosValidos (r ∷ rs) = (length r < 0x1_0000_0000) × RecursosValidos rs

-- The values fit in their fields.
pub record PcbMensajeValido (p : PcbMensaje) : Type 0 where
  pub pc : p.pc < 0x1_0000_0000
  pub pid : p.pid < 0x1_0000_0000
  pub quantum : p.quantum < 256 ^ 8
  pub registros : EnRango p.registros
  pub recurso_esperando : RecursoValido p.recurso_esperando
  pub cantidad : length p.recursos_tomados < 0x1_0000_0000
  pub recursos_tomados : RecursosValidos p.recursos_tomados
  pub estado : p.estado < 0x1_0000_0000
  pub tiempo_inicial : p.tiempo_inicial < 256 ^ 8

pub record ContextoMensajeValido (c : ContextoMensaje) : Type 0 where
  pub pcb_ejecutado : PcbMensajeValido c.pcb_ejecutado
  pub motivo_desalojo : c.motivo_desalojo < 0x1_0000_0000
  pub recurso : RecursoValido c.recurso

int64_lem :
    (valor : ℕ)
    → valor < 256 ^ 8
    → (resto : List ℕ) → deserializar_int64 (bytes 8 valor ++ resto) ≡ some (valor, resto)
unfolding deserializar_int64
int64_lem valor h resto = deserializar_bytes_lem 8 valor h resto

-- The bytes that each adds to a package.
bytes_de_recurso : Option (List ℕ) → List ℕ
bytes_de_recurso none = bytes 4 0
bytes_de_recurso (some r) = bytes 4 (length r) ++ r

bytes_de_recursos : List (List ℕ) → List ℕ
bytes_de_recursos [] = []
bytes_de_recursos (r ∷ rs) = (bytes 4 (length r) ++ r) ++ bytes_de_recursos rs

bytes_de_registros : Registros → List ℕ
bytes_de_registros r = (serializar_registros (crear_paquete enviar_pcb) r).stream

serializar_recurso-stream :
    (p : Paquete) (r : Option (List ℕ))
    → (serializar_recurso p r).stream ≡ p.stream ++ bytes_de_recurso r
unfolding serializar_recurso agregar_texto agregar_var_a_paquete bytes_de_recurso
serializar_recurso-stream p none = refl
serializar_recurso-stream p (some r) = append_assoc p.stream _ _

agregar_recursos-stream :
    (p : Paquete) (rs : List (List ℕ))
    → (agregar_recursos p rs).stream ≡ p.stream ++ bytes_de_recursos rs
unfolding agregar_recursos agregar_texto agregar_var_a_paquete bytes_de_recursos
agregar_recursos-stream p [] = sym (append-nil p.stream)
agregar_recursos-stream p (r ∷ rs) =
    rw (agregar_recursos-stream (agregar_texto p r) rs) (simp append_assoc)

serializar_registros-stream :
    (p : Paquete) (r : Registros)
    → (serializar_registros p r).stream ≡ p.stream ++ bytes_de_registros r
unfolding serializar_registros agregar_var_a_paquete crear_paquete bytes_de_registros
serializar_registros-stream p r = simp append_assoc

recurso_de_lem :
    (r resto : List ℕ)
    → 0 < length r
    → deserializar_recurso_de (length r) (r ++ resto) ≡ some (some r, resto)
unfolding deserializar_recurso_de
recurso_de_lem [] resto h = absurd (omega (arith, h))
recurso_de_lem (b ∷ r) resto h = rw (deserializar_char_lem (b ∷ r) resto) refl

recurso_lem :
    (r : Option (List ℕ))
    → RecursoValido r
    → (resto : List ℕ) → deserializar_recurso (bytes_de_recurso r ++ resto) ≡ some (r, resto)
unfolding deserializar_recurso bytes_de_recurso RecursoValido deserializar_recurso_de
recurso_lem none h resto = rw (uint32_lem 0 (omega arith) resto) refl
recurso_lem (some r) (positivo, cabe) resto =
    simp (append_assoc, uint32_lem (length r) cabe (r ++ resto), recurso_de_lem r resto positivo)

recursos_lem :
    (rs : List (List ℕ))
    → RecursosValidos rs
    → (resto : List ℕ)
    → deserializar_recursos (length rs) (bytes_de_recursos rs ++ resto) ≡ some (rs, resto)
unfolding deserializar_recursos bytes_de_recursos RecursosValidos
recursos_lem [] h resto = refl
recursos_lem (r ∷ rs) (cabe, h) resto =
    simp (append_assoc, texto_lem r cabe, recursos_lem rs h resto)

registros_lem :
    (r : Registros)
    → EnRango r
    → (resto : List ℕ) → deserializar_registros (bytes_de_registros r ++ resto) ≡ some (r, resto)
unfolding bytes_de_registros
registros_lem r v resto = deserializar_registros-serializar_registros enviar_pcb r resto v

deserializar_paquete_pcb-serializar_paquete_pcb :
    (p : PcbMensaje) (resto : List ℕ)
    → PcbMensajeValido p
    → deserializar_paquete_pcb ((serializar_paquete_pcb p).stream ++ resto) ≡ some (p, resto)
unfolding deserializar_paquete_pcb serializar_paquete_pcb agregar_var_a_paquete crear_paquete
deserializar_paquete_pcb-serializar_paquete_pcb p resto v = simp (
  agregar_recursos-stream,
  serializar_recurso-stream,
  serializar_registros-stream,
  append_assoc,
  uint32_lem p.pc v.pc,
  uint32_lem p.pid v.pid,
  int64_lem p.quantum v.quantum,
  registros_lem p.registros v.registros,
  recurso_lem p.recurso_esperando v.recurso_esperando,
  uint32_lem (length p.recursos_tomados) v.cantidad,
  recursos_lem p.recursos_tomados v.recursos_tomados,
  uint32_lem p.estado v.estado,
  int64_lem p.tiempo_inicial v.tiempo_inicial,
)

pub deserializar_contexto_ejecucion-serializar_contexto_ejecucion :
    (c : ContextoMensaje) (resto : List ℕ)
    → ContextoMensajeValido c
    → deserializar_contexto_ejecucion ((serializar_contexto_ejecucion c).stream ++ resto)
      ≡ some (c, resto)
unfolding deserializar_contexto_ejecucion serializar_contexto_ejecucion agregar_var_a_paquete
deserializar_contexto_ejecucion-serializar_contexto_ejecucion c resto v = simp (
  serializar_recurso-stream,
  append_assoc,
  deserializar_paquete_pcb-serializar_paquete_pcb c.pcb_ejecutado _ v.pcb_ejecutado,
  uint32_lem c.motivo_desalojo v.motivo_desalojo,
  recurso_lem c.recurso v.recurso,
)
