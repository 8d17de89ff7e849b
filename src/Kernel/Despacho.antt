-- ===== src/Kernel/Despacho.antt =====
-- `atender_cpu_dispatch` of kernel/src/conexion/conexion.c: what the kernel does with a process that
-- the CPU gives back. `pcb` is the copy that the CPU sends, which takes the place of the one in
-- the running list. `none` is a fault of the C program.
use tp_sisop_1c.Prelude.Opciones.{◌>>=◌}
use tp_sisop_1c.Kernel.Procesos.{avisar_a_memoria, eliminar_proceso}
use tp_sisop_1c.Kernel.Interfaces.{enviar_trabajo}
use tp_sisop_1c.Kernel.Recursos.{
  liberar_recursos_tomados, obtener_index_recurso, recurso_decrementar, recurso_existe,
  recurso_incrementar, soltar_cpu,
}
use tp_sisop_1c.Kernel.Planificacion.{
  bloquear_proceso, es_rr_o_vrr, remover_primero, actualizar_estado_pcb,
  agregar_a_lista_con_semaforos, avisar_ready, enviar_siguiente_pcb,
}
use tp_sisop_1c.Prelude.{
  [], true, false, some, none, ◌++◌, ◌+◌, ◌∷◌, Bool, Option, if◌then◌else◌, ℕ, erase_idx,
}
use tp_sisop_1c.Kernel.{
  lista_ready, lista_running, lista_exit, ready, exitt, io_gen_sleep, io_stdin_read,
  io_stdout_write, io_fs_create, io_fs_delete, io_fs_truncate, io_fs_write, io_fs_read, Entorno,
  Texto, Kernel, Pcb, ℤ, DireccionFisica, Trabajo, Registro,
}

-- motivo_desalojo, of the reasons with which ENVIAR_CONTEXTO_EJECUCION comes. The last two carry the
-- name of a resource.
pub data MotivoDesalojo : Type 0 where
  interrupcion_de_quantum terminar_proceso out_of_memory_error : MotivoDesalojo
  motivo_wait motivo_signal : Texto → MotivoDesalojo

module _ (e : Entorno) where
  open e use {interfaces.{get}}

  unfoldable pub existe_interfaz : Kernel e → Texto → Bool
  existe_interfaz s interfaz = elim (get s.dict_interfaces interfaz) [
    | none ↦ false
    | some _ ↦ true
  ]

  -- The first of the running list goes, and the process ends.
  unfoldable pub expulsar : Kernel e → Pcb → Option (Kernel e)
  unfolding remover_primero eliminar_proceso
  expulsar s pcb = do (_, s') ← remover_primero e s lista_running; eliminar_proceso e s' pcb

  unfoldable pub soltar_turno : Kernel e → Kernel e
  unfolding es_rr_o_vrr
  soltar_turno s =
      if es_rr_o_vrr e.algoritmo
      then record s {
        pid_ejecutando = 0;
        sem_interruption_quantum = s.sem_interruption_quantum + 1;
      }
      else record s { pid_ejecutando = 0 }

  unfoldable pub bloquear_por_io : Kernel e → ℤ → Pcb → Texto → Trabajo → Option (Kernel e)
  unfolding bloquear_proceso enviar_trabajo soltar_turno
  bloquear_por_io s ahora pcb interfaz trabajo = do
    s' ← bloquear_proceso e s ahora pcb true
    s'' ← enviar_trabajo e s' interfaz trabajo pcb.pid
    some (soltar_turno s'')

  unfoldable pub con_cpu_libre : Option (Kernel e) → Option (Kernel e)
  unfolding soltar_cpu
  con_cpu_libre none = none
  con_cpu_libre (some s) = some (soltar_cpu e s)

  -- What the cases INSTRUCCION_IO_... do alike.
  unfoldable pub instruccion_io : Kernel e → ℤ → Pcb → Texto → Trabajo → Option (Kernel e)
  unfolding existe_interfaz expulsar bloquear_por_io con_cpu_libre
  instruccion_io s ahora pcb interfaz trabajo = con_cpu_libre (
      if existe_interfaz s interfaz
      then bloquear_por_io s ahora pcb interfaz trabajo
      else expulsar s pcb)

  unfoldable pub instruccion_io_gen_sleep : Kernel e → ℤ → Pcb → Texto → ℕ → Option (Kernel e)
  unfolding instruccion_io
  instruccion_io_gen_sleep s ahora pcb interfaz unidades_de_trabajo =
      instruccion_io s ahora pcb interfaz (io_gen_sleep unidades_de_trabajo)

  unfoldable pub instruccion_io_stdin_read :
      Kernel e → ℤ → Pcb → Texto → DireccionFisica → Registro → Option (Kernel e)
  unfolding instruccion_io
  instruccion_io_stdin_read s ahora pcb interfaz dir_fisica tamanio =
      instruccion_io s ahora pcb interfaz (io_stdin_read dir_fisica tamanio)

  unfoldable pub instruccion_io_stdout_write :
      Kernel e → ℤ → Pcb → Texto → DireccionFisica → ℕ → Option (Kernel e)
  unfolding instruccion_io
  instruccion_io_stdout_write s ahora pcb interfaz dir_fisica tamanio =
      instruccion_io s ahora pcb interfaz (io_stdout_write dir_fisica tamanio)

  unfoldable pub instruccion_io_fs_create : Kernel e → ℤ → Pcb → Texto → Texto → Option (Kernel e)
  unfolding instruccion_io
  instruccion_io_fs_create s ahora pcb interfaz nombre_archivo =
      instruccion_io s ahora pcb interfaz (io_fs_create nombre_archivo)

  unfoldable pub instruccion_io_fs_delete : Kernel e → ℤ → Pcb → Texto → Texto → Option (Kernel e)
  unfolding instruccion_io
  instruccion_io_fs_delete s ahora pcb interfaz nombre_archivo =
      instruccion_io s ahora pcb interfaz (io_fs_delete nombre_archivo)

  unfoldable pub instruccion_io_fs_truncate :
      Kernel e → ℤ → Pcb → Texto → Texto → ℕ → Option (Kernel e)
  unfolding instruccion_io
  instruccion_io_fs_truncate s ahora pcb interfaz nombre_archivo tam =
      instruccion_io s ahora pcb interfaz (io_fs_truncate nombre_archivo tam)

  unfoldable pub instruccion_io_fs_read :
      Kernel e → ℤ → Pcb → Texto → Texto → DireccionFisica → ℕ → ℕ → Option (Kernel e)
  unfolding instruccion_io
  instruccion_io_fs_read s ahora pcb interfaz nombre_archivo dir_fis tam posicion_archivo =
      instruccion_io s ahora pcb interfaz (io_fs_read nombre_archivo dir_fis tam posicion_archivo)

  unfoldable pub instruccion_io_fs_write :
      Kernel e → ℤ → Pcb → Texto → Texto → DireccionFisica → ℕ → ℕ → Option (Kernel e)
  unfolding instruccion_io
  instruccion_io_fs_write s ahora pcb interfaz nombre_archivo dir_fis tam posicion_archivo =
      instruccion_io s ahora pcb interfaz (io_fs_write nombre_archivo dir_fis tam posicion_archivo)

  -- INTERRUPCION: the end of the quantum.
  unfoldable pub desalojar : Kernel e → Pcb → Option (Kernel e)
  unfolding remover_primero actualizar_estado_pcb avisar_ready con_cpu_libre
  desalojar s pcb = do
    (_, s') ← remover_primero e s lista_running
    con_cpu_libre (avisar_ready e (actualizar_estado_pcb e s' pcb ready lista_ready))

  -- TERMINAR_PROCESO and OUT_OF_MEMORY_ERROR.
  unfoldable pub terminar_ejecutado : Kernel e → Pcb → Option (Kernel e)
  unfolding liberar_recursos_tomados remover_primero actualizar_estado_pcb avisar_a_memoria
      con_cpu_libre
  terminar_ejecutado s pcb = do
    (pcb', s') ← liberar_recursos_tomados e s pcb
    (_, s'') ← remover_primero e s' lista_running
    con_cpu_libre (avisar_a_memoria e pcb.pid (actualizar_estado_pcb e s'' pcb' exitt lista_exit))

  -- The process that made the request goes on.
  unfoldable pub continuar : Kernel e → Pcb → Option (Kernel e)
  unfolding remover_primero agregar_a_lista_con_semaforos enviar_siguiente_pcb
  continuar s pcb = do
    (_, s') ← remover_primero e s lista_running
    some (enviar_siguiente_pcb e (agregar_a_lista_con_semaforos e s' pcb lista_running) pcb)

  unfoldable pub sin_indice : Pcb → Option ℕ → Pcb
  sin_indice pcb none = pcb
  sin_indice pcb (some i) = record pcb { recursos_tomados = erase_idx pcb.recursos_tomados i }

  -- Its own list without the first mention of the resource, if there is one.
  unfoldable pub sin_recurso : Texto → Pcb → Pcb
  unfolding obtener_index_recurso sin_indice
  sin_recurso recurso pcb = sin_indice pcb (obtener_index_recurso pcb.recursos_tomados recurso)

  unfoldable pub recibir_contexto_ejecucion_motivo_signal :
      Kernel e → Pcb → Texto → Option (Kernel e)
  unfolding recurso_incrementar sin_recurso continuar
  recibir_contexto_ejecucion_motivo_signal s pcb recurso = do
    s' ← recurso_incrementar e s recurso
    continuar s' (sin_recurso recurso pcb)

  unfoldable pub tras_decrementar : Pcb → Texto → Bool × Kernel e → Option (Kernel e)
  unfolding continuar
  tras_decrementar pcb recurso (true, s) =
      continuar s (record pcb { recursos_tomados = pcb.recursos_tomados ++ recurso ∷ [] })
  tras_decrementar pcb recurso (false, s) = some s

  unfoldable pub recibir_contexto_ejecucion_motivo_wait :
      Kernel e → ℤ → Pcb → Texto → Option (Kernel e)
  unfolding recurso_decrementar tras_decrementar
  recibir_contexto_ejecucion_motivo_wait s ahora pcb recurso =
      recurso_decrementar e s ahora recurso pcb >>= tras_decrementar pcb recurso

  unfoldable pub contexto_ejecucion : Kernel e → ℤ → Pcb → MotivoDesalojo → Option (Kernel e)
  unfolding desalojar terminar_ejecutado recurso_existe expulsar con_cpu_libre
      recibir_contexto_ejecucion_motivo_signal recibir_contexto_ejecucion_motivo_wait
  contexto_ejecucion s ahora pcb interrupcion_de_quantum = desalojar s pcb
  contexto_ejecucion s ahora pcb terminar_proceso = terminar_ejecutado s pcb
  contexto_ejecucion s ahora pcb out_of_memory_error = terminar_ejecutado s pcb
  contexto_ejecucion s ahora pcb (motivo_signal recurso) =
      if recurso_existe e s recurso
      then recibir_contexto_ejecucion_motivo_signal s pcb recurso
      else con_cpu_libre (expulsar s pcb)
  contexto_ejecucion s ahora pcb (motivo_wait recurso) =
      if recurso_existe e s recurso
      then recibir_contexto_ejecucion_motivo_wait s ahora pcb recurso
      else con_cpu_libre (expulsar s pcb)
