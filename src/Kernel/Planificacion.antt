-- ===== src/Kernel/Planificacion.antt =====
-- kernel/src/planificacion/planificacion.c: the lists of processes and the short-term scheduler.
-- `none` is a fault of the C program: a read through the NULL that a list answers for an index that it
-- does not have. The semaphores sem_planificacion and sem_planificacion_largo that an operation
-- waits on and posts again are guards of its step; logging is left out.
use tp_sisop_1c.Prelude.Opciones.{◌>>=◌}
use tp_sisop_1c.Prelude.Int.{◌-ℤ◌, ltb_ℤ, pos}
use tp_sisop_1c.Kernel.{
  lista_new, lista_ready, lista_blocked, lista_running, lista_exit, lista_auxiliar, rr, vrr, fifo,
  invalido, exec, ready, ready_aux, blocked, despachar, interrupcion,
}
use tp_sisop_1c.Kernel.{
  EstadoCode, Lista, Pcb, Algoritmo, Entorno, Kernel, enviar_paquete, ℤ, despachar,
}
use tp_sisop_1c.Prelude.{
  zero, suc, [], true, false, some, none, ◌++◌, ◌∷◌, List, ℕ, Option, get_elem?, if◌then◌else◌,
  erase_idx, ◌==◌, Bool, ◌+◌, ◌-◌, length, ◌&&◌, ◌||◌,
}

-- The position of a list in the order of main.h.
abbrev pub numero : Lista → ℕ
numero lista_new = 0
numero lista_ready = 1
numero lista_blocked = 2
numero lista_running = 3
numero lista_exit = 4
numero lista_auxiliar = 5

-- `none` is the answer -1. An element is known by the number it begins with.
unfoldable pub obtener_index {ℓ} : {A : Type ℓ} → (A → ℕ) → List A → ℕ → Option ℕ
obtener_index clave [] pid = none
obtener_index clave (x ∷ xs) pid = elim (obtener_index clave xs pid) [
  | none ↦ if clave x == pid then some 0 else none
  | some i ↦ if clave x == pid then some 0 else some (suc i)
]

-- `list_remove` at the index that `obtener_index` answers: the element, and the other ones.
unfoldable pub list_remove {ℓ} : {A : Type ℓ} → List A → Option ℕ → Option (A × List A)
list_remove xs none = none
list_remove xs (some i) = do x ← get_elem? xs i; some (x, erase_idx xs i)

unfoldable pub obtener_pcb_con_pid_lista : ℕ → List Pcb → Option Pcb
obtener_pcb_con_pid_lista pid [] = none
obtener_pcb_con_pid_lista pid (p ∷ ps) =
    if p.pid == pid then some p else obtener_pcb_con_pid_lista pid ps

-- What `list_get` answers at `pid - 1` is written to; at no index there is nothing to write to.
unfoldable pub escribir_estado : List EstadoCode → ℕ → EstadoCode → Option (List EstadoCode)
escribir_estado [] i estado = none
escribir_estado (_ ∷ xs) (suc zero) estado = some (estado ∷ xs)
escribir_estado (_ ∷ xs) zero estado = none
escribir_estado (x ∷ xs) (suc (suc i)) estado = do
  ys ← escribir_estado xs (suc i) estado
  some (x ∷ ys)

-- Whether the next turn is limited by the quantum that is left.
unfoldable pub es_vrr : Algoritmo → Bool
es_vrr vrr = true
es_vrr _ = false

unfoldable pub es_rr_o_vrr : Algoritmo → Bool
es_rr_o_vrr rr = true
es_rr_o_vrr vrr = true
es_rr_o_vrr _ = false

module _ (e : Entorno) where
  -- `*list = xs`.
  unfoldable pub escribir : Kernel e → Lista → List Pcb → Kernel e
  escribir s l xs = record s { listas = λ k. if numero l == numero k then xs else s.listas k }

  unfoldable pub agregar_a_lista_con_semaforos : Kernel e → Pcb → Lista → Kernel e
  unfolding escribir
  agregar_a_lista_con_semaforos s pcb l = escribir s l (s.listas l ++ pcb ∷ [])

  -- The second place that holds the state of a process; the first is the pcb itself.
  unfoldable pub cambiar_estado_pcb : Kernel e → Pcb → EstadoCode → Option (Kernel e)
  unfolding escribir_estado
  cambiar_estado_pcb s pcb nuevo_estado = do
    estados ← escribir_estado s.estados_procesos pcb.pid nuevo_estado
    some (record s { estados_procesos = estados })

  unfoldable pub actualizar_estado_pcb : Kernel e → Pcb → EstadoCode → Lista → Option (Kernel e)
  unfolding cambiar_estado_pcb agregar_a_lista_con_semaforos
  actualizar_estado_pcb s pcb state l = do
    s' ← cambiar_estado_pcb s pcb state
    some (agregar_a_lista_con_semaforos s' (record pcb { estado = state }) l)

  -- `list_remove(lista, 0)`.
  unfoldable pub remover_primero : Kernel e → Lista → Option (Pcb × Kernel e)
  unfolding list_remove escribir
  remover_primero s l = do
    (pcb, resto) ← list_remove (s.listas l) (some 0)
    some (pcb, escribir s l resto)

  -- `list_remove(lista, obtener_index(lista, pid))`.
  unfoldable pub remover_con_pid : Kernel e → Lista → ℕ → Option (Pcb × Kernel e)
  unfolding list_remove obtener_index escribir
  remover_con_pid s l pid = do
    (pcb, resto) ← list_remove (s.listas l) (obtener_index (λ p. p.pid) (s.listas l) pid)
    some (pcb, escribir s l resto)

  -- The pcb that is sent is the one that was put in the running list: the time goes into both.
  unfoldable pub con_tiempo_inicial : ℤ → Pcb → Pcb
  unfolding es_vrr
  con_tiempo_inicial ahora pcb =
      if es_vrr (e.algoritmo) then record pcb { tiempo_inicial = ahora } else pcb

  -- What `enviar_siguiente_pcb` does after the time is set.
  unfoldable pub enviar_siguiente_pcb : Kernel e → Pcb → Kernel e
  unfolding enviar_paquete
  enviar_siguiente_pcb s pcb =
      enviar_paquete e (record s { pid_ejecutando = pcb.pid }) (despachar pcb)

  -- From the removal of a process on: to the running list, and to the CPU.
  unfoldable pub ejecutar_pcb : ℤ → Option (Pcb × Kernel e) → Option (Kernel e)
  unfolding actualizar_estado_pcb con_tiempo_inicial enviar_siguiente_pcb
  ejecutar_pcb ahora none = none
  ejecutar_pcb ahora (some (pcb, s)) =
      let pcb' = con_tiempo_inicial ahora pcb in
      do
        s' ← actualizar_estado_pcb s pcb' exec lista_running
        some (enviar_siguiente_pcb s' (record pcb' { estado = exec }))

  unfoldable pub con_quantum_nuevo : Option (Pcb × Kernel e) → Option (Pcb × Kernel e)
  con_quantum_nuevo none = none
  con_quantum_nuevo (some (pcb, s)) = some (record pcb { quantum = e.quantum }, s)

  unfoldable pub empezar_quantum : Option (Kernel e) → Option (Kernel e)
  empezar_quantum none = none
  empezar_quantum (some s) = some (record s { sem_beggin_quantum = s.sem_beggin_quantum + 1 })

  -- The body of the loop of `planificadorCortoPlazo`, after its waits. Under VRR the thread then
  -- counts the quantum itself.
  unfoldable pub planificar_segun : Algoritmo → Kernel e → ℤ → Option (Kernel e)
  unfolding remover_primero ejecutar_pcb con_quantum_nuevo empezar_quantum
  planificar_segun fifo s ahora =
      if length (s.listas lista_ready) == 0
      then some s
      else ejecutar_pcb ahora (remover_primero s lista_ready)
  planificar_segun rr s ahora = empezar_quantum (ejecutar_pcb ahora (remover_primero s lista_ready))
  planificar_segun vrr s ahora =
      if length (s.listas lista_auxiliar) == 0
      then if length (s.listas lista_ready) == 0
        then some s
        else ejecutar_pcb ahora (con_quantum_nuevo (remover_primero s lista_ready))
      else ejecutar_pcb ahora (remover_primero s lista_auxiliar)
  planificar_segun invalido s ahora = some s

  unfoldable pub planificador_corto_plazo : Kernel e → ℤ → Option (Kernel e)
  unfolding planificar_segun
  planificador_corto_plazo s ahora = planificar_segun e.algoritmo s ahora

  -- Under RR the thread also waits until the previous turn is over.
  unfoldable pub con_turno : Algoritmo → Kernel e → Option (Kernel e)
  con_turno rr s =
      if s.sem_interruption_quantum == 0
      then none
      else some (record s { sem_interruption_quantum = s.sem_interruption_quantum - 1 })
  con_turno fifo s = some s
  con_turno vrr s = some s
  con_turno invalido s = some s

  -- The waits of `planificadorCortoPlazo` before it takes a process. `none` is a thread that sleeps.
  unfoldable pub tomar_turno : Kernel e → Option (Kernel e)
  unfolding con_turno
  tomar_turno s =
      if s.sem_cpu_free_to_execute == 0 || s.sem_process_in_ready == 0
      then none
      else con_turno e.algoritmo (record s {
        sem_cpu_free_to_execute = s.sem_cpu_free_to_execute - 1;
        sem_process_in_ready = s.sem_process_in_ready - 1;
      })

  unfoldable pub interrumpir_proceso : Kernel e → ℕ → Kernel e
  unfolding enviar_paquete
  interrumpir_proceso s pid =
      let s' = enviar_paquete e s (interrupcion pid) in
      record s' { sem_interruption_quantum = s'.sem_interruption_quantum + 1 }

  -- The end of the quantum that began when `pid_inicial` was running, in either counter.
  unfoldable pub fin_de_quantum : Kernel e → ℕ → Kernel e
  unfolding interrumpir_proceso
  fin_de_quantum s pid_inicial =
      if pid_inicial == s.pid_ejecutando then interrumpir_proceso s s.pid_ejecutando else s

  -- Of a process that blocks for an interface VRR keeps the quantum that is left.
  unfoldable pub descontar_quantum : Bool → ℤ → Pcb → Pcb
  unfolding es_vrr
  descontar_quantum es_io ahora pcb =
      if es_io && es_vrr e.algoritmo
      then record pcb { quantum = pcb.quantum -ℤ (ahora -ℤ pcb.tiempo_inicial) }
      else pcb

  unfoldable pub bloquear_proceso : Kernel e → ℤ → Pcb → Bool → Option (Kernel e)
  unfolding remover_con_pid actualizar_estado_pcb descontar_quantum
  bloquear_proceso s ahora pcb es_io = do
    (_, s') ← remover_con_pid (record s { pid_ejecutando = 0 }) lista_running pcb.pid
    actualizar_estado_pcb s' (descontar_quantum es_io ahora pcb) blocked lista_blocked

  -- Whether an unblocked process goes to the list with priority.
  unfoldable pub con_prioridad : Pcb → Bool
  unfolding es_vrr
  con_prioridad pcb = es_vrr e.algoritmo && ltb_ℤ pcb.quantum e.quantum && ltb_ℤ (pos 0) pcb.quantum

  unfoldable pub avisar_ready : Option (Kernel e) → Option (Kernel e)
  avisar_ready none = none
  avisar_ready (some s) = some (record s { sem_process_in_ready = s.sem_process_in_ready + 1 })

  unfoldable pub desbloquear_proceso : Kernel e → ℕ → Option (Kernel e)
  unfolding remover_con_pid actualizar_estado_pcb con_prioridad avisar_ready
  desbloquear_proceso s pid = do
    (pcb, s') ← remover_con_pid s lista_blocked pid
    avisar_ready (
        if con_prioridad pcb
        then actualizar_estado_pcb s' pcb ready_aux lista_auxiliar
        else actualizar_estado_pcb s' pcb ready lista_ready)
