-- ===== src/Kernel/Procesos.antt =====
-- kernel/src/planificacion/planificador-largo.c, and the thread `mover_a_ready` of
-- kernel/src/conexion/conexion.c. `none` is a fault of the C program.
use tp_sisop_1c.Prelude.Opciones.{◌>>=◌}
use tp_sisop_1c.Prelude.Int.{pos, ltb_ℤ}
use tp_sisop_1c.Kernel.Recursos.{liberar_recursos_tomados}
use tp_sisop_1c.Kernel.Planificacion.{
  actualizar_estado_pcb, remover_con_pid, remover_primero, agregar_a_lista_con_semaforos,
  avisar_ready,
}
use tp_sisop_1c.Cpu.Registros.{iniciar_registros}
use tp_sisop_1c.Prelude.{
  [], true, false, some, none, ◌++◌, ◌+◌, ◌-◌, ◌∷◌, ℕ, List, Option, length, Bool, if◌then◌else◌,
  ◌==◌, ◌||◌,
}
use tp_sisop_1c.Kernel.{
  lista_new, lista_ready, lista_blocked, lista_running, lista_exit, lista_auxiliar, new, ready,
  exitt, interrupcion_exit, nuevo_a_memoria, eliminar_de_memoria, Entorno, Kernel, enviar_paquete,
  Pcb, Lista, Texto,
}

unfoldable pub crear_pcb : ℕ → Pcb
unfolding iniciar_registros
crear_pcb ultimo_pid = record {
  pid = ultimo_pid;
  pc = 0;
  quantum = pos 0;
  registros = iniciar_registros;
  recursos_tomados = [];
  recurso_esperando = none;
  estado = new;
  tiempo_inicial = pos 0;
}

unfoldable pub es_el_primero : Pcb → List Pcb → Bool
es_el_primero pcb [] = false
es_el_primero pcb (pcb_en_exec ∷ _) = pcb.pid == pcb_en_exec.pid

module _ (e : Entorno) where
  -- The first process of the running list is the one that runs.
  unfoldable pub proceso_en_running : Kernel e → Pcb → Bool
  unfolding es_el_primero
  proceso_en_running s pcb = es_el_primero pcb (s.listas lista_running)

  unfoldable pub crear_proceso : Kernel e → Texto → Kernel e
  unfolding crear_pcb enviar_paquete agregar_a_lista_con_semaforos
  crear_proceso s ruta_archivo =
      let pcb_nuevo = crear_pcb s.ultimo_pid in
      let s' = record s {
        ultimo_pid = s.ultimo_pid + 1;
        estados_procesos = s.estados_procesos ++ new ∷ [];
      } in
      agregar_a_lista_con_semaforos e
        (enviar_paquete e s' (nuevo_a_memoria pcb_nuevo.pid ruta_archivo)) pcb_nuevo lista_new

  unfoldable pub quitado_o : Option (Pcb × Kernel e) → Option Pcb × Kernel e → Option Pcb × Kernel e
  quitado_o none resto = resto
  quitado_o (some (pcb, s)) resto = (some pcb, s)

  -- The lists that `hayar_pcb` looks through, one after the other. At the end the CPU is told to stop
  -- the process, if it runs.
  unfoldable pub buscar_en_listas : Kernel e → List Lista → ℕ → Option Pcb × Kernel e
  unfolding remover_con_pid enviar_paquete quitado_o
  buscar_en_listas s [] pid =
      (none, if s.pid_ejecutando == pid then enviar_paquete e s (interrupcion_exit pid) else s)
  buscar_en_listas s (l ∷ ls) pid =
      quitado_o (remover_con_pid e s l pid) (buscar_en_listas s ls pid)

  unfoldable pub hayar_pcb : Kernel e → ℕ → Option Pcb × Kernel e
  unfolding buscar_en_listas
  hayar_pcb s pid =
      buscar_en_listas s (lista_new ∷ lista_ready ∷ lista_blocked ∷ lista_auxiliar ∷ []) pid

  unfoldable pub terminar : Option (Pcb × Kernel e) → Option (Kernel e)
  unfolding actualizar_estado_pcb
  terminar none = none
  terminar (some (pcb, s)) = actualizar_estado_pcb e s pcb exitt lista_exit

  unfoldable pub avisar_a_memoria : ℕ → Option (Kernel e) → Option (Kernel e)
  unfolding enviar_paquete
  avisar_a_memoria pid none = none
  avisar_a_memoria pid (some s) = some (enviar_paquete e s (eliminar_de_memoria pid))

  unfoldable pub eliminar_proceso : Kernel e → Pcb → Option (Kernel e)
  unfolding proceso_en_running liberar_recursos_tomados terminar avisar_a_memoria enviar_paquete
  eliminar_proceso s pcb =
      if proceso_en_running s pcb
      then some (enviar_paquete e s (interrupcion_exit pcb.pid))
      else avisar_a_memoria pcb.pid (terminar (liberar_recursos_tomados e s pcb))

  unfoldable pub tras_hayar : Option Pcb × Kernel e → Option (Kernel e)
  unfolding eliminar_proceso
  tras_hayar (none, s) = some s
  tras_hayar (some pcb, s) = eliminar_proceso s pcb

  unfoldable pub finalizar_proceso : Kernel e → ℕ → Option (Kernel e)
  unfolding hayar_pcb tras_hayar
  finalizar_proceso s pid = tras_hayar (hayar_pcb s pid)

  -- The processes that count for the degree of multiprogramming.
  unfoldable pub cantidad_en_sistema : Kernel e → ℕ
  cantidad_en_sistema s =
      length (s.listas lista_ready)
      + length (s.listas lista_running)
      + length (s.listas lista_blocked)
      + length (s.listas lista_auxiliar)

  -- The outer loop of `mover_a_ready`: `none` while no process has been set up in memory, or while the
  -- thread is in its inner loop.
  unfoldable pub empezar_a_mover : Kernel e → Option (Kernel e)
  empezar_a_mover s =
      if s.moviendo || s.sem_proceso_se_creo_en_memoria == 0
      then none
      else some (record s {
        moviendo = true;
        sem_proceso_se_creo_en_memoria = s.sem_proceso_se_creo_en_memoria - 1;
      })

  -- Whoever is first in NEW goes to READY, if there is anyone. With nobody in NEW the mutex of the
  -- list is not given back; `none` while it is taken.
  unfoldable pub admitir : Kernel e → Option (Kernel e)
  unfolding remover_primero actualizar_estado_pcb avisar_ready
  admitir s =
      if s.m_list_new_tomado
      then none
      else if length (s.listas lista_new) == 0
      then some (record s { m_list_new_tomado = true })
      else do
        (pcb, s') ← remover_primero e s lista_new
        avisar_ready e (actualizar_estado_pcb e s' pcb ready lista_ready)

  -- The body of its inner loop, after a permit of sem_grado_multiprogamacion has been taken: a full
  -- system sends the thread to wait for the next one.
  unfoldable pub mover_a_ready : Kernel e → Option (Kernel e)
  unfolding cantidad_en_sistema admitir
  mover_a_ready s =
      let s' = record s { sem_grado_multiprogramacion = s.sem_grado_multiprogramacion - 1 } in
      if ltb_ℤ (pos (cantidad_en_sistema s)) s.grado_multiprogramacion
      then admitir (record s' { moviendo = false })
      else some s'

  -- FIN_CREA_PRO and FIN_TERM_PRO of `atender_memoria`.
  unfoldable pub fin_crea_pro : Kernel e → Kernel e
  fin_crea_pro s = record s {
    sem_proceso_se_creo_en_memoria = s.sem_proceso_se_creo_en_memoria + 1;
  }

  unfoldable pub incrementar_grado_multi : Kernel e → Kernel e
  incrementar_grado_multi s = record s {
    sem_grado_multiprogramacion = s.sem_grado_multiprogramacion + 1;
  }
