-- ===== src/Kernel/Tests.antt =====
-- A kernel with a few processes, and the theorems at concrete inputs.
use tp_sisop_1c.Kernel.Planificacion.{es_vrr, tomar_turno, con_turno}
use tp_sisop_1c.Commons.{igual_texto}
use tp_sisop_1c.Prelude.Int.{◌+ℤ◌, int_laws, ltb_ℤ}
use tp_sisop_1c.Kernel.Garantias.Cola.{recurso_decrementar-espera, recurso_incrementar-primero}
use tp_sisop_1c.Cpu.Registros.{iniciar_registros}
use tp_sisop_1c.Kernel.Garantias.Turno.{Despachado, en_ejecucion, planificador_corto_plazo-proximo}
use tp_sisop_1c.Kernel.Garantias.Perdida.{finalizar_proceso-turno}
use tp_sisop_1c.Kernel.Pasos.Alcanzables.{Alcanzable-Ordenado}
use tp_sisop_1c.Kernel.Garantias.Admision.{Cabe, Paso-Cabe}
use tp_sisop_1c.Kernel.Pasos.Invariante.{Ordenado}
use tp_sisop_1c.Prelude.Int.{negsuc, pos, ◌+ℤ◌}
use tp_sisop_1c.Commons.Ejemplo.{textos_ejemplo}
use tp_sisop_1c.Prelude.{refl, [], false, some, none, ◌+◌, ◌∷◌, ◌≡◌, List, Option, ℕ, arith, true}
use tp_sisop_1c.Kernel.{
  Entorno, Kernel, Pcb, Lista, Algoritmo, Recurso, Interfaz, Texto, EstadoCode, lista_ready,
  lista_blocked, lista_running, lista_auxiliar, lista_exit, exitt, fifo, rr, vrr, ready, exec,
  blocked, ready_aux, iniciar_kernel, enviar_paquete, ℤ, exitt,
}
use tp_sisop_1c.Kernel.Procesos.{
  crear_pcb, crear_proceso, fin_crea_pro, empezar_a_mover, mover_a_ready, admitir,
  cantidad_en_sistema, proceso_en_running, es_el_primero, finalizar_proceso,
}
use tp_sisop_1c.Kernel.Planificacion.{
  planificador_corto_plazo, remover_primero, list_remove, escribir, agregar_a_lista_con_semaforos,
  actualizar_estado_pcb, cambiar_estado_pcb, escribir_estado, avisar_ready, desbloquear_proceso,
}
use tp_sisop_1c.Kernel.Recursos.{recursos_init, recurso_incrementar, recurso_decrementar}
use tp_sisop_1c.Kernel.Interfaces.{fin_io}
use tp_sisop_1c.Kernel.Pasos.{
  Paso, Alcanzable, inicio, despues, crear, recibir_fin_crea_pro, empezar_mover, mover,
}
use tp_sisop_1c.Kernel.Garantias.Desbloqueo.{
  con_resto, otro_algoritmo, desbloquear_proceso-Ausente, desbloquear_proceso-Destino,
}
use tp_sisop_1c.Prelude.Opciones.{◌>>=◌}

abbrev entorno : Algoritmo → Entorno
entorno a = record {
  recursos = textos_ejemplo Recurso;
  interfaces = textos_ejemplo Interfaz;
  algoritmo = a;
  quantum = pos 4;
}

abbrev proceso : ℕ → ℤ → EstadoCode → Pcb
proceso pid quantum estado = record {
  pid = pid;
  pc = 0;
  quantum = quantum;
  registros = iniciar_registros;
  recursos_tomados = [];
  recurso_esperando = none;
  estado = estado;
  tiempo_inicial = pos 0;
}

abbrev impresora : Texto
impresora = 82 ∷ 65 ∷ []

-- Process 1 runs, 2 is ready, 3 waits for the resource, and 4 has part of its quantum left.
abbrev repartidos : Lista → List Pcb
repartidos lista_running = proceso 1 (pos 4) exec ∷ []
repartidos lista_ready = proceso 2 (pos 0) ready ∷ []
repartidos lista_blocked = proceso 3 (pos 2) blocked ∷ []
repartidos lista_auxiliar = proceso 4 (pos 1) ready_aux ∷ []
repartidos _ = []

abbrev solo_listo : Lista → List Pcb
solo_listo lista_ready = proceso 2 (pos 0) ready ∷ []
solo_listo lista_exit = proceso 1 (pos 0) exitt ∷ []
solo_listo _ = []

abbrev recurso : Recurso
recurso = record {
  id = impresora;
  instancias = negsuc 0;
  indice_semaforo_asociado_a_recurso = 0;
  bloqueados = 3 ∷ [];
}

abbrev andando : (a : Algoritmo) → Kernel (entorno a)
andando a = record (iniciar_kernel (entorno a) (pos 4)) {
  listas = repartidos;
  estados_procesos = exec ∷ ready ∷ blocked ∷ ready_aux ∷ [];
  ultimo_pid = 5;
  pid_ejecutando = 1;
  dict_recursos = (textos_ejemplo Recurso).put (textos_ejemplo Recurso).create impresora recurso;
}

-- Process 2 is the only one that is ready, and the CPU is free.
abbrev con_uno : Kernel (entorno rr)
con_uno = record (iniciar_kernel (entorno rr) (pos 4)) {
  listas = solo_listo;
  estados_procesos = exitt ∷ ready ∷ [];
  ultimo_pid = 3;
  sem_process_in_ready = 1;
}

-- With room for one process.
abbrev inicial : Kernel (entorno fifo)
inicial = recursos_init (entorno fifo) (iniciar_kernel (entorno fifo) (pos 1)) []

abbrev creado : Kernel (entorno fifo)
creado = fin_crea_pro (entorno fifo) (crear_proceso (entorno fifo) inicial impresora)

abbrev o_igual : Option (Kernel (entorno fifo)) → Kernel (entorno fifo)
o_igual none = inicial
o_igual (some s) = s

abbrev moviendo : Kernel (entorno fifo)
moviendo = o_igual (empezar_a_mover (entorno fifo) creado)

abbrev movido : Kernel (entorno fifo)
movido = o_igual (mover_a_ready (entorno fifo) moviendo)

abbrev llega : Alcanzable (entorno fifo) (pos 1) [] moviendo
unfolding iniciar_kernel recursos_init crear_proceso fin_crea_pro empezar_a_mover
llega =
    despues (despues (despues inicio (crear impresora refl)) recibir_fin_crea_pro)
      (empezar_mover refl)

abbrev se_mueve : Paso (entorno fifo) moviendo movido
unfolding iniciar_kernel recursos_init crear_proceso crear_pcb fin_crea_pro empezar_a_mover
    mover_a_ready cantidad_en_sistema admitir remover_primero list_remove escribir
    agregar_a_lista_con_semaforos actualizar_estado_pcb cambiar_estado_pcb escribir_estado
    avisar_ready enviar_paquete ◌>>=◌
se_mueve = mover refl (omega arith) refl

hay_recurso : (andando fifo).dict_recursos impresora ≡ some recurso
unfolding igual_texto
hay_recurso = refl

falta : ltb_ℤ (negsuc 0 +ℤ negsuc 0) (pos 0) ≡ true
unfolding ◌+ℤ◌
falta = refl

Alcanzable-Ordenado_example : Ordenado (entorno fifo) movido
Alcanzable-Ordenado_example =
    Alcanzable-Ordenado (entorno fifo) (pos 1) [] movido (despues llega se_mueve)

Paso-Cabe_example : Cabe (entorno fifo) moviendo movido
Paso-Cabe_example =
    Paso-Cabe (entorno fifo) moviendo movido
      (Alcanzable-Ordenado (entorno fifo) (pos 1) [] moviendo llega) se_mueve

planificador_corto_plazo-proximo_example :
    (s' : Kernel (entorno vrr)) × (planificador_corto_plazo (entorno vrr) (andando vrr) (pos 9)
      ≡ some s')
    × Despachado
        (entorno vrr)
        (andando vrr)
        s'
        lista_auxiliar
        (en_ejecucion (entorno vrr) (pos 9) (proceso 4 (pos 1) ready_aux))
        []
planificador_corto_plazo-proximo_example =
    planificador_corto_plazo-proximo (entorno vrr) (andando vrr) (pos 9) lista_auxiliar
      (proceso 4 (pos 1) ready_aux) [] refl (omega arith, omega arith)

finalizar_proceso-turno_example :
    (s' : Kernel (entorno rr)) × (u : Kernel (entorno rr)) × (finalizar_proceso
        (entorno rr)
        con_uno
        2
      ≡ some s')
    × (tomar_turno (entorno rr) s' ≡ some u)
    × (planificador_corto_plazo (entorno rr) u (pos 9) ≡ none)
    × (u.listas lista_running ≡ [])
    × (u.sem_cpu_free_to_execute + 1 ≡ con_uno.sem_cpu_free_to_execute)
unfolding iniciar_kernel tomar_turno con_turno proceso_en_running es_el_primero
finalizar_proceso-turno_example =
    finalizar_proceso-turno (entorno rr) con_uno _ (proceso 2 (pos 0) ready) (pos 9) refl refl tt
      refl refl refl (omega arith, omega arith) refl

desbloquear_proceso-Destino_example :
    (s' : Kernel (entorno vrr)) × (desbloquear_proceso (entorno vrr) (andando vrr) 3 ≡ some s')
    × (s'.listas lista_auxiliar ≡ proceso 4 (pos 1) ready_aux ∷ proceso 3 (pos 2) ready_aux ∷ [])
    × (s'.listas lista_blocked ≡ [])
    × (s'.sem_process_in_ready ≡ (andando vrr).sem_process_in_ready + 1)
    × (s'.dict_recursos ≡ (andando vrr).dict_recursos)
desbloquear_proceso-Destino_example =
    desbloquear_proceso-Destino (entorno vrr) (andando vrr) (proceso 3 (pos 2) blocked) [] []
      lista_auxiliar ready_aux refl tt (omega arith, omega arith) (con_resto refl refl refl)

desbloquear_proceso-Ausente_example :
    (desbloquear_proceso (entorno vrr) (andando vrr) 2 ≡ none)
    × (fin_io (entorno vrr) (andando vrr) impresora 2 ≡ none)
desbloquear_proceso-Ausente_example =
    desbloquear_proceso-Ausente (entorno vrr) (andando vrr) 2 impresora (refl, tt)

recurso_incrementar-primero_example :
    (s' : Kernel (entorno fifo)) × (recurso_incrementar (entorno fifo) (andando fifo) impresora
      ≡ some s')
    × (s'.listas lista_ready
        ≡ proceso 2 (pos 0) ready
          ∷ record (proceso 3 (pos 2) ready) {
            recursos_tomados = impresora ∷ [];
            recurso_esperando = none;
          }
          ∷ [])
    × (s'.listas lista_blocked ≡ [])
    × ((textos_ejemplo Recurso).get s'.dict_recursos impresora
        ≡ some (record recurso { instancias = negsuc 0 +ℤ pos 1; bloqueados = [] }))
unfolding es_vrr
recurso_incrementar-primero_example =
    recurso_incrementar-primero (entorno fifo) (andando fifo) impresora recurso
      (proceso 3 (pos 2) blocked) [] [] [] lista_ready ready hay_recurso refl (omega int_laws) refl
      tt (omega arith, omega arith) (otro_algoritmo refl)

recurso_decrementar-espera_example :
    (s' : Kernel (entorno rr)) × (recurso_decrementar
        (entorno rr)
        (andando rr)
        (pos 9)
        impresora
        (proceso 1 (pos 4) exec)
      ≡ some (false, s'))
    × (s'.listas lista_blocked
        ≡ proceso 3 (pos 2) blocked
          ∷ record (proceso 1 (pos 4) blocked) { recurso_esperando = some impresora }
          ∷ [])
    × ((textos_ejemplo Recurso).get s'.dict_recursos impresora
        ≡ some (record recurso { instancias = negsuc 0 +ℤ negsuc 0; bloqueados = 3 ∷ 1 ∷ [] }))
    × (s'.listas lista_running ≡ [])
    × (s'.sem_cpu_free_to_execute ≡ (andando rr).sem_cpu_free_to_execute + 1)
    × (s'.sem_interruption_quantum ≡ (andando rr).sem_interruption_quantum)
recurso_decrementar-espera_example =
    recurso_decrementar-espera (entorno rr) (andando rr) (pos 9) impresora recurso
      (proceso 1 (pos 4) exec) (proceso 1 (pos 4) exec) hay_recurso falta refl refl (refl, tt)
      (omega arith, omega arith)
