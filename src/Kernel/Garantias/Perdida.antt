-- ===== src/Kernel/Garantias/Perdida.antt =====
-- The turn that is left to nobody when `finalizar_proceso` (kernel/src/planificacion/planificador-largo.c)
-- takes the last ready process away.
use tp_sisop_1c.Kernel.Garantias.{actualizado, ConEstado, actualizar_estado_pcb-hay}
use tp_sisop_1c.Kernel.Garantias.Turno.{es_rr, planificador_corto_plazo-vacio}
use tp_sisop_1c.Kernel.Garantias.Desbloqueo.{
  Ausente, remover_con_pid-medio, remover_con_pid-Ausente,
}
use tp_sisop_1c.Kernel.{
  Texto, fifo, rr, vrr, invalido, lista_new, lista_ready, lista_auxiliar, lista_running, lista_exit,
  exitt, eliminar_de_memoria, Algoritmo, Entorno, Kernel, enviar_paquete, ℤ, Lista, Pcb, EstadoCode,
  Mensaje,
}
use tp_sisop_1c.Kernel.Planificacion.{
  planificador_corto_plazo, tomar_turno, con_turno, escribir, agregar_a_lista_con_semaforos,
}
use tp_sisop_1c.Kernel.Procesos.{
  finalizar_proceso, hayar_pcb, buscar_en_listas, quitado_o, tras_hayar, eliminar_proceso, terminar,
  avisar_a_memoria, proceso_en_running,
}
use tp_sisop_1c.Kernel.Recursos.{
  liberar_recursos_tomados, liberar_todos_los_recursos, dejar_de_esperar,
}
use tp_sisop_1c.Prelude.{
  Option, [], false, some, none, inl, inr, ◌+◌, ◌-◌, ◌∷◌, ◌≡◌, ◌==◌, ◌||◌, List, refl, ◌∙◌, ap,
  arith, Bool-cases, if◌then◌else◌,
}
use tp_sisop_1c.Prelude.Opciones.{◌>>=◌}

module _ (e : Entorno) where
  -- What a turn takes besides the lists, the states and the messages, which it does not look at.
  abbrev con : Kernel e → (Lista → List Pcb) → List EstadoCode → List (Mensaje) → Kernel e
  con s listas estados enviados = record s {
    listas = listas;
    estados_procesos = estados;
    enviados = enviados;
  }

  con_turno-igual :
      (a : Algoritmo) (s t : Kernel e) (ls : Lista → List Pcb) (es : List EstadoCode)
      (ms : List Mensaje)
      → con_turno e a s ≡ some t
      → (u : Kernel e) × (con_turno e a (con s ls es ms) ≡ some u)
        × (u.listas ≡ ls)
        × (u.sem_cpu_free_to_execute ≡ s.sem_cpu_free_to_execute)
  unfolding con_turno
  con_turno-igual fifo s t ls es ms h = (con s ls es ms, refl, refl, refl)
  con_turno-igual vrr s t ls es ms h = (con s ls es ms, refl, refl, refl)
  con_turno-igual invalido s t ls es ms h = (con s ls es ms, refl, refl, refl)
  con_turno-igual rr s t ls es ms h = elim (Bool-cases (s.sem_interruption_quantum == 0)) [
    | inl b ↦ absurd (cc (rw b at h))
    | inr b ↦ (
      record (con s ls es ms) { sem_interruption_quantum = s.sem_interruption_quantum - 1 },
      rw b refl,
      refl,
      refl,
    )
  ]

  tomar_turno-igual :
      (s t : Kernel e) (ls : Lista → List Pcb) (es : List EstadoCode) (ms : List Mensaje)
      → tomar_turno e s ≡ some t
      → (u : Kernel e) × (tomar_turno e (con s ls es ms) ≡ some u)
        × (u.listas ≡ ls)
        × (u.sem_cpu_free_to_execute + 1 ≡ s.sem_cpu_free_to_execute)
  unfolding tomar_turno
  tomar_turno-igual s t ls es ms h =
      elim (Bool-cases (s.sem_cpu_free_to_execute == 0 || s.sem_process_in_ready == 0)) [
        | inl b ↦ absurd (cc (rw b at h))
        | inr b ↦
            let s0 : Kernel e = record s {
              sem_cpu_free_to_execute = s.sem_cpu_free_to_execute - 1;
              sem_process_in_ready = s.sem_process_in_ready - 1;
            } in
            let (u, k, l, c) = con_turno-igual e.algoritmo s0 t ls es ms (rw b at h) in
            (u, rw b k, l, ground (arith, c, b))
      ]

  -- The state after the end of a ready process without resources.
  terminado : Kernel e → Pcb → List EstadoCode → Kernel e
  terminado s p ys =
      enviar_paquete e
        (actualizado e (escribir e s lista_ready []) (record p { recurso_esperando = none }) exitt
          lista_exit ys)
        (eliminar_de_memoria p.pid)

  liberar_nada :
      (s : Kernel e) (p : Pcb)
      → p.recursos_tomados ≡ []
      → p.recurso_esperando ≡ none
      → liberar_recursos_tomados e s p ≡ some (record p { recurso_esperando = none }, s)
  unfolding liberar_recursos_tomados liberar_todos_los_recursos dejar_de_esperar ◌>>=◌
  liberar_nada s p h k =
      let q = record p { recurso_esperando = none } in
      ap
        (λ (o : Option (Kernel e)).
          o >>= λ s'. some (q, dejar_de_esperar e s' p.recurso_esperando p.pid))
        (ap (liberar_todos_los_recursos e s) h)
      ∙ ap (λ (o : Option Texto). some (q, dejar_de_esperar e s o p.pid)) k

  no_corre :
      (s : Kernel e) (p : Pcb)
      → proceso_en_running e s p ≡ false
      → proceso_en_running e (escribir e s lista_ready []) p ≡ false
  unfolding proceso_en_running escribir
  no_corre s p h = h

  finalizar_listo :
      (s : Kernel e) (p : Pcb)
      → s.listas lista_ready ≡ p ∷ []
      → Ausente p.pid (s.listas lista_new)
      → proceso_en_running e s p ≡ false
      → p.recursos_tomados ≡ []
      → p.recurso_esperando ≡ none
      → ConEstado p.pid s.estados_procesos
      → (ys : List EstadoCode) × (finalizar_proceso e s p.pid ≡ some (terminado s p ys))
  unfolding finalizar_proceso hayar_pcb buscar_en_listas quitado_o tras_hayar eliminar_proceso
      terminar avisar_a_memoria terminado
  finalizar_listo s p h n corre r w con =
      let q = record p { recurso_esperando = none } in
      let x = escribir e s lista_ready [] in
      let (ys, k) = actualizar_estado_pcb-hay e x q exitt lista_exit con in
      (
        ys,
        rw (remover_con_pid-Ausente e s lista_new p.pid n) (
            rw (remover_con_pid-medio e s lista_ready p [] [] h tt)
              (rw (no_corre s p corre) (rw (liberar_nada x p r w) (rw k refl)))),
      )

  -- If the one process that is ready is ended from the console, with nobody waiting with priority,
  -- while a turn could be taken, the turn can still be taken afterwards and has nobody to run:
  -- under RR it faults, and under the other algorithms it has used the permit of the CPU up and
  -- nobody has begun to run. The process does not run, is not in NEW too, has no resources, waits
  -- for none and has a place for its state.
  pub finalizar_proceso-turno :
      (s t : Kernel e) (p : Pcb) (ahora : ℤ)
      → s.listas lista_ready ≡ p ∷ []
      → s.listas lista_auxiliar ≡ []
      → Ausente p.pid (s.listas lista_new)
      → proceso_en_running e s p ≡ false
      → p.recursos_tomados ≡ []
      → p.recurso_esperando ≡ none
      → ConEstado p.pid s.estados_procesos
      → tomar_turno e s ≡ some t
      → (s' : Kernel e) × (u : Kernel e) × (finalizar_proceso e s p.pid ≡ some s')
        × (tomar_turno e s' ≡ some u)
        × (planificador_corto_plazo e u ahora ≡ (if es_rr e.algoritmo then none else some u))
        × (u.listas lista_running ≡ s.listas lista_running)
        × (u.sem_cpu_free_to_execute + 1 ≡ s.sem_cpu_free_to_execute)
  unfolding terminado actualizado agregar_a_lista_con_semaforos escribir enviar_paquete
  finalizar_proceso-turno s t p ahora h a n corre r w con turno =
      let (ys, k) = finalizar_listo s p h n corre r w con in
      let s' = terminado s p ys in
      let (u, m, ls, c) = tomar_turno-igual s t s'.listas s'.estados_procesos s'.enviados turno in
      (
        s',
        u,
        k,
        m,
        planificador_corto_plazo-vacio e u ahora (ap (λ f. f lista_ready) ls)
            (ap (λ f. f lista_auxiliar) ls ∙ a),
        ap (λ f. f lista_running) ls,
        c,
      )
