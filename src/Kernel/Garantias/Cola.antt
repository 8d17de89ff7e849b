-- ===== src/Kernel/Garantias/Cola.antt =====
-- Whom an instance of a resource wakes, and who waits for one (kernel/src/recursos/recursos.c).
use tp_sisop_1c.Kernel.Planificacion.{agregar_a_lista_con_semaforos}
use tp_sisop_1c.Kernel.Garantias.Desbloqueo.{
  con_resto, otro_algoritmo, entero, agotado, desbloquear_proceso-Destino, remover_con_pid-medio,
}
use tp_sisop_1c.Kernel.Garantias.{
  ConEstado, actualizado, actualizar_estado_pcb-hay, agregar_a_lista_con_semaforos,
}
use tp_sisop_1c.Prelude.Int.{◌+ℤ◌, pos, ◌≤ℤ◌, ltb_ℤ, negsuc}
use tp_sisop_1c.Kernel.Garantias.Desbloqueo.{Ausente, Destino}
use tp_sisop_1c.Commons.{igual_texto}
use tp_sisop_1c.Prelude.{
  refl, [], true, some, ◌++◌, ◌∙◌, ◌∷◌, ◌≡◌, ℕ, List, ◌==◌, ==_iff, ap, if◌then◌else◌, false, arith,
  sym, ◌+◌, none,
}
use tp_sisop_1c.Kernel.{
  lista_blocked, Entorno, Pcb, Kernel, Texto, Recurso, Lista, EstadoCode, ℤ, lista_running, blocked,
}
use tp_sisop_1c.Kernel.Planificacion.{
  escribir, obtener_pcb_con_pid_lista, desbloquear_proceso, bloquear_proceso, descontar_quantum,
}
use tp_sisop_1c.Kernel.Recursos.{
  recurso_incrementar, tras_incrementar, recurso_modificar_instancias, despertar_siguiente,
  recurso_obtener_bloqueado, entregar_recurso, entregar_a, modificar_bloqueado, modificar_pcb,
  con_recurso_tomado, recurso_decrementar, tras_restar, esperar_recurso, recurso_agregar_bloqueado,
  soltar_cpu, encolar,
}
use tp_sisop_1c.Prelude.Opciones.{◌>>=◌}

igual_texto_propio : (t : Texto) → igual_texto t t ≡ true
unfolding igual_texto
igual_texto_propio [] = refl
igual_texto_propio (x ∷ t) = rw ((==_iff x x).1 refl) (igual_texto_propio t)

propio : (pid : ℕ) → (pid == pid) ≡ true
propio pid = (==_iff pid pid).1 refl

obtener_pcb-medio :
    (p : Pcb) (antes despues : List Pcb)
    → Ausente p.pid antes
    → obtener_pcb_con_pid_lista p.pid (antes ++ p ∷ despues) ≡ some p
unfolding obtener_pcb_con_pid_lista
obtener_pcb-medio p [] despues h = rw (propio p.pid) refl
obtener_pcb-medio p (q ∷ antes) despues h = rw (h.0) (obtener_pcb-medio p antes despues (h.1))

modificar_pcb-medio :
    (f : Pcb → Pcb) (pid : ℕ) (p : Pcb) (antes despues : List Pcb)
    → p.pid ≡ pid
    → Ausente pid antes
    → modificar_pcb f pid (antes ++ p ∷ despues) ≡ antes ++ f p ∷ despues
unfolding modificar_pcb
modificar_pcb-medio f pid p [] despues e h = rw ((==_iff p.pid pid).1 e) refl
modificar_pcb-medio f pid p (q ∷ antes) despues e h =
    rw (h.0) (ap (λ xs. q ∷ xs) (modificar_pcb-medio f pid p antes despues e (h.1)))

no_positivo : (n : ℤ) → n ≤ℤ pos 0 → ltb_ℤ (pos 0) n ≡ false
no_positivo n h = ground arith

module _ (e : Entorno) where
  open e use {recursos.{get, put, get-put}}

  get-put_propio : (d : e.recursos.Dict) (r : Texto) (v : Recurso) → get (put d r v) r ≡ some v
  get-put_propio d r v =
      get-put d r r v ∙ ap (λ b. if b then some v else get d r) (igual_texto_propio r)

  abbrev con_una_mas : Kernel e → Texto → Recurso → Kernel e
  con_una_mas s r aux = record s {
    dict_recursos = put s.dict_recursos r (record aux { instancias = aux.instancias +ℤ pos 1 });
  }

  abbrev sin_el_primero : Kernel e → Texto → Recurso → List ℕ → Kernel e
  sin_el_primero s r aux cola = record s {
    dict_recursos = put s.dict_recursos r (record aux { bloqueados = cola });
  }

  incrementa_y_despierta :
      (s : Kernel e) (r : Texto) (aux : Recurso)
      → get s.dict_recursos r ≡ some aux
      → aux.instancias +ℤ pos 1 ≤ℤ pos 0
      → recurso_incrementar e s r ≡ despertar_siguiente e (con_una_mas s r aux) r
  unfolding recurso_incrementar tras_incrementar recurso_modificar_instancias ◌>>=◌
  incrementa_y_despierta s r aux hr hi = rw (hr, no_positivo (aux.instancias +ℤ pos 1) hi) refl

  despierta_al_primero :
      (s : Kernel e) (r : Texto) (aux : Recurso) (pid : ℕ) (cola : List ℕ)
      → get s.dict_recursos r ≡ some aux
      → aux.bloqueados ≡ pid ∷ cola
      → despertar_siguiente e s r ≡ entregar_recurso e (sin_el_primero s r aux cola) r pid
  unfolding despertar_siguiente recurso_obtener_bloqueado ◌>>=◌
  despierta_al_primero s r aux pid cola hr hq = rw (hr, hq) refl

  entrega_al_primero :
      (s : Kernel e) (r : Texto) (p : Pcb) (antes despues : List Pcb)
      → s.listas lista_blocked ≡ antes ++ p ∷ despues
      → Ausente p.pid antes
      → entregar_recurso e s r p.pid
        ≡ desbloquear_proceso e (modificar_bloqueado e s (con_recurso_tomado r) p.pid) p.pid
  unfolding entregar_recurso entregar_a
  entrega_al_primero s r p antes despues hb ha =
      ap (entregar_a e s r p.pid)
        (ap (obtener_pcb_con_pid_lista p.pid) hb ∙ obtener_pcb-medio p antes despues ha)

  bloqueados_tras :
      (s : Kernel e) (r : Texto) (p : Pcb) (antes despues : List Pcb)
      → s.listas lista_blocked ≡ antes ++ p ∷ despues
      → Ausente p.pid antes
      → (modificar_bloqueado e s (con_recurso_tomado r) p.pid).listas lista_blocked
        ≡ antes ++ con_recurso_tomado r p ∷ despues
  unfolding modificar_bloqueado escribir
  bloqueados_tras s r p antes despues hb ha =
      rw hb (modificar_pcb-medio (con_recurso_tomado r) p.pid p antes despues refl ha)

  otras_tras :
      (s : Kernel e) (r : Texto) (pid : ℕ) (l : Lista) (estado : EstadoCode) {p : Pcb}
      → Destino e p l estado
      → (modificar_bloqueado e s (con_recurso_tomado r) pid).listas l ≡ s.listas l
  unfolding modificar_bloqueado escribir
  otras_tras s r pid _ _ (con_resto _ _ _) = refl
  otras_tras s r pid _ _ (otro_algoritmo _) = refl
  otras_tras s r pid _ _ (entero _) = refl
  otras_tras s r pid _ _ (agotado _) = refl

  -- If a process waits for a resource whose instances are not positive after one comes back, the
  -- process at the head of the queue, found among those blocked and with a place for its state,
  -- leaves the queue, holds the resource and is the last of the list it goes to, the instances
  -- being one more.
  pub recurso_incrementar-primero :
      (s : Kernel e) (r : Texto) (aux : Recurso) (p : Pcb) (cola : List ℕ)
      (antes despues : List Pcb) (l : Lista) (estado : EstadoCode)
      → get s.dict_recursos r ≡ some aux
      → aux.bloqueados ≡ p.pid ∷ cola
      → aux.instancias +ℤ pos 1 ≤ℤ pos 0
      → s.listas lista_blocked ≡ antes ++ p ∷ despues
      → Ausente p.pid antes
      → ConEstado p.pid s.estados_procesos
      → Destino e (con_recurso_tomado r p) l estado
      → (s' : Kernel e) × (recurso_incrementar e s r ≡ some s')
        × (s'.listas l
            ≡ s.listas l
              ++ record p {
                recursos_tomados = p.recursos_tomados ++ r ∷ [];
                recurso_esperando = none;
                estado = estado;
              }
                ∷ [])
        × (s'.listas lista_blocked ≡ antes ++ despues)
        × (get s'.dict_recursos r
            ≡ some (record aux { instancias = aux.instancias +ℤ pos 1; bloqueados = cola }))
  unfolding con_recurso_tomado modificar_bloqueado
  recurso_incrementar-primero s r aux p cola antes despues l estado hr hq hi hb ha con d =
      let n = aux.instancias +ℤ pos 1 in
      let t = con_una_mas s r aux in
      let u = sin_el_primero t r (record aux { instancias = n }) cola in
      let v = modificar_bloqueado e u (con_recurso_tomado r) p.pid in
      let (s', k, enl, enb, listo, dict) =
        desbloquear_proceso-Destino e v (con_recurso_tomado r p) antes despues l estado
          (bloqueados_tras u r p antes despues hb ha) ha con d in
      (
        s',
        incrementa_y_despierta s r aux hr hi
            ∙ despierta_al_primero t r (record aux { instancias = n }) p.pid cola
                (get-put_propio s.dict_recursos r _) hq
            ∙ entrega_al_primero u r p antes despues hb ha
            ∙ k,
        enl
            ∙ ap (λ xs. xs ++ record (con_recurso_tomado r p) { estado = estado } ∷ [])
                (otras_tras u r p.pid l estado d),
        enb,
        ap (λ x. get x r) dict ∙ get-put_propio _ r _,
      )

  abbrev con_una_menos : Kernel e → Texto → Recurso → Kernel e
  con_una_menos s r aux = record s {
    dict_recursos = put s.dict_recursos r (record aux { instancias = aux.instancias +ℤ negsuc 0 });
  }

  pide_y_espera :
      (s : Kernel e) (ahora : ℤ) (r : Texto) (aux : Recurso) (q : Pcb)
      → get s.dict_recursos r ≡ some aux
      → ltb_ℤ (aux.instancias +ℤ negsuc 0) (pos 0) ≡ true
      → recurso_decrementar e s ahora r q ≡ esperar_recurso e (con_una_menos s r aux) ahora r q
  unfolding recurso_decrementar tras_restar recurso_modificar_instancias ◌>>=◌
  pide_y_espera s ahora r aux q hr hi = rw (hr, hi) refl

  bloqueado : Kernel e → Pcb → List EstadoCode → Kernel e
  bloqueado s q ys =
      actualizado e (escribir e (record s { pid_ejecutando = 0 }) lista_running []) q blocked
        lista_blocked ys

  bloquear_el_que_corre :
      (s : Kernel e) (ahora : ℤ) (p q : Pcb)
      → s.listas lista_running ≡ p ∷ []
      → p.pid ≡ q.pid
      → ConEstado q.pid s.estados_procesos
      → (ys : List EstadoCode) × (bloquear_proceso e s ahora q false ≡ some (bloqueado s q ys))
  unfolding bloquear_proceso descontar_quantum bloqueado ◌>>=◌
  bloquear_el_que_corre s ahora p q hc hp con =
      let t : Kernel e = record s { pid_ejecutando = 0 } in
      let (ys, k) =
        actualizar_estado_pcb-hay e (escribir e t lista_running []) q blocked lista_blocked con in
      (ys, rw (sym hp) (rw (remover_con_pid-medio e t lista_running p [] [] hc tt) (rw hp k)))

  -- The queue and the process, when it is the last of those blocked.
  encola_al_ultimo :
      (s : Kernel e) (r : Texto) (aux : Recurso) (q : Pcb) (antes : List Pcb)
      → get s.dict_recursos r ≡ some aux
      → s.listas lista_blocked ≡ antes ++ q ∷ []
      → Ausente q.pid antes
      → let s' = recurso_agregar_bloqueado e s r q.pid in
        (s'.listas lista_blocked ≡ antes ++ record q { recurso_esperando = some r } ∷ [])
        × (get s'.dict_recursos r ≡ some (record aux { bloqueados = aux.bloqueados ++ q.pid ∷ [] }))
        × (s'.listas lista_running ≡ s.listas lista_running)
        × (s'.sem_cpu_free_to_execute ≡ s.sem_cpu_free_to_execute)
        × (s'.sem_interruption_quantum ≡ s.sem_interruption_quantum)
  unfolding recurso_agregar_bloqueado encolar modificar_bloqueado escribir
  encola_al_ultimo s r aux q antes hr hb ha = rw hr (
    ap (modificar_pcb (λ p. record p { recurso_esperando = some r }) q.pid) hb
        ∙ modificar_pcb-medio (λ p. record p { recurso_esperando = some r }) q.pid q antes [] refl
            ha,
    get-put_propio s.dict_recursos r _,
    refl,
    refl,
    refl,
  )

  -- A request for a resource without instances by the one process that runs, not blocked already
  -- and with a place for its state, answers false, blocks it, puts it last in the queue and frees
  -- the CPU, but gives no permit of sem_interruption_quantum back.
  pub recurso_decrementar-espera :
      (s : Kernel e) (ahora : ℤ) (r : Texto) (aux : Recurso) (p q : Pcb)
      → get s.dict_recursos r ≡ some aux
      → ltb_ℤ (aux.instancias +ℤ negsuc 0) (pos 0) ≡ true
      → s.listas lista_running ≡ p ∷ []
      → p.pid ≡ q.pid
      → Ausente q.pid (s.listas lista_blocked)
      → ConEstado q.pid s.estados_procesos
      → (s' : Kernel e) × (recurso_decrementar e s ahora r q ≡ some (false, s'))
        × (s'.listas lista_blocked
            ≡ s.listas lista_blocked
              ++ record q { estado = blocked; recurso_esperando = some r } ∷ [])
        × (get s'.dict_recursos r
            ≡ some (record aux {
              instancias = aux.instancias +ℤ negsuc 0;
              bloqueados = aux.bloqueados ++ q.pid ∷ [];
            }))
        × (s'.listas lista_running ≡ [])
        × (s'.sem_cpu_free_to_execute ≡ s.sem_cpu_free_to_execute + 1)
        × (s'.sem_interruption_quantum ≡ s.sem_interruption_quantum)
  unfolding esperar_recurso soltar_cpu bloqueado actualizado agregar_a_lista_con_semaforos escribir
      ◌>>=◌
  recurso_decrementar-espera s ahora r aux p q hr hi hc hp ha con =
      let t = con_una_menos s r aux in
      let (ys, k) = bloquear_el_que_corre t ahora p q hc hp con in
      let u = bloqueado t q ys in
      let (enb, dict, corre, cpu, turno) =
        encola_al_ultimo u r (record aux { instancias = aux.instancias +ℤ negsuc 0 })
          (record q { estado = blocked }) (s.listas lista_blocked)
          (get-put_propio s.dict_recursos r _) refl ha in
      (
        soltar_cpu e (recurso_agregar_bloqueado e u r q.pid),
        pide_y_espera s ahora r aux q hr hi ∙ rw k refl,
        enb,
        dict,
        corre,
        ap (λ (c : ℕ). c + 1) cpu,
        turno,
      )
