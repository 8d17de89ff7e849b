-- ===== src/Kernel/Garantias/Turno.antt =====
-- Whom the short-term scheduler takes (kernel/src/planificacion/planificacion.c).
use tp_sisop_1c.Kernel.Planificacion.{remover_primero, list_remove}
use tp_sisop_1c.Kernel.Movimientos.Corto.{con_tiempo_inicial-pid}
use tp_sisop_1c.Kernel.Garantias.{
  actualizado, ConEstado, actualizar_estado_pcb-hay, remover_primero-hay, remover_primero,
  list_remove,
}
use tp_sisop_1c.Prelude.{
  [], false, some, none, ◌++◌, ◌∷◌, ◌≡◌, ◌≢◌, List, Option, ◌==◌, refl, true, ◌∙◌, ℕ, ap, arith,
  length, subst, sym, suc, Bool, if◌then◌else◌,
}
use tp_sisop_1c.Kernel.{
  fifo, rr, vrr, invalido, lista_ready, lista_auxiliar, lista_running, exec, despachar, Algoritmo,
  Entorno, Kernel, enviar_paquete, ℤ, Lista, Pcb,
}
use tp_sisop_1c.Kernel.Planificacion.{
  ejecutar_pcb, planificar_segun, planificador_corto_plazo, con_quantum_nuevo, empezar_quantum,
  enviar_siguiente_pcb, escribir, agregar_a_lista_con_semaforos, con_tiempo_inicial, numero,
}
use tp_sisop_1c.Prelude.Opciones.{Si, Si-none, Si-some, ◌>>=◌, de_si}

-- The choice by itself: the list, the process as it will run, and what is left of the list. VRR serves
-- those with quantum left first, and gives a whole quantum to the others.
abbrev pub proximo : Algoritmo → ℤ → List Pcb → List Pcb → Option (Lista × Pcb × List Pcb)
proximo fifo quantum (p ∷ listos) auxiliar = some (lista_ready, p, listos)
proximo rr quantum (p ∷ listos) auxiliar = some (lista_ready, p, listos)
proximo vrr quantum listos (p ∷ auxiliar) = some (lista_auxiliar, p, auxiliar)
proximo vrr quantum (p ∷ listos) [] = some (lista_ready, record p { quantum = quantum }, listos)
proximo _ quantum listos auxiliar = none

no_igual : (m n : ℕ) → m ≢ n → (m == n) ≡ false
no_igual m n h = ground arith

igual_propio : (n : ℕ) → (n == n) ≡ true
igual_propio n = ground arith

no_vacia : (n : ℕ) → (suc n == 0) ≡ false
no_vacia n = ground arith

si_igual : {n : ℕ} → n ≡ 3 → ((n == 3) ≡ false) → ⊥
si_igual {n = n} h k = ground arith

abbrev pub es_rr : Algoritmo → Bool
es_rr rr = true
es_rr _ = false

module _ (e : Entorno) where
  abbrev pub en_ejecucion : ℤ → Pcb → Pcb
  en_ejecucion ahora p = record (con_tiempo_inicial e ahora p) { estado = exec }

  -- The process went from the list to the running one and to the CPU, and nothing else moved.
  pub record Despachado (s s' : Kernel e) (l : Lista) (p : Pcb) (resto : List Pcb) : Type 0 where
    pub quedan : s'.listas l ≡ resto
    pub corre : s'.listas lista_running ≡ s.listas lista_running ++ p ∷ []
    pub otras : (k : Lista) → numero k ≢ numero l → numero k ≢ 3 → s'.listas k ≡ s.listas k
    pub ejecutando : s'.pid_ejecutando ≡ p.pid
    pub enviado : s'.enviados ≡ despachar p ∷ s.enviados

  ejecutar_pcb-Despachado :
      (s : Kernel e) (ahora : ℤ) (l : Lista) (p : Pcb) (resto : List Pcb)
      → (numero l == 3) ≡ false
      → ConEstado p.pid s.estados_procesos
      → (s' : Kernel e) × (ejecutar_pcb e ahora (some (p, escribir e s l resto)) ≡ some s')
        × Despachado s s' l (en_ejecucion ahora p) resto
  unfolding ejecutar_pcb enviar_siguiente_pcb enviar_paquete actualizado
      agregar_a_lista_con_semaforos escribir ◌>>=◌
  ejecutar_pcb-Despachado s ahora l p resto fuera h =
      let q = con_tiempo_inicial e ahora p in
      let (ys, k) =
        actualizar_estado_pcb-hay e (escribir e s l resto) q exec lista_running (
          subst (λ i. ConEstado i s.estados_procesos) (sym (con_tiempo_inicial-pid e ahora p)) h) in
      (
        enviar_siguiente_pcb e (actualizado e (escribir e s l resto) q exec lista_running ys)
            (record q { estado = exec }),
        rw k refl,
        record {
          quedan =
              rw (no_igual 3 (numero l) (λ c. si_igual (sym c) fuera), igual_propio (numero l))
                refl;
          corre = rw fuera refl;
          otras = λ m a b.
              rw
                (
                  no_igual 3 (numero m) (λ c. b (sym c)),
                  no_igual (numero l) (numero m) (λ c. a (sym c)),
                )
                refl;
          ejecutando = refl;
          enviado = refl;
        },
      )

  -- What a turn comes to, when the choice is `c`.
  abbrev pub Turno : Algoritmo → Kernel e → ℤ → Lista × Pcb × List Pcb → Type 0
  Turno a s ahora (l, p, resto) =
      ConEstado p.pid s.estados_procesos
      → (s' : Kernel e) × (planificar_segun e a s ahora ≡ some s')
        × Despachado s s' l (en_ejecucion ahora p) resto

  -- A turn that begins as this one does.
  despacho_igual :
      (a : Algoritmo) (s : Kernel e) (ahora : ℤ) (l : Lista) (p : Pcb) (resto : List Pcb)
      → (numero l == 3) ≡ false
      → planificar_segun e a s ahora ≡ ejecutar_pcb e ahora (some (p, escribir e s l resto))
      → Turno a s ahora (l, p, resto)
  despacho_igual a s ahora l p resto fuera igual con =
      let (s', k, d) = ejecutar_pcb-Despachado s ahora l p resto fuera con in (s', igual ∙ k, d)

  -- Under RR the clock of the quantum is started as well.
  despacho_rr :
      (a : Algoritmo) (s : Kernel e) (ahora : ℤ) (p : Pcb) (resto : List Pcb)
      → planificar_segun e a s ahora
        ≡ empezar_quantum e (ejecutar_pcb e ahora (some (p, escribir e s lista_ready resto)))
      → Turno a s ahora (lista_ready, p, resto)
  unfolding empezar_quantum
  despacho_rr a s ahora p resto igual con =
      let (s', k, d) = ejecutar_pcb-Despachado s ahora lista_ready p resto refl con in
      (
        _,
        igual ∙ ap (empezar_quantum e) k,
        record {
          quedan = d.quedan;
          corre = d.corre;
          otras = d.otras;
          ejecutando = d.ejecutando;
          enviado = d.enviado;
        },
      )

  despacho_segun :
      (a : Algoritmo) (s : Kernel e) (ahora : ℤ) (listos auxiliar : List Pcb)
      → s.listas lista_ready ≡ listos
      → s.listas lista_auxiliar ≡ auxiliar
      → Si (Turno a s ahora) (proximo a e.quantum listos auxiliar)
  unfolding planificar_segun con_quantum_nuevo
  despacho_segun fifo s ahora [] auxiliar h k = Si-none
  despacho_segun fifo s ahora (p ∷ listos) auxiliar h k = Si-some (
      despacho_igual fifo s ahora lista_ready p listos refl (
        rw (ap length h, no_vacia (length listos), remover_primero-hay e s lista_ready p listos h)
          refl))
  despacho_segun rr s ahora [] auxiliar h k = Si-none
  despacho_segun rr s ahora (p ∷ listos) auxiliar h k =
      Si-some
        (despacho_rr rr s ahora p listos (rw (remover_primero-hay e s lista_ready p listos h) refl))
  despacho_segun vrr s ahora listos (p ∷ auxiliar) h k = Si-some (
      despacho_igual vrr s ahora lista_auxiliar p auxiliar refl (
        rw
          (
            ap length k,
            no_vacia (length auxiliar),
            remover_primero-hay e s lista_auxiliar p auxiliar k,
          )
          refl))
  despacho_segun vrr s ahora (p ∷ listos) [] h k = Si-some (
      despacho_igual vrr s ahora lista_ready (record p { quantum = e.quantum }) listos refl
        (rw
          (
            ap length k,
            ap length h,
            no_vacia (length listos),
            remover_primero-hay e s lista_ready p listos h,
          )
          refl))
  despacho_segun vrr s ahora [] [] h k = Si-none
  despacho_segun invalido s ahora listos auxiliar h k = Si-none

  -- When the abstract choice picks a process, which under VRR is the first with part of its
  -- quantum left and else the first that is ready, with a whole quantum, and under FIFO and RR the
  -- first that is ready, the scheduler moves just that one to the running list and sends it to the
  -- CPU, if its state has a place to be written to.
  pub planificador_corto_plazo-proximo :
      (s : Kernel e) (ahora : ℤ) (l : Lista) (p : Pcb) (resto : List Pcb)
      → proximo e.algoritmo e.quantum (s.listas lista_ready) (s.listas lista_auxiliar)
        ≡ some (l, p, resto)
      → ConEstado p.pid s.estados_procesos
      → (s' : Kernel e) × (planificador_corto_plazo e s ahora ≡ some s')
        × Despachado s s' l (en_ejecucion ahora p) resto
  unfolding planificador_corto_plazo
  planificador_corto_plazo-proximo s ahora l p resto h =
      de_si (despacho_segun e.algoritmo s ahora _ _ refl refl) h

  vacio_segun :
      (a : Algoritmo) (s : Kernel e) (ahora : ℤ)
      → s.listas lista_ready ≡ []
      → s.listas lista_auxiliar ≡ []
      → planificar_segun e a s ahora ≡ (if es_rr a then none else some s)
  unfolding planificar_segun remover_primero list_remove empezar_quantum ejecutar_pcb ◌>>=◌
  vacio_segun fifo s ahora h k = rw (ap length h) refl
  vacio_segun rr s ahora h k = rw h refl
  vacio_segun vrr s ahora h k = rw (ap length k, ap length h) refl
  vacio_segun invalido s ahora h k = refl

  -- With nobody ready, and nobody waiting with priority, a turn faults under RR, and under the
  -- other algorithms leaves the state as it is after its waits.
  pub planificador_corto_plazo-vacio :
      (s : Kernel e) (ahora : ℤ)
      → s.listas lista_ready ≡ []
      → s.listas lista_auxiliar ≡ []
      → planificador_corto_plazo e s ahora ≡ (if es_rr e.algoritmo then none else some s)
  unfolding planificador_corto_plazo
  planificador_corto_plazo-vacio s ahora h k = vacio_segun e.algoritmo s ahora h k
