-- ===== src/Kernel/Movimientos/Corto.antt =====
-- The moves of the short-term scheduler (kernel/src/planificacion/planificacion.c).
use tp_sisop_1c.Kernel.{
  blocked, ready, ready_aux, fifo, rr, vrr, invalido, lista_blocked, lista_ready, lista_auxiliar,
  EstadoCode,
}
use tp_sisop_1c.Kernel.Movimientos.{
  Cambio, actualizar_estado_pcb-Cambio, Cambio-resto, Cambio-trans, Si-mono, remover_primero-Cambio,
  nada-Cambio, remover_con_pid-Cambio, remover_con_pid_propio-Cambio, actualizar_estado_pcb,
}
use tp_sisop_1c.Kernel.Planificacion.{
  con_tiempo_inicial, descontar_quantum, ejecutar_pcb, enviar_siguiente_pcb, es_vrr, avisar_ready,
  bloquear_proceso, con_quantum_nuevo, desbloquear_proceso, empezar_quantum, planificar_segun,
  con_prioridad,
}
use tp_sisop_1c.Prelude.{
  refl, some, none, inl, inr, ◌≡◌, ℕ, Bool, Bool-cases, ◌&&◌, Option, arith, ap, ◌⊎◌, subst, length,
  ◌==◌,
}
use tp_sisop_1c.Prelude.Opciones.{Si, Si-none, Si-some, Si-seguir}
use tp_sisop_1c.Kernel.{
  lista_running, exec, Entorno, Lista, ℤ, Pcb, enviar_paquete, Kernel, lista_blocked, lista_ready,
  Algoritmo, lista_auxiliar,
}

module _ (e : Entorno) where
  pub con_tiempo_inicial-pid : (ahora : ℤ) (p : Pcb) → (con_tiempo_inicial e ahora p).pid ≡ p.pid
  unfolding con_tiempo_inicial
  con_tiempo_inicial-pid ahora p = elim (Bool-cases (es_vrr e.algoritmo)) [
    | inl h ↦ rw h refl
    | inr h ↦ rw h refl
  ]

  pub descontar_quantum-pid :
      (b : Bool) (ahora : ℤ) (p : Pcb) → (descontar_quantum e b ahora p).pid ≡ p.pid
  unfolding descontar_quantum
  descontar_quantum-pid b ahora p = elim (Bool-cases (b && es_vrr e.algoritmo)) [
    | inl h ↦ rw h refl
    | inr h ↦ rw h refl
  ]

module _ (e : Entorno) (w : Lista → ℕ → ℕ) where
  -- The lists of the processes that only wait weigh the same.
  pub record Pareja : Type 0 where
    pub ready_blocked : (pid : ℕ) → w lista_ready pid ≡ w lista_blocked pid
    pub auxiliar_blocked : (pid : ℕ) → w lista_auxiliar pid ≡ w lista_blocked pid

  -- A process that runs from a list on.
  pub ejecutar_pcb-Cambio :
      (s : Kernel e) (ahora : ℤ) (l : Lista) (o : Option (Pcb × Kernel e))
      → Si (λ r. Cambio e w s (r.1) (w l (r.0.pid)) 0) o
      → Si
          (λ s'. (pid : ℕ) × Cambio e w s s' (w l pid) (w lista_running pid))
          (ejecutar_pcb e ahora o)
  unfolding ejecutar_pcb enviar_siguiente_pcb enviar_paquete
  ejecutar_pcb-Cambio s ahora l none h = Si-none
  ejecutar_pcb-Cambio s ahora l (some (p, t)) h =
      Si-seguir _
        (actualizar_estado_pcb-Cambio e w t (con_tiempo_inicial e ahora p) exec lista_running)
        (λ u k. Si-some (
          p.pid,
          Cambio-resto e w _
              (Cambio-trans e w h.dentro k
                (omega (arith, ap (w lista_running) (con_tiempo_inicial-pid e ahora p))))
              refl refl refl refl refl,
        ))

  -- Either nothing moves, or a process that waited runs.
  abbrev pub Ejecuta : Kernel e → Kernel e → Type 0
  Ejecuta s s' =
      Cambio e w s s' 0 0
      ⊎ ((pid : ℕ) × Cambio e w s s' (w lista_blocked pid) (w lista_running pid))

  con_quantum_nuevo-Cambio :
      (s : Kernel e) (l : Lista) (o : Option (Pcb × Kernel e))
      → Si (λ r. Cambio e w s (r.1) (w l (r.0.pid)) 0) o
      → Si (λ r. Cambio e w s (r.1) (w l (r.0.pid)) 0) (con_quantum_nuevo e o)
  unfolding con_quantum_nuevo
  con_quantum_nuevo-Cambio s l none h = Si-none
  con_quantum_nuevo-Cambio s l (some (p, t)) h = Si-some h.dentro

  empezar_quantum-Ejecuta :
      (s : Kernel e) (o : Option (Kernel e))
      → Si (Ejecuta s) o
      → Si (Ejecuta s) (empezar_quantum e o)
  unfolding empezar_quantum
  empezar_quantum-Ejecuta s none h = Si-none
  empezar_quantum-Ejecuta s (some t) h = Si-some (elim h.dentro [
    | inl k ↦ inl (Cambio-resto e w _ k refl refl refl refl refl)
    | inr (pid, k) ↦ inr (pid, Cambio-resto e w _ k refl refl refl refl refl)
  ])

  pub avisar_ready-Cambio :
      (s : Kernel e) (a b : ℕ) (o : Option (Kernel e))
      → Si (λ s'. Cambio e w s s' a b) o
      → Si (λ s'. Cambio e w s s' a b) (avisar_ready e o)
  unfolding avisar_ready
  avisar_ready-Cambio s a b none h = Si-none
  avisar_ready-Cambio s a b (some t) h =
      Si-some (Cambio-resto e w _ h.dentro refl refl refl refl refl)

  module _ (p : Pareja) where
    ejecutar_de-Ejecuta :
        (s : Kernel e) (ahora : ℤ) (l : Lista) (o : Option (Pcb × Kernel e))
        → ((pid : ℕ) → w l pid ≡ w lista_blocked pid)
        → Si (λ r. Cambio e w s (r.1) (w l (r.0.pid)) 0) o
        → Si (Ejecuta s) (ejecutar_pcb e ahora o)
    ejecutar_de-Ejecuta s ahora l o igual h =
        Si-mono (ejecutar_pcb-Cambio s ahora l o h) (λ s' (pid, k).
          inr (pid, subst (λ n. Cambio e w s s' n (w lista_running pid)) (igual pid) k))

    pub planificar_segun-Ejecuta :
        (a : Algoritmo) (s : Kernel e) (ahora : ℤ) → Si (Ejecuta s) (planificar_segun e a s ahora)
    unfolding planificar_segun
    planificar_segun-Ejecuta fifo s ahora = elim (Bool-cases (length (s.listas lista_ready) == 0)) [
      | inl h ↦ rw h (Si-some (inl (nada-Cambio e w s)))
      | inr h ↦ rw h (
          ejecutar_de-Ejecuta s ahora lista_ready _ p.ready_blocked
            (remover_primero-Cambio e w s lista_ready))
    ]
    planificar_segun-Ejecuta rr s ahora = empezar_quantum-Ejecuta s _ (
        ejecutar_de-Ejecuta s ahora lista_ready _ p.ready_blocked
          (remover_primero-Cambio e w s lista_ready))
    planificar_segun-Ejecuta vrr s ahora =
        elim (Bool-cases (length (s.listas lista_auxiliar) == 0)) [
          | inl h ↦ elim (Bool-cases (length (s.listas lista_ready) == 0)) [
            | inl k ↦ rw (h, k) (Si-some (inl (nada-Cambio e w s)))
            | inr k ↦
                rw (h, k)
                  (ejecutar_de-Ejecuta s ahora lista_ready _ p.ready_blocked (
                    con_quantum_nuevo-Cambio s lista_ready _
                      (remover_primero-Cambio e w s lista_ready)))
          ]
          | inr h ↦ rw h (
              ejecutar_de-Ejecuta s ahora lista_auxiliar _ p.auxiliar_blocked
                (remover_primero-Cambio e w s lista_auxiliar))
        ]
    planificar_segun-Ejecuta invalido s ahora = Si-some (inl (nada-Cambio e w s))

    -- The process of a list goes to another one.
    pub mover_con_pid-Cambio :
        (s : Kernel e) (l l' : Lista) (pid : ℕ) (estado : EstadoCode) (q : Pcb) (t : Kernel e)
        → q.pid ≡ pid
        → Cambio e w s t (w l pid) 0
        → Si (λ s'. Cambio e w s s' (w l pid) (w l' pid)) (actualizar_estado_pcb e t q estado l')
    mover_con_pid-Cambio s l l' pid estado q t igual h =
        Si-mono (actualizar_estado_pcb-Cambio e w t q estado l')
          (λ s' k. Cambio-trans e w h k (omega (arith, ap (w l') igual)))

    pub bloquear_proceso-Cambio :
        (s : Kernel e) (ahora : ℤ) (pcb : Pcb) (es_io : Bool)
        → Si
            (λ s'. Cambio e w s s' (w lista_running pcb.pid) (w lista_blocked pcb.pid))
            (bloquear_proceso e s ahora pcb es_io)
    unfolding bloquear_proceso
    bloquear_proceso-Cambio s ahora pcb es_io =
        let t : Kernel e = record s { pid_ejecutando = 0 } in
        let c : Cambio e w s t 0 0 =
          Cambio-resto e w t (nada-Cambio e w s) refl refl refl refl refl in
        Si-seguir _ (remover_con_pid-Cambio e w t lista_running pcb.pid) (λ r h.
          mover_con_pid-Cambio s lista_running lista_blocked pcb.pid blocked
            (descontar_quantum e es_io ahora pcb) (r.1) (descontar_quantum-pid e es_io ahora pcb)
            (Cambio-trans e w c h (omega arith)))

    pub desbloquear_proceso-Cambio :
        (s : Kernel e) (pid : ℕ) → Si (λ s'. Cambio e w s s' 0 0) (desbloquear_proceso e s pid)
    unfolding desbloquear_proceso
    desbloquear_proceso-Cambio s pid =
        Si-seguir _ (remover_con_pid_propio-Cambio e w s lista_blocked pid) (λ r h.
          avisar_ready-Cambio s 0 0 _ (elim (Bool-cases (con_prioridad e (r.0))) [
            | inl b ↦ rw b (
                Si-mono (actualizar_estado_pcb-Cambio e w (r.1) (r.0) ready_aux lista_auxiliar)
                  (λ s' k. Cambio-trans e w h k (omega (arith, p.auxiliar_blocked (r.0.pid)))))
            | inr b ↦ rw b (
                Si-mono (actualizar_estado_pcb-Cambio e w (r.1) (r.0) ready lista_ready)
                  (λ s' k. Cambio-trans e w h k (omega (arith, p.ready_blocked (r.0.pid)))))
          ]))
