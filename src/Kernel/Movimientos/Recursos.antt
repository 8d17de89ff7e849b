-- ===== src/Kernel/Movimientos/Recursos.antt =====
-- The moves behind the resources (kernel/src/recursos/recursos.c): an instance that comes back may wake
-- a process, and a request may block the one that runs.
use tp_sisop_1c.Prelude.Int.{pos, ltb_ℤ, negsuc}
use tp_sisop_1c.Kernel.Planificacion.{
  remover_con_pid, escribir, actualizar_estado_pcb, cambiar_estado_pcb,
  agregar_a_lista_con_semaforos, avisar_ready, desbloquear_proceso, con_prioridad,
}
use tp_sisop_1c.Kernel.Movimientos.Corto.{
  Pareja, desbloquear_proceso-Cambio, bloquear_proceso-Cambio,
}
use tp_sisop_1c.Kernel.Movimientos.{
  pesos, Cambio, Cambio-resto, Cambio-trans, nada-Cambio, remover_con_pid, medida-escribir,
}
use tp_sisop_1c.Kernel.Planificacion.{
  actualizar_estado_pcb, cambiar_estado_pcb, agregar_a_lista_con_semaforos, escribir, numero,
  avisar_ready, desbloquear_proceso,
}
use tp_sisop_1c.Kernel.Recursos.{
  modificar_pcb, despertar_siguiente, entregar_recurso, modificar_bloqueado, recurso_incrementar,
  recurso_obtener_bloqueado, con_recurso_tomado, dejar_de_esperar, liberar_recursos_tomados,
  liberar_todos_los_recursos, recurso_agregar_bloqueado, recurso_modificar_instancias,
  recurso_modificar_instancias2, encolar, entregar_a, esperar_recurso, recurso_decrementar,
  sumar_y_quitar, tras_incrementar, tras_restar, soltar_cpu,
}
use tp_sisop_1c.Prelude.{
  refl, [], false, inl, inr, ◌+◌, ◌∷◌, ◌≡◌, ℕ, List, Bool-cases, ◌==◌, ap, some, none, ◌∙◌, Option,
  arith, List-cases, true, Bool, ◌⊎◌,
}
use tp_sisop_1c.Prelude.Opciones.{
  Si, Si-none, Si-some, Si-seguir, Si-mono, Si-y, Si-siempre, Si-luego,
}
use tp_sisop_1c.Kernel.{
  lista_ready, lista_blocked, lista_running, lista_auxiliar, ready, ready_aux, Entorno, Kernel, Pcb,
  EstadoCode, Lista, Texto, ℤ, Recurso,
}

pub modificar_pcb-pesos :
    (peso : ℕ → ℕ) (f : Pcb → Pcb) (pid : ℕ) (xs : List Pcb)
    → ((p : Pcb) → (f p).pid ≡ p.pid)
    → pesos peso (modificar_pcb f pid xs) ≡ pesos peso xs
unfolding modificar_pcb
modificar_pcb-pesos peso f pid [] h = refl
modificar_pcb-pesos peso f pid (x ∷ xs) h = elim (Bool-cases (x.pid == pid)) [
  | inl b ↦ rw b (rw (h x) refl)
  | inr b ↦ rw b (ap (λ n. peso x.pid + n) (modificar_pcb-pesos peso f pid xs h))
]

module _ (e : Entorno) where
  abbrev pub MismoCorre : Kernel e → Kernel e → Type 0
  MismoCorre s s' = s'.listas lista_running ≡ s.listas lista_running

  actualizar_estado_pcb-MismoCorre :
      (s t : Kernel e) (p : Pcb) (estado : EstadoCode) (l : Lista)
      → (numero l == 3) ≡ false
      → MismoCorre s t
      → Si (MismoCorre s) (actualizar_estado_pcb e t p estado l)
  unfolding actualizar_estado_pcb cambiar_estado_pcb agregar_a_lista_con_semaforos escribir
  actualizar_estado_pcb-MismoCorre s t p estado l fuera h =
      Si-seguir {P = MismoCorre s} _ (Si-seguir _ (Si-siempre _ (λ r. h)) (λ r k. Si-some k))
        (λ u k. Si-some (rw fuera k))

  avisar_ready-MismoCorre :
      (s : Kernel e) (o : Option (Kernel e))
      → Si (MismoCorre s) o
      → Si (MismoCorre s) (avisar_ready e o)
  unfolding avisar_ready
  avisar_ready-MismoCorre s none h = Si-none
  avisar_ready-MismoCorre s (some t) h = Si-some h.dentro

  desbloquear_proceso-MismoCorre :
      (s : Kernel e) (pid : ℕ) → Si (MismoCorre s) (desbloquear_proceso e s pid)
  unfolding desbloquear_proceso remover_con_pid escribir
  desbloquear_proceso-MismoCorre s pid =
      Si-seguir {P = λ r. MismoCorre s (r.1)} _
        (Si-seguir _ (Si-siempre _ (λ r. refl)) (λ r k. Si-some k))
        (λ r h. avisar_ready-MismoCorre s _ (elim (Bool-cases (con_prioridad e (r.0))) [
          | inl b ↦
              rw b (actualizar_estado_pcb-MismoCorre s (r.1) (r.0) ready_aux lista_auxiliar refl h)
          | inr b ↦ rw b (actualizar_estado_pcb-MismoCorre s (r.1) (r.0) ready lista_ready refl h)
        ]))

module _ (e : Entorno) (w : Lista → ℕ → ℕ) (p : Pareja e w) where
  -- Nothing moves but between the lists that weigh the same, and what runs stays.
  pub record Quieto (s s' : Kernel e) : Type 0 where
    pub cambio : Cambio e w s s' 0 0
    pub corre : MismoCorre e s s'

  pub nada-Quieto : (s : Kernel e) → Quieto s s
  nada-Quieto s = record { cambio = nada-Cambio e w s; corre = refl }

  pub Quieto-trans : {s t u : Kernel e} → Quieto s t → Quieto t u → Quieto s u
  Quieto-trans h k = record {
    cambio = Cambio-trans e w h.cambio k.cambio refl;
    corre = k.corre ∙ h.corre;
  }

  pub con_recursos-Quieto :
      (s : Kernel e) (d : e.recursos.Dict) → Quieto s (record s { dict_recursos = d })
  con_recursos-Quieto s d = record {
    cambio = Cambio-resto e w _ (nada-Cambio e w s) refl refl refl refl refl;
    corre = refl;
  }

  modificar_bloqueado-Quieto :
      (s : Kernel e) (f : Pcb → Pcb) (pid : ℕ)
      → ((q : Pcb) → (f q).pid ≡ q.pid)
      → Quieto s (modificar_bloqueado e s f pid)
  unfolding modificar_bloqueado escribir
  modificar_bloqueado-Quieto s f pid h =
      let xs = modificar_pcb f pid (s.listas lista_blocked) in
      record {
        cambio = record {
          medidas = omega (
            arith,
            medida-escribir e w s lista_blocked xs,
            modificar_pcb-pesos (w lista_blocked) f pid (s.listas lista_blocked) h,
          );
          ultimo = refl;
          estados = refl;
          cpu = refl;
          grado = refl;
        };
        corre = refl;
      }

  desbloquear_proceso-Quieto :
      (s : Kernel e) (pid : ℕ) → Si (Quieto s) (desbloquear_proceso e s pid)
  desbloquear_proceso-Quieto s pid =
      Si-mono
        (Si-y (desbloquear_proceso-Cambio e w p s pid) (desbloquear_proceso-MismoCorre e s pid))
        (λ s' (c, m). record { cambio = c; corre = m })

  entregar_a-Quieto :
      (s : Kernel e) (r : Texto) (pid : ℕ) (o : Option Pcb) → Si (Quieto s) (entregar_a e s r pid o)
  unfolding entregar_a con_recurso_tomado
  entregar_a-Quieto s r pid none = Si-some (nada-Quieto s)
  entregar_a-Quieto s r pid (some _) =
      Si-mono (desbloquear_proceso-Quieto _ pid) (λ s' k.
        Quieto-trans (modificar_bloqueado-Quieto s (con_recurso_tomado r) pid (λ _. refl)) k)

  recurso_obtener_bloqueado-Quieto :
      (s : Kernel e) (r : Texto) → Si (λ x. Quieto s (x.1)) (recurso_obtener_bloqueado e s r)
  unfolding recurso_obtener_bloqueado
  recurso_obtener_bloqueado-Quieto s r = Si-luego _ (λ aux. elim (List-cases aux.bloqueados) [
    | inl h ↦ rw h Si-none
    | inr (pid, resto, h) ↦ rw h (Si-some (con_recursos-Quieto s _))
  ])

  despertar_siguiente-Quieto :
      (s : Kernel e) (r : Texto) → Si (Quieto s) (despertar_siguiente e s r)
  unfolding despertar_siguiente entregar_recurso
  despertar_siguiente-Quieto s r =
      Si-seguir _ (recurso_obtener_bloqueado-Quieto s r)
        (λ x h. Si-mono (entregar_a-Quieto (x.1) r (x.0) _) (λ s' k. Quieto-trans h k))

  tras_incrementar-Quieto :
      (s : Kernel e) (r : Texto) (o : Option (ℤ × Kernel e))
      → Si (λ x. Quieto s (x.1)) o
      → Si (Quieto s) (tras_incrementar e s r o)
  unfolding tras_incrementar
  tras_incrementar-Quieto s r none h = Si-some (nada-Quieto s)
  tras_incrementar-Quieto s r (some (n, t)) h = elim (Bool-cases (ltb_ℤ (pos 0) n)) [
    | inl b ↦ rw b (Si-some h.dentro)
    | inr b ↦ rw b (Si-mono (despertar_siguiente-Quieto t r) (λ s' k. Quieto-trans h.dentro k))
  ]

  pub recurso_modificar_instancias-Quieto :
      (s : Kernel e) (r : Texto) (delta : ℤ)
      → Si (λ x. Quieto s (x.1)) (recurso_modificar_instancias e s r delta)
  unfolding recurso_modificar_instancias
  recurso_modificar_instancias-Quieto s r delta =
      Si-luego _ (λ aux. Si-some (con_recursos-Quieto s _))

  pub recurso_incrementar-Quieto :
      (s : Kernel e) (r : Texto) → Si (Quieto s) (recurso_incrementar e s r)
  unfolding recurso_incrementar
  recurso_incrementar-Quieto s r =
      tras_incrementar-Quieto s r _ (recurso_modificar_instancias-Quieto s r (pos 1))

  liberar_todos_los_recursos-Quieto :
      (s : Kernel e) (rs : List Texto) → Si (Quieto s) (liberar_todos_los_recursos e s rs)
  unfolding liberar_todos_los_recursos
  liberar_todos_los_recursos-Quieto s [] = Si-some (nada-Quieto s)
  liberar_todos_los_recursos-Quieto s (r ∷ rs) = Si-luego _ (λ aux.
      Si-seguir _ (recurso_incrementar-Quieto s aux.id)
        (λ t h. Si-mono (liberar_todos_los_recursos-Quieto t rs) (λ u k. Quieto-trans h k)))

  sumar_y_quitar-Quieto :
      (s : Kernel e) (r : Texto) (delta : ℤ) (pid : ℕ) (o : Option Recurso)
      → Quieto s (sumar_y_quitar e s r delta pid o)
  unfolding sumar_y_quitar
  sumar_y_quitar-Quieto s r delta pid none = nada-Quieto s
  sumar_y_quitar-Quieto s r delta pid (some aux) = con_recursos-Quieto s _

  dejar_de_esperar-Quieto :
      (s : Kernel e) (o : Option Texto) (pid : ℕ) → Quieto s (dejar_de_esperar e s o pid)
  unfolding dejar_de_esperar recurso_modificar_instancias2
  dejar_de_esperar-Quieto s none pid = nada-Quieto s
  dejar_de_esperar-Quieto s (some r) pid = sumar_y_quitar-Quieto s r (pos 1) pid _

  pub liberar_recursos_tomados-Quieto :
      (s : Kernel e) (q : Pcb)
      → Si (λ x. (x.0.pid ≡ q.pid) × Quieto s (x.1)) (liberar_recursos_tomados e s q)
  unfolding liberar_recursos_tomados
  liberar_recursos_tomados-Quieto s q =
      Si-seguir _ (liberar_todos_los_recursos-Quieto s q.recursos_tomados) (λ t h.
        Si-some (refl, Quieto-trans h (dejar_de_esperar-Quieto t q.recurso_esperando q.pid)))

  encolar-Quieto :
      (s : Kernel e) (r : Texto) (pid : ℕ) (o : Option Recurso) → Quieto s (encolar e s r pid o)
  unfolding encolar
  encolar-Quieto s r pid none = nada-Quieto s
  encolar-Quieto s r pid (some aux) =
      Quieto-trans (con_recursos-Quieto s _) (modificar_bloqueado-Quieto _ _ pid (λ _. refl))

  -- A request for a resource: either the process goes on, or it is blocked and the CPU is free.
  abbrev pub Pedido : Pcb → Kernel e → Bool × Kernel e → Type 0
  Pedido q s (true, s') = Quieto s s'
  Pedido q s (false, s') =
      Quieto s s'
      ⊎ ((t : Kernel e) × Cambio e w s t (w lista_running q.pid) (w lista_blocked q.pid)
          × (s' ≡ soltar_cpu e t))

  Pedido-trans :
      (q : Pcb) {s t : Kernel e} (x : Bool × Kernel e) → Quieto s t → Pedido q t x → Pedido q s x
  Pedido-trans q (true, u) h k = Quieto-trans h k
  Pedido-trans q (false, u) h (inl k) = inl (Quieto-trans h k)
  Pedido-trans q (false, u) h (inr (v, k, igual)) =
      inr (v, Cambio-trans e w h.cambio k (omega arith), igual)

  esperar_recurso-Pedido :
      (s : Kernel e) (ahora : ℤ) (r : Texto) (q : Pcb)
      → Si (Pedido q s) (esperar_recurso e s ahora r q)
  unfolding esperar_recurso recurso_agregar_bloqueado
  esperar_recurso-Pedido s ahora r q =
      Si-seguir _ (bloquear_proceso-Cambio e w p s ahora q false) (λ t h.
        Si-some
          (inr (_, Cambio-trans e w h (encolar-Quieto t r q.pid _).cambio (omega arith), refl)))

  tras_restar-Pedido :
      (s : Kernel e) (ahora : ℤ) (r : Texto) (q : Pcb) (o : Option (ℤ × Kernel e))
      → Si (λ x. Quieto s (x.1)) o
      → Si (Pedido q s) (tras_restar e s ahora r q o)
  unfolding tras_restar
  tras_restar-Pedido s ahora r q none h = Si-some (inl (nada-Quieto s))
  tras_restar-Pedido s ahora r q (some (n, t)) h = elim (Bool-cases (ltb_ℤ n (pos 0))) [
    | inl b ↦
        rw b (Si-mono (esperar_recurso-Pedido t ahora r q) (λ x k. Pedido-trans q x h.dentro k))
    | inr b ↦ rw b (Si-some h.dentro)
  ]

  pub recurso_decrementar-Pedido :
      (s : Kernel e) (ahora : ℤ) (r : Texto) (q : Pcb)
      → Si (Pedido q s) (recurso_decrementar e s ahora r q)
  unfolding recurso_decrementar
  recurso_decrementar-Pedido s ahora r q =
      tras_restar-Pedido s ahora r q _ (recurso_modificar_instancias-Quieto s r (negsuc 0))
