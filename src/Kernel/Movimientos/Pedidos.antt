-- ===== src/Kernel/Movimientos/Pedidos.antt =====
-- The moves behind the messages of the CPU and of the interfaces, as a whole
-- (kernel/src/conexion/conexion.c).
use tp_sisop_1c.Kernel.Movimientos.Recursos.{
  recurso_decrementar-Pedido, recurso_incrementar-Quieto, Pedido,
}
use tp_sisop_1c.Kernel.Recursos.{obtener_index_recurso, recurso_existe}
use tp_sisop_1c.Kernel.Interfaces.{
  enviar_si_es_de_tipo, enviar_siguiente_trabajo, io_ocupada, error_io, fin_io, es_de_tipo,
}
use tp_sisop_1c.Kernel.Movimientos.{
  Cambio, Cambio-trans, remover_con_pid-clave, Cambio-resto, remover_con_pid-Cambio, nada-Cambio,
}
use tp_sisop_1c.Kernel.Movimientos.Despacho.{
  sale_el_que_corre, con_cpu_libre-Suelta, Suelta, continuar-Cambio, desalojar-Suelta, corre_igual,
  terminar_ejecutado-Suelta, bloquear_por_io-Cambio, enviar_trabajo-Cambio,
}
use tp_sisop_1c.Kernel.Movimientos.Largo.{veces, uno, eliminar_proceso-Cambio, no_corre, uno_propio}
use tp_sisop_1c.Kernel.Movimientos.Corto.{Pareja, desbloquear_proceso-Cambio}
use tp_sisop_1c.Kernel.Procesos.{es_el_primero, proceso_en_running}
use tp_sisop_1c.Prelude.{
  refl, [], true, false, some, none, inl, inr, ◌++◌, ◌∷◌, ◌≡◌, ◌≤◌, ℕ, List, Option, ◌⊎◌, arith,
  Bool, Bool-cases, List-cases, subst, sym, ◌==◌, ap, ◌||◌, ltb,
}
use tp_sisop_1c.Kernel.{
  lista_blocked, lista_running, lista_exit, Entorno, Kernel, Lista, Pcb, Texto, ℤ, Interfaz,
  Trabajo,
}
use tp_sisop_1c.Kernel.Planificacion.{remover_primero}
use tp_sisop_1c.Kernel.Despacho.{
  interrupcion_de_quantum, terminar_proceso, out_of_memory_error, motivo_wait, motivo_signal,
  sin_indice, con_cpu_libre, contexto_ejecucion, expulsar, instruccion_io,
  recibir_contexto_ejecucion_motivo_signal, recibir_contexto_ejecucion_motivo_wait, sin_recurso,
  tras_decrementar, MotivoDesalojo, existe_interfaz,
}
use tp_sisop_1c.Prelude.Opciones.{Si, Si-none, Si-some, Si-seguir, Si-mono, Si-luego, Si-y}

sin_indice-pid : (e : Entorno) (q : Pcb) (o : Option ℕ) → (sin_indice e q o).pid ≡ q.pid
unfolding sin_indice
sin_indice-pid e q none = refl
sin_indice-pid e q (some i) = refl

mismo_pid_primero :
    (q q' : Pcb) (xs : List Pcb)
    → q'.pid ≡ q.pid
    → es_el_primero q xs ≡ true
    → es_el_primero q' xs ≡ true
unfolding es_el_primero
mismo_pid_primero q q' [] igual h = h
mismo_pid_primero q q' (x ∷ xs) igual h = rw igual h

mismo_pid_corre :
    (e : Entorno) (t : Kernel e) (q q' : Pcb)
    → q'.pid ≡ q.pid
    → proceso_en_running e t q ≡ true
    → proceso_en_running e t q' ≡ true
unfolding proceso_en_running
mismo_pid_corre e t q q' igual h = mismo_pid_primero q q' (t.listas lista_running) igual h

pub uno-Pareja : (e : Entorno) (pid : ℕ) → Pareja e (uno pid)
uno-Pareja e pid = record { ready_blocked = λ _. refl; auxiliar_blocked = λ _. refl }

-- A process that is there once does not run any more when it has been taken out.
ya_no_corre :
    (e : Entorno) (s : Kernel e) (q : Pcb)
    → veces e s q.pid ≤ 1
    → proceso_en_running e s q ≡ true
    → Si (λ r. proceso_en_running e (r.1) q ≡ false) (remover_primero e s lista_running)
ya_no_corre e s q unico h =
    Si-mono (sale_el_que_corre e (uno q.pid) (uno-Pareja e q.pid) s q h)
      (λ r c. no_corre e (r.1) q (omega (arith, c.medidas, uno_propio q.pid, unico)))

module _ (e : Entorno) (w : Lista → ℕ → ℕ) (p : Pareja e w) where
  -- The process that runs ends, since its request cannot be met.
  expulsar-Cambio :
      (s : Kernel e) (q : Pcb)
      → veces e s q.pid ≤ 1
      → proceso_en_running e s q ≡ true
      → Si (λ s'. Cambio e w s s' (w lista_running q.pid) (w lista_exit q.pid)) (expulsar e s q)
  unfolding expulsar
  expulsar-Cambio s q unico h =
      Si-seguir _ (Si-y (sale_el_que_corre e w p s q h) (ya_no_corre e s q unico h))
        (λ r (c, fuera).
          Si-mono (eliminar_proceso-Cambio e w p (r.1) q fuera)
            (λ t k. Cambio-trans e w c k (omega arith)))

  -- What becomes of the process that the CPU gives back: it goes on, it waits, or it has ended.
  abbrev pub Atiende : Pcb → Kernel e → Kernel e → Type 0
  Atiende q s s' =
      Cambio e w s s' 0 0
      ⊎ (Suelta e w p s s' (w lista_running q.pid) (w lista_blocked q.pid)
          ⊎ Suelta e w p s s' (w lista_running q.pid) (w lista_exit q.pid))

  pub instruccion_io-Atiende :
      (s : Kernel e) (ahora : ℤ) (q : Pcb) (i : Texto) (x : Trabajo)
      → veces e s q.pid ≤ 1
      → proceso_en_running e s q ≡ true
      → Si (Atiende q s) (instruccion_io e s ahora q i x)
  unfolding instruccion_io
  instruccion_io-Atiende s ahora q i x unico h = elim (Bool-cases (existe_interfaz e s i)) [
    | inl b ↦ rw b (
        Si-mono (con_cpu_libre-Suelta e w p s _ _ _ (bloquear_por_io-Cambio e w p s ahora q i x))
          (λ t k. inr (inl k)))
    | inr b ↦ rw b (
        Si-mono (con_cpu_libre-Suelta e w p s _ _ _ (expulsar-Cambio s q unico h))
          (λ t k. inr (inr k)))
  ]

  sin_recurso-pid : (r : Texto) (q : Pcb) → (sin_recurso e r q).pid ≡ q.pid
  unfolding sin_recurso
  sin_recurso-pid r q = sin_indice-pid e q (obtener_index_recurso q.recursos_tomados r)

  signal-Cambio :
      (s : Kernel e) (q : Pcb) (r : Texto)
      → proceso_en_running e s q ≡ true
      → Si (λ s'. Cambio e w s s' 0 0) (recibir_contexto_ejecucion_motivo_signal e s q r)
  unfolding recibir_contexto_ejecucion_motivo_signal
  signal-Cambio s q r h = Si-seguir _ (recurso_incrementar-Quieto e w p s r) (λ t k.
      Si-mono
        (continuar-Cambio e w p t (sin_recurso e r q) (
          mismo_pid_corre e t q (sin_recurso e r q) (sin_recurso-pid r q)
            (corre_igual e w p s t q k.corre h)))
        (λ u m. Cambio-trans e w k.cambio m (omega arith)))

  tras_decrementar-Atiende :
      (s : Kernel e) (q : Pcb) (r : Texto) (x : Bool × Kernel e)
      → proceso_en_running e s q ≡ true
      → Pedido e w p q s x
      → Si (Atiende q s) (tras_decrementar e q r x)
  unfolding tras_decrementar proceso_en_running
  tras_decrementar-Atiende s q r (true, t) h k =
      Si-mono
        (continuar-Cambio e w p t (record q { recursos_tomados = q.recursos_tomados ++ r ∷ [] })
          (corre_igual e w p s t q k.corre h))
        (λ u m. inl (Cambio-trans e w k.cambio m (omega arith)))
  tras_decrementar-Atiende s q r (false, t) h (inl k) = Si-some (inl k.cambio)
  tras_decrementar-Atiende s q r (false, t) h (inr (u, k, igual)) =
      Si-some (inr (inl (record { medio = u; cambio = k; cpu = igual })))

  wait-Atiende :
      (s : Kernel e) (ahora : ℤ) (q : Pcb) (r : Texto)
      → proceso_en_running e s q ≡ true
      → Si (Atiende q s) (recibir_contexto_ejecucion_motivo_wait e s ahora q r)
  unfolding recibir_contexto_ejecucion_motivo_wait
  wait-Atiende s ahora q r h =
      Si-seguir _ (recurso_decrementar-Pedido e w p s ahora r q)
        (λ x k. tras_decrementar-Atiende s q r x h k)

  con_cpu_libre-Atiende :
      (s : Kernel e) (q : Pcb)
      → veces e s q.pid ≤ 1
      → proceso_en_running e s q ≡ true
      → Si (Atiende q s) (con_cpu_libre e (expulsar e s q))
  con_cpu_libre-Atiende s q unico h =
      Si-mono (con_cpu_libre-Suelta e w p s _ _ _ (expulsar-Cambio s q unico h))
        (λ t k. inr (inr k))

  pub contexto_ejecucion-Atiende :
      (s : Kernel e) (ahora : ℤ) (q : Pcb) (m : MotivoDesalojo)
      → veces e s q.pid ≤ 1
      → proceso_en_running e s q ≡ true
      → Si (Atiende q s) (contexto_ejecucion e s ahora q m)
  unfolding contexto_ejecucion
  contexto_ejecucion-Atiende s ahora q interrupcion_de_quantum unico h =
      Si-mono (desalojar-Suelta e w p s q h) (λ t k. inr (inl k))
  contexto_ejecucion-Atiende s ahora q terminar_proceso unico h =
      Si-mono (terminar_ejecutado-Suelta e w p s q h) (λ t k. inr (inr k))
  contexto_ejecucion-Atiende s ahora q out_of_memory_error unico h =
      Si-mono (terminar_ejecutado-Suelta e w p s q h) (λ t k. inr (inr k))
  contexto_ejecucion-Atiende s ahora q (motivo_signal r) unico h =
      elim (Bool-cases (recurso_existe e s r)) [
        | inl b ↦ rw b (Si-mono (signal-Cambio s q r h) (λ t k. inl k))
        | inr b ↦ rw b (con_cpu_libre-Atiende s q unico h)
      ]
  contexto_ejecucion-Atiende s ahora q (motivo_wait r) unico h =
      elim (Bool-cases (recurso_existe e s r)) [
        | inl b ↦ rw b (wait-Atiende s ahora q r h)
        | inr b ↦ rw b (con_cpu_libre-Atiende s q unico h)
      ]

  enviar_si_es_de_tipo-Cambio :
      (s t : Kernel e) (i : Texto) (tipo : ℕ) (x : Trabajo) (pid : ℕ)
      → Cambio e w s t 0 0
      → Si (λ u. Cambio e w s u 0 0) (enviar_si_es_de_tipo e t i tipo x pid)
  unfolding enviar_si_es_de_tipo
  enviar_si_es_de_tipo-Cambio s t i tipo x pid h = elim (Bool-cases (es_de_tipo tipo x)) [
    | inl b ↦ rw b (enviar_trabajo-Cambio e w p s t 0 0 i x pid h)
    | inr b ↦ elim (Bool-cases (tipo == 0 || ltb 4 tipo)) [
      | inl c ↦ rw (b, c) (Si-some h)
      | inr c ↦ rw (b, c) Si-none
    ]
  ]

  enviar_siguiente_trabajo-Cambio :
      (s t : Kernel e) (i : Texto) (x : Interfaz)
      → Cambio e w s t 0 0
      → Si (λ u. Cambio e w s u 0 0) (enviar_siguiente_trabajo e t i x)
  unfolding enviar_siguiente_trabajo
  enviar_siguiente_trabajo-Cambio s t i x h = elim (List-cases x.lista_bloqueados) [
    | inl k ↦ rw k (Si-some h)
    | inr (io, resto, k) ↦ rw k (
        Si-luego _ (λ pid.
          enviar_si_es_de_tipo-Cambio s _ i x.tipo_interfaz io.trabajo pid
            (Cambio-resto e w _ h refl refl refl refl refl)))
  ]

  pub fin_io-Cambio :
      (s : Kernel e) (i : Texto) (pid : ℕ) → Si (λ s'. Cambio e w s s' 0 0) (fin_io e s i pid)
  unfolding fin_io
  fin_io-Cambio s i pid =
      Si-seguir _ (desbloquear_proceso-Cambio e w p s pid)
        (λ t h. Si-luego _ (λ x. enviar_siguiente_trabajo-Cambio s t i x h))

  pub io_ocupada-Cambio :
      (s : Kernel e) (i : Texto) (pid : ℕ) (x : Trabajo)
      → Si (λ s'. Cambio e w s s' 0 0) (io_ocupada e s i pid x)
  unfolding io_ocupada
  io_ocupada-Cambio s i pid x =
      Si-luego _ (λ _. Si-some (Cambio-resto e w _ (nada-Cambio e w s) refl refl refl refl refl))

  -- A request that failed ends the process that waited for it.
  pub error_io-Cambio :
      (s : Kernel e) (pid : ℕ)
      → veces e s pid ≤ 1
      → Si (λ s'. Cambio e w s s' (w lista_blocked pid) (w lista_exit pid)) (error_io e s pid)
  unfolding error_io
  error_io-Cambio s pid unico =
      Si-seguir _
        (Si-y (remover_con_pid-clave e s lista_blocked pid) (
          Si-y (remover_con_pid-Cambio e w s lista_blocked pid)
            (remover_con_pid-Cambio e (uno pid) s lista_blocked pid)))
        (λ r (mismo, (c, v)).
          Si-mono
            (eliminar_proceso-Cambio e w p (r.1) (r.0) (
              no_corre e (r.1) (r.0) (
                subst (λ i. veces e (r.1) i ≡ 0) (sym mismo)
                  (omega (arith, v.medidas, uno_propio pid, unico)))))
            (λ t k. Cambio-trans e w c k (omega (arith, ap (w lista_exit) mismo))))
