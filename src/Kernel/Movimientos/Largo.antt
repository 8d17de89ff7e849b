-- ===== src/Kernel/Movimientos/Largo.antt =====
-- The moves of the long-term scheduler (kernel/src/planificacion/planificador-largo.c and
-- `mover_a_ready`).
use tp_sisop_1c.Kernel.Movimientos.Recursos.{liberar_recursos_tomados-Quieto, Quieto}
use tp_sisop_1c.Kernel.Movimientos.Corto.{Pareja, avisar_ready-Cambio}
use tp_sisop_1c.Kernel.Movimientos.{
  medida, Cambio, Cambio-resto, pesos, actualizar_estado_pcb-Cambio, Cambio-trans, nada-Cambio,
  remover_primero-Cambio, agregar-Cambio, remover_con_pid-Cambio, remover_con_pid-clave,
}
use tp_sisop_1c.Prelude.{
  refl, false, some, none, inl, inr, ◌+◌, ◌≡◌, ℕ, if◌then◌else◌, ◌==◌, arith, ap, Option, ◌⊎◌, Bool,
  Bool-cases, length, [], ◌∷◌, List, true, ◌≢◌, ◌≤◌, All, subst, sym,
}
use tp_sisop_1c.Kernel.{
  lista_new, lista_ready, lista_blocked, lista_running, lista_exit, ready, exitt, Entorno, Kernel,
  Lista, Pcb, enviar_paquete, Texto, lista_auxiliar,
}
use tp_sisop_1c.Prelude.Opciones.{Si, Si-none, Si-some, Si-seguir, Si-mono, de_si}
use tp_sisop_1c.Kernel.Planificacion.{remover_con_pid, numero}
use tp_sisop_1c.Kernel.Procesos.{
  eliminar_proceso, crear_proceso, proceso_en_running, admitir, avisar_a_memoria, crear_pcb,
  terminar, es_el_primero, buscar_en_listas, finalizar_proceso, hayar_pcb, quitado_o, tras_hayar,
}

-- One for each mention of the pid.
abbrev pub uno : ℕ → Lista → ℕ → ℕ
uno pid l otro = if pid == otro then 1 else 0

pub uno_propio : (pid : ℕ) → uno pid lista_new pid ≡ 1
uno_propio pid = ground arith

Si-libre {ℓ κ} :
    {A : Type ℓ} {P : A → Type κ} (tomado : Bool) {o : Option A}
    → Si P o
    → Si P (if tomado then none else o)
Si-libre true h = Si-none
Si-libre false h = h

module _ (e : Entorno) where
  -- How often the pid is in the lists.
  abbrev pub veces : Kernel e → ℕ → ℕ
  veces s pid = medida e (uno pid) s

  uno_de : (pid otro : ℕ) → (pid == otro) ≡ true → uno pid lista_running otro ≡ 1
  uno_de pid otro b = rw b refl

  no_es_el_primero :
      (q : Pcb) (xs : List Pcb)
      → pesos (uno q.pid lista_running) xs ≡ 0
      → es_el_primero q xs ≡ false
  unfolding es_el_primero
  no_es_el_primero q [] h = refl
  no_es_el_primero q (x ∷ xs) h = elim (Bool-cases (q.pid == x.pid)) [
    | inl b ↦ absurd (omega (arith, h, uno_de q.pid x.pid b))
    | inr b ↦ b
  ]

  pub no_corre : (s : Kernel e) (q : Pcb) → veces s q.pid ≡ 0 → proceso_en_running e s q ≡ false
  unfolding proceso_en_running
  no_corre s q h = no_es_el_primero q (s.listas lista_running) (omega (arith, h))

module _ (e : Entorno) (w : Lista → ℕ → ℕ) (p : Pareja e w) where
  pub avisar_a_memoria-Cambio :
      (s : Kernel e) (a b pid : ℕ) (o : Option (Kernel e))
      → Si (λ s'. Cambio e w s s' a b) o
      → Si (λ s'. Cambio e w s s' a b) (avisar_a_memoria e pid o)
  unfolding avisar_a_memoria enviar_paquete
  avisar_a_memoria-Cambio s a b pid none h = Si-none
  avisar_a_memoria-Cambio s a b pid (some t) h =
      Si-some (Cambio-resto e w _ h.dentro refl refl refl refl refl)

  terminar-Cambio :
      (s : Kernel e) (q : Pcb) (o : Option (Pcb × Kernel e))
      → Si (λ x. (x.0.pid ≡ q.pid) × Quieto e w p s (x.1)) o
      → Si (λ s'. Cambio e w s s' 0 (w lista_exit q.pid)) (terminar e o)
  unfolding terminar
  terminar-Cambio s q none h = Si-none
  terminar-Cambio s q (some (q', t)) h =
      Si-mono (actualizar_estado_pcb-Cambio e w t q' exitt lista_exit) (λ s' k.
        Cambio-trans e w h.dentro.1.cambio k (omega (arith, ap (w lista_exit) (h.dentro.0))))

  -- A process that does not run, and has been taken out of its list, ends.
  pub eliminar_proceso-Cambio :
      (s : Kernel e) (q : Pcb)
      → proceso_en_running e s q ≡ false
      → Si (λ s'. Cambio e w s s' 0 (w lista_exit q.pid)) (eliminar_proceso e s q)
  unfolding eliminar_proceso
  eliminar_proceso-Cambio s q h = rw h (
      avisar_a_memoria-Cambio s 0 _ q.pid _
        (terminar-Cambio s q _ (liberar_recursos_tomados-Quieto e w p s q)))

  pub admitir-Cambio :
      (s : Kernel e)
      → Si
          (λ s'.
            Cambio e w s s' 0 0
            ⊎ ((pid : ℕ) × Cambio e w s s' (w lista_new pid) (w lista_blocked pid)))
          (admitir e s)
  unfolding admitir
  admitir-Cambio s =
      Si-libre s.m_list_new_tomado (elim (Bool-cases (length (s.listas lista_new) == 0)) [
        | inl h ↦ rw h (
            Si-some (
              inl (
                Cambio-resto e w (record s { m_list_new_tomado = true }) (nada-Cambio e w s) refl
                  refl refl refl refl)))
        | inr h ↦ rw h (
            Si-seguir _ (remover_primero-Cambio e w s lista_new) (λ r k.
              Si-mono
                (avisar_ready-Cambio e w s (w lista_new (r.0.pid)) (w lista_blocked (r.0.pid)) _ (
                  Si-mono (actualizar_estado_pcb-Cambio e w (r.1) (r.0) ready lista_ready)
                    (λ t m. Cambio-trans e w k m (omega (arith, p.ready_blocked (r.0.pid))))))
                (λ t m. inr (r.0.pid, m))))
      ])

  -- A new process gets the next pid.
  pub crear_proceso-medida :
      (s : Kernel e) (ruta : Texto)
      → medida e w (crear_proceso e s ruta) ≡ medida e w s + w lista_new s.ultimo_pid
  unfolding crear_proceso crear_pcb enviar_paquete
  crear_proceso-medida s ruta =
      omega (arith, (agregar-Cambio e w _ (crear_pcb s.ultimo_pid) lista_new).medidas)

  -- What `hayar_pcb` answers: nothing moved, or the process was taken out of a list where none runs.
  abbrev Hallado : Kernel e → ℕ → Option Pcb × Kernel e → Type 0
  Hallado s pid (none, s') = Cambio e w s s' 0 0
  Hallado s pid (some q, s') =
      (l : Lista) × (l ≢ lista_running) × (remover_con_pid e s l pid ≡ some (q, s'))

  quitado_o-Hallado :
      (s : Kernel e) (pid : ℕ) (l : Lista) (o : Option (Pcb × Kernel e)) (r : Option Pcb × Kernel e)
      → l ≢ lista_running
      → remover_con_pid e s l pid ≡ o
      → Hallado s pid r
      → Hallado s pid (quitado_o e o r)
  unfolding quitado_o
  quitado_o-Hallado s pid l none r fuera h k = k
  quitado_o-Hallado s pid l (some (q, t)) r fuera h k = (l, fuera, h)

  buscar_en_listas-Hallado :
      (s : Kernel e) (pid : ℕ) (ls : List Lista)
      → All (λ l. l ≢ lista_running) ls
      → Hallado s pid (buscar_en_listas e s ls pid)
  unfolding buscar_en_listas enviar_paquete
  buscar_en_listas-Hallado s pid [] h = elim (Bool-cases (s.pid_ejecutando == pid)) [
    | inl b ↦ rw b (Cambio-resto e w _ (nada-Cambio e w s) refl refl refl refl refl)
    | inr b ↦ rw b (nada-Cambio e w s)
  ]
  buscar_en_listas-Hallado s pid (l ∷ ls) (fuera, h) =
      quitado_o-Hallado s pid l (remover_con_pid e s l pid) _ fuera refl
        (buscar_en_listas-Hallado s pid ls h)

  no_es : {l : Lista} → numero l ≢ 3 → l ≢ lista_running
  no_es h k = h (ap numero k)

  hayar_pcb-Hallado : (s : Kernel e) (pid : ℕ) → Hallado s pid (hayar_pcb e s pid)
  unfolding hayar_pcb
  hayar_pcb-Hallado s pid =
      buscar_en_listas-Hallado s pid (lista_new ∷ lista_ready ∷ lista_blocked ∷ lista_auxiliar ∷ [])
        (
          no_es (ground arith),
          (no_es (ground arith), (no_es (ground arith), (no_es (ground arith), tt))),
        )

  -- Ending a process that is there once moves it to EXIT, or leaves all as it is.
  abbrev pub Finaliza : ℕ → Kernel e → Kernel e → Type 0
  Finaliza pid s s' =
      Cambio e w s s' 0 0
      ⊎ ((l : Lista) × (l ≢ lista_running) × Cambio e w s s' (w l pid) (w lista_exit pid))

  tras_hayar-Finaliza :
      (s : Kernel e) (pid : ℕ) (r : Option Pcb × Kernel e)
      → veces e s pid ≤ 1
      → Hallado s pid r
      → Si (Finaliza pid s) (tras_hayar e r)
  unfolding tras_hayar
  tras_hayar-Finaliza s pid (none, t) unico h = Si-some (inl h)
  tras_hayar-Finaliza s pid (some q, t) unico (l, fuera, h) =
      let c = de_si (remover_con_pid-Cambio e w s l pid) h in
      let v = de_si (remover_con_pid-Cambio e (uno pid) s l pid) h in
      let mismo = de_si (remover_con_pid-clave e s l pid) h in
      Si-mono
        (eliminar_proceso-Cambio t q (
          no_corre e t q (
            subst (λ i. veces e t i ≡ 0) (sym mismo)
              (omega (arith, v.medidas, uno_propio pid, unico)))))
        (λ u k. inr (l, fuera, Cambio-trans e w c k (omega (arith, ap (w lista_exit) mismo))))

  pub finalizar_proceso-Finaliza :
      (s : Kernel e) (pid : ℕ) → veces e s pid ≤ 1 → Si (Finaliza pid s) (finalizar_proceso e s pid)
  unfolding finalizar_proceso
  finalizar_proceso-Finaliza s pid unico =
      tras_hayar-Finaliza s pid _ unico (hayar_pcb-Hallado s pid)
