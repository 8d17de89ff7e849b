-- ===== src/Kernel/Pasos/Invariante/Pasa.antt =====
-- Every step keeps what holds of the states of the kernel.
use tp_sisop_1c.Prelude.Int.{ltb_ℤ, pos}
use tp_sisop_1c.Kernel.Movimientos.{Cambio-resto, nada-Cambio, Cambio-trans}
use tp_sisop_1c.Kernel.Procesos.{mover_a_ready, cantidad_en_sistema}
use tp_sisop_1c.Kernel.Movimientos.Largo.{
  crear_proceso-medida, Finaliza, finalizar_proceso-Finaliza, veces, admitir-Cambio,
}
use tp_sisop_1c.Kernel.Pasos.Invariante.{
  Efecto, Ordenado, uno, corre, corre-Pareja, dado, medida, uno-Pareja, Cambio, unico,
}
use tp_sisop_1c.Kernel.Movimientos.Corto.{Ejecuta, planificar_segun-Ejecuta, Pareja}
use tp_sisop_1c.Prelude.{
  suc, refl, [], some, inl, inr, ◌∷◌, ◌≡◌, ℕ, Bool-cases, ◌==◌, ◌||◌, arith, length-append, false,
  ◌+◌, ◌-◌, ◌<◌, ◌∙◌, ◌≤◌, length, ap, ◌⊎◌,
}
use tp_sisop_1c.Kernel.{
  lista_blocked, lista_new, fifo, rr, vrr, invalido, Entorno, Kernel, enviar_paquete, Algoritmo,
  Texto, ℤ, new, Lista,
}
use tp_sisop_1c.Kernel.Procesos.{crear_proceso, finalizar_proceso, crear_pcb}
use tp_sisop_1c.Kernel.Planificacion.{
  planificador_corto_plazo, tomar_turno, con_turno, agregar_a_lista_con_semaforos, escribir,
}
use tp_sisop_1c.Kernel.Pasos.{mover_a_ready}
use tp_sisop_1c.Prelude.Opciones.{Si, Si-none, Si-some, Si-mono, de_si}

dado-siguiente :
    (ultimo pid : ℕ)
    → 0 < ultimo
    → dado ultimo pid + uno pid lista_new ultimo ≡ dado (ultimo + 1) pid
dado-siguiente ultimo pid h = ground arith

module _ (e : Entorno) where
  -- A turn takes the CPU, and nothing else that is counted.
  pub record Turno (s t : Kernel e) : Type 0 where
    pub listas : t.listas ≡ s.listas
    pub ultimo : t.ultimo_pid ≡ s.ultimo_pid
    pub estados : t.estados_procesos ≡ s.estados_procesos
    pub cpu : suc t.sem_cpu_free_to_execute ≡ s.sem_cpu_free_to_execute

  con_turno-Turno :
      (s : Kernel e) (a : Algoritmo) (t : Kernel e) → Turno s t → Si (Turno s) (con_turno e a t)
  unfolding con_turno
  con_turno-Turno s rr t h = elim (Bool-cases (t.sem_interruption_quantum == 0)) [
    | inl b ↦ rw b Si-none
    | inr b ↦ rw b (
        Si-some (record { listas = h.listas; ultimo = h.ultimo; estados = h.estados; cpu = h.cpu }))
  ]
  con_turno-Turno s fifo t h = Si-some h
  con_turno-Turno s vrr t h = Si-some h
  con_turno-Turno s invalido t h = Si-some h

  pub tomar_turno-Turno : (s : Kernel e) → Si (Turno s) (tomar_turno e s)
  unfolding tomar_turno
  tomar_turno-Turno s =
      elim (Bool-cases (s.sem_cpu_free_to_execute == 0 || s.sem_process_in_ready == 0)) [
        | inl b ↦ rw b Si-none
        | inr b ↦ rw b (
            con_turno-Turno s e.algoritmo _
              (record { listas = refl; ultimo = refl; estados = refl; cpu = ground arith }))
      ]

  Ejecuta-veces :
      {t s' : Kernel e} (pid : ℕ) → Ejecuta e (uno pid) t s' → veces e s' pid ≡ veces e t pid
  Ejecuta-veces pid (inl c) = omega (arith, c.medidas)
  Ejecuta-veces pid (inr (q, c)) = omega (arith, c.medidas)

  Ejecuta-ultimo : {t s' : Kernel e} → Ejecuta e corre t s' → s'.ultimo_pid ≡ t.ultimo_pid
  Ejecuta-ultimo (inl c) = c.ultimo
  Ejecuta-ultimo (inr (q, c)) = c.ultimo

  Ejecuta-estados :
      {t s' : Kernel e}
      → Ejecuta e corre t s'
      → length s'.estados_procesos ≡ length t.estados_procesos
  Ejecuta-estados (inl c) = c.estados
  Ejecuta-estados (inr (q, c)) = c.estados

  -- One more may run.
  Ejecuta-corren :
      {t s' : Kernel e}
      → Ejecuta e corre t s'
      → medida e corre s' + s'.sem_cpu_free_to_execute
        ≤ suc (medida e corre t + t.sem_cpu_free_to_execute)
  Ejecuta-corren (inl c) = omega (arith, c.medidas, c.cpu)
  Ejecuta-corren (inr (q, c)) = omega (arith, c.medidas, c.cpu)

  Ejecuta-Efecto :
      {s t s' : Kernel e}
      → Turno s t
      → ((pid : ℕ) → Ejecuta e (uno pid) t s')
      → Ejecuta e corre t s'
      → Efecto e s s'
  Ejecuta-Efecto {s = s} {t = t} {s' = s'} h k c =
      let m : medida e corre t ≡ medida e corre s = rw h.listas refl in
      record {
        todos = λ pid.
            let v : veces e t pid ≡ veces e s pid = rw h.listas refl in
            Ejecuta-veces pid (k pid) ∙ v;
        ultimo = Ejecuta-ultimo c ∙ h.ultimo;
        estados = Ejecuta-estados c ∙ ap length h.estados;
        corren = omega (arith, Ejecuta-corren c, h.cpu, m);
      }

  pub planificar-Efecto :
      {s t s' : Kernel e} (ahora : ℤ)
      → Turno s t
      → planificador_corto_plazo e t ahora ≡ some s'
      → Efecto e s s'
  unfolding planificador_corto_plazo
  planificar-Efecto {t = t} ahora h igual =
      Ejecuta-Efecto h
        (λ pid.
          de_si (planificar_segun-Ejecuta e (uno pid) (uno-Pareja e pid) e.algoritmo t ahora) igual)
        (de_si (planificar_segun-Ejecuta e corre (corre-Pareja e) e.algoritmo t ahora) igual)

  Finaliza-veces :
      {s s' : Kernel e} (pid q : ℕ)
      → Finaliza e (uno q) (uno-Pareja e q) pid s s'
      → veces e s' q ≡ veces e s q
  Finaliza-veces pid q (inl c) = omega (arith, c.medidas)
  Finaliza-veces pid q (inr (l, fuera, c)) = omega (arith, c.medidas)

  Finaliza-Efecto :
      {s s' : Kernel e} (pid : ℕ)
      → ((q : ℕ) → Finaliza e (uno q) (uno-Pareja e q) pid s s')
      → Finaliza e corre (corre-Pareja e) pid s s'
      → Efecto e s s'
  Finaliza-Efecto pid h (inl c) = record {
    todos = λ q. Finaliza-veces pid q (h q);
    ultimo = c.ultimo;
    estados = c.estados;
    corren = omega (arith, c.medidas, c.cpu);
  }
  Finaliza-Efecto pid h (inr (l, fuera, c)) = record {
    todos = λ q. Finaliza-veces pid q (h q);
    ultimo = c.ultimo;
    estados = c.estados;
    corren = omega (arith, c.medidas, c.cpu);
  }

  pub finalizar-Efecto :
      {s s' : Kernel e} (pid : ℕ)
      → Ordenado e s
      → finalizar_proceso e s pid ≡ some s'
      → Efecto e s s'
  finalizar-Efecto {s = s} pid o igual =
      Finaliza-Efecto pid
        (λ q.
          de_si (finalizar_proceso-Finaliza e (uno q) (uno-Pareja e q) s pid (unico e o pid)) igual)
        (de_si (finalizar_proceso-Finaliza e corre (corre-Pareja e) s pid (unico e o pid)) igual)

  abbrev Admite : (Lista → ℕ → ℕ) → Kernel e → Kernel e → Type 0
  Admite w s s' =
      Cambio e w s s' 0 0 ⊎ ((pid : ℕ) × Cambio e w s s' (w lista_new pid) (w lista_blocked pid))

  Admite-veces : {s s' : Kernel e} (q : ℕ) → Admite (uno q) s s' → veces e s' q ≡ veces e s q
  Admite-veces q (inl c) = omega (arith, c.medidas)
  Admite-veces q (inr (pid, c)) = omega (arith, c.medidas)

  Admite-Efecto :
      {s s' : Kernel e} → ((q : ℕ) → Admite (uno q) s s') → Admite corre s s' → Efecto e s s'
  Admite-Efecto h (inl c) = record {
    todos = λ q. Admite-veces q (h q);
    ultimo = c.ultimo;
    estados = c.estados;
    corren = omega (arith, c.medidas, c.cpu);
  }
  Admite-Efecto h (inr (pid, c)) = record {
    todos = λ q. Admite-veces q (h q);
    ultimo = c.ultimo;
    estados = c.estados;
    corren = omega (arith, c.medidas, c.cpu);
  }

  mover_a_ready-Admite :
      (w : Lista → ℕ → ℕ) (p : Pareja e w) (s : Kernel e) → Si (Admite w s) (mover_a_ready e s)
  unfolding mover_a_ready
  mover_a_ready-Admite w p s =
      let t : Kernel e = record s {
        sem_grado_multiprogramacion = s.sem_grado_multiprogramacion - 1;
        moviendo = false;
      } in
      let c : Cambio e w s t 0 0 =
        Cambio-resto e w t (nada-Cambio e w s) refl refl refl refl refl in
      elim (Bool-cases (ltb_ℤ (pos (cantidad_en_sistema e s)) s.grado_multiprogramacion)) [
        | inl b ↦ rw b (
            Si-mono (admitir-Cambio e w p t) (λ u k. elim k [
              | inl m ↦ inl (Cambio-trans e w c m refl)
              | inr (pid, m) ↦ inr (pid, Cambio-trans e w c m (omega arith))
            ]))
        | inr b ↦
            rw b (Si-some (inl (Cambio-resto e w _ (nada-Cambio e w s) refl refl refl refl refl)))
      ]

  pub mover_a_ready-Efecto : {s s' : Kernel e} → mover_a_ready e s ≡ some s' → Efecto e s s'
  mover_a_ready-Efecto {s = s} igual =
      Admite-Efecto (λ q. de_si (mover_a_ready-Admite (uno q) (uno-Pareja e q) s) igual)
        (de_si (mover_a_ready-Admite corre (corre-Pareja e) s) igual)

  pub crear-Ordenado :
      (s : Kernel e) (ruta : Texto) → Ordenado e s → Ordenado e (crear_proceso e s ruta)
  unfolding crear_proceso enviar_paquete agregar_a_lista_con_semaforos escribir crear_pcb
  crear-Ordenado s ruta o = record {
    en_una_lista = λ pid.
        crear_proceso-medida e (uno pid) (uno-Pareja e pid) s ruta
        ∙ ap (λ n. n + uno pid lista_new s.ultimo_pid) (o.en_una_lista pid)
        ∙ dado-siguiente s.ultimo_pid pid (omega (arith, o.con_estado));
    con_estado = omega (arith, o.con_estado, length-append s.estados_procesos (new ∷ []));
    uno_corre = omega (arith, crear_proceso-medida e corre (corre-Pareja e) s ruta, o.uno_corre);
  }
