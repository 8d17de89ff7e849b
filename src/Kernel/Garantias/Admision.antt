-- ===== src/Kernel/Garantias/Admision.antt =====
-- How many processes are let in (`mover_a_ready` of kernel/src/conexion/conexion.c).
use tp_sisop_1c.Kernel.Pasos.Invariante.Pasa.{tomar_turno-Turno}
use tp_sisop_1c.Prelude.Int.{pos, ltb_ℤ, ◌≤ℤ◌}
use tp_sisop_1c.Kernel.Movimientos.Pedidos.{
  Atiende, instruccion_io-Atiende, contexto_ejecucion-Atiende, fin_io-Cambio, io_ocupada-Cambio,
  error_io-Cambio,
}
use tp_sisop_1c.Kernel.Pasos.Invariante.{Ordenado, unico}
use tp_sisop_1c.Kernel.Movimientos.Largo.{
  Finaliza, crear_proceso-medida, finalizar_proceso-Finaliza, admitir-Cambio,
}
use tp_sisop_1c.Kernel.Movimientos.Despacho.{Suelta}
use tp_sisop_1c.Kernel.Movimientos.{Cambio, medida, pesos}
use tp_sisop_1c.Kernel.Movimientos.Corto.{Pareja, Ejecuta, planificar_segun-Ejecuta}
use tp_sisop_1c.Prelude.{
  refl, [], true, false, some, inl, inr, ◌-◌, ◌∷◌, ◌≡◌, ◌≤◌, ℕ, if◌then◌else◌, List, Bool,
  Bool-cases, arith, ◌==◌, ◌⊎◌, subst, ◌||◌, length, sym, tests,
}
use tp_sisop_1c.Kernel.{
  lista_new, lista_ready, lista_blocked, lista_running, lista_exit, lista_auxiliar, Entorno, Lista,
  Kernel, enviar_paquete, Pcb, ℤ,
}
use tp_sisop_1c.Kernel.Interfaces.{registrar_interfaz}
use tp_sisop_1c.Kernel.Procesos.{
  empezar_a_mover, mover_a_ready, cantidad_en_sistema, fin_crea_pro, incrementar_grado_multi,
  crear_proceso,
}
use tp_sisop_1c.Kernel.Planificacion.{
  fin_de_quantum, interrumpir_proceso, planificador_corto_plazo, numero, tomar_turno,
}
use tp_sisop_1c.Kernel.Recursos.{soltar_cpu}
use tp_sisop_1c.Kernel.Consola.{
  detener_planificacion, iniciar_planificacion, cambiar_multiprogramacion,
}
use tp_sisop_1c.Kernel.Pasos.{
  Paso, planificar, cumplir_quantum, crear, finalizar, recibir_fin_crea_pro, recibir_fin_term_pro,
  empezar_mover, mover, recibir_io, recibir_contexto, recibir_fin_io, recibir_ocupada,
  recibir_error, conectar, detener, iniciar, cambiar_grado,
}
use tp_sisop_1c.Prelude.Opciones.{Si, Si-none, Si-some, Si-mono, de_si}

-- One for each process that counts for the degree of multiprogramming.
abbrev activo : Lista → ℕ → ℕ
activo l pid = if numero l == 0 || numero l == 4 then 0 else 1

pesos_uno : (f : ℕ → ℕ) (xs : List Pcb) → ((pid : ℕ) → f pid ≡ 1) → pesos f xs ≡ length xs
pesos_uno f [] h = refl
pesos_uno f (x ∷ xs) h = omega (arith, h x.pid, pesos_uno f xs h)

pesos_cero : (f : ℕ → ℕ) (xs : List Pcb) → ((pid : ℕ) → f pid ≡ 0) → pesos f xs ≡ 0
pesos_cero f [] h = refl
pesos_cero f (x ∷ xs) h = omega (arith, h x.pid, pesos_cero f xs h)

module _ (e : Entorno) where
  activo-Pareja : Pareja e activo
  activo-Pareja = record { ready_blocked = λ _. refl; auxiliar_blocked = λ _. refl }

  cantidad_lem : (s : Kernel e) → cantidad_en_sistema e s ≡ medida e activo s
  unfolding cantidad_en_sistema
  cantidad_lem s = omega (
    arith,
    pesos_cero (activo lista_new) (s.listas lista_new) (λ _. refl),
    pesos_uno (activo lista_ready) (s.listas lista_ready) (λ _. refl),
    pesos_uno (activo lista_blocked) (s.listas lista_blocked) (λ _. refl),
    pesos_uno (activo lista_running) (s.listas lista_running) (λ _. refl),
    pesos_cero (activo lista_exit) (s.listas lista_exit) (λ _. refl),
    pesos_uno (activo lista_auxiliar) (s.listas lista_auxiliar) (λ _. refl),
  )

  -- No more than there were.
  abbrev NoMas : Kernel e → Kernel e → Type 0
  NoMas s s' = medida e activo s' ≤ medida e activo s

  de_Cambio : {s s' : Kernel e} {a b : ℕ} → Cambio e activo s s' a b → b ≤ a → NoMas s s'
  de_Cambio c h = omega (arith, c.medidas, h)

  de_Suelta :
      {s s' : Kernel e} {a b : ℕ} → Suelta e activo activo-Pareja s s' a b → b ≤ a → NoMas s s'
  unfolding soltar_cpu
  de_Suelta {s = s} h menos =
      subst (λ (t : Kernel e). medida e activo t ≤ medida e activo s) (sym h.cpu)
        (omega (arith, h.cambio.medidas, menos))

  de_Atiende : {s s' : Kernel e} (q : Pcb) → Atiende e activo activo-Pareja q s s' → NoMas s s'
  de_Atiende q (inl c) = de_Cambio c (omega arith)
  de_Atiende q (inr (inl h)) = de_Suelta h (omega arith)
  de_Atiende q (inr (inr h)) = de_Suelta h (omega arith)

  de_Ejecuta : {s s' : Kernel e} → Ejecuta e activo s s' → NoMas s s'
  de_Ejecuta (inl c) = de_Cambio c (omega arith)
  de_Ejecuta (inr (pid, c)) = de_Cambio c (omega arith)

  de_Finaliza : {s s' : Kernel e} (pid : ℕ) → Finaliza e activo activo-Pareja pid s s' → NoMas s s'
  de_Finaliza pid (inl c) = de_Cambio c (omega arith)
  de_Finaliza pid (inr (l, fuera, c)) = de_Cambio c (omega arith)

  de_listas : (s s' : Kernel e) → s'.listas ≡ s.listas → NoMas s s'
  de_listas s s' h = rw h (omega arith)

  de_if : (s t : Kernel e) (b : Bool) → t.listas ≡ s.listas → NoMas s (if b then t else s)
  de_if s t true h = de_listas s t h
  de_if s t false h = de_listas s s refl

  de_if_no : (s t : Kernel e) (b : Bool) → t.listas ≡ s.listas → NoMas s (if b then s else t)
  de_if_no s t true h = de_listas s s refl
  de_if_no s t false h = de_listas s t h

  planificar-NoMas :
      (s t s' : Kernel e) (ahora : ℤ)
      → tomar_turno e s ≡ some t
      → planificador_corto_plazo e t ahora ≡ some s'
      → NoMas s s'
  unfolding planificador_corto_plazo
  planificar-NoMas s t s' ahora turno igual =
      subst
        (λ (l : Lista → List Pcb). medida e activo s' ≤ medida e activo (record s { listas = l }))
        (de_si (tomar_turno-Turno e s) turno).listas
        (de_Ejecuta
          (de_si (planificar_segun-Ejecuta e activo activo-Pareja e.algoritmo t ahora) igual))

  -- At most as many as the degree allows, or no more than there were.
  abbrev pub Cabe : Kernel e → Kernel e → Type 0
  Cabe s s' =
      (cantidad_en_sistema e s' ≤ cantidad_en_sistema e s)
      ⊎ (pos (cantidad_en_sistema e s') ≤ℤ s.grado_multiprogramacion)

  sin_mas : (s s' : Kernel e) → NoMas s s' → Cabe s s'
  sin_mas s s' h = inl (omega (arith, cantidad_lem s, cantidad_lem s', h))

  mover_a_ready-Cabe : (s : Kernel e) → Si (Cabe s) (mover_a_ready e s)
  unfolding mover_a_ready
  mover_a_ready-Cabe s =
      let t : Kernel e = record s {
        sem_grado_multiprogramacion = s.sem_grado_multiprogramacion - 1;
        moviendo = false;
      } in
      let t' : Kernel e = record s {
        sem_grado_multiprogramacion = s.sem_grado_multiprogramacion - 1;
      } in
      elim (Bool-cases (ltb_ℤ (pos (cantidad_en_sistema e s)) s.grado_multiprogramacion)) [
        | inl b ↦ rw b (
            Si-mono (admitir-Cambio e activo activo-Pareja t) (λ u k. elim k [
              | inl m ↦ sin_mas s u (de_Cambio {s = t} m (omega arith))
              | inr (pid, m) ↦ inr (omega (tests, m.medidas, cantidad_lem s, cantidad_lem u, b))
            ]))
        | inr b ↦ rw b (Si-some (sin_mas s t' (de_listas s t' refl)))
      ]

  fin_de_quantum-NoMas : (s : Kernel e) (pid : ℕ) → NoMas s (fin_de_quantum e s pid)
  unfolding fin_de_quantum interrumpir_proceso enviar_paquete
  fin_de_quantum-NoMas s pid = de_if s _ (pid == s.pid_ejecutando) refl

  empezar_a_mover-NoMas : (s : Kernel e) → Si (NoMas s) (empezar_a_mover e s)
  unfolding empezar_a_mover
  empezar_a_mover-NoMas s =
      elim (Bool-cases (s.moviendo || s.sem_proceso_se_creo_en_memoria == 0)) [
        | inl b ↦ rw b Si-none
        | inr b ↦ rw b (
            Si-some (
              de_listas s
                (record s {
                  moviendo = true;
                  sem_proceso_se_creo_en_memoria = s.sem_proceso_se_creo_en_memoria - 1;
                })
                refl))
      ]

  -- A step from a well-formed state leaves no more processes ready, running and blocked than there
  -- were, or at most as many as the degree of multiprogramming before the step allows.
  pub Paso-Cabe : (s s' : Kernel e) → Ordenado e s → Paso e s s' → Cabe s s'
  unfolding fin_crea_pro incrementar_grado_multi registrar_interfaz detener_planificacion
      iniciar_planificacion cambiar_multiprogramacion
  Paso-Cabe s _ o (planificar ahora {t = t} {s' = s'} libre turno igual) =
      sin_mas s s' (planificar-NoMas s t s' ahora turno igual)
  Paso-Cabe s _ o (cumplir_quantum pid) =
      sin_mas s (fin_de_quantum e s pid) (fin_de_quantum-NoMas s pid)
  Paso-Cabe s _ o (crear ruta libre) =
      sin_mas s (crear_proceso e s ruta)
        (omega (arith, crear_proceso-medida e activo activo-Pareja s ruta))
  Paso-Cabe s _ o (finalizar pid {s' = s'} libre igual) = sin_mas s s' (
      de_Finaliza pid
        (de_si (finalizar_proceso-Finaliza e activo activo-Pareja s pid (unico e o pid)) igual))
  Paso-Cabe s _ o recibir_fin_crea_pro =
      sin_mas s (fin_crea_pro e s) (de_listas s (fin_crea_pro e s) refl)
  Paso-Cabe s _ o recibir_fin_term_pro =
      sin_mas s (incrementar_grado_multi e s) (de_listas s (incrementar_grado_multi e s) refl)
  Paso-Cabe s _ o (empezar_mover {s' = s'} igual) =
      sin_mas s s' (de_si (empezar_a_mover-NoMas s) igual)
  Paso-Cabe s _ o (mover m g igual) = de_si (mover_a_ready-Cabe s) igual
  Paso-Cabe s _ o (recibir_io ahora q i x {s' = s'} h igual) = sin_mas s s' (
      de_Atiende q (
        de_si (instruccion_io-Atiende e activo activo-Pareja s ahora q i x (unico e o q.pid) h)
          igual))
  Paso-Cabe s _ o (recibir_contexto ahora q m {s' = s'} h igual) = sin_mas s s' (
      de_Atiende q (
        de_si (contexto_ejecucion-Atiende e activo activo-Pareja s ahora q m (unico e o q.pid) h)
          igual))
  Paso-Cabe s _ o (recibir_fin_io i pid {s' = s'} igual) =
      sin_mas s s'
        (de_Cambio (de_si (fin_io-Cambio e activo activo-Pareja s i pid) igual) (omega arith))
  Paso-Cabe s _ o (recibir_ocupada i pid x {s' = s'} igual) =
      sin_mas s s'
        (de_Cambio (de_si (io_ocupada-Cambio e activo activo-Pareja s i pid x) igual) (omega arith))
  Paso-Cabe s _ o (recibir_error pid {s' = s'} igual) = sin_mas s s' (
      de_Cambio (de_si (error_io-Cambio e activo activo-Pareja s pid (unico e o pid)) igual)
        (omega arith))
  Paso-Cabe s _ o (conectar nombre tipo) =
      sin_mas s (registrar_interfaz e s nombre tipo)
        (de_listas s (registrar_interfaz e s nombre tipo) refl)
  Paso-Cabe s _ o (detener h) = sin_mas s (detener_planificacion e s) (de_if s _ _ refl)
  Paso-Cabe s _ o iniciar = sin_mas s (iniciar_planificacion e s) (de_if_no s _ _ refl)
  Paso-Cabe s _ o (cambiar_grado valor) =
      sin_mas s (cambiar_multiprogramacion e s valor)
        (de_listas s (cambiar_multiprogramacion e s valor) refl)
