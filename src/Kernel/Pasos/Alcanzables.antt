-- ===== src/Kernel/Pasos/Alcanzables.antt =====
-- The states that the kernel can come to are well-formed.
use tp_sisop_1c.Kernel.Pasos.Invariante.Pasa.{
  planificar-Efecto, tomar_turno-Turno, crear-Ordenado, finalizar-Efecto, mover_a_ready-Efecto,
}
use tp_sisop_1c.Kernel.Recursos.{recursos_init}
use tp_sisop_1c.Kernel.Consola.{
  detener_planificacion, iniciar_planificacion, cambiar_multiprogramacion,
}
use tp_sisop_1c.Kernel.Procesos.{fin_crea_pro, incrementar_grado_multi}
use tp_sisop_1c.Kernel.Movimientos.Pedidos.{
  error_io-Cambio, uno-Pareja, instruccion_io-Atiende, contexto_ejecucion-Atiende, fin_io-Cambio,
  io_ocupada-Cambio,
}
use tp_sisop_1c.Kernel.Movimientos.Largo.{uno}
use tp_sisop_1c.Kernel.Pasos.Invariante.{
  Efecto, Ordenado, dado, de_Cambios, resto-Efecto, unico, corre, corre-Pareja, Efecto-Ordenado,
  Atiende-Efecto, Quieto_de,
}
use tp_sisop_1c.Prelude.{
  refl, true, false, some, inl, inr, ◌≡◌, ℕ, Bool, Bool-cases, arith, if◌then◌else◌, ◌==◌, ◌||◌,
  List,
}
use tp_sisop_1c.Kernel.Interfaces.{error_io, registrar_interfaz}
use tp_sisop_1c.Kernel.{
  lista_blocked, lista_exit, Entorno, Kernel, enviar_paquete, iniciar_kernel, ℤ, Texto,
}
use tp_sisop_1c.Kernel.Procesos.{empezar_a_mover}
use tp_sisop_1c.Kernel.Planificacion.{fin_de_quantum, interrumpir_proceso}
use tp_sisop_1c.Kernel.Pasos.{
  Paso, Alcanzable, inicio, despues, planificar, cumplir_quantum, crear, finalizar,
  recibir_fin_crea_pro, recibir_fin_term_pro, empezar_mover, mover, recibir_io, recibir_contexto,
  recibir_fin_io, recibir_ocupada, recibir_error, conectar, detener, iniciar, cambiar_grado,
  fin_crea_pro, recursos_init, incrementar_grado_multi, detener_planificacion,
  iniciar_planificacion, cambiar_multiprogramacion,
}
use tp_sisop_1c.Prelude.Opciones.{Si, Si-none, Si-some, de_si}

module _ (e : Entorno) where
  fin_de_quantum-Efecto : (s : Kernel e) (pid : ℕ) → Efecto e s (fin_de_quantum e s pid)
  unfolding fin_de_quantum interrumpir_proceso enviar_paquete
  fin_de_quantum-Efecto s pid = elim (Bool-cases (pid == s.pid_ejecutando)) [
    | inl b ↦ rw b (resto-Efecto e _ refl refl refl refl)
    | inr b ↦ rw b (resto-Efecto e _ refl refl refl refl)
  ]

  empezar_a_mover-Efecto : (s : Kernel e) → Si (Efecto e s) (empezar_a_mover e s)
  unfolding empezar_a_mover
  empezar_a_mover-Efecto s =
      elim (Bool-cases (s.moviendo || s.sem_proceso_se_creo_en_memoria == 0)) [
        | inl b ↦ rw b Si-none
        | inr b ↦ rw b (Si-some (resto-Efecto e _ refl refl refl refl))
      ]

  consola-Efecto :
      (s : Kernel e) (b : Bool) (t : Kernel e) → Efecto e s t → Efecto e s (if b then t else s)
  consola-Efecto s true t h = h
  consola-Efecto s false t h = resto-Efecto e s refl refl refl refl

  pausa-Efecto :
      (s : Kernel e) (b : Bool) (t : Kernel e) → Efecto e s t → Efecto e s (if b then s else t)
  pausa-Efecto s true t h = resto-Efecto e s refl refl refl refl
  pausa-Efecto s false t h = h

  error_io-Efecto :
      (s : Kernel e) (pid : ℕ) {s' : Kernel e}
      → Ordenado e s
      → error_io e s pid ≡ some s'
      → Efecto e s s'
  error_io-Efecto s pid o igual =
      de_Cambios e (λ q. uno q lista_blocked pid) (λ q. uno q lista_exit pid)
        (λ q. de_si (error_io-Cambio e (uno q) (uno-Pareja e q) s pid (unico e o pid)) igual)
        (λ q. refl) (de_si (error_io-Cambio e corre (corre-Pareja e) s pid (unico e o pid)) igual)
        (omega arith)

  Paso-Ordenado : {s s' : Kernel e} → Paso e s s' → Ordenado e s → Ordenado e s'
  unfolding fin_crea_pro incrementar_grado_multi registrar_interfaz detener_planificacion
      iniciar_planificacion cambiar_multiprogramacion
  Paso-Ordenado (planificar ahora libre turno igual) o =
      Efecto-Ordenado e (planificar-Efecto e ahora (de_si (tomar_turno-Turno e _) turno) igual) o
  Paso-Ordenado (cumplir_quantum pid) o = Efecto-Ordenado e (fin_de_quantum-Efecto _ pid) o
  Paso-Ordenado (crear ruta libre) o = crear-Ordenado e _ ruta o
  Paso-Ordenado (finalizar pid libre igual) o = Efecto-Ordenado e (finalizar-Efecto e pid o igual) o
  Paso-Ordenado recibir_fin_crea_pro o = Efecto-Ordenado e (resto-Efecto e _ refl refl refl refl) o
  Paso-Ordenado recibir_fin_term_pro o = Efecto-Ordenado e (resto-Efecto e _ refl refl refl refl) o
  Paso-Ordenado (empezar_mover igual) o =
      Efecto-Ordenado e (de_si (empezar_a_mover-Efecto _) igual) o
  Paso-Ordenado (mover m g igual) o = Efecto-Ordenado e (mover_a_ready-Efecto e igual) o
  Paso-Ordenado (recibir_io ahora q i x h igual) o =
      Efecto-Ordenado e
        (Atiende-Efecto e q
          (λ pid.
            de_si
              (instruccion_io-Atiende e (uno pid) (uno-Pareja e pid) _ ahora q i x (unico e o q.pid)
                h)
              igual)
          (de_si (instruccion_io-Atiende e corre (corre-Pareja e) _ ahora q i x (unico e o q.pid) h)
            igual))
        o
  Paso-Ordenado (recibir_contexto ahora q m h igual) o =
      Efecto-Ordenado e
        (Atiende-Efecto e q
          (λ pid.
            de_si
              (contexto_ejecucion-Atiende e (uno pid) (uno-Pareja e pid) _ ahora q m
                (unico e o q.pid) h)
              igual)
          (de_si
            (contexto_ejecucion-Atiende e corre (corre-Pareja e) _ ahora q m (unico e o q.pid) h)
            igual))
        o
  Paso-Ordenado (recibir_fin_io i pid igual) o =
      Efecto-Ordenado e (Quieto_de e (λ w p. de_si (fin_io-Cambio e w p _ i pid) igual)) o
  Paso-Ordenado (recibir_ocupada i pid x igual) o =
      Efecto-Ordenado e (Quieto_de e (λ w p. de_si (io_ocupada-Cambio e w p _ i pid x) igual)) o
  Paso-Ordenado (recibir_error pid igual) o = Efecto-Ordenado e (error_io-Efecto _ pid o igual) o
  Paso-Ordenado (conectar nombre tipo) o =
      Efecto-Ordenado e (resto-Efecto e _ refl refl refl refl) o
  Paso-Ordenado (detener h) o =
      Efecto-Ordenado e (consola-Efecto _ _ _ (resto-Efecto e _ refl refl refl refl)) o
  Paso-Ordenado iniciar o =
      Efecto-Ordenado e (pausa-Efecto _ _ _ (resto-Efecto e _ refl refl refl refl)) o
  Paso-Ordenado (cambiar_grado valor) o = Efecto-Ordenado e (resto-Efecto e _ refl refl refl refl) o

  dado_nadie : (pid : ℕ) → 0 ≡ dado 1 pid
  dado_nadie pid = ground arith

  -- In every state that the kernel can come to from its start, by the steps of its threads in any
  -- order, each pid that was given out is once in one list of processes, no other pid is in any,
  -- and at most one process runs, none while the CPU is free.
  pub Alcanzable-Ordenado :
      (grado : ℤ) (recursos : List (Texto × ℤ)) (s : Kernel e)
      → Alcanzable e grado recursos s
      → Ordenado e s
  unfolding recursos_init iniciar_kernel
  Alcanzable-Ordenado grado recursos _ inicio = record {
    en_una_lista = λ pid. dado_nadie pid;
    con_estado = refl;
    uno_corre = omega arith;
  }
  Alcanzable-Ordenado grado recursos _ (despues h paso) =
      Paso-Ordenado paso (Alcanzable-Ordenado grado recursos _ h)
