-- ===== src/Kernel/Movimientos/Despacho.antt =====
-- The moves behind the messages of the CPU and of the interfaces (kernel/src/conexion/conexion.c).
use tp_sisop_1c.Kernel.Interfaces.{
  enviar_a, enviar_si_existe, enviar_trabajo, enviar_io_gen_sleep_a_interfaz,
  enviar_io_stdin_read_a_interfaz, enviar_io_stdout_write_a_interfaz,
  enviar_io_fs_create_a_interfaz, enviar_io_fs_delete_a_interfaz, enviar_io_fs_truncate_a_interfaz,
  enviar_io_fs_write_a_interfaz, enviar_io_fs_read_a_interfaz,
}
use tp_sisop_1c.Kernel.Movimientos.Largo.{avisar_a_memoria-Cambio}
use tp_sisop_1c.Kernel.Movimientos.Recursos.{MismoCorre, liberar_recursos_tomados-Quieto}
use tp_sisop_1c.Kernel.Movimientos.{
  Cambio, Si-y, actualizar_estado_pcb-Cambio, Cambio-resto, Cambio-trans, remover_primero-clave,
  agregar-Cambio, remover_primero-Cambio,
}
use tp_sisop_1c.Kernel.Movimientos.Corto.{Pareja, avisar_ready-Cambio, bloquear_proceso-Cambio}
use tp_sisop_1c.Kernel.Procesos.{es_el_primero, proceso_en_running}
use tp_sisop_1c.Prelude.{
  refl, [], true, some, none, ◌∷◌, ◌≡◌, ℕ, List, sym, ==_iff, Option, arith, ap, subst, inl, inr,
  Bool-cases,
}
use tp_sisop_1c.Kernel.{
  lista_ready, lista_blocked, lista_running, lista_exit, ready, exitt, Entorno, Lista, Pcb, Kernel,
  enviar_paquete, Texto, ℤ, Trabajo, Interfaz,
}
use tp_sisop_1c.Kernel.{
  lista_blocked, lista_exit, io_gen_sleep, io_stdin_read, io_stdout_write, io_stdout_write_ocupada,
  io_fs_create, io_fs_delete, io_fs_truncate, io_fs_write, io_fs_read,
}
use tp_sisop_1c.Kernel.Despacho.{bloquear_por_io, soltar_turno}
use tp_sisop_1c.Prelude.Opciones.{Si-luego}
use tp_sisop_1c.Prelude.Opciones.{Si, Si-none, Si-some, Si-seguir, Si-mono, ◌>>=◌}
use tp_sisop_1c.Kernel.Planificacion.{
  remover_primero, list_remove, enviar_siguiente_pcb, es_rr_o_vrr,
}
use tp_sisop_1c.Kernel.Recursos.{soltar_cpu}
use tp_sisop_1c.Kernel.Despacho.{con_cpu_libre, continuar, desalojar, terminar_ejecutado}

primero-clave :
    (q : Pcb) (xs : List Pcb)
    → es_el_primero q xs ≡ true
    → Si (λ r. r.0.pid ≡ q.pid) (list_remove xs (some 0))
unfolding es_el_primero list_remove ◌>>=◌
primero-clave q [] h = Si-none
primero-clave q (x ∷ xs) h = Si-some (sym ((==_iff q.pid x.pid).0 h))

module _ (e : Entorno) (w : Lista → ℕ → ℕ) (p : Pareja e w) where
  -- The process that runs leaves the running list.
  pub sale_el_que_corre :
      (s : Kernel e) (q : Pcb)
      → proceso_en_running e s q ≡ true
      → Si (λ r. Cambio e w s (r.1) (w lista_running q.pid) 0) (remover_primero e s lista_running)
  unfolding proceso_en_running
  sale_el_que_corre s q h =
      Si-mono
        (Si-y (remover_primero-clave e s lista_running (primero-clave q (s.listas lista_running) h))
          (remover_primero-Cambio e w s lista_running))
        (λ r (c, k). subst (λ i. Cambio e w s (r.1) (w lista_running i) 0) c k)

  -- A process ran, and goes elsewhere; the CPU is free.
  pub record Suelta (s s' : Kernel e) (sale entra : ℕ) : Type 0 where
    pub medio : Kernel e
    pub cambio : Cambio e w s medio sale entra
    pub cpu : s' ≡ soltar_cpu e medio

  pub con_cpu_libre-Suelta :
      (s : Kernel e) (a b : ℕ) (o : Option (Kernel e))
      → Si (λ t. Cambio e w s t a b) o
      → Si (λ s'. Suelta s s' a b) (con_cpu_libre e o)
  unfolding con_cpu_libre
  con_cpu_libre-Suelta s a b none h = Si-none
  con_cpu_libre-Suelta s a b (some t) h =
      Si-some (record { medio = t; cambio = h.dentro; cpu = refl })

  pub desalojar-Suelta :
      (s : Kernel e) (q : Pcb)
      → proceso_en_running e s q ≡ true
      → Si (λ s'. Suelta s s' (w lista_running q.pid) (w lista_blocked q.pid)) (desalojar e s q)
  unfolding desalojar
  desalojar-Suelta s q h = Si-seguir _ (sale_el_que_corre s q h) (λ r c.
      con_cpu_libre-Suelta s _ _ _ (
        avisar_ready-Cambio e w s _ _ _ (
          Si-mono (actualizar_estado_pcb-Cambio e w (r.1) q ready lista_ready)
            (λ t k. Cambio-trans e w c k (omega (arith, p.ready_blocked q.pid))))))

  pub corre_igual :
      (s t : Kernel e) (q : Pcb)
      → MismoCorre e s t
      → proceso_en_running e s q ≡ true
      → proceso_en_running e t q ≡ true
  unfolding proceso_en_running
  corre_igual s t q m h = rw m h

  pub terminar_ejecutado-Suelta :
      (s : Kernel e) (q : Pcb)
      → proceso_en_running e s q ≡ true
      → Si
          (λ s'. Suelta s s' (w lista_running q.pid) (w lista_exit q.pid))
          (terminar_ejecutado e s q)
  unfolding terminar_ejecutado
  terminar_ejecutado-Suelta s q h =
      Si-seguir _ (liberar_recursos_tomados-Quieto e w p s q) (λ x (mismo, k).
        Si-seguir _ (sale_el_que_corre (x.1) q (corre_igual s (x.1) q k.corre h)) (λ r c.
          let c' : Cambio e w s (r.1) (w lista_running q.pid) 0 =
            Cambio-trans e w k.cambio c (omega arith) in
          con_cpu_libre-Suelta s _ _ _ (
            avisar_a_memoria-Cambio e w p s _ _ q.pid _ (
              Si-mono (actualizar_estado_pcb-Cambio e w (r.1) (x.0) exitt lista_exit)
                (λ t m. Cambio-trans e w c' m (omega (arith, ap (w lista_exit) mismo)))))))

  -- Its copy takes the place of the one that runs.
  pub continuar-Cambio :
      (s : Kernel e) (q : Pcb)
      → proceso_en_running e s q ≡ true
      → Si (λ s'. Cambio e w s s' 0 0) (continuar e s q)
  unfolding continuar enviar_siguiente_pcb enviar_paquete
  continuar-Cambio s q h = Si-seguir _ (sale_el_que_corre s q h) (λ r c. Si-some (
      Cambio-resto e w _
        (Cambio-trans e w c (agregar-Cambio e w (r.1) q lista_running) (omega arith)) refl refl refl
        refl refl))

  enviar_a-Cambio :
      (s t : Kernel e) (a b : ℕ) (i : Texto) (x : Trabajo) (pid : ℕ) (o : Option Interfaz)
      → Cambio e w s t a b
      → Cambio e w s (enviar_a e t i x pid o) a b
  unfolding enviar_a enviar_paquete
  enviar_a-Cambio s t a b i x pid none h = h
  enviar_a-Cambio s t a b i x pid (some _) h = Cambio-resto e w _ h refl refl refl refl refl

  enviar_si_existe-Cambio :
      (s t : Kernel e) (a b : ℕ) (i : Texto) (x : Trabajo) (pid : ℕ)
      → Cambio e w s t a b
      → Cambio e w s (enviar_si_existe e t i x pid) a b
  unfolding enviar_si_existe
  enviar_si_existe-Cambio s t a b i x pid h = enviar_a-Cambio s t a b i x pid _ h

  pub enviar_trabajo-Cambio :
      (s t : Kernel e) (a b : ℕ) (i : Texto) (x : Trabajo) (pid : ℕ)
      → Cambio e w s t a b
      → Si (λ u. Cambio e w s u a b) (enviar_trabajo e t i x pid)
  unfolding enviar_trabajo enviar_io_gen_sleep_a_interfaz enviar_paquete
      enviar_io_stdin_read_a_interfaz enviar_io_stdout_write_a_interfaz
      enviar_io_fs_create_a_interfaz enviar_io_fs_delete_a_interfaz enviar_io_fs_truncate_a_interfaz
      enviar_io_fs_write_a_interfaz enviar_io_fs_read_a_interfaz
  enviar_trabajo-Cambio s t a b i (io_gen_sleep udt) pid h =
      Si-luego _ (λ _. Si-some (Cambio-resto e w _ h refl refl refl refl refl))
  enviar_trabajo-Cambio s t a b i (io_stdout_write_ocupada dir tam) pid h = Si-none
  enviar_trabajo-Cambio s t a b i (io_stdin_read dir tam) pid h =
      Si-some (enviar_si_existe-Cambio s t a b i _ pid h)
  enviar_trabajo-Cambio s t a b i (io_stdout_write dir tam) pid h =
      Si-some (enviar_si_existe-Cambio s t a b i _ pid h)
  enviar_trabajo-Cambio s t a b i (io_fs_create archivo) pid h =
      Si-some (enviar_si_existe-Cambio s t a b i _ pid h)
  enviar_trabajo-Cambio s t a b i (io_fs_delete archivo) pid h =
      Si-some (enviar_si_existe-Cambio s t a b i _ pid h)
  enviar_trabajo-Cambio s t a b i (io_fs_truncate archivo tam) pid h =
      Si-some (enviar_si_existe-Cambio s t a b i _ pid h)
  enviar_trabajo-Cambio s t a b i (io_fs_write archivo dir tam posicion) pid h =
      Si-some (enviar_si_existe-Cambio s t a b i _ pid h)
  enviar_trabajo-Cambio s t a b i (io_fs_read archivo dir tam posicion) pid h =
      Si-some (enviar_si_existe-Cambio s t a b i _ pid h)

  soltar_turno-Cambio :
      (s t : Kernel e) (a b : ℕ) → Cambio e w s t a b → Cambio e w s (soltar_turno e t) a b
  unfolding soltar_turno
  soltar_turno-Cambio s t a b h = elim (Bool-cases (es_rr_o_vrr e.algoritmo)) [
    | inl k ↦ rw k (Cambio-resto e w _ h refl refl refl refl refl)
    | inr k ↦ rw k (Cambio-resto e w _ h refl refl refl refl refl)
  ]

  pub bloquear_por_io-Cambio :
      (s : Kernel e) (ahora : ℤ) (q : Pcb) (i : Texto) (x : Trabajo)
      → Si
          (λ s'. Cambio e w s s' (w lista_running q.pid) (w lista_blocked q.pid))
          (bloquear_por_io e s ahora q i x)
  unfolding bloquear_por_io
  bloquear_por_io-Cambio s ahora q i x =
      Si-seguir _ (bloquear_proceso-Cambio e w p s ahora q true) (λ t h.
        Si-seguir _ (enviar_trabajo-Cambio s t _ _ i x q.pid h)
          (λ u k. Si-some (soltar_turno-Cambio s u _ _ k)))
