-- ===== src/Kernel/Pasos.antt =====
-- The kernel as a whole: what each of its threads does in one step, in any order
-- (kernel/src/planificacion, kernel/src/conexion and kernel/src/consola), and the states it can come to.
pub mod Invariante
pub mod Alcanzables
use tp_sisop_1c.Kernel.Consola.{
  detener_planificacion, iniciar_planificacion, cambiar_multiprogramacion,
}
use tp_sisop_1c.Kernel.Interfaces.{fin_io, error_io, io_ocupada, registrar_interfaz}
use tp_sisop_1c.Kernel.Despacho.{instruccion_io, MotivoDesalojo, contexto_ejecucion}
use tp_sisop_1c.Kernel.Recursos.{recursos_init}
use tp_sisop_1c.Kernel.Planificacion.{tomar_turno, planificador_corto_plazo, fin_de_quantum}
use tp_sisop_1c.Prelude.{true, some, ◌<◌, ◌≡◌, List, ℕ, false}
use tp_sisop_1c.Kernel.Procesos.{
  crear_proceso, finalizar_proceso, fin_crea_pro, incrementar_grado_multi, empezar_a_mover,
  mover_a_ready, proceso_en_running,
}
use tp_sisop_1c.Kernel.{Entorno, Kernel, ℤ, Texto, iniciar_kernel, Pcb, Trabajo}

module _ (e : Entorno) where
  -- A step takes the place of the waits on semaphores that the code makes before it. An operation that
  -- waits for the mutex of NEW is no step, with what it does before. `q` is the copy of
  -- the pcb that the CPU gives back: it is that of the process that runs.
  pub data Paso (s : Kernel e) : Kernel e → Type 0 where
    planificar :
        (ahora : ℤ) {t s' : Kernel e}
        → 0 < s.sem_planificacion
        → tomar_turno e s ≡ some t
        → planificador_corto_plazo e t ahora ≡ some s'
        → Paso s s'
    cumplir_quantum : (pid_inicial : ℕ) → Paso s (fin_de_quantum e s pid_inicial)
    crear : (ruta : Texto) → s.m_list_new_tomado ≡ false → Paso s (crear_proceso e s ruta)
    finalizar :
        (pid : ℕ) {s' : Kernel e}
        → s.m_list_new_tomado ≡ false
        → finalizar_proceso e s pid ≡ some s'
        → Paso s s'
    recibir_fin_crea_pro : Paso s (fin_crea_pro e s)
    recibir_fin_term_pro : Paso s (incrementar_grado_multi e s)
    empezar_mover : {s' : Kernel e} → empezar_a_mover e s ≡ some s' → Paso s s'
    mover :
        {s' : Kernel e}
        → s.moviendo ≡ true
        → 0 < s.sem_grado_multiprogramacion
        → mover_a_ready e s ≡ some s'
        → Paso s s'
    recibir_io :
        (ahora : ℤ) (q : Pcb) (interfaz : Texto) (trabajo : Trabajo) {s' : Kernel e}
        → proceso_en_running e s q ≡ true
        → instruccion_io e s ahora q interfaz trabajo ≡ some s'
        → Paso s s'
    recibir_contexto :
        (ahora : ℤ) (q : Pcb) (motivo : MotivoDesalojo) {s' : Kernel e}
        → proceso_en_running e s q ≡ true
        → contexto_ejecucion e s ahora q motivo ≡ some s'
        → Paso s s'
    recibir_fin_io :
        (interfaz : Texto) (pid : ℕ) {s' : Kernel e} → fin_io e s interfaz pid ≡ some s' → Paso s s'
    recibir_ocupada :
        (interfaz : Texto) (pid : ℕ) (trabajo : Trabajo) {s' : Kernel e}
        → io_ocupada e s interfaz pid trabajo ≡ some s'
        → Paso s s'
    recibir_error : (pid : ℕ) {s' : Kernel e} → error_io e s pid ≡ some s' → Paso s s'
    conectar : (nombre : Texto) (tipo : ℕ) → Paso s (registrar_interfaz e s nombre tipo)
    detener :
        (s.pausar ≡ true → (0 < s.sem_planificacion) × (0 < s.sem_planificacion_largo))
        → Paso s (detener_planificacion e s)
    iniciar : Paso s (iniciar_planificacion e s)
    cambiar_grado : (valor : ℤ) → Paso s (cambiar_multiprogramacion e s valor)

  -- From the start, with the resources of the configuration.
  pub data Alcanzable (grado : ℤ) (recursos : List (Texto × ℤ)) : Kernel e → Type 0 where
    inicio : Alcanzable grado recursos (recursos_init e (iniciar_kernel e grado) recursos)
    despues :
        {s s' : Kernel e} → Alcanzable grado recursos s → Paso s s' → Alcanzable grado recursos s'
