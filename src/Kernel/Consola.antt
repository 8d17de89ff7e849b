-- ===== src/Kernel/Consola.antt =====
-- kernel/src/consola/consola.c: the commands that change the state of the kernel. Reading and
-- splitting the line is left to `sscanf`; EJECUTAR_SCRIPT is the sequence of the commands of its file.
use tp_sisop_1c.Prelude.Int.{◌-ℤ◌}
use tp_sisop_1c.Prelude.{true, false, ◌+◌, ◌-◌, if◌then◌else◌}
use tp_sisop_1c.Kernel.{Entorno, Kernel, ℤ, pos_part}

module _ (e : Entorno) where
  -- `pausar` is true while planning runs. Waiting for the two semaphores is left to the step: both must
  -- be free.
  unfoldable pub detener_planificacion : Kernel e → Kernel e
  detener_planificacion s =
      if s.pausar
      then record s {
        pausar = false;
        sem_planificacion = s.sem_planificacion - 1;
        sem_planificacion_largo = s.sem_planificacion_largo - 1;
      }
      else s

  unfoldable pub iniciar_planificacion : Kernel e → Kernel e
  iniciar_planificacion s = if s.pausar then s else record s {
    pausar = true;
    sem_planificacion = s.sem_planificacion + 1;
    sem_planificacion_largo = s.sem_planificacion_largo + 1;
  }

  -- A higher degree posts the difference.
  unfoldable pub cambiar_multiprogramacion : Kernel e → ℤ → Kernel e
  cambiar_multiprogramacion s valor = record s {
    grado_multiprogramacion = valor;
    sem_grado_multiprogramacion =
        s.sem_grado_multiprogramacion + pos_part (valor -ℤ s.grado_multiprogramacion);
  }
