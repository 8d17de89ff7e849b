-- ===== src/Kernel/Interfaces.antt =====
-- kernel/src/main.c (`enviar_io_..._a_interfaz`, `iniciar_interfaz`) and `atender_io` of
-- kernel/src/conexion/conexion.c. `none` is a fault of the C program: a read through NULL, or of a
-- field that was never set.
use tp_sisop_1c.Prelude.Opciones.{◌>>=◌}
use tp_sisop_1c.Kernel.Planificacion.{
  desbloquear_proceso, obtener_pcb_con_pid_lista, remover_con_pid,
}
use tp_sisop_1c.Prelude.{[], some, none, ◌++◌, ◌∷◌, ℕ, Bool, Option, if◌then◌else◌, ◌==◌, ◌||◌, ltb}
use tp_sisop_1c.Kernel.Procesos.{eliminar_proceso}
use tp_sisop_1c.Kernel.{
  lista_blocked, io_gen_sleep, io_stdin_read, io_stdout_write, io_stdout_write_ocupada,
  io_fs_create, io_fs_delete, io_fs_truncate, io_fs_write, io_fs_read, pedir_a_interfaz, Entorno,
  Texto, Interfaz, Kernel, Trabajo, enviar_paquete, DireccionFisica, Registro, IoPcb, Pcb,
}

unfoldable pub iniciar_interfaz : Texto → ℕ → Interfaz
iniciar_interfaz nombre tipo = record {
  nombre_interfaz = nombre;
  tipo_interfaz = tipo;
  lista_bloqueados = [];
}

-- Which requests an interface of a type sends on. 1: generic, 2: stdin, 3: stdout, 4: file system.
unfoldable pub es_de_tipo : ℕ → Trabajo → Bool
es_de_tipo tipo (io_gen_sleep _) = tipo == 1
es_de_tipo tipo (io_stdin_read _ _) = tipo == 2
es_de_tipo tipo (io_stdout_write _ _) = tipo == 3
es_de_tipo tipo (io_stdout_write_ocupada _ _) = tipo == 3
es_de_tipo tipo (io_fs_create _) = tipo == 4
es_de_tipo tipo (io_fs_delete _) = tipo == 4
es_de_tipo tipo (io_fs_truncate _ _) = tipo == 4
es_de_tipo tipo (io_fs_write _ _ _ _) = tipo == 4
es_de_tipo tipo (io_fs_read _ _ _ _) = tipo == 4

unfoldable pub pid_de : Option Pcb → Option ℕ
pid_de none = none
pid_de (some pcb) = some pcb.pid

module _ (e : Entorno) where
  open e use {interfaces.{get, put}}

  unfoldable pub registrar_interfaz : Kernel e → Texto → ℕ → Kernel e
  unfolding iniciar_interfaz
  registrar_interfaz s nombre tipo = record s {
    dict_interfaces = put s.dict_interfaces nombre (iniciar_interfaz nombre tipo);
  }

  unfoldable pub enviar_io_gen_sleep_a_interfaz : Kernel e → Texto → ℕ → ℕ → Option (Kernel e)
  unfolding enviar_paquete
  enviar_io_gen_sleep_a_interfaz s nombre udt pid = do
    _ ← get s.dict_interfaces nombre
    some (enviar_paquete e s (pedir_a_interfaz nombre (io_gen_sleep udt) pid))

  -- All other requests: nothing is sent to an interface that does not exist.
  unfoldable pub enviar_a : Kernel e → Texto → Trabajo → ℕ → Option Interfaz → Kernel e
  unfolding enviar_paquete
  enviar_a s nombre trabajo pid none = s
  enviar_a s nombre trabajo pid (some _) = enviar_paquete e s (pedir_a_interfaz nombre trabajo pid)

  unfoldable pub enviar_si_existe : Kernel e → Texto → Trabajo → ℕ → Kernel e
  unfolding enviar_a
  enviar_si_existe s nombre trabajo pid =
      enviar_a s nombre trabajo pid (get s.dict_interfaces nombre)

  unfoldable pub enviar_io_stdin_read_a_interfaz :
      Kernel e → DireccionFisica → Texto → Registro → ℕ → Kernel e
  unfolding enviar_si_existe
  enviar_io_stdin_read_a_interfaz s dir nombre tamanio pid =
      enviar_si_existe s nombre (io_stdin_read dir tamanio) pid

  unfoldable pub enviar_io_stdout_write_a_interfaz :
      Kernel e → DireccionFisica → Texto → ℕ → ℕ → Kernel e
  unfolding enviar_si_existe
  enviar_io_stdout_write_a_interfaz s dir nombre tamanio pid =
      enviar_si_existe s nombre (io_stdout_write dir tamanio) pid

  unfoldable pub enviar_io_fs_create_a_interfaz : Kernel e → Texto → Texto → ℕ → Kernel e
  unfolding enviar_si_existe
  enviar_io_fs_create_a_interfaz s nombre archivo pid =
      enviar_si_existe s nombre (io_fs_create archivo) pid

  unfoldable pub enviar_io_fs_delete_a_interfaz : Kernel e → Texto → Texto → ℕ → Kernel e
  unfolding enviar_si_existe
  enviar_io_fs_delete_a_interfaz s nombre archivo pid =
      enviar_si_existe s nombre (io_fs_delete archivo) pid

  unfoldable pub enviar_io_fs_truncate_a_interfaz : Kernel e → Texto → Texto → ℕ → ℕ → Kernel e
  unfolding enviar_si_existe
  enviar_io_fs_truncate_a_interfaz s nombre archivo tamanio pid =
      enviar_si_existe s nombre (io_fs_truncate archivo tamanio) pid

  unfoldable pub enviar_io_fs_read_a_interfaz :
      Kernel e → DireccionFisica → Texto → Texto → ℕ → ℕ → ℕ → Kernel e
  unfolding enviar_si_existe
  enviar_io_fs_read_a_interfaz s dir nombre archivo tamanio posicion pid =
      enviar_si_existe s nombre (io_fs_read archivo dir tamanio posicion) pid

  unfoldable pub enviar_io_fs_write_a_interfaz :
      Kernel e → DireccionFisica → Texto → Texto → ℕ → ℕ → ℕ → Kernel e
  unfolding enviar_si_existe
  enviar_io_fs_write_a_interfaz s dir nombre archivo tamanio posicion pid =
      enviar_si_existe s nombre (io_fs_write archivo dir tamanio posicion) pid

  -- The four bytes at a register of one or two fields are no size.
  unfoldable pub enviar_trabajo : Kernel e → Texto → Trabajo → ℕ → Option (Kernel e)
  unfolding enviar_io_gen_sleep_a_interfaz enviar_io_stdin_read_a_interfaz
      enviar_io_stdout_write_a_interfaz enviar_io_fs_create_a_interfaz
      enviar_io_fs_delete_a_interfaz enviar_io_fs_truncate_a_interfaz enviar_io_fs_read_a_interfaz
      enviar_io_fs_write_a_interfaz
  enviar_trabajo s nombre (io_gen_sleep udt) pid = enviar_io_gen_sleep_a_interfaz s nombre udt pid
  enviar_trabajo s nombre (io_stdin_read dir tam) pid =
      some (enviar_io_stdin_read_a_interfaz s dir nombre tam pid)
  enviar_trabajo s nombre (io_stdout_write dir tam) pid =
      some (enviar_io_stdout_write_a_interfaz s dir nombre tam pid)
  enviar_trabajo s nombre (io_stdout_write_ocupada _ _) pid = none
  enviar_trabajo s nombre (io_fs_create archivo) pid =
      some (enviar_io_fs_create_a_interfaz s nombre archivo pid)
  enviar_trabajo s nombre (io_fs_delete archivo) pid =
      some (enviar_io_fs_delete_a_interfaz s nombre archivo pid)
  enviar_trabajo s nombre (io_fs_truncate archivo tam) pid =
      some (enviar_io_fs_truncate_a_interfaz s nombre archivo tam pid)
  enviar_trabajo s nombre (io_fs_write archivo dir tam posicion) pid =
      some (enviar_io_fs_write_a_interfaz s dir nombre archivo tam posicion pid)
  enviar_trabajo s nombre (io_fs_read archivo dir tam posicion) pid =
      some (enviar_io_fs_read_a_interfaz s dir nombre archivo tam posicion pid)

  -- The cases IO_OCUPADA_...: the request waits in the kernel until the interface is done with another.
  unfoldable pub io_ocupada : Kernel e → Texto → ℕ → Trabajo → Option (Kernel e)
  unfolding obtener_pcb_con_pid_lista pid_de
  io_ocupada s nombre pid trabajo = do
    interfaz ← get s.dict_interfaces nombre
    let pcb = obtener_pcb_con_pid_lista pid (s.listas lista_blocked)
    let io_pcb : IoPcb = record { pid = pid_de pcb; trabajo = trabajo }
    some (record s {
      dict_interfaces =
          put s.dict_interfaces nombre
            (record interfaz { lista_bloqueados = interfaz.lista_bloqueados ++ io_pcb ∷ [] });
    })

  -- A request of another type would be read through fields that were not set.
  unfoldable pub enviar_si_es_de_tipo : Kernel e → Texto → ℕ → Trabajo → ℕ → Option (Kernel e)
  unfolding enviar_trabajo es_de_tipo
  enviar_si_es_de_tipo s nombre tipo trabajo pid =
      if es_de_tipo tipo trabajo
      then enviar_trabajo s nombre trabajo pid
      else if tipo == 0 || ltb 4 tipo
      then some s
      else none

  -- The first request that waits goes to the interface.
  unfoldable pub enviar_siguiente_trabajo : Kernel e → Texto → Interfaz → Option (Kernel e)
  unfolding enviar_si_es_de_tipo
  enviar_siguiente_trabajo s nombre interfaz = elim interfaz.lista_bloqueados [
    | [] ↦ some s
    | io_pcb ∷ resto ↦
        let s' = record s {
          dict_interfaces =
              put s.dict_interfaces nombre (record interfaz { lista_bloqueados = resto });
        } in
        io_pcb.pid >>= enviar_si_es_de_tipo s' nombre interfaz.tipo_interfaz io_pcb.trabajo
  ]

  unfoldable pub fin_io : Kernel e → Texto → ℕ → Option (Kernel e)
  unfolding desbloquear_proceso enviar_siguiente_trabajo
  fin_io s nombre pid = do
    s' ← desbloquear_proceso e s pid
    interfaz ← get s'.dict_interfaces nombre
    enviar_siguiente_trabajo s' nombre interfaz

  unfoldable pub error_io : Kernel e → ℕ → Option (Kernel e)
  unfolding remover_con_pid eliminar_proceso
  error_io s pid = do (pcb, s') ← remover_con_pid e s lista_blocked pid; eliminar_proceso e s' pcb
