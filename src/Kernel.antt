-- ===== src/Kernel.antt =====
-- kernel/src: the state that the threads of the kernel share (main.h, main.c), its set-up
-- (planificacion/creadores.c) and the records of utils/estructura_de_datos_modulos.h it is made of.
-- The operations are children. A mutex protects a few statements of one operation, so each operation is
-- one step and no mutex is in the state; the counting semaphores are.
pub mod Planificacion
pub mod Garantias
pub mod Tests
pub mod Recursos
pub mod Procesos
pub mod Interfaces
pub mod Despacho
pub mod Consola
pub mod Movimientos
pub mod Pasos
use tp_sisop_1c.Utils.Codec.{DireccionFisica, Registro}
use tp_sisop_1c.Cpu.Registros.{Registros}
use tp_sisop_1c.Commons.{TextDictionary}
use tp_sisop_1c.Prelude.Int.{ℤ, pos_part}
use tp_sisop_1c.Prelude.{[], false, ◌∷◌, List, Option, ℕ, Bool}

-- A text is the list of its bytes.
abbrev pub Texto : Type 0
Texto = List ℕ

-- estado_code.
pub data EstadoCode : Type 0 where
  new ready exec blocked exitt error ready_aux : EstadoCode

-- t_pcb, without its mutex. NULL in `recurso_esperando` is `none`.
pub record Pcb : Type 0 where
  pub pid : ℕ
  pub pc : ℕ
  pub quantum : ℤ
  pub registros : Registros
  pub recursos_tomados : List Texto
  pub recurso_esperando : Option Texto
  pub estado : EstadoCode
  pub tiempo_inicial : ℤ

-- t_recurso, without its mutex. The queue holds pointers to the pids of processes.
pub record Recurso : Type 0 where
  pub id : Texto
  pub instancias : ℤ
  pub indice_semaforo_asociado_a_recurso : ℕ
  pub bloqueados : List ℕ

-- The fields of t_io_pcb that a request to an interface sets, by the kind of request. A request to
-- write to a stdout interface that was busy comes back with a register where its size should be.
pub data Trabajo : Type 0 where
  io_gen_sleep : ℕ → Trabajo
  io_stdin_read : DireccionFisica → Registro → Trabajo
  io_stdout_write : DireccionFisica → ℕ → Trabajo
  io_stdout_write_ocupada : DireccionFisica → Registro → Trabajo
  io_fs_create io_fs_delete : Texto → Trabajo
  io_fs_truncate : Texto → ℕ → Trabajo
  io_fs_write io_fs_read : Texto → DireccionFisica → ℕ → ℕ → Trabajo

-- t_io_pcb. Of its pcb only the pid is read; `none` is the NULL of a process that is not blocked.
pub record IoPcb : Type 0 where
  pub pid : Option ℕ
  pub trabajo : Trabajo

-- t_interfaz, without its socket.
pub record Interfaz : Type 0 where
  pub nombre_interfaz : Texto
  pub tipo_interfaz : ℕ
  pub lista_bloqueados : List IoPcb

-- The text of `algoritmo_planificacion`.
pub data Algoritmo : Type 0 where
  fifo rr vrr invalido : Algoritmo

-- The packages that the kernel sends: to the CPU (dispatch and interrupt), to the memory, and to an
-- interface.
pub data Mensaje : Type 0 where
  despachar : Pcb → Mensaje
  interrupcion interrupcion_exit eliminar_de_memoria : ℕ → Mensaje
  nuevo_a_memoria : ℕ → Texto → Mensaje
  pedir_a_interfaz : Texto → Trabajo → ℕ → Mensaje

-- What the kernel is given: the containers of so-commons, and what of its configuration stays.
pub record Entorno : Type 1 where
  pub recursos : TextDictionary Recurso
  pub interfaces : TextDictionary Interfaz
  pub algoritmo : Algoritmo
  pub quantum : ℤ

-- The lists of processes, as the `t_list *` that operations are passed.
pub data Lista : Type 0 where
  lista_new lista_ready lista_blocked lista_running lista_exit lista_auxiliar : Lista

module _ (e : Entorno) where
  open e use {
    recursos.{Dict as Recursos, create as recursos_create},
    interfaces.{Dict as Interfaces, create as interfaces_create},
  }

  -- `enviados` is what went out, the latest first. `moviendo` is whether the thread `mover_a_ready` is
  -- inside its inner loop, and `m_list_new_tomado` whether it has left the mutex of NEW locked.
  pub record Kernel : Type 0 where
    pub listas : Lista → List Pcb
    pub estados_procesos : List EstadoCode
    pub ultimo_pid : ℕ
    pub pid_ejecutando : ℕ
    pub dict_recursos : Recursos
    pub dict_interfaces : Interfaces
    pub grado_multiprogramacion : ℤ
    pub pausar : Bool
    pub moviendo : Bool
    pub m_list_new_tomado : Bool
    pub sem_grado_multiprogramacion : ℕ
    pub sem_process_in_ready : ℕ
    pub sem_cpu_free_to_execute : ℕ
    pub sem_beggin_quantum : ℕ
    pub sem_interruption_quantum : ℕ
    pub sem_planificacion : ℕ
    pub sem_planificacion_largo : ℕ
    pub sem_proceso_se_creo_en_memoria : ℕ
    pub enviados : List Mensaje

  -- `init_estructuras_planificacion` and `init_semaphores`, with the dictionaries empty. Only a
  -- positive degree of multiprogramming makes permits.
  unfoldable pub iniciar_kernel : ℤ → Kernel
  iniciar_kernel grado = record {
    listas = λ _. [];
    estados_procesos = [];
    ultimo_pid = 1;
    pid_ejecutando = 0;
    dict_recursos = recursos_create;
    dict_interfaces = interfaces_create;
    grado_multiprogramacion = grado;
    pausar = false;
    moviendo = false;
    m_list_new_tomado = false;
    sem_grado_multiprogramacion = pos_part grado;
    sem_process_in_ready = 0;
    sem_cpu_free_to_execute = 1;
    sem_beggin_quantum = 0;
    sem_interruption_quantum = 1;
    sem_planificacion = 0;
    sem_planificacion_largo = 0;
    sem_proceso_se_creo_en_memoria = 0;
    enviados = [];
  }

  unfoldable pub enviar_paquete : Kernel → Mensaje → Kernel
  enviar_paquete s m = record s { enviados = m ∷ s.enviados }
