-- ===== src/Lib.antt =====
-- Verification of TP-Sisop-1C-2024, a small operating system over five programs that talk by
-- sockets: kernel, cpu, memoria, entradasalida, and the shared utils.
--
-- Prelude holds the shared lists, options, tests and integers (the native naturals; a `uint32_t`
-- keeps its wrap-around where the code computes with it). Commons states what the containers of
-- so-commons promise, as records with laws: `t_bitarray`, `t_dictionary` and the indexed
-- operations of `t_list` are not in the repository.
--
-- Memoria is memoria/src. Memoria.antt has the globals of main.h and `crear_estructuras_memoria`;
-- Paginacion has paginacion.c and the operations of operaciones.c on processes (`resize_proceso`,
-- `crear_proceso`, `eliminar_proceso`), and Datos its operations on bytes
-- (`obtener_datos_de_memoria`, `agregar_datos_a_memoria`, `copy_string`). Each loop is its own
-- definition, by recursion on what is left. `none` is a fault of the C program: a NULL read or a
-- division by zero.
--
-- Memoria/Pedidos has the cases EJECUTAR_MOVIN and EJECUTAR_MOVOUT of memoria/src/atender_cpu.c; the
-- other cases and the other handlers are not modelled.
--
-- Cpu/Tlb is cpu/src/mmu/mmu.c. The list operations, the clock and the answer of the memory are
-- arguments. The rescan of `limpiar_tlb` takes as fuel the number of entries, and each round
-- removes one.
--
-- Cpu/Registros is t_registros with the arithmetic of utils/src/utils/instruccion/instruccion.c
-- and cpu/src/registros/registros.c, on a little-endian machine where the record has no padding.
--
-- Utils/Codec is utils/src/utils/codec: Codec.antt has packages, variables and small records;
-- Cpu, Interfaces, Consola, Archivos and Ocupadas have a record, `serializar_*` and
-- `deserializar_*` for each message; Contexto has the process control block and the context, Peticiones
-- and PeticionesArchivos the requests that carry them; Desajuste and PeticionEntrada have the messages
-- whose two ends do not agree. A stream with its displacement is the list of the bytes that are left.
--
-- EntradaSalida/FileSystem is entradasalida/src/fileSystem: the bitmap of blocks (bitmap.c),
-- `crearArchivo` and `eliminarArchivo` (operaciones.c). The truncation and the compaction are not
-- modelled.
--
-- Kernel is kernel/src. Kernel.antt has the state that its threads share and the records of
-- utils/src/utils/estructura_de_datos_modulos.h; Planificacion has planificacion/planificacion.c,
-- Recursos recursos/recursos.c, Procesos planificacion/planificador-largo.c with `mover_a_ready`,
-- Despacho and Interfaces the messages of the CPU and of the interfaces (conexion/conexion.c,
-- main.c), and Consola the commands of consola/consola.c. Each operation is a function from the state
-- to the state after it; `none` is a fault, such as a write through the NULL that a list answers for
-- an index it does not have. The clock is an argument. Pasos has the step relation of all the threads
-- together: an operation is one step, so what a mutex, sem_planificacion or sem_planificacion_largo
-- keeps apart is not interleaved further (the lists that are passed with a copy of their mutex
-- included), and the waits on the counting semaphores are guards. `m_list_new_tomado` is m_list_NEW when
-- it is not given back: an operation that waits for it is no step, with what it does before. The CPU
-- gives back the process that runs. Movimientos shows how each operation moves processes between the
-- lists, for any weight of a process in a list; Pasos and Garantias use it with the weights that count
-- one pid, the processes that run, and those that are let in.
--
-- Addresses and sizes are natural numbers: the `int` of the C code does not overflow as long as
-- the sizes are below 2 ^ 31. Not modelled: sockets, threads, logs, `malloc` and `free`, the
-- reading of files and configurations; the instruction cycle; in the kernel, the early ends of the
-- counter of VRR, and the interleaving inside an operation.
pub mod Prelude
pub mod Commons
pub mod Memoria
pub mod Cpu
pub mod Utils
pub mod EntradaSalida
pub mod Kernel
