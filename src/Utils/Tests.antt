-- ===== src/Utils/Tests.antt =====
-- Messages at concrete values, and the round trips on them.
use tp_sisop_1c.Utils.Codec.PeticionEntrada.{
  PeticionIoStdinRead, deserializar_obtener_paquete_peticion_io_stdin_read,
  serializar_peticion_io_stdin_read, deserializar_obtener_paquete_peticion_io_stdin_read-nombre,
}
use tp_sisop_1c.Utils.Codec.PeticionesArchivos.{
  PeticionIoFsWrite, deserializar_peticion_io_fs_write, obtener_paquete_peticion_io_fs_write,
}
use tp_sisop_1c.Utils.Codec.Contexto.{
  ContextoMensaje, RecursoValido, RecursosValidos, ContextoMensajeValido, contexto_sin_recurso,
}
use tp_sisop_1c.Prelude.{[], some, none, ◌++◌, ◌<◌, ◌∷◌, ◌≡◌, arith, refl, ◌*◌, List, ℕ}
use tp_sisop_1c.Utils.Codec.Variables.{DireccionValida, RegistroValido}
use tp_sisop_1c.Utils.Codec.{DireccionFisica, Registro}
use tp_sisop_1c.Utils.Codec.Desajuste.{
  IoOcupadaWrite, serializar_interfaz_ocupada_write, deserializar_io_ocupada_write,
  deserializar_io_ocupada_write-corto,
}
use tp_sisop_1c.Cpu.Registros.{
  Registros, Nombre, obtener_registro, modulo, es_de_8_bits, ax, bx, cx, dx, eax, ebx, ecx, edx, si,
  di, pc,
}
use tp_sisop_1c.Cpu.Registros.Aritmetica.{EnRango}
use tp_sisop_1c.Utils.Codec.PeticionesArchivos.{
  deserializar_peticion_io_fs_write-obtener_paquete_peticion_io_fs_write,
}
use tp_sisop_1c.Utils.Codec.Cpu.{ObtenerRetInstruccion}
use tp_sisop_1c.Utils.Codec.Cpu.{
  MovIn, serializar_ejecutar_mov_in, deserializar_ejecutar_mov_in,
  deserializar_ejecutar_mov_in-serializar_ejecutar_mov_in,
}
use tp_sisop_1c.Utils.Codec.Cpu.{CopyString}
use tp_sisop_1c.Utils.Codec.Interfaces.{
  CrearProceso, serializar_nuevo_proceso_memoria, deserializar_nuevo_proceso_memoria,
  deserializar_nuevo_proceso_memoria-serializar_nuevo_proceso_memoria,
}
use tp_sisop_1c.Utils.Codec.Interfaces.{HandshakeIo}
use tp_sisop_1c.Utils.Codec.Interfaces.{IoOcupadaRead}
use tp_sisop_1c.Utils.Codec.Consola.{
  EjecutarIoStdin, serializar_io_stdin, deserializar_io_stdin,
  deserializar_io_stdin-serializar_io_stdin,
}
use tp_sisop_1c.Utils.Codec.Archivos.{
  EjecutarIoFsWrite, serializar_ejecutar_io_fs_write, deserializar_ejecutar_io_fs_write,
  deserializar_ejecutar_io_fs_write-serializar_ejecutar_io_fs_write,
}
use tp_sisop_1c.Utils.Codec.Ocupadas.{
  IoOcupadaFsWrite, serializar_interfaz_ocupada_fs_write, deserializar_io_ocupada_fs_write,
  deserializar_io_ocupada_fs_write-serializar_interfaz_ocupada_fs_write,
}

abbrev direccion : DireccionFisica
direccion = record { pid = 1; marco = 300; desplazamiento_fisico = 5 }

direccion-DireccionValida : DireccionValida direccion
direccion-DireccionValida = record {
  pid = omega arith;
  marco = omega arith;
  desplazamiento_fisico = omega arith;
}

abbrev un_byte : Registro
un_byte = record { tipo = 1; dato = 200 }

un_byte-RegistroValido : RegistroValido un_byte
un_byte-RegistroValido = record { tipo = omega arith; dato = omega arith }

abbrev registros : Registros
registros = record {
  pc = 4;
  ax = 250;
  bx = 1;
  cx = 0;
  dx = 9;
  eax = 70000;
  ebx = 0;
  ecx = 3;
  edx = 0;
  si = 0;
  di = 8;
}

registros-EnRango : EnRango registros
unfolding obtener_registro modulo es_de_8_bits
registros-EnRango = record { valor = en_rango }
  where
    en_rango : (n : Nombre) → obtener_registro registros n < modulo n
    en_rango ax = omega arith
    en_rango bx = omega arith
    en_rango cx = omega arith
    en_rango dx = omega arith
    en_rango eax = omega arith
    en_rango ebx = omega arith
    en_rango ecx = omega arith
    en_rango edx = omega arith
    en_rango si = omega arith
    en_rango di = omega arith
    en_rango pc = omega arith

abbrev mensaje_obtener_ret_instruccion : ObtenerRetInstruccion
mensaje_obtener_ret_instruccion = record { id_inst = 7; instruccion = (65 ∷ 0 ∷ []) }

abbrev mensaje_mov_in : MovIn
mensaje_mov_in = record { dir_fisica = direccion; datos = un_byte }

deserializar_ejecutar_mov_in-serializar_ejecutar_mov_in_example :
    deserializar_ejecutar_mov_in ((serializar_ejecutar_mov_in mensaje_mov_in).stream ++ 5 ∷ [])
    ≡ some (mensaje_mov_in, 5 ∷ [])
deserializar_ejecutar_mov_in-serializar_ejecutar_mov_in_example =
    deserializar_ejecutar_mov_in-serializar_ejecutar_mov_in mensaje_mov_in (5 ∷ [])
      (record { dir_fisica = direccion-DireccionValida; datos = un_byte-RegistroValido })

abbrev mensaje_copy_string : CopyString
mensaje_copy_string = record { tamanio = 7; pid = 7; di = 7; si = 7 }

abbrev mensaje_crear_proceso : CrearProceso
mensaje_crear_proceso = record { ruta_archivo = (65 ∷ 0 ∷ []); pid = 7 }

deserializar_nuevo_proceso_memoria-serializar_nuevo_proceso_memoria_example :
    deserializar_nuevo_proceso_memoria
      ((serializar_nuevo_proceso_memoria mensaje_crear_proceso).stream ++ 5 ∷ [])
    ≡ some (mensaje_crear_proceso, 5 ∷ [])
deserializar_nuevo_proceso_memoria-serializar_nuevo_proceso_memoria_example =
    deserializar_nuevo_proceso_memoria-serializar_nuevo_proceso_memoria mensaje_crear_proceso
      (5 ∷ []) (record { ruta_archivo = omega arith; pid = omega arith })

abbrev mensaje_handshake_io : HandshakeIo
mensaje_handshake_io = record { nombre = (65 ∷ 0 ∷ []); tipo_interfaz = 7 }

abbrev mensaje_io_ocupada_read : IoOcupadaRead
mensaje_io_ocupada_read = record {
  nombre_interfaz = (65 ∷ 0 ∷ []);
  pid = 7;
  direccion_fisica = direccion;
  reg = un_byte;
}

abbrev mensaje_ejecutar_io_stdin : EjecutarIoStdin
mensaje_ejecutar_io_stdin = record {
  pid = 7;
  dir_fisica = direccion;
  tamanio = un_byte;
  a_escribir = (65 ∷ 0 ∷ []);
}

deserializar_io_stdin-serializar_io_stdin_example :
    deserializar_io_stdin ((serializar_io_stdin mensaje_ejecutar_io_stdin).stream ++ 5 ∷ [])
    ≡ some (mensaje_ejecutar_io_stdin, 5 ∷ [])
deserializar_io_stdin-serializar_io_stdin_example =
    deserializar_io_stdin-serializar_io_stdin mensaje_ejecutar_io_stdin (5 ∷ []) (record {
      pid = omega arith;
      dir_fisica = direccion-DireccionValida;
      tamanio = un_byte-RegistroValido;
      a_escribir = omega arith;
    })

abbrev mensaje_ejecutar_io_fs_write : EjecutarIoFsWrite
mensaje_ejecutar_io_fs_write = record {
  pid = 7;
  nombre_archivo = (65 ∷ 0 ∷ []);
  tamanio = 7;
  posicion_archivo = 7;
  dir_fisica = direccion;
}

deserializar_ejecutar_io_fs_write-serializar_ejecutar_io_fs_write_example :
    deserializar_ejecutar_io_fs_write
      ((serializar_ejecutar_io_fs_write mensaje_ejecutar_io_fs_write).stream ++ 5 ∷ [])
    ≡ some (mensaje_ejecutar_io_fs_write, 5 ∷ [])
deserializar_ejecutar_io_fs_write-serializar_ejecutar_io_fs_write_example =
    deserializar_ejecutar_io_fs_write-serializar_ejecutar_io_fs_write mensaje_ejecutar_io_fs_write
      (5 ∷ [])
      (record {
        pid = omega arith;
        nombre_archivo = omega arith;
        tamanio = omega arith;
        posicion_archivo = omega arith;
        dir_fisica = direccion-DireccionValida;
      })

abbrev mensaje_io_ocupada_fs_write : IoOcupadaFsWrite
mensaje_io_ocupada_fs_write = record {
  nombre_interfaz = (65 ∷ 0 ∷ []);
  pid = 7;
  nombre_archivo = (65 ∷ 0 ∷ []);
  tamanio = 7;
  posicion_archivo = 7;
  direccion_fisica = direccion;
}

deserializar_io_ocupada_fs_write-serializar_interfaz_ocupada_fs_write_example :
    deserializar_io_ocupada_fs_write
      ((serializar_interfaz_ocupada_fs_write mensaje_io_ocupada_fs_write).stream ++ 5 ∷ [])
    ≡ some (mensaje_io_ocupada_fs_write, 5 ∷ [])
deserializar_io_ocupada_fs_write-serializar_interfaz_ocupada_fs_write_example =
    deserializar_io_ocupada_fs_write-serializar_interfaz_ocupada_fs_write
      mensaje_io_ocupada_fs_write (5 ∷ [])
      (record {
        nombre_interfaz = omega arith;
        pid = omega arith;
        nombre_archivo = omega arith;
        tamanio = omega arith;
        posicion_archivo = omega arith;
        direccion_fisica = direccion-DireccionValida;
      })

abbrev ocupada : IoOcupadaWrite
ocupada = record {
  nombre_interfaz = 65 ∷ 0 ∷ [];
  pid = 7;
  direccion_fisica = direccion;
  tamanio = 16;
}

deserializar_io_ocupada_write-corto_example :
    deserializar_io_ocupada_write (serializar_interfaz_ocupada_write ocupada).stream ≡ none
deserializar_io_ocupada_write-corto_example =
    deserializar_io_ocupada_write-corto ocupada
      (record {
        nombre_interfaz = omega arith;
        pid = omega arith;
        direccion_fisica = direccion-DireccionValida;
      })
      (λ e. absurd (omega (arith, e)))

abbrev contexto : ContextoMensaje
contexto = record {
  pcb_ejecutado = record {
    pc = 6;
    pid = 2;
    quantum = 1500;
    registros = registros;
    recurso_esperando = none;
    recursos_tomados = (82 ∷ 65 ∷ 0 ∷ []) ∷ [];
    estado = 2;
    tiempo_inicial = 0;
  };
  motivo_desalojo = 1;
  recurso = none;
}

contexto-ContextoMensajeValido : ContextoMensajeValido contexto
unfolding RecursoValido RecursosValidos
contexto-ContextoMensajeValido = record {
  pcb_ejecutado = record {
    pc = omega arith;
    pid = omega arith;
    quantum = omega arith;
    registros = registros-EnRango;
    recurso_esperando = omega arith;
    cantidad = omega arith;
    recursos_tomados = (omega arith, omega arith);
    estado = omega arith;
    tiempo_inicial = omega arith;
  };
  motivo_desalojo = omega arith;
  recurso = omega arith;
}

abbrev peticion_fs_write : PeticionIoFsWrite
peticion_fs_write = record {
  cde = contexto;
  interfaz = 70 ∷ 83 ∷ 0 ∷ [];
  nombre_archivo = 110 ∷ 0 ∷ [];
  tam = 300;
  dir_fis = direccion;
  posicion_archivo = 12;
}

deserializar_peticion_io_fs_write-obtener_paquete_peticion_io_fs_write_example :
    deserializar_peticion_io_fs_write
      ((obtener_paquete_peticion_io_fs_write peticion_fs_write).stream ++ 5 ∷ [])
    ≡ some (peticion_fs_write, 5 ∷ [])
deserializar_peticion_io_fs_write-obtener_paquete_peticion_io_fs_write_example =
    deserializar_peticion_io_fs_write-obtener_paquete_peticion_io_fs_write peticion_fs_write
      (5 ∷ [])
      (record {
        cde = contexto-ContextoMensajeValido;
        interfaz = omega arith;
        nombre_archivo = omega arith;
        tam = omega arith;
        dir_fis = direccion-DireccionValida;
        posicion_archivo = omega arith;
      })

abbrev peticion_stdin : PeticionIoStdinRead
peticion_stdin = record {
  cde = contexto;
  interfaz = 73 ∷ 78 ∷ 0 ∷ [];
  dir_fisica = direccion;
  tamanio = un_byte;
}

deserializar_obtener_paquete_peticion_io_stdin_read-nombre_example :
    (s : List ℕ) × (deserializar_obtener_paquete_peticion_io_stdin_read
        ((serializar_peticion_io_stdin_read peticion_stdin).stream ++ [])
      ≡ some (
        record peticion_stdin {
          cde = contexto_sin_recurso contexto;
          tamanio = record { tipo = 3; dato = 0x100_0000 * 73 };
        },
        s,
      ))
deserializar_obtener_paquete_peticion_io_stdin_read-nombre_example =
    deserializar_obtener_paquete_peticion_io_stdin_read-nombre peticion_stdin 73 (78 ∷ 0 ∷ []) []
      (record {
        cde = contexto-ContextoMensajeValido;
        interfaz = omega arith;
        dir_fisica = direccion-DireccionValida;
      })
      refl (omega arith) (omega arith)
