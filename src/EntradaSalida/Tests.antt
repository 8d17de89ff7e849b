-- ===== src/EntradaSalida/Tests.antt =====
-- A bitmap of eight blocks with one file, and the theorems on it.
use tp_sisop_1c.Memoria.Paginacion.{buscar_marco}
use tp_sisop_1c.Prelude.{
  refl, true, false, some, none, ◌<◌, ◌≡◌, arith, ltb, ℕ, if◌then◌else◌, ◌⊎◌, ◌==◌,
}
use tp_sisop_1c.Commons.Ejemplo.{bits_ejemplo, diccionario_ejemplo}
use tp_sisop_1c.EntradaSalida.FileSystem.{
  Contenedores, FileSystem, Archivo, crear_archivo, eliminar_archivo, asignar_bloque, bloque_libre,
}
use tp_sisop_1c.EntradaSalida.FileSystem.Archivos.{
  Creado, Eliminado, crear_archivo-Creado, eliminar_archivo-Eliminado,
  crear_archivo-eliminar_archivo,
}

abbrev contenedores : Contenedores
contenedores = record { bits = bits_ejemplo; archivos = diccionario_ejemplo Archivo }

-- Blocks of 16 bytes; the file 3 has blocks 0 and 1.
abbrev disco : FileSystem contenedores
disco = record {
  block_size = 16;
  bitmap = record { bytes = 1; bit = λ i. ltb i 2 };
  archivos = λ n. if n == 3 then some (record { bloque_inicial = 0; tam_archivo = 20 }) else none;
}

-- With a file 5 in block 2.
abbrev con_archivo : FileSystem contenedores
con_archivo = record {
  block_size = 16;
  bitmap = contenedores.bits.set_bit disco.bitmap 2;
  archivos =
      contenedores.archivos.put disco.archivos 5 (record { bloque_inicial = 2; tam_archivo = 0 });
}

crear_archivo-Creado_example :
    ((crear_archivo contenedores disco 5 ≡ none)
      × ((j : ℕ) → j < 8 → contenedores.bits.test_bit disco.bitmap j ≡ true))
    ⊎ ((s' : FileSystem contenedores) × (crear_archivo contenedores disco 5 ≡ some s')
        × Creado contenedores disco 5 s')
crear_archivo-Creado_example = crear_archivo-Creado contenedores disco 5

eliminar_archivo-Eliminado_example :
    Eliminado contenedores disco 3
      (record { bloque_inicial = 0; tam_archivo = 20 })
      (eliminar_archivo contenedores disco 3)
eliminar_archivo-Eliminado_example =
    eliminar_archivo-Eliminado contenedores disco 3
      (record { bloque_inicial = 0; tam_archivo = 20 }) (omega arith) refl (omega arith)

crear_archivo-eliminar_archivo_example :
    (b : ℕ) × (contenedores.bits.test_bit disco.bitmap b ≡ false)
    × (contenedores.bits.test_bit (eliminar_archivo contenedores con_archivo 5).bitmap b ≡ true)
    × (contenedores.archivos.get (eliminar_archivo contenedores con_archivo 5).archivos 5 ≡ none)
unfolding crear_archivo asignar_bloque bloque_libre buscar_marco
crear_archivo-eliminar_archivo_example =
    crear_archivo-eliminar_archivo contenedores disco con_archivo 5 (omega arith) refl
