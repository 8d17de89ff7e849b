-- ===== src/EntradaSalida/FileSystem.antt =====
-- entradasalida/src/fileSystem: the bitmap of blocks, and the creation and the deletion of files. A name
-- is a number. The copies of the bitmap and of the files on disk are not part of the state.
pub mod Bloques
pub mod Archivos
use tp_sisop_1c.Prelude.{zero, suc, some, none, ◌%◌, ◌*◌, ◌+◌, ◌/◌, Option, ℕ, if◌then◌else◌, ◌==◌}
use tp_sisop_1c.Commons.{Bitarray, Dictionary}
use tp_sisop_1c.Memoria.Paginacion.{buscar_marco}

-- t_archivo
pub record Archivo : Type 0 where
  pub bloque_inicial : ℕ
  pub tam_archivo : ℕ

-- What so-commons gives.
pub record Contenedores : Type 1 where
  pub bits : Bitarray
  pub archivos : Dictionary Archivo

-- The code divides by the size of a block, which is not zero where a property needs it.
unfoldable pub cantidad_de_bloques : ℕ → ℕ → ℕ
cantidad_de_bloques block_size tamanio =
    let bloques = tamanio / block_size in if tamanio % block_size == 0 then bloques else bloques + 1

module _ (c : Contenedores) where
  open c use {bits.{Bits, size, test_bit, set_bit, clean_bit}, archivos}
  open archivos use {Dict as Archivos, get, put, remove}

  pub record FileSystem : Type 0 where
    pub block_size : ℕ
    pub bitmap : Bits
    pub archivos : Archivos

  -- The loop is that of `obtener_marco_libre`, over the bits; `none` is the answer -1.
  unfoldable pub bloque_libre : FileSystem → Option ℕ
  bloque_libre s = buscar_marco (test_bit s.bitmap) 0 (8 * size s.bitmap)

  unfoldable pub desasignar_bloque : Bits → ℕ → Bits
  desasignar_bloque bitmap bloque = clean_bit bitmap bloque

  -- `none` is a write outside the bitmap: the answer -1 is taken for a block.
  unfoldable pub asignar_bloque : FileSystem → Option (ℕ × FileSystem)
  asignar_bloque s = elim (bloque_libre s) [
    | none ↦ none
    | some bloque ↦ some (bloque, record s { bitmap = set_bit s.bitmap bloque })
  ]

  unfoldable pub crear_archivo : FileSystem → ℕ → Option FileSystem
  crear_archivo s nombre = elim (asignar_bloque s) [
    | none ↦ none
    | some r ↦ some (record r.1 {
      archivos = put r.1.archivos nombre (record { bloque_inicial = r.0; tam_archivo = 0 });
    })
  ]

  -- The loop over the blocks of the file.
  unfoldable pub desasignar_desde : ℕ → ℕ → Bits → Bits
  desasignar_desde zero bloque bitmap = bitmap
  desasignar_desde (suc n) bloque bitmap =
      desasignar_desde n (bloque + 1) (desasignar_bloque bitmap bloque)

  -- A name that is not a file's changes nothing.
  unfoldable pub eliminar_archivo : FileSystem → ℕ → FileSystem
  eliminar_archivo s nombre = elim (get s.archivos nombre) [
    | none ↦ s
    | some archivo ↦ record s {
      bitmap =
          desasignar_desde (cantidad_de_bloques s.block_size archivo.tam_archivo)
            archivo.bloque_inicial s.bitmap;
      archivos = remove s.archivos nombre;
    }
  ]
