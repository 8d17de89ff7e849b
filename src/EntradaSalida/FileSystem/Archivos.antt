-- ===== src/EntradaSalida/FileSystem/Archivos.antt =====
-- `crearArchivo` and `eliminarArchivo`: what they do to the bitmap and to the files.
use tp_sisop_1c.Prelude.{
  dec_lt, refl, true, false, some, none, inl, inr, ◌*◌, ◌+◌, ◌<◌, ◌∙◌, ◌≡◌, ◌≢◌, ◌≤◌, ℕ, ◌==◌, ◌⊎◌,
  arith, Option, subst, ap,
}
use native.Mathlib.Nat.{div-add-mod, mod-lt, mul-le-mul_right}
use tp_sisop_1c.EntradaSalida.FileSystem.{
  Contenedores, FileSystem, Archivo, bloque_libre, asignar_bloque, crear_archivo, eliminar_archivo,
  cantidad_de_bloques, desasignar_desde,
}
use tp_sisop_1c.EntradaSalida.FileSystem.Bloques.{Desasignados, desasignar_desde-Desasignados}
use tp_sisop_1c.Memoria.Paginacion.{buscar_marco}
use tp_sisop_1c.Memoria.Paginacion.Libre.{Hallado, buscar_marco-Hallado}

misma : (k : ℕ) → (k == k) ≡ true
misma k = ground arith

otra : (k j : ℕ) → k ≢ j → (k == j) ≡ false
otra k j h = ground arith

sin_bloques : (block_size : ℕ) → 0 < block_size → cantidad_de_bloques block_size 0 ≡ 0
unfolding cantidad_de_bloques
sin_bloques block_size h = ground arith

-- The blocks of a file hold its bytes and one less would not.
cantidad_de_bloques_bounds :
    (block_size tamanio : ℕ)
    → 0 < block_size
    → (tamanio ≤ cantidad_de_bloques block_size tamanio * block_size)
      × (cantidad_de_bloques block_size tamanio * block_size < tamanio + block_size)
unfolding cantidad_de_bloques
cantidad_de_bloques_bounds block_size tamanio h =
    grind (arith, div-add-mod tamanio block_size, mod-lt)

bloques_dentro :
    (block_size inicial n tamanio total : ℕ)
    → n * block_size < tamanio + block_size
    → inicial * block_size + tamanio ≤ total * block_size
    → inicial + n ≤ total
bloques_dentro block_size inicial n tamanio total h k = elim (dec_lt total (inicial + n)) [
  | yes lt ↦
      let mas : (total + 1) * block_size ≤ (inicial + n) * block_size =
        mul-le-mul_right block_size (omega arith) in
      absurd (grind arith)
  | no ge ↦ omega arith
]

nada :
    (c : Contenedores) (k : ℕ) (b : c.bits.Bits)
    → c.bits.test_bit (desasignar_desde c 0 k b) k ≡ c.bits.test_bit b k
unfolding desasignar_desde
nada c k b = refl

module _ (c : Contenedores) where
  open c use {
    bits.{Bits, size, test_bit, set_bit, clean_bit, size-set_bit, test_bit-set_bit},
    archivos,
  }
  open archivos use {get, put, remove, get-put, get-remove}

  abbrev total : FileSystem c → ℕ
  total s = 8 * size s.bitmap

  -- The new file: no bytes, at the block that was the first free one.
  pub record Creado (s : FileSystem c) (nombre : ℕ) (s' : FileSystem c) : Type 0 where
    pub bloque : ℕ
    pub entrada :
        get s'.archivos nombre ≡ some (record { bloque_inicial = bloque; tam_archivo = 0 })
    pub dentro : bloque < total s
    pub era_libre : test_bit s.bitmap bloque ≡ false
    pub primero : (j : ℕ) → j < bloque → test_bit s.bitmap j ≡ true
    pub ocupado : test_bit s'.bitmap bloque ≡ true
    pub otros_bits : (j : ℕ) → j < total s → bloque ≢ j → test_bit s'.bitmap j ≡ test_bit s.bitmap j
    pub otros : (q : ℕ) → nombre ≢ q → get s'.archivos q ≡ get s.archivos q
    pub bloques : s'.block_size ≡ s.block_size

  -- Creating a file fails only when every block is used; otherwise the file is empty and takes the
  -- first free block, and the other blocks and files are as before.
  pub crear_archivo-Creado :
      (s : FileSystem c) (nombre : ℕ)
      → ((crear_archivo c s nombre ≡ none) × ((j : ℕ) → j < total s → test_bit s.bitmap j ≡ true))
        ⊎ ((s' : FileSystem c) × (crear_archivo c s nombre ≡ some s') × Creado s nombre s')
  unfolding crear_archivo asignar_bloque bloque_libre
  crear_archivo-Creado s nombre =
      go (buscar_marco (test_bit s.bitmap) 0 (total s)) refl
        (buscar_marco-Hallado (test_bit s.bitmap) 0 (total s))
    where
      go :
          (o : Option ℕ)
          → buscar_marco (test_bit s.bitmap) 0 (total s) ≡ o
          → Hallado (test_bit s.bitmap) 0 (total s) o
          → ((crear_archivo c s nombre ≡ none)
              × ((j : ℕ) → j < total s → test_bit s.bitmap j ≡ true))
            ⊎ ((s' : FileSystem c) × (crear_archivo c s nombre ≡ some s') × Creado s nombre s')
      go none e h = inl (
        rw (e, bloque_libre, asignar_bloque, crear_archivo) refl,
        λ j l. h j (omega arith) (omega arith),
      )
      go (some b) e (lo, hi, libre, antes) =
          let b_dentro : b < total s = omega arith in
          let nuevo : Archivo = record { bloque_inicial = b; tam_archivo = 0 } in
          let s2 : FileSystem c = record s {
            bitmap = set_bit s.bitmap b;
            archivos = put s.archivos nombre nuevo;
          } in
          inr (
            s2,
            rw (e, bloque_libre, asignar_bloque, crear_archivo) refl,
            record {
              bloque = b;
              entrada = get-put s.archivos nombre nombre nuevo ∙ rw (misma nombre) refl;
              dentro = b_dentro;
              era_libre = libre;
              primero = λ j l. antes j (omega arith) l;
              ocupado = test_bit-set_bit s.bitmap b b b_dentro b_dentro ∙ rw (misma b) refl;
              otros_bits =
                  λ j l ne. test_bit-set_bit s.bitmap b j b_dentro l ∙ rw (otra b j ne) refl;
              otros = λ q ne. get-put s.archivos nombre q nuevo ∙ rw (otra nombre q ne) refl;
              bloques = refl;
            },
          )

  -- The file is gone, its blocks are free, and the other blocks and files are as before.
  pub record Eliminado (s : FileSystem c) (nombre : ℕ) (a : Archivo) (s' : FileSystem c)
      : Type 0 where
    pub sin_entrada : get s'.archivos nombre ≡ none
    pub bloques : ℕ
    pub caben : a.tam_archivo ≤ bloques * s.block_size
    pub justos : bloques * s.block_size < a.tam_archivo + s.block_size
    pub bits : Desasignados c bloques a.bloque_inicial s.bitmap s'.bitmap
    pub otros : (q : ℕ) → nombre ≢ q → get s'.archivos q ≡ get s.archivos q

  -- With blocks that are not empty, deleting a file whose bytes lie within the blocks of the
  -- bitmap frees, from its first block on, the least number of blocks that hold its bytes; the
  -- other blocks and files are as before.
  pub eliminar_archivo-Eliminado :
      (s : FileSystem c) (nombre : ℕ) (a : Archivo)
      → 0 < s.block_size
      → get s.archivos nombre ≡ some a
      → a.bloque_inicial * s.block_size + a.tam_archivo ≤ total s * s.block_size
      → Eliminado s nombre a (eliminar_archivo c s nombre)
  unfolding eliminar_archivo
  eliminar_archivo-Eliminado s nombre a positivo e h =
      let (caben, justos) = cantidad_de_bloques_bounds s.block_size a.tam_archivo positivo in
      rw (e, eliminar_archivo)
        (record {
          sin_entrada = get-remove s.archivos nombre nombre ∙ rw (misma nombre) refl;
          bloques = cantidad_de_bloques s.block_size a.tam_archivo;
          caben = caben;
          justos = justos;
          bits =
              desasignar_desde-Desasignados c _ a.bloque_inicial s.bitmap
                (bloques_dentro s.block_size a.bloque_inicial _ a.tam_archivo (total s) justos h);
          otros = λ q ne. get-remove s.archivos nombre q ∙ rw (otra nombre q ne) refl;
        })

  -- With blocks that are not empty, deleting a file right after its creation leaves its block used
  -- although it is no longer a file's.
  pub crear_archivo-eliminar_archivo :
      (s s' : FileSystem c) (nombre : ℕ)
      → 0 < s.block_size
      → crear_archivo c s nombre ≡ some s'
      → (b : ℕ) × (test_bit s.bitmap b ≡ false)
        × (test_bit (eliminar_archivo c s' nombre).bitmap b ≡ true)
        × (get (eliminar_archivo c s' nombre).archivos nombre ≡ none)
  unfolding eliminar_archivo
  crear_archivo-eliminar_archivo s s' nombre h e =
      let cr : Creado s nombre s' = elim (crear_archivo-Creado s nombre) [
        | inl (f, llenos) ↦ absurd (cc (e, f))
        | inr (s1, f, cr) ↦ subst (λ t. Creado s nombre t) (cc (e, f)) cr
      ] in
      (
        cr.bloque,
        cr.era_libre,
        rw (cr.entrada, eliminar_archivo)
            (ap (λ n. test_bit (desasignar_desde c n cr.bloque s'.bitmap) cr.bloque)
                (sin_bloques s'.block_size (omega (arith, h, cr.bloques)))
              ∙ nada c cr.bloque s'.bitmap
              ∙ cr.ocupado),
        rw (cr.entrada, eliminar_archivo)
            (get-remove s'.archivos nombre nombre ∙ rw (misma nombre) refl),
      )
