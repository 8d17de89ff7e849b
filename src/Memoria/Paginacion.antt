-- ===== src/Memoria/Paginacion.antt =====
-- memoria/src/paginacion.c, and the operations on processes of memoria/src/operaciones.c
-- (`resize_proceso`, `crear_proceso`, `eliminar_proceso`). `none` is a fault of the C program: a
-- division by zero, or a read through the NULL of a missing key, index or file.
pub mod Marcos
pub mod Invariante
pub mod Libre
pub mod Bucles
pub mod Valido
pub mod Redimension
pub mod Altas
use tp_sisop_1c.Prelude.{
  ℕ, zero, suc, ◌+◌, ◌-◌, ◌/◌, ◌%◌, Bool, List, [], ◌∷◌, ◌++◌, Option, none, some, if◌then◌else◌,
  ltb, ◌==◌, length, get_elem?, erase_idx,
}
use tp_sisop_1c.Prelude.Int.{◌+ℤ◌, ◌-ℤ◌, pos, ltb_ℤ}
use tp_sisop_1c.Memoria.{Entorno, Memoria}

-- The loop of `obtener_marco_libre` from bit `i` on, with `n` bits left.
unfoldable pub buscar_marco : (ℕ → Bool) → ℕ → ℕ → Option ℕ
buscar_marco ocupado i zero = none
buscar_marco ocupado i (suc n) = if ocupado i then buscar_marco ocupado (i + 1) n else some i

-- The number of pages that hold `bytes` bytes.
unfoldable pub cantidad_paginas : ℕ → ℕ → ℕ
cantidad_paginas bytes tam = bytes / tam + (if bytes % tam == 0 then 0 else 1)

module _ (e : Entorno) where
  open e use {bits.{size, test_bit, set_bit, clean_bit}, paginas, instrucciones, leer_archivo}
  open paginas use {get, put, remove}
  open instrucciones use {put as put_instrucciones, remove as remove_instrucciones}

  -- `none` is the answer -1.
  unfoldable pub obtener_marco_libre : Memoria e → Option ℕ
  obtener_marco_libre s = buscar_marco (test_bit s.marcos) 0 (size s.marcos)

  unfoldable pub ocupar_marco : Memoria e → ℕ → Memoria e
  ocupar_marco s marco = record s {
    marcos = set_bit s.marcos marco;
    cantidad_marcos_libres = s.cantidad_marcos_libres -ℤ pos 1;
  }

  unfoldable pub liberar_marco : Memoria e → ℕ → Memoria e
  liberar_marco s marco = record s {
    marcos = clean_bit s.marcos marco;
    cantidad_marcos_libres = s.cantidad_marcos_libres +ℤ pos 1;
  }

  unfoldable pub liberar_todos : Memoria e → List ℕ → Memoria e
  liberar_todos s [] = s
  liberar_todos s (marco ∷ resto) = liberar_todos (liberar_marco s marco) resto

  unfoldable pub liberar_marcos_de_proceso : Memoria e → ℕ → Option (Memoria e)
  liberar_marcos_de_proceso s pid = elim (get s.tabla_de_paginas pid) [
    | none ↦ none
    | some marcos ↦ some (liberar_todos s marcos)
  ]

  unfoldable pub acceder_a_tabla_de_paginas : Memoria e → ℕ → ℕ → Option ℕ
  acceder_a_tabla_de_paginas s pid pagina = elim (get s.tabla_de_paginas pid) [
    | none ↦ none
    | some marcos ↦ get_elem? marcos pagina
  ]

  -- The loop that grows a process by `n` pages. The answer -1 of `obtener_marco_libre` would be
  -- taken for a frame: the bit written then lies outside the bitmap.
  unfoldable pub ampliar : ℕ → List ℕ → Memoria e → Option (List ℕ × Memoria e)
  ampliar zero marcos s = some (marcos, s)
  ampliar (suc n) marcos s = elim (obtener_marco_libre s) [
    | none ↦ none
    | some marco ↦ ampliar n (marcos ++ marco ∷ []) (ocupar_marco s marco)
  ]

  -- The loop that shrinks it by `n` pages, from page `i - 1` down.
  unfoldable pub reducir : ℕ → ℕ → List ℕ → Memoria e → Option (List ℕ × Memoria e)
  reducir zero i marcos s = some (marcos, s)
  reducir (suc n) i marcos s = elim (get_elem? marcos (i - 1)) [
    | none ↦ none
    | some marco ↦ reducir n (i - 1) (erase_idx marcos (i - 1)) (liberar_marco s marco)
  ]

  -- The list of pages is changed in place; a finished loop answers 0.
  unfoldable pub con_paginas : ℕ → Option (List ℕ × Memoria e) → Option (ℕ × Memoria e)
  con_paginas pid none = none
  con_paginas pid (some (marcos, s)) =
      some (0, record s { tabla_de_paginas = put s.tabla_de_paginas pid marcos })

  unfoldable pub ajustar : Memoria e → ℕ → ℕ → List ℕ → Option (ℕ × Memoria e)
  unfolding con_paginas
  ajustar s pid pedidas marcos =
      let actuales = length marcos in
      if ltb_ℤ s.cantidad_marcos_libres (pos pedidas -ℤ pos actuales)
      then some (1, s)
      else if ltb actuales pedidas
      then con_paginas pid (ampliar (pedidas - actuales) marcos s)
      else if ltb pedidas actuales
      then con_paginas pid (reducir (actuales - pedidas) actuales marcos s)
      else some (0, s)

  unfoldable pub resize_proceso : Memoria e → ℕ → ℕ → Option (ℕ × Memoria e)
  resize_proceso s pid bytes =
      if s.config.tam_pagina == 0 then none else elim (get s.tabla_de_paginas pid) [
        | none ↦ none
        | some marcos ↦ ajustar s pid (cantidad_paginas bytes s.config.tam_pagina) marcos
      ]

  -- A file that cannot be opened leaves NULL under the pid, which the dictionary answers as for a
  -- missing key.
  unfoldable pub guardar_instrucciones : Memoria e → ℕ → Option (List (List ℕ)) → Memoria e
  guardar_instrucciones s pid none = record s {
    dict_instrucciones = remove_instrucciones s.dict_instrucciones pid;
  }
  guardar_instrucciones s pid (some lineas) = record s {
    dict_instrucciones = put_instrucciones s.dict_instrucciones pid lineas;
  }

  unfoldable pub crear_proceso : Memoria e → List ℕ → ℕ → Memoria e
  unfolding guardar_instrucciones
  crear_proceso s nombre pid =
      let s' = guardar_instrucciones s pid (leer_archivo s.config.path_instrucciones nombre) in
      record s' { tabla_de_paginas = put s'.tabla_de_paginas pid [] }

  unfoldable pub quitar_proceso : ℕ → Option (Memoria e) → Option (Memoria e)
  quitar_proceso pid none = none
  quitar_proceso pid (some s) = some (record s {
    tabla_de_paginas = remove s.tabla_de_paginas pid;
    dict_instrucciones = remove_instrucciones s.dict_instrucciones pid;
  })

  unfoldable pub eliminar_proceso : Memoria e → ℕ → Option (Memoria e)
  unfolding quitar_proceso
  eliminar_proceso s pid = quitar_proceso pid (liberar_marcos_de_proceso s pid)
