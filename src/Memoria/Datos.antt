-- ===== src/Memoria/Datos.antt =====
-- memoria/src/operaciones.c: reading and writing the bytes of a process by physical address
-- (`obtener_datos_de_memoria`, `agregar_datos_a_memoria`, `copy_string`). Addresses and sizes are
-- C ints that are not negative. `none` is a fault, or a loop that ran out of fuel.
pub mod Rango
pub mod Lectura
pub mod Trozo
pub mod Escritura
pub mod Aislamiento
use tp_sisop_1c.Prelude.{
  [], get_elem?, if◌then◌else◌, some, ◌*◌, ◌-◌, ltb, none, suc, ◌%◌, ◌+◌, ◌==◌, ◌∷◌, length, ◌++◌,
  take, drop, zero, ◌/◌, List, Option, ℕ,
}
use tp_sisop_1c.Prelude.Int.{ℤ, pos, negsuc, ◌+ℤ◌}
use tp_sisop_1c.Memoria.{Entorno, Memoria}

-- memcpy out of the memory, and into it.
unfoldable pub obtener_datos_contiguos_de_memoria : (ℕ → ℕ) → ℕ → ℕ → List ℕ
obtener_datos_contiguos_de_memoria m direccion zero = []
obtener_datos_contiguos_de_memoria m direccion (suc n) =
    m direccion ∷ obtener_datos_contiguos_de_memoria m (direccion + 1) n

unfoldable pub agregar_datos_contiguos_a_memoria : (ℕ → ℕ) → ℕ → List ℕ → ℕ → ℕ
agregar_datos_contiguos_a_memoria m direccion [] = m
agregar_datos_contiguos_a_memoria m direccion (x ∷ datos) =
    agregar_datos_contiguos_a_memoria (λ a. if direccion == a then x else m a) (direccion + 1) datos

unfoldable pub obtener_marco_de_direccion : ℕ → ℕ → ℕ
obtener_marco_de_direccion tam direccion = direccion / tam

-- The loop from page `i` on; -1 when no page lies in the frame.
unfoldable pub buscar_pagina : List ℕ → ℕ → ℕ → ℤ
buscar_pagina [] marco i = negsuc 0
buscar_pagina (x ∷ paginas) marco i =
    if x == marco then pos i else buscar_pagina paginas marco (i + 1)

unfoldable pub obtener_pagina_de_marco : List ℕ → ℕ → ℤ
obtener_pagina_de_marco paginas marco = buscar_pagina paginas marco 0

-- The two callers compute it and do not use it.
unfoldable pub obtener_tamanio_hasta_llenar_pagina : ℕ → ℕ → ℕ
obtener_tamanio_hasta_llenar_pagina tam direccion = tam - direccion % tam

-- `list_get` with a C int: NULL outside the list.
unfoldable pub list_get : List ℕ → ℤ → Option ℕ
list_get paginas (pos i) = get_elem? paginas i
list_get paginas (negsuc i) = none

-- The size of the chunk of one round, and the page after it.
unfoldable pub tamanio_a_copiar : ℕ → ℕ → ℕ
tamanio_a_copiar tam restante = if ltb tam restante then tam else restante

unfoldable pub pagina_siguiente : ℕ → ℕ → ℤ → ℤ
pagina_siguiente tam restante pagina = if ltb tam restante then pagina +ℤ pos 1 else pagina

unfoldable pub direccion_siguiente : ℕ → ℕ → ℕ → ℕ
direccion_siguiente tam direccion marco = marco * tam + direccion % tam

-- The loop of `obtener_datos_de_memoria`: the bytes that it adds to the buffer.
module _ (tam : ℕ) (paginas : List ℕ) where
  unfoldable pub leer : ℕ → (ℕ → ℕ) → ℤ → ℕ → ℕ → Option (List ℕ)
  leer fuel m pagina direccion zero = some []
  leer zero m pagina direccion (suc r) = none
  leer (suc fuel) m pagina direccion (suc r) =
      let n = tamanio_a_copiar tam (suc r) in
      let pagina' = pagina_siguiente tam (suc r) pagina in
      elim (list_get paginas pagina') [
        | none ↦ none
        | some marco ↦
            elim (leer fuel m pagina' (direccion_siguiente tam direccion marco) (suc r - n)) [
              | none ↦ none
              | some resto ↦ some (obtener_datos_contiguos_de_memoria m direccion n ++ resto)
            ]
      ]

  -- The loop of `agregar_datos_a_memoria` over the bytes that are left: the memory after it.
  unfoldable pub escribir : ℕ → (ℕ → ℕ) → ℤ → ℕ → List ℕ → Option (ℕ → ℕ)
  escribir fuel m pagina direccion [] = some m
  escribir zero m pagina direccion (x ∷ datos) = none
  escribir (suc fuel) m pagina direccion (x ∷ datos) =
      let n = tamanio_a_copiar tam (length (x ∷ datos)) in
      let pagina' = pagina_siguiente tam (length (x ∷ datos)) pagina in
      let m' = agregar_datos_contiguos_a_memoria m direccion (take n (x ∷ datos)) in
      elim (list_get paginas pagina') [
        | none ↦ none
        | some marco ↦
            escribir fuel m' pagina' (direccion_siguiente tam direccion marco) (drop n (x ∷ datos))
      ]

module _ (e : Entorno) where
  open e use {paginas}
  open paginas use {get}

  -- The size itself is enough fuel: with pages of a byte or more each round copies a byte or more.
  unfoldable pub obtener_datos_de_memoria : Memoria e → ℕ → ℕ → ℕ → Option (List ℕ)
  obtener_datos_de_memoria s direccion tamanio pid =
      let tam = s.config.tam_pagina in
      if tam == 0 then none else elim (get s.tabla_de_paginas pid) [
        | none ↦ none
        | some paginas ↦
            leer tam paginas tamanio s.memoria
              (obtener_pagina_de_marco paginas (obtener_marco_de_direccion tam direccion)) direccion
              tamanio
      ]

  unfoldable pub con_memoria : Memoria e → Option (ℕ → ℕ) → Option (Memoria e)
  con_memoria s none = none
  con_memoria s (some m) = some (record s { memoria = m })

  -- The callers pass as many bytes as the size says.
  unfoldable pub agregar_datos_a_memoria : Memoria e → List ℕ → ℕ → ℕ → Option (Memoria e)
  unfolding con_memoria
  agregar_datos_a_memoria s datos direccion pid =
      let tam = s.config.tam_pagina in
      if tam == 0 then none else elim (get s.tabla_de_paginas pid) [
        | none ↦ none
        | some paginas ↦ con_memoria s (
            escribir tam paginas (length datos) s.memoria
              (obtener_pagina_de_marco paginas (obtener_marco_de_direccion tam direccion)) direccion
              datos)
      ]

  unfoldable pub copy_string : Memoria e → ℕ → ℕ → ℕ → ℕ → Option (Memoria e)
  copy_string s di si tamanio pid = elim (obtener_datos_de_memoria s si tamanio pid) [
    | none ↦ none
    | some texto ↦ agregar_datos_a_memoria s texto di pid
  ]
