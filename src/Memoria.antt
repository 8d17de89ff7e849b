-- ===== src/Memoria.antt =====
-- memoria/src: the state of the memory module (main.h, main.c, config) and its set-up
-- (`crear_estructuras_memoria` of paginacion.c). The operations and the handlers are children.
pub mod Paginacion
pub mod Datos
pub mod Pedidos
pub mod Tests
use tp_sisop_1c.Prelude.{ℕ, ◌/◌, List, Option, none, some, if◌then◌else◌, ◌==◌, zero}
use tp_sisop_1c.Prelude.Int.{ℤ, pos}
use tp_sisop_1c.Commons.{Bitarray, Dictionary}

-- t_config_memoria, without the port and the delay of the answers.
pub record Config : Type 0 where
  pub tam_memoria : ℕ
  pub tam_pagina : ℕ
  pub path_instrucciones : List ℕ

-- What the module is given: the containers of so-commons, and the file system behind `leer_archivo`,
-- which answers `none` when the file cannot be opened. A text is the list of its bytes.
pub record Entorno : Type 1 where
  pub bits : Bitarray
  pub paginas : Dictionary (List ℕ)
  pub instrucciones : Dictionary (List (List ℕ))
  pub leer_archivo : List ℕ → List ℕ → Option (List (List ℕ))

module _ (e : Entorno) where
  open e use {bits.{Bits, create as bitarray_create}, paginas, instrucciones}
  open paginas use {Dict as Tabla, create as tabla_create}
  open instrucciones use {Dict as Instrucciones, create as instrucciones_create}

  -- The globals of main.c. `memoria` maps an address below `tam_memoria` to its byte.
  -- A list of pages holds the frame of each page; the code changes it in place in the dictionary.
  pub record Memoria : Type 0 where
    pub config : Config
    pub memoria : ℕ → ℕ
    pub marcos : Bits
    pub cantidad_marcos_libres : ℤ
    pub tabla_de_paginas : Tabla
    pub cantidad_de_paginas : ℕ
    pub dict_instrucciones : Instrucciones

  -- What is built with `cantidad` frames. `malloc` leaves the bytes of the memory as they happen to
  -- be.
  unfoldable pub con_estructuras : Config → (ℕ → ℕ) → ℕ → Memoria
  con_estructuras c bytes cantidad = record {
    config = c;
    memoria = bytes;
    marcos = bitarray_create cantidad;
    cantidad_marcos_libres = pos cantidad;
    tabla_de_paginas = tabla_create;
    cantidad_de_paginas = cantidad;
    dict_instrucciones = instrucciones_create;
  }

  -- `none` is the division by a size of zero.
  unfoldable pub crear_estructuras_memoria : Config → (ℕ → ℕ) → Option Memoria
  unfolding con_estructuras
  crear_estructuras_memoria c bytes =
      if c.tam_pagina == 0
      then none
      else some (con_estructuras c bytes (c.tam_memoria / c.tam_pagina))
