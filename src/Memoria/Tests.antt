-- ===== src/Memoria/Tests.antt =====
-- A memory of eight frames with two processes, and the theorems at concrete inputs.
use tp_sisop_1c.Memoria.Pedidos.{
  ejecutar_mov_in, ejecutar_mov_out, ejecutar_mov_out-ejecutar_mov_in,
}
use tp_sisop_1c.Memoria.Paginacion.Libre.{Hallado, buscar_marco-Hallado}
use tp_sisop_1c.Memoria.Datos.Lectura.{obtener_datos-cruza, obtener_datos_de_memoria_lem}
use tp_sisop_1c.Memoria.Datos.Rango.{byte_logico}
use tp_sisop_1c.Memoria.Datos.Aislamiento.{
  Escritura, agregar_datos_a_memoria-Escritura, copy_string-Escritura,
}
use tp_sisop_1c.Memoria.Datos.{
  agregar_datos_a_memoria, copy_string, obtener_datos_de_memoria,
  obtener_datos_contiguos_de_memoria as rango, escribir, agregar_datos_contiguos_a_memoria,
  obtener_pagina_de_marco, buscar_pagina, obtener_marco_de_direccion, list_get, tamanio_a_copiar,
  pagina_siguiente, direccion_siguiente,
}
use tp_sisop_1c.Memoria.Paginacion.Altas.{Alta, Baja, crear_proceso-Alta, eliminar_proceso-Baja}
use tp_sisop_1c.Prelude.{
  refl, [], some, none, inl, inr, ◌⊎◌, ◌++◌, ◌∷◌, ◌≡◌, List, Option, ℕ, ◌*◌, ◌+◌, ◌<◌, ◌≤◌, arith,
}
use tp_sisop_1c.Prelude.Int.{◌-ℤ◌, ◌+ℤ◌}
use tp_sisop_1c.Commons.Ejemplo.{bits_ejemplo, diccionario_ejemplo}
use tp_sisop_1c.Memoria.{Entorno, Memoria, Config, crear_estructuras_memoria, con_estructuras}
use tp_sisop_1c.Memoria.Paginacion.{
  resize_proceso, crear_proceso, ajustar, ampliar, obtener_marco_libre, buscar_marco, ocupar_marco,
  cantidad_paginas, eliminar_proceso,
}
use tp_sisop_1c.Memoria.Paginacion.Valido.{
  IsValid, Creadas, con_estructuras-IsValid, cantidad_paginas_bounds, crear_estructuras-IsValid,
}
use tp_sisop_1c.Memoria.Paginacion.Redimension.{Respuesta, resize_proceso-Respuesta}

abbrev entorno : Entorno
entorno = record {
  bits = bits_ejemplo;
  paginas = diccionario_ejemplo (List ℕ);
  instrucciones = diccionario_ejemplo (List (List ℕ));
  leer_archivo = λ _ nombre. some (nombre ∷ []);
}

abbrev config : Config
config = record { tam_memoria = 32; tam_pagina = 4; path_instrucciones = [] }

vacia : Memoria entorno
unfolding con_estructuras
vacia = con_estructuras entorno config (λ a. a) 8

dos_procesos : Memoria entorno
unfolding vacia crear_proceso
dos_procesos = crear_proceso entorno (crear_proceso entorno vacia (7 ∷ []) 1) (8 ∷ []) 2

-- The state behind an answer.
despues : Memoria entorno → Option (ℕ × Memoria entorno) → Memoria entorno
despues s none = s
despues s (some (r, s')) = s'

despues-IsValid :
    (s : Memoria entorno) (pid n : ℕ) (xs : List ℕ) (r : Option (ℕ × Memoria entorno))
    → IsValid entorno s
    → Respuesta entorno s pid n xs r
    → IsValid entorno (despues s r)
unfolding despues
despues-IsValid s pid n xs r v (inl (_, same)) = rw same v
despues-IsValid s pid n xs r v (inr (_, (s', same, d))) = rw same d.valid

-- Process 1 has frames 0 and 2, process 2 frame 1.
repartida : Memoria entorno
unfolding dos_procesos despues resize_proceso ajustar ampliar obtener_marco_libre buscar_marco
    ocupar_marco cantidad_paginas ◌-ℤ◌
repartida =
    let a = despues dos_procesos (resize_proceso entorno dos_procesos 1 3) in
    let b = despues a (resize_proceso entorno a 2 4) in despues b (resize_proceso entorno b 1 8)

vacia-IsValid : IsValid entorno vacia
unfolding vacia
vacia-IsValid = con_estructuras-IsValid entorno config (λ a. a) 8

dos_procesos-IsValid : IsValid entorno dos_procesos
unfolding dos_procesos
dos_procesos-IsValid =
    (crear_proceso-Alta entorno _ (8 ∷ []) 2
      (crear_proceso-Alta entorno vacia (7 ∷ []) 1 vacia-IsValid).valid).valid

redimensionar-IsValid :
    (s : Memoria entorno) (pid bytes : ℕ) (xs : List ℕ)
    → IsValid entorno s
    → 0 < s.config.tam_pagina
    → s.tabla_de_paginas pid ≡ some xs
    → IsValid entorno (despues s (resize_proceso entorno s pid bytes))
redimensionar-IsValid s pid bytes xs v h e =
    despues-IsValid s pid _ xs _ v (resize_proceso-Respuesta entorno s pid bytes xs v h e)

repartida-IsValid : IsValid entorno repartida
unfolding repartida
repartida-IsValid =
    let a = despues dos_procesos (resize_proceso entorno dos_procesos 1 3) in
    let b = despues a (resize_proceso entorno a 2 4) in
    redimensionar-IsValid b 1 8 (0 ∷ [])
      (redimensionar-IsValid a 2 4 []
        (redimensionar-IsValid dos_procesos 1 3 [] dos_procesos-IsValid (omega arith) refl)
        (omega arith) refl)
      (omega arith) refl

pagina_1 : repartida.tabla_de_paginas 1 ≡ some (0 ∷ 2 ∷ [])
unfolding repartida
pagina_1 = refl

crear_estructuras-IsValid_example :
    ((config.tam_pagina ≡ 0) × (crear_estructuras_memoria entorno config (λ a. a) ≡ none))
    ⊎ ((s : Memoria entorno) × (crear_estructuras_memoria entorno config (λ a. a) ≡ some s)
        × Creadas entorno config (λ a. a) s)
crear_estructuras-IsValid_example = crear_estructuras-IsValid entorno config (λ a. a)

crear_proceso-Alta_example :
    Alta entorno dos_procesos (5 ∷ []) 9 (crear_proceso entorno dos_procesos (5 ∷ []) 9)
crear_proceso-Alta_example = crear_proceso-Alta entorno dos_procesos (5 ∷ []) 9 dos_procesos-IsValid

resize_proceso-Respuesta_example :
    Respuesta entorno repartida 1
      (cantidad_paginas 30 4)
      (0 ∷ 2 ∷ [])
      (resize_proceso entorno repartida 1 30)
unfolding repartida
resize_proceso-Respuesta_example =
    resize_proceso-Respuesta entorno repartida 1 30 (0 ∷ 2 ∷ []) repartida-IsValid (omega arith)
      refl

eliminar_proceso-Baja_example :
    (s' : Memoria entorno) × (eliminar_proceso entorno repartida 1 ≡ some s')
    × Baja entorno repartida 1 (0 ∷ 2 ∷ []) s'
unfolding repartida
eliminar_proceso-Baja_example =
    eliminar_proceso-Baja entorno repartida 1 (0 ∷ 2 ∷ []) repartida-IsValid refl

buscar_marco-Hallado_example :
    Hallado
      (entorno.bits.test_bit repartida.marcos)
      0
      8
      (buscar_marco (entorno.bits.test_bit repartida.marcos) 0 8)
buscar_marco-Hallado_example = buscar_marco-Hallado (entorno.bits.test_bit repartida.marcos) 0 8

cantidad_paginas_bounds_example :
    (10 ≤ cantidad_paginas 10 4 * 4) × (cantidad_paginas 10 4 * 4 < 10 + 4)
cantidad_paginas_bounds_example = cantidad_paginas_bounds 10 4 (omega arith)

-- Seven bytes from the start of page 0, that is over the frames 0 and 2.
obtener_datos_de_memoria_lem_example :
    obtener_datos_de_memoria entorno repartida 0 7 1
    ≡ some (rango (byte_logico repartida.memoria 4 (0 ∷ 2 ∷ [])) 0 7)
unfolding repartida
obtener_datos_de_memoria_lem_example =
    obtener_datos_de_memoria_lem entorno repartida 1 0 0 7 0 (0 ∷ 2 ∷ []) repartida-IsValid
      (omega arith) refl refl (omega arith) (inl refl)

-- Two bytes from address 3, over the end of page 0: the second comes from frame 1, of process 2.
obtener_datos-cruza_example :
    (obtener_datos_de_memoria entorno repartida 3 2 1
      ≡ some
          (rango (byte_logico repartida.memoria 4 (0 ∷ 2 ∷ [])) 3 1 ++ rango repartida.memoria 4 1))
    × ¬ (
        obtener_datos_de_memoria entorno repartida 3 2 1
        ≡ some (rango (byte_logico repartida.memoria 4 (0 ∷ 2 ∷ [])) 3 2))
unfolding repartida
obtener_datos-cruza_example =
    obtener_datos-cruza entorno repartida 1 0 3 2 0 (0 ∷ 2 ∷ []) 2 repartida-IsValid (omega arith)
      refl refl refl (omega arith) (omega arith) (omega arith)

agregar_datos_a_memoria-Escritura_example :
    (s' : Memoria entorno) × (agregar_datos_a_memoria entorno repartida (9 ∷ 8 ∷ 7 ∷ 6 ∷ 5 ∷ []) 0 1
      ≡ some s')
    × Escritura entorno repartida 1 0 0 0 (0 ∷ 2 ∷ []) (9 ∷ 8 ∷ 7 ∷ 6 ∷ 5 ∷ []) s'
unfolding repartida
agregar_datos_a_memoria-Escritura_example =
    agregar_datos_a_memoria-Escritura entorno repartida 1 0 0 0 (0 ∷ 2 ∷ [])
      (9 ∷ 8 ∷ 7 ∷ 6 ∷ 5 ∷ []) repartida-IsValid (omega arith) refl refl (omega arith) (inl refl)

copy_string-Escritura_example :
    (s' : Memoria entorno) × (copy_string entorno repartida 9 0 3 1 ≡ some s')
    × Escritura entorno repartida 1 1 1 2
        (0 ∷ 2 ∷ [])
        (rango (byte_logico repartida.memoria 4 (0 ∷ 2 ∷ [])) 0 3)
        s'
unfolding repartida
copy_string-Escritura_example =
    copy_string-Escritura entorno repartida 1 0 0 0 1 1 2 3 (0 ∷ 2 ∷ []) repartida-IsValid
      (omega arith) (omega arith) refl refl refl (omega arith) (omega arith) (inl refl)
      (inr (omega arith))

primeros : Option (Memoria entorno) → List ℕ
primeros none = []
primeros (some s) = rango s.memoria 0 12

-- After the write the bytes lie in the two frames of process 1.
escritura_ejemplo :
    primeros (agregar_datos_a_memoria entorno repartida (9 ∷ 8 ∷ 7 ∷ 6 ∷ 5 ∷ []) 0 1)
    ≡ 9 ∷ 8 ∷ 7 ∷ 6 ∷ 4 ∷ 5 ∷ 6 ∷ 7 ∷ 5 ∷ 9 ∷ 10 ∷ 11 ∷ []
unfolding repartida primeros agregar_datos_a_memoria rango escribir
    agregar_datos_contiguos_a_memoria obtener_pagina_de_marco buscar_pagina
    obtener_marco_de_direccion list_get tamanio_a_copiar pagina_siguiente direccion_siguiente ◌+ℤ◌
escritura_ejemplo = refl

-- A register of four bytes at the start of page 1 of process 1, that is in frame 2.
ejecutar_mov_out-ejecutar_mov_in_example :
    (s' : Memoria entorno) × (ejecutar_mov_out entorno repartida 1 2 0
        (record { tipo = 2; dato = 70000 })
      ≡ some s')
    × (ejecutar_mov_in entorno s' 1 2 0 (record { tipo = 2; dato = 70000 })
        ≡ some (record { tipo = 2; dato = 70000 }))
unfolding repartida
ejecutar_mov_out-ejecutar_mov_in_example =
    ejecutar_mov_out-ejecutar_mov_in entorno repartida 1 1 0 2 (0 ∷ 2 ∷ [])
      (record { tipo = 2; dato = 70000 }) repartida-IsValid (omega arith) refl refl (omega arith)
      (inl refl) (record { tipo = omega arith; dato = omega arith })
