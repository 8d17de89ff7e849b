-- ===== src/Memoria/Pedidos.antt =====
-- memoria/src/atender_cpu.c: what the requests to move a register do, apart from the sockets.
use tp_sisop_1c.Prelude.{
  zero, suc, refl, [], some, none, ◌%◌, ◌*◌, ◌+◌, ◌/◌, ◌<◌, ◌∙◌, ◌∷◌, ◌≡◌, ◌≤◌, List, ℕ, get_elem?,
  length, ◌^◌, Option, ap, arith, ◌⊎◌, subst, sym,
}
use native.Mathlib.Nat.{mul_comm}
use tp_sisop_1c.Utils.Codec.{Registro, bytes, bytes_de_dato}
use tp_sisop_1c.Utils.Codec.Variables.{RegistroValido, resto_menor, byte_y_resto}
use tp_sisop_1c.Memoria.{Entorno, Memoria}
use tp_sisop_1c.Memoria.Datos.{obtener_datos_de_memoria, agregar_datos_a_memoria}
use tp_sisop_1c.Memoria.Datos.Aislamiento.{agregar_datos_a_memoria-Escritura}
use tp_sisop_1c.Memoria.Paginacion.Valido.{IsValid}

-- The number whose bytes were copied into a variable.
unfoldable pub valor_de_bytes : List ℕ → ℕ
valor_de_bytes [] = 0
valor_de_bytes (b ∷ datos) = b + 256 * valor_de_bytes datos

valor_de_bytes-bytes : (n valor : ℕ) → valor < 256 ^ n → valor_de_bytes (bytes n valor) ≡ valor
unfolding valor_de_bytes bytes
valor_de_bytes-bytes zero valor h = omega (arith, h)
valor_de_bytes-bytes (suc n) valor h =
    ap (λ v. valor % 256 + 256 * v) (valor_de_bytes-bytes n (valor / 256) (resto_menor n valor h))
    ∙ byte_y_resto valor

bytes-length : (n valor : ℕ) → length (bytes n valor) ≡ n
unfolding bytes
bytes-length zero valor = refl
bytes-length (suc n) valor = ap suc (bytes-length n (valor / 256))

module _ (e : Entorno) where
  open e use {paginas}
  open paginas use {get}

  unfoldable pub traducir_direccion : Memoria e → ℕ → ℕ → ℕ
  traducir_direccion s marco desplazamiento = s.config.tam_pagina * marco + desplazamiento

  -- The case EJECUTAR_MOVIN: the register of the answer.
  unfoldable pub ejecutar_mov_in : Memoria e → ℕ → ℕ → ℕ → Registro → Option Registro
  ejecutar_mov_in s pid marco desplazamiento reg =
      elim (obtener_datos_de_memoria e s (traducir_direccion s marco desplazamiento)
        (bytes_de_dato reg.tipo) pid) [
          | none ↦ none
          | some datos ↦ some (record reg { dato = valor_de_bytes datos })
        ]

  -- The case EJECUTAR_MOVOUT.
  unfoldable pub ejecutar_mov_out : Memoria e → ℕ → ℕ → ℕ → Registro → Option (Memoria e)
  ejecutar_mov_out s pid marco desplazamiento reg =
      agregar_datos_a_memoria e s (bytes (bytes_de_dato reg.tipo) reg.dato)
        (traducir_direccion s marco desplazamiento) pid

  -- Moving a register out to an offset of a page of a process and in again from there gives it
  -- back, on a well-formed state, if it holds a value of its size, its bytes are the process's,
  -- and either the offset is 0 or they lie in that page.
  pub ejecutar_mov_out-ejecutar_mov_in :
      (s : Memoria e) (pid k off x : ℕ) (xs : List ℕ) (reg : Registro)
      → IsValid e s
      → off < s.config.tam_pagina
      → get s.tabla_de_paginas pid ≡ some xs
      → get_elem? xs k ≡ some x
      → k * s.config.tam_pagina + off + bytes_de_dato reg.tipo ≤ length xs * s.config.tam_pagina
      → (off ≡ 0) ⊎ (off + bytes_de_dato reg.tipo ≤ s.config.tam_pagina)
      → RegistroValido reg
      → (s' : Memoria e) × (ejecutar_mov_out s pid x off reg ≡ some s')
        × (ejecutar_mov_in s' pid x off reg ≡ some reg)
  unfolding ejecutar_mov_out ejecutar_mov_in traducir_direccion
  ejecutar_mov_out-ejecutar_mov_in s pid k off x xs reg v h hp hx fits c r =
      let n = bytes_de_dato reg.tipo in
      let datos = bytes n reg.dato in
      let tam = s.config.tam_pagina in
      let largo : length datos ≡ n = bytes-length n reg.dato in
      let (s', escrito, w) =
        agregar_datos_a_memoria-Escritura e s pid k off x xs datos v h hp hx
          (omega (arith, fits, largo)) (subst (λ m. (off ≡ 0) ⊎ (off + m ≤ tam)) (sym largo) c) in
      let leido : obtener_datos_de_memoria e s' (s'.config.tam_pagina * x + off) n pid
          ≡ some datos =
        ap (λ t. obtener_datos_de_memoria e s' (t * x + off) n pid)
          (ap (λ t. t.config.tam_pagina) w.resto)
        ∙ ap (λ a. obtener_datos_de_memoria e s' (a + off) n pid) (mul_comm tam x)
        ∙ ap (λ m. obtener_datos_de_memoria e s' (x * tam + off) m pid) (sym largo)
        ∙ w.leidos in
      (
        s',
        ap (λ a. agregar_datos_a_memoria e s datos (a + off) pid) (mul_comm tam x) ∙ escrito,
        rw (leido, ejecutar_mov_in)
            (ap (λ d. some (record reg { dato = d })) (valor_de_bytes-bytes n reg.dato r.dato)),
      )
