-- ===== src/Memoria/Datos/Lectura.antt =====
-- What `obtener_datos_de_memoria` reads.
use tp_sisop_1c.Prelude.{
  zero, suc, refl, [], some, ◌*◌, ◌++◌, ◌+◌, ◌-◌, ◌<◌, ◌∙◌, ◌∷◌, ◌≡◌, ◌≢◌, ◌≤◌, List, ℕ, get_elem?,
  arith, ap, length, inl, inr, sym, ◌⊎◌, dec_lt, get_elem?-lt, ◌%◌, false, ◌==◌,
}
use mathlib.Core.List.{append-nil}
use mathlib.Core.Path.{ap₂}
use native.Mathlib.Nat.{add_assoc}
use tp_sisop_1c.Prelude.Int.{ℤ, pos, ◌+ℤ◌}
use tp_sisop_1c.Memoria.Datos.{
  obtener_datos_contiguos_de_memoria as rango, buscar_pagina, obtener_pagina_de_marco, list_get,
  tamanio_a_copiar, pagina_siguiente, direccion_siguiente, leer,
}
use tp_sisop_1c.Memoria.{Entorno, Memoria}
use tp_sisop_1c.Memoria.Paginacion.Valido.{IsValid}
use tp_sisop_1c.Memoria.Datos.{obtener_datos_de_memoria, obtener_marco_de_direccion}
use tp_sisop_1c.Memoria.Datos.Rango.{
  div_pagina, get_elem?-rango, byte_logico, byte_pagina, pagina_lt, mod_pagina, rango-congr,
  rango-append,
}
use tp_sisop_1c.Memoria.Paginacion.Marcos.{Distintos, Ajeno}

pub Ajeno-ne : (xs : List ℕ) (m k x : ℕ) → Ajeno m xs → get_elem? xs k ≡ some x → x ≢ m
Ajeno-ne [] m k x a h = cc
Ajeno-ne (y ∷ xs) m zero x a h = λ e. a.0 (ground arith)
Ajeno-ne (y ∷ xs) m (suc k) x a h = Ajeno-ne xs m k x a.1 h

buscar_pagina_lem :
    (xs : List ℕ) (k x i : ℕ)
    → Distintos xs
    → get_elem? xs k ≡ some x
    → buscar_pagina xs x i ≡ pos (i + k)
unfolding buscar_pagina
buscar_pagina_lem [] k x i d h = cc
buscar_pagina_lem (y ∷ xs) zero x i d h = ground arith
buscar_pagina_lem (y ∷ xs) (suc k) x i d h =
    ground (arith, Ajeno-ne xs y k x d.0 h, buscar_pagina_lem xs k x (i + 1) d.1 h)

-- With no frame twice in the list, the page of a frame is the one that lies in it.
pub obtener_pagina_de_marco_lem :
    (xs : List ℕ) (k x : ℕ)
    → Distintos xs
    → get_elem? xs k ≡ some x
    → obtener_pagina_de_marco xs x ≡ pos k
unfolding obtener_pagina_de_marco
obtener_pagina_de_marco_lem xs k x d h = buscar_pagina_lem xs k x 0 d h ∙ ap pos (omega arith)

pub tamanio_a_copiar_max : (tam r : ℕ) → tam < r → tamanio_a_copiar tam r ≡ tam
unfolding tamanio_a_copiar
tamanio_a_copiar_max tam r h = ground arith

pub tamanio_a_copiar_fin : (tam r : ℕ) → r ≤ tam → tamanio_a_copiar tam r ≡ r
unfolding tamanio_a_copiar
tamanio_a_copiar_fin tam r h = ground arith

pub pagina_siguiente_max : (tam r k : ℕ) → tam < r → pagina_siguiente tam r (pos k) ≡ pos (k + 1)
unfolding pagina_siguiente ◌+ℤ◌
pagina_siguiente_max tam r k h = ground arith

pub pagina_siguiente_fin : (tam r k : ℕ) → r ≤ tam → pagina_siguiente tam r (pos k) ≡ pos k
unfolding pagina_siguiente
pagina_siguiente_fin tam r k h = ground arith

module _ (tam : ℕ) (xs : List ℕ) (m : ℕ → ℕ) where
  leer_ronda :
      (fuel : ℕ) (pagina : ℤ) (dir r x : ℕ) (resto : List ℕ)
      → list_get xs (pagina_siguiente tam (suc r) pagina) ≡ some x
      → leer tam xs fuel m
          (pagina_siguiente tam (suc r) pagina)
          (direccion_siguiente tam dir x)
          (suc r - tamanio_a_copiar tam (suc r))
        ≡ some resto
      → leer tam xs (suc fuel) m pagina dir (suc r)
        ≡ some (rango m dir (tamanio_a_copiar tam (suc r)) ++ resto)
  unfolding leer
  leer_ronda fuel pagina dir r x resto hx h = rw (hx, h, leer)

  leer-some :
      (fuel : ℕ) (pagina pagina' : ℤ) (dir r n x : ℕ) (resto : List ℕ)
      → tamanio_a_copiar tam (suc r) ≡ n
      → pagina_siguiente tam (suc r) pagina ≡ pagina'
      → list_get xs pagina' ≡ some x
      → leer tam xs fuel m pagina' (direccion_siguiente tam dir x) (suc r - n) ≡ some resto
      → leer tam xs (suc fuel) m pagina dir (suc r) ≡ some (rango m dir n ++ resto)
  leer-some fuel pagina pagina' dir r n x resto hn hp hx h =
      leer_ronda fuel pagina dir r x resto (rw hp hx) (rw (hn, hp) h)
      ∙ ap (λ (k : ℕ). some (rango m dir k ++ resto)) hn

  leer_resta :
      (fuel : ℕ) (pagina : ℤ) (dir r : ℕ) → leer tam xs fuel m pagina dir (suc r - suc r) ≡ some []
  unfolding leer
  leer_resta fuel pagina dir r = let nada : suc r - suc r ≡ 0 = omega arith in rw nada

  -- The last chunk.
  pub leer_fin :
      (fuel k dir n x : ℕ)
      → n ≤ tam
      → n ≤ fuel
      → get_elem? xs k ≡ some x
      → leer tam xs fuel m (pos k) dir n ≡ some (rango m dir n)
  unfolding list_get
  leer_fin fuel k dir zero x h f hx = unfold leer rango in refl
  leer_fin zero k dir (suc r) x h f hx = absurd (omega arith)
  leer_fin (suc fuel) k dir (suc r) x h f hx =
      leer-some fuel (pos k) (pos k) dir r (suc r) x [] (tamanio_a_copiar_fin tam (suc r) h)
        (pagina_siguiente_fin tam (suc r) k h) hx
        (leer_resta fuel (pos k) (direccion_siguiente tam dir x) r)
      ∙ ap some (append-nil _)

  -- The bytes of a part of page `k`, in the order of the process's addresses.
  rango_pagina :
      (k off n x : ℕ)
      → off + n ≤ tam
      → get_elem? xs k ≡ some x
      → rango m (x * tam + off) n ≡ rango (byte_logico m tam xs) (k * tam + off) n
  rango_pagina k off n x fits hx =
      rango-congr n m (byte_logico m tam xs) (x * tam + off) (k * tam + off) λ i hi.
        ap m (add_assoc (x * tam) off i)
        ∙ sym (byte_pagina m tam k (off + i) x xs (omega arith) hx)
        ∙ ap (byte_logico m tam xs) (sym (add_assoc (k * tam) off i))

  -- One chunk that is not the last, from the start of page `k` on.
  leer_pagina :
      (fuel k r x y : ℕ)
      → tam < suc r
      → 0 < tam
      → get_elem? xs k ≡ some x
      → get_elem? xs (k + 1) ≡ some y
      → leer tam xs fuel m (pos (k + 1)) (y * tam + 0) (suc r - tam)
        ≡ some (rango (byte_logico m tam xs) ((k + 1) * tam + 0) (suc r - tam))
      → leer tam xs (suc fuel) m (pos k) (x * tam + 0) (suc r)
        ≡ some (rango (byte_logico m tam xs) (k * tam + 0) (suc r))
  unfolding list_get direccion_siguiente
  leer_pagina fuel k r x y lt h hx hy rec =
      let dir : leer tam xs fuel m (pos (k + 1)) (y * tam + (x * tam + 0) % tam) (suc r - tam)
          ≡ some (rango (byte_logico m tam xs) ((k + 1) * tam + 0) (suc r - tam)) =
        rw (mod_pagina x tam 0 h) rec in
      leer-some fuel (pos k) (pos (k + 1)) (x * tam + 0) r tam y _
        (tamanio_a_copiar_max tam (suc r) lt) (pagina_siguiente_max tam (suc r) k lt) hy dir
      ∙ ap some (
          ap₂ ◌++◌ (rango_pagina k 0 tam x (omega arith) hx)
            (ap (λ (b : ℕ). rango (byte_logico m tam xs) b (suc r - tam)) (grind arith))
          ∙ rango-append tam (suc r - tam) (byte_logico m tam xs) (k * tam + 0)
          ∙ ap (rango (byte_logico m tam xs) (k * tam + 0)) (omega arith))

  -- Reading from offset `off` of page `k` on gives the bytes in the order of the process's
  -- addresses, if the offset is 0 or the bytes lie in that page.
  pub leer_alineado :
      (fuel k off n x : ℕ)
      → 0 < tam
      → n ≤ fuel
      → get_elem? xs k ≡ some x
      → k * tam + off + n ≤ length xs * tam
      → (off ≡ 0) ⊎ (off + n ≤ tam)
      → leer tam xs fuel m (pos k) (x * tam + off) n
        ≡ some (rango (byte_logico m tam xs) (k * tam + off) n)
  leer_alineado fuel k off n x h f hx fits (inr one) =
      leer_fin fuel k (x * tam + off) n x (omega arith) f hx
      ∙ ap some (rango_pagina k off n x one hx)
  leer_alineado fuel k off zero x h f hx fits (inl start) = unfold leer rango in refl
  leer_alineado zero k off (suc r) x h f hx fits (inl start) = absurd (omega arith)
  leer_alineado (suc fuel) k off (suc r) x h f hx fits (inl start) = elim (dec_lt tam (suc r)) [
    | yes lt ↦
        let (y, hy) =
          get_elem?-lt xs (k + 1) (pagina_lt k (suc r) (length xs) tam (omega arith) lt) in
        rw start (
          leer_pagina fuel k r x y lt h hx hy (
            leer_alineado fuel (k + 1) 0 (suc r - tam) y h (omega arith) hy (grind arith)
              (inl refl)))
    | no ge ↦
        leer_fin (suc fuel) k (x * tam + off) (suc r) x (omega arith) f hx
        ∙ ap some (rango_pagina k off (suc r) x (omega arith) hx)
  ]

module _ (e : Entorno) (s : Memoria e) (pid k off n x : ℕ) (xs : List ℕ) where
  open e use {paginas}
  open paginas use {get}

  -- The call on an address in page `k` of an existing process comes to its loop.
  obtener_datos_llega :
      IsValid e s
      → off < s.config.tam_pagina
      → get s.tabla_de_paginas pid ≡ some xs
      → get_elem? xs k ≡ some x
      → obtener_datos_de_memoria e s (x * s.config.tam_pagina + off) n pid
        ≡ leer s.config.tam_pagina xs n s.memoria (pos k) (x * s.config.tam_pagina + off) n
  unfolding obtener_datos_de_memoria obtener_marco_de_direccion
  obtener_datos_llega v h hp hx =
      let tam = s.config.tam_pagina in
      let distinto : (tam == 0) ≡ false = ground arith in
      rw (distinto, hp, div_pagina x tam off h, obtener_datos_de_memoria)
        (rw (obtener_pagina_de_marco_lem xs k x (v.marcos.distintos pid xs hp) hx))

  -- Reading a range of the process's own addresses, from the start of a page or within one page,
  -- never faults and gives the bytes the page table puts at those addresses.
  pub obtener_datos_de_memoria_lem :
      IsValid e s
      → off < s.config.tam_pagina
      → get s.tabla_de_paginas pid ≡ some xs
      → get_elem? xs k ≡ some x
      → k * s.config.tam_pagina + off + n ≤ length xs * s.config.tam_pagina
      → (off ≡ 0) ⊎ (off + n ≤ s.config.tam_pagina)
      → obtener_datos_de_memoria e s (x * s.config.tam_pagina + off) n pid
        ≡ some
            (rango (byte_logico s.memoria s.config.tam_pagina xs) (k * s.config.tam_pagina + off) n)
  obtener_datos_de_memoria_lem v h hp hx fits c =
      obtener_datos_llega v h hp hx
      ∙ leer_alineado s.config.tam_pagina xs s.memoria n k off n x (omega arith) (omega arith) hx
          fits c

  -- A read of at most a page that crosses the end of a page.
  rango_cruza :
      get_elem? xs k ≡ some x
      → s.config.tam_pagina < off + n
      → off < s.config.tam_pagina
      → rango s.memoria (x * s.config.tam_pagina + off) n
        ≡ rango
            (byte_logico s.memoria s.config.tam_pagina xs)
            (k * s.config.tam_pagina + off)
            (s.config.tam_pagina - off)
          ++ rango s.memoria ((x + 1) * s.config.tam_pagina) (n - (s.config.tam_pagina - off))
  rango_cruza hx lt h =
      let tam = s.config.tam_pagina in
      let i = tam - off in
      let izq : x * tam + off + i ≡ (x + 1) * tam = grind arith in
      let todo : i + (n - i) ≡ n = omega arith in
      ap (rango s.memoria (x * tam + off)) (sym todo)
      ∙ sym (rango-append i (n - i) s.memoria (x * tam + off))
      ∙ ap₂ ◌++◌ (rango_pagina tam xs s.memoria k off i x (omega arith) hx)
          (ap (λ (b : ℕ). rango s.memoria b (n - i)) izq)

  obtener_datos-equivoca :
      (y : ℕ)
      → IsValid e s
      → off < s.config.tam_pagina
      → get s.tabla_de_paginas pid ≡ some xs
      → get_elem? xs k ≡ some x
      → get_elem? xs (k + 1) ≡ some y
      → n ≤ s.config.tam_pagina
      → s.config.tam_pagina < off + n
      → s.memoria ((x + 1) * s.config.tam_pagina) ≢ s.memoria (y * s.config.tam_pagina)
      → ¬ (
          obtener_datos_de_memoria e s (x * s.config.tam_pagina + off) n pid
          ≡ some (
              rango
                (byte_logico s.memoria s.config.tam_pagina xs)
                (k * s.config.tam_pagina + off)
                n))
  obtener_datos-equivoca y v h hp hx hy le lt ne all =
      let tam = s.config.tam_pagina in
      let f = byte_logico s.memoria tam xs in
      let i = tam - off in
      let same : rango s.memoria (x * tam + off) n ≡ rango f (k * tam + off) n = cc (
        all,
        obtener_datos_llega v h hp hx,
        leer_fin tam xs s.memoria n k (x * tam + off) n x le (omega arith) hx,
      ) in
      let bytes : some (s.memoria (x * tam + off + i)) ≡ some (f (k * tam + off + i)) =
        sym (get_elem?-rango n s.memoria (x * tam + off) i (omega arith))
        ∙ ap (λ (w : List ℕ). get_elem? w i) same
        ∙ get_elem?-rango n f (k * tam + off) i (omega arith) in
      let next : f (k * tam + off + i) ≡ s.memoria (y * tam + 0) =
        ap f (grind arith) ∙ byte_pagina s.memoria tam (k + 1) 0 y xs (omega arith) hy in
      let izq : x * tam + off + i ≡ (x + 1) * tam = grind arith in
      let der : y * tam + 0 ≡ y * tam = omega arith in
      ne (cc (bytes, next, ap s.memoria izq, ap s.memoria der))

  -- On a well-formed state, a read of at most a page that crosses the end of a page and goes on in
  -- a page of the process, when the frame next in the memory begins with another byte than that
  -- page, gives the process's bytes up to the end and after it those of the frame next in the
  -- memory, which are not the process's bytes.
  pub obtener_datos-cruza :
      (y : ℕ)
      → IsValid e s
      → off < s.config.tam_pagina
      → get s.tabla_de_paginas pid ≡ some xs
      → get_elem? xs k ≡ some x
      → get_elem? xs (k + 1) ≡ some y
      → n ≤ s.config.tam_pagina
      → s.config.tam_pagina < off + n
      → s.memoria ((x + 1) * s.config.tam_pagina) ≢ s.memoria (y * s.config.tam_pagina)
      → (obtener_datos_de_memoria e s (x * s.config.tam_pagina + off) n pid
          ≡ some (
              rango
                (byte_logico s.memoria s.config.tam_pagina xs)
                (k * s.config.tam_pagina + off)
                (s.config.tam_pagina - off)
              ++ rango s.memoria ((x + 1) * s.config.tam_pagina) (n - (s.config.tam_pagina - off))))
        × ¬ (
            obtener_datos_de_memoria e s (x * s.config.tam_pagina + off) n pid
            ≡ some (
                rango
                  (byte_logico s.memoria s.config.tam_pagina xs)
                  (k * s.config.tam_pagina + off)
                  n))
  obtener_datos-cruza y v h hp hx hy le lt ne = (
    obtener_datos_llega v h hp hx
        ∙ leer_fin s.config.tam_pagina xs s.memoria n k (x * s.config.tam_pagina + off) n x le
            (omega arith) hx
        ∙ ap some (rango_cruza hx lt h),
    obtener_datos-equivoca y v h hp hx hy le lt ne,
  )
