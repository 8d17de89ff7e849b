-- ===== src/Memoria/Datos/Aislamiento.antt =====
-- Writes and copies within a process, and that they reach no other process.
use tp_sisop_1c.Prelude.{
  zero, suc, refl, [], false, some, ◌%◌, ◌*◌, ◌+◌, ◌/◌, ◌<◌, ◌∙◌, ◌∷◌, ◌≡◌, ◌≢◌, ◌≤◌, ℕ, List, All,
  get_elem?, length, Option, get_elem?-lt, subst, ◌==◌, ◌⊎◌, arith, sym, ap,
}
use native.Mathlib.Nat.{div-lt_iff_lt-mul, mod-lt}
use tp_sisop_1c.Prelude.Int.{pos}
use tp_sisop_1c.Memoria.{Entorno, Memoria}
use tp_sisop_1c.Memoria.Paginacion.Marcos.{Ajeno, Disjuntos-symm}
use tp_sisop_1c.Memoria.Paginacion.Valido.{IsValid}
use tp_sisop_1c.Memoria.Datos.{
  obtener_datos_contiguos_de_memoria as rango, escribir, agregar_datos_a_memoria, con_memoria,
  obtener_marco_de_direccion, obtener_datos_de_memoria, copy_string,
}
use tp_sisop_1c.Memoria.Datos.Rango.{byte_logico, div_pagina, rango-datos, get_or-some}
use tp_sisop_1c.Memoria.Datos.Lectura.{obtener_pagina_de_marco_lem, obtener_datos_de_memoria_lem}
use tp_sisop_1c.Memoria.Datos.Escritura.{escribir_alineado}

All-get_elem? {κ} :
    (P : ℕ → Type κ) (xs : List ℕ) (i x : ℕ) → All P xs → get_elem? xs i ≡ some x → P x
All-get_elem? P [] i x h e = cc
All-get_elem? P (y ∷ xs) zero x h e = subst P (ground arith) h.0
All-get_elem? P (y ∷ xs) (suc i) x h e = All-get_elem? P xs i x h.1 e

module _ (e : Entorno) (s : Memoria e) (pid k off x : ℕ) (xs datos : List ℕ) where
  open e use {paginas}
  open paginas use {get}

  -- What a write leaves of the state.
  pub record Escritura (s' : Memoria e) : Type 0 where
    pub leidos :
        obtener_datos_de_memoria e s' (x * s.config.tam_pagina + off) (length datos) pid
        ≡ some datos
    pub propios :
        (a : ℕ)
        → a < length xs * s.config.tam_pagina
        → (a < k * s.config.tam_pagina + off) ⊎ (k * s.config.tam_pagina + off + length datos ≤ a)
        → byte_logico s'.memoria s.config.tam_pagina xs a
          ≡ byte_logico s.memoria s.config.tam_pagina xs a
    pub otros :
        (q : ℕ) (ys : List ℕ)
        → pid ≢ q
        → get s.tabla_de_paginas q ≡ some ys
        → (a : ℕ) → a < length ys * s.config.tam_pagina
        → byte_logico s'.memoria s.config.tam_pagina ys a
          ≡ byte_logico s.memoria s.config.tam_pagina ys a
    pub resto : s' ≡ record s { memoria = s'.memoria }

  agregar_datos_llega :
      IsValid e s
      → off < s.config.tam_pagina
      → get s.tabla_de_paginas pid ≡ some xs
      → get_elem? xs k ≡ some x
      → agregar_datos_a_memoria e s datos (x * s.config.tam_pagina + off) pid
        ≡ con_memoria e s (
            escribir s.config.tam_pagina xs
              (length datos)
              s.memoria
              (pos k)
              (x * s.config.tam_pagina + off)
              datos)
  unfolding agregar_datos_a_memoria obtener_marco_de_direccion
  agregar_datos_llega v h hp hx =
      let tam = s.config.tam_pagina in
      let distinto : (tam == 0) ≡ false = ground arith in
      rw (distinto, hp, div_pagina x tam off h, agregar_datos_a_memoria)
        (rw (obtener_pagina_de_marco_lem xs k x (v.marcos.distintos pid xs hp) hx))

  con_memoria-some :
      (r : Option (ℕ → ℕ)) (m : ℕ → ℕ)
      → r ≡ some m
      → con_memoria e s r ≡ some (record s { memoria = m })
  unfolding con_memoria
  con_memoria-some r m h = rw h

  -- A byte of another process lies in a frame that this one has not.
  otros_lem :
      (m' : ℕ → ℕ) (q a : ℕ) (ys : List ℕ)
      → IsValid e s
      → 0 < s.config.tam_pagina
      → get s.tabla_de_paginas pid ≡ some xs
      → pid ≢ q
      → get s.tabla_de_paginas q ≡ some ys
      → a < length ys * s.config.tam_pagina
      → ((b : ℕ) → Ajeno (b / s.config.tam_pagina) xs → m' b ≡ s.memoria b)
      → byte_logico m' s.config.tam_pagina ys a ≡ byte_logico s.memoria s.config.tam_pagina ys a
  otros_lem m' q a ys v h hp ne hq ha same =
      let tam = s.config.tam_pagina in
      let (z, hz) = get_elem?-lt ys (a / tam) ((div-lt_iff_lt-mul h).1 ha) in
      let fuera =
        All-get_elem? (λ w. Ajeno w xs) ys (a / tam) z
          (Disjuntos-symm xs ys (v.marcos.disjuntos pid q xs ys ne hp hq)) hz in
      rw (get_or-some ys (a / tam) z hz) (
        same (z * tam + a % tam)
          (subst (λ w. Ajeno w xs) (sym (div_pagina z tam (a % tam) (mod-lt a h))) fuera))

  -- Writing bytes at the process's own addresses, from the start of a page or within one page,
  -- never faults: reading them back gives them, and the process's other bytes, those of every
  -- other process and the rest of the state stay.
  pub agregar_datos_a_memoria-Escritura :
      IsValid e s
      → off < s.config.tam_pagina
      → get s.tabla_de_paginas pid ≡ some xs
      → get_elem? xs k ≡ some x
      → k * s.config.tam_pagina + off + length datos ≤ length xs * s.config.tam_pagina
      → (off ≡ 0) ⊎ (off + length datos ≤ s.config.tam_pagina)
      → (s' : Memoria e) × (agregar_datos_a_memoria e s datos (x * s.config.tam_pagina + off) pid
          ≡ some s')
        × Escritura s'
  agregar_datos_a_memoria-Escritura v h hp hx fits c =
      let tam = s.config.tam_pagina in
      let (m', run, w) =
        escribir_alineado tam xs (length datos) k off x s.memoria datos h (omega arith)
          (v.marcos.distintos pid xs hp) hx fits c in
      let s' : Memoria e = record s { memoria = m' } in
      (
        s',
        agregar_datos_llega v h hp hx ∙ con_memoria-some _ m' run,
        record {
          leidos =
              obtener_datos_de_memoria_lem e s' pid k off (length datos) x xs
                (record { marcos = v.marcos; capacidad = v.capacidad }) h hp hx fits c
              ∙ ap some (rango-datos datos _ _ w.dentro);
          propios = w.propios;
          otros = λ q ys ne hq a ha. otros_lem m' q a ys v (omega arith) hp ne hq ha w.ajenos;
          resto = refl;
        },
      )

length-rango : (n : ℕ) (f : ℕ → ℕ) (a : ℕ) → length (rango f a n) ≡ n
unfolding rango
length-rango zero f a = refl
length-rango (suc n) f a = ap suc (length-rango n f (a + 1))

copy_string-some :
    (e : Entorno) (s : Memoria e) (di si n pid : ℕ) (texto : List ℕ)
    → obtener_datos_de_memoria e s si n pid ≡ some texto
    → copy_string e s di si n pid ≡ agregar_datos_a_memoria e s texto di pid
unfolding copy_string
copy_string-some e s di si n pid texto h = rw (h, copy_string)

-- Copying between two ranges of a process, each from the start of a page or within one page, never
-- faults, puts the bytes of the source at the destination and changes no other byte of this or
-- another process.
pub copy_string-Escritura :
    (e : Entorno) (s : Memoria e) (pid k off x j off' y n : ℕ) (xs : List ℕ)
    → IsValid e s
    → off < s.config.tam_pagina
    → off' < s.config.tam_pagina
    → e.paginas.get s.tabla_de_paginas pid ≡ some xs
    → get_elem? xs k ≡ some x
    → get_elem? xs j ≡ some y
    → k * s.config.tam_pagina + off + n ≤ length xs * s.config.tam_pagina
    → j * s.config.tam_pagina + off' + n ≤ length xs * s.config.tam_pagina
    → (off ≡ 0) ⊎ (off + n ≤ s.config.tam_pagina)
    → (off' ≡ 0) ⊎ (off' + n ≤ s.config.tam_pagina)
    → (s' : Memoria e) × (copy_string e s
          (y * s.config.tam_pagina + off')
          (x * s.config.tam_pagina + off)
          n
          pid
        ≡ some s')
      × Escritura e s pid j off' y xs
          (rango (byte_logico s.memoria s.config.tam_pagina xs) (k * s.config.tam_pagina + off) n)
          s'
copy_string-Escritura e s pid k off x j off' y n xs v h h' hp hx hy fits fits' c c' =
    let tam = s.config.tam_pagina in
    let texto = rango (byte_logico s.memoria tam xs) (k * tam + off) n in
    let len : length texto ≡ n = length-rango n _ _ in
    let (s', run, w) =
      agregar_datos_a_memoria-Escritura e s pid j off' y xs texto v h' hp hy (rw len fits')
        (rw len c') in
    (
      s',
      copy_string-some e s _ _ n pid texto
            (obtener_datos_de_memoria_lem e s pid k off n x xs v h hp hx fits c)
          ∙ run,
      w,
    )
