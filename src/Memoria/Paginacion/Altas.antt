-- ===== src/Memoria/Paginacion/Altas.antt =====
-- Creating and ending a process (memoria/src/operaciones.c).
use mathlib.Core.Path.{refl}
use tp_sisop_1c.Prelude.{
  All, ◌<◌, ◌==◌, false, if◌then◌else◌, ℕ, ◌+◌, ◌≡◌, ◌≢◌, sym, ap, ◌∙◌, List, [], ◌∷◌, arith,
}
use tp_sisop_1c.Prelude.Int.{ℤ, ◌+ℤ◌, pos}
use tp_sisop_1c.Memoria.{Entorno, Memoria, Option}
use tp_sisop_1c.Memoria.Paginacion.{
  eliminar_proceso, liberar_marcos_de_proceso, liberar_todos, liberar_marco, Bool, length, none,
  some, crear_proceso, guardar_instrucciones, quitar_proceso,
}
use tp_sisop_1c.Memoria.Paginacion.Marcos.{Inv, Ajeno, All-map}
use tp_sisop_1c.Memoria.Paginacion.Invariante.{con, Inv-Entrada}
use tp_sisop_1c.Memoria.Paginacion.Bucles.{liberar_todos_lem}
use tp_sisop_1c.Memoria.Paginacion.Valido.{IsValid}

Inv-subtabla :
    (n : ℕ) (f : ℕ → Bool) (l : ℤ) (t t' : ℕ → Option (List ℕ))
    → ((q : ℕ) (ys : List ℕ) → t' q ≡ some ys → t q ≡ some ys)
    → Inv n f l t
    → Inv n f l t'
Inv-subtabla n f l t t' sub i = record {
  cuenta = i.cuenta;
  usados = λ p xs h. i.usados p xs (sub p xs h);
  distintos = λ p xs h. i.distintos p xs (sub p xs h);
  disjuntos = λ p q xs ys ne h k. i.disjuntos p q xs ys ne (sub p xs h) (sub q ys k);
}

sumar_uno : (l : ℤ) (c n : ℕ) → l ≡ pos c → l +ℤ pos 1 ≡ pos (c + 1)
unfolding ◌+ℤ◌
sumar_uno l c n h = rw h (ground arith)

module _ (e : Entorno) where
  open e use {
    bits.{Bits, size, test_bit, size-clean_bit, test_bit-clean_bit},
    paginas,
    instrucciones,
    leer_archivo,
  }
  open paginas use {get, put, remove, get-put, get-remove}
  open instrucciones use {
    get as get_instrucciones, remove as remove_instrucciones, get-put as get-put_instrucciones,
    get-remove as get-remove_instrucciones,
  }

  liberar_todos_cuenta :
      (xs : List ℕ) (s : Memoria e) (c : ℕ)
      → s.cantidad_marcos_libres ≡ pos c
      → (liberar_todos e s xs).cantidad_marcos_libres ≡ pos (c + length xs)
  unfolding liberar_todos liberar_marco
  liberar_todos_cuenta [] s c h = h ∙ ap pos (omega arith)
  liberar_todos_cuenta (x ∷ xs) s c h =
      liberar_todos_cuenta xs (liberar_marco e s x) (c + 1) (sumar_uno _ c 0 h)
      ∙ ap pos (omega arith)

  liberar_marco-size : (s : Memoria e) (x : ℕ) → size (liberar_marco e s x).marcos ≡ size s.marcos
  unfolding liberar_marco
  liberar_marco-size s x = size-clean_bit s.marcos x

  -- The frames given back are clean, and every other one of the memory is as it was.
  pub record Liberados (xs : List ℕ) (b b' : Bits) : Type 0 where
    pub tamanio : size b' ≡ size b
    pub limpios : All (λ x. test_bit b' x ≡ false) xs
    pub otros : (j : ℕ) → j < size b → Ajeno j xs → test_bit b' j ≡ test_bit b j

  liberar_uno :
      (s : Memoria e) (x j : ℕ)
      → x < size s.marcos
      → j < size s.marcos
      → test_bit (liberar_marco e s x).marcos j ≡ (if x == j then false else test_bit s.marcos j)
  unfolding liberar_marco
  liberar_uno s x j h k = test_bit-clean_bit s.marcos x j (omega arith) (omega arith)

  -- A clean frame stays clean.
  liberar_todos-limpio :
      (xs : List ℕ) (s : Memoria e) (j : ℕ)
      → All (λ x. x < size s.marcos) xs
      → j < size s.marcos
      → test_bit s.marcos j ≡ false
      → test_bit (liberar_todos e s xs).marcos j ≡ false
  unfolding liberar_todos
  liberar_todos-limpio [] s j h k l = l
  liberar_todos-limpio (x ∷ xs) s j h k l =
      let t = liberar_marco-size s x in
      liberar_todos-limpio xs (liberar_marco e s x) j (rw t h.1) (rw t k)
        (ground (arith, liberar_uno s x j (h.0) k))

  liberar_todos-Liberados :
      (xs : List ℕ) (s : Memoria e)
      → All (λ x. x < size s.marcos) xs
      → Liberados xs s.marcos (liberar_todos e s xs).marcos
  unfolding liberar_todos
  liberar_todos-Liberados [] s h = record { tamanio = refl; limpios = tt; otros = λ j k a. refl }
  liberar_todos-Liberados (x ∷ xs) s h =
      let t = liberar_marco-size s x in
      let r = liberar_todos-Liberados xs (liberar_marco e s x) (rw t h.1) in
      record {
        tamanio = r.tamanio ∙ t;
        limpios = (
          liberar_todos-limpio xs (liberar_marco e s x) x (rw t h.1) (rw t (h.0))
              (ground (arith, liberar_uno s x x (h.0) (h.0))),
          r.limpios,
        );
        otros = λ j k a. r.otros j (rw t k) (a.1) ∙ ground (arith, liberar_uno s x j (h.0) k, a.0);
      }

  -- What `eliminar_proceso` leaves of a process with the frames `xs`.
  pub record Baja (s : Memoria e) (pid : ℕ) (xs : List ℕ) (s' : Memoria e) : Type 0 where
    pub sin_paginas : get s'.tabla_de_paginas pid ≡ none
    pub sin_instrucciones : get_instrucciones s'.dict_instrucciones pid ≡ none
    pub libres :
        (c : ℕ) → s.cantidad_marcos_libres ≡ pos c → s'.cantidad_marcos_libres ≡ pos (c + length xs)
    pub marcos : Liberados xs s.marcos s'.marcos
    pub others : (q : ℕ) → pid ≢ q → get s'.tabla_de_paginas q ≡ get s.tabla_de_paginas q
    pub otras_instrucciones :
        (q : ℕ)
        → pid ≢ q
        → get_instrucciones s'.dict_instrucciones q ≡ get_instrucciones s.dict_instrucciones q
    pub memoria : s'.memoria ≡ s.memoria
    pub config : s'.config ≡ s.config
    pub cantidad : s'.cantidad_de_paginas ≡ s.cantidad_de_paginas
    pub valid : IsValid e s'

  -- Ending an existing process of a well-formed state never faults: its pages and its instructions
  -- are gone, its frames and only these become clean bits and count as free again, nothing else
  -- changes, and the state stays well formed.
  pub eliminar_proceso-Baja :
      (s : Memoria e) (pid : ℕ) (xs : List ℕ)
      → IsValid e s
      → get s.tabla_de_paginas pid ≡ some xs
      → (s' : Memoria e) × (eliminar_proceso e s pid ≡ some s') × Baja s pid xs s'
  unfolding eliminar_proceso liberar_marcos_de_proceso
  eliminar_proceso-Baja s pid xs v h =
      let s1 = liberar_todos e s xs in
      let a = liberar_todos_lem e xs s (get s.tabla_de_paginas) pid v.marcos h in
      let tabla : s1.tabla_de_paginas ≡ s.tabla_de_paginas =
        ap (λ (w : Memoria e). w.tabla_de_paginas) a.resto in
      let instr : s1.dict_instrucciones ≡ s.dict_instrucciones =
        ap (λ (w : Memoria e). w.dict_instrucciones) a.resto in
      (
        record s1 {
          tabla_de_paginas = remove s1.tabla_de_paginas pid;
          dict_instrucciones = remove_instrucciones s1.dict_instrucciones pid;
        },
        rw (h, quitar_proceso),
        record {
          sin_paginas = ground (arith, get-remove s1.tabla_de_paginas pid pid);
          sin_instrucciones =
              ground (arith, get-remove_instrucciones s1.dict_instrucciones pid pid);
          libres = λ c hc. liberar_todos_cuenta xs s c hc;
          others = λ q ne. ground (
            arith,
            get-remove s1.tabla_de_paginas pid q,
            ap (λ (w : paginas.Dict). get w q) tabla,
          );
          otras_instrucciones = λ q ne. ground (
            arith,
            get-remove_instrucciones s1.dict_instrucciones pid q,
            ap (λ (w : instrucciones.Dict). get_instrucciones w q) instr,
          );
          marcos =
              liberar_todos-Liberados xs s (All-map _ _ xs (λ x u. u.0) (v.marcos.usados pid xs h));
          memoria = ap (λ (w : Memoria e). w.memoria) a.resto;
          config = ap (λ (w : Memoria e). w.config) a.resto;
          cantidad = ap (λ (w : Memoria e). w.cantidad_de_paginas) a.resto;
          valid = record {
            marcos =
                Inv-subtabla _ _ _ (con (get s.tabla_de_paginas) pid [])
                  (get (remove s1.tabla_de_paginas pid))
                  (λ q ys k. ground (
                    arith,
                    get-remove s1.tabla_de_paginas pid q,
                    ap (λ (w : paginas.Dict). get w q) tabla,
                  ))
                  (a.marcos _ (λ q. refl));
            capacidad =
                a.capacidad
                ∙ v.capacidad
                ∙ sym (ap (λ (w : Memoria e). w.cantidad_de_paginas) a.resto);
          };
        },
      )

  -- What `crear_proceso` leaves of a state.
  pub record Alta (s : Memoria e) (nombre : List ℕ) (pid : ℕ) (s' : Memoria e) : Type 0 where
    pub sin_paginas : get s'.tabla_de_paginas pid ≡ some []
    pub instrucciones :
        get_instrucciones s'.dict_instrucciones pid
        ≡ leer_archivo s.config.path_instrucciones nombre
    pub others : (q : ℕ) → pid ≢ q → get s'.tabla_de_paginas q ≡ get s.tabla_de_paginas q
    pub otras_instrucciones :
        (q : ℕ)
        → pid ≢ q
        → get_instrucciones s'.dict_instrucciones q ≡ get_instrucciones s.dict_instrucciones q
    pub libres : s'.cantidad_marcos_libres ≡ s.cantidad_marcos_libres
    pub valid : IsValid e s'

  Alta-Inv :
      (s : Memoria e) (pid : ℕ)
      → IsValid e s
      → Inv
          (size s.marcos)
          (test_bit s.marcos)
          s.cantidad_marcos_libres
          (get (put s.tabla_de_paginas pid []))
  Alta-Inv s pid v =
      Inv-Entrada _ _ _ _ _ (get s.tabla_de_paginas) (get (put s.tabla_de_paginas pid [])) pid []
        v.marcos (λ q. get-put s.tabla_de_paginas pid q []) v.marcos.cuenta tt tt
        (λ q zs ne h. (v.marcos.usados q zs h, tt))

  guardado-Alta :
      (s : Memoria e) (nombre : List ℕ) (pid : ℕ) (r : Option (List (List ℕ)))
      → r ≡ leer_archivo s.config.path_instrucciones nombre
      → IsValid e s
      → Alta s nombre pid (
          let s' = guardar_instrucciones e s pid r in
          record s' { tabla_de_paginas = put s'.tabla_de_paginas pid [] })
  unfolding guardar_instrucciones
  guardado-Alta s nombre pid none h v = record {
    sin_paginas = ground (arith, get-put s.tabla_de_paginas pid pid []);
    instrucciones = ground (arith, get-remove_instrucciones s.dict_instrucciones pid pid);
    others = λ q ne. ground (arith, get-put s.tabla_de_paginas pid q []);
    otras_instrucciones =
        λ q ne. ground (arith, get-remove_instrucciones s.dict_instrucciones pid q);
    libres = refl;
    valid = record { marcos = Alta-Inv s pid v; capacidad = v.capacidad };
  }
  guardado-Alta s nombre pid (some lineas) h v = record {
    sin_paginas = ground (arith, get-put s.tabla_de_paginas pid pid []);
    instrucciones = ground (arith, get-put_instrucciones s.dict_instrucciones pid pid lineas);
    others = λ q ne. ground (arith, get-put s.tabla_de_paginas pid q []);
    otras_instrucciones =
        λ q ne. ground (arith, get-put_instrucciones s.dict_instrucciones pid q lineas);
    libres = refl;
    valid = record { marcos = Alta-Inv s pid v; capacidad = v.capacidad };
  }

  -- A process created in a well-formed state has no pages and the instructions of its file, if
  -- that can be opened; other processes and the count of free frames stay, and the state stays
  -- well formed.
  pub crear_proceso-Alta :
      (s : Memoria e) (nombre : List ℕ) (pid : ℕ)
      → IsValid e s
      → Alta s nombre pid (crear_proceso e s nombre pid)
  unfolding crear_proceso
  crear_proceso-Alta s nombre pid v =
      guardado-Alta s nombre pid (leer_archivo s.config.path_instrucciones nombre) refl v
