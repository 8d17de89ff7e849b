-- ===== src/Memoria/Paginacion/Redimension.antt =====
-- `resize_proceso` of memoria/src/operaciones.c on every branch.
use mathlib.Core.Path.{refl}
use tp_sisop_1c.Prelude.{
  ℕ, ◌+◌, ◌-◌, ◌≤◌, ◌<◌, ◌≡◌, sym, ap, ◌∙◌, ◌==◌, arith, false, dec_lt, if◌then◌else◌,
  length-append, lt→ltb, ◌++◌, ◌⊎◌, get_elem?-append_left, inl, ◌≢◌, inr,
}
use tp_sisop_1c.Prelude.Int.{ℤ, ◌-ℤ◌, ltb_ℤ, pos}
use tp_sisop_1c.Memoria.{Entorno, Memoria, List, Option}
use tp_sisop_1c.Memoria.Paginacion.{
  cantidad_paginas, con_paginas, ajustar, resize_proceso, ampliar, reducir, ltb, length, some,
  get_elem?,
}
use tp_sisop_1c.Memoria.Paginacion.Marcos.{Entrada, contar_libres}
use tp_sisop_1c.Memoria.Paginacion.Bucles.{Ajuste, ampliar_lem, reducir_lem}
use tp_sisop_1c.Memoria.Paginacion.Valido.{IsValid}

le→ltb : (a b : ℕ) → b ≤ a → ltb a b ≡ false
le→ltb a b h = ground arith

pos-ne_zero : (n : ℕ) → 0 < n → (n == 0) ≡ false
pos-ne_zero n h = ground arith

module _ (e : Entorno) where
  open e use {bits.{size, test_bit}, paginas}
  open paginas use {get, put, get-put}

  -- What a successful `resize_proceso` to `n` pages leaves of a process with the frames `xs`.
  pub record Redimension (s : Memoria e) (pid n : ℕ) (xs : List ℕ) (s' : Memoria e) : Type 0 where
    pub frames : List ℕ
    pub entry : get s'.tabla_de_paginas pid ≡ some frames
    pub cantidad : length frames ≡ n
    pub kept : (k : ℕ) → k < n → k < length xs → get_elem? frames k ≡ get_elem? xs k
    pub others : (q : ℕ) → pid ≢ q → get s'.tabla_de_paginas q ≡ get s.tabla_de_paginas q
    pub memoria : s'.memoria ≡ s.memoria
    pub valid : IsValid e s'

  module _ (s s' : Memoria e) (pid : ℕ) (ys : List ℕ) (v : IsValid e s) where
    abbrev guardado : Memoria e
    guardado = record s' { tabla_de_paginas = put s'.tabla_de_paginas pid ys }

    guardado-Entrada :
        Ajuste e (get s.tabla_de_paginas) pid s s' ys
        → Entrada pid (some ys) (get s.tabla_de_paginas) (get guardado.tabla_de_paginas)
    guardado-Entrada a q =
        get-put s'.tabla_de_paginas pid q ys
        ∙ ap (λ (w : Memoria e). if pid == q then some ys else get w.tabla_de_paginas q) a.resto

    guardado-Redimension :
        (n : ℕ) (xs : List ℕ)
        → Ajuste e (get s.tabla_de_paginas) pid s s' ys
        → length ys ≡ n
        → ((k : ℕ) → k < n → k < length xs → get_elem? ys k ≡ get_elem? xs k)
        → Redimension s pid n xs guardado
    guardado-Redimension n xs a len kept = record {
      frames = ys;
      entry = ground (arith, guardado-Entrada a pid);
      cantidad = len;
      kept = kept;
      others = λ q ne. ground (arith, guardado-Entrada a q);
      memoria = ap (λ (w : Memoria e). w.memoria) a.resto;
      valid = record {
        marcos = a.marcos _ (guardado-Entrada a);
        capacidad =
            a.capacidad ∙ v.capacidad ∙ sym (ap (λ (w : Memoria e). w.cantidad_de_paginas) a.resto);
      };
    }

  -- The answer of `resize_proceso` in both cases.
  abbrev pub Respuesta : Memoria e → ℕ → ℕ → List ℕ → Option (ℕ × Memoria e) → Type 0
  Respuesta s pid n xs r =
      ((contar_libres (test_bit s.marcos) (size s.marcos) + length xs < n) × (r ≡ some (1, s)))
      ⊎ ((n ≤ contar_libres (test_bit s.marcos) (size s.marcos) + length xs)
          × ((s' : Memoria e) × (r ≡ some (0, s')) × Redimension s pid n xs s'))

  falta : (l : ℤ) (c n a : ℕ) → l ≡ pos c → ltb_ℤ l (pos n -ℤ pos a) ≡ ltb (c + a) n
  unfolding ◌-ℤ◌
  falta l c n a h = rw h (ground arith)

  con_paginas-some :
      (pid : ℕ) (r : Option (List ℕ × Memoria e)) (ys : List ℕ) (s' : Memoria e)
      → r ≡ some (ys, s')
      → con_paginas e pid r
        ≡ some (0, record s' { tabla_de_paginas = put s'.tabla_de_paginas pid ys })
  unfolding con_paginas
  con_paginas-some pid r ys s' h = rw h

  ajustar_falta :
      (s : Memoria e) (pid n c : ℕ) (xs : List ℕ)
      → s.cantidad_marcos_libres ≡ pos c
      → c + length xs < n
      → ajustar e s pid n xs ≡ some (1, s)
  unfolding ajustar
  ajustar_falta s pid n c xs hc h = rw (falta _ c n (length xs) hc, lt→ltb _ _ h)

  ajustar_crece :
      (s : Memoria e) (pid n c : ℕ) (xs : List ℕ)
      → s.cantidad_marcos_libres ≡ pos c
      → n ≤ c + length xs
      → length xs < n
      → ajustar e s pid n xs ≡ con_paginas e pid (ampliar e (n - length xs) xs s)
  unfolding ajustar
  ajustar_crece s pid n c xs hc h k = rw (falta _ c n (length xs) hc, le→ltb _ _ h, lt→ltb _ _ k)

  ajustar_achica :
      (s : Memoria e) (pid n c : ℕ) (xs : List ℕ)
      → s.cantidad_marcos_libres ≡ pos c
      → n < length xs
      → ajustar e s pid n xs ≡ con_paginas e pid (reducir e (length xs - n) (length xs) xs s)
  unfolding ajustar
  ajustar_achica s pid n c xs hc k = rw (
    falta _ c n (length xs) hc,
    le→ltb (c + length xs) n (omega arith),
    le→ltb (length xs) n (omega arith),
    lt→ltb _ _ k,
  )

  ajustar_igual :
      (s : Memoria e) (pid n c : ℕ) (xs : List ℕ)
      → s.cantidad_marcos_libres ≡ pos c
      → length xs ≡ n
      → ajustar e s pid n xs ≡ some (0, s)
  unfolding ajustar
  ajustar_igual s pid n c xs hc k = rw (
    falta _ c n (length xs) hc,
    le→ltb (c + length xs) n (omega arith),
    le→ltb (length xs) n (omega arith),
    le→ltb n (length xs) (omega arith),
  )

  module _ (s : Memoria e) (pid n : ℕ) (xs : List ℕ) (v : IsValid e s)
      (h : get s.tabla_de_paginas pid ≡ some xs) where
    Respuesta_crece :
        n ≤ contar_libres (test_bit s.marcos) (size s.marcos) + length xs
        → length xs < n
        → (s' : Memoria e) × (ajustar e s pid n xs ≡ some (0, s')) × Redimension s pid n xs s'
    Respuesta_crece le lt =
        let (ys, s', run, len, a) =
          ampliar_lem e (n - length xs) xs s (get s.tabla_de_paginas) pid v.marcos h
            (omega arith) in
        (
          _,
          ajustar_crece s pid n _ xs v.marcos.cuenta le lt
              ∙ con_paginas-some pid _ (xs ++ ys) s' run,
          guardado-Redimension s s' pid (xs ++ ys) v n xs a (omega (arith, length-append xs ys))
              (λ k _ hk. get_elem?-append_left xs ys k hk),
        )

    Respuesta_achica :
        n < length xs
        → (s' : Memoria e) × (ajustar e s pid n xs ≡ some (0, s')) × Redimension s pid n xs s'
    Respuesta_achica lt =
        let (ys, zs, s', run, parts, len, a) =
          reducir_lem e (length xs - n) xs s (get s.tabla_de_paginas) pid v.marcos h
            (omega arith) in
        let cuantas : length ys ≡ n = omega (arith, ap length parts, length-append ys zs) in
        (
          _,
          ajustar_achica s pid n _ xs v.marcos.cuenta lt ∙ con_paginas-some pid _ ys s' run,
          guardado-Redimension s s' pid ys v n xs a cuantas (λ k hk _. sym (
              ap (λ (w : List ℕ). get_elem? w k) parts
              ∙ get_elem?-append_left ys zs k (omega arith))),
        )

    Respuesta_igual :
        length xs ≡ n
        → (s' : Memoria e) × (ajustar e s pid n xs ≡ some (0, s')) × Redimension s pid n xs s'
    Respuesta_igual eq = (
      s,
      ajustar_igual s pid n _ xs v.marcos.cuenta eq,
      record {
        frames = xs;
        entry = h;
        cantidad = eq;
        kept = λ k _ _. refl;
        others = λ q _. refl;
        memoria = refl;
        valid = v;
      },
    )

    ajustar-Respuesta : Respuesta s pid n xs (ajustar e s pid n xs)
    ajustar-Respuesta =
        elim (dec_lt (contar_libres (test_bit s.marcos) (size s.marcos) + length xs) n) [
          | yes lt ↦ inl (lt, ajustar_falta s pid n _ xs v.marcos.cuenta lt)
          | no ge ↦ inr (
            omega arith,
            elim (dec_lt (length xs) n) [
              | yes crece ↦ Respuesta_crece (omega arith) crece
              | no ge' ↦ elim (dec_lt n (length xs)) [
                | yes achica ↦ Respuesta_achica achica
                | no ge'' ↦ Respuesta_igual (omega arith)
              ]
            ],
          )
        ]

  -- On a well-formed state, with pages that are not empty, resizing an existing process answers 1
  -- and changes nothing exactly when its frames and the free ones are fewer than the pages asked
  -- for; otherwise it answers 0, the process has exactly that many pages and keeps the frames of
  -- the pages it had, other processes and the bytes are as before, and the state stays well
  -- formed.
  pub resize_proceso-Respuesta :
      (s : Memoria e) (pid bytes : ℕ) (xs : List ℕ)
      → IsValid e s
      → 0 < s.config.tam_pagina
      → get s.tabla_de_paginas pid ≡ some xs
      → Respuesta s pid
          (cantidad_paginas bytes s.config.tam_pagina)
          xs
          (resize_proceso e s pid bytes)
  unfolding resize_proceso
  resize_proceso-Respuesta s pid bytes xs v tam h =
      rw (pos-ne_zero _ tam, h, resize_proceso) (ajustar-Respuesta s pid _ xs v h)
