-- ===== src/Memoria/Paginacion/Bucles.antt =====
-- The loops of `resize_proceso` and of `liberar_marcos_de_proceso` keep the frames' invariant.
use mathlib.Core.List.{append-nil, append_assoc}
use tp_sisop_1c.Prelude.{
  ℕ, zero, suc, ◌<◌, ◌≤◌, ◌≡◌, refl, ap, subst, ◌∙◌, List, [], ◌∷◌, ◌++◌, Option, some, arith,
  length, get_elem?, erase_idx, false, sym, length-append, ◌-◌,
}
use tp_sisop_1c.Memoria.{Entorno, Memoria}
use tp_sisop_1c.Memoria.Paginacion.{
  obtener_marco_libre, ocupar_marco, liberar_marco, ampliar, liberar_todos, reducir,
}
use tp_sisop_1c.Memoria.Paginacion.Libre.{buscar_marco_libre}
use tp_sisop_1c.Memoria.Paginacion.Marcos.{Inv, Entrada, contar_libres, contar-set, All-middle}
use tp_sisop_1c.Memoria.Paginacion.Invariante.{
  Inv-ocupar, Inv-liberar, con, con_self, con_twice, Entrada-same,
}

module _ (e : Entorno) where
  open e use {
    bits.{
      size, test_bit, set_bit, clean_bit, size-set_bit, size-clean_bit, test_bit-set_bit,
      test_bit-clean_bit,
    },
  }

  -- The frames of a state under a page table of their own.
  abbrev pub Marcos : Memoria e → (ℕ → Option (List ℕ)) → Type 0
  Marcos s = Inv (size s.marcos) (test_bit s.marcos) s.cantidad_marcos_libres

  Marcos-ocupar :
      (s : Memoria e) (t : ℕ → Option (List ℕ)) (p m : ℕ) (xs : List ℕ)
      → Marcos s t
      → t p ≡ some xs
      → m < size s.marcos
      → test_bit s.marcos m ≡ false
      → Marcos (ocupar_marco e s m) (con t p (xs ++ m ∷ []))
  unfolding ocupar_marco
  Marcos-ocupar s t p m xs i h lt libre = rw (size-set_bit s.marcos m) (
      Inv-ocupar _ _ _ _ t _ p m xs xs i h lt libre
        (λ j hj. test_bit-set_bit s.marcos m j (omega arith) (omega arith)) (λ q. refl))

  Marcos-liberar :
      (s : Memoria e) (t : ℕ → Option (List ℕ)) (p m : ℕ) (xs ys : List ℕ)
      → Marcos s t
      → t p ≡ some (xs ++ m ∷ ys)
      → Marcos (liberar_marco e s m) (con t p (xs ++ ys))
  unfolding liberar_marco
  Marcos-liberar s t p m xs ys i h =
      let lt = (All-middle _ xs ys m (i.usados p _ h)).0.0 in
      rw (size-clean_bit s.marcos m) (
        Inv-liberar _ _ _ _ t _ p m xs ys i h
          (λ j hj. test_bit-clean_bit s.marcos m j (omega arith) (omega arith)) (λ q. refl))

  -- What a loop over the frames of process `p` leaves: its pages are now `ys`.
  pub record Ajuste (t : ℕ → Option (List ℕ)) (p : ℕ) (s s' : Memoria e) (ys : List ℕ)
      : Type 0 where
    pub resto :
        s' ≡ record s { marcos = s'.marcos; cantidad_marcos_libres = s'.cantidad_marcos_libres }
    pub capacidad : size s'.marcos ≡ size s.marcos
    pub marcos : (t' : ℕ → Option (List ℕ)) → Entrada p (some ys) t t' → Marcos s' t'

  Ajuste-nada :
      (t : ℕ → Option (List ℕ)) (p : ℕ) (s : Memoria e) (xs : List ℕ)
      → Marcos s t
      → t p ≡ some xs
      → Ajuste t p s s xs
  Ajuste-nada t p s xs i h = record {
    resto = refl;
    capacidad = refl;
    marcos = λ t' en. subst (Marcos s) (Entrada-same t t' p xs h en) i;
  }

  Ajuste-trans :
      (t : ℕ → Option (List ℕ)) (p : ℕ) (s s' s'' : Memoria e) (xs ys : List ℕ)
      → s' ≡ record s { marcos = s'.marcos; cantidad_marcos_libres = s'.cantidad_marcos_libres }
      → size s'.marcos ≡ size s.marcos
      → Ajuste (con t p xs) p s' s'' ys
      → Ajuste t p s s'' ys
  Ajuste-trans t p s s' s'' xs ys r c a = record {
    resto =
        a.resto
        ∙ ap
            (λ (w : Memoria e). record w {
              marcos = s''.marcos;
              cantidad_marcos_libres = s''.cantidad_marcos_libres;
            })
            r;
    capacidad = a.capacidad ∙ c;
    marcos = λ t' en. a.marcos t' (con_twice t t' p xs ys en);
  }

  libres-ocupar :
      (s : Memoria e) (m : ℕ)
      → m < size s.marcos
      → test_bit s.marcos m ≡ false
      → contar_libres (test_bit s.marcos) (size s.marcos)
        ≡ suc (
            contar_libres (test_bit (ocupar_marco e s m).marcos) (size (ocupar_marco e s m).marcos))
  unfolding ocupar_marco
  libres-ocupar s m lt libre = rw (size-set_bit s.marcos m) (
      contar-set _ m _ _ lt libre
        (λ j hj. test_bit-set_bit s.marcos m j (omega arith) (omega arith)))

  -- With `n` free frames the growing loop ends, and appends `n` new pages.
  pub ampliar_lem :
      (n : ℕ) (xs : List ℕ) (s : Memoria e) (t : ℕ → Option (List ℕ)) (p : ℕ)
      → Marcos s t
      → t p ≡ some xs
      → n ≤ contar_libres (test_bit s.marcos) (size s.marcos)
      → (ys : List ℕ) × (s' : Memoria e) × (ampliar e n xs s ≡ some (xs ++ ys, s'))
        × (length ys ≡ n)
        × Ajuste t p s s' (xs ++ ys)
  unfolding ampliar obtener_marco_libre ocupar_marco
  ampliar_lem zero xs s t p i h le =
      ([], s, rw append-nil, refl, rw append-nil (Ajuste-nada t p s xs i h))
  ampliar_lem (suc n) xs s t p i h le =
      let (m, found, lt, libre) =
        buscar_marco_libre (test_bit s.marcos) (size s.marcos) (omega arith) in
      let (ys, s', run, len, a) =
        ampliar_lem n (xs ++ m ∷ []) (ocupar_marco e s m) (con t p (xs ++ m ∷ [])) p
          (Marcos-ocupar s t p m xs i h lt libre) (con_self t p _)
          (omega (arith, libres-ocupar s m lt libre)) in
      let same : (xs ++ m ∷ []) ++ ys ≡ xs ++ m ∷ ys = append_assoc xs (m ∷ []) ys in
      (
        m ∷ ys,
        s',
        rw (found, ampliar) (rw same at run),
        ap suc len,
        Ajuste-trans t p s (ocupar_marco e s m) s' (xs ++ m ∷ []) (xs ++ m ∷ ys) refl
            (size-set_bit s.marcos m) (rw same at a),
      )

  snoc_cases :
      (x : ℕ) (xs : List ℕ)
      → (ys : List ℕ) × (m : ℕ) × (x ∷ xs ≡ ys ++ m ∷ []) × (length ys ≡ length xs)
  snoc_cases x [] = ([], x, refl, refl)
  snoc_cases x (y ∷ xs) =
      let (ys, m, e', len) = snoc_cases y xs in (x ∷ ys, m, ap (◌∷◌ x) e', ap suc len)

  get_elem?-snoc : (xs : List ℕ) (m : ℕ) → get_elem? (xs ++ m ∷ []) (length xs) ≡ some m
  get_elem?-snoc [] m = refl
  get_elem?-snoc (x ∷ xs) m = get_elem?-snoc xs m

  erase_idx-snoc : (xs : List ℕ) (m : ℕ) → erase_idx (xs ++ m ∷ []) (length xs) ≡ xs
  erase_idx-snoc [] m = refl
  erase_idx-snoc (x ∷ xs) m = ap (◌∷◌ x) (erase_idx-snoc xs m)

  reducir-some :
      (n i : ℕ) (xs : List ℕ) (m : ℕ) (s : Memoria e)
      → get_elem? xs (i - 1) ≡ some m
      → reducir e (suc n) i xs s ≡ reducir e n (i - 1) (erase_idx xs (i - 1)) (liberar_marco e s m)
  unfolding reducir
  reducir-some n i xs m s h = rw (h, reducir)

  reducir_step :
      (n : ℕ) (ws : List ℕ) (m : ℕ) (s : Memoria e)
      → reducir e (suc n) (length (ws ++ m ∷ [])) (ws ++ m ∷ []) s
        ≡ reducir e n (length ws) ws (liberar_marco e s m)
  reducir_step n ws m s =
      let last : length (ws ++ m ∷ []) - 1 ≡ length ws = omega (arith, length-append ws (m ∷ [])) in
      reducir-some n (length (ws ++ m ∷ [])) (ws ++ m ∷ []) m s (rw last (get_elem?-snoc ws m))
      ∙ rw (last, erase_idx-snoc ws m)

  -- The shrinking loop takes the last `n` pages of `xs` off.
  abbrev pub Reducido : ℕ → List ℕ → Memoria e → (ℕ → Option (List ℕ)) → ℕ → Type 0
  Reducido n xs s t p =
      (ys : List ℕ) × (zs : List ℕ) × (s' : Memoria e) × (reducir e n (length xs) xs s
        ≡ some (ys, s'))
      × (xs ≡ ys ++ zs)
      × (length zs ≡ n)
      × Ajuste t p s s' ys

  Reducido-snoc :
      (n : ℕ) (ws : List ℕ) (m : ℕ) (s : Memoria e) (t : ℕ → Option (List ℕ)) (p : ℕ)
      → Reducido n ws (liberar_marco e s m) (con t p ws) p
      → Reducido (suc n) (ws ++ m ∷ []) s t p
  unfolding liberar_marco
  Reducido-snoc n ws m s t p (ys, zs, s', run, parts, count, a) = (
    ys,
    zs ++ m ∷ [],
    s',
    reducir_step n ws m s ∙ run,
    ap (λ (w : List ℕ). w ++ m ∷ []) parts ∙ append_assoc ys zs (m ∷ []),
    omega (arith, length-append zs (m ∷ [])),
    Ajuste-trans t p s (liberar_marco e s m) s' ws ys refl (size-clean_bit s.marcos m) a,
  )

  pub reducir_lem :
      (n : ℕ) (xs : List ℕ) (s : Memoria e) (t : ℕ → Option (List ℕ)) (p : ℕ)
      → Marcos s t
      → t p ≡ some xs
      → n ≤ length xs
      → Reducido n xs s t p
  unfolding reducir
  reducir_lem zero xs s t p i h le =
      (xs, [], s, refl, sym (append-nil xs), refl, Ajuste-nada t p s xs i h)
  reducir_lem (suc n) [] s t p i h le = absurd (omega arith)
  reducir_lem (suc n) (x ∷ xs) s t p i h le =
      let (ws, m, split, len) = snoc_cases x xs in
      subst (λ (w : List ℕ). Reducido (suc n) w s t p) (sym split)
        (Reducido-snoc n ws m s t p (
          reducir_lem n ws (liberar_marco e s m) (con t p ws) p
            (rw append-nil at (Marcos-liberar s t p m ws [] i (h ∙ ap some split))) (con_self t p _)
            (omega arith)))

  -- Freeing all frames of a process, from the first page on.
  pub liberar_todos_lem :
      (xs : List ℕ) (s : Memoria e) (t : ℕ → Option (List ℕ)) (p : ℕ)
      → Marcos s t
      → t p ≡ some xs
      → Ajuste t p s (liberar_todos e s xs) []
  unfolding liberar_todos liberar_marco
  liberar_todos_lem [] s t p i h = Ajuste-nada t p s [] i h
  liberar_todos_lem (m ∷ xs) s t p i h =
      Ajuste-trans t p s (liberar_marco e s m) _ xs [] refl (size-clean_bit s.marcos m) (
        liberar_todos_lem xs (liberar_marco e s m) (con t p xs) p (Marcos-liberar s t p m [] xs i h)
          (con_self t p xs))
