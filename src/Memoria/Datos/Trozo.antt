-- ===== src/Memoria/Datos/Trozo.antt =====
-- One chunk of a write: bytes that go into one page of the process.
use tp_sisop_1c.Prelude.{
  zero, suc, refl, [], some, inl, inr, ◌*◌, ◌+◌, ◌/◌, ◌<◌, ◌∙◌, ◌∷◌, ◌≡◌, ◌≢◌, ◌≤◌, ◌%◌, List, ℕ,
  arith, ◌⊎◌, get_elem?, length, ap, dec_lt, get_elem?-lt, get_or, sym, ℕ_discrete,
}
use native.Mathlib.Nat.{div-eq_of_lt-le, div-add-mod', mod-lt, div-lt_iff_lt-mul}
use tp_sisop_1c.Memoria.Paginacion.Marcos.{Distintos, Ajeno}
use tp_sisop_1c.Memoria.Datos.{agregar_datos_contiguos_a_memoria as poner}
use tp_sisop_1c.Memoria.Datos.Rango.{byte_logico, byte_pagina, get_or-some, div_pagina}
use tp_sisop_1c.Memoria.Datos.Lectura.{Ajeno-ne}

poner_fuera :
    (datos : List ℕ) (m : ℕ → ℕ) (dir a : ℕ)
    → (a < dir) ⊎ (dir + length datos ≤ a)
    → poner m dir datos a ≡ m a
unfolding poner
poner_fuera [] m dir a h = refl
poner_fuera (x ∷ datos) m dir a h = poner_fuera datos _ (dir + 1) a (omega arith) ∙ ground arith

poner_dentro :
    (datos : List ℕ) (m : ℕ → ℕ) (dir i : ℕ)
    → i < length datos
    → poner m dir datos (dir + i) ≡ get_or datos i 0
unfolding poner
poner_dentro [] m dir i h = absurd (omega arith)
poner_dentro (x ∷ datos) m dir zero h =
    poner_fuera datos _ (dir + 1) (dir + 0) (omega arith) ∙ ground arith
poner_dentro (x ∷ datos) m dir (suc i) h =
    ap (poner _ (dir + 1) datos) (omega arith) ∙ poner_dentro datos _ (dir + 1) i (omega arith)

-- Two pages of a process never lie in one frame.
pub Distintos-ne :
    (xs : List ℕ) (i j x y : ℕ)
    → Distintos xs
    → get_elem? xs i ≡ some x
    → get_elem? xs j ≡ some y
    → i ≢ j
    → x ≢ y
Distintos-ne [] i j x y d hi hj ne = cc
Distintos-ne (z ∷ xs) zero zero x y d hi hj ne = absurd (ne refl)
Distintos-ne (z ∷ xs) zero (suc j) x y d hi hj ne = λ e. Ajeno-ne xs z j y d.0 hj (ground arith)
Distintos-ne (z ∷ xs) (suc i) zero x y d hi hj ne = λ e. Ajeno-ne xs z i x d.0 hi (ground arith)
Distintos-ne (z ∷ xs) (suc i) (suc j) x y d hi hj ne =
    Distintos-ne xs i j x y d.1 hi hj (λ e. ne (ap suc e))

-- An address outside a frame lies before it or behind it.
pub suc_mul : (x tam : ℕ) → (x + 1) * tam ≡ x * tam + tam
suc_mul x tam = grind arith

fuera_del_marco : (tam x a : ℕ) → 0 < tam → a / tam ≢ x → (a < x * tam) ⊎ (x * tam + tam ≤ a)
fuera_del_marco tam x a h ne = elim (dec_lt a (x * tam)) [
  | yes lt ↦ inl lt
  | no ge ↦ elim (dec_lt a (x * tam + tam)) [
    | yes lt ↦
        absurd
          (ne (div-eq_of_lt-le {k = x} tam {m = a} (omega arith) (omega (arith, suc_mul x tam))))
    | no ge' ↦ inr (omega arith)
  ]
]

module _ (tam : ℕ) (xs : List ℕ) (m : ℕ → ℕ) (k off x : ℕ) (datos : List ℕ) (h : off < tam)
    (d : Distintos xs) (hx : get_elem? xs k ≡ some x) (fits : off + length datos ≤ tam) where
  abbrev tras : ℕ → ℕ
  tras = poner m (x * tam + off) datos

  -- The process finds them at its own addresses,
  pub trozo_dentro :
      (i : ℕ) → i < length datos → byte_logico tras tam xs (k * tam + (off + i)) ≡ get_or datos i 0
  trozo_dentro i hi =
      byte_pagina tras tam k (off + i) x xs (omega arith) hx
      ∙ ap tras (omega arith)
      ∙ poner_dentro datos m (x * tam + off) i hi

  -- its other bytes stay,
  pub trozo_propios :
      (a : ℕ)
      → a < length xs * tam
      → (a < k * tam + off) ⊎ (k * tam + off + length datos ≤ a)
      → byte_logico tras tam xs a ≡ byte_logico m tam xs a
  trozo_propios a ha out =
      let p = a / tam in
      let r = a % tam in
      let whole : p * tam + r ≡ a = div-add-mod' a tam in
      let small : r < tam = mod-lt a (omega arith) in
      let (y, hy) = get_elem?-lt xs p ((div-lt_iff_lt-mul (omega arith)).1 ha) in
      let entry : get_or xs p 0 ≡ y = get_or-some xs p y hy in
      rw entry (
        poner_fuera datos m (x * tam + off) (y * tam + r) (elim (ℕ_discrete p k) [
          | yes same ↦
              let marco : y ≡ x = cc (hy, hx, same) in
              let base : p * tam ≡ k * tam = ap (λ (t : ℕ). t * tam) same in
              let base' : y * tam ≡ x * tam = ap (λ (t : ℕ). t * tam) marco in omega arith
          | no other ↦
              let lejos =
                fuera_del_marco tam x (y * tam + r) (omega arith)
                  (rw (div_pagina y tam r small) (Distintos-ne xs p k y x d hy hx other)) in
              omega arith
        ]))

  -- and so do the bytes of all frames that are not its own.
  pub trozo_ajenos : (a : ℕ) → Ajeno (a / tam) xs → tras a ≡ m a
  trozo_ajenos a ajeno =
      let donde =
        fuera_del_marco tam x a (omega arith) (λ e. Ajeno-ne xs (a / tam) k x ajeno hx (sym e)) in
      poner_fuera datos m (x * tam + off) a (omega arith)
