-- ===== src/Memoria/Datos/Escritura.antt =====
-- What `agregar_datos_a_memoria` writes.
use tp_sisop_1c.Prelude.{
  zero, suc, refl, [], some, ◌*◌, ◌+◌, ◌/◌, ◌<◌, ◌∙◌, ◌∷◌, ◌≡◌, ◌≤◌, ℕ, List, length, get_or,
  get_elem?, take, arith, ◌⊎◌, drop, ap, inl, inr, ◌-◌, dec_lt, length-take, take-length,
  drop-length, get_elem?-lt, length-drop, get_or-take, get_or-drop, ◌%◌,
}
use native.Mathlib.Nat.{add_assoc}
use tp_sisop_1c.Prelude.Int.{ℤ, pos}
use tp_sisop_1c.Memoria.Paginacion.Marcos.{Distintos, Ajeno}
use tp_sisop_1c.Memoria.Datos.{
  agregar_datos_contiguos_a_memoria as poner, escribir, list_get, tamanio_a_copiar,
  pagina_siguiente, direccion_siguiente,
}
use tp_sisop_1c.Memoria.Datos.Rango.{byte_logico, mod_pagina, pagina_lt}
use tp_sisop_1c.Memoria.Datos.Lectura.{
  tamanio_a_copiar_max, tamanio_a_copiar_fin, pagina_siguiente_max, pagina_siguiente_fin,
}
use tp_sisop_1c.Memoria.Datos.Trozo.{suc_mul, trozo_dentro, trozo_propios, trozo_ajenos}

-- `m'` is `m` with `datos` at the process's addresses from `a` on, and nothing else changed.
pub record Escrito (tam : ℕ) (xs : List ℕ) (m m' : ℕ → ℕ) (a : ℕ) (datos : List ℕ) : Type 0 where
  pub dentro : (i : ℕ) → i < length datos → byte_logico m' tam xs (a + i) ≡ get_or datos i 0
  pub propios :
      (b : ℕ)
      → b < length xs * tam
      → (b < a) ⊎ (a + length datos ≤ b)
      → byte_logico m' tam xs b ≡ byte_logico m tam xs b
  pub ajenos : (b : ℕ) → Ajeno (b / tam) xs → m' b ≡ m b

module _ (tam : ℕ) (xs : List ℕ) where
  escribir_ronda :
      (fuel : ℕ) (m : ℕ → ℕ) (pagina : ℤ) (dir x y : ℕ) (datos : List ℕ)
      → list_get xs (pagina_siguiente tam (length (x ∷ datos)) pagina) ≡ some y
      → escribir tam xs (suc fuel) m pagina dir (x ∷ datos)
        ≡ escribir tam xs fuel
            (poner m dir (take (tamanio_a_copiar tam (length (x ∷ datos))) (x ∷ datos)))
            (pagina_siguiente tam (length (x ∷ datos)) pagina)
            (direccion_siguiente tam dir y)
            (drop (tamanio_a_copiar tam (length (x ∷ datos))) (x ∷ datos))
  unfolding escribir
  escribir_ronda fuel m pagina dir x y datos hy = rw (hy, escribir)

  escribir-some :
      (fuel : ℕ) (m : ℕ → ℕ) (pagina pagina' : ℤ) (dir x y n : ℕ) (datos : List ℕ)
      → tamanio_a_copiar tam (length (x ∷ datos)) ≡ n
      → pagina_siguiente tam (length (x ∷ datos)) pagina ≡ pagina'
      → list_get xs pagina' ≡ some y
      → escribir tam xs (suc fuel) m pagina dir (x ∷ datos)
        ≡ escribir tam xs fuel
            (poner m dir (take n (x ∷ datos)))
            pagina'
            (direccion_siguiente tam dir y)
            (drop n (x ∷ datos))
  escribir-some fuel m pagina pagina' dir x y n datos hn hp hy =
      escribir_ronda fuel m pagina dir x y datos (rw hp hy) ∙ rw (hn, hp)

  trozo-Escrito :
      (k off x : ℕ) (m : ℕ → ℕ) (datos : List ℕ)
      → off < tam
      → off + length datos ≤ tam
      → Distintos xs
      → get_elem? xs k ≡ some x
      → Escrito tam xs m (poner m (x * tam + off) datos) (k * tam + off) datos
  trozo-Escrito k off x m datos h fits d hx = record {
    dentro = λ i hi.
        ap (byte_logico (poner m (x * tam + off) datos) tam xs) (add_assoc (k * tam) off i)
        ∙ trozo_dentro tam xs m k off x datos h d hx fits i hi;
    propios = trozo_propios tam xs m k off x datos h d hx fits;
    ajenos = trozo_ajenos tam xs m k off x datos h d hx fits;
  }

  escribir_fin :
      (fuel k off x : ℕ) (m : ℕ → ℕ) (datos : List ℕ)
      → off < tam
      → off + length datos ≤ tam
      → length datos ≤ fuel
      → Distintos xs
      → get_elem? xs k ≡ some x
      → (m' : ℕ → ℕ) × (escribir tam xs fuel m (pos k) (x * tam + off) datos ≡ some m')
        × Escrito tam xs m m' (k * tam + off) datos
  unfolding list_get
  escribir_fin fuel k off x m datos h fits f d hx = (
    poner m (x * tam + off) datos,
    go fuel datos f fits,
    trozo-Escrito k off x m datos h fits d hx,
  )
    where
      go :
          (fuel : ℕ) (datos : List ℕ)
          → length datos ≤ fuel
          → off + length datos ≤ tam
          → escribir tam xs fuel m (pos k) (x * tam + off) datos
            ≡ some (poner m (x * tam + off) datos)
      go fuel [] f fits = unfold escribir poner in refl
      go zero (b ∷ datos) f fits = absurd (omega arith)
      go (suc fuel) (b ∷ datos) f fits =
          escribir-some fuel m (pos k) (pos k) (x * tam + off) b x _ datos
            (tamanio_a_copiar_fin tam (length (b ∷ datos)) (omega arith))
            (pagina_siguiente_fin tam (length (b ∷ datos)) k (omega arith)) hx
          ∙ rw (take-length datos, drop-length datos) (unfold escribir in refl)

  -- A first chunk `ds` of a whole page, then the others.
  Escrito-append :
      (m m1 m' : ℕ → ℕ) (k : ℕ) (datos : List ℕ)
      → 0 < tam
      → tam < length datos
      → k * tam + length datos ≤ length xs * tam
      → Escrito tam xs m m1 (k * tam + 0) (take tam datos)
      → Escrito tam xs m1 m' ((k + 1) * tam + 0) (drop tam datos)
      → Escrito tam xs m m' (k * tam + 0) datos
  Escrito-append m m1 m' k datos h lt fits a b =
      let t : length (take tam datos) ≡ tam = omega (arith, length-take tam datos) in
      let r : length (drop tam datos) ≡ length datos - tam = length-drop tam datos in
      let s = suc_mul k tam in
      record {
        dentro = λ i hi. elim (dec_lt i tam) [
          | yes in_first ↦
              b.propios (k * tam + 0 + i) (omega arith) (omega arith)
              ∙ a.dentro i (omega arith)
              ∙ get_or-take tam datos i 0 in_first
          | no later ↦
              ap (byte_logico m' tam xs) (omega arith)
              ∙ b.dentro (i - tam) (omega arith)
              ∙ get_or-drop tam datos (i - tam) 0
              ∙ ap (λ (j : ℕ). get_or datos j 0) (omega arith)
        ];
        propios = λ c hc out. b.propios c hc (omega arith) ∙ a.propios c hc (omega arith);
        ajenos = λ c hc. b.ajenos c hc ∙ a.ajenos c hc;
      }

  -- Writing from offset `off` of page `k` on puts the bytes at the process's addresses, if the
  -- offset is 0 or the bytes go into that page.
  pub escribir_alineado :
      (fuel k off x : ℕ) (m : ℕ → ℕ) (datos : List ℕ)
      → off < tam
      → length datos ≤ fuel
      → Distintos xs
      → get_elem? xs k ≡ some x
      → k * tam + off + length datos ≤ length xs * tam
      → (off ≡ 0) ⊎ (off + length datos ≤ tam)
      → (m' : ℕ → ℕ) × (escribir tam xs fuel m (pos k) (x * tam + off) datos ≡ some m')
        × Escrito tam xs m m' (k * tam + off) datos
  unfolding list_get direccion_siguiente
  escribir_alineado fuel k off x m datos h f d hx fits (inr one) =
      escribir_fin fuel k off x m datos h one f d hx
  escribir_alineado fuel k off x m [] h f d hx fits (inl start) =
      escribir_fin fuel k off x m [] h (omega arith) f d hx
  escribir_alineado zero k off x m (b ∷ datos) h f d hx fits (inl start) = absurd (omega arith)
  escribir_alineado (suc fuel) k off x m (b ∷ datos) h f d hx fits (inl start) =
      elim (dec_lt tam (length (b ∷ datos))) [
        | no ge ↦ escribir_fin (suc fuel) k off x m (b ∷ datos) h (omega arith) f d hx
        | yes lt ↦
            let ds = b ∷ datos in
            let (y, hy) =
              get_elem?-lt xs (k + 1) (pagina_lt k (length ds) (length xs) tam (omega arith) lt) in
            let m1 = poner m (x * tam + 0) (take tam ds) in
            let (m', run, rest) =
              escribir_alineado fuel (k + 1) 0 y m1 (drop tam ds) (omega arith)
                (omega (arith, length-drop tam ds)) d hy
                (omega (arith, length-drop tam ds, suc_mul k tam)) (inl refl) in
            let run' : escribir tam xs fuel m1 (pos (k + 1)) (y * tam + (x * tam + 0) % tam)
                  (drop tam ds)
                ≡ some m' =
              rw (mod_pagina x tam 0 (omega arith)) run in
            rw start (
              m',
              escribir-some fuel m (pos k) (pos (k + 1)) (x * tam + 0) b y tam datos
                    (tamanio_a_copiar_max tam (length ds) lt)
                    (pagina_siguiente_max tam (length ds) k lt) hy
                  ∙ run',
              Escrito-append m m1 m' k ds (omega arith) lt (omega arith)
                  (trozo-Escrito k 0 x m (take tam ds) (omega arith)
                    (omega (arith, length-take tam ds)) d hx)
                  rest,
            )
      ]
