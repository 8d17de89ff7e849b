-- ===== src/Cpu/Tlb/Traduccion.antt =====
-- `obtener_marco_en_tlb` and `traducir_direccion_a_fisica`: translation through the buffer.
use tp_sisop_1c.Prelude.{
  zero, suc, refl, [], true, false, inl, inr, ◌*◌, ◌+◌, ◌/◌, ◌<◌, ◌∙◌, ◌∷◌, ◌≡◌, Bool, List, ℕ, All,
  Bool-cases, arith, ◌⊎◌, ltb, ap, if◌then◌else◌, erase_idx, length, All-append, ◌-◌, ◌==◌, ◌++◌,
  dec_lt, take, drop,
}
use native.Mathlib.Nat.{div-add-mod, mod-lt}
use tp_sisop_1c.Commons.{Listas}
use tp_sisop_1c.Cpu.Tlb.{
  Tlb, RegistroTlb, buscar_entrada, obtener_marco_en_tlb, insertar_en_tlb, insertar_segun, fifo,
  lru, otro, insertar_fifo, insertar_lru, traducir_direccion_a_fisica, tlb_miss, acceder, Algoritmo,
  es_entrada, ℤ, pos, negsuc,
}

-- Every entry holds the frame that the page tables of the memory have for its page.
abbrev pub Coherente : (ℕ → ℕ → ℕ) → List RegistroTlb → Type 0
Coherente marco_de tlb = All (λ r. r.marco ≡ marco_de r.pid r.pagina) tlb

acceder-marco :
    (marco_de : ℕ → ℕ → ℕ) (a : Algoritmo) (ahora : ℕ) (r : RegistroTlb)
    → r.marco ≡ marco_de r.pid r.pagina
    → (acceder a ahora r).marco ≡ marco_de (acceder a ahora r).pid (acceder a ahora r).pagina
unfolding acceder
acceder-marco marco_de lru ahora r h = h
acceder-marco marco_de fifo ahora r h = h
acceder-marco marco_de otro ahora r h = h

es_entrada-iguales :
    (pid pagina : ℕ) (r : RegistroTlb)
    → es_entrada pid pagina r ≡ true
    → (r.pid ≡ pid) × (r.pagina ≡ pagina)
es_entrada-iguales pid pagina r h = (ground arith, ground arith)

-- What a search answers, and the buffer that it leaves.
abbrev Respuesta : (ℕ → ℕ → ℕ) → ℕ → ℕ → ℕ × List RegistroTlb → Type 0
Respuesta marco_de pid pagina r =
    Coherente marco_de r.1 × ((r.0 ≡ tlb_miss) ⊎ (r.0 ≡ marco_de pid pagina))

buscar_entrada-Respuesta :
    (marco_de : ℕ → ℕ → ℕ) (a : Algoritmo) (ahora pid pagina : ℕ) (tlb : List RegistroTlb)
    → Coherente marco_de tlb
    → Respuesta marco_de pid pagina (buscar_entrada a ahora pid pagina tlb)
unfolding buscar_entrada
buscar_entrada-Respuesta marco_de a ahora pid pagina [] h = (h, inl refl)
buscar_entrada-Respuesta marco_de a ahora pid pagina (r ∷ tlb) h =
    let (resto, marco) = buscar_entrada-Respuesta marco_de a ahora pid pagina tlb h.1 in
    elim (Bool-cases (es_entrada pid pagina r)) [
      | inl hit ↦
          let (p, q) = es_entrada-iguales pid pagina r hit in
          rw (hit, buscar_entrada)
            (
              (acceder-marco marco_de a ahora r h.0, h.1),
              inr (h.0 ∙ ap (λ x. marco_de x r.pagina) p ∙ ap (marco_de pid) q),
            )
      | inr other ↦ rw (other, buscar_entrada) ((h.0, resto), marco)
    ]

erase_idx-All {ℓ} :
    {A : Type ℓ} (P : A → Type 0) (xs : List A) (i : ℕ) → All P xs → All P (erase_idx xs i)
erase_idx-All P [] i h = h
erase_idx-All P (x ∷ xs) zero h = h.1
erase_idx-All P (x ∷ xs) (suc i) h = (h.0, erase_idx-All P xs i h.1)

list_remove-All :
    (l : Listas RegistroTlb) (P : RegistroTlb → Type 0) (xs : List RegistroTlb) (i : ℤ)
    → All P xs
    → All P (l.list_remove xs i)
list_remove-All l P xs (pos i) h = rw (l.list_remove-pos xs i) (erase_idx-All P xs i h)
list_remove-All l P xs (negsuc i) h = rw (l.list_remove-negsuc xs i) h

insertado-All {ℓ} :
    {A : Type ℓ} (P : A → Type 0) (xs : List A) (i : ℕ) (r : A)
    → All P xs
    → P r
    → All P (take i xs ++ r ∷ drop i xs)
insertado-All P xs zero r h p = (p, h)
insertado-All P [] (suc i) r h p = (p, h)
insertado-All P (x ∷ xs) (suc i) r h p = (h.0, insertado-All P xs i r h.1 p)

list_add_in_index-All :
    (l : Listas RegistroTlb) (P : RegistroTlb → Type 0) (xs : List RegistroTlb) (i : ℕ)
    (r : RegistroTlb)
    → All P xs
    → P r
    → All P (l.list_add_in_index xs i r)
list_add_in_index-All l P xs i r h p = elim (dec_lt (length xs) i) [
  | yes lt ↦ rw (l.list_add_in_index-fuera xs i r lt) h
  | no ge ↦ rw (l.list_add_in_index-dentro xs i r (omega arith)) (insertado-All P xs i r h p)
]

if-All :
    (P : RegistroTlb → Type 0) (b : Bool) (s s' : Tlb)
    → All P s.tlb
    → All P s'.tlb
    → All P (if b then s else s').tlb
if-All P true s s' h h' = h
if-All P false s s' h h' = h'

insertar_segun-Coherente :
    (l : Listas RegistroTlb) (marco_de : ℕ → ℕ → ℕ) (a : Algoritmo) (s : Tlb) (ahora : ℕ)
    (r : RegistroTlb)
    → Coherente marco_de s.tlb
    → r.marco ≡ marco_de r.pid r.pagina
    → Coherente marco_de (insertar_segun l a s ahora r).tlb
unfolding insertar_segun insertar_fifo insertar_lru
insertar_segun-Coherente l marco_de fifo s ahora r h p =
    if-All _ (ltb (length s.tlb) s.tam_tlb) _ _ (All-append _ s.tlb _ h (p, tt)) (
      if-All _ (length s.tlb == s.tam_tlb) _ _
        (list_add_in_index-All l _ _ _ _ (list_remove-All l _ s.tlb _ h) p) h)
insertar_segun-Coherente l marco_de lru s ahora r h p =
    if-All _ (ltb (length s.tlb) s.tam_tlb) _ _ (All-append _ s.tlb _ h (p, tt)) (
      if-All _ (length s.tlb == s.tam_tlb) _ _
        (All-append _ (l.list_remove s.tlb _) _ (list_remove-All l _ s.tlb _ h) (p, tt)) h)
insertar_segun-Coherente l marco_de otro s ahora r h p = h

-- Inserting an entry whose frame agrees with the page tables keeps the buffer in agreement with them.
insertar_en_tlb-Coherente :
    (l : Listas RegistroTlb) (marco_de : ℕ → ℕ → ℕ) (s : Tlb) (ahora : ℕ) (r : RegistroTlb)
    → Coherente marco_de s.tlb
    → r.marco ≡ marco_de r.pid r.pagina
    → Coherente marco_de (insertar_en_tlb l s ahora r).tlb
unfolding insertar_en_tlb
insertar_en_tlb-Coherente l marco_de s ahora r h p =
    if-All _ (ltb 0 s.tam_tlb) _ _ (insertar_segun-Coherente l marco_de s.algo_tlb s ahora r h p) h

desplazamiento_lem :
    (d tam : ℕ) → 0 < tam → (d - d / tam * tam < tam) × (d / tam * tam + (d - d / tam * tam) ≡ d)
desplazamiento_lem d tam h =
    (grind (arith, div-add-mod d tam, mod-lt d h), grind (arith, div-add-mod d tam))

-- A translation: the frame of the page of the address, the offset in it, and the buffer after it.
pub record Traducida (marco_de : ℕ → ℕ → ℕ) (tam pid direccion : ℕ) (r : (ℕ × ℕ) × Tlb)
    : Type 0 where
  pub marco : r.0.0 ≡ marco_de pid (direccion / tam)
  pub dentro : r.0.1 < tam
  pub completa : direccion / tam * tam + r.0.1 ≡ direccion
  pub tlb : Coherente marco_de r.1.tlb

-- With pages that are not empty and a buffer that agrees with the page tables, a translation gives
-- the frame of the page, hit or miss, and the offset in it, and the buffer still agrees with the
-- page tables.
pub traducir_direccion_a_fisica-Traducida :
    (l : Listas RegistroTlb) (marco_de : ℕ → ℕ → ℕ) (tam : ℕ) (s : Tlb) (ahora pid direccion : ℕ)
    → 0 < tam
    → Coherente marco_de s.tlb
    → Traducida marco_de tam pid direccion
        (traducir_direccion_a_fisica l marco_de tam s ahora pid direccion)
unfolding traducir_direccion_a_fisica obtener_marco_en_tlb
traducir_direccion_a_fisica-Traducida l marco_de tam s ahora pid direccion h c =
    let buscada = buscar_entrada s.algo_tlb ahora pid (direccion / tam) s.tlb in
    let b = buscar_entrada-Respuesta marco_de s.algo_tlb ahora pid (direccion / tam) s.tlb c in
    let (dentro, completa) = desplazamiento_lem direccion tam h in
    elim (Bool-cases (buscada.0 == tlb_miss)) [
      | inl miss ↦
          rw (miss, traducir_direccion_a_fisica)
            (record {
              marco = refl;
              dentro = dentro;
              completa = completa;
              tlb =
                  insertar_en_tlb-Coherente l marco_de (record s { tlb = buscada.1 }) ahora _ b.0
                    refl;
            })
      | inr hit ↦
          rw (hit, traducir_direccion_a_fisica)
            (record {
              marco = elim b.1 [ inl no_hay ↦ absurd (ground arith) | inr es ↦ es ];
              dentro = dentro;
              completa = completa;
              tlb = b.0;
            })
    ]
