-- ===== src/Cpu/Tlb/Capacidad.antt =====
-- How many entries the buffer has after `insertar_en_tlb`, and which one LRU replaces.
use tp_sisop_1c.Prelude.{
  zero, suc, refl, [], ◌<◌, ◌∙◌, ◌∷◌, ◌≡◌, ◌≤◌, List, length, ℕ, arith, if◌then◌else◌, erase_idx,
  ap, ◌==◌, some, inl, inr, ◌+◌, All, Bool-cases, ltb, ◌⊎◌, get_elem?, length-append, subst, tests,
  ==_iff, sym, take, drop, length-take, length-drop,
}
use tp_sisop_1c.Commons.{Listas}
use tp_sisop_1c.Cpu.Tlb.{
  Tlb, RegistroTlb, insertar_en_tlb, insertar_segun, fifo, buscar_lru, get_index_for_lru,
  insertar_fifo, pos, ℤ, negsuc,
}

erase_idx-length :
    (tlb : List RegistroTlb) (i : ℕ) → i < length tlb → suc (length (erase_idx tlb i)) ≡ length tlb
erase_idx-length [] i h = absurd (omega arith)
erase_idx-length (x ∷ tlb) zero h = refl
erase_idx-length (x ∷ tlb) (suc i) h = ap suc (erase_idx-length tlb i (omega arith))

-- No more entries than the buffer has room for, and the next victim of FIFO among them or behind the
-- last one.
pub record EnCapacidad (s : Tlb) : Type 0 where
  pub entradas : length s.tlb ≤ s.tam_tlb
  pub indice : s.ultimo_index ≤ s.tam_tlb

reemplazo-length :
    (l : Listas RegistroTlb) (s : Tlb) (i : ℕ) (r : RegistroTlb)
    → i < length s.tlb
    → length (l.list_add_in_index (l.list_remove s.tlb (pos i)) i r) ≡ length s.tlb
reemplazo-length l s i r h =
    let resto = erase_idx s.tlb i in
    let n = erase_idx-length s.tlb i h in
    rw (l.list_remove-pos s.tlb i, l.list_add_in_index-dentro resto i r (omega (arith, n, h)))
      (omega (
        arith,
        length-append (take i resto) (r ∷ drop i resto),
        length-take i resto,
        length-drop i resto,
        n,
        h,
      ))

indice-acotado : (i tam : ℕ) → 0 < tam → i ≤ tam → (if i == tam then 0 else i) < tam
indice-acotado i tam h b = ground arith

insertar_fifo-EnCapacidad :
    (l : Listas RegistroTlb) (s : Tlb) (r : RegistroTlb)
    → 0 < s.tam_tlb
    → EnCapacidad s
    → EnCapacidad (insertar_fifo l s r)
unfolding insertar_fifo
insertar_fifo-EnCapacidad l s r h c =
    let r' = record r { last_access = 0 } in
    let index = if s.ultimo_index == s.tam_tlb then 0 else s.ultimo_index in
    let i = indice-acotado s.ultimo_index s.tam_tlb h c.indice in
    elim (Bool-cases (ltb (length s.tlb) s.tam_tlb)) [
      | inl hay ↦
          rw (hay, insertar_fifo)
            (record {
              entradas = omega (tests, length-append s.tlb (r' ∷ []), hay);
              indice = omega (arith, i);
            })
      | inr llena ↦ elim (Bool-cases (length s.tlb == s.tam_tlb)) [
        | inl justo ↦
            let igual = (==_iff (length s.tlb) s.tam_tlb).0 justo in
            rw (llena, justo, insertar_fifo)
              (record {
                entradas =
                    omega
                      (arith, reemplazo-length l s index r' (omega (arith, igual, i)), c.entradas);
                indice = omega (arith, i);
              })
        | inr otra ↦
            rw (llena, otra, insertar_fifo)
              (record { entradas = c.entradas; indice = omega (arith, i) })
      ]
    ]

-- Under FIFO an insertion leaves no more entries than the buffer has room for and the index of the
-- next victim within bounds, if they were so.
pub insertar_en_tlb-EnCapacidad :
    (l : Listas RegistroTlb) (s : Tlb) (ahora : ℕ) (r : RegistroTlb)
    → s.algo_tlb ≡ fifo
    → EnCapacidad s
    → EnCapacidad (insertar_en_tlb l s ahora r)
unfolding insertar_en_tlb insertar_segun insertar_fifo
insertar_en_tlb-EnCapacidad l s ahora r e c = elim (Bool-cases (ltb 0 s.tam_tlb)) [
  | inl hay ↦
      rw (hay, insertar_en_tlb)
        (subst (λ a. EnCapacidad (insertar_segun l a s ahora r)) (sym e)
          (insertar_fifo-EnCapacidad l s r (ground arith) c))
  | inr nada ↦ rw (nada, insertar_en_tlb) c
]

-- Nothing in the buffer was last used before `ahora`.
abbrev pub Recientes : ℕ → List RegistroTlb → Type 0
Recientes ahora tlb = All (λ r. ahora ≤ r.last_access) tlb

-- What LRU looks for: an entry used before the time, none of those before it as old, and none of the
-- others older; or nothing at all.
abbrev pub Antiguo : List RegistroTlb → ℕ → ℕ → ℤ → ℤ → Type 0
Antiguo tlb i antes index j =
    ((j ≡ index) × Recientes antes tlb)
    ⊎ ((k : ℕ) × (r : RegistroTlb) × (j ≡ pos (i + k))
        × (get_elem? tlb k ≡ some r)
        × (r.last_access < antes)
        × Recientes r.last_access tlb)

buscar_lru-Antiguo :
    (tlb : List RegistroTlb) (i antes : ℕ) (index : ℤ)
    → Antiguo tlb i antes index (buscar_lru tlb i antes index)
unfolding buscar_lru
buscar_lru-Antiguo [] i antes index = inl (refl, tt)
buscar_lru-Antiguo (x ∷ tlb) i antes index = elim (Bool-cases (ltb x.last_access antes)) [
  | inl nuevo ↦
      rw (nuevo, buscar_lru)
        (elim (buscar_lru-Antiguo tlb (i + 1) x.last_access (pos i)) [
          | inl (e, m) ↦ inr (0, x, e ∙ ap pos (omega arith), refl, ground arith, (omega arith, m))
          | inr (k, r, e, g, l, m) ↦
              inr (suc k, r, e ∙ ap pos (omega arith), g, ground arith, (omega arith, m))
        ])
  | inr viejo ↦
      rw (viejo, buscar_lru)
        (elim (buscar_lru-Antiguo tlb (i + 1) antes index) [
          | inl (e, m) ↦ inl (e, (ground arith, m))
          | inr (k, r, e, g, l, m) ↦
              inr (suc k, r, e ∙ ap pos (omega arith), g, l, (ground arith, m))
        ])
]

-- The index of `get_index_for_lru` is that of the entry used least recently, if one was used before
-- the present time; it is -1 if none was.
pub get_index_for_lru-Antiguo :
    (ahora : ℕ) (tlb : List RegistroTlb)
    → Antiguo tlb 0 ahora (negsuc 0) (get_index_for_lru ahora tlb)
unfolding get_index_for_lru
get_index_for_lru-Antiguo ahora tlb = buscar_lru-Antiguo tlb 0 ahora (negsuc 0)
