-- ===== src/Cpu/Tlb/Lru.antt =====
-- `insertar_en_tlb` under LRU when the buffer is full.
use tp_sisop_1c.Prelude.{
  suc, refl, [], true, false, some, inl, inr, ◌++◌, ◌<◌, ◌∙◌, ◌∷◌, ◌≡◌, ℕ, length, ltb, ◌⊎◌, arith,
  get_elem?, ◌==◌, erase_idx, Bool-cases, ap, lt→ltb, subst, sym, ◌+◌, length-append, List,
}
use tp_sisop_1c.Commons.{Listas}
use tp_sisop_1c.Cpu.Tlb.{
  Tlb, RegistroTlb, insertar_en_tlb, insertar_segun, lru, insertar_lru, get_index_for_lru, pos,
  buscar_lru, negsuc, ℤ,
}
use tp_sisop_1c.Cpu.Tlb.Capacidad.{Recientes, get_index_for_lru-Antiguo}

-- The entry as it is kept.
abbrev pub fechado : ℕ → RegistroTlb → RegistroTlb
fechado ahora r = record r { last_access = ahora }

insertar_lru-llena :
    (l : Listas RegistroTlb) (s : Tlb) (ahora : ℕ) (r : RegistroTlb)
    → s.algo_tlb ≡ lru
    → 0 < s.tam_tlb
    → length s.tlb ≡ s.tam_tlb
    → insertar_en_tlb l s ahora r ≡ record s {
      tlb = l.list_remove s.tlb (get_index_for_lru ahora s.tlb) ++ fechado ahora r ∷ [];
    }
unfolding insertar_en_tlb insertar_segun insertar_lru
insertar_lru-llena l s ahora r e h llena =
    rw (lt→ltb 0 s.tam_tlb h, insertar_en_tlb)
      (ap (λ a. insertar_segun l a s ahora r) e ∙ rw (no_hay_lugar, igual, insertar_lru) refl)
  where
    no_hay_lugar : ltb (length s.tlb) s.tam_tlb ≡ false
    no_hay_lugar = ground arith

    igual : (length s.tlb == s.tam_tlb) ≡ true
    igual = ground arith

-- Under LRU a full buffer replaces the entry used least recently by the new one, if an entry was
-- used before the present time; if none was, nothing is replaced and the new entry is added.
pub insertar_en_tlb-Antiguo :
    (l : Listas RegistroTlb) (s : Tlb) (ahora : ℕ) (r : RegistroTlb)
    → s.algo_tlb ≡ lru
    → 0 < s.tam_tlb
    → length s.tlb ≡ s.tam_tlb
    → (Recientes ahora s.tlb × ((insertar_en_tlb l s ahora r).tlb ≡ s.tlb ++ fechado ahora r ∷ []))
      ⊎ ((k : ℕ) × (v : RegistroTlb) × (get_elem? s.tlb k ≡ some v)
          × (v.last_access < ahora)
          × Recientes v.last_access s.tlb
          × ((insertar_en_tlb l s ahora r).tlb ≡ erase_idx s.tlb k ++ fechado ahora r ∷ []))
insertar_en_tlb-Antiguo l s ahora r e h llena =
    let nueva = ap (λ t. t.tlb) (insertar_lru-llena l s ahora r e h llena) in
    elim (get_index_for_lru-Antiguo ahora s.tlb) [
      | inl (i, m) ↦ inl (
        m,
        nueva
            ∙ ap (λ t. t ++ fechado ahora r ∷ [])
                (ap (l.list_remove s.tlb) i ∙ l.list_remove-negsuc s.tlb 0),
      )
      | inr (k, v, i, g, menor, m) ↦ inr (
        k,
        v,
        g,
        menor,
        m,
        nueva
            ∙ ap (λ t. t ++ fechado ahora r ∷ [])
                (ap (l.list_remove s.tlb) (i ∙ ap pos (omega arith)) ∙ l.list_remove-pos s.tlb k),
      )
    ]

desbordada :
    (l : Listas RegistroTlb) (s : Tlb) (ahora : ℕ) (r : RegistroTlb)
    → s.algo_tlb ≡ lru
    → s.tam_tlb < length s.tlb
    → insertar_en_tlb l s ahora r ≡ s
unfolding insertar_en_tlb insertar_segun insertar_lru
desbordada l s ahora r e h = elim (Bool-cases (ltb 0 s.tam_tlb)) [
  | inl hay ↦
      rw (hay, insertar_en_tlb)
        (subst (λ a. insertar_segun l a s ahora r ≡ s) (sym e)
          (rw (no_hay_lugar, distintas, insertar_lru) refl))
  | inr nada ↦ rw (nada, insertar_en_tlb) refl
]
  where
    no_hay_lugar : ltb (length s.tlb) s.tam_tlb ≡ false
    no_hay_lugar = ground arith

    distintas : (length s.tlb == s.tam_tlb) ≡ false
    distintas = ground arith

buscar_lru-nada :
    (tlb : List RegistroTlb) (i antes : ℕ) (index : ℤ)
    → Recientes antes tlb
    → buscar_lru tlb i antes index ≡ index
unfolding buscar_lru
buscar_lru-nada [] i antes index m = refl
buscar_lru-nada (x ∷ tlb) i antes index m =
    let viejo : ltb x.last_access antes ≡ false = ground (arith, m.0) in
    rw (viejo, buscar_lru) (buscar_lru-nada tlb (i + 1) antes index m.1)

insertar_lru-agrega :
    (l : Listas RegistroTlb) (s : Tlb) (ahora : ℕ) (r : RegistroTlb)
    → s.algo_tlb ≡ lru
    → 0 < s.tam_tlb
    → length s.tlb ≡ s.tam_tlb
    → Recientes ahora s.tlb
    → insertar_en_tlb l s ahora r ≡ record s { tlb = s.tlb ++ fechado ahora r ∷ [] }
unfolding get_index_for_lru
insertar_lru-agrega l s ahora r e h llena m =
    insertar_lru-llena l s ahora r e h llena
    ∙ ap (λ t. record s { tlb = t ++ fechado ahora r ∷ [] })
        (ap (l.list_remove s.tlb) (buscar_lru-nada s.tlb 0 ahora (negsuc 0) m)
          ∙ l.list_remove-negsuc s.tlb 0)

-- When every entry of a full buffer under LRU was used at the present time or later, an insertion
-- leaves one entry more than there is room for, and from then on no insertion changes anything.
pub insertar_en_tlb-desborda :
    (l : Listas RegistroTlb) (s : Tlb) (ahora : ℕ) (r : RegistroTlb)
    → s.algo_tlb ≡ lru
    → 0 < s.tam_tlb
    → length s.tlb ≡ s.tam_tlb
    → Recientes ahora s.tlb
    → (length (insertar_en_tlb l s ahora r).tlb ≡ suc s.tam_tlb)
      × ((despues : ℕ) (q : RegistroTlb)
          → insertar_en_tlb l (insertar_en_tlb l s ahora r) despues q ≡ insertar_en_tlb l s ahora r)
insertar_en_tlb-desborda l s ahora r e h llena m =
    let nueva = insertar_lru-agrega l s ahora r e h llena m in
    let sobra : length (s.tlb ++ fechado ahora r ∷ []) ≡ suc s.tam_tlb =
      omega (arith, length-append s.tlb (fechado ahora r ∷ [])) in
    subst
      (λ t.
        (length t.tlb ≡ suc s.tam_tlb)
        × ((despues : ℕ) (q : RegistroTlb) → insertar_en_tlb l t despues q ≡ t))
      (sym nueva) (sobra, λ despues q. desbordada l _ despues q e (omega (arith, sobra)))
