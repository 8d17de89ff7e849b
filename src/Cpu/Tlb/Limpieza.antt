-- ===== src/Cpu/Tlb/Limpieza.antt =====
-- What `limpiar_tlb` leaves: the scan does not look at index 0 again after it has removed an entry.
use tp_sisop_1c.Prelude.{
  suc, refl, [], some, none, inl, inr, ◌+◌, ◌∷◌, ◌≡◌, ℕ, List, if◌then◌else◌, Option, Bool-cases,
  ◌==◌, erase_idx, length, arith, zero, ◌≤◌, false, ◌∙◌, ap, sym, true,
}
use tp_sisop_1c.Cpu.Tlb.{
  Tlb, RegistroTlb, primera_de, limpiar_desde, limpiar_tlb, obtener_marco_en_tlb, buscar_entrada,
  es_entrada,
}

-- The entries of the other processes.
unfoldable pub sin : ℕ → List RegistroTlb → List RegistroTlb
sin pid [] = []
sin pid (r ∷ tlb) = if r.pid == pid then sin pid tlb else r ∷ sin pid tlb

-- What the scan found: nothing of the process, or an entry whose removal is progress.
abbrev Primera : ℕ → ℕ → List RegistroTlb → Option ℕ → Type 0
Primera pid j tlb none = sin pid tlb ≡ tlb
Primera pid j tlb (some k) =
    (i : ℕ) × (k ≡ j + i)
    × (sin pid (erase_idx tlb i) ≡ sin pid tlb)
    × (length tlb ≡ suc (length (erase_idx tlb i)))

Primera-otro :
    (pid j : ℕ) (r : RegistroTlb) (tlb : List RegistroTlb) (o : Option ℕ)
    → (r.pid == pid) ≡ false
    → Primera pid (j + 1) tlb o
    → Primera pid j (r ∷ tlb) o
unfolding sin
Primera-otro pid j r tlb none other h = rw (other, h) refl
Primera-otro pid j r tlb (some k) other (i, e, s, l) =
    (suc i, omega arith, rw (other, s) refl, omega arith)

primera_de-Primera :
    (pid j : ℕ) (tlb : List RegistroTlb) → Primera pid j tlb (primera_de pid 0 j tlb)
unfolding primera_de sin
primera_de-Primera pid j [] = refl
primera_de-Primera pid j (r ∷ tlb) = elim (Bool-cases (r.pid == pid)) [
  | inl hit ↦ rw (hit, primera_de) (0, omega arith, rw hit refl, refl)
  | inr other ↦
      rw (other, primera_de) (Primera-otro pid j r tlb _ other (primera_de-Primera pid (j + 1) tlb))
]

limpiar_desde-nada :
    (fuel pid i : ℕ) (tlb : List RegistroTlb)
    → primera_de pid i 0 tlb ≡ none
    → limpiar_desde fuel pid i tlb ≡ tlb
unfolding limpiar_desde
limpiar_desde-nada zero pid i tlb h = refl
limpiar_desde-nada (suc fuel) pid i tlb h = rw (h, limpiar_desde) refl

limpiar_desde-quita :
    (fuel pid i j : ℕ) (tlb : List RegistroTlb)
    → primera_de pid i 0 tlb ≡ some j
    → limpiar_desde (suc fuel) pid i tlb ≡ limpiar_desde fuel pid 1 (erase_idx tlb j)
unfolding limpiar_desde
limpiar_desde-quita fuel pid i j tlb h = rw (h, limpiar_desde) refl

limpiar_desde-paso :
    (fuel pid : ℕ) (x : RegistroTlb) (tlb : List RegistroTlb) (o : Option ℕ)
    → primera_de pid 0 1 tlb ≡ o
    → Primera pid 1 tlb o
    → length tlb ≤ suc fuel
    → ((resto : List RegistroTlb)
        → length resto ≤ fuel
        → limpiar_desde fuel pid 1 (x ∷ resto) ≡ x ∷ sin pid resto)
    → limpiar_desde (suc fuel) pid 1 (x ∷ tlb) ≡ x ∷ sin pid tlb
unfolding limpiar_desde primera_de
limpiar_desde-paso fuel pid x tlb none e p h rec =
    limpiar_desde-nada (suc fuel) pid 1 (x ∷ tlb) e ∙ ap (λ t. x ∷ t) (sym p)
limpiar_desde-paso fuel pid x tlb (some k) e (i, q, s, l) h rec =
    limpiar_desde-quita fuel pid 1 (suc i) (x ∷ tlb) (e ∙ ap some (q ∙ omega arith))
    ∙ rec (erase_idx tlb i) (omega arith)
    ∙ ap (λ t. x ∷ t) s

-- From index 1 on every entry of the process goes.
limpiar_desde-uno :
    (fuel pid : ℕ) (x : RegistroTlb) (tlb : List RegistroTlb)
    → length tlb ≤ fuel
    → limpiar_desde fuel pid 1 (x ∷ tlb) ≡ x ∷ sin pid tlb
unfolding limpiar_desde sin
limpiar_desde-uno zero pid x [] h = refl
limpiar_desde-uno zero pid x (y ∷ tlb) h = absurd (omega arith)
limpiar_desde-uno (suc fuel) pid x tlb h =
    limpiar_desde-paso fuel pid x tlb (primera_de pid 0 1 tlb) refl (primera_de-Primera pid 1 tlb) h
      (λ resto. limpiar_desde-uno fuel pid x resto)

limpiar_desde-igual :
    (fuel pid i i' : ℕ) (tlb : List RegistroTlb) (o : Option ℕ)
    → primera_de pid i 0 tlb ≡ o
    → primera_de pid i' 0 tlb ≡ o
    → limpiar_desde (suc fuel) pid i tlb ≡ limpiar_desde (suc fuel) pid i' tlb
limpiar_desde-igual fuel pid i i' tlb none e e' =
    limpiar_desde-nada (suc fuel) pid i tlb e ∙ sym (limpiar_desde-nada (suc fuel) pid i' tlb e')
limpiar_desde-igual fuel pid i i' tlb (some j) e e' =
    limpiar_desde-quita fuel pid i j tlb e ∙ sym (limpiar_desde-quita fuel pid i' j tlb e')

limpiar_desde-otro :
    (fuel pid : ℕ) (x : RegistroTlb) (tlb : List RegistroTlb)
    → length tlb ≤ fuel
    → (x.pid == pid) ≡ false
    → limpiar_desde (suc fuel) pid 0 (x ∷ tlb) ≡ x ∷ sin pid tlb
unfolding limpiar_desde primera_de
limpiar_desde-otro fuel pid x tlb h other =
    limpiar_desde-igual fuel pid 0 1 (x ∷ tlb) _ (rw (other, primera_de) refl) refl
    ∙ limpiar_desde-uno (suc fuel) pid x tlb (omega arith)

-- What `limpiar_tlb` means for the entries: those of the process go, but when the first one is of the
-- process, the one behind it is kept whatever it is.
abbrev pub limpios : ℕ → List RegistroTlb → List RegistroTlb
limpios pid [] = []
limpios pid (x ∷ []) = sin pid (x ∷ [])
limpios pid (x ∷ y ∷ tlb) = if x.pid == pid then y ∷ sin pid tlb else x ∷ sin pid (y ∷ tlb)

limpiar_desde-limpios :
    (pid : ℕ) (tlb : List RegistroTlb) → limpiar_desde (length tlb) pid 0 tlb ≡ limpios pid tlb
unfolding limpiar_desde primera_de sin
limpiar_desde-limpios pid [] = refl
limpiar_desde-limpios pid (x ∷ []) = ground arith
limpiar_desde-limpios pid (x ∷ y ∷ tlb) = elim (Bool-cases (x.pid == pid)) [
  | inl hit ↦
      limpiar_desde-quita (suc (length tlb)) pid 0 0 (x ∷ y ∷ tlb) (rw (hit, primera_de) refl)
      ∙ limpiar_desde-uno (suc (length tlb)) pid y tlb (omega arith)
      ∙ rw (hit, limpios) refl
  | inr other ↦
      limpiar_desde-otro (suc (length tlb)) pid x (y ∷ tlb) (omega arith) other
      ∙ rw (other, limpios) refl
]

-- Cleaning removes the entries of the process and no other, except that when the first entry is of
-- the process the one behind it stays, whatever it is.
pub limpiar_tlb_lem : (s : Tlb) (pid : ℕ) → (limpiar_tlb s pid).tlb ≡ limpios pid s.tlb
unfolding limpiar_tlb
limpiar_tlb_lem s pid = limpiar_desde-limpios pid s.tlb

-- When the first two entries are of the process, cleaning leaves the second: a search for its page
-- still answers its frame.
pub limpiar_tlb-queda :
    (s : Tlb) (ahora pid : ℕ) (x y : RegistroTlb) (tlb : List RegistroTlb)
    → s.tlb ≡ x ∷ y ∷ tlb
    → x.pid ≡ pid
    → y.pid ≡ pid
    → (obtener_marco_en_tlb (limpiar_tlb s pid) ahora pid y.pagina).0 ≡ y.marco
unfolding obtener_marco_en_tlb buscar_entrada limpiar_tlb
limpiar_tlb-queda s ahora pid x y tlb e p q =
    let hit : es_entrada pid y.pagina y ≡ true = ground arith in
    let primera : (x.pid == pid) ≡ true = ground arith in
    let quedan : limpios pid (x ∷ y ∷ tlb) ≡ y ∷ sin pid tlb = rw primera refl in
    ap (λ t. (buscar_entrada s.algo_tlb ahora pid y.pagina t).0)
      (limpiar_desde-limpios pid s.tlb ∙ ap (limpios pid) e ∙ quedan)
    ∙ rw (hit, buscar_entrada) refl
