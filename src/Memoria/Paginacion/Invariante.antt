-- ===== src/Memoria/Paginacion/Invariante.antt =====
-- One step of the frames' invariant: a process takes a free frame, or gives one of its frames back.
use mathlib.Core.Path.{fun_ext}
use tp_sisop_1c.Prelude.{
  ℕ, ◌<◌, ◌≡◌, ◌≢◌, subst, ◌⊎◌, inl, inr, Bool, true, false, List, [], ◌∷◌, ◌++◌, Option, some,
  arith, All-append, ap, if◌then◌else◌, ◌==◌,
}
use native.Mathlib.Decide.{ℕ_discrete}
use tp_sisop_1c.Prelude.Int.{ℤ, pos, ◌+ℤ◌, ◌-ℤ◌}
use tp_sisop_1c.Memoria.Paginacion.Marcos.{
  Inv, Marca, Entrada, Usados, Distintos, Disjuntos, contar_libres, contar-set, contar-clean,
  Ajeno-libre, Usados-set, Usados-clean, Distintos-append, All-middle, Disjuntos-symm,
  Distintos-middle,
}

Entrada-cases :
    (p q : ℕ) (v : List ℕ) (t t' : ℕ → Option (List ℕ)) (ys : List ℕ)
    → Entrada p (some v) t t'
    → t' q ≡ some ys
    → ((p ≡ q) × (v ≡ ys)) ⊎ ((p ≢ q) × (t q ≡ some ys))
Entrada-cases p q v t t' ys e h = elim (ℕ_discrete p q) [
  | yes same ↦ inl (same, ground (arith, e q))
  | no other ↦ inr (other, ground (arith, e q))
]

-- The page table after a change of one entry, from what the others keep.
module _ (n : ℕ) (f g : ℕ → Bool) (l l' : ℤ) (t t' : ℕ → Option (List ℕ)) (p : ℕ)
    (ys : List ℕ) where
  pub Inv-Entrada :
      Inv n f l t
      → Entrada p (some ys) t t'
      → l' ≡ pos (contar_libres g n)
      → Usados n g ys
      → Distintos ys
      → ((q : ℕ) (zs : List ℕ) → p ≢ q → t q ≡ some zs → Usados n g zs × Disjuntos ys zs)
      → Inv n g l' t'
  Inv-Entrada i e c u d otros = record {
    cuenta = c;
    usados = λ q zs h. elim (Entrada-cases p q ys t t' zs e h) [
      | inl (_, same) ↦ subst (Usados n g) same u
      | inr (other, old) ↦ (otros q zs other old).0
    ];
    distintos = λ q zs h. elim (Entrada-cases p q ys t t' zs e h) [
      | inl (_, same) ↦ subst Distintos same d
      | inr (other, old) ↦ i.distintos q zs old
    ];
    disjuntos = λ q r xs zs ne hq hr. elim (Entrada-cases p q ys t t' xs e hq) [
      | inl (eq, same) ↦ elim (Entrada-cases p r ys t t' zs e hr) [
        | inl (eq', _) ↦ absurd (ne (omega arith))
        | inr (other, old) ↦ subst (λ w. Disjuntos w zs) same (otros r zs other old).1
      ]
      | inr (other, old) ↦ elim (Entrada-cases p r ys t t' zs e hr) [
        | inl (_, same) ↦ subst (Disjuntos xs) same (Disjuntos-symm ys xs (otros q xs other old).1)
        | inr (_, old') ↦ i.disjuntos q r xs zs ne old old'
      ]
    ];
  }

module _ (n : ℕ) (f g : ℕ → Bool) (l : ℤ) (t t' : ℕ → Option (List ℕ)) (p m : ℕ)
    (xs ys : List ℕ) where
  -- Process `p` takes the free frame `m` for its next page.
  pub Inv-ocupar :
      Inv n f l t
      → t p ≡ some xs
      → m < n
      → f m ≡ false
      → Marca n m true f g
      → Entrada p (some (xs ++ m ∷ [])) t t'
      → Inv n g (l -ℤ pos 1) t'
  unfolding ◌-ℤ◌
  Inv-ocupar i h lt libre marca entrada =
      Inv-Entrada n f g l _ t t' p (xs ++ m ∷ []) i entrada
        (ground (arith, i.cuenta, contar-set n m f g lt libre marca))
        (All-append _ xs (m ∷ []) (Usados-set n m f g xs marca (i.usados p xs h))
          ((lt, ground (arith, marca m lt)), tt))
        (Distintos-append m xs (i.distintos p xs h) (Ajeno-libre n m f xs libre (i.usados p xs h)))
        (λ q zs ne hq. (
          Usados-set n m f g zs marca (i.usados q zs hq),
          All-append _ xs (m ∷ []) (i.disjuntos p q xs zs ne h hq)
              (Ajeno-libre n m f zs libre (i.usados q zs hq), tt),
        ))

  -- Process `p` gives its frame `m` back.
  pub Inv-liberar :
      Inv n f l t
      → t p ≡ some (xs ++ m ∷ ys)
      → Marca n m false f g
      → Entrada p (some (xs ++ ys)) t t'
      → Inv n g (l +ℤ pos 1) t'
  unfolding ◌+ℤ◌
  Inv-liberar i h marca entrada =
      let ((lt, usado), u) = All-middle _ xs ys m (i.usados p _ h) in
      let (ajeno, d) = Distintos-middle xs ys m (i.distintos p _ h) in
      Inv-Entrada n f g l _ t t' p (xs ++ ys) i entrada
        (ground (arith, i.cuenta, contar-clean n m f g lt usado marca))
        (Usados-clean n m f g (xs ++ ys) marca ajeno u) d
        (λ q zs ne hq.
          let (am, dz) = All-middle _ xs ys m (i.disjuntos p q _ zs ne h hq) in
          (Usados-clean n m f g zs marca am (i.usados q zs hq), dz))

-- The page table with one entry changed.
abbrev pub con : (ℕ → Option (List ℕ)) → ℕ → List ℕ → ℕ → Option (List ℕ)
con t p xs q = if p == q then some xs else t q

pub con_self : (t : ℕ → Option (List ℕ)) (p : ℕ) (xs : List ℕ) → con t p xs p ≡ some xs
con_self t p xs = ground arith

pub con_twice :
    (t t' : ℕ → Option (List ℕ)) (p : ℕ) (xs ys : List ℕ)
    → Entrada p (some ys) t t'
    → Entrada p (some ys) (con t p xs) t'
con_twice t t' p xs ys h q = ground (arith, h q)

pub Entrada-same :
    (t t' : ℕ → Option (List ℕ)) (p : ℕ) (xs : List ℕ)
    → t p ≡ some xs
    → Entrada p (some xs) t t'
    → t ≡ t'
Entrada-same t t' p xs h e = fun_ext (λ q. go q)
  where
    go : (q : ℕ) → t q ≡ t' q
    go q = elim (ℕ_discrete p q) [
      | yes same ↦ ground (arith, e q, ap t same)
      | no other ↦ ground (arith, e q)
    ]
