-- ===== src/Memoria/Paginacion/Libre.antt =====
-- `obtener_marco_libre`: the search for a free frame finds the first one, and fails when none is left.
use tp_sisop_1c.Prelude.{
  ℕ, zero, suc, ◌+◌, ◌<◌, ◌≤◌, ◌≡◌, refl, inl, inr, Bool, true, false, Option, none, some, arith,
  Bool-cases, dec_lt, subst,
}
use tp_sisop_1c.Memoria.Paginacion.{buscar_marco}
use tp_sisop_1c.Memoria.Paginacion.Marcos.{contar_libres}

-- What the search from `i` over `n` bits may answer.
abbrev pub Hallado : (ℕ → Bool) → ℕ → ℕ → Option ℕ → Type 0
Hallado f i n none = (j : ℕ) → i ≤ j → j < i + n → f j ≡ true
Hallado f i n (some m) =
    (i ≤ m) × (m < i + n) × (f m ≡ false) × ((j : ℕ) → i ≤ j → j < m → f j ≡ true)

Hallado-suc :
    (f : ℕ → Bool) (i n : ℕ) (r : Option ℕ)
    → f i ≡ true
    → Hallado f (i + 1) n r
    → Hallado f i (suc n) r
Hallado-suc f i n none u h = λ j lo hi. elim (dec_lt i j) [
  | yes lt ↦ h j (omega arith) (omega arith)
  | no ge ↦ subst (λ k. f k ≡ true) (omega arith) u
]
Hallado-suc f i n (some m) u (lo, hi, free, before) = (
  omega arith,
  omega arith,
  free,
  λ j l k. elim (dec_lt i j) [
    | yes lt ↦ before j (omega arith) k
    | no ge ↦ subst (λ k. f k ≡ true) (omega arith) u
  ],
)

-- The search for a free frame answers the first free bit of the range, and fails only when every
-- bit is set.
pub buscar_marco-Hallado : (f : ℕ → Bool) (i n : ℕ) → Hallado f i n (buscar_marco f i n)
unfolding buscar_marco
buscar_marco-Hallado f i zero = λ j lo hi. absurd (omega arith)
buscar_marco-Hallado f i (suc n) = elim (Bool-cases (f i)) [
  | inl u ↦ rw (u, buscar_marco) (Hallado-suc f i n _ u (buscar_marco-Hallado f (i + 1) n))
  | inr u ↦ rw (u, buscar_marco) (omega arith, omega arith, u, λ j lo hi. absurd (omega arith))
]

contar_llenos : (f : ℕ → Bool) (n : ℕ) → ((j : ℕ) → j < n → f j ≡ true) → contar_libres f n ≡ 0
contar_llenos f zero h = refl
contar_llenos f (suc n) h =
    ground (arith, h n (omega arith), contar_llenos f n (λ j k. h j (omega arith)))

-- While a frame is free the search finds one.
pub buscar_marco_libre :
    (f : ℕ → Bool) (n : ℕ)
    → 0 < contar_libres f n
    → (m : ℕ) × (buscar_marco f 0 n ≡ some m) × (m < n) × (f m ≡ false)
buscar_marco_libre f n h = go (buscar_marco f 0 n) refl (buscar_marco-Hallado f 0 n)
  where
    go :
        (r : Option ℕ)
        → buscar_marco f 0 n ≡ r
        → Hallado f 0 n r
        → (m : ℕ) × (buscar_marco f 0 n ≡ some m) × (m < n) × (f m ≡ false)
    go none e full =
        absurd (omega (arith, contar_llenos f n (λ j k. full j (omega arith) (omega arith))))
    go (some m) e (lo, hi, free, before) = (m, e, omega arith, free)
