-- ===== src/Memoria/Paginacion/Marcos.antt =====
-- The frames of the memory seen from outside the bitmap: which are used, how many are free, and
-- which process holds which. The invariant speaks of a test on frames, a count and a page table.
use tp_sisop_1c.Prelude.{
  ℕ, zero, suc, ◌+◌, ◌<◌, ◌≡◌, ◌≢◌, refl, sym, Bool, true, false, List, [], ◌∷◌, ◌++◌, Option, some,
  if◌then◌else◌, ◌==◌, arith, All, All-append,
}
use native.Mathlib.Decide.{dec_lt}
use tp_sisop_1c.Prelude.Int.{ℤ, pos}

-- The frames below `n` that the test says are not used.
abbrev pub contar_libres : (ℕ → Bool) → ℕ → ℕ
contar_libres ocupado zero = 0
contar_libres ocupado (suc n) = (if ocupado n then 0 else 1) + contar_libres ocupado n

abbrev pub Ajeno : ℕ → List ℕ → Type 0
Ajeno m = All (λ x. x ≢ m)

abbrev pub Distintos : List ℕ → Type 0
Distintos [] = Unit
Distintos (x ∷ xs) = Ajeno x xs × Distintos xs

abbrev pub Disjuntos : List ℕ → List ℕ → Type 0
Disjuntos xs ys = All (λ x. Ajeno x ys) xs

-- Every entry is a frame of the memory that is marked as used.
abbrev pub Usados : ℕ → (ℕ → Bool) → List ℕ → Type 0
Usados n ocupado = All (λ x. (x < n) × (ocupado x ≡ true))

-- `n` frames, the test of the bitmap, the count of free frames, and the page table.
pub record Inv (n : ℕ) (ocupado : ℕ → Bool) (libres : ℤ) (tabla : ℕ → Option (List ℕ))
    : Type 0 where
  pub cuenta : libres ≡ pos (contar_libres ocupado n)
  pub usados : (p : ℕ) (xs : List ℕ) → tabla p ≡ some xs → Usados n ocupado xs
  pub distintos : (p : ℕ) (xs : List ℕ) → tabla p ≡ some xs → Distintos xs
  pub disjuntos :
      (p q : ℕ) (xs ys : List ℕ) → p ≢ q → tabla p ≡ some xs → tabla q ≡ some ys → Disjuntos xs ys

-- `nuevo` is `viejo` with the bit of `m` changed to `b`.
abbrev pub Marca : ℕ → ℕ → Bool → (ℕ → Bool) → (ℕ → Bool) → Type 0
Marca n m b viejo nuevo = (j : ℕ) → j < n → nuevo j ≡ (if m == j then b else viejo j)

-- `nueva` is `vieja` with the entry of `p` changed to `v`.
abbrev pub Entrada : ℕ → Option (List ℕ) → (ℕ → Option (List ℕ)) → (ℕ → Option (List ℕ)) → Type 0
Entrada p v vieja nueva = (q : ℕ) → nueva q ≡ (if p == q then v else vieja q)

contar-congr :
    (n : ℕ) (f g : ℕ → Bool) → ((j : ℕ) → j < n → g j ≡ f j) → contar_libres g n ≡ contar_libres f n
contar-congr zero f g e = refl
contar-congr (suc n) f g e =
    ground (arith, e n (omega arith), contar-congr n f g (λ j hj. e j (omega arith)))

-- Setting a free frame takes one from the count, and cleaning a used one adds one.
pub contar-set :
    (n m : ℕ) (f g : ℕ → Bool)
    → m < n
    → f m ≡ false
    → Marca n m true f g
    → contar_libres f n ≡ suc (contar_libres g n)
contar-set zero m f g h u e = absurd (omega arith)
contar-set (suc n) m f g h u e = elim (dec_lt m n) [
  | yes lt ↦ ground (arith, e n (omega arith), contar-set n m f g lt u (λ j hj. e j (omega arith)))
  | no ge ↦ ground (arith, e n (omega arith), contar-congr n f g (λ j hj. ground (arith, e j)))
]

pub contar-clean :
    (n m : ℕ) (f g : ℕ → Bool)
    → m < n
    → f m ≡ true
    → Marca n m false f g
    → contar_libres g n ≡ suc (contar_libres f n)
contar-clean zero m f g h u e = absurd (omega arith)
contar-clean (suc n) m f g h u e = elim (dec_lt m n) [
  | yes lt ↦
      ground (arith, e n (omega arith), contar-clean n m f g lt u (λ j hj. e j (omega arith)))
  | no ge ↦ ground (arith, e n (omega arith), contar-congr n f g (λ j hj. ground (arith, e j)))
]

pub Ajeno-libre : (n m : ℕ) (f : ℕ → Bool) (xs : List ℕ) → f m ≡ false → Usados n f xs → Ajeno m xs
Ajeno-libre n m f [] u h = tt
Ajeno-libre n m f (x ∷ xs) u h = ((λ e. cc (h.0.1)), Ajeno-libre n m f xs u h.1)

pub Usados-set :
    (n m : ℕ) (f g : ℕ → Bool) (xs : List ℕ) → Marca n m true f g → Usados n f xs → Usados n g xs
Usados-set n m f g [] e h = tt
Usados-set n m f g (x ∷ xs) e h = (ground (arith, e x), Usados-set n m f g xs e h.1)

pub Usados-clean :
    (n m : ℕ) (f g : ℕ → Bool) (xs : List ℕ)
    → Marca n m false f g
    → Ajeno m xs
    → Usados n f xs
    → Usados n g xs
Usados-clean n m f g [] e a h = tt
Usados-clean n m f g (x ∷ xs) e a h = (ground (arith, e x), Usados-clean n m f g xs e a.1 h.1)

pub Distintos-append : (m : ℕ) (xs : List ℕ) → Distintos xs → Ajeno m xs → Distintos (xs ++ m ∷ [])
Distintos-append m [] d a = (tt, tt)
Distintos-append m (x ∷ xs) d a =
    (All-append _ xs (m ∷ []) d.0 ((λ e. a.0 (ground arith)), tt), Distintos-append m xs d.1 a.1)

pub All-middle {κ} :
    (P : ℕ → Type κ) (xs ys : List ℕ) (m : ℕ) → All P (xs ++ m ∷ ys) → P m × All P (xs ++ ys)
All-middle P [] ys m h = h
All-middle P (x ∷ xs) ys m h = let (hm, rest) = All-middle P xs ys m h.1 in (hm, (h.0, rest))

pub All-map {κ κ'} :
    (P : ℕ → Type κ) (Q : ℕ → Type κ') (xs : List ℕ) → ((x : ℕ) → P x → Q x) → All P xs → All Q xs
All-map P Q [] f h = tt
All-map P Q (x ∷ xs) f h = (f x h.0, All-map P Q xs f h.1)

pub Disjuntos-symm : (xs ys : List ℕ) → Disjuntos xs ys → Disjuntos ys xs
Disjuntos-symm xs [] d = tt
Disjuntos-symm xs (y ∷ ys) d = (
  All-map (λ x. Ajeno x (y ∷ ys)) (λ x. x ≢ y) xs (λ x a e. a.0 (sym e)) d,
  Disjuntos-symm xs ys (All-map (λ x. Ajeno x (y ∷ ys)) (λ x. Ajeno x ys) xs (λ x a. a.1) d),
)

pub Distintos-middle :
    (xs ys : List ℕ) (m : ℕ) → Distintos (xs ++ m ∷ ys) → Ajeno m (xs ++ ys) × Distintos (xs ++ ys)
Distintos-middle [] ys m d = d
Distintos-middle (x ∷ xs) ys m d =
    let (a, r) = Distintos-middle xs ys m d.1 in
    let (ne, rest) = All-middle (λ y. y ≢ x) xs ys m d.0 in (((λ e. ne (sym e)), a), (rest, r))
