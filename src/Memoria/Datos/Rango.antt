-- ===== src/Memoria/Datos/Rango.antt =====
-- The bytes of a process in the order of its own addresses, and ranges of bytes.
use Prim.Native.Nat.add
use mathlib.Core.Path.{ap₂}
use tp_sisop_1c.Prelude.{
  zero, suc, refl, [], some, ◌%◌, ◌*◌, ◌++◌, ◌+◌, ◌/◌, ◌<◌, ◌∙◌, ◌∷◌, ◌≡◌, List, ℕ, arith, get_or,
  get_elem?, length, ap, sym, ◌≤◌, dec_lt,
}
use native.Mathlib.Nat.{
  mul-add-div_right, div-eq_of_lt, mul-add-mod_self_right, mod-eq_of_lt, mul-le-mul_right,
}
use tp_sisop_1c.Memoria.Datos.{obtener_datos_contiguos_de_memoria as rango}

-- The byte at address `a` of a process whose pages lie in the frames `paginas`.
abbrev pub byte_logico : (ℕ → ℕ) → ℕ → List ℕ → ℕ → ℕ
byte_logico m tam paginas a = m (get_or paginas (a / tam) 0 * tam + a % tam)

pub div_pagina : (k tam off : ℕ) → off < tam → (k * tam + off) / tam ≡ k
div_pagina k tam off h = mul-add-div_right (omega arith) k off ∙ omega (arith, div-eq_of_lt h)

pub mod_pagina : (k tam off : ℕ) → off < tam → (k * tam + off) % tam ≡ off
mod_pagina k tam off h = mul-add-mod_self_right k tam off ∙ mod-eq_of_lt h

pub get_or-some : (xs : List ℕ) (k x : ℕ) → get_elem? xs k ≡ some x → get_or xs k 0 ≡ x
get_or-some [] k x h = cc
get_or-some (y ∷ xs) zero x h = cc
get_or-some (y ∷ xs) (suc k) x h = get_or-some xs k x h

pub byte_pagina :
    (m : ℕ → ℕ) (tam k off x : ℕ) (paginas : List ℕ)
    → off < tam
    → get_elem? paginas k ≡ some x
    → byte_logico m tam paginas (k * tam + off) ≡ m (x * tam + off)
byte_pagina m tam k off x paginas h e =
    rw (div_pagina k tam off h, mod_pagina k tam off h, get_or-some paginas k x e)

pub rango-congr :
    (n : ℕ) (f g : ℕ → ℕ) (a b : ℕ)
    → ((i : ℕ) → i < n → f (a + i) ≡ g (b + i))
    → rango f a n ≡ rango g b n
unfolding rango
rango-congr zero f g a b h = refl
rango-congr (suc n) f g a b h =
    ap₂ ◌∷◌ (ap f (omega arith) ∙ h 0 (omega arith) ∙ ap g (omega arith)) (
      rango-congr n f g (a + 1) (b + 1)
        λ i hi. ap f (omega arith) ∙ h (suc i) (omega arith) ∙ ap g (omega arith))

pub rango-append :
    (n k : ℕ) (f : ℕ → ℕ) (a : ℕ) → rango f a n ++ rango f (a + n) k ≡ rango f a (n + k)
unfolding rango
rango-append zero k f a = ap₂ (rango f) (omega arith) (omega arith)
rango-append (suc n) k f a =
    ap (◌∷◌ (f a))
      (ap (λ (b : ℕ). rango f (a + 1) n ++ rango f b k) (omega arith) ∙ rango-append n k f (a + 1))
    ∙ ap (rango f a) (sym (add.suc n k))

-- A range of equal bytes is the list of them.
pub rango-datos :
    (datos : List ℕ) (f : ℕ → ℕ) (a : ℕ)
    → ((i : ℕ) → i < length datos → f (a + i) ≡ get_or datos i 0)
    → rango f a (length datos) ≡ datos
unfolding rango
rango-datos [] f a h = refl
rango-datos (x ∷ datos) f a h =
    ap₂ ◌∷◌ (ap f (omega arith) ∙ h 0 (omega arith))
      (rango-datos datos f (a + 1) λ i hi. ap f (omega arith) ∙ h (suc i) (omega arith))

-- More bytes than a page holds reach into the next page.
pub pagina_lt : (k n len tam : ℕ) → k * tam + n ≤ len * tam → tam < n → k + 1 < len
pagina_lt k n len tam fits lt = elim (dec_lt (k + 1) len) [
  | yes h ↦ h
  | no h ↦ let le : len ≤ k + 1 = omega arith in absurd (omega (arith, mul-le-mul_right tam le))
]

pub get_elem?-rango :
    (n : ℕ) (f : ℕ → ℕ) (a i : ℕ) → i < n → get_elem? (rango f a n) i ≡ some (f (a + i))
unfolding rango
get_elem?-rango zero f a i h = absurd (omega arith)
get_elem?-rango (suc n) f a zero h = ap (λ (b : ℕ). some (f b)) (omega arith)
get_elem?-rango (suc n) f a (suc i) h =
    get_elem?-rango n f (a + 1) i (omega arith) ∙ ap (λ (b : ℕ). some (f b)) (omega arith)
