-- ===== src/Commons/Ejemplo.antt =====
-- Bitarrays and dictionaries as functions: values of the interfaces, for the examples.
use tp_sisop_1c.Prelude.Int.{ℤ, pos, negsuc}
use tp_sisop_1c.Prelude.{
  refl, true, false, some, none, ℕ, if◌then◌else◌, Bool, Option, ◌==◌, zero, suc, [], ◌++◌, ◌<◌,
  ◌∷◌, ◌≡◌, ◌≤◌, List, erase_idx, length, take, arith, drop, ap,
}
use tp_sisop_1c.Commons.{Bitarray, Dictionary, Listas, TextDictionary, igual_texto}

pub record Campo : Type 0 where
  pub bytes : ℕ
  pub bit : ℕ → Bool

abbrev pub bits_ejemplo : Bitarray
bits_ejemplo = record {
  Bits = Campo;
  size = λ b. b.bytes;
  create = λ n. record { bytes = n; bit = λ _. false };
  test_bit = λ b. b.bit;
  set_bit = λ b i. record b { bit = λ j. if i == j then true else b.bit j };
  clean_bit = λ b i. record b { bit = λ j. if i == j then false else b.bit j };
  size-create = λ n. refl;
  test_bit-create = λ n i _. refl;
  size-set_bit = λ b i. refl;
  size-clean_bit = λ b i. refl;
  test_bit-set_bit = λ b i j _ _. refl;
  test_bit-clean_bit = λ b i j _ _. refl;
}

abbrev pub diccionario_ejemplo : (V : Type 0) → Dictionary V
diccionario_ejemplo V = record {
  Dict = ℕ → Option V;
  create = λ _. none;
  get = λ d k. d k;
  put = λ d k v j. if k == j then some v else d j;
  remove = λ d k j. if k == j then none else d j;
  get-create = λ k. refl;
  get-put = λ d k j v. refl;
  get-remove = λ d k j. refl;
}

abbrev pub textos_ejemplo : (V : Type 0) → TextDictionary V
textos_ejemplo V = record {
  Dict = List ℕ → Option V;
  create = λ _. none;
  get = λ d k. d k;
  put = λ d k v j. if igual_texto k j then some v else d j;
  get-create = λ k. refl;
  get-put = λ d k j v. refl;
}

abbrev pub agregar {ℓ} : {A : Type ℓ} → List A → ℕ → A → List A
agregar xs zero x = x ∷ xs
agregar [] (suc i) x = []
agregar (y ∷ xs) (suc i) x = y ∷ agregar xs i x

pub agregar-dentro {ℓ} :
    {A : Type ℓ} (xs : List A) (i : ℕ) (x : A)
    → i ≤ length xs
    → agregar xs i x ≡ take i xs ++ x ∷ drop i xs
agregar-dentro xs zero x h = refl
agregar-dentro [] (suc i) x h = absurd (omega arith)
agregar-dentro (y ∷ xs) (suc i) x h = ap (λ t. y ∷ t) (agregar-dentro xs i x (omega arith))

pub agregar-fuera {ℓ} :
    {A : Type ℓ} (xs : List A) (i : ℕ) (x : A) → length xs < i → agregar xs i x ≡ xs
agregar-fuera xs zero x h = absurd (omega arith)
agregar-fuera [] (suc i) x h = refl
agregar-fuera (y ∷ xs) (suc i) x h = ap (λ t. y ∷ t) (agregar-fuera xs i x (omega arith))

abbrev pub quitar {ℓ} : {A : Type ℓ} → List A → ℤ → List A
quitar xs (pos i) = erase_idx xs i
quitar xs (negsuc i) = xs

abbrev pub listas_ejemplo : (A : Type 0) → Listas A
listas_ejemplo A = record {
  list_remove = quitar;
  list_add_in_index = agregar;
  list_remove-pos = λ xs i. refl;
  list_remove-negsuc = λ xs i. refl;
  list_add_in_index-dentro = agregar-dentro;
  list_add_in_index-fuera = agregar-fuera;
}
