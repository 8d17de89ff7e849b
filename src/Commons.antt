-- ===== src/Commons.antt =====
-- The parts of so-commons-library that the modules call, as interfaces: the library is not in the
-- repository, so its documented behaviour is what the fields state. `t_list` and `t_queue` are lists.
pub mod Ejemplo
use tp_sisop_1c.Prelude.Int.{ℤ, pos, negsuc}
use tp_sisop_1c.Prelude.{
  ℕ, ◌*◌, ◌<◌, ◌≡◌, Bool, true, false, Option, none, some, if◌then◌else◌, ◌==◌, zero, ◌++◌, ◌∷◌,
  ◌≤◌, List, erase_idx, length, take, drop, [],
}

-- commons/bitarray.h. `size` is the number of bytes, so bits below `8 * size` may be accessed.
pub record Bitarray : Type 1 where
  pub Bits : Type 0
  pub size : Bits → ℕ
  -- Over `n` bytes that are zero.
  pub create : ℕ → Bits
  pub test_bit : Bits → ℕ → Bool
  pub set_bit : Bits → ℕ → Bits
  pub clean_bit : Bits → ℕ → Bits
  pub size-create : (n : ℕ) → size (create n) ≡ n
  pub test_bit-create : (n i : ℕ) → i < 8 * n → test_bit (create n) i ≡ false
  pub size-set_bit : (b : Bits) (i : ℕ) → size (set_bit b i) ≡ size b
  pub size-clean_bit : (b : Bits) (i : ℕ) → size (clean_bit b i) ≡ size b
  pub test_bit-set_bit :
      (b : Bits) (i j : ℕ)
      → i < 8 * size b
      → j < 8 * size b
      → test_bit (set_bit b i) j ≡ (if i == j then true else test_bit b j)
  pub test_bit-clean_bit :
      (b : Bits) (i j : ℕ)
      → i < 8 * size b
      → j < 8 * size b
      → test_bit (clean_bit b i) j ≡ (if i == j then false else test_bit b j)

-- commons/collections/dictionary.h, with values of type `V`. A key is the pid whose decimal text
-- the code passes.
pub record Dictionary (V : Type 0) : Type 1 where
  pub Dict : Type 0
  pub create : Dict
  pub get : Dict → ℕ → Option V
  pub put : Dict → ℕ → V → Dict
  pub remove : Dict → ℕ → Dict
  pub get-create : (k : ℕ) → get create k ≡ none
  pub get-put :
      (d : Dict) (k j : ℕ) (v : V) → get (put d k v) j ≡ (if k == j then some v else get d j)
  pub get-remove : (d : Dict) (k j : ℕ) → get (remove d k) j ≡ (if k == j then none else get d j)

-- The two operations of commons/collections/list.h that take any index. Nothing happens at an index
-- that is not in the list.
pub record Listas (A : Type 0) : Type 0 where
  pub list_remove : List A → ℤ → List A
  pub list_add_in_index : List A → ℕ → A → List A
  pub list_remove-pos : (xs : List A) (i : ℕ) → list_remove xs (pos i) ≡ erase_idx xs i
  pub list_remove-negsuc : (xs : List A) (i : ℕ) → list_remove xs (negsuc i) ≡ xs
  pub list_add_in_index-dentro :
      (xs : List A) (i : ℕ) (x : A)
      → i ≤ length xs
      → list_add_in_index xs i x ≡ take i xs ++ x ∷ drop i xs
  pub list_add_in_index-fuera :
      (xs : List A) (i : ℕ) (x : A) → length xs < i → list_add_in_index xs i x ≡ xs

-- strcmp(a, b) == 0, on texts as lists of bytes.
unfoldable pub igual_texto : List ℕ → List ℕ → Bool
igual_texto [] [] = true
igual_texto [] (_ ∷ _) = false
igual_texto (_ ∷ _) [] = false
igual_texto (x ∷ xs) (y ∷ ys) = if x == y then igual_texto xs ys else false

-- commons/collections/dictionary.h again, with any text as the key.
pub record TextDictionary (V : Type 0) : Type 1 where
  pub Dict : Type 0
  pub create : Dict
  pub get : Dict → List ℕ → Option V
  pub put : Dict → List ℕ → V → Dict
  pub get-create : (k : List ℕ) → get create k ≡ none
  pub get-put :
      (d : Dict) (k j : List ℕ) (v : V)
      → get (put d k v) j ≡ (if igual_texto k j then some v else get d j)
