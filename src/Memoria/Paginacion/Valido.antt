-- ===== src/Memoria/Paginacion/Valido.antt =====
-- When the state of the memory module is well formed, and that it starts so.
use Prim.Native.Nat.{zero, suc}
use native.Mathlib.Nat.{div-add-mod, mod-lt}
use mathlib.Core.Path.{refl}
use tp_sisop_1c.Prelude.{
  none, some, inl, inr, ◌⊎◌, ◌==◌, Bool-cases, ℕ, ◌+◌, ◌*◌, ◌≤◌, ◌<◌, ◌≡◌, ◌/◌, sym, ap, arith,
  false,
}
use tp_sisop_1c.Prelude.Int.{pos}
use tp_sisop_1c.Memoria.{Entorno, Memoria, Config, crear_estructuras_memoria, con_estructuras}
use tp_sisop_1c.Memoria.Paginacion.{cantidad_paginas, Bool}
use tp_sisop_1c.Memoria.Paginacion.Marcos.{contar_libres}
use tp_sisop_1c.Memoria.Paginacion.Bucles.{Marcos}

-- The pages asked for hold the bytes and one less would not, when pages are not empty.
pub cantidad_paginas_bounds :
    (bytes tam : ℕ)
    → 0 < tam
    → (bytes ≤ cantidad_paginas bytes tam * tam) × (cantidad_paginas bytes tam * tam < bytes + tam)
unfolding cantidad_paginas
cantidad_paginas_bounds bytes tam h = grind (arith, div-add-mod bytes tam, mod-lt)

contar_vacios : (f : ℕ → Bool) (n : ℕ) → ((j : ℕ) → j < n → f j ≡ false) → contar_libres f n ≡ n
contar_vacios f zero h = refl
contar_vacios f (suc n) h =
    ground (arith, h n (omega arith), contar_vacios f n (λ j k. h j (omega arith)))

module _ (e : Entorno) where
  open e use {bits.{size, test_bit, size-create, test_bit-create}, paginas}
  open paginas use {get, put, get-create, get-put, get-remove}

  -- The count of free frames is that of the bitmap, every page of a process lies in a used frame,
  -- and no frame belongs to two pages.
  pub record IsValid (s : Memoria e) : Type 0 where
    pub marcos : Marcos e s (get s.tabla_de_paginas)
    pub capacidad : size s.marcos ≡ s.cantidad_de_paginas

  pub con_estructuras-IsValid :
      (c : Config) (bytes : ℕ → ℕ) (n : ℕ) → IsValid (con_estructuras e c bytes n)
  unfolding con_estructuras
  con_estructuras-IsValid c bytes n = record {
    marcos = record {
      cuenta =
          ap pos
            (sym (rw size-create (contar_vacios _ n (λ j h. test_bit-create n j (omega arith)))));
      usados = λ p xs h. cc (get-create p);
      distintos = λ p xs h. cc (get-create p);
      disjuntos = λ p q xs ys ne h. cc (get-create p);
    };
    capacidad = size-create n;
  }

  -- What the set-up leaves: as many whole frames as the memory holds, all of them free, and no
  -- process.
  pub record Creadas (c : Config) (bytes : ℕ → ℕ) (s : Memoria e) : Type 0 where
    pub config : s.config ≡ c
    pub memoria : s.memoria ≡ bytes
    pub caben : s.cantidad_de_paginas * c.tam_pagina ≤ c.tam_memoria
    pub no_caben_mas : c.tam_memoria < (s.cantidad_de_paginas + 1) * c.tam_pagina
    pub libres : (j : ℕ) → j < s.cantidad_de_paginas → test_bit s.marcos j ≡ false
    pub sin_procesos : (q : ℕ) → get s.tabla_de_paginas q ≡ none
    pub valid : IsValid s

  con_estructuras-Creadas :
      (c : Config) (bytes : ℕ → ℕ)
      → 0 < c.tam_pagina
      → Creadas c bytes (con_estructuras e c bytes (c.tam_memoria / c.tam_pagina))
  unfolding con_estructuras
  con_estructuras-Creadas c bytes h =
      let n = c.tam_memoria / c.tam_pagina in
      record {
        config = refl;
        memoria = refl;
        caben = grind (arith, div-add-mod c.tam_memoria c.tam_pagina, mod-lt);
        no_caben_mas = grind (arith, div-add-mod c.tam_memoria c.tam_pagina, mod-lt);
        libres = λ j k. test_bit-create n j (omega arith);
        sin_procesos = λ q. get-create q;
        valid = con_estructuras-IsValid c bytes n;
      }

  -- The set-up faults when the size of a page is zero; otherwise it ends in a well-formed state
  -- with as many frames as whole pages fit in the memory, each of them free, without processes,
  -- and with the bytes as the memory happens to hold them.
  pub crear_estructuras-IsValid :
      (c : Config) (bytes : ℕ → ℕ)
      → ((c.tam_pagina ≡ 0) × (crear_estructuras_memoria e c bytes ≡ none))
        ⊎ ((s : Memoria e) × (crear_estructuras_memoria e c bytes ≡ some s) × Creadas c bytes s)
  unfolding crear_estructuras_memoria
  crear_estructuras-IsValid c bytes = elim (Bool-cases (c.tam_pagina == 0)) [
    | inl cero ↦ inl (ground arith, rw cero refl)
    | inr otro ↦ inr (_, rw otro refl, con_estructuras-Creadas c bytes (ground arith))
  ]
