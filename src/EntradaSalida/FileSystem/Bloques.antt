-- ===== src/EntradaSalida/FileSystem/Bloques.antt =====
-- The bits that the loop of `eliminarArchivo` clears.
use tp_sisop_1c.Prelude.{
  zero, suc, refl, false, ◌*◌, ◌+◌, ◌<◌, ◌∙◌, ◌≡◌, ◌≤◌, ◌≢◌, ℕ, arith, ◌==◌, dec_lt, ==_iff,
  if◌then◌else◌,
}
use tp_sisop_1c.EntradaSalida.FileSystem.{Contenedores, desasignar_desde, desasignar_bloque}

otro_bit : (k j : ℕ) → k ≢ j → (k == j) ≡ false
otro_bit k j h = ground arith

module _ (c : Contenedores) where
  open c use {bits.{Bits, size, test_bit, clean_bit, size-clean_bit, test_bit-clean_bit}}

  -- The bits from `k` on, `n` of them, are clear, and the other ones as before.
  pub record Desasignados (n k : ℕ) (b b' : Bits) : Type 0 where
    pub tamanio : size b' ≡ size b
    pub libres : (j : ℕ) → k ≤ j → j < k + n → test_bit b' j ≡ false
    pub antes : (j : ℕ) → j < k → test_bit b' j ≡ test_bit b j
    pub despues : (j : ℕ) → k + n ≤ j → j < 8 * size b → test_bit b' j ≡ test_bit b j

  pub desasignar_desde-Desasignados :
      (n k : ℕ) (b : Bits) → k + n ≤ 8 * size b → Desasignados n k b (desasignar_desde c n k b)
  unfolding desasignar_desde desasignar_bloque
  desasignar_desde-Desasignados zero k b h = record {
    tamanio = refl;
    libres = λ j lo hi. absurd (omega arith);
    antes = λ j lt. refl;
    despues = λ j ge lt. refl;
  }
  desasignar_desde-Desasignados (suc n) k b h =
      let b1 = clean_bit b k in
      let t = size-clean_bit b k in
      let r = desasignar_desde-Desasignados n (k + 1) b1 (rw t (omega arith)) in
      let bit : (j : ℕ)
          → j < 8 * size b
          → test_bit b1 j ≡ (if k == j then false else test_bit b j) =
        λ j l. test_bit-clean_bit b k j (omega arith) l in
      record {
        tamanio = r.tamanio ∙ t;
        libres = λ j lo hi. elim (dec_lt k j) [
          | yes lt ↦ r.libres j (omega arith) (omega arith)
          | no ge ↦
              r.antes j (omega arith) ∙ bit j (omega arith) ∙ rw ((==_iff k j).1 (omega arith)) refl
        ];
        antes = λ j lt.
            r.antes j (omega arith) ∙ bit j (omega arith) ∙ rw (otro_bit k j (ground arith)) refl;
        despues = λ j ge lt.
            r.despues j (omega arith) (rw t lt) ∙ bit j lt ∙ rw (otro_bit k j (ground arith)) refl;
      }
