-- ===== src/Cpu/Tlb.antt =====
-- cpu/src/mmu/mmu.c: the translation look-aside buffer. The clock is an argument: `ahora` is what
-- `temporal_gettime` answers, in milliseconds below 2 ^ 31.
pub mod Capacidad
pub mod Limpieza
pub mod Lru
pub mod Traduccion
use tp_sisop_1c.Prelude.{
  zero, suc, [], some, none, ◌*◌, ◌++◌, ◌+◌, ◌-◌, ◌/◌, ◌∷◌, List, if◌then◌else◌, ℕ, Bool, Option,
  erase_idx, length, ltb, ◌==◌, ◌&&◌,
}
use tp_sisop_1c.Commons.{Listas}
use tp_sisop_1c.Prelude.Int.{ℤ, pos, negsuc}

-- t_registro_tlb
pub record RegistroTlb : Type 0 where
  pub pid : ℕ
  pub pagina : ℕ
  pub marco : ℕ
  pub last_access : ℕ

-- The value of ALGORITMO_TLB; the code compares the text with these two names.
pub data Algoritmo : Type 0 where
  fifo lru otro : Algoritmo

-- The globals `tlb`, `tam_tlb`, `algo_tlb` and `ultimo_index`.
pub record Tlb : Type 0 where
  pub tlb : List RegistroTlb
  pub tam_tlb : ℕ
  pub algo_tlb : Algoritmo
  pub ultimo_index : ℕ

unfoldable pub iniciar_tlb : ℕ → Algoritmo → Tlb
iniciar_tlb cantidad_entradas algoritmo = record {
  tlb = [];
  tam_tlb = cantidad_entradas;
  algo_tlb = algoritmo;
  ultimo_index = 0;
}

-- The loop of `get_index_for_lru` from entry `i` on; -1 as long as no entry is older than `least_used`.
unfoldable pub buscar_lru : List RegistroTlb → ℕ → ℕ → ℤ → ℤ
buscar_lru [] i least_used index = index
buscar_lru (r ∷ tlb) i least_used index =
    let nuevo = ltb r.last_access least_used in
    buscar_lru tlb (i + 1) (if nuevo then r.last_access else least_used)
      (if nuevo then pos i else index)

unfoldable pub get_index_for_lru : ℕ → List RegistroTlb → ℤ
get_index_for_lru ahora tlb = buscar_lru tlb 0 ahora (negsuc 0)

module _ (l : Listas RegistroTlb) where
  open l use {list_remove, list_add_in_index}

  unfoldable pub insertar_fifo : Tlb → RegistroTlb → Tlb
  insertar_fifo s registro =
      let index = if s.ultimo_index == s.tam_tlb then 0 else s.ultimo_index in
      let r = record registro { last_access = 0 } in
      if ltb (length s.tlb) s.tam_tlb
      then record s { tlb = s.tlb ++ r ∷ []; ultimo_index = index }
      else if length s.tlb == s.tam_tlb
      then record s {
        tlb = list_add_in_index (list_remove s.tlb (pos index)) index r;
        ultimo_index = index + 1;
      }
      else record s { ultimo_index = index }

  unfoldable pub insertar_lru : Tlb → ℕ → RegistroTlb → Tlb
  insertar_lru s ahora registro =
      let r = record registro { last_access = ahora } in
      if ltb (length s.tlb) s.tam_tlb
      then record s { tlb = s.tlb ++ r ∷ [] }
      else if length s.tlb == s.tam_tlb
      then record s { tlb = list_remove s.tlb (get_index_for_lru ahora s.tlb) ++ r ∷ [] }
      else s

  unfoldable pub insertar_segun : Algoritmo → Tlb → ℕ → RegistroTlb → Tlb
  insertar_segun fifo s ahora registro = insertar_fifo s registro
  insertar_segun lru s ahora registro = insertar_lru s ahora registro
  insertar_segun otro s ahora registro = s

  unfoldable pub insertar_en_tlb : Tlb → ℕ → RegistroTlb → Tlb
  insertar_en_tlb s ahora registro =
      if ltb 0 s.tam_tlb then insertar_segun s.algo_tlb s ahora registro else s

-- The answer -1 of a miss, as a uint32_t.
abbrev pub tlb_miss : ℕ
tlb_miss = 0xffff_ffff

abbrev pub es_entrada : ℕ → ℕ → RegistroTlb → Bool
es_entrada pid pagina r = r.pid == pid && r.pagina == pagina

-- Under LRU a hit is an access.
unfoldable pub acceder : Algoritmo → ℕ → RegistroTlb → RegistroTlb
acceder lru ahora r = record r { last_access = ahora }
acceder fifo ahora r = r
acceder otro ahora r = r

unfoldable pub buscar_entrada : Algoritmo → ℕ → ℕ → ℕ → List RegistroTlb → ℕ × List RegistroTlb
buscar_entrada algo ahora pid pagina [] = (tlb_miss, [])
buscar_entrada algo ahora pid pagina (r ∷ tlb) =
    let (marco, resto) = buscar_entrada algo ahora pid pagina tlb in
    if es_entrada pid pagina r then (r.marco, acceder algo ahora r ∷ tlb) else (marco, r ∷ resto)

unfoldable pub obtener_marco_en_tlb : Tlb → ℕ → ℕ → ℕ → ℕ × Tlb
obtener_marco_en_tlb s ahora pid pagina =
    let (marco, tlb) = buscar_entrada s.algo_tlb ahora pid pagina s.tlb in
    (marco, record s { tlb = tlb })

-- The scan of `limpiar_tlb` from index `i` on: the index of the first entry of the process.
unfoldable pub primera_de : ℕ → ℕ → ℕ → List RegistroTlb → Option ℕ
primera_de pid i j [] = none
primera_de pid (suc i) j (r ∷ tlb) = primera_de pid i (j + 1) tlb
primera_de pid zero j (r ∷ tlb) =
    let resto = primera_de pid zero (j + 1) tlb in if r.pid == pid then some j else resto

-- After a removal the loop sets `i = 0` and increments it: the scan goes on from index 1.
-- There are no more removals than entries.
unfoldable pub limpiar_desde : ℕ → ℕ → ℕ → List RegistroTlb → List RegistroTlb
limpiar_desde zero pid i tlb = tlb
limpiar_desde (suc fuel) pid i tlb = elim (primera_de pid i 0 tlb) [
  | none ↦ tlb
  | some j ↦ limpiar_desde fuel pid 1 (erase_idx tlb j)
]

unfoldable pub limpiar_tlb : Tlb → ℕ → Tlb
limpiar_tlb s pid = record s { tlb = limpiar_desde (length s.tlb) pid 0 s.tlb }

-- `traducir_direccion_a_fisica` of the value of a register: the page, the offset in it, and the
-- frame, from the buffer or else from the memory, whose answer `pedir_marco` gives and the buffer keeps.
unfoldable pub traducir_direccion_a_fisica :
    Listas RegistroTlb → (ℕ → ℕ → ℕ) → ℕ → Tlb → ℕ → ℕ → ℕ → (ℕ × ℕ) × Tlb
traducir_direccion_a_fisica l pedir_marco tam_pagina s ahora pid direccion =
    let nro_pagina = direccion / tam_pagina in
    let des_fisico = direccion - nro_pagina * tam_pagina in
    let (marco, s') = obtener_marco_en_tlb s ahora pid nro_pagina in
    if marco == tlb_miss
    then (let nuevo = pedir_marco pid nro_pagina in
        let registro : RegistroTlb = record {
          pid = pid;
          pagina = nro_pagina;
          marco = nuevo;
          last_access = 0;
        } in
        ((nuevo, des_fisico), insertar_en_tlb l s' ahora registro))
    else ((marco, des_fisico), s')
