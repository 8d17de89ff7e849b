-- ===== src/Cpu/Tests.antt =====
-- Registers and a buffer of two entries, and the theorems on it at concrete inputs.
use tp_sisop_1c.Cpu.Registros.Salto.{salta, saltar_si_no_es_cero-ax}
use tp_sisop_1c.Prelude.Int.{negsuc}
use tp_sisop_1c.Cpu.Tlb.Lru.{fechado, insertar_en_tlb-desborda, insertar_en_tlb-Antiguo}
use tp_sisop_1c.Cpu.Tlb.Limpieza.{limpiar_tlb-queda, limpios, limpiar_tlb_lem}
use tp_sisop_1c.Cpu.Tlb.Capacidad.{
  Antiguo, EnCapacidad, Recientes, insertar_en_tlb-EnCapacidad, get_index_for_lru-Antiguo,
}
use tp_sisop_1c.Cpu.Tlb.Traduccion.{Traducida, traducir_direccion_a_fisica-Traducida}
use tp_sisop_1c.Prelude.{
  refl, [], some, ◌*◌, ◌++◌, ◌+◌, ◌<◌, ◌∷◌, ◌≡◌, length, ℕ, arith, ◌⊎◌, get_elem?, erase_idx, ◌%◌,
}
use tp_sisop_1c.Prelude.Int.{pos}
use tp_sisop_1c.Cpu.Registros.{
  Registros, Nombre, obtener_registro, modulo, es_de_8_bits, sumar_registro, restar_registro,
  saltar_si_no_es_cero, ax, bx, cx, dx, eax, ebx, ecx, edx, si, di, pc,
}
use tp_sisop_1c.Cpu.Registros.Aritmetica.{
  EnRango, Asignado, restar_registro-Asignado, sumar_registro-Asignado,
}
use tp_sisop_1c.Commons.{Listas}
use tp_sisop_1c.Commons.Ejemplo.{listas_ejemplo}
use tp_sisop_1c.Cpu.Tlb.{
  Tlb, RegistroTlb, Algoritmo, fifo, lru, insertar_en_tlb, limpiar_tlb, obtener_marco_en_tlb,
  traducir_direccion_a_fisica, get_index_for_lru,
}

abbrev registro : ℕ → ℕ → ℕ → RegistroTlb
registro pid pagina t = record {
  pid = pid;
  pagina = pagina;
  marco = pid * 10 + pagina;
  last_access = t;
}

abbrev tabla : ℕ → ℕ → ℕ
tabla pid pagina = pid * 10 + pagina

abbrev listas : Listas RegistroTlb
listas = listas_ejemplo RegistroTlb

abbrev llena : Algoritmo → Tlb
llena a = record {
  tlb = registro 1 0 5 ∷ registro 1 1 3 ∷ [];
  tam_tlb = 2;
  algo_tlb = a;
  ultimo_index = 2;
}

-- The buffer has page 1 and not page 7.
traducir_direccion_a_fisica-Traducida_example :
    Traducida tabla 4 1 30 (traducir_direccion_a_fisica listas tabla 4 (llena lru) 9 1 30)
traducir_direccion_a_fisica-Traducida_example =
    traducir_direccion_a_fisica-Traducida listas tabla 4 (llena lru) 9 1 30 (omega arith)
      (refl, (refl, tt))

insertar_en_tlb-EnCapacidad_example :
    EnCapacidad (insertar_en_tlb listas (llena fifo) 9 (registro 2 0 0))
insertar_en_tlb-EnCapacidad_example =
    insertar_en_tlb-EnCapacidad listas (llena fifo) 9 (registro 2 0 0) refl
      (record { entradas = omega arith; indice = omega arith })

insertar_en_tlb-Antiguo_example :
    (Recientes 9 (llena lru).tlb
      × ((insertar_en_tlb listas (llena lru) 9 (registro 2 0 0)).tlb
          ≡ (llena lru).tlb ++ fechado 9 (registro 2 0 0) ∷ []))
    ⊎ ((k : ℕ) × (v : RegistroTlb) × (get_elem? (llena lru).tlb k ≡ some v)
        × (v.last_access < 9)
        × Recientes v.last_access (llena lru).tlb
        × ((insertar_en_tlb listas (llena lru) 9 (registro 2 0 0)).tlb
            ≡ erase_idx (llena lru).tlb k ++ fechado 9 (registro 2 0 0) ∷ []))
insertar_en_tlb-Antiguo_example =
    insertar_en_tlb-Antiguo listas (llena lru) 9 (registro 2 0 0) refl (omega arith) refl

insertar_en_tlb-desborda_example :
    (length (insertar_en_tlb listas (llena lru) 3 (registro 2 0 0)).tlb ≡ 3)
    × ((despues : ℕ) (q : RegistroTlb)
        → insertar_en_tlb listas (insertar_en_tlb listas (llena lru) 3 (registro 2 0 0)) despues q
          ≡ insertar_en_tlb listas (llena lru) 3 (registro 2 0 0))
insertar_en_tlb-desborda_example =
    insertar_en_tlb-desborda listas (llena lru) 3 (registro 2 0 0) refl (omega arith) refl
      (omega arith, (omega arith, tt))

get_index_for_lru-Antiguo_example :
    Antiguo (llena lru).tlb 0 9 (negsuc 0) (get_index_for_lru 9 (llena lru).tlb)
get_index_for_lru-Antiguo_example = get_index_for_lru-Antiguo 9 (llena lru).tlb

limpiar_tlb_lem_example : (limpiar_tlb (llena lru) 1).tlb ≡ limpios 1 (llena lru).tlb
limpiar_tlb_lem_example = limpiar_tlb_lem (llena lru) 1

limpiar_tlb-queda_example : (obtener_marco_en_tlb (limpiar_tlb (llena lru) 1) 9 1 1).0 ≡ 11
limpiar_tlb-queda_example =
    limpiar_tlb-queda (llena lru) 9 1 (registro 1 0 5) (registro 1 1 3) [] refl refl refl

-- AX is 250, EAX 300, BX 1.
abbrev registros : Registros
registros = record {
  pc = 4;
  ax = 250;
  bx = 1;
  cx = 0;
  dx = 0;
  eax = 300;
  ebx = 0;
  ecx = 0;
  edx = 0;
  si = 0;
  di = 0;
}

registros-EnRango : EnRango registros
unfolding obtener_registro modulo es_de_8_bits
registros-EnRango = record { valor = en_rango }
  where
    en_rango : (n : Nombre) → obtener_registro registros n < modulo n
    en_rango ax = omega arith
    en_rango bx = omega arith
    en_rango cx = omega arith
    en_rango dx = omega arith
    en_rango eax = omega arith
    en_rango ebx = omega arith
    en_rango ecx = omega arith
    en_rango edx = omega arith
    en_rango si = omega arith
    en_rango di = omega arith
    en_rango pc = omega arith

sumar_registro-Asignado_example :
    Asignado registros ax
      ((obtener_registro registros ax + obtener_registro registros eax) % modulo ax)
      (sumar_registro registros ax eax)
sumar_registro-Asignado_example = sumar_registro-Asignado registros ax eax registros-EnRango

restar_registro-Asignado_example :
    (v : ℕ) × ((v + obtener_registro registros ax) % modulo eax ≡ obtener_registro registros eax)
    × Asignado registros eax v (restar_registro registros eax ax)
restar_registro-Asignado_example = restar_registro-Asignado registros eax ax registros-EnRango

-- AX is zero and BX is not.
saltar_si_no_es_cero-ax_example :
    saltar_si_no_es_cero (record registros { ax = 0 }) ax (pos 7)
    ≡ salta (record registros { ax = 0 }) (pos 7)
saltar_si_no_es_cero-ax_example =
    saltar_si_no_es_cero-ax (record registros { ax = 0 }) (pos 7) refl (omega arith)
