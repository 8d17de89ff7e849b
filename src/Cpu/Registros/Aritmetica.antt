-- ===== src/Cpu/Registros/Aritmetica.antt =====
-- `setear_registro`, `sumar_registro` and `restar_registro` as arithmetic modulo the destination's size.
use tp_sisop_1c.Prelude.{
  zero, suc, refl, ◌%◌, ◌+◌, ◌<◌, ◌∙◌, ◌≡◌, ◌≢◌, arith, ℕ, sym, ap, true, false, ◌-◌, Bool,
  if◌then◌else◌, subst,
}
use native.Mathlib.Nat.{mod-lt, mod-eq_of_lt, mod-add-mod, add-mod-mod, add-mod_right}
use tp_sisop_1c.Cpu.Registros.{
  Registros, Nombre, obtener_registro, escribir_registro, modulo, es_de_8_bits, contar_hasta,
  a_sumar, sumar_registro, restar_registro, ax, bx, cx, dx, eax, ebx, ecx, edx, si, di, pc,
}

modulo-positivo : (n : Nombre) → 0 < modulo n
unfolding modulo
modulo-positivo n = ground arith

-- Every register holds a value of its size.
pub record EnRango (r : Registros) : Type 0 where
  pub valor : (n : Nombre) → obtener_registro r n < modulo n

obtener-escribir :
    (r : Registros) (d : Nombre) (v : ℕ) → obtener_registro (escribir_registro r d v) d ≡ v
unfolding obtener_registro escribir_registro
obtener-escribir r ax v = refl
obtener-escribir r bx v = refl
obtener-escribir r cx v = refl
obtener-escribir r dx v = refl
obtener-escribir r eax v = refl
obtener-escribir r ebx v = refl
obtener-escribir r ecx v = refl
obtener-escribir r edx v = refl
obtener-escribir r si v = refl
obtener-escribir r di v = refl
obtener-escribir r pc v = refl

escribir-otros :
    (r : Registros) (d n : Nombre) (v : ℕ)
    → d ≢ n
    → obtener_registro (escribir_registro r d v) n ≡ obtener_registro r n
unfolding obtener_registro escribir_registro
escribir-otros r ax ax v ne = absurd (ne refl)
escribir-otros r bx bx v ne = absurd (ne refl)
escribir-otros r cx cx v ne = absurd (ne refl)
escribir-otros r dx dx v ne = absurd (ne refl)
escribir-otros r eax eax v ne = absurd (ne refl)
escribir-otros r ebx ebx v ne = absurd (ne refl)
escribir-otros r ecx ecx v ne = absurd (ne refl)
escribir-otros r edx edx v ne = absurd (ne refl)
escribir-otros r si si v ne = absurd (ne refl)
escribir-otros r di di v ne = absurd (ne refl)
escribir-otros r pc pc v ne = absurd (ne refl)
escribir-otros r _ _ v ne = refl

escribir-rango :
    (r : Registros) (d n : Nombre) (v : ℕ)
    → v < modulo d
    → obtener_registro r n < modulo n
    → obtener_registro (escribir_registro r d v) n < modulo n
unfolding obtener_registro escribir_registro
escribir-rango r ax ax v h l = h
escribir-rango r bx bx v h l = h
escribir-rango r cx cx v h l = h
escribir-rango r dx dx v h l = h
escribir-rango r eax eax v h l = h
escribir-rango r ebx ebx v h l = h
escribir-rango r ecx ecx v h l = h
escribir-rango r edx edx v h l = h
escribir-rango r si si v h l = h
escribir-rango r di di v h l = h
escribir-rango r pc pc v h l = h
escribir-rango r _ _ v h l = l

contar_hasta_lem : (m v a : ℕ) → 0 < m → a < m → contar_hasta m v a ≡ (a + v) % m
unfolding contar_hasta
contar_hasta_lem m zero a h l = sym (mod-eq_of_lt (omega (arith, l)) ∙ omega arith)
contar_hasta_lem m (suc v) a h l =
    contar_hasta_lem m v ((a + 1) % m) h (mod-lt (a + 1) h)
    ∙ mod-add-mod (a + 1) m v
    ∙ ap (λ k. k % m) (omega arith)

-- The operation stored `valor` in the destination and nothing in the other registers, and every
-- register still holds a value of its size.
pub record Asignado (r : Registros) (d : Nombre) (esperado : ℕ) (r' : Registros) : Type 0 where
  pub valor : obtener_registro r' d ≡ esperado
  pub otros : (n : Nombre) → d ≢ n → obtener_registro r' n ≡ obtener_registro r n
  pub rango : EnRango r'

escribir-Asignado :
    (r : Registros) (d : Nombre) (v : ℕ)
    → EnRango r
    → v < modulo d
    → Asignado r d v (escribir_registro r d v)
escribir-Asignado r d v h l = record {
  valor = obtener-escribir r d v;
  otros = λ n. escribir-otros r d n v;
  rango = record { valor = λ n. escribir-rango r d n v l (h.valor n) };
}

a_sumar-caso :
    (b c : Bool) (v k m : ℕ)
    → k ≡ v % m
    → (b ≡ c → v < m)
    → (if b then (if c then v else k) else (if c then k else v)) ≡ v % m
a_sumar-caso true true v k m e h = sym (mod-eq_of_lt (h refl))
a_sumar-caso true false v k m e h = e
a_sumar-caso false true v k m e h = e
a_sumar-caso false false v k m e h = sym (mod-eq_of_lt (h refl))

mismo-modulo : (d o : Nombre) → es_de_8_bits d ≡ es_de_8_bits o → modulo o ≡ modulo d
unfolding modulo
mismo-modulo d o e = ap (λ b. if b then 256 else 0x1_0000_0000) (sym e)

-- What is added is the origin modulo the size of the destination, whichever sizes the two have.
a_sumar_lem :
    (r : Registros) (d o : Nombre) → EnRango r → a_sumar r d o ≡ obtener_registro r o % modulo d
unfolding a_sumar
a_sumar_lem r d o h =
    a_sumar-caso (es_de_8_bits d) (es_de_8_bits o) (obtener_registro r o) _ (modulo d)
      (contar_hasta_lem (modulo d) (obtener_registro r o) 0 (modulo-positivo d) (modulo-positivo d)
        ∙ ap (λ k. k % modulo d) (omega arith))
      (λ e. subst (λ m. obtener_registro r o < m) (mismo-modulo d o e) (h.valor o))

-- After an addition the destination holds the sum modulo its size, whatever the sizes of the two
-- registers, nothing else changes, and every register holds a value of its size, if it did before.
pub sumar_registro-Asignado :
    (r : Registros) (d o : Nombre)
    → EnRango r
    → Asignado r d ((obtener_registro r d + obtener_registro r o) % modulo d) (sumar_registro r d o)
unfolding sumar_registro
sumar_registro-Asignado r d o h =
    let x = obtener_registro r d in
    let m = modulo d in
    subst (λ v. Asignado r d v (sumar_registro r d o))
      (ap (λ k. (x + k) % m) (a_sumar_lem r d o h) ∙ add-mod-mod x (obtener_registro r o) m)
      (escribir-Asignado r d ((x + a_sumar r d o) % m) h (mod-lt _ (modulo-positivo d)))

resta_modular : (x v m : ℕ) → x < m → ((x + m - v % m) % m + v) % m ≡ x
resta_modular x v m h =
    let menor : v % m < m = mod-lt v (omega (arith, h)) in
    mod-add-mod (x + m - v % m) m v
    ∙ sym (add-mod-mod (x + m - v % m) v m)
    ∙ ap (λ k. k % m) (omega (arith, menor))
    ∙ add-mod_right x m
    ∙ mod-eq_of_lt h

-- After a subtraction the destination holds the value that with the origin added gives the old one
-- modulo its size, whatever the sizes of the two registers, nothing else changes, and every
-- register holds a value of its size, if it did before.
pub restar_registro-Asignado :
    (r : Registros) (d o : Nombre)
    → EnRango r
    → (v : ℕ) × ((v + obtener_registro r o) % modulo d ≡ obtener_registro r d)
      × Asignado r d v (restar_registro r d o)
unfolding restar_registro
restar_registro-Asignado r d o h =
    let x = obtener_registro r d in
    let m = modulo d in
    (
      (x + m - a_sumar r d o) % m,
      ap (λ k. ((x + m - k) % m + obtener_registro r o) % m) (a_sumar_lem r d o h)
          ∙ resta_modular x (obtener_registro r o) m (h.valor d),
      escribir-Asignado r d _ h (mod-lt _ (modulo-positivo d)),
    )
