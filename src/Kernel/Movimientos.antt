-- ===== src/Kernel/Movimientos.antt =====
-- How the operations of the kernel move processes between its lists. `w l pid` is what a process weighs
-- in a list: with the right weights the sum counts the processes of one pid, those that run, or those
-- that the degree of multiprogramming counts.
pub mod Corto
pub mod Recursos
pub mod Largo
pub mod Despacho
pub mod Pedidos
use tp_sisop_1c.Kernel.Planificacion.{
  remover_con_pid, escribir, list_remove, obtener_index, actualizar_estado_pcb,
  agregar_a_lista_con_semaforos, escribir_estado, remover_primero, cambiar_estado_pcb,
}
use tp_sisop_1c.Prelude.{
  zero, suc, refl, [], some, none, ◌++◌, ◌+◌, ◌∙◌, ◌∷◌, ◌≡◌, ℕ, List, arith, length, Option,
  erase_idx, get_elem?, ap, true, false, Bool, ◌==◌, ==_iff, if◌then◌else◌, subst,
}
use tp_sisop_1c.Prelude.Opciones.{Si, Si-none, Si-some, Si-seguir, Si-mono, Si-y}
use tp_sisop_1c.Kernel.{
  lista_new, lista_ready, lista_blocked, lista_running, lista_exit, lista_auxiliar, Entorno, Lista,
  Kernel, Pcb, EstadoCode,
}

abbrev pub pesos : (ℕ → ℕ) → List Pcb → ℕ
pesos f [] = 0
pesos f (p ∷ ps) = f p.pid + pesos f ps

pub pesos-append :
    (f : ℕ → ℕ) (xs : List Pcb) (p : Pcb) → pesos f (xs ++ p ∷ []) ≡ pesos f xs + f p.pid
pesos-append f [] p = omega arith
pesos-append f (x ∷ xs) p = omega (arith, pesos-append f xs p)

pub pesos-erase_idx :
    (f : ℕ → ℕ) (xs : List Pcb) (i : ℕ)
    → Si (λ p. pesos f (erase_idx xs i) + f p.pid ≡ pesos f xs) (get_elem? xs i)
pesos-erase_idx f [] i = Si-none
pesos-erase_idx f (x ∷ xs) zero = Si-some (omega arith)
pesos-erase_idx f (x ∷ xs) (suc i) = Si-mono (pesos-erase_idx f xs i) (λ p h. omega (arith, h))

pub pesos-list_remove :
    (f : ℕ → ℕ) (xs : List Pcb) (o : Option ℕ)
    → Si (λ r. pesos f (r.1) + f (r.0.pid) ≡ pesos f xs) (list_remove xs o)
unfolding list_remove
pesos-list_remove f xs none = Si-none
pesos-list_remove f xs (some i) =
    Si-seguir (get_elem? xs i) (pesos-erase_idx f xs i) (λ p h. Si-some h)

pub escribir_estado-length :
    (xs : List EstadoCode) (i : ℕ) (x : EstadoCode)
    → Si (λ ys. length ys ≡ length xs) (escribir_estado xs i x)
unfolding escribir_estado
escribir_estado-length [] i x = Si-none
escribir_estado-length (y ∷ xs) zero x = Si-none
escribir_estado-length (y ∷ xs) (suc zero) x = Si-some refl
escribir_estado-length (y ∷ xs) (suc (suc i)) x =
    Si-seguir _ (escribir_estado-length xs (suc i) x) (λ ys h. Si-some (ap suc h))

module _ {ℓ} {A : Type ℓ} (clave : A → ℕ) (pid : ℕ) where
  abbrev EsDe : List A → ℕ → Type 0
  EsDe xs i = Si (λ x. clave x ≡ pid) (get_elem? xs i)

  delante-EsDe :
      (x : A) (xs : List A) (o : Option ℕ) (b : Bool)
      → (b ≡ true → clave x ≡ pid)
      → Si (EsDe xs) o
      → Si (EsDe (x ∷ xs)) (elim o [
        | none ↦ if b then some 0 else none
        | some i ↦ if b then some 0 else some (suc i)
      ])
  delante-EsDe x xs none true h k = Si-some (Si-some (h refl))
  delante-EsDe x xs none false h k = Si-none
  delante-EsDe x xs (some i) true h k = Si-some (Si-some (h refl))
  delante-EsDe x xs (some i) false h k = Si-some k.dentro

  pub obtener_index-EsDe : (xs : List A) → Si (EsDe xs) (obtener_index clave xs pid)
  unfolding obtener_index
  obtener_index-EsDe [] = Si-none
  obtener_index-EsDe (x ∷ xs) =
      delante-EsDe x xs _ (clave x == pid) (λ h. (==_iff (clave x) pid).0 h) (obtener_index-EsDe xs)

  list_remove-clave :
      (xs : List A) (o : Option ℕ) → Si (EsDe xs) o → Si (λ r. clave (r.0) ≡ pid) (list_remove xs o)
  unfolding list_remove
  list_remove-clave xs none h = Si-none
  list_remove-clave xs (some i) h = Si-seguir _ h.dentro (λ x c. Si-some c)

  -- What is removed at the index that is answered is known by that number.
  pub obtener_index-clave :
      (xs : List A) → Si (λ r. clave (r.0) ≡ pid) (list_remove xs (obtener_index clave xs pid))
  obtener_index-clave xs = list_remove-clave xs _ (obtener_index-EsDe xs)

pub remover_con_pid-clave :
    (e : Entorno) (s : Kernel e) (l : Lista) (pid : ℕ)
    → Si (λ r. r.0.pid ≡ pid) (remover_con_pid e s l pid)
unfolding remover_con_pid
remover_con_pid-clave e s l pid =
    Si-seguir _ (obtener_index-clave (λ p. p.pid) pid (s.listas l)) (λ r c. Si-some c)

pub remover_primero-clave :
    (e : Entorno) (s : Kernel e) (l : Lista) {pid : ℕ}
    → Si (λ r. r.0.pid ≡ pid) (list_remove (s.listas l) (some 0))
    → Si (λ r. r.0.pid ≡ pid) (remover_primero e s l)
unfolding remover_primero
remover_primero-clave e s l h = Si-seguir _ h (λ r c. Si-some c)

module _ (e : Entorno) (w : Lista → ℕ → ℕ) where
  abbrev pub medida : Kernel e → ℕ
  medida s =
      pesos (w lista_new) (s.listas lista_new)
      + pesos (w lista_ready) (s.listas lista_ready)
      + pesos (w lista_blocked) (s.listas lista_blocked)
      + pesos (w lista_running) (s.listas lista_running)
      + pesos (w lista_exit) (s.listas lista_exit)
      + pesos (w lista_auxiliar) (s.listas lista_auxiliar)

  pub medida-escribir :
      (s : Kernel e) (l : Lista) (xs : List Pcb)
      → medida (escribir e s l xs) + pesos (w l) (s.listas l) ≡ medida s + pesos (w l) xs
  unfolding escribir
  medida-escribir s lista_new xs = omega arith
  medida-escribir s lista_ready xs = omega arith
  medida-escribir s lista_blocked xs = omega arith
  medida-escribir s lista_running xs = omega arith
  medida-escribir s lista_exit xs = omega arith
  medida-escribir s lista_auxiliar xs = omega arith

  -- From `s` to `s'` processes that weigh `sale` leave and others that weigh `entra` come.
  pub record Cambio (s s' : Kernel e) (sale entra : ℕ) : Type 0 where
    pub medidas : medida s' + sale ≡ medida s + entra
    pub ultimo : s'.ultimo_pid ≡ s.ultimo_pid
    pub estados : length s'.estados_procesos ≡ length s.estados_procesos
    pub cpu : s'.sem_cpu_free_to_execute ≡ s.sem_cpu_free_to_execute
    pub grado : s'.grado_multiprogramacion ≡ s.grado_multiprogramacion

  -- One after the other; what weighs the same on both sides cancels.
  pub Cambio-trans :
      {s t u : Kernel e} {a b c d x y : ℕ}
      → Cambio s t a b
      → Cambio t u c d
      → x + (b + d) ≡ y + (a + c)
      → Cambio s u x y
  Cambio-trans h k p = record {
    medidas = omega (arith, h.medidas, k.medidas, p);
    ultimo = k.ultimo ∙ h.ultimo;
    estados = k.estados ∙ h.estados;
    cpu = k.cpu ∙ h.cpu;
    grado = k.grado ∙ h.grado;
  }

  sin_uno :
      (s : Kernel e) (l : Lista) (p : Pcb) (resto : List Pcb)
      → pesos (w l) resto + w l p.pid ≡ pesos (w l) (s.listas l)
      → Cambio s (escribir e s l resto) (w l p.pid) 0
  unfolding escribir
  sin_uno s l p resto h = record {
    medidas = omega (arith, h, medida-escribir s l resto);
    ultimo = refl;
    estados = refl;
    cpu = refl;
    grado = refl;
  }

  pub remover_con_pid-Cambio :
      (s : Kernel e) (l : Lista) (pid : ℕ)
      → Si (λ r. Cambio s (r.1) (w l pid) 0) (remover_con_pid e s l pid)
  unfolding remover_con_pid
  remover_con_pid-Cambio s l pid =
      Si-seguir _
        (Si-y (obtener_index-clave (λ p. p.pid) pid (s.listas l))
          (pesos-list_remove (w l) (s.listas l) _))
        (λ r (c, h).
          Si-some
            (subst (λ i. Cambio s (escribir e s l (r.1)) (w l i) 0) c (sin_uno s l (r.0) (r.1) h)))

  pub remover_con_pid_propio-Cambio :
      (s : Kernel e) (l : Lista) (pid : ℕ)
      → Si (λ r. Cambio s (r.1) (w l (r.0.pid)) 0) (remover_con_pid e s l pid)
  unfolding remover_con_pid
  remover_con_pid_propio-Cambio s l pid =
      Si-seguir _ (pesos-list_remove (w l) (s.listas l) _)
        (λ r h. Si-some (sin_uno s l (r.0) (r.1) h))

  pub remover_primero-Cambio :
      (s : Kernel e) (l : Lista)
      → Si (λ r. Cambio s (r.1) (w l (r.0.pid)) 0) (remover_primero e s l)
  unfolding remover_primero
  remover_primero-Cambio s l =
      Si-seguir _ (pesos-list_remove (w l) (s.listas l) (some 0))
        (λ r h. Si-some (sin_uno s l (r.0) (r.1) h))

  pub agregar-Cambio :
      (s : Kernel e) (p : Pcb) (l : Lista)
      → Cambio s (agregar_a_lista_con_semaforos e s p l) 0 (w l p.pid)
  unfolding agregar_a_lista_con_semaforos
  agregar-Cambio s p l = record {
    medidas =
        omega
          (arith, medida-escribir s l (s.listas l ++ p ∷ []), pesos-append (w l) (s.listas l) p);
    ultimo = refl;
    estados = refl;
    cpu = refl;
    grado = refl;
  }

  cambiar_estado_pcb-Cambio :
      (s : Kernel e) (p : Pcb) (estado : EstadoCode)
      → Si (λ s'. Cambio s s' 0 0) (cambiar_estado_pcb e s p estado)
  unfolding cambiar_estado_pcb
  cambiar_estado_pcb-Cambio s p estado =
      Si-seguir _ (escribir_estado-length s.estados_procesos p.pid estado) (λ estados h.
        Si-some (record { medidas = refl; ultimo = refl; estados = h; cpu = refl; grado = refl }))

  pub actualizar_estado_pcb-Cambio :
      (s : Kernel e) (p : Pcb) (estado : EstadoCode) (l : Lista)
      → Si (λ s'. Cambio s s' 0 (w l p.pid)) (actualizar_estado_pcb e s p estado l)
  unfolding actualizar_estado_pcb
  actualizar_estado_pcb-Cambio s p estado l =
      Si-seguir _ (cambiar_estado_pcb-Cambio s p estado) (λ t h.
        Si-some (Cambio-trans h (agregar-Cambio t (record p { estado = estado }) l) (omega arith)))

  -- The rest of the state may be another one.
  pub Cambio-resto :
      {s t : Kernel e} {a b : ℕ} (t' : Kernel e)
      → Cambio s t a b
      → t'.listas ≡ t.listas
      → t'.ultimo_pid ≡ t.ultimo_pid
      → t'.estados_procesos ≡ t.estados_procesos
      → t'.sem_cpu_free_to_execute ≡ t.sem_cpu_free_to_execute
      → t'.grado_multiprogramacion ≡ t.grado_multiprogramacion
      → Cambio s t' a b
  Cambio-resto t' h listas ultimo estados cpu grado = record {
    medidas = rw listas h.medidas;
    ultimo = ultimo ∙ h.ultimo;
    estados = ap length estados ∙ h.estados;
    cpu = cpu ∙ h.cpu;
    grado = grado ∙ h.grado;
  }

  pub nada-Cambio : (s : Kernel e) → Cambio s s 0 0
  nada-Cambio s = record { medidas = refl; ultimo = refl; estados = refl; cpu = refl; grado = refl }
