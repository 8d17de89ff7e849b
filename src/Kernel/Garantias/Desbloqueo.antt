-- ===== src/Kernel/Garantias/Desbloqueo.antt =====
-- Where a process goes that waited (`desbloquear_proceso` of kernel/src/planificacion/planificacion.c).
use tp_sisop_1c.Kernel.Garantias.{actualizado, ConEstado, actualizar_estado_pcb-hay}
use tp_sisop_1c.Prelude.Int.{ltb_ℤ, pos}
use tp_sisop_1c.Prelude.{
  refl, [], false, some, none, ◌++◌, ◌∷◌, ◌≡◌, suc, true, List, Option, ℕ, All, erase_idx,
  get_elem?, length, Bool, ap, if◌then◌else◌, ◌==◌, ==_iff, ◌+◌, ◌&&◌,
}
use tp_sisop_1c.Kernel.{
  vrr, lista_ready, lista_auxiliar, lista_blocked, ready, ready_aux, Entorno, Pcb, Kernel, Lista,
  EstadoCode, Texto,
}
use tp_sisop_1c.Kernel.Interfaces.{fin_io}
use tp_sisop_1c.Kernel.Planificacion.{
  remover_con_pid, list_remove, obtener_index, escribir, agregar_a_lista_con_semaforos,
  avisar_ready, desbloquear_proceso, con_prioridad, es_vrr, actualizar_estado_pcb,
}
use tp_sisop_1c.Prelude.Opciones.{◌>>=◌}

-- Nobody in the list has the pid.
abbrev pub Ausente : ℕ → List Pcb → Type 0
Ausente pid ps = All (λ p. (p.pid == pid) ≡ false) ps

obtener_index-Ausente :
    (pid : ℕ) (ps : List Pcb) → Ausente pid ps → obtener_index (λ p. p.pid) ps pid ≡ none
unfolding obtener_index
obtener_index-Ausente pid [] h = refl
obtener_index-Ausente pid (p ∷ ps) h = rw (obtener_index-Ausente pid ps (h.1), h.0) refl

primero_caso :
    (o : Option ℕ) (b : Bool) (r : Option ℕ)
    → b ≡ true
    → r ≡ some 0
    → (elim o as (λ _. Option ℕ) [
      | none ↦ if b then some 0 else none
      | some i ↦ if b then some 0 else some (suc i)
    ])
      ≡ r
primero_caso none b r h k = rw (h, k) refl
primero_caso (some i) b r h k = rw (h, k) refl

-- The first with the pid is found whatever comes after it.
obtener_index-primero :
    (p : Pcb) (antes despues : List Pcb)
    → Ausente p.pid antes
    → obtener_index (λ q. q.pid) (antes ++ p ∷ despues) p.pid ≡ some (length antes)
unfolding obtener_index
obtener_index-primero p [] despues h =
    primero_caso _ (p.pid == p.pid) _ ((==_iff p.pid p.pid).1 refl) refl
obtener_index-primero p (q ∷ antes) despues h =
    rw (obtener_index-primero p antes despues (h.1), h.0) refl

medio-get_elem? :
    {A : Type 0} (antes : List A) (p : A) (despues : List A)
    → get_elem? (antes ++ p ∷ despues) (length antes) ≡ some p
medio-get_elem? [] p despues = refl
medio-get_elem? (q ∷ antes) p despues = medio-get_elem? antes p despues

medio-erase_idx :
    {A : Type 0} (antes : List A) (p : A) (despues : List A)
    → erase_idx (antes ++ p ∷ despues) (length antes) ≡ antes ++ despues
medio-erase_idx [] p despues = refl
medio-erase_idx (q ∷ antes) p despues = ap (λ xs. q ∷ xs) (medio-erase_idx antes p despues)

nada_medio : (a b c : Bool) → b ≡ false → (a && b && c) ≡ false
nada_medio true b c h = rw h refl
nada_medio false b c h = refl

nada_final : (a c : Bool) → c ≡ false → (a && c) ≡ false
nada_final true c h = h
nada_final false c h = refl

module _ (e : Entorno) where
  pub remover_con_pid-medio :
      (s : Kernel e) (l : Lista) (p : Pcb) (antes despues : List Pcb)
      → s.listas l ≡ antes ++ p ∷ despues
      → Ausente p.pid antes
      → remover_con_pid e s l p.pid ≡ some (p, escribir e s l (antes ++ despues))
  unfolding remover_con_pid list_remove ◌>>=◌
  remover_con_pid-medio s l p antes despues h k =
      rw
        (
          h,
          obtener_index-primero p antes despues k,
          medio-get_elem? antes p despues,
          medio-erase_idx antes p despues,
        )
        refl

  pub remover_con_pid-Ausente :
      (s : Kernel e) (l : Lista) (pid : ℕ)
      → Ausente pid (s.listas l)
      → remover_con_pid e s l pid ≡ none
  unfolding remover_con_pid list_remove ◌>>=◌
  remover_con_pid-Ausente s l pid h = rw (obtener_index-Ausente pid (s.listas l) h) refl

  -- Where it goes: under VRR a process that has part of its quantum left has priority.
  pub data Destino (p : Pcb) : Lista → EstadoCode → Type 0 where
    con_resto :
        e.algoritmo ≡ vrr
        → ltb_ℤ p.quantum e.quantum ≡ true
        → ltb_ℤ (pos 0) p.quantum ≡ true
        → Destino p lista_auxiliar ready_aux
    otro_algoritmo : es_vrr e.algoritmo ≡ false → Destino p lista_ready ready
    entero : ltb_ℤ p.quantum e.quantum ≡ false → Destino p lista_ready ready
    agotado : ltb_ℤ (pos 0) p.quantum ≡ false → Destino p lista_ready ready

  actualizar_segun :
      (p : Pcb) (l : Lista) (estado : EstadoCode) (s : Kernel e)
      → Destino p l estado
      → (if con_prioridad e p
          then actualizar_estado_pcb e s p ready_aux lista_auxiliar
          else actualizar_estado_pcb e s p ready lista_ready)
        ≡ actualizar_estado_pcb e s p estado l
  unfolding con_prioridad
  actualizar_segun p _ _ s (con_resto a b c) = rw (ap es_vrr a, b, c) refl
  actualizar_segun p _ _ s (otro_algoritmo a) = rw a refl
  actualizar_segun p _ _ s (entero b) =
      rw (nada_medio (es_vrr e.algoritmo) _ (ltb_ℤ (pos 0) p.quantum) b) refl
  actualizar_segun p _ _ s (agotado c) =
      rw (nada_final (es_vrr e.algoritmo && ltb_ℤ p.quantum e.quantum) _ c) refl

  listas_de :
      (s : Kernel e) (p : Pcb) (antes despues : List Pcb) (l : Lista) (estado : EstadoCode)
      (ys : List EstadoCode)
      → Destino p l estado
      → let s' = actualizado e (escribir e s lista_blocked (antes ++ despues)) p estado l ys in
        (s'.listas l ≡ s.listas l ++ record p { estado = estado } ∷ [])
        × (s'.listas lista_blocked ≡ antes ++ despues)
  unfolding actualizado agregar_a_lista_con_semaforos escribir
  listas_de s p antes despues _ _ ys (con_resto _ _ _) = (refl, refl)
  listas_de s p antes despues _ _ ys (otro_algoritmo _) = (refl, refl)
  listas_de s p antes despues _ _ ys (entero _) = (refl, refl)
  listas_de s p antes despues _ _ ys (agotado _) = (refl, refl)

  -- A blocked process with a place for its state becomes the last of the list with priority under
  -- VRR if more than nothing and less than a whole quantum is left of its quantum, and the last of
  -- those ready in every other case; it leaves the blocked ones and is announced to the scheduler.
  pub desbloquear_proceso-Destino :
      (s : Kernel e) (p : Pcb) (antes despues : List Pcb) (l : Lista) (estado : EstadoCode)
      → s.listas lista_blocked ≡ antes ++ p ∷ despues
      → Ausente p.pid antes
      → ConEstado p.pid s.estados_procesos
      → Destino p l estado
      → (s' : Kernel e) × (desbloquear_proceso e s p.pid ≡ some s')
        × (s'.listas l ≡ s.listas l ++ record p { estado = estado } ∷ [])
        × (s'.listas lista_blocked ≡ antes ++ despues)
        × (s'.sem_process_in_ready ≡ s.sem_process_in_ready + 1)
        × (s'.dict_recursos ≡ s.dict_recursos)
  unfolding desbloquear_proceso avisar_ready actualizado agregar_a_lista_con_semaforos escribir
      ◌>>=◌
  desbloquear_proceso-Destino s p antes despues l estado h k con d =
      let t = escribir e s lista_blocked (antes ++ despues) in
      let (ys, m) = actualizar_estado_pcb-hay e t p estado l con in
      (
        record (actualizado e t p estado l ys) {
          sem_process_in_ready = s.sem_process_in_ready + 1;
        },
        rw (remover_con_pid-medio s lista_blocked p antes despues h k)
            (rw (actualizar_segun p l estado t d) (rw m refl)),
        (listas_de s p antes despues l estado ys d).0,
        (listas_de s p antes despues l estado ys d).1,
        refl,
        refl,
      )

  -- The end of a request of a process that is not blocked any more faults, and so does unblocking
  -- it.
  pub desbloquear_proceso-Ausente :
      (s : Kernel e) (pid : ℕ) (interfaz : Texto)
      → Ausente pid (s.listas lista_blocked)
      → (desbloquear_proceso e s pid ≡ none) × (fin_io e s interfaz pid ≡ none)
  unfolding desbloquear_proceso fin_io ◌>>=◌
  desbloquear_proceso-Ausente s pid interfaz h = (
    rw (remover_con_pid-Ausente s lista_blocked pid h) refl,
    rw (remover_con_pid-Ausente s lista_blocked pid h) refl,
  )
