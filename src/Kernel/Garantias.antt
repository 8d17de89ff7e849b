-- ===== src/Kernel/Garantias.antt =====
-- What the operations of the kernel promise one by one: whom the scheduler takes (Turno), the turn
-- that is left to nobody (Perdida), where a process goes that waited (Desbloqueo), whom an instance
-- wakes and how long the queue of a resource is (Cola), and how many processes are let in (Admision).
pub mod Turno
pub mod Perdida
pub mod Desbloqueo
pub mod Admision
pub mod Cola
use tp_sisop_1c.Kernel.{EstadoCode, Entorno, Kernel, Lista, Pcb}
use tp_sisop_1c.Kernel.Planificacion.{
  escribir_estado, actualizar_estado_pcb, agregar_a_lista_con_semaforos, remover_primero,
  cambiar_estado_pcb, list_remove, escribir,
}
use tp_sisop_1c.Prelude.{zero, suc, refl, [], some, ◌<◌, ◌∷◌, ◌≡◌, ◌≤◌, ℕ, List, arith, length}
use tp_sisop_1c.Prelude.Opciones.{◌>>=◌}

-- A process whose state has a place to be written to.
abbrev pub ConEstado : ℕ → List EstadoCode → Type 0
ConEstado pid estados = (0 < pid) × (pid ≤ length estados)

pub escribir_estado-hay :
    (xs : List EstadoCode) (pid : ℕ) (x : EstadoCode)
    → ConEstado pid xs
    → (ys : List EstadoCode) × (escribir_estado xs pid x ≡ some ys)
unfolding escribir_estado ◌>>=◌
escribir_estado-hay [] pid x h = absurd (omega (arith, h.0, h.1))
escribir_estado-hay (y ∷ xs) zero x h = absurd (omega (arith, h.0))
escribir_estado-hay (y ∷ xs) (suc zero) x h = (x ∷ xs, refl)
escribir_estado-hay (y ∷ xs) (suc (suc i)) x h =
    let (ys, k) = escribir_estado-hay xs (suc i) x (omega arith, omega (arith, h.1)) in
    (y ∷ ys, rw k refl)

module _ (e : Entorno) where
  -- The state after `actualizar_estado_pcb`, when the states are those.
  unfoldable pub actualizado : Kernel e → Pcb → EstadoCode → Lista → List EstadoCode → Kernel e
  unfolding agregar_a_lista_con_semaforos
  actualizado s p estado l estados =
      agregar_a_lista_con_semaforos e (record s { estados_procesos = estados })
        (record p { estado = estado }) l

  pub actualizar_estado_pcb-hay :
      (s : Kernel e) (p : Pcb) (estado : EstadoCode) (l : Lista)
      → ConEstado p.pid s.estados_procesos
      → (ys : List EstadoCode) × (actualizar_estado_pcb e s p estado l
          ≡ some (actualizado s p estado l ys))
  unfolding actualizar_estado_pcb cambiar_estado_pcb actualizado ◌>>=◌
  actualizar_estado_pcb-hay s p estado l h =
      let (ys, k) = escribir_estado-hay s.estados_procesos p.pid estado h in (ys, rw k refl)

  pub remover_primero-hay :
      (s : Kernel e) (l : Lista) (p : Pcb) (resto : List Pcb)
      → s.listas l ≡ p ∷ resto
      → remover_primero e s l ≡ some (p, escribir e s l resto)
  unfolding remover_primero list_remove ◌>>=◌
  remover_primero-hay s l p resto h = rw h refl
