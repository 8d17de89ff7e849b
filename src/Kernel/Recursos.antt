-- ===== src/Kernel/Recursos.antt =====
-- kernel/src/recursos/recursos.c. `none` is a fault of the C program, unless a comment says that it is
-- the answer false: a read through NULL, or a read of the pid that `recurso_obtener_bloqueado` has not
-- set.
use tp_sisop_1c.Prelude.Opciones.{◌>>=◌}
use tp_sisop_1c.Prelude.Int.{negsuc, pos, ◌+ℤ◌, ltb_ℤ}
use tp_sisop_1c.Kernel.Planificacion.{
  bloquear_proceso, obtener_index, obtener_pcb_con_pid_lista, desbloquear_proceso, escribir,
}
use tp_sisop_1c.Commons.{igual_texto}
use tp_sisop_1c.Prelude.{
  suc, [], true, false, some, none, ◌++◌, ◌+◌, ◌∷◌, take, List, ℕ, erase_idx, if◌then◌else◌, Bool,
  Option, ◌==◌,
}
use tp_sisop_1c.Kernel.{lista_blocked, Entorno, Pcb, Texto, Kernel, ℤ, Recurso}

-- A resource name, cut at ID_RECURSO_LONG_MAX by `strncpy`.
unfoldable pub recortar_id : Texto → Texto
recortar_id nombre = take 10 nombre

-- `f` on the first process of the list with that pid, which other pointers to it then see changed.
unfoldable pub modificar_pcb : (Pcb → Pcb) → ℕ → List Pcb → List Pcb
modificar_pcb f pid [] = []
modificar_pcb f pid (p ∷ ps) = if p.pid == pid then f p ∷ ps else p ∷ modificar_pcb f pid ps

-- With the resource among those it has, and none that it waits for.
unfoldable pub con_recurso_tomado : Texto → Pcb → Pcb
con_recurso_tomado recurso pcb = record pcb {
  recursos_tomados = pcb.recursos_tomados ++ recurso ∷ [];
  recurso_esperando = none;
}

-- `none` is the answer -1.
unfoldable pub obtener_index_recurso : List Texto → Texto → Option ℕ
unfolding igual_texto
obtener_index_recurso [] recurso = none
obtener_index_recurso (r ∷ rs) recurso = elim (obtener_index_recurso rs recurso) [
  | none ↦ if igual_texto r recurso then some 0 else none
  | some i ↦ if igual_texto r recurso then some 0 else some (suc i)
]

module _ (e : Entorno) where
  open e use {recursos.{Dict as Recursos, get, put}}

  -- The loop of `recursos_init` from the resource `i` on.
  unfoldable pub poner_recursos : ℕ → List (Texto × ℤ) → Recursos → Recursos
  unfolding recortar_id
  poner_recursos i [] dict = dict
  poner_recursos i ((nombre, instancias) ∷ resto) dict = poner_recursos (suc i) resto (
      put dict nombre (record {
        id = recortar_id nombre;
        instancias = instancias;
        indice_semaforo_asociado_a_recurso = i;
        bloqueados = [];
      }))

  unfoldable pub recursos_init : Kernel e → List (Texto × ℤ) → Kernel e
  unfolding poner_recursos
  recursos_init s config = record s { dict_recursos = poner_recursos 0 config e.recursos.create }

  unfoldable pub recurso_existe : Kernel e → Texto → Bool
  recurso_existe s recurso = elim (get s.dict_recursos recurso) [ none ↦ false | some _ ↦ true ]

  -- `none` is the answer false; else the instances there are now.
  unfoldable pub recurso_modificar_instancias : Kernel e → Texto → ℤ → Option (ℤ × Kernel e)
  recurso_modificar_instancias s recurso delta = do
    aux ← get s.dict_recursos recurso
    let aux' = record aux { instancias = aux.instancias +ℤ delta }
    some (aux'.instancias, record s { dict_recursos = put s.dict_recursos recurso aux' })

  -- The queue without the pid, if it is there.
  unfoldable pub quitar_bloqueado : ℕ → List ℕ → List ℕ
  unfolding obtener_index
  quitar_bloqueado pid bloqueados = elim (obtener_index (λ x. x) bloqueados pid) [
    | none ↦ bloqueados
    | some i ↦ erase_idx bloqueados i
  ]

  -- Nothing happens when the resource does not exist.
  unfoldable pub sumar_y_quitar : Kernel e → Texto → ℤ → ℕ → Option Recurso → Kernel e
  unfolding quitar_bloqueado
  sumar_y_quitar s recurso delta pid none = s
  sumar_y_quitar s recurso delta pid (some aux) = record s {
    dict_recursos = put s.dict_recursos recurso (record aux {
      instancias = aux.instancias +ℤ delta;
      bloqueados = quitar_bloqueado pid aux.bloqueados;
    });
  }

  unfoldable pub recurso_modificar_instancias2 : Kernel e → Texto → ℤ → ℕ → Kernel e
  unfolding sumar_y_quitar
  recurso_modificar_instancias2 s recurso delta pid =
      sumar_y_quitar s recurso delta pid (get s.dict_recursos recurso)

  -- `none` is the answer false: no such resource, or nobody waits.
  unfoldable pub recurso_obtener_bloqueado : Kernel e → Texto → Option (ℕ × Kernel e)
  recurso_obtener_bloqueado s recurso = do
    aux ← get s.dict_recursos recurso
    elim aux.bloqueados [
      | [] ↦ none
      | pid ∷ resto ↦ some (
        pid,
        record s {
          dict_recursos = put s.dict_recursos recurso (record aux { bloqueados = resto });
        },
      )
    ]

  unfoldable pub modificar_bloqueado : Kernel e → (Pcb → Pcb) → ℕ → Kernel e
  unfolding escribir modificar_pcb
  modificar_bloqueado s f pid =
      escribir e s lista_blocked (modificar_pcb f pid (s.listas lista_blocked))

  -- The resource goes to the process, if it is still blocked.
  unfoldable pub entregar_a : Kernel e → Texto → ℕ → Option Pcb → Option (Kernel e)
  unfolding modificar_bloqueado desbloquear_proceso con_recurso_tomado
  entregar_a s recurso pid none = some s
  entregar_a s recurso pid (some _) =
      desbloquear_proceso e (modificar_bloqueado s (con_recurso_tomado recurso) pid) pid

  unfoldable pub entregar_recurso : Kernel e → Texto → ℕ → Option (Kernel e)
  unfolding obtener_pcb_con_pid_lista entregar_a
  entregar_recurso s recurso pid =
      entregar_a s recurso pid (obtener_pcb_con_pid_lista pid (s.listas lista_blocked))

  -- The first process that waits gets the instance.
  unfoldable pub despertar_siguiente : Kernel e → Texto → Option (Kernel e)
  unfolding recurso_obtener_bloqueado entregar_recurso
  despertar_siguiente s recurso = do
    (pid, s') ← recurso_obtener_bloqueado s recurso
    entregar_recurso s' recurso pid

  unfoldable pub tras_incrementar : Kernel e → Texto → Option (ℤ × Kernel e) → Option (Kernel e)
  unfolding despertar_siguiente
  tras_incrementar s recurso none = some s
  tras_incrementar s recurso (some (instancias, s')) =
      if ltb_ℤ (pos 0) instancias then some s' else despertar_siguiente s' recurso

  unfoldable pub recurso_incrementar : Kernel e → Texto → Option (Kernel e)
  unfolding recurso_modificar_instancias tras_incrementar
  recurso_incrementar s recurso =
      tras_incrementar s recurso (recurso_modificar_instancias s recurso (pos 1))

  -- The process is in the list of blocked ones, where it is told what it waits for.
  unfoldable pub encolar : Kernel e → Texto → ℕ → Option Recurso → Kernel e
  unfolding modificar_bloqueado
  encolar s recurso pid none = s
  encolar s recurso pid (some aux) =
      modificar_bloqueado
        (record s {
          dict_recursos =
              put s.dict_recursos recurso (record aux { bloqueados = aux.bloqueados ++ pid ∷ [] });
        })
        (λ p. record p { recurso_esperando = some recurso }) pid

  unfoldable pub recurso_agregar_bloqueado : Kernel e → Texto → ℕ → Kernel e
  unfolding encolar
  recurso_agregar_bloqueado s recurso pid = encolar s recurso pid (get s.dict_recursos recurso)

  unfoldable pub soltar_cpu : Kernel e → Kernel e
  soltar_cpu s = record s { sem_cpu_free_to_execute = s.sem_cpu_free_to_execute + 1 }

  -- The process joins those that wait, and the CPU is free.
  unfoldable pub esperar_recurso : Kernel e → ℤ → Texto → Pcb → Option (Bool × Kernel e)
  unfolding bloquear_proceso recurso_agregar_bloqueado soltar_cpu
  esperar_recurso s ahora recurso pcb = do
    s' ← bloquear_proceso e s ahora pcb false
    some (false, soltar_cpu (recurso_agregar_bloqueado s' recurso pcb.pid))

  unfoldable pub tras_restar :
      Kernel e → ℤ → Texto → Pcb → Option (ℤ × Kernel e) → Option (Bool × Kernel e)
  unfolding esperar_recurso
  tras_restar s ahora recurso pcb none = some (false, s)
  tras_restar s ahora recurso pcb (some (instancias, s')) =
      if ltb_ℤ instancias (pos 0) then esperar_recurso s' ahora recurso pcb else some (true, s')

  -- The answer is whether an instance was there for the process.
  unfoldable pub recurso_decrementar : Kernel e → ℤ → Texto → Pcb → Option (Bool × Kernel e)
  unfolding recurso_modificar_instancias tras_restar
  recurso_decrementar s ahora recurso pcb =
      tras_restar s ahora recurso pcb (recurso_modificar_instancias s recurso (negsuc 0))

  -- The loop of `liberar_recursos_tomados`, which names a resource by its own id.
  unfoldable pub liberar_todos_los_recursos : Kernel e → List Texto → Option (Kernel e)
  unfolding recurso_incrementar
  liberar_todos_los_recursos s [] = some s
  liberar_todos_los_recursos s (recurso ∷ resto) = do
    aux ← get s.dict_recursos recurso
    s' ← recurso_incrementar s aux.id
    liberar_todos_los_recursos s' resto

  unfoldable pub dejar_de_esperar : Kernel e → Option Texto → ℕ → Kernel e
  unfolding recurso_modificar_instancias2
  dejar_de_esperar s none pid = s
  dejar_de_esperar s (some recurso) pid = recurso_modificar_instancias2 s recurso (pos 1) pid

  -- The process, which is in no list now, is answered as it is left.
  unfoldable pub liberar_recursos_tomados : Kernel e → Pcb → Option (Pcb × Kernel e)
  unfolding liberar_todos_los_recursos dejar_de_esperar
  liberar_recursos_tomados s pcb = do
    s' ← liberar_todos_los_recursos s pcb.recursos_tomados
    some
        (record pcb { recurso_esperando = none }, dejar_de_esperar s' pcb.recurso_esperando pcb.pid)
