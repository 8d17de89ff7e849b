-- ===== src/Kernel/Pasos/Invariante.antt =====
-- What holds in every state that the kernel can come to.
pub mod Pasa
use tp_sisop_1c.Kernel.Movimientos.Despacho.{Suelta}
use tp_sisop_1c.Kernel.Movimientos.Pedidos.{uno-Pareja, Atiende}
use tp_sisop_1c.Kernel.Recursos.{soltar_cpu}
use tp_sisop_1c.Kernel.Movimientos.{Cambio, medida}
use tp_sisop_1c.Kernel.Movimientos.Largo.{veces, uno}
use tp_sisop_1c.Kernel.Movimientos.Corto.{Pareja}
use tp_sisop_1c.Prelude.{
  suc, refl, ◌+◌, ◌∙◌, ◌≡◌, ◌≤◌, ℕ, if◌then◌else◌, arith, ltb, length, ◌&&◌, ◌==◌, inl, inr, ap,
  subst, sym, none,
}
use tp_sisop_1c.Kernel.{Entorno, Lista, Kernel, Pcb}
use tp_sisop_1c.Kernel.Planificacion.{numero}

-- One for each process in the running list.
abbrev pub corre : Lista → ℕ → ℕ
corre l pid = if numero l == 3 then 1 else 0

-- Which pids have been given out when `ultimo` is the next one.
abbrev pub dado : ℕ → ℕ → ℕ
dado ultimo pid = if ltb 0 pid && ltb pid ultimo then 1 else 0

dado_uno : (ultimo pid : ℕ) → dado ultimo pid ≤ 1
dado_uno ultimo pid = ground arith

module _ (e : Entorno) where
  -- Each process is in one list, and only there; one at most runs, and then the CPU is not free.
  pub record Ordenado (s : Kernel e) : Type 0 where
    pub en_una_lista : (pid : ℕ) → veces e s pid ≡ dado s.ultimo_pid pid
    pub con_estado : suc (length s.estados_procesos) ≡ s.ultimo_pid
    pub uno_corre : medida e corre s + s.sem_cpu_free_to_execute ≤ 1

  pub corre-Pareja : Pareja e corre
  corre-Pareja = record { ready_blocked = λ _. refl; auxiliar_blocked = λ _. refl }

  -- What a step does to the three measures.
  pub record Efecto (s s' : Kernel e) : Type 0 where
    pub todos : (pid : ℕ) → veces e s' pid ≡ veces e s pid
    pub ultimo : s'.ultimo_pid ≡ s.ultimo_pid
    pub estados : length s'.estados_procesos ≡ length s.estados_procesos
    pub corren :
        medida e corre s' + s'.sem_cpu_free_to_execute
        ≤ medida e corre s + s.sem_cpu_free_to_execute

  pub Efecto-Ordenado : {s s' : Kernel e} → Efecto s s' → Ordenado s → Ordenado s'
  Efecto-Ordenado h o = record {
    en_una_lista = λ pid. rw h.ultimo (h.todos pid ∙ o.en_una_lista pid);
    con_estado = omega (arith, h.ultimo, h.estados, o.con_estado);
    uno_corre = omega (arith, h.corren, o.uno_corre);
  }

  -- A step that moves one process, or none.
  pub de_Cambios :
      {s s' : Kernel e} {a b : ℕ} (sale entra : ℕ → ℕ)
      → ((pid : ℕ) → Cambio e (uno pid) s s' (sale pid) (entra pid))
      → ((pid : ℕ) → sale pid ≡ entra pid)
      → Cambio e corre s s' a b
      → b ≤ a
      → Efecto s s'
  de_Cambios sale entra h igual c menos = record {
    todos = λ pid. omega (arith, (h pid).medidas, igual pid);
    ultimo = c.ultimo;
    estados = c.estados;
    corren = omega (arith, c.medidas, c.cpu, menos);
  }

  pub unico : {s : Kernel e} (o : Ordenado s) (pid : ℕ) → veces e s pid ≤ 1
  unico {s = s} o pid = subst (λ n. n ≤ 1) (sym (o.en_una_lista pid)) (dado_uno s.ultimo_pid pid)

  Atiende-todos :
      {s s' : Kernel e} (q : Pcb) (pid : ℕ)
      → Atiende e (uno pid) (uno-Pareja e pid) q s s'
      → veces e s' pid ≡ veces e s pid
  unfolding soltar_cpu
  Atiende-todos q pid (inl c) = omega (arith, c.medidas)
  Atiende-todos q pid (inr (inl h)) = rw h.cpu (omega (arith, h.cambio.medidas))
  Atiende-todos q pid (inr (inr h)) = rw h.cpu (omega (arith, h.cambio.medidas))

  Suelta-Efecto :
      {s s' : Kernel e} (b : ℕ)
      → ((pid : ℕ) → veces e s' pid ≡ veces e s pid)
      → Suelta e corre corre-Pareja s s' 1 b
      → b ≡ 0
      → Efecto s s'
  unfolding soltar_cpu
  Suelta-Efecto {s = s} {s' = s'} b todos h nada = record {
    todos = todos;
    ultimo = ap (λ (t : Kernel e). t.ultimo_pid) h.cpu ∙ h.cambio.ultimo;
    estados = ap (λ (t : Kernel e). length t.estados_procesos) h.cpu ∙ h.cambio.estados;
    corren =
        subst
          (λ (t : Kernel e).
            medida e corre t + t.sem_cpu_free_to_execute
            ≤ medida e corre s + s.sem_cpu_free_to_execute)
          (sym h.cpu) (omega (arith, h.cambio.medidas, h.cambio.cpu, nada));
  }

  pub Atiende-Efecto :
      {s s' : Kernel e} (q : Pcb)
      → ((pid : ℕ) → Atiende e (uno pid) (uno-Pareja e pid) q s s')
      → Atiende e corre corre-Pareja q s s'
      → Efecto s s'
  Atiende-Efecto q h (inl c) = record {
    todos = λ pid. Atiende-todos q pid (h pid);
    ultimo = c.ultimo;
    estados = c.estados;
    corren = omega (arith, c.medidas, c.cpu);
  }
  Atiende-Efecto q h (inr (inl c)) = Suelta-Efecto 0 (λ pid. Atiende-todos q pid (h pid)) c refl
  Atiende-Efecto q h (inr (inr c)) = Suelta-Efecto 0 (λ pid. Atiende-todos q pid (h pid)) c refl

  pub Quieto_de :
      {s s' : Kernel e} → ((w : Lista → ℕ → ℕ) → Pareja e w → Cambio e w s s' 0 0) → Efecto s s'
  Quieto_de h =
      de_Cambios (λ _. 0) (λ _. 0) (λ pid. h (uno pid) (uno-Pareja e pid)) (λ _. refl)
        (h corre corre-Pareja) (omega arith)

  -- What only the semaphores, the messages or the dictionaries change.
  pub resto-Efecto :
      {s : Kernel e} (s' : Kernel e)
      → s'.listas ≡ s.listas
      → s'.ultimo_pid ≡ s.ultimo_pid
      → s'.estados_procesos ≡ s.estados_procesos
      → s'.sem_cpu_free_to_execute ≡ s.sem_cpu_free_to_execute
      → Efecto s s'
  resto-Efecto s' listas ultimo estados cpu = record {
    todos = λ pid. rw listas refl;
    ultimo = ultimo;
    estados = ap length estados;
    corren = rw (listas, cpu) (omega arith);
  }
