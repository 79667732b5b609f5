-- ===== src/Traps/Guards.antt =====
-- What `TrapKernelHandler` does of its own: it keeps the user's context, refuses addresses of the
-- kernel, and hands the result back.
use cs58_yalnix.Base.{
  ℕ, ◌≡◌, refl, ◌⊎◌, inl, inr, true, false, Option, some, ◌==◌, ==_refl, if◌then◌else◌,
}
use cs58_yalnix.Base.Int.{ℤ}
use cs58_yalnix.Kernel.{save_user_context, Kernel, Pcb, UserContext, M, ok, update, returned}
use cs58_yalnix.Kernel.Ensures.{Returns, Runs, current_lem, load_lem, current_pid_lem}
use cs58_yalnix.Ipc.{error}
use cs58_yalnix.Process.Wait.{word}
use cs58_yalnix.Process.Delay.{get_pid_handler}
use cs58_yalnix.Traps.{
  Syscall, wait, cvar_init, getpid, in_region_0, returning, guarded, dispatch, dispatch_code,
  trap_kernel_handler, finish_syscall, finish_to,
}

-- The kernel once the running process's block holds the context that it came with.
abbrev pub entered : Kernel → ℕ → Pcb → UserContext → Kernel
entered k p v u = record k { pcbs = update k.pcbs p (some (record v { usr_ctx = some u })) }

-- The context that goes back to the user: the one it came with, with a result in register 0.
abbrev pub answered : UserContext → ℤ → UserContext
answered u rc = record u { regs = λ i. if i == 0 then word rc else u.regs i }

module _ (k : Kernel) (p : ℕ) (v : Pcb) (old u : UserContext) (r : Runs k p v)
    (has_context : v.usr_ctx ≡ some old) where
  save_user_context_lem : save_user_context u k ≡ ok tt (entered k p v u)
  unfolding save_user_context
  save_user_context_lem = rw (current_lem r, load_lem r, has_context)

  entered-Runs : Runs (entered k p v u) p (record v { usr_ctx = some u })
  entered-Runs = record { current = r.current; block = rw (==_refl p) refl }

  -- The user gets its own context back, with this result, and only the process's block has changed.
  abbrev pub Answered : ℤ → Option UserContext → Kernel → Type 0
  Answered rc back k2 =
      (back ≡ some (answered u rc))
      × (k2.pcbs p ≡ some (record v { usr_ctx = some (answered u rc) }))
      × ((q : ℕ) → (p == q) ≡ false → k2.pcbs q ≡ k.pcbs q)
      × (k2 ≡ record k { pcbs = k2.pcbs })

  answered_lem : Returns (Answered error) (finish_syscall error (entered k p v u))
  unfolding finish_syscall finish_to
  answered_lem =
      rw (r.current, ==_refl p) (refl, rw (==_refl p) refl, λ q apart. rw apart refl, refl)

  module _ (decode : ℤ → Option Syscall) (exec : ℕ → ℕ → M ℤ) (fork_handler : M ℤ) where
    -- A `Wait` or `CvarInit` with an address of region 0, NULL among them, gives the user back its own
    -- context with ERROR in register 0, from the trap to its end. The block of the process holds that
    -- context then, and nothing else is changed: whatever zombies and children there are, `Wait` neither
    -- collects one nor waits, and `CvarInit` makes no condition variable.
    pub trap_kernel_handler-refuses :
        (decode u.code ≡ some wait) ⊎ (decode u.code ≡ some cvar_init)
        → in_region_0 k.hardware (u.regs 0) ≡ true
        → Returns
            (λ rc k1. (rc ≡ returned error) × Returns (Answered error) (finish_syscall error k1))
            (trap_kernel_handler decode exec fork_handler u k)
    unfolding trap_kernel_handler dispatch_code dispatch guarded
    trap_kernel_handler-refuses (inl call) low =
        rw (save_user_context_lem, call, low) (refl, answered_lem)
    trap_kernel_handler-refuses (inr call) low =
        rw (save_user_context_lem, call, low) (refl, answered_lem)

    -- `GetPid` returns the pid of the running process in register 0; every other register, and the
    -- rest of the user's context, comes back as it was.
    pub trap_kernel_handler-getpid :
        decode u.code ≡ some getpid
        → Returns
            (λ rc k1.
              (rc ≡ returned v.pid)
              × Returns (λ back _. back ≡ some (answered u v.pid)) (finish_syscall v.pid k1))
            (trap_kernel_handler decode exec fork_handler u k)
    unfolding trap_kernel_handler dispatch_code dispatch returning get_pid_handler finish_syscall
        finish_to
    trap_kernel_handler-getpid call =
        rw (save_user_context_lem, call)
          (rw (current_pid_lem entered-Runs) (refl, rw (r.current, ==_refl p) refl))
