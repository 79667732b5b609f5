-- ===== src/Process/Wait.antt =====
-- `WaitHandler` of src/syscall_handlers/process_coordination.c.
pub mod DoubleFree
use cs58_yalnix.Base.{
  ℕ, ◌+◌, ◌-◌, ◌*◌, ◌/◌, ◌%◌, ◌^◌, Bool, true, false, not, ◌&&◌, ◌||◌, Option, none, some, List, [],
  ◌∷◌, if◌then◌else◌, ltb, leb, ◌==◌,
}
use cs58_yalnix.Base.Int.{ℤ, pos, negsuc}
use cs58_yalnix.Kernel.{
  Kernel, ProcessState, Pcb, M, ok, pure, ◌>>=◌, ◌>>◌, bind_res, gets, deref, load, store, current,
  ready, blocked, running, dead, delayed, pop_dead, update, Outcome, returned, paused, wait_loop,
}
use cs58_yalnix.Kernel.Memory.{check_memory_validity}
use cs58_yalnix.Kernel.Scheduler.{schedule_next_process}
use cs58_yalnix.Set.{Set}
use cs58_yalnix.Process.Pcb.{pcb_free}

abbrev error : ℤ
error = negsuc 0

-- The bit pattern of an `int`.
abbrev pub word : ℤ → ℕ
word (pos n) = n % 2 ^ 32
word (negsuc n) = 2 ^ 32 - 1 - n % 2 ^ 32

-- `memcpy(status_ptr, &n, sizeof(int))`, little-endian.
pub store_int : ℕ → ℤ → M (Unit {0})
store_int addr n = do
  table ← gets (λ k. k.ptbr1)
  at ← deref table
  (λ k. ok tt (record k {
    user_mem = update k.user_mem at (λ a.
        if leb addr a && ltb a (addr + 4)
        then word n / 256 ^ (a - addr) % 256
        else k.user_mem at a);
  }))

store_status : Bool → ℕ → ℤ → M (Unit {0})
unfolding store_int
store_status wanted addr n = if wanted then store_int addr n else pure tt

free_popped : Option ℕ → M (Unit {0})
free_popped none = pure tt
free_popped (some p) = pcb_free p

-- The loop over the zombies: each is taken out of the dead set, where it is freed, and then freed
-- as the zombie that it is.
reap : List (ℤ × ℕ) → M (Unit {0})
unfolding free_popped
reap [] = pure tt
reap ((_, p) ∷ nodes) = do
  v ← load p
  found ← pop_dead v.pid
  free_popped found
  v' ← load p
  pcb_free p
  reap nodes

-- Some child has exited already. The list is emptied, its count is not reset.
reap_zombies : ℕ → Set ℕ → ℕ → List (ℤ × ℕ) → Bool → ℕ → M Outcome
unfolding reap store_status
reap_zombies p zombies first nodes wanted addr = do
  z ← load first
  reap nodes
  v ← load p
  store p (record v { zombies = some (record zombies { nodes = [] }) })
  store_status wanted addr z.exit_status
  pure (returned (pos 0))

abbrev is_blocked : ProcessState → Bool
is_blocked blocked = true
is_blocked _ = false

-- The loop of `WaitHandler`, also where the blocked process comes back to.
unfoldable pub await_child : ℕ → Bool → M Outcome
unfolding store_status
await_child addr wanted = do
  p ← current
  v ← load p
  if v.waiting && is_blocked v.state
      then (do schedule_next_process; pure (paused (wait_loop addr wanted)))
      else (do store_status wanted addr v.child_exit_status; pure (returned (pos 0)))

block_for_child : ℕ → List (ℤ × ℕ) → ℕ → Bool → M Outcome
unfolding await_child
block_for_child p [] addr wanted = pure (returned error)
block_for_child p (_ ∷ _) addr wanted = do
  v ← load p
  store p (record v { waiting = true; state = blocked })
  await_child addr wanted

wait_with : ℕ → Set ℕ → Set ℕ → List (ℤ × ℕ) → ℕ → Bool → M Outcome
unfolding reap_zombies block_for_child
wait_with p children zombies [] addr wanted = block_for_child p children.nodes addr wanted
wait_with p children zombies ((key, first) ∷ rest) addr wanted =
    reap_zombies p zombies first ((key, first) ∷ rest) wanted addr

-- A status pointer that is NULL or invalid is not used.
status_wanted : ℕ → M Bool
status_wanted addr = if addr == 0 then pure false else check_memory_validity addr

wait_sets : ℕ → Option (Set ℕ) → Option (Set ℕ) → ℕ → M Outcome
unfolding wait_with status_wanted
wait_sets p (some children) (some zombies) addr = do
  wanted ← status_wanted addr
  wait_with p children zombies zombies.nodes addr wanted
wait_sets p _ _ addr = pure (returned error)

wait_current : Option ℕ → ℕ → M Outcome
unfolding wait_sets
wait_current none addr = pure (returned error)
wait_current (some p) addr = do v ← load p; wait_sets p v.children v.zombies addr

-- `WaitHandler`.
unfoldable pub wait_handler : ℕ → M Outcome
unfolding wait_current
wait_handler addr = do curr ← gets (λ k. k.current_process); wait_current curr addr
