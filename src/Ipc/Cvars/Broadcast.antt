-- ===== src/Ipc/Cvars/Broadcast.antt =====
-- What `cvar_broadcast` does to the processes that wait.
use cs58_yalnix.Base.{
  ℕ, zero, suc, ◌+◌, ◌<◌, ◌≡◌, refl, Option, none, some, List, [], ◌∷◌, length, arith, All,
  Bool-cases, inl, inr,
}
use cs58_yalnix.Base.Int.{ℤ, pos, leb_ℤ, ◌-ℤ◌}
use cs58_yalnix.Kernel.{Kernel, Cvar, IpcWrapper, malloc, ◌>>◌, pure}
use cs58_yalnix.Kernel.Ensures.{IsLive, Returns, Returns-bind}
use cs58_yalnix.Set
use cs58_yalnix.Queue
use cs58_yalnix.Queue.{Queue}
use cs58_yalnix.Ipc.{put_cvar, with_wrapper-none, with_wrapper-some}
use cs58_yalnix.Ipc.Cvars.{broadcast_loop, broadcast_popped, broadcast_found, cvar_broadcast}

-- The count of a queue falls twice as fast as the loop's bound allows: it gives up before the
-- queue is empty.
broadcast_loop-none :
    (fuel i : ℕ) (pids : List ℤ) (p key : ℕ) (ps : List ℕ) (c : ℤ) (k : Kernel)
    → IsLive k p
    → All (IsLive k) ps
    → c ≡ pos (length ps)
    → length ps < fuel
    → Returns
        (λ (r, q) k'. (r ≡ none) × (k' ≡ k))
        (broadcast_loop fuel i pids (some p, record { items = ps; next_key = key; count = c }) k)
unfolding broadcast_loop Queue.pop
broadcast_loop-none zero i pids p key ps c k live lives e h = absurd (omega arith)
broadcast_loop-none (suc fuel) i pids p key [] c k live lives e h = ground arith
broadcast_loop-none (suc fuel) i pids p key (x ∷ xs) c k live lives e h =
    elim (Bool-cases (leb_ℤ c (pos i))) [
      | inl stop ↦ rw stop (refl, refl)
      | inr go ↦
          rw (go, live.1)
            (broadcast_loop-none fuel (i + 1) _ x key xs (c -ℤ pos 1) k lives.0 lives.1
              (ground arith) (omega arith))
    ]

-- No array, and nobody on the ready queue who was not there before.
abbrev pub WakesNobody : Kernel → Option (List ℤ) → Kernel → Type 0
WakesNobody k r k' =
    (r ≡ none)
    × (k'.process_ready_queue ≡ k.process_ready_queue)
    × (k'.delayed_pcbs ≡ k.delayed_pcbs)

-- Each process in the queue has a block, and the queue's count is right.
abbrev pub Waits : Kernel → Queue ℕ → Type 0
Waits k q = (q.count ≡ pos (length q.items)) × All (IsLive k) q.items

broadcast_popped-none :
    (w : IpcWrapper) (id : ℤ) (cvar : Cvar) (ps : List ℕ) (key : ℕ) (c : ℤ) (k : Kernel)
    → c ≡ pos (length ps)
    → All (IsLive k) ps
    → Returns (WakesNobody k) (
        broadcast_popped w id cvar (Queue.pop (record { items = ps; next_key = key; count = c })) k)
unfolding broadcast_popped Queue.pop
broadcast_popped-none w id cvar [] key c k e lives = (refl, refl, refl)
broadcast_popped-none w id cvar (p ∷ ps) key c k e lives =
    Returns-bind {A = Option (List ℤ) × Queue ℕ} (λ (r, q) k'. (r ≡ none) × (k' ≡ k))
      (WakesNobody k) _ (λ (r, q). put_cvar w id (record cvar { waiters = q }) >> pure r)
      (broadcast_loop-none (length ps + 1) 0 [] p key ps (c -ℤ pos 1) k lives.0 lives.1
        (ground arith) (omega arith))
      (λ (r, q) k' h. rw (h.1) (h.0, refl, refl))

broadcast_found-none :
    (w : IpcWrapper) (id : ℤ) (found : Option Cvar) (k : Kernel)
    → ((c : Cvar) → found ≡ some c → Waits k c.waiters)
    → Returns (WakesNobody k) (broadcast_found w id found k)
unfolding broadcast_found malloc
broadcast_found-none w id none k live = (refl, refl, refl)
broadcast_found-none w id (some c) k live = elim (Bool-cases (k.mem 0)) [
  | inl got ↦ rw got (
      broadcast_popped-none w id c c.waiters.items c.waiters.next_key c.waiters.count _
        (live c refl).0 (live c refl).1)
  | inr no_room ↦ rw no_room (refl, refl, refl)
]

-- The condition variable that the wrapper holds under the id.
abbrev pub cvar_at : Option IpcWrapper → ℤ → Option Cvar
cvar_at none id = none
cvar_at (some w) id = Set.find w.cvars id

broadcast_with-none :
    (wrapper : Option IpcWrapper) (id : ℤ) (k : Kernel)
    → k.ipc_wrapper ≡ wrapper
    → ((c : Cvar) → cvar_at wrapper id ≡ some c → Waits k c.waiters)
    → Returns (WakesNobody k) (cvar_broadcast id k)
unfolding cvar_broadcast
broadcast_with-none none id k e live = rw (with_wrapper-none _ _ k e) (refl, refl, refl)
broadcast_with-none (some w) id k e live =
    rw (with_wrapper-some _ _ k e) (broadcast_found-none w id (Set.find w.cvars id) k live)

-- `cvar_broadcast` never hands out an array, however many processes wait: where no block in the
-- queue of the condition variable has been freed and the queue's count is right, it returns NULL,
-- and the ready queue and the delayed processes stay as they were.
pub cvar_broadcast-none :
    (k : Kernel) (id : ℤ)
    → ((c : Cvar) → cvar_at k.ipc_wrapper id ≡ some c → Waits k c.waiters)
    → Returns (WakesNobody k) (cvar_broadcast id k)
cvar_broadcast-none k id live = broadcast_with-none k.ipc_wrapper id k refl live
