-- ===== src/Ipc/Pipes/Serving.antt =====
-- The wake-ups at a pipe: `pop_reader` and `wake_writers`.
use cs58_yalnix.Base.{
  ℕ, ◌≡◌, refl, ◌∙◌, ◌==◌, Option, none, some, List, [], ◌∷◌, ==_refl, All, All-mono, Bool-cases,
  inl, inr,
}
use cs58_yalnix.Base.Int.{ℤ, pos, leb_ℤ}
use cs58_yalnix.Kernel.{
  Kernel, IpcWrapper, Pipe, Pcb, wake, set_state, pop_blocked, push_ready, update,
}
use cs58_yalnix.Kernel.Ensures.{Returns, Returns-bind, Returns-weaken, IsLive}
use cs58_yalnix.Queue
use cs58_yalnix.Queue.{Queue}
use cs58_yalnix.Queue.Laws.{pop-All, pop-All_rest}
use cs58_yalnix.Set
use cs58_yalnix.Ipc.Pipes.{pop_reader, wake_reader}
use cs58_yalnix.Ipc.Pipes.Stream.{bytes}
use cs58_yalnix.Ipc.Pipes.Transfer.{live_pipe_lem, find_assigned}
use cs58_yalnix.Ipc.Pipes.Read.{wake_writers, wake_next_reader}

-- The pipe carries these bytes, region 1 holds those, and nobody that waits has been freed.
pub record Serving (id : ℤ) (content : List ℕ) (user : ℕ → ℕ → ℕ) (k : Kernel) : Type 0 where
  pub wrapper : IpcWrapper
  pub kept : k.ipc_wrapper ≡ some wrapper
  pub pipe : Pipe
  pub found : Set.find wrapper.pipes id ≡ some pipe
  pub size : ℕ
  pub counted : pipe.num_bytes_available ≡ pos size
  pub holds : bytes pipe.buffer size ≡ content
  pub users : k.user_mem ≡ user
  pub readers : All (IsLive k) pipe.readers.items
  pub writers : All (λ n. IsLive k n.1) pipe.writers.nodes

-- What a wake-up leaves alone.
abbrev Undisturbed : Kernel → Kernel → Type 0
Undisturbed k k' =
    (k'.ipc_wrapper ≡ k.ipc_wrapper)
    × (k'.user_mem ≡ k.user_mem)
    × ((q : ℕ) → IsLive k q → IsLive k' q)

update-IsLive :
    (pcbs : ℕ → Option Pcb) (p q : ℕ) (v : Pcb)
    → (u : Pcb) × (pcbs q ≡ some u)
    → (u : Pcb) × (update pcbs p (some v) q ≡ some u)
update-IsLive pcbs p q v live = elim (Bool-cases (p == q)) [
  | inl same ↦ (v, rw same refl)
  | inr apart ↦ (live.0, rw apart (live.1))
]

wake-Undisturbed : (p : ℕ) (k : Kernel) → IsLive k p → Returns (λ _. Undisturbed k) (wake p k)
unfolding wake set_state pop_blocked push_ready
wake-Undisturbed p k live = rw (live.1, ==_refl p) (refl, refl, λ q l. update-IsLive k.pcbs p q _ l)

Serving-kept :
    {id : ℤ} {content : List ℕ} {user : ℕ → ℕ → ℕ} {k k' : Kernel}
    → Undisturbed k k'
    → Serving id content user k
    → Serving id content user k'
Serving-kept {k} {k'} (ipc, mem, lives) c = record {
  wrapper = c.wrapper;
  kept = ipc ∙ c.kept;
  pipe = c.pipe;
  found = c.found;
  size = c.size;
  counted = c.counted;
  holds = c.holds;
  users = mem ∙ c.users;
  readers = All-mono (IsLive k) (IsLive k') lives c.pipe.readers.items c.readers;
  writers =
      All-mono (λ n. IsLive k n.1) (λ n. IsLive k' n.1) (λ n. lives n.1) c.pipe.writers.nodes
        c.writers;
}

module _ (id : ℤ) (content : List ℕ) (user : ℕ → ℕ → ℕ) where
  wake_reader-Serving :
      (o : Option ℕ) (k : Kernel)
      → Serving id content user k
      → ((p : ℕ) → o ≡ some p → IsLive k p)
      → Returns (λ _. Serving id content user) (wake_reader o k)
  unfolding wake_reader
  wake_reader-Serving none k c live = c
  wake_reader-Serving (some p) k c live =
      Returns-weaken (λ _. Undisturbed k) _ (wake p k) (wake-Undisturbed p k (live p refl))
        (λ _ k' u. Serving-kept u c)

  pub wake_writers-Serving :
      (nodes : List (ℤ × ℕ)) (k : Kernel)
      → Serving id content user k
      → All (λ n. IsLive k n.1) nodes
      → Returns (λ _. Serving id content user) (wake_writers nodes k)
  unfolding wake_writers
  wake_writers-Serving [] k c lives = c
  wake_writers-Serving ((_, p) ∷ nodes) k c lives =
      Returns-bind (λ _. Undisturbed k) _ (wake p k) _ (wake-Undisturbed p k lives.0)
        (λ _ k' u.
          wake_writers-Serving nodes k' (Serving-kept u c)
            (All-mono (λ n. IsLive k n.1) (λ n. IsLive k' n.1) (λ n. u.2 n.1) nodes lives.1))

  pop_reader-Serving :
      (k : Kernel)
      → Serving id content user k
      → Returns (λ _. Serving id content user) (pop_reader id k)
  unfolding pop_reader
  pop_reader-Serving k c =
      let popped : Option ℕ × Queue ℕ = Queue.pop c.pipe.readers in
      let w' : IpcWrapper = record c.wrapper {
        pipes = Set.assign c.wrapper.pipes id (record c.pipe { readers = popped.1 });
      } in
      rw (live_pipe_lem id k c.wrapper c.pipe c.kept c.found) (
        wake_reader-Serving popped.0 (record k { ipc_wrapper = some w' })
          (record {
            wrapper = w';
            kept = refl;
            pipe = record c.pipe { readers = popped.1 };
            found =
                find_assigned id c.wrapper c.pipe (record c.pipe { readers = popped.1 }) c.found;
            size = c.size;
            counted = c.counted;
            holds = c.holds;
            users = c.users;
            readers = pop-All_rest (IsLive k) c.pipe.readers c.readers;
            writers = c.writers;
          })
          (pop-All (IsLive k) c.pipe.readers c.readers))

  pub wake_next_reader-Serving :
      (k : Kernel)
      → Serving id content user k
      → Returns (λ _. Serving id content user) (wake_next_reader id k)
  unfolding wake_next_reader
  wake_next_reader-Serving k c =
      rw (live_pipe_lem id k c.wrapper c.pipe c.kept c.found)
        (elim (Bool-cases (leb_ℤ c.pipe.num_bytes_available (pos 0))) [
          | inl drained ↦ rw drained c
          | inr more ↦ rw more (pop_reader-Serving k c)
        ])
