-- ===== src/Process/Delay/Clock.antt =====
-- How long a delay lasts: `TrapClockHandler`, again and again.
use cs58_yalnix.Base.{
  ℕ, suc, ◌≡◌, refl, ap, ◌∙◌, ==_refl, true, false, Option, some, List, [], ◌∷◌, ◌++◌, length, All,
  All-mono, ◌==◌, Bool-cases, inl, inr,
}
use cs58_yalnix.Base.Int.{pos, is_neg, ==ℤ_refl}
use cs58_yalnix.Kernel.{
  Kernel, Pcb, UserContext, M, ok, pure, ◌>>◌, update, ready, save_user_context, paused, clock_over,
}
use cs58_yalnix.Kernel.Ensures.{Returns}
use cs58_yalnix.Kernel.Scheduler.Laws.{schedule_ready_lem}
use cs58_yalnix.Kernel.Scheduler.Turns.{
  IsFit, IsFair, Distinct, Distinct-rotate, ==_false_sym, All-last, next_turn, next_turn_lem,
  fit_self, fit_other,
}
use cs58_yalnix.Set
use cs58_yalnix.Process.Delay.{trap_clock_handler}
use cs58_yalnix.Process.Delay.Countdown.{Delayed, ticked, woken, count_down-more, count_down-last}

-- Clock traps one after another, each with the context of the user that ran.
unfoldable pub clock_traps : List UserContext → M (Unit {0})
clock_traps [] = pure tt
clock_traps (u ∷ us) = do trap_clock_handler u; clock_traps us

-- A process that is fit to run and has a user context.
pub record IsUser (k : Kernel) (x : ℕ) : Type 0 where
  pub fit : IsFit k x
  pub context : UserContext
  pub has_context : fit.v.usr_ctx ≡ some context

-- The process at `r` runs, those at `qs` are ready, no two are the same, and each is fit to run. The
-- one at `p` is another one and the only one that is delayed, for `n` more ticks. Memory does not run
-- out.
pub record Sleeps (n : ℕ) (k : Kernel) (r : ℕ) (qs : List ℕ) (p : ℕ) (v : Pcb) : Type 0 where
  pub runs : k.current_process ≡ some r
  pub line : k.process_ready_queue.items ≡ qs
  pub distinct : Distinct (r ∷ qs)
  pub users : All (IsUser k) (r ∷ qs)
  pub room : (m : ℕ) → k.mem m ≡ true
  pub delayed : Delayed p n k v
  pub has_pid : is_neg v.pid ≡ false
  pub apart : All (λ x. (p == x) ≡ false) (r ∷ qs)

-- The running process's context is saved.
abbrev saved : (k : Kernel) (r : ℕ) → IsUser k r → UserContext → Kernel
saved k r w u = record k { pcbs = update k.pcbs r (some (record w.fit.v { usr_ctx = some u })) }

-- A block that is written leaves the other ones as they are.
IsUser-written :
    (k : Kernel) (p x : ℕ) (o : Option Pcb)
    → (p == x) ≡ false
    → IsUser k x
    → IsUser (record k { pcbs = update k.pcbs p o }) x
IsUser-written k p x o apart f = record {
  fit = record {
    v = f.fit.v;
    can_run = record {
      block = rw apart (f.fit.can_run.block);
      address = f.fit.can_run.address;
      context = f.fit.can_run.context;
      has_context = f.fit.can_run.has_context;
      context_address = f.fit.can_run.context_address;
      stack = f.fit.can_run.stack;
      has_stack = f.fit.can_run.has_stack;
    };
    is_ready = f.fit.is_ready;
    block_below = f.fit.block_below;
    context_below = f.fit.context_below;
  };
  context = f.context;
  has_context = f.has_context;
}

IsUser-self :
    (k : Kernel) (r : ℕ) (w : IsUser k r) (u : UserContext) (x : ℕ)
    → (r == x) ≡ true
    → IsUser k x
    → IsUser (saved k r w u) x
IsUser-self k r w u x same f = record {
  fit = record {
    v = record w.fit.v { usr_ctx = some u };
    can_run = record {
      block = rw same refl;
      address = f.fit.can_run.address;
      context = w.fit.can_run.context;
      has_context = w.fit.can_run.has_context;
      context_address = w.fit.can_run.context_address;
      stack = w.fit.can_run.stack;
      has_stack = w.fit.can_run.has_stack;
    };
    is_ready = w.fit.is_ready;
    block_below = f.fit.block_below;
    context_below = w.fit.context_below;
  };
  context = u;
  has_context = refl;
}

IsUser-saved :
    (k : Kernel) (r : ℕ) (w : IsUser k r) (u : UserContext) (x : ℕ)
    → IsUser k x
    → IsUser (saved k r w u) x
IsUser-saved k r w u x f = elim (Bool-cases (r == x)) [
  | inl same ↦ IsUser-self k r w u x same f
  | inr apart ↦ IsUser-written k r x (some (record w.fit.v { usr_ctx = some u })) apart f
]

IsUser-next :
    (k : Kernel) (r q : ℕ) (qs : List ℕ) (from : IsUser k r) (to : IsFit k q) (x : ℕ)
    → IsUser k x
    → IsUser (next_turn k r q qs from.fit to) x
unfolding fit_self fit_other
IsUser-next k r q qs from to x f = elim (Bool-cases (r == x)) [
  | inl same ↦ record {
    fit = fit_self k r q qs from.fit to x same f.fit;
    context = from.context;
    has_context = from.has_context;
  }
  | inr apart ↦ record {
    fit = fit_other k r q qs from.fit to x apart f.fit;
    context = f.context;
    has_context = f.has_context;
  }
]

All-both :
    (P Q R : ℕ → Type 0) (xs : List ℕ)
    → ((x : ℕ) → P x → Q x → R x)
    → All P xs
    → All Q xs
    → All R xs
All-both P Q R [] f a b = tt
All-both P Q R (x ∷ xs) f a b = (f x a.0 b.0, All-both P Q R xs f a.1 b.1)

save_lem :
    (k : Kernel) (r : ℕ) (w : IsUser k r) (u : UserContext)
    → k.current_process ≡ some r
    → save_user_context u k ≡ ok tt (saved k r w u)
unfolding save_user_context
save_lem k r w u runs = rw (runs, w.fit.can_run.block, w.has_context)

-- The user's context is saved, and the delayed process has so many ticks left.
abbrev counted : (k : Kernel) (r : ℕ) → IsUser k r → UserContext → ℕ → Pcb → ℕ → Kernel
counted k r w u p v n = ticked (saved k r w u) p v n

IsUser-counted :
    (k : Kernel) (r : ℕ) (w : IsUser k r) (u : UserContext) (p : ℕ) (v : Pcb) (n x : ℕ)
    → (p == x) ≡ false
    → IsUser k x
    → IsUser (counted k r w u p v n) x
IsUser-counted k r w u p v n x apart f =
    IsUser-written (saved k r w u) p x (some (record v { delay_ticks = pos n })) apart
      (IsUser-saved k r w u x f)

-- The other one's block after the user's context is saved.
Delayed-saved :
    (k : Kernel) (r : ℕ) (w : IsUser k r) (u : UserContext) (p n : ℕ) (v : Pcb)
    → (p == r) ≡ false
    → Delayed p n k v
    → Delayed p n (saved k r w u) v
Delayed-saved k r w u p n v apart d = record {
  block = rw (==_false_sym p r apart) d.block;
  alone = d.alone;
  ticks = d.ticks;
}

-- A clock trap that does not end the delay.
module _ (k : Kernel) (r q : ℕ) (qs : List ℕ) (p : ℕ) (v : Pcb) (n : ℕ) (u : UserContext)
    (s : Sleeps (suc (suc n)) k r (q ∷ qs) p v) where
  abbrev ticking : Kernel
  ticking = counted k r s.users.0 u p v (suc n)

  still : (x : ℕ) → (p == x) ≡ false → IsUser k x → IsUser ticking x
  still = IsUser-counted k r s.users.0 u p v (suc n)

  abbrev from : IsUser ticking r
  from = still r s.apart.0 s.users.0

  abbrev to : IsUser ticking q
  to = still q s.apart.1.0 s.users.1.0

  abbrev others : All (IsUser ticking) qs
  others =
      All-both (λ x. (p == x) ≡ false) (IsUser k) (IsUser ticking) qs still s.apart.1.1 s.users.1.1

  fair : IsFair ticking r (q ∷ qs)
  fair = record {
    runs = s.runs;
    line = s.line;
    distinct = s.distinct;
    fit = (from.fit, (to.fit, All-mono (IsUser ticking) (IsFit ticking) (λ x f. f.fit) qs others));
    room = s.room;
  }

  abbrev trapped : Kernel
  trapped = next_turn ticking r q qs from.fit to.fit

  trap_lem : trap_clock_handler u k ≡ ok (paused clock_over) trapped
  unfolding trap_clock_handler fair
  trap_lem =
      let d = Delayed-saved k r s.users.0 u p (suc (suc n)) v s.apart.0 s.delayed in
      rw
        (
          save_lem k r s.users.0 u s.runs,
          count_down-more p n (saved k r s.users.0 u) v d,
          next_turn_lem ticking r q qs fair,
        )
        refl

  Sleeps-next : Sleeps (suc n) trapped q (qs ++ r ∷ []) p (record v { delay_ticks = pos (suc n) })
  Sleeps-next =
      let next = IsUser-next ticking r q qs from to.fit in
      let moved = All-mono (IsUser ticking) (IsUser trapped) next qs others in
      record {
        runs = refl;
        line = refl;
        distinct = Distinct-rotate r (q ∷ qs) s.distinct;
        users = (next q to, All-last (IsUser trapped) qs r moved (next r from));
        room = λ m. s.room (suc m);
        delayed = record {
          block = rw (==_false_sym p r s.apart.0, ==_refl p) refl;
          alone = s.delayed.alone;
          ticks = refl;
        };
        has_pid = s.has_pid;
        apart = (s.apart.1.0, All-last (λ x. (p == x) ≡ false) qs r s.apart.1.1 s.apart.0);
      }

-- The clock trap that ends the delay.
abbrev pub Awake : ℕ → Pcb → ℕ → ℕ → List ℕ → Kernel → Type 0
Awake p v r q qs k =
    (k.pcbs p ≡ some (record v { delay_ticks = pos 0; state = ready }))
    × (k.delayed_pcbs.nodes ≡ [])
    × (k.current_process ≡ some q)
    × (k.process_ready_queue.items ≡ (qs ++ p ∷ []) ++ r ∷ [])

awake_lem :
    (k : Kernel) (r q : ℕ) (qs : List ℕ) (p : ℕ) (v : Pcb) (u : UserContext)
    → Sleeps 1 k r (q ∷ qs) p v
    → Returns (λ _. Awake p v r q qs) (trap_clock_handler u k)
unfolding trap_clock_handler Set.pop
awake_lem k r q qs p v u s =
    let k' = saved k r s.users.0 u in
    let d = Delayed-saved k r s.users.0 u p 1 v s.apart.0 s.delayed in
    let c = counted k r s.users.0 u p v 0 in
    let block = some (record v { delay_ticks = pos 0; state = ready }) in
    let still : (x : ℕ)
        → (p == x) ≡ false
        → IsUser k x
        → IsUser (record c { pcbs = update c.pcbs p block }) x =
      λ x a f. IsUser-written c p x block a (IsUser-counted k r s.users.0 u p v 0 x a f) in
    let from = still r s.apart.0 s.users.0 in
    let to = still q s.apart.1.0 s.users.1.0 in
    let can = schedule_ready_lem (woken k' p v) r q (qs ++ p ∷ []) in
    rw
      (
        save_lem k r s.users.0 u s.runs,
        count_down-last p k' v d (s.room 0),
        can from.fit.v to.fit.v from.fit.can_run to.fit.can_run s.distinct.0.0 s.runs
            (ap (λ l. l ++ p ∷ []) s.line) from.fit.is_ready (s.room 1),
      )
      (
        rw (==_false_sym p r s.apart.0, ==_refl p) refl,
        rw (s.has_pid, s.delayed.alone, ==ℤ_refl v.pid) (rw (==ℤ_refl v.pid) refl),
        refl,
        refl,
      )

-- The process at `p`, delayed with one tick left, is neither running nor ready.
abbrev pub Asleep : ℕ → Pcb → ℕ → ℕ → List ℕ → Kernel → Type 0
Asleep p v r q qs k =
    (k.pcbs p ≡ some (record v { delay_ticks = pos 1 }))
    × (k.delayed_pcbs.nodes ≡ (v.pid, p) ∷ [])
    × (k.current_process ≡ some r)
    × (k.process_ready_queue.items ≡ q ∷ qs)
    × All (λ x. (p == x) ≡ false) (r ∷ q ∷ qs)

-- A kernel in which the delay ends with the next clock trap.
abbrev pub IsLastTick : ℕ → Pcb → UserContext → Kernel → Type 0
IsLastTick p v u k =
    (r : ℕ) × (q : ℕ) × (qs : List ℕ) × (Asleep p v r q qs k
      × Returns (λ _. Awake p v r q qs) (trap_clock_handler u k))

last_tick :
    (k : Kernel) (r q : ℕ) (qs : List ℕ) (p : ℕ) (v : Pcb) (u : UserContext)
    → Sleeps 1 k r (q ∷ qs) p v
    → IsLastTick p v u k
last_tick k r q qs p v u s =
    let block = s.delayed.block ∙ ap (λ t. some (record v { delay_ticks = t })) s.delayed.ticks in
    (r, q, qs, ((block, s.delayed.alone, s.runs, s.line, s.apart), awake_lem k r q qs p v u s))

-- How long a delay lasts. Let no two of the processes that run or are ready be the same, each be fit
-- to run with a user context, the ready queue not be empty, memory never run out, and one other
-- process, with a pid that is not negative, be the only delayed one, with `n + 1` ticks left. After
-- `n` clock traps, each with its context of the user, its process control block is as it was but
-- for the ticks, of which one is left, it alone is delayed, and it neither runs nor is ready. With
-- one more clock trap it is ready, has no ticks left and is no longer delayed: the first one of the
-- ready queue runs, and the queue ends with the process that was delayed and the one that ran.
pub delay_lasts :
    (us : List UserContext) (u : UserContext) (p q : ℕ) (qs : List ℕ) (v : Pcb) {k : Kernel} {r : ℕ}
    → Sleeps (suc (length us)) k r (q ∷ qs) p v
    → Returns (λ _. IsLastTick p v u) (clock_traps us k)
unfolding clock_traps
delay_lasts [] u p q qs v {k} {r} s = last_tick k r q qs p v u s
delay_lasts (w ∷ us) u p q [] v {k} {r} s =
    let v' = record v { delay_ticks = pos (suc (length us)) } in
    rw (trap_lem k r q [] p v (length us) w s)
      (delay_lasts us u p r [] v' (Sleeps-next k r q [] p v (length us) w s))
delay_lasts (w ∷ us) u p q (x ∷ qs) v {k} {r} s =
    let v' = record v { delay_ticks = pos (suc (length us)) } in
    rw (trap_lem k r q (x ∷ qs) p v (length us) w s)
      (delay_lasts us u p x (qs ++ r ∷ []) v' (Sleeps-next k r q (x ∷ qs) p v (length us) w s))
