-- ===== src/Ipc/Invariant.antt =====
-- The well-formed wrappers: every set is well-formed and within its limit, and no id is in use
-- twice, in one set or across the three.
use cs58_yalnix.Base.{
  ◌≤◌, ◌≡◌, true, false, some, List, [], ◌∷◌, arith, length, inl, inr, Bool-cases, ◌&&◌,
}
use cs58_yalnix.Base.Int.{ℤ, pos, is_neg, ltb_ℤ, leb_ℤ, int_suc, int_max, ==ℤ_iff}
use cs58_yalnix.Base.Alloc.{Mem}
use cs58_yalnix.Kernel.{IpcWrapper, Lock, Cvar, Pipe}
use cs58_yalnix.Set
use cs58_yalnix.Set.{Set, has_key, unlink, assign_node}
use cs58_yalnix.Set.Invariant.{
  IsWf, length-assign_node, insert-IsWf, pop-IsWf, assign-IsWf, has_key-unlink, has_key-assign_node,
}
use cs58_yalnix.Ipc.{max_objects}

-- A set of one kind of object, with ids below the next one.
pub record Holds {A : Type 0} (next : ℤ) (s : Set A) : Type 0 where
  pub wf : IsWf s
  pub bounded : length s.nodes ≤ 16
  pub below : (id : ℤ) → has_key id s.nodes ≡ true → ltb_ℤ id next ≡ true

abbrev pub Apart : {A B : Type 0} → Set A → Set B → Type 0
Apart s t = (id : ℤ) → (has_key id s.nodes && has_key id t.nodes) ≡ false

pub record IsValid (w : IpcWrapper) : Type 0 where
  pub next : is_neg w.next_ipc_id ≡ false
  pub locks : Holds w.next_ipc_id w.locks
  pub cvars : Holds w.next_ipc_id w.cvars
  pub pipes : Holds w.next_ipc_id w.pipes
  pub locks_cvars : Apart w.locks w.cvars
  pub locks_pipes : Apart w.locks w.pipes
  pub cvars_pipes : Apart w.cvars w.pipes

-- What an operation may do to one set: nothing new, a write, a removal, or one new object under
-- the next id, while there is room for it.
pub data SetStep {A : Type 0} (next : ℤ) (s : Set A) : Set A → ℤ → Type 0 where
  same : SetStep next s s next
  assigned : (id : ℤ) (x : A) → SetStep next s (Set.assign s id x) next
  popped : (id : ℤ) → SetStep next s (Set.pop s id).1 next
  bumped : SetStep next s s (int_suc next)
  inserted :
      (x : A) (m : Mem)
      → leb_ℤ max_objects s.node_count ≡ false
      → SetStep next s (Set.insert s next (some x) m).1 (int_suc next)

int_suc-lt :
    (id next : ℤ)
    → ltb_ℤ next (pos int_max) ≡ true
    → (ltb_ℤ id next ≡ true → ltb_ℤ id (int_suc next) ≡ true)
      × (ltb_ℤ next (int_suc next) ≡ true)
      × (is_neg next ≡ false → is_neg (int_suc next) ≡ false)
unfolding int_suc
int_suc-lt id next h = ground arith

ltb_ℤ-irrefl : (a : ℤ) → ltb_ℤ a a ≡ true → ⊥
ltb_ℤ-irrefl a h = ground arith

length-unlink-le :
    {A : Type 0} (key : ℤ) (nodes : List (ℤ × A)) → length (unlink key nodes) ≤ length nodes
length-unlink-le key [] = omega arith
length-unlink-le key ((k, x) ∷ nodes) = ground (arith, length-unlink-le key nodes)

module _ {A : Type 0} {next : ℤ} (room : ltb_ℤ next (pos int_max) ≡ true) where
  Holds-int_suc : {s : Set A} → Holds next s → Holds (int_suc next) s
  Holds-int_suc h = record {
    wf = h.wf;
    bounded = h.bounded;
    below = λ id e. (int_suc-lt id next room).0 (h.below id e);
  }

  Holds-insert :
      {s : Set A} (x : A) (m : Mem)
      → leb_ℤ max_objects s.node_count ≡ false
      → Holds next s
      → Holds (int_suc next) (Set.insert s next (some x) m).1
  unfolding Set.insert
  Holds-insert {s} x m few h = record {
    wf = insert-IsWf s next (some x) m h.wf;
    bounded = ground (arith, h.wf.counted, h.bounded);
    below = λ id e. ground (arith, int_suc-lt id next room, h.below id, ==ℤ_iff id next);
  }

  Holds-pop : {s : Set A} (id : ℤ) → Holds next s → Holds next (Set.pop s id).1
  unfolding Set.pop
  Holds-pop {s} id h = record {
    wf = pop-IsWf s id h.wf;
    bounded = ground (arith, h.bounded, length-unlink-le id s.nodes);
    below = λ other e. ground (arith, h.below other, has_key-unlink id other s.nodes);
  }

  Holds-assign : {s : Set A} (id : ℤ) (x : A) → Holds next s → Holds next (Set.assign s id x)
  unfolding Set.assign
  Holds-assign {s} id x h = record {
    wf = assign-IsWf s id x h.wf;
    bounded = rw (length-assign_node id x s.nodes) h.bounded;
    below = λ other e. h.below other (rw (has_key-assign_node id other x s.nodes) at e);
  }

  Holds-SetStep :
      {s s' : Set A} {next' : ℤ} → SetStep next s s' next' → Holds next s → Holds next' s'
  Holds-SetStep same h = h
  Holds-SetStep (assigned id x) h = Holds-assign id x h
  Holds-SetStep (popped id) h = Holds-pop id h
  Holds-SetStep bumped h = Holds-int_suc h
  Holds-SetStep (inserted x m few) h = Holds-insert x m few h

-- The next id is in no set.
module _ {B : Type 0} {next : ℤ} {t : Set B} (used : Holds next t) where
  fresh : has_key next t.nodes ≡ false
  fresh = elim (Bool-cases (has_key next t.nodes)) [
    | inl taken ↦ absurd (ltb_ℤ-irrefl next (used.below next taken))
    | inr free ↦ free
  ]

  Apart-SetStep :
      {A : Type 0} {s s' : Set A} {next' : ℤ} → SetStep next s s' next' → Apart s t → Apart s' t
  unfolding Set.assign Set.pop Set.insert
  Apart-SetStep same a id = a id
  Apart-SetStep bumped a id = a id
  Apart-SetStep {s} (assigned key x) a id = rw (has_key-assign_node key id x s.nodes) (a id)
  Apart-SetStep {s} (popped key) a id = ground (arith, a id, has_key-unlink key id s.nodes)
  Apart-SetStep {s} (inserted x m few) a id = ground (arith, a id, fresh, ==ℤ_iff id next)

Apart-sym : {A B : Type 0} (s : Set A) (t : Set B) → Apart s t → Apart t s
Apart-sym s t a id = ground (arith, a id)

next-SetStep :
    {A : Type 0} {next next' : ℤ} {s s' : Set A}
    → ltb_ℤ next (pos int_max) ≡ true
    → SetStep next s s' next'
    → is_neg next ≡ false
    → is_neg next' ≡ false
next-SetStep room same h = h
next-SetStep room (assigned id x) h = h
next-SetStep room (popped id) h = h
next-SetStep {next} room bumped h = (int_suc-lt next next room).2 h
next-SetStep {next} room (inserted x m few) h = (int_suc-lt next next room).2 h

Holds-next :
    {A B : Type 0} {next next' : ℤ} {s s' : Set A} {t : Set B}
    → ltb_ℤ next (pos int_max) ≡ true
    → SetStep next s s' next'
    → Holds next t
    → Holds next' t
Holds-next room same h = h
Holds-next room (assigned id x) h = h
Holds-next room (popped id) h = h
Holds-next room bumped h = Holds-int_suc room h
Holds-next room (inserted x m few) h = Holds-int_suc room h

-- A step of one set of the wrapper, while ids are left.
module _ {w : IpcWrapper} {next' : ℤ} (v : IsValid w)
    (room : ltb_ℤ w.next_ipc_id (pos int_max) ≡ true) where
  pub lock_step-IsValid :
      {s : Set Lock}
      → SetStep w.next_ipc_id w.locks s next'
      → IsValid (record w { next_ipc_id = next'; locks = s })
  lock_step-IsValid st = record {
    next = next-SetStep room st v.next;
    locks = Holds-SetStep room st v.locks;
    cvars = Holds-next room st v.cvars;
    pipes = Holds-next room st v.pipes;
    locks_cvars = Apart-SetStep v.cvars st v.locks_cvars;
    locks_pipes = Apart-SetStep v.pipes st v.locks_pipes;
    cvars_pipes = v.cvars_pipes;
  }

  pub cvar_step-IsValid :
      {s : Set Cvar}
      → SetStep w.next_ipc_id w.cvars s next'
      → IsValid (record w { next_ipc_id = next'; cvars = s })
  cvar_step-IsValid {s} st = record {
    next = next-SetStep room st v.next;
    locks = Holds-next room st v.locks;
    cvars = Holds-SetStep room st v.cvars;
    pipes = Holds-next room st v.pipes;
    locks_cvars =
        Apart-sym s w.locks (Apart-SetStep v.locks st (Apart-sym w.locks w.cvars v.locks_cvars));
    locks_pipes = v.locks_pipes;
    cvars_pipes = Apart-SetStep v.pipes st v.cvars_pipes;
  }

  pub pipe_step-IsValid :
      {s : Set Pipe}
      → SetStep w.next_ipc_id w.pipes s next'
      → IsValid (record w { next_ipc_id = next'; pipes = s })
  pipe_step-IsValid {s} st = record {
    next = next-SetStep room st v.next;
    locks = Holds-next room st v.locks;
    cvars = Holds-next room st v.cvars;
    pipes = Holds-SetStep room st v.pipes;
    locks_cvars = v.locks_cvars;
    locks_pipes =
        Apart-sym s w.locks (Apart-SetStep v.locks st (Apart-sym w.locks w.pipes v.locks_pipes));
    cvars_pipes =
        Apart-sym s w.cvars (Apart-SetStep v.cvars st (Apart-sym w.cvars w.pipes v.cvars_pipes));
  }
