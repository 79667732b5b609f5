-- ===== src/Tests/Terminals.antt =====
-- The terminals at work.
use cs58_yalnix.Base.{
  ℕ, ◌≡◌, ◌≤◌, ◌<◌, refl, true, false, some, List, [], ◌∷◌, All, arith, ◌*◌, ◌+◌, ◌-◌, ltb, ap, ◌∙◌,
}
use cs58_yalnix.Base.Int.{pos}
use cs58_yalnix.Kernel.{Kernel, M, ok, ready, running, returned, paused, tty_write_loop, Outcome}
use cs58_yalnix.Kernel.Ensures.{Ensures, Returns, Returns-result}
use cs58_yalnix.Kernel.Memory.{check_memory_validity, get_raw_page_no}
use cs58_yalnix.Ipc.Pipes.{bad_buffer}
use cs58_yalnix.Ipc.Locks.{unlocked}
use cs58_yalnix.Set
use cs58_yalnix.Kernel.Scheduler.Laws.{CanRun}
use cs58_yalnix.Tty.{min, terminal_at, put_terminal}
use cs58_yalnix.Tty.Write.Blocking.{transmit_from-blocks}
use cs58_yalnix.Tty.Frame.{AllTerminals}
use cs58_yalnix.Tty.Calls.{TtyCall, read, write, received, transmitted, scheduled, run}
use cs58_yalnix.Tty.Calls.Invariant.{IsUsable, run-IsUsable}
use cs58_yalnix.Tty.Calls.Exclusive.{IsHeld, sent_to, run-exclusive}
use cs58_yalnix.Tty.Write.{
  segment, transmit_from, tty_write_resume, finish_write, pop_writer, unblock_next,
}
use cs58_yalnix.Queue
use cs58_yalnix.Tty.Write.Rounds.{Rounds, over, round, Rounds-send, joined, Fits}
use cs58_yalnix.Tty.Read.{bad_read, tty_read_handler}
use cs58_yalnix.Tty.Read.Immediate.{Taken, tty_read_handler-takes}
use cs58_yalnix.Tests.Sample.{
  machine, lock_of, terminal, hw, page, process, fit, first_address, second_address,
}

abbrev quiet_machine : Kernel
quiet_machine = machine running (lock_of unlocked [] (pos 0))

-- A write, a line that comes in, the end of the write's first round, and a read.
abbrev calls : List TtyCall
calls =
    write (pos 1) 1073152 (pos 3)
    ∷ received (λ _. 90) (λ i. i) 5 (pos 1)
    ∷ scheduled
    ∷ transmitted (pos 1)
    ∷ read (pos 1) 1073152 (pos 2)
    ∷ []

run-IsUsable_example :
    Ensures (λ _ k'. AllTerminals (IsUsable hw) k'.tty_state) (run calls quiet_machine)
run-IsUsable_example = run-IsUsable quiet_machine calls (λ i inside. (λ e. refl, omega arith))

-- Process 1 writes to every terminal.
abbrev writing_machine : Kernel
writing_machine = record quiet_machine {
  tty_state = some (λ _. record terminal { availability = false; curr_writer = some 100 });
  transmitted = (1, 65 ∷ []) ∷ [];
}

run-exclusive_example :
    Ensures
      (λ _ k'.
        AllTerminals (IsHeld 1 100) k'.tty_state × (sent_to 1 k'.transmitted ≡ (65 ∷ []) ∷ []))
      (run calls writing_machine)
run-exclusive_example =
    run-exclusive writing_machine 1 100 calls (λ j same. (refl, refl))
      (refl, (refl, (refl, (refl, (refl, tt)))))

-- The terminals hold a line.
abbrev line_machine : Kernel
line_machine = record quiet_machine {
  tty_state = some (λ _. record terminal { bytes_available = 5 });
}

tty_read_handler-takes_example :
    Returns
      (λ rc k'.
        (rc ≡ returned (pos 0))
        × Taken line_machine
            (λ _. record terminal { bytes_available = 5 })
            1
            refl
            refl
            5000
            1073152
            2
            refl
            k')
      (tty_read_handler (pos 1) 1073152 (pos 2) line_machine)
unfolding check_memory_validity bad_read bad_buffer get_raw_page_no
tty_read_handler-takes_example =
    tty_read_handler-takes line_machine (λ _. record terminal { bytes_available = 5 }) 1 refl refl
      5000 1073152 2 refl refl refl (omega arith) (omega arith) (omega arith) refl

-- Process 1 sends, and process 2 is ready.
abbrev sending_machine : Kernel
sending_machine = machine ready (lock_of unlocked [] (pos 0))

abbrev sender : CanRun hw (λ _. page) sending_machine.pcbs 100 (process (pos 1) ready)
sender = fit sending_machine.pcbs 100 (pos 1) ready refl first_address

abbrev other : CanRun hw (λ _. page) sending_machine.pcbs 200 (process (pos 2) ready)
other = fit sending_machine.pcbs 200 (pos 2) ready refl second_address

transmit_from-blocks_example :
    Returns
      (λ rc k'.
        (rc ≡ paused (tty_write_loop 1 (λ i. i) 1030 1024))
        × (k'.current_process ≡ some 200)
        × (k'.process_ready_queue.items ≡ [])
        × (Set.find k'.blocked_pcbs (pos 1) ≡ some 100)
        × (k'.transmitted ≡ (1, 1024 ∷ 1025 ∷ 1026 ∷ 1027 ∷ 1028 ∷ 1029 ∷ []) ∷ []))
      (transmit_from 1 (λ i. i) 1030 1024 sending_machine)
unfolding Set.find
transmit_from-blocks_example =
    transmit_from-blocks sending_machine 100 200 [] (process (pos 1) ready) (process (pos 2) ready)
      sender other refl refl refl (λ _. terminal) 1 refl refl (λ i. i) 1030 1024 refl refl refl refl

-- A round of a write of 1030 bytes: a part that does what the loop does from there.
sending_round :
    (part : M Outcome) (start : ℕ) (chunks : List (List ℕ))
    → part sending_machine ≡ transmit_from 1 (λ i. i) 1030 start sending_machine
    → ltb start 1030 ≡ true
    → Rounds 1 (λ i. i) 1030 1024 (tty_write_resume 1 (λ i. i) 1030 start) chunks
    → Rounds 1 (λ i. i) 1030 1024 part (segment (λ i. i) start (min (1030 - start) 1024) ∷ chunks)
unfolding Set.find
sending_round part start chunks same more later =
    let (rc, k', e, c) = Returns-result _ _ (
      transmit_from-blocks sending_machine 100 200 [] (process (pos 1) ready)
        (process (pos 2) ready) sender other refl refl refl (λ _. terminal) 1 refl refl (λ i. i)
        1030 start more refl refl refl) in
    round sending_machine k' start _ refl (same ∙ e ∙ ap (λ o. ok o k') (c.0)) (c.4) later

last_part_sends :
    Returns (λ _ k'. k'.transmitted ≡ []) (tty_write_resume 1 (λ i. i) 1030 1024 sending_machine)
unfolding tty_write_resume transmit_from finish_write terminal_at put_terminal pop_writer
    unblock_next Queue.pop
last_part_sends = refl

last_part : Rounds 1 (λ i. i) 1030 1024 (tty_write_resume 1 (λ i. i) 1030 1024) []
last_part =
    let (o, k', run, kept) = Returns-result _ _ last_part_sends in
    over sending_machine k' o refl run kept

second_part :
    Rounds 1 (λ i. i) 1030 1024 (tty_write_resume 1 (λ i. i) 1030 0) (segment (λ i. i) 1024 6 ∷ [])
unfolding tty_write_resume
second_part = sending_round (tty_write_resume 1 (λ i. i) 1030 0) 1024 [] refl refl last_part

Rounds-send_example :
    (joined (segment (λ i. i) 0 1024 ∷ segment (λ i. i) 1024 6 ∷ []) ≡ segment (λ i. i) 0 1030)
    × All (Fits 1024) (segment (λ i. i) 0 1024 ∷ segment (λ i. i) 1024 6 ∷ [])
    × (1030 ≤ 1024 * 2)
    × (1024 * 2 < 1030 + 1024)
Rounds-send_example = Rounds-send 0 (omega arith) (
    sending_round (transmit_from 1 (λ i. i) 1030 0) 0 (segment (λ i. i) 1024 6 ∷ []) refl refl
      second_part)
