-- ===== src/Tests.antt =====
-- The code run on a small machine: two or three processes, one of which runs, a program to load,
-- a lock, a condition variable, a pipe, terminals and a page table.
mod Sample
mod Sets
mod Programs
mod Start
mod Forks
mod Turns
mod Terminals
mod Memory
mod Objects
mod Locks
mod Delays
mod Processes
