-- ===== src/Tests.antt =====
-- A small machine, and runs of the kernel on it: 8 pages of memory, of which 5 and 6 are free, and
-- an environment 0 that runs on CPU 0 with the page directory in page 2, in which page 4 is mapped
-- at 0.
mod Machine
mod Paging
mod Envs
mod Calls
mod Traps
mod Boot
mod Debugging
mod Loading
mod Forks
mod Terminal
mod Strings
mod Printing
