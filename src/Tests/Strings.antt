-- ===== src/Tests/Strings.antt =====
-- Runs of the code of lib/string.c and of the console's input buffer.
use library_os_exokernel_imp.Base.{
  ℕ, ◌<◌, ◌+◌, ◌-◌, ◌≡◌, refl, ◌&&◌, if◌then◌else◌, ltb, leb, List, [], ◌∷◌, ◌++◌, arith,
}
use library_os_exokernel_imp.Console.{Cons, cons_intr}
use library_os_exokernel_imp.Console.Fifo.{IsQueue, Holds, received, IsQueue-cons_intr}
use library_os_exokernel_imp.Str.Chars.Copy.{length}
use library_os_exokernel_imp.Str.Memory.{memmove}
use library_os_exokernel_imp.Str.Memory.Move.{memmove-moved}

-- The blocks at 8 and at 4 overlap.
memmove-moved_example :
    memmove 8 4 8 (λ a. a) 10 ≡ (if leb 8 10 && ltb 10 (8 + 8) then 4 + (10 - 8) else 10)
memmove-moved_example = memmove-moved 8 4 8 (λ a. a) 10 (omega arith) (omega arith)

abbrev a_string : List ℕ
a_string = 97 ∷ []

abbrev b_string : List ℕ
b_string = 98 ∷ []

-- An empty buffer, at the end of its array.
abbrev empty_cons : Cons
empty_cons = record { buf = λ _. 0; rpos = 511; wpos = 511 }

empty_cons-IsQueue : IsQueue empty_cons []
unfolding Holds
empty_cons-IsQueue = record { reads = omega arith; writes = refl; room = omega arith; holds = tt }

received-length : received (97 ∷ 0 ∷ 98 ∷ []) ≡ 97 ∷ 98 ∷ []
unfolding received
received-length = refl

room : (0 + length (received (97 ∷ 0 ∷ 98 ∷ []))) < 512
unfolding received
room = omega arith

IsQueue-cons_intr_example :
    IsQueue (cons_intr (97 ∷ 0 ∷ 98 ∷ []) empty_cons) ([] ++ received (97 ∷ 0 ∷ 98 ∷ []))
IsQueue-cons_intr_example =
    IsQueue-cons_intr (97 ∷ 0 ∷ 98 ∷ []) empty_cons [] room empty_cons-IsQueue

polled : IsQueue (cons_intr [] (cons_intr (97 ∷ []) empty_cons)) (97 ∷ [])
unfolding cons_intr Holds
polled = record { reads = omega arith; writes = refl; room = omega arith; holds = (refl, tt) }
