-- ===== src/Plc/Tests.antt =====
-- The PLC leaf functions at concrete arguments.
use tnc640unix.Base.{ℕ, ◌+◌, ◌-◌, ◌^◌, ◌≡◌, refl, true, some, [], ◌∷◌, arith, replicate}
use tnc640unix.Plc.Cond.{Stack, push_stack}
use tnc640unix.Plc.Cond.Laws.{Holds, Pushed, push_stack-refines_list}
use tnc640unix.Plc.Map.{number_of_characters}
use tnc640unix.Plc.Width.{Digits, number_of_characters-Digits}

-- One element
abbrev small : Stack
small = record { top = 0; data_ = 9 ∷ replicate 512 0 }

small-Holds : Holds small (9 ∷ [])
small-Holds = record { room = refl; size = omega arith; top_of = refl; elements = refl }

push_stack-refines_list_example : Pushed 5 (9 ∷ []) true (push_stack 5 small)
push_stack-refines_list_example = push_stack-refines_list 5 small (9 ∷ []) small-Holds

number_of_characters-Digits_example :
    (k : ℕ) × (number_of_characters (2 ^ 32 - 128) ≡ some (1 + k + 1)) × Digits 128 k
number_of_characters-Digits_example =
    number_of_characters-Digits (2 ^ 32 - 128) (omega arith) (omega arith)
