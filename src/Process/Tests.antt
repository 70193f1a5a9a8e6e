-- ===== src/Process/Tests.antt =====
-- Runs of the parts of process.cpp.
use venom_os.Base.{ℕ, ◌≡◌, refl, some, [], ◌∷◌}
use venom_os.Process.{
  Arguments, build_initial_stack, build_image, count_all, count_strings, initial_sp, lay_out,
}
use venom_os.Process.Stack.{IsBuilt, build_initial_stack-IsBuilt}

abbrev arguments : Arguments
arguments = some (b's' ∷ b'h' ∷ []) ∷ []

-- The pointer and the window for `sh` without an environment.
abbrev stack_of_sh : ℕ × (ℕ → ℕ)
stack_of_sh = (initial_sp 3 1 0, (lay_out 3 arguments [] (λ i. 0) (initial_sp 3 1 0)).window)

stack_of_sh-built : build_initial_stack (λ i. 0) arguments [] ≡ some stack_of_sh
unfolding build_initial_stack build_image count_all count_strings
stack_of_sh-built = refl

build_initial_stack-IsBuilt_example : IsBuilt (λ i. 0) arguments [] stack_of_sh
build_initial_stack-IsBuilt_example =
    build_initial_stack-IsBuilt (λ i. 0) arguments [] stack_of_sh stack_of_sh-built
