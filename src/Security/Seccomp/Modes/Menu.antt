-- ===== src/Security/Seccomp/Modes/Menu.antt =====
-- security/part1/seccomp/seccomp_modes.c: the menu. The input is a list of characters.

use linux_kernel_prog.Prelude.{
  ℕ, zero, suc, Option, none, some, List, [], ◌∷◌, Bool, false, ◌==◌, if◌then◌else◌,
}
use linux_kernel_prog.Security.Keys.{text}
use linux_kernel_prog.Security.Seccomp.{Seccomp, M, ◌>>◌, pure, printf}
use linux_kernel_prog.Security.Seccomp.Modes.{
  menu_text, demo_mode_disabled, demo_mode_strict, demo_mode_filter,
}

-- `while (getchar() != '\n');`: the input after the line, or no end of the loop at the end of the
-- input.
unfoldable pub skip_line : List ℕ → Option (List ℕ)
skip_line [] = none
skip_line (c ∷ cs) = let rest = skip_line cs in if c == 10 then some cs else rest

-- `getchar()`
abbrev pub after_char : List ℕ → List ℕ
after_char [] = []
after_char (c ∷ cs) = cs

abbrev pub next_is : ℕ → List ℕ → Bool
next_is c [] = false
next_is c (d ∷ ds) = d == c

-- The end of the program: its exit status, a loop that reads at the end of the input, or the end of
-- the fuel.
pub data End : Type 0 where
  exits : ℕ → End
  input_over : End
  out_of_fuel : End

-- The rest of a line is read, if there is one.
abbrev pub past_line : {S : Type 0} → List ℕ → (List ℕ → M S End) → M S End
past_line input body = elim (skip_line input) [ none ↦ pure input_over | some rest ↦ body rest ]

module _ (K : Seccomp) where
  -- The `switch`, with the loop that goes on after it.
  unfoldable pub choose : (ℕ → List ℕ → (List ℕ → M K.State End) → M K.State End)
  unfolding skip_line demo_mode_disabled demo_mode_strict demo_mode_filter
  choose choice rest again =
      if choice == 1
      then (do
        demo_mode_disabled K
        printf (text "\nPress Enter to continue..." ∷ [])
        past_line rest (λ rest. again (after_char rest)))
      else if choice == 2
      then (do
        printf (text "\nAre you sure? Process will be killed! (y/n): " ∷ [])
        past_line rest (λ rest.
            if next_is 121 rest
            then (do demo_mode_strict K; again (after_char rest))
            else again (after_char rest)))
      else if choice == 3
      then (do
        demo_mode_filter K
        printf (text "\nPress Enter to continue..." ∷ [])
        past_line rest (λ rest. again (after_char rest)))
      else if choice == 4
      then (do printf (text "Exiting...\n" ∷ []); pure (exits 0))
      else (do printf (text "Invalid choice\n" ∷ []); again rest)

  unfoldable pub menu_step : Option ℕ → List ℕ → (List ℕ → M K.State End) → M K.State End
  unfolding choose skip_line
  menu_step none rest again = do printf (text "Invalid input\n" ∷ []); past_line rest again
  menu_step (some choice) rest again = choose choice rest again

  unfoldable pub main_loop :
      (scan : List ℕ → Option ℕ × List ℕ) (fuel : ℕ) (input : List ℕ) → M K.State End
  unfolding menu_step
  main_loop scan zero input = pure out_of_fuel
  main_loop scan (suc n) input =
      let again = main_loop scan n in
      do printf menu_text; menu_step (scan input).0 (scan input).1 again
