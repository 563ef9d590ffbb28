-- ===== src/Security/Seccomp/Modes/Ends.antt =====
-- The menu of seccomp_modes.c comes to an end: it exits, is killed, or has read all its input.
use linux_kernel_prog.Prelude.{
  ℕ, zero, suc, ◌≡◌, ◌≢◌, ◌≤◌, ◌<◌, refl, Option, none, some, List, [], ◌∷◌, Bool, true, false,
  ◌==◌, ap, if◌then◌else◌, length, arith, inl, inr, Bool-cases, Option-cases,
}
use mathlib.Core.Option.{some-injective}
use linux_kernel_prog.Security.Keys.{Piece, text}
use linux_kernel_prog.Security.Seccomp.{
  Seccomp, Process, M, Run, ran, killed, and_then, ◌>>◌, pure, printf,
}
use linux_kernel_prog.Security.Seccomp.Modes.{
  menu_text, demo_mode_disabled, demo_mode_strict, demo_mode_filter,
}
use linux_kernel_prog.Security.Seccomp.Modes.Menu.{
  skip_line, after_char, next_is, End, exits, out_of_fuel, past_line, choose, menu_step, main_loop,
}

abbrev NeverOut : {S : Type 0} → M S End → Type 0
NeverOut {S} m = (p q : Process S) → m p ≢ ran out_of_fuel q

module _ {S A : Type 0} where
  run-never :
      (r : Run S A) (d : M S End) (q : Process S)
      → NeverOut d
      → and_then r (λ _. d) ≢ ran out_of_fuel q
  run-never (ran a p) d q h = h p q
  run-never (killed p) d q h = λ e. cc

  then-never : (c : M S A) (d : M S End) → NeverOut d → NeverOut (c >> d)
  then-never c d h p q = run-never (c p) d q h

if_never :
    {S : Type 0} (b : Bool) {m n : M S End}
    → NeverOut m
    → NeverOut n
    → NeverOut (if b then m else n)
if_never true hm hn = hm
if_never false hm hn = hn

skip_line-shorter : (i : List ℕ) {r : List ℕ} → skip_line i ≡ some r → length r < length i
unfolding skip_line
skip_line-shorter [] h = cc
skip_line-shorter (c ∷ cs) {r} h = elim (Bool-cases (c == 10)) [
  | inl e ↦
      let same : some cs ≡ some r = rw e at h in
      let len : length cs ≡ length r = ap length (some-injective _ _ same) in omega (arith, len)
  | inr e ↦
      let later : skip_line cs ≡ some r = rw e at h in
      let short = skip_line-shorter cs later in omega (arith, short)
]

after_char-shorter : (i : List ℕ) → length (after_char i) ≤ length i
after_char-shorter [] = omega arith
after_char-shorter (c ∷ cs) = omega arith

past_line-never :
    {S : Type 0} (i : List ℕ) (body : List ℕ → M S End)
    → ((r : List ℕ) → length r < length i → NeverOut (body r))
    → NeverOut (past_line i body)
past_line-never i body h p q = elim (Option-cases (skip_line i)) [
  | inl e ↦ rw (past_line, e) (λ k. cc)
  | inr (r, e) ↦ rw (past_line, e) (h r (skip_line-shorter i e) p q)
]

-- A scan takes at least one character for a number, and never adds any.
pub record IsScan (scan : List ℕ → Option ℕ × List ℕ) : Type 0 where
  pub takes : (i : List ℕ) {c : ℕ} → (scan i).0 ≡ some c → length (scan i).1 < length i
  pub leaves : (i : List ℕ) → length (scan i).1 ≤ length i

module _ (K : Seccomp) (scan : List ℕ → Option ℕ × List ℕ) where
  abbrev enter : List Piece
  enter = text "\nPress Enter to continue..." ∷ []

  abbrev sure : List Piece
  sure = text "\nAre you sure? Process will be killed! (y/n): " ∷ []

  module _ (rest : List ℕ) (again : List ℕ → M K.State End)
      (h : (r : List ℕ) → length r ≤ length rest → NeverOut (again r)) where
    -- After a line and a character, less is left.
    line_never : NeverOut (past_line rest (λ r. again (after_char r)))
    line_never =
        past_line-never rest (λ r. again (after_char r))
          (λ r short. h (after_char r) (omega (arith, after_char-shorter r, short)))

    pause_never :
        (c : M K.State (Unit {0}))
        → NeverOut (c >> (printf enter >> past_line rest (λ r. again (after_char r))))
    pause_never c =
        then-never c (printf enter >> past_line rest (λ r. again (after_char r)))
          (then-never (printf enter) (past_line rest (λ r. again (after_char r))) line_never)

    sure_never :
        (r : List ℕ)
        → length r < length rest
        → NeverOut (
            if next_is 121 r
            then demo_mode_strict K >> again (after_char r)
            else again (after_char r))
    sure_never r short =
        let on = h (after_char r) (omega (arith, after_char-shorter r, short)) in
        if_never (next_is 121 r) (then-never (demo_mode_strict K) (again (after_char r)) on) on

    exit_never : NeverOut {S = K.State} (printf (text "Exiting...\n" ∷ []) >> pure (exits 0))
    exit_never p q = λ e. cc

    choose-never : (choice : ℕ) → NeverOut (choose K choice rest again)
    unfolding choose
    choose-never choice = if_never (choice == 1) (pause_never (demo_mode_disabled K)) (
        if_never (choice == 2)
          (then-never (printf sure) (past_line rest _) (past_line-never rest _ sure_never))
          (if_never (choice == 3) (pause_never (demo_mode_filter K)) (
            if_never (choice == 4) exit_never (
              then-never (printf (text "Invalid choice\n" ∷ [])) (again rest)
                (h rest (omega arith))))))

  step-never :
      (n : Option ℕ) (rest : List ℕ) (again : List ℕ → M K.State End) (bound : ℕ)
      → ((c : ℕ) → n ≡ some c → length rest < bound)
      → length rest ≤ bound
      → ((r : List ℕ) → length r < bound → NeverOut (again r))
      → NeverOut (menu_step K n rest again)
  unfolding menu_step
  step-never none rest again bound takes leaves h =
      then-never (printf (text "Invalid input\n" ∷ [])) (past_line rest again)
        (past_line-never rest again (λ r short. h r (omega arith)))
  step-never (some c) rest again bound takes leaves h =
      choose-never rest again (λ r short. h r (omega (arith, takes c refl, short))) c

  -- The menu always comes to an end on a finite input: it exits, is killed, or reads on after the
  -- end of the input. One round more than the input has characters is enough, if a scanned number
  -- takes at least one of them.
  pub main_loop-ends :
      IsScan scan
      → (n : ℕ) (i : List ℕ) → length i < n
      → (p q : Process K.State) → main_loop K scan n i p ≢ ran out_of_fuel q
  unfolding main_loop
  main_loop-ends L zero i short = absurd (omega arith)
  main_loop-ends L (suc n) i short =
      then-never (printf menu_text) (menu_step K (scan i).0 (scan i).1 (main_loop K scan n)) (
        step-never (scan i).0 (scan i).1 (main_loop K scan n) (length i) (λ c e. L.takes i e)
          (L.leaves i) (λ r less. main_loop-ends L n r (omega arith)))
