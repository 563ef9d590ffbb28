-- ===== src/Security/Keys/Suite/Verdict.antt =====
-- The run of all tests of test_keyring.c, and its exit status.
use linux_kernel_prog.Prelude.{ℕ, ◌+◌, ◌≡◌, ◌↔◌, refl, ◌∙◌, some, List, [], ◌∷◌, ◌++◌, arith}
use linux_kernel_prog.Kernel.{Result}
use linux_kernel_prog.Security.Keys.{Serial, Keyutils, World, ◌>>◌, text}
use linux_kernel_prog.Security.Keys.Suite.Rest.{main, report}
use linux_kernel_prog.Security.Keys.Suite.Tally.{
  tally-some, Keeps, create-tally, read-tally, search-tally, permissions-tally, timeout-tally,
  revoke-tally, linking-tally, clear-tally,
}

abbrev started : {S : Type 0} → World S → World S
started w = record w {
  out =
      w.out
      ++ text "=========================================\n"
        ∷ text "   Keyring Functionality Test Suite\n"
        ∷ text "=========================================\n\nRunning tests...\n\n"
        ∷ [];
}

-- Eight steps of one.
eight :
    (s a b c d e f g h : ℕ)
    → a ≡ s + 1
    → b ≡ a + 1
    → c ≡ b + 1
    → d ≡ c + 1
    → e ≡ d + 1
    → f ≡ e + 1
    → g ≡ f + 1
    → h ≡ g + 1
    → h ≡ s + 8
eight s a b c d e f g h ea eb ec ed ee ef eg eh = omega arith

module _ (K : Keyutils) {held : Serial → K.State → Result (List ℕ)} (L : Keeps K held)
    (garbage : ℕ → ℕ) where
  report-ends :
      (w : World K.State)
      → (r : ℕ) × (v : World K.State) × (report K w ≡ some (r, v))
        × (v.passed + v.failed ≡ w.passed + w.failed)
        × ((r ≡ 0) ↔ (v.failed ≡ 0))
  unfolding report
  report-ends w = (_, _, refl, refl, ground arith)

  -- The suite reports and exits, whatever the calls answer, after exactly eight verdicts, and its
  -- exit status is 0 exactly when no test has failed, if a key holds what was added and the library
  -- keeps to what is documented of a read.
  pub main-eight :
      (w : World K.State)
      → (r : ℕ) × (v : World K.State) × (main K garbage w ≡ some (r, v))
        × (v.passed + v.failed ≡ w.passed + w.failed + 8)
        × ((r ≡ 0) ↔ (v.failed ≡ 0))
  unfolding main
  main-eight w =
      let (_, v₁, e₁, h₁) = tally-some _ (create-tally K (started w)) in
      let (_, v₂, e₂, h₂) = tally-some _ (read-tally K L garbage v₁) in
      let (_, v₃, e₃, h₃) = tally-some _ (search-tally K v₂) in
      let (_, v₄, e₄, h₄) = tally-some _ (permissions-tally K v₃) in
      let (_, v₅, e₅, h₅) = tally-some _ (timeout-tally K v₄) in
      let (_, v₆, e₆, h₆) = tally-some _ (revoke-tally K v₅) in
      let (_, v₇, e₇, h₇) = tally-some _ (linking-tally K v₆) in
      let (_, v₈, e₈, h₈) = tally-some _ (clear-tally K v₇) in
      let (r, v, e, count, status) = report-ends v₈ in
      let total = eight _ _ _ _ _ _ _ _ _ h₁ h₂ h₃ h₄ h₅ h₆ h₇ h₈ in
      rw (main, ◌>>◌, e₁, e₂, e₃, e₄, e₅, e₆, e₇, e₈, e) (r, v, refl, count ∙ total, status)
