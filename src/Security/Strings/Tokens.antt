-- ===== src/Security/Strings/Tokens.antt =====
-- Repeated `strtok` against the parts of a text between its separators.
use linux_kernel_prog.Prelude.{
  ℕ, zero, suc, ◌≡◌, refl, ◌⊎◌, inl, inr, Option, none, some, List, [], ◌∷◌, ap, true, false, ◌==◌,
  ◌∙◌, sym, arith, if◌then◌else◌, Bool-cases,
}
use linux_kernel_prog.Security.Strings.{skip, token, remains, cut_token, strtok}

-- The parts in order, and NULL when they are used up.
unfoldable pub handed_out : ℕ → List (List ℕ) → List (Option (List ℕ))
handed_out zero ps = []
handed_out (suc n) [] = none ∷ handed_out n []
handed_out (suc n) (p ∷ ps) = some p ∷ handed_out n ps

unfoldable pub nonempty : List (List ℕ) → List (List ℕ)
nonempty [] = []
nonempty ([] ∷ ps) = nonempty ps
nonempty ((c ∷ cs) ∷ ps) = (c ∷ cs) ∷ nonempty ps

module _ (sep : ℕ) where
  -- The results of so many calls.
  unfoldable pub strtok_calls : ℕ → List ℕ → List (Option (List ℕ))
  unfolding strtok
  strtok_calls zero text = []
  strtok_calls (suc n) text = elim (strtok sep text) [
    | none ↦ none ∷ strtok_calls n []
    | some (t, rest) ↦ some t ∷ strtok_calls n rest
  ]

  -- The parts of a text between its separators.
  unfoldable pub split : List ℕ → List (List ℕ)
  split [] = [] ∷ []
  split (c ∷ cs) = elim (split cs) [
    | [] ↦ []
    | p ∷ ps ↦ if c == sep then [] ∷ p ∷ ps else (c ∷ p) ∷ ps
  ]

  unfoldable pub parts : List ℕ → List (List ℕ)
  unfolding split nonempty
  parts text = nonempty (split text)

  -- The parts after the first.
  pub more : List ℕ → List (List ℕ)
  unfolding split
  more [] = []
  more (c ∷ cs) = let rest = more cs in if c == sep then split cs else rest

  pub split-token : (t : List ℕ) → split t ≡ token sep t ∷ more t
  unfolding split token more
  split-token [] = refl
  split-token (c ∷ cs) = rw (split-token cs) (ground (arith, split-token cs))

  nonempty-more : (t : List ℕ) → nonempty (more t) ≡ parts (remains sep t)
  unfolding more remains parts nonempty split
  nonempty-more [] = refl
  nonempty-more (c ∷ cs) = ground (arith, nonempty-more cs)

  nonempty-token :
      (c : ℕ) (cs : List ℕ) (qs : List (List ℕ))
      → (c == sep) ≡ false
      → nonempty (token sep (c ∷ cs) ∷ qs) ≡ token sep (c ∷ cs) ∷ nonempty qs
  unfolding token
  nonempty-token c cs qs h = rw h (unfold nonempty in refl)

  parts-cons :
      (c : ℕ) (cs : List ℕ)
      → (c == sep) ≡ false
      → parts (c ∷ cs) ≡ token sep (c ∷ cs) ∷ parts (remains sep (c ∷ cs))
  unfolding parts token
  parts-cons c cs h = rw (parts, split-token (c ∷ cs), nonempty-token c cs _ h, nonempty-more) refl

  parts-sep : (c : ℕ) (cs : List ℕ) → (c == sep) ≡ true → parts (c ∷ cs) ≡ parts cs
  unfolding parts split
  parts-sep c cs h = rw (split-token cs, h) (unfold nonempty in refl)

  parts-skip : (t : List ℕ) → parts (skip sep t) ≡ parts t
  unfolding skip
  parts-skip [] = refl
  parts-skip (c ∷ cs) = elim (Bool-cases (c == sep)) [
    | inl h ↦ rw h (parts-skip cs ∙ sym (parts-sep c cs h))
    | inr h ↦ rw h
  ]

  skip-cases :
      (t : List ℕ)
      → (skip sep t ≡ []) ⊎ ((c : ℕ) × (cs : List ℕ) × (skip sep t ≡ c ∷ cs) × ((c == sep) ≡ false))
  unfolding skip
  skip-cases [] = inl refl
  skip-cases (c ∷ cs) = elim (Bool-cases (c == sep)) [
    | inl h ↦ rw h (skip-cases cs)
    | inr h ↦ rw h (inr (c, cs, refl, h))
  ]

  strtok-skip : (t : List ℕ) {u : List ℕ} → skip sep t ≡ u → strtok sep t ≡ cut_token sep u
  unfolding strtok
  strtok-skip t e = ap (cut_token sep) e

  calls-none :
      (n : ℕ) (t : List ℕ) → strtok sep t ≡ none → strtok_calls (suc n) t ≡ none ∷ strtok_calls n []
  unfolding strtok_calls
  calls-none n t h = rw (strtok_calls, h) refl

  calls-some :
      (n : ℕ) (t : List ℕ) {u r : List ℕ}
      → strtok sep t ≡ some (u, r)
      → strtok_calls (suc n) t ≡ some u ∷ strtok_calls n r
  unfolding strtok_calls
  calls-some n t h = rw (strtok_calls, h) refl

  parts-nil : parts [] ≡ []
  unfolding parts split nonempty
  parts-nil = refl

  -- The results of so many `strtok` calls are the parts of the text between its separators, less
  -- the empty ones, in order, and NULL from then on.
  pub strtok_calls-parts : (n : ℕ) (t : List ℕ) → strtok_calls n t ≡ handed_out n (parts t)
  unfolding handed_out strtok_calls
  strtok_calls-parts zero t = refl
  strtok_calls-parts (suc n) t = elim (skip-cases t) [
    | inl h ↦
        calls-none n t (strtok-skip t h ∙ (unfold cut_token in refl))
        ∙ rw (sym (parts-skip t), h, parts-nil)
            (ap (λ r. none ∷ r) (strtok_calls-parts n [] ∙ ap (handed_out n) parts-nil))
    | inr (c, cs, h, hc) ↦
        calls-some n t (strtok-skip t h ∙ (unfold cut_token in refl))
        ∙ rw (sym (parts-skip t), h, parts-cons c cs hc)
            (ap (λ r. some (token sep (c ∷ cs)) ∷ r) (strtok_calls-parts n (remains sep (c ∷ cs))))
  ]
