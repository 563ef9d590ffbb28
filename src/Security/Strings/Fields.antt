-- ===== src/Security/Strings/Fields.antt =====
-- A record printed with a separator between its fields, taken apart by `strtok`.
use linux_kernel_prog.Prelude.{
  ℕ, ◌≡◌, ◌≢◌, refl, ap, ◌∙◌, List, [], ◌∷◌, ◌++◌, Bool, true, not, ◌&&◌, ◌==◌, arith,
}
use linux_kernel_prog.Security.Strings.Tokens.{
  strtok_calls, parts, split, nonempty, handed_out, strtok_calls-parts, split-token,
}

module _ (sep : ℕ) where
  abbrev pub lacks : List ℕ → Bool
  lacks [] = true
  lacks (c ∷ cs) = not (c == sep) && lacks cs

  -- A field that `strtok` hands out whole: not empty, and without the separator.
  pub record IsField (f : List ℕ) : Type 0 where
    pub whole : lacks f ≡ true
    pub filled : f ≢ []

  -- The fields with the separator between them.
  unfoldable pub joined : List ℕ → List (List ℕ) → List ℕ
  joined f [] = f
  joined f (g ∷ gs) = f ++ sep ∷ joined g gs

  split-lacks : (f : List ℕ) → lacks f ≡ true → split sep f ≡ f ∷ []
  unfolding split
  split-lacks [] h = refl
  split-lacks (c ∷ cs) h = ground (arith, split-lacks cs)

  split-append :
      (f rest : List ℕ) → lacks f ≡ true → split sep (f ++ sep ∷ rest) ≡ f ∷ split sep rest
  unfolding split
  split-append [] rest h = rw (split-token sep rest) (ground arith)
  split-append (c ∷ cs) rest h = ground (arith, split-append cs rest)

  nonempty-cons : (f : List ℕ) (ps : List (List ℕ)) → f ≢ [] → nonempty (f ∷ ps) ≡ f ∷ nonempty ps
  unfolding nonempty
  nonempty-cons [] ps h = absurd (h refl)
  nonempty-cons (c ∷ cs) ps h = refl

  parts-last : {f : List ℕ} → IsField f → parts sep f ≡ f ∷ []
  unfolding parts nonempty
  parts-last {f} v = rw (split-lacks f v.whole) (nonempty-cons f [] v.filled)

  parts-field :
      {f : List ℕ} (rest : List ℕ) → IsField f → parts sep (f ++ sep ∷ rest) ≡ f ∷ parts sep rest
  unfolding parts
  parts-field {f} rest v = rw (split-append f rest v.whole) (nonempty-cons f _ v.filled)

  abbrev pub AreFields : List (List ℕ) → Type 0
  AreFields [] = Unit
  AreFields (f ∷ fs) = IsField f × AreFields fs

  parts-joined :
      (f : List ℕ) (gs : List (List ℕ))
      → IsField f
      → AreFields gs
      → parts sep (joined f gs) ≡ f ∷ gs
  unfolding joined
  parts-joined f [] v _ = parts-last v
  parts-joined f (g ∷ gs) v (vg, vs) =
      parts-field (joined g gs) v ∙ ap (λ ps. f ∷ ps) (parts-joined g gs vg vs)

  -- Fields joined by the separator come back one by one from `strtok`, and NULL after the last, if
  -- each is not empty and has no separator in it.
  pub strtok_calls-joined :
      (n : ℕ) (f : List ℕ) (gs : List (List ℕ))
      → IsField f
      → AreFields gs
      → strtok_calls sep n (joined f gs) ≡ handed_out n (f ∷ gs)
  strtok_calls-joined n f gs v vs =
      strtok_calls-parts sep n _ ∙ ap (handed_out n) (parts-joined f gs v vs)
