-- ===== src/Security/Strings.antt =====
-- C strings as the user programs of security/ handle them: a text in a buffer, and `strtok`.
pub mod Tokens
pub mod Fields
use linux_kernel_prog.Prelude.{
  ℕ, zero, suc, Option, none, some, List, [], ◌∷◌, Bool, ◌==◌, if◌then◌else◌,
}

-- `%s`: the bytes up to the first NUL. With none in the buffer, `printf` reads past its end.
unfoldable pub text_at : List ℕ → Option (List ℕ)
text_at [] = none
text_at (c ∷ cs) = elim (text_at cs) [
  | none ↦ if c == 0 then some [] else none
  | some t ↦ if c == 0 then some [] else some (c ∷ t)
]

-- A local array of a size that is not initialised, in which a callee has written the front.
unfoldable pub fill : (garbage : ℕ → ℕ) (size : ℕ) → List ℕ → List ℕ
fill garbage zero bs = []
fill garbage (suc n) [] = garbage n ∷ fill garbage n []
fill garbage (suc n) (b ∷ bs) = b ∷ fill garbage n bs

module _ (sep : ℕ) where
  unfoldable pub skip : List ℕ → List ℕ
  skip [] = []
  skip (c ∷ cs) = if c == sep then skip cs else c ∷ cs

  -- The text before the next separator.
  unfoldable pub token : List ℕ → List ℕ
  token [] = []
  token (c ∷ cs) = let rest = token cs in if c == sep then [] else c ∷ rest

  -- What `strtok` keeps for its next call: the text after the separator, which is now a NUL.
  unfoldable pub remains : List ℕ → List ℕ
  remains [] = []
  remains (c ∷ cs) = let rest = remains cs in if c == sep then cs else rest

  unfoldable pub cut_token : List ℕ → Option (List ℕ × List ℕ)
  unfolding token remains
  cut_token [] = none
  cut_token (c ∷ cs) = some (token (c ∷ cs), remains (c ∷ cs))

  -- `strtok` on the text it has kept: the next token, or NULL at the end, and what it keeps.
  unfoldable pub strtok : List ℕ → Option (List ℕ × List ℕ)
  unfolding skip cut_token
  strtok text = cut_token (skip text)
