-- ===== src/Notifiers/Chain.antt =====
-- What the modules under notifiers take from the kernel's notifier chains.
use linux_kernel_prog.Prelude.{ℕ, ◌≡◌, Option, none, some, List, [], ◌∷◌, ltb, if◌then◌else◌}
use linux_kernel_prog.Kernel.{Errno}

-- A `struct notifier_block`, by the name of its callback.
pub record Block (Callback : Type 0) : Type 0 where
  pub notifier_call : Callback
  pub priority : ℕ

module _ {Callback : Type 0} where
  -- Before the first block of a lower priority.
  abbrev pub insert : Block Callback → List (Block Callback) → List (Block Callback)
  insert b [] = b ∷ []
  insert b (c ∷ cs) = if ltb c.priority b.priority then b ∷ c ∷ cs else c ∷ insert b cs

-- Registration, with an error or the chain that it makes, and its undoing; the blocks in the order
-- in which they are called.
pub record ChainApi (Callback : Type 0) : Type 1 where
  pub Chain : Type 0
  pub register : Block Callback → Chain → Option Errno × Chain
  pub unregister : Block Callback → Chain → Chain
  pub blocks : Chain → List (Block Callback)

module _ {Callback : Type 0} where
  -- A registration that fails changes nothing, and one that succeeds puts the block in its place
  -- and is undone by `unregister`.
  pub record IsChain (api : ChainApi Callback) : Type 0 where
    pub refused :
        (b : Block Callback) (c : api.Chain) (e : Errno)
        → (api.register b c).0 ≡ some e
        → (api.register b c).1 ≡ c
    pub undone :
        (b : Block Callback) (c : api.Chain)
        → (api.register b c).0 ≡ none
        → api.unregister b (api.register b c).1 ≡ c
    pub ordered :
        (b : Block Callback) (c : api.Chain)
        → (api.register b c).0 ≡ none
        → api.blocks (api.register b c).1 ≡ insert b (api.blocks c)
