-- ===== src/Notifiers/ListChain.antt =====
-- A chain that is a list, whose registration finds a block of the same priority in the way: the
-- interface of the chains can be filled.
use linux_kernel_prog.Prelude.{
  ◌≡◌, Bool, true, false, Option, none, some, List, [], ◌∷◌, arith, ◌==◌, if◌then◌else◌,
}
use linux_kernel_prog.Kernel.{Errno}
use linux_kernel_prog.Notifiers.Chain.{Block, ChainApi, IsChain, insert}

module _ {Callback : Type 0} where
  -- The chain has the block with a given priority.
  abbrev has : Block Callback → List (Block Callback) → Bool
  has b [] = false
  has b (c ∷ cs) = if c.priority == b.priority then true else has b cs

  abbrev remove : Block Callback → List (Block Callback) → List (Block Callback)
  remove b [] = []
  remove b (c ∷ cs) = if c.priority == b.priority then cs else c ∷ remove b cs

  unfoldable pub register :
      Block Callback → List (Block Callback) → Option Errno × List (Block Callback)
  register b c = if has b c then (some (Errno.code 17), c) else (none, insert b c)

  abbrev pub list_chain : ChainApi Callback
  list_chain = record {
    Chain = List (Block Callback);
    register = register;
    unregister = remove;
    blocks = λ c. c;
  }

  remove-insert :
      (b : Block Callback) (c : List (Block Callback)) → has b c ≡ false → remove b (insert b c) ≡ c
  remove-insert b [] h = ground arith
  remove-insert b (c ∷ cs) h = ground (arith, remove-insert b cs)

  register-refused :
      (b : Block Callback) (c : List (Block Callback)) (e : Errno)
      → (register b c).0 ≡ some e
      → (register b c).1 ≡ c
  unfolding register
  register-refused b c e h = ground arith

  register-undone :
      (b : Block Callback) (c : List (Block Callback))
      → (register b c).0 ≡ none
      → remove b (register b c).1 ≡ c
  unfolding register
  register-undone b c h = ground (arith, remove-insert b c)

  register-ordered :
      (b : Block Callback) (c : List (Block Callback))
      → (register b c).0 ≡ none
      → (register b c).1 ≡ insert b c
  unfolding register
  register-ordered b c h = ground arith

  pub list_chain-IsChain : IsChain list_chain
  list_chain-IsChain = record {
    refused = register-refused;
    undone = register-undone;
    ordered = register-ordered;
  }
