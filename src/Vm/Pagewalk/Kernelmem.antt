-- ===== src/Vm/Pagewalk/Kernelmem.antt =====
-- The parts of vm/p1_trans/x86_64_pagewalk.c and vm/p1_trans/arm64_pagewalk.c that are alike: the
-- pointers of the module, and a test of one allocation.
use linux_kernel_prog.Prelude.{
  ℕ, zero, suc, ◌+◌, ◌≤◌, ◌<◌, ◌≡◌, ◌≢◌, refl, Option, none, some, List, [], ◌∷◌, arith, length,
  get_or,
}
use linux_kernel_prog.Vm.Mmu.{Machine}
use linux_kernel_prog.Vm.Capitalize.{
  store, strnlen, strnlen-cong, capitalize, capitalize-upper, upper,
}
use mathlib.Core.Path.{subst}

-- `test_page` by its address, `kmalloc_ptr` and `vmalloc_ptr`; `none` is NULL.
pub record Pointers : Type 0 where
  pub test_page : Option ℕ
  pub kmalloc_ptr : Option ℕ
  pub vmalloc_ptr : Option ℕ

-- `strcpy`, the terminating NUL included.
unfoldable pub strcpy : List ℕ → ℕ → (ℕ → ℕ) → ℕ → ℕ
strcpy [] p mem = store mem p 0
strcpy (c ∷ cs) p mem = store (strcpy cs (p + 1) mem) p c

-- One test: if memory was allocated, the string is copied there and the walk is made.
unfoldable pub test_allocation :
    (walk : ℕ → Machine → Machine) → List ℕ → Option ℕ → Machine → Machine
unfolding strcpy
test_allocation walk text none s = s
test_allocation walk text (some p) s = walk p (record s { mem = strcpy text p s.mem })

abbrev pub freed : Option ℕ → List ℕ
freed none = []
freed (some p) = p ∷ []

-- No byte of a text is NUL.
abbrev pub IsText : List ℕ → Type 0
IsText [] = Unit
IsText (c ∷ cs) = (c ≢ 0) × IsText cs

-- A copied string can be read back, with its NUL.
pub strcpy-get :
    (text : List ℕ) (p i : ℕ) (mem : ℕ → ℕ)
    → i ≤ length text
    → strcpy text p mem (p + i) ≡ get_or text i 0
unfolding strcpy
strcpy-get [] p i mem h = ground arith
strcpy-get (c ∷ cs) p zero mem h = ground arith
strcpy-get (c ∷ cs) p (suc i) mem h =
    let rest : strcpy cs (p + 1) mem (p + suc i) ≡ get_or cs i 0 =
      subst (λ q. strcpy cs (p + 1) mem q ≡ get_or cs i 0) (omega arith)
        (strcpy-get cs (p + 1) i mem (omega arith)) in
    ground arith

pub strnlen-strcpy :
    (k : ℕ) (text : List ℕ) (p : ℕ) (mem : ℕ → ℕ)
    → IsText text
    → length text ≤ k
    → strnlen k p (strcpy text p mem) ≡ length text
unfolding strcpy strnlen
strnlen-strcpy zero [] p mem t h = refl
strnlen-strcpy zero (c ∷ cs) p mem t h = absurd (omega arith)
strnlen-strcpy (suc k) [] p mem t h = ground arith
strnlen-strcpy (suc k) (c ∷ cs) p mem t h =
    let same =
      strnlen-cong k (p + 1) (strcpy (c ∷ cs) p mem) (strcpy cs (p + 1) mem)
        (λ a le. ground arith) in
    ground (arith, strnlen-strcpy k cs (p + 1) mem)

-- A copied text that the loop then runs over reads back in capitals.
pub capitalize-strcpy :
    (k : ℕ) (text : List ℕ) (p i : ℕ) (mem : ℕ → ℕ)
    → IsText text
    → length text ≤ k
    → i < length text
    → capitalize k p (strcpy text p mem) (p + i) ≡ upper (get_or text i 0)
capitalize-strcpy k text p i mem t h lt = ground (
  arith,
  capitalize-upper k p (strcpy text p mem) (p + i),
  strnlen-strcpy k text p mem t h,
  strcpy-get text p i mem,
)
