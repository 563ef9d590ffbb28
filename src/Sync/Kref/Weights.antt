-- ===== src/Sync/Kref/Weights.antt =====
-- Which workers of kref_example.c hold the object, free it, use it or have not ended, added up.
use linux_kernel_prog.Prelude.{
  ℕ, suc, ◌+◌, ◌≤◌, ◌≡◌, refl, Bool, true, false, List, [], ◌∷◌, ◌++◌, arith, weigh,
}
use linux_kernel_prog.Sync.Kref.Workers.{
  Pc, getting, holding, using, modifying, releasing, freeing, crashed, finished, AllFinished,
}

-- A worker with a reference.
abbrev pub holds : Pc → ℕ
holds (holding _) = 1
holds (using _) = 1
holds (modifying _ _) = 1
holds (releasing _) = 1
holds _ = 0

-- A worker that is about to free the object.
abbrev pub frees : Pc → ℕ
frees (freeing _) = 1
frees _ = 0

-- A worker that is about to use the object.
abbrev pub touches : Pc → ℕ
touches (getting _) = 1
touches (freeing _) = 1
touches p = holds p

abbrev pub crashes : Pc → ℕ
crashes crashed = 1
crashes _ = 0

-- A worker that has not ended.
abbrev pub busy : Pc → ℕ
busy finished = 0
busy _ = 1

abbrev pub bit : Bool → ℕ
bit true = 1
bit false = 0

pub weigh-append : (w : Pc → ℕ) (xs ys : List Pc) → weigh w (xs ++ ys) ≡ weigh w xs + weigh w ys
weigh-append w [] ys = omega arith
weigh-append w (x ∷ xs) ys = omega (arith, weigh-append w xs ys)

pub weigh-AllFinished :
    (w : Pc → ℕ) (pcs : List Pc) → w finished ≡ 0 → AllFinished pcs → weigh w pcs ≡ 0
weigh-AllFinished w [] z h = refl
weigh-AllFinished w (p ∷ pcs) z h =
    let rest = weigh-AllFinished w pcs z (λ i lt. h (suc i) (omega arith)) in
    ground (arith, h 0 (omega arith))

pub weigh-le_busy :
    (w : Pc → ℕ) → ((p : Pc) → w p ≤ busy p) → (pcs : List Pc) → weigh w pcs ≤ weigh busy pcs
weigh-le_busy w h [] = omega arith
weigh-le_busy w h (p ∷ pcs) = omega (arith, h p, weigh-le_busy w h pcs)
