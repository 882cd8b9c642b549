-- ===== src/ResPool/Tests.antt =====
-- Concrete pools.
use mathlib.Core.List.{Sublistᴰ}
use modvm.Prelude.{ℕ, ◌<◌, ◌≡◌, refl, ◌⊎◌, true, false, List, [], ◌∷◌, ◌++◌, some, none, arith}
use modvm.ResPool.{
  find_action, ResNode, ResPool, Call, cancels, adds, zallocs, release_all, transfer_action,
  add_action_or_reset,
}
use modvm.ResPool.Find.{count}
use modvm.ResPool.Transfer.{transfer_action-moves}
use modvm.ResPool.Ownership.{IsValid, owed, add_action_or_reset-once}
use modvm.ResPool.Release.{obligations}
use modvm.ResPool.Release.Teardown.{release_all-empties, release_all-order, Keeps}

abbrev two : ResPool
two = record {
  self = 100;
  resources =
      record { addr = 1; pool = 100; action = 7; action_data = 70 }
      ∷ record { addr = 2; pool = 100; action = 8; action_data = 80 }
      ∷ [];
  releasing = false;
}

abbrev vacant : ResPool
vacant = record { self = 200; resources = []; releasing = false }

two-IsValid : IsValid two
unfolding count
two-IsValid = record { owner = (refl, (refl, tt)); once = λ fn arg ne. ground arith }

-- The callback of the last node cancels the first.
abbrev cancelling : ℕ → ℕ → List Call
cancelling fn arg = cancels 7 70 ∷ []

release_all-empties_example :
    (q : ResPool) × (run : List (ℕ × ℕ)) × (release_all cancelling two ≡ some (q, run))
    × (q.resources ≡ [])
    × (q.releasing ≡ false)
    × Sublistᴰ run (obligations two.resources)
release_all-empties_example = release_all-empties cancelling two two-IsValid refl

abbrev retrying : ℕ → ℕ → List Call
retrying fn arg = adds fn arg (some 9) ∷ zallocs 16 none ∷ []

retrying-Keeps : (fn arg : ℕ) → Keeps (retrying fn arg)
retrying-Keeps fn arg = ((λ f a. ground arith), ((λ f a. ground arith), tt))

release_all-order_example :
    release_all retrying two ≡ some (record two { resources = [] }, obligations two.resources)
release_all-order_example = release_all-order retrying retrying-Keeps two two-IsValid refl

transfer_action-moves_example :
    let (from', to', _) = transfer_action two vacant 8 80 in
    (before : List ResNode) × (after : List ResNode) × (n : ResNode) × (n.action ≡ 8)
    × (n.action_data ≡ 80)
    × (two.resources ≡ before ++ n ∷ after)
    × (from' ≡ record two { resources = before ++ after })
    × (to' ≡ record vacant { resources = [] ++ record n { pool = 200 } ∷ [] })
    × (owed two 8 80 ≡ 1)
    × (owed from' 8 80 ≡ 0)
    × (owed vacant 8 80 ≡ 0)
    × (owed to' 8 80 ≡ 1)
unfolding transfer_action find_action
transfer_action-moves_example =
    transfer_action-moves two vacant 8 80 two-IsValid (ground arith) refl

add_action_or_reset-once_example :
    let (p', _, called) = add_action_or_reset two 5 50 none in
    ((called ≡ true) × (owed p' 5 50 ≡ 0)) ⊎ ((called ≡ false) × (0 < owed p' 5 50))
add_action_or_reset-once_example = add_action_or_reset-once two 5 50 none refl (ground arith)
