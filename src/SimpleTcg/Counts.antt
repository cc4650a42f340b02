-- ===== src/SimpleTcg/Counts.antt =====
-- How often an id stands in a list, and the list operations of pallets/eterra-simple-tcg/src/lib.rs.
use eterra_polkadot_sdk_solo.Prelude.{
  ℕ, ◌+◌, ◌-◌, ◌≤◌, ◌≡◌, refl, ◌==◌, if◌then◌else◌, true, false, List, [], ◌∷◌, ◌++◌, contains,
  arith,
}
use eterra_polkadot_sdk_solo.SimpleTcg.Store.{CardId, pull_last, fill_gap, swap_remove}

unfoldable pub count : CardId → List CardId → ℕ
count c [] = 0
count c (x ∷ xs) = (if x == c then 1 else 0) + count c xs

pub count-append :
    (c x : CardId) (l : List CardId) → count c (l ++ x ∷ []) ≡ count c l + (if x == c then 1 else 0)
unfolding count
count-append c x [] = omega arith
count-append c x (y ∷ l) = ground (arith, count-append c x l)

pub count-contains : (c : CardId) (l : List CardId) → contains l c ≡ false → count c l ≡ 0
unfolding count
count-contains c [] e = refl
count-contains c (x ∷ l) e = ground (arith, count-contains c l)

pub contains-count : (c : CardId) (l : List CardId) → contains l c ≡ true → 1 ≤ count c l
unfolding count
contains-count c [] e = cc
contains-count c (x ∷ l) e = ground (arith, contains-count c l)

count-pull_last :
    (c x : CardId) (l : List CardId)
    → count c ((pull_last x l).0 ∷ (pull_last x l).1) ≡ count c (x ∷ l)
unfolding count pull_last
count-pull_last c x [] = refl
count-pull_last c x (y ∷ l) = omega (arith, count-pull_last c y l)

count-fill_gap : (c : CardId) (l : List CardId) → count c (fill_gap l) ≡ count c l
unfolding fill_gap
count-fill_gap c [] = refl
count-fill_gap c (x ∷ l) = count-pull_last c x l

-- One occurrence of the id is gone, if there was one; the other ids stand as often as before.
pub count-swap_remove :
    (c id : CardId) (l : List CardId)
    → count c (swap_remove l id) ≡ count c l - (if id == c then 1 else 0)
unfolding count swap_remove
count-swap_remove c id [] = ground arith
count-swap_remove c id (x ∷ l) = ground (arith, count-swap_remove c id l, count-fill_gap c l)
