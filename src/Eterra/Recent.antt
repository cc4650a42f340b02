-- ===== src/Eterra/Recent.antt =====
-- The list of recent games of an account, a `BoundedVec` of pallets/eterra/src/lib.rs.
use eterra_polkadot_sdk_solo.Prelude.{
  ℕ, ◌≤◌, ◌<◌, ◌≡◌, leb, if◌then◌else◌, true, inl, inr, Bool-cases, List, [], ◌∷◌, length,
  remove_first, drop_last, length-drop_last, arith,
}
use eterra_polkadot_sdk_solo.Eterra.Types.{GameId}

abbrev pub recent_limit : ℕ
recent_limit = 10

-- `BoundedVec<GameId, ConstU32<10>>`
pub record BoundedGames : Type 0 where
  pub elements : List GameId
  pub bound : length elements ≤ recent_limit

-- The game moves to the front, and the oldest makes room.
unfoldable pub moved_front : GameId → List GameId → List GameId
moved_front id games =
    let list = remove_first games id in
    id ∷ (if leb recent_limit (length list) then drop_last list else list)

remove_first-le : (l : List ℕ) (a : ℕ) → length (remove_first l a) ≤ length l
remove_first-le [] a = omega arith
remove_first-le (x ∷ l) a = ground (arith, remove_first-le l a)

drop_last-lt :
    (l : List ℕ) (n : ℕ) → 0 < n → length l ≤ n → leb n (length l) ≡ true → length (drop_last l) < n
drop_last-lt [] n p h e = ground arith
drop_last-lt (x ∷ l) n p h e = omega (arith, length-drop_last x l)

-- A list of at most ten recent games has at most ten after another game is put in front.
pub length-moved_front :
    (id : GameId) (l : List GameId) → length l ≤ 10 → length (moved_front id l) ≤ 10
unfolding moved_front
length-moved_front id l h = elim (Bool-cases (leb 10 (length (remove_first l id)))) [
  | inl full ↦ rw full (omega (arith, drop_last-lt (remove_first l id) 10, remove_first-le l id))
  | inr room ↦ rw room (ground (arith, room))
]

-- `BoundedVec::try_from(tmp).expect("<= 10; qed")`: the lemma is the `qed`.
unfoldable pub recent : GameId → BoundedGames → BoundedGames
recent id games = record {
  elements = moved_front id games.elements;
  bound = length-moved_front id games.elements games.bound;
}

abbrev pub no_games : BoundedGames
no_games = record { elements = []; bound = omega arith }
