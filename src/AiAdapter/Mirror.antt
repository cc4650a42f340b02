-- ===== src/AiAdapter/Mirror.antt =====
-- The captures of crates/eterra-card-ai-adapter/src/lib.rs against those of pallets/eterra/src/lib.rs.
-- The adapter takes beaten cards of any owner; on boards where every card has an owner, and while
-- the player to move has a point, that is the same.
use eterra_polkadot_sdk_solo.Prelude.{
  ℕ, ◌≤◌, ◌<◌, ◌≡◌, ◌==◌, ltb, if◌then◌else◌, true, false, some, List, [], ◌∷◌, arith, inl, inr,
  ◌∙◌, Option-cases, Bool-cases, ap, is_some,
}
use eterra_polkadot_sdk_solo.Eterra.Types.{Card, with_possession, Game, Move}
use eterra_polkadot_sdk_solo.Eterra.Capture.{
  Direction, neighbor_cell, is_opponent_owned, opp_rank, take_point, give_point, beats, flip_card,
  capture_step, capture_loop,
}
use eterra_polkadot_sdk_solo.Prelude.Int.{ℤ}
use eterra_polkadot_sdk_solo.AiAdapter.Types.{State}
use eterra_polkadot_sdk_solo.AiAdapter.Adapter.{apply_direction, apply_directions, take_over}

-- The score of a player.
abbrev pub points : ℕ → ℕ × ℕ → ℕ
points ix s = if ix == 0 then s.0 else s.1

-- Board and scores agree, every card has an owner, and the player to move has a point.
pub record Agrees (ix : ℕ) (s : State) (g : Game) : Type 0 where
  pub board : (i j : ℕ) → s.board i j ≡ g.board i j
  pub scores : s.scores ≡ g.scores
  pub owned : (i j : ℕ) (c : Card) → g.board i j ≡ some c → is_some c.possession ≡ true
  pub low : 1 ≤ points ix g.scores
  pub high : points ix g.scores ≤ 255

-- A beaten card of the opponent changes hands in both.
take_over-Agrees :
    (ix i j : ℕ) (c : Card) (s : State) (g : Game)
    → ix < 2
    → is_opponent_owned c.possession ix ≡ true
    → Agrees ix s g
    → Agrees ix (take_over ix i j c s) (flip_card g ix i j c)
unfolding take_over flip_card with_possession is_opponent_owned
take_over-Agrees ix i j c s g hix opp v = record {
  board = λ a b. ground (arith, v.board a b);
  scores = ap (λ p. give_point ix (take_point c.possession p)) v.scores;
  owned = λ a b d e. ground (arith, v.owned a b d);
  low = ground (arith, v.low);
  high = ground (arith, v.high);
}

-- A beaten card of the player stays as it is in both.
kept-Agrees :
    (ix i j : ℕ) (c : Card) (s : State) (g : Game)
    → ix < 2
    → g.board i j ≡ some c
    → is_opponent_owned c.possession ix ≡ false
    → Agrees ix s g
    → Agrees ix (take_over ix i j c s) g
unfolding take_over with_possession is_opponent_owned
kept-Agrees ix i j c s g hix e own v = record {
  board = λ a b. ground (arith, v.board a b, v.owned i j c e);
  scores = ground (arith, v.owned i j c e, v.low, v.high, v.scores);
  owned = v.owned;
  low = v.low;
  high = v.high;
}

-- One neighbor, in both.
neighbor-Agrees :
    (ix i j r : ℕ) (dx dy : ℤ) (c : Card) (s : State) (g : Game)
    → ix < 2
    → g.board i j ≡ some c
    → Agrees ix s g
    → Agrees ix
        (if ltb (opp_rank dx dy c) r then take_over ix i j c s else s)
        (if beats ix dx dy r c then flip_card g ix i j c else g)
unfolding beats
neighbor-Agrees ix i j r dx dy c s g hix full v = elim (Bool-cases (ltb (opp_rank dx dy c) r)) [
  | inr tie ↦ rw tie (elim (Bool-cases (is_opponent_owned c.possession ix)) [
    | inl theirs ↦ rw theirs v
    | inr ours ↦ rw ours v
  ])
  | inl higher ↦ rw higher (elim (Bool-cases (is_opponent_owned c.possession ix)) [
    | inl theirs ↦ rw theirs (take_over-Agrees ix i j c s g hix theirs v)
    | inr ours ↦ rw ours (kept-Agrees ix i j c s g hix full ours v)
  ])
]

apply_direction-Agrees :
    (mv : Move) (ix : ℕ) (d : Direction) (s : State) (g : Game)
    → ix < 2
    → Agrees ix s g
    → Agrees ix (apply_direction ix mv.place_index_x mv.place_index_y d s) (capture_step mv ix d g)
unfolding apply_direction capture_step
apply_direction-Agrees mv ix (dx, dy, r) s g hix v =
    elim (Option-cases (neighbor_cell mv.place_index_x mv.place_index_y dx dy)) [
      | inl outside ↦ rw (outside, capture_step, apply_direction) v
      | inr ((i, j), cell) ↦ elim (Option-cases (g.board i j)) [
        | inl empty ↦ rw (cell, capture_step, apply_direction, empty, v.board i j ∙ empty) v
        | inr (c, full) ↦
            rw (cell, capture_step, apply_direction, full, v.board i j ∙ full)
              (neighbor-Agrees ix i j r dx dy c s g hix full v)
      ]
    ]

pub apply_directions-Agrees :
    (ds : List Direction) (mv : Move) (ix : ℕ) (s : State) (g : Game)
    → ix < 2
    → Agrees ix s g
    → Agrees ix
        (apply_directions ix mv.place_index_x mv.place_index_y ds s)
        (capture_loop ds mv ix g)
unfolding apply_directions capture_loop
apply_directions-Agrees [] mv ix s g hix v = v
apply_directions-Agrees (d ∷ ds) mv ix s g hix v =
    apply_directions-Agrees ds mv ix _ _ hix (apply_direction-Agrees mv ix d s g hix v)
