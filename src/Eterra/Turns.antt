-- ===== src/Eterra/Turns.antt =====
-- How many turns each player gets in a game of pallets/eterra/src/lib.rs: the turn passes by
-- `next_turn` (pallets/eterra/src/types/game.rs), and the round grows when it comes back to the first
-- player.
pub mod Examples
use eterra_polkadot_sdk_solo.Prelude.{
  ℕ, suc, ◌+◌, ◌≤◌, ◌<◌, ◌≡◌, refl, ◌∙◌, ◌⊎◌, ◌==◌, if◌then◌else◌, arith,
}
use eterra_polkadot_sdk_solo.Eterra.Types.{Game, next_turn}
use eterra_polkadot_sdk_solo.Eterra.Ai.{resolve_move}
use eterra_polkadot_sdk_solo.Eterra.Create.{new_game}
use eterra_polkadot_sdk_solo.Eterra.Course.{
  Course, opening, first_moves, second_moves, skips, Course-Scored, next_turn_playing, resolved,
  resolved_fields,
}

-- The player who had the first turn of a course.
unfoldable pub opening_turn : {p0 p1 : ℕ} {g : Game} → Course p0 p1 g → ℕ
opening_turn (opening env players turn lt few) = turn
opening_turn (first_moves c env mv left turn hx hy empty) = opening_turn c
opening_turn (second_moves c env mv left turn hx hy empty) = opening_turn c
opening_turn (skips c block left) = opening_turn c

-- How many turns of the player `i` were skipped.
unfoldable pub skipped : {p0 p1 : ℕ} {g : Game} → ℕ → Course p0 p1 g → ℕ
skipped i (opening env players turn lt few) = 0
skipped i (first_moves c env mv left turn hx hy empty) = skipped i c
skipped i (second_moves c env mv left turn hx hy empty) = skipped i c
skipped i (skips {g = g} c block left) = skipped i c + (if g.player_turn == i then 1 else 0)

-- The turns so far (`f` of the first player and `s` of the second, after an opening by `o`), and where
-- the game stands.
record Counted (f s o : ℕ) (g : Game) : Type 0 where
  first : f + o ≡ g.round + g.player_turn
  second : s ≡ g.round
  standing : (g.max_rounds ≡ 0) ⊎ ((g.round < g.max_rounds) ⊎ (g.player_turn ≡ 0))

-- A turn that passes while rounds are left.
turn_passes :
    {p0 p1 : ℕ} {g : Game} (c : Course p0 p1 g) (h : Game)
    → g.round < g.max_rounds
    → h.state ≡ g.state
    → h.player_turn ≡ g.player_turn
    → h.round ≡ g.round
    → h.max_rounds ≡ g.max_rounds
    → let t = next_turn h in
      (t.player_turn ≡ (if g.player_turn == 0 then 1 else 0))
      × (t.round ≡ (if g.player_turn == 0 then g.round else suc g.round))
      × (t.max_rounds ≡ g.max_rounds)
turn_passes c h left on turn round max =
    let v = Course-Scored c in
    rw (next_turn_playing h (on ∙ v.state) (omega arith) (omega arith))
      (rw turn refl, rw (turn, round) refl, max)

Course-Counted :
    {p0 p1 : ℕ} {g : Game} (c : Course p0 p1 g)
    → Counted (p0 + skipped 0 c) (p1 + skipped 1 c) (opening_turn c) g
unfolding opening_turn skipped new_game resolve_move resolved
Course-Counted (opening env players turn lt few) = record {
  first = omega arith;
  second = omega arith;
  standing = ground arith;
}
Course-Counted (first_moves {p0} {p1} {g} c env mv left turn hx hy empty) =
    let v = Course-Counted c in
    let (on, t, r, m) = resolved_fields env mv 0 g in
    let (t', r', m') = turn_passes c (resolved env mv 0 g) left on t r m in
    record { first = ground arith; second = ground arith; standing = ground arith }
Course-Counted (second_moves {p0} {p1} {g} c env mv left turn hx hy empty) =
    let v = Course-Counted c in
    let (on, t, r, m) = resolved_fields env mv 1 g in
    let (t', r', m') = turn_passes c (resolved env mv 1 g) left on t r m in
    record { first = ground arith; second = ground arith; standing = ground arith }
Course-Counted (skips {p0} {p1} {g} c block left) =
    let v = Course-Counted c in
    let lt = (Course-Scored c).turn in
    let (t', r', m') = turn_passes c g left refl refl refl refl in
    record { first = ground arith; second = ground arith; standing = ground arith }

opening_turn-lt : {p0 p1 : ℕ} {g : Game} (c : Course p0 p1 g) → opening_turn c < 2
unfolding opening_turn
opening_turn-lt (opening env players turn lt few) = lt
opening_turn-lt (first_moves c env mv left turn hx hy empty) = opening_turn-lt c
opening_turn-lt (second_moves c env mv left turn hx hy empty) = opening_turn-lt c
opening_turn-lt (skips c block left) = opening_turn-lt c

-- A game of one to five rounds that has run out of rounds has given the second player as many turns,
-- placed or skipped, as there are rounds; and the first player as many, less the index of the player
-- who had the first turn, which is 0 or 1: one turn fewer where the second player began.
pub Course-turns :
    {p0 p1 : ℕ} {g : Game} (c : Course p0 p1 g)
    → 0 < g.max_rounds
    → g.max_rounds ≤ g.round
    → (p0 + skipped 0 c + opening_turn c ≡ g.max_rounds)
      × (p1 + skipped 1 c ≡ g.max_rounds)
      × (opening_turn c < 2)
Course-turns c some_rounds over =
    let v = Course-Counted c in
    let s = Course-Scored c in
    (
      ground (arith, v.first, v.standing, s.rounds),
      ground (arith, v.second, s.rounds),
      opening_turn-lt c,
    )
