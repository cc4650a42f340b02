-- ===== src/Eterra/Finished.antt =====
-- A game that is over, in pallets/eterra/src/lib.rs: `end_game` and what `play` still allows.
use eterra_polkadot_sdk_solo.Prelude.{
  ℕ, ◌≤◌, ◌<◌, ◌≡◌, refl, ◌∙◌, ap, leb, ltb, if◌then◌else◌, true, Option, none, some, is_some,
  get_elem?, arith,
}
use eterra_polkadot_sdk_solo.Prelude.Results.{ok, signed}
use eterra_polkadot_sdk_solo.Eterra.Types.{
  AccountId, GameId, Game, finished, Move, next_turn, next_turn_in, new_turn, game_finished,
}
use eterra_polkadot_sdk_solo.Eterra.Capture.{apply_capture_logic, place_card_on_board}
use eterra_polkadot_sdk_solo.Eterra.Capture.Rule.{apply_capture_logic-keeps}
use eterra_polkadot_sdk_solo.Eterra.Store.{
  Store, Env, is_game_won, end_game, end_stored_game, winner_index, clear_active, deposit_event,
  put_game, validate_player_turn, validate_move, get_current_player_index,
}
use eterra_polkadot_sdk_solo.Eterra.Ai.{resolve_move}
use eterra_polkadot_sdk_solo.Eterra.Play.{play}
use eterra_polkadot_sdk_solo.Eterra.Invariant.{IsValid, Keeps-IsValid, resolve_move-Keeps}

-- The winner that the scores name: the first player, the second, or nobody.
abbrev pub leader : Game → AccountId → AccountId → Option AccountId
leader g a b =
    if ltb g.scores.1 g.scores.0 then some a else if ltb g.scores.0 g.scores.1 then some b else none

-- `is_game_won` for the id of a stored game, on a game with two distinct players: nothing while
-- rounds are left, and then the player with the higher score, or a draw.
pub is_game_won_lem :
    (id : GameId) (g : Game) (s : Store) (v : IsValid g)
    → is_some (s.game_storage id) ≡ true
    → is_game_won id g s
      ≡ (if leb g.max_rounds g.round then ok (some (leader g v.first v.second)) else ok none)
unfolding is_game_won
is_game_won_lem id g s v stored = ground arith

-- The index that `GameState::Finished` keeps.
abbrev pub verdict_index : Game → Option ℕ
verdict_index g =
    if ltb g.scores.1 g.scores.0 then some 0 else if ltb g.scores.0 g.scores.1 then some 1 else none

winner_index-leader :
    (g : Game) (v : IsValid g) → winner_index g (leader g v.first v.second) ≡ ok (verdict_index g)
unfolding winner_index
winner_index-leader g v = ground arith

-- What a storage `t` owes to the end of the valid game `g`, stored as `id` in `s`.
pub record HasEnded (id : GameId) (g : Game) (v : IsValid g) (t : Store) : Type 0 where
  pub stored : t.game_storage id ≡ some (record g { state = finished (verdict_index g) })
  pub first_free : t.active_game_of v.first ≡ none
  pub second_free : t.active_game_of v.second ≡ none

-- The end of a stored game with two distinct players, for the leader of its scores, succeeds: the
-- game is finished with the index of the leader, and neither player has a marker of an active game
-- any more, whichever game the marker named.
pub end_game-HasEnded :
    (id : GameId) (g : Game) (s : Store) (v : IsValid g)
    → s.game_storage id ≡ some g
    → (t : Store) × (end_game id (leader g v.first v.second) s ≡ ok t) × HasEnded id g v t
unfolding end_game end_stored_game clear_active put_game deposit_event
end_game-HasEnded id g s v e = (
  ended,
  rw (e, end_game, winner_index-leader g v) refl,
  record { stored = ground arith; first_free = ground arith; second_free = ground arith },
)
  where
    ended : Store
    ended =
        let w = leader g v.first v.second in
        let g' = record g { state = finished (verdict_index g) } in
        put_game id g' (
          clear_active (get_elem? g.players 1)
            (clear_active (get_elem? g.players 0) (deposit_event (game_finished id w) s)))

next_turn_finished : (g : Game) (w : Option ℕ) → g.state ≡ finished w → next_turn g ≡ g
unfolding next_turn next_turn_in
next_turn_finished g w e = rw (e, next_turn_in) refl

stored_now : (id : GameId) (g : Game) (s : Store) → (put_game id g s).game_storage id ≡ some g
unfolding put_game
stored_now id g s = ground arith

turn_passes :
    (g : Game) (who : AccountId)
    → get_elem? g.players g.player_turn ≡ some who
    → validate_player_turn g who ≡ ok tt
unfolding validate_player_turn
turn_passes g who e = ground arith

cell_passes :
    (g : Game) (mv : Move)
    → mv.place_index_x < 4
    → mv.place_index_y < 4
    → g.board mv.place_index_x mv.place_index_y ≡ none
    → validate_move g mv ≡ ok tt
unfolding validate_move
cell_passes g mv hx hy e = ground arith

same_seat :
    (g g' : Game) (who : AccountId)
    → get_elem? g.players g.player_turn ≡ some who
    → g'.players ≡ g.players
    → g'.player_turn ≡ g.player_turn
    → get_elem? g'.players g'.player_turn ≡ some who
same_seat g g' who e p q = cc

won_late :
    (id : GameId) (g : Game) (s : Store) (v : IsValid g)
    → s.game_storage id ≡ some g
    → g.max_rounds ≤ g.round
    → is_game_won id g s ≡ ok (some (leader g v.first v.second))
won_late id g s v e late = is_game_won_lem id g s v (ap is_some e) ∙ ground arith

-- `play` where every guard passes and the game is won.
play_won :
    (env : Env) (who : AccountId) (id : GameId) (mv : Move) (s : Store) (g : Game) (ix : ℕ)
    (o : Option AccountId)
    → let g' = resolve_move env mv ix g in
      let s1 = put_game id g' (deposit_event (new_turn id who) s) in
      s.game_storage id ≡ some g
      → validate_player_turn g who ≡ ok tt
      → validate_move g mv ≡ ok tt
      → get_current_player_index g who ≡ ok ix
      → get_elem? g'.players g'.player_turn ≡ some who
      → is_game_won id g' s1 ≡ ok (some o)
      → play env (signed who) id mv s ≡ end_game id o s1
unfolding play
play_won env who id mv s g ix o e turn cell index seat won =
    rw (e, turn, cell, index, seat, won) refl

-- The index that the code finds for the player whose turn it is, is the turn.
pub index-turn :
    (g : Game) (who : AccountId)
    → IsValid g
    → get_elem? g.players g.player_turn ≡ some who
    → get_current_player_index g who ≡ ok g.player_turn
unfolding get_current_player_index
index-turn g who v turn = ground arith

-- A move on a finished game leaves the turn, the players and the rounds alone.
resolve_move-finished :
    (env : Env) (mv : Move) (ix : ℕ) (g : Game) (w : Option ℕ)
    → g.state ≡ finished w
    → let g' = resolve_move env mv ix g in
      (g'.players ≡ g.players)
      × (g'.player_turn ≡ g.player_turn)
      × (g'.round ≡ g.round)
      × (g'.max_rounds ≡ g.max_rounds)
unfolding resolve_move place_card_on_board
resolve_move-finished env mv ix g w over =
    let moved = place_card_on_board g mv ix in
    let k = apply_capture_logic-keeps moved mv ix in
    let stamped = record (apply_capture_logic moved mv ix) {
      last_played_block = env.block_number;
    } in
    let still = next_turn_finished stamped w (ap (λ h. h.state) k ∙ over) in
    ground (arith, still, k)

-- A finished game with no rounds left accepts moves: the player whose turn it was may still place
-- a card on an empty cell of the board. The game ends once more, with the leader of the new
-- scores, and the markers of both players are cleared, whichever games they name.
pub play-finished :
    (env : Env) (who : AccountId) (id : GameId) (mv : Move) (s : Store) (g : Game) (w : Option ℕ)
    (v : IsValid g)
    → s.game_storage id ≡ some g
    → g.state ≡ finished w
    → g.max_rounds ≤ g.round
    → get_elem? g.players g.player_turn ≡ some who
    → mv.place_index_x < 4
    → mv.place_index_y < 4
    → g.board mv.place_index_x mv.place_index_y ≡ none
    → let k = resolve_move-Keeps env mv g.player_turn g in
      (t : Store) × (play env (signed who) id mv s ≡ ok t)
      × HasEnded id (resolve_move env mv g.player_turn g) (Keeps-IsValid g _ k v) t
play-finished env who id mv s g w v e over late turn hx hy empty =
    let ix = g.player_turn in
    let g' = resolve_move env mv ix g in
    let v' = Keeps-IsValid g g' (resolve_move-Keeps env mv ix g) v in
    let s1 = put_game id g' (deposit_event (new_turn id who) s) in
    let (ps, pt, pr, pm) = resolve_move-finished env mv ix g w over in
    let (t, ended, has_ended) = end_game-HasEnded id g' s1 v' (stored_now id g' _) in
    (
      t,
      play_won env who id mv s g ix (leader g' v'.first v'.second) e (turn_passes g who turn)
            (cell_passes g mv hx hy empty) (index-turn g who v turn) (same_seat g g' who turn ps pt)
            (won_late id g' s1 v' (stored_now id g' _) (rw (pr, pm) late))
          ∙ ended,
      has_ended,
    )
