-- ===== src/AiAdapter/Refinement.antt =====
-- `apply_pure` of crates/eterra-card-ai-adapter/src/lib.rs refines the placement of
-- pallets/eterra/src/lib.rs, over every course of a game.
use eterra_polkadot_sdk_solo.Prelude.{
  ℕ, ◌<◌, ◌≡◌, refl, sym, ap, subst, ◌∙◌, ◌==◌, ltb, if◌then◌else◌, true, some, [], ◌∷◌, get_elem?,
  set, arith, update₂,
}
use eterra_polkadot_sdk_solo.Eterra.Types.{Game, next_turn, playing}
use eterra_polkadot_sdk_solo.Eterra.Capture.{place_card_on_board, apply_capture_logic}
use eterra_polkadot_sdk_solo.Eterra.Capture.Rule.{apply_capture_logic-keeps}
use eterra_polkadot_sdk_solo.Eterra.Store.{Env}
use eterra_polkadot_sdk_solo.Eterra.Ai.{resolve_move}
use eterra_polkadot_sdk_solo.Eterra.Course.{Course, Course-Scored, next_turn_playing}
use eterra_polkadot_sdk_solo.AiAdapter.Types.{Slot, Hand, State, Action}
use eterra_polkadot_sdk_solo.AiAdapter.Adapter.{
  placed_card, dirs, apply_directions, finish, apply_pure,
}
use eterra_polkadot_sdk_solo.AiAdapter.Mirror.{Agrees}
use eterra_polkadot_sdk_solo.AiAdapter.Simulation.{
  Shows, move_for, used_in, captures-Agrees, apply_directions-keeps, Course-AllOwned, mover-points,
}

-- The position after the captures, before the turn passes.
abbrev pub captured : State → Action → Slot → State
captured s a he =
    let placed = placed_card s.player_turn he in
    apply_directions s.player_turn a.x a.y (dirs placed)
      (record s { board = update₂ s.board a.x a.y (some placed) })

pub apply_pure-eq-some :
    (s : State) (a : Action) (hand : Hand) (he : Slot)
    → get_elem? s.hands s.player_turn ≡ some hand
    → get_elem? hand a.hand_index ≡ some he
    → a.x < 4
    → a.y < 4
    → apply_pure s a ≡ some (finish a.hand_index hand he (captured s a he))
unfolding apply_pure
apply_pure-eq-some s a hand he e f hx hy =
    let bx : ltb a.x 4 ≡ true = ground (arith, hx) in
    let by_ : ltb a.y 4 ≡ true = ground (arith, hy) in rw (e, f, bx, by_) refl

-- A game that goes on, after the turn has passed.
passed-Shows :
    (idx : ℕ) (hand : Hand) (he : Slot) (t : State) (h : Game)
    → ((i j : ℕ) → t.board i j ≡ h.board i j)
    → t.scores ≡ h.scores
    → t.player_turn ≡ h.player_turn
    → t.round ≡ h.round
    → t.max_rounds ≡ h.max_rounds
    → h.state ≡ playing
    → h.player_turn < 2
    → h.round < 5
    → (hand0 hand1 : Hand)
    → set t.hands t.player_turn (set hand idx (record he { used = true })) ≡ hand0 ∷ hand1 ∷ []
    → Shows (finish idx hand he t) (next_turn h) hand0 hand1
unfolding finish
passed-Shows idx hand he t h board scores turn round most on lt few hand0 hand1 hands =
    rw (next_turn_playing h on lt few) (record {
      board = board;
      scores = scores;
      turn = ground arith;
      round = ground arith;
      max_rounds = most;
      hands = hands;
    })

-- The hands after the move, in both places.
hands_after :
    (s : State) (a : Action) (hand0 hand1 : Hand) (he : Slot)
    → s.hands ≡ hand0 ∷ hand1 ∷ []
    → s.player_turn < 2
    → set s.hands s.player_turn (used_in (if s.player_turn == 0 then hand0 else hand1) a he)
      ≡ (if s.player_turn == 0 then used_in hand0 a he else hand0)
        ∷ (if s.player_turn == 0 then hand1 else used_in hand1 a he)
        ∷ []
hands_after s a hand0 hand1 he e lt = rw e (ground arith)

hand_of :
    (s : State) (hand0 hand1 : Hand)
    → s.hands ≡ hand0 ∷ hand1 ∷ []
    → s.player_turn < 2
    → get_elem? s.hands s.player_turn ≡ some (if s.player_turn == 0 then hand0 else hand1)
hand_of s hand0 hand1 e lt = rw e (ground arith)

-- At any point of a game of at most five rounds that is not over, let the search see the game with
-- the hands of the players, and take any card of the hand of the player to move and any cell of the
-- board. Then `apply_pure` does not panic, and what it returns shows the game after the pallet has
-- placed that card there, captured, and passed the turn, with that card marked as used in that hand.
pub apply_pure-refines :
    (env : Env) {p0 p1 : ℕ} {g : Game}
    → Course p0 p1 g
    → g.round < g.max_rounds
    → (s : State) (hand0 hand1 : Hand) → Shows s g hand0 hand1
    → (a : Action) (he : Slot)
    → get_elem? (if s.player_turn == 0 then hand0 else hand1) a.hand_index ≡ some he
    → a.x < 4
    → a.y < 4
    → (t : State) × (apply_pure s a ≡ some t)
      × Shows t
          (resolve_move env (move_for he a) g.player_turn g)
          (if s.player_turn == 0 then used_in hand0 a he else hand0)
          (if s.player_turn == 0 then hand1 else used_in hand1 a he)
unfolding resolve_move place_card_on_board
apply_pure-refines env {g} c left s hand0 hand1 sh a he entry hx hy =
    let mv = move_for he a in
    let v = Course-Scored c in
    let (low, high) = mover-points c left in
    let lt : s.player_turn < 2 = omega (arith, sh.turn, v.turn) in
    let hand = (if s.player_turn == 0 then hand0 else hand1) in
    let first_hand = (if s.player_turn == 0 then used_in hand0 a he else hand0) in
    let second_hand = (if s.player_turn == 0 then hand1 else used_in hand1 a he) in
    let (kt, kr, km, kh) =
      apply_directions-keeps s.player_turn a.x a.y (dirs (placed_card s.player_turn he))
        (record s { board = update₂ s.board a.x a.y (some (placed_card s.player_turn he)) }) in
    let ag =
      subst
        (λ ix.
          Agrees ix
            (apply_directions ix a.x a.y (dirs (placed_card ix he))
              (record s { board = update₂ s.board a.x a.y (some (placed_card ix he)) }))
            (apply_capture_logic (place_card_on_board g mv ix) mv ix))
        (sym sh.turn)
        (captures-Agrees he a s g v.turn sh.board sh.scores (Course-AllOwned c) low high) in
    let k = apply_capture_logic-keeps (place_card_on_board g mv s.player_turn) mv s.player_turn in
    (
      finish a.hand_index hand he (captured s a he),
      apply_pure-eq-some s a hand he (hand_of s hand0 hand1 sh.hands lt) entry hx hy,
      subst
          (λ ix.
            Shows (finish a.hand_index hand he (captured s a he)) (resolve_move env mv ix g)
              first_hand second_hand)
          sh.turn
          (passed-Shows a.hand_index hand he (captured s a he)
            (record (apply_capture_logic (place_card_on_board g mv s.player_turn) mv
              s.player_turn) { last_played_block = env.block_number })
            ag.board ag.scores (kt ∙ sh.turn ∙ sym (ap (λ h. h.player_turn) k))
            (kr ∙ sh.round ∙ sym (ap (λ h. h.round) k))
            (km ∙ sh.max_rounds ∙ sym (ap (λ h. h.max_rounds) k)) (ap (λ h. h.state) k ∙ v.state)
            (omega (arith, ap (λ h. h.player_turn) k, v.turn))
            (omega (arith, ap (λ h. h.round) k, v.short)) first_hand second_hand
            (ap (λ l. set l (captured s a he).player_turn (used_in hand a he)) kh
              ∙ ap (λ n. set s.hands n (used_in hand a he)) kt
              ∙ hands_after s a hand0 hand1 he sh.hands lt)),
    )
