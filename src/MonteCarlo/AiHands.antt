-- ===== src/MonteCarlo/AiHands.antt =====
-- The hands and the position that pallets/eterra/src/lib.rs hands to the search, and the guards of the AI's
-- turn.
use mathlib.Core.Option
use mathlib.Core.Option.{some-injective, none-ne-some}
use eterra_polkadot_sdk_solo.Prelude.{
  ℕ, zero, suc, ◌≤◌, ◌<◌, ◌≡◌, ◌≢◌, refl, sym, ap, ◌∙◌, inl, inr, true, false, if◌then◌else◌, none,
  some, List, [], ◌∷◌, length, get_elem?, Bool-cases, Option-cases, ltb, ◌==◌, arith,
}
use eterra_polkadot_sdk_solo.Eterra.Types.{GameId, Game, HandEntry}
use eterra_polkadot_sdk_solo.Eterra.Store.{Store, Env}
use eterra_polkadot_sdk_solo.Eterra.Ai.{
  map_card_to_ai, slot_of, map_hand, state_of, ai_place, ai_play,
}
use eterra_polkadot_sdk_solo.AiAdapter.Types.{Slot, Action}
use eterra_polkadot_sdk_solo.MonteCarlo.CardGame.{Valid}

pub length-map_hand : (n : ℕ) (e : List HandEntry) → length (map_hand n e) ≡ n
unfolding map_hand
length-map_hand zero e = refl
length-map_hand (suc n) [] = ap suc (length-map_hand n [])
length-map_hand (suc n) (h ∷ e) = ap suc (length-map_hand n e)

-- The slots that `map_hand` adds are used, so an unused one shows an entry of the hand.
pub map_hand-entry :
    (n : ℕ) (e : List HandEntry) (k : ℕ) (slot : Slot)
    → get_elem? (map_hand n e) k ≡ some slot
    → slot.used ≡ false
    → (h : HandEntry) × (get_elem? e k ≡ some h) × (h.used ≡ false)
unfolding map_hand slot_of
map_hand-entry zero e k slot there unused = absurd (none-ne-some slot there)
map_hand-entry (suc n) [] zero slot there unused =
    absurd (differ (ap (λ z. z.used) (some-injective _ slot there) ∙ unused))
  where
    differ : true ≢ false
    differ q = cc
map_hand-entry (suc n) [] (suc k) slot there unused = map_hand-entry n [] k slot there unused
map_hand-entry (suc n) (h ∷ e) zero slot there unused =
    (h, refl, ap (λ z. z.used) (some-injective _ slot there) ∙ unused)
map_hand-entry (suc n) (h ∷ e) (suc k) slot there unused = map_hand-entry n e k slot there unused

module _ (g : Game) (e0 e1 : List HandEntry) (turn : g.player_turn < 2) where
  abbrev pub hand_to_play : List HandEntry
  hand_to_play = if g.player_turn == 0 then e0 else e1

  pub state_of-Valid : g.scores.0 ≤ 255 → g.scores.1 ≤ 255 → Valid (state_of g e0 e1)
  unfolding state_of
  state_of-Valid low high = record {
    turn = turn;
    two = refl;
    five = (length-map_hand 5 e0, (length-map_hand 5 e1, tt));
    low = low;
    high = high;
  }

  pub state_of-held :
      get_elem? (state_of g e0 e1).hands (state_of g e0 e1).player_turn
      ≡ some (map_hand 5 hand_to_play)
  unfolding state_of
  state_of-held = elim (Bool-cases (g.player_turn == 0)) [
    | inl first ↦ let z : g.player_turn ≡ 0 = ground arith in rw z refl
    | inr second ↦ let z : g.player_turn ≡ 1 = ground (arith, turn) in rw z refl
  ]

-- The guards of the AI's turn pass for a legal action.
pub ai_play-legal :
    (env : Env) (id : GameId) (g : Game) (a : Action) (s : Store) (hand : List HandEntry)
    (h : HandEntry)
    → s.hands_of_game id env.ai_account ≡ some hand
    → get_elem? hand a.hand_index ≡ some h
    → h.used ≡ false
    → a.x < 4
    → a.y < 4
    → g.board a.x a.y ≡ none
    → ai_play env id g a s ≡ ai_place env id g hand h a s
unfolding ai_play
ai_play-legal env id g a s hand h held entry unused hx hy free =
    let bx : ltb a.x 4 ≡ true = ground (arith, hx) in
    let by_ : ltb a.y 4 ≡ true = ground (arith, hy) in
    rw (held, ai_play, entry, unused, bx, by_, free) refl

pub state_of-free :
    (g : Game) (e0 e1 : List HandEntry) (x y : ℕ)
    → (state_of g e0 e1).board x y ≡ none
    → g.board x y ≡ none
unfolding state_of
state_of-free g e0 e1 x y e = elim (Option-cases (g.board x y)) [
  | inl free ↦ free
  | inr (c, occupied) ↦
      absurd (none-ne-some (map_card_to_ai c) (sym e ∙ ap (Option.map map_card_to_ai) occupied))
]
