-- ===== src/MonteCarlo/CardGame.antt =====
-- The `GameAdapter` that crates/eterra-card-ai-adapter/src/lib.rs implements, and its laws.
use mathlib.Core.Option.{some-injective}
use eterra_polkadot_sdk_solo.Prelude.{
  ℕ, ◌≤◌, ◌<◌, ◌%◌, ◌≡◌, sym, ap, ◌∙◌, subst, inl, inr, true, false, if◌then◌else◌, Option, none,
  some, List, [], ◌∷◌, length, get_elem?, set, length-set, Bool-cases, Option-cases, ◌==◌, arith,
  get_elem?-ne-none, update₂,
}
use eterra_polkadot_sdk_solo.Prelude.Int.{sub_ℕ}
use eterra_polkadot_sdk_solo.Prelude.Panics.{Returns, Returns-bind, Returns-map}
use eterra_polkadot_sdk_solo.Prelude.Each.{All, All-get_elem?, All-set}
use eterra_polkadot_sdk_solo.Eterra.Capture.{Direction, give_point, take_point}
use eterra_polkadot_sdk_solo.Eterra.Types.{player_one, player_two, Player}
use eterra_polkadot_sdk_solo.AiAdapter.Types.{Hand, State, Action}
use eterra_polkadot_sdk_solo.AiAdapter.Adapter.{
  placed_card, dirs, take_over, apply_direction, apply_directions, finish, list_actions_pure,
  apply_pure, is_terminal, score, random_action,
}
use eterra_polkadot_sdk_solo.AiAdapter.Entries.{Legal}
use eterra_polkadot_sdk_solo.AiAdapter.Listing.{ListsLegal, list_actions_pure-lists}
use eterra_polkadot_sdk_solo.AiAdapter.Simulation.{apply_directions-keeps}
use eterra_polkadot_sdk_solo.AiAdapter.Refinement.{captured, apply_pure-eq-some}
use eterra_polkadot_sdk_solo.MonteCarlo.Adapter.{card_game}
use eterra_polkadot_sdk_solo.MonteCarlo.Laws.{Lawful, Within, OnSome}

-- What the types of the state say: two hands of five entries, a turn of one of them, and scores in
-- a byte.
pub record Valid (s : State) : Type 0 where
  pub turn : s.player_turn < 2
  pub two : length s.hands ≡ 2
  pub five : All (λ h. length h ≡ 5) s.hands
  pub low : s.scores.0 ≤ 255
  pub high : s.scores.1 ≤ 255

holder :
    (s : State) → Valid s → (h : Hand) × (get_elem? s.hands s.player_turn ≡ some h) × (length h ≡ 5)
holder s v = elim (Option-cases (get_elem? s.hands s.player_turn)) [
  | inl missing ↦
      absurd (get_elem?-ne-none s.hands s.player_turn (omega (arith, v.turn, v.two)) missing)
  | inr (h, e) ↦ (h, e, All-get_elem? (λ h. length h ≡ 5) s.hands s.player_turn h v.five e)
]

is_terminal-live : (s : State) → is_terminal s ≡ false → s.round < s.max_rounds
unfolding is_terminal
is_terminal-live s e = ground arith

list_actions_pure-Legal :
    (s : State) (n : ℕ)
    → Valid s
    → is_terminal s ≡ false
    → Returns (ListsLegal s n) (list_actions_pure n s)
list_actions_pure-Legal s n v going =
    let (h, e, five) = holder s v in list_actions_pure-lists s n h (is_terminal-live s going) e five

random_action-Legal :
    (s : State) (seed : ℕ)
    → Valid s
    → is_terminal s ≡ false
    → Returns (OnSome (Legal s)) (random_action s seed)
unfolding random_action
random_action-Legal s seed v going =
    Returns-bind (ListsLegal s 128) (OnSome (Legal s)) (list_actions_pure 128 s) _
      (list_actions_pure-Legal s 128 v going) (λ l lists. drawn l lists)
  where
    drawn :
        (l : List Action)
        → ListsLegal s 128 l
        → Returns
            (OnSome (Legal s))
            (if length l == 0 then some none else some (get_elem? l (seed % length l)))
    drawn l lists = elim (Bool-cases (length l == 0)) [
      | inl empty ↦ rw empty tt
      | inr left ↦ rw left (elim (Option-cases (get_elem? l (seed % length l))) [
        | inl missing ↦ rw missing tt
        | inr (a, e) ↦ rw e (All-get_elem? (Legal s) l (seed % length l) a lists.1 e)
      ])
    ]

-- The scores stay in a byte.
abbrev Bytes : ℕ × ℕ → Type 0
Bytes p = (p.0 ≤ 255) × (p.1 ≤ 255)

give_point-Bytes : (ix : ℕ) (p : ℕ × ℕ) → Bytes p → Bytes (give_point ix p)
give_point-Bytes ix p b = ground arith

take_point-Bytes : (o : Option Player) (p : ℕ × ℕ) → Bytes p → Bytes (take_point o p)
take_point-Bytes none p b = b
take_point-Bytes (some player_one) p b = ground arith
take_point-Bytes (some player_two) p b = ground arith

apply_direction-Bytes :
    (turn x y : ℕ) (d : Direction) (g : State)
    → Bytes g.scores
    → Bytes (apply_direction turn x y d g).scores
unfolding apply_direction take_over
apply_direction-Bytes turn x y (dx, dy, rank) g b = ground arith

apply_directions-Bytes :
    (turn x y : ℕ) (ds : List Direction) (g : State)
    → Bytes g.scores
    → Bytes (apply_directions turn x y ds g).scores
unfolding apply_directions
apply_directions-Bytes turn x y [] g b = b
apply_directions-Bytes turn x y (d ∷ ds) g b =
    apply_directions-Bytes turn x y ds (apply_direction turn x y d g)
      (apply_direction-Bytes turn x y d g b)

apply_pure-Valid : (s : State) (a : Action) → Valid s → Legal s a → Returns Valid (apply_pure s a)
unfolding finish
apply_pure-Valid s a v legal =
    let (h, e, five) = holder s v in
    let same : legal.hand ≡ h = some-injective legal.hand h (sym legal.held ∙ e) in
    let entry : get_elem? h a.hand_index ≡ some legal.slot =
      subst (λ l. get_elem? l a.hand_index ≡ some legal.slot) same legal.entry in
    let placed = placed_card s.player_turn legal.slot in
    let start = record s { board = update₂ s.board a.x a.y (some placed) } in
    let (kt, kr, km, kh) = apply_directions-keeps s.player_turn a.x a.y (dirs placed) start in
    let b = apply_directions-Bytes s.player_turn a.x a.y (dirs placed) start (v.low, v.high) in
    let t = captured s a legal.slot in
    let used = set h a.hand_index (record legal.slot { used = true }) in
    rw (apply_pure-eq-some s a h legal.slot e entry legal.column legal.row) (record {
      turn = ground arith;
      two = length-set t.hands t.player_turn used ∙ ap length kh ∙ v.two;
      five =
          All-set (λ l. length l ≡ 5) t.hands t.player_turn used
            (length-set h a.hand_index (record legal.slot { used = true }) ∙ five)
            (subst (All (λ l. length l ≡ 5)) (sym kh) v.five);
      low = b.0;
      high = b.1;
    })

score-Within : (s : State) (p : ℕ) → Valid s → Within 2147483647 (score s p)
unfolding score
score-Within s p v = elim (Bool-cases (p == 0)) [
  | inl first ↦ rw first (sub_ℕ-Within s.scores.0 s.scores.1 v.low v.high)
  | inr second ↦ rw second (sub_ℕ-Within s.scores.1 s.scores.0 v.high v.low)
]
  where
    sub_ℕ-Within : (a b : ℕ) → a ≤ 255 → b ≤ 255 → Within 2147483647 (sub_ℕ a b)
    sub_ℕ-Within a b h k = ground arith

pub card_game-Lawful : Lawful card_game Valid Legal
unfolding card_game
card_game-Lawful = record {
  lists = λ s n v going.
      Returns-map (ListsLegal s n) (All (Legal s)) (list_actions_pure n s)
        (list_actions_pure-Legal s n v going) (λ l lists. lists.1);
  draws = random_action-Legal;
  applies = apply_pure-Valid;
  scores = score-Within;
}
