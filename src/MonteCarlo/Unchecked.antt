-- ===== src/MonteCarlo/Unchecked.antt =====
-- The call of pallets/eterra-monte-carlo-ai/src/lib.rs on a state that its caller makes up, over the card
-- game's adapter, crates/eterra-card-ai-adapter/src/lib.rs.
use eterra_polkadot_sdk_solo.Prelude.{
  ℕ, zero, suc, ◌≤◌, ◌<◌, ◌≡◌, ◌≢◌, ◌↔◌, refl, sym, ◌∙◌, inl, inr, ◌⊎◌, leb, ltb, true, false,
  Option, none, some, List, [], ◌∷◌, length, get_elem?, Bool-cases, Option-cases, arith,
}
use mathlib.Core.Option.{none-ne-some}
use eterra_polkadot_sdk_solo.Prelude.Panics.{Returns-eq}
use eterra_polkadot_sdk_solo.Prelude.Each.{All}
use eterra_polkadot_sdk_solo.Prelude.Results.{ok, panic, signed, or_panic, ok_or, ◌>>=◌}
use eterra_polkadot_sdk_solo.AiAdapter.Types.{State, Action}
use eterra_polkadot_sdk_solo.AiAdapter.Adapter.{
  list_cell, list_row, list_rows, list_actions_pure, is_terminal,
}
use eterra_polkadot_sdk_solo.MonteCarlo.{Config, scaled_iterations, suggest}
use eterra_polkadot_sdk_solo.MonteCarlo.Call.{Store, suggested, no_legal_moves, suggest_move}
use eterra_polkadot_sdk_solo.MonteCarlo.Search.{Suggests, suggest-Suggests}
use eterra_polkadot_sdk_solo.MonteCarlo.Adapter.{card_game}
use eterra_polkadot_sdk_solo.MonteCarlo.CardGame.{Valid, card_game-Lawful}

-- An empty cell among those of a column, and among those of several.
abbrev FreeIn : State → ℕ → List ℕ → Type 0
FreeIn s x [] = ⊥
FreeIn s x (y ∷ ys) = (s.board x y ≡ none) ⊎ FreeIn s x ys

abbrev FreeAmong : State → List ℕ → Type 0
FreeAmong s [] = ⊥
FreeAmong s (x ∷ xs) = FreeIn s x (0 ∷ 1 ∷ 2 ∷ 3 ∷ []) ⊎ FreeAmong s xs

-- A list of actions that panics where there is an empty cell, and lists nothing more otherwise.
abbrev PanicsIf : Type 0 → List Action → Option (List Action) → Type 0
PanicsIf P out r = (P × (r ≡ none)) ⊎ ((¬ P) × (r ≡ some out))

module _ (s : State) (max : ℕ) (missing : get_elem? s.hands s.player_turn ≡ none) where
  list_row-PanicsIf :
      (x : ℕ) (ys : List ℕ) (out : List Action)
      → PanicsIf (FreeIn s x ys) out (list_row max s x ys out)
  unfolding list_row list_cell
  list_row-PanicsIf x [] out = inr (λ h. h, refl)
  list_row-PanicsIf x (y ∷ ys) out = elim (Option-cases (s.board x y)) [
    | inl free ↦ inl (inl free, rw (free, missing) refl)
    | inr (c, taken) ↦ rw taken (elim (list_row-PanicsIf x ys out) [
      | inl (free, e) ↦ inl (inr free, e)
      | inr (full, e) ↦
          inr (λ h. elim h [ inl z ↦ absurd (none-ne-some c (sym z)) | inr z ↦ full z ], e)
    ])
  ]

  list_rows-PanicsIf :
      (xs : List ℕ) (out : List Action) → PanicsIf (FreeAmong s xs) out (list_rows max s xs out)
  unfolding list_rows
  list_rows-PanicsIf [] out = inr (λ h. h, refl)
  list_rows-PanicsIf (x ∷ xs) out = elim (list_row-PanicsIf x (0 ∷ 1 ∷ 2 ∷ 3 ∷ []) out) [
    | inl (free, e) ↦ inl (inl free, rw e refl)
    | inr (full, e) ↦ rw e (elim (list_rows-PanicsIf xs out) [
      | inl (free, e') ↦ inl (inr free, e')
      | inr (full', e') ↦ inr (λ h. elim h [ inl z ↦ full z | inr z ↦ full' z ], e')
    ])
  ]

-- An empty cell of the board.
abbrev pub HasFree : State → Type 0
HasFree s = (x : ℕ) × (y : ℕ) × (x < 4) × (y < 4) × (s.board x y ≡ none)

-- What the types of the state say; the turn is any `u8`.
pub record IsTyped (s : State) : Type 0 where
  pub two : length s.hands ≡ 2
  pub five : All (λ h. length h ≡ 5) s.hands
  pub low : s.scores.0 ≤ 255
  pub high : s.scores.1 ≤ 255

FreeIn-cell : (s : State) (x : ℕ) → x < 4 → FreeIn s x (0 ∷ 1 ∷ 2 ∷ 3 ∷ []) → HasFree s
FreeIn-cell s x h (inl e) = (x, 0, h, omega arith, e)
FreeIn-cell s x h (inr (inl e)) = (x, 1, h, omega arith, e)
FreeIn-cell s x h (inr (inr (inl e))) = (x, 2, h, omega arith, e)
FreeIn-cell s x h (inr (inr (inr (inl e)))) = (x, 3, h, omega arith, e)
FreeIn-cell s x h (inr (inr (inr (inr e)))) = absurd e

FreeAmong-cell : (s : State) → FreeAmong s (0 ∷ 1 ∷ 2 ∷ 3 ∷ []) → HasFree s
FreeAmong-cell s (inl e) = FreeIn-cell s 0 (omega arith) e
FreeAmong-cell s (inr (inl e)) = FreeIn-cell s 1 (omega arith) e
FreeAmong-cell s (inr (inr (inl e))) = FreeIn-cell s 2 (omega arith) e
FreeAmong-cell s (inr (inr (inr (inl e)))) = FreeIn-cell s 3 (omega arith) e
FreeAmong-cell s (inr (inr (inr (inr e)))) = absurd e

cell-FreeIn : (s : State) (x y : ℕ) → y < 4 → s.board x y ≡ none → FreeIn s x (0 ∷ 1 ∷ 2 ∷ 3 ∷ [])
cell-FreeIn s x zero h e = inl e
cell-FreeIn s x (suc zero) h e = inr (inl e)
cell-FreeIn s x (suc (suc zero)) h e = inr (inr (inl e))
cell-FreeIn s x (suc (suc (suc zero))) h e = inr (inr (inr (inl e)))
cell-FreeIn s x (suc (suc (suc (suc y)))) h e = absurd (omega (arith, h))

cell-FreeAmong :
    (s : State) (x : ℕ) → x < 4 → FreeIn s x (0 ∷ 1 ∷ 2 ∷ 3 ∷ []) → FreeAmong s (0 ∷ 1 ∷ 2 ∷ 3 ∷ [])
cell-FreeAmong s zero h e = inl e
cell-FreeAmong s (suc zero) h e = inr (inl e)
cell-FreeAmong s (suc (suc zero)) h e = inr (inr (inl e))
cell-FreeAmong s (suc (suc (suc zero))) h e = inr (inr (inr (inl e)))
cell-FreeAmong s (suc (suc (suc (suc x)))) h e = absurd (omega (arith, h))

beyond : {A : Type 0} (l : List A) (i : ℕ) → length l ≤ i → get_elem? l i ≡ none
beyond [] i h = refl
beyond (x ∷ l) zero h = absurd (omega (arith, h))
beyond (x ∷ l) (suc i) h = beyond l i (omega arith)

-- With a turn that names a player the search returns.
suggest-returns :
    (config : Config) (s : State) (difficulty nonce : ℕ)
    → IsTyped s
    → s.player_turn < 2
    → suggest card_game config s difficulty nonce ≢ none
suggest-returns config s difficulty nonce typed turn e =
    let v : Valid s = record {
      turn = turn;
      two = typed.two;
      five = typed.five;
      low = typed.low;
      high = typed.high;
    } in
    let (r, found, _) =
      Returns-eq (Suggests card_game config card_game-Lawful s difficulty nonce)
        (suggest card_game config s difficulty nonce)
        (suggest-Suggests card_game config card_game-Lawful s difficulty nonce v) in
    absurd (none-ne-some r (sym e ∙ found))

-- With a turn that names no player, and rounds left, it panics at the first empty cell.
suggest-stray :
    (config : Config) (s : State) (difficulty nonce : ℕ)
    → IsTyped s
    → leb s.max_rounds s.round ≡ false
    → 2 ≤ s.player_turn
    → (suggest card_game config s difficulty nonce ≡ none) ↔ HasFree s
unfolding suggest card_game list_actions_pure is_terminal
suggest-stray config s difficulty nonce typed going stray =
    let missing = beyond s.hands s.player_turn (omega (arith, typed.two, stray)) in
    elim (list_rows-PanicsIf s 128 missing (0 ∷ 1 ∷ 2 ∷ 3 ∷ []) []) [
      | inl (free, e) ↦ (λ _. FreeAmong-cell s free, λ _. rw (going, e) refl)
      | inr (full, e) ↦ (
        λ none_. absurd (found_none (rw (going, e) at none_)),
        λ h. absurd (full (cell-FreeAmong s h.0 h.2 (cell-FreeIn s h.0 h.1 h.3 h.4))),
      )
    ]
  where
    found_none : ◌≡◌ {A = Option (Option Action × ℕ)} (some (none, nonce)) none → ⊥
    found_none q = cc

suggest-over :
    (config : Config) (s : State) (difficulty nonce : ℕ)
    → leb s.max_rounds s.round ≡ true
    → suggest card_game config s difficulty nonce ≢ none
unfolding suggest card_game is_terminal
suggest-over config s difficulty nonce over e = returned (rw over at e)
  where
    returned : ◌≡◌ {A = Option (Option Action × ℕ)} (some (none, nonce)) none → ⊥
    returned q = cc

-- A chain that panics only at its start.
panics_first :
    {E A S : Type 0} (m : Option (Option A × ℕ)) (e : E) (f : Option A × ℕ → A → S)
    → ((or_panic m >>= λ r. ok_or r.0 e >>= λ a. ok (f r a)) ≡ panic) ↔ (m ≡ none)
panics_first none e f = (λ q. refl, λ q. refl)
panics_first (some (none, n)) e f = (λ q. cc, λ q. cc)
panics_first (some (some a, n)) e f = (λ q. cc, λ q. cc)

-- The call panics where the search does.
suggest_move-panic :
    (config : Config) (hash_of : State → ℕ) (who : ℕ) (s : State) (difficulty : ℕ)
    (store : Store Action)
    → (suggest_move card_game config hash_of (signed who) s difficulty store ≡ panic)
      ↔ (suggest card_game config s difficulty store.nonce ≡ none)
unfolding suggest_move
suggest_move-panic config hash_of who s difficulty store =
    panics_first (suggest card_game config s difficulty store.nonce) no_legal_moves (λ r action.
      record {
        nonce = r.1;
        events =
            suggested (hash_of s) difficulty (scaled_iterations config difficulty) action
            ∷ store.events;
      })

-- The search panics exactly there.
suggest-none :
    (config : Config) (s : State) (difficulty nonce : ℕ)
    → IsTyped s
    → (suggest card_game config s difficulty nonce ≡ none)
      ↔ ((s.round < s.max_rounds) × (2 ≤ s.player_turn) × HasFree s)
suggest-none config s difficulty nonce typed = elim (Bool-cases (leb s.max_rounds s.round)) [
  | inl over ↦ (
    λ e. absurd (suggest-over config s difficulty nonce over e),
    λ h. absurd (ground (arith, over, h.0)),
  )
  | inr going ↦ elim (Bool-cases (ltb s.player_turn 2)) [
    | inl turn ↦ (
      λ e. absurd (suggest-returns config s difficulty nonce typed (ground (arith, turn)) e),
      λ h. absurd (ground (arith, turn, h.1)),
    )
    | inr stray ↦
        let out : 2 ≤ s.player_turn = ground (arith, stray) in
        let left : s.round < s.max_rounds = ground (arith, going) in
        let w = suggest-stray config s difficulty nonce typed going out in
        (λ e. (left, out, w.0 e), λ h. w.1 h.2)
  ]
]

-- A signed account that asks for a suggestion at a state of its own making makes the runtime panic
-- if and only if rounds are left in the state, its turn names no player, and a cell of its board is
-- empty.
pub suggest_move-panics :
    (config : Config) (hash_of : State → ℕ) (who : ℕ) (s : State) (difficulty : ℕ)
    (store : Store Action)
    → IsTyped s
    → (suggest_move card_game config hash_of (signed who) s difficulty store ≡ panic)
      ↔ ((s.round < s.max_rounds) × (2 ≤ s.player_turn) × HasFree s)
suggest_move-panics config hash_of who s difficulty store typed =
    let h = suggest-none config s difficulty store.nonce typed in
    let p = suggest_move-panic config hash_of who s difficulty store in
    (λ e. h.0 (p.0 e), λ c. p.1 (h.1 c))
