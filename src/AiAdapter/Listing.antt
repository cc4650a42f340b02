-- ===== src/AiAdapter/Listing.antt =====
-- The loops of `list_actions_pure` of crates/eterra-card-ai-adapter/src/lib.rs over the board: they
-- list exactly the legal actions.
use mathlib.Core.Option.{none-ne-some, some-injective}
use eterra_polkadot_sdk_solo.Prelude.{
  ℕ, zero, suc, ◌+◌, ◌*◌, ◌≤◌, ◌<◌, ◌≡◌, refl, sym, subst, ◌∙◌, leb, false, none, some, List, [],
  ◌∷◌, length, get_elem?, arith, inl, inr, Option-cases,
}
use eterra_polkadot_sdk_solo.Prelude.Panics.{Returns, Returns-bind, Returns-map}
use eterra_polkadot_sdk_solo.Prelude.Each.{Has, All}
use eterra_polkadot_sdk_solo.AiAdapter.Types.{Slot, Hand, State, Action}
use eterra_polkadot_sdk_solo.AiAdapter.Adapter.{
  list_entries, list_cell, list_row, list_rows, list_actions_pure,
}
use eterra_polkadot_sdk_solo.AiAdapter.Entries.{
  Legal, Grows, Grows-refl, Grows-trans, action_at, list_entries-Grows, list_entries-Has,
}

whole_hand :
    (hand : Hand) (k : ℕ) (he : Slot)
    → get_elem? hand k ≡ some he
    → get_elem? hand (0 + k) ≡ some he
whole_hand hand k he e = subst (λ n. get_elem? hand n ≡ some he) (omega arith) e

rows_and_columns : All (λ y. y < 4) (0 ∷ 1 ∷ 2 ∷ 3 ∷ [])
rows_and_columns = (omega arith, (omega arith, (omega arith, (omega arith, tt))))

lt_4-Has : (y : ℕ) → y < 4 → Has y (0 ∷ 1 ∷ 2 ∷ 3 ∷ [])
lt_4-Has zero h = inl refl
lt_4-Has (suc zero) h = inr (inl refl)
lt_4-Has (suc (suc zero)) h = inr (inr (inl refl))
lt_4-Has (suc (suc (suc zero))) h = inr (inr (inr (inl refl)))
lt_4-Has (suc (suc (suc (suc n)))) h = absurd (omega (arith, h))

-- Every legal action at the cell (x, y) is listed.
abbrev Covers : State → ℕ → ℕ → List Action → Type 0
Covers s x y r = (a : Action) → Legal s a → a.x ≡ x → a.y ≡ y → Has a r

module _ (s : State) (max : ℕ) (hand : Hand) (held : get_elem? s.hands s.player_turn ≡ some hand)
    (five : length hand ≡ 5) where
  -- One cell, at the column `x` and the row `y`.
  abbrev ListsCell : ℕ → ℕ → List Action → List Action → Type 0
  ListsCell x y out r = Grows s 5 out r × (length out + 5 ≤ max → Covers s x y r)

  Covers-list_entries :
      (x y : ℕ) (hx : x < 4) (hy : y < 4) (free : s.board x y ≡ none) (out : List Action)
      → length out + 5 ≤ max
      → Covers s x y (list_entries max x y 0 hand out)
  Covers-list_entries x y hx hy free out room a legal ex ey =
      let same : legal.hand ≡ hand = some-injective legal.hand hand (sym legal.held ∙ held) in
      let entry : get_elem? hand a.hand_index ≡ some legal.slot =
        subst (λ l. get_elem? l a.hand_index ≡ some legal.slot) same legal.entry in
      let listed : Has (action_at a.hand_index x y) (list_entries max x y 0 hand out) =
        subst (λ n. Has (action_at n x y) (list_entries max x y 0 hand out)) (omega arith)
          (list_entries-Has s max x y hx hy free hand held 0 hand out a.hand_index legal.slot
            (whole_hand hand) entry legal.unused (omega (arith, room, five))) in
      subst (λ n. Has (action_at a.hand_index n a.y) (list_entries max x y 0 hand out)) (sym ex)
        (subst (λ n. Has (action_at a.hand_index x n) (list_entries max x y 0 hand out)) (sym ey)
          listed)

  list_cell-lists :
      (x y : ℕ) (out : List Action)
      → x < 4
      → y < 4
      → Returns (ListsCell x y out) (list_cell max s x y out)
  unfolding list_cell
  list_cell-lists x y out hx hy = elim (Option-cases (s.board x y)) [
    | inl free ↦
        rw (free, held)
          (
            subst (λ n. Grows s n out (list_entries max x y 0 hand out)) five
                (list_entries-Grows s max x y hx hy free hand held 0 hand out (whole_hand hand)),
            Covers-list_entries x y hx hy free out,
          )
    | inr (c, occupied) ↦ rw occupied (
      Grows-refl s 5 out,
      λ room a legal ex ey.
          let same : s.board a.x a.y ≡ s.board x y = rw (ex, ey) refl in
          absurd (none-ne-some c (sym legal.free ∙ same ∙ occupied)),
    )
  ]

  abbrev ListsRow : ℕ → List ℕ → List Action → List Action → Type 0
  ListsRow x ys out r =
      Grows s (5 * length ys) out r
      × (length out + 5 * length ys ≤ max → (y : ℕ) → Has y ys → Covers s x y r)

  list_row-lists :
      (x : ℕ) (ys : List ℕ) (out : List Action)
      → x < 4
      → All (λ y. y < 4) ys
      → Returns (ListsRow x ys out) (list_row max s x ys out)
  unfolding list_row
  list_row-lists x [] out hx hys = (Grows-refl s 0 out, λ room y h. elim h [ ])
  list_row-lists x (y ∷ ys) out hx (hy, hys) =
      Returns-bind (ListsCell x y out) (ListsRow x (y ∷ ys) out) (list_cell max s x y out)
        (list_row max s x ys) (list_cell-lists x y out hx hy)
        (λ q cell.
          Returns-map (ListsRow x ys q) (ListsRow x (y ∷ ys) out) (list_row max s x ys q)
            (list_row-lists x ys q hx hys)
            (λ r row. (
              Grows-trans s 5 (5 * length ys) (5 * suc (length ys)) out q r (omega arith) cell.0
                  row.0,
              λ room. λ z h. elim h [
                | inl e ↦ λ a legal ex ez.
                    row.0.keeps a (cell.1 (omega (arith, room)) a legal ex (ez ∙ sym e))
                | inr later ↦ row.1 (omega (arith, room, cell.0.short)) z later
              ],
            )))

  abbrev ListsRows : List ℕ → List Action → List Action → Type 0
  ListsRows xs out r =
      Grows s (20 * length xs) out r
      × (length out + 20 * length xs ≤ max → (x y : ℕ) → Has x xs → y < 4 → Covers s x y r)

  list_rows-lists :
      (xs : List ℕ) (out : List Action)
      → All (λ x. x < 4) xs
      → Returns (ListsRows xs out) (list_rows max s xs out)
  unfolding list_rows
  list_rows-lists [] out hxs = (Grows-refl s 0 out, λ room x y h hy. elim h [ ])
  list_rows-lists (x ∷ xs) out (hx, hxs) =
      Returns-bind (ListsRow x (0 ∷ 1 ∷ 2 ∷ 3 ∷ []) out) (ListsRows (x ∷ xs) out)
        (list_row max s x (0 ∷ 1 ∷ 2 ∷ 3 ∷ []) out) (list_rows max s xs)
        (list_row-lists x (0 ∷ 1 ∷ 2 ∷ 3 ∷ []) out hx rows_and_columns)
        (λ q row.
          Returns-map (ListsRows xs q) (ListsRows (x ∷ xs) out) (list_rows max s xs q)
            (list_rows-lists xs q hxs)
            (λ r rows. (
              Grows-trans s 20 (20 * length xs) (20 * suc (length xs)) out q r (omega arith) row.0
                  rows.0,
              λ room. λ z y h hy. elim h [
                | inl e ↦ λ a legal ez ey.
                    rows.0.keeps a
                      (row.1 (omega (arith, room)) y (lt_4-Has y hy) a legal (ez ∙ sym e) ey)
                | inr later ↦ rows.1 (omega (arith, room, row.0.short)) z y later hy
              ],
            )))

-- What `list_actions_pure` returns: at most 80 actions, all legal, and every legal action where the
-- buffer has 80 entries.
abbrev pub ListsLegal : State → ℕ → List Action → Type 0
ListsLegal s max actions =
    (length actions ≤ 80)
    × All (Legal s) actions
    × (80 ≤ max → (a : Action) → Legal s a → Has a actions)

-- On a position that is not terminal, whose player to move has a hand of five entries,
-- `list_actions_pure` does not panic; it lists at most 80 actions, each of which is an unused card of
-- that hand on an empty cell; and a buffer of 80 or more receives every such action.
pub list_actions_pure-lists :
    (s : State) (max : ℕ) (hand : Hand)
    → s.round < s.max_rounds
    → get_elem? s.hands s.player_turn ≡ some hand
    → length hand ≡ 5
    → Returns (ListsLegal s max) (list_actions_pure max s)
unfolding list_actions_pure
list_actions_pure-lists s max hand live held five =
    let going : leb s.max_rounds s.round ≡ false = ground (arith, live) in
    rw going (
      Returns-map (ListsRows s max hand held five (0 ∷ 1 ∷ 2 ∷ 3 ∷ []) []) (ListsLegal s max)
        (list_rows max s (0 ∷ 1 ∷ 2 ∷ 3 ∷ []) [])
        (list_rows-lists s max hand held five (0 ∷ 1 ∷ 2 ∷ 3 ∷ []) [] rows_and_columns)
        (λ r rows. (
          omega (arith, rows.0.short),
          rows.0.sound tt,
          λ room a legal.
              rows.1 room a.x a.y (lt_4-Has a.x legal.column) legal.row a legal refl refl,
        )))
