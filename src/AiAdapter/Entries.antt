-- ===== src/AiAdapter/Entries.antt =====
-- The innermost loop of `list_actions_pure` of crates/eterra-card-ai-adapter/src/lib.rs, over the
-- entries of a hand at one empty cell, and the legal actions.
use mathlib.Core.Option.{none-ne-some, some-injective}
use eterra_polkadot_sdk_solo.Prelude.{
  ℕ, zero, suc, ◌+◌, ◌≤◌, ◌<◌, ◌≡◌, refl, ap, subst, ◌∙◌, ltb, true, false, none, some, List, [],
  ◌∷◌, length, get_elem?, arith, inl, inr, Bool-cases, length-append,
}
use eterra_polkadot_sdk_solo.Prelude.Each.{Has, All, Has-append, Has-append_self, All-append}
use eterra_polkadot_sdk_solo.AiAdapter.Types.{Slot, Hand, State, Action}
use eterra_polkadot_sdk_solo.AiAdapter.Adapter.{push_action, list_entries}

-- A legal action of a position: an empty cell of the board, and a card of the hand of the player to
-- move that has not been used.
pub record Legal (s : State) (a : Action) : Type 0 where
  pub hand : Hand
  pub slot : Slot
  pub column : a.x < 4
  pub row : a.y < 4
  pub free : s.board a.x a.y ≡ none
  pub held : get_elem? s.hands s.player_turn ≡ some hand
  pub entry : get_elem? hand a.hand_index ≡ some slot
  pub unused : slot.used ≡ false

-- What a part of the listing does to the list: it drops nothing, adds at most `n`, and adds only
-- legal actions.
pub record Grows (s : State) (n : ℕ) (out r : List Action) : Type 0 where
  pub keeps : (a : Action) → Has a out → Has a r
  pub short : length r ≤ length out + n
  pub sound : All (Legal s) out → All (Legal s) r

pub Grows-refl : (s : State) (n : ℕ) (out : List Action) → Grows s n out out
Grows-refl s n out = record { keeps = λ a h. h; short = omega arith; sound = λ v. v }

pub Grows-trans :
    (s : State) (m n k : ℕ) (o q r : List Action)
    → m + n ≡ k
    → Grows s m o q
    → Grows s n q r
    → Grows s k o r
Grows-trans s m n k o q r e g h = record {
  keeps = λ a p. h.keeps a (g.keeps a p);
  short = omega (arith, g.short, h.short);
  sound = λ v. h.sound (g.sound v);
}

push_action-Grows :
    (s : State) (max : ℕ) (out : List Action) (a : Action)
    → Legal s a
    → Grows s 1 out (push_action max out a)
unfolding push_action
push_action-Grows s max out a legal = elim (Bool-cases (ltb (length out) max)) [
  | inl room ↦ rw room (record {
    keeps = λ b h. Has-append b a out h;
    short = omega (arith, length-append out (a ∷ []));
    sound = λ v. All-append (Legal s) a out legal v;
  })
  | inr full ↦ rw full (Grows-refl s 1 out)
]

push_action-Has :
    (max : ℕ) (out : List Action) (a : Action) → length out < max → Has a (push_action max out a)
unfolding push_action
push_action-Has max out a room =
    let b : ltb (length out) max ≡ true = ground (arith, room) in rw b (Has-append_self a out)

-- An action on entry `idx` at the cell (x, y).
abbrev pub action_at : ℕ → ℕ → ℕ → Action
action_at idx x y = record { hand_index = idx; x = x; y = y }

module _ (s : State) (max x y : ℕ) (hx : x < 4) (hy : y < 4) (free : s.board x y ≡ none)
    (hand : Hand) (held : get_elem? s.hands s.player_turn ≡ some hand) where
  -- `entries` is the hand from `idx` on.
  abbrev IsRest : ℕ → Hand → Type 0
  IsRest idx entries =
      (k : ℕ) (he : Slot) → get_elem? entries k ≡ some he → get_elem? hand (idx + k) ≡ some he

  IsRest-tail :
      (idx : ℕ) (he : Slot) (entries : Hand) → IsRest idx (he ∷ entries) → IsRest (idx + 1) entries
  IsRest-tail idx he entries v k e q =
      subst (λ n. get_elem? hand n ≡ some e) (omega arith) (v (suc k) e q)

  legal_at :
      (idx : ℕ) (he : Slot) (entries : Hand)
      → IsRest idx (he ∷ entries)
      → he.used ≡ false
      → Legal s (action_at idx x y)
  legal_at idx he entries v unused = record {
    hand = hand;
    slot = he;
    column = hx;
    row = hy;
    free = free;
    held = held;
    entry = subst (λ n. get_elem? hand n ≡ some he) (omega arith) (v 0 he refl);
    unused = unused;
  }

  pub list_entries-Grows :
      (idx : ℕ) (entries : Hand) (out : List Action)
      → IsRest idx entries
      → Grows s (length entries) out (list_entries max x y idx entries out)
  unfolding list_entries
  list_entries-Grows idx [] out v = Grows-refl s 0 out
  list_entries-Grows idx (he ∷ entries) out v = elim (Bool-cases he.used) [
    | inl used ↦ rw used (
        Grows-trans s 1 (length entries) (suc (length entries)) out out _ (omega arith)
          (Grows-refl s 1 out)
          (list_entries-Grows (idx + 1) entries out (IsRest-tail idx he entries v)))
    | inr unused ↦ rw unused (
        Grows-trans s 1 (length entries) (suc (length entries)) out _ _ (omega arith)
          (push_action-Grows s max out (action_at idx x y) (legal_at idx he entries v unused))
          (list_entries-Grows (idx + 1) entries _ (IsRest-tail idx he entries v)))
  ]

  pub list_entries-Has :
      (idx : ℕ) (entries : Hand) (out : List Action) (k : ℕ) (he : Slot)
      → IsRest idx entries
      → get_elem? entries k ≡ some he
      → he.used ≡ false
      → length out + length entries ≤ max
      → Has (action_at (idx + k) x y) (list_entries max x y idx entries out)
  unfolding list_entries
  list_entries-Has idx [] out k he v e unused room = absurd (none-ne-some he e)
  list_entries-Has idx (he' ∷ entries) out zero he v e unused room =
      let same : he'.used ≡ false = ap (λ z. z.used) (some-injective he' he e) ∙ unused in
      rw same (
        (list_entries-Grows (idx + 1) entries _ (IsRest-tail idx he' entries v)).keeps
          (action_at (idx + zero) x y)
          (subst (λ n. Has (action_at (idx + zero) x y) (push_action max out (action_at n x y)))
            (omega arith)
            (push_action-Has max out (action_at (idx + zero) x y) (omega (arith, room)))))
  list_entries-Has idx (he' ∷ entries) out (suc k) he v e unused room = elim (Bool-cases he'.used) [
    | inl used ↦ rw used (
        subst (λ n. Has (action_at n x y) (list_entries max x y (idx + 1) entries out))
          (omega arith)
          (list_entries-Has (idx + 1) entries out k he (IsRest-tail idx he' entries v) e unused
            (omega (arith, room))))
    | inr free' ↦ rw free' (
        subst
          (λ n.
            Has (action_at n x y)
              (list_entries max x y (idx + 1) entries (push_action max out (action_at idx x y))))
          (omega arith)
          (list_entries-Has (idx + 1) entries _ k he (IsRest-tail idx he' entries v) e unused (
            omega (
              arith,
              room,
              (push_action-Grows s max out (action_at idx x y)
                  (legal_at idx he' entries v free')).short,
            ))))
  ]
