-- ===== src/MonteCarlo/Search.antt =====
-- `suggest` of pallets/eterra-monte-carlo-ai/src/lib.rs over a lawful adapter.
use eterra_polkadot_sdk_solo.Prelude.{
  ℕ, zero, suc, ◌+◌, ◌*◌, ◌/◌, ◌≤◌, ◌≡◌, ◌≢◌, refl, sym, ap, ◌∙◌, subst, ◌⊎◌, inl, inr, true, false,
  if◌then◌else◌, Option, none, some, List, [], ◌∷◌, length, get_elem?, Bool-cases, Option-cases,
  ◌==◌, arith,
}
use mathlib.Core.Option.{none-ne-some}
use native.Mathlib.Nat.{div-le_of_le-mul}
use eterra_polkadot_sdk_solo.Prelude.Int.{ℤ, pos, negsuc, ltℤ, div_ℤ}
use eterra_polkadot_sdk_solo.Prelude.Panics.{◌>>=◌, Returns, Returns-bind, Returns-eq}
use eterra_polkadot_sdk_solo.Prelude.Each.{All, All-get_elem?}
use eterra_polkadot_sdk_solo.MonteCarlo.{
  GameAdapter, Config, i64_min, simulate, choose, suggest, sims_per_action,
}
use eterra_polkadot_sdk_solo.MonteCarlo.Laws.{Lawful, Within}
use eterra_polkadot_sdk_solo.MonteCarlo.Playouts.{simulate-Within}
use eterra_polkadot_sdk_solo.MonteCarlo.Maximum.{scan, scan-Scanned, FirstMax}

div_ℤ-Within : (n b : ℕ) (a : ℤ) → Within (n * b) a → Within b (div_ℤ a n)
div_ℤ-Within n b (pos a) h = div-le_of_le-mul n h
div_ℤ-Within n b (negsuc a) h = let q : suc a / n ≤ b = div-le_of_le-mul n h in ground arith

module _ {State Action Player : Type 0} (game : GameAdapter State Action Player)
    (config : Config) where
  -- The average outcome of each action, the numbers drawn one action after the other, and the nonce
  -- in the end.
  unfoldable pub averages : State → Player → ℕ → ℕ → List Action → ℕ → Option (List ℤ × ℕ)
  averages state me sims i [] nonce = some ([], nonce)
  averages state me sims i (a ∷ later) nonce =
      simulate game config state a me i sims 0 (pos 0) nonce >>= λ r.
      averages state me sims (i + 1) later r.1 >>= λ rest. some (div_ℤ r.0 sims ∷ rest.0, rest.1)

  -- The loop of `suggest` looks for the maximum of the averages.
  choose-scan :
      (state : State) (me : Player) (sims i : ℕ) (l : List Action) (bi : ℕ) (bs : ℤ) (nonce : ℕ)
      → choose game config state me sims i l bi bs nonce
        ≡ (averages state me sims i l nonce >>= λ r. some (scan i r.0 bi bs, r.1))
  unfolding averages choose
  choose-scan state me sims i [] bi bs nonce = refl
  choose-scan state me sims i (a ∷ later) bi bs nonce =
      elim (Option-cases (simulate game config state a me i sims 0 (pos 0) nonce)) [
        | inl panics ↦ rw panics refl
        | inr (q, played) ↦ rw played (elim (Bool-cases (ltℤ bs (div_ℤ q.0 sims))) [
          | inl above ↦
              rw (above, choose-scan state me sims (i + 1) later i (div_ℤ q.0 sims) q.1)
                (elim (Option-cases (averages state me sims (i + 1) later q.1)) [
                  | inl panics ↦ rw panics refl
                  | inr (rest, told) ↦ rw (told, above) refl
                ])
          | inr not_above ↦
              rw (not_above, choose-scan state me sims (i + 1) later bi bs q.1)
                (elim (Option-cases (averages state me sims (i + 1) later q.1)) [
                  | inl panics ↦ rw panics refl
                  | inr (rest, told) ↦ rw (told, not_above) refl
                ])
        ])
      ]

-- In bounds, and one for each of `n` actions.
abbrev Computed : ℕ → List ℤ × ℕ → Type 0
Computed n r = (length r.0 ≡ n) × All (Within 2147483647) r.0

get_elem?-same_length :
    {A B : Type 0} (xs : List A) (ys : List B) (k : ℕ) (x : A)
    → length xs ≡ length ys
    → get_elem? xs k ≡ some x
    → (y : B) × (get_elem? ys k ≡ some y)
get_elem?-same_length [] ys k x n e = absurd (none-ne-some x e)
get_elem?-same_length (z ∷ xs) [] k x n e = absurd (omega (arith, n))
get_elem?-same_length (z ∷ xs) (y ∷ ys) zero x n e = (y, refl)
get_elem?-same_length (z ∷ xs) (y ∷ ys) (suc k) x n e =
    get_elem?-same_length xs ys k x (omega (arith, n)) e

-- Any score is above `i64::MIN`.
above_min : (x : ℤ) → Within 2147483647 x → ltℤ i64_min x ≡ true
above_min (pos n) h = refl
above_min (negsuc n) h = ground arith

-- So the scan of a list that is not empty ends at a maximum.
scan-FirstMax :
    (xs : List ℤ) → length xs ≢ 0 → All (Within 2147483647) xs → FirstMax xs (scan 0 xs 0 i64_min)
scan-FirstMax [] ne v = absurd (ne refl)
scan-FirstMax (x ∷ xs) ne v = elim (scan-Scanned (x ∷ xs) 0 0 i64_min) [
  | inl (e, none_above) ↦ absurd (differ (sym (above_min x v.0) ∙ none_above.0))
  | inr (k, e, f, beats) ↦ subst (FirstMax (x ∷ xs)) (sym (e ∙ omega arith)) f
]
  where
    differ : true ≢ false
    differ q = cc

module _ {State Action Player : Type 0} (game : GameAdapter State Action Player) (config : Config)
    {Valid : State → Type 0} {Legal : State → Action → Type 0}
    (laws : Lawful game Valid Legal) where
  averages-Computed :
      (s : State) (me : Player) (sims i : ℕ) (l : List Action) (nonce : ℕ)
      → Valid s
      → All (Legal s) l
      → Returns (Computed (length l)) (averages game config s me sims i l nonce)
  unfolding averages
  averages-Computed s me sims i [] nonce v legal = (refl, tt)
  averages-Computed s me sims i (a ∷ later) nonce v (ok, legal) =
      Returns-bind (λ r. Within (0 + sims * 2147483647) r.0) (Computed (length (a ∷ later)))
        (simulate game config s a me i sims 0 (pos 0) nonce) _
        (simulate-Within game config laws s a me i sims 0 0 (pos 0) nonce v ok (omega arith))
        (λ r fits.
          Returns-bind (Computed (length later)) (Computed (length (a ∷ later)))
            (averages game config s me sims (i + 1) later r.1) _
            (averages-Computed s me sims (i + 1) later r.1 v legal)
            (λ rest c. (
              ap suc c.0,
              (
                div_ℤ-Within sims 2147483647 r.0 (subst (λ n. Within n r.0) (omega arith) fits),
                c.1,
              ),
            )))

  -- The suggestion at a position where there are actions: the first one of those with the largest
  -- average.
  pub record Best (s : State) (difficulty nonce : ℕ) (r : Option Action × ℕ) : Type 0 where
    pub actions : List Action
    pub listed : game.list_actions 128 s ≡ some actions
    pub scores : List ℤ
    pub computed :
        averages game config s
          (game.current_player s)
          (sims_per_action config difficulty (length actions))
          0
          actions
          nonce
        ≡ some (scores, r.1)
    pub index : ℕ
    pub maximum : FirstMax scores index
    pub action : Action
    pub chosen : get_elem? actions index ≡ some action
    pub result : r.0 ≡ some action
    pub legal : Legal s action

  abbrev pub Suggests : State → ℕ → ℕ → Option Action × ℕ → Type 0
  Suggests s difficulty nonce r =
      ((game.is_terminal s ≡ true) × (r ≡ (none, nonce)))
      ⊎ ((game.list_actions 128 s ≡ some []) × (r ≡ (none, nonce)))
      ⊎ Best s difficulty nonce r

  weighs :
      (s : State) (difficulty nonce : ℕ)
      → Valid s
      → (l : List Action) → game.list_actions 128 s ≡ some l
      → All (Legal s) l
      → Returns (Suggests s difficulty nonce) (
          if length l == 0
          then some (none, nonce)
          else choose game config s
              (game.current_player s)
              (sims_per_action config difficulty (length l))
              0
              l
              0
              i64_min
              nonce
            >>= λ best. some (get_elem? l best.0, best.1))
  weighs s difficulty nonce v [] listed legal = inr (inl (listed, refl))
  weighs s difficulty nonce v (a ∷ l) listed legal =
      let me = game.current_player s in
      let sims = sims_per_action config difficulty (length (a ∷ l)) in
      let (r, told, (n, fit)) =
        Returns-eq (Computed (length (a ∷ l))) (averages game config s me sims 0 (a ∷ l) nonce)
          (averages-Computed s me sims 0 (a ∷ l) nonce v legal) in
      let f = scan-FirstMax r.0 (λ z. absurd (omega (arith, n, z))) fit in
      let (action, chosen) =
        get_elem?-same_length r.0 (a ∷ l) (scan 0 r.0 0 i64_min) f.value n f.stands in
      let some_left : (length (a ∷ l) == 0) ≡ false = ground arith in
      rw (some_left, choose-scan game config s me sims 0 (a ∷ l) 0 i64_min nonce, told)
        (inr (
          inr (record {
            actions = a ∷ l;
            listed = listed;
            scores = r.0;
            computed = told;
            index = scan 0 r.0 0 i64_min;
            maximum = f;
            action = action;
            chosen = chosen;
            result = chosen;
            legal = All-get_elem? (Legal s) (a ∷ l) (scan 0 r.0 0 i64_min) action legal chosen;
          })))

  -- Over an adapter that is lawful, at a valid state, `suggest` does not panic. At a terminal state,
  -- and where no action is listed, it suggests nothing and draws no number; otherwise it suggests a
  -- listed action, which is legal, namely the first one whose average over its playouts is not
  -- below that of any other.
  pub suggest-Suggests :
      (s : State) (difficulty nonce : ℕ)
      → Valid s
      → Returns (Suggests s difficulty nonce) (suggest game config s difficulty nonce)
  unfolding suggest
  suggest-Suggests s difficulty nonce v = elim (Bool-cases (game.is_terminal s)) [
    | inl over ↦ rw over (inl (over, refl))
    | inr going ↦
        let (l, listed, legal) =
          Returns-eq (All (Legal s)) (game.list_actions 128 s) (laws.lists s 128 v going) in
        rw (going, listed) (weighs s difficulty nonce v l listed legal)
  ]
