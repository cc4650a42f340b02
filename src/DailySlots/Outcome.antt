-- ===== src/DailySlots/Outcome.antt =====
-- How a call of `roll` of pallets/eterra-daily-slots/src/lib.rs ends.
use eterra_polkadot_sdk_solo.Prelude.{
  ℕ, suc, ap, ◌++◌, if◌then◌else◌, [], ◌∷◌, ◌+◌, ◌/◌, ◌≤◌, ◌<◌, ◌≡◌, refl, sym, subst, ◌∙◌, ltb,
  leb, ◌==◌, true, false, ◌&&◌, ◌⊎◌, inl, inr, Bool-cases, List, length, update, arith,
}
use eterra_polkadot_sdk_solo.Prelude.Results.{ok, err, signed}
use eterra_polkadot_sdk_solo.Prelude.Ensures.{ok_injective}
use eterra_polkadot_sdk_solo.DailySlots.Rolled.{Rolled, roll-Rolled}
use eterra_polkadot_sdk_solo.DailySlots.Types.{RollResult, exceed_rolls_per_round, Store, Env}
use eterra_polkadot_sdk_solo.DailySlots.Reels.{spin}
use eterra_polkadot_sdk_solo.DailySlots.Roll.{
  drop_first, roll, pushed, used_rolls, push_history, settle,
}
use eterra_polkadot_sdk_solo.DailySlots.Selection.{HasWeights, Symbols, spin-some}

-- The constants are positive, and every reel is set to weights with a sum that is positive and fits
-- a `u32`.
pub record IsReady {B : Type 0} (env : Env B) (s : Store B) : Type 0 where
  pub reels : 0 < env.slot_length
  pub options : 0 < env.options_per_slot
  pub rolls : 0 < env.max_rolls
  pub history : 0 < env.max_history
  pub are_set : (k : ℕ) → k < env.slot_length → HasWeights s k

push_history-eq :
    {B : Type 0} (env : Env B) (who : ℕ) (entry : RollResult) (s : Store B)
    → 0 < env.max_history
    → (t : Store B) × (push_history env who entry s ≡ ok t)
unfolding push_history
push_history-eq env who entry s positive =
    let room : (leb env.max_history (length (s.roll_history who))
          && (length (s.roll_history who) == 0))
        ≡ false =
      ground (arith, positive) in
    (
      record s {
        roll_history =
            update s.roll_history who (pushed env.max_history (s.roll_history who) entry);
      },
      rw room refl,
    )

-- The history of an account without its oldest entry, if it is full.
abbrev pub with_room : ℕ → List RollResult → List RollResult
with_room bound l = if ltb (length l) bound then l else drop_first l

-- What a roll that succeeds stores: the symbols, as the last entry of the account's history, and its
-- count.
abbrev pub Stores : {B : Type 0} → Env B → ℕ → Store B → List ℕ → Store B → Type 0
Stores env who s result t =
    (t.roll_history
      ≡ update s.roll_history who (
          with_room env.max_history (s.roll_history who)
          ++ record { timestamp = env.now_secs; result = result } ∷ []))
    × (t.rolls_this_window
        ≡ update s.rolls_this_window who (env.block_number / 3600, used_rolls env who s + 1))

pushed-last :
    (bound : ℕ) (l : List RollResult) (entry : RollResult)
    → 0 < bound
    → length l ≤ bound
    → pushed bound l entry ≡ with_room bound l ++ entry ∷ []
unfolding pushed
pushed-last bound [] entry positive short =
    let room : leb bound 0 ≡ false = ground (arith, positive) in
    let below : ltb 0 bound ≡ true = ground (arith, positive) in rw (room, below) refl
pushed-last bound (x ∷ l) entry positive short = elim (Bool-cases (leb bound (suc (length l)))) [
  | inl full ↦
      let kept : ltb (length l) bound ≡ true = ground (arith, short) in
      let over : ltb (suc (length l)) bound ≡ false = ground (arith, full) in
      rw (full, kept, over) refl
  | inr left ↦
      let below : ltb (suc (length l)) bound ≡ true = ground (arith, left) in rw (left, below) refl
]

roll-Stores :
    {B : Type 0} (env : Env B) (who : ℕ) (s t : Store B) (result : List ℕ)
    → 0 < env.max_history
    → length (s.roll_history who) ≤ env.max_history
    → spin env who env.slot_length 0 s ≡ ok result
    → roll env (signed who) s ≡ ok t
    → Stores env who s result t
roll-Stores env who s t result positive short spun e =
    let (w, is, v) = roll-Rolled env (signed who) s t e in
    let r : Rolled env who s t = subst (λ x. Rolled env x s t) (sym (same who w is)) v in
    let shown : r.result ≡ result = ok_injective (sym r.spun ∙ spun) in
    subst (λ l. Stores env who s l t) shown
      (
        r.history
            ∙ ap (update s.roll_history who)
                (pushed-last env.max_history (s.roll_history who) _ positive short),
        r.windows,
      )
  where
    same : (x y : ℕ) → signed x ≡ signed y → x ≡ y
    same x y q = cc

-- Where the constants (the reels, the options, the bounds on rolls and on stored results) are
-- positive, every reel is set to weights with a sum that is positive and fits a `u32`, and the
-- account's history is within its bound: the account's roll fails if and only if it has used up
-- its rolls of the window, then with `ExceedRollsPerRound`; otherwise it succeeds with the
-- symbols of the spin, one of positive weight for each of the reels, which with the time become
-- the last entry of the account's history, where the oldest entry makes room if it was full, and
-- the roll is counted.
pub roll-outcome :
    {B : Type 0} (env : Env B) (who : ℕ) (s : Store B)
    → IsReady env s
    → length (s.roll_history who) ≤ env.max_history
    → ((env.max_rolls ≤ used_rolls env who s)
        × (roll env (signed who) s ≡ err exceed_rolls_per_round))
      ⊎ ((used_rolls env who s < env.max_rolls)
          × (result : List ℕ) × (spin env who env.slot_length 0 s ≡ ok result)
          × (length result ≡ env.slot_length)
          × Symbols env who s 0 result
          × (t : Store B) × (roll env (signed who) s ≡ ok t)
          × Stores env who s result t)
unfolding roll
roll-outcome env who s r short =
    let c0 : ltb 0 env.slot_length ≡ true = ground (arith, r.reels) in
    let c1 : ltb 0 env.options_per_slot ≡ true = ground (arith, r.options) in
    let c2 : ltb 0 env.max_rolls ≡ true = ground (arith, r.rolls) in
    elim (Bool-cases (ltb (used_rolls env who s) env.max_rolls)) [
      | inl below ↦
          let (result, spun, n, symbols) =
            spin-some env who s env.slot_length 0 (λ k lt. r.are_set k (omega (arith, lt))) in
          let fits : leb (length result) env.slot_length ≡ true = ground (arith, n) in
          let (t, stored) =
            push_history-eq env who (record { timestamp = env.now_secs; result = result })
              (settle env who (used_rolls env who s) result s) r.history in
          let e : roll env (signed who) s ≡ ok t =
            rw (c0, c1, c2, below, spun, fits, stored) refl in
          inr (
            ground arith,
            result,
            spun,
            n,
            symbols,
            t,
            e,
            roll-Stores env who s t result r.history short spun e,
          )
      | inr used ↦ inl (ground arith, rw (c0, c1, c2, used) refl)
    ]
