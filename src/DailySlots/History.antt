-- ===== src/DailySlots/History.antt =====
-- Histories of pallets/eterra-daily-slots/src/lib.rs: the bounds on rolls and on the stored results,
-- and the account of the tickets.
use eterra_polkadot_sdk_solo.Prelude.{
  ℕ, suc, ◌+◌, ◌/◌, ◌≤◌, ◌<◌, ◌≡◌, ◌≢◌, refl, sym, subst, ltb, leb, ◌==◌, ==_ne, ==_refl,
  if◌then◌else◌, ◌⊎◌, inl, inr, Bool-cases, some, none, List, [], ◌∷◌, length, length-append, arith,
}
use eterra_polkadot_sdk_solo.Prelude.Maps.{update-cases}
use eterra_polkadot_sdk_solo.Prelude.Results.{ok, Origin, signed}
use eterra_polkadot_sdk_solo.DailySlots.Types.{Entry, RollResult, Store, Env}
use eterra_polkadot_sdk_solo.DailySlots.Reels.{set_reel_weights, set_all_reel_weights}
use eterra_polkadot_sdk_solo.DailySlots.Roll.{pushed, used_rolls, roll}
use eterra_polkadot_sdk_solo.DailySlots.Drawing.{on_initialize}
use eterra_polkadot_sdk_solo.DailySlots.Selection.{weight_sum}
use eterra_polkadot_sdk_solo.DailySlots.Tickets.{Accounted, award_tickets-Accounted}
use eterra_polkadot_sdk_solo.DailySlots.Rolled.{Rolled, roll-Rolled}
use eterra_polkadot_sdk_solo.DailySlots.Quiet.{
  Quiet, set_reel_weights-Quiet, set_all_reel_weights-Quiet, on_initialize-Quiet,
}

abbrev pub genesis : {B : Type 0} → B → Store B
genesis balances = record {
  rolls_this_window = λ _. (0, 0);
  last_roll_time = λ _. 0;
  tickets_per_user = [];
  total_tickets = 0;
  last_drawing_time = 0;
  roll_history = λ _. [];
  reel_weights = λ _. none;
  events = [];
  balances = balances;
}

-- A call that succeeds, or the hook of a block, and how many rolls of account `a` it is.
pub data Step {B : Type 0} (env : Env B) (a : ℕ) : ℕ → Store B → Store B → Type 0 where
  own_roll : {s t : Store B} → roll env (signed a) s ≡ ok t → Step env a 1 s t
  other_roll :
      {s t : Store B} → (who : ℕ) → a ≢ who → roll env (signed who) s ≡ ok t → Step env a 0 s t
  sets :
      {s t : Store B}
      → (origin : Origin) (reel : ℕ) (weights : List Entry)
      → set_reel_weights env origin reel weights s ≡ ok t
      → Step env a 0 s t
  sets_all :
      {s t : Store B}
      → (origin : Origin) (all_weights : List (ℕ × List Entry))
      → set_all_reel_weights env origin all_weights s ≡ ok t
      → Step env a 0 s t
  begins : {s t : Store B} → on_initialize env s ≡ some t → Step env a 0 s t

-- The rolls counted so far, at a later block.
abbrev pub carried : ℕ → ℕ → ℕ → ℕ
carried b c n = if b / 3600 == c / 3600 then n else 0

-- The storages that histories lead to, in which block numbers do not decrease, with the bounds `m` on
-- rolls and `h` on the results, the block number, and the number of rolls of `a` in its window.
pub data History {B : Type 0} (m h a : ℕ) : ℕ → ℕ → Store B → Type 0 where
  start : (block : ℕ) (balances : B) → History m h a block 0 (genesis balances)
  step :
      {b n k : ℕ} {s t : Store B}
      → History m h a b n s
      → (env : Env B) → env.max_rolls ≡ m
      → env.max_history ≡ h
      → b ≤ env.block_number
      → Step env a k s t
      → History m h a env.block_number (carried b env.block_number n + k) t

-- The stored pair of an account says how often it has rolled in the window of the block.
abbrev Counted : ℕ → ℕ → ℕ × ℕ → Type 0
Counted b n w = ((w.0 ≡ b / 3600) × (w.1 ≡ n)) ⊎ ((w.0 < b / 3600) × (n ≡ 0))

pub record Inv {B : Type 0} (m h a b n : ℕ) (s : Store B) : Type 0 where
  pub counted : Counted b n (s.rolls_this_window a)
  pub bounded : (who : ℕ) → (s.rolls_this_window who).1 ≤ m
  pub short : (who : ℕ) → length (s.roll_history who) ≤ h
  pub accounted : Accounted s.total_tickets s.tickets_per_user

length-pushed :
    (h : ℕ) (l : List RollResult) (e : RollResult) → length l ≤ h → length (pushed h l e) ≤ h
unfolding pushed
length-pushed h [] e v = elim (Bool-cases (leb h 0)) [
  | inl full ↦
      rw full
        (elim (Bool-cases (ltb 0 h)) [ inl room ↦ rw room (ground arith) | inr none_ ↦ rw none_ v ])
  | inr left ↦
      rw left
        (elim (Bool-cases (ltb 0 h)) [ inl room ↦ rw room (ground arith) | inr none_ ↦ rw none_ v ])
]
length-pushed h (x ∷ l) e v = elim (Bool-cases (leb h (suc (length l)))) [
  | inl full ↦ rw full (elim (Bool-cases (ltb (length l) h)) [
    | inl room ↦ rw room (ground (arith, length-append l (e ∷ [])))
    | inr none_ ↦ rw none_ (omega (arith, v))
  ])
  | inr left ↦ rw left (elim (Bool-cases (ltb (suc (length l)) h)) [
    | inl room ↦ rw room (ground (arith, length-append l (e ∷ [])))
    | inr none_ ↦ rw none_ v
  ])
]

Counted-carried : (b c n : ℕ) (w : ℕ × ℕ) → b ≤ c → Counted b n w → Counted c (carried b c n + 0) w
Counted-carried b c n w le v = ground (arith, le, v)

Counted-rolled :
    (b c n : ℕ) (w : ℕ × ℕ)
    → b ≤ c
    → Counted b n w
    → Counted c (carried b c n + 1) (c / 3600, (if w.0 == c / 3600 then w.1 else 0) + 1)
Counted-rolled b c n w le v = ground (arith, le, v)

module _ {B : Type 0} {m h a b n : ℕ} {s t : Store B} (env : Env B) (rolls : env.max_rolls ≡ m)
    (bound : env.max_history ≡ h) (later : b ≤ env.block_number) (v : Inv m h a b n s) where
  Rolled-bounded : (who : ℕ) → Rolled env who s t → (x : ℕ) → (t.rolls_this_window x).1 ≤ m
  Rolled-bounded who r x = rw r.windows (
      update-cases (λ p. p.1 ≤ m) s.rolls_this_window who
        (env.block_number / 3600, used_rolls env who s + 1) x
        (λ same. omega (arith, r.below, rolls)) (λ other. v.bounded x))

  Rolled-short : (who : ℕ) → Rolled env who s t → (x : ℕ) → length (t.roll_history x) ≤ h
  Rolled-short who r x = rw r.history (
      update-cases (λ l. length l ≤ h) s.roll_history who
        (pushed env.max_history (s.roll_history who)
          (record { timestamp = env.now_secs; result = r.result }))
        x
        (λ same.
          subst
            (λ k.
              length (
                pushed k (s.roll_history who)
                  (record { timestamp = env.now_secs; result = r.result }))
              ≤ h)
            (sym bound) (length-pushed h (s.roll_history who) _ (v.short who)))
        (λ other. v.short x))

  Rolled-Accounted : (who : ℕ) → Rolled env who s t → Accounted t.total_tickets t.tickets_per_user
  Rolled-Accounted who r =
      rw (r.total, r.tickets) (award_tickets-Accounted env who r.result s v.accounted)

  own-Inv : Rolled env a s t → Inv m h a env.block_number (carried b env.block_number n + 1) t
  unfolding used_rolls
  own-Inv r = record {
    counted =
        rw (r.windows, ==_refl a)
          (Counted-rolled b env.block_number n (s.rolls_this_window a) later v.counted);
    bounded = Rolled-bounded a r;
    short = Rolled-short a r;
    accounted = Rolled-Accounted a r;
  }

  other-Inv :
      (who : ℕ)
      → a ≢ who
      → Rolled env who s t
      → Inv m h a env.block_number (carried b env.block_number n + 0) t
  other-Inv who ne r = record {
    counted =
        rw (r.windows, ==_ne a who ne)
          (Counted-carried b env.block_number n (s.rolls_this_window a) later v.counted);
    bounded = Rolled-bounded who r;
    short = Rolled-short who r;
    accounted = Rolled-Accounted who r;
  }

  pub Quiet-Inv : Quiet s t → Inv m h a env.block_number (carried b env.block_number n + 0) t
  unfolding weight_sum
  Quiet-Inv q = record {
    counted =
        rw q.windows (Counted-carried b env.block_number n (s.rolls_this_window a) later v.counted);
    bounded = λ x. rw q.windows (v.bounded x);
    short = λ x. rw q.history (v.short x);
    accounted = elim q.tickets [
      | inl (tickets, total) ↦ rw (tickets, total) v.accounted
      | inr (tickets, total) ↦ rw (tickets, total) (inr refl)
    ];
  }

pub Step-Inv :
    {B : Type 0} {m h a b n k : ℕ} {s t : Store B} (env : Env B)
    → env.max_rolls ≡ m
    → env.max_history ≡ h
    → b ≤ env.block_number
    → Inv m h a b n s
    → Step env a k s t
    → Inv m h a env.block_number (carried b env.block_number n + k) t
Step-Inv {a = a} {s = s} {t = t} env rolls bound later v (own_roll e) =
    let (who, is, r) = roll-Rolled env (signed a) s t e in
    own-Inv env rolls bound later v (subst (λ w. Rolled env w s t) (same a who is) r)
  where
    same : (x y : ℕ) → signed x ≡ signed y → y ≡ x
    same x y e = cc
Step-Inv {s = s} {t = t} env rolls bound later v (other_roll who ne e) =
    let (w, is, r) = roll-Rolled env (signed who) s t e in
    other-Inv env rolls bound later v who ne (subst (λ w. Rolled env w s t) (same who w is) r)
  where
    same : (x y : ℕ) → signed x ≡ signed y → y ≡ x
    same x y e = cc
Step-Inv {s = s} {t = t} env rolls bound later v (sets origin reel weights e) =
    Quiet-Inv env rolls bound later v (set_reel_weights-Quiet env origin reel weights s t e)
Step-Inv {s = s} {t = t} env rolls bound later v (sets_all origin all_weights e) =
    Quiet-Inv env rolls bound later v (set_all_reel_weights-Quiet env origin all_weights s t e)
Step-Inv {s = s} {t = t} env rolls bound later v (begins e) =
    Quiet-Inv env rolls bound later v (on_initialize-Quiet env s t e)

pub History-Inv : {B : Type 0} {m h a b n : ℕ} {s : Store B} → History m h a b n s → Inv m h a b n s
unfolding weight_sum
History-Inv {m = m} {h = h} (start block balances) = record {
  counted = ground arith;
  bounded = λ who. omega arith;
  short = λ who. omega arith;
  accounted = inr refl;
}
History-Inv (step past env rolls bound later s) =
    Step-Inv env rolls bound later (History-Inv past) s

pub Inv-few : {B : Type 0} {m h a b n : ℕ} {s : Store B} → Inv m h a b n s → n ≤ m
Inv-few {m = m} {a = a} {b = b} {n = n} {s = s} v = few v.counted (v.bounded a)
  where
    few : Counted b n (s.rolls_this_window a) → (s.rolls_this_window a).1 ≤ m → n ≤ m
    few (inl (window, count)) le = omega (arith, count, le)
    few (inr (window, none_)) le = omega (arith, none_)

-- After any history in which the block number does not decrease, and the configured bounds on the
-- rolls and on the stored results do not change: an account has rolled at most as often in the
-- current window of 3600 blocks as the bound on rolls allows; no account has more stored results
-- than the other bound; and the total of the tickets is the sum of those of the accounts, unless it
-- has reached the largest `u32`.
pub History-bounds :
    {B : Type 0} {m h a b n : ℕ} {s : Store B}
    → History m h a b n s
    → (n ≤ m)
      × ((who : ℕ) → length (s.roll_history who) ≤ h)
      × Accounted s.total_tickets s.tickets_per_user
History-bounds past = let v = History-Inv past in (Inv-few v, v.short, v.accounted)
