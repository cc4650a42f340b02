-- ===== src/DailySlots/Winner.antt =====
-- Who wins the weekly drawing of pallets/eterra-daily-slots/src/lib.rs.
use eterra_polkadot_sdk_solo.Prelude.{
  ℕ, ◌+◌, ◌%◌, ◌≤◌, ◌<◌, ◌≡◌, refl, sym, ap, ◌∙◌, subst, ltb, ◌==◌, false, inl, inr, Bool-cases,
  some, List, [], ◌∷◌, ◌++◌, arith, u32_max, u32_mod,
}
use native.Mathlib.Nat.{mod-le}
use eterra_polkadot_sdk_solo.Prelude.Each.{Has}
use eterra_polkadot_sdk_solo.DailySlots.Types.{weekly_winner, Entry, Store, Env}
use eterra_polkadot_sdk_solo.DailySlots.Reels.{select}
use eterra_polkadot_sdk_solo.DailySlots.Drawing.{find_winner, perform_weekly_drawing}
use eterra_polkadot_sdk_solo.DailySlots.Selection.{
  weight_sum, select-hit, select-miss, select-share, weight_sum-append,
}
use eterra_polkadot_sdk_solo.DailySlots.History.{History, History-Inv}

-- The drawing looks for its winner as a reel for its symbol.
find_winner-select :
    (pick : ℕ) (l : List (ℕ × ℕ)) (cum : ℕ) → find_winner pick l cum ≡ select pick l cum
unfolding find_winner select
find_winner-select pick [] cum = refl
find_winner-select pick (e ∷ es) cum = rw (find_winner-select pick es ((cum + e.1) % u32_mod)) refl

-- In the first part of a list, a selection below its sum stays.
select-before :
    (before after : List Entry) (t acc : ℕ)
    → acc + weight_sum (before ++ after) < u32_mod
    → acc ≤ t
    → t < acc + weight_sum before
    → (e : Entry) × (select t (before ++ after) acc ≡ some e.0) × Has e before × (0 < e.1)
unfolding weight_sum
select-before [] after t acc small low high = absurd (omega (arith, low, high))
select-before (d ∷ before) after t acc small low high = elim (Bool-cases (ltb t (acc + d.1))) [
  | inl hit ↦ (
    d,
    select-hit d (before ++ after) t acc (omega (arith, small)) (ground arith),
    inl refl,
    ground arith,
  )
  | inr miss ↦
      let (e, found, has, positive) =
        select-before before after t (acc + d.1) (omega (arith, small)) (ground arith)
          (omega (arith, high)) in
      (
        e,
        select-miss d (before ++ after) t acc (omega (arith, small)) (ground arith) ∙ found,
        inr has,
        positive,
      )
]

-- What a drawing with this winner does.
abbrev pub drawn : {B : Type 0} → Env B → ℕ → Store B → Store B
drawn env winner s = record s {
  events = weekly_winner winner ∷ s.events;
  tickets_per_user = [];
  total_tickets = 0;
  last_drawing_time = env.now_secs;
}

abbrev pub pick : {B : Type 0} → Env B → Store B → ℕ
pick env s = env.drawing_byte env.now_secs env.block_number % s.total_tickets

find_winner-drawn :
    {B : Type 0} (env : Env B) (s : Store B) (winner : ℕ)
    → 0 < s.total_tickets
    → select (pick env s) s.tickets_per_user 0 ≡ some winner
    → perform_weekly_drawing env s ≡ drawn env winner s
unfolding perform_weekly_drawing
find_winner-drawn env s winner some_tickets found =
    let left : (s.total_tickets == 0) ≡ false = ground (arith, some_tickets) in
    rw (left, find_winner-select (pick env s) s.tickets_per_user 0, found) refl

tickets-sum :
    {B : Type 0} {m h a b n : ℕ} {s : Store B}
    → History m h a b n s
    → s.total_tickets < u32_max
    → weight_sum s.tickets_per_user ≡ s.total_tickets
tickets-sum past small = elim (History-Inv past).accounted [
  | inl saturated ↦ absurd (omega (arith, saturated, small))
  | inr sum ↦ sum
]

-- After any history in which the block number does not decrease and the configured bounds on rolls and
-- stored results do not change, where there are tickets and their total has not reached the largest `u32`, the
-- weekly drawing names the account in whose share of the tickets the number falls that the first byte
-- of the hash gives, modulo the total; the shares follow one another in the order of the ticket map.
-- It clears the tickets and their total and notes the time.
pub perform_weekly_drawing-share :
    {B : Type 0} {m h a b n : ℕ} {s : Store B} (env : Env B)
    → History m h a b n s
    → 0 < s.total_tickets
    → s.total_tickets < u32_max
    → (before : List (ℕ × ℕ)) (e : ℕ × ℕ) (after : List (ℕ × ℕ))
    → s.tickets_per_user ≡ before ++ e ∷ after
    → weight_sum before ≤ pick env s
    → pick env s < weight_sum before + e.1
    → perform_weekly_drawing env s ≡ drawn env e.0 s
perform_weekly_drawing-share {s = s} env past some_tickets small before e after split low high =
    let sum = tickets-sum past small in
    find_winner-drawn env s e.0 some_tickets (
      subst (λ l. select (pick env s) l 0 ≡ some e.0) (sym split)
        (select-share before e after (pick env s) 0 (omega (arith, ap weight_sum split, sum, small))
          (omega (arith, low)) (omega (arith, high))))

-- After any history in which the block number does not decrease and the configured bounds on rolls and
-- stored results do not change, and in which the total of the tickets has not reached the largest
-- `u32`: where the
-- accounts that the ticket map lists first hold more tickets between them than the first byte of
-- the hash says, the weekly drawing names one of them. (A byte is below 256, so no account wins
-- before which 256 tickets are listed.)
pub perform_weekly_drawing-first :
    {B : Type 0} {m h a b n : ℕ} {s : Store B} (env : Env B)
    → History m h a b n s
    → s.total_tickets < u32_max
    → (before after : List (ℕ × ℕ)) → s.tickets_per_user ≡ before ++ after
    → env.drawing_byte env.now_secs env.block_number < weight_sum before
    → (e : ℕ × ℕ) × Has e before × (0 < e.1) × (perform_weekly_drawing env s ≡ drawn env e.0 s)
perform_weekly_drawing-first {s = s} env past small before after split byte =
    let sum = tickets-sum past small in
    let le = mod-le (env.drawing_byte env.now_secs env.block_number) s.total_tickets in
    let both = weight_sum-append before after in
    let (e, found, has, positive) =
      select-before before after (pick env s) 0 (omega (arith, ap weight_sum split, sum, small))
        (omega arith) (omega (arith, le, byte)) in
    (
      e,
      has,
      positive,
      find_winner-drawn env s e.0 (omega (arith, ap weight_sum split, sum, both, byte))
          (subst (λ l. select (pick env s) l 0 ≡ some e.0) (sym split) found),
    )
