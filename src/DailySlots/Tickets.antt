-- ===== src/DailySlots/Tickets.antt =====
-- The tickets of pallets/eterra-daily-slots/src/lib.rs: the total accounts for those of the players.
use eterra_polkadot_sdk_solo.Prelude.{
  ℕ, ◌+◌, ◌≤◌, ◌≡◌, refl, ◌∙◌, ltb, ◌⊎◌, inl, inr, Bool-cases, List, [], ◌∷◌, arith, u32_max,
}
use eterra_polkadot_sdk_solo.DailySlots.Types.{Store, Env}
use eterra_polkadot_sdk_solo.DailySlots.Selection.{weight_sum}
use eterra_polkadot_sdk_solo.DailySlots.Roll.{add_tickets, count_tickets, award_tickets}

-- The total is the number of all tickets, unless it has reached the largest `u32`.
abbrev pub Accounted : ℕ → List (ℕ × ℕ) → Type 0
Accounted total tickets = (total ≡ u32_max) ⊎ (weight_sum tickets ≡ total)

add_tickets-sum :
    (order : ℕ → ℕ) (who n : ℕ) (l : List (ℕ × ℕ))
    → weight_sum l + n ≤ u32_max
    → weight_sum (add_tickets order who n l) ≡ weight_sum l + n
unfolding add_tickets weight_sum
add_tickets-sum order who n [] small = ground (arith, small)
add_tickets-sum order who n (e ∷ es) small =
    let later = add_tickets-sum order who n es (omega (arith, small)) in
    ground (arith, small, later)

pub award_tickets-Accounted :
    {B : Type 0} (env : Env B) (who : ℕ) (result : List ℕ) (s : Store B)
    → Accounted s.total_tickets s.tickets_per_user
    → let t = award_tickets env who result s in Accounted t.total_tickets t.tickets_per_user
unfolding award_tickets
award_tickets-Accounted env who result s v = elim (Bool-cases (ltb 0 (count_tickets result))) [
  | inl some_tickets ↦ rw some_tickets (elim v [
    | inl saturated ↦ inl (ground (arith, saturated))
    | inr sum ↦ elim (Bool-cases (ltb u32_max (s.total_tickets + count_tickets result))) [
      | inl over ↦ rw over (inl refl)
      | inr fits ↦ rw fits (
          inr (
            add_tickets-sum env.key_order who (count_tickets result) s.tickets_per_user
              (ground (arith, fits, sum))
            ∙ omega (arith, sum)))
    ]
  ])
  | inr none_ ↦ rw none_ v
]
