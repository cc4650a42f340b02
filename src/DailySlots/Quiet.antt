-- ===== src/DailySlots/Quiet.antt =====
-- The calls of pallets/eterra-daily-slots/src/lib.rs that do not roll: they leave the count of the
-- rolls and the stored results alone.
use eterra_polkadot_sdk_solo.Prelude.{
  ℕ, ◌≡◌, refl, sym, ap, subst, ◌∙◌, ◌-◌, ◌==◌, ltb, leb, if◌then◌else◌, true, false, ◌&&◌, not,
  is_some, ◌⊎◌, inl, inr, Bool-cases, if-eq, update, some, List, [], ◌∷◌, length,
}
use mathlib.Core.Option.{some-injective, none-ne-some}
use eterra_polkadot_sdk_solo.Prelude.Panics.{>>=-eq-some}
use eterra_polkadot_sdk_solo.Prelude.Results.{ok, Origin, ensure, ensure_root, ◌>>◌}
use eterra_polkadot_sdk_solo.Prelude.Ensures.{ensure-eq-ok, >>=-eq-ok, ok_injective}
use eterra_polkadot_sdk_solo.DailySlots.Types.{invalid_configuration, Entry, Store, Env}
use eterra_polkadot_sdk_solo.DailySlots.Reels.{
  update_reel_weights, set_reel_weights, update_all, set_all_reel_weights,
}
use eterra_polkadot_sdk_solo.DailySlots.Drawing.{
  perform_weekly_drawing, put_defaults, is_drawing_time, on_initialize, default_weights,
}

pub record Quiet {B : Type 0} (s t : Store B) : Type 0 where
  pub windows : t.rolls_this_window ≡ s.rolls_this_window
  pub history : t.roll_history ≡ s.roll_history
  pub tickets :
      ((t.tickets_per_user ≡ s.tickets_per_user) × (t.total_tickets ≡ s.total_tickets))
      ⊎ ((t.tickets_per_user ≡ []) × (t.total_tickets ≡ 0))

module _ {B : Type 0} where
  pub Quiet-refl : (s : Store B) → Quiet s s
  Quiet-refl s = record { windows = refl; history = refl; tickets = inl (refl, refl) }

  Quiet-trans : {s t u : Store B} → Quiet s t → Quiet t u → Quiet s u
  Quiet-trans p q = record {
    windows = q.windows ∙ p.windows;
    history = q.history ∙ p.history;
    tickets = elim q.tickets [
      | inl (kept, same) ↦ elim p.tickets [
        | inl (k, l) ↦ inl (kept ∙ k, same ∙ l)
        | inr (k, l) ↦ inr (kept ∙ k, same ∙ l)
      ]
      | inr cleared ↦ inr cleared
    ];
  }

  update_reel_weights-Quiet :
      (env : Env B) (reel : ℕ) (weights : List Entry) (s t : Store B)
      → update_reel_weights env reel weights s ≡ ok t
      → Quiet s t
  unfolding update_reel_weights
  update_reel_weights-Quiet env reel weights s t e =
      let stored = record s { reel_weights = update s.reel_weights reel (some weights) } in
      let (some_weights, e1) =
        ensure-eq-ok (not (length weights == 0)) invalid_configuration
          (ensure (leb (length weights) env.max_weight_entries) invalid_configuration >> ok stored)
          e in
      let (few, e2) =
        ensure-eq-ok (leb (length weights) env.max_weight_entries) invalid_configuration (ok stored)
          e1 in
      let q : t ≡ stored = sym (ok_injective e2) in
      record {
        windows = ap (λ z. z.rolls_this_window) q;
        history = ap (λ z. z.roll_history) q;
        tickets = inl (ap (λ z. z.tickets_per_user) q, ap (λ z. z.total_tickets) q);
      }

  pub set_reel_weights-Quiet :
      (env : Env B) (origin : Origin) (reel : ℕ) (weights : List Entry) (s t : Store B)
      → set_reel_weights env origin reel weights s ≡ ok t
      → Quiet s t
  unfolding set_reel_weights
  set_reel_weights-Quiet env origin reel weights s t e =
      let (x, is, e1) =
        >>=-eq-ok (ensure_root origin) (λ _. update_reel_weights env reel weights s) e in
      update_reel_weights-Quiet env reel weights s t e1

  update_all-Quiet :
      (env : Env B) (rs : List (ℕ × List Entry)) (s t : Store B)
      → update_all env rs s ≡ ok t
      → Quiet s t
  unfolding update_all
  update_all-Quiet env [] s t e = subst (Quiet s) (ok_injective e) (Quiet-refl s)
  update_all-Quiet env (r ∷ rs) s t e =
      let (u, first, later) = >>=-eq-ok (update_reel_weights env r.0 r.1 s) (update_all env rs) e in
      Quiet-trans (update_reel_weights-Quiet env r.0 r.1 s u first)
        (update_all-Quiet env rs u t later)

  pub set_all_reel_weights-Quiet :
      (env : Env B) (origin : Origin) (rs : List (ℕ × List Entry)) (s t : Store B)
      → set_all_reel_weights env origin rs s ≡ ok t
      → Quiet s t
  unfolding set_all_reel_weights
  set_all_reel_weights-Quiet env origin rs s t e =
      let (x, is, e1) = >>=-eq-ok (ensure_root origin) (λ _. update_all env rs s) e in
      update_all-Quiet env rs s t e1

  put_defaults-Quiet :
      (env : Env B) (rs : List (ℕ × List Entry)) (s t : Store B)
      → put_defaults env rs s ≡ some t
      → Quiet s t
  unfolding put_defaults
  put_defaults-Quiet env [] s t e = subst (Quiet s) (some-injective s t e) (Quiet-refl s)
  put_defaults-Quiet env (r ∷ rs) s t e = elim (if-eq (is_some (s.reel_weights r.0)) _ _ e) [
    | inl (set_, rest) ↦ put_defaults-Quiet env rs s t rest
    | inr (unset, rest) ↦ elim (if-eq (leb (length r.1) env.max_weight_entries) _ _ rest) [
      | inl (fits, later) ↦
          Quiet-trans (record { windows = refl; history = refl; tickets = inl (refl, refl) })
            (put_defaults-Quiet env rs
              (record s { reel_weights = update s.reel_weights r.0 (some r.1) }) t later)
      | inr (long, panics) ↦ absurd (none-ne-some t panics)
    ]
  ]

  perform_weekly_drawing-Quiet :
      (env : Env B) (s : Store B) → Quiet s (perform_weekly_drawing env s)
  unfolding perform_weekly_drawing
  perform_weekly_drawing-Quiet env s = elim (Bool-cases (s.total_tickets == 0)) [
    | inl nothing ↦ rw nothing (Quiet-refl s)
    | inr some_tickets ↦
        rw some_tickets (record { windows = refl; history = refl; tickets = inr (refl, refl) })
  ]

  pub on_initialize-Quiet : (env : Env B) (s t : Store B) → on_initialize env s ≡ some t → Quiet s t
  unfolding on_initialize
  on_initialize-Quiet env s t e =
      let (u, first, later) =
        >>=-eq-some (if env.block_number == 1 then put_defaults env default_weights s else some s) _
          e in
      Quiet-trans (weights u (if-eq (env.block_number == 1) _ _ first))
        (subst (Quiet u) (some-injective _ t later) (drawn u))
    where
      weights :
          (u : Store B)
          → ((env.block_number == 1) ≡ true) × (put_defaults env default_weights s ≡ some u)
            ⊎ ((env.block_number == 1) ≡ false) × (some s ≡ some u)
          → Quiet s u
      weights u (inl (one, puts)) = put_defaults-Quiet env default_weights s u puts
      weights u (inr (other, same)) = subst (Quiet s) (some-injective s u same) (Quiet-refl s)

      drawn :
          (u : Store B)
          → Quiet u (
              if is_drawing_time env.now_secs
                && not (ltb (env.now_secs - u.last_drawing_time) 86400)
              then perform_weekly_drawing env u
              else u)
      drawn u =
          elim (Bool-cases (
            is_drawing_time env.now_secs && not (ltb (env.now_secs - u.last_drawing_time) 86400))) [
              | inl time ↦ rw time (perform_weekly_drawing-Quiet env u)
              | inr no_time ↦ rw no_time (Quiet-refl u)
            ]
