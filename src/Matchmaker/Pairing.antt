-- ===== src/Matchmaker/Pairing.antt =====
-- A round of `do_process` (pallets/eterra-simple-matchmaker/src/lib.rs) on two waiting accounts.
use eterra_polkadot_sdk_solo.Prelude.{
  ℕ, suc, ◌+◌, ◌<◌, ◌≡◌, ◌≢◌, refl, sym, ap, ◌∙◌, ◌==◌, true, false, ◌||◌, some, arith, subst, ◌⊎◌,
  inl, inr, u32_mod, ltb,
}
use eterra_polkadot_sdk_solo.Matchmaker.{
  AccountId, Hooks, Store, pop_live, first_pop, second_pop, process_loop,
}
use eterra_polkadot_sdk_solo.Matchmaker.Pop.{Popped, Popped-head, pop_live-Pops}
use eterra_polkadot_sdk_solo.Matchmaker.Process.{TwoWait, Paired, second_pop-Paired}

module _ {G : Type 0} where
  from_first :
      (hooks : Hooks G) (capacity y : ℕ) (s s1 : Store G)
      → pop_live capacity s ≡ (some y, s1)
      → first_pop hooks capacity (pop_live capacity s)
        ≡ second_pop hooks capacity y (pop_live capacity s1)
  unfolding first_pop
  from_first hooks capacity y s s1 e = rw e refl

  pub process_loop-few :
      (hooks : Hooks G) (fuel capacity : ℕ) (s : Store G)
      → ltb s.live_size 2 ≡ true
      → process_loop hooks (suc fuel) capacity s ≡ some s
  unfolding process_loop
  process_loop-few hooks fuel capacity s few = rw (few, process_loop) refl

  process_loop-more :
      (hooks : Hooks G) (fuel capacity : ℕ) (s t : Store G)
      → ltb s.live_size 2 ≡ false
      → first_pop hooks capacity (pop_live capacity s) ≡ (true, t)
      → process_loop hooks (suc fuel) capacity s ≡ process_loop hooks fuel capacity t
  unfolding process_loop
  process_loop-more hooks fuel capacity s t many e =
      rw (many, process_loop, e) (ap (λ r. process_loop hooks fuel capacity r.1) e)

  two_rounds :
      (hooks : Hooks G) (fuel capacity : ℕ) (s t : Store G)
      → s.live_size ≡ 2
      → first_pop hooks capacity (pop_live capacity s) ≡ (true, t)
      → t.live_size ≡ 0
      → process_loop hooks (suc (suc fuel)) capacity s ≡ some t
  two_rounds hooks fuel capacity s t live e quiet =
      process_loop-more hooks (suc fuel) capacity s t (ground (arith, live)) e
      ∙ process_loop-few hooks fuel capacity t (ground (arith, quiet))

  -- The round in which `y` is popped first.
  round_from :
      (hooks : Hooks G) (fuel capacity y z i : ℕ) (s s1 : Store G)
      → pop_live capacity s ≡ (some y, s1)
      → y ≢ z
      → s.live_size ≡ 2
      → ((a : AccountId) → s.in_queue a ≡ ((a == y) || (a == z)))
      → s.ring i ≡ some z
      → i < capacity
      → capacity + capacity < u32_mod
      → Popped capacity y s s1
      → (t : Store G) × (process_loop hooks (suc (suc fuel)) capacity s ≡ some t)
        × (t.live_size ≡ 0)
        × ((a : AccountId) → t.in_queue a ≡ false)
        × (t.games ≡ hooks.create_from_matchmaking y z s.games)
  round_from hooks fuel capacity y z i s s1 e ne live queue at lt small p =
      let r = second_pop hooks capacity y (pop_live capacity s1) in
      let (go_on, quiet, empty, games) =
        second_pop-Paired hooks capacity y z i s s1 ne live queue at lt small p in
      (
        r.1,
        two_rounds hooks fuel capacity s _ live
            (from_first hooks capacity y s s1 e ∙ ap (λ b. (b, r.1)) go_on) quiet,
        quiet,
        empty,
        games,
      )

  one_of :
      (y v w : ℕ) (s : Store G)
      → ((a : AccountId) → s.in_queue a ≡ ((a == v) || (a == w)))
      → s.in_queue y ≡ true
      → (y ≡ v) ⊎ (y ≡ w)
  one_of y v w s queue was = ground (arith, queue y)

  other_order :
      (v w : ℕ) (s : Store G)
      → ((a : AccountId) → s.in_queue a ≡ ((a == v) || (a == w)))
      → (a : AccountId) → s.in_queue a ≡ ((a == w) || (a == v))
  other_order v w s queue a = ground (arith, queue a)

  -- Two waiting accounts are popped, and one game is created for the two of them.
  pub process_loop-Paired :
      (hooks : Hooks G) (fuel capacity v w : ℕ) (s : Store G)
      → capacity + capacity < u32_mod
      → TwoWait capacity v w s
      → (t : Store G) × (process_loop hooks (suc (suc fuel)) capacity s ≡ some t)
        × Paired v w hooks s t
  process_loop-Paired hooks fuel capacity v w s small two =
      let (y, s1, e, p) =
        pop_live-Pops capacity two.slot_v v s two.below_v (omega arith) small two.at_v
          (rw (two.queue v) (ground arith)) in
      let popped = Popped-head (s.head + capacity) capacity y s s1 (omega arith) p in
      elim (one_of y v w s two.queue p.was) [
        | inl is_v ↦
            ordered s1 (e ∙ ap (λ q. (some q, s1)) is_v)
              (subst (λ q. Popped capacity q s s1) is_v popped)
        | inr is_w ↦
            swapped s1 (e ∙ ap (λ q. (some q, s1)) is_w)
              (subst (λ q. Popped capacity q s s1) is_w popped)
      ]
    where
      Goal : Type 0
      Goal =
          (t : Store G) × (process_loop hooks (suc (suc fuel)) capacity s ≡ some t)
          × Paired v w hooks s t

      ordered : (s1 : Store G) → pop_live capacity s ≡ (some v, s1) → Popped capacity v s s1 → Goal
      ordered s1 e p =
          let (t, r, live, empty, games) =
            round_from hooks fuel capacity v w two.slot_w s s1 e two.distinct two.live two.queue
              two.at_w two.below_w small p in
          (t, r, record { live = live; queue = empty; games = inl games })

      swapped : (s1 : Store G) → pop_live capacity s ≡ (some w, s1) → Popped capacity w s s1 → Goal
      swapped s1 e p =
          let (t, r, live, empty, games) =
            round_from hooks fuel capacity w v two.slot_v s s1 e (λ q. two.distinct (sym q))
              two.live (other_order v w s two.queue) two.at_v two.below_v small p in
          (t, r, record { live = live; queue = empty; games = inr games })
