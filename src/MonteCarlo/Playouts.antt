-- ===== src/MonteCarlo/Playouts.antt =====
-- The playouts of pallets/eterra-monte-carlo-ai/src/lib.rs over a lawful adapter: they do not panic,
-- and their sums stay in range.
use eterra_polkadot_sdk_solo.Prelude.{
  ℕ, zero, suc, ◌+◌, ◌*◌, ◌%◌, subst, inl, inr, Option, none, some, Bool-cases, arith, u32_mod,
}
use eterra_polkadot_sdk_solo.Prelude.Int.{ℤ, pos, negsuc, ◌+ℤ◌}
use eterra_polkadot_sdk_solo.Prelude.Panics.{◌>>=◌, Returns, Returns-bind}
use eterra_polkadot_sdk_solo.MonteCarlo.{
  GameAdapter, Config, playout_loop, random_playout, simulate, prng_u64, u64_mod,
}
use eterra_polkadot_sdk_solo.MonteCarlo.Laws.{Lawful, Within, OnSome}

+ℤ-Within : (m n : ℕ) (a b : ℤ) → Within m a → Within n b → Within (m + n) (a +ℤ b)
+ℤ-Within m n (pos a) (pos b) h k = ground arith
+ℤ-Within m n (pos a) (negsuc b) h k = ground arith
+ℤ-Within m n (negsuc a) (pos b) h k = ground arith
+ℤ-Within m n (negsuc a) (negsuc b) h k = ground arith

Returns-option :
    {A B : Type 0} (P : A → Type 0) (Q : B → Type 0) (o : Option A) (x : Option B)
    (f : A → Option B)
    → OnSome P o
    → Returns Q x
    → ((a : A) → P a → Returns Q (f a))
    → Returns Q (elim o [ none ↦ x | some a ↦ f a ])
Returns-option P Q none x f p q k = q
Returns-option P Q (some a) x f p q k = k a p

module _ {State Action Player : Type 0} (game : GameAdapter State Action Player) (config : Config)
    {Valid : State → Type 0} {Legal : State → Action → Type 0}
    (laws : Lawful game Valid Legal) where
  playout_loop-Valid :
      (left : ℕ) (s : State) (seed : ℕ)
      → Valid s
      → Returns Valid (playout_loop game config left s seed)
  unfolding playout_loop
  playout_loop-Valid zero s seed v = v
  playout_loop-Valid (suc left) s seed v = elim (Bool-cases (game.is_terminal s)) [
    | inl over ↦ rw over v
    | inr going ↦ rw going (
        Returns-bind (OnSome (Legal s)) Valid (game.random_action s seed) _
          (laws.draws s seed v going)
          λ o p.
            Returns-option (Legal s) Valid o (some s)
              (λ a. game.apply s a >>= λ t.
                playout_loop game config left t ((seed + 0x9E3779B9) % u64_mod))
              p v
              (λ a legal.
                Returns-bind Valid Valid (game.apply s a) _ (laws.applies s a v legal)
                  (λ t w. playout_loop-Valid left t ((seed + 0x9E3779B9) % u64_mod) w)))
  ]

  pub random_playout-Within :
      (s : State) (me : Player) (seed : ℕ)
      → Valid s
      → Returns (Within 2147483647) (random_playout game config s me seed)
  unfolding random_playout
  random_playout-Within s me seed v =
      Returns-bind Valid (Within 2147483647)
        (playout_loop game config config.max_playout_depth s seed) _
        (playout_loop-Valid config.max_playout_depth s seed v) (λ t w. laws.scores t me w)

  -- The sum of `left` playouts changes the accumulator by at most that many scores.
  pub simulate-Within :
      (s : State) (a : Action) (me : Player) (i left j m : ℕ) (accum : ℤ) (nonce : ℕ)
      → Valid s
      → Legal s a
      → Within m accum
      → Returns
          (λ r. Within (m + left * 2147483647) r.0)
          (simulate game config s a me i left j accum nonce)
  unfolding simulate
  simulate-Within s a me i zero j m accum nonce v legal h =
      subst (λ n. Within n accum) (omega arith) h
  simulate-Within s a me i (suc left) j m accum nonce v legal h =
      let p = prng_u64 config (i * u32_mod + j) nonce in
      Returns-bind Valid (λ r. Within (m + suc left * 2147483647) r.0) (game.apply s a) _
        (laws.applies s a v legal)
        (λ t w.
          Returns-bind (Within 2147483647) (λ r. Within (m + suc left * 2147483647) r.0)
            (random_playout game config t me p.0) _ (random_playout-Within t me p.0 w)
            (λ outcome fits.
              subst
                (λ n.
                  Returns (λ r. Within n r.0)
                    (simulate game config s a me i left (j + 1) (accum +ℤ outcome) p.1))
                (omega arith)
                (simulate-Within s a me i left (j + 1) (m + 2147483647) (accum +ℤ outcome) p.1 v
                  legal (+ℤ-Within m 2147483647 accum outcome h fits))))
