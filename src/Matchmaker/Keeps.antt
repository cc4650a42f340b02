-- ===== src/Matchmaker/Keeps.antt =====
-- What the matching of pallets/eterra-simple-matchmaker/src/lib.rs keeps of the game pallet's
-- storage, whatever the queue.
use mathlib.Core.Option.{some-injective}
use eterra_polkadot_sdk_solo.Prelude.{
  ℕ, zero, suc, ◌+◌, ◌%◌, ◌≡◌, sym, ap, subst, ◌==◌, ltb, inl, inr, Option, none, some,
  Option-cases, Bool-cases, arith, u32_mod,
}
use eterra_polkadot_sdk_solo.Prelude.Results.{ok, Origin}
use eterra_polkadot_sdk_solo.Prelude.Ensures.{ensure-eq-ok, signed-eq-ok, ok_injective}
use eterra_polkadot_sdk_solo.Matchmaker.{
  AccountId, Hooks, Config, Store, Error, bad_capacity, not_queued, deposit_event, dequeue, take,
  pop_loop, pop_live, requeue, start_match, second_pop, first_pop, process_loop, do_process,
  join_queue, leave_queue, process_queue, processing_started, processing_completed,
}
use eterra_polkadot_sdk_solo.Matchmaker.Lockout.{join_queue-Joined, enqueue-Enqueued}

module _ {G : Type 0} (hooks : Hooks G) (P : G → Type 0)
    (keeps : (a b : AccountId) (g : G) → P g → P (hooks.create_from_matchmaking a b g)) where
  pop_loop-keeps :
      (n capacity h : ℕ) (s : Store G) → P s.games → P (pop_loop n capacity h s).1.games
  unfolding pop_loop dequeue take
  pop_loop-keeps zero capacity h s p = p
  pop_loop-keeps (suc n) capacity h s p = elim (Option-cases (s.ring (h % capacity))) [
    | inl empty ↦ rw (empty, pop_loop) (pop_loop-keeps n capacity ((h + 1) % u32_mod) s p)
    | inr (acc, full) ↦ elim (Bool-cases (s.in_queue acc)) [
      | inl queued ↦ rw (full, pop_loop, queued) p
      | inr gone ↦
          rw (full, pop_loop, gone)
            (pop_loop-keeps n capacity ((h + 1) % u32_mod) (take (h % capacity) s) p)
    ]
  ]

  second_pop-keeps :
      (capacity : ℕ) (a : AccountId) (r : Option AccountId × Store G)
      → P r.1.games
      → P (second_pop hooks capacity a r).1.games
  unfolding second_pop requeue start_match deposit_event
  second_pop-keeps capacity a (none, s) p = p
  second_pop-keeps capacity a (some b, s) p = elim (Bool-cases (a == b)) [
    | inl same ↦ rw same p
    | inr other ↦ rw other (keeps a b s.games p)
  ]

  first_pop-keeps :
      (capacity : ℕ) (r : Option AccountId × Store G)
      → P r.1.games
      → P (first_pop hooks capacity r).1.games
  unfolding first_pop pop_live
  first_pop-keeps capacity (none, s) p = p
  first_pop-keeps capacity (some a, s) p =
      second_pop-keeps capacity a (pop_live capacity s)
        (pop_loop-keeps capacity capacity s.head s p)

  process_loop-keeps :
      (fuel capacity : ℕ) (s t : Store G)
      → process_loop hooks fuel capacity s ≡ some t
      → P s.games
      → P t.games
  unfolding process_loop pop_live
  process_loop-keeps zero capacity s t e p = cc
  process_loop-keeps (suc fuel) capacity s t e p =
      let round = first_pop hooks capacity (pop_live capacity s) in
      let after : P round.1.games =
        first_pop-keeps capacity (pop_live capacity s)
          (pop_loop-keeps capacity capacity s.head s p) in
      elim (Bool-cases (ltb s.live_size 2)) [
        | inl few ↦ subst (λ z. P z.games) (some-injective s t (ground (arith, e, few))) p
        | inr two ↦ elim (Bool-cases round.0) [
          | inl more ↦
              process_loop-keeps fuel capacity round.1 t (ground (arith, e, two, more)) after
          | inr done ↦
              subst (λ z. P z.games) (some-injective round.1 t (ground (arith, e, two, done))) after
        ]
      ]

  do_process-keeps :
      (capacity : ℕ) (s t : Store G) → do_process hooks capacity s ≡ ok t → P s.games → P t.games
  unfolding do_process deposit_event
  do_process-keeps capacity s t e p =
      elim (Option-cases (
        process_loop hooks (suc s.live_size) capacity
          (deposit_event (processing_started s.live_size s.head s.tail) s))) [
            | inl out ↦ absurd (ground (arith, e, out))
            | inr (u, ran) ↦
                let ended : deposit_event (processing_completed u.live_size u.head u.tail) u ≡ t =
                  ok_injective {E = Error} (ground (arith, e, ran)) in
                subst (λ (z : Store G). P z.games) ended
                  (process_loop-keeps (suc s.live_size) capacity _ u ran p)
          ]

  pub join_queue-keeps :
      (config : Config) (origin : Origin) (s t : Store G)
      → join_queue hooks config origin s ≡ ok t
      → P s.games
      → P t.games
  join_queue-keeps config origin s t e p =
      let (who, o, j) = join_queue-Joined hooks config origin s t e in
      rw j.result (
        do_process-keeps config.queue_capacity _ j.after j.processed
          (rw (enqueue-Enqueued config who s).games p))

  pub process_queue-keeps :
      (config : Config) (origin : Origin) (s t : Store G)
      → process_queue hooks config origin s ≡ ok t
      → P s.games
      → P t.games
  unfolding process_queue deposit_event
  process_queue-keeps config origin s t e p =
      let (_, e1) = ensure-eq-ok (ltb 1 config.queue_capacity) bad_capacity _ e in
      do_process-keeps config.queue_capacity _ t e1 p

pub leave_queue-games :
    {G : Type 0} (origin : Origin) (s t : Store G) → leave_queue origin s ≡ ok t → t.games ≡ s.games
unfolding leave_queue deposit_event
leave_queue-games origin s t e =
    let (who, o, e1) = signed-eq-ok origin _ e in
    let (was, e2) = ensure-eq-ok (s.in_queue who) not_queued _ e1 in
    ap (λ z. z.games) (sym (ok_injective e2))
