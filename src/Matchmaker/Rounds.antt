-- ===== src/Matchmaker/Rounds.antt =====
-- What `do_process` of pallets/eterra-simple-matchmaker/src/lib.rs does to one and to two waiting accounts.
use eterra_polkadot_sdk_solo.Prelude.{ℕ, suc, ◌+◌, ◌<◌, ◌≡◌, refl, ap, ◌∙◌, some, arith, u32_mod}
use eterra_polkadot_sdk_solo.Prelude.Results.{ok}
use eterra_polkadot_sdk_solo.Matchmaker.{
  Hooks, Store, ring_size, deposit_event, process_loop, do_process, processing_started,
  processing_completed,
}
use eterra_polkadot_sdk_solo.Matchmaker.Process.{TwoWait, Paired}
use eterra_polkadot_sdk_solo.Matchmaker.Pairing.{process_loop-Paired, process_loop-few}

pub ring_size-zero : (n : ℕ) → n < u32_mod → ring_size 0 n ≡ n
unfolding ring_size
ring_size-zero n lt = omega arith

module _ {G : Type 0} where
  -- `s` and `t` differ in events at most.
  pub record Same (s t : Store G) : Type 0 where
    pub head : t.head ≡ s.head
    pub tail : t.tail ≡ s.tail
    pub ring : t.ring ≡ s.ring
    pub queue : t.in_queue ≡ s.in_queue
    pub live : t.live_size ≡ s.live_size
    pub games : t.games ≡ s.games

  pub do_process-few :
      (hooks : Hooks G) (capacity : ℕ) (s : Store G)
      → s.live_size < 2
      → (t : Store G) × (do_process hooks capacity s ≡ ok t) × Same s t
  unfolding do_process deposit_event
  do_process-few hooks capacity s few =
      let started = deposit_event (processing_started s.live_size s.head s.tail) s in
      let e = process_loop-few hooks s.live_size capacity started (ground (arith, few)) in
      (
        deposit_event (processing_completed s.live_size s.head s.tail) started,
        rw (e, do_process) refl,
        record { head = refl; tail = refl; ring = refl; queue = refl; live = refl; games = refl },
      )

  pub do_process-pair :
      (hooks : Hooks G) (capacity v w : ℕ) (s : Store G)
      → capacity + capacity < u32_mod
      → TwoWait capacity v w s
      → (t : Store G) × (do_process hooks capacity s ≡ ok t) × Paired v w hooks s t
  unfolding do_process deposit_event
  do_process-pair hooks capacity v w s small two =
      let started = deposit_event (processing_started s.live_size s.head s.tail) s in
      let (t, e, p) = process_loop-Paired hooks 1 capacity v w started small record {
        distinct = two.distinct;
        live = two.live;
        queue = two.queue;
        slot_v = two.slot_v;
        slot_w = two.slot_w;
        at_v = two.at_v;
        at_w = two.at_w;
        below_v = two.below_v;
        below_w = two.below_w;
        low = two.low;
      } in
      let e' : process_loop hooks (suc s.live_size) capacity started ≡ some t =
        ap (λ n. process_loop hooks (suc n) capacity started) two.live ∙ e in
      (
        deposit_event (processing_completed t.live_size t.head t.tail) t,
        rw (e', do_process) refl,
        record { live = p.live; queue = p.queue; games = p.games },
      )
