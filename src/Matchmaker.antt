-- ===== src/Matchmaker.antt =====
-- The matchmaker, pallets/eterra-simple-matchmaker/src/lib.rs: a ring of waiting accounts, and the
-- calls on it. A `mutate` of FRAME reads the stored value, runs its closure on a copy, and writes the
-- copy back when the closure is done; what nested calls store meanwhile is overwritten.
pub mod Pop
pub mod Process
pub mod Pairing
pub mod Lockout
pub mod Rounds
pub mod Steps
pub mod History
pub mod Keeps
pub mod Examples
use eterra_polkadot_sdk_solo.Prelude.{
  ℕ, zero, suc, ◌+◌, ◌-◌, ◌%◌, ◌==◌, leb, ltb, if◌then◌else◌, Bool, true, false, Option, none, some,
  List, ◌∷◌, update, saturating_add, u32_max, u32_mod,
}
use eterra_polkadot_sdk_solo.Prelude.Results.{
  Result, ok, panic, Origin, ensure_signed, ensure, ◌>>=◌, ◌>>◌,
}

abbrev pub AccountId : Type 0
AccountId = ℕ

-- What the runtime plugs in: `CurrentHandProvider` and `GameCreator`, over the storage `G` of the
-- game pallet. A creation that fails leaves its storage as it is, and its error is dropped.
pub record Hooks (G : Type 0) : Type 0 where
  pub has_current_hand : G → AccountId → Bool
  pub create_from_matchmaking : AccountId → AccountId → G → G

pub record Config : Type 0 where
  pub players_per_match : ℕ
  pub queue_capacity : ℕ

pub data Event : Type 0 where
  joined left requeued : AccountId → Event
  matched pair_found game_create_attempt : AccountId → AccountId → Event
  two_ready_to_match : ℕ → Event
  processing_started processing_completed : ℕ → ℕ → ℕ → Event

pub data Error : Type 0 where
  queue_full already_queued not_queued bad_capacity no_preset_hand : Error

-- One field for each storage item, the events, newest first, and the game pallet's storage.
pub record Store (G : Type 0) : Type 0 where
  pub head : ℕ
  pub tail : ℕ
  pub ring : ℕ → Option AccountId
  pub in_queue : AccountId → Bool
  pub live_size : ℕ
  pub events : List Event
  pub games : G

unfoldable pub ring_size : ℕ → ℕ → ℕ
ring_size head tail = (tail + u32_mod - head) % u32_mod

module _ {G : Type 0} where
  unfoldable pub deposit_event : Event → Store G → Store G
  deposit_event e s = record s { events = e ∷ s.events }

  -- The account that `pop_live` returns leaves the queue.
  unfoldable pub dequeue : AccountId → ℕ → Store G → Store G
  dequeue acc h s = record s {
    head = h;
    in_queue = update s.in_queue acc false;
    live_size = s.live_size - 1;
  }

  -- `Ring::take`
  unfoldable pub take : ℕ → Store G → Store G
  take idx s = record s { ring = update s.ring idx none }

  -- The loop of `pop_live`, with the rounds that are left.
  unfoldable pub pop_loop : ℕ → ℕ → ℕ → Store G → Option AccountId × Store G
  unfolding dequeue take
  pop_loop zero capacity h s = (none, s)
  pop_loop (suc n) capacity h s =
      let idx = h % capacity in
      let h' = (h + 1) % u32_mod in
      elim (s.ring idx) [
        | none ↦ pop_loop n capacity h' s
        | some acc ↦
            let rest = pop_loop n capacity h' (take idx s) in
            if s.in_queue acc then (some acc, dequeue acc h' (take idx s)) else rest
      ]

  unfoldable pub pop_live : ℕ → Store G → Option AccountId × Store G
  unfolding pop_loop
  pop_live capacity s = pop_loop capacity capacity s.head s

  -- Back to the end of the ring, in the two places where a popped account cannot be matched.
  unfoldable pub requeue : ℕ → AccountId → Store G → Store G
  unfolding deposit_event
  requeue capacity a s = deposit_event (requeued a) (record s {
    ring = update s.ring (s.tail % capacity) (some a);
    tail = (s.tail + 1) % u32_mod;
    in_queue = update s.in_queue a true;
    live_size = saturating_add u32_max s.live_size 1;
  })

  unfoldable pub start_match : Hooks G → AccountId → AccountId → Store G → Store G
  unfolding deposit_event
  start_match hooks a b s =
      let s1 = deposit_event (game_create_attempt a b) s in
      deposit_event (matched a b) (record s1 { games = hooks.create_from_matchmaking a b s1.games })

  -- The two pops of one round, by what they found. The result says whether the loop goes on.
  unfoldable pub second_pop : Hooks G → ℕ → AccountId → Option AccountId × Store G → Bool × Store G
  unfolding deposit_event
  second_pop hooks capacity a (none, s) = (false, requeue capacity a s)
  second_pop hooks capacity a (some b, s) =
      let s' = deposit_event (pair_found a b) s in
      if a == b then (false, requeue capacity a s') else (true, start_match hooks a b s')

  unfoldable pub first_pop : Hooks G → ℕ → Option AccountId × Store G → Bool × Store G
  first_pop hooks capacity (none, s) = (false, s)
  first_pop hooks capacity (some a, s) = second_pop hooks capacity a (pop_live capacity s)

  -- The `loop` of `do_process`; `none` means that the fuel ran out.
  unfoldable pub process_loop : Hooks G → ℕ → ℕ → Store G → Option (Store G)
  process_loop hooks zero capacity s = none
  process_loop hooks (suc fuel) capacity s = elim (ltb s.live_size 2) [
    | true ↦ some s
    | false ↦
        let (go_on, t) = first_pop hooks capacity (pop_live capacity s) in
        elim go_on [ true ↦ process_loop hooks fuel capacity t | false ↦ some t ]
  ]

  -- `do_process` always succeeds; the fuel is enough, and `panic` is never reached.
  unfoldable pub do_process : Hooks G → ℕ → Store G → Result Error (Store G)
  unfolding deposit_event
  do_process hooks capacity s =
      let started = deposit_event (processing_started s.live_size s.head s.tail) s in
      elim (process_loop hooks (suc s.live_size) capacity started) [
        | none ↦ panic
        | some t ↦ ok (deposit_event (processing_completed t.live_size t.head t.tail) t)
      ]

  -- What `join_queue` stores before it processes the queue. `Tail` is written only at the end.
  unfoldable pub enqueue : Config → AccountId → Store G → Store G
  unfolding deposit_event
  enqueue config who s =
      let live = saturating_add u32_max s.live_size 1 in
      let s1 = record s {
        ring = update s.ring (s.tail % config.queue_capacity) (some who);
        in_queue = update s.in_queue who true;
        live_size = live;
      } in
      let s2 =
        (if leb config.players_per_match live
          then deposit_event (two_ready_to_match live) s1
          else s1) in
      deposit_event (joined who) s2

  unfoldable pub join_queue : Hooks G → Config → Origin → Store G → Result Error (Store G)
  join_queue hooks config origin s = do
    who ← ensure_signed origin
    let capacity = config.queue_capacity
    ensure (ltb 1 capacity) bad_capacity
    ensure (if s.in_queue who then false else true) already_queued
    ensure (hooks.has_current_hand s.games who) no_preset_hand
    ensure (ltb (ring_size s.head s.tail) capacity) queue_full
    t ← do_process hooks capacity (enqueue config who s)
    ok (record t { head = s.head; tail = (s.tail + 1) % u32_mod })

  unfoldable pub leave_queue : Origin → Store G → Result Error (Store G)
  unfolding deposit_event
  leave_queue origin s = do
    who ← ensure_signed origin
    ensure (s.in_queue who) not_queued
    let s1 = record s { in_queue = update s.in_queue who false; live_size = s.live_size - 1 }
    ok (deposit_event (left who) s1)

  -- `let _ = ensure_signed(origin).ok()`: any origin will do.
  unfoldable pub process_queue : Hooks G → Config → Origin → Store G → Result Error (Store G)
  unfolding deposit_event
  process_queue hooks config origin s = do
    let capacity = config.queue_capacity
    ensure (ltb 1 capacity) bad_capacity
    do_process hooks capacity (deposit_event (processing_started s.live_size s.head s.tail) s)
