-- ===== src/Template/History.antt =====
-- The histories of calls to pallets/template/src/lib.rs, and what they leave in the storage.
use eterra_polkadot_sdk_solo.Prelude.{
  ℕ, suc, ◌+◌, ◌≤◌, ◌≡◌, refl, ltb, if◌then◌else◌, Option, none, some, List, [], ◌∷◌, arith,
  saturating_add, u32_max,
}
use eterra_polkadot_sdk_solo.Prelude.Results.{Result, ok, err, Origin, signed, root, unsigned}
use eterra_polkadot_sdk_solo.Template.{
  Error, none_value, storage_overflow, Store, do_something, cause_error,
}

pub data Call : Type 0 where
  does_something : ℕ → Call
  causes_error : Call

unfoldable pub dispatch : Origin → Call → Store → Result Error Store
unfolding do_something cause_error
dispatch origin (does_something v) s = do_something origin v s
dispatch origin causes_error s = cause_error origin s

-- A call that fails leaves the storage as it was.
unfoldable pub rolled_back : Result Error Store → Store → Store
rolled_back (ok t) s = t
rolled_back _ s = s

abbrev pub genesis : Store
genesis = record { something = none; events = [] }

-- The storage after a history of calls, the newest first.
unfoldable pub replay : List (Origin × Call) → Store
unfolding dispatch rolled_back
replay [] = genesis
replay ((origin, c) ∷ older) = let s = replay older in rolled_back (dispatch origin c s) s

abbrev pub more : Option (ℕ × ℕ) → Option (ℕ × ℕ)
more none = none
more (some (v, n)) = some (v, suc n)

-- The last number that a signed call stored, and how many signed `cause_error` calls came after it.
unfoldable pub tally : List (Origin × Call) → Option (ℕ × ℕ)
tally [] = none
tally ((signed who, does_something v) ∷ older) = some (v, 0)
tally ((signed who, causes_error) ∷ older) = more (tally older)
tally ((root, c) ∷ older) = tally older
tally ((unsigned, c) ∷ older) = tally older

-- The arguments are of type `u32`.
abbrev pub Fits : List (Origin × Call) → Type 0
Fits [] = Unit
Fits ((origin, does_something v) ∷ older) = (v ≤ u32_max) × Fits older
Fits ((origin, causes_error) ∷ older) = Fits older

abbrev pub total : Option (ℕ × ℕ) → Option ℕ
total none = none
total (some (v, n)) = some (saturating_add u32_max v n)

-- How a signed `cause_error` ends after a history with that tally.
abbrev pub verdict : Option ℕ → Store → Result Error Store
verdict none s = err none_value
verdict (some v) s =
    if ltb v u32_max then ok (record s { something = some (v + 1) }) else err storage_overflow

-- The number that was stored last is a `u32`.
abbrev Small : Option (ℕ × ℕ) → Type 0
Small none = Unit
Small (some (v, n)) = v ≤ u32_max

more-Small : (o : Option (ℕ × ℕ)) → Small o → Small (more o)
more-Small none h = tt
more-Small (some (v, n)) h = h

tally-Small : (calls : List (Origin × Call)) → Fits calls → Small (tally calls)
unfolding tally
tally-Small [] f = tt
tally-Small ((signed who, does_something v) ∷ older) f = f.0
tally-Small ((signed who, causes_error) ∷ older) f = more-Small (tally older) (tally-Small older f)
tally-Small ((root, does_something v) ∷ older) f = tally-Small older f.1
tally-Small ((root, causes_error) ∷ older) f = tally-Small older f
tally-Small ((unsigned, does_something v) ∷ older) f = tally-Small older f.1
tally-Small ((unsigned, causes_error) ∷ older) f = tally-Small older f

cause_error-verdict :
    (who : ℕ) (o : Option ℕ) (s : Store)
    → s.something ≡ o
    → cause_error (signed who) s ≡ verdict o s
unfolding cause_error
cause_error-verdict who none s e = rw e refl
cause_error-verdict who (some v) s e = rw e (ground arith)

verdict-more :
    (o : Option (ℕ × ℕ)) (s : Store)
    → Small o
    → s.something ≡ total o
    → (rolled_back (verdict (total o) s) s).something ≡ total (more o)
unfolding rolled_back
verdict-more none s small e = e
verdict-more (some (v, n)) s small e = ground arith

replay-total :
    (calls : List (Origin × Call)) → Fits calls → (replay calls).something ≡ total (tally calls)
unfolding replay tally dispatch
replay-total [] f = refl
replay-total ((signed who, does_something v) ∷ older) f = ground arith
replay-total ((signed who, causes_error) ∷ older) f =
    let before = replay-total older f in
    rw (cause_error-verdict who (total (tally older)) (replay older) before)
      (verdict-more (tally older) (replay older) (tally-Small older f) before)
replay-total ((root, does_something v) ∷ older) f = replay-total older f.1
replay-total ((root, causes_error) ∷ older) f = replay-total older f
replay-total ((unsigned, does_something v) ∷ older) f = replay-total older f.1
replay-total ((unsigned, causes_error) ∷ older) f = replay-total older f

-- After any history of calls with arguments of type `u32`, the pallet holds nothing where no signed
-- call has stored a number; otherwise it holds the number that was stored last, plus one for each
-- signed `cause_error` since, up to the largest `u32`. A further signed `cause_error` fails with
-- `NoneValue` where nothing is held and with `StorageOverflow` at the largest `u32`, and adds one
-- otherwise.
pub replay-tally :
    (calls : List (Origin × Call)) (who : ℕ)
    → Fits calls
    → ((replay calls).something ≡ total (tally calls))
      × (cause_error (signed who) (replay calls) ≡ verdict (total (tally calls)) (replay calls))
replay-tally calls who f =
    let e = replay-total calls f in
    (e, cause_error-verdict who (total (tally calls)) (replay calls) e)
