-- ===== src/Template/Examples.antt =====
-- Concrete calls of pallets/template/src/lib.rs.
use eterra_polkadot_sdk_solo.Prelude.{◌≡◌, refl, some, List, [], ◌∷◌, arith, u32_max}
use eterra_polkadot_sdk_solo.Prelude.Results.{Origin, signed, root, err}
use eterra_polkadot_sdk_solo.Template.{do_something, cause_error, storage_overflow}
use eterra_polkadot_sdk_solo.Template.History.{
  Call, does_something, causes_error, dispatch, rolled_back, replay, tally, total, verdict,
  replay-tally,
}

-- The largest number but one, and two increments, of which the second fails.
abbrev calls : List (Origin × Call)
calls =
    (signed 2, causes_error)
    ∷ (root, does_something 5)
    ∷ (signed 2, causes_error)
    ∷ (signed 1, does_something 4294967294)
    ∷ []

it_saturates : (replay calls).something ≡ some u32_max
unfolding replay dispatch do_something cause_error rolled_back
it_saturates = refl

replay-tally_example :
    ((replay calls).something ≡ total (tally calls))
    × (cause_error (signed 3) (replay calls) ≡ verdict (total (tally calls)) (replay calls))
replay-tally_example = replay-tally calls 3 (omega arith)

then_overflows : cause_error (signed 3) (replay calls) ≡ err storage_overflow
unfolding replay dispatch do_something cause_error rolled_back
then_overflows = refl
