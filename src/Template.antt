-- ===== src/Template.antt =====
-- The template pallet, pallets/template/src/lib.rs, which the runtime still contains.
pub mod History
pub mod Examples
use eterra_polkadot_sdk_solo.Prelude.{
  ℕ, ◌+◌, leb, if◌then◌else◌, true, false, Option, none, some, List, ◌∷◌, u32_max,
}
use eterra_polkadot_sdk_solo.Prelude.Results.{
  Result, ok, err, Origin, ensure_signed, ok_or, ◌>>=◌, ◌>>◌,
}

pub data Event : Type 0 where
  something_stored : ℕ → ℕ → Event

pub data Error : Type 0 where
  none_value storage_overflow : Error

-- The storage, and the events, newest first.
pub record Store : Type 0 where
  pub something : Option ℕ
  pub events : List Event

-- `checked_add` of `u32`
abbrev pub checked_add : ℕ → ℕ → Option ℕ
checked_add a b = if leb (a + b) u32_max then some (a + b) else none

unfoldable pub do_something : Origin → ℕ → Store → Result Error Store
do_something origin something s = do
  who ← ensure_signed origin
  ok (record s { something = some something; events = something_stored something who ∷ s.events })

unfoldable pub cause_error : Origin → Store → Result Error Store
cause_error origin s = do
  who ← ensure_signed origin
  elim s.something [
    | none ↦ err none_value
    | some old ↦
        ok_or (checked_add old 1) storage_overflow >>= λ new. ok (record s { something = some new })
  ]
