-- ===== src/Trading/Prices.antt =====
-- internal/core/pricestore/store.go: the last snapshot of each code.
use custom_hts_legacy.Prelude.{
  String, ◌≡◌, refl, Bool, Option, none, some, List, [], ◌∷◌, arith, ◌==◌, string_eq, if◌then◌else◌,
  is_some,
}
use custom_hts_legacy.Prelude.Int.{ℤ}
use custom_hts_legacy.Prelude.Maps.{lookup, insert, lookup-insert}
use custom_hts_legacy.Trading.Domain.{Time, TickEvent}

pub record Snapshot : Type 0 where
  pub code : String
  pub price : ℤ
  pub volume : ℤ
  pub acc_volume : ℤ
  pub change : ℤ
  pub change_rate : ℤ
  pub trade_time : String
  pub updated_at : Time

abbrev pub Store : Type 0
Store = List (String × Snapshot)

abbrev pub snapshot_of : TickEvent → Snapshot
snapshot_of tick = record {
  code = tick.code;
  price = tick.price;
  volume = tick.volume;
  acc_volume = tick.acc_volume;
  change = tick.change;
  change_rate = tick.change_rate;
  trade_time = tick.trade_time;
  updated_at = tick.received_at;
}

unfoldable pub update : TickEvent → Store → Store
update tick s = insert tick.code (snapshot_of tick) s

unfoldable pub get : String → Store → Option Snapshot
get code s = lookup code s

-- `GetAll` copies each entry into a new map.
unfoldable pub copy_into : Store → Store → Store
copy_into [] cp = cp
copy_into ((k, v) ∷ s) cp = copy_into s (insert k v cp)

unfoldable pub get_all : Store → Store
unfolding copy_into
get_all s = copy_into s []

unfoldable pub has : String → Store → Bool
has code s = is_some (lookup code s)

-- A sequence of ticks, the first of the list first.
unfoldable pub updates : List TickEvent → Store → Store
unfolding update
updates [] s = s
updates (tick ∷ ticks) s = updates ticks (update tick s)

-- The last tick of a code, if there is one.
unfoldable pub last_tick : String → List TickEvent → Option TickEvent
last_tick code [] = none
last_tick code (tick ∷ ticks) =
    let later = last_tick code ticks in
    elim later [ some t ↦ some t | none ↦ if tick.code == code then some tick else none ]

abbrev pub seen : Option TickEvent → Option Snapshot → Option Snapshot
seen none before = before
seen (some tick) before = some (snapshot_of tick)

-- After any sequence of ticks the store has, for each code, the snapshot of the last tick of that code; a
-- code without a tick keeps what the store had before.
pub get-updates :
    (ticks : List TickEvent) (s : Store) (code : String)
    → get code (updates ticks s) ≡ seen (last_tick code ticks) (get code s)
unfolding get updates last_tick update
get-updates [] s code = refl
get-updates (tick ∷ ticks) s code = ground (
  arith,
  get-updates ticks (update tick s) code,
  lookup-insert tick.code code (snapshot_of tick) s,
)
