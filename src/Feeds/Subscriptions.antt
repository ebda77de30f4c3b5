-- ===== src/Feeds/Subscriptions.antt =====
-- internal/core/pkg/subscription: reference counts of subscriptions. Each operation holds the mutex, so it
-- is one step. A broker is told apart by a number; what it answers to a call, and the broker that `selectFn`
-- chooses, are other code: functions of the calls so far.
use custom_hts_legacy.Prelude.{
  ℕ, String, ◌≡◌, ◌↔◌, Bool, true, ◌&&◌, Option, none, some, List, [], ◌∷◌, arith, ◌==◌, Eq,
  string_eq, nat_eq, if◌then◌else◌, is_some, ◌⊎◌, inl, inr,
}
use custom_hts_legacy.Prelude.Int.{ℤ, pos, ◌+ℤ◌, ◌-ℤ◌, int64, ltb_ℤ}
use custom_hts_legacy.Prelude.Maps.{lookup, insert, delete, keys}

pub record Sub : Type 0 where
  pub code : String
  pub tr : String

abbrev pub sub_beq : Sub → Sub → Bool
sub_beq a b = a.code == b.code && a.tr == b.tr

pub sub_beq_iff : (a b : Sub) → (sub_beq a b ≡ true) ↔ (a ≡ b)
sub_beq_iff a b = ground (arith, string_eq.beq_iff a.code b.code, string_eq.beq_iff a.tr b.tr)

instance abbrev pub sub_eq : Eq Sub
sub_eq = record { beq = sub_beq; beq_iff = sub_beq_iff }

-- An `Exchange`.
abbrev pub Broker : Type 0
Broker = ℕ

pub data Err : Type 0 where
  sub_not_found no_broker : Err
  foreign : ℕ → Err

pub data Call : Type 0 where
  subscribed unsubscribed : Broker → Sub → Call

-- The calls with their answers, the last one first.
abbrev pub History : Type 0
History = List (Call × Option Err)

pub record Info : Type 0 where
  pub count : ℤ
  pub broker : Broker

pub record Manager : Type 0 where
  pub entry : List (Sub × Info)
  pub history : History

-- The code that the manager calls.
pub record Market : Type 0 where
  pub select : History → Sub → Err ⊎ Option Broker
  pub answer : History → Call → Option Err

-- A call, with its answer.
unfoldable pub ask : Market → Call → Manager → Manager × Option Err
ask market call m =
    let reply = market.answer m.history call in
    (record m { history = (call, reply) ∷ m.history }, reply)

abbrev pub put : Sub → Info → Manager → Manager
put sub i m = record m { entry = insert sub i m.entry }

abbrev drop : Sub → Manager → Manager
drop sub m = record m { entry = delete sub m.entry }

abbrev pub on_subscribed : Sub → Broker → Manager × Option Err → Manager × Option Err
on_subscribed sub broker (m, some e) = (m, some e)
on_subscribed sub broker (m, none) = (put sub (record { count = pos 1; broker = broker }) m, none)

unfoldable pub subscribe_new : Market → Sub → Err ⊎ Option Broker → Manager → Manager × Option Err
unfolding ask
subscribe_new market sub (inl e) m = (m, some e)
subscribe_new market sub (inr none) m = (m, some no_broker)
subscribe_new market sub (inr (some broker)) m =
    on_subscribed sub broker (ask market (subscribed broker sub) m)

unfoldable pub subscribe : Market → Sub → Manager → Manager × Option Err
unfolding subscribe_new
subscribe market sub m = elim (lookup sub m.entry) [
  | some i ↦ (put sub (record i { count = int64 (i.count +ℤ pos 1) }) m, none)
  | none ↦ subscribe_new market sub (market.select m.history sub) m
]

-- After the call of `Unsubscribe`: the count was taken down, and is put back on an error.
abbrev pub on_unsubscribed : Sub → Info → Manager × Option Err → Manager × Option Err
on_unsubscribed sub i (m, some e) =
    (put sub (record i { count = int64 (int64 (i.count -ℤ pos 1) +ℤ pos 1) }) m, some e)
on_unsubscribed sub i (m, none) = (drop sub m, none)

unfoldable pub release_held : Market → Sub → Info → Manager → Manager × Option Err
unfolding ask
release_held market sub i m =
    let count = int64 (i.count -ℤ pos 1) in
    if ltb_ℤ (pos 0) count
    then (put sub (record i { count = count }) m, none)
    else on_unsubscribed sub i (ask market (unsubscribed i.broker sub) m)

unfoldable pub release : Market → Sub → Manager → Manager × Option Err
unfolding release_held
release market sub m = elim (lookup sub m.entry) [
  | none ↦ (m, none)
  | some i ↦ release_held market sub i m
]

-- The new broker has answered; the old one's answer does not count.
unfoldable pub on_swapped :
    Market → Sub → Info → Broker → Manager × Option Err → Manager × Option Err
unfolding ask
on_swapped market sub i new_broker (m, some e) = (m, some e)
on_swapped market sub i new_broker (m, none) =
    (put sub (record i { broker = new_broker }) (ask market (unsubscribed i.broker sub) m).0, none)

unfoldable pub swap_held : Market → Sub → Info → Broker → Manager → Manager × Option Err
unfolding on_swapped ask
swap_held market sub i new_broker m =
    if i.broker == new_broker
    then (m, none)
    else on_swapped market sub i new_broker (ask market (subscribed new_broker sub) m)

unfoldable pub swap : Market → Sub → Broker → Manager → Manager × Option Err
unfolding swap_held
swap market sub new_broker m = elim (lookup sub m.entry) [
  | none ↦ (m, some sub_not_found)
  | some i ↦ swap_held market sub i new_broker m
]

unfoldable pub subs_by_broker : Broker → List (Sub × Info) → List Sub
subs_by_broker broker [] = []
subs_by_broker broker ((sub, i) ∷ entry) =
    let rest = subs_by_broker broker entry in if i.broker == broker then sub ∷ rest else rest

unfoldable pub ref_count : Sub → Manager → ℤ
ref_count sub m = elim (lookup sub m.entry) [ none ↦ pos 0 | some i ↦ i.count ]

unfoldable pub has : Sub → Manager → Bool
has sub m = is_some (lookup sub m.entry)

unfoldable pub subscribed_keys : Manager → List Sub
subscribed_keys m = keys m.entry

pub data Op : Type 0 where
  subscribes releases : Sub → Op
  swaps : Sub → Broker → Op

unfoldable pub step : Market → Op → Manager → Manager
unfolding subscribe release swap
step market (subscribes sub) m = (subscribe market sub m).0
step market (releases sub) m = (release market sub m).0
step market (swaps sub broker) m = (swap market sub broker m).0

unfoldable pub steps : Market → List Op → Manager → Manager
unfolding step
steps market [] m = m
steps market (op ∷ ops) m = steps market ops (step market op m)
