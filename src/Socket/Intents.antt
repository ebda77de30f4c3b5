-- ===== src/Socket/Intents.antt =====
-- internal/core/pkg/wsrefact_v5/store.go: the desired subscriptions, in the order in which they are replayed. A
-- generator of payloads is a function of the time of its call, and a payload is told apart by a number.
use custom_hts_legacy.Prelude.{
  ℕ, String, Option, none, some, List, [], ◌∷◌, ◌++◌, ◌==◌, string_eq, if◌then◌else◌, ◌⊎◌, inl, inr,
}
use custom_hts_legacy.Prelude.Int.{ℤ}
use custom_hts_legacy.Prelude.Maps.{lookup, insert, delete}

pub data Err : Type 0 where
  already_running already_subscribed not_subscribed client_stopped queue_full backoff
        invalid_options :
      Err
  handler_continue handler_backoff handler_stop : Err
  foreign : ℕ → Err

abbrev pub PayloadGen : Type 0
PayloadGen = ℕ → Err ⊎ ℕ

-- `SubscribeOptions` with both generators given, and the key.
pub record Intent : Type 0 where
  pub key : String
  pub sub_gen : PayloadGen
  pub unsub_gen : PayloadGen
  pub message_type : ℤ
  pub write_timeout : ℤ

pub record IntentStore : Type 0 where
  pub order : List String
  pub entries : List (String × Intent)

unfoldable pub new_intent_store : IntentStore
new_intent_store = record { order = []; entries = [] }

unfoldable pub put : Intent → IntentStore → Err ⊎ IntentStore
put intent store = elim (lookup intent.key store.entries) [
  | some there ↦ inl already_subscribed
  | none ↦ inr (record {
    order = store.order ++ (intent.key ∷ []);
    entries = insert intent.key intent store.entries;
  })
]

-- The first of the order that is the key.
unfoldable pub drop_key : String → List String → List String
drop_key key [] = []
drop_key key (k ∷ order) = let rest = drop_key key order in if k == key then order else k ∷ rest

unfoldable pub remove : String → IntentStore → Err ⊎ (Intent × IntentStore)
unfolding drop_key
remove key store = elim (lookup key store.entries) [
  | none ↦ inl not_subscribed
  | some intent ↦
      inr (intent, record { order = drop_key key store.order; entries = delete key store.entries })
]

abbrev pub snapshot_next : Option Intent → List Intent → List Intent
snapshot_next none rest = rest
snapshot_next (some intent) rest = intent ∷ rest

unfoldable pub snapshot_of : List String → List (String × Intent) → List Intent
snapshot_of [] entries = []
snapshot_of (key ∷ order) entries = snapshot_next (lookup key entries) (snapshot_of order entries)

unfoldable pub snapshot : IntentStore → List Intent
unfolding snapshot_of
snapshot store = snapshot_of store.order store.entries

-- What the client does with its store, and what it sees of it.
pub data StoreOp : Type 0 where
  puts : Intent → StoreOp
  removes : String → StoreOp
  snapshots lists : StoreOp

pub data Answer : Type 0 where
  done : Answer
  refused : Err → Answer
  removed : Intent → Answer
  replayed : List Intent → Answer
  listed : List String → Answer

abbrev pub put_answer : IntentStore → Err ⊎ IntentStore → IntentStore × Answer
put_answer store (inl e) = (store, refused e)
put_answer store (inr store') = (store', done)

abbrev pub remove_answer : IntentStore → Err ⊎ (Intent × IntentStore) → IntentStore × Answer
remove_answer store (inl e) = (store, refused e)
remove_answer store (inr (intent, store')) = (store', removed intent)

unfoldable pub use_store : StoreOp → IntentStore → IntentStore × Answer
unfolding put remove snapshot
use_store (puts intent) store = put_answer store (put intent store)
use_store (removes key) store = remove_answer store (remove key store)
use_store snapshots store = (store, replayed (snapshot store))
use_store lists store = (store, listed store.order)

unfoldable pub answers : List StoreOp → IntentStore → List Answer
unfolding use_store
answers [] store = []
answers (op ∷ ops) store = (use_store op store).1 ∷ answers ops (use_store op store).0
