-- ===== src/Socket/Ordering.antt =====
-- The store of internal/core/pkg/wsrefact_v5/store.go refines a list of subscriptions.
use custom_hts_legacy.Prelude.{
  ◌≡◌, refl, sym, ◌∙◌, ap, String, not, Option, none, some, List, [], ◌∷◌, ◌++◌, arith, map, ◌==◌,
  ==-self, eq_of_==, string_eq, if◌then◌else◌, inl, inr, filter_by, Bool-cases, Option-cases,
}
use custom_hts_legacy.Prelude.Maps.{lookup, insert, delete, lookup-insert, lookup-delete}
use custom_hts_legacy.Socket.Intents.{
  Intent, IntentStore, new_intent_store, put, drop_key, remove, snapshot_of, snapshot,
  already_subscribed, not_subscribed, StoreOp, puts, removes, snapshots, lists, Answer, done,
  refused, removed, replayed, listed, use_store, answers,
}

-- The specification: a list of subscriptions, told apart by their keys.
abbrev pub find : String → List Intent → Option Intent
find key [] = none
find key (i ∷ l) = if i.key == key then some i else find key l

abbrev pub without_key : String → List Intent → List Intent
without_key key = filter_by (λ i. not (i.key == key))

abbrev pub key_of : Intent → String
key_of i = i.key

abbrev pub DistinctKeys : List Intent → Type 0
DistinctKeys [] = Unit
DistinctKeys (i ∷ l) = (find i.key l ≡ none) × DistinctKeys l

-- A store that stands for the list.
pub record StandsFor (s : IntentStore) (l : List Intent) : Type 0 where
  pub ordered : s.order ≡ map key_of l
  pub found : (key : String) → lookup key s.entries ≡ find key l
  pub distinct : DistinctKeys l

some_inj : {i j : Intent} → some i ≡ some j → i ≡ j
some_inj e = cc

some-none : {i : Intent} → some i ≡ none → ⊥
some-none e = cc

find_key : (key : String) (l : List Intent) (i : Intent) → find key l ≡ some i → i.key ≡ key
find_key key [] i h = cc
find_key key (j ∷ l) i h = elim (Bool-cases (j.key == key)) [
  | inl same ↦ ap key_of (sym (some_inj (rw same at h))) ∙ eq_of_== j.key key same
  | inr apart ↦ find_key key l i (rw apart at h)
]

find-append :
    (key : String) (l : List Intent) (i : Intent)
    → find i.key l ≡ none
    → find key (l ++ (i ∷ [])) ≡ (if i.key == key then some i else find key l)
find-append key [] i h = refl
find-append key (j ∷ l) i h = elim (Bool-cases (j.key == i.key)) [
  | inl same ↦ absurd (some-none (rw same at h))
  | inr apart ↦ ground (
    arith,
    find-append key l i (rw apart at h),
    string_eq.beq_iff j.key key,
    string_eq.beq_iff i.key key,
    string_eq.beq_iff j.key i.key,
  )
]

find-without :
    (key k : String) (l : List Intent)
    → find k (without_key key l) ≡ (if key == k then none else find k l)
find-without key k [] = ground arith
find-without key k (j ∷ l) = ground (
  arith,
  find-without key k l,
  string_eq.beq_iff j.key key,
  string_eq.beq_iff j.key k,
  string_eq.beq_iff key k,
)

without_absent : (key : String) (l : List Intent) → find key l ≡ none → without_key key l ≡ l
without_absent key [] h = refl
without_absent key (j ∷ l) h = elim (Bool-cases (j.key == key)) [
  | inl same ↦ absurd (some-none (rw same at h))
  | inr apart ↦ rw apart (ap (λ r. j ∷ r) (without_absent key l (rw apart at h)))
]

drop_key-map :
    (key : String) (l : List Intent)
    → DistinctKeys l
    → drop_key key (map key_of l) ≡ map key_of (without_key key l)
unfolding drop_key
drop_key-map key [] d = refl
drop_key-map key (j ∷ l) (fresh, d) = elim (Bool-cases (j.key == key)) [
  | inl same ↦ rw same (
      ap (map key_of)
        (sym (without_absent key l (ap (λ k. find k l) (sym (eq_of_== j.key key same)) ∙ fresh))))
  | inr apart ↦ rw apart (ap (λ r. j.key ∷ r) (drop_key-map key l d))
]

without-DistinctKeys :
    (key : String) (l : List Intent) → DistinctKeys l → DistinctKeys (without_key key l)
without-DistinctKeys key [] d = tt
without-DistinctKeys key (j ∷ l) (fresh, d) = elim (Bool-cases (j.key == key)) [
  | inl same ↦ rw same (without-DistinctKeys key l d)
  | inr apart ↦ rw apart (
    find-without key j.key l
        ∙ ground (arith, string_eq.beq_iff key j.key, string_eq.beq_iff j.key key),
    without-DistinctKeys key l d,
  )
]

append-DistinctKeys :
    (l : List Intent) (i : Intent)
    → find i.key l ≡ none
    → DistinctKeys l
    → DistinctKeys (l ++ (i ∷ []))
append-DistinctKeys [] i h d = (refl, tt)
append-DistinctKeys (j ∷ l) i h (fresh, d) = elim (Bool-cases (j.key == i.key)) [
  | inl same ↦ absurd (some-none (rw same at h))
  | inr apart ↦ (
    find-append j.key l i (rw apart at h)
        ∙ ground (arith, string_eq.beq_iff i.key j.key, string_eq.beq_iff j.key i.key),
    append-DistinctKeys l i (rw apart at h) d,
  )
]

map-append :
    (l : List Intent) (i : Intent) → map key_of (l ++ (i ∷ [])) ≡ map key_of l ++ (i.key ∷ [])
map-append [] i = refl
map-append (j ∷ l) i = ap (λ r. j.key ∷ r) (map-append l i)

-- A part of the list is what its keys find.
snapshot_part :
    (entries : List (String × Intent)) (l : List Intent)
    → DistinctKeys l
    → ((i : Intent) → find i.key l ≡ some i → lookup i.key entries ≡ some i)
    → snapshot_of (map key_of l) entries ≡ l
unfolding snapshot_of
snapshot_part entries [] d f = refl
snapshot_part entries (j ∷ l) (fresh, d) f = rw (f j (ground (arith, ==-self j.key))) (
    ap (λ r. j ∷ r)
      (snapshot_part entries l d (λ i e. f i (elim (Bool-cases (j.key == i.key)) [
        | inl same ↦
            absurd
              (some-none (sym e ∙ ap (λ k. find k l) (sym (eq_of_== j.key i.key same)) ∙ fresh))
        | inr apart ↦ rw apart e
      ]))))

pub snapshot-StandsFor : (s : IntentStore) (l : List Intent) → StandsFor s l → snapshot s ≡ l
unfolding snapshot
snapshot-StandsFor s l r =
    ap (λ order. snapshot_of order s.entries) r.ordered
    ∙ snapshot_part s.entries l r.distinct (λ i e. r.found i.key ∙ e)

-- The operations of the specification, with their answers.
abbrev spec_put : Intent → List Intent → Option Intent → List Intent × Answer
spec_put intent l (some there) = (l, refused already_subscribed)
spec_put intent l none = (l ++ (intent ∷ []), done)

abbrev spec_remove : String → List Intent → Option Intent → List Intent × Answer
spec_remove key l none = (l, refused not_subscribed)
spec_remove key l (some intent) = (without_key key l, removed intent)

abbrev pub use_list : StoreOp → List Intent → List Intent × Answer
use_list (puts intent) l = spec_put intent l (find intent.key l)
use_list (removes key) l = spec_remove key l (find key l)
use_list snapshots l = (l, replayed l)
use_list lists l = (l, listed (map key_of l))

unfoldable pub list_answers : List StoreOp → List Intent → List Answer
list_answers [] l = []
list_answers (op ∷ ops) l = (use_list op l).1 ∷ list_answers ops (use_list op l).0

abbrev IsStep : IntentStore × Answer → List Intent × Answer → Type 0
IsStep (s, a) (l, b) = StandsFor s l × (a ≡ b)

module _ (s : IntentStore) (l : List Intent) (r : StandsFor s l) where
  put_new :
      (i : Intent)
      → find i.key l ≡ none
      → StandsFor
          (record { order = s.order ++ (i.key ∷ []); entries = insert i.key i s.entries })
          (l ++ (i ∷ []))
  put_new i fresh = record {
    ordered = ap (λ order. order ++ (i.key ∷ [])) r.ordered ∙ sym (map-append l i);
    found = λ key.
        lookup-insert i.key key i s.entries
        ∙ ap (λ o. if i.key == key then some i else o) (r.found key)
        ∙ sym (find-append key l i fresh);
    distinct = append-DistinctKeys l i fresh r.distinct;
  }

  remove_there :
      (key : String)
      → StandsFor
          (record { order = drop_key key s.order; entries = delete key s.entries })
          (without_key key l)
  remove_there key = record {
    ordered = ap (drop_key key) r.ordered ∙ drop_key-map key l r.distinct;
    found = λ k.
        lookup-delete key k s.entries
        ∙ ap (λ o. if key == k then none else o) (r.found k)
        ∙ sym (find-without key k l);
    distinct = without-DistinctKeys key l r.distinct;
  }

  use-StandsFor : (op : StoreOp) → IsStep (use_store op s) (use_list op l)
  unfolding use_store put remove
  use-StandsFor (puts i) = elim (Option-cases (find i.key l)) [
    | inl fresh ↦ rw (put, r.found i.key, fresh) (put_new i fresh, refl)
    | inr (old, there) ↦ rw (put, r.found i.key, there) (r, refl)
  ]
  use-StandsFor (removes key) = elim (Option-cases (find key l)) [
    | inl missing ↦ rw (remove, r.found key, missing) (r, refl)
    | inr (old, there) ↦ rw (remove, r.found key, there) (remove_there key, refl)
  ]
  use-StandsFor snapshots = (r, ap replayed (snapshot-StandsFor s l r))
  use-StandsFor lists = (r, ap listed r.ordered)

answers-StandsFor :
    (ops : List StoreOp) (s : IntentStore) (l : List Intent)
    → StandsFor s l
    → answers ops s ≡ list_answers ops l
unfolding answers list_answers
answers-StandsFor [] s l r = refl
answers-StandsFor (op ∷ ops) s l r =
    let (r', same) = use-StandsFor s l r op in
    ap (λ a. a ∷ answers ops (use_store op s).0) same
    ∙ ap (λ rest. (use_list op l).1 ∷ rest)
        (answers-StandsFor ops (use_store op s).0 (use_list op l).0 r')

-- Whatever is put into a new store, removed, listed and taken as a snapshot, in any order, each answer is that of
-- a list to which a subscription with a new key is appended and from which one is removed by its key: the replay
-- order is the order of the subscribes, without what was unsubscribed.
pub answers_refine : (ops : List StoreOp) → answers ops new_intent_store ≡ list_answers ops []
unfolding new_intent_store lookup
answers_refine ops =
    answers-StandsFor ops new_intent_store []
      (record { ordered = refl; found = λ key. refl; distinct = tt })
