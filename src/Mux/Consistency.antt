-- ===== src/Mux/Consistency.antt =====
-- The desired state of the multiplexer of internal/core/pkg/wsrefact_v6: the subscriptions against the
-- replay order of each worker.
use custom_hts_legacy.Prelude.{
  ℕ, ◌<◌, ◌≡◌, sym, ◌⊎◌, inl, inr, none, some, List, [], ◌∷◌, ◌++◌, String, string_eq, ◌==◌, arith,
  length, get_elem?, set, Elem, Bool-cases, length-set, Elem-append, eq_of_==, ==-ne,
  get_elem?-set_cases, set-get_elem?, ◌∙◌,
}
use custom_hts_legacy.Prelude.Maps.{
  lookup, insert, delete, lookup-insert, lookup-delete, lookup-insert_ne, lookup-delete_ne,
}
use custom_hts_legacy.Mux.Types.{MuxSubscription}
use custom_hts_legacy.Mux.Commands.{subscribe_intent}
use custom_hts_legacy.Mux.Keys.{
  Distinct, remove_key, insert_key, Elem-remove_key, remove_key-Distinct, insert_key-remove_key,
  insert_key-remove_absent, Distinct-snoc,
}

abbrev pub Subs : Type 0
Subs = List (String × MuxSubscription)

-- Each entry names a worker that there is and its own key. Each desired key of a worker has an entry
-- with that worker, and no key is desired twice.
pub record Consistent (subs : Subs) (keys : List (List String)) : Type 0 where
  pub in_range :
      (k : String) (x : MuxSubscription) → lookup k subs ≡ some x → x.worker_index < length keys
  pub intents :
      (k : String) (x : MuxSubscription) → lookup k subs ≡ some x → x.intent ≡ subscribe_intent k
  pub desired :
      (i : ℕ) (ks : List String) (k : String)
      → get_elem? keys i ≡ some ks
      → Elem k ks
      → (x : MuxSubscription) × (lookup k subs ≡ some x) × (x.worker_index ≡ i)
  pub distinct : (i : ℕ) (ks : List String) → get_elem? keys i ≡ some ks → Distinct ks

-- Only what a lookup finds matters.
pub Consistent-ext :
    (subs subs' : Subs) (keys : List (List String))
    → ((k : String) → lookup k subs' ≡ lookup k subs)
    → Consistent subs keys
    → Consistent subs' keys
Consistent-ext subs subs' keys same v = record {
  in_range = λ k x h. v.in_range k x (rw same at h);
  intents = λ k x h. v.intents k x (rw same at h);
  desired = λ i ks k at m. let (x, h, e) = v.desired i ks k at m in (x, rw same h, e);
  distinct = v.distinct;
}

-- A new entry, where the key was absent.
pub Consistent-insert :
    (subs : Subs) (keys : List (List String)) (key : String) (i : ℕ)
    → lookup key subs ≡ none
    → i < length keys
    → Consistent subs keys
    → Consistent (insert key (record { worker_index = i; intent = subscribe_intent key }) subs) keys
Consistent-insert subs keys key i absent lt v = record {
  in_range = λ k x h. elim (Bool-cases (key == k)) [
    | inl same ↦ ground (arith, lookup-insert key k entry subs)
    | inr other ↦ v.in_range k x (rw (lookup-insert_ne key k entry subs other) at h)
  ];
  intents = λ k x h. elim (Bool-cases (key == k)) [
    | inl same ↦ ground (arith, lookup-insert key k entry subs, eq_of_== key k same)
    | inr other ↦ v.intents k x (rw (lookup-insert_ne key k entry subs other) at h)
  ];
  desired = λ j ks k at m.
      let (x, h, e) = v.desired j ks k at m in
      (x, ground (arith, lookup-insert key k entry subs, string_eq.beq_iff key k), e);
  distinct = v.distinct;
}
  where
    entry : MuxSubscription
    entry = record { worker_index = i; intent = subscribe_intent key }

-- An entry goes with its key in the replay order of its worker.
pub Consistent-delete :
    (subs : Subs) (keys : List (List String)) (key : String) (x : MuxSubscription)
    (ks : List String)
    → lookup key subs ≡ some x
    → get_elem? keys x.worker_index ≡ some ks
    → Consistent subs keys
    → Consistent (delete key subs) (set keys x.worker_index (remove_key ks key).0)
Consistent-delete subs keys key x ks there at v = record {
  in_range = λ k y h.
      omega
        (arith, length-set keys x.worker_index (remove_key ks key).0, v.in_range k y (kept k y h));
  intents = λ k y h. v.intents k y (kept k y h);
  desired = λ j js k at' m. elim (get_elem?-set_cases keys x.worker_index j left at') [
    | inl (same, e) ↦
        let m' : Elem k left = rw e at m in
        let (y, h, f) = v.desired x.worker_index ks k at (Elem-remove_key ks key k m') in
        (
          y,
          rw (lookup-delete_ne key k subs (==-ne key k (λ g. gone (rw (sym g) at m')))) h,
          f ∙ same,
        )
    | inr (other, old) ↦
        let (y, h, f) = v.desired j js k old m in
        (y, rw (lookup-delete_ne key k subs (==-ne key k (λ g. other (owner k y h g ∙ f)))) h, f)
  ];
  distinct = λ j js at'. elim (get_elem?-set_cases keys x.worker_index j left at') [
    | inl (same, e) ↦ rw e (remove_key-Distinct ks key (v.distinct x.worker_index ks at)).0
    | inr (other, old) ↦ v.distinct j js old
  ];
}
  where
    kept :
        (k : String) (y : MuxSubscription)
        → lookup k (delete key subs) ≡ some y
        → lookup k subs ≡ some y
    kept k y h = ground (arith, lookup-delete key k subs)

    left : List String
    left = (remove_key ks key).0

    gone : Elem key left → ⊥
    gone = (remove_key-Distinct ks key (v.distinct x.worker_index ks at)).1

    owner :
        (k : String) (y : MuxSubscription)
        → lookup k subs ≡ some y
        → key ≡ k
        → x.worker_index ≡ y.worker_index
    owner k y h g =
        let there' : lookup k subs ≡ some x = rw g at there in
        let same : some y ≡ some x = sym h ∙ there' in cc

-- Whether a key stands in a replay order.
dec-Elem : (key : String) (ks : List String) → Elem key ks ⊎ (Elem key ks → ⊥)
dec-Elem key [] = inr (λ m. m)
dec-Elem key (k ∷ ks) = elim (Bool-cases (k == key)) [
  | inl same ↦ inl (inl (eq_of_== k key same))
  | inr other ↦ elim (dec-Elem key ks) [
    | inl m ↦ inl (inr m)
    | inr out ↦ inr (λ m. ground (arith, string_eq.beq_iff k key))
  ]
]

-- A key that is put back after its removal keeps the desired state as it was, or is desired anew.
pub Consistent-restore :
    (subs : Subs) (keys : List (List String)) (key : String) (x : MuxSubscription)
    (ks : List String)
    → lookup key subs ≡ some x
    → get_elem? keys x.worker_index ≡ some ks
    → Consistent subs keys
    → let (rest, index) = remove_key ks key in
      Consistent subs (set keys x.worker_index (insert_key rest key index))
Consistent-restore subs keys key x ks there at v = elim (dec-Elem key ks) [
  | inl m ↦ rw (insert_key-remove_key ks key m, set-get_elem? keys x.worker_index at) v
  | inr out ↦ rw (insert_key-remove_absent ks key out) (record {
    in_range =
        λ k y h. omega (arith, length-set keys x.worker_index (ks ++ (key ∷ [])), v.in_range k y h);
    intents = v.intents;
    desired = λ j js k at' m. elim (get_elem?-set_cases keys x.worker_index j _ at') [
      | inl (same, e) ↦ elim (Elem-append ks (key ∷ []) k (rw e at m)) [
        | inl old ↦ let (y, h, f) = v.desired x.worker_index ks k at old in (y, h, f ∙ same)
        | inr (inl g) ↦ (x, rw (sym g) there, same)
        | inr (inr never) ↦ absurd never
      ]
      | inr (other, old) ↦ v.desired j js k old m
    ];
    distinct = λ j js at'. elim (get_elem?-set_cases keys x.worker_index j _ at') [
      | inl (same, e) ↦ rw e (Distinct-snoc ks key (v.distinct x.worker_index ks at) out)
      | inr (other, old) ↦ v.distinct j js old
    ];
  })
]
