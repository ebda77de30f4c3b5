-- ===== src/Feeds/Live.antt =====
-- The entries of internal/core/pkg/subscription against what the brokers were asked.
use custom_hts_legacy.Prelude.{
  ◌≡◌, refl, sym, subst, ◌∙◌, ◌⊎◌, inl, inr, Bool, true, false, ◌&&◌, Option, none, some, List, [],
  ◌∷◌, arith, ◌==◌, nat_eq, string_eq, if◌then◌else◌, Bool-cases, Option-cases, eq_of_==, ==-self,
}
use custom_hts_legacy.Prelude.Int.{pos, ◌+ℤ◌, ◌-ℤ◌, int64, ltb_ℤ, Fits64}
use custom_hts_legacy.Prelude.Wrap.{int64_undo_sub}
use custom_hts_legacy.Prelude.Maps.{lookup, lookup-insert, lookup-delete}
use custom_hts_legacy.Feeds.Subscriptions.{
  Sub, sub_eq, Broker, Err, subscribed, unsubscribed, History, Info, Manager, Market, ask, put,
  subscribe_new, subscribe, release_held, release, on_swapped, swap_held, swap, Op, subscribes,
  releases, swaps, step, steps,
}

-- Whether the broker has the subscription, after the calls that it answered without an error.
unfoldable pub is_live : Broker → Sub → History → Bool
is_live b s [] = false
is_live b s ((subscribed c t, none) ∷ h) =
    let before = is_live b s h in if b == c && s == t then true else before
is_live b s ((unsubscribed c t, none) ∷ h) =
    let before = is_live b s h in if b == c && s == t then false else before
is_live b s ((call, some e) ∷ h) = is_live b s h

-- The broker of each entry has its subscription.
abbrev pub IsServed : Manager → Type 0
IsServed m = (s : Sub) (i : Info) → lookup s m.entry ≡ some i → is_live i.broker s m.history ≡ true

live_subscribe :
    (b c : Broker) (s t : Sub) (reply : Option Err) (h : History)
    → is_live b s h ≡ true
    → is_live b s ((subscribed c t, reply) ∷ h) ≡ true
unfolding is_live
live_subscribe b c s t none h live = ground arith
live_subscribe b c s t (some e) h live = live

live_new : (b : Broker) (s : Sub) (h : History) → is_live b s ((subscribed b s, none) ∷ h) ≡ true
unfolding is_live
live_new b s h = ground (arith, ==-self b, ==-self s)

live_unsubscribe :
    (b c : Broker) (s t : Sub) (reply : Option Err) (h : History)
    → is_live b s h ≡ true
    → (b == c && s == t) ≡ false
    → is_live b s ((unsubscribed c t, reply) ∷ h) ≡ true
unfolding is_live
live_unsubscribe b c s t none h live other = ground arith
live_unsubscribe b c s t (some e) h live other = live

live_failed :
    (b c : Broker) (s t : Sub) (e : Err) (h : History)
    → is_live b s h ≡ true
    → is_live b s ((unsubscribed c t, some e) ∷ h) ≡ true
unfolding is_live
live_failed b c s t e h live = live

put-IsServed :
    (sub : Sub) (i : Info) (m : Manager)
    → ((s : Sub) (j : Info)
        → (sub == s) ≡ false
        → lookup s m.entry ≡ some j
        → is_live j.broker s m.history ≡ true)
    → is_live i.broker sub m.history ≡ true
    → IsServed (put sub i m)
put-IsServed sub i m others live s j at = elim (Bool-cases (sub == s)) [
  | inl same ↦
      let e = eq_of_== sub s same in
      let is : some i ≡ some j = sym (lookup-insert sub s i m.entry ∙ rw same refl) ∙ at in
      rw (sym e) (subst (λ x. is_live x sub m.history ≡ true) (broker_of i j is) live)
  | inr other ↦ others s j other (sym (lookup-insert sub s i m.entry ∙ rw other refl) ∙ at)
]
  where
    broker_of : (i j : Info) → some i ≡ some j → i.broker ≡ j.broker
    broker_of i j is = cc

-- A release that fails, since the broker refuses to unsubscribe, leaves every entry as it was, so that it
-- can be tried again.
pub failed_release_keeps :
    (market : Market) (sub : Sub) (m : Manager) (i : Info) (e : Err)
    → lookup sub m.entry ≡ some i
    → Fits64 i.count
    → (release market sub m).1 ≡ some e
    → (s : Sub) → lookup s (release market sub m).0.entry ≡ lookup s m.entry
unfolding release release_held ask
failed_release_keeps market sub m i e here fits failed s =
    elim (Bool-cases (ltb_ℤ (pos 0) (int64 (i.count -ℤ pos 1)))) [
      | inl more ↦ absurd (cc (rw (here, more, release, release_held) at failed))
      | inr last ↦ elim (Option-cases (market.answer m.history (unsubscribed i.broker sub))) [
        | inl fine ↦ absurd (cc (rw (here, last, fine, release, release_held, ask) at failed))
        | inr (x, refused) ↦
            rw
              (here, last, refused, release, release_held, ask, int64_undo_sub i.count (pos 1) fits)
              (ground (arith, lookup-insert sub s i m.entry, sub_eq.beq_iff sub s))
      ]
    ]

subscribe_new-IsServed :
    (market : Market) (sub : Sub) (choice : Err ⊎ Option Broker) (m : Manager)
    → IsServed m
    → IsServed (subscribe_new market sub choice m).0
unfolding subscribe_new ask
subscribe_new-IsServed market sub (inl e) m v = v
subscribe_new-IsServed market sub (inr none) m v = v
subscribe_new-IsServed market sub (inr (some b)) m v =
    elim (Option-cases (market.answer m.history (subscribed b sub))) [
      | inr (e, failed) ↦
          rw (failed, subscribe_new, ask, failed)
            (λ s j at. live_subscribe j.broker b s sub (some e) m.history (v s j at))
      | inl fine ↦
          rw (fine, subscribe_new, ask, fine)
            (put-IsServed sub (record { count = pos 1; broker = b })
              (record m { history = (subscribed b sub, none) ∷ m.history })
              (λ s j other at. live_subscribe j.broker b s sub none m.history (v s j at))
              (live_new b sub m.history))
    ]

subscribe-IsServed :
    (market : Market) (sub : Sub) (m : Manager) → IsServed m → IsServed (subscribe market sub m).0
unfolding subscribe
subscribe-IsServed market sub m v = elim (Option-cases (lookup sub m.entry)) [
  | inl absent ↦
      rw (absent, subscribe) (subscribe_new-IsServed market sub (market.select m.history sub) m v)
  | inr (i, here) ↦
      rw (here, subscribe)
        (put-IsServed sub (record i { count = int64 (i.count +ℤ pos 1) }) m
          (λ s j other at. v s j at) (v sub i here))
]

release_held-IsServed :
    (market : Market) (sub : Sub) (i : Info) (m : Manager)
    → lookup sub m.entry ≡ some i
    → IsServed m
    → IsServed (release_held market sub i m).0
unfolding release_held ask
release_held-IsServed market sub i m here v =
    elim (Bool-cases (ltb_ℤ (pos 0) (int64 (i.count -ℤ pos 1)))) [
      | inl more ↦
          rw (more, release_held)
            (put-IsServed sub (record i { count = int64 (i.count -ℤ pos 1) }) m
              (λ s j other at. v s j at) (v sub i here))
      | inr last ↦ elim (Option-cases (market.answer m.history (unsubscribed i.broker sub))) [
        | inr (e, failed) ↦
            rw (last, failed, release_held, ask, failed)
              (put-IsServed sub (record i { count = int64 (int64 (i.count -ℤ pos 1) +ℤ pos 1) })
                (record m { history = (unsubscribed i.broker sub, some e) ∷ m.history })
                (λ s j other at. live_failed j.broker i.broker s sub e m.history (v s j at))
                (live_failed i.broker i.broker sub sub e m.history (v sub i here)))
        | inl fine ↦
            rw (last, fine, release_held, ask, fine)
              (λ s j at.
                let other : (sub == s) ≡ false = ground (arith, lookup-delete sub s m.entry) in
                let kept : lookup s m.entry ≡ some j =
                  ground (arith, lookup-delete sub s m.entry) in
                live_unsubscribe j.broker i.broker s sub none m.history (v s j kept)
                  (ground (arith, sub_eq.beq_iff sub s, sub_eq.beq_iff s sub)))
      ]
    ]

release-IsServed :
    (market : Market) (sub : Sub) (m : Manager) → IsServed m → IsServed (release market sub m).0
unfolding release
release-IsServed market sub m v = elim (Option-cases (lookup sub m.entry)) [
  | inl absent ↦ rw (absent, release) v
  | inr (i, here) ↦ rw (here, release) (release_held-IsServed market sub i m here v)
]

swap_held-IsServed :
    (market : Market) (sub : Sub) (i : Info) (b : Broker) (m : Manager)
    → lookup sub m.entry ≡ some i
    → IsServed m
    → IsServed (swap_held market sub i b m).0
unfolding swap_held on_swapped ask
swap_held-IsServed market sub i b m here v = elim (Bool-cases (i.broker == b)) [
  | inl same ↦ rw (same, swap_held) v
  | inr other ↦ elim (Option-cases (market.answer m.history (subscribed b sub))) [
    | inr (e, failed) ↦
        rw (other, failed, swap_held, on_swapped, ask, failed)
          (λ s j at. live_subscribe j.broker b s sub (some e) m.history (v s j at))
    | inl fine ↦
        let asked : History = (subscribed b sub, none) ∷ m.history in
        let reply = market.answer asked (unsubscribed i.broker sub) in
        rw (other, fine, swap_held, on_swapped, ask, fine)
          (put-IsServed sub (record i { broker = b })
            (record m { history = (unsubscribed i.broker sub, reply) ∷ asked })
            (λ s j away at.
              live_unsubscribe j.broker i.broker s sub reply asked
                (live_subscribe j.broker b s sub none m.history (v s j at))
                (ground (arith, sub_eq.beq_iff sub s, sub_eq.beq_iff s sub)))
            (live_unsubscribe b i.broker sub sub reply asked (live_new b sub m.history)
              (ground (arith, nat_eq.beq_iff i.broker b, nat_eq.beq_iff b i.broker))))
  ]
]

swap-IsServed :
    (market : Market) (sub : Sub) (b : Broker) (m : Manager)
    → IsServed m
    → IsServed (swap market sub b m).0
unfolding swap
swap-IsServed market sub b m v = elim (Option-cases (lookup sub m.entry)) [
  | inl absent ↦ rw (absent, swap) v
  | inr (i, here) ↦ rw (here, swap) (swap_held-IsServed market sub i b m here v)
]

step-IsServed : (market : Market) (op : Op) (m : Manager) → IsServed m → IsServed (step market op m)
unfolding step
step-IsServed market (subscribes sub) m v = subscribe-IsServed market sub m v
step-IsServed market (releases sub) m v = release-IsServed market sub m v
step-IsServed market (swaps sub b) m v = swap-IsServed market sub b m v

-- Whatever the brokers answer, after any sequence of operations the broker of each entry has the
-- subscription: its last call for it that succeeded was a subscribe call.
pub steps-IsServed :
    (market : Market) (ops : List Op) (m : Manager) → IsServed m → IsServed (steps market ops m)
unfolding steps
steps-IsServed market [] m v = v
steps-IsServed market (op ∷ ops) m v =
    steps-IsServed market ops (step market op m) (step-IsServed market op m v)
