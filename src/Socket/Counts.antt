-- ===== src/Socket/Counts.antt =====
-- internal/core/pkg/wsrefact_v5: where the subscription of a call is: resolved, in a worker's queue, or neither.
use custom_hts_legacy.Prelude.{
  ℕ, ◌+◌, ◌≡◌, refl, sym, ◌∙◌, ap, subst, Option, none, some, List, [], ◌∷◌, ◌++◌, arith,
  nat_beq_iff, ◌==◌, nat_eq, inl, inr, Bool-cases, is_some,
}
use custom_hts_legacy.Prelude.Maps.{lookup, insert, lookup-insert}
use custom_hts_legacy.Socket.Phases.{bit}
use custom_hts_legacy.Socket.State.{
  WorkerEvent, write, dispose, Transport, Reply, Loop, resolve, put_transport,
}

abbrev pub count_replies : ℕ → List (ℕ × Reply) → ℕ
count_replies h [] = 0
count_replies h ((i, reply) ∷ rs) = bit (i == h) + count_replies h rs

abbrev pub waits_in : ℕ → WorkerEvent → ℕ
waits_in h (write frame i) = bit (i == h)
waits_in h dispose = 0

abbrev pub count_queue : ℕ → List WorkerEvent → ℕ
count_queue h [] = 0
count_queue h (e ∷ q) = waits_in h e + count_queue h q

abbrev pub count_transports : ℕ → List (ℕ × Transport) → ℕ
count_transports h [] = 0
count_transports h ((id, t) ∷ ts) = count_queue h t.queue + count_transports h ts

abbrev pub load : ℕ → Loop → ℕ
load h l = count_replies h l.results + count_transports h l.transports

count_replies-append :
    (h : ℕ) (rs : List (ℕ × Reply)) (i : ℕ) (reply : Reply)
    → count_replies h (rs ++ ((i, reply) ∷ [])) ≡ count_replies h rs + bit (i == h)
count_replies-append h [] i reply = omega arith
count_replies-append h ((j, r) ∷ rs) i reply = omega (arith, count_replies-append h rs i reply)

pub count_queue-append :
    (h : ℕ) (q : List WorkerEvent) (e : WorkerEvent)
    → count_queue h (q ++ (e ∷ [])) ≡ count_queue h q + waits_in h e
count_queue-append h [] e = omega arith
count_queue-append h (d ∷ q) e = omega (arith, count_queue-append h q e)

abbrev pub in_place : ℕ → Option Transport → ℕ
in_place h none = 0
in_place h (some t) = count_queue h t.queue

pub count-insert :
    (h id : ℕ) (t : Transport) (ts : List (ℕ × Transport))
    → count_transports h (insert id t ts) + in_place h (lookup id ts)
      ≡ count_transports h ts + count_queue h t.queue
unfolding lookup insert
count-insert h id t [] = omega arith
count-insert h id t ((i, old) ∷ ts) = elim (Bool-cases (i == id)) [
  | inl same ↦ rw same (omega arith)
  | inr apart ↦ rw apart (omega (arith, count-insert h id t ts))
]

-- The loop `l'` has the transports of `l`, and the call has `n` more places in it.
pub record IsKept (h n : ℕ) (l l' : Loop) : Type 0 where
  pub counted : load h l' ≡ load h l + n
  pub next : l'.next_transport ≡ l.next_transport
  pub same : (id : ℕ) → is_some (lookup id l'.transports) ≡ is_some (lookup id l.transports)

pub same-IsKept :
    (h : ℕ) (l l' : Loop)
    → l'.results ≡ l.results
    → l'.transports ≡ l.transports
    → l'.next_transport ≡ l.next_transport
    → IsKept h 0 l l'
same-IsKept h l l' e f g = record {
  counted = omega (arith, ap (count_replies h) e, ap (count_transports h) f);
  next = g;
  same = λ id. ap (λ ts. is_some (lookup id ts)) f;
}

pub IsKept-trans :
    {h m n : ℕ} {l l' l'' : Loop} → IsKept h m l l' → IsKept h n l' l'' → IsKept h (m + n) l l''
IsKept-trans {h} {m} {n} {l} {l'} {l''} k k' = record {
  counted = omega (arith, k.counted, k'.counted);
  next = k'.next ∙ k.next;
  same = λ id. k'.same id ∙ k.same id;
}

pub zero_trans :
    {h n : ℕ} {l l' l'' : Loop} → IsKept h 0 l l' → IsKept h n l' l'' → IsKept h n l l''
zero_trans {h} {n} {l} {l'} {l''} k k' = record {
  counted = omega (arith, k.counted, k'.counted);
  next = k'.next ∙ k.next;
  same = λ id. k'.same id ∙ k.same id;
}

pub resolve-IsKept :
    (h i : ℕ) (reply : Reply) (l : Loop) → IsKept h (bit (i == h)) l (resolve i reply l)
resolve-IsKept h i reply l = record {
  counted = omega (arith, count_replies-append h l.results i reply);
  next = refl;
  same = λ id. refl;
}

-- A transport is replaced by one whose queue has `n` more places of the call.
module _ (h id : ℕ) (l : Loop) (t t' : Transport) (found : lookup id l.transports ≡ some t) where
  pub replaced :
      count_transports h (insert id t' l.transports) + count_queue h t.queue
      ≡ count_transports h l.transports + count_queue h t'.queue
  replaced =
      subst
        (λ o.
          count_transports h (insert id t' l.transports) + in_place h o
          ≡ count_transports h l.transports + count_queue h t'.queue)
        found (count-insert h id t' l.transports)

  pub present :
      (j : ℕ) → is_some (lookup j (insert id t' l.transports)) ≡ is_some (lookup j l.transports)
  present j =
      subst (λ o. is_some o ≡ is_some (lookup j l.transports))
        (sym (lookup-insert id j t' l.transports))
        (elim (Bool-cases (id == j)) [
          | inl same ↦ rw same (
              sym (
                ap is_some
                  (ap (λ i. lookup i l.transports) (sym ((nat_beq_iff id j).0 same)) ∙ found)))
          | inr apart ↦ rw apart refl
        ])

  pub put-IsKept :
      (n : ℕ)
      → count_queue h t'.queue ≡ count_queue h t.queue + n
      → IsKept h n l (put_transport id t' l)
  put-IsKept n e = record { counted = omega (arith, replaced, e); next = refl; same = present }
