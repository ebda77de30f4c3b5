-- ===== src/Socket/Queries.antt =====
-- The `Subscriptions` calls of internal/core/pkg/wsrefact_v5/client.go: what their parts leave of a client.
use custom_hts_legacy.Prelude.{
  ℕ, nat_eq, ◌+◌, String, Bool, true, false, ◌&&◌, ◌||◌, not, Option, none, some, List, [], ◌∷◌,
  ◌++◌, ltb, length, if◌then◌else◌,
}
use custom_hts_legacy.Prelude.Maps.{lookup}
use custom_hts_legacy.Socket.State.{Config}
use custom_hts_legacy.Socket.Loop.{snapshot_keys}
use custom_hts_legacy.Socket.Client.{Client, push, has, drop, got, ask, get_keys, give_up}

abbrev pub with_queries : ℕ → List ℕ → List (ℕ × List String) → Client → Client
with_queries n waits returned c = record c { next_query = n; asking = waits; returned = returned }

-- A predicate that does not depend on the `Subscriptions` calls is kept by them, if it is kept when the event of
-- such a call is put into the channel.
module _ (P : Client → Type 0) (c : Client)
    (same : (n : ℕ) (w : List ℕ) (r : List (ℕ × List String)) → P (with_queries n w r c)) where
  asked :
      (shut room : Bool) (a b d : Client)
      → P a
      → P b
      → P d
      → P (if shut then a else if room then b else d)
  asked true room a b d p q r = p
  asked false true a b d p q r = q
  asked false false a b d p q r = r

  pub ask-keeps :
      (config : Config)
      → ((n : ℕ) (w : List ℕ) (r : List (ℕ × List String)) (query : ℕ)
          → P (push (snapshot_keys query) (with_queries n w r c)))
      → P (ask config c)
  unfolding ask
  ask-keeps config pushed =
      asked (not c.is_started || c.loop.cancelled) (ltb (length c.event_ch) config.event_queue_size)
        _ _ _ (same (c.next_query + 1) c.asking (c.returned ++ ((c.next_query, []) ∷ [])))
        (pushed (c.next_query + 1) (c.next_query ∷ c.asking) c.returned c.next_query)
        (same (c.next_query + 1) c.asking (c.returned ++ ((c.next_query, []) ∷ [])))

  either : (test : Bool) (a : Client) → P a → P (if test then a else c)
  either true a p = p
  either false a p = same c.next_query c.asking c.returned

  got-keeps : (query : ℕ) (found : Option (List String)) → P (got query found c)
  got-keeps query none = same c.next_query c.asking c.returned
  got-keeps query (some ks) =
      same c.next_query (drop query c.asking) (c.returned ++ ((query, ks) ∷ []))

  pub get_keys-keeps : (query : ℕ) → P (get_keys query c)
  unfolding get_keys
  get_keys-keeps query =
      either (has query c.asking) _ (got-keeps query (lookup query c.loop.responses))

  pub give_up-keeps : (query : ℕ) → P (give_up query c)
  unfolding give_up
  give_up-keeps query =
      either (has query c.asking && c.loop.cancelled) _
        (same c.next_query (drop query c.asking) (c.returned ++ ((query, []) ∷ [])))
