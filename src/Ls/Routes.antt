-- ===== src/Ls/Routes.antt =====
-- internal/adapter/broker/ls/api/ws/transport.go and ls/client/helpers.go: the keys of routes, the action
-- codes, and the normal forms of issue codes and of HTS identifiers. An error is told apart by its type.
use custom_hts_legacy.Prelude.{
  ℕ, Bool, true, false, ◌&&◌, ◌||◌, not, Option, none, some, [], ◌∷◌, ◌++◌, ltb, nat_beq, ◌==◌,
  if◌then◌else◌, ◌⊎◌, inl, inr,
}
use custom_hts_legacy.Prelude.Texts.{Text, codes, text_eq, byte_len, trim_space, cut_at}

-- A wsrefact_v6 error that a command ends with.
pub data CommandErr : Type 0 where
  reconnecting subscription_not_found : CommandErr
  failed : ℕ → CommandErr

pub data Err : Type 0 where
  invalid_issue_code : Text → Text → Err
  missing_value invalid_route_key unsupported_action realtime_closed connection_limit : Err
  client operation : CommandErr → Err
  foreign : ℕ → Err

pub data Action : Type 0 where
  subscribe unsubscribe ping : Action

pub record RouteKey : Type 0 where
  pub scope : Text
  pub tr_code : Text
  pub tr_key : Text

abbrev pub colon : ℕ
colon = b':'

abbrev pub rt : Text
rt = codes "rt"

abbrev pub acct : Text
acct = codes "acct"

unfoldable pub build_transport_key : Text → Text → Text → Text
build_transport_key scope tr_code tr_key = scope ++ (colon ∷ (tr_code ++ (colon ∷ tr_key)))

abbrev is_empty : Text → Bool
is_empty [] = true
is_empty (c ∷ s) = false

abbrev pub checked_route : Text → Text → Text → Err ⊎ RouteKey
checked_route scope tr_code tr_key =
    if is_empty scope || is_empty tr_code || is_empty tr_key
    then inl invalid_route_key
    else inr (record { scope = scope; tr_code = tr_code; tr_key = tr_key })

unfoldable pub parse_behind : Text → Option (Text × Text) → Err ⊎ RouteKey
parse_behind scope none = inl invalid_route_key
parse_behind scope (some (tr_code, tr_key)) = checked_route scope tr_code tr_key

unfoldable pub parse_scope : Option (Text × Text) → Err ⊎ RouteKey
unfolding parse_behind
parse_scope none = inl invalid_route_key
parse_scope (some ([], rest)) = inl invalid_route_key
parse_scope (some (c ∷ scope, rest)) = parse_behind (c ∷ scope) (cut_at colon rest)

unfoldable pub parse_transport_key : Text → Err ⊎ RouteKey
unfolding parse_scope
parse_transport_key key = parse_scope (cut_at colon key)

-- "1" and "2" for an account, "3" and "4" for market data.
unfoldable pub resolve_tr_type : Text → Action → Err ⊎ Text
resolve_tr_type scope subscribe =
    if scope == rt
    then inr (codes "3")
    else if scope == acct
    then inr (codes "1")
    else inl unsupported_action
resolve_tr_type scope unsubscribe =
    if scope == rt
    then inr (codes "4")
    else if scope == acct
    then inr (codes "2")
    else inl unsupported_action
resolve_tr_type scope ping = inl unsupported_action

unfoldable pub is_digits : Text → Bool
is_digits [] = true
is_digits (c ∷ s) = not (ltb c b'0' || ltb b'9' c) && is_digits s

abbrev pub cut_prefix : Text → Text
cut_prefix [] = []
cut_prefix (c ∷ s) = if nat_beq c b'A' then s else c ∷ s

abbrev pub six_digits : Text → Option Text
six_digits code =
    if not (nat_beq (byte_len code) 6) then none else if is_digits code then some code else none

abbrev pub normalize_trimmed : Text → Option Text
normalize_trimmed [] = none
normalize_trimmed (c ∷ s) = six_digits (cut_prefix (c ∷ s))

unfoldable pub normalize_ws_issue_code : Text → Option Text
unfolding is_digits
normalize_ws_issue_code code = normalize_trimmed (trim_space code)

unfoldable pub normalize_realtime_code : Text → Text → Err ⊎ Text
normalize_realtime_code tr_code code = elim (normalize_ws_issue_code code) [
  | none ↦ inl (invalid_issue_code tr_code code)
  | some normalized ↦ inr normalized
]

abbrev pub non_empty : Text → Err ⊎ Text
non_empty [] = inl missing_value
non_empty (c ∷ s) = inr (c ∷ s)

unfoldable pub normalize_execution_key : Text → Err ⊎ Text
normalize_execution_key hts_id = non_empty (trim_space hts_id)
