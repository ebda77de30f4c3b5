-- ===== src/Ls/Keys.antt =====
-- The keys of internal/adapter/broker/ls/api/ws/transport.go: what is printed is read back, and the normal
-- forms of codes.
use custom_hts_legacy.Prelude.{
  ℕ, ◌≤◌, ◌≡◌, refl, ◌∙◌, ap, subst, Bool, true, false, some, [], ◌∷◌, ◌++◌, arith, nat_beq,
  nat_beq_iff, ◌⊎◌, ◌↔◌, inl, inr, Bool-cases, Option-cases, All, length,
}
use custom_hts_legacy.Prelude.Texts.{
  Text, text_eq, byte_len, is_space, trim_left, trim_right, trim_space, cut_at, Lacks,
  cut_at-append, cut_at_sound,
}
use custom_hts_legacy.Ls.Slots.{
  encode_write, encode_route, framed, text_frame, scope_of, call_type, action_of,
}
use custom_hts_legacy.Ls.Routes.{
  Err, RouteKey, colon, build_transport_key, checked_route, parse_behind, parse_scope,
  parse_transport_key, resolve_tr_type, is_digits, normalize_ws_issue_code, normalize_trimmed,
  six_digits,
}

abbrev pub NonEmpty : Text → Type 0
NonEmpty [] = ⊥
NonEmpty (c ∷ s) = Unit

-- A route that its key's text tells apart: no part is empty, and only the last may hold a colon.
pub record IsPrintable (r : RouteKey) : Type 0 where
  pub scope_there : NonEmpty r.scope
  pub code_there : NonEmpty r.tr_code
  pub key_there : NonEmpty r.tr_key
  pub scope_plain : Lacks colon r.scope
  pub code_plain : Lacks colon r.tr_code

abbrev pub print : RouteKey → Text
print r = build_transport_key r.scope r.tr_code r.tr_key

checked :
    (scope tr_code tr_key : Text)
    → NonEmpty scope
    → NonEmpty tr_code
    → NonEmpty tr_key
    → checked_route scope tr_code tr_key
      ≡ inr (record { scope = scope; tr_code = tr_code; tr_key = tr_key })
checked [] t k a b c = absurd a
checked (x ∷ s) [] k a b c = absurd b
checked (x ∷ s) (y ∷ t) [] a b c = absurd c
checked (x ∷ s) (y ∷ t) (z ∷ k) a b c = refl

checked_sound :
    (scope tr_code tr_key : Text) (r : RouteKey)
    → checked_route scope tr_code tr_key ≡ inr r
    → (r ≡ record { scope = scope; tr_code = tr_code; tr_key = tr_key })
      × NonEmpty scope
      × NonEmpty tr_code
      × NonEmpty tr_key
checked_sound [] t k r h = cc
checked_sound (x ∷ s) [] k r h = cc
checked_sound (x ∷ s) (y ∷ t) [] r h = cc
checked_sound (x ∷ s) (y ∷ t) (z ∷ k) r h = (cc, tt, tt, tt)

parse_scope-cons :
    (scope rest : Text)
    → NonEmpty scope
    → parse_scope (some (scope, rest)) ≡ parse_behind scope (cut_at colon rest)
unfolding parse_scope
parse_scope-cons [] rest there = absurd there
parse_scope-cons (c ∷ scope) rest there = refl

parse-print : (r : RouteKey) → IsPrintable r → parse_transport_key (print r) ≡ inr r
unfolding parse_transport_key parse_behind build_transport_key
parse-print r p =
    rw (cut_at-append colon r.scope (r.tr_code ++ (colon ∷ r.tr_key)) p.scope_plain) rw
      (parse_scope-cons r.scope (r.tr_code ++ (colon ∷ r.tr_key)) p.scope_there) rw
      (cut_at-append colon r.tr_code r.tr_key p.code_plain)
      (checked r.scope r.tr_code r.tr_key p.scope_there p.code_there p.key_there)

failed : {e : Err} {r : RouteKey} → inl e ≡ inr r → ⊥
failed h = cc

parse_sound :
    (key : Text) (r : RouteKey) → parse_transport_key key ≡ inr r → IsPrintable r × (print r ≡ key)
unfolding parse_transport_key parse_scope parse_behind build_transport_key
parse_sound key r h = elim (Option-cases (cut_at colon key)) [
  | inl nothing ↦ absurd (failed (rw nothing at h))
  | inr (([], rest), found) ↦ absurd (failed (rw found at h))
  | inr ((c ∷ scope, rest), found) ↦ elim (Option-cases (cut_at colon rest)) [
    | inl nothing ↦ absurd (failed (rw (found, nothing) at h))
    | inr ((tr_code, tr_key), found') ↦
        let (same, _, code_there, key_there) =
          checked_sound (c ∷ scope) tr_code tr_key r (rw (found, found') at h) in
        let (e, scope_plain) = cut_at_sound colon key found in
        let (e', code_plain) = cut_at_sound colon rest found' in
        rw same (
          record {
            scope_there = tt;
            code_there = code_there;
            key_there = key_there;
            scope_plain = scope_plain;
            code_plain = code_plain;
          },
          rw e (rw e' refl),
        )
  ]
]

-- Exactly the keys that a printable route is printed as are read, and each is read as that route.
pub parse_iff_print :
    (key : Text) (r : RouteKey)
    → (parse_transport_key key ≡ inr r) ↔ (IsPrintable r × (print r ≡ key))
parse_iff_print key r = (
  parse_sound key r,
  λ (p, same). subst (λ k. parse_transport_key k ≡ inr r) same (parse-print r p),
)

abbrev pub IsDigit : ℕ → Type 0
IsDigit c = (b'0' ≤ c) × (c ≤ b'9')

-- Six digits.
pub record IsCode (s : Text) : Type 0 where
  pub digits : All IsDigit s
  pub six : length s ≡ 6

is_digits_sound : (s : Text) → is_digits s ≡ true → All IsDigit s × (byte_len s ≡ length s)
unfolding is_digits byte_len
is_digits_sound [] h = (tt, refl)
is_digits_sound (c ∷ s) h = ground (arith, is_digits_sound s)

is_digits_complete : (s : Text) → All IsDigit s → (is_digits s ≡ true) × (byte_len s ≡ length s)
unfolding is_digits byte_len
is_digits_complete [] h = (refl, refl)
is_digits_complete (c ∷ s) h = ground (arith, is_digits_complete s)

both : (s n : Text) → six_digits s ≡ some n → (nat_beq (byte_len s) 6 ≡ true) × (is_digits s ≡ true)
both s n h = ground arith

same : (s n : Text) → six_digits s ≡ some n → s ≡ n
same s n h = ground arith

six_digits_sound : (s n : Text) → six_digits s ≡ some n → IsCode s × (s ≡ n)
six_digits_sound s n h =
    let (ok, digits) = both s n h in
    let (all_digits, counted) = is_digits_sound s digits in
    (
      record { digits = all_digits; six = omega (arith, (nat_beq_iff (byte_len s) 6).0 ok) },
      same s n h,
    )

six_digits_complete : (s : Text) → IsCode s → six_digits s ≡ some s
six_digits_complete s c =
    let (digits, counted) = is_digits_complete s c.digits in
    let six : nat_beq (byte_len s) 6 ≡ true = (nat_beq_iff (byte_len s) 6).1 (counted ∙ c.six) in
    rw (six, digits) refl

trimmed_sound : (t n : Text) → normalize_trimmed t ≡ some n → IsCode n × ((t ≡ n) ⊎ (t ≡ b'A' ∷ n))
trimmed_sound [] n h = cc
trimmed_sound (c ∷ s) n h = elim (Bool-cases (nat_beq c b'A')) [
  | inl prefixed ↦
      let (code, same) = six_digits_sound s n (rw prefixed at h) in
      (subst IsCode same code, inr (ground (arith, nat_beq_iff c b'A')))
  | inr plain ↦
      let (code, same) = six_digits_sound (c ∷ s) n (rw plain at h) in
      (subst IsCode same code, inl same)
]

plain_code : (n : Text) → IsCode n → normalize_trimmed n ≡ some n
plain_code [] code = absurd (omega (arith, code.six))
plain_code (c ∷ s) code =
    let no_prefix : nat_beq c b'A' ≡ false = ground (arith, code.digits) in
    rw no_prefix (six_digits_complete (c ∷ s) code)

trimmed_complete : (t n : Text) → IsCode n → (t ≡ n) ⊎ (t ≡ b'A' ∷ n) → normalize_trimmed t ≡ some n
trimmed_complete t n code (inl e) = rw e (plain_code n code)
trimmed_complete t n code (inr e) = rw e (six_digits_complete n code)

-- A code is normal just if it is six digits; a text has it as its normal form just if that is what stands
-- between the text's spaces, with an `A` before it or not.
pub normalize_iff :
    (code n : Text)
    → (normalize_ws_issue_code code ≡ some n)
      ↔ (IsCode n × ((trim_space code ≡ n) ⊎ (trim_space code ≡ b'A' ∷ n)))
unfolding normalize_ws_issue_code
normalize_iff code n =
    (trimmed_sound (trim_space code) n, λ (c, e). trimmed_complete (trim_space code) n c e)

digit_no_space : (c : ℕ) → IsDigit c → is_space c ≡ false
unfolding is_space
digit_no_space c h = ground arith

trim_left_digits : (s : Text) → All IsDigit s → trim_left s ≡ s
unfolding trim_left
trim_left_digits [] h = refl
trim_left_digits (c ∷ s) (d, ds) = rw (digit_no_space c d) refl

trim_right_digits : (s : Text) → All IsDigit s → trim_right s ≡ s
unfolding trim_right
trim_right_digits [] h = refl
trim_right_digits (c ∷ []) (d, ds) = rw (digit_no_space c d) refl
trim_right_digits (c ∷ d ∷ s) (h, hs) = rw (trim_right_digits (d ∷ s) hs) refl

pub trim_space_digits : (s : Text) → All IsDigit s → trim_space s ≡ s
unfolding trim_space
trim_space_digits s h = rw (trim_left_digits s h) (trim_right_digits s h)

-- A normal form is its own normal form: the client and the service each normalise a code.
pub normalize_again :
    (code n : Text) → normalize_ws_issue_code code ≡ some n → normalize_ws_issue_code n ≡ some n
normalize_again code n h =
    let (c, _) = (normalize_iff code n).0 h in
    (normalize_iff n n).1 (c, inl (trim_space_digits n c.digits))

resolved :
    (account registers : Bool)
    → resolve_tr_type (scope_of account) (action_of registers) ≡ inr (call_type account registers)
unfolding resolve_tr_type
resolved true true = refl
resolved true false = refl
resolved false true = refl
resolved false false = refl

plain_scope : (account : Bool) → NonEmpty (scope_of account) × Lacks colon (scope_of account)
plain_scope true = omega arith
plain_scope false = omega arith

encoded :
    (account registers : Bool) (key : Text) (token : ℕ)
    → encode_write (some (inr token)) (action_of registers) key
      ≡ encode_route (inr token) (action_of registers) (parse_transport_key key)
unfolding encode_write
encoded account true key token = refl
encoded account false key token = refl

-- A call for market data or for an account, that registers or unregisters a route with a code that has no colon,
-- is written, at once or in a replay, as the frame with the call's action code and the route's code and key.
pub encode_write-build :
    (account registers : Bool) (tr_code tr_key : Text) (token : ℕ)
    → NonEmpty tr_code
    → NonEmpty tr_key
    → Lacks colon tr_code
    → encode_write
        (some (inr token))
        (action_of registers)
        (build_transport_key (scope_of account) tr_code tr_key)
      ≡ inr (text_frame token (call_type account registers) tr_code tr_key)
encode_write-build account registers tr_code tr_key token code_there key_there plain =
    let (scope_there, scope_plain) = plain_scope account in
    let route : RouteKey = record {
      scope = scope_of account;
      tr_code = tr_code;
      tr_key = tr_key;
    } in
    encoded account registers (print route) token
    ∙ ap (encode_route (inr token) (action_of registers)) (
        parse-print route (record {
          scope_there = scope_there;
          code_there = code_there;
          key_there = key_there;
          scope_plain = scope_plain;
          code_plain = plain;
        }))
    ∙ ap (framed (inr token) route) (resolved account registers)
