-- ===== src/Execution/Ids.antt =====
-- src/execution/ids.py: identifiers of child orders, as lists of code points.
pub mod Unique
use interview_assignment.Base.{
  ℕ, zero, suc, ◌+◌, ◌-◌, ◌*◌, ◌/◌, ◌%◌, ◌≤◌, ◌<◌, String, ◌≡◌, refl, sym, ap, ◌∙◌, ◌≢◌, ◌↔◌, ◌⊎◌,
  inl, inr, Bool, true, false, ◌&&◌, ◌||◌, not, Option, none, some, List, [], ◌∷◌, ◌++◌, map, arith,
  ltb, leb, ◌==◌, if◌then◌else◌, ltb→lt, leb→le, ==_iff, Bool-cases, Option-cases, is_some,
  or_default, ℤ, pos, negsuc, Decimal, pos_part, neg_part, ◌+ℤ◌, ◌-ℤ◌, ◌*ℤ◌, ◌≤ℤ◌, ◌<ℤ◌, ltb_ℤ,
  leb_ℤ, eq_ℤ, int_laws, min_ℤ, max_ℤ, abs_ℤ, neg_ℤ, length, get_elem?, set, remove_at, any, All,
  Text, text_eq, text_eq_iff, text_eq_refl, Exception, ValidationKind, Result, ok, raised, Exec,
  pure, raise, lift, gets, modify, raise_if, ◌>>=◌, ◌>>◌, returns,
}

abbrev pub take : ℕ → Text → Text
take zero s = []
take (suc n) [] = []
take (suc n) (c ∷ s) = c ∷ take n s

unfoldable pub starts_with : Text → Text → Bool
starts_with [] s = true
starts_with (a ∷ p) [] = false
starts_with (a ∷ p) (c ∷ s) = a == c && starts_with p s

-- `s.replace(p, "")` for a non-empty `p`: `skip` characters of a match are still to be dropped.
unfoldable pub remove_all : Text → ℕ → Text → Text
unfolding starts_with
remove_all p skip [] = []
remove_all p (suc skip) (c ∷ s) = remove_all p skip s
remove_all p zero (c ∷ s) =
    let found = starts_with p (c ∷ s) in
    let rest = remove_all p (if found then length p - 1 else 0) s in
    if found then rest else c ∷ rest

-- The decimal digits of a number; its own value is fuel enough.
unfoldable pub digits_from : ℕ → ℕ → Text
digits_from zero n = []
digits_from (suc fuel) n =
    let front = digits_from fuel (n / 10) in
    if ltb n 10 then (b'0' + n) ∷ [] else front ++ (b'0' + n % 10) ∷ []

unfoldable pub decimal_digits : ℕ → Text
unfolding digits_from
decimal_digits n = digits_from (suc n) n

unfoldable pub pad_zeros : ℕ → Text → Text
pad_zeros zero s = s
pad_zeros (suc k) s = b'0' ∷ pad_zeros k s

-- "child_", "exec_", "ce_" and "_"
abbrev pub child_prefix : Text
child_prefix = b'c' ∷ b'h' ∷ b'i' ∷ b'l' ∷ b'd' ∷ b'_' ∷ []

abbrev pub exec_prefix : Text
exec_prefix = b'e' ∷ b'x' ∷ b'e' ∷ b'c' ∷ b'_' ∷ []

-- `f"child_{sequence:04d}"`
unfoldable pub child_order_id : ℕ → Text
unfolding decimal_digits pad_zeros
child_order_id sequence =
    let digits = decimal_digits sequence in child_prefix ++ pad_zeros (4 - length digits) digits

unfoldable pub make_client_order_prefix : Text → Text
unfolding remove_all
make_client_order_prefix execution_id =
    (b'c' ∷ b'e' ∷ b'_' ∷ take 12 (remove_all exec_prefix 0 execution_id)) ++ b'_' ∷ []

-- The characters of CLIENT_ORDER_ID_RE.
abbrev pub between : ℕ → ℕ → ℕ → Bool
between lo hi c = leb lo c && leb c hi

unfoldable pub is_id_char : ℕ → Bool
is_id_char c =
    c == b'.'
    || between b'A' b'Z' c
    || c == b':'
    || c == b'/'
    || between b'a' b'z' c
    || between b'0' b'9' c
    || c == b'_'
    || c == b'-'

unfoldable pub all_id_chars : Text → Bool
unfolding is_id_char
all_id_chars [] = true
all_id_chars (c ∷ s) = is_id_char c && all_id_chars s

unfoldable pub make_client_order_id : Text → ℕ → Result Text
make_client_order_id execution_id child_sequence =
    let value = make_client_order_prefix execution_id ++ decimal_digits child_sequence in
    if ltb 36 (length value) || not (all_id_chars value) || length value == 0
    then raised Exception.value_error
    else ok value
