-- ===== src/Prelude/Text.antt =====
-- Text that the program walks, as its list of code points.
use Prim.Native.Nat.{ℕ, zero, suc, ◌+◌, ◌/◌, ◌%◌, compare, Ordering}
use Prim.Native.Char.{char, code, IsLt}
use Prim.Native.String.{String}
use mathlib.Core.Path.{◌≡◌, refl}
use mathlib.Core.Logic.{◌↔◌, ◌≢◌, inl, inr}
use mathlib.Core.Bool.{Bool, true, false, ◌&&◌, ◌||◌}
use mathlib.Core.Option.{Option, none, some}
use mathlib.Core.List.{List, [], ◌∷◌, ◌++◌, map}
use native.Mathlib.Omega.{arith}
use friendzone.Prelude.Lists.{length, drop}
use friendzone.Prelude.Tests.{Option-cases, Eq, ◌==◌, nat_eq, leb, if◌then◌else◌}

abbrev pub Text : Type 0
Text = List ℕ

-- The code points of a literal. It is no `abbrev`: a literal stays one unknown in proofs.
unfoldable pub text : String → Text
text String.[] = []
text (String.◌∷◌ c s) = code c ∷ text s

abbrev BothLt : Ordering → Ordering → Type 0
BothLt Ordering.lt o = IsLt o
BothLt Ordering.eq _ = ⊥
BothLt Ordering.gt _ = ⊥

abbrev Scalar : Ordering → Ordering → Ordering → Type 0
Scalar Ordering.lt _ _ = Unit
Scalar Ordering.eq o p = BothLt o p
Scalar Ordering.gt o p = BothLt o p

is_below : (o p : Ordering) → Option (BothLt o p)
is_below Ordering.lt Ordering.lt = some tt
is_below Ordering.lt _ = none
is_below _ _ = none

is_scalar : (a b c : Ordering) → Option (Scalar a b c)
unfolding is_below
is_scalar Ordering.lt b c = some tt
is_scalar Ordering.eq b c = is_below b c
is_scalar Ordering.gt b c = is_below b c

-- The text as a `String`, whose characters all are Unicode Scalar values.
unfoldable pub string_of : Text → String
unfolding is_scalar is_below
string_of [] = String.[]
string_of (c ∷ s) =
    let rest = string_of s in
    elim (is_scalar (compare c 55296) (compare 57343 c) (compare c 1114112)) [
      | none ↦ rest
      | some h ↦ String.◌∷◌ (char c h) rest
    ]

unfoldable pub text_beq : Text → Text → Bool
text_beq [] [] = true
text_beq [] (d ∷ t) = false
text_beq (c ∷ s) [] = false
text_beq (c ∷ s) (d ∷ t) = c == d && text_beq s t

pub text_beq_iff : (s t : Text) → (text_beq s t ≡ true) ↔ (s ≡ t)
unfolding text_beq
text_beq_iff [] [] = (λ h. refl, λ h. refl)
text_beq_iff [] (d ∷ t) = (λ h. cc, λ h. cc)
text_beq_iff (c ∷ s) [] = (λ h. cc, λ h. cc)
text_beq_iff (c ∷ s) (d ∷ t) =
    (λ h. ground (arith, text_beq_iff s t), λ h. ground (arith, text_beq_iff s t))

instance abbrev pub text_eq : Eq Text
text_eq = record { beq = text_beq; beq_iff = text_beq_iff }

-- `s.len()`: the bytes of the UTF-8 form.
unfoldable pub len : Text → ℕ
len [] = 0
len (c ∷ s) =
    (if leb c 0x7f then 1 else if leb c 0x7ff then 2 else if leb c 0xffff then 3 else 4) + len s

-- The decimal digits of a number below 10 ^ fuel.
unfoldable pub decimal_digits : ℕ → ℕ → Text → Text
decimal_digits zero n rest = rest
decimal_digits (suc fuel) n rest =
    let more = decimal_digits fuel (n / 10) ((b'0' + n % 10) ∷ rest) in
    if leb n 9 then (b'0' + n) ∷ rest else more

-- `format!("{n}")` of a `u64`, which has at most 20 digits.
unfoldable pub decimal : ℕ → Text
unfolding decimal_digits
decimal n = decimal_digits 20 n []

unfoldable pub is_ascii_alphanumeric : ℕ → Bool
is_ascii_alphanumeric c =
    leb b'0' c && leb c b'9' || leb b'A' c && leb c b'Z' || leb b'a' c && leb c b'z'

unfoldable pub is_ascii_hexdigit : ℕ → Bool
is_ascii_hexdigit c =
    leb b'0' c && leb c b'9' || leb b'A' c && leb c b'F' || leb b'a' c && leb c b'f'

unfoldable pub is_empty : Text → Bool
is_empty [] = true
is_empty (c ∷ s) = false

-- `s.strip_prefix(p)`: the rest, if `s` starts with `p`.
unfoldable pub strip_prefix : Text → Text → Option Text
strip_prefix [] s = some s
strip_prefix (c ∷ p) [] = none
strip_prefix (c ∷ p) (d ∷ s) = let rest = strip_prefix p s in if c == d then rest else none

unfoldable pub starts_with : Text → Text → Bool
starts_with [] s = true
starts_with (c ∷ p) [] = false
starts_with (c ∷ p) (d ∷ s) = c == d && starts_with p s

-- `s.ends_with(t)`: `t` is `s`, or ends the rest of `s`.
unfoldable pub ends_with : Text → Text → Bool
ends_with t [] = text_beq t []
ends_with t (c ∷ s) = text_beq t (c ∷ s) || ends_with t s

-- `s.split_once(c)`: before and after the first `c`.
unfoldable pub split_once : ℕ → Text → Option (Text × Text)
split_once c [] = none
split_once c (d ∷ s) =
    let rest = split_once c s in
    if c == d
    then some ([], s)
    else elim rest [ none ↦ none | some (before, after) ↦ some (d ∷ before, after) ]

unfoldable pub to_ascii_lower : ℕ → ℕ
to_ascii_lower c = if leb b'A' c && leb c b'Z' then c + 32 else c

unfoldable pub to_ascii_lowercase : Text → Text
unfolding to_ascii_lower
to_ascii_lowercase = map to_ascii_lower

unfoldable pub eq_ignore_ascii_case : Text → Text → Bool
eq_ignore_ascii_case s t = text_beq (to_ascii_lowercase s) (to_ascii_lowercase t)

-- `s.strip_prefix(p)` returns exactly what `p` leaves of `s`.
pub strip_prefix-eq-some : (p s : Text) {r : Text} → strip_prefix p s ≡ some r → s ≡ p ++ r
unfolding strip_prefix
strip_prefix-eq-some [] s h = ground arith
strip_prefix-eq-some (c ∷ p) [] h = cc
strip_prefix-eq-some (c ∷ p) (d ∷ s) {r} h = ground (arith, strip_prefix-eq-some p s {r = r})

pub strip_prefix-append : (p r : Text) → strip_prefix p (p ++ r) ≡ some r
unfolding strip_prefix
strip_prefix-append [] r = refl
strip_prefix-append (c ∷ p) r = ground (arith, strip_prefix-append p r)

abbrev pub NoChar : ℕ → Text → Type 0
NoChar c [] = Unit
NoChar c (d ∷ s) = (d ≢ c) × NoChar c s

-- `split_once` cuts at the first `c`.
pub split_once-eq-some :
    (c : ℕ) (s : Text) {a b : Text} → split_once c s ≡ some (a, b) → NoChar c a × (s ≡ a ++ c ∷ b)
unfolding split_once
split_once-eq-some c [] h = cc
split_once-eq-some c (d ∷ s) h = elim (Option-cases (split_once c s)) [
  | inl e ↦ ground arith
  | inr (q, e) ↦ ground (arith, split_once-eq-some c s {a = q.0} {b = q.1} e)
]

pub split_once-append : (c : ℕ) (a b : Text) → NoChar c a → split_once c (a ++ c ∷ b) ≡ some (a, b)
unfolding split_once
split_once-append c [] b h = ground arith
split_once-append c (d ∷ a) b h = ground (arith, split_once-append c a b h.1)

pub starts_with-append : (p r : Text) → starts_with p (p ++ r) ≡ true
unfolding starts_with
starts_with-append [] r = refl
starts_with-append (c ∷ p) r = ground (arith, starts_with-append p r)

pub drop-append : (p r : Text) → drop (length p) (p ++ r) ≡ r
drop-append [] r = refl
drop-append (c ∷ p) r = drop-append p r

pub text_beq_self : (s : Text) → text_beq s s ≡ true
text_beq_self s = (text_beq_iff s s).1 refl
