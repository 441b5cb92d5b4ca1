-- ===== src/Progress/Numbers/Accepts.antt =====
-- Which texts progress_parser.c takes for a number of 64 bits.
use mathlib.Core.Path.{subst}
use learn_apue.Base.{
  ℕ, ◌+◌, ◌-◌, ◌*◌, ◌%◌, ◌^◌, ◌<◌, ◌≤◌, Bool, true, false, [], ◌∷◌, ◌++◌, some, ◌≡◌, ◌≢◌, ◌⊎◌, ◌↔◌,
  refl, sym, ap, ◌∙◌, arith, ◌==◌, Bool-cases, Option-cases, inl, inr,
}
use learn_apue.Base.Text.{Bytes}
use learn_apue.Progress.Numbers.RoundTrip.{Digits, value_from, read_digits-Digits}
use learn_apue.Progress.Numbers.{
  is_space, is_digit, skip_spaces, read_digits, read_sign, whole_number, read_number, u64_of,
  in_u64, parse_u64,
}

-- No sign, or one.
pub data Sign : Type 0 where
  unsigned plus minus : Sign

abbrev pub sign_text : Sign → Bytes
sign_text unsigned = []
sign_text plus = b'+' ∷ []
sign_text minus = b'-' ∷ []

abbrev pub Blanks : Bytes → Type 0
Blanks [] = Unit
Blanks (c ∷ cs) = ((c ≡ 32) ⊎ ((9 ≤ c) × (c ≤ 13))) × Blanks cs

abbrev pub DecimalDigits : Bytes → Type 0
DecimalDigits [] = Unit
DecimalDigits (c ∷ cs) = (b'0' ≤ c) × (c ≤ b'9') × DecimalDigits cs

-- A number behind a minus sign stands for its negation modulo 2^64.
abbrev pub Stands : Sign → ℕ → ℕ → Type 0
Stands minus magnitude v = (v + magnitude) % 2 ^ 64 ≡ 0
Stands unsigned magnitude v = v ≡ magnitude
Stands plus magnitude v = v ≡ magnitude

-- A decimal number of 64 bits, as `strtoull` documents it, and nothing behind it.
pub record IsU64 (s : Bytes) (v : ℕ) : Type 0 where
  pub blanks : Bytes
  pub sign : Sign
  pub digits : Bytes
  pub text_eq : s ≡ blanks ++ (sign_text sign ++ digits)
  pub blanks-Blanks : Blanks blanks
  pub digits-DecimalDigits : DecimalDigits digits
  pub some_digit : digits ≢ []
  pub magnitude_fits : value_from 0 digits < 2 ^ 64
  pub in_range : v < 2 ^ 64
  pub stands : Stands sign (value_from 0 digits) v

Digits-iff : (s : Bytes) → Digits s ↔ DecimalDigits s
Digits-iff [] = ((λ h. h), (λ h. h))
Digits-iff (c ∷ cs) =
    let (to, from) = Digits-iff cs in
    (
      (λ h. (ground (arith, h.0), ground (arith, h.0), to h.1)),
      (λ h. (ground (arith, h.0, h.1), from h.2)),
    )

-- What `read_number` answers for the parts of such a text.
abbrev pub negative : Sign → Bool
negative minus = true
negative unsigned = false
negative plus = false

skip_spaces-Blanks :
    (blanks rest : Bytes) → Blanks blanks → skip_spaces (blanks ++ rest) ≡ skip_spaces rest
unfolding skip_spaces
skip_spaces-Blanks [] rest h = refl
skip_spaces-Blanks (c ∷ blanks) rest h = ground (arith, h.0, skip_spaces-Blanks blanks rest h.1)

whole_number-Digits :
    (b : Bool) (digits : Bytes)
    → Digits digits
    → digits ≢ []
    → whole_number b digits ≡ some (b, value_from 0 digits)
whole_number-Digits b [] h k = absurd (k refl)
whole_number-Digits b (c ∷ cs) h k = ground (arith, h.0, read_digits-Digits 0 (c ∷ cs) h)

read_sign-Digits :
    (sign : Sign) (digits : Bytes)
    → Digits digits
    → digits ≢ []
    → (skip_spaces (sign_text sign ++ digits) ≡ sign_text sign ++ digits)
      × (read_sign (sign_text sign ++ digits) ≡ (negative sign, digits))
unfolding skip_spaces
read_sign-Digits unsigned [] h k = absurd (k refl)
read_sign-Digits unsigned (c ∷ cs) h k = ground (arith, h.0)
read_sign-Digits plus digits h k = (refl, refl)
read_sign-Digits minus digits h k = (refl, refl)

read_number-parts :
    (blanks digits : Bytes) (sign : Sign)
    → Blanks blanks
    → Digits digits
    → digits ≢ []
    → read_number (blanks ++ (sign_text sign ++ digits)) ≡ some (negative sign, value_from 0 digits)
unfolding read_number
read_number-parts blanks digits sign h d k =
    let (first, parts) = read_sign-Digits sign digits d k in
    rw (skip_spaces-Blanks blanks (sign_text sign ++ digits) h, first, parts)
      (whole_number-Digits (negative sign) digits d k)

Stands-u64_of :
    (sign : Sign) (magnitude v : ℕ)
    → magnitude < 2 ^ 64
    → v < 2 ^ 64
    → Stands sign magnitude v
    → u64_of (negative sign) magnitude ≡ v
Stands-u64_of unsigned magnitude v h k e = omega arith
Stands-u64_of plus magnitude v h k e = omega arith
Stands-u64_of minus magnitude v h k e = omega arith

u64_of-Stands :
    (sign : Sign) (magnitude : ℕ)
    → magnitude < 2 ^ 64
    → (u64_of (negative sign) magnitude < 2 ^ 64)
      × Stands sign magnitude (u64_of (negative sign) magnitude)
u64_of-Stands unsigned magnitude h = (h, refl)
u64_of-Stands plus magnitude h = (h, refl)
u64_of-Stands minus magnitude h = omega arith

-- Reading takes a text apart.
split_spaces : (s : Bytes) → (blanks : Bytes) × (s ≡ blanks ++ skip_spaces s) × Blanks blanks
unfolding skip_spaces
split_spaces [] = ([], refl, tt)
split_spaces (c ∷ cs) = elim (Bool-cases (is_space c)) [
  | inr off ↦ rw off ([], refl, tt)
  | inl on ↦
      let (blanks, e, h) = split_spaces cs in
      rw on (c ∷ blanks, ap (λ t. c ∷ t) e, (ground arith, h))
]

split_sign :
    (s : Bytes)
    → (sign : Sign) × (s ≡ sign_text sign ++ (read_sign s).1) × ((read_sign s).0 ≡ negative sign)
split_sign [] = (unsigned, refl, refl)
split_sign (c ∷ cs) = elim (Bool-cases (c == b'-')) [
  | inl on ↦ rw on (minus, ground arith, refl)
  | inr off ↦ elim (Bool-cases (c == b'+')) [
    | inl on ↦ rw (off, on) (plus, ground arith, refl)
    | inr off' ↦ rw (off, off') (unsigned, refl, refl)
  ]
]

read_digits-all :
    (n : ℕ) (s : Bytes)
    → (read_digits n s).1 ≡ []
    → Digits s × ((read_digits n s).0 ≡ value_from n s)
unfolding read_digits
read_digits-all n [] h = (tt, refl)
read_digits-all n (c ∷ s) h = elim (Bool-cases (is_digit c)) [
  | inl on ↦ let (d, e) = read_digits-all (n * 10 + (c - 48)) s (rw on at h) in rw on ((refl, d), e)
  | inr off ↦ absurd (ground arith)
]

nil_or_cons : (s : Bytes) → (s ≡ []) ⊎ ((c : ℕ) × (cs : Bytes) × (s ≡ c ∷ cs))
nil_or_cons [] = inl refl
nil_or_cons (c ∷ cs) = inr (c, cs, refl)

whole_number-all :
    (b : Bool) (s : Bytes) {b' : Bool} {n : ℕ}
    → whole_number b s ≡ some (b', n)
    → (b ≡ b') × Digits s × (s ≢ []) × (value_from 0 s ≡ n)
whole_number-all b [] q = absurd (ground arith)
whole_number-all b (c ∷ cs) q = elim (Bool-cases (is_digit c)) [
  | inr off ↦ absurd (ground arith)
  | inl on ↦ elim (nil_or_cons (read_digits 0 (c ∷ cs)).1) [
    | inl e ↦
        let (d, v) = read_digits-all 0 (c ∷ cs) e in
        (ground (arith, e), d, (λ h. cc), ground (arith, e, v))
    | inr (x, xs, e) ↦ absurd (ground (arith, e))
  ]
]

read_number_takes :
    (s : Bytes) {b : Bool} {n : ℕ}
    → read_number s ≡ some (b, n)
    → (blanks : Bytes) × (sign : Sign) × (digits : Bytes) × (s
        ≡ blanks ++ (sign_text sign ++ digits))
      × Blanks blanks
      × Digits digits
      × (digits ≢ [])
      × (negative sign ≡ b)
      × (value_from 0 digits ≡ n)
unfolding read_number
read_number_takes s q =
    let (blanks, e, h) = split_spaces s in
    let (sign, e', n) = split_sign (skip_spaces s) in
    let (same, d, k, v) =
      whole_number-all (read_sign (skip_spaces s)).0 (read_sign (skip_spaces s)).1 q in
    (
      blanks,
      sign,
      (read_sign (skip_spaces s)).1,
      e ∙ ap (λ t. blanks ++ t) e',
      h,
      d,
      k,
      sym n ∙ same,
      v,
    )

parse_u64_takes : (s : Bytes) (v : ℕ) → parse_u64 s ≡ some v → IsU64 s v
unfolding parse_u64
parse_u64_takes s v q = elim (Option-cases (read_number s)) [
  | inl nothing ↦ absurd (ground arith)
  | inr ((b, n), e) ↦
      let (blanks, sign, digits, whole, h, d, k, sign_eq, value) = read_number_takes s e in
      let fits : value_from 0 digits < 2 ^ 64 = ground (arith, e, q, value) in
      let same : u64_of (negative sign) (value_from 0 digits) ≡ v =
        ground (arith, e, q, value, sign_eq) in
      let (in_range, stands) = u64_of-Stands sign (value_from 0 digits) fits in
      record {
        blanks = blanks;
        sign = sign;
        digits = digits;
        text_eq = whole;
        blanks-Blanks = h;
        digits-DecimalDigits = (Digits-iff digits).0 d;
        some_digit = k;
        magnitude_fits = fits;
        in_range = subst (λ x. x < 2 ^ 64) same in_range;
        stands = subst (Stands sign (value_from 0 digits)) same stands;
      }
]

parse_u64_gives : (s : Bytes) (v : ℕ) → IsU64 s v → parse_u64 s ≡ some v
unfolding parse_u64
parse_u64_gives s v h =
    let read =
      read_number-parts h.blanks h.digits h.sign h.blanks-Blanks
        ((Digits-iff h.digits).1 h.digits-DecimalDigits) h.some_digit in
    let value =
      Stands-u64_of h.sign (value_from 0 h.digits) v h.magnitude_fits h.in_range h.stands in
    ap (λ t. in_u64 (read_number t)) h.text_eq
    ∙ ap in_u64 read
    ∙ ground (arith, value, h.magnitude_fits)

-- A text is read as the number exactly when it is one of 64 bits and nothing more: blanks, at most one
-- sign, and decimal digits, at least one, whose value is below 2^64, with nothing behind them. The number is
-- that value, or behind a minus sign its negation modulo 2^64.
pub parse_u64_iff : (s : Bytes) (v : ℕ) → (parse_u64 s ≡ some v) ↔ IsU64 s v
parse_u64_iff s v = (parse_u64_takes s v, parse_u64_gives s v)
