-- ===== src/Base/Text.antt =====
-- C strings: the bytes before the terminating zero, as a list of numbers.
use Prim.Native.Char.{code}
use Prim.Native.String.{String}
use learn_apue.Base.{
  ℕ, Bool, true, false, ◌&&◌, List, [], ◌∷◌, ◌++◌, Option, none, some, ◌≡◌, refl, ◌↔◌, Bool-cases,
  inl, inr, arith, ◌==◌, if◌then◌else◌,
}

abbrev pub Bytes : Type 0
Bytes = List ℕ

codes : String → Bytes
codes String.[] = []
codes (String.◌∷◌ c s) = code c ∷ codes s

-- A literal of the source. It stays folded until a proof asks for its bytes.
unfoldable pub text : String → Bytes
unfolding codes
text s = codes s

-- `strcmp(a, b) == 0`.
unfoldable pub str_eq : Bytes → Bytes → Bool
str_eq [] [] = true
str_eq (x ∷ a) (y ∷ b) = x == y && str_eq a b
str_eq _ _ = false

pub str_eq_iff : (a b : Bytes) → (str_eq a b ≡ true) ↔ (a ≡ b)
unfolding str_eq
str_eq_iff (x ∷ a) (y ∷ b) = ground (arith, str_eq_iff a b)
str_eq_iff _ _ = ground arith

pub str_eq_refl : (a : Bytes) → str_eq a a ≡ true
str_eq_refl a = (str_eq_iff a a).1 refl

-- Whether `s` begins with `pat`: `strncmp(s, pat, strlen(pat)) == 0`.
unfoldable pub starts_with : Bytes → Bytes → Bool
starts_with [] s = true
starts_with (p ∷ ps) [] = false
starts_with (p ∷ ps) (c ∷ cs) = p == c && starts_with ps cs

abbrev pub cons_first {ℓ} : {A : Type ℓ} → A → Option (List A × List A) → Option (List A × List A)
cons_first x none = none
cons_first x (some (a, b)) = some (x ∷ a, b)

-- `strstr(s, pat)`: what stands before the first occurrence, and the text from there on.
unfoldable pub strstr : Bytes → Bytes → Option (Bytes × Bytes)
unfolding starts_with
strstr pat [] = if starts_with pat [] then some ([], []) else none
strstr pat (c ∷ cs) =
    if starts_with pat (c ∷ cs) then some ([], c ∷ cs) else cons_first c (strstr pat cs)

-- The longest beginning with no byte that `stop` accepts, and the rest: the loops that stop at a
-- set of bytes, `strchr`, `strpbrk` and `memchr`.
unfoldable pub break_at : (ℕ → Bool) → Bytes → Bytes × Bytes
break_at stop [] = ([], [])
break_at stop (c ∷ cs) =
    let (a, b) = break_at stop cs in if stop c then ([], c ∷ cs) else (c ∷ a, b)

-- The C string that an array holds: its bytes before the first zero.
unfoldable pub c_string : Bytes → Bytes
unfolding break_at
c_string s = (break_at (λ c. c == 0) s).0

-- No byte of the text satisfies `stop`.
abbrev pub NoneOf : (ℕ → Bool) → Bytes → Type 0
NoneOf stop [] = Unit
NoneOf stop (c ∷ cs) = (stop c ≡ false) × NoneOf stop cs

pub break_at-append :
    (stop : ℕ → Bool) (a : Bytes) (c : ℕ) (b : Bytes)
    → NoneOf stop a
    → stop c ≡ true
    → break_at stop (a ++ c ∷ b) ≡ (a, c ∷ b)
unfolding break_at
break_at-append stop [] c b h k = rw k
break_at-append stop (x ∷ a) c b h k = rw (h.0, break_at-append stop a c b h.1 k)

pub break_at_all : (stop : ℕ → Bool) (a : Bytes) → NoneOf stop a → break_at stop a ≡ (a, [])
unfolding break_at
break_at_all stop [] h = refl
break_at_all stop (x ∷ a) h = rw (h.0, break_at_all stop a h.1)

pub starts_with-append : (p s : Bytes) → starts_with p (p ++ s) ≡ true
unfolding starts_with
starts_with-append [] s = refl
starts_with-append (x ∷ p) s = ground (arith, starts_with-append p s)

-- The first occurrence of a separator that begins with `c`, behind a text without `c`.
pub strstr-append :
    (c : ℕ) (pat a b : Bytes)
    → NoneOf (λ x. x == c) a
    → strstr (c ∷ pat) (a ++ ((c ∷ pat) ++ b)) ≡ some (a, c ∷ (pat ++ b))
unfolding strstr
strstr-append c pat [] b h = ground (arith, starts_with-append (c ∷ pat) b)
strstr-append c pat (x ∷ a) b h = ground (arith, strstr-append c pat a b)

pub NoneOf-append :
    (stop : ℕ → Bool) (a b : Bytes) → NoneOf stop a → NoneOf stop b → NoneOf stop (a ++ b)
NoneOf-append stop [] b h k = k
NoneOf-append stop (c ∷ a) b h k = (h.0, NoneOf-append stop a b h.1 k)

pub break_at-join : (stop : ℕ → Bool) (s : Bytes) → (break_at stop s).0 ++ (break_at stop s).1 ≡ s
unfolding break_at
break_at-join stop [] = refl
break_at-join stop (c ∷ s) = ground (arith, break_at-join stop s)

-- What is left begins with a byte that stops.
pub break_at_stops :
    (stop : ℕ → Bool) (s : Bytes) (c : ℕ) (rest : Bytes)
    → (break_at stop s).1 ≡ c ∷ rest
    → stop c ≡ true
unfolding break_at
break_at_stops stop [] c rest q = absurd (ground arith)
break_at_stops stop (d ∷ s) c rest q = elim (Bool-cases (stop d)) [
  | inl on ↦ ground arith
  | inr off ↦ break_at_stops stop s c rest (ground arith)
]
