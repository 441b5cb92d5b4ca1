-- ===== src/Base/Search.antt =====
-- What `strstr` of the C library finds.
use mathlib.Core.Path.{subst}
use learn_apue.Base.{
  ℕ, Bool, is_some, ap, ◌≤◌, length, true, false, [], ◌∷◌, ◌++◌, none, some, drop, ◌≡◌, ◌≢◌, refl,
  arith, Bool-cases, Option-cases, inl, inr,
}
use learn_apue.Base.Text.{Bytes, strstr, starts_with, NoneOf}

-- `s` begins with `pat`: what follows it.
pub starts_with-split : (pat s : Bytes) → starts_with pat s ≡ true → s ≡ pat ++ drop (length pat) s
unfolding starts_with
starts_with-split [] s h = refl
starts_with-split (p ∷ pat) [] h = absurd (ground arith)
starts_with-split (p ∷ pat) (c ∷ s) h = ground (arith, starts_with-split pat s)

-- A text begins with what a beginning of it begins with.
starts_with-longer :
    (pat a b : Bytes) → starts_with pat (a ++ b) ≡ false → starts_with pat a ≡ false
unfolding starts_with
starts_with-longer [] a b h = h
starts_with-longer (p ∷ pat) [] b h = refl
starts_with-longer (p ∷ pat) (c ∷ a) b h = ground (arith, starts_with-longer pat a b)

-- What `strstr` finds: the text is split there, and the part before holds no occurrence.
pub record IsFound (pat s before found : Bytes) : Type 0 where
  pub whole : s ≡ before ++ found
  pub begins : starts_with pat found ≡ true
  pub none_before : pat ≢ [] → strstr pat before ≡ none

strstr_nil : (pat : Bytes) → pat ≢ [] → strstr pat [] ≡ none
unfolding strstr starts_with
strstr_nil [] h = absurd (h refl)
strstr_nil (p ∷ pat) h = refl

strstr_cons :
    (pat : Bytes) (c : ℕ) (s : Bytes)
    → starts_with pat (c ∷ s) ≡ false
    → strstr pat s ≡ none
    → strstr pat (c ∷ s) ≡ none
unfolding strstr
strstr_cons pat c s h k = rw (h, k) refl

pub strstr-IsFound :
    (pat s : Bytes) {before found : Bytes}
    → strstr pat s ≡ some (before, found)
    → IsFound pat s before found
unfolding strstr
strstr-IsFound pat [] {before} {found} q = elim (Bool-cases (starts_with pat [])) [
  | inr off ↦ absurd (ground arith)
  | inl on ↦
      let (b, f) : ([] ≡ before) × ([] ≡ found) = ground arith in
      record {
        whole = ground arith;
        begins = subst (λ t. starts_with pat t ≡ true) f on;
        none_before = λ n. subst (λ t. strstr pat t ≡ none) b (strstr_nil pat n);
      }
]
strstr-IsFound pat (c ∷ s) {before} {found} q = elim (Bool-cases (starts_with pat (c ∷ s))) [
  | inl on ↦
      let (b, f) : ([] ≡ before) × (c ∷ s ≡ found) = ground arith in
      record {
        whole = ground arith;
        begins = subst (λ t. starts_with pat t ≡ true) f on;
        none_before = λ n. subst (λ t. strstr pat t ≡ none) b (strstr_nil pat n);
      }
  | inr off ↦ elim (Option-cases (strstr pat s)) [
    | inl none_here ↦ absurd (ground arith)
    | inr ((b', f'), q') ↦
        let rest = strstr-IsFound pat s q' in
        let (b, f) : (c ∷ b' ≡ before) × (f' ≡ found) = ground arith in
        let off' : starts_with pat ((c ∷ b') ++ f') ≡ false =
          subst (λ t. starts_with pat (c ∷ t) ≡ false) rest.whole off in
        record {
          whole = ground (arith, rest.whole);
          begins = subst (λ t. starts_with pat t ≡ true) f rest.begins;
          none_before = λ n.
              subst (λ t. strstr pat t ≡ none) b
                (strstr_cons pat c b' (starts_with-longer pat (c ∷ b') f' off')
                  (rest.none_before n));
        }
  ]
]

pub NoneOf-prefix : (stop : ℕ → Bool) (a b : Bytes) → NoneOf stop (a ++ b) → NoneOf stop a
NoneOf-prefix stop [] b h = tt
NoneOf-prefix stop (c ∷ a) b h = (h.0, NoneOf-prefix stop a b h.1)

-- A text begins with what it begins with, if that lies within a beginning of it.
starts_with_within :
    (pat a b : Bytes) → length pat ≤ length a → starts_with pat (a ++ b) ≡ starts_with pat a
unfolding starts_with
starts_with_within [] a b h = refl
starts_with_within (p ∷ pat) [] b h = absurd (omega arith)
starts_with_within (p ∷ pat) (c ∷ a) b h = ground (arith, starts_with_within pat a b)

starts_with-le : (pat s : Bytes) → starts_with pat s ≡ true → length pat ≤ length s
unfolding starts_with
starts_with-le [] s h = omega arith
starts_with-le (p ∷ pat) [] h = absurd (ground arith)
starts_with-le (p ∷ pat) (c ∷ s) h = ground (arith, starts_with-le pat s)

strstr-le : (pat s : Bytes) → is_some (strstr pat s) ≡ true → length pat ≤ length s
unfolding strstr
strstr-le pat [] h = ground (arith, starts_with-le pat [])
strstr-le pat (c ∷ s) h = ground (arith, starts_with-le pat (c ∷ s), strstr-le pat s)

-- What is found stays the first occurrence when more text follows.
pub strstr_extend :
    (p : ℕ) (pat g later : Bytes) {before found : Bytes}
    → strstr (p ∷ pat) g ≡ some (before, found)
    → strstr (p ∷ pat) (g ++ later) ≡ some (before, found ++ later)
unfolding strstr
strstr_extend p pat [] later q = absurd (ground (arith, starts_with-le (p ∷ pat) []))
strstr_extend p pat (c ∷ g) later q = elim (Option-cases (strstr (p ∷ pat) g)) [
  | inl nothing ↦
      ground (arith, starts_with-le (p ∷ pat) (c ∷ g), starts_with_within (p ∷ pat) (c ∷ g) later)
  | inr ((b, f), e) ↦
      let fits : length (p ∷ pat) ≤ length (c ∷ g) =
        ground (arith, strstr-le (p ∷ pat) g (ap (λ o. is_some o) e)) in
      ground (arith, starts_with_within (p ∷ pat) (c ∷ g) later fits, strstr_extend p pat g later e)
]

pub starts_with_shorter : (p q s : Bytes) → starts_with (p ++ q) s ≡ true → starts_with p s ≡ true
unfolding starts_with
starts_with_shorter [] q s h = refl
starts_with_shorter (a ∷ p) q [] h = h
starts_with_shorter (a ∷ p) q (c ∷ s) h = ground (arith, starts_with_shorter p q s)
