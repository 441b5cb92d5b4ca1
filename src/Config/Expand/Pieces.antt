-- ===== src/Config/Expand/Pieces.antt =====
-- The meaning of `gw_expand_environment` of config.c, independent of its scan: a text is a list of
-- literal bytes and references, and its value puts each reference's variable in its place.
use learn_apue.Base.{
  ℕ, ◌+◌, ◌<◌, Bool, true, false, List, [], ◌∷◌, ◌++◌, Option, none, some, length, length-append,
  ◌≡◌, refl, ap, ◌∙◌, arith, Bool-cases, Option-cases, inl, inr,
}
use learn_apue.Base.Text.{Bytes, break_at, break_at-append, NoneOf}
use learn_apue.Status.{GwError}
use learn_apue.Config.Expand.{expanded, halt, go, scan, opens, closes, env_name_cap, reference}

pub data Piece : Type 0 where
  literal : ℕ → Piece
  variable : Bytes → Piece

abbrev pub source_of : Piece → Bytes → Bytes
source_of (literal c) rest = c ∷ rest
source_of (variable name) rest = b'$' ∷ b'{' ∷ (name ++ b'}' ∷ rest)

-- the text that the pieces were read from
abbrev pub source : List Piece → Bytes
source [] = []
source (p ∷ ps) = source_of p (source ps)

-- A piece that stands before `rest`: a literal does not open a reference there, and a name is not
-- empty, holds no `}` and fits its buffer.
abbrev pub IsPiece : Piece → Bytes → Type 0
IsPiece (literal c) rest = opens c rest ≡ false
IsPiece (variable name) rest = NoneOf closes name × (0 < length name) × (length name < env_name_cap)

abbrev pub ArePieces : List Piece → Type 0
ArePieces [] = Unit
ArePieces (p ∷ ps) = IsPiece p (source ps) × ArePieces ps

abbrev pub value_of : (Bytes → Option Bytes) → Piece → Option Bytes
value_of getenv (literal c) = some (c ∷ [])
value_of getenv (variable name) = getenv name

abbrev pub join : Option Bytes → Option Bytes → Option Bytes
join (some a) (some b) = some (a ++ b)
join _ _ = none

-- The value of a text, if every variable that it names is set.
abbrev pub value : (Bytes → Option Bytes) → List Piece → Option Bytes
value getenv [] = some []
value getenv (p ∷ ps) = join (value_of getenv p) (value getenv ps)

break_at-split :
    (stop : ℕ → Bool) (s : Bytes)
    → (s ≡ (break_at stop s).0 ++ (break_at stop s).1) × NoneOf stop (break_at stop s).0
unfolding break_at
break_at-split stop [] = (refl, tt)
break_at-split stop (c ∷ s) = ground (arith, break_at-split stop s)

break_at-head :
    (stop : ℕ → Bool) (s : Bytes) {c : ℕ} {t : Bytes} → (break_at stop s).1 ≡ c ∷ t → stop c ≡ true
unfolding break_at
break_at-head stop [] h = cc
break_at-head stop (x ∷ s) {c = c} {t = t} h = ground (arith, break_at-head stop s {c = c} {t = t})

closes_iff : (c : ℕ) → closes c ≡ true → c ≡ b'}'
closes_iff c h = ground arith

split_found :
    (cs : Bytes) (b : ℕ) (rest : Bytes)
    → (break_at closes cs).1 ≡ b ∷ rest
    → cs ≡ (break_at closes cs).0 ++ b'}' ∷ rest
split_found cs b rest h =
    let brace : b ≡ b'}' = closes_iff b (break_at-head closes cs h) in
    (break_at-split closes cs).0 ∙ cc (h, brace)

module _ (getenv : Bytes → Option Bytes) (input : Bytes) (size : ℕ) (error : Option GwError) where
  -- One step that goes on has read one piece, and written its value within the buffer.
  pub record Reads (rest out rest' out' : Bytes) : Type 0 where
    pub piece : Piece
    pub wrote : Bytes
    pub from : rest ≡ source_of piece rest'
    pub fits : IsPiece piece rest'
    pub means : value_of getenv piece ≡ some wrote
    pub into : out' ≡ out ++ wrote
    pub within : length out + length wrote < size

  -- What a reference that goes on has found.
  record Found (name close out rest' out' : Bytes) : Type 0 where
    brace : ℕ
    wrote : Bytes
    closed : close ≡ brace ∷ rest'
    set_to : getenv name ≡ some wrote
    named : 0 < length name
    short : length name < env_name_cap
    into : out' ≡ out ++ wrote
    within : length out + length wrote < size

  reference-Found :
      (name close out rest' out' : Bytes)
      → reference getenv input size error name close out ≡ go rest' out'
      → Found name close out rest' out'
  unfolding scan
  reference-Found name [] out rest' out' h = cc
  reference-Found [] (b ∷ rest) out rest' out' h = cc
  reference-Found (c ∷ name) (b ∷ rest) out rest' out' h = elim (Option-cases (getenv (c ∷ name))) [
    | inl e ↦ absurd (ground arith)
    | inr (w, e) ↦ record {
      brace = b;
      wrote = w;
      closed = ground arith;
      set_to = e;
      named = omega arith;
      short = ground arith;
      into = ground arith;
      within = ground arith;
    }
  ]

  Reads-variable :
      (cs out rest' out' : Bytes)
      → Found (break_at closes cs).0 (break_at closes cs).1 out rest' out'
      → Reads (b'$' ∷ b'{' ∷ cs) out rest' out'
  Reads-variable cs out rest' out' f = record {
    piece = variable (break_at closes cs).0;
    wrote = f.wrote;
    from = ap (λ t. b'$' ∷ b'{' ∷ t) (split_found cs f.brace rest' f.closed);
    fits = ((break_at-split closes cs).1, f.named, f.short);
    means = f.set_to;
    into = f.into;
    within = f.within;
  }

  pub scan-Reads :
      (rest out rest' out' : Bytes)
      → scan getenv input size error rest out ≡ go rest' out'
      → Reads rest out rest' out'
  unfolding scan
  scan-Reads [] out rest' out' h = cc
  scan-Reads (c ∷ []) out rest' out' h = record {
    piece = literal c;
    wrote = c ∷ [];
    from = ground arith;
    fits = ground arith;
    means = refl;
    into = ground arith;
    within = ground arith;
  }
  scan-Reads (c ∷ d ∷ cs) out rest' out' h = elim (Bool-cases (opens c (d ∷ cs))) [
    | inl o ↦
        let dollar : c ≡ b'$' = ground arith in
        let brace : d ≡ b'{' = ground arith in
        rw (dollar, brace)
          (Reads-variable cs out rest' out' (
            reference-Found (break_at closes cs).0 (break_at closes cs).1 out rest' out'
              (ground arith)))
    | inr o ↦ record {
      piece = literal c;
      wrote = c ∷ [];
      from = ground arith;
      fits = ground arith;
      means = refl;
      into = ground arith;
      within = ground arith;
    }
  ]

  pub scan_end :
      (rest out : Bytes) {v : Bytes}
      → scan getenv input size error rest out ≡ halt (expanded v)
      → (rest ≡ []) × (v ≡ out)
  unfolding scan
  scan_end [] out h = ground arith
  scan_end (c ∷ cs) out h = ground arith

  pub scan-source_of :
      (p : Piece) (rest out w : Bytes)
      → IsPiece p rest
      → value_of getenv p ≡ some w
      → length out + length w < size
      → scan getenv input size error (source_of p rest) out ≡ go rest (out ++ w)
  unfolding scan
  scan-source_of (literal c) rest out w h k l = ground arith
  scan-source_of (variable []) rest out w h k l = absurd (omega arith)
  scan-source_of (variable (c ∷ name)) rest out w h k l =
      rw (break_at-append closes (c ∷ name) b'}' rest h.0 refl) (ground arith)

  pub Reads-shrinks :
      (rest out rest' out' : Bytes) → Reads rest out rest' out' → length rest' < length rest
  Reads-shrinks rest out rest' out' r = shrinks r.piece rest' (ap length r.from)
    where
      shrinks :
          (p : Piece) (t : Bytes) → length rest ≡ length (source_of p t) → length t < length rest
      shrinks (literal c) t e = omega arith
      shrinks (variable name) t e = omega (arith, length-append name (b'}' ∷ t))
