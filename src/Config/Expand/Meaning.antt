-- ===== src/Config/Expand/Meaning.antt =====
-- `gw_expand_environment` of config.c ends, keeps within its buffer, and computes the value of its
-- input: soundness and completeness against `value`.
use mathlib.Core.List.{append_assoc, append-nil}
use mathlib.Core.Path.{subst, ap₂}
use learn_apue.Base.{
  ℕ, zero, suc, ◌+◌, ◌<◌, List, [], ◌∷◌, ◌++◌, Option, none, some, ◌⊎◌, ◌↔◌, ◌≡◌, ◌≢◌, refl, ap,
  sym, ◌∙◌, length, length-append, arith, inl, inr, Option-cases,
}
use learn_apue.Base.Text.{Bytes}
use learn_apue.Status.{GwError}
use learn_apue.Config.Expand.{
  Expansion, expanded, Scan, halt, go, scan, scan_all, expand_environment,
}
use learn_apue.Config.Expand.Pieces.{
  Piece, source_of, source, IsPiece, ArePieces, value_of, join, value, scan-Reads, scan_end,
  scan-source_of, Reads-shrinks,
}

Scan-cases :
    (s : Scan) → ((e : Expansion) × (s ≡ halt e)) ⊎ ((r : Bytes) × (o : Bytes) × (s ≡ go r o))
Scan-cases (halt e) = inl (e, refl)
Scan-cases (go r o) = inr (r, o, refl)

join-some :
    (x y : Option Bytes) {w : Bytes}
    → join x y ≡ some w
    → (a : Bytes) × (b : Bytes) × (x ≡ some a) × (y ≡ some b) × (w ≡ a ++ b)
join-some (some a) (some b) h = (a, b, refl, refl, cc)
join-some (some a) none h = cc
join-some none y h = cc

module _ (getenv : Bytes → Option Bytes) (input : Bytes) (size : ℕ) (error : Option GwError) where
  step_go :
      (fuel : ℕ) (rest out : Bytes) {r o : Bytes}
      → scan getenv input size error rest out ≡ go r o
      → scan_all getenv input size error (suc fuel) rest out
        ≡ scan_all getenv input size error fuel r o
  unfolding scan_all
  step_go fuel rest out h = rw (h, scan_all)

  step_halt :
      (fuel : ℕ) (rest out : Bytes) {e : Expansion}
      → scan getenv input size error rest out ≡ halt e
      → scan_all getenv input size error (suc fuel) rest out ≡ some e
  unfolding scan_all
  step_halt fuel rest out h = rw (h, scan_all)

  shrinks :
      (rest out : Bytes) {r o : Bytes}
      → scan getenv input size error rest out ≡ go r o
      → length r < length rest
  shrinks rest out {r} {o} h =
      Reads-shrinks getenv input size error rest out r o
        (scan-Reads getenv input size error rest out r o h)

  -- With more fuel than unread bytes the scan comes to its end.
  scan_all_ends :
      (fuel : ℕ) (rest out : Bytes)
      → length rest < fuel
      → scan_all getenv input size error fuel rest out ≢ none
  scan_all_ends zero rest out h = elim h [ ]
  scan_all_ends (suc fuel) rest out h = elim (Scan-cases (scan getenv input size error rest out)) [
    | inl (e, q) ↦ rw (step_halt fuel rest out q) (λ n. cc)
    | inr (r, o, q) ↦
        rw (step_go fuel rest out q) (scan_all_ends fuel r o (omega (arith, shrinks rest out q)))
  ]

  -- What the scan returns is what was written before, followed by the value of the unread text.
  scan_all_sound :
      (fuel : ℕ) (rest out : Bytes) {v : Bytes}
      → scan_all getenv input size error fuel rest out ≡ some (expanded v)
      → length out < size
      → (ps : List Piece) × (w : Bytes) × ArePieces ps
        × (source ps ≡ rest)
        × (value getenv ps ≡ some w)
        × (v ≡ out ++ w)
        × (length v < size)
  scan_all_sound zero rest out h l = unfold scan_all in cc
  scan_all_sound (suc fuel) rest out {v} h l =
      elim (Scan-cases (scan getenv input size error rest out)) [
        | inl (e, q) ↦
            let halted : e ≡ expanded v = cc (step_halt fuel rest out q) in
            let (nothing, same) = scan_end getenv input size error rest out (q ∙ ap halt halted) in
            ([], [], tt, sym nothing, refl, same ∙ sym (append-nil out), rw same l)
        | inr (r, o, q) ↦
            let f = scan-Reads getenv input size error rest out r o q in
            let fits : length o < size =
              rw f.into (omega (arith, length-append out f.wrote, f.within)) in
            let (ps, w, are, from, means, into, within) =
              scan_all_sound fuel r o {v = v} (sym (step_go fuel rest out q) ∙ h) fits in
            (
              f.piece ∷ ps,
              f.wrote ++ w,
              (subst (IsPiece f.piece) (sym from) f.fits, are),
              ap (source_of f.piece) from ∙ sym f.from,
              ap₂ join f.means means,
              into ∙ ap (λ t. t ++ w) f.into ∙ append_assoc out f.wrote w,
              within,
            )
      ]

  scan_all-source :
      (fuel : ℕ) (ps : List Piece) (out w : Bytes)
      → length (source ps) < fuel
      → ArePieces ps
      → value getenv ps ≡ some w
      → length out + length w < size
      → scan_all getenv input size error fuel (source ps) out ≡ some (expanded (out ++ w))
  scan_all-source zero ps out w f h k l = elim f [ ]
  scan_all-source (suc fuel) [] out w f h k l =
      let nothing : [] ≡ w = cc in
      step_halt fuel [] out {e = expanded out} (unfold scan in refl)
      ∙ ap (λ t. some (expanded t)) (sym (append-nil out) ∙ ap (λ t. out ++ t) nothing)
  scan_all-source (suc fuel) (p ∷ ps) out w f h k l =
      let (a, b, ka, kb, e) = join-some (value_of getenv p) (value getenv ps) k in
      let long : length w ≡ length a + length b = ap length e ∙ length-append a b in
      let q = scan-source_of getenv input size error p (source ps) out a h.0 ka (omega arith) in
      step_go fuel (source (p ∷ ps)) out q
      ∙ scan_all-source fuel ps (out ++ a) b (omega (arith, shrinks (source (p ∷ ps)) out q)) h.1 kb
          (omega (arith, length-append out a))
      ∙ ap (λ t. some (expanded t)) (append_assoc out a b ∙ ap (λ t. out ++ t) (sym e))

  expand_environment-ne-none : expand_environment getenv input size error ≢ none
  unfolding expand_environment
  expand_environment-ne-none = ground (arith, scan_all_ends (suc (length input)) input [])

  -- The expansion always comes to an end, with a text or with an error: the fuel given is enough
  -- for every input, environment and buffer size.
  pub expand_environment_total :
      (e : Expansion) × (expand_environment getenv input size error ≡ some e)
  expand_environment_total = elim (Option-cases (expand_environment getenv input size error)) [
    | inl e ↦ absurd (expand_environment-ne-none e)
    | inr found ↦ found
  ]

  -- Expansion into a buffer that is not empty succeeds with the text `v` exactly when the input
  -- reads as pieces whose variables are all set, `v` is their value, and it fits the buffer with
  -- its terminating zero.
  pub expand_environment_iff :
      (v : Bytes)
      → 0 < size
      → (expand_environment getenv input size error ≡ some (expanded v)) ↔ (
          (ps : List Piece) × ArePieces ps
          × (source ps ≡ input)
          × (value getenv ps ≡ some v)
          × (length v < size))
  unfolding expand_environment
  expand_environment_iff v pos = (
    (λ h.
        let (ps, w, are, from, means, into, within) =
          scan_all_sound (suc (length input)) input [] {v = v} (ground arith) pos in
        (ps, are, from, means ∙ ap some (sym into), within)),
    (λ (ps, are, from, means, within).
        let shorter : length (source ps) < suc (length input) = omega (arith, ap length from) in
        let found = scan_all-source (suc (length input)) ps [] v shorter are means (omega arith) in
        ground arith),
  )
