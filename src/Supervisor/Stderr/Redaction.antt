-- ===== src/Supervisor/Stderr/Redaction.antt =====
-- What is logged of one line of a worker's error output: the redaction of the source URL in
-- supervisor.c.
use mathlib.Core.List.{append_assoc}
use learn_apue.Base.{
  ℕ, zero, suc, ◌<◌, true, List, [], ◌∷◌, ◌++◌, none, some, leb, if◌then◌else◌, length,
  length-append, drop, ◌≡◌, ◌≢◌, ◌⊎◌, refl, ap, ◌∙◌, arith, Option-cases, inl, inr,
}
use learn_apue.Base.Text.{Bytes, strstr}
use learn_apue.Config.{url_cap}
use learn_apue.Config.Redact.{redact_url}
use learn_apue.Status.{ok}
use learn_apue.Supervisor.Stderr.{
  LogLine, shown, line_omitted, stderr_line_cap, append_text, append_both, redact_occurrences,
  emit_line,
}
use learn_apue.Base.Search.{IsFound, strstr-IsFound, starts_with-split}

-- Parts with a text behind each, and what is left.
abbrev pub joined : Bytes → List Bytes → Bytes → Bytes
joined between [] rest = rest
joined between (part ∷ parts) rest = part ++ (between ++ joined between parts rest)

abbrev pub AreFree : Bytes → List Bytes → Type 0
AreFree url [] = Unit
AreFree url (part ∷ parts) = (strstr url part ≡ none) × AreFree url parts

-- `line` cut at the occurrences of `url`, each the first in what is left of the line.
pub record IsCut (url line : Bytes) (parts : List Bytes) (rest : Bytes) : Type 0 where
  pub whole : line ≡ joined url parts rest
  pub parts_free : AreFree url parts
  pub rest_free : strstr url rest ≡ none

abbrev pub fitted : Bytes → LogLine
fitted s = if leb stderr_line_cap (length s) then line_omitted else shown s

module _ (url redacted_url : Bytes) where
  no_occurrence :
      (fuel : ℕ) (cursor output : Bytes)
      → strstr url cursor ≡ none
      → redact_occurrences (suc fuel) url redacted_url cursor output ≡ fitted (output ++ cursor)
  unfolding redact_occurrences append_text
  no_occurrence fuel cursor output q =
      rw (q, redact_occurrences) (ground (arith, length-append output cursor))

  both_fit :
      (output before tail : Bytes)
      → ((append_both stderr_line_cap output before redacted_url ≡ none)
          × (leb stderr_line_cap (length (output ++ (before ++ (redacted_url ++ tail)))) ≡ true))
        ⊎ (append_both stderr_line_cap output before redacted_url
            ≡ some (output ++ before ++ redacted_url))
  unfolding append_text
  both_fit output before tail = ground (
    arith,
    length-append output before,
    length-append output (before ++ (redacted_url ++ tail)),
    length-append before (redacted_url ++ tail),
    length-append redacted_url tail,
  )

  one_occurrence :
      (fuel : ℕ) (cursor output before found tail : Bytes)
      → strstr url cursor ≡ some (before, found)
      → redact_occurrences fuel url redacted_url
          (drop (length url) found)
          (output ++ before ++ redacted_url)
        ≡ fitted ((output ++ before ++ redacted_url) ++ tail)
      → redact_occurrences (suc fuel) url redacted_url cursor output
        ≡ fitted (output ++ (before ++ (redacted_url ++ tail)))
  unfolding redact_occurrences
  one_occurrence fuel cursor output before found tail q h = elim (both_fit output before tail) [
    | inl (e, full) ↦ rw (q, e, full, redact_occurrences) refl
    | inr e ↦
        rw (q, e, redact_occurrences)
          (h
            ∙ ap fitted (
                append_assoc (output ++ before) redacted_url tail
                ∙ append_assoc output before (redacted_url ++ tail)))
  ]

  first-IsCut :
      (cursor before found : Bytes) (parts : List Bytes) (rest : Bytes)
      → url ≢ []
      → IsFound url cursor before found
      → IsCut url (drop (length url) found) parts rest
      → IsCut url cursor (before ∷ parts) rest
  first-IsCut cursor before found parts rest n f c = record {
    whole =
        f.whole
        ∙ ap (λ t. before ++ t) (starts_with-split url found f.begins ∙ ap (λ t. url ++ t) c.whole);
    parts_free = (f.none_before n, c.parts_free);
    rest_free = c.rest_free;
  }

  length-ne-nil : (s : Bytes) → s ≢ [] → 0 < length s
  length-ne-nil [] h = absurd (h refl)
  length-ne-nil (c ∷ s) h = omega arith

  shorter :
      (cursor before found : Bytes)
      → url ≢ []
      → IsFound url cursor before found
      → length (drop (length url) found) < length cursor
  shorter cursor before found n f =
      let tail = drop (length url) found in
      omega (
        arith,
        length-ne-nil url n,
        ap length f.whole,
        length-append before found,
        ap length (starts_with-split url found f.begins),
        length-append url tail,
      )

  -- What the loop does with what is left of the line.
  abbrev Redacted : ℕ → Bytes → Type 0
  Redacted fuel cursor =
      (parts : List Bytes) × (rest : Bytes) × IsCut url cursor parts rest
      × ((output : Bytes)
          → redact_occurrences fuel url redacted_url cursor output
            ≡ fitted (output ++ joined redacted_url parts rest))

  uncut : (fuel : ℕ) (cursor : Bytes) → strstr url cursor ≡ none → Redacted (suc fuel) cursor
  uncut fuel cursor q = (
    [],
    cursor,
    record { whole = refl; parts_free = tt; rest_free = q },
    λ output. no_occurrence fuel cursor output q,
  )

  occurrences : (fuel : ℕ) (cursor : Bytes) → url ≢ [] → length cursor < fuel → Redacted fuel cursor
  occurrences zero cursor n h = absurd (omega arith)
  occurrences (suc fuel) cursor n h = elim (Option-cases (strstr url cursor)) [
    | inl q ↦ uncut fuel cursor q
    | inr ((before, found), q) ↦
        let f = strstr-IsFound url cursor q in
        let tail = drop (length url) found in
        let (parts, rest, cut, run) =
          occurrences fuel tail n (omega (arith, shorter cursor before found n f)) in
        (
          before ∷ parts,
          rest,
          first-IsCut cursor before found parts rest n f cut,
          λ output.
              one_occurrence fuel cursor output before found (joined redacted_url parts rest) q
                (run (output ++ before ++ redacted_url)),
        )
  ]

-- A line of a worker's error output is logged with each occurrence of the source URL replaced by the
-- redacted URL, if that fits the buffer of 4096 bytes, and else not at all: the line is cut at the
-- URL's occurrences from the left, and no part between them holds another. The loop over the
-- occurrences ends for every URL that is not empty.
pub emit_line_redacts :
    (url redacted_url line : Bytes)
    → url ≢ []
    → redact_url url [] url_cap ≡ (ok, redacted_url)
    → (parts : List Bytes) × (rest : Bytes) × IsCut url line parts rest
      × (emit_line url line ≡ fitted (joined redacted_url parts rest))
unfolding emit_line
emit_line_redacts url redacted_url line n q =
    let (parts, rest, cut, run) =
      occurrences url redacted_url (suc (length line)) line n (omega arith) in
    (parts, rest, cut, rw q (run []))
