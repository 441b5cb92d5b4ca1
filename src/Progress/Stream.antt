-- ===== src/Progress/Stream.antt =====
-- Pipe reads may split the progress output anywhere: progress_parser.c gives the same result for
-- the parts as for the whole.
use learn_apue.Base.{
  ◌⊎◌, inl, inr, ℕ, Bool, false, ◌||◌, [], ◌∷◌, ◌++◌, Option, none, some, ◌≡◌, refl, ap, ◌∙◌, arith,
}
use learn_apue.Base.Text.{Bytes}
use learn_apue.Progress.{
  WorkerProgress, Parser, State, Double, Step, diagnose, next, too_long, consume_byte, consume_all,
  consume, parse_line, parse_pair,
}
use learn_apue.Status.{Status, ok, GwError, error_set, error_clear}

pub Step-cases : (t : Step) → ((s : State) × (t ≡ next s)) ⊎ ((s : State) × (t ≡ too_long s))
Step-cases (next s) = inl (s, refl)
Step-cases (too_long s) = inr (s, refl)

module _ (strtod : Bytes → Double) where
  -- To go on after a part of the input, unless it ended the call.
  abbrev pub continue : Status × State → Bytes → Status × State
  continue (ok, s) more = consume_all strtod more s
  continue (other, s) more = (other, s)

  pub consume_all-append :
      (a b : Bytes) (s : State)
      → consume_all strtod (a ++ b) s ≡ continue (consume_all strtod a s) b
  unfolding consume_all
  consume_all-append [] b s = refl
  consume_all-append (c ∷ a) b s = elim (Step-cases (consume_byte strtod c s)) [
    | inl (s', q) ↦ rw (q, consume_all) (consume_all-append a b s')
    | inr (s', q) ↦ rw (q, consume_all)
  ]

  -- A record completed before stays completed, and changes nothing else.
  abbrev marked : Bool → State → State
  marked done s = record s { completed = done || s.completed }

  abbrev marked_step : Bool → Step → Step
  marked_step done (next s) = next (marked done s)
  marked_step done (too_long s) = too_long (marked done s)

  consume_byte-marked :
      (done : Bool) (c : ℕ) (s : State)
      → consume_byte strtod c (marked done s) ≡ marked_step done (consume_byte strtod c s)
  unfolding consume_byte parse_line parse_pair
  consume_byte-marked done c s = ground arith

  consume_all-marked :
      (done : Bool) (bytes : Bytes) (s : State)
      → consume_all strtod bytes (marked done s)
        ≡ ((consume_all strtod bytes s).0, marked done (consume_all strtod bytes s).1)
  unfolding consume_all
  consume_all-marked done [] s = refl
  consume_all-marked done (c ∷ cs) s = elim (Step-cases (consume_byte strtod c s)) [
    | inl (s', q) ↦
        let q' = consume_byte-marked done c s ∙ ap (marked_step done) q in
        rw (q', q, consume_all) (consume_all-marked done cs s')
    | inr (s', q) ↦
        let q' = consume_byte-marked done c s ∙ ap (marked_step done) q in rw (q', q, consume_all)
  ]

  -- Two calls in turn: the second goes on with the parser, the snapshot and the diagnostic that the
  -- first left, unless that one failed; a record is completed if either call completed one.
  abbrev pub chained : Status × State × Option GwError → Bytes → Status × State × Option GwError
  chained (ok, s, error) more =
      let (status, s', error') = consume strtod s.parser more s.progress error in
      (status, marked s.completed s', error')
  chained (status, s, error) more = (status, s, error)

  unmark : (s : State) → marked s.completed (record s { completed = false }) ≡ s
  unmark s = ground arith

  diagnose_again :
      (status : Status) (error : Option GwError)
      → diagnose strtod status (error_clear error) ≡ diagnose strtod status error
  unfolding error_clear error_set
  diagnose_again ok none = refl
  diagnose_again ok (some e) = refl
  diagnose_again _ none = refl
  diagnose_again _ (some e) = refl

  chained-continue :
      (r : Status × State) (more : Bytes) (error : Option GwError)
      → let (status, s) = continue r more in
        (status, s, diagnose strtod status error)
        ≡ chained (r.0, r.1, diagnose strtod r.0 error) more
  unfolding consume
  chained-continue (ok, s) more error =
      let from = record s { completed = false } in
      let again = consume_all-marked s.completed more from in
      ground (arith, again, unmark s, diagnose_again (consume_all strtod more from).0 error)
  chained-continue (_, s) more error = refl

  -- However a read is split, the parser ends in the same state, with the same snapshot, status and
  -- diagnostic as for the whole.
  pub consume-append :
      (parser : Parser) (a b : Bytes) (progress : WorkerProgress) (error : Option GwError)
      → consume strtod parser (a ++ b) progress error
        ≡ chained (consume strtod parser a progress error) b
  unfolding consume
  consume-append parser a b progress error = rw consume_all-append (chained-continue _ b error)
