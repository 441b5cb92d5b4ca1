-- ===== src/Config/Expand.antt =====
-- `gw_expand_environment` of rk3588-media-gateway/src/config/config.c: `${NAME}` references are
-- replaced by what `getenv` returns, a parameter here. The scan is a step on the unread input and
-- the output so far, and takes fuel; one step more than the input has bytes is enough.
pub mod Pieces
pub mod Meaning
use learn_apue.Base.{
  ℕ, zero, suc, ◌+◌, ◌-◌, Bool, true, false, ◌&&◌, ◌||◌, List, [], ◌∷◌, ◌++◌, Option, none, some,
  ◌==◌, leb, if◌then◌else◌, length,
}
use learn_apue.Base.Decimal.{decimal}
use learn_apue.Base.Text.{Bytes, text, break_at}
use learn_apue.Status.{Status, ok, argument, env, overflow, GwError, error_set}

-- `GW_OK` with the text written, or an error status with the diagnostic.
pub data Expansion : Type 0 where
  expanded : Bytes → Expansion
  refused : Status → Option GwError → Expansion

pub data Scan : Type 0 where
  halt : Expansion → Scan
  go : Bytes → Bytes → Scan

-- `char name[128]`
abbrev pub env_name_cap : ℕ
env_name_cap = 128

abbrev pub closes : ℕ → Bool
closes c = c == b'}'

abbrev pub opens : ℕ → Bytes → Bool
opens c [] = false
opens c (d ∷ _) = c == b'$' && d == b'{'

module _ (getenv : Bytes → Option Bytes) (input : Bytes) (size : ℕ) (error : Option GwError) where
  too_long : Scan
  too_long = halt (
      refused overflow (
        error_set error overflow
          (text "expanded value exceeds " ++ (decimal (size - 1) ++ text " bytes"))))

  bad_reference : Scan
  bad_reference = halt (
      refused env
        (error_set error env (text "invalid environment reference in '" ++ (input ++ text "'"))))

  unset : Bytes → Scan
  unset name = halt (
      refused env (
        error_set error env
          (text "required environment variable '" ++ (name ++ text "' is not set"))))

  substitute : Option Bytes → Bytes → Bytes → Bytes → Scan
  unfolding unset too_long
  substitute none name rest out = unset name
  substitute (some value) name rest out =
      if leb size (length out + length value) then too_long else go rest (out ++ value)

  -- behind `${`: the name, and what the search for `}` stopped at
  reference : Bytes → Bytes → Bytes → Scan
  unfolding bad_reference substitute
  reference name [] out = bad_reference
  reference [] (_ ∷ rest) out = bad_reference
  reference (c ∷ name) (_ ∷ rest) out =
      if leb env_name_cap (length (c ∷ name))
      then bad_reference
      else substitute (getenv (c ∷ name)) (c ∷ name) rest out

  -- `input + source + 2`
  abbrev behind_brace : Bytes → Bytes
  behind_brace [] = []
  behind_brace (_ ∷ cs) = cs

  unfoldable pub scan : Bytes → Bytes → Scan
  unfolding reference
  scan [] out = halt (expanded out)
  scan (c ∷ cs) out =
      let (name, close) = break_at closes (behind_brace cs) in
      if opens c cs
      then reference name close out
      else if leb size (length out + 1)
      then too_long
      else go cs (out ++ c ∷ [])

  unfoldable pub scan_all : ℕ → Bytes → Bytes → Option Expansion
  scan_all zero rest out = none
  scan_all (suc fuel) rest out = elim (scan rest out) [
    | halt e ↦ some e
    | go rest' out' ↦ scan_all fuel rest' out'
  ]

  -- `none` would be a scan that does not end.
  unfoldable pub expand_environment : Option Expansion
  unfolding scan_all
  expand_environment =
      if size == 0
      then some (
          refused argument
            (error_set error argument (text "invalid environment expansion arguments")))
      else scan_all (suc (length input)) input []
