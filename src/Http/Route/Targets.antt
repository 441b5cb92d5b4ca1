-- ===== src/Http/Route/Targets.antt =====
-- The targets `/v1/channels/ID/ACTION` of rk3588-media-gateway/src/api/http_server.c.
use learn_apue.Base.{
  ℕ, ◌+◌, ◌<◌, Bool, true, false, ◌||◌, ◌&&◌, not, [], ◌∷◌, ◌++◌, Option, none, some, ◌≡◌, refl,
  arith, length, length-append,
}
use learn_apue.Base.Text.{
  Bytes, text, str_eq, starts_with, break_at, break_at-append, break_at_all, NoneOf, NoneOf-append,
}
use learn_apue.Config.{RecordingConfig, id_cap}
use learn_apue.Http.Route.{route_shown, path_of, target_cap, is_question, single_segment}
use learn_apue.Http.Shown.{System}
use learn_apue.Http.{
  parse_action_target, parse_channel_leaf, split_target, is_slash, has_slash, is_action,
}
use learn_apue.Manager.{Manager}
use mathlib.Core.List.{append-nil}
use learn_apue.Status.{GwError}

pub data Action : Type 0 where
  start stop restart : Action

abbrev pub name_of : Action → Bytes
name_of start = text "start"
name_of stop = text "stop"
name_of restart = text "restart"

-- `/v1/channels/ID/ACTION`
abbrev pub action_target : Bytes → Action → Bytes
action_target id action = text "/v1/channels/" ++ (id ++ (b'/' ∷ name_of action))

-- No query, or one behind its question mark.
abbrev pub IsQuery : Bytes → Type 0
IsQuery [] = Unit
IsQuery (c ∷ cs) = c ≡ b'?'

pub length-name_of : (action : Action) → length (name_of action) < 8
unfolding text
length-name_of start = omega arith
length-name_of stop = omega arith
length-name_of restart = omega arith

-- A byte that ends the identifier in a target.
abbrev pub ends_id : ℕ → Bool
ends_id c = is_slash c || is_question c

NoneOf-part :
    (whole part : ℕ → Bool) (s : Bytes)
    → ((c : ℕ) → whole c ≡ false → part c ≡ false)
    → NoneOf whole s
    → NoneOf part s
NoneOf-part whole part [] weaker h = tt
NoneOf-part whole part (c ∷ s) weaker h = (weaker c h.0, NoneOf-part whole part s weaker h.1)

name_of-plain : (action : Action) → NoneOf ends_id (name_of action)
unfolding text
name_of-plain start = (refl, (refl, (refl, (refl, (refl, tt)))))
name_of-plain stop = (refl, (refl, (refl, (refl, tt))))
name_of-plain restart = (refl, (refl, (refl, (refl, (refl, (refl, (refl, tt)))))))

prefix-plain : NoneOf is_question (text "/v1/channels/")
unfolding text
prefix-plain = (
  refl,
  (
    refl,
    (refl, (refl, (refl, (refl, (refl, (refl, (refl, (refl, (refl, (refl, (refl, tt))))))))))),
  ),
)

pub action_target-plain :
    (id : Bytes) (action : Action)
    → NoneOf ends_id id
    → NoneOf is_question (action_target id action)
action_target-plain id action h =
    let part = λ (s : Bytes) (k : NoneOf ends_id s).
      NoneOf-part ends_id is_question s (λ c e. ground arith) k in
    NoneOf-append is_question (text "/v1/channels/") (id ++ (b'/' ∷ name_of action)) prefix-plain (
      NoneOf-append is_question id (b'/' ∷ name_of action) (part id h)
        (refl, part (name_of action) (name_of-plain action)))

pub length-action_target :
    (id : Bytes) (action : Action)
    → (length (action_target id action) < length id + 22) × (0 < length (action_target id action))
unfolding text
length-action_target id action =
    omega (arith, length-append id (b'/' ∷ name_of action), length-name_of action)

pub path_of_query :
    (path query : Bytes)
    → NoneOf is_question path
    → 0 < length path
    → length path < target_cap
    → IsQuery query
    → path_of (break_at is_question (path ++ query)) ≡ some path
path_of_query path [] h some_bytes fits q =
    rw (append-nil path) (rw (break_at_all is_question path h) refl)
path_of_query path (c ∷ cs) h some_bytes fits q =
    rw (break_at-append is_question path c cs h (ground arith)) (ground arith)

split_target_lem :
    (c : ℕ) (cs : Bytes) (action : Action)
    → NoneOf ends_id (c ∷ cs)
    → length (c ∷ cs) < id_cap
    → split_target id_cap (action_target (c ∷ cs) action) ≡ some (c ∷ cs, name_of action)
unfolding split_target starts_with text
split_target_lem c cs action h fits =
    let plain = NoneOf-part ends_id is_slash (c ∷ cs) (λ d e. ground arith) h in
    rw (break_at-append is_slash (c ∷ cs) b'/' (name_of action) plain refl) (ground arith)

is_action-name :
    (action : Action) → (not (has_slash (name_of action)) && is_action (name_of action)) ≡ true
unfolding text break_at str_eq
is_action-name start = refl
is_action-name stop = refl
is_action-name restart = refl

name_of-no_metrics : (action : Action) → str_eq (name_of action) (text "metrics") ≡ false
unfolding text str_eq
name_of-no_metrics start = refl
name_of-no_metrics stop = refl
name_of-no_metrics restart = refl

has_slash-append : (id rest : Bytes) → has_slash (id ++ (b'/' ∷ rest)) ≡ true
unfolding break_at
has_slash-append [] rest = refl
has_slash-append (c ∷ id) rest = ground (arith, has_slash-append id rest)

pub parse_action_target_lem :
    (c : ℕ) (cs : Bytes) (action : Action)
    → NoneOf ends_id (c ∷ cs)
    → length (c ∷ cs) < id_cap
    → parse_action_target id_cap (action_target (c ∷ cs) action) ≡ some (c ∷ cs, name_of action)
unfolding parse_action_target
parse_action_target_lem c cs action h fits =
    rw (parse_action_target, split_target_lem c cs action h fits, is_action-name action) refl

parse_channel_leaf_none :
    (c : ℕ) (cs : Bytes) (action : Action)
    → NoneOf ends_id (c ∷ cs)
    → length (c ∷ cs) < id_cap
    → parse_channel_leaf id_cap (action_target (c ∷ cs) action) (text "metrics") ≡ none
unfolding parse_channel_leaf
parse_channel_leaf_none c cs action h fits =
    rw (parse_channel_leaf, split_target_lem c cs action h fits, name_of-no_metrics action) refl

single_segment_none :
    (c : ℕ) (cs : Bytes) (action : Action)
    → (single_segment (text "/view/") (action_target (c ∷ cs) action) ≡ none)
      × (single_segment (text "/v1/channels/") (action_target (c ∷ cs) action) ≡ none)
unfolding text starts_with
single_segment_none c cs action = (refl, ground (arith, has_slash-append (c ∷ cs) (name_of action)))

no_list :
    (c : ℕ) (cs : Bytes) (action : Action)
    → (let target = action_target (c ∷ cs) action in
        (str_eq target (text "/v1/health") ≡ false)
        × (str_eq target (text "/v1/recording") ≡ false)
        × (str_eq target (text "/v1/channels") ≡ false))
unfolding text str_eq
no_list c cs action = (refl, refl, refl)

-- No route that only shows something takes the target of a command.
pub route_shown_none :
    (system : System) (m : Manager) (recording : RecordingConfig) (c : ℕ) (cs : Bytes)
    (action : Action) (error : Option GwError)
    → NoneOf ends_id (c ∷ cs)
    → length (c ∷ cs) < id_cap
    → route_shown system m recording (action_target (c ∷ cs) action) error ≡ none
unfolding route_shown
route_shown_none system m recording c cs action error h fits = ground (
  arith,
  no_list c cs action,
  single_segment_none c cs action,
  parse_channel_leaf_none c cs action h fits,
)
