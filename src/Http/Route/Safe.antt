-- ===== src/Http/Route/Safe.antt =====
-- What the routes of rk3588-media-gateway/src/api/http_server.c leave alone.
use mathlib.Core.Path.{subst}
use learn_apue.Base.{
  ℕ, ◌<◌, true, [], ◌∷◌, ◌++◌, Option, some, ◌≡◌, ◌≢◌, refl, sym, ap, ◌∙◌, arith, length, drop,
  Bool-cases, Option-cases, inl, inr,
}
use learn_apue.Base.Search.{starts_with-split}
use learn_apue.Base.Text.{
  Bytes, text, str_eq, str_eq_iff, starts_with, break_at, break_at-join, break_at_stops,
}
use learn_apue.Config.{RecordingConfig, id_cap}
use learn_apue.Http.Route.Commands.{commanded, act-commanded}
use learn_apue.Http.Route.Targets.{Action, start, stop, restart, name_of, action_target, IsQuery}
use learn_apue.Http.Route.{
  act, http_route, route_path, route_action, route_shown, path_of, is_question,
}
use learn_apue.Http.Shown.{System}
use learn_apue.Http.{
  parse_action_target, split_target, is_slash, is_action, channel_prefix, channel_and_leaf,
}
use learn_apue.Manager.{Manager}
use learn_apue.Status.{GwError}

is_action_iff : (name : Bytes) → is_action name ≡ true → (action : Action) × (name ≡ name_of action)
is_action_iff name h = elim (Bool-cases (str_eq name (text "start"))) [
  | inl on ↦ (start, (str_eq_iff name (text "start")).0 on)
  | inr off ↦ elim (Bool-cases (str_eq name (text "stop"))) [
    | inl on ↦ (stop, (str_eq_iff name (text "stop")).0 on)
    | inr off' ↦ (restart, (str_eq_iff name (text "restart")).0 (ground arith))
  ]
]

-- A text that splits at its first slash.
pub record Splits (remainder id leaf : Bytes) : Type 0 where
  pub whole : remainder ≡ id ++ (b'/' ∷ leaf)
  pub fits : length id < id_cap

channel_and_leaf-Splits :
    (before found : Bytes) {id leaf : Bytes}
    → ((c : ℕ) (rest : Bytes) → found ≡ c ∷ rest → is_slash c ≡ true)
    → channel_and_leaf id_cap (before, found) ≡ some (id, leaf)
    → Splits (before ++ found) id leaf
channel_and_leaf-Splits before [] stops q = absurd (ground arith)
channel_and_leaf-Splits [] (c ∷ found) stops q = absurd (ground arith)
channel_and_leaf-Splits (b ∷ before) (c ∷ found) {id} {leaf} stops q =
    let slash : c ≡ b'/' = ground (arith, stops c found refl) in
    let short : length (b ∷ before) < id_cap = ground arith in
    let (same_id, same_leaf) : (b ∷ before ≡ id) × (found ≡ leaf) = ground arith in
    record {
      whole = ground (arith, ap (λ t. t ++ (b'/' ∷ leaf)) same_id);
      fits = subst (λ x. length x < id_cap) same_id short;
    }

split_target_sound :
    (target : Bytes) {id leaf : Bytes}
    → split_target id_cap target ≡ some (id, leaf)
    → (target ≡ text "/v1/channels/" ++ (id ++ (b'/' ∷ leaf))) × (length id < id_cap)
unfolding split_target starts_with text
split_target_sound target {id} {leaf} q = elim (Bool-cases (starts_with channel_prefix target)) [
  | inr off ↦ absurd (ground arith)
  | inl on ↦
      let remainder = drop 13 target in
      let halves = break_at is_slash remainder in
      let splits : Splits (halves.0 ++ halves.1) id leaf =
        channel_and_leaf-Splits halves.0 halves.1 (break_at_stops is_slash remainder)
          (rw on at q) in
      (
        starts_with-split channel_prefix target on
            ∙ ap (λ t. channel_prefix ++ t) (sym (break_at-join is_slash remainder) ∙ splits.whole),
        splits.fits,
      )
]

parse_action_target_sound :
    (target : Bytes) {id name : Bytes}
    → parse_action_target id_cap target ≡ some (id, name)
    → (action : Action) × (name ≡ name_of action)
      × (target ≡ action_target id action)
      × (length id < id_cap)
unfolding parse_action_target
parse_action_target_sound target {id} {name} q = elim (Option-cases (split_target id_cap target)) [
  | inl nothing ↦ absurd (ground arith)
  | inr ((i, a), e) ↦
      let (acts, same_id, same_name) : (is_action a ≡ true) × (i ≡ id) × (a ≡ name) =
        (ground arith, ground arith, ground arith) in
      let (action, named) = is_action_iff a acts in
      let (whole, fits) = split_target_sound target e in
      let at_id : target ≡ action_target id action =
        subst (λ x. target ≡ action_target x action) same_id
          (subst (λ x. target ≡ text "/v1/channels/" ++ (i ++ (b'/' ∷ x))) named whole) in
      (action, sym same_name ∙ named, at_id, subst (λ x. length x < id_cap) same_id fits)
]

path_of_sound :
    (before found : Bytes) {path : Bytes}
    → ((c : ℕ) (rest : Bytes) → found ≡ c ∷ rest → is_question c ≡ true)
    → path_of (before, found) ≡ some path
    → (query : Bytes) × (before ++ found ≡ path ++ query) × IsQuery query
path_of_sound before [] stops q = ([], ap (λ t. t ++ []) (ground arith), tt)
path_of_sound before (c ∷ found) {path} stops q =
    let same : before ≡ path = ground arith in
    (c ∷ found, ap (λ t. t ++ (c ∷ found)) same, ground (arith, stops c found refl))

-- The request is a command that the manager carries out, and that alone changes it.
pub record Commands (system : System) (m m' : Manager) (method target : Bytes)
    (error : Option GwError) : Type 0 where
  pub id : Bytes
  pub action : Action
  pub query : Bytes
  pub posts : method ≡ text "POST"
  pub target_eq : target ≡ action_target id action ++ query
  pub query_IsQuery : IsQuery query
  pub changed : m' ≡ (commanded system.threads m id action error).manager

route_path_safe :
    (system : System) (m : Manager) (recording : RecordingConfig) (method path query : Bytes)
    (error : Option GwError)
    → IsQuery query
    → (route_path system m recording method path error).manager ≢ m
    → Commands system m
        (route_path system m recording method path error).manager
        method
        (path ++ query)
        error
unfolding route_path route_action
route_path_safe system m recording method path query error q differs =
    elim (Option-cases (route_shown system m recording path error)) [
      | inr (r, shown) ↦ absurd (differs (rw (route_path, shown) refl))
      | inl hidden ↦ elim (Option-cases (parse_action_target id_cap path)) [
        | inl nothing ↦ absurd (differs (rw (route_path, hidden, route_action, nothing) refl))
        | inr ((id, name), parsed) ↦ elim (Bool-cases (str_eq method (text "POST"))) [
          | inr other ↦ absurd (differs (rw (route_path, hidden, route_action, parsed, other) refl))
          | inl posts ↦
              let (action, named, whole, fits) = parse_action_target_sound path parsed in
              record {
                id = id;
                action = action;
                query = query;
                posts = (str_eq_iff method (text "POST")).0 posts;
                target_eq = ap (λ t. t ++ query) whole;
                query_IsQuery = q;
                changed =
                    rw (route_path, hidden, route_action, parsed, posts)
                      (ap (λ n. (act system.threads m id n error).manager) named
                        ∙ ap (λ o. o.manager) (act-commanded system.threads m id action error));
              }
        ]
      ]
    ]

-- A request changes the manager only if its method is POST and its target is `/v1/channels/ID/ACTION`
-- with one of the three actions, and perhaps a query; the manager is then what that command makes of it.
pub http_route_safe :
    (system : System) (m : Manager) (recording : RecordingConfig) (method target : Bytes)
    (error : Option GwError)
    → (http_route system m recording method target error).manager ≢ m
    → Commands system m
        (http_route system m recording method target error).manager
        method
        target
        error
unfolding http_route
http_route_safe system m recording method target error differs =
    let halves = break_at is_question target in
    elim (Option-cases (path_of halves)) [
      | inl bad ↦ absurd (differs (rw (http_route, bad) refl))
      | inr (path, e) ↦
          let (query, whole, q) =
            path_of_sound halves.0 halves.1 (break_at_stops is_question target) e in
          let safe = route_path_safe system m recording method path query error q in
          let after = (route_path system m recording method path error).manager in
          let same : target ≡ path ++ query = sym (break_at-join is_question target) ∙ whole in
          rw (http_route, e)
            (subst (λ t. Commands system m after method t error) (sym same)
              (safe (rw (http_route, e) at differs)))
    ]
