-- ===== src/Http/Route/Commands.antt =====
-- The routes of rk3588-media-gateway/src/api/http_server.c that command a channel.
use learn_apue.Base.{
  ℕ, ◌<◌, true, false, ◌∷◌, ◌++◌, Option, ◌≡◌, ◌≢◌, refl, arith, length, sym, if◌then◌else◌,
  Bool-cases, inl, inr,
}
use learn_apue.Base.Text.{Bytes, text, str_eq, str_eq_iff, NoneOf}
use learn_apue.Config.{RecordingConfig, id_cap}
use learn_apue.Http.Render.Whole.{whole_text}
use learn_apue.Http.Route.Answers.{
  IsAnswer, channel_not_found-IsAnswer, conflict-IsAnswer, method_not_allowed-IsAnswer,
  finish_response_whole, length-accepted_pieces,
}
use learn_apue.Http.Route.Targets.{
  Action, start, stop, restart, name_of, action_target, IsQuery, ends_id, length-name_of,
  action_target-plain, length-action_target, path_of_query, parse_action_target_lem,
  route_shown_none,
}
use learn_apue.Http.Route.{
  Routed, http_route, route_path, route_action, accepted_pieces, after_command, act, acted,
  unchanged,
}
use learn_apue.Http.Shown.{System, method_not_allowed}
use learn_apue.Http.{Rendered}
use learn_apue.Manager.Control.{start_channel, stop_channel, restart_channel}
use learn_apue.Manager.Lifecycle.{Outcome}
use learn_apue.Manager.{Manager, Threads}
use mathlib.Core.Path.{subst}
use learn_apue.Status.{Status, ok, not_found, conflict, GwError}

abbrev pub commanded : Threads → Manager → Bytes → Action → Option GwError → Outcome
commanded threads m id start error = start_channel threads m id error
commanded threads m id stop error = stop_channel threads m id error
commanded threads m id restart error = restart_channel threads m id error

-- The response that tells how the command ended.
abbrev pub TellsEnd : Bytes → Action → Status → Rendered → Type 0
TellsEnd id action ok r =
    IsAnswer 202 r × (r.response.body ≡ whole_text (accepted_pieces id (name_of action)))
TellsEnd id action not_found r = IsAnswer 404 r
TellsEnd id action conflict r = IsAnswer 409 r
TellsEnd id action status r = r.status ≡ status

pub act-commanded :
    (threads : Threads) (m : Manager) (id : Bytes) (action : Action) (error : Option GwError)
    → act threads m id (name_of action) error ≡ commanded threads m id action error
unfolding str_eq text
act-commanded threads m id start error = refl
act-commanded threads m id stop error = refl
act-commanded threads m id restart error = refl

after_command-TellsEnd :
    (id : Bytes) (action : Action) (status : Status) (error : Option GwError)
    → length id < id_cap
    → TellsEnd id action status (after_command id (name_of action) status error)
after_command-TellsEnd id action ok error fits =
    let (done, same) =
      finish_response_whole _ (accepted_pieces id (name_of action)) error
        (omega (arith, length-accepted_pieces id (name_of action), length-name_of action)) in
    (record { rendered = done; status_code_eq = ground arith }, ground arith)
after_command-TellsEnd id action not_found error fits = channel_not_found-IsAnswer error
after_command-TellsEnd id action conflict error fits = conflict-IsAnswer error
after_command-TellsEnd id action Status.argument error fits = refl
after_command-TellsEnd id action status error fits = refl

-- What a request to command a channel does: with the method POST, the command, and the response
-- tells how it ended; with another method nothing, and the response names POST as allowed.
abbrev pub IsCommanded :
    Threads → Manager → Bytes → Action → Bytes → Option GwError → Routed → Type 0
IsCommanded threads m id action method error r =
    (method ≡ text "POST"
      → (r.manager ≡ (commanded threads m id action error).manager)
        × TellsEnd id action (commanded threads m id action error).status r.rendered)
    × (method ≢ text "POST"
        → (r.manager ≡ m)
          × IsAnswer 405 r.rendered
          × (r.rendered.response.allow_get ≡ false)
          × (r.rendered.response.allow_post ≡ true))

-- How such a target is answered by the code.
http_route_action :
    (system : System) (m : Manager) (recording : RecordingConfig) (method : Bytes) (c : ℕ)
    (cs : Bytes) (action : Action) (query : Bytes) (error : Option GwError)
    → NoneOf ends_id (c ∷ cs)
    → length (c ∷ cs) < id_cap
    → IsQuery query
    → http_route system m recording method (action_target (c ∷ cs) action ++ query) error ≡ (
        if str_eq method (text "POST")
        then acted (c ∷ cs) (name_of action) (act system.threads m (c ∷ cs) (name_of action) error)
        else unchanged m (method_not_allowed false true error))
unfolding http_route route_path route_action
http_route_action system m recording method c cs action query error h fits q =
    let target = action_target (c ∷ cs) action in
    let (short, some_bytes) = length-action_target (c ∷ cs) action in
    let path =
      path_of_query target query (action_target-plain (c ∷ cs) action h) some_bytes
        (omega (arith, short)) q in
    rw
      (
        http_route,
        path,
        route_path,
        route_shown_none system m recording c cs action error h fits,
        route_action,
        parse_action_target_lem c cs action h fits,
      )
      refl

answered-IsCommanded :
    (threads : Threads) (m : Manager) (method : Bytes) (id : Bytes) (action : Action)
    (error : Option GwError)
    → length id < id_cap
    → IsCommanded threads m id action method error (
        if str_eq method (text "POST")
        then acted id (name_of action) (act threads m id (name_of action) error)
        else unchanged m (method_not_allowed false true error))
answered-IsCommanded threads m method id action error fits =
    let o = commanded threads m id action error in
    let same = act-commanded threads m id action error in
    let told = after_command-TellsEnd id action o.status o.error fits in
    let (refused, no_get, post) = method_not_allowed-IsAnswer false true error in
    let posts = str_eq_iff method (text "POST") in
    elim (Bool-cases (str_eq method (text "POST"))) [
      | inl yes_post ↦
          rw (yes_post, same) ((λ _. (refl, told)), (λ other. absurd (other (posts.0 yes_post))))
      | inr no_post ↦ rw no_post (
        (λ is_post. absurd (ground (arith, posts.1 is_post))),
        (λ _. (refl, refused, no_get, post)),
      )
    ]

-- A request for `/v1/channels/ID/ACTION`, whatever query stands behind it, where ID is an
-- identifier that fits, with no slash and no question mark, and ACTION one of the three commands:
-- with the method POST it has the effect of that command of the manager on that channel, and
-- the response is 202 with the whole text that accepts it when the command succeeds, 404 when the channel is
-- not there, 409 when the command conflicts with the channel's state, and otherwise the command's error is
-- returned. With another method the manager stays as it is and the response is 405, which allows POST.
pub http_route-commands :
    (system : System) (m : Manager) (recording : RecordingConfig) (method : Bytes) (c : ℕ)
    (cs : Bytes) (action : Action) (query : Bytes) (error : Option GwError)
    → NoneOf ends_id (c ∷ cs)
    → length (c ∷ cs) < id_cap
    → IsQuery query
    → IsCommanded system.threads m
        (c ∷ cs)
        action
        method
        error
        (http_route system m recording method (action_target (c ∷ cs) action ++ query) error)
http_route-commands system m recording method c cs action query error h fits q =
    subst (IsCommanded system.threads m (c ∷ cs) action method error)
      (sym (http_route_action system m recording method c cs action query error h fits q))
      (answered-IsCommanded system.threads m method (c ∷ cs) action error fits)
