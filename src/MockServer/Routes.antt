-- ===== src/MockServer/Routes.antt =====
-- The server's request listener in src/mock-hcm-server/server.ts.
use readyon.Base.{ℕ, Option, none, some, [], ◌∷◌, ◌++◌}
use readyon.Types.{Text}
use readyon.MockServer.Rules.{internal_error, unknown_endpoint}
use readyon.MockServer.State.{error_reply, healthy_reply, Response, Server, Body, Moment, respond}
use readyon.MockServer.Handlers.{
  handle_get_balance, handle_post_time_off, handle_cancel_time_off, handle_batch_balances,
}
use readyon.MockServer.Admin.{AdminRequest, handle_admin}

-- A request by its path and method. A body that is no JSON is `none`.
pub data Route : Type 0 where
  get_balance_route : Option Text → Option Text → Route
  post_route cancel_route : Option Body → Route
  batch_route : Option Text → Route
  admin_route : Option AdminRequest → Route
  health_route unknown_route : Route

-- The `catch`: the server answers that a body could not be parsed.
abbrev or_broken :
    {A : Type 0} → Option A → (A → Server → Response × Server) → Server → Response × Server
or_broken none k s = (respond 500 (error_reply internal_error), s)
or_broken (some a) k s = k a s

module _ (undefined_text epoch system : Text) where
  unfoldable pub dispatch : Route → Moment → Server → Response × Server
  unfolding handle_get_balance handle_post_time_off handle_cancel_time_off handle_batch_balances
      handle_admin
  dispatch (get_balance_route e t) now s = handle_get_balance e t s
  dispatch (post_route body) now s =
      or_broken body (λ b. handle_post_time_off undefined_text b now) s
  dispatch (cancel_route body) now s =
      or_broken body (λ b. handle_cancel_time_off undefined_text b now) s
  dispatch (batch_route since) now s = handle_batch_balances epoch system since now s
  dispatch (admin_route request) now s = or_broken request (λ r. handle_admin r now) s
  dispatch health_route now s = (respond 200 healthy_reply, s)
  dispatch unknown_route now s = (respond 404 (error_reply unknown_endpoint), s)

  -- `statusCode`, which is only set for admin requests, unknown paths and exceptions.
  abbrev logged_status : Route → Response → ℕ
  logged_status (admin_route _) r = r.status
  logged_status unknown_route r = 404
  logged_status (post_route none) r = 500
  logged_status (cancel_route none) r = 500
  logged_status _ r = 200

  -- Every request is logged, with its method, its path and the time of its end.
  unfoldable pub listen : Text → Text → Route → Moment → Server → Response × Server
  unfolding dispatch
  listen method path route now s =
      let (response, after) = dispatch route now s in
      (
        response,
        record after {
          request_log =
              after.request_log
              ++ record {
                method = method;
                path = path;
                timestamp = now.later_iso;
                status = logged_status route response;
              }
                ∷ [];
        },
      )
