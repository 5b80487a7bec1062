-- ===== src/Main.antt =====
-- The routes of main.go, with the handlers and the middleware as they work on a stream.
pub mod Guard
pub mod Kept
pub mod Invariant
mod Tests
use ppgram.Prelude.{ℕ, Bool, true, false, List, [], ◌∷◌, Option, none, some, GoString, codes}
use ppgram.Transport.{Bytes}
use ppgram.Session.{Server}
use ppgram.Password.{Crypto}
use ppgram.Auth.{AuthCredentials}
use ppgram.Handlers.{
  code_ok, Body, no_body, Response, send_status, handle_user_register,
  handle_user_login_by_credentials, handle_user_login_by_token, handle_account_delete,
  handle_account_delete_cancel, Passage, answers, goes_on, auth_middleware,
}
use ppgram.Context.{Codec, ContextError, send_response}
use ppgram.Context.Chain.{Script, returns, reads, writes, calls_next}
use ppgram.Router.{Router, Routes, new_router}
use ppgram.Router.Handle.{Exchange, Request, Middleware, Handler, register_response}

-- `proto.Marshal` and `proto.Unmarshal` on the messages of the accounts.
pub record Messages : Type 0 where
  pub codec : Codec Body
  pub register_request : Bytes → Option AuthCredentials
  pub login_request : Bytes → Option AuthCredentials
  pub token_request : Bytes → Option GoString
  pub delete_request : Bytes → Option (GoString × GoString)
  pub cancel_request : Bytes → Option (GoString × GoString)

-- The message that `SendResponse` is given, nil for `SendStatus` and `SendCode`.
unfoldable pub body_message : Body → Option Body
body_message no_body = none
body_message body = some body

abbrev pub is_nil : Option ContextError → Bool
is_nil none = true
is_nil (some e) = false

-- One registration after another, of which each may panic.
unfoldable pub and_register :
    Option (Routes Middleware Handler)
    → GoString
    → Handler
    → List Middleware
    → Option (Routes Middleware Handler)
unfolding register_response
and_register none path handler middleware = none
and_register (some routes) path handler middleware =
    register_response new_router path handler middleware routes

module _ (messages : Messages) where
  -- `return c.SendResponse(…)`
  unfoldable pub respond : Response → Exchange → Option ContextError × Exchange
  unfolding body_message
  respond answer x =
      let (e, w) =
        send_response messages.codec answer.status_code answer.message (body_message answer.body)
          x.wire in
      (e, record x { wire = w })

  -- A handler that changes the server before it answers.
  unfoldable pub answer_with :
      (Server → Response × Server) → Exchange → Option ContextError × Exchange
  unfolding respond
  answer_with f x = let (answer, s) = f x.server in respond answer (record x { server = s })

  -- `PingHandler`
  unfoldable pub ping_handler : Handler
  unfolding respond
  ping_handler request x = respond (send_status code_ok (codes "pong")) x

  -- The script of `AuthMiddleware`, given whether it answers itself.
  unfoldable pub pass : Passage × Server → Exchange → Script Exchange
  unfolding respond
  pass (answers answer, s) x =
      let (e, x') = respond answer (record x { server = s }) in writes x' (returns e)
  pass (goes_on, s) x = writes (record x { server = s }) (calls_next λ e. returns e)

  unfoldable pub auth_guard : Middleware
  unfolding pass
  auth_guard request = reads λ x. pass (auth_middleware request.session x.server) x

  module _ (crypto : Crypto) where
    unfoldable pub serve_register : Handler
    unfolding answer_with
    serve_register request x =
        answer_with
          (handle_user_register crypto request.session (messages.register_request request.bytes)) x

    unfoldable pub serve_login : Handler
    unfolding answer_with
    serve_login request x =
        answer_with
          (handle_user_login_by_credentials crypto request.session
            (messages.login_request request.bytes))
          x

    unfoldable pub serve_token_login : Handler
    unfolding answer_with
    serve_token_login request x =
        answer_with
          (handle_user_login_by_token crypto request.session (messages.token_request request.bytes))
          x

    -- The sessions of the user are invalidated only after the answer was sent.
    unfoldable pub serve_delete : Handler
    unfolding respond
    serve_delete request x =
        let run = λ (sent : Bool).
          handle_account_delete crypto request.session sent (messages.delete_request request.bytes)
            x.server in
        let (answer, _) = run true in
        let (e, x') = respond answer x in
        let (_, s) = run (is_nil e) in (e, record x' { server = s })

    unfoldable pub serve_cancel : Handler
    unfolding answer_with
    serve_cancel request x =
        answer_with
          (handle_account_delete_cancel crypto request.session
            (messages.cancel_request request.bytes))
          x

    unfoldable pub main_routes : Option (Routes Middleware Handler)
    unfolding and_register ping_handler serve_register serve_login serve_token_login serve_delete
        serve_cancel auth_guard
    main_routes =
        let ping = and_register (some []) (codes "ping") ping_handler [] in
        let reg = and_register ping (codes "auth.register") serve_register [] in
        let login = and_register reg (codes "auth.login.credentials") serve_login [] in
        let token = and_register login (codes "auth.login.token") serve_token_login [] in
        let delete = and_register token (codes "account.delete") serve_delete (auth_guard ∷ []) in
        and_register delete (codes "account.delete.cancel") serve_cancel []
