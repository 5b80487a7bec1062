-- ===== src/Main/Kept.antt =====
-- The routes of main.go keep the sessions sound and the tables consistent.
use ppgram.Prelude.{not, List, [], ◌∷◌, All, Option, none, some, GoString, codes, ◌≡◌, subst, ◌=s=◌}
use ppgram.Prelude.Maps.{lookup, insert}
use ppgram.Route.{is_dot_route, join_route}
use ppgram.Password.{Crypto}
use ppgram.Session.{Server}
use ppgram.Session.Revocation.{if_cases}
use ppgram.Session.Well.{IsWell}
use ppgram.Handlers.{Passage, answers, goes_on, auth_middleware}
use ppgram.Handlers.Well.{
  handle_user_register-IsWell, handle_user_login_by_credentials-IsWell,
  handle_user_login_by_token-IsWell, handle_account_delete-IsWell,
  handle_account_delete_cancel-IsWell, auth_middleware-IsWell,
}
use ppgram.Context.Chain.Preserves.{Preserves}
use ppgram.Router.{RouteEntry, Routes, register_at, register_route}
use ppgram.Router.Handle.{Exchange, Request, Middleware, Handler, chain_of, register_response}
use ppgram.Main.{
  Messages, respond, answer_with, ping_handler, pass, auth_guard, serve_register, serve_login,
  serve_token_login, serve_delete, serve_cancel, and_register, main_routes,
}

abbrev pub WellServed : Exchange → Type 0
WellServed x = IsWell x.server

-- The middleware and the handler of a route, for any request.
pub record RouteKeeps (middleware : List Middleware) (handler : Handler) : Type 0 where
  pub chain : (request : Request) → All (Preserves WellServed) (chain_of request middleware)
  pub endpoint :
      (request : Request) (x : Exchange) → WellServed x → WellServed (handler request x).1

abbrev pub EntryKeeps : GoString × RouteEntry Middleware Handler → Type 0
EntryKeeps (path, entry) = RouteKeeps entry.middleware entry.handler

abbrev pub AllKeep : Routes Middleware Handler → Type 0
AllKeep routes = All EntryKeeps routes

abbrev pub SomeKeep : Option (Routes Middleware Handler) → Type 0
SomeKeep none = Unit
SomeKeep (some routes) = AllKeep routes

insert-AllKeep :
    (path : GoString) (entry : RouteEntry Middleware Handler) (routes : Routes Middleware Handler)
    → RouteKeeps entry.middleware entry.handler
    → AllKeep routes
    → AllKeep (insert path entry routes)
unfolding insert
insert-AllKeep path entry [] k h = (k, tt)
insert-AllKeep path entry ((other, old) ∷ routes) k (o, h) =
    if_cases AllKeep (other =s= path) ((path, entry) ∷ routes) _ (λ r. (k, h))
      (λ r. (o, insert-AllKeep path entry routes k h))

register_at-SomeKeep :
    (found : Option (RouteEntry Middleware Handler)) (entry : RouteEntry Middleware Handler)
    (routes : Routes Middleware Handler)
    → RouteKeeps entry.middleware entry.handler
    → AllKeep routes
    → SomeKeep (register_at found entry routes)
unfolding register_at
register_at-SomeKeep none entry routes k h = insert-AllKeep entry.path entry routes k h
register_at-SomeKeep (some old) entry routes k h = tt

and_register-SomeKeep :
    (o : Option (Routes Middleware Handler)) (path : GoString) (handler : Handler)
    (middleware : List Middleware)
    → RouteKeeps middleware handler
    → SomeKeep o
    → SomeKeep (and_register o path handler middleware)
unfolding and_register register_response register_route
and_register-SomeKeep none path handler middleware k h = tt
and_register-SomeKeep (some routes) path handler middleware k h =
    if_cases SomeKeep (not (is_dot_route path)) none _ (λ r. tt)
      (λ r.
        register_at-SomeKeep (lookup (join_route [] path) routes) _ routes
          (record { chain = k.chain; endpoint = k.endpoint }) h)

-- A route that was found.
pub lookup-RouteKeeps :
    (path : GoString) (routes : Routes Middleware Handler) {entry : RouteEntry Middleware Handler}
    → AllKeep routes
    → lookup path routes ≡ some entry
    → RouteKeeps entry.middleware entry.handler
unfolding lookup
lookup-RouteKeeps path [] h found = cc found
lookup-RouteKeeps path ((other, old) ∷ routes) {entry} (o, h) found =
    if_cases
      (λ (r : Option (RouteEntry Middleware Handler)).
        r ≡ some entry → RouteKeeps entry.middleware entry.handler)
      (other =s= path) (some old) (lookup path routes)
      (λ r e.
        let same : old ≡ entry = cc e in
        subst (λ (x : RouteEntry Middleware Handler). RouteKeeps x.middleware x.handler) same o)
      (λ r e. lookup-RouteKeeps path routes h e) found

module _ (messages : Messages) (crypto : Crypto) where
  bare-RouteKeeps :
      (handler : Handler)
      → ((request : Request) (x : Exchange) → WellServed x → WellServed (handler request x).1)
      → RouteKeeps [] handler
  bare-RouteKeeps handler h = record { chain = λ request. tt; endpoint = h }

  pass-Preserves :
      (p : Passage × Server) (x : Exchange) → IsWell p.1 → Preserves WellServed (pass messages p x)
  unfolding pass respond
  pass-Preserves (answers answer, s) x h = (h, tt)
  pass-Preserves (goes_on, s) x h = (h, λ e. tt)

  auth_guard-Preserves : (request : Request) → Preserves WellServed (auth_guard messages request)
  unfolding auth_guard
  auth_guard-Preserves request x h =
      pass-Preserves (auth_middleware request.session x.server) x
        (auth_middleware-IsWell request.session x.server h)

  ping-RouteKeeps : RouteKeeps [] (ping_handler messages)
  unfolding ping_handler respond
  ping-RouteKeeps = bare-RouteKeeps (ping_handler messages) (λ request x h. h)

  register-RouteKeeps : RouteKeeps [] (serve_register messages crypto)
  unfolding serve_register answer_with respond
  register-RouteKeeps = bare-RouteKeeps (serve_register messages crypto) (λ request x h.
      handle_user_register-IsWell crypto request.session (messages.register_request request.bytes)
        x.server h)

  login-RouteKeeps : RouteKeeps [] (serve_login messages crypto)
  unfolding serve_login answer_with respond
  login-RouteKeeps = bare-RouteKeeps (serve_login messages crypto) (λ request x h.
      handle_user_login_by_credentials-IsWell crypto request.session
        (messages.login_request request.bytes) x.server h)

  token_login-RouteKeeps : RouteKeeps [] (serve_token_login messages crypto)
  unfolding serve_token_login answer_with respond
  token_login-RouteKeeps = bare-RouteKeeps (serve_token_login messages crypto) (λ request x h.
      handle_user_login_by_token-IsWell crypto request.session
        (messages.token_request request.bytes) x.server h)

  cancel-RouteKeeps : RouteKeeps [] (serve_cancel messages crypto)
  unfolding serve_cancel answer_with respond
  cancel-RouteKeeps = bare-RouteKeeps (serve_cancel messages crypto) (λ request x h.
      handle_account_delete_cancel-IsWell crypto request.session
        (messages.cancel_request request.bytes) x.server h)

  delete-RouteKeeps : RouteKeeps (auth_guard messages ∷ []) (serve_delete messages crypto)
  unfolding serve_delete respond
  delete-RouteKeeps = record {
    chain = λ request. (auth_guard-Preserves request, tt);
    endpoint = λ request x h.
        handle_account_delete-IsWell crypto request.session _
          (messages.delete_request request.bytes) x.server h;
  }

  pub main_routes-SomeKeep : SomeKeep (main_routes messages crypto)
  unfolding main_routes
  main_routes-SomeKeep =
      let ping =
        and_register-SomeKeep (some []) (codes "ping") (ping_handler messages) [] ping-RouteKeeps
          tt in
      let reg =
        and_register-SomeKeep _ (codes "auth.register") (serve_register messages crypto) []
          register-RouteKeeps ping in
      let login =
        and_register-SomeKeep _ (codes "auth.login.credentials") (serve_login messages crypto) []
          login-RouteKeeps reg in
      let token =
        and_register-SomeKeep _ (codes "auth.login.token") (serve_token_login messages crypto) []
          token_login-RouteKeeps login in
      let delete =
        and_register-SomeKeep _ (codes "account.delete") (serve_delete messages crypto)
          (auth_guard messages ∷ []) delete-RouteKeeps token in
      and_register-SomeKeep _ (codes "account.delete.cancel") (serve_cancel messages crypto) []
        cancel-RouteKeeps delete
