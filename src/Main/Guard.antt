-- ===== src/Main/Guard.antt =====
-- The route `account.delete` and the middleware in front of it.
use ppgram.Prelude.{
  ℕ, Bool, true, false, not, List, [], ◌∷◌, Option, none, some, GoString, codes, is_empty,
  if◌then◌else◌, ◌≡◌, ◌⊎◌, subst, inl, inr, refl, ap, sym, ◌∙◌, arith, ◌=s=◌,
}
use ppgram.Prelude.Maps.{lookup, insert}
use ppgram.Text.{trim_space, trim_func, split, join}
use ppgram.Route.{
  is_route_char, matches_from, is_dot_route, clean_parts, join_parts, normalize_route, join_route,
}
use ppgram.Transport.{Bytes, Wire, Frame, ReadResult, read_frame_wire}
use ppgram.Table.{exists}
use ppgram.Errors.{Result, ok, err}
use ppgram.Database.{deletion_of}
use ppgram.Database.Deletions.{deletion_exists}
use ppgram.Backend.{Backend, Fault, fine, lost_request, lost_reply, run_with, query, run_statement}
use ppgram.Repository.{exists_active_by_user_id}
use ppgram.Cache.Tables.{Spares, >>=-Spares, refuse_if-Spares}
use ppgram.Password.{Crypto}
use ppgram.Session.{Server, is_authenticated, session_user_id}
use ppgram.Handlers.{
  send_code, code_unauthorized, code_internal, Response, Passage, answers, goes_on, after_pending,
  auth_middleware,
}
use ppgram.Handlers.Answers.{auth_middleware-goes_on}
use ppgram.Context.{ContextError}
use ppgram.Context.Chain.{nth, Ran, run_script, enter_chain, next_at, base_next}
use ppgram.Router.{RouteEntry, Routes, accepts, dispatch, register_at, register_route}
use ppgram.Router.Registration.{IsPath}
use ppgram.Router.Requests.{dispatch-accepts}
use ppgram.Router.{response}
use ppgram.Router.Handle.{
  Exchange, Middleware, Handler, new_request, reject, after_next, finish_request, serve, handle,
}
use ppgram.Main.{Messages, respond, pass, auth_guard, serve_delete, main_routes, and_register}

-- Neither the tables nor the sessions have changed.
pub record Unharmed (s s' : Server) : Type 0 where
  pub tables : s'.backend.db ≡ s.backend.db
  pub user_states : s'.user_states ≡ s.user_states
  pub sessions : s'.sessions ≡ s.sessions
  pub closed : s'.closed ≡ s.closed

Unharmed-refl : (s : Server) → Unharmed s s
Unharmed-refl s = record { tables = refl; user_states = refl; sessions = refl; closed = refl }

exists_with-SameDb :
    (id : GoString) (faults : List Fault) (b : Backend)
    → ((run_with faults (deletion_exists id) b).1.db ≡ b.db)
      × ((run_with faults (deletion_exists id) b).1.db_now ≡ b.db_now)
unfolding run_with deletion_exists
exists_with-SameDb id [] b = (refl, refl)
exists_with-SameDb id (fine ∷ rest) b = (refl, refl)
exists_with-SameDb id (lost_request ∷ rest) b = (refl, refl)
exists_with-SameDb id (lost_reply ∷ rest) b = (refl, refl)

exists_active_by_user_id-Spares : (user_id : GoString) → Spares (exists_active_by_user_id user_id)
unfolding exists_active_by_user_id query run_statement
exists_active_by_user_id-Spares user_id =
    >>=-Spares _ _ (refuse_if-Spares _ _) λ _ b. exists_with-SameDb (trim_space user_id) b.faults b

after_pending-Unharmed :
    (r : Result Bool × Backend) (s : Server)
    → r.1.db ≡ s.backend.db
    → Unharmed s (after_pending r s).1
unfolding after_pending
after_pending-Unharmed (err e, b) s h = record {
  tables = h;
  user_states = refl;
  sessions = refl;
  closed = refl;
}
after_pending-Unharmed (ok true, b) s h = record {
  tables = h;
  user_states = refl;
  sessions = refl;
  closed = refl;
}
after_pending-Unharmed (ok false, b) s h = record {
  tables = h;
  user_states = refl;
  sessions = refl;
  closed = refl;
}

if_Unharmed :
    (t u : Bool) (p q : Passage) (r : Passage × Server) (s : Server)
    → Unharmed s r.1
    → Unharmed s (if t then (p, s) else if u then (q, s) else r).1
if_Unharmed true u p q r s h = Unharmed-refl s
if_Unharmed false true p q r s h = Unharmed-refl s
if_Unharmed false false p q r s h = h

auth_middleware-Unharmed :
    (session : Option ℕ) (s : Server) → Unharmed s (auth_middleware session s).1
unfolding auth_middleware
auth_middleware-Unharmed session s =
    if_Unharmed (not (is_authenticated session s)) (not s.backend.db_ready)
      (answers (send_code code_unauthorized)) (answers (send_code code_internal))
      (after_pending (exists_active_by_user_id (session_user_id session s) s.backend) s) s
      (after_pending-Unharmed (exists_active_by_user_id (session_user_id session s) s.backend) s
        (exists_active_by_user_id-Spares (session_user_id session s) s.backend).0)

module _ (messages : Messages) (crypto : Crypto) where
  respond-server :
      (answer : Response) (x : Exchange) → (respond messages answer x).1.server ≡ x.server
  unfolding respond
  respond-server answer x = refl

  -- The end of a request changes the stream only.
  pub after_next-server :
      (e : Option ContextError) (x : Exchange) → (after_next messages.codec e x).server ≡ x.server
  unfolding after_next reject
  after_next-server none x = refl
  after_next-server (some e) x = ground arith

  -- The middleware has let the request pass, or only its answer was sent.
  run_pass :
      (go : ℕ → Exchange → Ran Exchange) (p : Passage × Server) (x x' : Exchange) (index : ℕ)
      → finish_request messages.codec (run_script go (pass messages p x) index x) ≡ some x'
      → (p.0 ≡ goes_on) ⊎ (x'.server ≡ p.1)
  unfolding run_script pass finish_request
  run_pass go (goes_on, s) x x' index h = inl refl
  run_pass go (answers answer, s) x x' index h =
      let y : Exchange = record x { server = s } in
      inr (
        ap (λ (o : Option Exchange). server_or s o) (sym h)
        ∙ after_next-server (respond messages answer y).0 (respond messages answer y).1
        ∙ respond-server answer y)
    where
      server_or : Server → Option Exchange → Server
      server_or s none = s
      server_or s (some x) = x.server

  abbrev delete_path : GoString
  delete_path = codes "account.delete"

  abbrev delete_entry : RouteEntry Middleware Handler
  delete_entry = record {
    stream_type = response;
    path = delete_path;
    middleware = auth_guard messages ∷ [];
    handler = serve_delete messages crypto;
  }

  delete_in : Option (Routes Middleware Handler) → Option (RouteEntry Middleware Handler)
  delete_in none = none
  delete_in (some routes) = lookup delete_path routes

  delete-found : delete_in (main_routes messages crypto) ≡ some delete_entry
  unfolding delete_in main_routes and_register register_route register_at lookup insert join_route
      ◌=s=◌ is_dot_route matches_from normalize_route is_empty trim_func trim_space join_parts
      clean_parts split join
  delete-found = refl

  delete_path-IsPath : IsPath delete_path
  unfolding is_dot_route matches_from is_route_char
  delete_path-IsPath = record { syntax = refl; some_path = λ e. ground arith }

  run_guard :
      (session : Option ℕ) (bytes : Bytes) (x : Exchange)
      → serve messages.codec (accepts delete_entry bytes) session x
        ≡ finish_request messages.codec (
            run_script
              (next_at 1
                (auth_guard messages (new_request session bytes) ∷ [])
                (some (serve_delete messages crypto (new_request session bytes))))
              (pass messages (auth_middleware session x.server) x)
              1
              x)
  unfolding serve base_next next_at enter_chain nth auth_guard run_script
  run_guard session bytes x = refl

  module _ (unmarshal : Bytes → Option (GoString × Bytes)) (session : Option ℕ) where
    -- With the routes of main, and whatever the connections do: if a request whose trimmed op is
    -- account.delete was served, then its session was authenticated and the session's user had no
    -- pending deletion, or the tables, the sessions, their registry and the closed connections
    -- are as before.
    pub handle-account_delete :
        (routes : Routes Middleware Handler) (x x' : Exchange) (w : Wire) (frame : Frame)
        (op : GoString) (request : Bytes)
        → main_routes messages crypto ≡ some routes
        → read_frame_wire x.wire ≡ (ReadResult.ok frame, w)
        → unmarshal frame.payload ≡ some (op, request)
        → trim_space op ≡ codes "account.delete"
        → handle messages.codec unmarshal routes session x ≡ some x'
        → ((is_authenticated session x.server ≡ true)
            × (exists
                  (deletion_of (trim_space (session_user_id session x.server)))
                  x.server.backend.db.pending_account_deletions
                ≡ false))
          ⊎ Unharmed x.server x'.server
    unfolding handle delete_in
    handle-account_delete routes x x' w frame op request built arrived decoded named h =
        let y : Exchange = record x { wire = w } in
        let found : lookup (trim_space op) routes ≡ some delete_entry =
          ap (λ (k : GoString). lookup k routes) named
          ∙ sym (ap (λ o. delete_in o) built)
          ∙ delete-found in
        let chosen : dispatch unmarshal routes (ReadResult.ok frame)
            ≡ accepts delete_entry request =
          dispatch-accepts unmarshal routes frame op request delete_entry decoded
            (subst IsPath (sym named) delete_path-IsPath) found in
        elim (run_pass _ (auth_middleware session x.server) y x' 1
          (sym (run_guard session request y) ∙ rw (arrived, chosen) at h)) [
            | inl passed ↦ inl (auth_middleware-goes_on session x.server passed)
            | inr same ↦
                inr
                  (subst (Unharmed x.server) (sym same) (auth_middleware-Unharmed session x.server))
          ]
