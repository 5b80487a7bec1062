-- ===== src/Context/Tests.antt =====
-- A feed of updates under a small codec.
use ppgram.Prelude.{
  codes, ◌=s=◌, true, false, List, [], ◌∷◌, ◌++◌, none, some, length, ◌≡◌, refl, arith,
}
use ppgram.Transport.{Bytes, read_frame_wire, read_full, decode_header, read_payload}
use ppgram.Session.Samples.{with_session}
use ppgram.Prelude.Maps.{lookup, insert}
use ppgram.Context.{
  ContextMaps, set_value, get_value, set_param, get_param, Codec, new_server_updates,
  new_client_updates, session_ended, ClientUpdates, next_update, read_update, take_update,
  decode_update, decoded,
}
use ppgram.Context.Samples.{encode_toy, decode_toy, toy_codec, writer}
use ppgram.Context.Feed.{Feed, Call, Represents, send_updates, replay, send_updates-Represents}
use ppgram.Context.RoundTrip.{Decodes, collect, next_updates, next_updates-send_updates}
use ppgram.Context.Sequence.{TookAll, next_updates-TookAll}

abbrev toy : Codec Bytes
toy = toy_codec λ b. b

toy-Decodes : Decodes toy none with_session
unfolding decode_toy encode_toy
toy-Decodes e p h k = ground arith

-- An update, a call without a body, the last update, and one more.
abbrev calls : List (Call Bytes)
calls =
    record { server = with_session; last = false; update = some (7 ∷ []) }
    ∷ record { server = with_session; last = false; update = none }
    ∷ record { server = with_session; last = true; update = some (8 ∷ 9 ∷ []) }
    ∷ record { server = with_session; last = true; update = some (4 ∷ []) }
    ∷ []

send_updates-Represents_example :
    Represents toy []
      (replay toy calls (send_updates toy none calls (new_server_updates writer)).0 [])
      (send_updates toy none calls (new_server_updates writer)).1
send_updates-Represents_example = send_updates-Represents toy none calls writer refl

live : session_ended none with_session ≡ false
unfolding session_ended
live = refl

next_updates-send_updates_example :
    let (es, c) = send_updates toy none calls (new_server_updates writer) in
    let feed = replay toy calls es [] in
    let (read, c') =
      next_updates toy none with_session
        (length feed)
        (new_client_updates (record writer { inbox = c.wire.sent ++ 1 ∷ [] })) in
    (read ≡ some feed) × (c'.wire.inbox ≡ 1 ∷ [])
next_updates-send_updates_example =
    next_updates-send_updates toy none with_session none calls writer writer (1 ∷ []) toy-Decodes
      live refl refl

-- Two updates, of which the second is the last one, and two bytes behind them.
abbrev two_updates : Bytes
two_updates = 5 ∷ 0 ∷ 0 ∷ 0 ∷ 3 ∷ 0 ∷ 0 ∷ 7 ∷ 5 ∷ 0 ∷ 0 ∷ 0 ∷ 4 ∷ 1 ∷ 1 ∷ 8 ∷ 9 ∷ 6 ∷ 6 ∷ []

abbrev arrived : ClientUpdates
arrived = new_client_updates (record writer { inbox = two_updates })

-- The third call finds the feed ended.
abbrev three_calls : Feed
three_calls = (false, 7 ∷ []) ∷ (true, 8 ∷ 9 ∷ []) ∷ (true, 8 ∷ 9 ∷ []) ∷ []

three_calls_read : (next_updates toy none with_session 3 arrived).0 ≡ some three_calls
unfolding next_updates collect next_update read_update take_update session_ended decode_update
    decoded decode_toy read_frame_wire read_full decode_header read_payload
three_calls_read = refl

next_updates-TookAll_example :
    TookAll toy 0 false three_calls two_updates
      (next_updates toy none with_session 3 arrived).1.wire.inbox
next_updates-TookAll_example =
    next_updates-TookAll toy none with_session 3 arrived {feed = three_calls} (omega arith)
      three_calls_read

-- What was set is found, a parameter that was not set is empty.
abbrev maps : ContextMaps Bytes
maps =
    set_param (codes "id") (codes "7")
      (set_value (codes "k") (1 ∷ []) (record { params = []; values = [] }))

value_found : get_value (codes "k") maps ≡ some (1 ∷ [])
unfolding set_param set_value get_value lookup insert ◌=s=◌
value_found = refl

param_found : get_param (codes "id") maps ≡ codes "7"
unfolding set_param set_value get_param lookup insert ◌=s=◌
param_found = refl

param_missing : get_param (codes "k") maps ≡ []
unfolding set_param set_value get_param lookup insert ◌=s=◌
param_missing = refl
