-- ===== src/Context/RoundTrip.antt =====
-- The updates of a feed, read by `NextUpdate` of the peer.
use ppgram.Prelude.{
  ℕ, zero, suc, ◌+◌, ◌%◌, ◌^◌, ◌<◌, Bool, true, false, ◌==◌, List, [], ◌∷◌, ◌++◌, Option, none,
  some, length, ◌≡◌, refl, ap, arith, ◌∙◌, append_assoc, append-nil,
}
use ppgram.Transport.{frame_type_data, Bytes, Wire, Frame, ok, read_frame_wire}
use ppgram.Transport.Write.{encode_frame}
use ppgram.Transport.Read.{read_frame-encode_frame}
use ppgram.Session.{Server}
use ppgram.Context.{
  UpdateEnvelope, Codec, Reading, gives, fails, data_frame, session_ended, ClientUpdates, decoded,
  new_client_updates, new_server_updates, decode_update, read_update, take_update, next_update,
}
use ppgram.Context.Feed.{
  Feed, EndsLast, envelope, Call, Encoded, send_updates, replay, send_updates-Represents,
}

-- What calls of `NextUpdate` give, one after the other, until one fails.
unfoldable pub collect : Reading Bool → Bytes → Option Feed → Option Feed
collect (fails e) update rest = none
collect (gives last) update none = none
collect (gives last) update (some feed) = some ((last, update) ∷ feed)

-- A frame with its length, as it is read.
abbrev read_frame_of : Bytes → Frame
read_frame_of p = record { frame_type = frame_type_data; length = length p; payload = p }

read_data_frame :
    (p rest : Bytes) (w : Wire)
    → length p < 2 ^ 32
    → w.inbox ≡ encode_frame (data_frame p) ++ rest
    → read_frame_wire w ≡ (ok (read_frame_of p), record w { inbox = rest })
unfolding encode_frame
read_data_frame p rest w fits inbox =
    ap (λ (b : Bytes). read_frame_wire (record w { inbox = b })) inbox
    ∙ read_frame-encode_frame (read_frame_of p) rest w
        (record { type_byte = omega arith; length = refl; fits = fits })

module _ {Message : Type 0} (codec : Codec Message) (session : Option ℕ) (server : Server) where
  unfoldable pub next_updates : ℕ → ClientUpdates → Option Feed × ClientUpdates
  unfolding next_update collect
  next_updates zero c = (some [], c)
  next_updates (suc n) c =
      let (r, c') = next_update codec session server c in
      let (feed, c'') = next_updates n c' in (collect r c'.update feed, c'')

  -- An envelope that was encoded is decoded to itself.
  abbrev pub Decodes : Type 0
  Decodes =
      (e : UpdateEnvelope) (p : Bytes)
      → e.seq < 2 ^ 64
      → codec.marshal_update e ≡ some p
      → codec.unmarshal_update p ≡ some e

  read_update-frame :
      (n : ℕ) (last : Bool) (update p rest : Bytes) (w : Wire)
      → Decodes
      → session_ended session server ≡ false
      → codec.marshal_update (envelope n last update) ≡ some p
      → length p < 2 ^ 32
      → w.inbox ≡ encode_frame (data_frame p) ++ rest
      → read_update codec session server w
        ≡ (gives (envelope n last update), record w { inbox = rest })
  unfolding read_update decode_update decoded
  read_update-frame n last update p rest w decodes live marshals fits inbox =
      rw
        (
          live,
          read_data_frame p rest w fits inbox,
          decodes (envelope n last update) p (omega arith) marshals,
        )
        refl

  -- The context of the peer, after `n` updates.
  record Awaits (n : ℕ) (bytes : Bytes) (c : ClientUpdates) : Type 0 where
    seq : c.next_seq ≡ n % 2 ^ 64
    going : c.ended ≡ false
    inbox : c.wire.inbox ≡ bytes

  abbrev after_envelope : ℕ → Bool → Bytes → Bytes → ClientUpdates → ClientUpdates
  after_envelope n last update rest c = record {
    seq = n % 2 ^ 64;
    update = update;
    ended = last;
    next_seq = (c.next_seq + 1) % 2 ^ 64;
    wire = record c.wire { inbox = rest };
  }

  next_update-frame :
      (n : ℕ) (last : Bool) (update p rest : Bytes) (c : ClientUpdates)
      → Decodes
      → session_ended session server ≡ false
      → codec.marshal_update (envelope n last update) ≡ some p
      → length p < 2 ^ 32
      → Awaits n (encode_frame (data_frame p) ++ rest) c
      → next_update codec session server c ≡ (gives last, after_envelope n last update rest c)
  unfolding next_update take_update
  next_update-frame n last update p rest c decodes live marshals fits h =
      let read = read_update-frame n last update p rest c.wire decodes live marshals fits h.inbox in
      let same : (n % 2 ^ 64 == c.next_seq) ≡ true = ground (arith, h.seq) in
      simp (h.going, read, same) refl

  -- The frames of a whole feed.
  next_updates-Encoded :
      (feed : Feed) (n : ℕ) (frames rest : Bytes) (c : ClientUpdates)
      → Decodes
      → session_ended session server ≡ false
      → Encoded codec n feed frames
      → EndsLast feed
      → Awaits n (frames ++ rest) c
      → ((next_updates (length feed) c).0 ≡ some feed)
        × ((next_updates (length feed) c).1.wire.inbox ≡ rest)
  unfolding next_updates collect
  next_updates-Encoded [] n frames rest c decodes live h once waits =
      (refl, waits.inbox ∙ ap (λ (b : Bytes). b ++ rest) h)
  next_updates-Encoded ((true, update) ∷ []) n frames rest c decodes live (p, tail, m, f, e, h) once
        waits =
      let waits' : Awaits n (encode_frame (data_frame p) ++ rest) c = record {
        seq = waits.seq;
        going = waits.going;
        inbox =
            waits.inbox
            ∙ ap (λ (b : Bytes). b ++ rest)
                (e
                  ∙ ap (λ (b : Bytes). encode_frame (data_frame p) ++ b) h
                  ∙ append-nil (encode_frame (data_frame p)));
      } in
      let read = next_update-frame n true update p rest c decodes live m f waits' in
      rw read (refl, refl)
  next_updates-Encoded ((true, update) ∷ (u ∷ feed)) n frames rest c decodes live h once waits =
      cc once
  next_updates-Encoded ((false, update) ∷ feed) n frames rest c decodes live (p, tail, m, f, e, h)
        once waits =
      let waits' : Awaits n (encode_frame (data_frame p) ++ (tail ++ rest)) c = record {
        seq = waits.seq;
        going = waits.going;
        inbox =
            waits.inbox
            ∙ ap (λ (b : Bytes). b ++ rest) e
            ∙ append_assoc (encode_frame (data_frame p)) tail rest;
      } in
      let read = next_update-frame n false update p (tail ++ rest) c decodes live m f waits' in
      let (given, left) =
        next_updates-Encoded feed (suc n) tail rest (after_envelope n false update (tail ++ rest) c)
          decodes live h once
          (record { seq = omega (arith, waits.seq); going = refl; inbox = refl }) in
      (
        rw (read, given) refl,
        ap (λ (r : Reading Bool × ClientUpdates). (next_updates (length feed) r.1).1.wire.inbox)
              read
            ∙ left,
      )

  -- If the codec decodes what it has encoded, the updates that any calls of SendUpdate have
  -- published on a fresh stream that takes what it is given are read from it by NextUpdate, as
  -- often as there are updates and for a session that is not revoked: the same updates in the
  -- same order with the same marks of the end, and the bytes behind them are left.
  pub next_updates-send_updates :
      (sender_session : Option ℕ) (calls : List (Call Message)) (sender receiver : Wire)
      (rest : Bytes)
      → Decodes
      → session_ended session server ≡ false
      → sender.accepts ≡ []
      → sender.sent ≡ []
      → let (es, c) = send_updates codec sender_session calls (new_server_updates sender) in
        let feed = replay codec calls es [] in
        let (read, c') =
          next_updates
            (length feed)
            (new_client_updates (record receiver { inbox = c.wire.sent ++ rest })) in
        (read ≡ some feed) × (c'.wire.inbox ≡ rest)
  next_updates-send_updates sender_session calls sender receiver rest decodes live takes_all fresh =
      let h = send_updates-Represents codec sender_session calls sender takes_all in
      next_updates-Encoded _ 0 h.frames rest _ decodes live h.encoded h.ends_last (record {
        seq = omega arith;
        going = refl;
        inbox = ap (λ (b : Bytes). b ++ rest) (h.sent ∙ ap (λ (b : Bytes). b ++ h.frames) fresh);
      })
