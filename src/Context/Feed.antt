-- ===== src/Context/Feed.antt =====
-- What a peer is sent by `SendUpdate` of `ServerUpdatesContext`, as an abstract feed.
use ppgram.Prelude.{
  ℕ, suc, ◌+◌, ◌%◌, ◌^◌, ◌-◌, ◌<◌, Bool, true, false, ◌||◌, List, [], ◌∷◌, ◌++◌, Option, none, some,
  length, ltb, if◌then◌else◌, ◌≡◌, ◌⊎◌, subst, refl, ap, arith, sym, ◌∙◌, append_assoc, append-nil,
  length-append, Bool-cases, inl, inr,
}
use ppgram.Transport.{Bytes, Wire, frame_too_large, write_frame_wire}
use ppgram.Transport.Write.{encode_frame}
use ppgram.Session.{Server}
use ppgram.Context.{
  UpdateEnvelope, Codec, session_revoked, marshal_failed, of_transport, ContextError, data_frame,
  write_envelope, session_ended, ServerUpdates, new_server_updates, write_update, send_base_update,
  after_update, send_some_update, send_update,
}
use ppgram.Context.Free.{add_sent, write_frame-free}

-- The updates that were published, each with whether it is the last one.
abbrev pub Feed : Type 0
Feed = List (Bool × Bytes)

unfoldable pub has_end : Feed → Bool
has_end [] = false
has_end ((last, update) ∷ feed) = last || has_end feed

-- After the last update nothing is published.
unfoldable pub publish : Bool → Bytes → Feed → Feed
publish last update feed = if has_end feed then feed else feed ++ (last, update) ∷ []

-- Only the last update is marked as the last one.
abbrev pub EndsLast : Feed → Type 0
EndsLast [] = Unit
EndsLast ((true, update) ∷ feed) = feed ≡ []
EndsLast ((false, update) ∷ feed) = EndsLast feed

abbrev pub envelope : ℕ → Bool → Bytes → UpdateEnvelope
envelope n last update = record { seq = n % 2 ^ 64; last = last; update = update }

-- One call of a handler, with the sessions at that time.
pub record Call (Message : Type 0) : Type 0 where
  pub server : Server
  pub last : Bool
  pub update : Option Message

-- After an update was sent as the envelope `p`.
abbrev sent_update : Bool → Bytes → ServerUpdates → ServerUpdates
sent_update last p c = record {
  next_seq = (c.next_seq + 1) % 2 ^ 64;
  ended = last;
  wire = add_sent (encode_frame (data_frame p)) c.wire;
}

module _ {Message : Type 0} (codec : Codec Message) where
  -- The bytes are the frames of the feed, numbered from `n` on.
  abbrev pub Encoded : ℕ → Feed → Bytes → Type 0
  Encoded n [] bytes = bytes ≡ []
  Encoded n ((last, update) ∷ feed) bytes =
      (p : Bytes) × (tail : Bytes) × (codec.marshal_update (envelope n last update) ≡ some p)
      × (length p < 2 ^ 32)
      × (bytes ≡ encode_frame (data_frame p) ++ tail)
      × Encoded (suc n) feed tail

  -- The feed that was published on a stream on which `base` had been sent before.
  pub record Represents (base : Bytes) (feed : Feed) (c : ServerUpdates) : Type 0 where
    pub seq : c.next_seq ≡ length feed % 2 ^ 64
    pub ended : c.ended ≡ has_end feed
    pub ends_last : EndsLast feed
    pub frames : Bytes
    pub encoded : Encoded 0 feed frames
    pub sent : c.wire.sent ≡ base ++ frames
    pub takes_all : c.wire.accepts ≡ []

  -- The calls of a handler, which may go on after an error.
  unfoldable pub send_updates :
      Option ℕ → List (Call Message) → ServerUpdates → List (Option ContextError) × ServerUpdates
  unfolding send_update
  send_updates session [] c = ([], c)
  send_updates session (call ∷ calls) c =
      let (e, c') = send_update codec session call.server call.last call.update c in
      let (es, c'') = send_updates session calls c' in (e ∷ es, c'')

  -- What a call that returned nil has published.
  unfoldable pub publish_marshalled : Option Bytes → Bool → Feed → Feed
  unfolding publish
  publish_marshalled none last feed = feed
  publish_marshalled (some bytes) last feed = publish last bytes feed

  unfoldable pub publish_call : Option ContextError → Bool → Option Message → Feed → Feed
  unfolding publish_marshalled
  publish_call (some e) last update feed = feed
  publish_call none last none feed = feed
  publish_call none last (some update) feed = publish_marshalled (codec.marshal update) last feed

  -- The abstract run: only the calls that returned nil count.
  unfoldable pub replay : List (Call Message) → List (Option ContextError) → Feed → Feed
  unfolding publish_call
  replay (call ∷ calls) (e ∷ es) feed = replay calls es (publish_call e call.last call.update feed)
  replay _ _ feed = feed

  Encoded-append :
      (n : ℕ) (feed : Feed) (frames : Bytes) (last : Bool) (update p : Bytes)
      → Encoded n feed frames
      → codec.marshal_update (envelope (n + length feed) last update) ≡ some p
      → length p < 2 ^ 32
      → Encoded n (feed ++ (last, update) ∷ []) (frames ++ encode_frame (data_frame p))
  Encoded-append n [] frames last update p h marshals fits = (
    p,
    [],
    ap (λ (k : ℕ). codec.marshal_update (envelope k last update)) (omega arith) ∙ marshals,
    fits,
    ap (λ (b : Bytes). b ++ encode_frame (data_frame p)) h
        ∙ sym (append-nil (encode_frame (data_frame p))),
    refl,
  )
  Encoded-append n ((end, body) ∷ feed) frames last update p (q, tail, m, f, e, h) marshals fits = (
    q,
    tail ++ encode_frame (data_frame p),
    m,
    f,
    ap (λ (b : Bytes). b ++ encode_frame (data_frame p)) e
        ∙ append_assoc (encode_frame (data_frame q)) tail (encode_frame (data_frame p)),
    Encoded-append (suc n) feed tail last update p h
        (ap (λ (k : ℕ). codec.marshal_update (envelope k last update)) (omega arith) ∙ marshals)
        fits,
  )

  has_end-append :
      (feed : Feed) (last : Bool) (update : Bytes)
      → has_end feed ≡ false
      → (has_end (feed ++ (last, update) ∷ []) ≡ last) × EndsLast (feed ++ (last, update) ∷ [])
  unfolding has_end
  has_end-append [] true update h = (refl, refl)
  has_end-append [] false update h = (refl, tt)
  has_end-append ((true, body) ∷ feed) last update h = cc h
  has_end-append ((false, body) ∷ feed) last update h = has_end-append feed last update h

  -- A step that published an update.
  Represents-sent_update :
      (base : Bytes) (feed : Feed) (c : ServerUpdates) (last : Bool) (update p : Bytes)
      → Represents base feed c
      → has_end feed ≡ false
      → codec.marshal_update (record { seq = c.next_seq; last = last; update = update }) ≡ some p
      → length p < 2 ^ 32
      → Represents base (feed ++ (last, update) ∷ []) (sent_update last p c)
  Represents-sent_update base feed c last update p h going marshals fits =
      let (ends, once) = has_end-append feed last update going in
      record {
        seq = omega (arith, h.seq, length-append feed ((last, update) ∷ []));
        ended = sym ends;
        ends_last = once;
        frames = h.frames ++ encode_frame (data_frame p);
        encoded =
            Encoded-append 0 feed h.frames last update p h.encoded
              (ap
                  (λ (k : ℕ).
                    codec.marshal_update (record { seq = k; last = last; update = update }))
                  (omega (arith, h.seq))
                ∙ marshals)
              fits;
        sent =
            ap (λ (b : Bytes). b ++ encode_frame (data_frame p)) h.sent
            ∙ append_assoc base h.frames (encode_frame (data_frame p));
        takes_all = h.takes_all;
      }

  -- An envelope was not written at all, or it was written whole.
  abbrev Wrote : Option Bytes → Wire → Option ContextError × Wire → Type 0
  Wrote o w r =
      ((e : ContextError) × (r ≡ (some e, w)))
      ⊎ ((p : Bytes) × (o ≡ some p)
          × (length p < 2 ^ 32)
          × (r ≡ (none, add_sent (encode_frame (data_frame p)) w)))

  write_envelope-Wrote :
      (o : Option Bytes) (w : Wire) → w.accepts ≡ [] → Wrote o w (write_envelope o w)
  unfolding write_envelope
  write_envelope-Wrote none w h = inl (marshal_failed, refl)
  write_envelope-Wrote (some p) w h = elim (Bool-cases (ltb (2 ^ 32 - 1) (length p))) [
    | inl large ↦ inl (of_transport frame_too_large, unfold write_frame_wire in rw large refl)
    | inr fits ↦ inr (p, refl, ground arith, rw (write_frame-free (data_frame p) w h fits) refl)
  ]

  -- The same for the base's SendUpdate.
  abbrev WroteUpdate : Message → ℕ → Bool → Wire → Option ContextError × Wire → Type 0
  WroteUpdate m seq last w r =
      ((e : ContextError) × (r ≡ (some e, w)))
      ⊎ ((update : Bytes) × (p : Bytes) × (codec.marshal m ≡ some update)
          × (codec.marshal_update (record { seq = seq; last = last; update = update }) ≡ some p)
          × (length p < 2 ^ 32)
          × (r ≡ (none, add_sent (encode_frame (data_frame p)) w)))

  write_update-WroteUpdate :
      (m : Message) (o : Option Bytes) (seq : ℕ) (last : Bool) (w : Wire)
      → w.accepts ≡ []
      → codec.marshal m ≡ o
      → WroteUpdate m seq last w (write_update codec seq last o w)
  unfolding write_update
  write_update-WroteUpdate m none seq last w h k = inl (marshal_failed, refl)
  write_update-WroteUpdate m (some update) seq last w h k =
      elim (write_envelope-Wrote
        (codec.marshal_update (record { seq = seq; last = last; update = update })) w h) [
          | inl failed ↦ inl failed
          | inr (p, marshals, fits, written) ↦ inr (update, p, k, marshals, fits, written)
        ]

  send_base_update-WroteUpdate :
      (session : Option ℕ) (server : Server) (seq : ℕ) (last : Bool) (m : Message) (w : Wire)
      → w.accepts ≡ []
      → WroteUpdate m seq last w (send_base_update codec session server seq last m w)
  unfolding send_base_update
  send_base_update-WroteUpdate session server seq last m w h =
      elim (Bool-cases (session_ended session server)) [
        | inl ended ↦ inl (session_revoked, rw ended refl)
        | inr goes_on ↦ rw goes_on (write_update-WroteUpdate m _ seq last w h refl)
      ]

  publish_ended :
      (last : Bool) (update : Option Message) (feed : Feed)
      → has_end feed ≡ true
      → publish_call none last update feed ≡ feed
  unfolding publish_call publish_marshalled publish
  publish_ended last none feed h = refl
  publish_ended last (some m) feed h =
      elim (codec.marshal m) as (λ o. publish_marshalled o last feed ≡ feed) [
        | none ↦ refl
        | some update ↦ rw h refl
      ]

  publish_going :
      (last : Bool) (m : Message) (update : Bytes) (feed : Feed)
      → has_end feed ≡ false
      → codec.marshal m ≡ some update
      → publish_call none last (some m) feed ≡ feed ++ (last, update) ∷ []
  unfolding publish_call publish_marshalled publish
  publish_going last m update feed h k = rw (k, h) refl

  send_some_update-Represents :
      (base : Bytes) (session : Option ℕ) (server : Server) (last : Bool) (update : Option Message)
      (feed : Feed) (c : ServerUpdates)
      → Represents base feed c
      → has_end feed ≡ false
      → Represents base
          (publish_call (send_some_update codec session server last update c).0 last update feed)
          (send_some_update codec session server last update c).1
  unfolding send_some_update after_update publish_call
  send_some_update-Represents base session server last none feed c h going = h
  send_some_update-Represents base session server last (some m) feed c h going =
      elim (send_base_update-WroteUpdate session server c.next_seq last m c.wire h.takes_all) [
        | inl (e, failed) ↦ rw failed h
        | inr (body, p, marshals, encodes, fits, written) ↦ rw written (
            subst (λ (f : Feed). Represents base f (sent_update last p c))
              (sym (publish_going last m body feed going marshals))
              (Represents-sent_update base feed c last body p h going encodes fits))
      ]

  -- The test on `ended`, on a field of the context.
  if_ended-Represents :
      (t : Bool) (base : Bytes) (last : Bool) (update : Option Message) (feed : Feed)
      (c : ServerUpdates) (r : Option ContextError × ServerUpdates)
      → Represents base feed c
      → has_end feed ≡ t
      → (has_end feed ≡ false → Represents base (publish_call r.0 last update feed) r.1)
      → Represents base
          (publish_call (if t then (none, c) else r).0 last update feed)
          (if t then (none, c) else r).1
  if_ended-Represents true base last update feed c r h e sends =
      subst (λ (f : Feed). Represents base f c) (sym (publish_ended last update feed e)) h
  if_ended-Represents false base last update feed c r h e sends = sends e

  send_update-Represents :
      (base : Bytes) (session : Option ℕ) (server : Server) (last : Bool) (update : Option Message)
      (feed : Feed) (c : ServerUpdates)
      → Represents base feed c
      → Represents base
          (publish_call (send_update codec session server last update c).0 last update feed)
          (send_update codec session server last update c).1
  unfolding send_update
  send_update-Represents base session server last update feed c h =
      if_ended-Represents c.ended base last update feed c
        (send_some_update codec session server last update c) h (sym h.ended)
        (send_some_update-Represents base session server last update feed c h)

  send_updates_from-Represents :
      (base : Bytes) (session : Option ℕ) (calls : List (Call Message)) (feed : Feed)
      (c : ServerUpdates)
      → Represents base feed c
      → Represents base
          (replay calls (send_updates session calls c).0 feed)
          (send_updates session calls c).1
  unfolding send_updates replay
  send_updates_from-Represents base session [] feed c h = h
  send_updates_from-Represents base session (call ∷ calls) feed c h =
      send_updates_from-Represents base session calls _ _
        (send_update-Represents base session call.server call.last call.update feed c h)

  -- On a stream that takes what it is given, any calls of SendUpdate, in which sessions may be
  -- revoked, bodies be missing and encodings fail, implement an abstract feed: what was sent is
  -- exactly the frames of the updates of those calls that returned nil, up to the first that is
  -- marked as the last one, numbered from 0 on modulo 2^64; the next number and the mark of the
  -- end are those of the feed.
  pub send_updates-Represents :
      (session : Option ℕ) (calls : List (Call Message)) (w : Wire)
      → w.accepts ≡ []
      → Represents w.sent
          (replay calls (send_updates session calls (new_server_updates w)).0 [])
          (send_updates session calls (new_server_updates w)).1
  unfolding has_end
  send_updates-Represents session calls w h =
      send_updates_from-Represents w.sent session calls [] (new_server_updates w) (record {
        seq = omega arith;
        ended = refl;
        ends_last = tt;
        frames = [];
        encoded = refl;
        sent = sym (append-nil w.sent);
        takes_all = h;
      })
