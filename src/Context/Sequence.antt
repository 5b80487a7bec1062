-- ===== src/Context/Sequence.antt =====
-- What `NextUpdate` makes of any bytes: which updates it returns, and what it takes from the stream.
use ppgram.Prelude.{
  ℕ, zero, suc, ◌+◌, ◌%◌, ◌^◌, Bool, true, false, ◌==◌, [], ◌∷◌, ◌++◌, Option, none, some, ◌≡◌,
  refl, ap, sym, arith, ◌∙◌, subst, All, Bool-cases, inl, inr, if◌then◌else◌,
}
use ppgram.Transport.{Bytes, Wire, Frame, ReadResult, ok, err, read_frame_wire}
use ppgram.Transport.Write.{encode_frame}
use ppgram.Transport.Read.{IsByte, IsFrame}
use ppgram.Transport.RoundTrip.{read_frame_sound}
use ppgram.Session.{Server}
use ppgram.Context.{
  UpdateEnvelope, Codec, Reading, gives, fails, session_ended, ClientUpdates, decoded,
  decode_update, read_update, take_update, next_update,
}
use ppgram.Context.Feed.{Feed}
use ppgram.Context.RoundTrip.{collect, next_updates}

collect-eq-some :
    (r : Reading Bool) (update : Bytes) (rest : Option Feed) {feed : Feed}
    → collect r update rest ≡ some feed
    → (last : Bool) × (tail : Feed) × (r ≡ gives last)
      × (rest ≡ some tail)
      × (feed ≡ (last, update) ∷ tail)
unfolding collect
collect-eq-some (fails e) update rest h = cc h
collect-eq-some (gives last) update none h = cc h
collect-eq-some (gives last) update (some tail) h = (last, tail, refl, refl, cc h)

All-append_right : (xs ys : Bytes) → All IsByte (xs ++ ys) → All IsByte ys
All-append_right [] ys h = h
All-append_right (x ∷ xs) ys (p, h) = All-append_right xs ys h

decoded-eq-gives :
    (o : Option UpdateEnvelope) {e : UpdateEnvelope} → decoded o ≡ gives e → o ≡ some e
unfolding decoded
decoded-eq-gives none h = cc h
decoded-eq-gives (some e) h = cc h

module _ {Message : Type 0} (codec : Codec Message) where
  -- The frame of the update with the number `n` was taken.
  pub record Took (n : ℕ) (last : Bool) (update before after : Bytes) : Type 0 where
    pub frame : Frame
    pub is_frame : IsFrame frame
    pub taken : before ≡ encode_frame frame ++ after
    pub decodes :
        codec.unmarshal_update frame.payload
        ≡ some (record { seq = n; last = last; update = update })

  -- Of the bytes `before`, the frames of the updates of a feed were taken, with numbers from `n` on;
  -- behind the last update nothing is taken, and all that is given is that the feed has ended.
  unfoldable pub TookAll : ℕ → Bool → Feed → Bytes → Bytes → Type 0
  TookAll n ended [] before after = before ≡ after
  TookAll n true ((last, update) ∷ feed) before after =
      (last ≡ true) × TookAll n true feed before after
  TookAll n false ((last, update) ∷ feed) before after =
      (middle : Bytes) × Took n last update before middle
      × TookAll ((n + 1) % 2 ^ 64) last feed middle after

  TookAll-ended :
      (n : ℕ) (ended last : Bool) (update : Bytes) (feed : Feed) (before after : Bytes)
      → ended ≡ true
      → last ≡ true
      → TookAll n ended feed before after
      → TookAll n ended ((last, update) ∷ feed) before after
  unfolding TookAll
  TookAll-ended n true last update feed before after e l h = (l, h)
  TookAll-ended n false last update feed before after e l h = cc e

  TookAll-going :
      (n : ℕ) (ended last : Bool) (update : Bytes) (feed : Feed) (before middle after : Bytes)
      → ended ≡ false
      → Took n last update before middle
      → TookAll ((n + 1) % 2 ^ 64) last feed middle after
      → TookAll n ended ((last, update) ∷ feed) before after
  unfolding TookAll
  TookAll-going n true last update feed before middle after e took h = cc e
  TookAll-going n false last update feed before middle after e took h = (middle, took, h)

  decode_update-eq-gives :
      (r : ReadResult Frame × Wire) {e : UpdateEnvelope}
      → (decode_update codec r).0 ≡ gives e
      → (frame : Frame) × (r.0 ≡ ok frame)
        × (codec.unmarshal_update frame.payload ≡ some e)
        × ((decode_update codec r).1 ≡ r.1)
  unfolding decode_update
  decode_update-eq-gives (err e', w) h = cc h
  decode_update-eq-gives (ok frame, w) h =
      (frame, refl, decoded-eq-gives (codec.unmarshal_update frame.payload) h, refl)

  take_update-eq-gives :
      (r : Reading UpdateEnvelope × Wire) (c : ClientUpdates) {last : Bool}
      → (take_update codec r c).0 ≡ gives last
      → let c' = (take_update codec r c).1 in
        (r.0 ≡ gives (record { seq = c.next_seq; last = last; update = c'.update }))
        × (c'.next_seq ≡ (c.next_seq + 1) % 2 ^ 64)
        × (c'.ended ≡ last)
        × (c'.wire ≡ r.1)
  unfolding take_update
  take_update-eq-gives (fails e, w) c h = cc h
  take_update-eq-gives (gives envelope, w) c {last} h =
      elim (Bool-cases (envelope.seq == c.next_seq)) [
        | inl e ↦
            let same : envelope.seq ≡ c.next_seq = ground (arith, e) in
            let marked : gives envelope.last ≡ gives last = rw e at h in
            let end : envelope.last ≡ last = cc marked in
            rw e (
              ap (λ (n : ℕ). gives (record envelope { seq = n })) same
                  ∙ ap
                      (λ (b : Bool).
                        gives (record { seq = c.next_seq; last = b; update = envelope.update }))
                      end,
              refl,
              end,
              refl,
            )
        | inr e ↦ cc (rw e at h)
      ]

  read_update-eq-gives :
      (session : Option ℕ) (server : Server) (w : Wire) {e : UpdateEnvelope}
      → All IsByte w.inbox
      → (read_update codec session server w).0 ≡ gives e
      → (frame : Frame) × IsFrame frame
        × (w.inbox ≡ encode_frame frame ++ (read_update codec session server w).1.inbox)
        × (codec.unmarshal_update frame.payload ≡ some e)
  unfolding read_update
  read_update-eq-gives session server w {e} bytes h =
      elim (Bool-cases (session_ended session server)) [
        | inl ended ↦ cc (rw ended at h)
        | inr live ↦
            let (frame, found, decodes, left) =
              decode_update-eq-gives (read_frame_wire w) {e = e} (rw live at h) in
            let (is_frame, taken) = read_frame_sound w bytes found in
            (frame, is_frame, rw (live, left) taken, decodes)
      ]

  module _ (session : Option ℕ) (server : Server) where
    next_update-at :
        (c : ClientUpdates) (ended : Bool)
        → c.ended ≡ ended
        → next_update codec session server c ≡ (
            if ended
            then (gives true, c)
            else take_update codec (read_update codec session server c.wire) c)
    unfolding next_update
    next_update-at c ended = ap (λ (b : Bool).
        if b
        then (gives true, c)
        else take_update codec (read_update codec session server c.wire) c)

    next_update-Took :
        (c : ClientUpdates) {last : Bool}
        → All IsByte c.wire.inbox
        → c.ended ≡ false
        → (next_update codec session server c).0 ≡ gives last
        → let c' = (next_update codec session server c).1 in
          Took c.next_seq last c'.update c.wire.inbox c'.wire.inbox
          × (c'.next_seq ≡ (c.next_seq + 1) % 2 ^ 64)
          × (c'.ended ≡ last)
    next_update-Took c {last} bytes going h =
        let r = read_update codec session server c.wire in
        let (given, seq, end, left) =
          take_update-eq-gives r c {last = last} (rw (next_update-at c false going) at h) in
        let (frame, is_frame, taken, decodes) =
          read_update-eq-gives session server c.wire bytes given in
        rw (next_update-at c false going, left)
          (
            record { frame = frame; is_frame = is_frame; taken = taken; decodes = decodes },
            seq,
            end,
          )

    -- Whatever bytes arrive, and with the sessions as they are: if a number of calls of
    -- NextUpdate all return without an error, then each call up to the first that gives an update
    -- marked as the last one has taken exactly one frame from the front of the stream, whose
    -- payload decodes to the update that it gives, with that mark of the end and the number that
    -- the context expects, which each call counts up by one modulo 2^64; the calls after it take
    -- nothing and say that the feed has ended.
    pub next_updates-TookAll :
        (n : ℕ) (c : ClientUpdates) {feed : Feed}
        → All IsByte c.wire.inbox
        → (next_updates codec session server n c).0 ≡ some feed
        → TookAll c.next_seq c.ended feed c.wire.inbox
            (next_updates codec session server n c).1.wire.inbox
    unfolding next_updates TookAll
    next_updates-TookAll zero c {feed} bytes h =
        let none_read : [] ≡ feed = cc h in
        subst (λ (f : Feed). TookAll c.next_seq c.ended f c.wire.inbox c.wire.inbox) none_read refl
    next_updates-TookAll (suc n) c {feed} bytes h =
        let (r, c') = next_update codec session server c in
        let left = (next_updates codec session server n c').1.wire.inbox in
        let (last, tail, given, rest, split) =
          collect-eq-some r c'.update (next_updates codec session server n c').0 h in
        subst (λ (f : Feed). TookAll c.next_seq c.ended f c.wire.inbox left) (sym split)
          (elim (Bool-cases c.ended) [
            | inl ended ↦
                let stays = next_update-at c true ended in
                let same : c' ≡ c = ap (λ (x : Reading Bool × ClientUpdates). x.1) stays in
                let says : gives last ≡ gives true =
                  sym given ∙ ap (λ (x : Reading Bool × ClientUpdates). x.0) stays in
                TookAll-ended c.next_seq c.ended last c'.update tail c.wire.inbox left ended
                  (cc says)
                  (subst (λ (d : ClientUpdates). TookAll d.next_seq d.ended tail d.wire.inbox left)
                    same
                    (next_updates-TookAll n c'
                      (subst (λ (d : ClientUpdates). All IsByte d.wire.inbox) (sym same) bytes)
                      rest))
            | inr going ↦
                let (took, seq, end) = next_update-Took c bytes going given in
                TookAll-going c.next_seq c.ended last c'.update tail c.wire.inbox c'.wire.inbox left
                  going took
                  (subst (λ (m : ℕ). TookAll m last tail c'.wire.inbox left) seq
                    (subst (λ (b : Bool). TookAll c'.next_seq b tail c'.wire.inbox left) end
                      (next_updates-TookAll n c'
                        (All-append_right (encode_frame took.frame) c'.wire.inbox
                          (subst (All IsByte) took.taken bytes))
                        rest)))
          ])
