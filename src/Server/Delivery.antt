-- ===== src/Server/Delivery.antt =====
-- services/rttx-server/src/server.rs: whom a broadcast reaches, and what a full push channel leads to.
use rttx.Common.{
  ◌≡◌, refl, ap, arith, inl, inr, Uuid, ◌==◌, Bool, true, false, not, ◌&&◌, Option, none, some,
  List, [], ◌∷◌, Bool-cases, contains, IsDistinct, if◌then◌else◌,
}
use rttx.Common.Dict.{Dict, get, keys, get-insert, get-remove}
use rttx.Workspace.{Workspace}
use rttx.Wire.Uuids.{uuid_to_bytes}
use rttx.Wire.Messages.{ServerEnvelope, stream_overflow, build_push_envelope}
use rttx.Server.{Host, Server, TrySend, sent, full, closed}
use rttx.Server.Channels.{
  push, push_all, is_excluded, speaks, opt_resync, opt_clipboard_osc52, force_disconnect_client,
  send_stream_overflow, handle_single_push_overflow_for_workspace, Collected, targeted,
  send_to_collected,
}

module _ (h : Host) where
  -- A client's sender after one `try_send` to it.
  abbrev pub after_send : ServerEnvelope → Option h.Sender → Option h.Sender
  after_send msg none = none
  after_send msg (some sender) = some (h.try_send sender msg).0

  pushed_to :
      (d : Dict h.Sender) (c b : Uuid) (msg : ServerEnvelope) (o : Option h.Sender)
      → get d c ≡ o
      → get (push h d c msg).0 b ≡ (if c == b then after_send msg (get d b) else get d b)
  unfolding push
  pushed_to d c b msg none q = ground (arith, q, λ (e : c ≡ b). ap (get d) e)
  pushed_to d c b msg (some sender) q =
      ground (arith, q, get-insert d c b (h.try_send sender msg).0, λ (e : c ≡ b). ap (get d) e)

  get-push :
      (d : Dict h.Sender) (c b : Uuid) (msg : ServerEnvelope)
      → get (push h d c msg).0 b ≡ (if c == b then after_send msg (get d b) else get d b)
  get-push d c b msg = pushed_to d c b msg (get d c) refl

  -- The first loop of a broadcast to distinct clients: each of them that is not excluded and has a
  -- push channel is sent the message once, and no other channel is touched.
  pub get-push_all :
      (d : Dict h.Sender) (cs : List Uuid) (exclude : Option Uuid) (msg : ServerEnvelope) (b : Uuid)
      → IsDistinct cs
      → get (push_all h d cs exclude msg).0 b ≡ (
          if contains cs b && not (is_excluded exclude b)
          then after_send msg (get d b)
          else get d b)
  unfolding push_all
  get-push_all d [] exclude msg b n = refl
  get-push_all d (c ∷ cs) exclude msg b n = elim (Bool-cases (is_excluded exclude c)) [
    | inl out ↦ ground (
      arith,
      out,
      get-push_all d cs exclude msg b n.1,
      n.0,
      λ (e : c ≡ b). ap (is_excluded exclude) e,
      λ (e : c ≡ b). ap (contains cs) e,
    )
    | inr goes ↦ ground (
      arith,
      goes,
      get-push_all (push h d c msg).0 cs exclude msg b n.1,
      get-push d c b msg,
      n.0,
      λ (e : c ≡ b). ap (is_excluded exclude) e,
      λ (e : c ≡ b). ap (contains cs) e,
    )
  ]

abbrev is_sent : TrySend → Bool
is_sent sent = true
is_sent full = false
is_sent closed = false

abbrev pub overflow_push : (h : Host) → Uuid → ServerEnvelope
overflow_push h id = build_push_envelope (stream_overflow (uuid_to_bytes h.uuids id) none 1)

module _ {h : Host} (c id : Uuid) (s : Server h) where
  -- Whether the client negotiated resynchronisation, and whether its response channel takes the event.
  abbrev pub resyncs : Bool
  resyncs = speaks (get s.client_protocols c) opt_resync

  abbrev pub takes_event : Option h.Sender → Bool
  takes_event none = false
  takes_event (some resp_tx) = is_sent (h.try_send resp_tx (overflow_push h id)).1

  overflow_result :
      (b : Uuid) (o : Option h.Sender)
      → IsDistinct (keys s.client_senders)
      → get s.client_resp_senders c ≡ o
      → (get (send_stream_overflow c id s o).client_senders b
          ≡ (if c == b && not (takes_event o) then none else get s.client_senders b))
        × (get (send_stream_overflow c id s o).client_resp_senders b ≡ (
            if c == b
            then after_send h (overflow_push h id) (get s.client_resp_senders b)
            else get s.client_resp_senders b))
  unfolding send_stream_overflow force_disconnect_client
  overflow_result b none n q =
      ground (
        arith,
        q,
        get-remove s.client_senders c b n,
        λ (e : c ≡ b). ap (get s.client_resp_senders) e,
      )
  overflow_result b (some resp_tx) n q = ground (
    arith,
    q,
    get-remove s.client_senders c b n,
    get-insert s.client_resp_senders c b (h.try_send resp_tx (overflow_push h id)).0,
    λ (e : c ≡ b). ap (get s.client_resp_senders) e,
  )

  -- After an overflow of its push channel a client keeps that channel if it negotiated
  -- resynchronisation and its response channel takes a `StreamOverflow` event, which is sent there if
  -- it negotiated this; else it loses the push channel, and nobody else's channels change.
  pub handle_single_push_overflow_for_workspace-Told :
      (b : Uuid)
      → IsDistinct (keys s.client_senders)
      → (get (handle_single_push_overflow_for_workspace c id s).client_senders b ≡ (
          if c == b && not (resyncs && takes_event (get s.client_resp_senders c))
          then none
          else get s.client_senders b))
        × (get (handle_single_push_overflow_for_workspace c id s).client_resp_senders b ≡ (
            if c == b && resyncs
            then after_send h (overflow_push h id) (get s.client_resp_senders b)
            else get s.client_resp_senders b))
  unfolding handle_single_push_overflow_for_workspace force_disconnect_client
  handle_single_push_overflow_for_workspace-Told b n = elim (Bool-cases resyncs) [
    | inl able ↦ ground (arith, able, overflow_result b (get s.client_resp_senders c) n refl)
    | inr mute ↦ ground (arith, mute, get-remove s.client_senders c b n)
  ]

module _ {h : Host} (s : Server h) (holder : Uuid) (msg : ServerEnvelope) where
  -- The one send of a clipboard write, to a client with a push channel that negotiated it.
  abbrev pub clipboard_send : Option h.Sender → List (Collected h)
  clipboard_send none = []
  clipboard_send (some sender) =
      if speaks (get s.client_protocols holder) opt_clipboard_osc52
      then (holder, (h.try_send sender msg).0, get s.client_protocols holder) ∷ []
      else []

  abbrev Sends : List Uuid → List (Collected h) → Type 0
  Sends cs senders =
      (send_to_collected h (targeted h holder senders) msg).0
      ≡ (if contains cs holder then clipboard_send (get s.client_senders holder) else [])
