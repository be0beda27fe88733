-- ===== src/Server/Connection/Sound.antt =====
-- services/rttx-server/src/server.rs: what holds of the daemon from its start on, over all its
-- connections.
use rttx.Common.{◌≡◌, refl, ap, ◌∙◌, Uuid, Bool, true, false, some, List, [], ◌∷◌}
use mathlib.Core.Path.{subst}
use rttx.Common.Dict.{Dict, get}
use rttx.Pane.{Engine}
use rttx.Workspace.{Workspace, DetachReason}
use rttx.Workspace.Panes.Coherent.{IsCoherent}
use rttx.Workspace.Run.{detaches, step}
use rttx.Workspace.Run.Coherent.{step-IsCoherent}
use rttx.Workspace.Run.Revision.{IsLedger, step-IsLedger}
use rttx.Server.{Host, Server}
use rttx.Server.Moves.Keeps.{step_keeps}
use rttx.Server.Moves.Refines.{handle_v3_message-Moves}
use rttx.Server.Invariant.{IsSound, Owned}
use rttx.Server.Invariant.Holds.{Moves-IsSound}
use rttx.Server.Connection.{
  Event, connects, handshakes, receives, disconnects, IsFresh, AreFresh, serve, serve_all,
  new_server, detach_all, remove_client, register_client, set_client_protocol, capabilities_of,
}
use rttx.Server.Connection.Leaves.{detached_from, get-detach_all, keys-detach_all, found-Before}

module _ {e : Engine} (c : Uuid) (d : Dict (Workspace e)) where
  detached_all :
      (P : Workspace e → Type 0)
      → ((w : Workspace e) → P w → P (step w (detaches c DetachReason.disconnect)))
      → ((id : Uuid) (w : Workspace e) → get d id ≡ some w → P w)
      → (id : Uuid) (w : Workspace e) → get (detach_all c d) id ≡ some w
      → P w
  unfolding step
  detached_all P keeps all id w found =
      let b = found-Before c id d w found in
      subst P b.left (keeps b.workspace (all id b.workspace b.found))

  detached-Owned : (p : Uuid) → Owned d p → Owned (detach_all c d) p
  unfolding step
  detached-Owned p o = record {
    owner = o.owner;
    workspace = step o.workspace (detaches c DetachReason.disconnect);
    found = get-detach_all c o.owner d ∙ ap (detached_from c) o.found;
    has = step_keeps o.workspace (detaches c DetachReason.disconnect) p refl o.has;
  }

module _ {h : Host} where
  new_server-IsSound : IsSound (new_server h)
  unfolding new_server get
  new_server-IsSound = record {
    distinct = tt;
    distinct_writers = tt;
    distinct_kills = tt;
    coherent = λ id w found. cc;
    ledger = λ id w found. cc;
    owned = λ p k. cc;
    paired = λ p. refl;
  }

  remove_client-IsSound :
      (c : Uuid) (handshake_completed : Bool) (s : Server h)
      → IsSound s
      → IsSound (remove_client c handshake_completed s)
  unfolding remove_client
  remove_client-IsSound c true s v = record {
    distinct = rw (keys-detach_all c s.workspaces) v.distinct;
    distinct_writers = v.distinct_writers;
    distinct_kills = v.distinct_kills;
    coherent =
        detached_all c s.workspaces IsCoherent
          (λ w k. step-IsCoherent w (detaches c DetachReason.disconnect) k) v.coherent;
    ledger =
        detached_all c s.workspaces IsLedger
          (λ w k. (step-IsLedger w (detaches c DetachReason.disconnect) k).0) v.ledger;
    owned = λ p k. detached-Owned c s.workspaces p (v.owned p k);
    paired = v.paired;
  }
  remove_client-IsSound c false s v = record {
    distinct = v.distinct;
    distinct_writers = v.distinct_writers;
    distinct_kills = v.distinct_kills;
    coherent = v.coherent;
    ledger = v.ledger;
    owned = v.owned;
    paired = v.paired;
  }

  serve-IsSound : (e : Event h) (s : Server h) → IsFresh e s → IsSound s → IsSound (serve e s)
  unfolding serve register_client set_client_protocol
  serve-IsSound (connects c tx resp_tx) s fresh v = record {
    distinct = v.distinct;
    distinct_writers = v.distinct_writers;
    distinct_kills = v.distinct_kills;
    coherent = v.coherent;
    ledger = v.ledger;
    owned = v.owned;
    paired = v.paired;
  }
  serve-IsSound (handshakes c effective_caps) s fresh v = record {
    distinct = v.distinct;
    distinct_writers = v.distinct_writers;
    distinct_kills = v.distinct_kills;
    coherent = v.coherent;
    ledger = v.ledger;
    owned = v.owned;
    paired = v.paired;
  }
  serve-IsSound (receives x c envelope) s fresh v =
      Moves-IsSound
        (handle_v3_message-Moves x c (capabilities_of (get s.client_protocols c)) envelope s fresh)
        v
  serve-IsSound (disconnects c handshake_completed) s fresh v =
      remove_client-IsSound c handshake_completed s v

-- From a sound state, whatever clients connect, send and disconnect, in any order, and while a new
-- UUID names no workspace yet, the state is sound: every workspace is coherent, with one writer at
-- most and a revision in range, and every PTY belongs to a pane of a workspace.
pub serve_all-IsSound :
    {h : Host} (es : List (Event h)) (s : Server h)
    → AreFresh es s
    → IsSound s
    → IsSound (serve_all es s)
unfolding serve_all
serve_all-IsSound [] s fresh v = v
serve_all-IsSound (e ∷ es) s fresh v =
    serve_all-IsSound es (serve e s) fresh.1 (serve-IsSound e s fresh.0 v)
