-- ===== src/Server/Connection.antt =====
-- services/rttx-server/src/server.rs: a client's connection, from `handle_client`'s registration to its
-- cleanup, and what the daemon does over the events of all its connections.
pub mod Sound
pub mod Leaves
use rttx.Common.{ℕ, ◌≡◌, Uuid, Bool, true, false, Option, none, some, List, [], ◌∷◌, if◌then◌else◌}
use rttx.Common.Dict.{Dict, get, insert, remove}
use rttx.Pane.{Engine}
use rttx.Workspace.{Workspace, DetachReason}
use rttx.Workspace.Lease.{detach_client}
use rttx.Wire.Messages.{ClientEnvelope}
use rttx.Server.{Host, Server, World, ClientProtocol, v3}
use rttx.Server.Dispatch.{handle_v3_message}

-- Every workspace in turn, its lock taken for the one call.
unfoldable pub detach_all : {e : Engine} → Uuid → Dict (Workspace e) → Dict (Workspace e)
unfolding detach_client
detach_all client_id [] = []
detach_all client_id ((id, w) ∷ d) =
    (id, (detach_client w client_id DetachReason.disconnect).0) ∷ detach_all client_id d

-- The capabilities that a client negotiated, none before its handshake.
unfoldable pub capabilities_of : Option ClientProtocol → List ℕ
capabilities_of none = []
capabilities_of (some (v3 effective_caps)) = effective_caps

-- What happens on the connections: a socket is accepted, a handshake succeeds, a message arrives, and a
-- connection ends, after its handshake or before it.
pub data Event (h : Host) : Type 0 where
  connects : Uuid → h.Sender → h.Sender → Event h
  handshakes : Uuid → List ℕ → Event h
  receives : World → Uuid → ClientEnvelope → Event h
  disconnects : Uuid → Bool → Event h

-- `Server::new`, before any saved state is loaded.
unfoldable pub new_server : (h : Host) → Server h
new_server h = record {
  workspaces = [];
  client_senders = [];
  client_resp_senders = [];
  client_protocols = [];
  pty_writers = [];
  pty_kill_senders = [];
  client_pane_sizes = [];
  effects = [];
}

module _ {h : Host} where
  unfoldable pub register_client : Uuid → h.Sender → h.Sender → Server h → Server h
  register_client client_id tx resp_tx s = record s {
    client_senders = insert s.client_senders client_id tx;
    client_resp_senders = insert s.client_resp_senders client_id resp_tx;
  }

  unfoldable pub set_client_protocol : Uuid → ClientProtocol → Server h → Server h
  set_client_protocol client_id protocol s = record s {
    client_protocols = insert s.client_protocols client_id protocol;
  }

  -- The cleanup at the end of `handle_client`.
  unfoldable pub remove_client : Uuid → Bool → Server h → Server h
  unfolding detach_all
  remove_client client_id handshake_completed s = record s {
    client_senders = remove s.client_senders client_id;
    client_resp_senders = remove s.client_resp_senders client_id;
    client_protocols = remove s.client_protocols client_id;
    client_pane_sizes = remove s.client_pane_sizes client_id;
    workspaces = if handshake_completed then detach_all client_id s.workspaces else s.workspaces;
  }

  unfoldable pub serve : Event h → Server h → Server h
  unfolding register_client set_client_protocol capabilities_of handle_v3_message remove_client
  serve (connects c tx resp_tx) s = register_client c tx resp_tx s
  serve (handshakes c effective_caps) s = set_client_protocol c (v3 effective_caps) s
  serve (receives x c envelope) s =
      (handle_v3_message x c (capabilities_of (get s.client_protocols c)) envelope s).0
  serve (disconnects c handshake_completed) s = remove_client c handshake_completed s

  unfoldable pub serve_all : List (Event h) → Server h → Server h
  unfolding serve
  serve_all [] s = s
  serve_all (e ∷ es) s = serve_all es (serve e s)

  -- A message's new UUID names no workspace yet.
  abbrev pub IsFresh : Event h → Server h → Type 0
  IsFresh (receives x c envelope) s = get s.workspaces x.new_v4 ≡ none
  IsFresh (connects c tx resp_tx) s = Unit {0}
  IsFresh (handshakes c effective_caps) s = Unit {0}
  IsFresh (disconnects c handshake_completed) s = Unit {0}

  abbrev pub AreFresh : List (Event h) → Server h → Type 0
  AreFresh [] s = Unit {0}
  AreFresh (e ∷ es) s = IsFresh e s × AreFresh es (serve e s)
