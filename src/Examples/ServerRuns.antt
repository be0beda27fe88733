-- ===== src/Examples/ServerRuns.antt =====
-- services/rttx-server/src/server.rs: a daemon with one workspace of two panes, which the client 7
-- writes to and the client 8 reads.
use rttx.Common.{
  ◌==◌, is_some, ℕ, Uuid, ◌≡◌, refl, arith, true, false, none, some, List, [], ◌∷◌, ◌++◌, length,
  ltb, if◌then◌else◌, is_some, contains, ok, ◌&&◌, not,
}
use mathlib.Core.Path.{subst}
use rttx.Common.Dict.{get, keys}
use rttx.Workspace.{Workspace, saturating_suc}
use rttx.Workspace.Lease.{
  client_has_write_access, has_write_owner, writer_client_id, find_writer, client_role,
}
use rttx.Workspace.Panes.Coherent.{IsCoherent}
use rttx.Workspace.Run.Revision.{IsLedger}
use rttx.Wire.Uuids.{uuid_to_bytes}
use rttx.Wire.Input.{raw}
use rttx.Wire.Messages.{
  ClientEnvelope, Command, takeover_workspace, close_pane, ping, ServerEnvelope,
  build_push_envelope, pong, workspace_terminated, is_fire_and_forget,
}
use rttx.Server.{Host, Server, World, PtyWriter, sent, full, v3}
use rttx.Server.Channels.{
  push_all, is_excluded, handle_single_push_overflow_for_workspace, opt_workspace_takeover,
  opt_workspace_inventory, opt_resync,
}
use rttx.Server.Inventory.{v3_workspace_info_for}
use rttx.Server.Handlers.Lease.{handle_takeover_workspace}
use rttx.Server.Handlers.Lifecycle.{handle_v3_terminate, handle_list_workspaces}
use rttx.Server.Handlers.Viewport.{handle_v3_terminal_input}
use rttx.Server.Dispatch.{handle_v3_message}
use rttx.Server.Moves.{Moves}
use rttx.Server.Invariant.{IsSound}
use rttx.Server.Connection.{
  Event, connects, handshakes, receives, disconnects, AreFresh, serve_all, remove_client,
}
use rttx.Server.Connection.Sound.{serve_all-IsSound}
use rttx.Server.Connection.Leaves.{Forgets, remove_client-Forgets}
use rttx.Server.Holder.{Held}
use rttx.Server.Holder.Spared.{handle_v3_message-Held}
use rttx.Server.Answers.{request_id_of, handle_v3_message-request_id}
use rttx.Server.Takeover.{is_ok, takeover_eligible-is_ok, Seized, handle_takeover_workspace-Seized}
use rttx.Server.Delivery.{
  get-push_all, after_send, resyncs, takes_event, overflow_push,
  handle_single_push_overflow_for_workspace-Told,
}
use rttx.Server.Listing.{
  IsSorted, count, listed, Test, on_info, on_workspace, handle_list_workspaces-IsSorted,
}
use rttx.Server.Endings.{
  handle_v3_terminate-Ends, written_to, arriving, handle_v3_terminal_input-delivered,
}
use rttx.Examples.{sized_engine, padded_uuids, shared, shared-IsLease, shared-IsCoherent}

-- A channel that holds two envelopes.
abbrev two_slots : Host
two_slots = record {
  engine = sized_engine;
  uuids = padded_uuids;
  Sender = List ServerEnvelope;
  try_send =
      λ sender msg. if ltb (length sender) 2 then (sender ++ (msg ∷ []), sent) else (sender, full);
}

abbrev quiet : World
quiet = record {
  now = 3000;
  new_v4 = 900;
  proc_cwd = λ pid. none;
  idle_shell = λ pid. none;
  contended = λ id. false;
  spawn_pane = λ id config. ok (some 77);
  resizes = λ id cols rows. true;
}

abbrev unused : PtyWriter
unused = record { written = [] }

abbrev shared_daemon : Server two_slots
shared_daemon = record {
  workspaces = (100, shared) ∷ [];
  client_senders =
      (7, []) ∷ (8, build_push_envelope (pong 0) ∷ build_push_envelope (pong 1) ∷ []) ∷ [];
  client_resp_senders = (7, []) ∷ (8, []) ∷ [];
  client_protocols = (7, v3 []) ∷ (8, v3 (opt_resync ∷ opt_workspace_takeover ∷ [])) ∷ [];
  pty_writers = (1, unused) ∷ (2, unused) ∷ [];
  pty_kill_senders = (1, tt) ∷ (2, tt) ∷ [];
  client_pane_sizes = [];
  effects = [];
}

shared-IsLedger : IsLedger shared
shared-IsLedger = record { bounded = ground arith; saved = ground arith; lease = shared-IsLease }

found_shared :
    (id : Uuid) (w : Workspace sized_engine) → get shared_daemon.workspaces id ≡ some w → shared ≡ w
unfolding get
found_shared id w k = ground (arith, k)

has_shared :
    (p : Uuid)
    → contains (keys shared_daemon.pty_writers) p ≡ true
    → is_some (get shared.panes p) ≡ true
unfolding get
has_shared p k = ground (arith, k)

shared_daemon-IsSound : IsSound shared_daemon
unfolding get
shared_daemon-IsSound = record {
  distinct = (refl, tt);
  distinct_writers = (refl, (refl, tt));
  distinct_kills = (refl, (refl, tt));
  coherent = λ id w k. subst IsCoherent (found_shared id w k) shared-IsCoherent;
  ledger = λ id w k. subst IsLedger (found_shared id w k) shared-IsLedger;
  owned = λ p k. record { owner = 100; workspace = shared; found = refl; has = has_shared p k };
  paired = λ p. refl;
}

abbrev asking : Command → ClientEnvelope
asking command = record { request_id = 1; command = some command }

-- The reader takes the lease over and closes a pane, the writer's connection ends, and a third client
-- connects.
abbrev events : List (Event two_slots)
events =
    receives quiet 8 (asking (takeover_workspace (uuid_to_bytes padded_uuids 100)))
    ∷ disconnects 7 true
    ∷ connects 9 [] []
    ∷ handshakes 9 (opt_resync ∷ [])
    ∷ []

events-AreFresh : AreFresh events shared_daemon
unfolding get
events-AreFresh = (refl, (tt, (tt, (tt, tt))))

serve_all-IsSound_example : IsSound (serve_all events shared_daemon)
serve_all-IsSound_example =
    serve_all-IsSound events shared_daemon events-AreFresh shared_daemon-IsSound

remove_client-Forgets_example : Forgets 7 shared_daemon (remove_client 7 true shared_daemon)
remove_client-Forgets_example =
    remove_client-Forgets 7 shared_daemon shared_daemon-IsSound (refl, (refl, tt))
      (refl, (refl, tt)) (refl, (refl, tt)) tt

abbrev wire_100 : List ℕ
wire_100 = uuid_to_bytes padded_uuids 100

abbrev wire_2 : List ℕ
wire_2 = uuid_to_bytes padded_uuids 2

handle_v3_message-Held_example :
    Held
      (handle_v3_message quiet 8 []
        (asking (close_pane wire_100 wire_2))
        shared_daemon).0.workspaces
      100
      7
      shared.tree
      (some 1)
      (1 ∷ 2 ∷ [])
unfolding get
handle_v3_message-Held_example =
    handle_v3_message-Held quiet 8 100 7 [] (asking (close_pane wire_100 wire_2)) shared_daemon
      shared.tree (some 1) (1 ∷ 2 ∷ []) (λ e. ground (arith, e)) refl refl shared_daemon-IsSound
      (record {
        workspace = shared;
        found = refl;
        holds = refl;
        tree_is = refl;
        focus_is = refl;
        panes_are = refl;
      })

handle_takeover_workspace-Seized_example :
    Seized
      (handle_takeover_workspace 8
        (opt_workspace_takeover ∷ [])
        wire_100
        quiet
        shared_daemon).0.workspaces
      100
      8
      7
unfolding get
handle_takeover_workspace-Seized_example =
    handle_takeover_workspace-Seized quiet 8 100 7 (opt_workspace_takeover ∷ []) shared
      shared_daemon refl refl refl shared-IsLease refl (λ e. ground (arith, e))

takeover_eligible-is_ok_example :
    (v3_workspace_info_for padded_uuids quiet.proc_cwd 8 shared
      (contains (opt_workspace_takeover ∷ []) opt_workspace_inventory)
      (contains (opt_workspace_takeover ∷ []) opt_workspace_takeover)).takeover_eligible
    ≡ (contains (opt_workspace_takeover ∷ []) opt_workspace_inventory
        && is_ok
            (handle_takeover_workspace 8
              (opt_workspace_takeover ∷ [])
              wire_100
              quiet
              shared_daemon).1)
unfolding get
takeover_eligible-is_ok_example =
    takeover_eligible-is_ok quiet 8 100 (opt_workspace_takeover ∷ []) shared shared_daemon refl

handle_v3_message-request_id_example :
    request_id_of (handle_v3_message quiet 8 [] (asking (ping 3)) shared_daemon).1 ≡ some 1
unfolding is_fire_and_forget
handle_v3_message-request_id_example =
    handle_v3_message-request_id quiet 8 [] (asking (ping 3)) shared_daemon

handle_v3_terminate-Ends_example :
    (get (handle_v3_terminate 7 wire_100 quiet shared_daemon).0.workspaces 100 ≡ none)
    × (contains (keys (handle_v3_terminate 7 wire_100 quiet shared_daemon).0.pty_writers) 2 ≡ false)
    × ((handle_v3_terminate 7 wire_100 quiet shared_daemon).1
        ≡ ok (workspace_terminated wire_100 (saturating_suc 5) 1))
unfolding get has_write_owner writer_client_id find_writer client_has_write_access client_role
handle_v3_terminate-Ends_example =
    handle_v3_terminate-Ends quiet 7 100 shared shared_daemon 2 refl refl refl shared_daemon-IsSound
      refl

handle_v3_terminal_input-delivered_example :
    (written_to (
        get
          (handle_v3_terminal_input 7 wire_100 wire_2
            (some (raw (97 ∷ [])))
            quiet
            shared_daemon).0.pty_writers
          2)
      ≡ written_to (get shared_daemon.pty_writers 2)
        ++ (if client_has_write_access shared 7
              && (2 == 2 && is_some (get shared_daemon.pty_writers 2))
            then arriving (some (raw (97 ∷ []))) (get shared.panes 2)
            else []))
    × ((handle_v3_terminal_input 7 wire_100 wire_2
          (some (raw (97 ∷ [])))
          quiet
          shared_daemon).0.workspaces
        ≡ shared_daemon.workspaces)
unfolding get
handle_v3_terminal_input-delivered_example =
    handle_v3_terminal_input-delivered quiet 7 100 2 2 (some (raw (97 ∷ []))) shared shared_daemon
      refl

get-push_all_example :
    get
      (push_all two_slots shared_daemon.client_senders
        (7 ∷ 8 ∷ [])
        none
        (build_push_envelope (pong 2))).0
      7
    ≡ (if contains (7 ∷ 8 ∷ []) 7 && not (is_excluded none 7)
        then after_send two_slots
            (build_push_envelope (pong 2))
            (get shared_daemon.client_senders 7)
        else get shared_daemon.client_senders 7)
get-push_all_example =
    get-push_all two_slots shared_daemon.client_senders (7 ∷ 8 ∷ []) none
      (build_push_envelope (pong 2)) 7 (refl, (refl, tt))

handle_single_push_overflow_for_workspace-Told_example :
    (get (handle_single_push_overflow_for_workspace 8 100 shared_daemon).client_senders 8 ≡ (
      if 8 == 8
        && not (
            resyncs 8 100 shared_daemon
            && takes_event 8 100 shared_daemon (get shared_daemon.client_resp_senders 8))
      then none
      else get shared_daemon.client_senders 8))
    × (get (handle_single_push_overflow_for_workspace 8 100 shared_daemon).client_resp_senders 8 ≡ (
        if 8 == 8 && resyncs 8 100 shared_daemon
        then after_send two_slots
            (overflow_push two_slots 100)
            (get shared_daemon.client_resp_senders 8)
        else get shared_daemon.client_resp_senders 8))
handle_single_push_overflow_for_workspace-Told_example =
    handle_single_push_overflow_for_workspace-Told 8 100 shared_daemon 8 (refl, (refl, tt))

abbrev named_work : Test
named_work id name revision has_writer = has_writer

handle_list_workspaces-IsSorted_example :
    IsSorted (λ i. i.id) (listed (handle_list_workspaces 8 [] quiet shared_daemon).1)
    × (count (on_info named_work) (listed (handle_list_workspaces 8 [] quiet shared_daemon).1)
        ≡ count (on_workspace padded_uuids named_work) shared_daemon.workspaces)
handle_list_workspaces-IsSorted_example =
    handle_list_workspaces-IsSorted quiet 8 [] shared_daemon named_work
