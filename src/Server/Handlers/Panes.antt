-- ===== src/Server/Handlers/Panes.antt =====
-- services/rttx-server/src/server.rs: the messages that create, split, close, feed and change panes.
-- A spawn has two phases: between them the locks are free, so the second finds the workspace anew.
use rttx.Common.{
  ℕ, ◌%◌, ◌^◌, ◌++◌, Uuid, Bool, true, false, Option, none, some, [], ◌∷◌, ltb, if◌then◌else◌,
  is_some, ok, err,
}
use rttx.Common.Dict.{Dict, get, insert, keys}
use rttx.Common.Float.{F32, half_f32}
use rttx.Common.Text.{Text, text}
use rttx.Pane.{Engine, Pane, effective_cwd}
use rttx.Pane
use rttx.PaneTree.{SplitAxis, ratio_is_valid}
use rttx.WorkspaceTree
use rttx.Workspace.{Workspace}
use rttx.Workspace.Panes.{add_pane, split_pane, remove_pane}
use rttx.Wire.Errors.{ProtocolError, internal, spawn_failure, pane_not_found, build_error}
use rttx.Wire.Uuids.{uuid_to_bytes}
use rttx.Wire.Tree.{
  axis_from, axis_number, horizontal_axis, split_axis_to_proto, proto_axis_to_split,
}
use rttx.Wire.Messages.{
  Bytes, CreatePane, Payload, SplitPane, pane_created, pane_closed, pane_split, build_push_envelope,
}
use rttx.Server.{
  Host, Server, Action, PaneSpawnConfig, Effect, spawns, kills, removes_pane_state, pure, gets,
  asks, or_raise, raise_unless, modify, put_workspace, ◌>>=◌, ◌>>◌,
}
use rttx.Server.Channels.{release_pty}
use rttx.Server.Handlers.{
  Request, refusal, no_workspace, no_pane, broadcast, writable_workspace, decode_request,
  decode_named,
}

abbrev unwrap_or {ℓ} : {A : Type ℓ} → Option A → A → A
unwrap_or none d = d
unwrap_or (some a) d = a

abbrev pub or_else {ℓ} : {A : Type ℓ} → Option A → Option A → Option A
or_else none b = b
or_else (some a) b = some a

-- `if n > 0 { n as u16 } else { d }`
unfoldable pub dimension : ℕ → ℕ → ℕ
dimension n d = if ltb 0 n then n % 2 ^ 16 else d

abbrev pub fits_u16 : ℕ → Bool
fits_u16 n = ltb n (2 ^ 16)

module _ {e : Engine} where
  -- services/rttx-server/src/workspace.rs
  unfoldable pub any_pane_cwd : (ℕ → Option Text) → Dict (Pane e) → Option Text
  unfolding effective_cwd
  any_pane_cwd proc [] = none
  any_pane_cwd proc ((id, p) ∷ d) = or_else (effective_cwd proc p) (any_pane_cwd proc d)

  abbrev pub pane_cwd : (ℕ → Option Text) → Option (Pane e) → Option Text
  pane_cwd proc none = none
  pane_cwd proc (some p) = effective_cwd proc p

  unfoldable pub create_config :
      (ℕ → Option Text) → Workspace e → Uuid → CreatePane → PaneSpawnConfig
  unfolding any_pane_cwd dimension
  create_config proc w runtime_id req = record {
    runtime_id = runtime_id;
    no_persist = unwrap_or req.no_persist false;
    dark_background = unwrap_or req.dark_background true;
    cwd = or_else req.cwd (any_pane_cwd proc w.panes);
    cols = dimension req.cols 80;
    rows = dimension req.rows 24;
  }

  -- A split inherits the working directory of the pane that it splits.
  unfoldable pub split_config :
      (ℕ → Option Text) → Workspace e → Uuid → Uuid → SplitPane → PaneSpawnConfig
  unfolding any_pane_cwd dimension
  split_config proc w runtime_id target req = record {
    runtime_id = runtime_id;
    no_persist = unwrap_or req.no_persist false;
    dark_background = unwrap_or req.dark_background true;
    cwd =
        or_else req.cwd (or_else (pane_cwd proc (get w.panes target)) (any_pane_cwd proc w.panes));
    cols = dimension req.cols 80;
    rows = dimension req.rows 24;
  }

-- `Pane::new` with the three fields that a spawn fills in.
unfoldable pub spawned_pane : (e : Engine) → Uuid → PaneSpawnConfig → Option ℕ → Pane e
unfolding Pane.new
spawned_pane e pane_id config child_pid = record (Pane.new e pane_id config.cols config.rows) {
  child_pid = child_pid;
  no_persist = config.no_persist;
  cwd = config.cwd;
}

-- `split_axis_to_proto(axis) as i32` of the axis that a request names.
abbrev pub requested_axis : ℕ → SplitAxis
requested_axis axis = proto_axis_to_split (unwrap_or (axis_from axis) horizontal_axis)

abbrev pub requested_ratio : F32 → F32
requested_ratio ratio = if ratio_is_valid ratio then ratio else half_f32

module _ {h : Host} where
  abbrev pub record_effect : Effect → Server h → Server h
  record_effect effect s = record s { effects = s.effects ++ (effect ∷ []) }

  -- `engine.spawn_pane`
  unfoldable pub spawn : Text → Uuid → PaneSpawnConfig → Action h ProtocolError (Option ℕ)
  unfolding build_error
  spawn operation pane_id config x s = elim (x.spawn_pane pane_id config) [
    | ok child_pid ↦ (record_effect (spawns pane_id) s, ok child_pid)
    | err e ↦ (s, err (build_error internal (spawn_failure e) operation))
  ]

  -- `child.start_kill()`, and the answer behind it.
  abbrev pub kill_and_raise : {A : Type 0} → Uuid → ProtocolError → Action h ProtocolError A
  kill_and_raise pane_id e x s = (record_effect (kills pane_id) s, err e)

  unfoldable pub insert_pty : Uuid → Server h → Server h
  insert_pty pane_id s = record s {
    pty_writers = insert s.pty_writers pane_id (record { written = [] });
    pty_kill_senders = insert s.pty_kill_senders pane_id tt;
  }

  -- The second phase of a `CreatePane`, on the workspace if it is still there.
  unfoldable pub finish_create_in :
      Uuid → Uuid → PaneSpawnConfig → Option ℕ → Option (Workspace h.engine) → Request h
  unfolding add_pane spawned_pane insert_pty put_workspace uuid_to_bytes
  finish_create_in runtime_id pane_id config child_pid none =
      kill_and_raise pane_id (no_workspace (text "CreatePane"))
  finish_create_in runtime_id pane_id config child_pid (some w) = do
    let w' : Workspace h.engine = add_pane w (spawned_pane h.engine pane_id config child_pid)
    put_workspace runtime_id w'
    modify (insert_pty pane_id)
    pure (
        pane_created (uuid_to_bytes h.uuids runtime_id) (uuid_to_bytes h.uuids pane_id) w'.revision)

  unfoldable pub finish_create_pane : Uuid → Uuid → PaneSpawnConfig → Option ℕ → Request h
  unfolding finish_create_in
  finish_create_pane runtime_id pane_id config child_pid = do
    workspaces ← gets (λ s. s.workspaces)
    finish_create_in runtime_id pane_id config child_pid (get workspaces runtime_id)

  unfoldable pub handle_v3_create_pane : Uuid → CreatePane → Request h
  unfolding decode_request writable_workspace any_pane_cwd dimension spawn finish_create_pane
  handle_v3_create_pane client_id req = do
    runtime_id ← decode_request (text "CreatePane") req.runtime_id
    pane_id ← asks (λ x. x.new_v4)
    w ← writable_workspace (text "CreatePane") client_id runtime_id
    proc ← asks (λ x. x.proc_cwd)
    let config = create_config proc w runtime_id req
    child_pid ← spawn (text "CreatePane") pane_id config
    finish_create_pane runtime_id pane_id config child_pid

  -- What a split that happened leaves behind.
  unfoldable pub commit_split : Uuid → Uuid → Uuid → Workspace h.engine → Payload → Request h
  unfolding put_workspace insert_pty build_push_envelope
  commit_split client_id runtime_id pane_id w event = do
    put_workspace runtime_id w
    modify (insert_pty pane_id)
    broadcast (keys w.attached_clients) (some client_id) (build_push_envelope event)
    pure event

  -- The second phase of a `SplitPane`: the target may be gone.
  unfoldable pub finish_split_in :
      Uuid
      → Uuid
      → Uuid
      → Uuid
      → SplitPane
      → PaneSpawnConfig
      → Option ℕ
      → Option (Workspace h.engine)
      → Request h
  unfolding split_pane spawned_pane insert_pty put_workspace build_push_envelope uuid_to_bytes
      split_axis_to_proto proto_axis_to_split axis_from axis_number refusal
  finish_split_in client_id runtime_id target pane_id req config child_pid none =
      kill_and_raise pane_id (no_workspace (text "SplitPane"))
  finish_split_in client_id runtime_id target pane_id req config child_pid (some w) =
      let axis = requested_axis req.axis in
      let ratio = requested_ratio req.ratio in
      let r = split_pane w target (spawned_pane h.engine pane_id config child_pid) axis ratio in
      let event =
        pane_split (uuid_to_bytes h.uuids runtime_id) (uuid_to_bytes h.uuids target)
          (uuid_to_bytes h.uuids pane_id) (axis_number (split_axis_to_proto axis)) ratio
          r.0.revision in
      if is_some r.1
      then commit_split client_id runtime_id pane_id r.0 event
      else kill_and_raise pane_id
          (refusal pane_not_found (text "split target pane not found") (text "SplitPane"))

  unfoldable pub finish_split_pane :
      Uuid → Uuid → Uuid → Uuid → SplitPane → PaneSpawnConfig → Option ℕ → Request h
  unfolding finish_split_in
  finish_split_pane client_id runtime_id target pane_id req config child_pid = do
    workspaces ← gets (λ s. s.workspaces)
    finish_split_in client_id runtime_id target pane_id req config child_pid
        (get workspaces runtime_id)

  unfoldable pub handle_v3_split_pane : Uuid → SplitPane → Request h
  unfolding decode_named writable_workspace any_pane_cwd dimension spawn finish_split_pane refusal
  handle_v3_split_pane client_id req = do
    runtime_id ← decode_named (text "SplitPane") (text "invalid workspace id") req.runtime_id
    target ← decode_named (text "SplitPane") (text "invalid target pane id") req.target_pane_id
    pane_id ← asks (λ x. x.new_v4)
    w ← writable_workspace (text "SplitPane") client_id runtime_id
    raise_unless (WorkspaceTree.contains_pane w.tree target)
        (refusal pane_not_found (text "split target pane not found") (text "SplitPane"))
    proc ← asks (λ x. x.proc_cwd)
    let config = split_config proc w runtime_id target req
    child_pid ← spawn (text "SplitPane") pane_id config
    finish_split_pane client_id runtime_id target pane_id req config child_pid

  unfoldable pub handle_v3_close_pane : Uuid → Bytes → Bytes → Request h
  unfolding decode_request writable_workspace remove_pane put_workspace release_pty
      build_push_envelope uuid_to_bytes
  handle_v3_close_pane client_id id pane = do
    runtime_id ← decode_request (text "ClosePane") id
    pane_id ← decode_request (text "ClosePane") pane
    w ← writable_workspace (text "ClosePane") client_id runtime_id
    let r = remove_pane w pane_id
    put_workspace runtime_id r.0
    or_raise r.1 (no_pane (text "ClosePane"))
    modify (release_pty pane_id)
    modify (record_effect (removes_pane_state runtime_id pane_id))
    let event =
        pane_closed (uuid_to_bytes h.uuids runtime_id) (uuid_to_bytes h.uuids pane_id) r.0.revision
    broadcast (keys r.0.attached_clients) (some client_id) (build_push_envelope event)
    pure event
