-- ===== src/Server/Moves.antt =====
-- services/rttx-server/src/server.rs: what one message may do to the workspaces and their PTYs, as a
-- relation of the daemon before and after. The clients' channels and the sizes that they
-- report are left open.
pub mod Steps
pub mod Drawing
pub mod Lifecycle
pub mod Lease
pub mod Panes
pub mod Viewport
pub mod Reported
pub mod Refines
pub mod Keeps
use rttx.Common.{
  ℕ, ◌≡◌, refl, ◌∙◌, Uuid, Bool, true, false, Option, none, some, List, [], ◌∷◌, is_some, contains,
}
use rttx.Common.Dict.{Dict, get, insert, remove, keys}
use rttx.Common.Text.{Text}
use rttx.Pane.{Engine, Pane}
use rttx.Workspace.{
  Workspace, WorkspacePolicy, ClientRole, writer, AttachMode, read_write, read_only, take_over,
  DetachReason,
}
use rttx.Workspace
use rttx.Workspace.Lease.{client_role, client_has_write_access}
use rttx.Workspace.Run.{
  Call, adds, splits, resizes_split, focuses, names, renames, titles, flags, refreshes, removes,
  attaches, detaches, resizes, step,
}
use rttx.Wire.Sizes.{min_client_pane_size}
use rttx.Wire.Messages.{Bytes}
use rttx.Server.Handlers.Viewport.{write_pty, sizes_of_pane}
use rttx.Server.{Host, Server, World}
use rttx.Server.Handlers.Panes.{insert_pty}
use rttx.Workspace.Run.Revision.{Quiet}
use rttx.Common.{not, ◌&&◌}

-- The workspaces become `d`; the PTYs, with what was written to them, stay as they were.
pub record Sets {h : Host} (d : Dict (Workspace h.engine)) (s s' : Server h) : Type 0 where
  pub workspaces : s'.workspaces ≡ d
  pub writers : s'.pty_writers ≡ s.pty_writers
  pub kills : s'.pty_kill_senders ≡ s.pty_kill_senders

-- `some c`: the client has write access. `none`: nobody asks.
abbrev pub Permits : {e : Engine} → Option Uuid → Workspace e → Type 0
Permits none w = Unit {0}
Permits (some c) w = client_has_write_access w c ≡ true

abbrev pub is_removal : {e : Engine} → Call e → Bool
is_removal (removes id) = true
is_removal _ = false

-- The calls that need the write lease, but for a removal.
abbrev pub is_edit : {e : Engine} → Call e → Bool
is_edit (adds pane) = true
is_edit (splits target pane axis ratio) = true
is_edit (resizes_split path ratio) = true
is_edit (focuses id) = true
is_edit (names name) = true
is_edit (renames name) = true
is_edit (resizes id cols rows) = true
is_edit (titles id title) = true
is_edit (flags id flag) = true
is_edit _ = false

abbrev pub is_take_over : AttachMode → Bool
is_take_over take_over = true
is_take_over read_write = false
is_take_over read_only = false

-- The panes of the two maps are the same under the same keys, but for their screens.
abbrev pub SamePanes : {e : Engine} → Dict (Pane e) → Dict (Pane e) → Type 0
SamePanes [] [] = Unit {0}
SamePanes ((i, p) ∷ d) ((j, q) ∷ d') =
    ((i ≡ j) × (record p { screen = q.screen } ≡ q)) × SamePanes d d'
SamePanes _ _ = ⊥

-- The panes are drawn anew, and the workspace is the same but for their screens.
pub record Redraws {e : Engine} (w w' : Workspace e) : Type 0 where
  pub panes : SamePanes w.panes w'.panes
  pub rest : record w { panes = w'.panes } ≡ w'

unfoldable pub remove_all {ℓ} : {V : Type ℓ} → Dict V → List Uuid → Dict V
remove_all d [] = d
remove_all d (k ∷ ks) = remove_all (remove d k) ks

-- `w` and its panes, with their PTYs, leave the daemon.
pub record Ends {h : Host} (id : Uuid) (w : Workspace h.engine) (s s' : Server h) : Type 0 where
  pub workspaces : s'.workspaces ≡ remove s.workspaces id
  pub writers : s'.pty_writers ≡ remove_all s.pty_writers (keys w.panes)
  pub kills : s'.pty_kill_senders ≡ remove_all s.pty_kill_senders (keys w.panes)

-- What a client `c` may do in the world `x`; `seizing` says whether it may take a lease that another
-- client holds. With the write lease, or if nobody has it (`Permits`): an edit, a new PTY for a pane of
-- the workspace, input to a pane's PTY, the end of a pane, and of a workspace. If attached: the
-- size that the reports of all clients give a pane. Else: a new workspace, joining and leaving one
-- itself, and, of any workspace, new screens and the name that its panes give it.
pub data Moves {h : Host} (x : World) (c : Option Uuid) (seizing : Bool)
    : Server h → Server h → Type 0 where
  rests : {s s' : Server h} → Sets s.workspaces s s' → Moves x c seizing s s'
  follows :
      {s t u : Server h} → Moves x c seizing s t → Moves x c seizing t u → Moves x c seizing s u
  creates :
      {s s' : Server h} (name : Text) (policy : WorkspacePolicy)
      → get s.workspaces x.new_v4 ≡ none
      → Sets
          (insert s.workspaces x.new_v4
            (record (Workspace.new h.engine x.new_v4 x.now name) { policy = policy }))
          s
          s'
      → Moves x c seizing s s'
  edits :
      {s s' : Server h} (id : Uuid) (w : Workspace h.engine) (call : Call h.engine)
      → get s.workspaces id ≡ some w
      → Permits c w
      → is_edit call ≡ true
      → Sets (insert s.workspaces id (step w call)) s s'
      → Moves x c seizing s s'
  shares :
      {s s' : Server h} (id : Uuid) (w : Workspace h.engine) (pane cols rows : ℕ) (client : Uuid)
      → get s.workspaces id ≡ some w
      → c ≡ some client
      → is_some (client_role w client) ≡ true
      → min_client_pane_size (sizes_of_pane s.client_pane_sizes pane) ≡ some (cols, rows)
      → Sets (insert s.workspaces id (step w (resizes pane cols rows))) s s'
      → Moves x c seizing s s'
  joins :
      {s s' : Server h} (id : Uuid) (w : Workspace h.engine) (client : Uuid) (mode : AttachMode)
      (now : ℕ)
      → get s.workspaces id ≡ some w
      → c ≡ some client
      → (is_take_over mode && not seizing) ≡ false
      → Sets (insert s.workspaces id (step w (attaches client mode now))) s s'
      → Moves x c seizing s s'
  leaves :
      {s s' : Server h} (id : Uuid) (w : Workspace h.engine) (client : Uuid) (reason : DetachReason)
      → get s.workspaces id ≡ some w
      → c ≡ some client
      → Sets (insert s.workspaces id (step w (detaches client reason))) s s'
      → Moves x c seizing s s'
  redraws :
      {s s' : Server h} (id : Uuid) (w w' : Workspace h.engine)
      → get s.workspaces id ≡ some w
      → Redraws w w'
      → Sets (insert s.workspaces id w') s s'
      → Moves x c seizing s s'
  renews :
      {s s' : Server h} (id : Uuid) (w : Workspace h.engine)
      → get s.workspaces id ≡ some w
      → Sets (insert s.workspaces id (step w (refreshes x.proc_cwd))) s s'
      → Moves x c seizing s s'
  types :
      {s s' : Server h} (id pane : Uuid) (w : Workspace h.engine) (bytes : Bytes)
      → get s.workspaces id ≡ some w
      → Permits c w
      → is_some (get w.panes pane) ≡ true
      → s'.workspaces ≡ s.workspaces
      → s'.pty_writers ≡ (write_pty pane bytes s).pty_writers
      → s'.pty_kill_senders ≡ s.pty_kill_senders
      → Moves x c seizing s s'
  opens :
      {s s' : Server h} (id pane : Uuid) (w : Workspace h.engine)
      → get s.workspaces id ≡ some w
      → Permits c w
      → is_some (get w.panes pane) ≡ true
      → s'.workspaces ≡ s.workspaces
      → s'.pty_writers ≡ (insert_pty pane s).pty_writers
      → s'.pty_kill_senders ≡ (insert_pty pane s).pty_kill_senders
      → Moves x c seizing s s'
  closes :
      {s s' : Server h} (id pane : Uuid) (w : Workspace h.engine)
      → get s.workspaces id ≡ some w
      → Permits c w
      → s'.workspaces ≡ insert s.workspaces id (step w (removes pane))
      → s'.pty_writers ≡ remove s.pty_writers pane
      → s'.pty_kill_senders ≡ remove s.pty_kill_senders pane
      → Moves x c seizing s s'
  ends :
      {s s' : Server h} (id : Uuid) (w : Workspace h.engine)
      → get s.workspaces id ≡ some w
      → ((holder : Uuid) → get w.attached_clients holder ≡ some writer → Permits c w)
      → Ends id w s s'
      → Moves x c seizing s s'
  reinserts :
      {s s' : Server h} (id : Uuid) (w : Workspace h.engine)
      → get s.workspaces id ≡ some w
      → Sets (insert (remove s.workspaces id) id w) s s'
      → Moves x c seizing s s'
