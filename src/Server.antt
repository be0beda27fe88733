-- ===== src/Server.antt =====
-- services/rttx-server/src/server.rs: the daemon's shared state, and the steps that its message
-- handlers are made of. A handler is an `Action`: what it wrote stays written when it then fails.
pub mod Channels
pub mod Inventory
pub mod Handlers
pub mod Dispatch
pub mod Connection
pub mod Moves
pub mod Invariant
pub mod Holder
pub mod Answers
pub mod Succeeds
pub mod Takeover
pub mod Delivery
pub mod Listing
pub mod Endings
use rttx.Common.{
  ℕ, Uuid, Bool, true, false, not, Option, none, some, List, [], ◌∷◌, if◌then◌else◌, Result, ok,
  err,
}
use rttx.Common.Dict.{Dict, get, insert, remove}
use rttx.Common.Text.{Text}
use rttx.Pane.{Engine, Pane}
use rttx.Workspace.{Workspace}
use rttx.Wire.Uuids.{UuidLib, FrameError, bytes_to_uuid}
use rttx.Wire.Messages.{ServerEnvelope, Bytes}

pub data TrySend : Type 0 where
  sent full closed : TrySend

-- The code outside the program: the terminal engine, the `uuid` crate, and the sender of a bounded
-- channel (`tokio::sync::mpsc::Sender`), which `try_send` may find full or closed.
pub record Host : Type 1 where
  pub engine : Engine
  pub uuids : UuidLib
  pub Sender : Type 0
  pub try_send : Sender → ServerEnvelope → Sender × TrySend

-- `ClientProtocol::V3 { effective_caps }`, the only version left.
pub data ClientProtocol : Type 0 where
  v3 : List ℕ → ClientProtocol

-- The write half of a pane's PTY: what was written to it, in order.
pub record PtyWriter : Type 0 where
  pub written : List Bytes

-- What the handlers do outside the daemon's memory, in order.
pub data Effect : Type 0 where
  spawns : Uuid → Effect
  kills : Uuid → Effect
  removes_runtime_dir : Uuid → Effect
  removes_pane_state : Uuid → Uuid → Effect

pub record Server (h : Host) : Type 0 where
  pub workspaces : Dict (Workspace h.engine)
  pub client_senders : Dict h.Sender
  pub client_resp_senders : Dict h.Sender
  pub client_protocols : Dict ClientProtocol
  pub pty_writers : Dict PtyWriter
  pub pty_kill_senders : Dict (Unit {0})
  pub client_pane_sizes : Dict (Dict (ℕ × ℕ))
  pub effects : List Effect

-- `PaneSpawnConfig` with what `pane_spawn_parts` builds its command and environment from.
pub record PaneSpawnConfig : Type 0 where
  pub runtime_id : Uuid
  pub no_persist : Bool
  pub dark_background : Bool
  pub cwd : Option Text
  pub cols : ℕ
  pub rows : ℕ

-- What a message finds outside the daemon: the time, a fresh UUID, what `/proc` says, the locks that
-- other tasks hold, and what the PTYs answer.
pub record World : Type 0 where
  pub now : ℕ
  pub new_v4 : Uuid
  pub proc_cwd : ℕ → Option Text
  pub idle_shell : ℕ → Option Bool
  pub contended : Uuid → Bool
  pub spawn_pane : Uuid → PaneSpawnConfig → Result (Option ℕ) Text
  pub resizes : Uuid → ℕ → ℕ → Bool

abbrev pub Action {ℓ κ} : Host → Type ℓ → Type κ → Type (ℓ ⊔ κ)
Action h E A = World → Server h → Server h × Result A E

module _ {ℓ κ} {h : Host} {E : Type ℓ} {A : Type κ} where
  abbrev pub pure : A → Action h E A
  pure a x s = (s, ok a)

  abbrev pub raise : E → Action h E A
  raise e x s = (s, err e)

  abbrev pub gets : (Server h → A) → Action h E A
  gets f x s = (s, ok (f s))

  abbrev pub asks : (World → A) → Action h E A
  asks f x s = (s, ok (f x))

  abbrev pub or_raise : Option A → E → Action h E A
  or_raise none e = raise e
  or_raise (some a) e = pure a

-- The rest of an action after its first step.
abbrev pub continue {ℓ κ μ} :
    {h : Host} {E : Type ℓ} {A : Type κ} {B : Type μ}
    → (A → Action h E B)
    → World
    → Server h × Result A E
    → Server h × Result B E
continue k x (s, ok a) = k a x s
continue k x (s, err e) = (s, err e)

infixl 5 ◌>>=◌ ◌>>◌
unfoldable pub ◌>>=◌ {ℓ κ μ} :
    {h : Host} {E : Type ℓ} {A : Type κ} {B : Type μ}
    → Action h E A
    → (A → Action h E B)
    → Action h E B
(m >>= k) x s = continue k x (m x s)

abbrev pub ◌>>◌ {ℓ κ μ} :
    {h : Host} {E : Type ℓ} {A : Type κ} {B : Type μ} → Action h E A → Action h E B → Action h E B
m >> k = m >>= λ _. k

module _ {ℓ} {h : Host} {E : Type ℓ} where
  abbrev pub modify : (Server h → Server h) → Action h E (Unit {0})
  modify f x s = (f s, ok tt)

  abbrev pub raise_unless : Bool → E → Action h E (Unit {0})
  raise_unless true e = pure tt
  raise_unless false e = raise e

  -- `bytes_to_uuid(..)` with a return on the error.
  unfoldable pub decode : Bytes → (FrameError → E) → Action h E Uuid
  decode bytes e x s = elim (bytes_to_uuid h.uuids bytes) [
    | ok id ↦ (s, ok id)
    | err f ↦ (s, err (e f))
  ]

  -- `workspaces.get(..)` with a return on a missing workspace.
  unfoldable pub find_workspace : Uuid → E → Action h E (Workspace h.engine)
  find_workspace id e x s = or_raise (get s.workspaces id) e x s

  -- The workspace behind its lock, with what was written to it.
  unfoldable pub put_workspace : Uuid → Workspace h.engine → Action h E (Unit {0})
  put_workspace id w = modify λ s. record s { workspaces = insert s.workspaces id w }
