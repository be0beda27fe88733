-- ===== src/Server/Succeeds.antt =====
-- services/rttx-server/src/server.rs: a step that succeeds hands over to the rest of its handler.
use rttx.Common.{◌≡◌, refl, Uuid, Bool, true, false, not, if◌then◌else◌, some, Option, err}
use rttx.Common.Dict.{get, insert}
use rttx.Common.Text.{Text}
use rttx.Workspace.{Workspace}
use rttx.Workspace.Lease.{client_has_write_access}
use rttx.Wire.Uuids.{uuid_to_bytes, bytes_to_uuid-uuid_to_bytes}
use rttx.Wire.Errors.{ProtocolError}
use rttx.Server.{
  Host, Server, World, Action, decode, find_workspace, put_workspace, raise_unless, asks, modify,
  or_raise, ◌>>=◌, ◌>>◌,
}
use rttx.Server.Handlers.{decode_request, decode_or_drop, writable_or_drop}

module _ {h : Host} {E : Type 0} (x : World) (s : Server h) where
  pub changes_unless :
      (b : Bool) (e : E) (f : Server h → Server h)
      → ((raise_unless (not b) e >> modify f) x s).0 ≡ (if b then s else f s)
  unfolding ◌>>=◌
  changes_unless true e f = refl
  changes_unless false e f = refl

module _ {h : Host} {E B : Type 0} (x : World) (s : Server h) where
  pub unless_holds :
      (b : Bool) (e : E) (k : Action h E B) → b ≡ true → (raise_unless b e >> k) x s ≡ k x s
  unfolding ◌>>=◌
  unless_holds b e k q = rw q refl

  pub unless_fails :
      (b : Bool) (e : E) (k : Action h E B) → b ≡ false → (raise_unless b e >> k) x s ≡ (s, err e)
  unfolding ◌>>=◌
  unless_fails b e k q = rw q refl

  pub workspace_known :
      (id : Uuid) (e : E) (k : Workspace h.engine → Action h E B) (w : Workspace h.engine)
      → get s.workspaces id ≡ some w
      → (find_workspace id e >>= k) x s ≡ k w x s
  unfolding find_workspace ◌>>=◌
  workspace_known id e k w found = rw (◌>>=◌, find_workspace, found) refl

  pub or_raise_known {κ} :
      {A : Type κ} (o : Option A) (a : A) (e : E) (k : A → Action h E B)
      → o ≡ some a
      → (or_raise o e >>= k) x s ≡ k a x s
  unfolding ◌>>=◌
  or_raise_known o a e k q = rw (◌>>=◌, q) refl

  pub asks_known {κ} :
      {A : Type κ} (f : World → A) (k : A → Action h E B) → (asks f >>= k) x s ≡ k (f x) x s
  unfolding ◌>>=◌
  asks_known f k = refl

  pub put_known :
      (id : Uuid) (w : Workspace h.engine) (k : Action h E B)
      → (put_workspace id w >> k) x s ≡ k x (record s { workspaces = insert s.workspaces id w })
  unfolding put_workspace ◌>>=◌
  put_known id w k = refl

module _ {h : Host} {B : Type 0} (x : World) (s : Server h) where
  pub decode_known :
      (operation : Text) (id : Uuid) (k : Uuid → Action h ProtocolError B)
      → (decode_request operation (uuid_to_bytes h.uuids id) >>= k) x s ≡ k id x s
  unfolding decode_request decode ◌>>=◌
  decode_known operation id k =
      rw (◌>>=◌, decode_request, decode, bytes_to_uuid-uuid_to_bytes h.uuids id) refl

  pub decode_or_drop-known :
      (id : Uuid) (k : Uuid → Action h (Unit {0}) B)
      → (decode_or_drop (uuid_to_bytes h.uuids id) >>= k) x s ≡ k id x s
  unfolding decode_or_drop decode ◌>>=◌
  decode_or_drop-known id k =
      rw (◌>>=◌, decode_or_drop, decode, bytes_to_uuid-uuid_to_bytes h.uuids id) refl

  pub writable_or_drop-known :
      (c id : Uuid) (k : Workspace h.engine → Action h (Unit {0}) B) (w : Workspace h.engine)
      → get s.workspaces id ≡ some w
      → client_has_write_access w c ≡ true
      → (writable_or_drop c id >>= k) x s ≡ k w x s
  unfolding writable_or_drop find_workspace ◌>>=◌
  writable_or_drop-known c id k w found access =
      rw (◌>>=◌, writable_or_drop, ◌>>=◌, find_workspace, found, access) refl

  pub writable_or_drop-refused :
      (c id : Uuid) (k : Workspace h.engine → Action h (Unit {0}) B) (w : Workspace h.engine)
      → get s.workspaces id ≡ some w
      → client_has_write_access w c ≡ false
      → (writable_or_drop c id >>= k) x s ≡ (s, err tt)
  unfolding writable_or_drop find_workspace ◌>>=◌
  writable_or_drop-refused c id k w found denied =
      rw (◌>>=◌, writable_or_drop, ◌>>=◌, find_workspace, found, denied) refl
