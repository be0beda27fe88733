-- ===== src/Server/Moves/Steps.antt =====
-- services/rttx-server/src/server.rs: a predicate on the daemon after a chain of steps, read off the
-- steps one by one. A chain that fails at its first step has changed nothing.
use rttx.Common.{
  ◌≡◌, refl, Uuid, Bool, true, false, Option, none, some, inl, inr, Bool-cases, Option-cases,
  Result, ok, err,
}
use rttx.Common.Dict.{get, insert}
use rttx.Common.Text.{Text}
use rttx.Workspace.{Workspace}
use rttx.Workspace.Lease.{client_has_write_access}
use rttx.Wire.Uuids.{FrameError, bytes_to_uuid}
use rttx.Wire.Messages.{Bytes}
use rttx.Wire.Errors.{ProtocolError}
use rttx.Server.{
  Host, Server, World, Action, decode, find_workspace, raise_unless, or_raise, asks, gets, modify,
  put_workspace, ◌>>=◌, ◌>>◌,
}
use rttx.Server.Handlers.{writable_workspace, writable_or_drop}

module _ {ℓ} {h : Host} {E B : Type 0} (P : Server h → Type ℓ) (x : World) (s : Server h) where
  pub after-decode :
      (bytes : Bytes) (e : FrameError → E) (k : Uuid → Action h E B)
      → P s
      → ((id : Uuid) → P (k id x s).0)
      → P ((decode bytes e >>= k) x s).0
  unfolding decode ◌>>=◌
  after-decode bytes e k stays rest = split (bytes_to_uuid h.uuids bytes) refl
    where
      split :
          (r : Result Uuid FrameError)
          → bytes_to_uuid h.uuids bytes ≡ r
          → P ((decode bytes e >>= k) x s).0
      split (ok id) q = rw (◌>>=◌, decode, q) (rest id)
      split (err f) q = rw (◌>>=◌, decode, q) stays

  pub after-unless :
      (b : Bool) (e : E) (k : Action h E B)
      → P s
      → (b ≡ true → P (k x s).0)
      → P ((raise_unless b e >> k) x s).0
  unfolding ◌>>=◌
  after-unless true e k stays rest = rest refl
  after-unless false e k stays rest = stays

  pub after-or_raise {κ} :
      {A : Type κ} (o : Option A) (e : E) (k : A → Action h E B)
      → (o ≡ none → P s)
      → ((a : A) → o ≡ some a → P (k a x s).0)
      → P ((or_raise o e >>= k) x s).0
  unfolding ◌>>=◌
  after-or_raise none e k stays rest = stays refl
  after-or_raise (some a) e k stays rest = rest a refl

  pub after-find_workspace :
      (id : Uuid) (e : E) (k : Workspace h.engine → Action h E B)
      → P s
      → ((w : Workspace h.engine) → get s.workspaces id ≡ some w → P (k w x s).0)
      → P ((find_workspace id e >>= k) x s).0
  unfolding find_workspace ◌>>=◌
  after-find_workspace id e k stays rest =
      after-or_raise (get s.workspaces id) e k (λ missing. stays) rest

  pub after-asks {κ} :
      {A : Type κ} (f : World → A) (k : A → Action h E B)
      → P (k (f x) x s).0
      → P ((asks f >>= k) x s).0
  unfolding ◌>>=◌
  after-asks f k rest = rest

  pub after-gets {κ} :
      {A : Type κ} (f : Server h → A) (k : A → Action h E B)
      → P (k (f s) x s).0
      → P ((gets f >>= k) x s).0
  unfolding ◌>>=◌
  after-gets f k rest = rest

  pub after-modify :
      (f : Server h → Server h) (k : Action h E B) → P (k x (f s)).0 → P ((modify f >> k) x s).0
  unfolding ◌>>=◌
  after-modify f k rest = rest

  pub after-put_workspace :
      (id : Uuid) (w : Workspace h.engine) (k : Action h E B)
      → P (k x (record s { workspaces = insert s.workspaces id w })).0
      → P ((put_workspace id w >> k) x s).0
  unfolding ◌>>=◌ put_workspace
  after-put_workspace id w k rest = rest

module _ {ℓ} {h : Host} {B : Type 0} (P : Server h → Type ℓ) (x : World) (s : Server h) where
  pub after-writable_workspace :
      (operation : Text) (c id : Uuid) (k : Workspace h.engine → Action h ProtocolError B)
      → P s
      → ((w : Workspace h.engine)
          → get s.workspaces id ≡ some w
          → client_has_write_access w c ≡ true
          → P (k w x s).0)
      → P ((writable_workspace operation c id >>= k) x s).0
  unfolding writable_workspace find_workspace ◌>>=◌
  after-writable_workspace operation c id k stays rest = elim (Option-cases (get s.workspaces id)) [
    | inl missing ↦ rw missing stays
    | inr (w, found) ↦ elim (Bool-cases (client_has_write_access w c)) [
      | inl access ↦ rw (found, access) (rest w found access)
      | inr denied ↦ rw (found, denied) stays
    ]
  ]

  pub after-writable_or_drop :
      (c id : Uuid) (k : Workspace h.engine → Action h (Unit {0}) B)
      → P s
      → ((w : Workspace h.engine)
          → get s.workspaces id ≡ some w
          → client_has_write_access w c ≡ true
          → P (k w x s).0)
      → P ((writable_or_drop c id >>= k) x s).0
  unfolding writable_or_drop find_workspace ◌>>=◌
  after-writable_or_drop c id k stays rest = elim (Option-cases (get s.workspaces id)) [
    | inl missing ↦ rw missing stays
    | inr (w, found) ↦ elim (Bool-cases (client_has_write_access w c)) [
      | inl access ↦ rw (found, access) (rest w found access)
      | inr denied ↦ rw (found, denied) stays
    ]
  ]
