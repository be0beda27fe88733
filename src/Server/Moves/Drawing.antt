-- ===== src/Server/Moves/Drawing.antt =====
-- services/rttx-server/src/server.rs: broadcasts leave the workspaces alone, and a snapshot redraws a
-- workspace's panes and no more.
use rttx.Common.{
  ℕ, ◌≡◌, refl, ap, ◌∙◌, sym, arith, inl, inr, Uuid, Bool, Option, none, some, List, [], ◌∷◌,
  Option-cases, Result, ok, err,
}
use rttx.Common.Dict.{Dict}
use rttx.Common.Text.{Text}
use rttx.Pane.{Engine, Pane, sanitize_modes_if_idle}
use rttx.Workspace.{Workspace}
use rttx.Wire.Uuids.{UuidLib}
use rttx.Wire.Errors.{ProtocolError}
use rttx.Wire.Messages.{ServerEnvelope, Bytes}
use rttx.Server.{Host, Server, World, Action, ◌>>=◌, ◌>>◌}
use rttx.Server.Channels.{
  force_disconnect_client, send_stream_overflow, handle_single_push_overflow_for_workspace,
  handle_single_push_overflow, handle_all_overflows, broadcast_to_clients, workspace_of_client,
  push_all,
}
use rttx.Server.Inventory.{snapshot_panes, snapshot_pane, build_v3_workspace_snapshot}
use rttx.Server.Handlers.{broadcast}
use rttx.Server.Handlers.Lease.{heal_panes, broadcast_cleanups, broadcast_auto_name}
use rttx.Server.Moves.{Sets, Moves, rests, follows, SamePanes, Redraws}

-- The workspaces, the PTYs and their kill signals are the same.
pub record Untouched {h : Host} (s s' : Server h) : Type 0 where
  pub workspaces : s'.workspaces ≡ s.workspaces
  pub writers : s'.pty_writers ≡ s.pty_writers
  pub kills : s'.pty_kill_senders ≡ s.pty_kill_senders

pub Untouched-Sets : {h : Host} (s s' : Server h) → Untouched s s' → Sets s.workspaces s s'
Untouched-Sets s s' u = record { workspaces = u.workspaces; writers = u.writers; kills = u.kills }

module _ {h : Host} where
  pub Untouched-refl : (s : Server h) → Untouched s s
  Untouched-refl s = record { workspaces = refl; writers = refl; kills = refl }

  pub Untouched-trans : {s t u : Server h} → Untouched s t → Untouched t u → Untouched s u
  Untouched-trans a b = record {
    workspaces = b.workspaces ∙ a.workspaces;
    writers = b.writers ∙ a.writers;
    kills = b.kills ∙ a.kills;
  }

  pub moves_then :
      {x : World} {c : Option Uuid} {seizing : Bool} {s t u : Server h}
      → Moves x c seizing s t
      → Untouched t u
      → Moves x c seizing s u
  moves_then m u = follows m (rests (Untouched-Sets _ _ u))

  pub stays : {x : World} {c : Option Uuid} {seizing : Bool} (s : Server h) → Moves x c seizing s s
  stays s = rests (record { workspaces = refl; writers = refl; kills = refl })

  overflow_for-Untouched :
      (c id : Uuid) (s : Server h) → Untouched s (handle_single_push_overflow_for_workspace c id s)
  unfolding handle_single_push_overflow_for_workspace send_stream_overflow force_disconnect_client
  overflow_for-Untouched c id s = ground arith

  overflow-Untouched :
      (x : World) (c : Uuid) (s : Server h) → Untouched s (handle_single_push_overflow x c s)
  unfolding handle_single_push_overflow force_disconnect_client
  overflow-Untouched x c s = elim (Option-cases (workspace_of_client x.contended s.workspaces c)) [
    | inl nowhere ↦
        rw (nowhere, handle_single_push_overflow)
          (record { workspaces = refl; writers = refl; kills = refl })
    | inr (id, there) ↦ rw (there, handle_single_push_overflow) (overflow_for-Untouched c id s)
  ]

  overflows-Untouched :
      (x : World) (cs : List Uuid) (s : Server h) → Untouched s (handle_all_overflows x cs s)
  unfolding handle_all_overflows
  overflows-Untouched x [] s = Untouched-refl s
  overflows-Untouched x (c ∷ cs) s =
      Untouched-trans (overflow-Untouched x c s)
        (overflows-Untouched x cs (handle_single_push_overflow x c s))

  pub broadcast_to_clients-Untouched :
      (x : World) (cs : List Uuid) (exclude : Option Uuid) (msg : ServerEnvelope) (s : Server h)
      → Untouched s (broadcast_to_clients x cs exclude msg s)
  unfolding broadcast_to_clients
  broadcast_to_clients-Untouched x cs exclude msg s =
      Untouched-trans (record { workspaces = refl; writers = refl; kills = refl })
        (overflows-Untouched x (push_all h s.client_senders cs exclude msg).1
          (record s { client_senders = (push_all h s.client_senders cs exclude msg).0 }))

  pub broadcast-Untouched :
      (x : World) (s : Server h) (cs : List Uuid) (exclude : Option Uuid) (msg : ServerEnvelope)
      → Untouched s (broadcast cs exclude msg x s).0
  unfolding broadcast
  broadcast-Untouched x s cs exclude msg = broadcast_to_clients-Untouched x cs exclude msg s

  -- A chain whose first step leaves the workspaces alone ends as its rest does.
  pub after-quiet :
      {E A B : Type 0} (P : Server h → Type 0) (x : World) (s : Server h) (m : Action h E A)
      (k : A → Action h E B)
      → Untouched s (m x s).0
      → ((t : Server h) → Untouched s t → P t)
      → ((a : A) (t : Server h) → Untouched s t → P (k a x t).0)
      → P ((m >>= k) x s).0
  unfolding ◌>>=◌
  after-quiet {E = E} {A = A} P x s m k u fails rest = split (m x s) refl
    where
      split : (r : Server h × Result A E) → m x s ≡ r → P ((m >>= k) x s).0
      split (t, ok a) q = rw (◌>>=◌, q) (rest a t (rw (sym (ap (λ r. r.0) q)) u))
      split (t, err e) q = rw (◌>>=◌, q) (fails t (rw (sym (ap (λ r. r.0) q)) u))

  -- One chain of moves behind another.
  pub after-moves :
      {E A B : Type 0} {c : Option Uuid} {seizing : Bool} (x : World) (s : Server h)
      (m : Action h E A) (k : A → Action h E B)
      → Moves x c seizing s (m x s).0
      → ((a : A) (t : Server h) → Moves x c seizing t (k a x t).0)
      → Moves x c seizing s ((m >>= k) x s).0
  unfolding ◌>>=◌
  after-moves {E = E} {A = A} {c = c} {seizing = seizing} x s m k moved rest = split (m x s) refl
    where
      split : (r : Server h × Result A E) → m x s ≡ r → Moves x c seizing s ((m >>= k) x s).0
      split (t, ok a) q = rw (◌>>=◌, q) (follows (rw (sym (ap (λ r. r.0) q)) moved) (rest a t))
      split (t, err e) q = rw (◌>>=◌, q) (rw (sym (ap (λ r. r.0) q)) moved)

  -- The same at a broadcast that stands behind a move.
  pub after-broadcast :
      {B : Type 0} {c : Option Uuid} {seizing : Bool} (x : World) (s t : Server h) (cs : List Uuid)
      (exclude : Option Uuid) (msg : ServerEnvelope) (k : Action h ProtocolError B)
      → Moves x c seizing s t
      → ((u : Server h) → Untouched t u → Untouched u (k x u).0)
      → Moves x c seizing s ((broadcast cs exclude msg >> k) x t).0
  after-broadcast {c = c} {seizing = seizing} x s t cs exclude msg k m rest =
      after-quiet (Moves x c seizing s) x t (broadcast cs exclude msg) (λ _. k)
        (broadcast-Untouched x t cs exclude msg) (λ u q. moves_then m q)
        (λ _ u q. moves_then (moves_then m q) (rest u q))

  pub broadcast_auto_name-Untouched :
      (x : World) (id c revision : ℕ) (others : List Uuid) (name : Option Text) (s : Server h)
      → Untouched s (broadcast_auto_name id others c revision name x s).0
  unfolding broadcast_auto_name broadcast
  broadcast_auto_name-Untouched x id c revision others none s = Untouched-refl s
  broadcast_auto_name-Untouched x id c revision others (some name) s =
      broadcast_to_clients-Untouched x others (some c) _ s

  pub broadcast_cleanups-Untouched :
      (x : World) (id c : ℕ) (others : List Uuid) (healed : List (Uuid × Bytes)) (s : Server h)
      → Untouched s (broadcast_cleanups id others c healed x s).0
  unfolding broadcast_cleanups broadcast ◌>>=◌
  broadcast_cleanups-Untouched x id c others [] s = Untouched-refl s
  broadcast_cleanups-Untouched x id c others ((pane, cleanup) ∷ healed) s =
      Untouched-trans (broadcast_to_clients-Untouched x others (some c) _ s)
        (broadcast_cleanups-Untouched x id c others healed _)

module _ {e : Engine} where
  sanitized :
      (idle : ℕ → Option Bool) (p : Pane e)
      → record p { screen = (sanitize_modes_if_idle idle p).0.screen }
        ≡ (sanitize_modes_if_idle idle p).0
  unfolding sanitize_modes_if_idle
  sanitized idle p = ground arith

  heal_panes-SamePanes :
      (idle : ℕ → Option Bool) (d : Dict (Pane e)) → SamePanes d (heal_panes idle d).0
  unfolding heal_panes
  heal_panes-SamePanes idle [] = tt
  heal_panes-SamePanes idle ((i, p) ∷ d) = ((refl, sanitized idle p), heal_panes-SamePanes idle d)

  snapshot_panes-SamePanes :
      (lib : UuidLib) (proc : ℕ → Option Text) (d : Dict (Pane e))
      → SamePanes d (snapshot_panes lib proc d).0
  unfolding snapshot_panes snapshot_pane
  snapshot_panes-SamePanes lib proc [] = tt
  snapshot_panes-SamePanes lib proc ((i, p) ∷ d) =
      ((refl, refl), snapshot_panes-SamePanes lib proc d)

  pub snapshot-Redraws :
      (lib : UuidLib) (proc : ℕ → Option Text) (w : Workspace e) (id role : ℕ)
      → Redraws w (build_v3_workspace_snapshot lib proc w id role).0
  unfolding build_v3_workspace_snapshot
  snapshot-Redraws lib proc w id role = record {
    panes = snapshot_panes-SamePanes lib proc w.panes;
    rest = refl;
  }

  pub healed-Redraws :
      (idle : ℕ → Option Bool) (w : Workspace e)
      → Redraws w (record w { panes = (heal_panes idle w.panes).0 })
  healed-Redraws idle w = record { panes = heal_panes-SamePanes idle w.panes; rest = refl }
