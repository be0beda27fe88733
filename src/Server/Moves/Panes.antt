-- ===== src/Server/Moves/Panes.antt =====
-- services/rttx-server/src/server.rs: creating, splitting and closing a pane move as the relation allows.
use rttx.Common.{
  ℕ, ◌≡◌, refl, ap, sym, ◌∙◌, arith, inl, inr, Uuid, Bool, true, Option, none, some, is_some,
  some_injective, Bool-cases, Result, ok, err,
}
use rttx.Common.Dict.{get, insert, get-insert_same, insert_same}
use rttx.Common.Text.{Text}
use rttx.Workspace.{Workspace, bump_revision}
use rttx.WorkspaceTree
use rttx.Workspace.Panes.{add_pane, split_pane, remove_pane}
use rttx.Workspace.Lease.{client_has_write_access, client_role, writer_client_id}
use rttx.Workspace.Run.{adds, splits, step}
use rttx.Pane.{Engine}
use rttx.Pane
use rttx.PaneTree.{SplitAxis}
use rttx.Common.Float.{F32}
use rttx.Wire.Messages.{Bytes, CreatePane, SplitPane}
use rttx.Server.{Host, Server, World, PaneSpawnConfig}
use rttx.Server.Handlers.{decode_request, decode_named}
use rttx.Server.Handlers.Panes.{
  spawned_pane, spawn, commit_split, create_config, split_config, finish_create_in,
  finish_create_pane, handle_v3_create_pane, finish_split_in, finish_split_pane,
  handle_v3_split_pane, handle_v3_close_pane, insert_pty, requested_axis, requested_ratio,
}
use rttx.Server.Channels.{release_pty}
use mathlib.Core.Path.{subst}
use rttx.Server.Moves.{Moves, follows, edits, opens, closes, rests, Permits}
use rttx.Server.Moves.Steps.{
  after-decode, after-unless, after-writable_workspace, after-asks, after-gets, after-modify,
  after-or_raise, after-put_workspace,
}
use rttx.Server.Moves.Drawing.{
  Untouched, Untouched-refl, moves_then, stays, after-quiet, after-broadcast,
}
use rttx.Server.Moves.Lifecycle.{put_Sets}

module _ {e : Engine} where
  added :
      (w : Workspace e) (pane_id : Uuid) (config : PaneSpawnConfig) (child_pid : Option ℕ)
      → is_some (get (add_pane w (spawned_pane e pane_id config child_pid)).panes pane_id) ≡ true
  unfolding add_pane spawned_pane Pane.new
  added w pane_id config child_pid =
      ap is_some (get-insert_same w.panes pane_id (spawned_pane e pane_id config child_pid))

  split_in :
      (w : Workspace e) (target pane_id : Uuid) (config : PaneSpawnConfig) (child_pid : Option ℕ)
      (axis : SplitAxis) (ratio : F32)
      → is_some (split_pane w target (spawned_pane e pane_id config child_pid) axis ratio).1 ≡ true
      → is_some (
          get
            (split_pane w target (spawned_pane e pane_id config child_pid) axis ratio).0.panes
            pane_id)
        ≡ true
  unfolding split_pane spawned_pane Pane.new
  split_in w target pane_id config child_pid axis ratio done =
      ground
        (arith, done, get-insert_same w.panes pane_id (spawned_pane e pane_id config child_pid))

  removed_nothing :
      (w : Workspace e) (pane_id : Uuid)
      → (remove_pane w pane_id).1 ≡ none
      → (remove_pane w pane_id).0 ≡ w
  unfolding remove_pane
  removed_nothing w pane_id absent = ground (arith, absent)

module _ {h : Host} where
  spawn-Untouched :
      (x : World) (s : Server h) (operation : Text) (pane_id : Uuid) (config : PaneSpawnConfig)
      → Untouched s (spawn operation pane_id config x s).0
  unfolding spawn
  spawn-Untouched x s operation pane_id config = split (x.spawn_pane pane_id config) refl
    where
      split :
          (r : Result (Option ℕ) Text)
          → x.spawn_pane pane_id config ≡ r
          → Untouched s (spawn operation pane_id config x s).0
      split (ok child) q =
          rw (spawn, q) (record { workspaces = refl; writers = refl; kills = refl })
      split (err e) q = rw (spawn, q) (record { workspaces = refl; writers = refl; kills = refl })

  -- A workspace that the client may write stays so while nothing touches the workspaces.
  still_writable :
      (c : Uuid) (s t : Server h) (id : Uuid) (w : Workspace h.engine)
      → Untouched s t
      → get s.workspaces id ≡ some w
      → client_has_write_access w c ≡ true
      → (w' : Workspace h.engine) → get t.workspaces id ≡ some w'
      → client_has_write_access w' c ≡ true
  still_writable c s t id w u found access w' found' =
      subst (λ v. client_has_write_access v c ≡ true)
        (some_injective (sym found ∙ ap (λ d. get d id) (sym u.workspaces) ∙ found')) access

module _ {e : Engine} where
  still-Permits :
      (c : Option Uuid) (w w' : Workspace e)
      → w'.attached_clients ≡ w.attached_clients
      → Permits c w
      → Permits c w'
  unfolding client_has_write_access client_role writer_client_id
  still-Permits none w w' same p = tt
  still-Permits (some c) w w' same p = ground (arith, same, p)

  split_clients :
      (w : Workspace e) (target : Uuid) (p : Pane.Pane e) (axis : SplitAxis) (ratio : F32)
      → (split_pane w target p axis ratio).0.attached_clients ≡ w.attached_clients
  unfolding split_pane bump_revision
  split_clients w target p axis ratio = ground arith

module _ {h : Host} (c : Option Uuid) (seizing : Bool) (x : World) where
  -- The second phase; `c` is the client if the workspace is still its own to write.
  pub finish_create_in-Moves :
      (s : Server h) (id pane_id : Uuid) (config : PaneSpawnConfig) (child_pid : Option ℕ)
      (o : Option (Workspace h.engine))
      → get s.workspaces id ≡ o
      → ((w : Workspace h.engine) → o ≡ some w → Permits c w)
      → Moves x c seizing s (finish_create_in id pane_id config child_pid o x s).0
  unfolding finish_create_in step
  finish_create_in-Moves s id pane_id config child_pid none found permits =
      rests (record { workspaces = refl; writers = refl; kills = refl })
  finish_create_in-Moves s id pane_id config child_pid (some w) found permits =
      let p = spawned_pane h.engine pane_id config child_pid in
      let P = Moves x c seizing s in
      after-put_workspace P x s id (add_pane w p) _ (
        after-modify P x _ (insert_pty pane_id) _ (
          follows
            (edits id w (adds p) found (permits w refl) refl
              (put_Sets (insert s.workspaces id (add_pane w p)) s))
            (opens id pane_id (add_pane w p) (get-insert_same s.workspaces id (add_pane w p))
              (still-Permits c w (add_pane w p) refl (permits w refl))
              (added w pane_id config child_pid) refl refl refl)))

  finish_split_in-Moves :
      (client : Uuid) (s : Server h) (id target pane_id : Uuid) (req : SplitPane)
      (config : PaneSpawnConfig) (child_pid : Option ℕ) (o : Option (Workspace h.engine))
      → get s.workspaces id ≡ o
      → ((w : Workspace h.engine) → o ≡ some w → Permits c w)
      → Moves x c seizing s (finish_split_in client id target pane_id req config child_pid o x s).0
  unfolding finish_split_in commit_split step
  finish_split_in-Moves client s id target pane_id req config child_pid none found permits =
      rests (record { workspaces = refl; writers = refl; kills = refl })
  finish_split_in-Moves client s id target pane_id req config child_pid (some w) found permits =
      let p = spawned_pane h.engine pane_id config child_pid in
      let axis = requested_axis req.axis in
      let ratio = requested_ratio req.ratio in
      let w' = (split_pane w target p axis ratio).0 in
      let P = Moves x c seizing s in
      elim (Bool-cases (is_some (split_pane w target p axis ratio).1)) [
        | inr gone ↦
            rw (finish_split_in, gone)
              (rests (record { workspaces = refl; writers = refl; kills = refl }))
        | inl done ↦
            rw (finish_split_in, done)
              (after-put_workspace P x s id w' _ (
                after-modify P x _ (insert_pty pane_id) _ (
                  after-broadcast x s _ _ _ _ _
                    (follows
                      (edits id w (splits target p axis ratio) found (permits w refl) refl
                        (put_Sets (insert s.workspaces id w') s))
                      (opens id pane_id w' (get-insert_same s.workspaces id w')
                        (still-Permits c w w' (split_clients w target p axis ratio)
                          (permits w refl))
                        (split_in w target pane_id config child_pid axis ratio done) refl refl
                        refl))
                    (λ u q. Untouched-refl u))))
      ]

module _ {h : Host} (c : Uuid) (seizing : Bool) (x : World) (s : Server h) where
  pub handle_v3_create_pane-Moves :
      (req : CreatePane) → Moves x (some c) seizing s (handle_v3_create_pane c req x s).0
  unfolding handle_v3_create_pane decode_request finish_create_pane
  handle_v3_create_pane-Moves req =
      let P = Moves x (some c) seizing s in
      after-decode P x s req.runtime_id _ _ (stays s) λ id.
        after-asks P x s (λ x. x.new_v4) _
          (after-writable_workspace P x s _ c id _ (stays s) λ w found access.
            after-asks P x s (λ x. x.proc_cwd) _
              (after-quiet P x s _ _ (spawn-Untouched x s _ _ _) (λ t u. moves_then (stays s) u)
                (λ child t u.
                  after-gets P x t (λ s. s.workspaces) _
                    (follows (moves_then (stays s) u) (
                      finish_create_in-Moves (some c) seizing x t id x.new_v4
                        (create_config x.proc_cwd w id req) child (get t.workspaces id) refl
                        (still_writable c s t id w u found access))))))

  pub handle_v3_split_pane-Moves :
      (req : SplitPane) → Moves x (some c) seizing s (handle_v3_split_pane c req x s).0
  unfolding handle_v3_split_pane decode_named finish_split_pane
  handle_v3_split_pane-Moves req =
      let P = Moves x (some c) seizing s in
      after-decode P x s req.runtime_id _ _ (stays s) λ id.
        after-decode P x s req.target_pane_id _ _ (stays s) λ target.
          after-asks P x s (λ x. x.new_v4) _
            (after-writable_workspace P x s _ c id _ (stays s) λ w found access.
              after-unless P x s (WorkspaceTree.contains_pane w.tree target) _ _ (stays s) λ there.
                after-asks P x s (λ x. x.proc_cwd) _
                  (after-quiet P x s _ _ (spawn-Untouched x s _ _ _) (λ t u. moves_then (stays s) u)
                    (λ child t u.
                      after-gets P x t (λ s. s.workspaces) _
                        (follows (moves_then (stays s) u) (
                          finish_split_in-Moves (some c) seizing x c t id target x.new_v4 req
                            (split_config x.proc_cwd w id target req) child (get t.workspaces id)
                            refl (still_writable c s t id w u found access))))))

  pub handle_v3_close_pane-Moves :
      (id pane : Bytes) → Moves x (some c) seizing s (handle_v3_close_pane c id pane x s).0
  unfolding handle_v3_close_pane decode_request step release_pty
  handle_v3_close_pane-Moves id pane =
      let P = Moves x (some c) seizing s in
      after-decode P x s id _ _ (stays s) λ runtime_id.
        after-decode P x s pane _ _ (stays s) λ pane_id.
          after-writable_workspace P x s _ c runtime_id _ (stays s) λ w found access.
            let w' = (remove_pane w pane_id).0 in
            after-put_workspace P x s runtime_id w' _ (
              after-or_raise P x _ (remove_pane w pane_id).1 _ _
                (λ absent. rests (record {
                  workspaces =
                      rw (removed_nothing w pane_id absent)
                        (insert_same s.workspaces runtime_id w found);
                  writers = refl;
                  kills = refl;
                }))
                (λ p there. after-modify P x _ (release_pty pane_id) _ (
                  after-modify P x _ _ _ (
                    after-broadcast x s _ _ _ _ _
                      (closes runtime_id pane_id w found access refl refl refl)
                      (λ u q. Untouched-refl u)))))
