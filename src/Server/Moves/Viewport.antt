-- ===== src/Server/Moves/Viewport.antt =====
-- services/rttx-server/src/server.rs: input, a pane's size, titles, ratios and the focus
-- move as the relation allows.
use rttx.Common.{ℕ, ◌≡◌, refl, ap, arith, Uuid, Bool, Option, some, List, is_some}
use rttx.Common.Dict.{get, insert}
use rttx.Common.Float.{F32}
use rttx.Common.Text.{Text}
use rttx.Workspace.Panes.{resize_split, set_default_active_pane}
use rttx.Workspace.Run.{resizes, titles, flags, focuses, resizes_split, step}
use rttx.Wire.Input.{InputKind}
use rttx.Wire.Tree.Paths.{decode_side_path}
use rttx.Wire.Messages.{Bytes, ResizePane}
use rttx.Server.{Host, Server, World, put_workspace}
use rttx.Server.Handlers.{decode_or_drop, decode_named}
use rttx.Server.Handlers.Panes.{fits_u16}
use rttx.Server.Handlers.Viewport.{
  write_pty, handle_v3_terminal_input, handle_v3_resize, handle_v3_set_pane_title,
  handle_v3_set_pane_no_persist, handle_v3_resize_split, handle_v3_set_focus,
}
use rttx.Server.Moves.{Moves, edits, types}
use rttx.Server.Moves.Steps.{
  after-decode, after-unless, after-find_workspace, after-writable_workspace,
  after-writable_or_drop, after-asks, after-gets, after-or_raise, after-put_workspace,
}
use rttx.Server.Moves.Drawing.{Untouched-refl, stays, after-broadcast}
use rttx.Server.Moves.Lifecycle.{put_Sets}

write_pty-same :
    {h : Host} (pane_id : Uuid) (bytes : Bytes) (s : Server h)
    → ((write_pty pane_id bytes s).workspaces ≡ s.workspaces)
      × ((write_pty pane_id bytes s).pty_kill_senders ≡ s.pty_kill_senders)
unfolding write_pty
write_pty-same pane_id bytes s = ground arith

module _ {h : Host} (c : Uuid) (seizing : Bool) (x : World) (s : Server h) where
  pub handle_v3_terminal_input-Moves :
      (id pane : Bytes) (kind : Option InputKind)
      → Moves x (some c) seizing s (handle_v3_terminal_input c id pane kind x s).0
  unfolding handle_v3_terminal_input decode_or_drop
  handle_v3_terminal_input-Moves id pane kind =
      let P = Moves x (some c) seizing s in
      after-decode P x s id _ _ (stays s) λ runtime_id.
        after-decode P x s pane _ _ (stays s) λ pane_id.
          after-find_workspace P x s runtime_id _ _ (stays s) λ before known.
            after-unless P x s (is_some (get before.panes pane_id)) _ _ (stays s) λ there.
              after-writable_or_drop P x s c runtime_id _ (stays s) λ w found access.
                after-or_raise P x s (get w.panes pane_id) _ _ (λ missing. stays s)
                  λ p q. after-unless P x s _ _ _ (stays s) λ some_bytes.
                    types runtime_id pane_id w _ found access (ap is_some q)
                      (write_pty-same pane_id _ s).0 refl (write_pty-same pane_id _ s).1

  pub handle_v3_resize-Moves :
      (req : ResizePane) → Moves x (some c) seizing s (handle_v3_resize c req x s).0
  unfolding handle_v3_resize decode_or_drop put_workspace step
  handle_v3_resize-Moves req =
      let P = Moves x (some c) seizing s in
      after-decode P x s req.pane_id _ _ (stays s) λ pane_id.
        after-decode P x s req.runtime_id _ _ (stays s) λ runtime_id.
          after-unless P x s (fits_u16 req.cols) _ _ (stays s) λ cols_fit.
            after-unless P x s (fits_u16 req.rows) _ _ (stays s) λ rows_fit.
              after-find_workspace P x s runtime_id _ _ (stays s) λ before known.
                after-unless P x s (is_some (get before.panes pane_id)) _ _ (stays s) λ there.
                  after-writable_or_drop P x s c runtime_id _ (stays s) λ w found access.
                    after-gets P x s (λ s. s.pty_writers) _
                      (after-unless P x s (is_some (get s.pty_writers pane_id)) _ _ (stays s)
                        λ handle.
                          after-asks P x s (λ x. x.resizes) _
                            (after-unless P x s (x.resizes pane_id req.cols req.rows) _ _ (stays s)
                              λ taken.
                                edits runtime_id w (resizes pane_id req.cols req.rows) found access
                                  refl (put_Sets _ s)))

  pub handle_v3_set_pane_title-Moves :
      (id pane : Bytes) (title : Text)
      → Moves x (some c) seizing s (handle_v3_set_pane_title c id pane title x s).0
  unfolding handle_v3_set_pane_title decode_or_drop put_workspace step
  handle_v3_set_pane_title-Moves id pane title =
      let P = Moves x (some c) seizing s in
      after-decode P x s id _ _ (stays s) λ runtime_id.
        after-decode P x s pane _ _ (stays s) λ pane_id.
          after-writable_or_drop P x s c runtime_id _ (stays s) λ w found access.
            edits runtime_id w (titles pane_id title) found access refl (put_Sets _ s)

  pub handle_v3_set_pane_no_persist-Moves :
      (id pane : Bytes) (flag : Bool)
      → Moves x (some c) seizing s (handle_v3_set_pane_no_persist c id pane flag x s).0
  unfolding handle_v3_set_pane_no_persist decode_or_drop put_workspace step
  handle_v3_set_pane_no_persist-Moves id pane flag =
      let P = Moves x (some c) seizing s in
      after-decode P x s id _ _ (stays s) λ runtime_id.
        after-decode P x s pane _ _ (stays s) λ pane_id.
          after-writable_or_drop P x s c runtime_id _ (stays s) λ w found access.
            edits runtime_id w (flags pane_id flag) found access refl (put_Sets _ s)

  pub handle_v3_resize_split-Moves :
      (id : Bytes) (path : List ℕ) (ratio : F32)
      → Moves x (some c) seizing s (handle_v3_resize_split c id path ratio x s).0
  unfolding handle_v3_resize_split decode_named step
  handle_v3_resize_split-Moves id path ratio =
      let P = Moves x (some c) seizing s in
      after-decode P x s id _ _ (stays s) λ runtime_id.
        after-or_raise P x s (decode_side_path path) _ _ (λ unknown. stays s)
          λ sides named. after-writable_workspace P x s _ c runtime_id _ (stays s) λ w found access.
            let r = resize_split w sides ratio in
            let moved =
              edits runtime_id w (resizes_split sides ratio) found access refl
                (put_Sets (insert s.workspaces runtime_id r.0) s) in
            after-put_workspace P x s runtime_id r.0 _ (
              after-or_raise P x _ r.1 _ _ (λ refused. moved)
                (λ revision done. after-broadcast x s _ _ _ _ _ moved (λ u q. Untouched-refl u)))

  pub handle_v3_set_focus-Moves :
      (id pane : Bytes) → Moves x (some c) seizing s (handle_v3_set_focus c id pane x s).0
  unfolding handle_v3_set_focus decode_named step
  handle_v3_set_focus-Moves id pane =
      let P = Moves x (some c) seizing s in
      after-decode P x s id _ _ (stays s) λ runtime_id.
        after-decode P x s pane _ _ (stays s) λ pane_id.
          after-writable_workspace P x s _ c runtime_id _ (stays s) λ w found access.
            let r = set_default_active_pane w pane_id in
            let moved =
              edits runtime_id w (focuses pane_id) found access refl
                (put_Sets (insert s.workspaces runtime_id r.0) s) in
            after-put_workspace P x s runtime_id r.0 _ (
              after-or_raise P x _ r.1 _ _ (λ refused. moved)
                (λ revision done. after-broadcast x s _ _ _ _ _ moved (λ u q. Untouched-refl u)))
