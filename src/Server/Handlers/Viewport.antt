-- ===== src/Server/Handlers/Viewport.antt =====
-- services/rttx-server/src/server.rs: input, sizes, titles, split ratios and the focus.
use rttx.Common.{
  ℕ, ◌++◌, Uuid, Bool, true, false, not, Option, none, some, List, [], ◌∷◌, if◌then◌else◌, is_some,
  ok, err, map,
}
use rttx.Common.Dict.{Dict, get, insert, keys}
use rttx.Common.Float.{F32}
use rttx.Common.Text.{Text, text, is_empty}
use rttx.Workspace.{Workspace}
use rttx.Workspace.Lease.{client_role}
use rttx.Workspace.Panes.{resize_split, set_default_active_pane}
use rttx.Workspace.Fields.{resize_pane, set_pane_title, set_pane_no_persist}
use rttx.Wire.Errors.{invalid_argument}
use rttx.Wire.Uuids.{UuidLib, uuid_to_bytes, bytes_to_uuid}
use rttx.Wire.Input.{InputKind, resolve_input}
use rttx.Wire.Sizes.{min_client_pane_size}
use rttx.Wire.Tree.{PaneTreeSide, unspecified_side, first_side, second_side}
use rttx.Wire.Tree.Paths.{decode_side_path, decode_known_sides}
use rttx.Wire.Messages.{
  Bytes, ResizePane, ClientPaneSize, split_resized, focus_changed, build_push_envelope,
}
use rttx.Server.{
  Host, Server, PtyWriter, pure, gets, asks, or_raise, raise_unless, modify, find_workspace,
  put_workspace, ◌>>=◌, ◌>>◌,
}
use rttx.Server.Handlers.{
  Request, Silent, refusal, no_pane, broadcast, writable_workspace, writable_or_drop, decode_named,
  decode_or_drop,
}
use rttx.Server.Handlers.Panes.{fits_u16}

-- `side as i32`
unfoldable pub side_number : PaneTreeSide → ℕ
side_number unspecified_side = 0
side_number first_side = 1
side_number second_side = 2

-- `u16::try_from(n).unwrap_or(0)`
unfoldable pub u16_or_zero : ℕ → ℕ
u16_or_zero n = if fits_u16 n then n else 0

unfoldable pub reported_sizes : UuidLib → List ClientPaneSize → List (Uuid × ℕ × ℕ)
unfolding u16_or_zero bytes_to_uuid
reported_sizes lib [] = []
reported_sizes lib (p ∷ ps) =
    let rest = reported_sizes lib ps in
    elim (bytes_to_uuid lib p.pane_id) [
      | err e ↦ rest
      | ok id ↦ (id, u16_or_zero p.cols, u16_or_zero p.rows) ∷ rest
    ]

abbrev pub unwrap_sizes : Option (Dict (ℕ × ℕ)) → Dict (ℕ × ℕ)
unwrap_sizes none = []
unwrap_sizes (some sizes) = sizes

unfoldable pub insert_sizes : Dict (ℕ × ℕ) → List (Uuid × ℕ × ℕ) → Dict (ℕ × ℕ)
insert_sizes d [] = d
insert_sizes d ((id, cols, rows) ∷ rest) = insert_sizes (insert d id (cols, rows)) rest

-- `client_pane_sizes.values().filter_map(|m| m.get(id))`
unfoldable pub sizes_of_pane : Dict (Dict (ℕ × ℕ)) → Uuid → List (ℕ × ℕ)
sizes_of_pane [] id = []
sizes_of_pane ((c, m) ∷ d) id =
    let rest = sizes_of_pane d id in elim (get m id) [ none ↦ rest | some size ↦ size ∷ rest ]

-- The panes with a PTY that have a shared size, with that size.
unfoldable pub resize_targets :
    Dict (Dict (ℕ × ℕ)) → Dict PtyWriter → List (Uuid × ℕ × ℕ) → List (Uuid × ℕ × ℕ)
unfolding sizes_of_pane min_client_pane_size
resize_targets sizes writers [] = []
resize_targets sizes writers ((id, cols, rows) ∷ reported) =
    let rest = resize_targets sizes writers reported in
    elim (min_client_pane_size (sizes_of_pane sizes id)) [
      | none ↦ rest
      | some (min_cols, min_rows) ↦
          if is_some (get writers id) then (id, min_cols, min_rows) ∷ rest else rest
    ]

module _ {h : Host} where
  -- `write_all` on the handle, if the pane has one; a failed write is only logged.
  unfoldable pub write_pty : Uuid → Bytes → Server h → Server h
  write_pty pane_id bytes s = elim (get s.pty_writers pane_id) [
    | none ↦ s
    | some w ↦ record s {
      pty_writers = insert s.pty_writers pane_id (record { written = w.written ++ (bytes ∷ []) });
    }
  ]

  unfoldable pub handle_v3_terminal_input : Uuid → Bytes → Bytes → Option InputKind → Silent h
  unfolding decode_or_drop writable_or_drop find_workspace resolve_input write_pty
  handle_v3_terminal_input client_id id pane kind = do
    runtime_id ← decode_or_drop id
    pane_id ← decode_or_drop pane
    before ← find_workspace runtime_id tt
    raise_unless (is_some (get before.panes pane_id)) tt
    w ← writable_or_drop client_id runtime_id
    p ← or_raise (get w.panes pane_id) tt
    let resolved = resolve_input kind (h.engine.terminal_mode_state p.screen)
    raise_unless (not (is_empty resolved)) tt
    modify (write_pty pane_id resolved)

  unfoldable pub handle_v3_resize : Uuid → ResizePane → Silent h
  unfolding decode_or_drop find_workspace writable_or_drop resize_pane put_workspace
  handle_v3_resize client_id req = do
    pane_id ← decode_or_drop req.pane_id
    runtime_id ← decode_or_drop req.runtime_id
    raise_unless (fits_u16 req.cols) tt
    raise_unless (fits_u16 req.rows) tt
    before ← find_workspace runtime_id tt
    raise_unless (is_some (get before.panes pane_id)) tt
    w ← writable_or_drop client_id runtime_id
    writers ← gets (λ s. s.pty_writers)
    raise_unless (is_some (get writers pane_id)) tt
    resizes ← asks (λ x. x.resizes)
    raise_unless (resizes pane_id req.cols req.rows) tt
    put_workspace runtime_id (resize_pane w pane_id req.cols req.rows).0

  unfoldable pub handle_v3_set_pane_title : Uuid → Bytes → Bytes → Text → Silent h
  unfolding decode_or_drop writable_or_drop set_pane_title put_workspace
  handle_v3_set_pane_title client_id id pane title = do
    runtime_id ← decode_or_drop id
    pane_id ← decode_or_drop pane
    w ← writable_or_drop client_id runtime_id
    put_workspace runtime_id (set_pane_title w pane_id title).0

  unfoldable pub handle_v3_set_pane_no_persist : Uuid → Bytes → Bytes → Bool → Silent h
  unfolding decode_or_drop writable_or_drop set_pane_no_persist put_workspace
  handle_v3_set_pane_no_persist client_id id pane no_persist = do
    runtime_id ← decode_or_drop id
    pane_id ← decode_or_drop pane
    w ← writable_or_drop client_id runtime_id
    put_workspace runtime_id (set_pane_no_persist w pane_id no_persist).0

  unfoldable pub handle_v3_resize_split : Uuid → Bytes → List ℕ → F32 → Request h
  unfolding refusal decode_named decode_side_path writable_workspace resize_split put_workspace
      side_number decode_known_sides build_push_envelope uuid_to_bytes
  handle_v3_resize_split client_id id path ratio = do
    runtime_id ← decode_named (text "ResizeSplit") (text "invalid workspace id") id
    sides ←
        or_raise (decode_side_path path)
          (refusal invalid_argument (text "invalid split path") (text "ResizeSplit"))
    w ← writable_workspace (text "ResizeSplit") client_id runtime_id
    let r = resize_split w sides ratio
    put_workspace runtime_id r.0
    revision ←
        or_raise r.1
          (refusal invalid_argument (text "split not found or invalid ratio") (text "ResizeSplit"))
    let event =
        split_resized (uuid_to_bytes h.uuids runtime_id) (map side_number (decode_known_sides path))
          ratio revision
    broadcast (keys r.0.attached_clients) (some client_id) (build_push_envelope event)
    pure event

  unfoldable pub handle_v3_set_focus : Uuid → Bytes → Bytes → Request h
  unfolding decode_named writable_workspace set_default_active_pane put_workspace
      build_push_envelope uuid_to_bytes
  handle_v3_set_focus client_id id pane = do
    runtime_id ← decode_named (text "SetFocus") (text "invalid workspace id") id
    pane_id ← decode_named (text "SetFocus") (text "invalid pane id") pane
    w ← writable_workspace (text "SetFocus") client_id runtime_id
    let r = set_default_active_pane w pane_id
    put_workspace runtime_id r.0
    revision ← or_raise r.1 (no_pane (text "SetFocus"))
    let event =
        focus_changed (uuid_to_bytes h.uuids runtime_id) (uuid_to_bytes h.uuids pane_id) revision
    broadcast (keys r.0.attached_clients) (some client_id) (build_push_envelope event)
    pure event

  -- The second phase: one pane's PTY and its recorded size, if the PTY takes the new size and the
  -- workspace is still there.
  unfoldable pub resize_in : Uuid → (Uuid × ℕ × ℕ) → Option (Workspace h.engine) → Silent h
  unfolding resize_pane put_workspace
  resize_in runtime_id target none = pure tt
  resize_in runtime_id (pane_id, cols, rows) (some w) = do
    resizes ← asks (λ x. x.resizes)
    put_workspace runtime_id
        (if resizes pane_id cols rows then (resize_pane w pane_id cols rows).0 else w)

  unfoldable pub apply_sizes : Uuid → List (Uuid × ℕ × ℕ) → Silent h
  unfolding resize_in
  apply_sizes runtime_id [] = pure tt
  apply_sizes runtime_id (target ∷ targets) = do
    workspaces ← gets (λ s. s.workspaces)
    resize_in runtime_id target (get workspaces runtime_id)
    apply_sizes runtime_id targets

  unfoldable pub record_sizes : Uuid → List (Uuid × ℕ × ℕ) → Server h → Server h
  unfolding insert_sizes
  record_sizes client_id reported s = record s {
    client_pane_sizes =
        insert s.client_pane_sizes client_id
          (insert_sizes (unwrap_sizes (get s.client_pane_sizes client_id)) reported);
  }

  unfoldable pub handle_v3_report_client_size : Uuid → Bytes → List ClientPaneSize → Silent h
  unfolding decode_or_drop reported_sizes find_workspace client_role record_sizes resize_targets
      apply_sizes
  handle_v3_report_client_size client_id id panes = do
    runtime_id ← decode_or_drop id
    let reported = reported_sizes h.uuids panes
    raise_unless (not (elim reported [ [] ↦ true | _ ∷ _ ↦ false ])) tt
    w ← find_workspace runtime_id tt
    raise_unless (is_some (client_role w client_id)) tt
    modify (record_sizes client_id reported)
    sizes ← gets (λ s. s.client_pane_sizes)
    writers ← gets (λ s. s.pty_writers)
    apply_sizes runtime_id (resize_targets sizes writers reported)
