-- ===== src/Server/Moves/Reported.antt =====
-- services/rttx-server/src/server.rs: the sizes that a client reports, and the panes that they resize,
-- as the relation allows.
use rttx.Common.{
  ℕ, if◌then◌else◌, ◌≡◌, refl, sym, ◌∙◌, true, false, some_injective, inl, inr, Uuid, Bool, Option,
  none, some, List, [], ◌∷◌, is_some, Bool-cases,
}
use rttx.Common.Dict.{Dict, get, insert_same, get-insert_same}
use rttx.Workspace.{Workspace}
use rttx.Pane.{Engine}
use rttx.Workspace.Lease.{client_role}
use rttx.Workspace.Fields.{resize_pane}
use rttx.Workspace.Run.Revision.{field-Quiet}
use rttx.Workspace.Run.{step}
use rttx.Wire.Messages.{Bytes, ClientPaneSize}
use mathlib.Core.Path.{subst}
use rttx.Wire.Sizes.{min_client_pane_size}
use rttx.Server.{Host, Server, PtyWriter, World, put_workspace, ◌>>=◌, ◌>>◌}
use rttx.Server.Handlers.{Silent, decode_or_drop}
use rttx.Server.Handlers.Viewport.{
  resize_in, apply_sizes, record_sizes, handle_v3_report_client_size, reported_sizes, sizes_of_pane,
  resize_targets,
}
use rttx.Server.Moves.{Moves, follows, shares, rests}
use rttx.Server.Moves.Steps.{
  after-decode, after-unless, after-find_workspace, after-gets, after-modify,
}
use rttx.Server.Moves.Drawing.{stays}
use rttx.Server.Moves.Lifecycle.{put_Sets}

-- Every target's size is the one that the reports of all clients give it.
abbrev AreLeast : Dict (Dict (ℕ × ℕ)) → List (Uuid × ℕ × ℕ) → Type 0
AreLeast sizes [] = Unit {0}
AreLeast sizes ((pane, cols, rows) ∷ targets) =
    (min_client_pane_size (sizes_of_pane sizes pane) ≡ some (cols, rows)) × AreLeast sizes targets

one_more :
    (sizes : Dict (Dict (ℕ × ℕ))) (writers : Dict PtyWriter) (pane cols rows : ℕ)
    (reported : List (Uuid × ℕ × ℕ)) (o : Option (ℕ × ℕ))
    → min_client_pane_size (sizes_of_pane sizes pane) ≡ o
    → AreLeast sizes (resize_targets sizes writers reported)
    → AreLeast sizes (resize_targets sizes writers ((pane, cols, rows) ∷ reported))
unfolding resize_targets
one_more sizes writers pane cols rows reported none q rest = rw (q, resize_targets) rest
one_more sizes writers pane cols rows reported (some (min_cols, min_rows)) q rest =
    elim (Bool-cases (is_some (get writers pane))) [
      | inl live ↦ rw (q, live, resize_targets) (q, rest)
      | inr dead ↦ rw (q, dead, resize_targets) rest
    ]

resize_targets-AreLeast :
    (sizes : Dict (Dict (ℕ × ℕ))) (writers : Dict PtyWriter) (reported : List (Uuid × ℕ × ℕ))
    → AreLeast sizes (resize_targets sizes writers reported)
unfolding resize_targets
resize_targets-AreLeast sizes writers [] = tt
resize_targets-AreLeast sizes writers ((pane, cols, rows) ∷ reported) =
    one_more sizes writers pane cols rows reported _ refl
      (resize_targets-AreLeast sizes writers reported)

-- The client is attached to the workspace, while it is there.
abbrev Attached : {e : Engine} → Uuid → Uuid → Dict (Workspace e) → Type 0
Attached {e = e} c id d = (w : Workspace e) → get d id ≡ some w → is_some (client_role w c) ≡ true

resized_role :
    {e : Engine} (c : Uuid) (w : Workspace e) (pane_id cols rows : ℕ) (resizes : Bool)
    → is_some (client_role w c) ≡ true
    → is_some (client_role (if resizes then (resize_pane w pane_id cols rows).0 else w) c) ≡ true
unfolding client_role
resized_role c w pane_id cols rows true here = rw (field-Quiet w pane_id cols rows).1 here
resized_role c w pane_id cols rows false here = here

module _ {h : Host} (c : Uuid) (seizing : Bool) (x : World) where
  resize_in-Moves :
      (s : Server h) (id : Uuid) (target : Uuid × ℕ × ℕ) (o : Option (Workspace h.engine))
      → get s.workspaces id ≡ o
      → AreLeast s.client_pane_sizes (target ∷ [])
      → Attached c id s.workspaces
      → Moves x (some c) seizing s (resize_in id target o x s).0
  unfolding resize_in put_workspace ◌>>=◌ step
  resize_in-Moves s id target none found least here = stays s
  resize_in-Moves s id (pane_id, cols, rows) (some w) found least here =
      resized (x.resizes pane_id cols rows)
    where
      resized :
          (taken : Bool)
          → Moves x
              (some c)
              seizing
              s
              (put_workspace {E = Unit {0}} id
                (if taken then (resize_pane w pane_id cols rows).0 else w)
                x
                s).0
      resized true =
          shares id w pane_id cols rows c found refl (here w found) least.0 (put_Sets _ s)
      resized false = rests (record {
        workspaces = insert_same s.workspaces id w found;
        writers = refl;
        kills = refl;
      })

  resize_in-keeps :
      (s : Server h) (id : Uuid) (target : Uuid × ℕ × ℕ) (o : Option (Workspace h.engine))
      → get s.workspaces id ≡ o
      → Attached c id s.workspaces
      → ((resize_in id target o x s).0.client_pane_sizes ≡ s.client_pane_sizes)
        × Attached c id (resize_in id target o x s).0.workspaces
  unfolding resize_in put_workspace ◌>>=◌
  resize_in-keeps s id target none found here = (refl, here)
  resize_in-keeps s id (pane_id, cols, rows) (some w) found here =
      let new = if x.resizes pane_id cols rows then (resize_pane w pane_id cols rows).0 else w in
      (
        refl,
        λ v there.
            subst (λ v. is_some (client_role v c) ≡ true)
              (some_injective (sym (get-insert_same s.workspaces id new) ∙ there))
              (resized_role c w pane_id cols rows (x.resizes pane_id cols rows) (here w found)),
      )

  after-resized :
      (P : Server h → Type 0) (s : Server h) (id : Uuid) (target : Uuid × ℕ × ℕ)
      (o : Option (Workspace h.engine)) (k : Silent h)
      → P (k x (resize_in id target o x s).0).0
      → P ((resize_in id target o >> k) x s).0
  unfolding resize_in put_workspace ◌>>=◌
  after-resized P s id target none k p = p
  after-resized P s id (pane_id, cols, rows) (some w) k p = p

  apply_sizes-Moves :
      (s : Server h) (id : Uuid) (targets : List (Uuid × ℕ × ℕ))
      → AreLeast s.client_pane_sizes targets
      → Attached c id s.workspaces
      → Moves x (some c) seizing s (apply_sizes id targets x s).0
  unfolding apply_sizes
  apply_sizes-Moves s id [] least here = stays s
  apply_sizes-Moves s id (target ∷ targets) least here =
      let P = Moves x (some c) seizing s in
      let o = get s.workspaces id in
      let t = (resize_in id target o x s).0 in
      let kept = resize_in-keeps s id target o refl here in
      let rest =
        apply_sizes-Moves t id targets
          (subst (λ sizes. AreLeast sizes targets) (sym kept.0) least.1) kept.1 in
      after-gets P x s (λ s. s.workspaces) _
        (after-resized P s id target o (apply_sizes id targets)
          (follows (resize_in-Moves s id target o refl (least.0, tt) here) rest))

  pub handle_v3_report_client_size-Moves :
      (s : Server h) (id : Bytes) (panes : List ClientPaneSize)
      → Moves x (some c) seizing s (handle_v3_report_client_size c id panes x s).0
  unfolding handle_v3_report_client_size decode_or_drop record_sizes
  handle_v3_report_client_size-Moves s id panes =
      let P = Moves x (some c) seizing s in
      after-decode P x s id _ _ (stays s) λ runtime_id.
        after-unless P x s _ _ _ (stays s) λ some_sizes.
          after-find_workspace P x s runtime_id _ _ (stays s) λ w found.
            after-unless P x s (is_some (client_role w c)) _ _ (stays s) λ here.
              after-modify P x s (record_sizes c (reported_sizes h.uuids panes)) _ (
                after-gets P x _ (λ s. s.client_pane_sizes) _
                  (after-gets P x _ (λ s. s.pty_writers) _
                    (follows (rests (record { workspaces = refl; writers = refl; kills = refl })) (
                      apply_sizes-Moves _ runtime_id _
                        (resize_targets-AreLeast _ _ (reported_sizes h.uuids panes))
                        (λ v there.
                          subst (λ v. is_some (client_role v c) ≡ true)
                            (some_injective (sym found ∙ there)) here)))))
