-- ===== src/Examples/WorkspaceRuns.antt =====
-- services/rttx-server/src/workspace.rs: a workspace of two panes that two clients share.
use rttx.Common.{
  ℕ, ◌≤◌, ◌≡◌, ◌↔◌, ◌==◌, true, Option, none, some, List, [], ◌∷◌, is_some, if◌then◌else◌,
}
use rttx.Common.Dict.{get}
use rttx.Common.Float.{half_f32}
use rttx.Common.Text.{Text, text}
use rttx.PaneTree.{SplitAxis}
use rttx.Workspace.{
  Workspace, AttachMode, WorkspacePolicy, DetachReason, not_attached, terminated,
  ephemeral_last_detach, saturating_suc, new,
}
use rttx.Workspace.Lease.{attach_client, detach_client, writer_client_id}
use rttx.Workspace.Lease.Outcomes.{
  role_after, get-attach_client, Answers, attach_client-Answers, detach_client-Detaches,
  detach_client-ends,
}
use rttx.Workspace.Panes.Coherent.{IsCoherent}
use rttx.Workspace.Run.{Call, adds, splits, attaches, saves, removes, run}
use rttx.Workspace.Run.Coherent.{run-new-IsCoherent}
use rttx.Workspace.Run.Revision.{IsLedger, run-run-Advances}
use rttx.Workspace.File.{to_workspace_file, from_workspace_file}
use rttx.Workspace.File.RoundTrip.{restarted_panes, from_workspace_file-to_workspace_file}
use rttx.Workspace.Naming.{rename}
use rttx.Workspace.Naming.Laws.{auto_run, proposes, refreshes, rename-auto_run}
use rttx.Examples.{sized_engine, shared, shared-IsLease, shared-IsCoherent, pane_at}

abbrev calls : List (Call sized_engine)
calls =
    adds (pane_at 1)
    ∷ attaches 7 AttachMode.read_write 10
    ∷ splits 1 (pane_at 2) SplitAxis.vertical half_f32
    ∷ saves
    ∷ attaches 8 AttachMode.take_over 20
    ∷ removes 1
    ∷ []

run-new-IsCoherent_example : IsCoherent (run (new sized_engine 100 0 (text "work")) calls)
run-new-IsCoherent_example = run-new-IsCoherent sized_engine 100 0 (text "work") calls

run-run-Advances_example :
    IsLedger (run (new sized_engine 100 0 (text "work")) calls)
    × ((run (new sized_engine 100 0 (text "work")) calls).revision
        ≤ (run (run (new sized_engine 100 0 (text "work")) calls) calls).revision)
run-run-Advances_example = run-run-Advances sized_engine 100 0 (text "work") calls calls

get-attach_client_example :
    get (attach_client shared 8 AttachMode.take_over 30).0.attached_clients 7
    ≡ role_after AttachMode.take_over WorkspacePolicy.persistent
        (writer_client_id shared)
        8
        7
        (get shared.attached_clients 7)
get-attach_client_example = get-attach_client shared 8 7 AttachMode.take_over 30

attach_client-Answers_example :
    let r = attach_client shared 8 AttachMode.read_write 30 in
    Answers shared 8 AttachMode.read_write r.0 r.1
attach_client-Answers_example = attach_client-Answers shared 8 AttachMode.read_write 30

detach_client-Detaches_example :
    let r = detach_client shared 7 DetachReason.disconnect in
    (get r.0.attached_clients 8 ≡ (if 7 == 8 then none else get shared.attached_clients 8))
    × (r ≡ (
        if is_some (get shared.attached_clients 7)
        then r
        else (shared, not_attached shared.revision)))
    × (r.0.revision ≡ (
        if is_some (get shared.attached_clients 7)
        then saturating_suc shared.revision
        else shared.revision))
detach_client-Detaches_example =
    detach_client-Detaches shared 7 8 DetachReason.disconnect shared-IsLease

detach_client-ends_example :
    ((detach_client shared 7 DetachReason.explicit_request).1 ≡ terminated 6 ephemeral_last_detach)
    ↔ ((is_some (get shared.attached_clients 7) ≡ true)
        × (DetachReason.explicit_request ≡ DetachReason.explicit_request)
        × (shared.policy ≡ WorkspacePolicy.ephemeral)
        × ((detach_client shared 7 DetachReason.explicit_request).0.attached_clients ≡ [])
        × (6 ≡ (detach_client shared 7 DetachReason.explicit_request).0.revision))
detach_client-ends_example = detach_client-ends shared 7 DetachReason.explicit_request 6

-- A shell that stands in /srv/app.
abbrev in_app : ℕ → Option Text
in_app pid = some (text "/srv/app")

from_workspace_file-to_workspace_file_example :
    let w' = from_workspace_file sized_engine in_app (to_workspace_file in_app 50 shared) in
    IsCoherent w'
    × (w'.tree ≡ shared.tree)
    × (w'.panes ≡ restarted_panes in_app shared.panes)
    × (w'.attached_clients ≡ [])
from_workspace_file-to_workspace_file_example =
    from_workspace_file-to_workspace_file in_app in_app 50 shared shared-IsCoherent

abbrev renamed : Workspace sized_engine
renamed = record shared { user_renamed = true }

rename-auto_run_example :
    (auto_run (rename shared (text "mine")).0 (proposes (text "zsh") ∷ refreshes in_app ∷ [])).name
    ≡ text "mine"
rename-auto_run_example =
    rename-auto_run shared (text "mine") (proposes (text "zsh") ∷ refreshes in_app ∷ [])
