-- ===== src/Pane.antt =====
-- services/rttx-server/src/pane.rs: a pane's record and its metadata. The terminal engine behind
-- it, with its screen and its clipboard scanner, is a parameter.
use rttx.Common.{ℕ, Uuid, Bool, false, Option, none, some, List, []}
use rttx.Common.Text.{Text}
use rttx.Common.{is_some, true, not, ◌+◌, ◌++◌, ◌||◌, if◌then◌else◌}
use rttx.Wire.Input.{TerminalModeState}

-- What a pane asks of its screen, by the names of screen.rs.
pub record Engine : Type 1 where
  pub PaneScreen : Type 0
  pub Osc52Filter : Type 0
  pub new_sized : ℕ → ℕ → ℕ → PaneScreen
  pub resize : PaneScreen → ℕ → ℕ → PaneScreen
  pub new_filter : Osc52Filter
  pub raw_bytes : PaneScreen → List ℕ
  pub reattach_stream : PaneScreen → PaneScreen × List ℕ
  pub terminal_mode_state : PaneScreen → TerminalModeState
  pub has_app_only_modes : PaneScreen → Bool
  pub cleanup_sequence : PaneScreen → Bool → List ℕ
  pub feed : PaneScreen → List ℕ → PaneScreen
  pub clear_scrollback : PaneScreen → PaneScreen

abbrev pub default_max_scrollback : ℕ
default_max_scrollback = 0xa00000

pub record Pane (e : Engine) : Type 0 where
  pub id : Uuid
  pub screen : e.PaneScreen
  pub cwd : Option Text
  pub title : Option Text
  pub cols : ℕ
  pub rows : ℕ
  pub exit_status : Option ℕ
  pub reconstructed : Bool
  pub scrollback_log_path : Option Text
  pub pending_flush : List ℕ
  pub child_pid : Option ℕ
  pub output_seq : ℕ
  pub no_persist : Bool
  pub osc52 : e.Osc52Filter

module _ (e : Engine) where
  unfoldable pub new : Uuid → ℕ → ℕ → Pane e
  new id cols rows = record {
    id = id;
    screen = e.new_sized default_max_scrollback cols rows;
    cwd = none;
    title = none;
    cols = cols;
    rows = rows;
    exit_status = none;
    reconstructed = false;
    scrollback_log_path = none;
    pending_flush = [];
    child_pid = none;
    output_seq = 0;
    no_persist = false;
    osc52 = e.new_filter;
  }

module _ {e : Engine} where
  -- `proc` is what the operating system says of `/proc/<pid>/cwd` at the time of the call.
  unfoldable pub read_proc_cwd : (ℕ → Option Text) → Pane e → Option Text
  read_proc_cwd proc p = elim p.child_pid [ none ↦ none | some pid ↦ proc pid ]

  unfoldable pub effective_cwd : (ℕ → Option Text) → Pane e → Option Text
  unfolding read_proc_cwd
  effective_cwd proc p = elim p.cwd [ none ↦ read_proc_cwd proc p | some cwd ↦ some cwd ]

  unfoldable pub is_exited : Pane e → Bool
  is_exited p = is_some p.exit_status

  -- `idle pid` is `foreground_is_shell` of a pane whose child is `pid`: what `/proc` says.
  unfoldable pub foreground_is_shell : (ℕ → Option Bool) → Pane e → Option Bool
  foreground_is_shell idle p = elim p.child_pid [ none ↦ none | some pid ↦ idle pid ]

  unfoldable pub sanitize_modes_if_idle : (ℕ → Option Bool) → Pane e → Pane e × Option (List ℕ)
  unfolding is_exited foreground_is_shell
  sanitize_modes_if_idle idle p =
      let cleanup = e.cleanup_sequence p.screen true in
      if is_exited p || not (e.has_app_only_modes p.screen)
      then (p, none)
      else (elim (foreground_is_shell idle p) [
        | some true ↦ (record p { screen = e.feed p.screen cleanup }, some cleanup)
        | some false ↦ (p, none)
        | none ↦ (p, none)
      ])

  unfoldable pub feed_cleanup : Pane e → Pane e × List ℕ
  feed_cleanup p =
      let cleanup = e.cleanup_sequence p.screen false in
      (
        record p {
          screen = e.feed p.screen cleanup;
          pending_flush = p.pending_flush ++ cleanup;
          output_seq = p.output_seq + 1;
        },
        cleanup,
      )

  unfoldable pub release_scrollback : Pane e → Pane e
  release_scrollback p = record p { screen = e.clear_scrollback p.screen; pending_flush = [] }
