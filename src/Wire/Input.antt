-- ===== src/Wire/Input.antt =====
-- protocols/rttx-proto/src/v3_terminal_input.rs: the bytes that a client's input becomes, by the
-- modes of the terminal.
use rttx.Common.{ℕ, Bool, Option, none, some, List, [], ◌∷◌, ◌++◌, if◌then◌else◌}
use rttx.Common.Text.{text}

pub data MouseMode : Type 0 where
  none_mouse x10 normal button any : MouseMode

pub record TerminalModeState : Type 0 where
  pub bracketed_paste : Bool
  pub focus_reporting : Bool
  pub application_cursor_keys : Bool
  pub application_keypad : Bool
  pub alternate_screen : Bool
  pub cursor_hidden : Bool
  pub mouse_mode : MouseMode
  pub sgr_mouse : Bool

-- `terminal_input::Kind`
pub data InputKind : Type 0 where
  raw : List ℕ → InputKind
  paste : List ℕ → InputKind
  focus : Bool → InputKind

abbrev pub bracketed_paste_start : List ℕ
bracketed_paste_start = 27 ∷ text "[200~"

abbrev pub bracketed_paste_end : List ℕ
bracketed_paste_end = 27 ∷ text "[201~"

abbrev pub focus_in : List ℕ
focus_in = 27 ∷ text "[I"

abbrev pub focus_out : List ℕ
focus_out = 27 ∷ text "[O"

unfoldable pub resolve_input : Option InputKind → TerminalModeState → List ℕ
resolve_input (some (raw input)) modes = input
resolve_input (some (paste pasted)) modes =
    if modes.bracketed_paste
    then bracketed_paste_start ++ (pasted ++ bracketed_paste_end)
    else pasted
resolve_input (some (focus focused)) modes =
    if modes.focus_reporting then (if focused then focus_in else focus_out) else []
resolve_input none modes = []
