-- ===== src/Overlay.antt =====
-- The overlay window of apps/desktop/src/main/overlay/overlayManager.ts: where it is put, and when
-- it is shown.
pub mod Bounds
pub mod Visibility
pub mod Reachable
pub mod Shown
use aion2_hub.Prelude.{
  ℕ, suc, Bool, true, false, not, ◌&&◌, ◌||◌, String, ◌===◌, Option, none, some, if◌then◌else◌,
  ◌==◌,
}
use aion2_hub.Prelude.Int.{ℤ, pos, ◌+ℤ◌, ◌-ℤ◌, ltb_ℤ}
use Prim.Native.Char.{Char, code}

pub record WindowBounds : Type 0 where
  pub x : ℤ
  pub y : ℤ
  pub width : ℤ
  pub height : ℤ

abbrev pub min_ℤ : ℤ → ℤ → ℤ
min_ℤ a b = if ltb_ℤ b a then b else a

abbrev pub max_ℤ : ℤ → ℤ → ℤ
max_ℤ a b = if ltb_ℤ a b then b else a

abbrev pub min_window : ℤ
min_window = pos 240

-- One coordinate of `clampBoundsToDisplay`.
unfoldable pub clamp_position : ℤ → ℤ → ℤ → ℤ → ℤ
clamp_position at size area_at area_size =
    let a = if ltb_ℤ at area_at then area_at else at in
    if ltb_ℤ (area_at +ℤ area_size) (a +ℤ size) then area_at +ℤ area_size -ℤ size else a

unfoldable pub clamp_size : ℤ → ℤ → ℤ
clamp_size size area_size = min_ℤ (max_ℤ size min_window) area_size

-- `area` is the work area of the display that `screen` finds for the bounds.
unfoldable pub clamp_bounds_to_display : (WindowBounds → WindowBounds) → WindowBounds → WindowBounds
unfolding clamp_position clamp_size
clamp_bounds_to_display work_area bounds =
    let area = work_area bounds in
    let width = clamp_size bounds.width area.width in
    let height = clamp_size bounds.height area.height in
    record {
      x = clamp_position bounds.x width area.x area.width;
      y = clamp_position bounds.y height area.y area.height;
      width = width;
      height = height;
    }

abbrev pub default_overlay_width : ℤ
default_overlay_width = pos 380

abbrev pub default_overlay_height : ℤ
default_overlay_height = pos 620

-- `area` is the work area of the display at the cursor.
unfoldable pub default_overlay_state : WindowBounds → WindowBounds
default_overlay_state area =
    let width = min_ℤ (max_ℤ (pos 320) default_overlay_width) area.width in
    let height = min_ℤ (max_ℤ (pos 420) default_overlay_height) area.height in
    let margin = pos 16 in
    record {
      x = area.x +ℤ max_ℤ (pos 0) (area.width -ℤ width -ℤ margin);
      y = area.y +ℤ margin;
      width = width;
      height = height;
    }

-- The size that `parseWindowState` accepts, of bounds that are whole numbers already.
unfoldable pub check_window_state : WindowBounds → Option WindowBounds
check_window_state bounds =
    if ltb_ℤ bounds.width min_window || ltb_ℤ bounds.height min_window then none else some bounds

-- `stored` is what `JSON.parse` makes of the setting, where it has four finite numbers.
unfoldable pub get_initial_state :
    (WindowBounds → WindowBounds) → WindowBounds → Option WindowBounds → WindowBounds
unfolding check_window_state clamp_bounds_to_display default_overlay_state
get_initial_state work_area cursor_area none =
    clamp_bounds_to_display work_area (default_overlay_state cursor_area)
get_initial_state work_area cursor_area (some stored) =
    clamp_bounds_to_display work_area
      (elim (check_window_state stored) [ none ↦ default_overlay_state cursor_area | some b ↦ b ])

abbrev starts_with : String → String → Bool
starts_with String.[] s = true
starts_with (String.◌∷◌ c p) String.[] = false
starts_with (String.◌∷◌ c p) (String.◌∷◌ d s) = code c == code d && starts_with p s

unfoldable pub includes : String → String → Bool
includes String.[] p = starts_with p String.[]
includes (String.◌∷◌ c s) p = starts_with p (String.◌∷◌ c s) || includes s p

-- `lower` is `toLowerCase`.
unfoldable pub is_game_title : (String → String) → String → Bool
unfolding includes
is_game_title lower title = includes (lower title) "aion2"

pub record Window : Type 0 where
  pub bounds : WindowBounds
  pub visible : Bool

-- The variables of `createOverlayManager`, and the setting that `persistState` writes. There is no
-- window when it is closed or destroyed. `resumes` counts the calls of `setEnabled` that wait for
-- their window.
pub record Overlay : Type 0 where
  pub enabled : Bool
  pub window : Option Window
  pub quitting : Bool
  pub saving : Bool
  pub watcher : Bool
  pub auto_mode : Bool
  pub game_focused : Bool
  pub overlay_focused : Bool
  pub stored : Option WindowBounds
  pub resumes : ℕ

abbrev pub initial : Option WindowBounds → Overlay
initial stored = record {
  enabled = false;
  window = none;
  quitting = false;
  saving = false;
  watcher = false;
  auto_mode = false;
  game_focused = false;
  overlay_focused = false;
  stored = stored;
  resumes = 0;
}

-- `persistState` up to the writing of the file; `persisted` is the end of it.
unfoldable pub persist_state : Overlay → Overlay
persist_state s = elim s.window [
  | none ↦ s
  | some w ↦ if s.saving then s else record s { saving = true; stored = some w.bounds }
]

abbrev pub persisted : Overlay → Overlay
persisted s = record s { saving = false }

-- `win.hide()`, and the event `hide` of a window that was shown.
unfoldable pub hide_window : Overlay → Window → Overlay
unfolding persist_state
hide_window s w =
    if w.visible
    then persist_state (record s { window = some (record w { visible = false }) })
    else s

-- `win.showInactive()` of a window that is not shown.
unfoldable pub show_window : Overlay → Window → Overlay
show_window s w = if w.visible then s else record s { window = some (record w { visible = true }) }

abbrev pub should_show : Overlay → Bool
should_show s = s.game_focused || s.overlay_focused

-- The tests of `updateVisibility`: `enabled`, `autoMode` and `shouldShow`.
unfoldable pub show_or_hide : Bool → Bool → Bool → Overlay → Window → Overlay
show_or_hide false auto_mode should s w = hide_window s w
show_or_hide true false should s w = show_window s w
show_or_hide true true true s w = show_window s w
show_or_hide true true false s w = hide_window s w

unfoldable pub update_window : Option Window → Overlay → Overlay
update_window none s = s
update_window (some w) s = show_or_hide s.enabled s.auto_mode (should_show s) s w

unfoldable pub update_visibility : Overlay → Overlay
update_visibility s = update_window s.window s

unfoldable pub stop_watcher : Overlay → Overlay
stop_watcher s =
    if s.watcher then record s { watcher = false; auto_mode = false; game_focused = false } else s

-- `started` tells whether `startForegroundWatcher` gives a watcher.
unfoldable pub ensure_watcher : Bool → Overlay → Overlay
ensure_watcher started s =
    if s.watcher
    then s
    else if started
    then record s { watcher = true; auto_mode = true }
    else record s { auto_mode = false }

abbrev pub new_window : WindowBounds → Window
new_window bounds = record { bounds = bounds; visible = false }

-- `ensureWindow` up to the loading of the page; `bounds` is the initial state's.
unfoldable pub ensure_window : WindowBounds → Overlay → Overlay
ensure_window bounds s = elim s.window [
  | none ↦ record s { window = some (new_window bounds) }
  | some w ↦ s
]

-- `setEnabled` until it waits for the window.
unfoldable pub set_enabled : Bool → WindowBounds → Overlay → Overlay
unfolding ensure_window
set_enabled next bounds s =
    let s' = ensure_window bounds (record s { enabled = next }) in
    record s' { resumes = suc s'.resumes }

-- The rest of it, which reads `enabled` again. A window that is gone throws at `hide`.
unfoldable pub resume_with : Bool → Option Window → Bool → Overlay → Overlay
resume_with true o started s = update_visibility (ensure_watcher started s)
resume_with false none started s = s
resume_with false (some w) started s = persist_state (stop_watcher (hide_window s w))

unfoldable pub resume_set_enabled : Bool → Overlay → Overlay
resume_set_enabled started s = resume_with s.enabled s.window started s

-- The handlers of the window's events.
unfoldable pub on_focus : Bool → Overlay → Overlay
unfolding update_visibility
on_focus focused s = update_visibility (record s { overlay_focused = focused })

unfoldable pub close_with : Bool → Option Window → Overlay → Overlay
close_with true o s = s
close_with false none s = s
close_with false (some w) s = hide_window s w

unfoldable pub on_close : Overlay → Overlay
on_close s = close_with s.quitting s.window s

-- The watcher's.
unfoldable pub on_change : (String → String) → String → Overlay → Overlay
unfolding update_visibility is_game_title
on_change lower title s = update_visibility (record s { game_focused = is_game_title lower title })

unfoldable pub on_unavailable : Overlay → Overlay
unfolding update_visibility stop_watcher
on_unavailable s = update_visibility (stop_watcher s)

-- `dispose` until the state is written, and the rest of it.
unfoldable pub dispose : Overlay → Overlay
unfolding persist_state stop_watcher
dispose s = persist_state (stop_watcher (record s { quitting = true }))

abbrev pub dispose_end : Overlay → Overlay
dispose_end s = record s { window = none }
