-- ===== src/Overlay/Shown.antt =====
-- When the events of the overlay of apps/desktop/src/main/overlay/overlayManager.ts leave its window
-- shown.
use aion2_hub.Prelude.{
  ◌≡◌, ap, ◌∙◌, inl, inr, String, Bool, true, ◌&&◌, ◌||◌, Bool-cases, Option, if◌then◌else◌, arith,
}
use aion2_hub.Overlay.{
  WindowBounds, Overlay, initial, stop_watcher, ensure_watcher, resume_with, on_focus, on_change,
  on_unavailable, is_game_title,
}
use aion2_hub.Overlay.Visibility.{has_window, is_visible, is_wanted, update_visibility-Same}
use aion2_hub.Overlay.Reachable.{Reach, Reach-IsConsistent}

-- Enabled, and in the manual mode or with the focus on the game or on the overlay.
abbrev pub is_shown : Bool → Bool → Bool → Bool → Bool
is_shown enabled auto_mode game_focused overlay_focused =
    enabled && (if auto_mode then game_focused || overlay_focused else true)

wanted-is_shown :
    (s : Overlay) → is_wanted s ≡ is_shown s.enabled s.auto_mode s.game_focused s.overlay_focused
wanted-is_shown s = ground arith

stopped-is_wanted :
    (s : Overlay)
    → s.auto_mode ≡ s.watcher
    → (has_window (stop_watcher s) && is_wanted (stop_watcher s)) ≡ (has_window s && s.enabled)
unfolding stop_watcher
stopped-is_wanted s h = elim (Bool-cases s.watcher) [
  | inl e ↦ rw (e, stop_watcher) (ground arith)
  | inr e ↦ rw (e, stop_watcher) (ground (arith, h, e))
]

ensured-is_wanted :
    (s : Overlay) (started : Bool)
    → s.auto_mode ≡ s.watcher
    → (has_window (ensure_watcher started s) && is_wanted (ensure_watcher started s))
      ≡ (has_window s && is_shown s.enabled (s.watcher || started) s.game_focused s.overlay_focused)
unfolding ensure_watcher
ensured-is_wanted s started h = elim (Bool-cases s.watcher) [
  | inl e ↦ rw (e, ensure_watcher) (ground (arith, h, e))
  | inr e ↦ elim (Bool-cases started) [
    | inl f ↦ rw (e, f, ensure_watcher) (ground arith)
    | inr f ↦ rw (e, f, ensure_watcher) (ground arith)
  ]
]

-- In every state that calls and events lead to: after the focus of the overlay or of the game
-- changes, a window that is there is shown just if the overlay is enabled, and is in the manual mode
-- or one of the two has the focus then. After the watcher ends it is shown just if the overlay is
-- enabled. After `setEnabled` goes on, where the overlay is enabled, the mode is the automatic one
-- just if there was a watcher or one is started.
pub on_event-shown :
    (lower : String → String) (stored : Option WindowBounds) (s : Overlay) (b : Bool)
    (title : String)
    → Reach lower (initial stored) s
    → (is_visible (on_focus b s)
        ≡ (has_window s && is_shown s.enabled s.auto_mode s.game_focused b))
      × (is_visible (on_change lower title s) ≡ (
          has_window s
          && is_shown s.enabled s.auto_mode (is_game_title lower title) s.overlay_focused))
      × (is_visible (on_unavailable s) ≡ (has_window s && s.enabled))
      × (is_visible (resume_with true s.window b s)
          ≡ (has_window s && is_shown s.enabled (s.watcher || b) s.game_focused s.overlay_focused))
unfolding on_focus on_change on_unavailable resume_with
on_event-shown lower stored s b title reach =
    let follows = (Reach-IsConsistent lower stored reach).0 in
    let focused = record s { overlay_focused = b } in
    let titled = record s { game_focused = is_game_title lower title } in
    (
      (update_visibility-Same focused).1 ∙ ap (λ w. has_window s && w) (wanted-is_shown focused),
      (update_visibility-Same titled).1 ∙ ap (λ w. has_window s && w) (wanted-is_shown titled),
      (update_visibility-Same (stop_watcher s)).1 ∙ stopped-is_wanted s follows,
      (update_visibility-Same (ensure_watcher b s)).1 ∙ ensured-is_wanted s b follows,
    )
