-- ===== src/Overlay/Visibility.antt =====
-- When the overlay window of apps/desktop/src/main/overlay/overlayManager.ts is shown.
use aion2_hub.Prelude.{
  ◌≡◌, refl, ◌∙◌, inl, inr, Bool, true, false, not, ◌&&◌, ◌||◌, Bool-cases, Option, none, some,
  Option-cases, arith,
}
use aion2_hub.Overlay.{
  Window, Overlay, persist_state, hide_window, show_window, should_show, show_or_hide,
  update_window, update_visibility,
}

abbrev pub has_window : Overlay → Bool
has_window s = elim s.window [ none ↦ false | some w ↦ true ]

abbrev pub is_visible : Overlay → Bool
is_visible s = elim s.window [ none ↦ false | some w ↦ w.visible ]

-- Is the window to be shown: always in the manual mode, and otherwise while the game or the
-- overlay has the focus?
abbrev pub is_wanted : Overlay → Bool
is_wanted s = s.enabled && (not s.auto_mode || should_show s)

-- Nothing but the window and what is stored of it differs.
abbrev pub Same : Overlay → Overlay → Type 0
Same s s' =
    (s'.enabled ≡ s.enabled)
    × (s'.auto_mode ≡ s.auto_mode)
    × (s'.watcher ≡ s.watcher)
    × (s'.resumes ≡ s.resumes)
    × (s'.game_focused ≡ s.game_focused)
    × (s'.overlay_focused ≡ s.overlay_focused)

pub persist_state-Same :
    (s : Overlay) → Same s (persist_state s) × ((persist_state s).window ≡ s.window)
unfolding persist_state
persist_state-Same s = elim (Option-cases s.window) [
  | inl e ↦ simp (e, persist_state) ((refl, refl, refl, refl, refl, refl), refl)
  | inr (w, e) ↦ elim (Bool-cases s.saving) [
    | inl f ↦ simp (e, f, persist_state) ((refl, refl, refl, refl, refl, refl), refl)
    | inr f ↦ simp (e, f, persist_state) ((refl, refl, refl, refl, refl, refl), refl)
  ]
]

pub visible_of :
    (s : Overlay) (o : Option Window)
    → s.window ≡ o
    → is_visible s ≡ elim o [ none ↦ false | some w ↦ w.visible ]
visible_of s o e = rw e refl

module _ (s : Overlay) (w : Window) (e : s.window ≡ some w) where
  pub hide_window-Same : Same s (hide_window s w) × (is_visible (hide_window s w) ≡ false)
  unfolding hide_window
  hide_window-Same = elim (Bool-cases w.visible) [
    | inl f ↦
        let hidden = record s { window = some (record w { visible = false }) } in
        let (same, win) = persist_state-Same hidden in
        rw f (same, visible_of (persist_state hidden) _ win)
    | inr f ↦ rw f ((refl, refl, refl, refl, refl, refl), visible_of s (some w) e ∙ f)
  ]

  show_window-Same : Same s (show_window s w) × (is_visible (show_window s w) ≡ true)
  unfolding show_window
  show_window-Same = elim (Bool-cases w.visible) [
    | inl f ↦ simp f ((refl, refl, refl, refl, refl, refl), visible_of s (some w) e ∙ f)
    | inr f ↦ simp f ((refl, refl, refl, refl, refl, refl), refl)
  ]

has_of :
    (s : Overlay) (o : Option Window)
    → s.window ≡ o
    → has_window s ≡ elim o [ none ↦ false | some w ↦ true ]
has_of s o e = rw e refl

module _ (s : Overlay) (w : Window) (e : s.window ≡ some w) where
  show_or_hide-Same :
      (enabled auto_mode should : Bool)
      → Same s (show_or_hide enabled auto_mode should s w)
        × (is_visible (show_or_hide enabled auto_mode should s w)
            ≡ (enabled && (not auto_mode || should)))
  unfolding show_or_hide
  show_or_hide-Same false auto_mode should = hide_window-Same s w e
  show_or_hide-Same true false should = show_window-Same s w e
  show_or_hide-Same true true true = show_window-Same s w e
  show_or_hide-Same true true false = hide_window-Same s w e

-- Showing or hiding the window leaves it shown just if it is to be shown.
update_window-Same :
    (s : Overlay) (o : Option Window)
    → s.window ≡ o
    → Same s (update_window o s) × (is_visible (update_window o s) ≡ (has_window s && is_wanted s))
unfolding update_window
update_window-Same s none e =
    ((refl, refl, refl, refl, refl, refl), ground (arith, visible_of s none e, has_of s none e))
update_window-Same s (some w) e =
    let (same, shown) = show_or_hide-Same s w e s.enabled s.auto_mode (should_show s) in
    (same, shown ∙ ground (arith, has_of s (some w) e))

pub update_visibility-Same :
    (s : Overlay)
    → Same s (update_visibility s)
      × (is_visible (update_visibility s) ≡ (has_window s && is_wanted s))
unfolding update_visibility
update_visibility-Same s = update_window-Same s s.window refl
