-- ===== src/Overlay/Reachable.antt =====
-- What holds of the overlay of apps/desktop/src/main/overlay/overlayManager.ts after any sequence
-- of calls and events.
use aion2_hub.Prelude.{
  ℕ, suc, ◌<◌, ◌≡◌, refl, sym, ◌∙◌, ◌⊎◌, inl, inr, String, Bool, true, false, Bool-cases, Option,
  none, some, Option-cases, arith,
}
use aion2_hub.Overlay.{
  WindowBounds, Window, Overlay, initial, persist_state, persisted, hide_window, update_visibility,
  stop_watcher, ensure_watcher, ensure_window, set_enabled, resume_with, close_with,
  resume_set_enabled, on_focus, on_close, on_change, on_unavailable, dispose, dispose_end,
  is_game_title,
}
use aion2_hub.Overlay.Visibility.{
  is_visible, Same, persist_state-Same, hide_window-Same, update_visibility-Same, visible_of,
}

-- The calls and the events, in any order. A call of `setEnabled` goes on once for each time it was
-- made; `lower` stands for `toLowerCase`.
pub data Step (lower : String → String) : Overlay → Overlay → Type 0 where
  enabled :
      (next : Bool) (bounds : WindowBounds) (s : Overlay) → Step lower s (set_enabled next bounds s)
  resumed :
      (started : Bool) (n : ℕ) (s : Overlay)
      → s.resumes ≡ suc n
      → Step lower s (resume_set_enabled started (record s { resumes = n }))
  focused : (b : Bool) (s : Overlay) → Step lower s (on_focus b s)
  closed : (s : Overlay) → Step lower s (on_close s)
  changed : (title : String) (s : Overlay) → Step lower s (on_change lower title s)
  unavailable : (s : Overlay) → Step lower s (on_unavailable s)
  written : (s : Overlay) → Step lower s (persisted s)
  disposing : (s : Overlay) → Step lower s (dispose s)
  disposed : (s : Overlay) → Step lower s (dispose_end s)

pub data Reach (lower : String → String) (start : Overlay) : Overlay → Type 0 where
  here : Reach lower start start
  then : {s t : Overlay} → Reach lower start s → Step lower s t → Reach lower start t

-- The window follows the focus just if there is a watcher; and where no call of `setEnabled` waits,
-- a window that is shown is enabled.
abbrev pub IsConsistent : Overlay → Type 0
IsConsistent s =
    (s.auto_mode ≡ s.watcher) × ((0 < s.resumes) ⊎ (s.enabled ≡ true) ⊎ (is_visible s ≡ false))

update-IsConsistent : (s : Overlay) → s.auto_mode ≡ s.watcher → IsConsistent (update_visibility s)
update-IsConsistent s h =
    let ((en, auto, watch, res, game, over), shown) = update_visibility-Same s in
    (
      auto ∙ h ∙ sym watch,
      elim (Bool-cases s.enabled) [
        | inl e ↦ inr (inl (en ∙ e))
        | inr e ↦ inr (inr (shown ∙ ground (arith, e)))
      ],
    )

stop_watcher-off :
    (s : Overlay) → s.auto_mode ≡ s.watcher → (stop_watcher s).auto_mode ≡ (stop_watcher s).watcher
unfolding stop_watcher
stop_watcher-off s h = ground (arith, h)

stop_watcher-keeps :
    (s : Overlay) → ((stop_watcher s).enabled ≡ s.enabled) × ((stop_watcher s).resumes ≡ s.resumes)
unfolding stop_watcher
stop_watcher-keeps s = (ground arith, ground arith)

stop_watcher-window : (s : Overlay) → (stop_watcher s).window ≡ s.window
unfolding stop_watcher
stop_watcher-window s = ground arith

visible_congr : (s t : Overlay) → s.window ≡ t.window → is_visible s ≡ is_visible t
visible_congr s t e = visible_of s t.window e

ensure_watcher-on :
    (b : Bool) (s : Overlay)
    → s.auto_mode ≡ s.watcher
    → ((ensure_watcher b s).auto_mode ≡ (ensure_watcher b s).watcher)
      × ((ensure_watcher b s).enabled ≡ s.enabled)
unfolding ensure_watcher
ensure_watcher-on b s h = (ground (arith, h), ground arith)

ensure_window-Same : (bounds : WindowBounds) (s : Overlay) → Same s (ensure_window bounds s)
unfolding ensure_window
ensure_window-Same bounds s = elim (Option-cases s.window) [
  | inl e ↦ simp (e, ensure_window) (refl, refl, refl, refl, refl, refl)
  | inr (w, e) ↦ simp (e, ensure_window) (refl, refl, refl, refl, refl, refl)
]

resume-IsConsistent :
    (enabled : Bool) (o : Option Window) (started : Bool) (s : Overlay)
    → s.enabled ≡ enabled
    → s.window ≡ o
    → s.auto_mode ≡ s.watcher
    → IsConsistent (resume_with enabled o started s)
unfolding resume_with
resume-IsConsistent true o started s e w h =
    update-IsConsistent (ensure_watcher started s) (ensure_watcher-on started s h).0
resume-IsConsistent false none started s e w h = (h, inr (inr (visible_of s none w)))
resume-IsConsistent false (some v) started s e w h =
    let hidden = hide_window s v in
    let ((en, auto, watch, a, b, c), gone) = hide_window-Same s v w in
    let off = stop_watcher-off hidden (auto ∙ h ∙ sym watch) in
    let ((en', auto', watch', a', b', c'), win) = persist_state-Same (stop_watcher hidden) in
    (
      auto' ∙ off ∙ sym watch',
      inr (
          inr (
            visible_congr (persist_state (stop_watcher hidden)) hidden
              (win ∙ stop_watcher-window hidden)
            ∙ gone)),
    )

close-IsConsistent :
    (quitting : Bool) (o : Option Window) (s : Overlay)
    → s.window ≡ o
    → IsConsistent s
    → IsConsistent (close_with quitting o s)
unfolding close_with
close-IsConsistent true o s w h = h
close-IsConsistent false none s w h = h
close-IsConsistent false (some v) s w h =
    let ((en, auto, watch, a, b, c), gone) = hide_window-Same s v w in
    (auto ∙ h.0 ∙ sym watch, inr (inr gone))

Step-IsConsistent :
    (lower : String → String) {s t : Overlay} → Step lower s t → IsConsistent s → IsConsistent t
unfolding set_enabled resume_set_enabled on_focus on_close on_change on_unavailable dispose
Step-IsConsistent lower (Step.enabled next bounds s) h =
    let (en, auto, watch, a, b, c) = ensure_window-Same bounds (record s { enabled = next }) in
    (auto ∙ h.0 ∙ sym watch, inl (omega arith))
Step-IsConsistent lower (Step.resumed started n s e) h =
    resume-IsConsistent s.enabled s.window started (record s { resumes = n }) refl refl h.0
Step-IsConsistent lower (Step.focused b s) h =
    update-IsConsistent (record s { overlay_focused = b }) h.0
Step-IsConsistent lower (Step.closed s) h = close-IsConsistent s.quitting s.window s refl h
Step-IsConsistent lower (Step.changed title s) h =
    update-IsConsistent (record s { game_focused = is_game_title lower title }) h.0
Step-IsConsistent lower (Step.unavailable s) h =
    update-IsConsistent (stop_watcher s) (stop_watcher-off s h.0)
Step-IsConsistent lower (Step.written s) h = h
Step-IsConsistent lower (Step.disposing s) h =
    let quits = record s { quitting = true } in
    let gone = stop_watcher quits in
    let (st_en, st_res) = stop_watcher-keeps quits in
    let ((en, auto, watch, res, b, c), win) = persist_state-Same gone in
    let vis = visible_congr (persist_state gone) quits (win ∙ stop_watcher-window quits) in
    (
      auto ∙ stop_watcher-off quits h.0 ∙ sym watch,
      elim h.1 [
        | inl waits ↦ inl (omega (arith, waits, res, st_res))
        | inr (inl e) ↦ inr (inl (en ∙ st_en ∙ e))
        | inr (inr e) ↦ inr (inr (vis ∙ e))
      ],
    )
Step-IsConsistent lower (Step.disposed s) h = (h.0, inr (inr refl))

-- From the start, and after any calls and events in any order, the overlay follows the focus just
-- if a watcher runs, and where no call of `setEnabled` waits for its window, a window that is shown
-- is enabled.
pub Reach-IsConsistent :
    (lower : String → String) (stored : Option WindowBounds) {s : Overlay}
    → Reach lower (initial stored) s
    → IsConsistent s
Reach-IsConsistent lower stored Reach.here = (refl, inr (inr refl))
Reach-IsConsistent lower stored (Reach.then r step) =
    Step-IsConsistent lower step (Reach-IsConsistent lower stored r)
