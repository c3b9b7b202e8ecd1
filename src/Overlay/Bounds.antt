-- ===== src/Overlay/Bounds.antt =====
-- Where the overlay window is put: `clampBoundsToDisplay` of
-- apps/desktop/src/main/overlay/overlayManager.ts.
use aion2_hub.Prelude.{◌≡◌, refl, false, inl, inr, Bool-cases, arith}
use aion2_hub.Prelude.Int.{ℤ, ◌+ℤ◌, ◌≤ℤ◌, ltb_ℤ, int_laws, eq_of_parts}
use aion2_hub.Overlay.{
  WindowBounds, min_window, clamp_position, clamp_size, clamp_bounds_to_display,
}

ltb_ℤ-false : (a b : ℤ) → ltb_ℤ a b ≡ false → b ≤ℤ a
ltb_ℤ-false a b e = ground (arith, e)

le-ltb_ℤ : (a b : ℤ) → b ≤ℤ a → ltb_ℤ a b ≡ false
le-ltb_ℤ a b h = ground (arith, h)

le_antisym : (a b : ℤ) → a ≤ℤ b → b ≤ℤ a → a ≡ b
le_antisym a b h k = eq_of_parts a b (omega arith)

module _ (at size area_at area_size : ℤ) where
  -- An interval that is no longer than the area is put inside of it.
  clamp_position_fits :
      size ≤ℤ area_size
      → (area_at ≤ℤ clamp_position at size area_at area_size)
        × (clamp_position at size area_at area_size +ℤ size ≤ℤ area_at +ℤ area_size)
  unfolding clamp_position
  clamp_position_fits h = elim (Bool-cases (ltb_ℤ at area_at)) [
    | inl e ↦
        rw (e, le-ltb_ℤ (area_at +ℤ area_size) (area_at +ℤ size) (omega int_laws))
          (omega arith, omega int_laws)
    | inr e ↦
        let low = ltb_ℤ-false at area_at e in
        elim (Bool-cases (ltb_ℤ (area_at +ℤ area_size) (at +ℤ size))) [
          | inl f ↦ rw (e, f) (omega int_laws, omega int_laws)
          | inr f ↦ rw (e, f) (low, ltb_ℤ-false (area_at +ℤ area_size) (at +ℤ size) f)
        ]
  ]

  -- One that is inside stays.
  clamp_position_inside :
      area_at ≤ℤ at
      → at +ℤ size ≤ℤ area_at +ℤ area_size
      → clamp_position at size area_at area_size ≡ at
  unfolding clamp_position
  clamp_position_inside h k =
      rw (le-ltb_ℤ at area_at h, le-ltb_ℤ (area_at +ℤ area_size) (at +ℤ size) k) refl

clamp_size_fits : (size area_size : ℤ) → clamp_size size area_size ≤ℤ area_size
unfolding clamp_size
clamp_size_fits size area_size = ground arith

clamp_size_least :
    (size area_size : ℤ) → min_window ≤ℤ area_size → min_window ≤ℤ clamp_size size area_size
unfolding clamp_size
clamp_size_least size area_size h = ground (arith, h)

clamp_size_inside :
    (size area_size : ℤ) → min_window ≤ℤ size → size ≤ℤ area_size → clamp_size size area_size ≡ size
unfolding clamp_size
clamp_size_inside size area_size h k =
    rw (le-ltb_ℤ size min_window h, le-ltb_ℤ area_size size k) refl

-- Bounds that lie in the area, on both axes.
abbrev pub IsInside : WindowBounds → WindowBounds → Type 0
IsInside area b =
    (area.x ≤ℤ b.x)
    × (b.x +ℤ b.width ≤ℤ area.x +ℤ area.width)
    × (area.y ≤ℤ b.y)
    × (b.y +ℤ b.height ≤ℤ area.y +ℤ area.height)

-- Whatever the stored bounds are, the clamped ones lie in the work area of their display; and where
-- the bounds lie in it already and are not smaller than the least size, they stay as they are.
pub clamp_bounds_to_display-IsInside :
    (work_area : WindowBounds → WindowBounds) (b : WindowBounds)
    → IsInside (work_area b) (clamp_bounds_to_display work_area b)
      × (IsInside (work_area b) b
          → min_window ≤ℤ b.width
          → min_window ≤ℤ b.height
          → clamp_bounds_to_display work_area b ≡ b)
unfolding clamp_bounds_to_display
clamp_bounds_to_display-IsInside work_area b =
    let area = work_area b in
    let width = clamp_size b.width area.width in
    let height = clamp_size b.height area.height in
    let (left, right) =
      clamp_position_fits b.x width area.x area.width (clamp_size_fits b.width area.width) in
    let (top, bottom) =
      clamp_position_fits b.y height area.y area.height (clamp_size_fits b.height area.height) in
    (
      (left, right, top, bottom),
      λ inside wide high.
          let (x_low, x_high, y_low, y_high) = inside in
          rw
            (
              clamp_size_inside b.width area.width wide (omega int_laws),
              clamp_size_inside b.height area.height high (omega int_laws),
              clamp_position_inside b.x b.width area.x area.width x_low x_high,
              clamp_position_inside b.y b.height area.y area.height y_low y_high,
            )
            refl,
    )
