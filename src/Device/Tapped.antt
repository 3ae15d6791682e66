-- ===== src/Device/Tapped.antt =====
-- What a tap does when it returns.
use capybaragram_build.Prelude.{
  ℕ, ◌+◌, ◌/◌, ◌≤◌, ◌<◌, true, ◌&&◌, ltb, ◌∷◌, ◌≡◌, sym, ap, ◌∙◌, some, arith,
}
use capybaragram_build.Text.{codes}
use capybaragram_build.Text.Decimal.{decimal}
use capybaragram_build.Device.{adb, Trace, Node, World, returned, require, device}
use capybaragram_build.Device.Bounds.{Box, box}
use capybaragram_build.Device.Screen.{get_or, bounds_of, tap_command, tap_with, tap, middle}
use capybaragram_build.Device.Returns.{
  bind-returned, return-returned, require-returned, from_option-returned, device-returned,
}

-- The point that a tap sends to the device, inside the element's own bounds.
pub record Tapped (w : World) (node : Node) (t t' : Trace) : Type 0 where
  pub bounds : Box
  pub x : ℕ
  pub y : ℕ
  pub stated : box w.digit (get_or node "bounds") ≡ some bounds
  pub right : (bounds.x1 ≤ x) × (x < bounds.x2)
  pub down : (bounds.y1 ≤ y) × (y < bounds.y2)
  pub sent : t' ≡ adb (tap_command (decimal x) (decimal y)) ∷ t

middle_inside : (a b : ℕ) → a < b → (a ≤ (a + b) / 2) × ((a + b) / 2 < b)
middle_inside a b h = (omega (arith, h), omega (arith, h))

ordered : (b : Box) → (ltb b.x1 b.x2 && ltb b.y1 b.y2) ≡ true → (b.x1 < b.x2) × (b.y1 < b.y2)
ordered b h = (ground (arith, h), ground (arith, h))

-- A tap that returns has sent one command, a tap at a point inside the bounds that the element
-- itself states, and made no other call.
pub tap-Tapped :
    (w : World) (node : Node) (t t' : Trace) → tap w node t ≡ (returned tt, t') → Tapped w node t t'
unfolding tap tap_with bounds_of
tap-Tapped w node t t' h =
    let (b, u1, p1, h1) =
      bind-returned (bounds_of w (codes "Observed action has no valid bounds") node) _ t t' h in
    let (d2, u2, p2, h2) = bind-returned (require (ltb b.x1 b.x2 && ltb b.y1 b.y2) _) _ u1 t' h1 in
    let (out, u3, p3, h3) =
      bind-returned (device w (tap_command (middle b).0 (middle b).1)) _ u2 t' h2 in
    let (e, f) = from_option-returned _ _ b t u1 p1 in
    let (g, k) = require-returned (ltb b.x1 b.x2 && ltb b.y1 b.y2) _ u1 u2 p2 in
    let (errors, l, m) = device-returned w (tap_command (middle b).0 (middle b).1) u2 u3 out p3 in
    let (n, o) = return-returned tt tt u3 t' h3 in
    let (q, r) = ordered b g in
    record {
      bounds = b;
      x = (b.x1 + b.x2) / 2;
      y = (b.y1 + b.y2) / 2;
      stated = e;
      right = middle_inside b.x1 b.x2 q;
      down = middle_inside b.y1 b.y2 r;
      sent =
          sym o ∙ sym m ∙ ap (λ x. adb (tap_command (middle b).0 (middle b).1) ∷ x) (sym (f ∙ k));
    }
