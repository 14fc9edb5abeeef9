-- ===== src/Ui/Images/Scaled.antt =====
-- The scaling of images in appytizer-ui/main.cpp ends, with an image of the size that is wanted.
use Prim.Native.Nat.{◌≤◌}
use native.Mathlib.Nat.{div-lt_iff_lt-mul, mul-le-mul_right, mul_comm}
use appytizer_app_server.Base.{
  ℕ, zero, suc, ◌+◌, ◌*◌, ◌/◌, ◌<◌, ◌≡◌, refl, ◌⊎◌, inl, inr, ltb→lt, false, ◌||◌, some, arith,
  Bool-cases, ltb, ◌==◌,
}
use appytizer_app_server.Ui.Images.{
  Size, max, scaled_side, target_size, halve, last_copy, enough, copy_scaled,
}

halve-some :
    (fuel tw th w h : ℕ)
    → 0 < tw
    → 0 < th
    → max w tw + max h th < fuel
    → (scaled : Size) × (halve fuel (tw, th) (w, h) ≡ some scaled)
unfolding halve
halve-some zero tw th w h a b under = absurd (ground arith)
halve-some (suc fuel) tw th w h a b under = elim (Bool-cases (ltb (tw * 2) w || ltb (th * 2) h)) [
  | inr e ↦ ((w, h), rw (halve, e) refl)
  | inl e ↦
      let (scaled, result) =
        halve-some fuel tw th (max tw (w / 2)) (max th (h / 2)) a b (ground (arith, e)) in
      (scaled, rw (halve, e) result)
]

last_copy-target : (target scaled : Size) → last_copy target scaled ≡ target
last_copy-target (tw, th) (w, h) = ground arith

scaled_side-le :
    (shorter longer size : ℕ) → shorter < longer → 0 < size → scaled_side shorter longer size ≤ size
scaled_side-le shorter longer size h k =
    let room : suc shorter * size ≤ longer * size = mul-le-mul_right size (omega arith) in
    let q = (shorter * size + longer / 2) / longer in
    let below : q < suc size =
      (div-lt_iff_lt-mul {k = longer} {x = shorter * size + longer / 2} {y = suc size}
          (omega arith)).1
        (omega (arith, room, mul_comm size longer)) in
    ground (arith, below)

scaled_side-pos : (shorter longer size : ℕ) → 0 < scaled_side shorter longer size
scaled_side-pos shorter longer size = ground arith

-- A size within the square, with both sides at least 1 and one as long as the square's.
pub Fits : ℕ → Size → Type 0
Fits size (width, height) =
    (0 < width)
    × (0 < height)
    × (width ≤ size)
    × (height ≤ size)
    × ((width ≡ size) ⊎ (height ≡ size))

target_size-Fits : (w h size : ℕ) → 0 < size → Fits size (target_size (w, h) size)
unfolding Fits target_size
target_size-Fits w h size k = elim (Bool-cases (ltb h w)) [
  | inl e ↦
      rw (target_size, e)
        (
          k,
          scaled_side-pos h w size,
          omega arith,
          scaled_side-le h w size (ltb→lt h w e) k,
          inl refl,
        )
  | inr e ↦ elim (Bool-cases (ltb w h)) [
    | inl f ↦
        rw (target_size, e, f)
          (
            scaled_side-pos w h size,
            k,
            scaled_side-le w h size (ltb→lt w h f) k,
            omega arith,
            inr refl,
          )
    | inr f ↦ rw (target_size, e, f) (k, k, omega arith, omega arith, inl refl)
  ]
]

-- The loop that halves an image ends, and the scaled copy of an image that is not empty has just the
-- target size: both sides are from 1 to the size asked for, and one of them is that size.
pub copy_scaled-Fits :
    (w h size : ℕ)
    → 0 < w
    → 0 < h
    → 0 < size
    → (copy_scaled (w, h) size ≡ some (some (target_size (w, h) size)))
      × Fits size (target_size (w, h) size)
unfolding copy_scaled Fits
copy_scaled-Fits w h size a b k =
    let target = target_size (w, h) size in
    let fits = target_size-Fits w h size k in
    let (scaled, result) =
      halve-some (enough target (w, h)) target.0 target.1 w h fits.0 fits.1 (omega arith) in
    let given : ((w == 0) || (h == 0)) ≡ false = ground arith in
    (rw (copy_scaled, given, result, last_copy-target target scaled) refl, fits)
