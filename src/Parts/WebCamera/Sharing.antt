-- ===== src/Parts/WebCamera/Sharing.antt =====
-- src/parts/web-camera.cpp, `update`: `m_output->frame() = m_frame` shares the buffer of `m_frame`, which the next
-- capture may write to.
use donkeycar_gt.Prelude.{
  ℕ, ◌-◌, ◌/◌, ◌≤◌, ◌<◌, ◌≡◌, refl, ap, ◌∙◌, Bool, true, false, Option, none, some, List, [], ◌∷◌,
  if◌then◌else◌, arith, Bool-cases, inl, inr,
}
use donkeycar_gt.Prelude.Relations.{All}
use donkeycar_gt.Parts.Vision.{Vision}
use donkeycar_gt.Parts.WebCamera.{
  WebCamera, new_web_camera, period_is_over, picture_at, same_size, write, to_new_buffer, to_frame,
  capture, update, updates,
}
use donkeycar_gt.Parts.WebCamera.Pace.{update-assigns, assigns}

module _ (v : Vision) where
  open v use {Picture, empty}

  -- The picture that the other parts see.
  abbrev pub output : WebCamera v → Picture
  output c = picture_at v c.buffers c.output_frame

  -- The last picture of a list, or else the one before it.
  abbrev pub latest : List (Picture × ℕ) → Picture → Picture
  latest [] before = before
  latest ((p, now) ∷ rest) before = latest rest p

  -- The last picture that came with the period over since the one that was shown before it, at `last`.
  abbrev pub paced : List (Picture × ℕ) → ℕ → Picture → Picture
  paced [] last before = before
  paced ((p, now) ∷ rest) last before =
      let shows = period_is_over ((now - last) / 1_000_000) in
      paced rest (if shows then now else last) (if shows then p else before)

  -- A capture that does not fail, of the size of `first`.
  abbrev pub IsLike : Picture → Picture × ℕ → Type 0
  IsLike first (p, now) = (empty p ≡ false) × (v.rows p ≡ v.rows first) × (v.cols p ≡ v.cols first)

  to_frame-fresh :
      (q : Picture) (c : WebCamera v) (o : Option ℕ) → to_frame v false q c o ≡ to_new_buffer v q c
  to_frame-fresh q c none = refl
  to_frame-fresh q c (some b) = refl

  capture-fresh :
      (q : Picture) (c : WebCamera v) → empty q ≡ false → capture v false q c ≡ to_new_buffer v q c
  unfolding capture
  capture-fresh q c full = rw full (to_frame-fresh q c c.m_frame)

  capture-in_place :
      (q : Picture) (c : WebCamera v) (b : ℕ)
      → empty q ≡ false
      → c.m_frame ≡ some b
      → same_size v (c.buffers b) q ≡ true
      → capture v true q c ≡ record c { buffers = write v c.buffers b q }
  unfolding capture
  capture-in_place q c b full here fits = rw full (ap (to_frame v true q c) here ∙ rw fits refl)

  -- `m_frame` and the output lead to one buffer, with the picture `p`.
  record IsShared (p : Picture) (c : WebCamera v) : Type 0 where
    buffer : ℕ
    frame : c.m_frame ≡ some buffer
    shared : c.output_frame ≡ some buffer
    there : c.buffers buffer ≡ p

  like-same_size :
      (p q first : Picture) (now now' : ℕ)
      → IsLike first (p, now)
      → IsLike first (q, now')
      → same_size v p q ≡ true
  like-same_size p q first now now' (_, tall, wide) (_, tall', wide') = ground arith

  update-IsShared :
      (p q : Picture) (now : ℕ) (c : WebCamera v)
      → empty q ≡ false
      → same_size v p q ≡ true
      → IsShared p c
      → IsShared q (update v true q now c)
  update-IsShared p q now c full fits h =
      let written =
        capture-in_place q c h.buffer full h.frame
          (ap (λ (r : Picture). same_size v r q) h.there ∙ fits) in
      rw (update-assigns v true q now c, written)
        (elim (Bool-cases (assigns v q now c)) [
          | inl shows ↦
              rw shows record {
                buffer = h.buffer;
                frame = h.frame;
                shared = h.frame;
                there = ground arith;
              }
          | inr hides ↦
              rw hides record {
                buffer = h.buffer;
                frame = h.frame;
                shared = h.shared;
                there = ground arith;
              }
        ])

  -- The output leads to a picture, and not to a buffer that is to come.
  record IsKept (p : Picture) (last : ℕ) (c : WebCamera v) : Type 0 where
    buffer : ℕ
    old : buffer < c.next_buffer
    shown : c.output_frame ≡ some buffer
    there : c.buffers buffer ≡ p
    since : c.m_last_frame ≡ last

  update-IsKept :
      (p q : Picture) (last now : ℕ) (c : WebCamera v)
      → empty q ≡ false
      → IsKept p last c
      → let shows = period_is_over ((now - last) / 1_000_000) in
        IsKept (if shows then q else p) (if shows then now else last) (update v false q now c)
  update-IsKept p q last now c full h =
      let over : assigns v q now c ≡ period_is_over ((now - last) / 1_000_000) =
        rw (full, h.since) refl in
      rw (update-assigns v false q now c, capture-fresh q c full, over)
        (elim (Bool-cases (period_is_over ((now - last) / 1_000_000))) [
          | inl shows ↦ rw shows record {
            buffer = c.next_buffer;
            old = omega arith;
            shown = refl;
            there = ground arith;
            since = refl;
          }
          | inr hides ↦ rw hides record {
            buffer = h.buffer;
            old = omega (arith, h.old);
            shown = h.shown;
            there = ground (arith, h.old, h.there);
            since = h.since;
          }
        ])

  shared-output : (p : Picture) (c : WebCamera v) → IsShared p c → output c ≡ p
  shared-output p c h = ap (picture_at v c.buffers) h.shared ∙ h.there

  kept-output : (p : Picture) (last : ℕ) (c : WebCamera v) → IsKept p last c → output c ≡ p
  kept-output p last c h = ap (picture_at v c.buffers) h.shown ∙ h.there

  updates-IsShared :
      (first p : Picture) (before : ℕ) (captures : List (Picture × ℕ)) (c : WebCamera v)
      → IsLike first (p, before)
      → All (IsLike first) captures
      → IsShared p c
      → IsShared (latest captures p) (updates v true captures c)
  unfolding updates
  updates-IsShared first p before [] c like all h = h
  updates-IsShared first p before ((q, now) ∷ rest) c like (like', all) h =
      updates-IsShared first q now rest _ like' all
        (update-IsShared p q now c like'.0 (like-same_size p q first before now like like') h)

  updates-IsKept :
      (first : Picture) (captures : List (Picture × ℕ)) (p : Picture) (last : ℕ) (c : WebCamera v)
      → All (IsLike first) captures
      → IsKept p last c
      → (now : ℕ) × IsKept (paced captures last p) now (updates v false captures c)
  unfolding updates
  updates-IsKept first [] p last c all h = (last, h)
  updates-IsKept first ((q, now) ∷ rest) p last c (like, all) h =
      updates-IsKept first rest _ _ _ all (update-IsKept p q last now c like.0 h)

  -- The first update, a period or more after the epoch of the clock.
  first_update :
      (in_place : Bool) (p : Picture) (now : ℕ)
      → empty p ≡ false
      → 34_000_000 ≤ now
      → let c = update v in_place p now (new_web_camera v) in IsShared p c × IsKept p now c
  unfolding new_web_camera capture
  first_update in_place p now full late =
      let over : assigns v p now (new_web_camera v) ≡ true = ground arith in
      rw (update-assigns v in_place p now (new_web_camera v), over, full)
        (
          record { buffer = 0; frame = refl; shared = refl; there = ground arith },
          record {
            buffer = 0;
            old = omega arith;
            shown = refl;
            there = ground arith;
            since = refl;
          },
        )

  -- What the other parts see of a new camera, after captures that do not fail and are of one size, the first of them
  -- 34 ms or more after the epoch of the clock. If the device writes into the buffer that it is given, it is the last
  -- picture captured, whatever the pace, so the throttle is without effect; if not, it is the
  -- last one that came with the period over since the one that was shown before it.
  pub updates-output :
      (in_place : Bool) (p : Picture) (now : ℕ) (captures : List (Picture × ℕ))
      → 34_000_000 ≤ now
      → All (IsLike p) ((p, now) ∷ captures)
      → output (updates v in_place ((p, now) ∷ captures) (new_web_camera v))
        ≡ (if in_place then latest captures p else paced captures now p)
  unfolding updates
  updates-output true p now captures late (like, all) =
      let (starts, _) = first_update true p now like.0 late in
      shared-output _ _ (updates-IsShared p p now captures _ like all starts)
  updates-output false p now captures late (like, all) =
      let (_, starts) = first_update false p now like.0 late in
      let (last, kept) = updates-IsKept p captures p now _ all starts in kept-output _ last _ kept
