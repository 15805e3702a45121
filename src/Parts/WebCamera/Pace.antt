-- ===== src/Parts/WebCamera/Pace.antt =====
-- src/parts/web-camera.cpp, `update`: how often the output is assigned, and to what.
use donkeycar_gt.Prelude.{
  ℕ, ◌+◌, ◌-◌, ◌*◌, ◌/◌, ◌≤◌, ◌<◌, ◌≡◌, refl, sym, ap, ◌∙◌, Bool, true, false, not, ◌&&◌, Option,
  none, some, List, [], ◌∷◌, ◌==◌, if◌then◌else◌, arith, Bool-cases, inl, inr,
}
use donkeycar_gt.Parts.Vision.{Vision}
use donkeycar_gt.Parts.WebCamera.{
  WebCamera, new_web_camera, period_is_over, is_empty, same_size, write, to_new_buffer, to_frame,
  capture, show_frame, update, updates,
}

abbrev is_none : Option ℕ → Bool
is_none none = true
is_none (some b) = false

module _ (v : Vision) where
  open v use {Picture, empty}

  -- A `cv::Mat` is without a buffer or leads to a picture.
  abbrev pub Leads : (ℕ → Picture) → ℕ → Option ℕ → Type 0
  Leads buffers next none = Unit {0}
  Leads buffers next (some b) = (b < next) × (empty (buffers b) ≡ false)

  pub record IsSound (c : WebCamera v) : Type 0 where
    pub frame : Leads c.buffers c.next_buffer c.m_frame
    pub output : Leads c.buffers c.next_buffer c.output_frame

  pub new_web_camera-IsSound : IsSound (new_web_camera v)
  unfolding new_web_camera
  new_web_camera-IsSound = record { frame = tt; output = tt }

  write-Leads :
      (buffers : ℕ → Picture) (next next' b : ℕ) (p : Picture) (o : Option ℕ)
      → next ≤ next'
      → empty p ≡ false
      → Leads buffers next o
      → Leads (write v buffers b p) next' o
  write-Leads buffers next next' b p none le full h = tt
  write-Leads buffers next next' b p (some u) le full (lt, there) = (omega arith, ground arith)

  to_new_buffer-IsSound :
      (p : Picture) (c : WebCamera v) → empty p ≡ false → IsSound c → IsSound (to_new_buffer v p c)
  to_new_buffer-IsSound p c full h = record {
    frame = (omega arith, ground arith);
    output = write-Leads c.buffers _ _ _ p c.output_frame (omega arith) full h.output;
  }

  to_frame-IsSound :
      (in_place : Bool) (p : Picture) (c : WebCamera v) (o : Option ℕ)
      → empty p ≡ false
      → IsSound c
      → IsSound (to_frame v in_place p c o)
  to_frame-IsSound in_place p c none full h = to_new_buffer-IsSound p c full h
  to_frame-IsSound in_place p c (some b) full h =
      elim (Bool-cases (in_place && same_size v (c.buffers b) p)) [
        | inl fits ↦ rw fits record {
          frame = write-Leads c.buffers _ _ b p c.m_frame (omega arith) full h.frame;
          output = write-Leads c.buffers _ _ b p c.output_frame (omega arith) full h.output;
        }
        | inr other ↦ rw other (to_new_buffer-IsSound p c full h)
      ]

  capture-IsSound :
      (in_place : Bool) (p : Picture) (c : WebCamera v)
      → IsSound c
      → IsSound (capture v in_place p c)
  unfolding capture
  capture-IsSound in_place p c h = elim (Bool-cases (empty p)) [
    | inl failed ↦ rw failed record { frame = tt; output = h.output }
    | inr full ↦ rw full (to_frame-IsSound in_place p c c.m_frame full h)
  ]

  -- What a capture leaves in `m_frame`, and that it leaves the rest.
  pub to_frame-frame :
      (in_place : Bool) (p : Picture) (c : WebCamera v) (o : Option ℕ)
      → c.m_frame ≡ o
      → let c' = to_frame v in_place p c o in
        (is_empty v c'.buffers c'.m_frame ≡ empty p)
        × (c'.m_last_frame ≡ c.m_last_frame)
        × (c'.output_frame ≡ c.output_frame)
  to_frame-frame in_place p c none here = (ground arith, refl, refl)
  to_frame-frame in_place p c (some b) here =
      elim (Bool-cases (in_place && same_size v (c.buffers b) p)) [
        | inl fits ↦ rw fits (rw here (ground arith), refl, refl)
        | inr other ↦ rw other (ground arith, refl, refl)
      ]

  pub capture-frame :
      (in_place : Bool) (p : Picture) (c : WebCamera v)
      → let c' = capture v in_place p c in
        (is_empty v c'.buffers c'.m_frame ≡ empty p)
        × (c'.m_last_frame ≡ c.m_last_frame)
        × (c'.output_frame ≡ c.output_frame)
  unfolding capture
  capture-frame in_place p c = elim (Bool-cases (empty p)) [
    | inl failed ↦ rw failed (refl, refl, refl)
    | inr full ↦ rw full (rw full at (to_frame-frame in_place p c c.m_frame refl))
  ]

  -- Whether an update assigns the output.
  abbrev pub assigns : Picture → ℕ → WebCamera v → Bool
  assigns p now c = not (empty p) && period_is_over ((now - c.m_last_frame) / 1_000_000)

  pub update-assigns :
      (in_place : Bool) (p : Picture) (now : ℕ) (c : WebCamera v)
      → let c' = capture v in_place p c in
        update v in_place p now c ≡ (
          if assigns p now c
          then record c' { m_last_frame = now; output_frame = c'.m_frame }
          else c')
  unfolding update show_frame
  update-assigns in_place p now c =
      let (there, last, _) = capture-frame in_place p c in rw (there, last) refl

  pub update-IsSound :
      (in_place : Bool) (p : Picture) (now : ℕ) (c : WebCamera v)
      → IsSound c
      → IsSound (update v in_place p now c)
  update-IsSound in_place p now c h =
      let h' = capture-IsSound in_place p c h in
      rw (update-assigns in_place p now c) (elim (Bool-cases (assigns p now c)) [
        | inl shows ↦ rw shows record { frame = h'.frame; output = h'.frame }
        | inr hides ↦ rw hides h'
      ])

  -- Whether the picture of the output is empty.
  abbrev pub no_output : WebCamera v → Bool
  no_output c = is_empty v c.buffers c.output_frame

  -- How many of these updates assign the output.
  abbrev pub shown : Bool → List (Picture × ℕ) → WebCamera v → ℕ
  shown in_place [] c = 0
  shown in_place ((p, now) ∷ rest) c =
      (if assigns p now c then 1 else 0) + shown in_place rest (update v in_place p now c)

  full-Leads :
      (buffers : ℕ → Picture) (next : ℕ) (o : Option ℕ)
      → Leads buffers next o
      → is_empty v buffers o ≡ is_none o
  full-Leads buffers next none h = refl
  full-Leads buffers next (some b) (lt, there) = there

  no_output-update :
      (in_place : Bool) (p : Picture) (now : ℕ) (c : WebCamera v)
      → IsSound c
      → no_output (update v in_place p now c) ≡ (if assigns p now c then false else no_output c)
  no_output-update in_place p now c h =
      let h' = capture-IsSound in_place p c h in
      let (there, last, same) = capture-frame in_place p c in
      rw (update-assigns in_place p now c) (elim (Bool-cases (assigns p now c)) [
        | inl shows ↦ rw shows (rw there (ground arith))
        | inr hides ↦
            rw hides
              (full-Leads _ _ _ h'.output ∙ ap is_none same ∙ sym (full-Leads _ _ _ h.output))
      ])

  m_last_frame-update :
      (in_place : Bool) (p : Picture) (now : ℕ) (c : WebCamera v)
      → (update v in_place p now c).m_last_frame ≡ (if assigns p now c then now else c.m_last_frame)
  m_last_frame-update in_place p now c =
      let (there, last, same) = capture-frame in_place p c in
      rw (update-assigns in_place p now c) (elim (Bool-cases (assigns p now c)) [
        | inl shows ↦ rw shows refl
        | inr hides ↦ rw hides last
      ])

  -- In any sequence of updates, whatever the device gives and the clock says, `m_last_frame` grows by 34 ms
  -- or more for each time that the output is assigned, and the output is never assigned an empty picture: it is
  -- empty at the end exactly if it was at the start and was not assigned.
  pub updates-pace :
      (in_place : Bool) (captures : List (Picture × ℕ)) (c : WebCamera v)
      → IsSound c
      → (c.m_last_frame + 34_000_000 * shown in_place captures c
          ≤ (updates v in_place captures c).m_last_frame)
        × (no_output (updates v in_place captures c)
            ≡ (if shown in_place captures c == 0 then no_output c else false))
  unfolding updates
  updates-pace in_place [] c h = (omega arith, refl)
  updates-pace in_place ((p, now) ∷ rest) c h =
      let (later, end) = updates-pace in_place rest _ (update-IsSound in_place p now c h) in
      let out = no_output-update in_place p now c h in
      let last = m_last_frame-update in_place p now c in
      elim (Bool-cases (assigns p now c)) [
        | inl shows ↦
            rw shows (ground (arith, rw shows at last), end ∙ rw (out, shows) (ground arith))
        | inr hides ↦
            rw hides (ground (arith, rw hides at last), end ∙ rw (out, hides) (ground arith))
      ]
