-- ===== src/Vehicle/Wiring.antt =====
-- src/vehicle.cpp, `update_parts`: what each part reads in a frame, and what the frame leaves behind.
use Prim.Native.String.{String}
use text.Mathlib.Text.{◌==◌}
use donkeycar_gt.Prelude.{◌≡◌, refl, ap, ◌∙◌, List, [], ◌∷◌, Option, if◌then◌else◌}
use donkeycar_gt.Run.{ok, >>=-eq-ok, ok-injective}
use donkeycar_gt.Store.{Store}
use donkeycar_gt.Vehicle.{PartClass, Vehicle, update_each, update_parts}

-- What a part put into the store in a frame.
pub record Write (D : Type 0) : Type 0 where
  pub topic : String
  pub output : Option D

-- The last output on a topic, of the writes of a frame, newest first; `base` is what the topics held
-- when the frame began.
abbrev pub latest : {D : Type 0} → (String → Option D) → List (Write D) → String → Option D
latest base [] topic = base topic
latest base (w ∷ ws) topic = if w.topic == topic then w.output else latest base ws topic

module _ {D : Type 0} (class : PartClass D) (store : Store D) where
  open class use {Part, input_topic, output_topic, run}
  open store use {State, Ready, view, get, put, get_lem, put_lem}

  -- From the parts before a frame to those after it: each part ran once, in the order in which it was
  -- added, on the last output of this frame on its input topic, or on what the topic held before if no
  -- earlier part has written to it. `before` and `after` are the writes so far and those at the end.
  abbrev pub Wired :
      (String → Option D)
      → (before : List (Write D)) → List Part
      → List Part
      → (after : List (Write D)) → Type 0
  Wired base before [] [] after = after ≡ before
  Wired base before [] (q ∷ qs) after = ⊥
  Wired base before (part ∷ parts) [] after = ⊥
  Wired base before (part ∷ parts) (part' ∷ parts') after =
      (output : Option D) × (run (latest base before (input_topic part)) part ≡ ok (output, part'))
      × Wired base (record { topic = output_topic part'; output = output } ∷ before) parts parts'
          after

  update_each-Wired :
      (base : String → Option D) (before : List (Write D)) (parts : List Part) (s : State)
      → Ready s
      → ((topic : String) → view s topic ≡ latest base before topic)
      → (r : List Part × State) → update_each class store parts s ≡ ok r
      → (after : List (Write D)) × Wired base before parts r.0 after
        × Ready r.1
        × ((topic : String) → view r.1 topic ≡ latest base after topic)
  unfolding update_each
  update_each-Wired base before [] s ready agrees r e =
      rw (← ok-injective _ _ e) (before, refl, ready, agrees)
  update_each-Wired base before (part ∷ parts) s ready agrees r e =
      let (s1, got, ready1, same1) = get_lem (input_topic part) s ready in
      let ((output, part'), ran, e2) =
        >>=-eq-ok (run (view s (input_topic part)) part) _ (rw got at e) in
      let (s2, stored, ready2, same2) = put_lem (output_topic part') output s1 ready1 in
      let ((parts', s3), rest, done) =
        >>=-eq-ok (update_each class store parts s2) _ (rw stored at e2) in
      let w : Write D = record { topic = output_topic part'; output = output } in
      let (after, wired, ready3, agrees3) =
        update_each-Wired base (w ∷ before) parts s2 ready2
          (λ topic.
            same2 topic
            ∙ ap (λ (d : Option D). if output_topic part' == topic then output else d)
                (same1 topic ∙ agrees topic))
          (parts', s3) rest in
      rw (← ok-injective _ _ done)
        (after, (output, rw (← agrees (input_topic part)) ran, wired), ready3, agrees3)

  update_each_total :
      ((input : Option D) (part : Part) → (r : Option D × Part) × (run input part ≡ ok r))
      → (parts : List Part) (s : State) → Ready s
      → (r : List Part × State) × (update_each class store parts s ≡ ok r)
  unfolding update_each
  update_each_total runs [] s ready = (([], s), refl)
  update_each_total runs (part ∷ parts) s ready =
      let (s1, got, ready1, _) = get_lem (input_topic part) s ready in
      let ((output, part'), ran) = runs (view s (input_topic part)) part in
      let (s2, stored, ready2, _) = put_lem (output_topic part') output s1 ready1 in
      let ((parts', s3), rest) = update_each_total runs parts s2 ready2 in
      ((part' ∷ parts', s3), rw (got, ran, stored, rest))

  -- A frame, `update_parts`, runs every part once and in the order in which they were added. Each part
  -- reads the last output of this frame on its input topic, or what the topic held when the frame began
  -- if no earlier part wrote to it; afterwards every topic holds the last output of the frame on it, or
  -- what it held before. The vehicle goes on running as it did.
  pub update_parts-Wired :
      (v v' : Vehicle class store)
      → Ready v.m_store
      → update_parts class store v ≡ ok v'
      → (after : List (Write D)) × Wired (view v.m_store) [] v.m_parts v'.m_parts after
        × ((topic : String) → view v'.m_store topic ≡ latest (view v.m_store) after topic)
        × (v'.m_running ≡ v.m_running)
        × Ready v'.m_store
  unfolding update_parts
  update_parts-Wired v v' ready e =
      let ((parts, s), ran, done) = >>=-eq-ok (update_each class store v.m_parts v.m_store) _ e in
      let (after, wired, ready', agrees) =
        update_each-Wired (view v.m_store) [] v.m_parts v.m_store ready (λ topic. refl) (parts, s)
          ran in
      rw (← ok-injective _ _ done) (after, wired, agrees, refl, ready')

  -- If no part ever fails, no frame does: the store gives no fault of its own.
  pub update_parts_total :
      ((input : Option D) (part : Part) → (r : Option D × Part) × (run input part ≡ ok r))
      → (v : Vehicle class store) → Ready v.m_store
      → (v' : Vehicle class store) × (update_parts class store v ≡ ok v')
  unfolding update_parts
  update_parts_total runs v ready =
      let ((parts, s), done) = update_each_total runs v.m_parts v.m_store ready in
      (record v { m_parts = parts; m_store = s }, rw done)
