-- ===== src/Prelude/Rounds.antt =====
-- Fair executions of a thread and of one that may wait for it: a measure that falls in each round ends at zero.
use donkeycar_gt.Prelude.{
  ℕ, zero, suc, ◌-◌, ◌≤◌, ◌≡◌, Bool, false, List, [], ◌∷◌, length, inl, inr, Bool-cases,
  if◌then◌else◌, arith,
}

unfoldable pub turns {ℓ} : {S : Type ℓ} (turn : S → S) → ℕ → S → S
turns turn zero s = s
turns turn (suc k) s = turns turn k (turn s)

-- In each round the thread takes a turn or more, and then the owner takes one.
unfoldable pub rounds_of {ℓ} : {S : Type ℓ} (thread owner : S → S) → List ℕ → S → S
rounds_of thread owner [] s = s
rounds_of thread owner (k ∷ ks) s = rounds_of thread owner ks (owner (turns thread (suc k) s))

-- Every turn keeps `Inv` and raises no `left`. Where the owner waits a turn of the thread lowers it, else one
-- of the owner does; the thread makes no owner wait that did not.
pub record IsProgress {S : Type 0} (thread owner : S → S) (Inv : S → Type 0) (left : S → ℕ)
    (waits : S → Bool) : Type 0 where
  pub thread_keeps : (s : S) → Inv s → Inv (thread s)
  pub owner_keeps : (s : S) → Inv s → Inv (owner s)
  pub thread_left : (s : S) → Inv s → left (thread s) ≤ left s - (if waits s then 1 else 0)
  pub owner_left : (s : S) → Inv s → left (owner s) ≤ left s - (if waits s then 0 else 1)
  pub goes_on : (s : S) → Inv s → waits s ≡ false → waits (thread s) ≡ false

module _ {S : Type 0} {thread : S → S} {owner : S → S} {Inv : S → Type 0} {left : S → ℕ}
    {waits : S → Bool} (p : IsProgress thread owner Inv left waits) where
  pub turns-left :
      (k : ℕ) (s : S) → Inv s → Inv (turns thread k s) × (left (turns thread k s) ≤ left s)
  unfolding turns
  turns-left zero s h = (h, omega arith)
  turns-left (suc k) s h =
      let (h', less) = turns-left k (thread s) (p.thread_keeps s h) in
      (h', omega (arith, p.thread_left s h, less))

  turns-waits : (k : ℕ) (s : S) → Inv s → waits s ≡ false → waits (turns thread k s) ≡ false
  unfolding turns
  turns-waits zero s h on = on
  turns-waits (suc k) s h on = turns-waits k (thread s) (p.thread_keeps s h) (p.goes_on s h on)

  -- In each round the owner gets on, or the thread gets nearer to its answer.
  pub round-left : (k : ℕ) (s : S) → Inv s → left (owner (turns thread (suc k) s)) ≤ left s - 1
  unfolding turns
  round-left k s h =
      let (h', less) = turns-left (suc k) s h in
      elim (Bool-cases (waits s)) [
        | inl waiting ↦
            let near = rw waiting at (p.thread_left s h) in
            let (_, less') = turns-left k (thread s) (p.thread_keeps s h) in
            grind (arith, p.owner_left _ h', near, less')
        | inr other ↦
            let on = rw (turns-waits (suc k) s h other) at (p.owner_left _ h') in
            omega (arith, on, less)
      ]

  pub rounds-left :
      (ks : List ℕ) (s : S)
      → Inv s
      → Inv (rounds_of thread owner ks s)
        × (left (rounds_of thread owner ks s) ≤ left s - length ks)
  unfolding rounds_of
  rounds-left [] s h = (h, omega arith)
  rounds-left (k ∷ ks) s h =
      let (h', less) = turns-left (suc k) s h in
      let (h'', less') = rounds-left ks _ (p.owner_keeps _ h') in
      (h'', omega (arith, round-left k s h, less'))
