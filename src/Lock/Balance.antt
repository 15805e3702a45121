-- ===== src/Lock/Balance.antt =====
-- include/lock.hpp: whatever a thread does with its `Lock` objects, it holds each mutex as often as the
-- objects say, so the end of the last of them releases every mutex.
use donkeycar_gt.Prelude.Relations.{All}
use donkeycar_gt.Prelude.{
  ℕ, suc, ◌+◌, ◌≡◌, refl, ◌≢◌, Bool, some, List, [], ◌∷◌, ◌==◌, if-same, ap, arith, get_elem?, set,
}
use donkeycar_gt.Run.{
  Run, ok, fault, null_deref, dangling, the, ◌>>=◌, >>=-eq-ok, ok-injective, the-eq-ok,
}
use donkeycar_gt.Mutex.{PthreadMutex}
use mathlib.Core.Path.{◌∙◌, sym}
use donkeycar_gt.Lock.{Lock, default_ctor, move_ctor, move_assign, ctor, copy_ctor, dtor}
use donkeycar_gt.Lock.Held.{
  held_by, held, IsSound, remove_at, held-set, held-remove_at, All-get, All-set, All-remove_at,
  get-set_self, get_elem?-set_own,
}
use donkeycar_gt.Lock.Release.{dtor-releases, ctor-held}

-- What a thread can do with the `Lock` objects in its scopes; objects are named by their positions.
pub data Op : Type 0 where
  construct : (mutex : ℕ) → Op
  construct_default : Op
  copy : (i : ℕ) → Op
  move : (i : ℕ) → Op
  assign : (i j : ℕ) → Op
  destroy : (i : ℕ) → Op

module _ (p : PthreadMutex) (debug : Bool) (t : ℕ) where
  open p use {World, depth}

  unfoldable pub apply : Op → List Lock × World → Run (List Lock × World)
  apply (construct m) (ls, w) = do (l, w') ← ctor p debug t m w; ok (l ∷ ls, w')
  apply construct_default (ls, w) = ok (default_ctor ∷ ls, w)
  apply (copy i) (ls, w) = do
    other ← the (get_elem? ls i) dangling
    (l, w') ← copy_ctor p debug t other w
    ok (l ∷ ls, w')
  apply (move i) (ls, w) = do
    other ← the (get_elem? ls i) dangling
    let (l, other') = move_ctor other
    ok (l ∷ set ls i other', w)
  apply (assign i j) (ls, w) = do
    this ← the (get_elem? ls i) dangling
    other ← the (get_elem? ls j) dangling
    let (this', other') = move_assign this other
    ok (set (set ls i this') j other', w)
  apply (destroy i) (ls, w) = do
    l ← the (get_elem? ls i) dangling
    w' ← dtor p debug t l w
    ok (remove_at i ls, w')

  -- `base` is what the thread held before, and what the other threads hold.
  pub record IsBalanced (base : ℕ → ℕ → ℕ) (s : List Lock × World) : Type 0 where
    pub own : (m : ℕ) → depth t m s.1 ≡ base t m + held m s.0
    pub others : (t' m : ℕ) → t' ≢ t → depth t' m s.1 ≡ base t' m
    pub sound : All IsSound s.0

  unfoldable pub apply-IsBalanced :
      (base : ℕ → ℕ → ℕ) (op : Op) (s s' : List Lock × World)
      → IsBalanced base s
      → apply op s ≡ ok s'
      → IsBalanced base s'
  unfolding apply copy_ctor move_ctor default_ctor
  apply-IsBalanced base (construct k) (ls, w) s' v e =
      let ((l, w'), made, done) = >>=-eq-ok (ctor p debug t k w) _ e in
      let (sound, held_more, others) = ctor-held p debug t k w l w' made in
      rw (← ok-injective _ _ done) (record {
        own = λ m. omega (arith, held_more m, v.own m);
        others = λ t' m ne. others t' m ne ∙ v.others t' m ne;
        sound = (sound, v.sound);
      })
  apply-IsBalanced base construct_default (ls, w) s' v e = rw (← ok-injective _ _ e) (record {
    own = λ m. omega (arith, v.own m);
    others = v.others;
    sound = (λ none_set. refl, v.sound);
  })
  apply-IsBalanced base (copy i) (ls, w) s' v e =
      let (other, found, e') = >>=-eq-ok (the (get_elem? ls i) dangling) _ e in
      let ((l, w'), made, done) = >>=-eq-ok (copy_ctor p debug t other w) _ e' in
      let (k, _, built) = >>=-eq-ok (the other.m_mutex null_deref) _ made in
      let (sound, held_more, others) = ctor-held p debug t k w l w' built in
      rw (← ok-injective _ _ done) (record {
        own = λ m. omega (arith, held_more m, v.own m);
        others = λ t' m ne. others t' m ne ∙ v.others t' m ne;
        sound = (sound, v.sound);
      })
  apply-IsBalanced base (move i) (ls, w) s' v e =
      let (other, found, done) = >>=-eq-ok (the (get_elem? ls i) dangling) _ e in
      let here = the-eq-ok (get_elem? ls i) dangling found in
      rw (← ok-injective _ _ done) (record {
        own = λ m. omega (arith, held-set m i ls other default_ctor here, v.own m);
        others = v.others;
        sound = (
          All-get IsSound ls i other v.sound here,
          All-set IsSound ls i default_ctor v.sound (λ none_set. refl),
        );
      })
  apply-IsBalanced base (assign i j) (ls, w) s' v e =
      let (this, at_i, e') = >>=-eq-ok (the (get_elem? ls i) dangling) _ e in
      let (other, at_j, done) = >>=-eq-ok (the (get_elem? ls j) dangling) _ e' in
      let here = the-eq-ok (get_elem? ls i) dangling at_i in
      let there = the-eq-ok (get_elem? ls j) dangling at_j in
      let moved =
        get-set_self ls i j this other other here there ∙ ap some (if-same (i == j) other) in
      rw (← ok-injective _ _ done) (record {
        own = λ m. omega (
          arith,
          held-set m i ls this other here,
          held-set m j (set ls i other) other this moved,
          v.own m,
        );
        others = v.others;
        sound =
            All-set IsSound (set ls i other) j this
              (All-set IsSound ls i other v.sound (All-get IsSound ls j other v.sound there))
              (All-get IsSound ls i this v.sound here);
      })
  apply-IsBalanced base (destroy i) (ls, w) s' v e =
      let (l, found, e') = >>=-eq-ok (the (get_elem? ls i) dangling) _ e in
      let (w', gone, done) = >>=-eq-ok (dtor p debug t l w) _ e' in
      let here = the-eq-ok (get_elem? ls i) dangling found in
      let (v', same, (released, others)) =
        dtor-releases p debug t l w (All-get IsSound ls i l v.sound here)
          (λ m. omega (arith, held-remove_at m i ls l here, v.own m)) in
      let eq = ok-injective _ _ (sym gone ∙ same) in
      rw (← ok-injective _ _ done) (record {
        own = λ m. rw eq (omega (arith, released m, held-remove_at m i ls l here, v.own m));
        others = λ t' m ne. rw eq (others t' m ne ∙ v.others t' m ne);
        sound = All-remove_at IsSound ls i v.sound;
      })

  unfoldable pub apply_all : List Op → List Lock × World → Run (List Lock × World)
  apply_all [] s = ok s
  apply_all (op ∷ ops) s = do s' ← apply op s; apply_all ops s'

  apply_all-IsBalanced :
      (base : ℕ → ℕ → ℕ) (ops : List Op) (s s' : List Lock × World)
      → IsBalanced base s
      → apply_all ops s ≡ ok s'
      → IsBalanced base s'
  unfolding apply_all
  apply_all-IsBalanced base [] s s' v e = rw (← ok-injective _ _ e) v
  apply_all-IsBalanced base (op ∷ ops) s s' v e =
      let (s1, one, rest) = >>=-eq-ok (apply op s) _ e in
      apply_all-IsBalanced base ops s1 s' (apply-IsBalanced base op s s1 v one) rest

  start-IsBalanced :
      (ops : List Op) (w : World) (s' : List Lock × World)
      → apply_all ops ([], w) ≡ ok s'
      → IsBalanced (λ t' m. depth t' m w) s'
  start-IsBalanced ops w s' e =
      apply_all-IsBalanced _ ops ([], w) s'
        (record { own = λ m. omega arith; others = λ t' m ne. refl; sound = tt }) e

  -- After any sequence of constructions, copies, moves, assignments and destructions of `Lock` objects
  -- that starts with none, the thread holds each mutex as often as before and once for each count of a
  -- live object; what the other threads hold is unchanged. With no object left all is as before.
  pub lock_balance :
      (ops : List Op) (w : World) (s' : List Lock × World)
      → apply_all ops ([], w) ≡ ok s'
      → ((m : ℕ) → depth t m s'.1 ≡ depth t m w + held m s'.0)
        × ((t' m : ℕ) → t' ≢ t → depth t' m s'.1 ≡ depth t' m w)
        × (s'.0 ≡ [] → (m : ℕ) → depth t m s'.1 ≡ depth t m w)
  lock_balance ops w s' e =
      let v = start-IsBalanced ops w s' e in
      (v.own, v.others, λ empty m. v.own m ∙ rw empty (omega arith))

  -- In such a state the destructor of every live object runs to its end, with and without assertions:
  -- it never reaches a null mutex, and never waits.
  pub destroy_completes :
      (ops : List Op) (w : World) (s' : List Lock × World) (i : ℕ) (l : Lock)
      → apply_all ops ([], w) ≡ ok s'
      → get_elem? s'.0 i ≡ some l
      → (w' : World) × (apply (destroy i) s' ≡ ok (remove_at i s'.0, w'))
        × ((m : ℕ) → depth t m w' + held_by m l ≡ depth t m s'.1)
  unfolding apply
  destroy_completes ops w (ls, w1) i l e here =
      let v = start-IsBalanced ops w (ls, w1) e in
      let (w', gone, (released, _)) =
        dtor-releases p debug t l w1 (All-get IsSound ls i l v.sound here)
          (λ m. omega (arith, held-remove_at m i ls l here, v.own m)) in
      (w', rw (here, gone), released)

  -- An object that was moved from can be destroyed but not copied: the copy constructor reads through
  -- its null mutex.
  pub copy_after_move :
      (i : ℕ) (s s' : List Lock × World)
      → apply (move i) s ≡ ok s'
      → apply (copy (suc i)) s' ≡ fault null_deref
  unfolding apply copy_ctor move_ctor default_ctor
  copy_after_move i (ls, w) s' e =
      let (other, found, done) = >>=-eq-ok (the (get_elem? ls i) dangling) _ e in
      rw (← ok-injective _ _ done)
        (rw (get_elem?-set_own ls i default_ctor other (the-eq-ok (get_elem? ls i) dangling found)))
