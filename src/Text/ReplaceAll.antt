-- ===== src/Text/ReplaceAll.antt =====
-- `ReplaceAll` ends, and is one pass over the text from left to right.
use xmppconn.Base.{
  ℕ, zero, suc, ◌+◌, ◌-◌, ◌<◌, true, false, Option, none, some, [], ◌∷◌, ◌++◌, Bytes, if◌then◌else◌,
  length, ◌≡◌, refl, sym, ap, arith, ◌⊎◌, inl, inr, Bool-cases, length-append, take-append,
  take-append_add, drop-append_add, drop-append, append_assoc, ◌∙◌,
}
use xmppconn.Text.{starts_with, find_at, find, replace, replace_loop, replace_all}

-- What `ReplaceAll` computes: the leftmost occurrence is replaced, and the search goes on behind it
-- in the text that was there before. `skip` bytes of an occurrence are still to be dropped.
abbrev pub pass : Bytes → Bytes → ℕ → Bytes → Bytes
pass from to skip [] = []
pass from to (suc skip) (c ∷ s) = pass from to skip s
pass from to zero (c ∷ s) =
    let hit = to ++ pass from to (length from - 1) s in
    let miss = c ∷ pass from to zero s in if starts_with from (c ∷ s) then hit else miss

pass-skip : (from to xs s : Bytes) → pass from to (length xs) (xs ++ s) ≡ pass from to 0 s
pass-skip from to [] s = refl
pass-skip from to (x ∷ xs) s = pass-skip from to xs s

starts_with-append : (xs s : Bytes) → starts_with xs (xs ++ s) ≡ true
unfolding starts_with
starts_with-append [] s = refl
starts_with-append (x ∷ xs) s = ground (arith, starts_with-append xs s)

pub starts_with_split : (xs s : Bytes) → starts_with xs s ≡ true → (post : Bytes) × (s ≡ xs ++ post)
unfolding starts_with
starts_with_split [] s h = (s, refl)
starts_with_split (x ∷ xs) [] h = absurd (ground arith)
starts_with_split (x ∷ xs) (y ∷ s) h =
    let (post, e) = starts_with_split xs s (ground arith) in (post, ground arith)

find_at_step :
    (from : Bytes) (c : ℕ) (s : Bytes) (pos : ℕ)
    → find_at from (c ∷ s) pos
      ≡ (if starts_with from (c ∷ s) then some pos else find_at from s (suc pos))
unfolding find_at
find_at_step from c s pos = refl

replace_round :
    (fuel : ℕ) (s from to : Bytes) (pos : ℕ)
    → replace_loop (suc fuel) s from to (some pos)
      ≡ replace_loop fuel
          (replace s pos (length from) to)
          from
          to
          (find (replace s pos (length from) to) from (pos + length to))
unfolding replace_loop
replace_round fuel s from to pos = refl

module _ (a : ℕ) (name to : Bytes) where
  -- `pass` from the start, shut.
  unfoldable pub swept : Bytes → Bytes
  swept s = pass (a ∷ name) to 0 s

  pub swept-hit : (s : Bytes) → swept (a ∷ name ++ s) ≡ to ++ swept s
  unfolding swept
  swept-hit s =
      let e : suc (length name) - 1 ≡ length name = omega arith in
      rw (starts_with-append (a ∷ name) s, e, pass-skip (a ∷ name) to name s)

  pub swept-miss :
      (c : ℕ) (s : Bytes) → starts_with (a ∷ name) (c ∷ s) ≡ false → swept (c ∷ s) ≡ c ∷ swept s
  unfolding swept
  swept-miss c s h = rw h

  -- The search from the start of `s`: nothing, and then the pass changes nothing; or the leftmost
  -- occurrence, before which the pass changes nothing.
  abbrev Found : Bytes → ℕ → Option ℕ → Type 0
  Found s pos r =
      ((r ≡ none) × (swept s ≡ s))
      ⊎ ((pre : Bytes) × (post : Bytes) × (r ≡ some (pos + length pre))
          × (s ≡ pre ++ ((a ∷ name) ++ post))
          × (swept s ≡ pre ++ (to ++ swept post)))

  Found-later :
      (c : ℕ) (s : Bytes) (pos : ℕ) (r : Option ℕ)
      → starts_with (a ∷ name) (c ∷ s) ≡ false
      → Found s (suc pos) r
      → Found (c ∷ s) pos r
  Found-later c s pos r h (inl (e, same)) = inl (e, swept-miss c s h ∙ ap (◌∷◌ c) same)
  Found-later c s pos r h (inr (pre, post, e, split, passed)) = inr (
    c ∷ pre,
    post,
    e ∙ ap some (omega arith),
    ap (◌∷◌ c) split,
    swept-miss c s h ∙ ap (◌∷◌ c) passed,
  )

  find_at-Found : (s : Bytes) (pos : ℕ) → Found s pos (find_at (a ∷ name) s pos)
  find_at-Found [] pos = unfold find_at swept in inl (refl, refl)
  find_at-Found (c ∷ s) pos = elim (Bool-cases (starts_with (a ∷ name) (c ∷ s))) [
    | inl here ↦
        let (post, e) = starts_with_split (a ∷ name) (c ∷ s) here in
        rw (find_at_step (a ∷ name) c s pos, here)
          (inr ([], post, ap some (omega arith), e, ap swept e ∙ swept-hit post))
    | inr later ↦
        rw (find_at_step (a ∷ name) c s pos, later)
          (Found-later c s pos _ later (find_at-Found s (suc pos)))
  ]

  find-append :
      (done s : Bytes)
      → find (done ++ s) (a ∷ name) (length done) ≡ find_at (a ∷ name) s (length done)
  unfolding find
  find-append done s = rw (drop-append done s) (ground (arith, length-append done s))

  replace-append :
      (done pre post : Bytes)
      → replace
          (done ++ (pre ++ ((a ∷ name) ++ post)))
          (length done + length pre)
          (length (a ∷ name))
          to
        ≡ (done ++ (pre ++ to)) ++ post
  unfolding replace
  replace-append done pre post =
      let e : length done + length pre + length (a ∷ name)
          ≡ length done + (length pre + length (a ∷ name)) =
        omega arith in
      rw
        (
          take-append_add done _ (length pre),
          take-append pre _,
          e,
          drop-append_add done _ _,
          drop-append_add pre _ _,
          drop-append (a ∷ name) post,
        )
        (simp append_assoc)

  replace_loop_step :
      (fuel : ℕ) (done pre post : Bytes)
      → replace_loop
          (suc fuel)
          (done ++ (pre ++ ((a ∷ name) ++ post)))
          (a ∷ name)
          to
          (some (length done + length pre))
        ≡ replace_loop fuel
            ((done ++ (pre ++ to)) ++ post)
            (a ∷ name)
            to
            (find ((done ++ (pre ++ to)) ++ post) (a ∷ name) (length (done ++ (pre ++ to))))
  replace_loop_step fuel done pre post =
      let e : length done + length pre + length to ≡ length (done ++ (pre ++ to)) =
        omega (arith, length-append done (pre ++ to), length-append pre to) in
      rw (replace_round fuel _ (a ∷ name) to _, replace-append done pre post, e)

  -- The loop with the text before the search position done: what is left fits the fuel.
  replace_loop-pass :
      (fuel : ℕ) (done s : Bytes)
      → length s < fuel
      → replace_loop fuel (done ++ s) (a ∷ name) to (find (done ++ s) (a ∷ name) (length done))
        ≡ some (done ++ swept s)
  unfolding replace_loop
  replace_loop-pass zero done s h = elim h [ ]
  replace_loop-pass (suc fuel) done s h = elim (find_at-Found s (length done)) [
    | inl (e, same) ↦ rw (find-append done s, e) (ap (λ t. some (done ++ t)) (sym same))
    | inr (pre, post, e, split, passed) ↦
        rw (find-append done s, e, passed, split, replace_loop_step fuel done pre post)
          (replace_loop-pass fuel (done ++ (pre ++ to)) post (
              omega (
                arith,
                ap length split,
                length-append pre ((a ∷ name) ++ post),
                length-append (a ∷ name) post,
              ))
            ∙ ap some (simp append_assoc))
  ]

-- With any nonempty `from`, the loop ends within one round for each position of the text, and its
-- result is the pass: every occurrence that the search meets is replaced once, what was put in is
-- not searched again, and all other bytes stay.
pub replace_all-pass :
    (s : Bytes) (a : ℕ) (name to : Bytes)
    → replace_all s (a ∷ name) to ≡ some (pass (a ∷ name) to 0 s)
unfolding replace_all swept
replace_all-pass s a name to = replace_loop-pass a name to (suc (length s)) [] s (omega arith)
