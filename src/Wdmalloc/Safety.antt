-- ===== src/Wdmalloc/Safety.antt =====
-- The heap through any history of `wdmalloc` and `wdfree` that frees only what it holds.
use waddle_os.Base.{
  ℕ, ◌+◌, ◌-◌, ◌^◌, ◌≤◌, ◌<◌, ◌≡◌, refl, ◌≢◌, ◌∙◌, ◌⊎◌, inl, inr, true, false, ◌==◌, List, [], ◌∷◌,
  ◌++◌, Bool-cases, not-ltb, arith, ok, sym, ap,
}
use mathlib.Core.Path.{subst}
use native.Mathlib.Decide.{dec_lt}
use waddle_os.Memory.{Memory}
use waddle_os.LinkedList.Ring.{has}
use waddle_os.Wdmalloc.{Wd, init, wdmalloc, uninitialised}
use waddle_os.Wdmalloc.Free.{wdfree}
use waddle_os.Wdmalloc.Limits.{init-laid_out}
use waddle_os.Wdmalloc.Blocks.{Block, free, extent, IsHeap}
use waddle_os.Wdmalloc.Heap.{IsHeap-in_heap}
use waddle_os.Wdmalloc.Malloc.{cut, granted, Served, wdmalloc-Served}
use waddle_os.Wdmalloc.Release.{release, wdfree-release}
use waddle_os.Wdmalloc.Live.{payload_at, payload_at-split, payload_at-release_ne, payload_at-cut}
use waddle_os.Wdmalloc.Separate.{separate, separate-cut, separate-release}
use waddle_os.Wdmalloc.Live.{payload_at-within, payload_at-free}
use waddle_os.Wdmalloc.Reached.{
  without, Reached, initialised, allocated, refused, given_back, Sound, ok_unique, has-without,
  laid_out-IsHeap,
}

module _ (start size : ℕ) (real : start ≢ 0) (some_bytes : 12 < size) (small : size < 2 ^ 15 + 12)
    (ends : start + size < 2 ^ 64) where
  initialised-Sound :
      (m : Memory) (w₀ w : Wd) → init m start size w₀ ≡ ok (tt, w) → Sound w start size []
  initialised-Sound m w₀ w e =
      let same = (ok_unique _ tt tt _ w (init-laid_out m start size w₀ some_bytes) e).1 in
      (
        free (size - 12) ∷ [],
        subst (λ v. IsHeap v start size (free (size - 12) ∷ [])) same
            (laid_out-IsHeap m start size real (omega arith) small ends),
        refl,
        λ p h. absurd (ground arith),
      )

  Served-Sound :
      (w : Wd) (held : List ℕ) (n p : ℕ) (w' : Wd) (bs : List Block)
      → separate bs ≡ true
      → ((q : ℕ) → has q held ≡ true → payload_at start bs q ≡ true)
      → Served w start size bs n
      → wdmalloc n w ≡ ok (p, w')
      → Sound w' start size (p ∷ held)
  Served-Sound w held n p w' bs apart sound s e =
      let same = ok_unique _ _ p s.next w' s.runs e in
      (
        s.before ++ (cut n s.room ++ s.behind),
        subst (λ v. IsHeap v start size (s.before ++ (cut n s.room ++ s.behind))) same.1 s.heap,
        separate-cut s.before n s.room s.behind (subst (λ cs. separate cs ≡ true) s.blocks apart),
        λ q mem.
            payload_at-cut start s.before n s.room s.behind q s.enough (elim (Bool-cases (q == p)) [
              | inl new ↦ inr (ground (arith, same.0))
              | inr old ↦
                  inl (subst (λ cs. payload_at start cs q ≡ true) s.blocks (sound q (ground arith)))
            ]),
      )

  refused-Sound :
      (w : Wd) (held : List ℕ) (n : ℕ) (w' : Wd)
      → Sound w start size held
      → wdmalloc n w ≡ ok (0, w')
      → Sound w' start size held
  refused-Sound w held n w' (bs, heap, apart, sound) e =
      elim (wdmalloc-Served w start size bs n heap) [
        | inl full ↦
            let same = ok_unique _ _ 0 w w' full.1 e in
            subst (λ v. Sound v start size held) same.1 (bs, heap, apart, sound)
        | inr s ↦
            let same = ok_unique _ _ 0 s.next w' s.runs e in absurd (real (omega (arith, same.0)))
      ]

  -- Without a free block, or for an address at the end of the heap, `wdfree` does nothing.
  wdfree-nothing :
      (w : Wd) (bs : List Block) (p : ℕ)
      → IsHeap w start size bs
      → (w.freelist_head ≡ 0) ⊎ (start + size ≤ p)
      → start ≤ p
      → wdfree p w ≡ ok (tt, w)
  unfolding wdfree
  wdfree-nothing w bs p heap (inl none_free) low = rw none_free refl
  wdfree-nothing w bs p heap (inr above) low = elim (Bool-cases (uninitialised w)) [
    | inl off ↦ rw off refl
    | inr ready ↦
        rw (ready, IsHeap-in_heap w start size bs heap p low, not-ltb p (start + size) above) refl
  ]

  -- `wdfree` of a held address ends, and what is held besides stays allocated.
  given_back-Sound :
      (w : Wd) (held : List ℕ) (p : ℕ)
      → Sound w start size held
      → has p held ≡ true
      → (w' : Wd) × (wdfree p w ≡ ok (tt, w')) × Sound w' start size (without p held)
  given_back-Sound w held p (bs, heap, apart, sound) mem =
      let (xs, s, ys, e, at) = payload_at-split start bs p (sound p mem) in
      let held_on : (q : ℕ) → has q (without p held) ≡ true → payload_at start bs q ≡ true =
        λ q h. sound q (has-without p held q h).0 in
      elim (Bool-cases (w.freelist_head == 0)) [
        | inl none_free ↦ (
          w,
          wdfree-nothing w bs p heap (inl (ground arith)) (omega arith),
          (bs, heap, apart, held_on),
        )
        | inr some_free ↦ elim (dec_lt p (start + size)) [
          | no above ↦ (
            w,
            wdfree-nothing w bs p heap (inr (omega arith)) (omega arith),
            (bs, heap, apart, held_on),
          )
          | yes inside ↦
              let (w', run, heap', kept) =
                wdfree-release w start size xs s ys (subst (λ cs. IsHeap w start size cs) e heap)
                  (λ z. ground arith) (omega arith) in
              (
                w',
                ap (λ a. wdfree a w) at ∙ run,
                (
                  release xs s ys,
                  heap',
                  separate-release xs s ys (subst (λ cs. separate cs ≡ true) e apart),
                  λ q h.
                      payload_at-release_ne start xs s ys q
                        (λ z. (has-without p held q h).1 (omega arith))
                        (subst (λ cs. payload_at start cs q ≡ true) e (held_on q h)),
                ),
              )
        ]
      ]

  Reached-Sound : (w : Wd) (held : List ℕ) → Reached start size w held → Sound w start size held
  Reached-Sound w held (initialised m w₀ w₁ e) = initialised-Sound m w₀ w e
  Reached-Sound w held (allocated v w₁ rest n p run e ne) =
      let (bs, heap, apart, sound) = Reached-Sound v rest run in
      elim (wdmalloc-Served v start size bs n heap) [
        | inl full ↦ absurd (ne (sym (ok_unique _ 0 p v w full.1 e).0))
        | inr s ↦ Served-Sound v rest n p w bs apart sound s e
      ]
  Reached-Sound w held (refused v w₁ rest n run e) =
      refused-Sound v held n w (Reached-Sound v held run) e
  Reached-Sound w held (given_back v w₁ rest p run mem e) =
      let (w', run', sound) = given_back-Sound v rest p (Reached-Sound v rest run) mem in
      subst (λ u. Sound u start size (without p rest)) (ok_unique _ tt tt w' w run' e).1 sound

  -- In every heap that `wdmalloc` and `wdfree` lead to from `wdmalloc_init`, of 13 to 32779 bytes
  -- inside the address space, if only held addresses are freed: the heap is made of blocks, no two
  -- free ones are neighbours, and each held address is that of an allocated one; the next `wdmalloc`
  -- of any size returns, with an address that is not held; and the next `wdfree` of a held address
  -- returns.
  pub Reached-safe :
      (w : Wd) (held : List ℕ)
      → Reached start size w held
      → Sound w start size held
        × ((n : ℕ) → (p : ℕ) × (w' : Wd) × (wdmalloc n w ≡ ok (p, w')) × (has p held ≡ false))
        × ((p : ℕ) → has p held ≡ true → (w' : Wd) × (wdfree p w ≡ ok (tt, w')))
  Reached-safe w held run =
      let (bs, heap, apart, sound) = Reached-Sound w held run in
      (
        (bs, heap, apart, sound),
        λ n. elim (wdmalloc-Served w start size bs n heap) [
          | inl full ↦ (0, w, full.1, missing bs sound 0 (null bs))
          | inr s ↦
              let p = start + extent s.before + 12 + (s.room - granted n s.room) in
              let outside =
                payload_at-free start s.before s.room s.behind p (omega arith) (omega arith) in
              (
                p,
                s.next,
                s.runs,
                missing bs sound p
                    (subst (λ cs. payload_at start cs p ≡ false) (sym s.blocks) outside),
              )
        ],
        λ p mem.
            let (w', run', rest) = given_back-Sound w held p (bs, heap, apart, sound) mem in
            (w', run'),
      )
    where
      null : (bs : List Block) → payload_at start bs 0 ≡ false
      null bs = ground (arith, payload_at-within start bs 0)

      missing :
          (bs : List Block)
          → ((q : ℕ) → has q held ≡ true → payload_at start bs q ≡ true)
          → (p : ℕ) → payload_at start bs p ≡ false
          → has p held ≡ false
      missing bs sound p none_there = elim (Bool-cases (has p held)) [
        | inl mem ↦ absurd (ground (arith, sound p mem))
        | inr out ↦ out
      ]
