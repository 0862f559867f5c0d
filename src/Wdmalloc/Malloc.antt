-- ===== src/Wdmalloc/Malloc.antt =====
-- `wdmalloc` on any heap that earlier calls can have left: the best fit among the free blocks.
use waddle_os.Base.{
  ℕ, ◌+◌, ◌-◌, ◌^◌, ◌≤◌, ◌<◌, ◌≡◌, refl, ◌≢◌, ◌∙◌, ◌⊎◌, inl, inr, true, false, ◌&&◌, ◌==◌, ltb, leb,
  if◌then◌else◌, List, [], ◌∷◌, ◌++◌, ne→==, Bool-cases, arith, ok, sym, ap,
}
use mathlib.Core.Path.{subst}
use native.Mathlib.Decide.{dec_lt}
use waddle_os.LinkedList.Ring.{has, last, has-append}
use waddle_os.Wdmalloc.{Wd, no_best, sz_at, uninitialised, list_fuel, find_best, wdmalloc}
use waddle_os.Wdmalloc.Blocks.{Block, free, used, extent, Chain, IsHeap}
use waddle_os.Wdmalloc.Search.{search, find_best-search, Found, search-Found}
use waddle_os.Wdmalloc.Split.{
  split_block-split_heap, split_heap, split_heap-IsHeap, split_heap-Kept,
}
use waddle_os.Wdmalloc.Take.{take_block-taken, taken, taken-IsHeap, taken-Kept}
use waddle_os.Wdmalloc.Heap.{
  Kept, IsHeap-Listed, IsHeap-block, IsHeap-within, IsHeap-real, IsHeap-length,
}

-- What becomes of a free block of `s` bytes that serves a request of `n`, and the bytes that the
-- caller gets.
abbrev pub cut : ℕ → ℕ → List Block
cut n s = if ltb n s && leb 12 (s - n) then free (s - n - 12) ∷ used n ∷ [] else used s ∷ []

abbrev pub granted : ℕ → ℕ → ℕ
granted n s = if ltb n s && leb 12 (s - n) then n else s

-- The blocks `bs` have a free one of `s` bytes.
abbrev pub FreeBlock : List Block → ℕ → Type 0
FreeBlock bs s = (xs : List Block) × (ys : List Block) × (bs ≡ xs ++ (free s ∷ ys))

-- The request was served from the free block behind `before`, and no smaller one would do.
pub record Served (w : Wd) (start size : ℕ) (bs : List Block) (n : ℕ) : Type 0 where
  pub before : List Block
  pub room : ℕ
  pub behind : List Block
  pub blocks : bs ≡ before ++ (free room ∷ behind)
  pub enough : n ≤ room
  pub best : (s : ℕ) → FreeBlock bs s → n ≤ s → room ≤ s
  pub next : Wd
  pub runs : wdmalloc n w ≡ ok (start + extent before + 12 + (room - granted n room), next)
  pub heap : IsHeap next start size (before ++ (cut n room ++ behind))
  pub kept : Kept start size bs w.mem next.mem

-- A block of a heap that the search finds serves the request.
serve :
    (w : Wd) (start size n : ℕ) (xs : List Block) (s : ℕ) (ys : List Block) (q : ℕ) (us vs : List ℕ)
    (heap : IsHeap w start size (xs ++ (free s ∷ ys)))
    → heap.free_list ≡ us ++ (q ∷ vs)
    → q ≡ start + extent xs
    → n ≤ s
    → s < 2 ^ 15
    → sz_at w.mem q ≡ s
    → ((t : ℕ) → FreeBlock (xs ++ (free s ∷ ys)) t → n ≤ t → s ≤ t)
    → uninitialised w ≡ false
    → find_best (list_fuel w) n w.freelist_head 0 no_best w
      ≡ ok (record { min = q; min_prev = last 0 us; min_sz = s }, w)
    → Served w start size (xs ++ (free s ∷ ys)) n
unfolding wdmalloc
serve w start size n xs s ys q us vs heap list at enough small field least ready pick =
    let ne : (q == 0) ≡ false = ne→== q 0 (λ e. heap.real (omega arith)) in
    let ne' : (s == 2 ^ 16 - 1) ≡ false = ne→== s (2 ^ 16 - 1) (omega arith) in
    elim (Bool-cases (ltb n s && leb 12 (s - n))) [
      | inl roomy ↦
          let place : q + 12 + (s - n) ≡ start + extent xs + 12 + (s - n) = omega arith in
          record {
            before = xs;
            room = s;
            behind = ys;
            blocks = refl;
            enough = enough;
            best = least;
            next = split_heap w start size xs s ys q n heap at (ground arith);
            runs =
                rw (roomy, ready, pick, ne, ne', field, roomy, ← place)
                  (split_block-split_heap w start size xs s ys q n heap at (ground arith));
            heap = rw roomy (split_heap-IsHeap w start size xs s ys q n heap at (ground arith));
            kept = split_heap-Kept w start size xs s ys q n heap at (ground arith);
          }
      | inr tight ↦
          let place : q + 12 ≡ start + extent xs + 12 + (s - s) = omega arith in
          record {
            before = xs;
            room = s;
            behind = ys;
            blocks = refl;
            enough = enough;
            best = least;
            next = taken w start size xs s ys q us vs heap at list;
            runs =
                rw (tight, ready, pick, ne, ne', field, tight, ← place)
                  (take_block-taken w start size xs s ys q us vs heap at list);
            heap = rw tight (taken-IsHeap w start size xs s ys q us vs heap at list);
            kept = taken-Kept w start size xs s ys q us vs heap at list;
          }
    ]

-- The same for a heap whose blocks are known to be those.
serve-at :
    (w : Wd) (start size n : ℕ) (xs : List Block) (s : ℕ) (ys : List Block) (q : ℕ) (us vs : List ℕ)
    (bs : List Block)
    → bs ≡ xs ++ (free s ∷ ys)
    → (heap : IsHeap w start size bs) → heap.free_list ≡ us ++ (q ∷ vs)
    → q ≡ start + extent xs
    → n ≤ s
    → s < 2 ^ 15
    → sz_at w.mem q ≡ s
    → ((t : ℕ) → FreeBlock bs t → n ≤ t → s ≤ t)
    → uninitialised w ≡ false
    → find_best (list_fuel w) n w.freelist_head 0 no_best w
      ≡ ok (record { min = q; min_prev = last 0 us; min_sz = s }, w)
    → Served w start size bs n
serve-at w start size n xs s ys q us vs bs e heap list at enough small field least ready pick =
    subst
      (λ cs.
        (h : IsHeap w start size cs)
        → h.free_list ≡ us ++ (q ∷ vs)
        → ((t : ℕ) → FreeBlock cs t → n ≤ t → s ≤ t)
        → Served w start size cs n)
      (sym e)
      (λ h l best. serve w start size n xs s ys q us vs h l at enough small field best ready pick)
      heap list least

-- No free block has room for `n` bytes.
abbrev pub TooSmall : List Block → ℕ → Type 0
TooSmall bs n = (s : ℕ) → FreeBlock bs s → s < n

module _ (w : Wd) (start size : ℕ) (bs : List Block) (n : ℕ) (heap : IsHeap w start size bs) where
  small-listed : (f : ℕ) → has f heap.free_list ≡ true → sz_at w.mem f < 2 ^ 15
  small-listed f mem =
      let l = IsHeap-Listed w start size bs heap f mem in omega (arith, l.sz, l.small)

  -- Where the search found nothing, or the list is empty, no block is large enough.
  none-listed : ((f : ℕ) → has f heap.free_list ≡ true → sz_at w.mem f < n) → TooSmall bs n
  none-listed h s (xs, ys, e) =
      let (mem, field) = IsHeap-block w start size bs heap xs s ys e in
      omega (arith, h (start + extent xs) mem, field)

  search-runs :
      find_best (list_fuel w) n w.freelist_head 0 no_best w
      ≡ ok (search w.mem n heap.free_list 0 no_best, w)
  search-runs =
      find_best-search w n (list_fuel w) w.freelist_head heap.free_list 0 no_best
        (IsHeap-length w start size bs heap) (IsHeap-real w start size bs heap) heap.chain

  head-listed : w.freelist_head ≢ 0 → has w.freelist_head heap.free_list ≡ true
  head-listed ne = first heap.free_list heap.chain
    where
      first : (fs : List ℕ) → Chain w.mem w.freelist_head fs → has w.freelist_head fs ≡ true
      first [] c = absurd (ne c)
      first (f ∷ fs) c = ground (arith, c.0)

  head-empty : w.freelist_head ≡ 0 → heap.free_list ≡ []
  head-empty e = nothing heap.free_list heap.chain (IsHeap-real w start size bs heap)
    where
      nothing : (fs : List ℕ) → Chain w.mem w.freelist_head fs → has 0 fs ≡ false → fs ≡ []
      nothing [] c real = refl
      nothing (f ∷ fs) c real = absurd (ground (arith, c.0, e))

  ready : w.freelist_head ≢ 0 → uninitialised w ≡ false
  ready ne =
      let (low, high) = IsHeap-within w start size bs heap w.freelist_head (head-listed ne) in
      ground (arith, heap.from, heap.real, heap.bytes)

  serve-found :
      w.freelist_head ≢ 0
      → Found w.mem n heap.free_list 0 no_best (search w.mem n heap.free_list 0 no_best)
      → (TooSmall bs n × (wdmalloc n w ≡ ok (0, w))) ⊎ Served w start size bs n
  unfolding wdmalloc
  serve-found ne (which, low, least) = elim which [
    | inl nothing ↦ inl (
      none-listed (λ f mem. elim (dec_lt (sz_at w.mem f) n) [
        | yes small ↦ small
        | no fits ↦
            let bound = least f mem (omega arith) in
            let e : _ ≡ 65535 = ap (λ b. b.min_sz) nothing in
            absurd (omega (arith, small-listed f mem, e))
      ]),
      rw (ready ne, search-runs, nothing) refl,
    )
    | inr c ↦ inr (
        let mem : has c.block heap.free_list ≡ true =
          rw c.place (ground (arith, has-append c.block c.before (c.block ∷ c.behind))) in
        let l = IsHeap-Listed w start size bs heap c.block mem in
        let fits = c.fits in
        let min-eq : _ ≡ l.room = ap (λ b. b.min_sz) c.result ∙ l.sz in
        serve-at w start size n l.before l.room l.behind c.block c.before c.behind bs l.blocks heap
          c.place l.place (omega (arith, l.sz)) l.small l.sz
          (λ t (xs, ys, e) big.
            let (mem', field) = IsHeap-block w start size bs heap xs t ys e in
            omega (arith, least (start + extent xs) mem' (omega (arith, field)), field, min-eq))
          (ready ne)
          (search-runs
            ∙ ap (λ b. ok (b, w)) c.result
            ∙ ap (λ z. ok (record { min = c.block; min_prev = last 0 c.before; min_sz = z }, w))
                l.sz))
  ]

  -- On any heap made of blocks, `wdmalloc` returns NULL and changes nothing just when every free
  -- block is smaller than the request. Otherwise it takes the request from a smallest free block
  -- that is large enough. That block keeps its lower part, less a header, if there is room for one,
  -- and is allocated whole if not; the heap is again made of blocks, and no byte of an allocated
  -- block or outside the heap changes.
  pub wdmalloc-Served : (TooSmall bs n × (wdmalloc n w ≡ ok (0, w))) ⊎ Served w start size bs n
  unfolding wdmalloc
  wdmalloc-Served = elim (Bool-cases (w.freelist_head == 0)) [
    | inl nothing ↦ inl (
      none-listed (λ f mem. absurd (ground (arith, ap (has f) (head-empty (ground arith))))),
      rw nothing refl,
    )
    | inr something ↦
        serve-found (λ e. ground arith) (search-Found w.mem n heap.free_list 0 no_best small-listed)
  ]
