-- ===== src/Wdmalloc/Coalesce.antt =====
-- `coalesce` on any heap: the freed block takes up the free blocks beside it.
use waddle_os.Base.{
  ℕ, ◌+◌, ◌^◌, ◌≤◌, ◌<◌, ◌≡◌, refl, ◌∙◌, true, false, List, [], ◌∷◌, ◌++◌, not-ltb, lt→ltb, arith,
  ok,
}
use waddle_os.LinkedList.Ring.{has}
use waddle_os.Wdmalloc.{Wd, sz_at}
use waddle_os.Wdmalloc.Free.{coalesce}
use waddle_os.Wdmalloc.Blocks.{
  Block, free, used, bytes_of, is_unused, extent, IsHeap, Tiles, free_at, extent-append,
  free_at-append,
}
use waddle_os.Wdmalloc.Tiling.{Tiles-split}
use waddle_os.Wdmalloc.Unlink.{has-split}
use waddle_os.Wdmalloc.Heap.{Kept}
use waddle_os.Wdmalloc.Loose.{Loose}
use waddle_os.Wdmalloc.Aside.{added, add_free-added, added-IsHeap, added-Kept}
use waddle_os.Wdmalloc.JoinPrev.{
  joined_prev, merge_prev-joined, joined_prev-IsHeap, joined_prev-Kept,
}
use waddle_os.Wdmalloc.JoinBoth.{
  joined_both, merge_both-joined, joined_both-IsHeap, joined_both-Kept,
}
use waddle_os.Wdmalloc.JoinNext.{
  joined_next, merge_next-joined, joined_next-IsHeap, joined_next-Kept,
}
use waddle_os.Wdmalloc.Neighbours.{
  PrevIs, coalesce-merge_of, NextIs-end, NextIs-block, PrevIs-block,
}

-- A free block of `s` bytes and what follows it.
abbrev pub join_next : ℕ → List Block → List Block
join_next s [] = free s ∷ []
join_next s (free b ∷ ys) = free (s + 12 + b) ∷ ys
join_next s (used b ∷ ys) = free s ∷ used b ∷ ys

-- `coalesce` ends with the blocks `cs`, and keeps the allocated bytes.
pub record Coalesced (w : Wd) (start size : ℕ) (bs : List Block) (q : ℕ) (cs : List Block)
    : Type 0 where
  pub next : Wd
  pub runs : coalesce q w ≡ ok (tt, next)
  pub heap : IsHeap next start size cs
  pub kept : Kept start size bs w.mem next.mem

-- What the headers say of the freed block, and where it lies.
pub record Freed (w : Wd) (start size : ℕ) (s : ℕ) (ys : List Block) (q : ℕ) : Type 0 where
  pub field : sz_at w.mem q ≡ s
  pub few : s < 2 ^ 15
  pub low : start ≤ q
  pub inside : q < start + size
  pub end : q + (12 + s) + extent ys ≡ start + size

pub Loose-Freed :
    (w : Wd) (start size : ℕ) (xs : List Block) (s : ℕ) (ys : List Block) (q : ℕ)
    → q ≡ start + extent xs
    → Loose w start size (xs ++ (free s ∷ ys)) q
    → Freed w start size s ys q
Loose-Freed w start size xs s ys q at loose =
    let (old, tiles) = Tiles-split w.mem start 0 xs (free s ∷ ys) q at loose.tiles in
    let all = extent-append xs (free s ∷ ys) in
    record {
      field = tiles.1;
      few = omega (arith, all, loose.whole, loose.small);
      low = omega arith;
      inside = omega (arith, all, loose.whole);
      end = omega (arith, all, loose.whole);
    }

-- Another free block is in the list.
Loose-listed :
    (w : Wd) (start size : ℕ) (bs : List Block) (q r : ℕ)
    → (loose : Loose w start size bs q) → free_at start bs r ≡ true
    → q < r
    → has r loose.free_list ≡ true
Loose-listed w start size bs q r loose there above = ground (arith, loose.listed r)

-- The block before is not free.
pub coalesce-behind_used :
    (w : Wd) (start size : ℕ) (xs : List Block) (s : ℕ) (ys : List Block) (q p : ℕ)
    → q ≡ start + extent xs
    → PrevIs w q p false
    → Loose w start size (xs ++ (free s ∷ ys)) q
    → Coalesced w start size (xs ++ (free s ∷ ys)) q (xs ++ join_next s ys)
coalesce-behind_used w start size xs s [] q p at prev loose =
    let bs = xs ++ (free s ∷ []) in
    let f = Loose-Freed w start size xs s [] q at loose in
    let next = NextIs-end w start size bs q s loose f.low f.inside (omega (arith, f.end)) in
    record {
      next = added w start size bs q loose;
      runs =
          coalesce-merge_of w q s p 0 0 false false f.field f.few prev next
          ∙ add_free-added w start size bs q loose;
      heap = added-IsHeap w start size bs q loose;
      kept = added-Kept w start size bs q loose;
    }
coalesce-behind_used w start size xs s (used c ∷ ys) q p at prev loose =
    let bs = xs ++ (free s ∷ used c ∷ ys) in
    let f = Loose-Freed w start size xs s (used c ∷ ys) q at loose in
    let tiles = Tiles-split w.mem start 0 xs (free s ∷ used c ∷ ys) q at loose.tiles in
    let next =
      NextIs-block w start size bs q s loose f.low f.inside (used c) ys f.end tiles.1.2.1 in
    record {
      next = added w start size bs q loose;
      runs =
          coalesce-merge_of w q s p _ _ false false f.field f.few prev next
          ∙ add_free-added w start size bs q loose;
      heap = added-IsHeap w start size bs q loose;
      kept = added-Kept w start size bs q loose;
    }
coalesce-behind_used w start size xs s (free b ∷ ys) q p at prev loose =
    let bs = xs ++ (free s ∷ free b ∷ ys) in
    let f = Loose-Freed w start size xs s (free b ∷ ys) q at loose in
    let tiles = Tiles-split w.mem start 0 xs (free s ∷ free b ∷ ys) q at loose.tiles in
    let next =
      NextIs-block w start size bs q s loose f.low f.inside (free b) ys f.end tiles.1.2.1 in
    let r = q + (12 + s) in
    let there : free_at start bs r ≡ true =
      ground (arith, free_at-append start xs (free s ∷ free b ∷ ys) q r at) in
    let (us, vs, list) =
      has-split r loose.free_list (Loose-listed w start size bs q r loose there (omega arith)) in
    let v = s + 12 + b in
    let place : q + (12 + s) + (12 + b) ≡ q + (12 + v) = omega arith in
    record {
      next = joined_next w start size xs s b ys q r v us vs loose list at refl refl;
      runs =
          coalesce-merge_of w q s p r _ false true f.field f.few prev next
          ∙ merge_next-joined w start size xs s b ys q r v us vs loose list at refl refl _
              (rw place refl);
      heap = joined_next-IsHeap w start size xs s b ys q r v us vs loose list at refl refl;
      kept = joined_next-Kept w start size xs s b ys q r v us vs loose list at refl refl;
    }

-- The same with the block before it.
pub record Behind (w : Wd) (start size : ℕ) (b : Block) (s : ℕ) (ys : List Block) (q p : ℕ)
    : Type 0 where
  pub freed : Freed w start size s ys q
  pub prev : PrevIs w q p (is_unused b)
  pub back : Tiles w.mem (q + (12 + s)) s ys

pub Loose-Behind :
    (w : Wd) (start size : ℕ) (xs : List Block) (b : Block) (s : ℕ) (ys : List Block) (q p : ℕ)
    → p ≡ start + extent xs
    → q ≡ p + (12 + bytes_of b)
    → Loose w start size (xs ++ (b ∷ free s ∷ ys)) q
    → Behind w start size b s ys q p
Loose-Behind w start size xs b s ys q p at behind loose =
    let (old, (_, z, tiles)) = Tiles-split w.mem start 0 xs (b ∷ free s ∷ ys) p at loose.tiles in
    let tiles' : Tiles w.mem q (bytes_of b) (free s ∷ ys) = rw behind tiles in
    let all = extent-append xs (b ∷ free s ∷ ys) in
    let inside : q < start + size = omega (arith, all, loose.whole) in
    let low : start ≤ q = omega arith in
    record {
      freed = record {
        field = tiles'.1;
        few = omega (arith, all, loose.whole, loose.small);
        low = low;
        inside = inside;
        end = omega (arith, all, loose.whole);
      };
      prev = PrevIs-block w start size _ q s loose low inside b p (omega arith) behind tiles'.0 z;
      back = tiles'.2;
    }

-- The block before is free.
pub coalesce-behind_free :
    (w : Wd) (start size : ℕ) (xs : List Block) (a s : ℕ) (ys : List Block) (q p : ℕ)
    → p ≡ start + extent xs
    → q ≡ p + (12 + a)
    → Loose w start size (xs ++ (free a ∷ free s ∷ ys)) q
    → Coalesced w start size (xs ++ (free a ∷ free s ∷ ys)) q (xs ++ join_next (a + 12 + s) ys)
coalesce-behind_free w start size xs a s [] q p at behind loose =
    let bs = xs ++ (free a ∷ free s ∷ []) in
    let l = Loose-Behind w start size xs (free a) s [] q p at behind loose in
    let f = l.freed in
    let next = NextIs-end w start size bs q s loose f.low f.inside (omega (arith, f.end)) in
    let v = a + 12 + s in
    record {
      next = joined_prev w start size xs a s [] p q v loose at behind refl;
      runs =
          coalesce-merge_of w q s p 0 0 true false f.field f.few l.prev next
          ∙ merge_prev-joined w start size xs a s [] p q v loose at behind refl 0
              (rw (not-ltb (p + (12 + v)) (start + size) (omega (arith, f.end))) refl);
      heap = joined_prev-IsHeap w start size xs a s [] p q v loose at behind refl;
      kept = joined_prev-Kept w start size xs a s [] p q v loose at behind refl;
    }
coalesce-behind_free w start size xs a s (used c ∷ ys) q p at behind loose =
    let bs = xs ++ (free a ∷ free s ∷ used c ∷ ys) in
    let l = Loose-Behind w start size xs (free a) s (used c ∷ ys) q p at behind loose in
    let f = l.freed in
    let next = NextIs-block w start size bs q s loose f.low f.inside (used c) ys f.end l.back.1 in
    let v = a + 12 + s in
    let place : q + (12 + s) ≡ p + (12 + v) = omega arith in
    record {
      next = joined_prev w start size xs a s (used c ∷ ys) p q v loose at behind refl;
      runs =
          coalesce-merge_of w q s p (q + (12 + s)) _ true false f.field f.few l.prev next
          ∙ merge_prev-joined w start size xs a s (used c ∷ ys) p q v loose at behind refl
              (q + (12 + s))
              (rw (place, lt→ltb (p + (12 + v)) (start + size) (omega (arith, f.end))) refl);
      heap = joined_prev-IsHeap w start size xs a s (used c ∷ ys) p q v loose at behind refl;
      kept = joined_prev-Kept w start size xs a s (used c ∷ ys) p q v loose at behind refl;
    }
coalesce-behind_free w start size xs a s (free b ∷ ys) q p at behind loose =
    let bs = xs ++ (free a ∷ free s ∷ free b ∷ ys) in
    let l = Loose-Behind w start size xs (free a) s (free b ∷ ys) q p at behind loose in
    let f = l.freed in
    let next = NextIs-block w start size bs q s loose f.low f.inside (free b) ys f.end l.back.1 in
    let r = q + (12 + s) in
    let v = a + 12 + s + 12 + b in
    let r-eq : r ≡ p + (12 + a) + (12 + s) = omega arith in
    let there : free_at start bs r ≡ true =
      ground (arith, free_at-append start xs (free a ∷ free s ∷ free b ∷ ys) p r at, r-eq) in
    let (us, vs, list) =
      has-split r loose.free_list (Loose-listed w start size bs q r loose there (omega arith)) in
    let place : r + (12 + b) ≡ p + (12 + v) = omega arith in
    record {
      next = joined_both w start size xs a s b ys p q r v us vs loose list at behind refl refl;
      runs =
          coalesce-merge_of w q s p r _ true true f.field f.few l.prev next
          ∙ merge_both-joined w start size xs a s b ys p q r v us vs loose list at behind refl refl
              _ (rw place refl);
      heap =
          joined_both-IsHeap w start size xs a s b ys p q r v us vs loose list at behind refl refl;
      kept = joined_both-Kept w start size xs a s b ys p q r v us vs loose list at behind refl refl;
    }
