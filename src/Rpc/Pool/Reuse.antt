-- ===== src/Rpc/Pool/Reuse.antt =====
-- What becomes of a response when the next one is written before it is sent.
use mathlib.Core.Path.{subst}
use dropbox_for_ctf.Base.{
  ℕ, ◌+◌, ◌<◌, ◌≤◌, ◌≡◌, refl, sym, ap, arith, Bool, true, false, List, [], ◌∷◌, ◌++◌, All,
  if◌then◌else◌,
}
use dropbox_for_ctf.Text.{Bytes, length}
use dropbox_for_ctf.Rpc.Pool.{
  Buffer, Heap, take, drop, zeros, allocate, get_buffer, put_buffer, write_buffer, send_response,
  read_slice, IsHeap,
}

take-append : (s rest : Bytes) → take (length s) (s ++ rest) ≡ s
take-append [] rest = refl
take-append (c ∷ s) rest = ap (λ t. c ∷ t) (take-append s rest)

-- A written response: it is read back, and stands in an array with room for it.
record IsIntact (s : Bytes) (a : Buffer) (g : Heap) : Type 0 where
  whole : a.size ≡ length s
  reads : read_slice a g ≡ s
  roomy : length s ≤ length (g.arrays a.array)
  below : a.array < g.allocated

length-append : (s rest : Bytes) → length s ≤ length (s ++ rest)
length-append [] rest = omega arith
length-append (c ∷ s) rest = omega (arith, length-append s rest)

module _ (spare i : ℕ) (s : Bytes) (h : Heap) where
  abbrev written : Buffer × Heap
  written = write_buffer spare (record { array = i; size = 0 }) s h

  written-size : written.0.size ≡ length s
  unfolding write_buffer
  written-size = ground arith

  written-reads : read_slice written.0 written.1 ≡ s
  unfolding write_buffer allocate
  written-reads =
      ground (arith, take-append s (zeros spare), take-append s (drop (0 + length s) (h.arrays i)))

  written-roomy : length s ≤ length (written.1.arrays written.0.array)
  unfolding write_buffer allocate
  written-roomy =
      ground
        (arith, length-append s (zeros spare), length-append s (drop (0 + length s) (h.arrays i)))

  written-below : i < h.allocated → written.0.array < written.1.allocated
  unfolding write_buffer allocate
  written-below f = ground (arith, f)

  written-IsIntact : i < h.allocated → IsIntact s written.0 written.1
  written-IsIntact f = record {
    whole = written-size;
    reads = written-reads;
    roomy = written-roomy;
    below = written-below f;
  }

-- An empty buffer that is in use.
abbrev IsReady : Buffer × Heap → Type 0
IsReady (b, g) = (b.size ≡ 0) × (b.array < g.allocated)

ready :
    (fresh : Bool) (h : Heap) (pool : List Buffer)
    → All (λ b. b.size ≡ 0) pool
    → All (λ b. b.array < h.allocated) pool
    → IsReady (elim pool [
      | [] ↦ (record { array = h.allocated; size = 0 }, allocate [] h)
      | b ∷ rest ↦
          if fresh
          then (record { array = h.allocated; size = 0 }, allocate [] h)
          else (b, record h { pool = rest })
    ])
unfolding allocate
ready fresh h [] w v = (refl, omega arith)
ready true h (b ∷ rest) w v = (refl, omega arith)
ready false h (b ∷ rest) w v = (w.0, v.0)

get_buffer-IsReady : (fresh : Bool) (h : Heap) → IsHeap h → IsReady (get_buffer fresh h)
unfolding get_buffer
get_buffer-IsReady fresh h w = ready fresh h h.pool w.reset w.used

put_buffer-IsIntact :
    (s : Bytes) (a b : Buffer) (g : Heap) → IsIntact s a g → IsIntact s a (put_buffer b g)
unfolding put_buffer
put_buffer-IsIntact s a b g w = record {
  whole = w.whole;
  reads = w.reads;
  roomy = w.roomy;
  below = w.below;
}

module _ (spare : ℕ) (s : Bytes) where
  write_buffer-IsIntact :
      (b : Buffer) (h : Heap)
      → b.size ≡ 0
      → b.array < h.allocated
      → IsIntact s (write_buffer spare b s h).0 (write_buffer spare b s h).1
  write_buffer-IsIntact b h e f =
      subst
        (λ n.
          let p = write_buffer spare (record { array = b.array; size = n }) s h in
          IsIntact s p.0 p.1)
        (sym e) (written-IsIntact spare b.array s h f)

  -- What a response leaves: its bytes, and its own buffer on top of the pool.
  send_response-IsIntact :
      (fresh : Bool) (h : Heap)
      → IsHeap h
      → IsIntact s (send_response spare fresh s h).0 (send_response spare fresh s h).1
  unfolding send_response
  send_response-IsIntact fresh h w =
      let (e, f) = get_buffer-IsReady fresh h w in
      let p = get_buffer fresh h in
      let q = write_buffer spare p.0 s p.1 in
      put_buffer-IsIntact s q.0 q.0 q.1 (write_buffer-IsIntact p.0 p.1 e f)

-- The buffer of the last response is taken for the next one, unless the pool gives a new one.
module _ (spare : ℕ) (y : Bytes) (a : Buffer) (x : Bytes) (g : Heap) (rest : List Buffer)
    (left : IsIntact x a g) (top : g.pool ≡ record { array = a.array; size = 0 } ∷ rest)
    (same : length x ≡ length y) where
  reused : read_slice a (send_response spare false y g).1 ≡ y
  unfolding send_response get_buffer write_buffer put_buffer allocate
  reused = ground (
    arith,
    top,
    left.whole,
    left.roomy,
    same,
    take-append y (drop (0 + length y) (g.arrays a.array)),
  )

  kept : read_slice a (send_response spare true y g).1 ≡ x
  unfolding send_response get_buffer write_buffer put_buffer allocate
  kept = ground (arith, top, left.below, left.reads)

module _ (spare : ℕ) where
  -- The buffer of the last response is on top of the pool.
  send_response-pool :
      (fresh : Bool) (s : Bytes) (h : Heap)
      → (rest : List Buffer) × ((send_response spare fresh s h).1.pool
          ≡ record { array = (send_response spare fresh s h).0.array; size = 0 } ∷ rest)
  unfolding send_response put_buffer
  send_response-pool fresh s h = (_, refl)

  -- A response points into the buffer that it was written to, which is in the pool again before it is sent:
  -- the response is whole at first, but when the next one, of the same length, takes that buffer
  -- before the first is sent, the first has the bytes of the second. It keeps its own only where the
  -- pool gives out a new buffer.
  pub response_reused :
      (fresh again : Bool) (x y : Bytes) (h : Heap)
      → IsHeap h
      → length x ≡ length y
      → (read_slice (send_response spare fresh x h).0 (send_response spare fresh x h).1 ≡ x)
        × (read_slice
              (send_response spare fresh x h).0
              (send_response spare again y (send_response spare fresh x h).1).1
            ≡ (if again then x else y))
  response_reused fresh true x y h w same =
      let p = send_response spare fresh x h in
      let left = send_response-IsIntact spare x fresh h w in
      let (rest, top) = send_response-pool fresh x h in
      (left.reads, kept spare y p.0 x p.1 rest left top same)
  response_reused fresh false x y h w same =
      let p = send_response spare fresh x h in
      let left = send_response-IsIntact spare x fresh h w in
      let (rest, top) = send_response-pool fresh x h in
      (left.reads, reused spare y p.0 x p.1 rest left top same)
