-- ===== src/Rpc/Pool.antt =====
-- lib/support/rpc/internal/pool/pool.go, and what lib/support/rpc/reflect.go does with a buffer: a
-- response is a slice of the buffer's array, and the buffer is back in the pool before it is sent.
pub mod Reuse
use dropbox_for_ctf.Base.{
  ℕ, zero, suc, ◌+◌, ◌<◌, ◌≤◌, ◌≡◌, refl, sym, ap, ◌∙◌, arith, Bool, true, false, ◌==◌, ltb, List,
  [], ◌∷◌, ◌++◌, All, if◌then◌else◌,
}
use dropbox_for_ctf.Text.{Bytes, length}

-- A `bytes.Buffer`: its array and how much of it is written.
pub record Buffer : Type 0 where
  pub array : ℕ
  pub size : ℕ

-- The arrays by number, of which those below `allocated` are in use, and `bufferPool`.
pub record Heap : Type 0 where
  pub arrays : ℕ → Bytes
  pub allocated : ℕ
  pub pool : List Buffer

abbrev pub take : ℕ → Bytes → Bytes
take zero s = []
take (suc n) [] = []
take (suc n) (c ∷ s) = c ∷ take n s

abbrev pub drop : ℕ → Bytes → Bytes
drop zero s = s
drop (suc n) [] = []
drop (suc n) (c ∷ s) = drop n s

abbrev pub zeros : ℕ → Bytes
zeros zero = []
zeros (suc n) = 0 ∷ zeros n

abbrev pub store : (ℕ → Bytes) → ℕ → Bytes → ℕ → Bytes
store arrays i s j = if i == j then s else arrays j

unfoldable pub allocate : Bytes → Heap → Heap
allocate s h = record h { arrays = store h.arrays h.allocated s; allocated = suc h.allocated }

-- `GetBuffer`, where the pool gives a new buffer or one of its own.
unfoldable pub get_buffer : Bool → Heap → Buffer × Heap
unfolding allocate
get_buffer fresh h = elim h.pool [
  | [] ↦ (record { array = h.allocated; size = 0 }, allocate [] h)
  | b ∷ rest ↦
      if fresh
      then (record { array = h.allocated; size = 0 }, allocate [] h)
      else (b, record h { pool = rest })
]

-- `PutBuffer`
unfoldable pub put_buffer : Buffer → Heap → Heap
put_buffer b h = record h { pool = record b { size = 0 } ∷ h.pool }

module _ (spare : ℕ) where
  -- A write to a buffer: in its array where that has room, else in a new one with some room to spare.
  unfoldable pub write_buffer : Buffer → Bytes → Heap → Buffer × Heap
  unfolding allocate
  write_buffer b s h =
      let old = h.arrays b.array in
      if ltb (length old) (b.size + length s)
      then (
        record { array = h.allocated; size = b.size + length s },
        allocate (take b.size old ++ s ++ zeros spare) h,
      )
      else (
        record b { size = b.size + length s },
        record h {
          arrays = store h.arrays b.array (take b.size old ++ s ++ drop (b.size + length s) old);
        },
      )

  -- `resp.Return = b.Bytes()` and `pool.PutBuffer(b)`: the slice, by its array and its length.
  unfoldable pub send_response : Bool → Bytes → Heap → Buffer × Heap
  unfolding get_buffer write_buffer put_buffer
  send_response fresh s h =
      let (b, g) = get_buffer fresh h in let (c, k) = write_buffer b s g in (c, put_buffer c k)

abbrev pub read_slice : Buffer → Heap → Bytes
read_slice b h = take b.size (h.arrays b.array)

-- The buffers in the pool are empty and in use.
pub record IsHeap (h : Heap) : Type 0 where
  pub reset : All (λ b. b.size ≡ 0) h.pool
  pub used : All (λ b. b.array < h.allocated) h.pool
