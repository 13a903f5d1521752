-- ===== src/Skb.antt =====
-- The socket buffer `skb_t` (src/types.h) and its macros (src/common.h) and functions
-- (skb_compact, skb_put_strn of src/common.c). Positions are `unsigned int`; the array is a
-- function from the index.
pub mod Contents
pub mod Append
pub mod Moves
mod Tests
use wsd.Prelude.{
  ℕ, zero, suc, ◌+◌, ◌-◌, ◌≡◌, ◌<◌, ◌≤◌, List, [], ◌∷◌, ltb, ◌==◌, if◌then◌else◌, length, replicate,
  Option, none, some,
}
use wsd.Prelude.Words.{add32, sub32, le_bytes, of_le}
use wsd.Memory.{Memory, store, store_list, window}

-- `sizeof(buf->data)`
abbrev pub capacity : ℕ
capacity = 1048576

pub record Skb : Type 0 where
  pub rdpos : ℕ
  pub wrpos : ℕ
  pub bytes : Memory

-- bytes that can be read, and room left to write
unfoldable pub rdsz : Skb → ℕ
rdsz b = sub32 b.wrpos b.rdpos

unfoldable pub wrsz : Skb → ℕ
wrsz b = sub32 capacity b.wrpos

-- Bytes stored at the write position, which moves behind them.
unfoldable pub write : Skb → List ℕ → Skb
write b vs = record b { bytes = store_list b.bytes b.wrpos vs; wrpos = add32 b.wrpos (length vs) }

-- `skb_put(buf, obj)` for an object of `n` bytes; there is no check for room.
unfoldable pub put : ℕ → ℕ → Skb → Skb
put n v b = write b (le_bytes n v)

unfoldable pub rd_forward : Skb → ℕ → Skb
rd_forward b amount = record b { rdpos = add32 b.rdpos amount }

-- `skb_get(buf, obj)` for an object of `n` bytes; there is no check that they have been written.
unfoldable pub get : ℕ → Skb → ℕ × Skb
get n b = (of_le (window b.bytes b.rdpos n), rd_forward b n)

unfoldable pub reset : Skb → Skb
reset b = record b { wrpos = 0; rdpos = 0 }

unfoldable pub rd_rewind : Skb → ℕ → Skb
rd_rewind b amount = record b { rdpos = sub32 b.rdpos amount }

unfoldable pub rd_reset : Skb → ℕ → Skb
rd_reset b pos = record b { rdpos = pos }

-- `skb_copy(dst, src, len)`; the read position of `src` stays.
unfoldable pub copy : Skb → Skb → ℕ → Skb
copy dst src len = record dst {
  bytes = store_list dst.bytes dst.wrpos (window src.bytes src.rdpos len);
  wrpos = add32 dst.wrpos len;
}

-- `memmove(b->data, b->data + b->rdpos, b->wrpos - b->rdpos)`, and the positions.
unfoldable pub compact : Skb → Skb
compact b = record {
  bytes = store_list b.bytes 0 (window b.bytes b.rdpos (rdsz b));
  wrpos = sub32 b.wrpos b.rdpos;
  rdpos = 0;
}

-- What `strncpy(dst, s, n)` stores: it stops at a NUL and fills up with NULs.
unfoldable pub strncpy : List ℕ → ℕ → List ℕ
strncpy s zero = []
strncpy [] (suc n) = 0 ∷ replicate n 0
strncpy (c ∷ s) (suc n) = let rest = strncpy s n in if c == 0 then 0 ∷ replicate n 0 else c ∷ rest

-- `none` is the return value -1, which leaves the buffer as it was.
unfoldable pub put_strn : Skb → List ℕ → ℕ → Option Skb
put_strn b s n = if ltb (wrsz b) n then none else some (write b (strncpy s n))

-- `while (k--) dst->data[dst->wrpos++] = f(i++, src->data[src->rdpos++]);`
unfoldable pub move : (ℕ → ℕ → ℕ) → ℕ → ℕ → Skb → Skb → Skb × Skb
move f i zero dst src = (dst, src)
move f i (suc k) dst src =
    move f (i + 1) k
      (record dst {
        bytes = store dst.bytes dst.wrpos (f i (src.bytes src.rdpos));
        wrpos = add32 dst.wrpos 1;
      })
      (record src { rdpos = add32 src.rdpos 1 })
