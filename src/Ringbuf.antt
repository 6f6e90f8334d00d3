-- ===== src/Ringbuf.antt =====
-- user/ringbuf.c: the byte ring of the console's input and output. A pointer into `buf` is its
-- offset from `buf`. The children prove what the functions do.
pub mod Inv
pub mod Bytes
pub mod Into
pub mod From
pub mod Copy
mod Tests
use esp_slip_router.Prelude.{
  blit, ℕ, zero, suc, ◌+◌, ◌-◌, ◌%◌, Bool, true, false, Option, none, some, List, [], ◌∷◌, ◌++◌,
  length, take, drop, ltb, leb, ◌==◌, if◌then◌else◌, min, u32, sub32,
}

-- `struct ringbuf_t`. Bytes are only moved, so a byte is any number.
pub record Ringbuf : Type 0 where
  pub buf : List ℕ
  pub head : ℕ
  pub tail : ℕ
  pub size : ℕ

unfoldable pub reset : Ringbuf → Ringbuf
reset rb = record rb { head = 0; tail = 0 }

-- What `ringbuf_new` returns, by what its two calls of os_malloc answer: `handle` says whether the
-- struct was allocated, `storage n` is the block of `n` bytes, if there is one.
unfoldable pub new : Bool → (ℕ → Option (List ℕ)) → ℕ → Option Ringbuf
unfolding reset
new false storage capacity = none
new true storage capacity = elim (storage (u32 (capacity + 1))) [
  | some block ↦
      some (reset (record { buf = block; head = 0; tail = 0; size = u32 (capacity + 1) }))
  | none ↦ none
]

unfoldable pub buffer_size : Ringbuf → ℕ
buffer_size rb = rb.size

unfoldable pub capacity : Ringbuf → ℕ
unfolding buffer_size
capacity rb = sub32 (buffer_size rb) 1

-- one past the end of the storage
unfoldable pub end : Ringbuf → ℕ
unfolding buffer_size
end rb = buffer_size rb

unfoldable pub bytes_free : Ringbuf → ℕ
unfolding capacity
bytes_free rb =
    if leb rb.tail rb.head then sub32 (capacity rb) (rb.head - rb.tail) else rb.tail - rb.head - 1

unfoldable pub bytes_used : Ringbuf → ℕ
unfolding capacity bytes_free
bytes_used rb = sub32 (capacity rb) (bytes_free rb)

unfoldable pub is_full : Ringbuf → Bool
unfolding bytes_free
is_full rb = bytes_free rb == 0

unfoldable pub is_empty : Ringbuf → Bool
unfolding bytes_free capacity
is_empty rb = bytes_free rb == capacity rb

unfoldable pub nextp : Ringbuf → ℕ → ℕ
unfolding buffer_size
nextp rb p = (p + 1) % buffer_size rb

-- `if (p == bufend) p = buf`
unfoldable pub wrap : ℕ → ℕ → ℕ
wrap bufend p = if p == bufend then 0 else p

-- The loop of `ringbuf_memcpy_into`; the list is `u8src[nread .. count)`, so that it is empty when
-- `nread == count`. `none` means that the fuel ran out.
unfoldable pub into_loop : ℕ → Ringbuf → List ℕ → Option Ringbuf
unfolding end wrap
into_loop fuel dst [] = some dst
into_loop zero dst (x ∷ rest) = none
into_loop (suc fuel) dst (x ∷ rest) =
    let n = min (end dst - dst.head) (length (x ∷ rest)) in
    into_loop fuel
      (record dst {
        buf = blit dst.buf dst.head (take n (x ∷ rest));
        head = wrap (end dst) (dst.head + n);
      })
      (drop n (x ∷ rest))

-- The tail after an overflow, `if (overflow) dst->tail = ringbuf_nextp(dst, dst->head)`.
unfoldable pub drop_oldest : Bool → Ringbuf → Ringbuf
unfolding nextp
drop_oldest true dst = record dst { tail = nextp dst dst.head }
drop_oldest false dst = dst

-- The ring after the call. What the C function returns is its head pointer.
unfoldable pub memcpy_into : Ringbuf → List ℕ → Option Ringbuf
unfolding bytes_free into_loop drop_oldest
memcpy_into dst src = elim (into_loop (length src) dst src) [
  | some dst' ↦ some (drop_oldest (ltb (bytes_free dst) (length src)) dst')
  | none ↦ none
]

-- The loop of `ringbuf_memcpy_from`: `left` is `count - nwritten`, `out` is what `u8dst` holds.
unfoldable pub from_loop : ℕ → Ringbuf → ℕ → List ℕ → Option (Ringbuf × List ℕ)
unfolding end wrap
from_loop fuel src zero out = some (src, out)
from_loop zero src (suc left) out = none
from_loop (suc fuel) src (suc left) out =
    let n = min (end src - src.tail) (suc left) in
    from_loop fuel (record src { tail = wrap (end src) (src.tail + n) }) (suc left - n)
      (out ++ take n (drop src.tail src.buf))

-- What a call of `ringbuf_memcpy_from` or `ringbuf_copy` does.
pub data Outcome {ℓ} (A : Type ℓ) : Type ℓ where
  -- it returns 0 and has changed nothing
  underflow : Outcome A
  -- it returns a pointer and has made these changes
  moved : A → Outcome A
  -- the model's fuel ran out
  out_of_fuel : Outcome A

abbrev pub outcome {ℓ} : {A : Type ℓ} → Option A → Outcome A
outcome none = out_of_fuel
outcome (some a) = moved a

-- The ring afterwards and the bytes written to `dst`.
unfoldable pub memcpy_from : Ringbuf → ℕ → Outcome (Ringbuf × List ℕ)
unfolding bytes_used from_loop
memcpy_from src count =
    if ltb (bytes_used src) count then underflow else outcome (from_loop count src count [])

-- The loop of `ringbuf_copy` for two distinct rings; `left` is `count - ncopied`.
unfoldable pub copy_loop : ℕ → Ringbuf → Ringbuf → ℕ → Option (Ringbuf × Ringbuf)
unfolding end wrap
copy_loop fuel dst src zero = some (dst, src)
copy_loop zero dst src (suc left) = none
copy_loop (suc fuel) dst src (suc left) =
    let nsrc = min (end src - src.tail) (suc left) in
    let n = min (end dst - dst.head) nsrc in
    copy_loop fuel
      (record dst {
        buf = blit dst.buf dst.head (take n (drop src.tail src.buf));
        head = wrap (end dst) (dst.head + n);
      })
      (record src { tail = wrap (end src) (src.tail + n) }) (suc left - n)

abbrev settle : Bool → Option (Ringbuf × Ringbuf) → Outcome (Ringbuf × Ringbuf)
settle overflow none = out_of_fuel
settle overflow (some (dst, src)) = moved (drop_oldest overflow dst, src)

-- The two rings after the call, `dst` first.
unfoldable pub copy : Ringbuf → Ringbuf → ℕ → Outcome (Ringbuf × Ringbuf)
unfolding bytes_used bytes_free copy_loop drop_oldest
copy dst src count =
    if ltb (bytes_used src) count
    then underflow
    else settle (ltb (bytes_free dst) count) (copy_loop count dst src count)
