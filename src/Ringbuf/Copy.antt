-- ===== src/Ringbuf/Copy.antt =====
-- `ringbuf_copy` of user/ringbuf.c, for two distinct rings, and a round trip through one ring.
use esp_slip_router.Prelude.{
  blit, ℕ, zero, suc, ◌+◌, ◌-◌, ◌%◌, ◌≤◌, ◌≡◌, sym, ◌∙◌, ap, ap₂, false, some, List, [], ◌++◌,
  arith, length, eq_of_some, take-length, take, drop, mod-eq_of_lt, min, ltb,
}
use esp_slip_router.Ringbuf.{
  Ringbuf, wrap, end, copy_loop, copy, drop_oldest, memcpy_into, memcpy_from, bytes_used,
  bytes_free, capacity, moved,
}
use esp_slip_router.Window.{window, length-window, window-append}
use esp_slip_router.Ringbuf.Inv.{IsValid, contents}
use esp_slip_router.Ringbuf.Bytes.{puts, puts-IsValid, puts-append, puts-blit}
use esp_slip_router.Ringbuf.Into.{keep, memcpy_into_lem, memcpy_into-puts}
use esp_slip_router.Ringbuf.From.{
  advance, advance-IsValid, advance-advance, advance-contents, wrap-mod, block-window, first_bytes,
  memcpy_from_lem,
}

copy_loop_lem :
    (fuel left : ℕ) {dst src : Ringbuf}
    → IsValid dst
    → IsValid src
    → left ≤ fuel
    → copy_loop fuel dst src left
      ≡ some (puts dst (window src.buf src.size src.tail left), advance src left)
unfolding copy_loop puts
copy_loop_lem fuel zero {dst} {src} v w h =
    ap (λ t. some (dst, record src { tail = t }))
      (sym (mod-eq_of_lt w.tail_in) ∙ ap (λ i. i % src.size) (omega arith))
copy_loop_lem zero (suc left) v w h = absurd (omega arith)
copy_loop_lem (suc fuel) (suc left) {dst} {src} v w h =
    ap₂ (λ d s. copy_loop fuel d s (suc left - n)) write read
    ∙ copy_loop_lem fuel (suc left - n) (puts-IsValid piece v) (advance-IsValid n w) (omega arith)
    ∙ ap₂ (λ d s. some (d, s))
        (sym (puts-append dst piece _)
          ∙ ap (puts dst) (
              sym (window-append src.buf src.size n src.tail (suc left - n) w.tail_in)
              ∙ ap (window src.buf src.size src.tail) sum))
        (advance-advance src n (suc left - n) (suc left) sum)
  where
    n : ℕ
    n = min (end dst - dst.head) (min (end src - src.tail) (suc left))

    piece : List ℕ
    piece = window src.buf src.size src.tail n

    sum : n + (suc left - n) ≡ suc left
    sum = omega arith

    read : record src { tail = wrap (end src) (src.tail + n) } ≡ advance src n
    read =
        ap (λ t. record src { tail = t })
          (wrap-mod src.size (src.tail + n) (omega arith) (omega arith))

    count : length piece ≡ n
    count = length-window src.buf src.size src.tail n

    write :
        record dst {
          buf = blit dst.buf dst.head (take n (drop src.tail src.buf));
          head = wrap (end dst) (dst.head + n);
        }
        ≡ puts dst piece
    write =
        ap₂
          (λ (l : List ℕ) (k : ℕ). record dst {
            buf = blit dst.buf dst.head l;
            head = wrap dst.size (dst.head + k);
          })
          (block-window n w (omega arith)) (sym count)
        ∙ sym (puts-blit piece v (omega (arith, count)))

-- Asked for at most the bytes that `src` holds, `ringbuf_copy` ends and is `ringbuf_memcpy_into` of
-- the oldest bytes of `src`, which then holds the others; both rings stay valid.
pub copy_lem :
    (n : ℕ) {dst src : Ringbuf}
    → IsValid dst
    → IsValid src
    → n ≤ bytes_used src
    → (dst' src' : Ringbuf) × (copy dst src n ≡ moved (dst', src'))
      × (memcpy_into dst (take n (contents src)) ≡ some dst')
      × IsValid dst'
      × IsValid src'
      × (contents dst' ≡ keep (capacity dst) (contents dst ++ take n (contents src)))
      × (contents src' ≡ drop n (contents src))
unfolding copy
copy_lem n {dst} {src} v w h =
    let (dst', run, valid, _, held) = memcpy_into_lem (take n (contents src)) v in
    let (_, rest) = advance-contents n w h in
    (dst', advance src n, done dst' run, run, valid, advance-IsValid n w, held, rest)
  where
    not_less : ltb (bytes_used src) n ≡ false
    not_less = ground arith

    bytes : window src.buf src.size src.tail n ≡ take n (contents src)
    bytes = first_bytes n src h

    count : length (take n (contents src)) ≡ n
    count = ap length (sym bytes) ∙ length-window src.buf src.size src.tail n

    done :
        (dst' : Ringbuf)
        → memcpy_into dst (take n (contents src)) ≡ some dst'
        → copy dst src n ≡ moved (dst', advance src n)
    done dst' run =
        rw (not_less, copy_loop_lem n n v w (omega arith))
          (ap (λ d. moved (d, advance src n))
            (eq_of_some (
              ap₂ (λ (k : ℕ) (l : List ℕ). some (drop_oldest (ltb (bytes_free dst) k) (puts dst l)))
                (sym count) bytes
              ∙ sym (memcpy_into-puts (take n (contents src)) v)
              ∙ run)))

-- What is stored in an empty ring that has room for it is read back unchanged.
pub memcpy_into-memcpy_from :
    (src : List ℕ) {rb : Ringbuf}
    → IsValid rb
    → bytes_used rb ≡ 0
    → length src ≤ capacity rb
    → (rb' rb'' : Ringbuf) × (memcpy_into rb src ≡ some rb')
      × (memcpy_from rb' (length src) ≡ moved (rb'', src))
      × (bytes_used rb'' ≡ 0)
memcpy_into-memcpy_from src {rb} v e h =
    let (rb', stored, valid, _, held) = memcpy_into_lem src v in
    let all : contents rb' ≡ src =
      held ∙ ap (λ i. drop i (contents rb ++ src)) none_lost ∙ ap (λ l. l ++ src) empty in
    let count : bytes_used rb' ≡ length src =
      sym (length-window rb'.buf rb'.size rb'.tail (bytes_used rb')) ∙ ap length all in
    let (rb'', taken, _, _, left, _) = memcpy_from_lem (length src) valid (omega arith) in
    (
      rb',
      rb'',
      stored,
      taken
          ∙ ap (λ l. moved (rb'', take (length src) l)) all
          ∙ ap (λ l. moved (rb'', l)) (take-length (length src) src (omega arith)),
      omega arith,
    )
  where
    empty : contents rb ≡ []
    empty = ap (window rb.buf rb.size rb.tail) e

    none_lost : length (contents rb ++ src) - capacity rb ≡ 0
    none_lost = omega (arith, ap (λ l. length (l ++ src)) empty)
