-- ===== src/Ringbuf/Tests.antt =====
-- Runs of the ring of user/ringbuf.c, and its theorems at concrete rings.
use esp_slip_router.Prelude.{◌-◌, ◌≡◌, refl, some, [], ◌∷◌, ◌++◌, arith, take, drop}
use esp_slip_router.Ringbuf.{
  Ringbuf, capacity, bytes_free, bytes_used, memcpy_into, memcpy_from, copy, moved,
}
use esp_slip_router.Ringbuf.Inv.{IsValid, contents}
use esp_slip_router.Ringbuf.Into.{keep, memcpy_into_lem}
use esp_slip_router.Ringbuf.From.{memcpy_from_lem}
use esp_slip_router.Ringbuf.Copy.{copy_lem}

-- room for three bytes; 8 and 9 lie round the end
abbrev wrapped : Ringbuf
wrapped = record { buf = 9 ∷ 6 ∷ 7 ∷ 8 ∷ []; head = 1; tail = 3; size = 4 }

abbrev fresh : Ringbuf
fresh = record { buf = 0 ∷ 0 ∷ 0 ∷ 0 ∷ []; head = 0; tail = 0; size = 4 }

wrapped-IsValid : IsValid wrapped
wrapped-IsValid = omega arith

fresh-IsValid : IsValid fresh
fresh-IsValid = omega arith

contents-wrapped : contents wrapped ≡ 8 ∷ 9 ∷ []
unfolding bytes_used bytes_free capacity
contents-wrapped = refl

overflow_runs :
    memcpy_into wrapped (1 ∷ 2 ∷ 3 ∷ [])
    ≡ some (record { buf = 9 ∷ 1 ∷ 2 ∷ 3 ∷ []; head = 0; tail = 1; size = 4 })
unfolding memcpy_into
overflow_runs = refl

from_runs : memcpy_from wrapped 2 ≡ moved (record wrapped { tail = 1 }, 8 ∷ 9 ∷ [])
unfolding memcpy_from
from_runs = refl

memcpy_into_lem_example :
    (rb' : Ringbuf) × (memcpy_into wrapped (1 ∷ 2 ∷ 3 ∷ []) ≡ some rb')
    × IsValid rb'
    × (capacity rb' ≡ capacity wrapped)
    × (contents rb' ≡ keep (capacity wrapped) (contents wrapped ++ 1 ∷ 2 ∷ 3 ∷ []))
memcpy_into_lem_example = memcpy_into_lem (1 ∷ 2 ∷ 3 ∷ []) wrapped-IsValid

memcpy_from_lem_example :
    (rb' : Ringbuf) × (memcpy_from wrapped 2 ≡ moved (rb', take 2 (contents wrapped)))
    × IsValid rb'
    × (capacity rb' ≡ capacity wrapped)
    × (bytes_used rb' ≡ bytes_used wrapped - 2)
    × (contents rb' ≡ drop 2 (contents wrapped))
unfolding bytes_used bytes_free capacity
memcpy_from_lem_example = memcpy_from_lem 2 wrapped-IsValid (omega arith)

copy_lem_example :
    (dst' src' : Ringbuf) × (copy fresh wrapped 1 ≡ moved (dst', src'))
    × (memcpy_into fresh (take 1 (contents wrapped)) ≡ some dst')
    × IsValid dst'
    × IsValid src'
    × (contents dst' ≡ keep (capacity fresh) (contents fresh ++ take 1 (contents wrapped)))
    × (contents src' ≡ drop 1 (contents wrapped))
unfolding bytes_used bytes_free capacity
copy_lem_example = copy_lem 1 fresh-IsValid wrapped-IsValid (omega arith)
