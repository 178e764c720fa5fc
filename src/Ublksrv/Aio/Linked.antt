-- ===== src/Ublksrv/Aio/Linked.antt =====
-- The lists of include/ublksrv_aio.h with their pointers: a request is a number, 0 is NULL, and
-- `next` is the field of that name of each request.
pub mod Refines
use s3blk.Base.{ℕ, ◌==◌, Bool, if◌then◌else◌}
use s3blk.Ublksrv.Types.{set_at}

-- `struct aio_list`
pub record AioList : Type 0 where
  pub head : ℕ
  pub tail : ℕ

-- aio_list_init
abbrev pub aio_list_init : AioList
aio_list_init = record { head = 0; tail = 0 }

unfoldable pub aio_list_add : (ℕ → ℕ) → AioList → ℕ → (ℕ → ℕ) × AioList
aio_list_add next al io =
    let next1 = set_at next io 0 in
    if al.tail == 0
    then (next1, record { head = io; tail = io })
    else (set_at next1 al.tail io, record al { tail = io })

-- aio_list_splice: the fields, then `n` and `head`.
unfoldable pub aio_list_splice : (ℕ → ℕ) → AioList → AioList → (ℕ → ℕ) × AioList × AioList
aio_list_splice next n head =
    if n.head == 0
    then (next, n, head)
    else if head.tail == 0
    then (next, aio_list_init, n)
    else (set_at next head.tail n.head, aio_list_init, record head { tail = n.tail })

unfoldable pub aio_list_empty : AioList → Bool
aio_list_empty al = al.head == 0

unfoldable pub aio_list_pop : (ℕ → ℕ) → AioList → ℕ × (ℕ → ℕ) × AioList
aio_list_pop next al =
    let io = al.head in
    let rest = next io in
    if io == 0
    then (io, next, al)
    else if rest == 0
    then (io, set_at next io 0, record { head = rest; tail = 0 })
    else (io, set_at next io 0, record al { head = rest })
