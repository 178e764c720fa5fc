-- ===== src/Nbd/Recv/Match.antt =====
-- Replies find their requests, and received bytes are counted right.
use s3blk.Base.{
  ℕ, zero, suc, ◌+◌, ◌-◌, ◌^◌, ◌<◌, ◌≤◌, ◌≡◌, ◌⊎◌, inl, inr, refl, ap, arith, Bool, true, false,
  ltb, ◌==◌, if◌then◌else◌, Bool-cases, [], ◌∷◌, ◌++◌,
}
use s3blk.Base.Int.{ℤ, pos, enomem, pos_part, is_neg}
use s3blk.Ublk.{build_user_data, get_op, op_read, unique_tag_to_hwq, unique_tag_to_tag}
use s3blk.Nbd.Wire.{cmd_handle, handle_to_cookie, handle_to_tag, cmd_handle_fields}
use s3blk.Nbd.Send.{Env, QueueData, recv}
use s3blk.Nbd.Recv.{
  Reply, read_data, resumed, reply_magic, reply_size, reply_result, handle_recv_reply,
  op_read_reply, recv_loop, do_recv, start_recv,
}

-- For a 16-bit queue and tag below the depth, and a 32-bit cookie: a full reply with the handle of
-- the tag's current cookie is matched with that tag.
pub handle_recv_reply-cmd_handle :
    (env : Env) (q : QueueData) (tag error : ℕ) (res : ℤ)
    → env.q_id < 2 ^ 16
    → tag < env.depth
    → tag < 2 ^ 16
    → (q.io_data tag).cmd_cookie < 2 ^ 32
    → is_neg res ≡ false
    → pos_part res + (q.io_data env.depth).done ≡ reply_size
    → let handle = cmd_handle env.q_id tag (q.io_data tag).cmd_cookie in
      let reply : Reply = record { magic = reply_magic; error = error; handle = handle } in
      handle_recv_reply env q reply res ≡ (
        if get_op (env.iods tag) == op_read
        then read_data tag
        else resumed tag (reply_result env tag error))
unfolding handle_recv_reply
handle_recv_reply-cmd_handle env q tag error res hq hd ht hc hr hs =
    let f = cmd_handle_fields env.q_id tag (q.io_data tag).cmd_cookie hq ht hc in
    rw (f.0, f.1, f.2, hr, handle_recv_reply) (ground (arith, hs))

-- A reply that is matched with an io carries the queue, the tag and the current cookie of that
-- io, which belongs to the queue.
pub handle_recv_reply_match :
    (env : Env) (q : QueueData) (reply : Reply) (res : ℤ) (tag : ℕ)
    → (handle_recv_reply env q reply res ≡ read_data tag)
      ⊎ ((r : ℤ) × (handle_recv_reply env q reply res ≡ resumed tag r))
    → (tag < env.depth)
      × (unique_tag_to_tag (handle_to_tag reply.handle) ≡ tag)
      × (unique_tag_to_hwq (handle_to_tag reply.handle) ≡ env.q_id)
      × (handle_to_cookie reply.handle ≡ (q.io_data tag).cmd_cookie)
unfolding handle_recv_reply
handle_recv_reply_match env q reply res tag h = ground arith

-- If recv never returns more bytes than it is asked for, the loop counts at most `len`.
recv_loop-le :
    (rd : ℕ → ℕ → ℤ) (len : ℕ)
    → ((k n : ℕ) → pos_part (rd k n) ≤ n)
    → (k done : ℕ) → done ≤ len
    → recv_loop k rd len done ≤ len
unfolding recv_loop
recv_loop-le rd len h zero done le = le
recv_loop-le rd len h (suc k) done le = ground (
  arith,
  recv_loop-le rd len h k (done + pos_part (rd k (len - done))) (omega (arith, h k (len - done))),
)

self_equal : (n : ℕ) → (n == n) ≡ true
self_equal n = ground arith

start_recv_branches :
    (env : Env) (q : QueueData) (len : ℕ) (reply : Bool) (done : ℕ)
    → let (ret, q') = start_recv env q len reply done in
      ((ret ≡ enomem) × (q' ≡ q))
      ⊎ ((user_data : ℕ) × (ret ≡ pos 0)
          × ((q'.io_data env.depth).done ≡ done)
          × (q'.sqes ≡ q.sqes ++ recv len done user_data ∷ []))
unfolding start_recv
start_recv_branches env q len reply done = elim (Bool-cases (env.sqe_free q.sqes)) [
  | inl free ↦ inr (
    build_user_data env.depth (if reply then op_read_reply else op_read) 0 1,
    rw (free, start_recv) refl,
    rw (free, start_recv, self_equal env.depth) refl,
    rw (free, start_recv) refl,
  )
  | inr full ↦ inl (rw (full, start_recv) (refl, refl))
]

-- If recv never returns more bytes than it is asked for, nbd_do_recv either has all `len` bytes
-- and leaves the queue alone, or finds no free entry, says so and leaves the queue alone, or has
-- put an entry on the ring that asks for exactly the missing bytes, and remembers how many are
-- there.
pub do_recv_branches :
    (env : Env) (rd : ℕ → ℕ → ℤ) (q : QueueData) (len : ℕ)
    → ((k n : ℕ) → pos_part (rd k n) ≤ n)
    → let (ret, q') = do_recv env rd q len in
      ((ret ≡ pos len) × (q' ≡ q))
      ⊎ (((ret ≡ enomem) × (q' ≡ q))
          ⊎ ((done : ℕ) × (user_data : ℕ) × (done < len)
              × (ret ≡ pos 0)
              × ((q'.io_data env.depth).done ≡ done)
              × (q'.sqes ≡ q.sqes ++ recv len done user_data ∷ [])))
unfolding do_recv
do_recv_branches env rd q len h = elim (Bool-cases (got == len)) [
  | inl all ↦ inl (rw (all, do_recv) (ap pos (ground (arith, all)), refl))
  | inr part ↦ elim (start_recv_branches env q len (ltb len 512) got) [
    | inl full ↦ inr (inl (rw (part, do_recv) full))
    | inr r ↦ inr (
        inr (
          got,
          r.0,
          ground (arith, bound, part),
          rw (part, do_recv) r.1,
          rw (part, do_recv) r.2,
          rw (part, do_recv) r.3,
        ))
  ]
]
  where
    got : ℕ
    got = recv_loop (if ltb len 512 then 16 else 32) rd len 0

    bound : got ≤ len
    bound = recv_loop-le rd len h (if ltb len 512 then 16 else 32) 0 (omega arith)
