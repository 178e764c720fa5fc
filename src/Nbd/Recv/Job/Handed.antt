-- ===== src/Nbd/Recv/Job/Handed.antt =====
-- What nbd_handle_recv_reply hands to the receiving coroutine.
use s3blk.Base.{
  ℕ, ◌+◌, ◌≡◌, inl, inr, refl, arith, Bool, true, false, not, leb, ◌==◌, if◌then◌else◌, Bool-cases,
  u32, ◌<<◌,
}
use s3blk.Base.Int.{ℤ, einval, eproto, is_neg, is_errno, int_of_u32, pos_part}
use s3blk.Ublk.{get_op, op_write, op_read, unique_tag_to_hwq, unique_tag_to_tag}
use s3blk.Nbd.Wire.{handle_to_cookie, handle_to_tag}
use s3blk.Nbd.Send.{Env, QueueData}
use s3blk.Nbd.Recv.{
  Reply, Action, failed, aborted, read_data, resumed, handle_recv_reply, reply_size, reply_result,
  reply_magic,
}

-- What nbd_handle_recv_reply hands on is an error, or a result that is not -EAGAIN.
pub data Good : Action → Type 0 where
  fails : (e : ℤ) → is_neg e ≡ true → Good (failed e)
  aborts : Good aborted
  reads : (tag : ℕ) → Good (read_data tag)
  resumes : (tag : ℕ) (res : ℤ) → is_errno 11 res ≡ false → Good (resumed tag res)

whole_sectors : (n : ℕ) → is_errno 11 (int_of_u32 (u32 (n << 9))) ≡ false
whole_sectors n = ground arith

reply_result-not_again :
    (env : Env) (tag error : ℕ) → is_errno 11 (reply_result env tag error) ≡ false
reply_result-not_again env tag error =
    let bytes = whole_sectors (env.iods tag).nr_sectors in
    elim (Bool-cases (error == 0)) [
      | inr e ↦ simp e refl
      | inl e ↦ elim (Bool-cases (get_op (env.iods tag) == op_write)) [
        | inl w ↦ simp (e, w) bytes
        | inr w ↦ simp (e, w) refl
      ]
    ]

Good_if :
    (b : Bool) {x y : Action}
    → (b ≡ true → Good x)
    → (b ≡ false → Good y)
    → Good (if b then x else y)
Good_if true g h = g refl
Good_if false g h = h refl

pub handle_recv_reply-Good :
    (env : Env) (q : QueueData) (reply : Reply) (res : ℤ) → Good (handle_recv_reply env q reply res)
unfolding handle_recv_reply
handle_recv_reply-Good env q reply res =
    let tag = unique_tag_to_tag (handle_to_tag reply.handle) in
    let again = reply_result-not_again env tag reply.error in
    let unique = handle_to_tag reply.handle in
    let done = (q.io_data env.depth).done in
    Good_if (is_neg res) (λ e. fails res e)
      (λ _.
        Good_if (not (reply.magic == reply_magic)) (λ _. fails eproto refl)
          (λ _.
            Good_if (not (u32 (pos_part res + done) == reply_size)) (λ _. aborts)
              (λ _.
                Good_if (leb env.depth tag) (λ _. fails einval refl)
                  (λ _.
                    Good_if (not (unique_tag_to_hwq unique == env.q_id)) (λ _. fails einval refl)
                      (λ _.
                        Good_if (not ((q.io_data tag).cmd_cookie == handle_to_cookie reply.handle))
                          (λ _. fails einval refl)
                          (λ _.
                            Good_if (get_op (env.iods tag) == op_read) (λ _. reads tag)
                              (λ _. resumes tag (reply_result env tag reply.error) again)))))))
