-- ===== src/Sheep/Inodes.antt =====
-- sd_read_object, sd_read_inode, sd_update_inode and sd_resolve_vid of targets/sheepdog/sheep.c.
-- Their loops end when the cluster lets them; they take fuel, and `none` means that it ran out.
use s3blk.Base.{
  ℕ, zero, suc, ◌+◌, ◌*◌, Bool, true, false, not, ltb, ◌&&◌, ◌||◌, ◌==◌, if◌then◌else◌, List,
  Option, none, some, has_bit, u32,
}
use s3blk.Base.Int.{ℤ, pos, is_neg, int_of_u32}
use s3blk.Sheep.Types.{
  Inode, Vdi, Payload, vid_word, inode_words, no_payload, Request, on_object, lookup, Answer,
  Cluster, Session, submit, fresh, vid_to_vdi_oid, data_oid_to_idx,
}

abbrev pub and_then {ℓ κ} : {A : Type ℓ} {B : Type κ} → Option A → (A → Option B) → Option B
and_then none f = none
and_then (some a) f = f a

-- SD_RES_READONLY, SD_RES_INODE_INVALIDATED and SD_RES_NO_OBJ
abbrev pub readonly : ℕ
readonly = 0x1A

abbrev pub invalidated : ℕ
invalidated = 0x1D

abbrev pub no_obj : ℕ
no_obj = 0x02

-- The request of sd_read_object, with SD_FLAG_CMD_TGT.
abbrev pub read_request : ℕ → ℕ → ℕ → ℕ → Payload → Request
read_request id oid offset len buf = on_object 0x02 0x20 id len oid 0 0 offset buf

-- What sd_read_object gives: its result, `need_reload`, the last answer and the context.
pub record Read : Type 0 where
  pub ret : ℤ
  pub need_reload : ℕ
  pub answer : Answer
  pub session : Session

module _ (cluster : Cluster) where
  -- sd_read_object; a retry starts from a cleared context.
  unfoldable pub read_object : ℕ → Session → ℕ → ℕ → ℕ → ℕ → Payload → Option Read
  read_object zero s id oid offset len buf = none
  read_object (suc n) s id oid offset len buf =
      let (ret, a, s1) = submit cluster s (read_request id oid offset len buf) in
      let again = read_object n (fresh s1.sent) 0 oid offset len buf in
      let give : ℤ → ℕ → Option Read =
        λ r need. some (record { ret = r; need_reload = need; answer = a; session = s1 }) in
      if not (is_neg ret)
      then give (pos 0) 0
      else if s1.result == invalidated
      then give (pos 0) 2
      else if s1.result == readonly
      then give (pos 0) 1
      else if (s1.result == no_obj) && has_bit oid 63
      then again
      else give ret 0

  -- sd_refresh_required
  unfoldable pub refresh_required : ℕ → List Request → Vdi → Option (Bool × List Request)
  refresh_required n sent vdi =
      and_then (read_object n (fresh sent) 0 (vid_to_vdi_oid vdi.vid) 0 4 no_payload)
        λ r. some (if is_neg r.ret then true else ltb 0 r.need_reload, r.session.sent)

  -- The sizes of the whole inode and of its header, in front of `data_vdi_id`.
  module _ (inode_size header_size : ℕ) where
    -- sd_read_inode from its first read on, with `snapshot` set: the vdi is looked up by its name
    -- and locked, and the header is read into the inode that is there.
    unfoldable pub read_header : ℕ → Session → Vdi → Inode → Option (ℤ × Vdi × List Request)
    read_header n s vdi there =
        let (ret, a, s1) = submit cluster (fresh s.sent) (lookup 0x12) in
        let after = record s { sent = s1.sent } in
        if is_neg ret
        then some (ret, vdi, s1.sent)
        else and_then (read_object n after 0 (vid_to_vdi_oid a.vdi_id) 0 header_size inode_words)
            λ r.
              let inode : Inode = record r.answer.inode { data_vdi_id = there.data_vdi_id } in
              if is_neg r.ret
              then some (r.ret, vdi, r.session.sent)
              else some (pos 0, record vdi { inode = inode }, r.session.sent)

    -- sd_read_inode; the inode is read into cleared memory.
    unfoldable pub read_inode : ℕ → List Request → Vdi → Bool → Option (ℤ × Vdi × List Request)
    read_inode n sent vdi true =
        let blank : Inode = record {
          snap_ctime = 0;
          nr_copies = 0;
          block_size_shift = 0;
          data_vdi_id = λ i. 0;
        } in
        read_header n (fresh sent) vdi blank
    read_inode n sent vdi false =
        and_then (read_object n (fresh sent) 0 (vid_to_vdi_oid vdi.vid) 0 inode_size inode_words)
          λ r.
            let inode = r.answer.inode in
            if is_neg r.ret
            then some (r.ret, vdi, r.session.sent)
            else if inode.snap_ctime == 0
            then some (pos 0, record vdi { inode = inode }, r.session.sent)
            else read_header n r.session vdi inode

    -- sd_resolve_vid
    unfoldable pub resolve_vid : ℕ → List Request → Vdi → ℕ → Option (ℤ × Vdi × List Request)
    resolve_vid zero sent vdi idx = none
    resolve_vid (suc n) sent vdi idx =
        let vid = vdi.inode.data_vdi_id idx in
        let reloaded = and_then (refresh_required n sent vdi) λ (required, sent1).
          if not required
          then some (pos 0, vdi, sent1)
          else and_then (read_inode n sent1 vdi false) λ (ret, vdi1, sent2).
            if is_neg ret then some (ret, vdi1, sent2) else resolve_vid n sent2 vdi1 idx in
        if not (vid == 0) then some (int_of_u32 vid, vdi, sent) else reloaded

    -- sd_update_inode
    unfoldable pub update_inode : ℕ → Session → Vdi → ℕ → Option (ℤ × Vdi × List Request)
    update_inode zero s vdi req_oid = none
    update_inode (suc n) s vdi req_oid =
        let idx = data_oid_to_idx req_oid in
        let req =
          on_object 0x03 0x21 0 4 (vid_to_vdi_oid vdi.vid) 0 0 (u32 (header_size + 4 * idx))
            (vid_word vdi.vid) in
        let (ret, a, s1) = submit cluster s req in
        let reloaded = and_then (read_inode n s1.sent vdi false) λ (ret1, vdi1, sent).
          if is_neg ret1
          then some (ret1, vdi1, sent)
          else update_inode n (fresh sent) vdi1 req_oid in
        if (s1.result == invalidated) || (s1.result == readonly)
        then reloaded
        else some (ret, vdi, s1.sent)
