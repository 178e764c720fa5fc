-- ===== src/Loop/Entries.antt =====
-- What the entries of a request move between the backing file and the request's memory.
use s3blk.Base.{
  Option, none, some, true, false, ◌==◌, ◌||◌, if◌then◌else◌, ◌⊎◌, ℕ, zero, suc, ◌/◌, ◌%◌, ◌^◌, ◌≡◌,
  ◌↔◌, arith, Bool, not, ◌&&◌, List, [], ◌∷◌, ◌++◌, has_bit, bit_or,
}
use s3blk.Ublk.{IoDesc, get_op, io_bytes, op_read, op_write, op_write_zeroes, f_fua, ublk_pos}
use s3blk.Loop.{
  LoopTgtData, Buf, io_buf, at_addr, registered, Work, read_file, write_file, fsync_file,
  fallocate_file, buf_register, buf_unregister, Sqe, file_pos, lo_rw, lo_rw_zero_copy,
  lo_rw_user_copy, queue_tgt_rw, fallocate_mode, keep_size, zero_range,
}

-- Where data is: at a position of the ublk char device or of the backing file, at an address of
-- the request, or in the buffer that the driver has registered under a tag. `unknown` is data that
-- no entry before has put there.
pub data Place : Type 0 where
  device : ℕ → Place
  file : ℕ → Place
  address : ℕ → Place
  registration : ℕ → Place
  unknown : Place

-- Data of a length that goes from one place to another, synchronously or not.
pub record Move : Type 0 where
  pub from : Place
  pub to : Place
  pub len : ℕ
  pub dsync : Bool

abbrev place_of : ℕ → ℕ → Place
place_of zero at = device at
place_of (suc fd) at = file at

-- What the library's buffer of a tag holds, from where and for how long, and the tag under which a
-- buffer is registered.
pub record Memory : Type 0 where
  pub held : Option (ℕ × Place × ℕ)
  pub registered_tag : Option ℕ

abbrev found : Memory → Buf → ℕ → Place
found m (io_buf tag) len = elim m.held [
  | none ↦ unknown
  | some (tag', p, len') ↦ if tag == tag' && len == len' then p else unknown
]
found m (at_addr a) len = address a
found m (registered tag) len = elim m.registered_tag [
  | none ↦ unknown
  | some tag' ↦ if tag == tag' then registration tag else unknown
]

-- What an entry moves: a read into the library's buffer only fills that, and any other read or
-- write moves data between a file and the memory of the request.
abbrev moves_of : Memory → Work → Bool → List Move × Memory
moves_of m (read_file fd (io_buf tag) len at) dsync =
    ([], record m { held = some (tag, place_of fd at, len) })
moves_of m (read_file fd (at_addr a) len at) dsync =
    (record { from = place_of fd at; to = address a; len = len; dsync = dsync } ∷ [], m)
moves_of m (read_file fd (registered tag) len at) dsync =
    let to = found m (registered tag) len in
    (record { from = place_of fd at; to = to; len = len; dsync = dsync } ∷ [], m)
moves_of m (write_file fd buf len at) dsync =
    let from = found m buf len in
    (record { from = from; to = place_of fd at; len = len; dsync = dsync } ∷ [], m)
moves_of m fsync_file dsync = ([], m)
moves_of m (fallocate_file mode at len) dsync = ([], m)
moves_of m (buf_register tag) dsync = ([], record m { registered_tag = some tag })
moves_of m (buf_unregister tag) dsync = ([], record m { registered_tag = none })

-- What a list of entries moves if they are carried out in their order.
abbrev pub moves : Memory → List Sqe → List Move
moves m [] = []
moves m (s ∷ r) = let (l, m') = moves_of m s.work s.dsync in l ++ moves m' r

-- Each entry waits for the one before it.
abbrev pub is_chain : List Sqe → Bool
is_chain [] = true
is_chain (s ∷ []) = not s.link
is_chain (s ∷ t ∷ r) = s.link && is_chain (t ∷ r)

-- Before the entries: the buffer of the tag holds nothing, and the driver has registered a buffer
-- under the tag exactly if it does so by itself.
abbrev pub before : LoopTgtData → ℕ → Memory
before d tag = record { held = none; registered_tag = if d.auto_zc then some tag else none }

-- Zero copy through registered buffers is chosen.
abbrev pub plain_zero_copy : LoopTgtData → Bool
plain_zero_copy d = not d.auto_zc && d.zero_copy

-- Where the data of a request is, for the target.
abbrev pub request_data : ℕ → LoopTgtData → IoDesc → ℕ → Place
request_data q_id d iod tag =
    if d.auto_zc || d.zero_copy
    then registration tag
    else if d.user_copy
    then device (ublk_pos q_id tag 0)
    else address iod.addr

-- Whatever the copy mode, the entries of a read or a write are done one after the other, and move
-- data exactly once: a read moves the request's bytes from its position of the backing file to the
-- data of the request, and a write the other way; a write is synchronous exactly if the request
-- asks for force unit access and the mode is not zero copy.
pub queue_tgt_rw-moves :
    (q_id : ℕ) (d : LoopTgtData) (iod : IoDesc) (tag : ℕ)
    → (get_op iod ≡ op_read) ⊎ (get_op iod ≡ op_write)
    → let sqes = (queue_tgt_rw q_id d iod tag).1 in
      let here = file (file_pos d iod) in
      let there = request_data q_id d iod tag in
      let len = io_bytes iod in
      let dsync = not (plain_zero_copy d) && has_bit iod.op_flags f_fua in
      (is_chain sqes ≡ true)
      × (moves (before d tag) sqes
          ≡ (if get_op iod == op_read
              then record { from = here; to = there; len = len; dsync = false }
              else record { from = there; to = here; len = len; dsync = dsync })
            ∷ [])
unfolding queue_tgt_rw lo_rw lo_rw_zero_copy lo_rw_user_copy
queue_tgt_rw-moves q_id d iod tag h = ground arith

-- Write-zeroes is a punched hole unless bit 23 of the request's flags is set.
pub fallocate_mode-zeroes :
    (iod : IoDesc)
    → get_op iod ≡ op_write_zeroes
    → (fallocate_mode iod ≡ bit_or keep_size zero_range) ↔ (iod.op_flags / 2 ^ 23 % 2 ≡ 1)
unfolding fallocate_mode
fallocate_mode-zeroes iod h = ground arith
