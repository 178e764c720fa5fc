-- ===== src/Nvme/Io/Commands.antt =====
-- The commands that the io path builds, and the synchronous copies around them.
use s3blk.Base.{
  ℕ, ◌+◌, ◌-◌, ◌*◌, ◌/◌, ◌%◌, ◌^◌, ◌≤◌, ◌≡◌, ◌↔◌, inl, inr, refl, sym, ap, ◌∙◌, suc, Bool-cases,
  arith, Bool, true, false, not, ◌==◌, if◌then◌else◌, u16, u32,
}
use native.Mathlib.Nat.{pow-suc, one-le-pow, mul-div_cancel}
use s3blk.Base.Int.{ℤ, pos, negsuc, is_neg, pos_part, eio}
use s3blk.Ublk.{IoDesc, ublk_pos}
use s3blk.Nvme.Types.{Dptr, TgtData}
use s3blk.Nvme.State.{Env, user_copy_sync}
use s3blk.Nvme.Io.{rw_cmd, rw_fua, lba_of}

-- `1 << k` sectors make a block of `1 << (k + 9)` bytes.
block_bytes : (shift : ℕ) → 9 ≤ shift → 2 ^ shift ≡ 512 * 2 ^ (shift - 9)
block_bytes shift h = ap (λ n. 2 ^ n) lifted ∙ nine (shift - 9)
  where
    nine : (s : ℕ) → 2 ^ suc (suc (suc (suc (suc (suc (suc (suc (suc s)))))))) ≡ 512 * 2 ^ s
    nine s = omega (
      arith,
      pow-suc 2 (suc (suc (suc (suc (suc (suc (suc (suc s)))))))),
      pow-suc 2 (suc (suc (suc (suc (suc (suc (suc s))))))),
      pow-suc 2 (suc (suc (suc (suc (suc (suc s)))))),
      pow-suc 2 (suc (suc (suc (suc (suc s))))),
      pow-suc 2 (suc (suc (suc (suc s)))),
      pow-suc 2 (suc (suc (suc s))),
      pow-suc 2 (suc (suc s)),
      pow-suc 2 (suc s),
      pow-suc 2 s,
    )

    lifted : shift ≡ suc (suc (suc (suc (suc (suc (suc (suc (suc (shift - 9)))))))))
    lifted = omega arith

lba_exact :
    (d : TgtData) (sectors k : ℕ)
    → 9 ≤ d.lba_shift
    → sectors * 512 ≡ k * 2 ^ d.lba_shift
    → lba_of d sectors ≡ k
lba_exact d sectors k h e =
    let w = block_bytes d.lba_shift h in
    let positive = one-le-pow (d.lba_shift - 9) 2 (omega arith) in
    let scaled : sectors ≡ k * 2 ^ (d.lba_shift - 9) = grind (arith, rw w at e) in
    rw scaled (mul-div_cancel k positive)

-- For a request that is aligned to logical blocks, and of at most 65536 of them, the command
-- names exactly the bytes of the request.
pub rw_cmd-range :
    (d : TgtData) (iod : IoDesc) (tag : ℕ) (p : Dptr) (k m : ℕ)
    → 9 ≤ d.lba_shift
    → iod.start_sector * 512 ≡ k * 2 ^ d.lba_shift
    → iod.nr_sectors * 512 ≡ m * 2 ^ d.lba_shift
    → 1 ≤ m
    → m ≤ 2 ^ 16
    → let c = rw_cmd d iod tag p in
      (c.slba * 2 ^ d.lba_shift ≡ iod.start_sector * 512)
      × ((c.nlb + 1) * 2 ^ d.lba_shift ≡ iod.nr_sectors * 512)
unfolding rw_cmd
rw_cmd-range d iod tag p k m h start size lo hi =
    let first = lba_exact d iod.start_sector k h start in
    let count = lba_exact d iod.nr_sectors m h size in
    let length : u16 (u32 (m + 2 ^ 32 - 1)) + 1 ≡ m = omega arith in
    rw (first, count, length) (sym start, sym size)

-- The command asks for force unit access exactly if bit 21 of the request's flags is set.
pub rw_cmd-fua :
    (d : TgtData) (iod : IoDesc) (tag : ℕ) (p : Dptr)
    → ((rw_cmd d iod tag p).control ≡ rw_fua) ↔ (iod.op_flags / 2 ^ 21 % 2 ≡ 1)
unfolding rw_cmd
rw_cmd-fua d iod tag p = ground arith

copied_all :
    (len : ℕ) (moved : ℤ)
    → (is_neg (if is_neg moved then moved else if not (pos_part moved == len) then eio else pos 0)
        ≡ false)
      ↔ (moved ≡ pos len)
copied_all len (pos n) = elim (Bool-cases (n == len)) [
  | inl same ↦ rw same (λ e. ap pos (ground arith), λ e. refl)
  | inr other ↦ rw other (λ e. absurd (cc e), λ e. absurd (ground (arith, ap pos_part e)))
]
copied_all len (negsuc n) = (λ e. absurd (cc e), λ e. absurd (cc e))

-- The copy succeeds exactly if the kernel moved every byte; a short copy is an error.
pub user_copy_sync_complete :
    (env : Env) (q_id tag io_buf len : ℕ) (to_ublk : Bool) (moved : ℤ)
    → (to_ublk ≡ true → env.pwrite io_buf len (ublk_pos q_id tag 0) ≡ moved)
    → (to_ublk ≡ false → env.pread io_buf len (ublk_pos q_id tag 0) ≡ moved)
    → (is_neg (user_copy_sync env q_id tag io_buf len to_ublk) ≡ false) ↔ (moved ≡ pos len)
unfolding user_copy_sync
user_copy_sync_complete env q_id tag io_buf len true moved w r = rw (w refl) (copied_all len moved)
user_copy_sync_complete env q_id tag io_buf len false moved w r = rw (r refl) (copied_all len moved)
