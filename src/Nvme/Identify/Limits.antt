-- ===== src/Nvme/Identify/Limits.antt =====
-- The limits that a device announces are ones the target can serve.
use s3blk.Base.{ℕ, ◌*◌, ◌^◌, ◌<◌, ◌≤◌, ◌≡◌, ◌⊎◌, arith, ltb, ◌==◌, if◌then◌else◌, u32, ◌<<◌, ◌>>◌}
use s3blk.Nvme.Types.{TgtData, page_size}
use s3blk.Nvme.Identify.{max_bytes, params_of}
use native.Mathlib.Nat.{pow-le-pow_right}

-- The two of them, for the product `p` of the power and the page size.
limited :
    (mdts b p : ℕ)
    → page_size ≤ b
    → page_size ≤ p
    → let m = if mdts == 0 then b else if ltb p b then p else b in
      (m >> 9 << 9 ≤ b) × ((mdts ≡ 0) ⊎ (m >> 9 << 9 ≤ p)) × (8 ≤ m >> 9)
limited mdts b p h g = (ground arith, ground arith, ground arith)

power_room : (n : ℕ) → n < 20 → (1 ≤ 2 ^ n) × (2 ^ n ≤ 2 ^ 19)
power_room n h = (low, high)
  where
    two : 0 < 2
    two = omega arith

    low : 2 ^ 0 ≤ 2 ^ n
    low = pow-le-pow_right {n = 2} two {i = 0} {j = n} (omega arith)

    high : 2 ^ n ≤ 2 ^ 19
    high = pow-le-pow_right {n = 2} two {i = n} {j = 19} (omega (arith, h))

no_wrap : (p : ℕ) → p ≤ 2 ^ 19 → u32 (u32 (1 * p) * page_size) ≡ p * page_size
no_wrap p h = omega (arith, h)

-- For MDTS below 20 and a buffer of at least a page, a request of max_sectors fits the buffer of
-- its tag and what the controller takes in one command, and there is room for at least a page.
pub params_of_limits :
    (d : TgtData)
    → d.mdts < 20
    → page_size ≤ d.max_io_buf_bytes
    → ((params_of d).max_sectors << 9 ≤ d.max_io_buf_bytes)
      × ((d.mdts ≡ 0) ⊎ ((params_of d).max_sectors << 9 ≤ 2 ^ d.mdts * page_size))
      × (8 ≤ (params_of d).max_sectors)
unfolding params_of max_bytes
params_of_limits d small page =
    let r = power_room d.mdts small in
    let e = no_wrap (2 ^ d.mdts) r.1 in
    rw e (limited d.mdts d.max_io_buf_bytes (2 ^ d.mdts * page_size) page (omega (arith, r.0)))
