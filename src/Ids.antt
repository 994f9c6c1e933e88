-- ===== src/Ids.antt =====
-- The 64-bit ids that the library hands out: a thread's number in the high half and the thread's own
-- 32-bit counter in the low half (connection ids in baselib/net/thread_local_conn_manager.cc and
-- baselib/net/io_thread_pool_manager.cc, fiber ids in baselib/net/fiber_data_manager.cc).
use service_framework.Prelude.{
  ℕ, bit_and, bit_or, ap, arith, bit_or_shifted, bit_and_low, ◌+◌, ◌*◌, ◌/◌, ◌%◌, ◌^◌, ◌<◌, ◌≡◌,
  ◌∙◌,
}

abbrev pub u32_mod : ℕ
u32_mod = 2 ^ 32

abbrev pub u64_mod : ℕ
u64_mod = 2 ^ 64

-- `static_cast<uint64_t>(high) << 32 | low`
unfoldable pub make_id : ℕ → ℕ → ℕ
make_id high low = bit_or (high * u32_mod % u64_mod) low

-- `id >> 32`
abbrev pub high_part : ℕ → ℕ
high_part id = id / u32_mod

-- `id & 0xffffffff`
unfoldable pub low_part : ℕ → ℕ
low_part id = bit_and id 0xffff_ffff

pub make_id_lem : (high low : ℕ) → low < u32_mod → make_id high low ≡ high % u32_mod * u32_mod + low
unfolding make_id
make_id_lem high low h =
    let wrap : high * u32_mod % u64_mod ≡ high % u32_mod * u32_mod = omega arith in
    ap (λ t. bit_or t low) wrap ∙ bit_or_shifted 32 (high % u32_mod) low h

pub low_part_lem : (id : ℕ) → low_part id ≡ id % u32_mod
unfolding low_part
low_part_lem id = bit_and_low 32 id

pub low_part-make_id : (high low : ℕ) → low < u32_mod → low_part (make_id high low) ≡ low
low_part-make_id high low h = omega (arith, low_part_lem (make_id high low), make_id_lem high low h)

pub high_part-make_id :
    (high low : ℕ) → high < u32_mod → low < u32_mod → high_part (make_id high low) ≡ high
high_part-make_id high low hh hl = omega (arith, make_id_lem high low hl)

pub make_id-lt : (high low : ℕ) → low < u32_mod → make_id high low < u64_mod
make_id-lt high low h = omega (arith, make_id_lem high low h)
