-- ===== src/Snowflake/Fields.antt =====
-- The fields of an id, and which ids can be the same.
use service_framework.Prelude.{
  ℕ, bit_and, bit_or, sym, ap, arith, bit_or_shifted, bit_and_low, ◌+◌, ◌*◌, ◌%◌, ◌^◌, ◌<◌, ◌≡◌,
  ◌∙◌, ◌↔◌,
}
use service_framework.Ids.{u64_mod}
use service_framework.Snowflake.{pack_id}

-- `|` below the lowest bit in use.
bit_or_below : (k a h l : ℕ) → a ≡ h * 2 ^ k → l < 2 ^ k → bit_or a l ≡ a + l
bit_or_below k a h l e fits =
    ap (λ t. bit_or t l) e ∙ bit_or_shifted k h l fits ∙ ap (λ t. t + l) (sym e)

-- The id is the sum of its fields: 25 bits of the time, 5 of the data centre, 5 of the worker and 12
-- of the counter.
pub pack_id_lem :
    (timestamp data_center worker sequence : ℕ)
    → pack_id timestamp data_center worker sequence
      ≡ timestamp % 2 ^ 25 * 2 ^ 22
        + data_center % 2 ^ 5 * 2 ^ 17
        + worker % 2 ^ 5 * 2 ^ 12
        + sequence % 2 ^ 12
unfolding pack_id
pack_id_lem t d w s =
    let a = bit_and t 0x1FFFFFF * 2 ^ 22 % u64_mod in
    let b = bit_and d 0x1F * 2 ^ 17 in
    let c = bit_and w 0x1F * 2 ^ 12 in
    let e = bit_and s 0xFFF in
    let t' = t % 2 ^ 25 in
    let d' = d % 2 ^ 5 in
    let w' = w % 2 ^ 5 in
    let ea : a ≡ t' * 2 ^ 22 = omega (arith, bit_and_low 25 t) in
    let eb : b ≡ d' * 2 ^ 17 = omega (arith, bit_and_low 5 d) in
    let ec : c ≡ w' * 2 ^ 12 = omega (arith, bit_and_low 5 w) in
    let ee : e ≡ s % 2 ^ 12 = omega (arith, bit_and_low 12 s) in
    let ab : bit_or a b ≡ a + b = bit_or_below 22 a t' b ea (omega arith) in
    let abc : bit_or (bit_or a b) c ≡ a + b + c =
      bit_or_below 17 (bit_or a b) (t' * 32 + d') c (omega arith) (omega arith)
      ∙ ap (λ x. x + c) ab in
    let abce : bit_or (bit_or (bit_or a b) c) e ≡ bit_or (bit_or a b) c + e =
      bit_or_below 12 (bit_or (bit_or a b) c) ((t' * 32 + d') * 32 + w') e (omega arith)
        (omega arith) in
    omega arith

-- Two ids are the same exactly when their times agree modulo 2^25 milliseconds (9 hours and 19
-- minutes), their data centres and workers modulo 32, and their counters modulo 4096.
pub pack_id_same_iff :
    (t d w s t' d' w' s' : ℕ)
    → pack_id t d w s ≡ pack_id t' d' w' s'
      ↔ (t % 2 ^ 25 ≡ t' % 2 ^ 25)
        × (d % 32 ≡ d' % 32)
        × (w % 32 ≡ w' % 32)
        × (s % 4096 ≡ s' % 4096)
pack_id_same_iff t d w s t' d' w' s' = (
  λ h. (
    omega (arith, pack_id_lem t d w s, pack_id_lem t' d' w' s', h),
    omega (arith, pack_id_lem t d w s, pack_id_lem t' d' w' s', h),
    omega (arith, pack_id_lem t d w s, pack_id_lem t' d' w' s', h),
    omega (arith, pack_id_lem t d w s, pack_id_lem t' d' w' s', h),
  ),
  λ h. omega (arith, pack_id_lem t d w s, pack_id_lem t' d' w' s', h.0, h.1, h.2, h.3),
)
