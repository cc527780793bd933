-- ===== src/Net/Public.antt =====
-- Which IPv4 addresses are public, in ranges, and those that an IPv6 address writes.
use dilion.Base.{
  ◌∙◌, ℕ, ◌+◌, ◌*◌, ◌/◌, ◌^◌, ◌<◌, ◌≤◌, ◌≡◌, not, ◌||◌, Bool, true, ◌&&◌, any, leb, ltb, suc, eqb,
  String, List, [], ◌∷◌, arith,
}
use native.Mathlib.Decide.{dec_lt}
use dilion.Net.Addr
use dilion.Net.Addr.{v4, v6, unmap, is_no_host}
use dilion.Net.Guard
use dilion.Net.Guard.{is_public}

-- The public IPv4 addresses in order: the first and the last of each range, by its octets.
abbrev octets : (a b c d : ℕ) → ℕ
octets a b c d = a * 0x1000000 + (b * 0x10000 + (c * 0x100 + d))

abbrev public_ranges : List (ℕ × ℕ)
public_ranges =
    (octets 1 0 0 0, octets 9 255 255 255)
    ∷ (octets 11 0 0 0, octets 100 63 255 255)
    ∷ (octets 100 128 0 0, octets 126 255 255 255)
    ∷ (octets 128 0 0 0, octets 169 253 255 255)
    ∷ (octets 169 255 0 0, octets 172 15 255 255)
    ∷ (octets 172 32 0 0, octets 191 255 255 255)
    ∷ (octets 192 0 1 0, octets 192 167 255 255)
    ∷ (octets 192 169 0 0, octets 198 17 255 255)
    ∷ (octets 198 20 0 0, octets 223 255 255 255)
    ∷ []

abbrev pub in_public_range : ℕ → Bool
in_public_range a = any (λ (lo, hi). leb lo a && leb a hi) public_ranges

-- A block of addresses as a range.
in_block : ℕ → ℕ → ℕ → Bool
in_block a size top = leb (top * size) a && ltb a (suc top * size)

div-block_28 : (a top : ℕ) → eqb (a / 2 ^ 28) top ≡ in_block a (2 ^ 28) top
unfolding in_block
div-block_28 a top = ground arith

div-block_24 : (a top : ℕ) → eqb (a / 2 ^ 24) top ≡ in_block a (2 ^ 24) top
unfolding in_block
div-block_24 a top = ground arith

div-block_22 : (a top : ℕ) → eqb (a / 2 ^ 22) top ≡ in_block a (2 ^ 22) top
unfolding in_block
div-block_22 a top = ground arith

div-block_20 : (a top : ℕ) → eqb (a / 2 ^ 20) top ≡ in_block a (2 ^ 20) top
unfolding in_block
div-block_20 a top = ground arith

div-block_17 : (a top : ℕ) → eqb (a / 2 ^ 17) top ≡ in_block a (2 ^ 17) top
unfolding in_block
div-block_17 a top = ground arith

div-block_16 : (a top : ℕ) → eqb (a / 2 ^ 16) top ≡ in_block a (2 ^ 16) top
unfolding in_block
div-block_16 a top = ground arith

div-block_8 : (a top : ℕ) → eqb (a / 2 ^ 8) top ≡ in_block a (2 ^ 8) top
unfolding in_block
div-block_8 a top = ground arith

-- The same tests, on ranges.
abbrev refused_block : ℕ → Bool
refused_block a =
    in_block a (2 ^ 24) 127
    || (in_block a (2 ^ 28) 0xE
        || (in_block a (2 ^ 16) 0xA9FE
            || (in_block a (2 ^ 24) 10
                || (in_block a (2 ^ 20) 0xAC1
                    || (in_block a (2 ^ 16) 0xC0A8
                        || (in_block a (2 ^ 24) 0
                            || (in_block a (2 ^ 22) 0x191
                                || (in_block a (2 ^ 8) 0xC00000
                                    || (in_block a (2 ^ 17) 0x6309
                                        || in_block a (2 ^ 28) 0xF)))))))))

region_0 : (a : ℕ) → 0 ≤ a → a < octets 11 0 0 0 → not (refused_block a) ≡ in_public_range a
unfolding in_block
region_0 a l h = ground arith

region_1 :
    (a : ℕ) → octets 11 0 0 0 ≤ a → a < octets 127 0 0 0 → not (refused_block a) ≡ in_public_range a
unfolding in_block
region_1 a l h = ground arith

region_2 :
    (a : ℕ)
    → octets 127 0 0 0 ≤ a
    → a < octets 172 0 0 0
    → not (refused_block a) ≡ in_public_range a
unfolding in_block
region_2 a l h = ground arith

region_3 :
    (a : ℕ)
    → octets 172 0 0 0 ≤ a
    → a < octets 192 168 0 0
    → not (refused_block a) ≡ in_public_range a
unfolding in_block
region_3 a l h = ground arith

region_4 :
    (a : ℕ)
    → octets 192 168 0 0 ≤ a
    → a < octets 224 0 0 0
    → not (refused_block a) ≡ in_public_range a
unfolding in_block
region_4 a l h = ground arith

region_5 : (a : ℕ) → octets 224 0 0 0 ≤ a → a < 2 ^ 32 → not (refused_block a) ≡ in_public_range a
unfolding in_block
region_5 a l h = ground arith

no_host-refused : (a : ℕ) → is_no_host (v4 a) ≡ true → refused_block a ≡ true
unfolding in_block
no_host-refused a h = ground arith

is_public-refused : (a : ℕ) → is_public (v4 a) ≡ not (refused_block a)
unfolding Guard.is_public Addr.is_global_unicast Addr.is_private
is_public-refused a = rw (div-block_24 a 127) (
    rw (div-block_28 a 0xE) (
      rw (div-block_16 a 0xA9FE) (
        rw (div-block_24 a 10) (
          rw (div-block_20 a 0xAC1) (
            rw (div-block_16 a 0xC0A8) (
              rw (div-block_24 a 0) (
                rw (div-block_22 a 0x191) (
                  rw (div-block_8 a 0xC00000) (
                    rw (div-block_17 a 0x6309)
                      (rw (div-block_28 a 0xF) (ground (arith, no_host-refused a))))))))))))

by_region : (a : ℕ) → a < 2 ^ 32 → not (refused_block a) ≡ in_public_range a
by_region a h = elim (dec_lt a (octets 172 0 0 0)) [
  | yes u3 ↦ elim (dec_lt a (octets 11 0 0 0)) [
    | yes u1 ↦ region_0 a (omega arith) (omega arith)
    | no l1 ↦ elim (dec_lt a (octets 127 0 0 0)) [
      | yes u2 ↦ region_1 a (omega arith) (omega arith)
      | no l2 ↦ region_2 a (omega arith) (omega arith)
    ]
  ]
  | no l3 ↦ elim (dec_lt a (octets 192 168 0 0)) [
    | yes u4 ↦ region_3 a (omega arith) (omega arith)
    | no l4 ↦ elim (dec_lt a (octets 224 0 0 0)) [
      | yes u5 ↦ region_4 a (omega arith) (omega arith)
      | no l5 ↦ region_5 a (omega arith) h
    ]
  ]
]

unmap-mapped : (a : ℕ) (z : String) → a < 2 ^ 32 → unmap (v6 (0xFFFF * 2 ^ 32 + a) z) ≡ v4 a
unmap-mapped a z h = ground arith

-- An IPv4 address is public exactly when it lies in one of the ranges `public_ranges`, and so is an
-- IPv6 address that maps it, whatever its zone.
pub is_public-ranges :
    (a : ℕ) (z : String)
    → a < 2 ^ 32
    → (is_public (v4 a) ≡ in_public_range a)
      × (is_public (v6 (0xFFFF * 2 ^ 32 + a) z) ≡ in_public_range a)
unfolding Guard.is_public
is_public-ranges a z h = (
  is_public-refused a ∙ by_region a h,
  rw (unmap-mapped a z h) (is_public-refused a ∙ by_region a h),
)
