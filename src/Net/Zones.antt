-- ===== src/Net/Zones.antt =====
-- Addresses with a zone.
use dilion.Base.{
  ℕ, ◌+◌, ◌*◌, ◌^◌, ◌<◌, ◌≡◌, refl, ◌≢◌, true, false, String, ◌==◌, arith, Bool-cases, inl, inr,
}
use text.Mathlib.TextEquality.{eq_iff}
use dilion.Net.Addr
use dilion.Net.Addr.{v6}
use dilion.Net.Guard
use dilion.Net.Guard.{is_public}

zone_differs : (z : String) → z ≢ "" → (z == "") ≡ false
zone_differs z h = elim (Bool-cases (z == "")) [
  | inl t ↦ absurd (h ((eq_iff z "").0 t))
  | inr f ↦ f
]

-- The unspecified address and every NAT64 address of an IPv4 address are not public, but with a
-- zone, which is not empty, they are.
pub zone_hides_address :
    (b : ℕ) (z : String)
    → b < 2 ^ 32
    → z ≢ ""
    → (is_public (v6 0 "") ≡ false)
      × (is_public (v6 0 z) ≡ true)
      × (is_public (v6 (0x64FF9B * 2 ^ 96 + b) "") ≡ false)
      × (is_public (v6 (0x64FF9B * 2 ^ 96 + b) z) ≡ true)
unfolding Guard.is_public Addr.is_global_unicast Addr.is_private
zone_hides_address b z h n =
    (refl, rw (zone_differs z n) refl, ground arith, ground (arith, zone_differs z n))
