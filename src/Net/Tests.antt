-- ===== src/Net/Tests.antt =====
-- Addresses, and a chain of proxies.
use dilion.Base.{ℕ, ◌+◌, ◌*◌, ◌^◌, ◌≡◌, refl, true, false, List, [], ◌∷◌, Option, none, some, arith}
use dilion.Net.Addr.{Addr, v4, v6, net4}
use dilion.Net.Guard
use dilion.Net.Guard.{Networks, Parsers, is_public}
use dilion.Net.ClientIp
use dilion.Net.ClientIp.{client_ip}
use dilion.Net.Public.{in_public_range, is_public-ranges}
use dilion.Net.Zones.{zone_hides_address}
use dilion.Net.Forwarded.{client_ip_unforgeable}
use dilion.Text.Space

is_public-ranges_example :
    (is_public (v4 0x08080808) ≡ in_public_range 0x08080808)
    × (is_public (v6 (0xFFFF * 2 ^ 32 + 0x08080808) "") ≡ in_public_range 0x08080808)
is_public-ranges_example = is_public-ranges 0x08080808 "" (omega arith)

zone_hides_address_example :
    (is_public (v6 0 "") ≡ false)
    × (is_public (v6 0 "lo") ≡ true)
    × (is_public (v6 (0x64FF9B * 2 ^ 96 + 0x7F000001) "") ≡ false)
    × (is_public (v6 (0x64FF9B * 2 ^ 96 + 0x7F000001) "lo") ≡ true)
zone_hides_address_example = zone_hides_address 0x7F000001 "lo" (omega arith) (λ e. cc)

-- Addresses of one character.
abbrev one_character : List ℕ → Option Addr
one_character (c ∷ []) = some (v4 c)
one_character _ = none

abbrev bits_of : Addr → List ℕ
bits_of (v4 a) = a ∷ []
bits_of (v6 a z) = a ∷ []

abbrev small_net : Parsers
small_net = record {
  parse_addr = one_character;
  parse_prefix = λ s. none;
  parse_addr_port = one_character;
  split_host = λ s. none;
  print_addr = bits_of;
}

-- The proxy is trusted.
abbrev proxy : Networks
proxy = record { everything = false; prefixes = net4 32 b'1' ∷ [] }

client_ip_unforgeable_example :
    (client_ip small_net (b'1' ∷ []) ((b'7' ∷ []) ∷ (b'5' ∷ b',' ∷ b'1' ∷ []) ∷ []) proxy
      ≡ b'5' ∷ [])
    × (client_ip small_net
          (b'1' ∷ [])
          ((b'7' ∷ []) ∷ (b'8' ∷ b',' ∷ b'5' ∷ b',' ∷ b'1' ∷ []) ∷ [])
          proxy
        ≡ b'5' ∷ [])
unfolding ClientIp.hops_of ClientIp.join_commas ClientIp.last_untrusted Guard.split_commas
    Guard.in_networks Space.trim_space
client_ip_unforgeable_example =
    client_ip_unforgeable small_net proxy (b'1' ∷ []) ((b'7' ∷ []) ∷ []) (b'8' ∷ [])
      (b'5' ∷ b',' ∷ b'1' ∷ []) [] (v4 b'1') (v4 b'5') refl refl refl
