-- ===== src/Net/Addr.antt =====
-- What internal/netguard uses of Go's `net/netip`.
use dilion.Base.{
  ℕ, ◌-◌, ◌/◌, ◌%◌, ◌^◌, Bool, false, ◌&&◌, ◌||◌, not, String, ◌==◌, eqb, if◌then◌else◌,
}

-- The bits of the address, and the zone of an IPv6 address, which is mostly empty.
pub data Addr : Type 0 where
  v4 : ℕ → Addr
  v6 : ℕ → String → Addr

-- `addr.BitLen()`.
abbrev pub bit_len : Addr → ℕ
bit_len (v4 a) = 32
bit_len (v6 a z) = 128

-- A masked prefix: the leading bits, how many they are, and the family. It has no zone.
pub data Prefix : Type 0 where
  net4 : (bits top : ℕ) → Prefix
  net6 : (bits top : ℕ) → Prefix

-- `netip.PrefixFrom(a, bits).Masked()`.
abbrev pub prefix_from : Addr → ℕ → Prefix
prefix_from (v4 a) bits = net4 bits (a / 2 ^ (32 - bits))
prefix_from (v6 a z) bits = net6 bits (a / 2 ^ (128 - bits))

-- `Contains`: an address with a zone is in no prefix.
abbrev pub contains_addr : Prefix → Addr → Bool
contains_addr (net4 bits top) (v4 a) = eqb (a / 2 ^ (32 - bits)) top
contains_addr (net4 bits top) (v6 a z) = false
contains_addr (net6 bits top) (v4 a) = false
contains_addr (net6 bits top) (v6 a z) = z == "" && eqb (a / 2 ^ (128 - bits)) top

-- `Unmap`: an IPv4 address in `::ffff:0:0/96` becomes one of IPv4, without zone.
abbrev pub unmap : Addr → Addr
unmap (v4 a) = v4 a
unmap (v6 a z) = if eqb (a / 2 ^ 32) 0xFFFF then v4 (a % 2 ^ 32) else v6 a z

abbrev pub is_loopback : Addr → Bool
is_loopback (v4 a) = eqb (a / 2 ^ 24) 127
is_loopback (v6 a z) = eqb a 1

abbrev pub is_multicast : Addr → Bool
is_multicast (v4 a) = eqb (a / 2 ^ 28) 0xE
is_multicast (v6 a z) = eqb (a / 2 ^ 120) 0xFF

abbrev pub is_link_local_unicast : Addr → Bool
is_link_local_unicast (v4 a) = eqb (a / 2 ^ 16) 0xA9FE
is_link_local_unicast (v6 a z) = eqb (a / 2 ^ 118) 0x3FA

-- `a == IPv4Unspecified()`, the broadcast address, or `a == IPv6Unspecified()`, which has no zone.
abbrev pub is_no_host : Addr → Bool
is_no_host (v4 a) = eqb a 0 || eqb a 0xFFFFFFFF
is_no_host (v6 a z) = eqb a 0 && z == ""

-- `IsGlobalUnicast`.
unfoldable pub is_global_unicast : Addr → Bool
is_global_unicast a =
    not (is_no_host a)
    && (not (is_loopback a) && (not (is_multicast a) && not (is_link_local_unicast a)))

-- `IsPrivate`: 10/8, 172.16/12, 192.168/16 and fc00::/7.
unfoldable pub is_private : Addr → Bool
is_private (v4 a) = eqb (a / 2 ^ 24) 10 || (eqb (a / 2 ^ 20) 0xAC1 || eqb (a / 2 ^ 16) 0xC0A8)
is_private (v6 a z) = eqb (a / 2 ^ 121) 0x7E
