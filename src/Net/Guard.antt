-- ===== src/Net/Guard.antt =====
-- Which addresses an outbound call may reach (internal/netguard/netguard.go).
use dilion.Base.{
  ℕ, Bool, true, false, ◌||◌, not, List, [], ◌∷◌, ◌++◌, Option, none, some, any, all, eqb,
  if◌then◌else◌,
}
use dilion.Exec.{Result, ok, err}
use dilion.Net.Addr.{
  Addr, Prefix, net4, net6, prefix_from, bit_len, contains_addr, unmap, is_global_unicast,
  is_private,
}
use dilion.Text.Space.{trim_space}

-- `nonPublicPrefixes`.
abbrev pub non_public_prefixes : List Prefix
non_public_prefixes =
    net4 8 0
    ∷ net4 10 0x191
    ∷ net4 24 0xC00000
    ∷ net4 15 0x6309
    ∷ net4 4 0xF
    ∷ net6 96 0x64FF9B0000000000000000
    ∷ net6 48 0x64FF9B0001
    ∷ net6 16 0x2002
    ∷ []

-- `IsPublic`.
abbrev public_unmapped : Addr → Bool
public_unmapped a =
    if not (is_global_unicast a) || is_private a
    then false
    else not (any (λ p. contains_addr p a) non_public_prefixes)

unfoldable pub is_public : Addr → Bool
is_public a = public_unmapped (unmap a)

pub record Networks : Type 0 where
  pub everything : Bool
  pub prefixes : List Prefix

-- `Networks.Contains`.
unfoldable pub in_networks : Networks → Addr → Bool
in_networks n a = n.everything || any (λ p. contains_addr p (unmap a)) n.prefixes

-- `Allowed`.
unfoldable pub allowed : Addr → Networks → Bool
allowed a allow = is_public a || in_networks allow a

-- The parsers of `net/netip` and `net`, on code points.
pub record Parsers : Type 0 where
  pub parse_addr : List ℕ → Option Addr
  pub parse_prefix : List ℕ → Option Prefix
  pub parse_addr_port : List ℕ → Option Addr
  pub split_host : List ℕ → Option (List ℕ)
  pub print_addr : Addr → List ℕ

-- `strings.Split(s, ",")`.
abbrev pub put_first : ℕ → List (List ℕ) → List (List ℕ)
put_first c [] = (c ∷ []) ∷ []
put_first c (p ∷ ps) = (c ∷ p) ∷ ps

unfoldable pub split_commas : List ℕ → List (List ℕ)
split_commas [] = [] ∷ []
split_commas (c ∷ s) =
    let rest = split_commas s in if eqb c b',' then [] ∷ rest else put_first c rest

abbrev of_prefix : Networks → Option Prefix → Option Networks
of_prefix n none = none
of_prefix n (some p) = some (record n { prefixes = n.prefixes ++ p ∷ [] })

abbrev of_addr : Networks → Option Addr → Option Networks
of_addr n none = none
of_addr n (some a) =
    some (record n { prefixes = n.prefixes ++ prefix_from (unmap a) (bit_len (unmap a)) ∷ [] })

abbrev is_star : List ℕ → Bool
is_star (c ∷ []) = eqb c b'*'
is_star _ = false

abbrev is_blank : List ℕ → Bool
is_blank [] = true
is_blank (c ∷ s) = false

module _ (net : Parsers) where
  -- One part of the list.
  abbrev add_part : List ℕ → Networks → Option Networks
  add_part part n =
      if is_blank part
      then some n
      else if is_star part
      then some (record n { everything = true })
      else if any (λ c. eqb c b'/') part
      then of_prefix n (net.parse_prefix part)
      else of_addr n (net.parse_addr part)

  -- The loop of `ParseNetworks`.
  abbrev go_on : Option Networks → (Networks → Option Networks) → Option Networks
  go_on none f = none
  go_on (some n) f = f n

  unfoldable pub parse_parts : List (List ℕ) → Networks → Option Networks
  parse_parts [] n = some n
  parse_parts (p ∷ ps) n = go_on (add_part (trim_space p) n) (parse_parts ps)

  -- `ParseNetworks`.
  unfoldable pub parse_networks : List ℕ → Option Networks
  parse_networks spec =
      parse_parts (split_commas spec) (record { everything = false; prefixes = [] })

  abbrev dialled : Networks → Option Addr → Bool
  dialled allow none = false
  dialled allow (some a) = allowed a allow

  -- `Control`: whether the address that is dialled is let through.
  unfoldable pub control : Networks → List ℕ → Bool
  control allow address = dialled allow (net.parse_addr_port address)

pub data HostError : Type 0 where
  not_public cannot_resolve : HostError

abbrev resolved : Networks → Option (List Addr) → Result HostError (Unit {0})
resolved allow none = err cannot_resolve
resolved allow (some as_) = if all (λ a. allowed a allow) as_ then ok tt else err not_public

abbrev literal : Networks → Option (List Addr) → Option Addr → Result HostError (Unit {0})
literal allow looked_up none = resolved allow looked_up
literal allow looked_up (some a) = if allowed a allow then ok tt else err not_public

-- `CheckHost`; `look_up` is the answer of the resolver.
unfoldable pub check_host :
    Parsers → (List ℕ → Option (List Addr)) → List ℕ → Networks → Result HostError (Unit {0})
check_host net look_up host allow = literal allow (look_up host) (net.parse_addr host)
