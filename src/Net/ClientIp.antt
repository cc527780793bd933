-- ===== src/Net/ClientIp.antt =====
-- The address of the caller of a request (internal/netguard/netguard.go, ClientIP).
use dilion.Base.{
  ℕ, Bool, true, false, ◌||◌, not, List, [], ◌∷◌, ◌++◌, Option, none, some, if◌then◌else◌,
}
use dilion.Net.Addr.{Addr, unmap}
use dilion.Net.Guard.{Networks, Parsers, in_networks, split_commas}
use dilion.Text.Space.{trim_space}

-- `strings.Join(lines, ",")`.
unfoldable pub join_commas : List (List ℕ) → List ℕ
join_commas [] = []
join_commas (l ∷ []) = l
join_commas (l ∷ m ∷ ls) = l ++ (b',' ∷ join_commas (m ∷ ls))

abbrev pub with_hop : Option Addr → List Addr → List Addr
with_hop none hops = hops
with_hop (some a) hops = unmap a ∷ hops

-- The first hop from the right that is not trusted.
unfoldable pub last_untrusted : Networks → List Addr → Option Addr
last_untrusted trusted [] = none
last_untrusted trusted (h ∷ hs) =
    let rest = last_untrusted trusted hs in
    elim rest [ some a ↦ some a | none ↦ if in_networks trusted h then none else some h ]

module _ (net : Parsers) where
  -- The parts of the header that are addresses.
  unfoldable pub hops_of : List (List ℕ) → List Addr
  hops_of [] = []
  hops_of (p ∷ ps) = with_hop (net.parse_addr (trim_space p)) (hops_of ps)

  abbrev pub peer_of : List ℕ → List ℕ
  peer_of remote = elim (net.split_host remote) [ none ↦ remote | some host ↦ host ]

  abbrev among : Option Addr → Addr → List ℕ
  among (some a) first = net.print_addr a
  among none first = net.print_addr first

  -- The client among the hops.
  abbrev pub pick_hop : Networks → List ℕ → List Addr → List ℕ
  pick_hop trusted peer [] = peer
  pick_hop trusted peer (h ∷ hs) = among (last_untrusted trusted (h ∷ hs)) h

  abbrev is_trusted : Networks → Option Addr → Bool
  is_trusted trusted none = false
  is_trusted trusted (some a) = in_networks trusted a

  abbrev pub no_lines : List (List ℕ) → Bool
  no_lines [] = true
  no_lines (l ∷ ls) = false

  -- `ClientIP`.
  unfoldable pub client_ip : List ℕ → List (List ℕ) → Networks → List ℕ
  client_ip remote xff trusted =
      let peer = peer_of remote in
      if no_lines xff || not (is_trusted trusted (net.parse_addr peer))
      then peer
      else pick_hop trusted peer (hops_of (split_commas (join_commas xff)))
