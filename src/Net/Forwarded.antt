-- ===== src/Net/Forwarded.antt =====
-- What a client writes into X-Forwarded-For does not change what a trusted proxy says of it.
use dilion.Base.{
  ℕ, ◌≡◌, refl, sym, ap, ◌∙◌, true, false, List, [], ◌∷◌, ◌++◌, Option, none, some, eqb, Bool-cases,
  inl, inr,
}
use mathlib.Core.List.{append_assoc}
use dilion.Net.Addr.{Addr}
use dilion.Text.Space.{trim_space}
use dilion.Net.Guard
use dilion.Net.Guard.{Networks, Parsers, in_networks, split_commas, put_first}
use dilion.Net.ClientIp
use dilion.Net.ClientIp.{
  client_ip, hops_of, join_commas, no_lines, last_untrusted, peer_of, pick_hop, with_hop,
}

put_first-append :
    (c : ℕ) (p : List ℕ) (ps qs : List (List ℕ))
    → put_first c ((p ∷ ps) ++ qs) ≡ put_first c (p ∷ ps) ++ qs
put_first-append c p ps qs = refl

split_commas-cons : (s : List ℕ) → (p : List ℕ) × (ps : List (List ℕ)) × (split_commas s ≡ p ∷ ps)
unfolding Guard.split_commas
split_commas-cons [] = ([], [], refl)
split_commas-cons (c ∷ s) =
    let (p, ps, e) = split_commas-cons s in
    elim (Bool-cases (eqb c b',')) [
      | inl t ↦ ([], split_commas s, rw t refl)
      | inr f ↦ (c ∷ p, ps, rw (f, e) refl)
    ]

-- The parts of a list that is continued after a comma.
split_commas-append :
    (x y : List ℕ) → split_commas (x ++ (b',' ∷ y)) ≡ split_commas x ++ split_commas y
unfolding Guard.split_commas
split_commas-append [] y = refl
split_commas-append (c ∷ x) y =
    let (p, ps, e) = split_commas-cons x in
    elim (Bool-cases (eqb c b',')) [
      | inl t ↦ rw (t, split_commas-append x y) refl
      | inr f ↦ rw (f, split_commas-append x y, e) refl
    ]

join_commas-append :
    (x y : List ℕ) (xs ys : List (List ℕ))
    → join_commas ((x ∷ xs) ++ (y ∷ ys)) ≡ join_commas (x ∷ xs) ++ (b',' ∷ join_commas (y ∷ ys))
unfolding ClientIp.join_commas
join_commas-append x y [] ys = refl
join_commas-append x y (x2 ∷ xs) ys =
    ap (λ l. x ++ (b',' ∷ l)) (join_commas-append x2 y xs ys)
    ∙ sym (append_assoc x (b',' ∷ join_commas (x2 ∷ xs)) (b',' ∷ join_commas (y ∷ ys)))

join_commas-head :
    (lie y : List ℕ) (ys : List (List ℕ))
    → join_commas ((lie ++ (b',' ∷ y)) ∷ ys) ≡ lie ++ (b',' ∷ join_commas (y ∷ ys))
unfolding ClientIp.join_commas
join_commas-head lie y [] = refl
join_commas-head lie y (z ∷ ys) = append_assoc lie (b',' ∷ y) (b',' ∷ join_commas (z ∷ ys))

last_untrusted-append :
    (trusted : Networks) (xs ys : List Addr) (a : Addr)
    → last_untrusted trusted ys ≡ some a
    → last_untrusted trusted (xs ++ ys) ≡ some a
unfolding ClientIp.last_untrusted
last_untrusted-append trusted [] ys a e = e
last_untrusted-append trusted (x ∷ xs) ys a e = rw (last_untrusted-append trusted xs ys a e) refl

with_hop-append :
    (h : Option Addr) (xs ys : List Addr) → with_hop h (xs ++ ys) ≡ with_hop h xs ++ ys
with_hop-append none xs ys = refl
with_hop-append (some a) xs ys = refl

module _ (net : Parsers) where
  hops_of-append :
      (xs ys : List (List ℕ)) → hops_of net (xs ++ ys) ≡ hops_of net xs ++ hops_of net ys
  unfolding ClientIp.hops_of
  hops_of-append [] ys = refl
  hops_of-append (x ∷ xs) ys =
      ap (with_hop (net.parse_addr (trim_space x))) (hops_of-append xs ys)
      ∙ with_hop-append (net.parse_addr (trim_space x)) (hops_of net xs) (hops_of net ys)

  -- The hops that a header names.
  abbrev hops_in : List ℕ → List Addr
  hops_in header = hops_of net (split_commas header)

  hops_in-append : (x y : List ℕ) → hops_in (x ++ (b',' ∷ y)) ≡ hops_in x ++ hops_in y
  hops_in-append x y =
      rw (split_commas-append x y) (hops_of-append (split_commas x) (split_commas y))

  hops_in-lines :
      (lies : List (List ℕ)) (y : List ℕ) (ys : List (List ℕ))
      → (pre : List Addr) × (hops_in (join_commas (lies ++ (y ∷ ys)))
          ≡ pre ++ hops_in (join_commas (y ∷ ys)))
  hops_in-lines [] y ys = ([], refl)
  hops_in-lines (l ∷ ls) y ys = (
    hops_in (join_commas (l ∷ ls)),
    rw (join_commas-append l y ls ys)
        (hops_in-append (join_commas (l ∷ ls)) (join_commas (y ∷ ys))),
  )

  pick_hop-untrusted :
      (trusted : Networks) (peer : List ℕ) (hops : List Addr) (a : Addr)
      → last_untrusted trusted hops ≡ some a
      → pick_hop net trusted peer hops ≡ net.print_addr a
  unfolding ClientIp.last_untrusted
  pick_hop-untrusted trusted peer [] a e = cc
  pick_hop-untrusted trusted peer (h ∷ hs) a e = rw e refl

  some_lines :
      (lies : List (List ℕ)) (y : List ℕ) (ys : List (List ℕ))
      → no_lines net (lies ++ (y ∷ ys)) ≡ false
  some_lines [] y ys = refl
  some_lines (l ∷ ls) y ys = refl

  client_ip-hops :
      (trusted : Networks) (remote : List ℕ) (xff : List (List ℕ)) (p : Addr)
      → no_lines net xff ≡ false
      → net.parse_addr (peer_of net remote) ≡ some p
      → in_networks trusted p ≡ true
      → client_ip net remote xff trusted
        ≡ pick_hop net trusted (peer_of net remote) (hops_in (join_commas xff))
  unfolding ClientIp.client_ip
  client_ip-hops trusted remote xff p n h t = rw (n, h, t) refl

  client_ip-after :
      (trusted : Networks) (remote : List ℕ) (lies : List (List ℕ)) (z : List ℕ)
      (ys : List (List ℕ)) (p a : Addr)
      → net.parse_addr (peer_of net remote) ≡ some p
      → in_networks trusted p ≡ true
      → last_untrusted trusted (hops_in (join_commas (z ∷ ys))) ≡ some a
      → client_ip net remote (lies ++ (z ∷ ys)) trusted ≡ net.print_addr a
  client_ip-after trusted remote lies z ys p a h t u =
      let (pre, e) = hops_in-lines lies z ys in
      client_ip-hops trusted remote (lies ++ (z ∷ ys)) p (some_lines lies z ys) h t
      ∙ pick_hop-untrusted trusted (peer_of net remote) (hops_in (join_commas (lies ++ (z ∷ ys)))) a
          (rw e (last_untrusted-append trusted pre (hops_in (join_commas (z ∷ ys))) a u))

  -- With a trusted peer, the client is the last hop, that is not trusted, of the lines `y ∷ ys` that
  -- the proxies wrote; whatever lines stand before them, and whatever stands before them in the
  -- first one of the lines.
  pub client_ip_unforgeable :
      (trusted : Networks) (remote : List ℕ) (lies : List (List ℕ)) (lie y : List ℕ)
      (ys : List (List ℕ)) (p a : Addr)
      → net.parse_addr (peer_of net remote) ≡ some p
      → in_networks trusted p ≡ true
      → last_untrusted trusted (hops_of net (split_commas (join_commas (y ∷ ys)))) ≡ some a
      → (client_ip net remote (lies ++ (y ∷ ys)) trusted ≡ net.print_addr a)
        × (client_ip net remote (lies ++ ((lie ++ (b',' ∷ y)) ∷ ys)) trusted ≡ net.print_addr a)
  client_ip_unforgeable trusted remote lies lie y ys p a h t u = (
    client_ip-after trusted remote lies y ys p a h t u,
    client_ip-after trusted remote lies (lie ++ (b',' ∷ y)) ys p a h t (
        rw (join_commas-head lie y ys, hops_in-append lie (join_commas (y ∷ ys)))
          (last_untrusted-append trusted (hops_in lie) (hops_in (join_commas (y ∷ ys))) a u)),
  )
