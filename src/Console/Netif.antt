-- ===== src/Console/Netif.antt =====
-- set_netif of user/user_main.c, which switches NAT on at an interface of lwIP.
use esp_slip_router.Prelude.{
  ℕ, ◌≡◌, ◌≢◌, refl, ap, false, List, [], ◌∷◌, ◌++◌, ◌==◌, ==_iff, if◌then◌else◌, arith,
}

-- the fields of an element of lwIP's list that the function uses
pub record Netif : Type 0 where
  pub ip_addr : ℕ
  pub napt : ℕ

unfoldable pub set_netif : ℕ → List Netif → List Netif
set_netif netif_ip [] = []
set_netif netif_ip (nif ∷ netif_list) =
    let rest = set_netif netif_ip netif_list in
    if nif.ip_addr == netif_ip then record nif { napt = 1 } ∷ netif_list else nif ∷ rest

-- no interface has the address
pub data Without (ip : ℕ) : List Netif → Type 0 where
  no_netif : Without ip []
  one_other :
      {nif : Netif} {nifs : List Netif}
      → nif.ip_addr ≢ ip
      → Without ip nifs
      → Without ip (nif ∷ nifs)

-- The first interface with the address is changed, and no other.
pub set_netif_lem :
    (ip : ℕ) (before : List Netif) (nif : Netif) (behind : List Netif)
    → Without ip before
    → nif.ip_addr ≡ ip
    → set_netif ip (before ++ nif ∷ behind) ≡ before ++ record nif { napt = 1 } ∷ behind
unfolding set_netif
set_netif_lem ip [] nif behind no_netif h = rw ((==_iff nif.ip_addr ip).1 h) refl
set_netif_lem ip (n ∷ before) nif behind (one_other ne w) h =
    let other : (n.ip_addr == ip) ≡ false = ground arith in
    rw (other, set_netif) (ap (λ l. n ∷ l) (set_netif_lem ip before nif behind w h))
