-- ===== src/Sockets/Address.antt =====
-- The address that a server of src/comms.c finds for itself.
use cs550_pa.Prelude.{
  ◌≡◌, refl, ap, Option, none, some, Option-cases, inl, inr, List, [], ◌∷◌, ◌++◌, ℤ,
}
use cs550_pa.Text.Lines.{All, all_nil, all_cons}
use cs550_pa.Sockets.{Interface, usable, get_ipv4_address}

abbrev pub IsUnusable : Interface → Type 0
IsUnusable ifa = usable ifa ≡ none

-- The interface that a search finds: one that has an IPv4 address and is not the loopback, behind others
-- that do not serve.
pub data FirstUsable (ifas : List Interface) : Option ℤ → Type 0 where
  no_usable : All IsUnusable ifas → FirstUsable ifas none
  usable_at :
      (before after : List Interface) (ifa : Interface) (addr : ℤ)
      → ifas ≡ before ++ ifa ∷ after
      → All IsUnusable before
      → usable ifa ≡ some addr
      → FirstUsable ifas (some addr)

later_usable :
    {ifa : Interface} {ifas : List Interface} {r : Option ℤ}
    → IsUnusable ifa
    → FirstUsable ifas r
    → FirstUsable (ifa ∷ ifas) r
later_usable {ifa} {ifas} h (no_usable hs) = no_usable (all_cons ifa ifas h hs)
later_usable {ifa} h (usable_at before after x addr e hs u) =
    usable_at (ifa ∷ before) after x addr (ap (λ l. ifa ∷ l) e) (all_cons ifa before h hs) u

-- `get_ipv4_address` gives the address of the first interface that is not the loopback and has an IPv4
-- address, and -1 only if there is none.
pub get_ipv4_address-FirstUsable :
    (ifas : List Interface) → FirstUsable ifas (get_ipv4_address ifas)
unfolding get_ipv4_address
get_ipv4_address-FirstUsable [] = no_usable all_nil
get_ipv4_address-FirstUsable (ifa ∷ ifas) = elim (Option-cases (usable ifa)) [
  | inl e ↦ rw (e, get_ipv4_address) (later_usable e (get_ipv4_address-FirstUsable ifas))
  | inr (addr, e) ↦ rw (e, get_ipv4_address) (usable_at [] ifas ifa addr refl all_nil e)
]
