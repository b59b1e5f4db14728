-- ===== src/Examples/Addresses.antt =====
-- Addresses packed and unpacked, masks and networks.
use spicy.Base.{
  pos, ℕ, ◌+◌, ◌≡◌, refl, none, some, List, [], ◌∷◌, ◌++◌, replicate, arith, ok, err, undefined,
  length-replicate,
}
use spicy.Integer.{Width, size_of, little_endian, little}
use spicy.Address.{
  Address, ipv4, ipv6, Resolver, parse, pack_address, unpack_address, Network, network_of,
  network_of_text, prefix_length, extra_bits,
}
use spicy.Address.Packing.{unpack_address-pack_address}
use spicy.Address.Masks.{InHalves}
use spicy.Address.Networks.{Covers, network_of-Covers}

abbrev zeros : Width → List ℕ
zeros w = replicate (size_of w) 0

abbrev documentation : Address
documentation = record { a1 = 2306139568115548160; a2 = 1; family = ipv6 }

abbrev private_network : Address
private_network = record { a1 = 0; a2 = 167772161; family = ipv4 }

-- The texts "::" and "::ffff:192.0.2.128", as a library may read them.
abbrev texts : Resolver
texts = record {
  pton4 = λ s. none;
  pton6 = λ s. elim s [
    | [] ↦ none
    | ◌∷◌ c cs ↦ elim cs [
      | [] ↦ none
      | ◌∷◌ d ds ↦ elim ds [ [] ↦ some (0, 1) | ◌∷◌ e es ↦ some (0, 281473902969472) ]
    ]
  ];
}

-- An IPv4 address in the form of IPv6 does not become one of the family IPv4.
mapped_stays_ipv6 :
    parse texts (58 ∷ 58 ∷ 102 ∷ []) ≡ ok (record { a1 = 0; a2 = 281473902969472; family = ipv6 })
unfolding parse
mapped_stays_ipv6 = refl

-- The whole of 128 bits, of an IPv6 address that became one of IPv4.
text_network_undefined : network_of_text texts (58 ∷ 58 ∷ []) (pos 128) ≡ err undefined
unfolding network_of_text
text_network_undefined = refl

unpack_address_example :
    (bytes : List ℕ) × (pack_address little_endian zeros documentation little ≡ ok bytes)
    × (unpack_address little_endian (bytes ++ (7 ∷ [])) ipv6 little ≡ ok (documentation, 7 ∷ []))
unpack_address_example =
    unpack_address-pack_address little_endian zeros documentation (7 ∷ []) little
      (λ w. length-replicate (size_of w) 0) (omega arith, omega arith) (λ e. cc)

network_of_example :
    (w : Network) × (network_of private_network (pos 8) ≡ ok w)
    × (prefix_length w ≡ 8)
    × (w.length ≡ 8 + extra_bits ipv4)
    × ((x : Address) → InHalves x → Covers w private_network x)
network_of_example = network_of-Covers private_network 8 (omega arith, omega arith) (omega arith)
